-- ===== src/HttpDate/Tests.antt =====
-- Dates at concrete times.
use rclone_proton_drive_webd.Base.{◌≡◌, refl}
use rclone_proton_drive_webd.Base.Text.{codes}
use rclone_proton_drive_webd.Base.Int.{pos, negsuc}
use rclone_proton_drive_webd.Gateway.{at}
use rclone_proton_drive_webd.HttpDate.{to_utc_string}

dates :
    (to_utc_string (at (pos 1136214245000)) ≡ codes "Mon, 02 Jan 2006 15:04:05 GMT")
    × (to_utc_string (at (pos 0)) ≡ codes "Thu, 01 Jan 1970 00:00:00 GMT")
    × (to_utc_string (at (pos 951782400000)) ≡ codes "Tue, 29 Feb 2000 00:00:00 GMT")
    × (to_utc_string (at (negsuc 0)) ≡ codes "Wed, 31 Dec 1969 23:59:59 GMT")
unfolding to_utc_string
dates = (refl, refl, refl, refl)
