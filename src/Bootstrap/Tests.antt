-- ===== src/Bootstrap/Tests.antt =====
-- A start and a sign-out of src/service/bootstrap.ts.
use rclone_proton_drive_webd.Base.{
  ◌≡◌, refl, true, false, Option, none, some, [], ◌∷◌, if◌then◌else◌,
}
use rclone_proton_drive_webd.Base.Text.{Text, text_dec, text_eq}
use rclone_proton_drive_webd.Base.Map.{get}
use rclone_proton_drive_webd.Base.Int.{pos}
use rclone_proton_drive_webd.Base.Action.{failed}
use rclone_proton_drive_webd.Gateway.{Bytes}
use rclone_proton_drive_webd.Session.Disk.{utf8_text}
use rclone_proton_drive_webd.Session.Directory.{User}
use rclone_proton_drive_webd.Session.Lock.{cli_events_lock_filename, lock_json, is_process_alive}
use rclone_proton_drive_webd.Session.Store.Signout.{Stays}
use rclone_proton_drive_webd.Session.Tests.{
  host, started, file_with, disk_with, read_pid, read_pid-lock_json, parse, as_text, marker_text,
  session_entry, signed_in, unique,
}
use rclone_proton_drive_webd.Webdav.Dispatch.{is_options, method_of, handle_request}
use rclone_proton_drive_webd.Webdav.Tests.{gateway_at_7, no_url, overwrite, server, expired}
use rclone_proton_drive_webd.Bootstrap.{
  Home, concurrent_client, Start, bootstrap_service, Latched, latched_remove,
}
use rclone_proton_drive_webd.Bootstrap.Refusal.{bootstrap_service-IsActive}
use rclone_proton_drive_webd.Bootstrap.Latch.{signed_out, handle_request-latched_remove}

-- The process 8 holds the events lock.
abbrev busy : Home
busy = record {
  place = none;
  disk = disk_with ((cli_events_lock_filename, file_with (utf8_text (lock_json 8 started))) ∷ []);
}

abbrev pub user : User
user = record {
  uid = some 1000;
  creator = 1000;
  default_mode = 493;
  mkdir_fails = none;
  lstat_fails = none;
  chmod_fails = none;
}

abbrev pub start : Start
start = record {
  allow_concurrent_client = false;
  init_succeeds = true;
  can_listen_for_events = true;
  started_at = started;
}

abbrev pub read_uid : Bytes → Option Text
read_uid raw = some raw

bootstrap_service-IsActive_example :
    bootstrap_service read_pid read_uid as_text user host start unique unique busy
    ≡ (failed concurrent_client, busy)
unfolding get text_dec text_eq is_process_alive
bootstrap_service-IsActive_example =
    bootstrap_service-IsActive read_pid read_uid as_text user host start unique unique
      (file_with (utf8_text (lock_json 8 started))) busy refl refl refl
      (record {
        pid = pos 8;
        kind = refl;
        names = read_pid-lock_json 8 started;
        lives = refl;
        other = refl;
        recent = refl;
      })

abbrev latched : Latched
latched = record { store = signed_in; session_rejected = false }

handle_request-latched_remove_example :
    Stays parse as_text as_text marker_text host session_entry
      (signed_out parse as_text as_text marker_text host started unique latched).store.disk
    × ((handle_request gateway_at_7 no_url overwrite expired 9 server).0.status
        ≡ (if is_options (method_of overwrite.method) then 200 else 401))
    × ((handle_request gateway_at_7 no_url overwrite expired 9 server).1 ≡ server)
unfolding get text_dec text_eq latched_remove
handle_request-latched_remove_example =
    handle_request-latched_remove parse as_text as_text marker_text host gateway_at_7 no_url
      session_entry started unique latched overwrite expired 9 server refl tt refl
