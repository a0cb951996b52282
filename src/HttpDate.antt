-- ===== src/HttpDate.antt =====
-- JavaScript's `new Date(ms)` and `toUTCString`, which the headers and the listings carry.
pub mod Tests
use rclone_proton_drive_webd.Base.{
  ℕ, ◌+◌, ◌-◌, ◌*◌, ◌/◌, ◌%◌, Bool, List, [], ◌∷◌, ◌++◌, ltb, leb, ◌==◌, if◌then◌else◌, take,
  length,
}
use rclone_proton_drive_webd.Base.Text.{Text, codes}
use rclone_proton_drive_webd.Base.Int.{ℤ, pos, negsuc, magnitude, floor_div}
use rclone_proton_drive_webd.Gateway.{Date, invalid, at}
use rclone_proton_drive_webd.Number.{decimal}

-- The largest distance from 1970 that a `Date` can have, in milliseconds.
abbrev pub max_time : ℕ
max_time = 8640000000000000

-- `new Date(ms)`
abbrev pub new_date : ℤ → Date
new_date t = if leb (magnitude t) max_time then at t else invalid

-- Days are counted from the first of March of a year far enough back for every `Date`: 700 eras of
-- 400 years before year 0. An era has 146097 days.
abbrev pub era_shift : ℕ
era_shift = 102267900

abbrev pub day_number : ℤ → ℕ
day_number (pos n) = era_shift + 719468 + n / 86400000
day_number (negsuc n) = era_shift + 719468 - (n / 86400000 + 1)

-- The milliseconds since midnight.
abbrev pub time_of_day : ℤ → ℕ
time_of_day (pos n) = n % 86400000
time_of_day (negsuc n) = 86399999 - n % 86400000

pub record Civil : Type 0 where
  pub year_of_shift : ℕ
  pub month : ℕ
  pub day : ℕ

-- Year (counted from 280000 years before year 0), month and day of a day number.
unfoldable pub civil : ℕ → Civil
civil z =
    let era = z / 146097 in
    let doe = z % 146097 in
    let yoe = (doe - doe / 1460 + doe / 36524 - doe / 146096) / 365 in
    let doy = doe - (365 * yoe + yoe / 4 - yoe / 100) in
    let mp = (5 * doy + 2) / 153 in
    let month = if ltb mp 10 then mp + 3 else mp - 9 in
    record {
      year_of_shift = yoe + era * 400 + (if leb month 2 then 1 else 0);
      month = month;
      day = doy - (153 * mp + 2) / 5 + 1;
    }

abbrev pub pad : ℕ → ℕ → Text
pad width n = let s = decimal n in take (width - length s) (codes "000000") ++ s

abbrev pub year_text : ℕ → Text
year_text y = if leb 280000 y then pad 4 (y - 280000) else b'-' ∷ pad 4 (280000 - y)

abbrev pub weekday : ℕ → Text
weekday z =
    let d = (z + 3) % 7 in
    if d == 0
    then codes "Sun"
    else if d == 1
    then codes "Mon"
    else if d == 2
    then codes "Tue"
    else if d == 3
    then codes "Wed"
    else if d == 4
    then codes "Thu"
    else if d == 5
    then codes "Fri"
    else codes "Sat"

abbrev pub month_name : ℕ → Text
month_name m =
    if m == 1
    then codes "Jan"
    else if m == 2
    then codes "Feb"
    else if m == 3
    then codes "Mar"
    else if m == 4
    then codes "Apr"
    else if m == 5
    then codes "May"
    else if m == 6
    then codes "Jun"
    else if m == 7
    then codes "Jul"
    else if m == 8
    then codes "Aug"
    else if m == 9
    then codes "Sep"
    else if m == 10
    then codes "Oct"
    else if m == 11
    then codes "Nov"
    else codes "Dec"

unfoldable pub to_utc_string : Date → Text
unfolding civil decimal
to_utc_string invalid = codes "Invalid Date"
to_utc_string (at t) =
    let z = day_number t in
    let c = civil z in
    let s = time_of_day t / 1000 in
    weekday z
    ++ (codes ", "
        ++ (pad 2 c.day
            ++ (codes " "
                ++ (month_name c.month
                    ++ (codes " "
                        ++ (year_text c.year_of_shift
                            ++ (codes " "
                                ++ (pad 2 (s / 3600)
                                    ++ (codes ":"
                                        ++ (pad 2 (s / 60 % 60)
                                            ++ (codes ":"
                                                ++ (pad 2 (s % 60) ++ codes " GMT"))))))))))))
