-- ===== src/Webdav/Range.antt =====
-- `parseRange` of src/service/webdav.ts.
pub mod Bounds
use rclone_proton_drive_webd.Base.{
  ℕ, ◌-◌, ◌==◌, Bool, true, false, not, ◌&&◌, ◌||◌, Option, none, some, List, [], ◌∷◌, ltb, leb,
  if◌then◌else◌, min, is_empty,
}
use rclone_proton_drive_webd.Base.Text.{Text, codes}
use rclone_proton_drive_webd.Number.{is_digit, read_digits, trim}

pub data RangeResult : Type 0 where
  bytes_range : ℕ → ℕ → RangeResult
  no_range : RangeResult
  unsatisfiable : RangeResult

-- The text behind a prefix.
unfoldable pub strip_prefix : Text → Text → Option Text
strip_prefix [] s = some s
strip_prefix (x ∷ p) [] = none
strip_prefix (x ∷ p) (y ∷ s) = let rest = strip_prefix p s in if x == y then rest else none

-- `\d*`: the digits in front, and the rest.
unfoldable pub span_digits : Text → Text × Text
span_digits [] = ([], [])
span_digits (c ∷ s) =
    let (ds, rest) = span_digits s in if is_digit c then (c ∷ ds, rest) else ([], c ∷ s)

-- The two groups of `^bytes=(\d*)-(\d*)$`.
abbrev pub match_end : Text → Text × Text → Option (Text × Text)
match_end start (ds, []) = some (start, ds)
match_end start (ds, c ∷ rest) = none

abbrev pub match_dash : Text × Text → Option (Text × Text)
match_dash (ds, []) = none
match_dash (ds, c ∷ rest) = if c == b'-' then match_end ds (span_digits rest) else none

abbrev pub match_bytes : Option Text → Option (Text × Text)
match_bytes none = none
match_bytes (some s) = match_dash (span_digits s)

unfoldable pub match_range : Text → Option (Text × Text)
unfolding strip_prefix span_digits
match_range s = match_bytes (strip_prefix (codes "bytes=") s)

-- `parseInt` of a text of digits.
abbrev pub digits_value : Text → ℕ
digits_value s = (read_digits 0 s).0

abbrev pub start_of : Text → Text → ℕ → ℕ
start_of start_str end_str total_size =
    if is_empty start_str && not (is_empty end_str)
    then total_size - digits_value end_str
    else if is_empty start_str
    then 0
    else digits_value start_str

-- In an empty file the end is -1 in the source; it is not read there.
abbrev pub end_of : Text → Text → ℕ → ℕ
end_of start_str end_str total_size =
    if is_empty start_str && not (is_empty end_str)
    then total_size - 1
    else if is_empty end_str
    then total_size - 1
    else digits_value end_str

abbrev pub resolve_range : ℕ → ℕ → ℕ → RangeResult
resolve_range start end total_size =
    if total_size == 0
    then unsatisfiable
    else if leb total_size start || ltb end start
    then unsatisfiable
    else bytes_range start (min end (total_size - 1))

abbrev pub range_of_match : Option (Text × Text) → ℕ → RangeResult
range_of_match none total_size = no_range
range_of_match (some (start_str, end_str)) total_size =
    resolve_range (start_of start_str end_str total_size) (end_of start_str end_str total_size)
      total_size

unfoldable pub parse_range : Option Text → ℕ → RangeResult
unfolding match_range trim read_digits
parse_range none total_size = no_range
parse_range (some []) total_size = no_range
parse_range (some (c ∷ s)) total_size = range_of_match (match_range (trim (c ∷ s))) total_size
