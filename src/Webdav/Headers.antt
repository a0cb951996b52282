-- ===== src/Webdav/Headers.antt =====
-- The other headers that src/service/webdav.ts reads.
use rclone_proton_drive_webd.Base.{
  ℕ, ◌+◌, ◌-◌, ◌==◌, Bool, true, false, not, ◌&&◌, Option, none, some, List, [], ◌∷◌, leb,
  if◌then◌else◌, is_empty,
}
use rclone_proton_drive_webd.Base.Text.{Text, codes, ◌===◌, text_dec}
use rclone_proton_drive_webd.Base.Int.{ℤ, scale}
use rclone_proton_drive_webd.Gateway.{Date, invalid}
use rclone_proton_drive_webd.HttpDate.{new_date}
use rclone_proton_drive_webd.Number.{is_space, parse_int}

-- Header values are bytes: case is that of Latin-1.
abbrev pub upper_char : ℕ → ℕ
upper_char c = if leb 97 c && leb c 122 then c - 32 else c

abbrev pub lower_char : ℕ → ℕ
lower_char c =
    if leb 65 c && leb c 90
    then c + 32
    else if leb 192 c && leb c 222 && not (c == 215)
    then c + 32
    else c

abbrev pub to_upper : Text → Text
to_upper [] = []
to_upper (c ∷ s) = upper_char c ∷ to_upper s

abbrev pub to_lower : Text → Text
to_lower [] = []
to_lower (c ∷ s) = lower_char c ∷ to_lower s

-- `s.split(/\s+/)`; the first part is empty where the text begins with a space. The flag says that
-- the character before was a space.
abbrev pub push_char : ℕ → List Text → List Text
push_char c [] = (c ∷ []) ∷ []
push_char c (w ∷ ws) = (c ∷ w) ∷ ws

unfoldable pub split_spaces : Bool → Text → List Text
split_spaces spaced [] = [] ∷ []
split_spaces spaced (c ∷ s) =
    let after = split_spaces true s in
    let inside = push_char c (split_spaces false s) in
    if is_space c then (if spaced then after else [] ∷ after) else inside

-- The parts of `token.split(':')`.
unfoldable pub split_colon : Text → List Text
split_colon [] = [] ∷ []
split_colon (c ∷ s) =
    let parts = split_colon s in if c == b':' then [] ∷ parts else push_char c parts

abbrev pub sha1_of_parts : List Text → Option Text
sha1_of_parts [] = none
sha1_of_parts (algo ∷ []) = none
sha1_of_parts (algo ∷ value ∷ rest) =
    if not (is_empty algo) && not (is_empty value) && to_upper algo === codes "SHA1"
    then some (to_lower value)
    else none

abbrev pub or_next : Option Text → Option Text → Option Text
or_next none o = o
or_next (some a) o = some a

unfoldable pub first_sha1 : List Text → Option Text
unfolding split_colon text_dec
first_sha1 [] = none
first_sha1 (token ∷ tokens) = or_next (sha1_of_parts (split_colon token)) (first_sha1 tokens)

unfoldable pub parse_oc_checksum : Option Text → Option Text
unfolding split_spaces is_space first_sha1
parse_oc_checksum none = none
parse_oc_checksum (some []) = none
parse_oc_checksum (some (c ∷ s)) = first_sha1 (split_spaces false (c ∷ s))

abbrev pub date_of_seconds : Option ℤ → Date
date_of_seconds none = invalid
date_of_seconds (some t) = new_date (scale t 1000)

-- `X-OC-Mtime`
unfoldable pub parse_mtime : Option Text → Option Date
unfolding parse_int
parse_mtime none = none
parse_mtime (some []) = none
parse_mtime (some (c ∷ s)) = some (date_of_seconds (parse_int (c ∷ s)))

-- `Content-Length`; `none` for a header that is missing or no number.
unfoldable pub parse_content_length : Option Text → Option ℤ
unfolding parse_int
parse_content_length none = none
parse_content_length (some s) = parse_int s
