-- ===== src/Paths.antt =====
-- src/service/paths.ts: the path helpers of the WebDAV layer, over lists of code points.
pub mod Segments
pub mod Href
pub mod Tests
use mathlib.Core.Option
use mathlib.Core.Option.{get_or}
use rclone_proton_drive_webd.Base.{
  ℕ, Bool, true, false, not, ◌&&◌, ◌||◌, Option, none, some, List, [], ◌∷◌, ◌++◌, ◌==◌,
  if◌then◌else◌, filter, drop_last, last_or, is_empty,
}
use rclone_proton_drive_webd.Base.Text.{Text, codes, text_dec, ◌===◌, includes_char, ends_with_char}
use rclone_proton_drive_webd.Uri.{encode_uri_component, decode_uri_component}

abbrev pub slash : ℕ
slash = b'/'

abbrev pub dot : Text
dot = b'.' ∷ []

abbrev pub dot_dot : Text
dot_dot = b'.' ∷ b'.' ∷ []

-- `p.split('/')`; the empty text has one empty part.
abbrev pub push_front : ℕ → List Text → List Text
push_front c [] = (c ∷ []) ∷ []
push_front c (part ∷ parts) = (c ∷ part) ∷ parts

unfoldable pub split : Text → List Text
split [] = [] ∷ []
split (c ∷ s) = let parts = split s in if c == slash then [] ∷ parts else push_front c parts

-- `parts.join('/')`
unfoldable pub join_parts : List Text → Text
join_parts [] = []
join_parts (part ∷ []) = part
join_parts (part ∷ next ∷ parts) = part ++ slash ∷ join_parts (next ∷ parts)

abbrev pub is_kept : Text → Bool
is_kept s = not (is_empty s) && not (s === dot)

unfoldable pub segments : Text → List Text
unfolding split
segments p = filter is_kept (split p)

unfoldable pub normalize : Text → Text
unfolding segments join_parts
normalize p = slash ∷ join_parts (segments p)

unfoldable pub is_root : Text → Bool
unfolding segments
is_root p = is_empty (segments p)

unfoldable pub base_name : Text → Text
unfolding segments
base_name p = last_or [] (segments p)

unfoldable pub parent_path : Text → Text
unfolding segments join_parts
parent_path p =
    if is_empty (segments p) then slash ∷ [] else slash ∷ join_parts (drop_last (segments p))

unfoldable pub join : Text → Text → Text
unfolding normalize
join a b = normalize (a ++ slash ∷ b)

unfoldable pub is_safe_segment : Text → Bool
is_safe_segment name =
    if is_empty name || name === dot || name === dot_dot
    then false
    else if includes_char name slash || includes_char name 0
    then false
    else true

unfoldable pub decode : Text → Text
unfolding decode_uri_component
decode p = get_or (decode_uri_component p) p

abbrev pub encode_segments : List Text → Text
encode_segments [] = []
encode_segments (s ∷ segs) = slash ∷ encode_uri_component s ++ encode_segments segs

unfoldable pub encode_href : Text → Text
unfolding segments encode_uri_component
encode_href p =
    let encoded = encode_segments (segments p) in
    if is_empty encoded
    then slash ∷ []
    else encoded ++ (if ends_with_char p slash then slash ∷ [] else [])
