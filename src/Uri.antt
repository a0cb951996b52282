-- ===== src/Uri.antt =====
-- JavaScript's `encodeURIComponent` and `decodeURIComponent`, which src/service/paths.ts calls, on
-- lists of code points. Decoding runs over the escapes, then over the bytes of UTF-8.
pub mod Escape
pub mod RoundTrip
use mathlib.Core.Option
use rclone_proton_drive_webd.Base.{
  ℕ, zero, suc, ◌+◌, ◌-◌, ◌*◌, ◌/◌, ◌%◌, ◌<◌, ◌≤◌, ◌⊎◌, Bool, ◌&&◌, ◌||◌, Option, none, some, List,
  [], ◌∷◌, ◌++◌, ltb, leb, ◌==◌, if◌then◌else◌,
}
use rclone_proton_drive_webd.Base.Text.{Text, codes, includes_char}

abbrev pub in_range : ℕ → ℕ → ℕ → Bool
in_range lo hi c = leb lo c && leb c hi

-- The characters that are not escaped: letters, digits and - _ . ! ~ * ' ( ).
unfoldable pub is_unreserved : ℕ → Bool
unfolding includes_char
is_unreserved c =
    in_range 65 90 c || in_range 97 122 c || in_range 48 57 c || includes_char (codes "-_.!~*'()") c

unfoldable pub hex : ℕ → ℕ
hex n = if ltb n 10 then 48 + n else 55 + n

abbrev pub percent : ℕ → Text
percent b = b'%' ∷ hex (b / 16) ∷ hex (b % 16) ∷ []

-- The bytes of UTF-8, the first one and those that follow.
unfoldable pub utf8 : ℕ → List ℕ
utf8 c =
    if ltb c 128
    then c ∷ []
    else if ltb c 2048
    then (192 + c / 64) ∷ (128 + c % 64) ∷ []
    else if ltb c 65536
    then (224 + c / 4096) ∷ (128 + c / 64 % 64) ∷ (128 + c % 64) ∷ []
    else (240 + c / 262144) ∷ (128 + c / 4096 % 64) ∷ (128 + c / 64 % 64) ∷ (128 + c % 64) ∷ []

abbrev pub percents : List ℕ → Text
percents [] = []
percents (b ∷ bs) = percent b ++ percents bs

unfoldable pub encode_char : ℕ → Text
unfolding is_unreserved hex utf8
encode_char c = if is_unreserved c then c ∷ [] else percents (utf8 c)

unfoldable pub encode_uri_component : Text → Text
unfolding encode_char
encode_uri_component [] = []
encode_uri_component (c ∷ s) = encode_char c ++ encode_uri_component s

unfoldable pub hex_digit : ℕ → Option ℕ
hex_digit c =
    if in_range 48 57 c
    then some (c - 48)
    else if in_range 65 70 c
    then some (c - 55)
    else if in_range 97 102 c
    then some (c - 87)
    else none

-- A character as it stands, or the byte of an escape.
pub data Piece : Type 0 where
  raw : ℕ → Piece
  byte : ℕ → Piece

pub data Pending : Type 0 where
  idle : Pending
  first : Pending
  second : ℕ → Pending

-- Reads the escapes; `none` for a `%` without two hexadecimal digits.
unfoldable pub scan : Pending → Text → Option (List Piece)
scan idle [] = some []
scan first [] = none
scan (second h) [] = none
scan idle (c ∷ s) =
    let escape = scan first s in
    let plain = Option.map (λ ps. raw c ∷ ps) (scan idle s) in if c == b'%' then escape else plain
scan first (c ∷ s) = elim (hex_digit c) [ none ↦ none | some h ↦ scan (second h) s ]
scan (second h) (c ∷ s) = elim (hex_digit c) [
  | none ↦ none
  | some l ↦ Option.map (λ ps. byte (16 * h + l) ∷ ps) (scan idle s)
]

-- What a sequence of bytes still lacks: the bytes to come after the next, the value so far and the
-- least value that may be written with so many bytes.
pub data Sequence : Type 0 where
  start : Sequence
  more : ℕ → ℕ → ℕ → Sequence

-- What the first byte of a character says.
pub data Lead : Type 0 where
  single : Lead
  opens : ℕ → ℕ → ℕ → Lead
  malformed : Lead

unfoldable pub lead : ℕ → Lead
lead b =
    if ltb b 128
    then single
    else if in_range 192 223 b
    then opens 0 (b - 192) 128
    else if in_range 224 239 b
    then opens 1 (b - 224) 2048
    else if in_range 240 247 b
    then opens 2 (b - 240) 65536
    else malformed

-- A scalar value that needs its number of bytes.
abbrev pub is_shortest_scalar : ℕ → ℕ → Bool
is_shortest_scalar least v = leb least v && leb v 0x10ffff && (ltb v 0xd800 || ltb 0xdfff v)

-- Reads UTF-8; `none` for a sequence that is malformed, too long or not a scalar value.
unfoldable pub assemble : Sequence → List Piece → Option Text
assemble start [] = some []
assemble (more k acc least) [] = none
assemble start (raw c ∷ ps) = Option.map (λ s. c ∷ s) (assemble start ps)
assemble (more k acc least) (raw c ∷ ps) = none
assemble start (byte b ∷ ps) = elim (lead b) [
  | single ↦ Option.map (λ s. b ∷ s) (assemble start ps)
  | opens k acc least ↦ assemble (more k acc least) ps
  | malformed ↦ none
]
assemble (more zero acc least) (byte b ∷ ps) =
    let v = acc * 64 + (b - 128) in
    let rest = Option.map (λ s. v ∷ s) (assemble start ps) in
    if in_range 128 191 b && is_shortest_scalar least v then rest else none
assemble (more (suc k) acc least) (byte b ∷ ps) =
    let rest = assemble (more k (acc * 64 + (b - 128)) least) ps in
    if in_range 128 191 b then rest else none

abbrev pub then_assemble : Option (List Piece) → Option Text
then_assemble none = none
then_assemble (some ps) = assemble start ps

-- `none` stands for the `URIError`.
unfoldable pub decode_uri_component : Text → Option Text
unfolding scan assemble hex_digit lead
decode_uri_component s = then_assemble (scan idle s)

-- A Unicode scalar value, the character of a well-formed string.
abbrev pub IsScalar : ℕ → Type 0
IsScalar c = (c ≤ 0x10ffff) × ((c < 0xd800) ⊎ (0xdfff < c))
