-- ===== src/Paths/Href.antt =====
-- The href that a client is given resolves, when it is requested, to the path that it was made for.
use mathlib.Core.Option
use mathlib.Core.Option.{get_or}
use rclone_proton_drive_webd.Base.{
  ◌≡◌, refl, sym, ◌∙◌, ap, inl, inr, List, [], ◌∷◌, ◌++◌, arith, if◌then◌else◌, All, Bool-cases,
  filter, ◌==◌, append_assoc, append-nil, Option, none, some,
}
use rclone_proton_drive_webd.Base.Text.{Text, ends_with_char}
use rclone_proton_drive_webd.Uri.{IsScalar, decode_uri_component}
use rclone_proton_drive_webd.Uri.RoundTrip.{decode-raw, decode-encode_append}
use rclone_proton_drive_webd.Paths.{
  slash, split, join_parts, push_front, is_kept, segments, normalize, decode, encode_segments,
  encode_href,
}
use rclone_proton_drive_webd.Paths.Segments.{
  normalize_iff, segments-IsSegment, segments-join_parts, IsSegment, segments-append,
}

decode_lem : (s : Text) → decode s ≡ get_or (decode_uri_component s) s
unfolding decode
decode_lem s = refl

segments-nil : segments [] ≡ []
unfolding segments
segments-nil = refl

segments-root : segments (slash ∷ []) ≡ []
unfolding segments
segments-root = refl

decode-root : decode (slash ∷ []) ≡ slash ∷ []
unfolding decode
decode-root = refl

-- A path of characters that a well-formed string can hold.
abbrev pub IsWellFormed : Text → Type 0
IsWellFormed p = All IsScalar p

-- The decoded form of `encode_segments`.
abbrev rooted : List Text → Text
rooted [] = []
rooted (s ∷ segs) = slash ∷ s ++ rooted segs

decode-encode_segments :
    (segs : List Text) (rest : Text)
    → All IsWellFormed segs
    → decode_uri_component (encode_segments segs ++ rest)
      ≡ Option.map (λ r. rooted segs ++ r) (decode_uri_component rest)
decode-encode_segments [] rest h = ground arith
decode-encode_segments (s ∷ segs) rest (p, h) =
    decode-raw slash _ (omega arith)
    ∙ rw (append_assoc, decode-encode_append s _ p, decode-encode_segments segs rest h)
        (shift (decode_uri_component rest))
  where
    shift :
        (o : Option Text)
        → Option.map
            (λ t. slash ∷ t)
            (Option.map (λ r. s ++ r) (Option.map (λ r. rooted segs ++ r) o))
          ≡ Option.map (λ r. rooted (s ∷ segs) ++ r) o
    shift none = refl
    shift (some r) = ap some (ap (λ l. slash ∷ l) (sym (append_assoc s (rooted segs) r)))

rooted-join_parts : (x : Text) (xs : List Text) → rooted (x ∷ xs) ≡ slash ∷ join_parts (x ∷ xs)
unfolding join_parts
rooted-join_parts x [] = ap (λ l. slash ∷ l) (append-nil x)
rooted-join_parts x (y ∷ xs) = ap (λ l. slash ∷ x ++ l) (rooted-join_parts y xs)

split-IsWellFormed : (p : Text) → IsWellFormed p → All IsWellFormed (split p)
unfolding split
split-IsWellFormed [] h = (tt, tt)
split-IsWellFormed (c ∷ s) (p, h) = go (split s) (split-IsWellFormed s h)
  where
    go :
        (l : List Text)
        → All IsWellFormed l
        → All IsWellFormed (if c == slash then [] ∷ l else push_front c l)
    go [] w = ground arith
    go (x ∷ l) w = ground arith

filter-IsWellFormed : (l : List Text) → All IsWellFormed l → All IsWellFormed (filter is_kept l)
filter-IsWellFormed [] h = tt
filter-IsWellFormed (x ∷ l) (w, h) = ground (arith, filter-IsWellFormed l h)

segments-IsWellFormed : (p : Text) → IsWellFormed p → All IsWellFormed (segments p)
unfolding segments
segments-IsWellFormed p h = filter-IsWellFormed (split p) (split-IsWellFormed p h)

decode-eq-some : (s t : Text) → decode_uri_component s ≡ some t → decode s ≡ t
decode-eq-some s t e = rw decode_lem (ap (λ o. get_or o s) e)

tail_of : Text → Text
tail_of p = if ends_with_char p slash then slash ∷ [] else []

decode-tail_of : (p : Text) → decode_uri_component (tail_of p) ≡ some (tail_of p)
unfolding tail_of decode_uri_component
decode-tail_of p = elim (Bool-cases (ends_with_char p slash)) [ inl e ↦ rw e | inr e ↦ rw e ]

segments-tail_of : (a p : Text) → segments (a ++ tail_of p) ≡ segments a
unfolding tail_of
segments-tail_of a p = elim (Bool-cases (ends_with_char p slash)) [
  | inl e ↦ rw (e, segments-append a []) (ap (λ l. segments a ++ l) segments-nil ∙ append-nil _)
  | inr e ↦ rw (e, append-nil a)
]

encode_href-root : (p : Text) → segments p ≡ [] → encode_href p ≡ slash ∷ []
unfolding encode_href
encode_href-root p e = rw e

encode_href-cons :
    (p x : Text) (xs : List Text)
    → segments p ≡ x ∷ xs
    → encode_href p ≡ encode_segments (x ∷ xs) ++ tail_of p
unfolding encode_href tail_of
encode_href-cons p x xs e = rw e

-- Decoding the href of a well-formed path and normalising it, as the server does with the path of a
-- request, gives the path's normal form back, whatever characters its segments hold.
pub normalize-decode-encode_href :
    (p : Text) → IsWellFormed p → normalize (decode (encode_href p)) ≡ normalize p
normalize-decode-encode_href p h = go (segments p) refl
  where
    go : (l : List Text) → segments p ≡ l → normalize (decode (encode_href p)) ≡ normalize p
    go [] e = (normalize_iff _ p).0.1 (rw (encode_href-root p e, decode-root, e) segments-root)
    go (x ∷ xs) e =
        let w : All IsWellFormed (x ∷ xs) = rw e at (segments-IsWellFormed p h) in
        let c : All IsSegment (x ∷ xs) = rw e at (segments-IsSegment p) in
        let decoded : decode (encode_href p) ≡ rooted (x ∷ xs) ++ tail_of p = decode-eq-some _ _ (
          ap decode_uri_component (encode_href-cons p x xs e)
          ∙ decode-encode_segments (x ∷ xs) (tail_of p) w
          ∙ ap (Option.map (λ r. rooted (x ∷ xs) ++ r)) (decode-tail_of p)) in
        (normalize_iff _ p).0.1 (
          ap segments decoded
          ∙ segments-tail_of (rooted (x ∷ xs)) p
          ∙ ap segments (rooted-join_parts x xs)
          ∙ segments-join_parts (x ∷ xs) c
          ∙ sym e)
