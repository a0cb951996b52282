-- ===== src/Uri/RoundTrip.antt =====
-- `decodeURIComponent` undoes `encodeURIComponent`.
use mathlib.Core.Option
use rclone_proton_drive_webd.Base.{
  ℕ, ◌≡◌, ◌≢◌, refl, ◌∙◌, true, inl, inr, Option, none, some, List, [], ◌∷◌, ◌++◌, arith, map, All,
  Bool-cases, append_assoc,
}
use rclone_proton_drive_webd.Base.Text.{Text}
use rclone_proton_drive_webd.Uri.{
  is_unreserved, percents, utf8, encode_char, encode_uri_component, decode_uri_component,
  then_assemble, Piece, raw, byte, idle, scan, start, assemble, IsScalar,
}
use rclone_proton_drive_webd.Uri.Escape.{scan-percents, scan-raw, utf8_bytes, assemble-utf8}

decode_lem : (s : Text) → decode_uri_component s ≡ then_assemble (scan idle s)
unfolding decode_uri_component
decode_lem s = refl

assemble-raw :
    (c : ℕ) (ps : List Piece)
    → assemble start (raw c ∷ ps) ≡ Option.map (λ t. c ∷ t) (assemble start ps)
unfolding assemble
assemble-raw c ps = refl

-- A character that is not `%` stands for itself.
pub decode-raw :
    (c : ℕ) (s : Text)
    → c ≢ b'%'
    → decode_uri_component (c ∷ s) ≡ Option.map (λ t. c ∷ t) (decode_uri_component s)
decode-raw c s h = rw (decode_lem (c ∷ s), decode_lem s, scan-raw c s h) (after (scan idle s))
  where
    after :
        (o : Option (List Piece))
        → then_assemble (Option.map (λ ps. raw c ∷ ps) o)
          ≡ Option.map (λ t. c ∷ t) (then_assemble o)
    after none = refl
    after (some ps) = assemble-raw c ps

decode-percents :
    (c : ℕ) (s : Text)
    → IsScalar c
    → decode_uri_component (percents (utf8 c) ++ s)
      ≡ Option.map (λ t. c ∷ t) (decode_uri_component s)
decode-percents c s h =
    rw (decode_lem (percents (utf8 c) ++ s), decode_lem s, scan-percents _ s (utf8_bytes c h))
      (after (scan idle s))
  where
    after :
        (o : Option (List Piece))
        → then_assemble (Option.map (λ ps. map byte (utf8 c) ++ ps) o)
          ≡ Option.map (λ t. c ∷ t) (then_assemble o)
    after none = refl
    after (some ps) = assemble-utf8 c ps h

unreserved-ne-percent : (c : ℕ) → is_unreserved c ≡ true → c ≢ b'%'
unfolding is_unreserved
unreserved-ne-percent c h = ground arith

pub decode-encode_char :
    (c : ℕ) (s : Text)
    → IsScalar c
    → decode_uri_component (encode_char c ++ s) ≡ Option.map (λ t. c ∷ t) (decode_uri_component s)
unfolding encode_char
decode-encode_char c s h = elim (Bool-cases (is_unreserved c)) [
  | inl u ↦ rw u (decode-raw c s (unreserved-ne-percent c u))
  | inr e ↦ rw e (decode-percents c s h)
]

-- An escaped text decodes to the text, and what follows it decodes as it does alone.
pub decode-encode_append :
    (t s : Text)
    → All IsScalar t
    → decode_uri_component (encode_uri_component t ++ s)
      ≡ Option.map (λ r. t ++ r) (decode_uri_component s)
unfolding encode_uri_component
decode-encode_append [] s h = ground arith
decode-encode_append (c ∷ t) s (p, h) = rw append_assoc (
    decode-encode_char c (encode_uri_component t ++ s) p
    ∙ rw (decode-encode_append t s h) (ground arith))
