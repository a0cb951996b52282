-- ===== src/Uri/Escape.antt =====
-- One character: its escape reads back as its bytes, and its bytes as the character.
use mathlib.Core.Option
use native.Mathlib.Decide.{dec_lt}
use rclone_proton_drive_webd.Base.{
  ℕ, ◌+◌, ◌*◌, ◌/◌, ◌%◌, ◌<◌, ◌≤◌, ◌≡◌, ◌≢◌, ◌-◌, suc, refl, ◌∙◌, ap, some, List, [], ◌∷◌, ◌++◌,
  arith, map, All,
}
use rclone_proton_drive_webd.Base.Text.{Text}
use rclone_proton_drive_webd.Uri.{
  hex, hex_digit, percent, percents, utf8, Piece, raw, byte, idle, first, second, scan, start, more,
  lead, single, opens, assemble, IsScalar,
}

hex_digit-hex : (n : ℕ) → n < 16 → hex_digit (hex n) ≡ some n
unfolding hex hex_digit
hex_digit-hex n h = ground arith

scan-first : (c h : ℕ) (s : Text) → hex_digit c ≡ some h → scan first (c ∷ s) ≡ scan (second h) s
unfolding scan
scan-first c h s e = ground arith

scan-second :
    (h c l : ℕ) (s : Text)
    → hex_digit c ≡ some l
    → scan (second h) (c ∷ s) ≡ Option.map (λ ps. byte (16 * h + l) ∷ ps) (scan idle s)
unfolding scan
scan-second h c l s e = ground arith

scan-first_percent : (s : Text) → scan idle (b'%' ∷ s) ≡ scan first s
unfolding scan
scan-first_percent s = refl

scan-percent :
    (b : ℕ) (s : Text)
    → b < 256
    → scan idle (percent b ++ s) ≡ Option.map (λ ps. byte b ∷ ps) (scan idle s)
scan-percent b s h =
    scan-first_percent (hex (b / 16) ∷ hex (b % 16) ∷ s)
    ∙ scan-first (hex (b / 16)) (b / 16) (hex (b % 16) ∷ s) (hex_digit-hex _ (omega arith))
    ∙ scan-second (b / 16) (hex (b % 16)) (b % 16) s (hex_digit-hex _ (omega arith))
    ∙ ap (λ (k : ℕ). Option.map (λ ps. byte k ∷ ps) (scan idle s))
        (let e : 16 * (b / 16) + b % 16 ≡ b = omega arith in e)

pub scan-percents :
    (bs : List ℕ) (s : Text)
    → All (λ b. b < 256) bs
    → scan idle (percents bs ++ s) ≡ Option.map (λ ps. map byte bs ++ ps) (scan idle s)
scan-percents [] s h = ground arith
scan-percents (b ∷ bs) s (p, h) =
    scan-percent b (percents bs ++ s) p ∙ (rw (scan-percents bs s h) (ground arith))

pub scan-raw :
    (c : ℕ) (s : Text) → c ≢ b'%' → scan idle (c ∷ s) ≡ Option.map (λ ps. raw c ∷ ps) (scan idle s)
unfolding scan
scan-raw c s h = ground arith

pub utf8_bytes : (c : ℕ) → IsScalar c → All (λ b. b < 256) (utf8 c)
unfolding utf8
utf8_bytes c h = ground arith

module _ (b : ℕ) (ps : List Piece) where
  assemble-single :
      lead b ≡ single → assemble start (byte b ∷ ps) ≡ Option.map (λ s. b ∷ s) (assemble start ps)
  unfolding assemble
  assemble-single h = ground arith

  assemble-opens :
      (k acc least : ℕ)
      → lead b ≡ opens k acc least
      → assemble start (byte b ∷ ps) ≡ assemble (more k acc least) ps
  unfolding assemble
  assemble-opens k acc least h = ground arith

  assemble-more :
      (k acc least v : ℕ)
      → 128 ≤ b
      → b < 192
      → acc * 64 + (b - 128) ≡ v
      → assemble (more (suc k) acc least) (byte b ∷ ps) ≡ assemble (more k v least) ps
  unfolding assemble
  assemble-more k acc least v h l e = rw (← e) (ground arith)

  assemble-last :
      (acc least v : ℕ)
      → 128 ≤ b
      → b < 192
      → acc * 64 + (b - 128) ≡ v
      → least ≤ v
      → IsScalar v
      → assemble (more 0 acc least) (byte b ∷ ps) ≡ Option.map (λ s. v ∷ s) (assemble start ps)
  unfolding assemble
  assemble-last acc least v h k e l scalar =
      rw (← e) (let scalar' = rw (← e) at scalar in let l' = rw (← e) at l in ground arith)

-- The four lengths of a character.
module _ (c : ℕ) (ps : List Piece) where
  abbrev Reads : Type 0
  Reads = assemble start (map byte (utf8 c) ++ ps) ≡ Option.map (λ s. c ∷ s) (assemble start ps)

  read_one : c < 128 → Reads
  unfolding utf8 lead
  read_one h = let e : utf8 c ≡ c ∷ [] = ground arith in rw e (assemble-single c ps (ground arith))

  read_two : 128 ≤ c → c < 2048 → IsScalar c → Reads
  unfolding utf8 lead
  read_two h k scalar =
      let e : utf8 c ≡ (192 + c / 64) ∷ (128 + c % 64) ∷ [] = ground arith in
      rw e (
        assemble-opens (192 + c / 64) _ 0 (c / 64) 128 (ground arith)
        ∙ assemble-last (128 + c % 64) ps (c / 64) 128 c (omega arith) (omega arith) (omega arith) h
            scalar)

  read_three : 2048 ≤ c → c < 65536 → IsScalar c → Reads
  unfolding utf8 lead
  read_three h k scalar =
      let e : utf8 c ≡ (224 + c / 4096) ∷ (128 + c / 64 % 64) ∷ (128 + c % 64) ∷ [] =
        ground arith in
      rw e (
        assemble-opens (224 + c / 4096) _ 1 (c / 4096) 2048 (ground arith)
        ∙ assemble-more (128 + c / 64 % 64) _ 0 (c / 4096) 2048 (c / 64) (omega arith) (omega arith)
            (omega arith)
        ∙ assemble-last (128 + c % 64) ps (c / 64) 2048 c (omega arith) (omega arith) (omega arith)
            h scalar)

  read_four : 65536 ≤ c → IsScalar c → Reads
  unfolding utf8 lead
  read_four h scalar =
      let e : utf8 c
          ≡ (240 + c / 262144) ∷ (128 + c / 4096 % 64) ∷ (128 + c / 64 % 64) ∷ (128 + c % 64) ∷ [] =
        ground arith in
      rw e (
        assemble-opens (240 + c / 262144) _ 2 (c / 262144) 65536 (ground arith)
        ∙ assemble-more (128 + c / 4096 % 64) _ 1 (c / 262144) 65536 (c / 4096) (omega arith)
            (omega arith) (omega arith)
        ∙ assemble-more (128 + c / 64 % 64) _ 0 (c / 4096) 65536 (c / 64) (omega arith)
            (omega arith) (omega arith)
        ∙ assemble-last (128 + c % 64) ps (c / 64) 65536 c (omega arith) (omega arith) (omega arith)
            h scalar)

  pub assemble-utf8 : IsScalar c → Reads
  assemble-utf8 h = elim (dec_lt c 128) [
    | yes p ↦ read_one p
    | no p ↦ elim (dec_lt c 2048) [
      | yes q ↦ read_two (omega arith) q h
      | no q ↦ elim (dec_lt c 65536) [
        | yes r ↦ read_three (omega arith) r h
        | no r ↦ read_four (omega arith) h
      ]
    ]
  ]
