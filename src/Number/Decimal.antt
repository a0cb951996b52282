-- ===== src/Number/Decimal.antt =====
-- A printed number reads back.
use rclone_proton_drive_webd.Base.{
  ℕ, zero, suc, ◌+◌, ◌-◌, ◌*◌, ◌/◌, ◌%◌, ◌<◌, ◌≡◌, refl, ◌∙◌, ap, true, false, inl, inr, [], ◌∷◌,
  ◌++◌, arith, ltb, Bool-cases, All,
}
use rclone_proton_drive_webd.Base.Text.{Text}
use rclone_proton_drive_webd.Number.{
  decimal, decimal_onto, read_digits, is_digit, starts_with_digit,
}

abbrev pub IsDigits : Text → Type 0
IsDigits s = All (λ c. is_digit c ≡ true) s

pub read_digits-step :
    (acc c : ℕ) (s : Text)
    → is_digit c ≡ true
    → read_digits acc (c ∷ s) ≡ read_digits (acc * 10 + (c - 48)) s
unfolding read_digits
read_digits-step acc c s h = rw h

pub read_digits-stop :
    (acc : ℕ) (s : Text) → starts_with_digit s ≡ false → read_digits acc s ≡ (acc, s)
unfolding read_digits
read_digits-stop acc [] h = refl
read_digits-stop acc (c ∷ s) h = rw h

read_digits-decimal_onto :
    (fuel n : ℕ) (s : Text) → n < fuel → read_digits 0 (decimal_onto fuel n s) ≡ read_digits n s
unfolding decimal_onto
read_digits-decimal_onto zero n s h = elim h [ ]
read_digits-decimal_onto (suc fuel) n s h = elim (Bool-cases (ltb n 10)) [
  | inl e ↦ rw e (
      read_digits-step 0 (48 + n) s (ground arith)
      ∙ ap (λ (k : ℕ). read_digits k s) (let q : 0 * 10 + (48 + n - 48) ≡ n = omega arith in q))
  | inr e ↦ rw e (
      read_digits-decimal_onto fuel (n / 10) ((48 + n % 10) ∷ s) (ground arith)
      ∙ read_digits-step (n / 10) (48 + n % 10) s (ground arith)
      ∙ ap (λ (k : ℕ). read_digits k s)
          (let q : n / 10 * 10 + (48 + n % 10 - 48) ≡ n = omega arith in q))
]

decimal_onto-append :
    (fuel n : ℕ) (r s : Text) → decimal_onto fuel n r ++ s ≡ decimal_onto fuel n (r ++ s)
unfolding decimal_onto
decimal_onto-append zero n r s = refl
decimal_onto-append (suc fuel) n r s =
    ground (arith, decimal_onto-append fuel (n / 10) ((48 + n % 10) ∷ r) s)

-- A printed number reads back, up to the text that follows it.
pub read_digits-decimal :
    (n : ℕ) (s : Text) → starts_with_digit s ≡ false → read_digits 0 (decimal n ++ s) ≡ (n, s)
unfolding decimal
read_digits-decimal n s h =
    rw (decimal_onto-append (suc n) n [] s, read_digits-decimal_onto (suc n) n s (omega arith))
      (read_digits-stop n s h)

decimal_onto-IsDigits : (fuel n : ℕ) (r : Text) → IsDigits r → IsDigits (decimal_onto fuel n r)
unfolding decimal_onto
decimal_onto-IsDigits zero n r h = h
decimal_onto-IsDigits (suc fuel) n r h = elim (Bool-cases (ltb n 10)) [
  | inl e ↦ rw e ((ground arith), h)
  | inr e ↦ rw e (decimal_onto-IsDigits fuel (n / 10) _ ((ground arith), h))
]

pub decimal-IsDigits : (n : ℕ) → IsDigits (decimal n)
unfolding decimal
decimal-IsDigits n = decimal_onto-IsDigits (suc n) n [] tt

decimal_onto-cons :
    (fuel n c : ℕ) (r : Text) → (d : ℕ) × (s : Text) × (decimal_onto fuel n (c ∷ r) ≡ d ∷ s)
unfolding decimal_onto
decimal_onto-cons zero n c r = (c, r, refl)
decimal_onto-cons (suc fuel) n c r = elim (Bool-cases (ltb n 10)) [
  | inl e ↦ (48 + n, c ∷ r, rw e)
  | inr e ↦ let (d, s, q) = decimal_onto-cons fuel (n / 10) (48 + n % 10) (c ∷ r) in (d, s, rw e q)
]

-- The text of a number begins with a digit.
pub decimal-cons : (n : ℕ) → (d : ℕ) × (s : Text) × (decimal n ≡ d ∷ s)
unfolding decimal decimal_onto
decimal-cons n = elim (Bool-cases (ltb n 10)) [
  | inl e ↦ (48 + n, [], rw e)
  | inr e ↦ let (d, s, q) = decimal_onto-cons n (n / 10) (48 + n % 10) [] in (d, s, rw e q)
]
