-- ===== src/Base/Text.antt =====
-- JavaScript strings as lists of code points, with equality decided on both sides.
use Prim.Native.Nat.{ℕ}
use Prim.Native.Char.{code}
use Prim.Native.String.{String}
use mathlib.Core.Path.{◌≡◌, refl}
use mathlib.Core.Logic.{ite, dite}
use mathlib.Core.Bool.{Bool, true, false, ◌&&◌, Bool-discrete}
use mathlib.Core.List.{List, [], ◌∷◌}
use native.Mathlib.Omega.{arith}
use rclone_proton_drive_webd.Base.Tests.{◌==◌, if◌then◌else◌}

abbrev pub Text : Type 0
Text = List ℕ

abbrev pub codes : String → Text
codes String.[] = []
codes (String.◌∷◌ c s) = code c ∷ codes s

-- `a === b`, character by character.
unfoldable pub text_eq : Text → Text → Bool
text_eq [] [] = true
text_eq [] (y ∷ ys) = false
text_eq (x ∷ xs) [] = false
text_eq (x ∷ xs) (y ∷ ys) = (x == y) && text_eq xs ys

pub text_eq→eq : (a b : Text) → text_eq a b ≡ true → a ≡ b
unfolding text_eq
text_eq→eq [] [] h = refl
text_eq→eq [] (y ∷ ys) h = cc
text_eq→eq (x ∷ xs) [] h = cc
text_eq→eq (x ∷ xs) (y ∷ ys) h = ground (arith, text_eq→eq xs ys)

text_eq_refl : (a : Text) → text_eq a a ≡ true
unfolding text_eq
text_eq_refl [] = refl
text_eq_refl (x ∷ xs) = ground (arith, text_eq_refl xs)

pub eq→text_eq : (a b : Text) → a ≡ b → text_eq a b ≡ true
eq→text_eq a b e = rw (← e) (text_eq_refl a)

-- Shut in proofs, where a split on it yields the equation or its negation.
unfoldable pub text_dec : Discrete Text
unfolding text_eq
text_dec a b =
    dite (Bool-discrete (text_eq a b) true) (λ same. yes (text_eq→eq a b same))
      (λ differ. no (λ p. differ (eq→text_eq a b p)))

infix 50 ◌===◌
abbrev pub ◌===◌ : Text → Text → Bool
a === b = ite (text_dec a b) true false

-- `s.startsWith(t)`
unfoldable pub starts_with : Text → Text → Bool
starts_with s [] = true
starts_with [] (y ∷ ys) = false
starts_with (x ∷ xs) (y ∷ ys) = (x == y) && starts_with xs ys

-- `s.includes(c)` for one character.
unfoldable pub includes_char : Text → ℕ → Bool
includes_char [] c = false
includes_char (x ∷ xs) c = if x == c then true else includes_char xs c

-- `s.endsWith(c)` for one character.
unfoldable pub ends_with_char : Text → ℕ → Bool
ends_with_char [] c = false
ends_with_char (x ∷ []) c = x == c
ends_with_char (x ∷ y ∷ xs) c = ends_with_char (y ∷ xs) c

-- `s.includes(t)`
unfoldable pub includes : Text → Text → Bool
unfolding starts_with
includes [] t = starts_with [] t
includes (x ∷ xs) t = if starts_with (x ∷ xs) t then true else includes xs t
