-- ===== src/Base/Map/Size.antt =====
-- How many entries a map keeps.
use Prim.Native.Nat.{ℕ, ◌+◌, ◌≤◌}
use mathlib.Core.Bool.{Bool}
use mathlib.Core.List.{[], ◌∷◌}
use native.Mathlib.Omega.{arith}
use rclone_proton_drive_webd.Base.Tests.{if◌then◌else◌}
use rclone_proton_drive_webd.Base.Lists.{length}
use rclone_proton_drive_webd.Base.Text.{Text}
use rclone_proton_drive_webd.Base.Map.{Map, set, delete, retain}

module _ {ℓ} {V : Type ℓ} (p : V → Bool) where
  -- How many entries pass the test.
  abbrev pub passing : Map V → ℕ
  passing m = length (retain p m)

  pub passing-set :
      (k : Text) (v : V) (m : Map V) → passing (set k v m) ≤ passing m + (if p v then 1 else 0)
  unfolding set retain
  passing-set k v [] = ground arith
  passing-set k v ((j, w) ∷ m) = ground (arith, passing-set k v m)

  pub passing-delete : (k : Text) (m : Map V) → passing (delete k m) ≤ passing m
  unfolding delete retain
  passing-delete k [] = omega arith
  passing-delete k ((j, w) ∷ m) = ground (arith, passing-delete k m)

  pub passing-retain : (q : V → Bool) (m : Map V) → passing (retain q m) ≤ passing m
  unfolding retain
  passing-retain q [] = omega arith
  passing-retain q ((j, w) ∷ m) = ground (arith, passing-retain q m)

module _ {ℓ} {V : Type ℓ} where
  pub length-set : (k : Text) (v : V) (m : Map V) → length (set k v m) ≤ length m + 1
  unfolding set
  length-set k v [] = omega arith
  length-set k v ((j, w) ∷ m) = ground (arith, length-set k v m)
