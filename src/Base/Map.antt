-- ===== src/Base/Map.antt =====
-- A JavaScript `Map` with string keys: an association list in insertion order. `set` of a present
-- key keeps its place.
pub mod Size
use mathlib.Core.Path.{◌≡◌, refl}
use mathlib.Core.Logic.{◌≢◌}
use Prim.Native.Nat.{ℕ, ◌+◌, ◌≤◌}
use mathlib.Core.Bool.{Bool, true, false}
use mathlib.Core.Option.{Option, none, some}
use mathlib.Core.List.{List, [], ◌∷◌}
use native.Mathlib.Omega.{arith}
use rclone_proton_drive_webd.Base.Tests.{if◌then◌else◌}
use rclone_proton_drive_webd.Base.Lists.{length}
use rclone_proton_drive_webd.Base.Text.{Text, ◌===◌, text_dec}

abbrev pub Map {ℓ} : Type ℓ → Type ℓ
Map V = List (Text × V)

module _ {ℓ} {V : Type ℓ} where
  unfoldable pub get : Text → Map V → Option V
  get k [] = none
  get k ((j, v) ∷ m) = let rest = get k m in if j === k then some v else rest

  unfoldable pub set : Text → V → Map V → Map V
  set k v [] = (k, v) ∷ []
  set k v ((j, w) ∷ m) = let rest = set k v m in if j === k then (j, v) ∷ m else (j, w) ∷ rest

  unfoldable pub delete : Text → Map V → Map V
  delete k [] = []
  delete k ((j, w) ∷ m) = let rest = delete k m in if j === k then rest else (j, w) ∷ rest

  -- Keeps the entries whose value passes the test.
  unfoldable pub retain : (V → Bool) → Map V → Map V
  retain p [] = []
  retain p ((j, w) ∷ m) = let rest = retain p m in if p w then (j, w) ∷ rest else rest

  -- No key is listed twice.
  abbrev pub NodupKeys : Map V → Type ℓ
  NodupKeys [] = Unit
  NodupKeys ((k, v) ∷ m) = (get k m ≡ none) × NodupKeys m

module _ {ℓ} {V : Type ℓ} where
  pub get-set :
      (j k : Text) (v : V) (m : Map V) → get j (set k v m) ≡ (if k === j then some v else get j m)
  unfolding get set
  get-set j k v [] = refl
  get-set j k v ((i, w) ∷ m) = ground (arith, get-set j k v m)

  pub get-delete :
      (j k : Text) (m : Map V) → get j (delete k m) ≡ (if k === j then none else get j m)
  unfolding get delete
  get-delete j k [] = ground arith
  get-delete j k ((i, w) ∷ m) = ground (arith, get-delete j k m)

  abbrev pub when : (V → Bool) → Option V → Option V
  when p none = none
  when p (some v) = if p v then some v else none

  pub get-retain :
      (p : V → Bool) (j : Text) (m : Map V) → NodupKeys m → get j (retain p m) ≡ when p (get j m)
  unfolding get retain
  get-retain p j [] u = refl
  get-retain p j ((i, w) ∷ m) (fresh, u) = ground (arith, get-retain p j m u)

  pub set-NodupKeys : (k : Text) (v : V) (m : Map V) → NodupKeys m → NodupKeys (set k v m)
  unfolding get set
  set-NodupKeys k v [] u = (refl, tt)
  set-NodupKeys k v ((i, w) ∷ m) (fresh, u) = ground (arith, set-NodupKeys k v m u, get-set i k v m)

  pub delete-NodupKeys : (k : Text) (m : Map V) → NodupKeys m → NodupKeys (delete k m)
  unfolding get delete
  delete-NodupKeys k [] u = tt
  delete-NodupKeys k ((i, w) ∷ m) (fresh, u) =
      ground (arith, delete-NodupKeys k m u, get-delete i k m)

  pub retain-NodupKeys : (p : V → Bool) (m : Map V) → NodupKeys m → NodupKeys (retain p m)
  unfolding get retain
  retain-NodupKeys p [] u = tt
  retain-NodupKeys p ((i, w) ∷ m) (fresh, u) =
      ground (arith, retain-NodupKeys p m u, get-retain p i m u)

  pub get-set_self : (k : Text) (v : V) (m : Map V) → get k (set k v m) ≡ some v
  get-set_self k v m = rw (get-set k k v m) (ground arith)

  pub get-set_ne : (j k : Text) (v : V) (m : Map V) → j ≢ k → get j (set k v m) ≡ get j m
  get-set_ne j k v m ne = rw (get-set j k v m) (ground arith)

  pub get-delete_self : (k : Text) (m : Map V) → get k (delete k m) ≡ none
  get-delete_self k m = rw (get-delete k k m) (ground arith)

  pub get-delete_ne : (j k : Text) (m : Map V) → j ≢ k → get j (delete k m) ≡ get j m
  get-delete_ne j k m ne = rw (get-delete j k m) (ground arith)
