-- ===== src/Guard/History.antt =====
-- The guard over a history of calls whose clock does not run backwards, against the specification
-- that reads the history alone.
use rclone_proton_drive_webd.Base.{
  ℕ, ◌+◌, ◌≤◌, ◌≡◌, refl, Option, none, some, List, [], ◌∷◌, arith, if◌then◌else◌,
}
use rclone_proton_drive_webd.Base.Text.{Text, ◌===◌}
use rclone_proton_drive_webd.Base.Map.{get}
use rclone_proton_drive_webd.Guard.{
  OverwriteGuard, empty_guard, overwrite_protect_ms, protect, is_protected, release, is_live,
}
use rclone_proton_drive_webd.Guard.Window.{
  IsMap, expiry_of, still_live, protect-IsMap, is_protected-IsMap, release-IsMap, expiry_of-protect,
  expiry_of-release, is_protected_lem, expiry_of-queried,
}

pub data Call : Type 0 where
  protected : Text → ℕ → Call
  queried : Text → ℕ → Call
  released : Text → Call

-- One call on the guard.
abbrev pub apply : Call → OverwriteGuard → OverwriteGuard
apply (protected p t) g = protect p t g
apply (queried p t) g = (is_protected p t g).0
apply (released p) g = release p g

-- A history, the latest call first.
unfoldable pub run : List Call → OverwriteGuard
run [] = empty_guard
run (c ∷ cs) = apply c (run cs)

-- No call reads a later clock than `now`, and none an earlier one than a call before it.
abbrev pub IsMonotone : ℕ → List Call → Type 0
IsMonotone now [] = Unit
IsMonotone now (protected p t ∷ cs) = (t ≤ now) × IsMonotone t cs
IsMonotone now (queried p t ∷ cs) = (t ≤ now) × IsMonotone t cs
IsMonotone now (released p ∷ cs) = IsMonotone now cs

-- The specification: the end of the window of the last `protect` of `q`, unless a `release` of `q`
-- came after it. Nothing is pruned.
unfoldable pub deadline : Text → List Call → Option ℕ
deadline q [] = none
deadline q (protected p t ∷ cs) =
    let rest = deadline q cs in if p === q then some (t + overwrite_protect_ms) else rest
deadline q (queried p t ∷ cs) = deadline q cs
deadline q (released p ∷ cs) = let rest = deadline q cs in if p === q then none else rest

run-IsMap : (cs : List Call) → IsMap (run cs)
unfolding run
run-IsMap [] = tt
run-IsMap (protected p t ∷ cs) = protect-IsMap p t (run cs) (run-IsMap cs)
run-IsMap (queried p t ∷ cs) = is_protected-IsMap p t (run cs) (run-IsMap cs)
run-IsMap (released p ∷ cs) = release-IsMap p (run cs) (run-IsMap cs)

-- Up to windows that are over, the guard holds what the history says.
still_live-run :
    (q : Text) (now : ℕ) (cs : List Call)
    → IsMonotone now cs
    → still_live now (expiry_of q (run cs)) ≡ still_live now (deadline q cs)
unfolding run deadline get
still_live-run q now [] m = refl
still_live-run q now (protected p t ∷ cs) (le, m) =
    ground (arith, expiry_of-protect q p t (run cs) (run-IsMap cs), still_live-run q t cs m)
still_live-run q now (queried p t ∷ cs) (le, m) =
    ground (arith, expiry_of-queried q p t (run cs) (run-IsMap cs), still_live-run q t cs m)
still_live-run q now (released p ∷ cs) m =
    ground (arith, expiry_of-release q p (run cs), still_live-run q now cs m)

-- After any calls with a clock that does not run backwards, `is_protected q now` answers true
-- exactly when the last `protect q` not followed by a `release q` is younger than the window:
-- neither pruning nor calls about other paths change an answer.
pub is_protected-run :
    (q : Text) (now : ℕ) (cs : List Call)
    → IsMonotone now cs
    → (is_protected q now (run cs)).1 ≡ is_live now (deadline q cs)
is_protected-run q now cs m =
    ground (arith, is_protected_lem q now (run cs) (run-IsMap cs), still_live-run q now cs m)
