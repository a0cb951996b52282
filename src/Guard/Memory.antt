-- ===== src/Guard/Memory.antt =====
-- The guard's memory: a long-lived process does not accumulate entries.
use rclone_proton_drive_webd.Base.{ℕ, ◌+◌, ◌≤◌, Bool, not, List, [], ◌∷◌, arith, leb, if◌then◌else◌}
use rclone_proton_drive_webd.Base.Text.{Text}
use rclone_proton_drive_webd.Base.Map.{retain}
use rclone_proton_drive_webd.Base.Map.Size.{
  passing, passing-set, passing-delete, passing-retain, length-set,
}
use rclone_proton_drive_webd.Guard.{
  overwrite_protect_ms, prune, protect, is_protected, release, size,
}
use rclone_proton_drive_webd.Guard.History.{Call, protected, queried, released, run}

abbrev live_at : ℕ → ℕ → Bool
live_at now expiry = not (leb expiry now)

-- The calls to `protect` in the history whose window is still open.
pub recent : ℕ → List Call → ℕ
recent now [] = 0
recent now (protected p t ∷ cs) =
    (if live_at now (t + overwrite_protect_ms) then 1 else 0) + recent now cs
recent now (queried p t ∷ cs) = recent now cs
recent now (released p ∷ cs) = recent now cs

passing-run : (now : ℕ) (cs : List Call) → passing (live_at now) (run cs).until ≤ recent now cs
unfolding run recent protect is_protected release prune retain
passing-run now [] = omega arith
passing-run now (protected p t ∷ cs) = omega (
  arith,
  passing-run now cs,
  passing-set (live_at now) p (t + overwrite_protect_ms) (prune t (run cs)).until,
  passing-retain (live_at now) (live_at t) (run cs).until,
)
passing-run now (queried p t ∷ cs) =
    omega (arith, passing-run now cs, passing-retain (live_at now) (live_at t) (run cs).until)
passing-run now (released p ∷ cs) =
    omega (arith, passing-run now cs, passing-delete (live_at now) p (run cs).until)

-- Whatever the history, after a `protect` at `now` the guard tracks at most one path more than
-- there were earlier `protect` calls within the last window, and after an `is_protected` at most
-- as many.
pub size-run :
    (p : Text) (now : ℕ) (cs : List Call)
    → (size (protect p now (run cs)) ≤ recent now cs + 1)
      × (size (is_protected p now (run cs)).0 ≤ recent now cs)
unfolding size protect is_protected prune
size-run p now cs = (
  omega (
    arith,
    passing-run now cs,
    length-set p (now + overwrite_protect_ms) (prune now (run cs)).until,
  ),
  passing-run now cs,
)
