-- ===== src/Guard.antt =====
-- src/service/overwriteGuard.ts: the paths that are protected from the DELETE which a client sends
-- after a failed PUT. `Date.now()` is the argument `now`, in milliseconds.
pub mod Window
pub mod History
pub mod Memory
pub mod Tests
use rclone_proton_drive_webd.Base.{
  ℕ, ◌+◌, Bool, true, false, not, Option, none, some, [], leb, ltb, length,
}
use rclone_proton_drive_webd.Base.Text.{Text}
use rclone_proton_drive_webd.Base.Map.{Map, get, set, delete, retain}

abbrev pub overwrite_protect_ms : ℕ
overwrite_protect_ms = 120000

pub record OverwriteGuard : Type 0 where
  pub until : Map ℕ

abbrev pub empty_guard : OverwriteGuard
empty_guard = record { until = [] }

unfoldable pub prune : ℕ → OverwriteGuard → OverwriteGuard
prune now g = record { until = retain (λ expiry. not (leb expiry now)) g.until }

unfoldable pub protect : Text → ℕ → OverwriteGuard → OverwriteGuard
protect path now g = record { until = set path (now + overwrite_protect_ms) (prune now g).until }

-- `expiry !== undefined && expiry > now`
abbrev pub is_live : ℕ → Option ℕ → Bool
is_live now none = false
is_live now (some expiry) = ltb now expiry

unfoldable pub is_protected : Text → ℕ → OverwriteGuard → OverwriteGuard × Bool
is_protected path now g = let g' = prune now g in (g', is_live now (get path g'.until))

unfoldable pub release : Text → OverwriteGuard → OverwriteGuard
release path g = record { until = delete path g.until }

unfoldable pub size : OverwriteGuard → ℕ
size g = length g.until
