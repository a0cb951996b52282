-- ===== src/Guard/Window.antt =====
-- One call at a time: the window that `protect` opens, and what the other calls leave alone.
use rclone_proton_drive_webd.Base.{
  ℕ, ◌+◌, ◌≡◌, not, Option, none, some, arith, leb, ltb, if◌then◌else◌,
}
use rclone_proton_drive_webd.Base.Text.{Text, ◌===◌}
use rclone_proton_drive_webd.Base.Map.{
  get, NodupKeys, get-set, get-delete, get-retain, set-NodupKeys, delete-NodupKeys,
  retain-NodupKeys,
}
use rclone_proton_drive_webd.Guard.{
  OverwriteGuard, overwrite_protect_ms, prune, protect, is_protected, release, is_live,
}

abbrev pub IsMap : OverwriteGuard → Type 0
IsMap g = NodupKeys g.until

-- The recorded expiry of a path.
abbrev pub expiry_of : Text → OverwriteGuard → Option ℕ
expiry_of q g = get q g.until

pub prune-IsMap : (now : ℕ) (g : OverwriteGuard) → IsMap g → IsMap (prune now g)
unfolding prune
prune-IsMap now g u = retain-NodupKeys _ g.until u

pub protect-IsMap : (p : Text) (now : ℕ) (g : OverwriteGuard) → IsMap g → IsMap (protect p now g)
unfolding protect
protect-IsMap p now g u = set-NodupKeys p _ _ (prune-IsMap now g u)

pub is_protected-IsMap :
    (p : Text) (now : ℕ) (g : OverwriteGuard) → IsMap g → IsMap (is_protected p now g).0
unfolding is_protected
is_protected-IsMap p now g u = prune-IsMap now g u

pub release-IsMap : (p : Text) (g : OverwriteGuard) → IsMap g → IsMap (release p g)
unfolding release
release-IsMap p g u = delete-NodupKeys p g.until u

-- Pruning at `now` keeps exactly the expiries after `now`.
abbrev pub still_live : ℕ → Option ℕ → Option ℕ
still_live now none = none
still_live now (some e) = if ltb now e then some e else none

pub expiry_of-prune :
    (q : Text) (now : ℕ) (g : OverwriteGuard)
    → IsMap g
    → expiry_of q (prune now g) ≡ still_live now (expiry_of q g)
unfolding prune
expiry_of-prune q now g u = ground (arith, get-retain (λ e. not (leb e now)) q g.until u)

pub expiry_of-protect :
    (q p : Text) (now : ℕ) (g : OverwriteGuard)
    → IsMap g
    → expiry_of q (protect p now g)
      ≡ (if p === q then some (now + overwrite_protect_ms) else still_live now (expiry_of q g))
unfolding protect
expiry_of-protect q p now g u =
    ground (
      arith,
      get-set q p (now + overwrite_protect_ms) (prune now g).until,
      expiry_of-prune q now g u,
    )

pub expiry_of-release :
    (q p : Text) (g : OverwriteGuard)
    → expiry_of q (release p g) ≡ (if p === q then none else expiry_of q g)
unfolding release
expiry_of-release q p g = get-delete q p g.until

pub is_protected_lem :
    (q : Text) (now : ℕ) (g : OverwriteGuard)
    → IsMap g
    → (is_protected q now g).1 ≡ is_live now (expiry_of q g)
unfolding is_protected
is_protected_lem q now g u = ground (arith, expiry_of-prune q now g u)

pub expiry_of-queried :
    (q p : Text) (t : ℕ) (g : OverwriteGuard)
    → IsMap g
    → expiry_of q (is_protected p t g).0 ≡ still_live t (expiry_of q g)
unfolding is_protected
expiry_of-queried q p t g u = expiry_of-prune q t g u
