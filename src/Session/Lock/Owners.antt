-- ===== src/Session/Lock/Owners.antt =====
-- The processes of one machine that compete for the session lock of src/service/sessionStore.ts. A call
-- of `acquireSessionOwnership` and one of its release run to their end before another one starts.
use rclone_proton_drive_webd.Base.{
  ℕ, ◌+◌, ◌<◌, ◌≤◌, ◌≡◌, Bool, true, false, not, Option, none, some, List, [], ◌∷◌, ◌==◌,
  if◌then◌else◌, filter,
}
use rclone_proton_drive_webd.Base.Text.{Text}
use rclone_proton_drive_webd.Base.Map.{get}
use rclone_proton_drive_webd.Base.Int.{ℤ}
use rclone_proton_drive_webd.Gateway.{Bytes}
use rclone_proton_drive_webd.Session.Disk.{
  Entry, Disk, Result, done, failed, Machine, read, regular, utf8_text,
}
use rclone_proton_drive_webd.Session.Lock.{
  session_lock_filename, lock_json, can_signal, acquire_session_ownership,
  release_session_ownership,
}

-- The processes that live, those that own the session, and the times of the boot and of the clock.
pub record System : Type 0 where
  pub disk : Disk
  pub alive : ℕ → Bool
  pub owners : List ℕ
  pub boot : ℕ
  pub now : ℕ

-- What a process of the system has around it.
pub record Sees (s : System) (p : ℕ) (m : Machine) : Type 0 where
  pub own : m.pid ≡ p
  pub clock : m.now ≡ s.now
  pub since_boot : m.uptime + s.boot ≡ s.now
  pub signals : (q : ℕ) → can_signal (m.kill q) ≡ s.alive q

abbrev pub is_other : ℕ → ℕ → Bool
is_other p q = not (q == p)

abbrev pub owners_after : Result (Unit {0}) → ℕ → List ℕ → List ℕ
owners_after (done a) p owners = p ∷ owners
owners_after (failed e) p owners = owners

abbrev pub alive_with : ℕ → Bool → (ℕ → Bool) → ℕ → Bool
alive_with p b alive q = if q == p then b else alive q

abbrev pub is_owner : ℕ → List ℕ → Bool
is_owner p [] = false
is_owner p (q ∷ qs) = let rest = is_owner p qs in if q == p then true else rest

module _ (parse_pid : Bytes → Option (Option ℤ)) where
  abbrev pub acquired : System → ℕ → Result (Unit {0}) × Disk → System
  acquired s p (r, d) = record s { disk = d; owners = owners_after r p s.owners }

  -- A process asks for the session, gives it back, ends without that, or starts, perhaps under the
  -- number of one that ended; time passes; the machine boots; another file changes. A lock that is
  -- there can be read.
  pub data Step (s : System) : System → Type 0 where
    acquire :
        (p : ℕ) (m : Machine) (started_at : Text)
        → 0 < p
        → s.alive p ≡ true
        → Sees s p m
        → m.fails read session_lock_filename ≡ none
        → Step s (acquired s p (acquire_session_ownership parse_pid m started_at s.disk))
    release :
        (p : ℕ) (m : Machine)
        → is_owner p s.owners ≡ true
        → Sees s p m
        → Step s (record s {
          disk = (release_session_ownership parse_pid m s.disk).1;
          owners = filter (is_other p) s.owners;
        })
    exit :
        (p : ℕ)
        → Step s
            (record s { alive = alive_with p false s.alive; owners = filter (is_other p) s.owners })
    spawn : (p : ℕ) → Step s (record s { alive = alive_with p true s.alive })
    wait : (t : ℕ) → s.now ≤ t → Step s (record s { now = t })
    reboot :
        (t : ℕ)
        → s.now ≤ t
        → Step s (record s { alive = λ _. false; owners = []; boot = t; now = t })
    elsewhere :
        (d : Disk)
        → get session_lock_filename d.files ≡ get session_lock_filename s.disk.files
        → Step s (record s { disk = d })

  -- From any directory, whatever lock is in it.
  pub data Reach : System → Type 0 where
    start : (s : System) → s.owners ≡ [] → s.boot ≤ s.now → Reach s
    later : {s t : System} → Reach s → Step s t → Reach t

  -- The lock on the disk names the process and is from this boot.
  abbrev pub Locks : Disk → ℕ → ℕ → Type 0
  Locks d boot p =
      (e : Entry) × (get session_lock_filename d.files ≡ some e)
      × (e.kind ≡ regular)
      × ((started_at : Text) × (e.content ≡ utf8_text (lock_json p started_at)))
      × (boot ≤ e.mtime)

  -- Nobody owns the session, or one process does, and then it lives and the lock names it.
  abbrev pub Owned : Disk → (ℕ → Bool) → ℕ → List ℕ → Type 0
  Owned d alive boot [] = Unit
  Owned d alive boot (p ∷ []) = (0 < p) × (alive p ≡ true) × Locks d boot p
  Owned d alive boot (p ∷ q ∷ rest) = ⊥

  abbrev pub Inv : System → Type 0
  Inv s = (s.boot ≤ s.now) × Owned s.disk s.alive s.boot s.owners
