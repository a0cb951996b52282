-- ===== src/Session/Lock/Free.antt =====
-- `acquireSessionOwnership` of src/service/sessionStore.ts decides: a lock that is held refuses, and any
-- other gives way.
use rclone_proton_drive_webd.Base.{
  ℕ, suc, ◌+◌, ◌≡◌, ◌≢◌, refl, ◌∙◌, ◌⊎◌, inl, inr, true, false, not, ◌&&◌, Option, none, some, [],
  arith, if◌then◌else◌,
}
use rclone_proton_drive_webd.Base.Text.{Text}
use rclone_proton_drive_webd.Base.Map.{
  get, set, get-set_self, get-set_ne, get-delete_self, get-delete_ne,
}
use rclone_proton_drive_webd.Base.Int.{ℤ}
use rclone_proton_drive_webd.Gateway.{Bytes}
use rclone_proton_drive_webd.Session.Disk.{
  Entry, Disk, session_ownership, Result, done, failed, return, continue, ◌>>=◌, regular, Machine,
  read, stat, unlink, open_new, write, fresh_file, write_new_file, open_new_file, set_content,
}
use rclone_proton_drive_webd.Session.Disk.Laws.{
  read_file-present, read_file-absent, stat_file-present, unlink_file-present, without,
}
use rclone_proton_drive_webd.Session.Write.{owner_only}
use rclone_proton_drive_webd.Session.Lock.{
  session_lock_filename, is_same, is_process_alive, predates_boot, judge_lock, inspect_lock,
  create_lock, attempts, acquire_session_ownership,
}
use rclone_proton_drive_webd.Session.Lock.Acquire.{IsHeld, IsLocked, content, acquire-held}

module _ (parse_pid : Bytes → Option (Option ℤ)) (m : Machine) where
  abbrev lock_name : Text
  lock_name = session_lock_filename

  -- No call on the lock fails for a reason of its own.
  pub record IsReachable : Type 0 where
    pub reads : m.fails read lock_name ≡ none
    pub stats : m.fails stat lock_name ≡ none
    pub unlinks : m.fails unlink lock_name ≡ none
    pub opens : m.fails open_new lock_name ≡ none
    pub writes : m.fails write lock_name ≡ none

  -- A lock that nobody holds: no text that names a process, a process that is gone, or a lock from before
  -- the boot.
  abbrev pub IsStale : Entry → Type 0
  IsStale e =
      (e.kind ≡ regular)
      × ((parse_pid e.content ≡ none)
          ⊎ ((pid : Option ℤ) × (parse_pid e.content ≡ some pid)
              × ((is_process_alive parse_pid m pid && not (predates_boot parse_pid m e.mtime))
                  ≡ false)))

  abbrev pub IsFree : Option Entry → Type 0
  IsFree none = Unit
  IsFree (some e) = IsStale e

  abbrev Cleared : Disk → Result (Unit {0}) × Disk → Type 0
  Cleared d r =
      (r.0 ≡ done tt)
      × (get lock_name r.1.files ≡ none)
      × ((q : Text) → q ≢ lock_name → get q r.1.files ≡ get q d.files)

  is_same_refl : (raw : Bytes) → is_same (some raw) raw ≡ true
  is_same_refl raw = ground arith

  without-Cleared : (d : Disk) → Cleared d (done tt, without m lock_name d)
  without-Cleared d =
      (refl, get-delete_self lock_name d.files, λ q ne. get-delete_ne q lock_name d.files ne)

  judge_lock-Cleared :
      (pid : Option ℤ) (e : Entry) (d : Disk)
      → IsReachable
      → get lock_name d.files ≡ some e
      → e.kind ≡ regular
      → (is_process_alive parse_pid m pid && not (predates_boot parse_pid m e.mtime)) ≡ false
      → judge_lock parse_pid m e.content pid (some e) d ≡ (done tt, without m lock_name d)
  unfolding judge_lock
  judge_lock-Cleared pid e d r here kind stale =
      rw
        (
          stale,
          read_file-present m lock_name d e r.reads here kind,
          is_same_refl e.content,
          unlink_file-present m lock_name d e r.unlinks here kind,
        )
        refl

  inspect_lock-Cleared :
      (o : Option Entry) (d : Disk)
      → IsReachable
      → get lock_name d.files ≡ o
      → IsFree o
      → Cleared d (inspect_lock parse_pid m d)
  unfolding inspect_lock
  inspect_lock-Cleared none d r here free =
      rw (read_file-absent m lock_name d r.reads here) (refl, here, λ q ne. refl)
  inspect_lock-Cleared (some e) d r here (kind, inl bad) =
      rw
        (
          read_file-present m lock_name d e r.reads here kind,
          bad,
          unlink_file-present m lock_name d e r.unlinks here kind,
        )
        (without-Cleared d)
  inspect_lock-Cleared (some e) d r here (kind, inr (pid, names, stale)) =
      rw
        (
          read_file-present m lock_name d e r.reads here kind,
          names,
          stat_file-present m lock_name d e r.stats here,
          judge_lock-Cleared pid e d r here kind stale,
        )
        (without-Cleared d)

  abbrev pub Acquired : Text → Disk → Result (Unit {0}) × Disk → Type 0
  Acquired started_at d r =
      (r.0 ≡ done tt)
      × IsLocked parse_pid m started_at r.1
      × ((q : Text) → q ≢ lock_name → get q r.1.files ≡ get q d.files)

  abbrev locked_disk : Text → Disk → Disk
  locked_disk started_at d =
      let files = set lock_name (fresh_file m d.next_ino owner_only []) d.files in
      record {
        files =
            set lock_name (fresh_file m d.next_ino owner_only (content parse_pid m started_at))
              files;
        next_ino = d.next_ino + 1;
      }

  create_lock-absent :
      (started_at : Text) (d : Disk)
      → IsReachable
      → get lock_name d.files ≡ none
      → create_lock parse_pid m started_at d ≡ (done true, locked_disk started_at d)
  unfolding create_lock write_new_file open_new_file set_content
  create_lock-absent started_at d r gone =
      rw
        (
          r.opens,
          gone,
          r.writes,
          get-set_self lock_name (fresh_file m d.next_ino owner_only []) d.files,
        )
        refl

  attempts-Acquired :
      (left : ℕ) (started_at : Text) (d : Disk)
      → IsReachable
      → IsFree (get lock_name d.files)
      → Acquired started_at d (attempts parse_pid m (suc left) started_at d)
  unfolding attempts
  attempts-Acquired left started_at d r free =
      go (inspect_lock parse_pid m d) (inspect_lock-Cleared (get lock_name d.files) d r refl free)
    where
      go :
          (i : Result (Unit {0}) × Disk)
          → Cleared d i
          → Acquired started_at d (
              continue
                (λ _. do
                  made ← create_lock parse_pid m started_at
                  if made then return tt else attempts parse_pid m left started_at)
                i)
      go (failed e, d') (fine, gone, rest) = cc
      go (done tt, d') (fine, gone, rest) = rw (create_lock-absent started_at d' r gone) (
        refl,
        (d'.next_ino, get-set_self lock_name _ _),
        λ q ne. get-set_ne q lock_name _ _ ne ∙ get-set_ne q lock_name _ d'.files ne ∙ rest q ne,
      )

  -- What stands at the lock's name is held, or gives way.
  abbrev pub Judged : Option Entry → Type 0
  Judged o = ((e : Entry) × (o ≡ some e) × IsHeld parse_pid m e) ⊎ IsFree o

  abbrev pub Decision :
      Text → (d : Disk) → Judged (get lock_name d.files) → Result (Unit {0}) × Disk → Type 0
  Decision started_at d (inl held) r = r ≡ (failed session_ownership, d)
  Decision started_at d (inr free) r = Acquired started_at d r

  -- While no call on the lock fails for a reason of its own: a lock that names a living process and is
  -- from this boot refuses every process, its own holder included, and nothing changes; a missing lock, an
  -- unreadable one, one of a process that is gone and one from before the boot give way, so that the lock
  -- then names this process and no other file has changed.
  pub acquire-Decision :
      (started_at : Text) (d : Disk) (j : Judged (get lock_name d.files))
      → IsReachable
      → Decision started_at d j (acquire_session_ownership parse_pid m started_at d)
  unfolding acquire_session_ownership
  acquire-Decision started_at d (inl (e, here, held)) r =
      acquire-held parse_pid m e started_at d r.reads here held
  acquire-Decision started_at d (inr free) r = attempts-Acquired 1 started_at d r free
