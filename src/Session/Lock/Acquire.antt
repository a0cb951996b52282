-- ===== src/Session/Lock/Acquire.antt =====
-- `acquireSessionOwnership` of src/service/sessionStore.ts: when it is refused, what it leaves when it
-- succeeds, and when it does succeed.
use rclone_proton_drive_webd.Base.{
  ℕ, zero, suc, ◌+◌, ◌≡◌, refl, inl, inr, Bool, true, false, Option, none, some, [], if◌then◌else◌,
}
use rclone_proton_drive_webd.Base.Text.{Text}
use rclone_proton_drive_webd.Base.Map.{get, set, get-set_self}
use rclone_proton_drive_webd.Base.Int.{ℤ}
use rclone_proton_drive_webd.Gateway.{Bytes}
use rclone_proton_drive_webd.Session.Disk.{
  Entry, Disk, Code, enoent, eexist, Failure, system, session_ownership, session_directory_unsafe,
  session_conflict, other, plain, Result, done, failed, Act, return, continue, ◌>>=◌, ◌>>◌, regular,
  Machine, read, open_new, write, fresh_file, utf8_text, write_new_file, create_absent,
  unless_fails, on_entry, open_new_file, set_content,
}
use rclone_proton_drive_webd.Session.Disk.Laws.{read_file-present, stat_file-cases}
use rclone_proton_drive_webd.Base.Triple.{Post, Triple, then-Triple, catch-Triple}
use rclone_proton_drive_webd.Session.Write.{owner_only}
use rclone_proton_drive_webd.Session.Lock.{
  session_lock_filename, lock_json, is_process_alive, predates_boot, stat_predates_boot, judge_lock,
  inspect_lock, lost_race, create_lock, attempts, acquire_session_ownership,
}

module _ (parse_pid : Bytes → Option (Option ℤ)) (m : Machine) where
  abbrev pub lock_name : Text
  lock_name = session_lock_filename

  -- A lock on the disk that is held: it names a process that lives, and is not from before the boot.
  pub record IsHeld (e : Entry) : Type 0 where
    pub pid : Option ℤ
    pub kind : e.kind ≡ regular
    pub names : parse_pid e.content ≡ some pid
    pub lives : is_process_alive parse_pid m pid ≡ true
    pub recent : predates_boot parse_pid m e.mtime ≡ false

  judge_lock-held :
      (raw : Bytes) (pid : Option ℤ) (o : Option Entry) (d : Disk)
      → is_process_alive parse_pid m pid ≡ true
      → stat_predates_boot parse_pid m o ≡ false
      → judge_lock parse_pid m raw pid o d ≡ (failed session_ownership, d)
  unfolding judge_lock
  judge_lock-held raw pid o d lives recent = rw (lives, recent) refl

  inspect_lock-held :
      (e : Entry) (d : Disk)
      → m.fails read lock_name ≡ none
      → get lock_name d.files ≡ some e
      → IsHeld e
      → inspect_lock parse_pid m d ≡ (failed session_ownership, d)
  unfolding inspect_lock
  inspect_lock-held e d free here h =
      rw (read_file-present m lock_name d e free here h.kind, h.names)
        (elim (stat_file-cases m lock_name d e here) [
          | inl s ↦ rw (s, judge_lock-held e.content h.pid none d h.lives refl) refl
          | inr s ↦ rw (s, judge_lock-held e.content h.pid (some e) d h.lives h.recent) refl
        ])

  -- A lock that is held refuses every process, the holder included, and stays as it is.
  pub acquire-held :
      (e : Entry) (started_at : Text) (d : Disk)
      → m.fails read lock_name ≡ none
      → get lock_name d.files ≡ some e
      → IsHeld e
      → acquire_session_ownership parse_pid m started_at d ≡ (failed session_ownership, d)
  unfolding acquire_session_ownership attempts
  acquire-held e started_at d free here h = rw (inspect_lock-held e d free here h) refl

  abbrev pub content : Text → Bytes
  content started_at = utf8_text (lock_json m.pid started_at)

  -- The lock of this process, made just now.
  abbrev pub IsLocked : Text → Disk → Type 0
  IsLocked started_at d =
      (ino : ℕ) × (get lock_name d.files ≡ some (fresh_file m ino owner_only (content started_at)))

  abbrev Anything : Failure → Disk → Type 0
  Anything e d = Unit

  abbrev LockedIf : Text → Bool → Disk → Type 0
  LockedIf started_at made d = if made then IsLocked started_at d else Unit

  write_new_file-IsLocked :
      (started_at : Text) (d : Disk)
      → Post
          (λ _. IsLocked started_at)
          Anything
          (write_new_file m lock_name (content started_at) owner_only d)
  unfolding write_new_file open_new_file set_content
  write_new_file-IsLocked started_at d = go (m.fails open_new lock_name) (get lock_name d.files)
    where
      fresh : Disk
      fresh = record {
        files = set lock_name (fresh_file m d.next_ino owner_only []) d.files;
        next_ino = d.next_ino + 1;
      }

      filled :
          (f : Option Code)
          → Post
              (λ _. IsLocked started_at)
              Anything
              (unless_fails m f
                (on_entry m (some (fresh_file m d.next_ino owner_only [])) (λ e d. (
                  done tt,
                  record d {
                    files =
                        set lock_name
                          (record e { content = content started_at; mtime = m.now })
                          d.files;
                  },
                )))
                fresh)
      filled (some c) = tt
      filled none = (d.next_ino, get-set_self lock_name _ fresh.files)

      go :
          (f : Option Code) (o : Option Entry)
          → Post
              (λ _. IsLocked started_at)
              Anything
              (continue
                (λ _. set_content m lock_name (content started_at))
                (unless_fails m f (create_absent m o lock_name owner_only) d))
      go (some c) o = tt
      go none (some e) = tt
      go none none =
          rw (get-set_self lock_name (fresh_file m d.next_ino owner_only []) d.files)
            (filled (m.fails write lock_name))

  lost_race-LockedIf :
      (started_at : Text) (e : Failure)
      → Triple (λ _. Unit) (lost_race parse_pid m e) (LockedIf started_at) Anything
  lost_race-LockedIf started_at (system eexist) d h = tt
  lost_race-LockedIf started_at (system enoent) d h = tt
  lost_race-LockedIf started_at (system other) d h = tt
  lost_race-LockedIf started_at session_ownership d h = tt
  lost_race-LockedIf started_at session_directory_unsafe d h = tt
  lost_race-LockedIf started_at session_conflict d h = tt
  lost_race-LockedIf started_at plain d h = tt

  create_lock-LockedIf :
      (started_at : Text)
      → Triple (λ _. Unit) (create_lock parse_pid m started_at) (LockedIf started_at) Anything
  unfolding create_lock
  create_lock-LockedIf started_at =
      catch-Triple (LockedIf started_at) Anything Anything (λ _. Unit)
        (do write_new_file m lock_name (content started_at) owner_only; return true)
        (lost_race parse_pid m)
        (then-Triple (λ _. IsLocked started_at) Anything (LockedIf started_at) (λ _. Unit)
          (write_new_file m lock_name (content started_at) owner_only) (λ _. return true)
          (λ d _. write_new_file-IsLocked started_at d) (λ _ d h. h))
        (lost_race-LockedIf started_at)

  anything : {A : Type 0} (act : Act Disk A) → Triple (λ _. Unit) act (λ _ _. Unit) Anything
  anything {A} act d h = go (act d)
    where
      go : (r : Result A × Disk) → Post (λ _ _. Unit) Anything r
      go (done a, d) = tt
      go (failed e, d) = tt

  attempts-IsLocked :
      (left : ℕ) (started_at : Text)
      → Triple
          (λ _. Unit)
          (attempts parse_pid m left started_at)
          (λ _. IsLocked started_at)
          Anything
  unfolding attempts
  attempts-IsLocked zero started_at d h = tt
  attempts-IsLocked (suc left) started_at d h =
      then-Triple (λ _ _. Unit) Anything (λ _. IsLocked started_at) (λ _. Unit)
        (inspect_lock parse_pid m)
        (λ _. do
          made ← create_lock parse_pid m started_at
          if made then return tt else attempts parse_pid m left started_at)
        (anything (inspect_lock parse_pid m))
        (λ _.
          then-Triple (LockedIf started_at) Anything (λ _. IsLocked started_at) (λ _. Unit)
            (create_lock parse_pid m started_at)
            (λ made. if made then return tt else attempts parse_pid m left started_at)
            (create_lock-LockedIf started_at)
            (λ (made : Bool) d.
              elim made
                as (λ b.
                  LockedIf started_at b d
                  → Post (λ _. IsLocked started_at) Anything
                      ((if b then return tt else attempts parse_pid m left started_at) d)) [
                        | true ↦ λ h. h
                        | false ↦ λ h. attempts-IsLocked left started_at d tt
                      ]))
        d h

  pub acquire-IsLocked :
      (started_at : Text)
      → Triple
          (λ _. Unit)
          (acquire_session_ownership parse_pid m started_at)
          (λ _. IsLocked started_at)
          Anything
  unfolding acquire_session_ownership
  acquire-IsLocked started_at = attempts-IsLocked 2 started_at
