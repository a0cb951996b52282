-- ===== src/Serve/Release.antt =====
-- The session lock of a service of src/service/serve.ts that gives it back.
use rclone_proton_drive_webd.Base.{◌≡◌, refl, ◌∙◌, ap, true, Option, none, some}
use rclone_proton_drive_webd.Base.Map.{get, delete, get-delete_self}
use rclone_proton_drive_webd.Base.Int.{ℤ}
use rclone_proton_drive_webd.Base.Action.{done}
use rclone_proton_drive_webd.Gateway.{Bytes}
use rclone_proton_drive_webd.Session.Disk.{Entry, Disk, Result, Machine, regular, read, unlink}
use rclone_proton_drive_webd.Session.Disk.Laws.{read_file-present, unlink_file-present}
use rclone_proton_drive_webd.Session.Lock.{session_lock_filename, is_own, release_session_ownership}

module _ (parse_pid : Bytes → Option (Option ℤ)) (m : Machine) where
  -- The lock on the disk is the one of this process, and it can be read and removed.
  pub record IsMine (d : Disk) : Type 0 where
    pub lock : Entry
    pub pid : Option ℤ
    pub here : get session_lock_filename d.files ≡ some lock
    pub kind : lock.kind ≡ regular
    pub names : parse_pid lock.content ≡ some pid
    pub own : is_own parse_pid m pid ≡ true
    pub reads : m.fails read session_lock_filename ≡ none
    pub unlinks : m.fails unlink session_lock_filename ≡ none

  abbrev pub given_back : Disk → Disk
  given_back d = (release_session_ownership parse_pid m d).1

  release-IsMine :
      (d : Disk)
      → IsMine d
      → release_session_ownership parse_pid m d
        ≡ (done tt, record d { files = delete session_lock_filename d.files })
  unfolding release_session_ownership
  release-IsMine d h =
      rw
        (
          read_file-present m session_lock_filename d h.lock h.reads h.here h.kind,
          h.names,
          h.own,
          unlink_file-present m session_lock_filename d h.lock h.unlinks h.here h.kind,
        )
        refl

  pub given_back-IsMine :
      (d : Disk) → IsMine d → get session_lock_filename (given_back d).files ≡ none
  given_back-IsMine d h =
      ap (λ (r : Result (Unit {0}) × Disk). get session_lock_filename r.1.files)
        (release-IsMine d h)
      ∙ get-delete_self session_lock_filename d.files
