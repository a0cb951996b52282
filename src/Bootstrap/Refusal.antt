-- ===== src/Bootstrap/Refusal.antt =====
-- A start of src/service/bootstrap.ts while another client is active.
use rclone_proton_drive_webd.Base.{◌≡◌, refl, inl, inr, true, false, Option, none, some}
use rclone_proton_drive_webd.Base.Text.{Text}
use rclone_proton_drive_webd.Base.Map.{get}
use rclone_proton_drive_webd.Base.Int.{ℤ}
use rclone_proton_drive_webd.Base.Action.{done, failed}
use rclone_proton_drive_webd.Gateway.{Bytes}
use rclone_proton_drive_webd.Session.Disk.{Entry, Disk, Machine, regular, read}
use rclone_proton_drive_webd.Session.Disk.Laws.{read_file-present, stat_file-cases}
use rclone_proton_drive_webd.Session.Directory.{User}
use rclone_proton_drive_webd.Session.Lock.{
  cli_events_lock_filename, is_process_alive, predates_boot, is_own, find_active_proton_client,
}
use rclone_proton_drive_webd.Bootstrap.{
  Home, concurrent_client, Start, check_other_clients, bootstrap_service,
}

module _ (parse_pid : Bytes → Option (Option ℤ)) (parse_client_uid : Bytes → Option Text)
    (client_uid_json : Text → Text) (u : User) (m : Machine) where
  -- The events lock names another process, which lives, and is from this boot.
  pub record IsActive (e : Entry) : Type 0 where
    pub pid : ℤ
    pub kind : e.kind ≡ regular
    pub names : parse_pid e.content ≡ some (some pid)
    pub lives : is_process_alive parse_pid m (some pid) ≡ true
    pub other : is_own parse_pid m (some pid) ≡ false
    pub recent : predates_boot parse_pid m e.mtime ≡ false

  find_active-IsActive :
      (e : Entry) (d : Disk)
      → m.fails read cli_events_lock_filename ≡ none
      → get cli_events_lock_filename d.files ≡ some e
      → (a : IsActive e) → find_active_proton_client parse_pid m d ≡ (done (some a.pid), d)
  unfolding find_active_proton_client
  find_active-IsActive e d reads here a =
      rw
        (
          read_file-present m cli_events_lock_filename d e reads here a.kind,
          a.names,
          a.lives,
          a.other,
        )
        (elim (stat_file-cases m cli_events_lock_filename d e here) [
          | inl s ↦ rw s refl
          | inr s ↦ rw (s, a.recent) refl
        ])

  check_other_clients-IsActive :
      (e : Entry) (h : Home)
      → m.fails read cli_events_lock_filename ≡ none
      → get cli_events_lock_filename h.disk.files ≡ some e
      → IsActive e
      → check_other_clients parse_pid parse_client_uid client_uid_json u m false h
        ≡ (failed concurrent_client, h)
  unfolding check_other_clients
  check_other_clients-IsActive e h reads here a =
      rw (find_active-IsActive e h.disk reads here a) refl

  -- A start while another client is active, which holds the events lock as a living process of this boot,
  -- is refused where that is not allowed and the lock can be read, and leaves the state directory as it
  -- was: no file is made, changed or removed, the locks included.
  pub bootstrap_service-IsActive :
      (o : Start) (new_uuid uuid : Text) (e : Entry) (h : Home)
      → o.allow_concurrent_client ≡ false
      → m.fails read cli_events_lock_filename ≡ none
      → get cli_events_lock_filename h.disk.files ≡ some e
      → IsActive e
      → bootstrap_service parse_pid parse_client_uid client_uid_json u m o new_uuid uuid h
        ≡ (failed concurrent_client, h)
  unfolding bootstrap_service
  bootstrap_service-IsActive o new_uuid uuid e h alone reads here a =
      rw (alone, check_other_clients-IsActive e h reads here a) refl
