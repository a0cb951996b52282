-- ===== src/Bootstrap.antt =====
-- What src/service/bootstrap.ts does with the state directory and the session: the check for another
-- client, the ownership, the service's client UID, the abort of a start, and the sign-out latch. The
-- modules of the CLI and the SDK that it wires together are not modelled.
pub mod Refusal
pub mod Latch
pub mod Tests
use rclone_proton_drive_webd.Base.{
  ℕ, Bool, true, false, not, ◌&&◌, ◌||◌, Option, none, some, [], ◌∷◌, ◌++◌, if◌then◌else◌,
}
use rclone_proton_drive_webd.Base.Text.{Text, codes, starts_with}
use rclone_proton_drive_webd.Base.Int.{ℤ}
use rclone_proton_drive_webd.Base.Action.{
  Ended, done, failed, Action, return, raise, ◌>>=◌, ◌>>◌, catch, ignore,
}
use rclone_proton_drive_webd.Gateway.{Bytes}
use rclone_proton_drive_webd.Session.Disk.{
  Disk, Failure, system, enoent, Result, Act, Machine, read_file,
}
use rclone_proton_drive_webd.Session.Directory.{
  Place, User, mkdir_recursive, ensure_private_directory,
}
use rclone_proton_drive_webd.Session.Write.{write_private_file_atomic, prune_orphan_temp_files}
use rclone_proton_drive_webd.Session.Lock.{
  find_active_proton_client, release_stale_events_lock, acquire_session_ownership,
  release_session_ownership,
}
use rclone_proton_drive_webd.Session.Store.{session_filename, Store, load, save, remove}

abbrev pub client_uid_prefix : Text
client_uid_prefix = codes "external-drive-rclone"

abbrev pub service_client_uid_file : Text
service_client_uid_file = codes "clientUid-rclone.json"

-- The state directory: its own entry, and its files.
pub record Home : Type 0 where
  pub place : Option Place
  pub disk : Disk

-- `ConcurrentClientError`, what the session's calls throw, or an error of the CLI's modules.
pub data StartFailure : Type 0 where
  concurrent_client : StartFailure
  session : Failure → StartFailure
  init_failed : StartFailure

-- The start's parameters: whether another client is allowed, whether the CLI's `initApi` succeeds in time,
-- and whether the events provider can listen.
pub record Start : Type 0 where
  pub allow_concurrent_client : Bool
  pub init_succeeds : Bool
  pub can_listen_for_events : Bool
  pub started_at : Text

abbrev pub in_session :
    {A S : Type 0} → (S → Home) → Ended Failure A × S → Ended StartFailure A × Home
in_session put (done a, s) = (done a, put s)
in_session put (failed e, s) = (failed (session e), put s)

abbrev pub on_disk : {A : Type 0} → Act Disk A → Action StartFailure Home A
on_disk act h = in_session (λ d. record h { disk = d }) (act h.disk)

abbrev pub on_place : {A : Type 0} → Act (Option Place) A → Action StartFailure Home A
on_place act h = in_session (λ p. record h { place = p }) (act h.place)

-- `parse_pid` and `parse_client_uid` are what `JSON.parse` finds in a lock and in the UID file,
-- `client_uid_json` the text of that file.
module _ (parse_pid : Bytes → Option (Option ℤ)) (parse_client_uid : Bytes → Option Text)
    (client_uid_json : Text → Text) (u : User) (m : Machine) where
  abbrev pub release_if_stale : Option ℤ → Act Disk (Unit {0})
  release_if_stale (some pid) = return tt
  release_if_stale none = do _ ← release_stale_events_lock parse_pid m; return tt

  abbrev pub refuse_concurrent : Bool → Option ℤ → Action StartFailure Home (Unit {0})
  refuse_concurrent allow none = return tt
  refuse_concurrent allow (some pid) = if allow then return tt else raise concurrent_client

  -- The first lines of `bootstrapService`, before it creates anything.
  unfoldable pub check_other_clients : Bool → Action StartFailure Home (Unit {0})
  unfolding find_active_proton_client release_stale_events_lock
  check_other_clients allow = do
    active ← on_disk (find_active_proton_client parse_pid m)
    on_disk (release_if_stale active)
    refuse_concurrent allow active

  unfoldable pub acquire_credential_store_ownership : Text → Action StartFailure Home (Unit {0})
  unfolding ensure_private_directory acquire_session_ownership prune_orphan_temp_files
  acquire_credential_store_ownership started_at = do
    on_place (ensure_private_directory u)
    on_disk (acquire_session_ownership parse_pid m started_at)
    _ ← on_disk (prune_orphan_temp_files m session_filename)
    return tt

  -- `releaseOwnership().catch(() => {})`, and the error again.
  abbrev pub abort_startup : StartFailure → Action StartFailure Home (Unit {0})
  abort_startup e = do ignore (on_disk (release_session_ownership parse_pid m)); raise e

  abbrev pub none_if_missing : Failure → Act Disk (Option Bytes)
  none_if_missing (system enoent) = return none
  none_if_missing e = raise e

  abbrev pub own_uid : Option Text → Option Text
  own_uid none = none
  own_uid (some uid) = if starts_with uid (client_uid_prefix ++ codes "-") then some uid else none

  abbrev pub stored_uid : Option Bytes → Option Text
  stored_uid none = none
  stored_uid (some raw) = own_uid (parse_client_uid raw)

  abbrev pub or_generate : Option Text → Text → Text → Act Disk Text
  or_generate (some uid) new_uuid uuid = return uid
  or_generate none new_uuid uuid = do
    let uid = client_uid_prefix ++ (codes "-" ++ new_uuid)
    write_private_file_atomic m service_client_uid_file (client_uid_json uid) uuid
    return uid

  -- The random parts of the UID and of the temporary name are arguments.
  unfoldable pub get_or_generate_service_client_uid : Text → Text → Act Disk Text
  get_or_generate_service_client_uid new_uuid uuid = do
    raw ← catch (do raw ← read_file m service_client_uid_file; return (some raw)) none_if_missing
    or_generate (stored_uid raw) new_uuid uuid

  -- `bootstrapService`, as far as the state directory goes: it gives the client UID. An error of the UID file
  -- does not pass `abort_startup`.
  unfoldable pub bootstrap_service : Start → Text → Text → Action StartFailure Home Text
  unfolding check_other_clients acquire_credential_store_ownership
      get_or_generate_service_client_uid
  bootstrap_service o new_uuid uuid = do
    check_other_clients o.allow_concurrent_client
    on_place (mkdir_recursive u u.default_mode)
    acquire_credential_store_ownership o.started_at
    (if o.init_succeeds then return tt else abort_startup init_failed)
    uid ← on_disk (get_or_generate_service_client_uid new_uuid uuid)
    (if o.can_listen_for_events || o.allow_concurrent_client
        then return tt
        else abort_startup concurrent_client)
    return uid

-- The credentials store behind `withSignOutLatch`, and whether a sign-out was seen.
pub record Latched : Type 0 where
  pub store : Store
  pub session_rejected : Bool

abbrev pub with_store : {A : Type 0} → Latched → Result A × Store → Result A × Latched
with_store l (r, st) = (r, record l { store = st })

module _ {Snapshot : Type 0} (parse_stored_snapshot : Bytes → Option Snapshot)
    (stringify : Snapshot → Text) (session_uid : Snapshot → Text) (marker_json : Text → Text → Text)
    (m : Machine) where
  unfoldable pub latched_load : Act Latched (Option Snapshot)
  latched_load l =
      with_store l (load parse_stored_snapshot stringify session_uid marker_json m l.store)

  unfoldable pub latched_save : Snapshot → Text → Act Latched (Unit {0})
  latched_save snapshot uuid l =
      with_store l
        (save parse_stored_snapshot stringify session_uid marker_json m snapshot uuid l.store)

  -- `onSignOut()` comes first.
  unfoldable pub latched_remove : Text → Text → Act Latched (Unit {0})
  latched_remove iso uuid l =
      with_store (record l { session_rejected = true })
        (remove parse_stored_snapshot stringify session_uid marker_json m iso uuid l.store)
