-- ===== src/Serve/Path.antt =====
-- The path of the socket and the session lock during a start of src/service/serve.ts.
use rclone_proton_drive_webd.Base.{
  ℕ, ◌≡◌, refl, Bool, true, false, Option, none, some, if◌then◌else◌,
}
use rclone_proton_drive_webd.Base.Text.{Text}
use rclone_proton_drive_webd.Base.Map.{get}
use rclone_proton_drive_webd.Base.Int.{ℤ}
use rclone_proton_drive_webd.Base.Action.{
  Ended, done, failed, continue, return, raise, ◌>>=◌, ◌>>◌, catch,
}
use rclone_proton_drive_webd.Gateway.{Bytes}
use rclone_proton_drive_webd.Session.Disk.{Machine}
use rclone_proton_drive_webd.Session.Directory.{User}
use rclone_proton_drive_webd.Session.Lock.{session_lock_filename}
use rclone_proton_drive_webd.Bootstrap.{Home, Start, StartFailure, bootstrap_service}
use rclone_proton_drive_webd.Serve.{
  BindResult, listens, throws, settle_bind, lstat_sync, fail_startup, system_error, exists_sync,
  PathKind, socket, alias, unrelated, PathEntry, Site, ServeFailure, Calls, is_socket, from_home,
  remove_stale_socket, listen, start_serving, main,
}
use rclone_proton_drive_webd.Serve.Release.{IsMine, given_back, given_back-IsMine}

abbrev calls : Bool → Bool → Bool → (Option PathEntry → BindResult) → Calls
calls lstat unlink chmod bind = record {
  lstat_fails = lstat;
  unlink_fails = unlink;
  chmod_fails = chmod;
  bind = bind;
}

abbrev at_path : PathKind → ℕ → Home → Site
at_path kind ino home = record { place = some (record { kind = kind; ino = ino }); home = home }

-- The start has failed, and the path holds what it held.
abbrev pub Kept : {A : Type 0} → Option PathEntry → Ended ServeFailure A × Site → Type 0
Kept place (done a, s) = ⊥
Kept place (failed e, s) = s.place ≡ place

-- How a start ends: the service listens at a socket of its own and has the directory as it was, or the
-- lock is gone.
abbrev pub Began : Site → Ended ServeFailure ℕ × Site → Type 0
Began s (done ino, t) = (t.place ≡ some (record { kind = socket; ino = ino })) × (t.home ≡ s.home)
Began s (failed e, t) = get session_lock_filename t.home.disk.files ≡ none

module _ (parse_pid : Bytes → Option (Option ℤ)) (m : Machine) where
  start_serving-Kept :
      (lstat unlink chmod : Bool) (bind : Option PathEntry → BindResult) (ino : ℕ) (kind : PathKind)
      (home : Home) (logged_in : Bool)
      → exists_sync (some (record { kind = kind; ino = ino })) ≡ true
      → is_socket kind ≡ false
      → Kept (some (record { kind = kind; ino = ino })) (
          start_serving parse_pid m
            (calls lstat unlink chmod bind)
            logged_in
            (at_path kind ino home))
  unfolding start_serving remove_stale_socket listen
  start_serving-Kept lstat unlink chmod bind ino kind home false x h = refl
  start_serving-Kept lstat unlink chmod bind ino socket home true x h = cc
  start_serving-Kept true unlink chmod bind ino (alias true) home true x h = refl
  start_serving-Kept false unlink chmod bind ino (alias true) home true x h = refl
  start_serving-Kept lstat unlink chmod bind ino (alias false) home true x h = cc
  start_serving-Kept true unlink chmod bind ino unrelated home true x h = refl
  start_serving-Kept false unlink chmod bind ino unrelated home true x h = refl

  module _ (k : Calls) (parse_client_uid : Bytes → Option Text) (client_uid_json : Text → Text)
      (u : User) where
    after-Kept :
        (logged_in : Bool) (e : PathEntry) (s : Site) (r : Ended StartFailure Text × Home)
        → s.place ≡ some e
        → exists_sync (some e) ≡ true
        → is_socket e.kind ≡ false
        → Kept (some e) (
            continue
              (λ _. start_serving parse_pid m k logged_in)
              (from_home parse_pid m k parse_client_uid client_uid_json u s r))
    after-Kept logged_in e s (failed f, home) here x h = here
    after-Kept logged_in e s (done uid, home) here x h = rw here (
        start_serving-Kept k.lstat_fails k.unlink_fails k.chmod_fails k.bind e.ino e.kind home
          logged_in x h)

    -- A start never removes or changes what stands at the path of the socket and is not a socket, a link to
    -- anything that exists among them, be that a socket or not: whatever calls fail, the path holds
    -- afterwards what it held, and the start fails. Nothing is said of a link whose target is missing.
    pub main-Kept :
        (o : Start) (new_uuid uuid : Text) (logged_in : Bool) (e : PathEntry) (s : Site)
        → s.place ≡ some e
        → exists_sync (some e) ≡ true
        → is_socket e.kind ≡ false
        → Kept
            (some e)
            (main parse_pid m k parse_client_uid client_uid_json u o new_uuid uuid logged_in s)
    unfolding main
    main-Kept o new_uuid uuid logged_in e s here x h =
        after-Kept logged_in e s
          (bootstrap_service parse_pid parse_client_uid client_uid_json u m o new_uuid uuid s.home)
          here x h

  -- From the call of `Bun.serve` on.
  abbrev listening : Calls → BindResult → Site → Ended ServeFailure ℕ × Site
  listening k b =
      catch (do settle_bind k b; if k.chmod_fails then raise system_error else return tt)
        (fail_startup parse_pid m k)
      >> (lstat_sync k >>= λ st. return st.ino)

  module _ (bind : Option PathEntry → BindResult) (home : Home)
      (mine : IsMine parse_pid m home.disk) where
    gone : get session_lock_filename (given_back parse_pid m home.disk).files ≡ none
    gone = given_back-IsMine parse_pid m home.disk mine

    abbrev at : Option PathEntry → Site
    at place = record { place = place; home = home }

    listening-Began :
        (unlink chmod : Bool) (place before : Option PathEntry) (b : BindResult)
        → Began (at before) (listening (calls false unlink chmod bind) b (at place))
    listening-Began unlink chmod place before (throws left) = gone
    listening-Began unlink true place before (listens ino) = gone
    listening-Began unlink false place before (listens ino) = (refl, refl)

    by_kind-Began :
        (unlink chmod : Bool) (kind : PathKind) (i : ℕ)
        → Began
            (at_path kind i home)
            (start_serving parse_pid m (calls false unlink chmod bind) true (at_path kind i home))
    unfolding start_serving remove_stale_socket listen
    by_kind-Began true chmod socket i = gone
    by_kind-Began false chmod socket i =
        listening-Began false chmod none (some (record { kind = socket; ino = i })) (bind none)
    by_kind-Began unlink chmod (alias true) i = gone
    by_kind-Began unlink chmod (alias false) i =
        listening-Began unlink chmod (some (record { kind = alias false; ino = i }))
          (some (record { kind = alias false; ino = i }))
          (bind (some (record { kind = alias false; ino = i })))
    by_kind-Began unlink chmod unrelated i = gone

    by_place-Began :
        (unlink chmod : Bool) (place : Option PathEntry) (logged_in : Bool)
        → Began
            (at place)
            (start_serving parse_pid m (calls false unlink chmod bind) logged_in (at place))
    unfolding start_serving remove_stale_socket listen
    by_place-Began unlink chmod place false = gone
    by_place-Began unlink chmod none true = listening-Began unlink chmod none none (bind none)
    by_place-Began unlink chmod (some e) true = by_kind-Began unlink chmod e.kind e.ino

  -- A start of a process that owns the session and can look at its path ends in one of two ways: the service
  -- listens at the path at a socket that it made, and has the state directory as it was, or the start
  -- fails and the lock is gone. The lock can be read and removed.
  pub start_serving-Began :
      (k : Calls) (logged_in : Bool) (s : Site)
      → IsMine parse_pid m s.home.disk
      → k.lstat_fails ≡ false
      → Began s (start_serving parse_pid m k logged_in s)
  start_serving-Began k logged_in s mine looks =
      rw looks (by_place-Began k.bind s.home mine k.unlink_fails k.chmod_fails s.place logged_in)
