-- ===== src/Serve.antt =====
-- src/service/serve.ts: what the service does with its socket and with the session lock, from `main` to the
-- exit of the process. The requests are those of Webdav.
pub mod Release
pub mod Path
pub mod Exit
mod Tests
use rclone_proton_drive_webd.Base.{
  ℕ, Bool, true, false, not, ◌&&◌, ◌||◌, ◌==◌, Option, none, some, List, [], ◌∷◌, if◌then◌else◌,
}
use rclone_proton_drive_webd.Base.Text.{Text, codes, ◌===◌}
use rclone_proton_drive_webd.Base.Int.{ℤ}
use rclone_proton_drive_webd.Base.Action.{
  Ended, done, failed, Action, return, raise, ◌>>=◌, ◌>>◌, catch, ignore,
}
use rclone_proton_drive_webd.Gateway.{Bytes}
use rclone_proton_drive_webd.Session.Disk.{Disk, Act, Machine}
use rclone_proton_drive_webd.Session.Directory.{User}
use rclone_proton_drive_webd.Session.Lock.{release_session_ownership}
use rclone_proton_drive_webd.Webdav.Headers.{to_lower}
use rclone_proton_drive_webd.Bootstrap.{Home, Start, StartFailure, bootstrap_service}

abbrev one_of : Text → List Text → Bool
one_of v [] = false
one_of v (w ∷ ws) = (v === w) || one_of v ws

-- The variable's value is the argument; `toLowerCase` is that of ASCII letters.
unfoldable pub env_flag : Option Text → Bool → Bool
env_flag none default_value = default_value
env_flag (some []) default_value = default_value
env_flag (some (c ∷ v)) default_value =
    one_of (to_lower (c ∷ v)) (codes "1" ∷ codes "true" ∷ codes "yes" ∷ codes "y" ∷ [])

-- What stands at the path of the socket: a link says whether its target exists.
pub data PathKind : Type 0 where
  socket : PathKind
  alias : Bool → PathKind
  unrelated : PathKind

pub record PathEntry : Type 0 where
  pub kind : PathKind
  pub ino : ℕ

-- The path of the socket, and the state directory.
pub record Site : Type 0 where
  pub place : Option PathEntry
  pub home : Home

pub data ServeFailure : Type 0 where
  start : StartFailure → ServeFailure
  no_session : ServeFailure
  not_a_socket : ServeFailure
  system_error : ServeFailure

-- What `Bun.serve` does at a path: it listens at a new socket there, with its inode, or throws, and says
-- what it leaves at the path.
pub data BindResult : Type 0 where
  listens : ℕ → BindResult
  throws : Option PathEntry → BindResult

-- The calls on the path that fail, and what `Bun.serve` does with what stands there.
pub record Calls : Type 0 where
  pub lstat_fails : Bool
  pub unlink_fails : Bool
  pub chmod_fails : Bool
  pub bind : Option PathEntry → BindResult

abbrev pub is_socket : PathKind → Bool
is_socket socket = true
is_socket (alias target) = false
is_socket unrelated = false

-- `existsSync` follows a link.
abbrev pub exists_sync : Option PathEntry → Bool
exists_sync none = false
exists_sync (some e) = elim e.kind [ alias target ↦ target | _ ↦ true ]

module _ (k : Calls) where
  abbrev pub found : Option PathEntry → Action ServeFailure Site PathEntry
  found none = raise system_error
  found (some e) = return e

  abbrev pub lstat_sync : Action ServeFailure Site PathEntry
  lstat_sync s = (if k.lstat_fails then raise system_error else found s.place) s

  abbrev pub unlink_sync : Action ServeFailure Site (Unit {0})
  unlink_sync s =
      if k.unlink_fails then (failed system_error, s) else (done tt, record s { place = none })

  unfoldable pub remove_stale_socket : Action ServeFailure Site (Unit {0})
  remove_stale_socket s =
      (if exists_sync s.place
          then (do
            existing ← lstat_sync
            if not (is_socket existing.kind) then raise not_a_socket else unlink_sync)
          else return tt)
        s

  abbrev pub settle_bind : BindResult → Action ServeFailure Site (Unit {0})
  settle_bind (listens ino) s =
      (done tt, record s { place = some (record { kind = socket; ino = ino }) })
  settle_bind (throws left) s = (failed system_error, record s { place = left })

  abbrev pub bind_socket : Action ServeFailure Site (Unit {0})
  bind_socket s = settle_bind (k.bind s.place) s

  unfoldable pub listen : Action ServeFailure Site (Unit {0})
  listen = do bind_socket; if k.chmod_fails then raise system_error else return tt

-- `shuttingDown`, the watchdog, and the code the process has ended with.
pub record Service : Type 0 where
  pub place : Option PathEntry
  pub disk : Disk
  pub bound_ino : ℕ
  pub watching : Bool
  pub shutting_down : Bool
  pub exit_code : Option ℕ

-- A signal, a tick of the watchdog, the end of the transfers or of the time for them, and a change of the
-- path by another program.
pub data Event : Type 0 where
  signal tick drained : Event
  moved : Option PathEntry → Event

module _ (parse_pid : Bytes → Option (Option ℤ)) (m : Machine) (k : Calls) where
  -- `session.dispose()`, without the CLI's modules.
  abbrev pub dispose : Action ServeFailure Site (Unit {0})
  dispose s = (
    done tt,
    record s {
      home = record (s.home) { disk = (release_session_ownership parse_pid m s.home.disk).1 };
    },
  )

  abbrev pub fail_startup : {A : Type 0} → ServeFailure → Action ServeFailure Site A
  fail_startup e = do dispose; raise e

  -- `main` from the session on: it gives the inode of the socket. The last `lstat` is outside of the
  -- `try` blocks.
  unfoldable pub start_serving : Bool → Action ServeFailure Site ℕ
  unfolding remove_stale_socket listen
  start_serving logged_in = if not logged_in then (do dispose; raise no_session) else (do
    catch (remove_stale_socket k) fail_startup
    catch (listen k) fail_startup
    st ← lstat_sync k
    return st.ino)

  abbrev pub is_gone : Option PathEntry → ℕ → Bool
  is_gone none bound = true
  is_gone (some e) bound =
      if k.lstat_fails then true else not (is_socket e.kind) || not (e.ino == bound)

  -- A second signal ends the process at once.
  abbrev pub shutdown : Service → Service
  shutdown s =
      if s.shutting_down
      then record s { exit_code = some 1 }
      else record s { shutting_down = true; watching = false }

  abbrev pub on_tick : Service → Service
  on_tick s =
      if s.watching && is_gone s.place s.bound_ino
      then shutdown (record s { watching = false })
      else s

  -- The end of `shutdown`: `gateway.close()`, and the path.
  abbrev pub close : Service → Service
  close s = record s {
    place = if k.unlink_fails then s.place else none;
    disk = (release_session_ownership parse_pid m s.disk).1;
    exit_code = some 0;
  }

  abbrev pub react : Event → Service → Service
  react signal s = shutdown s
  react tick s = on_tick s
  react drained s = if s.shutting_down then close s else s
  react (moved place) s = record s { place = place }

  -- After its end a process does nothing.
  abbrev pub step_of : Option ℕ → Event → Service → Service
  step_of (some code) (moved place) s = record s { place = place }
  step_of (some code) signal s = s
  step_of (some code) tick s = s
  step_of (some code) drained s = s
  step_of none e s = react e s

  unfoldable pub step : Event → Service → Service
  step e s = step_of s.exit_code e s

  unfoldable pub run : List Event → Service → Service
  unfolding step
  run [] s = s
  run (e ∷ es) s = run es (step e s)

  abbrev pub serving : ℕ → Site → Service
  serving bound s = record {
    place = s.place;
    disk = s.home.disk;
    bound_ino = bound;
    watching = true;
    shutting_down = false;
    exit_code = none;
  }

  module _ (parse_client_uid : Bytes → Option Text) (client_uid_json : Text → Text) (u : User) where
    abbrev pub from_home :
        {A : Type 0} → Site → Ended StartFailure A × Home → Ended ServeFailure A × Site
    from_home s (done a, h) = (done a, record s { home = h })
    from_home s (failed e, h) = (failed (start e), record s { home = h })

    -- `main` until the service listens.
    unfoldable pub main : Start → Text → Text → Bool → Action ServeFailure Site ℕ
    unfolding start_serving bootstrap_service
    main o new_uuid uuid logged_in = do
      _ ← (λ s.
          from_home s (
            bootstrap_service parse_pid parse_client_uid client_uid_json u m o new_uuid uuid
              s.home))
      start_serving logged_in
