-- ===== src/Session/Lock.antt =====
-- The locks of src/service/sessionStore.ts: `isProcessAlive`, `predatesBoot`, `findActiveProtonClient`,
-- `releaseStaleEventsLock`, `acquireSessionOwnership` and the release that it returns.
pub mod Acquire
pub mod Free
pub mod Owners
use rclone_proton_drive_webd.Base.{
  ℕ, zero, suc, ◌+◌, Bool, true, false, not, ◌&&◌, ◌||◌, Option, none, some, [], ◌∷◌, ◌++◌, ◌==◌,
  ltb, if◌then◌else◌,
}
use rclone_proton_drive_webd.Base.Text.{Text, codes, ◌===◌}
use rclone_proton_drive_webd.Base.Int.{ℤ, pos, negsuc, eq_ℤ}
use rclone_proton_drive_webd.Gateway.{Bytes}
use rclone_proton_drive_webd.Number.{decimal}
use rclone_proton_drive_webd.Session.Disk.{
  Entry, Disk, Code, enoent, eexist, other, Failure, system, session_ownership, plain, Act, return,
  raise, ◌>>=◌, ◌>>◌, catch, quiet, ignore, Signal, delivered, eperm, esrch, Machine, utf8_text,
  read_file, stat_file, unlink_file, write_new_file,
}
use rclone_proton_drive_webd.Session.Write.{owner_only}

abbrev pub session_lock_filename : Text
session_lock_filename = codes "auth-session.lock"

abbrev pub cli_events_lock_filename : Text
cli_events_lock_filename = codes "events.lock"

abbrev pub can_signal : Signal → Bool
can_signal delivered = true
can_signal eperm = true
can_signal esrch = false

-- `JSON.stringify({ pid, startedAt })`; the time holds no character that JSON escapes.
abbrev pub lock_json : ℕ → Text → Text
lock_json pid started_at =
    codes "{\"pid\":" ++ (decimal pid ++ (codes ",\"startedAt\":\"" ++ (started_at ++ codes "\"}")))

abbrev pub is_same : Option Bytes → Bytes → Bool
is_same none raw = false
is_same (some again) raw = again === raw

-- `parse_pid` reads the `pid` of a lock with `JSON.parse`: nothing where that throws or gives null, and
-- `some none` where there is no whole number.
module _ (parse_pid : Bytes → Option (Option ℤ)) (m : Machine) where
  unfoldable pub is_process_alive : Option ℤ → Bool
  is_process_alive none = false
  is_process_alive (some (negsuc n)) = false
  is_process_alive (some (pos zero)) = false
  is_process_alive (some (pos (suc n))) = can_signal (m.kill (suc n))

  -- `mtimeMs < (Date.now() - os.uptime() * 1000) - 1000`, without a subtraction.
  abbrev pub predates_boot : ℕ → Bool
  predates_boot mtime = ltb (mtime + 1000 + m.uptime) m.now

  abbrev pub stat_predates_boot : Option Entry → Bool
  stat_predates_boot none = false
  stat_predates_boot (some st) = predates_boot st.mtime

  abbrev pub parsed : Option (Option ℤ) → Act Disk (Option ℤ)
  parsed none = raise plain
  parsed (some pid) = return pid

  abbrev pub is_own : Option ℤ → Bool
  is_own none = false
  is_own (some z) = eq_ℤ z (pos m.pid)

  unfoldable pub find_active_proton_client : Act Disk (Option ℤ)
  unfolding is_process_alive
  find_active_proton_client =
      catch
        (do
          raw ← read_file m cli_events_lock_filename
          pid ← parsed (parse_pid raw)
          (if not (is_process_alive pid) || is_own pid then return none else (do
            st ← quiet (stat_file m cli_events_lock_filename)
            return (if stat_predates_boot st then none else pid))))
        (λ _. return none)

  abbrev pub remove_unchanged : Bytes → Entry → Act Disk Bool
  remove_unchanged raw st = if not (predates_boot st.mtime) then return false else (do
    again ← quiet (read_file m cli_events_lock_filename)
    (if not (is_same again raw)
        then return false
        else catch (do unlink_file m cli_events_lock_filename; return true) (λ _. return false)))

  abbrev pub and_then_remove : Option (Bytes × Entry) → Act Disk Bool
  and_then_remove none = return false
  and_then_remove (some (raw, st)) = remove_unchanged raw st

  unfoldable pub release_stale_events_lock : Act Disk Bool
  release_stale_events_lock = do
    seen ← quiet (do
      raw ← read_file m cli_events_lock_filename
      st ← stat_file m cli_events_lock_filename
      return (raw, st))
    and_then_remove seen

  -- The lock is there: an error if it is held, else it goes if it is still what was judged.
  unfoldable pub judge_lock : Bytes → Option ℤ → Option Entry → Act Disk (Unit {0})
  unfolding is_process_alive
  judge_lock raw pid st =
      if is_process_alive pid && not (stat_predates_boot st) then raise session_ownership else (do
        again ← quiet (read_file m session_lock_filename)
        if is_same again raw then ignore (unlink_file m session_lock_filename) else return tt)

  abbrev pub after_inspection : Failure → Act Disk (Unit {0})
  after_inspection session_ownership = raise session_ownership
  after_inspection (system enoent) = return tt
  after_inspection e = ignore (unlink_file m session_lock_filename)

  unfoldable pub inspect_lock : Act Disk (Unit {0})
  unfolding judge_lock
  inspect_lock =
      catch
        (do
          raw ← read_file m session_lock_filename
          pid ← parsed (parse_pid raw)
          st ← quiet (stat_file m session_lock_filename)
          judge_lock raw pid st)
        after_inspection

  abbrev pub lost_race : Failure → Act Disk Bool
  lost_race (system eexist) = return false
  lost_race e = raise e

  unfoldable pub create_lock : Text → Act Disk Bool
  create_lock started_at =
      catch
        (do
          write_new_file m session_lock_filename (utf8_text (lock_json m.pid started_at)) owner_only
          return true)
        lost_race

  unfoldable pub attempts : ℕ → Text → Act Disk (Unit {0})
  unfolding inspect_lock create_lock
  attempts zero started_at = raise session_ownership
  attempts (suc left) started_at =
      let rest = attempts left started_at in
      do inspect_lock; made ← create_lock started_at; if made then return tt else rest

  -- `Date` gives the text of the time.
  unfoldable pub acquire_session_ownership : Text → Act Disk (Unit {0})
  unfolding attempts
  acquire_session_ownership started_at = attempts 2 started_at

  unfoldable pub release_session_ownership : Act Disk (Unit {0})
  release_session_ownership = ignore (do
    raw ← read_file m session_lock_filename
    pid ← parsed (parse_pid raw)
    if is_own pid then unlink_file m session_lock_filename else return tt)
