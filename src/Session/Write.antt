-- ===== src/Session/Write.antt =====
-- `writePrivateFileAtomic` and `pruneOrphanTempFiles` of src/service/sessionStore.ts. The random part
-- of a temporary name is an argument.
pub mod Loop
pub mod Atomic
use rclone_proton_drive_webd.Base.{
  ℕ, zero, suc, ◌+◌, ◌-◌, Bool, true, false, ◌&&◌, Option, none, some, List, [], ◌∷◌, ◌++◌, ◌==◌,
  ltb, leb, if◌then◌else◌, length, take, drop,
}
use rclone_proton_drive_webd.Base.Text.{Text, codes, starts_with, ◌===◌}
use rclone_proton_drive_webd.Gateway.{Bytes}
use rclone_proton_drive_webd.Number.{decimal}
use rclone_proton_drive_webd.Session.Disk.{
  Disk, Failure, plain, Result, done, failed, Act, return, raise, continue, ◌>>=◌, ◌>>◌, catch,
  quiet, ignore, fsync, close, Machine, utf8_text, open_new_file, set_content, settle_file,
  rename_file, unlink_file, read_names,
}

-- 0o600
abbrev pub owner_only : ℕ
owner_only = 384

-- `s.endsWith(t)`
abbrev pub ends_with : Text → Text → Bool
ends_with s t = leb (length t) (length s) && (drop (length s - length t) s === t)

abbrev pub temp_prefix : Text → Text
temp_prefix target = codes "." ++ (target ++ codes ".")

abbrev pub temp_name : ℕ → Text → Text → Text
temp_name pid target uuid =
    temp_prefix target ++ ((decimal pid ++ (codes "." ++ uuid)) ++ codes ".tmp")

abbrev pub after_finally : {A : Type 0} → Act Disk (Unit {0}) → Result A × Disk → Result A × Disk
after_finally last (done a, d) = continue (λ _. return a) (last d)
after_finally last (failed e, d) = continue (λ _. raise e) (last d)

-- `try { ... } finally { ... }`
abbrev pub finally : {A : Type 0} → Act Disk A → Act Disk (Unit {0}) → Act Disk A
finally act last d = after_finally last (act d)

module _ (m : Machine) where
  -- The loop around `writeSync`, where `written` bytes are in the file; a fuel above the number of
  -- bytes left is enough. An answer of 0 is a short write.
  unfoldable pub write_loop : ℕ → Text → Bytes → ℕ → Act Disk (Unit {0})
  write_loop zero name bytes written = raise plain
  write_loop (suc fuel) name bytes written =
      let n = m.takes written (length bytes - written) in
      let rest = write_loop fuel name bytes (written + n) in
      if ltb written (length bytes)
      then (do set_content m name (take (written + n) bytes); if n == 0 then raise plain else rest)
      else return tt

  -- Opens the temporary file, fills it and closes it.
  unfoldable pub write_temp : Text → Bytes → Act Disk (Unit {0})
  unfolding write_loop
  write_temp tmp bytes = do
    open_new_file m tmp owner_only
    finally (do write_loop (suc (length bytes)) tmp bytes 0; settle_file m fsync tmp)
        (settle_file m close tmp)

  unfoldable pub replace_file : Text → Text → Bytes → Act Disk (Unit {0})
  unfolding write_temp
  replace_file tmp target bytes = do write_temp tmp bytes; rename_file m tmp target

  -- The `fsync` of the directory at the end changes nothing and is best effort.
  unfoldable pub write_private_file_atomic : Text → Text → Text → Act Disk (Unit {0})
  unfolding replace_file
  write_private_file_atomic target text uuid = do
    let tmp = temp_name m.pid target uuid
    catch (replace_file tmp target (utf8_text text)) (λ e. do ignore (unlink_file m tmp); raise e)
    ignore (settle_file m fsync [])

  abbrev pub is_orphan : Text → Text → Bool
  is_orphan target name = starts_with name (temp_prefix target) && ends_with name (codes ".tmp")

  abbrev pub one_if_done : Option (Unit {0}) → ℕ
  one_if_done none = 0
  one_if_done (some _) = 1

  unfoldable pub remove_orphan : Text → Text → Act Disk ℕ
  remove_orphan target name =
      if is_orphan target name
      then (do r ← quiet (unlink_file m name); return (one_if_done r))
      else return 0

  unfoldable pub remove_orphans : Text → List Text → ℕ → Act Disk ℕ
  unfolding remove_orphan
  remove_orphans target [] removed = return removed
  remove_orphans target (name ∷ names) removed = do
    k ← remove_orphan target name
    remove_orphans target names (removed + k)

  unfoldable pub prune_orphan_temp_files : Text → Act Disk ℕ
  unfolding remove_orphans
  prune_orphan_temp_files target = do
    names ← catch (read_names m) (λ _. return [])
    remove_orphans target names 0
