-- ===== src/Session/Store.antt =====
-- `OwnedFileSessionStore` of src/service/sessionStore.ts: the credentials as one private file.
pub mod Loading
pub mod Saving
pub mod Markers
pub mod Unique
pub mod Pruning
pub mod Signout
use mathlib.Core.Option
use rclone_proton_drive_webd.Base.{
  ℕ, ◌+◌, ◌-◌, ◌%◌, Bool, true, false, not, ◌&&◌, Option, none, some, List, [], ◌∷◌, ◌++◌, ◌==◌,
  ltb, if◌then◌else◌, length, take, filter, map,
}
use rclone_proton_drive_webd.Base.Text.{Text, codes, starts_with}
use rclone_proton_drive_webd.Gateway.{Bytes}
use rclone_proton_drive_webd.Session.Disk.{
  Kind, regular, directory, link, Entry, Disk, enoent, Failure, system, session_directory_unsafe,
  session_conflict, Result, done, failed, Act, return, raise, ◌>>=◌, ◌>>◌, catch, quiet, ignore,
  Machine, lstat_file, read_file, chmod_file, unlink_file, read_names,
}
use rclone_proton_drive_webd.Session.Write.{owner_only, write_private_file_atomic}

abbrev pub session_filename : Text
session_filename = codes "auth-session.json"

abbrev pub marker_prefix : Text
marker_prefix = codes "auth-session.signout-"

pub record Identity : Type 0 where
  pub ino : ℕ
  pub mtime : ℕ
  pub size : ℕ

-- The directory, and `lastSeen`.
pub record Store : Type 0 where
  pub disk : Disk
  pub last_seen : Option Identity

abbrev pub identity_of : Entry → Identity
identity_of st = record { ino = st.ino; mtime = st.mtime; size = length st.content }

abbrev pub same_identity : Option Identity → Option Identity → Bool
same_identity none none = true
same_identity none (some b) = false
same_identity (some a) none = false
same_identity (some a) (some b) = (a.ino == b.ino) && (a.mtime == b.mtime) && (a.size == b.size)

abbrev pub on_store : {A : Type 0} → Store → Result A × Disk → Result A × Store
on_store st (r, d) = (r, record st { disk = d })

abbrev pub on_disk : {A : Type 0} → Act Disk A → Act Store A
on_disk act st = on_store st (act st.disk)

abbrev pub is_regular : Kind → Bool
is_regular regular = true
is_regular directory = false
is_regular link = false

-- The order of `sort` on names, by characters.
unfoldable pub text_leb : Text → Text → Bool
text_leb [] t = true
text_leb (x ∷ s) [] = false
text_leb (x ∷ s) (y ∷ t) = if x == y then text_leb s t else ltb x y

unfoldable pub insert : Text → List Text → List Text
insert x [] = x ∷ []
insert x (y ∷ ys) = let rest = insert x ys in if text_leb x y then x ∷ y ∷ ys else y ∷ rest

unfoldable pub sort : List Text → List Text
unfolding insert
sort [] = []
sort (x ∷ xs) = insert x (sort xs)

-- `toISOString().replace(/[:.]/g, '-')`
abbrev pub stamp_of : Text → Text
stamp_of iso = map (λ c. if c == b':' then b'-' else if c == b'.' then b'-' else c) iso

abbrev pub marker_of : Text → Text
marker_of iso = marker_prefix ++ (stamp_of iso ++ codes ".json")

-- `parse_stored_snapshot` is the CLI's, `stringify` is `JSON.stringify`, `session_uid` the field
-- `session.uid`, `marker_json` what `JSON.stringify` makes of a marker's time and hint.
module _ {Snapshot : Type 0} (parse_stored_snapshot : Bytes → Option Snapshot)
    (stringify : Snapshot → Text) (session_uid : Snapshot → Text) (marker_json : Text → Text → Text)
    (m : Machine) where
  unfoldable pub current_identity : Act Disk (Option Identity)
  current_identity = do
    st ← quiet (lstat_file m session_filename)
    return (Option.map identity_of st)

  -- `this.lastSeen = await this.currentIdentity() ?? undefined`
  unfoldable pub note_identity : Act Store (Unit {0})
  unfolding current_identity
  note_identity = do
    seen ← on_disk current_identity
    (λ st. (done tt, record st { last_seen = seen }))

  abbrev pub null_if_missing : Failure → Act Store (Option Entry)
  null_if_missing (system enoent) = return none
  null_if_missing e = raise e

  abbrev pub refuse_irregular : Entry → Act Store (Unit {0})
  refuse_irregular st =
      if not (is_regular st.kind) then raise session_directory_unsafe else return tt

  abbrev pub tighten : Entry → Act Store (Unit {0})
  tighten st =
      if st.mode % 64 == 0 then return tt else on_disk (chmod_file m session_filename owner_only)

  abbrev pub refuse_large : Entry → Act Store (Unit {0})
  refuse_large st =
      if ltb 1_048_576 (length st.content) then raise session_directory_unsafe else return tt

  abbrev pub read_snapshot : Act Store (Option Snapshot)
  read_snapshot = do
    raw ← on_disk (read_file m session_filename)
    note_identity
    return (parse_stored_snapshot raw)

  -- `load` from the checks of the entry on.
  unfoldable pub load_entry : Entry → Act Store (Option Snapshot)
  unfolding note_identity
  load_entry st = do refuse_irregular st; tighten st; refuse_large st; read_snapshot

  abbrev pub load_found : Option Entry → Act Store (Option Snapshot)
  load_found none = return none
  load_found (some st) = load_entry st

  unfoldable pub load : Act Store (Option Snapshot)
  unfolding load_entry
  load = do
    found ←
        catch (on_disk (do st ← lstat_file m session_filename; return (some st))) null_if_missing
    load_found found

  -- Both are known, and they differ.
  abbrev pub is_conflict : Option Identity → Option Identity → Bool
  is_conflict none current = false
  is_conflict (some seen) none = false
  is_conflict (some seen) (some current) = not (same_identity (some seen) (some current))

  abbrev pub refuse_conflict : Option Identity → Act Store (Unit {0})
  refuse_conflict current st =
      (if is_conflict st.last_seen current then failed session_conflict else done tt, st)

  unfoldable pub save : Snapshot → Text → Act Store (Unit {0})
  unfolding current_identity note_identity
  save snapshot uuid = do
    current ← on_disk current_identity
    refuse_conflict current
    on_disk (write_private_file_atomic m session_filename (stringify snapshot) uuid)
    note_identity

  unfoldable pub remove_all : List Text → Act Disk (Unit {0})
  remove_all [] = return tt
  remove_all (name ∷ names) = do ignore (unlink_file m name); remove_all names

  -- The markers, in order; the last five are kept.
  abbrev pub markers : List Text → List Text
  markers names = sort (filter (λ n. starts_with n marker_prefix) names)

  abbrev pub outdated : List Text → List Text
  outdated names = take (length (markers names) - 5) (markers names)

  unfoldable pub prune_markers : Act Disk (Unit {0})
  unfolding remove_all sort
  prune_markers = ignore (do names ← read_names m; remove_all (outdated names))

  abbrev pub hint_of : Option Snapshot → Text
  hint_of none = codes "unknown"
  hint_of (some snapshot) = take 6 (session_uid snapshot) ++ codes "..."

  unfoldable pub uid_hint : Act Store Text
  unfolding load
  uid_hint = catch (do snapshot ← load; return (hint_of snapshot)) (λ _. return (codes "unknown"))

  -- `iso` is the time, read twice by the source; the order by which it is written is logged.
  unfoldable pub remove : Text → Text → Act Store (Unit {0})
  unfolding uid_hint prune_markers
  remove iso uuid = do
    hint ← uid_hint
    ignore (
        on_disk (do
          write_private_file_atomic m (marker_of iso) (marker_json iso hint) uuid
          prune_markers))
