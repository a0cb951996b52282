-- ===== src/Session/Disk.antt =====
-- What src/service/sessionStore.ts uses of node:fs: the state directory as a map from names to files,
-- and each call as an action on it that can fail.
pub mod Laws
use mathlib.Core.Option.{Option, none, some}
use rclone_proton_drive_webd.Base.{ℕ, ◌+◌, Bool, true, false, List, [], ◌∷◌, ◌++◌, if◌then◌else◌}
pub use rclone_proton_drive_webd.Base.Action.{
  Ended, done, failed, Action, return, raise, continue, ◌>>=◌, ◌>>◌, recover, catch, or_null, quiet,
  settled, ignore,
}
use rclone_proton_drive_webd.Base.Text.{Text}
use rclone_proton_drive_webd.Base.Map.{Map, get, set, delete}
use rclone_proton_drive_webd.Gateway.{Bytes}
use rclone_proton_drive_webd.Uri.{utf8}

pub data Kind : Type 0 where
  regular directory link : Kind

-- A link is listed with the content of the file that it names.
pub record Entry : Type 0 where
  pub kind : Kind
  pub content : Bytes
  pub ino : ℕ
  pub mtime : ℕ
  pub mode : ℕ

pub record Disk : Type 0 where
  pub files : Map Entry
  pub next_ino : ℕ

-- The `code` of a system error.
pub data Code : Type 0 where
  enoent eexist other : Code

-- What is thrown: a system error, one of the classes of the module, or another error, as that of
-- `JSON.parse` or of a short write.
pub data Failure : Type 0 where
  system : Code → Failure
  session_ownership session_directory_unsafe session_conflict : Failure
  plain : Failure

abbrev pub Result : Type 0 → Type 0
Result A = Ended Failure A

abbrev pub Act : Type 0 → Type 0 → Type 0
Act S A = Action Failure S A

pub data Call : Type 0 where
  lstat stat read unlink open_new write fsync close rename readdir chmod : Call

-- What sending signal 0 to a process answers.
pub data Signal : Type 0 where
  delivered eperm esrch : Signal

-- What surrounds a call: the process, the clock in milliseconds since the epoch and since the boot, the
-- processes that can be signalled, the calls that fail, and how many bytes `writeSync` takes of those
-- it is given at a position.
pub record Machine : Type 0 where
  pub pid : ℕ
  pub now : ℕ
  pub uptime : ℕ
  pub kill : ℕ → Signal
  pub fails : Call → Text → Option Code
  pub takes : ℕ → ℕ → ℕ

abbrev pub utf8_text : Text → Bytes
utf8_text [] = []
utf8_text (c ∷ s) = utf8 c ++ utf8_text s

module _ (m : Machine) where
  abbrev pub unless_fails : {A : Type 0} → Option Code → Act Disk A → Act Disk A
  unless_fails none act d = act d
  unless_fails (some c) act d = (failed (system c), d)

  -- The call on the entry of the name.
  abbrev pub on_entry : {A : Type 0} → Option Entry → (Entry → Act Disk A) → Act Disk A
  on_entry none f d = (failed (system enoent), d)
  on_entry (some e) f d = f e d

  abbrev pub at_name : {A : Type 0} → Call → Text → (Entry → Act Disk A) → Act Disk A
  at_name call name f d = unless_fails (m.fails call name) (on_entry (get name d.files) f) d

  unfoldable pub lstat_file : Text → Act Disk Entry
  lstat_file name = at_name lstat name return

  unfoldable pub stat_file : Text → Act Disk Entry
  stat_file name = at_name stat name return

  abbrev pub content_of : Kind → Bytes → Act Disk Bytes
  content_of regular bytes = return bytes
  content_of link bytes = return bytes
  content_of directory bytes = raise (system other)

  -- `fs.readFile`, as bytes.
  unfoldable pub read_file : Text → Act Disk Bytes
  read_file name = at_name read name (λ e. content_of e.kind e.content)

  abbrev pub removed : Kind → Text → Act Disk (Unit {0})
  removed directory name d = (failed (system other), d)
  removed regular name d = (done tt, record d { files = delete name d.files })
  removed link name d = (done tt, record d { files = delete name d.files })

  unfoldable pub unlink_file : Text → Act Disk (Unit {0})
  unlink_file name = at_name unlink name (λ e. removed e.kind name)

  abbrev pub fresh_file : ℕ → ℕ → Bytes → Entry
  fresh_file ino mode content = record {
    kind = regular;
    content = content;
    ino = ino;
    mtime = m.now;
    mode = mode;
  }

  abbrev pub create_absent : Option Entry → Text → ℕ → Act Disk (Unit {0})
  create_absent (some e) name mode d = (failed (system eexist), d)
  create_absent none name mode d = (
    done tt,
    record { files = set name (fresh_file d.next_ino mode []) d.files; next_ino = d.next_ino + 1 },
  )

  -- `open` with the flag `wx`.
  unfoldable pub open_new_file : Text → ℕ → Act Disk (Unit {0})
  open_new_file name mode d =
      unless_fails (m.fails open_new name) (create_absent (get name d.files) name mode) d

  -- The bytes of an open file become `content`.
  unfoldable pub set_content : Text → Bytes → Act Disk (Unit {0})
  set_content name content = at_name write name (λ e d. (
    done tt,
    record d { files = set name (record e { content = content; mtime = m.now }) d.files },
  ))

  -- `fs.writeFile` with the flag `wx`: when the write fails, the empty file stays.
  unfoldable pub write_new_file : Text → Bytes → ℕ → Act Disk (Unit {0})
  unfolding open_new_file set_content
  write_new_file name content mode = do open_new_file name mode; set_content name content

  -- A call on an open file that changes nothing.
  abbrev pub settle_file : Call → Text → Act Disk (Unit {0})
  settle_file call name = unless_fails (m.fails call name) (return tt)

  -- A target that is a directory makes the call one that `fails`.
  unfoldable pub rename_file : Text → Text → Act Disk (Unit {0})
  rename_file tmp target =
      at_name rename tmp (λ e d. (done tt, record d { files = set target e (delete tmp d.files) }))

  unfoldable pub chmod_file : Text → ℕ → Act Disk (Unit {0})
  chmod_file name mode =
      at_name chmod name
        (λ e d. (done tt, record d { files = set name (record e { mode = mode }) d.files }))

  abbrev pub keys : Map Entry → List Text
  keys [] = []
  keys ((k, e) ∷ files) = k ∷ keys files

  -- `fs.readdir` of the directory itself, whose name is empty here.
  unfoldable pub read_names : Act Disk (List Text)
  read_names d = unless_fails (m.fails readdir []) (return (keys d.files)) d
