-- ===== src/Session/Directory.antt =====
-- `ensurePrivateDirectory` of src/service/sessionStore.ts: the state directory before it is used.
use rclone_proton_drive_webd.Base.{
  ℕ, ◌%◌, Bool, true, false, not, Option, none, some, ◌==◌, if◌then◌else◌,
}
use rclone_proton_drive_webd.Session.Disk.{
  Kind, regular, directory, link, Code, eexist, enoent, system, session_directory_unsafe, done,
  failed, Act, return, raise, ◌>>=◌, ◌>>◌,
}

-- The entry of the directory itself: its kind, owner and permission bits.
pub record Place : Type 0 where
  pub kind : Kind
  pub owner : ℕ
  pub mode : ℕ

-- The user, where the platform has one, who owns what is created, the mode that the umask leaves of 0o777,
-- and the calls that fail.
pub record User : Type 0 where
  pub uid : Option ℕ
  pub creator : ℕ
  pub default_mode : ℕ
  pub mkdir_fails : Option Code
  pub lstat_fails : Option Code
  pub chmod_fails : Option Code

-- 0o700
abbrev pub private_mode : ℕ
private_mode = 448

abbrev pub is_plain_directory : Kind → Bool
is_plain_directory directory = true
is_plain_directory regular = false
is_plain_directory link = false

abbrev pub is_owner : Option ℕ → ℕ → Bool
is_owner none owner = true
is_owner (some uid) owner = uid == owner

module _ (u : User) where
  abbrev unless : {A : Type 0} → Option Code → Act (Option Place) A → Act (Option Place) A
  unless none act s = act s
  unless (some c) act s = (failed (system c), s)

  -- `mkdir` with `recursive`: it accepts a directory, and a link, which names one where the call does
  -- not fail.
  abbrev pub make_place : ℕ → Act (Option Place) (Unit {0})
  make_place mode none =
      (done tt, some (record { kind = directory; owner = u.creator; mode = mode }))
  make_place mode (some p) =
      (elim p.kind [ regular ↦ failed (system eexist) | _ ↦ done tt ], some p)

  abbrev pub look : Act (Option Place) Place
  look none = (failed (system enoent), none)
  look (some p) = (done p, some p)

  abbrev pub tighten : Act (Option Place) (Unit {0})
  tighten none = (failed (system enoent), none)
  tighten (some p) = (done tt, some (record p { mode = private_mode }))

  abbrev pub mkdir_recursive : ℕ → Act (Option Place) (Unit {0})
  mkdir_recursive mode = unless u.mkdir_fails (make_place mode)

  unfoldable pub ensure_private_directory : Act (Option Place) (Unit {0})
  ensure_private_directory = do
    mkdir_recursive private_mode
    st ← unless u.lstat_fails look
    (if not (is_plain_directory st.kind)
        then raise session_directory_unsafe
        else if not (is_owner u.uid st.owner)
        then raise session_directory_unsafe
        else if st.mode % 512 == private_mode
        then return tt
        else unless u.chmod_fails tighten)
