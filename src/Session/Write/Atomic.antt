-- ===== src/Session/Write/Atomic.antt =====
-- `writePrivateFileAtomic` of src/service/sessionStore.ts as a whole.
use rclone_proton_drive_webd.Base.{
  ℕ, suc, ◌≡◌, ◌≢◌, refl, sym, ◌∙◌, ap, Option, none, some, [], ◌++◌, arith, length, length-append,
  append_assoc,
}
use rclone_proton_drive_webd.Base.Text.{Text, codes}
use rclone_proton_drive_webd.Base.Map.{
  get, set, delete, get-set_self, get-set_ne, get-delete_self, get-delete_ne,
}
use rclone_proton_drive_webd.Gateway.{Bytes}
use rclone_proton_drive_webd.Number.{decimal}
use rclone_proton_drive_webd.Session.Disk.{
  Entry, Disk, Failure, Result, catch, done, failed, Code, regular, raise, continue, ◌>>◌, Machine,
  unless_fails, on_entry, open_new, create_absent, open_new_file, settle_file, Call, fsync, close,
  rename, rename_file, ignore, unlink_file, unlink, settled, removed, utf8_text, return,
}
use rclone_proton_drive_webd.Base.Triple.{Post, Triple, then-Triple, catch-Triple}
use rclone_proton_drive_webd.Session.Write.{
  owner_only, temp_name, after_finally, write_loop, write_temp, replace_file,
  write_private_file_atomic,
}
use rclone_proton_drive_webd.Session.Write.Loop.{
  IsFile, Holds, Untouched, Holds-Untouched, write_loop-Holds,
}

-- A private file with the bytes.
abbrev pub IsPrivate : Bytes → Entry → Type 0
IsPrivate bytes e = (e.kind ≡ regular) × (e.mode ≡ owner_only) × (e.content ≡ bytes)

-- The target holds the bytes, the temporary name is free, and no other file changed.
abbrev pub Replaced : Text → Text → Bytes → Disk → Disk → Type 0
Replaced tmp target bytes d0 d =
    (get tmp d.files ≡ none)
    × ((e : Entry) × (get target d.files ≡ some e) × IsPrivate bytes e)
    × ((q : Text) → q ≢ tmp → q ≢ target → get q d.files ≡ get q d0.files)

-- No other file changed, and the temporary name is free if it can be unlinked.
abbrev pub Abandoned : Machine → Text → Disk → Disk → Type 0
Abandoned m tmp d0 d =
    ((q : Text) → q ≢ tmp → get q d.files ≡ get q d0.files)
    × (m.fails unlink tmp ≡ none → get tmp d.files ≡ none)

some-ne-none : (c : Code) → some c ≢ none
some-ne-none c h = cc

module _ (m : Machine) (tmp : Text) (bytes : Bytes) (d0 : Disk)
    (is_file : IsFile (get tmp d0.files)) where
  abbrev Kept : Disk → Type 0
  Kept d = Untouched m tmp bytes d0 d

  open_new_file-Holds :
      Post (λ _. Holds m tmp bytes d0 []) (λ _. Kept) (open_new_file m tmp owner_only d0)
  unfolding open_new_file
  open_new_file-Holds = go (m.fails open_new tmp) (get tmp d0.files)
    where
      go :
          (f : Option Code) (o : Option Entry)
          → Post
              (λ _. Holds m tmp bytes d0 [])
              (λ _. Kept)
              (unless_fails m f (create_absent m o tmp owner_only) d0)
      go (some c) o = (λ q ne. refl, is_file)
      go none (some e) = (λ q ne. refl, is_file)
      go none none = (
        (_, get-set_self tmp _ d0.files, refl, refl, refl),
        λ q ne. get-set_ne q tmp _ d0.files ne,
      )

  settle_file-Holds :
      (call : Call)
      → Triple
          (Holds m tmp bytes d0 bytes)
          (settle_file m call tmp)
          (λ _. Holds m tmp bytes d0 bytes)
          (λ _. Kept)
  settle_file-Holds call d h = go (m.fails call tmp)
    where
      go :
          (f : Option Code)
          → Post (λ _. Holds m tmp bytes d0 bytes) (λ _. Kept) (unless_fails m f (return tt) d)
      go (some c) = Holds-Untouched m tmp bytes d0 d bytes h
      go none = h

  settle_file-Kept : (call : Call) → Triple Kept (settle_file m call tmp) (λ _. Kept) (λ _. Kept)
  settle_file-Kept call d h = go (m.fails call tmp)
    where
      go : (f : Option Code) → Post (λ _. Kept) (λ _. Kept) (unless_fails m f (return tt) d)
      go (some c) = h
      go none = h

  after_finally-Holds :
      (r : Result (Unit {0}) × Disk)
      → Post (λ _. Holds m tmp bytes d0 bytes) (λ _. Kept) r
      → Post
          (λ _. Holds m tmp bytes d0 bytes)
          (λ _. Kept)
          (after_finally (settle_file m close tmp) r)
  after_finally-Holds (done _, d) h =
      then-Triple (λ _. Holds m tmp bytes d0 bytes) (λ _. Kept) (λ _. Holds m tmp bytes d0 bytes)
        (Holds m tmp bytes d0 bytes) (settle_file m close tmp) (λ _. return tt)
        (settle_file-Holds close) (λ _ d h. h) d h
  after_finally-Holds (failed e, d) h =
      then-Triple (λ _. Kept) (λ _. Kept) (λ _. Holds m tmp bytes d0 bytes) Kept
        (settle_file m close tmp) (λ _. raise e) (settle_file-Kept close) (λ _ d h. h) d h

  write_temp-Holds : Post (λ _. Holds m tmp bytes d0 bytes) (λ _. Kept) (write_temp m tmp bytes d0)
  unfolding write_temp
  write_temp-Holds =
      then-Triple (λ _. Holds m tmp bytes d0 []) (λ _. Kept) (λ _. Holds m tmp bytes d0 bytes)
        (λ d. d ≡ d0) (open_new_file m tmp owner_only) _ (λ d e. rw e open_new_file-Holds)
        (λ _ d h. after_finally-Holds _ (
          then-Triple (λ _. Holds m tmp bytes d0 bytes) (λ _. Kept)
            (λ _. Holds m tmp bytes d0 bytes) (Holds m tmp bytes d0 [])
            (write_loop m (suc (length bytes)) tmp bytes 0) _
            (write_loop-Holds m tmp bytes (length bytes) 0 d0 (omega arith))
            (λ _. settle_file-Holds fsync) d h))
        d0 refl

  module _ (target : Text) where
    rename_file-Replaced :
        tmp ≢ target
        → Triple
            (Holds m tmp bytes d0 bytes)
            (rename_file m tmp target)
            (λ _. Replaced tmp target bytes d0)
            (λ _. Kept)
    unfolding rename_file
    rename_file-Replaced ne d ((e, here, kind, mode, content), rest) =
        rw here (go (m.fails rename tmp))
      where
        go :
            (f : Option Code)
            → Post
                (λ _. Replaced tmp target bytes d0)
                (λ _. Kept)
                (unless_fails m f
                  (on_entry m
                    (some e)
                    (λ e d. (done tt, record d { files = set target e (delete tmp d.files) })))
                  d)
        go (some c) = (rest, rw here kind)
        go none = (
          get-set_ne tmp target e _ ne ∙ get-delete_self tmp d.files,
          (e, get-set_self target e _, (kind, mode, content)),
          λ q q_tmp q_target.
              get-set_ne q target e _ q_target ∙ get-delete_ne q tmp d.files q_tmp ∙ rest q q_tmp,
        )

    replace_file-Replaced :
        tmp ≢ target
        → Post (λ _. Replaced tmp target bytes d0) (λ _. Kept) (replace_file m tmp target bytes d0)
    unfolding replace_file
    replace_file-Replaced ne =
        then-Triple (λ _. Holds m tmp bytes d0 bytes) (λ _. Kept)
          (λ _. Replaced tmp target bytes d0) (λ d. d ≡ d0) (write_temp m tmp bytes) _
          (λ d e. rw e write_temp-Holds) (λ _. rename_file-Replaced ne) d0 refl

    unlink_file-Abandoned :
        (e : Failure)
        → Triple Kept
            (do ignore (unlink_file m tmp); raise {A = Unit {0}} e)
            (λ _. Replaced tmp target bytes d0)
            (λ _. Abandoned m tmp d0)
    unfolding unlink_file
    unlink_file-Abandoned e d (rest, file) = go (m.fails unlink tmp) refl (get tmp d.files) refl
      where
        go :
            (f : Option Code)
            → m.fails unlink tmp ≡ f
            → (o : Option Entry) → get tmp d.files ≡ o
            → Abandoned m tmp d0
                (continue
                  (λ (_ : Unit {0}). raise {A = Unit {0}} e)
                  (settled (unless_fails m f (on_entry m o (λ e. removed m e.kind tmp)) d))).1
        go (some c) h o h' = (rest, λ free. absurd (some-ne-none c (sym h ∙ free)))
        go none h none h' = (rest, λ _. h')
        go none h (some e') h' =
            let kind : e'.kind ≡ regular = rw h' at file in
            rw kind (
              (λ q ne. get-delete_ne q tmp d.files ne ∙ rest q ne),
              (λ _. get-delete_self tmp d.files),
            )

    pub replace_or_abandon :
        (ne : tmp ≢ target)
        → Post
            (λ _. Replaced tmp target bytes d0)
            (λ _. Abandoned m tmp d0)
            (catch
              (replace_file m tmp target bytes)
              (λ e. do ignore (unlink_file m tmp); raise e)
              d0)
    replace_or_abandon ne =
        catch-Triple (λ _. Replaced tmp target bytes d0) (λ _. Kept) (λ _. Abandoned m tmp d0)
          (λ d. d ≡ d0) (replace_file m tmp target bytes)
          (λ e. do ignore (unlink_file m tmp); raise e) (λ d e. rw e (replace_file-Replaced ne))
          unlink_file-Abandoned d0 refl

    settle_directory :
        Triple
          (Replaced tmp target bytes d0)
          (ignore (settle_file m fsync []))
          (λ _. Replaced tmp target bytes d0)
          (λ _. Abandoned m tmp d0)
    settle_directory d h = go (m.fails fsync [])
      where
        go :
            (f : Option Code)
            → Post
                (λ _. Replaced tmp target bytes d0)
                (λ _. Abandoned m tmp d0)
                (settled (unless_fails m f (return tt) d))
        go none = h
        go (some c) = h

temp_name-ne : (pid : ℕ) (target uuid : Text) → temp_name pid target uuid ≢ target
temp_name-ne pid target uuid e =
    let rest : Text = codes "." ++ ((decimal pid ++ (codes "." ++ uuid)) ++ codes ".tmp") in
    omega (arith, ap length e, length-append target rest, assoc_length)
  where
    assoc_length :
        length (temp_name pid target uuid)
        ≡ suc (
            length
              (target ++ (codes "." ++ ((decimal pid ++ (codes "." ++ uuid)) ++ codes ".tmp"))))
    assoc_length = ap (λ t. suc (length t)) (append_assoc target (codes ".") _)

-- The file at the path is replaced as a whole or not at all. Where the write succeeds, the path holds
-- the bytes of the text in a file that only its owner can read, and the temporary file is gone; where
-- it fails, every file but the temporary one is as it was, and that one is gone if it can be unlinked.
-- At the temporary name there is no directory or link before.
pub write_private_file_atomic-Replaced :
    (m : Machine) (target text uuid : Text) (d : Disk)
    → IsFile (get (temp_name m.pid target uuid) d.files)
    → Post
        (λ _. Replaced (temp_name m.pid target uuid) target (utf8_text text) d)
        (λ _. Abandoned m (temp_name m.pid target uuid) d)
        (write_private_file_atomic m target text uuid d)
unfolding write_private_file_atomic
write_private_file_atomic-Replaced m target text uuid d is_file =
    let tmp = temp_name m.pid target uuid in
    let bytes = utf8_text text in
    then-Triple (λ _. Replaced tmp target bytes d) (λ _. Abandoned m tmp d)
      (λ _. Replaced tmp target bytes d) (λ d'. d' ≡ d)
      (catch (replace_file m tmp target bytes) (λ e. do ignore (unlink_file m tmp); raise e))
      (λ _. ignore (settle_file m fsync []))
      (λ d' e.
        rw e (replace_or_abandon m tmp bytes d is_file target (temp_name-ne m.pid target uuid)))
      (λ _. settle_directory m tmp bytes d is_file target) d refl
