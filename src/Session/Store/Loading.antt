-- ===== src/Session/Store/Loading.antt =====
-- `load` of `OwnedFileSessionStore` (src/service/sessionStore.ts).
use mathlib.Core.Option
use rclone_proton_drive_webd.Base.{
  ◌≡◌, ◌≢◌, refl, sym, ◌∙◌, ap, Bool, true, false, Option, none, some, if◌then◌else◌,
}
use rclone_proton_drive_webd.Base.Text.{Text}
use rclone_proton_drive_webd.Base.Map.{get, set, get-set_self, get-set_ne}
use rclone_proton_drive_webd.Gateway.{Bytes}
use rclone_proton_drive_webd.Session.Disk.{
  Kind, regular, directory, link, Entry, Disk, Code, enoent, eexist, other, Failure, system, Result,
  done, failed, Act, return, raise, continue, ◌>>=◌, ◌>>◌, recover, Machine, lstat, read, chmod,
  lstat_file, read_file, chmod_file, unless_fails, on_entry, content_of, or_null,
}
use rclone_proton_drive_webd.Base.Triple.{Post, Triple, then-Triple}
use rclone_proton_drive_webd.Session.Write.{owner_only}
use rclone_proton_drive_webd.Session.Store.{
  session_filename, Identity, Store, identity_of, on_store, on_disk, current_identity,
  note_identity, null_if_missing, refuse_irregular, tighten, refuse_large, read_snapshot,
  load_entry, load_found, load,
}

pub on_disk-Post :
    {A : Type 0} (Q : A → Store → Type 0) (E : Failure → Store → Type 0) (st : Store)
    (r : Result A × Disk)
    → Post (λ a d. Q a (record st { disk = d })) (λ e d. E e (record st { disk = d })) r
    → Post Q E (on_store st r)
on_disk-Post Q E st (done a, d) h = h
on_disk-Post Q E st (failed e, d) h = h

-- The same file, of which only the mode can have changed.
abbrev pub IsSameFile : Entry → Entry → Type 0
IsSameFile e f = (f.kind ≡ e.kind) × (f.content ≡ e.content) × (f.ino ≡ e.ino) × (f.mtime ≡ e.mtime)

some-ne-none : (c : Code) → some c ≢ none
some-ne-none c h = cc

IsSameFile-identity_of : (e f : Entry) → IsSameFile e f → identity_of f ≡ identity_of e
IsSameFile-identity_of e f (kind, content, ino, mtime) = cc

module _ {Snapshot : Type 0} (parse_stored_snapshot : Bytes → Option Snapshot)
    (stringify : Snapshot → Text) (session_uid : Snapshot → Text) (marker_json : Text → Text → Text)
    (m : Machine) where
  abbrev pub load_session : Act Store (Option Snapshot)
  load_session = load parse_stored_snapshot stringify session_uid marker_json m

  -- What a look at the file's identity answers.
  abbrev pub looked : Option Code → Option Entry → Option Identity
  looked none o = Option.map identity_of o
  looked (some c) o = none

  abbrev pub identity_on : Disk → Option Identity
  identity_on d = looked (m.fails lstat session_filename) (get session_filename d.files)

  pub current_identity_lem :
      (d : Disk)
      → current_identity parse_stored_snapshot stringify session_uid marker_json m d
        ≡ (done (identity_on d), d)
  unfolding current_identity lstat_file
  current_identity_lem d = go (m.fails lstat session_filename) (get session_filename d.files)
    where
      go :
          (c : Option Code) (o : Option Entry)
          → continue
              (λ st. return (Option.map identity_of st))
              (or_null (unless_fails m c (on_entry m o return) d))
            ≡ (done (looked c o), d)
      go (some c) o = refl
      go none none = refl
      go none (some e) = refl

  pub note_identity_lem :
      (st : Store)
      → note_identity parse_stored_snapshot stringify session_uid marker_json m st
        ≡ (done tt, record st { last_seen = identity_on st.disk })
  unfolding note_identity
  note_identity_lem st = rw (current_identity_lem st.disk) refl

  -- The session file is the one of the entry, and at another name stands what stood there.
  module _ (e : Entry) (other_name : Text) (o : Option Entry)
      (differ : other_name ≢ session_filename) where
    abbrev pub Still : Store → Type 0
    Still st =
        ((f : Entry) × (get session_filename st.disk.files ≡ some f) × IsSameFile e f)
        × (get other_name st.disk.files ≡ o)

    chmod_file-Still :
        Triple Still (on_disk (chmod_file m session_filename owner_only)) (λ _. Still) (λ _. Still)
    unfolding chmod_file
    chmod_file-Still st ((f, here, same), free) =
        on_disk-Post (λ _. Still) (λ _. Still) st _ (rw here (go (m.fails chmod session_filename)))
      where
        go :
            (c : Option Code)
            → Post
                (λ _ d. Still (record st { disk = d }))
                (λ _ d. Still (record st { disk = d }))
                (unless_fails m c
                  (on_entry m (some f) (λ e d. (
                    done tt,
                    record d {
                      files = set session_filename (record e { mode = owner_only }) d.files;
                    },
                  )))
                  st.disk)
        go (some c) = ((f, here, same), free)
        go none = (
          (_, get-set_self session_filename (record f { mode = owner_only }) _, same),
          get-set_ne other_name session_filename (record f { mode = owner_only }) st.disk.files
                differ
              ∙ free,
        )

    read_file-Still :
        Triple Still (on_disk (read_file m session_filename)) (λ _. Still) (λ _. Still)
    unfolding read_file
    read_file-Still st ((f, here, same), free) =
        on_disk-Post (λ _. Still) (λ _. Still) st _ (rw here (go (m.fails read session_filename)))
      where
        by_kind :
            (k : Kind)
            → Post
                (λ _ d. Still (record st { disk = d }))
                (λ _ d. Still (record st { disk = d }))
                (content_of m k f.content st.disk)
        by_kind regular = ((f, here, same), free)
        by_kind directory = ((f, here, same), free)
        by_kind link = ((f, here, same), free)

        go :
            (c : Option Code)
            → Post
                (λ _ d. Still (record st { disk = d }))
                (λ _ d. Still (record st { disk = d }))
                (unless_fails m c
                  (on_entry m (some f) (λ e. content_of m e.kind e.content))
                  st.disk)
        go (some c) = ((f, here, same), free)
        go none = by_kind f.kind

    -- The file is the entry's, and its identity is the one last seen, if it can be looked at.
    abbrev pub Noted : Store → Type 0
    Noted st =
        Still st × (m.fails lstat session_filename ≡ none → st.last_seen ≡ some (identity_of e))

    note_identity-Noted :
        Triple Still
          (note_identity parse_stored_snapshot stringify session_uid marker_json m)
          (λ _. Noted)
          (λ _. Still)
    note_identity-Noted st ((f, here, same), free) = rw (note_identity_lem st) (
      ((f, here, same), free),
      λ looks. rw (looks, here) (ap some (IsSameFile-identity_of e f same)),
    )

    only_if :
        (b : Bool) (act : Act Store (Unit {0}))
        → Triple Still act (λ _. Still) (λ _. Still)
        → Triple Still (if b then return tt else act) (λ _. Still) (λ _. Still)
    only_if true act h st still = still
    only_if false act h st still = h st still

    refusing :
        (b : Bool) (why : Failure)
        → Triple Still (if b then raise {A = Unit {0}} why else return tt) (λ _. Still) (λ _. Still)
    refusing true why st still = still
    refusing false why st still = still

    steps :
        {A B : Type 0} (act : Act Store A) (next : A → Act Store B) (R : B → Store → Type 0)
        → Triple Still act (λ _. Still) (λ _. Still)
        → ((a : A) → Triple Still (next a) R (λ _. Still))
        → Triple Still (act >>= next) R (λ _. Still)
    steps act next R = then-Triple (λ _. Still) (λ _. Still) R Still act next

    abbrev reading : Act Store (Option Snapshot)
    reading = read_snapshot parse_stored_snapshot stringify session_uid marker_json m

    read_snapshot-Noted : Triple Still reading (λ _. Noted) (λ _. Still)
    read_snapshot-Noted =
        steps (on_disk (read_file m session_filename))
          (λ raw. do
            note_identity parse_stored_snapshot stringify session_uid marker_json m
            return (parse_stored_snapshot raw))
          (λ _. Noted) read_file-Still
          (λ raw.
            then-Triple (λ _. Noted) (λ _. Still) (λ _. Noted) Still
              (note_identity parse_stored_snapshot stringify session_uid marker_json m)
              (λ _. return (parse_stored_snapshot raw)) note_identity-Noted (λ _ st h. h))

    load_entry-Noted :
        (seen : Entry)
        → Triple Still
            (load_entry parse_stored_snapshot stringify session_uid marker_json m seen)
            (λ _. Noted)
            (λ _. Still)
    unfolding load_entry
    load_entry-Noted seen =
        let large = refuse_large parse_stored_snapshot stringify session_uid marker_json m seen in
        let mode = tighten parse_stored_snapshot stringify session_uid marker_json m seen in
        let kind =
          refuse_irregular parse_stored_snapshot stringify session_uid marker_json m seen in
        steps kind (λ _. mode >> (large >> reading)) (λ _. Noted) (refusing _ _)
          (λ _.
            steps mode (λ _. large >> reading) (λ _. Noted) (only_if _ _ chmod_file-Still)
              (λ _.
                steps large (λ _. reading) (λ _. Noted) (refusing _ _) (λ _. read_snapshot-Noted)))

    abbrev after_look : Result (Option Entry) × Store → Result (Option Snapshot) × Store
    after_look r =
        continue (load_found parse_stored_snapshot stringify session_uid marker_json m)
          (recover (null_if_missing parse_stored_snapshot stringify session_uid marker_json m) r)

    -- A look that fails, as it does where no file is there or for another reason.
    failed_look :
        (c : Code) (st : Store)
        → m.fails lstat session_filename ≡ some c
        → Still st
        → Post (λ _. Noted) (λ _. Still) (after_look (failed (system c), st))
    failed_look enoent st fails still =
        (still, λ looks. absurd (some-ne-none enoent (sym fails ∙ looks)))
    failed_look eexist st fails still = still
    failed_look other st fails still = still

    pub load-Noted : Triple Still load_session (λ _. Noted) (λ _. Still)
    unfolding load lstat_file
    load-Noted st ((f, here, same), free) = rw here (go (m.fails lstat session_filename) refl)
      where
        go :
            (c : Option Code)
            → m.fails lstat session_filename ≡ c
            → Post
                (λ _. Noted)
                (λ _. Still)
                (after_look (
                  on_store st (
                    continue
                      (λ st. return (some st))
                      (unless_fails m c (on_entry m (some f) return) st.disk))))
        go none fails = load_entry-Noted f st ((f, here, same), free)
        go (some c) fails = failed_look c st fails ((f, here, same), free)
