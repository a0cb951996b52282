-- ===== src/Session/Store/Saving.antt =====
-- `save` of `OwnedFileSessionStore`, and what `load` finds after it (src/service/sessionStore.ts).
use rclone_proton_drive_webd.Base.{
  ◌≡◌, ◌≢◌, refl, ◌∙◌, ap, inl, inr, Bool, true, false, Option, none, some, [], arith, ltb, length,
  Bool-cases,
}
use rclone_proton_drive_webd.Base.Text.{Text}
use rclone_proton_drive_webd.Base.Map.{get}
use rclone_proton_drive_webd.Gateway.{Bytes}
use rclone_proton_drive_webd.Session.Disk.{
  Entry, Disk, session_conflict, Result, done, failed, Act, continue, Machine, lstat, read,
  lstat_file, read_file, utf8_text,
}
use rclone_proton_drive_webd.Base.Triple.{Post}
use rclone_proton_drive_webd.Session.Write.{temp_name, write_private_file_atomic}
use rclone_proton_drive_webd.Session.Write.Loop.{IsFile}
use rclone_proton_drive_webd.Session.Write.Atomic.{
  IsPrivate, Replaced, Abandoned, write_private_file_atomic-Replaced,
}
use rclone_proton_drive_webd.Session.Store.{
  session_filename, Identity, Store, identity_of, same_identity, on_store, note_identity,
  load_entry, load, is_conflict, save,
}
use rclone_proton_drive_webd.Session.Store.Loading.{
  identity_on, current_identity_lem, note_identity_lem, load_session, Still, Noted, load-Noted,
}

module _ {Snapshot : Type 0} (parse_stored_snapshot : Bytes → Option Snapshot)
    (stringify : Snapshot → Text) (session_uid : Snapshot → Text) (marker_json : Text → Text → Text)
    (m : Machine) where
  abbrev pub save_session : Snapshot → Text → Act Store (Unit {0})
  save_session = save parse_stored_snapshot stringify session_uid marker_json m

  abbrev pub conflicts : Option Identity → Option Identity → Bool
  conflicts = is_conflict parse_stored_snapshot stringify session_uid marker_json m

  pub save-conflict :
      (snapshot : Snapshot) (uuid : Text) (st : Store)
      → conflicts st.last_seen
          (identity_on parse_stored_snapshot stringify session_uid marker_json m st.disk)
        ≡ true
      → save_session snapshot uuid st ≡ (failed session_conflict, st)
  unfolding save
  save-conflict snapshot uuid st h =
      rw (current_identity_lem parse_stored_snapshot stringify session_uid marker_json m st.disk, h)
        refl

  identity-ne : (a b : Identity) → a ≢ b → same_identity (some a) (some b) ≡ false
  identity-ne a b ne = ground arith

  module _ (snapshot : Snapshot) (uuid : Text) where
    abbrev pub bytes : Bytes
    bytes = utf8_text (stringify snapshot)

    abbrev pub tmp_name : Text
    tmp_name = temp_name m.pid session_filename uuid

    -- What `save` leaves: the whole session and its identity, where no conflict was known; or every file
    -- but the temporary one as it was.
    abbrev pub Saved : Store → Result (Unit {0}) × Store → Type 0
    Saved st (done a, st') =
        (conflicts st.last_seen
            (identity_on parse_stored_snapshot stringify session_uid marker_json m st.disk)
          ≡ false)
        × Replaced tmp_name session_filename bytes st.disk st'.disk
        × (st'.last_seen
            ≡ identity_on parse_stored_snapshot stringify session_uid marker_json m st'.disk)
    Saved st (failed e, st') =
        ((q : Text) → q ≢ tmp_name → get q st'.disk.files ≡ get q st.disk.files)
        × (st'.last_seen ≡ st.last_seen)

    pub save-Saved :
        (st : Store)
        → IsFile (get tmp_name st.disk.files)
        → Saved st (save_session snapshot uuid st)
    unfolding save
    save-Saved st is_file =
        elim (Bool-cases (
          conflicts st.last_seen
            (identity_on parse_stored_snapshot stringify session_uid marker_json m st.disk))) [
              | inl c ↦
                  rw
                    (
                      current_identity_lem parse_stored_snapshot stringify session_uid marker_json m
                          st.disk,
                      c,
                    )
                    (λ q ne. refl, refl)
              | inr c ↦
                  rw
                    (
                      current_identity_lem parse_stored_snapshot stringify session_uid marker_json m
                          st.disk,
                      c,
                    )
                    (go
                      (write_private_file_atomic m session_filename (stringify snapshot) uuid
                        st.disk)
                      (write_private_file_atomic-Replaced m session_filename (stringify snapshot)
                        uuid st.disk is_file)
                      c)
            ]
      where
        go :
            (r : Result (Unit {0}) × Disk)
            → Post
                (λ _. Replaced tmp_name session_filename bytes st.disk)
                (λ _. Abandoned m tmp_name st.disk)
                r
            → conflicts st.last_seen
                (identity_on parse_stored_snapshot stringify session_uid marker_json m st.disk)
              ≡ false
            → Saved st (
                continue
                  (λ _. note_identity parse_stored_snapshot stringify session_uid marker_json m)
                  (on_store st r))
        go (failed e, d) h c = (h.0, refl)
        go (done _, d) h c =
            rw
              (note_identity_lem parse_stored_snapshot stringify session_uid marker_json m
                (record st { disk = d }))
              (c, h, refl)

-- What is read of a private file that fits.
module _ {Snapshot : Type 0} (parse_stored_snapshot : Bytes → Option Snapshot)
    (stringify : Snapshot → Text) (session_uid : Snapshot → Text)
    (marker_json : Text → Text → Text) where
  load_private :
      (m : Machine) (bytes : Bytes) (st : Store) (e : Entry)
      → m.fails lstat session_filename ≡ none
      → m.fails read session_filename ≡ none
      → get session_filename st.disk.files ≡ some e
      → IsPrivate bytes e
      → ltb 1_048_576 (length bytes) ≡ false
      → (load_session parse_stored_snapshot stringify session_uid marker_json m st).0
        ≡ done (parse_stored_snapshot bytes)
  unfolding load lstat_file load_entry read_file
  load_private m bytes st e looks reads here (kind, mode, content) fits =
      rw
        (
          looks,
          here,
          kind,
          mode,
          content,
          fits,
          reads,
          here,
          kind,
          content,
          note_identity_lem parse_stored_snapshot stringify session_uid marker_json m st,
        )
        refl

  save-IsPrivate :
      (m : Machine) (snapshot : Snapshot) (uuid : Text) (st : Store) (r : Result (Unit {0}) × Store)
      → r.0 ≡ done tt
      → Saved parse_stored_snapshot stringify session_uid marker_json m snapshot uuid st r
      → (e : Entry) × (get session_filename r.1.disk.files ≡ some e)
        × IsPrivate (utf8_text (stringify snapshot)) e
  save-IsPrivate m snapshot uuid st (failed e, st') fine s = cc
  save-IsPrivate m snapshot uuid st (done _, st') fine s = s.1.1

  -- A session that was saved is what a later load of the file finds, by this process or another, if it is
  -- of at most a megabyte and the file can be looked at and read.
  pub load-save :
      (m m' : Machine) (snapshot : Snapshot) (uuid : Text) (st st' : Store)
      → parse_stored_snapshot (utf8_text (stringify snapshot)) ≡ some snapshot
      → ltb 1_048_576 (length (utf8_text (stringify snapshot))) ≡ false
      → IsFile (get (temp_name m.pid session_filename uuid) st.disk.files)
      → (save parse_stored_snapshot stringify session_uid marker_json m snapshot uuid st).0
        ≡ done tt
      → st'.disk
        ≡ (save parse_stored_snapshot stringify session_uid marker_json m snapshot uuid st).1.disk
      → m'.fails lstat session_filename ≡ none
      → m'.fails read session_filename ≡ none
      → (load parse_stored_snapshot stringify session_uid marker_json m' st').0
        ≡ done (some snapshot)
  load-save m m' snapshot uuid st st' parses fits is_file fine same looks reads =
      let (e, here, private) = save-IsPrivate m snapshot uuid st _ fine (
        save-Saved parse_stored_snapshot stringify session_uid marker_json m snapshot uuid st
          is_file) in
      load_private m' _ st' e looks reads (ap (λ d. get session_filename d.files) same ∙ here)
        private fits
      ∙ ap done parses

  Noted-last_seen :
      (m : Machine) (e : Entry) (tmp : Text) (t : Option Entry) (differ : tmp ≢ session_filename)
      (o : Option Snapshot) (r : Result (Option Snapshot) × Store)
      → r.0 ≡ done o
      → Post
          (λ _. Noted parse_stored_snapshot stringify session_uid marker_json m e tmp t differ)
          (λ _. Still parse_stored_snapshot stringify session_uid marker_json m e tmp t differ)
          r
      → m.fails lstat session_filename ≡ none
      → r.1.last_seen ≡ some (identity_of e)
  Noted-last_seen m e tmp t differ o (failed x, st) fine n looks = cc
  Noted-last_seen m e tmp t differ o (done x, st) fine n looks = n.1 looks

  -- A process that has loaded the session does not overwrite it once another program has written the
  -- file, so that its inode, time or size is another one: the save is refused, and nothing changes. The
  -- `lstat` of the file answers when the session is loaded, and when it is saved.
  pub save-load-conflict :
      (m m' : Machine) (snapshot : Snapshot) (uuid : Text) (st : Store) (e e' : Entry) (d : Disk)
      (o : Option Snapshot)
      → get session_filename st.disk.files ≡ some e
      → m.fails lstat session_filename ≡ none
      → (load parse_stored_snapshot stringify session_uid marker_json m st).0 ≡ done o
      → get session_filename d.files ≡ some e'
      → m'.fails lstat session_filename ≡ none
      → identity_of e ≢ identity_of e'
      → save parse_stored_snapshot stringify session_uid marker_json m' snapshot uuid
          (record (load parse_stored_snapshot stringify session_uid marker_json m st).1 {
            disk = d;
          })
        ≡ (
          failed session_conflict,
          record (load parse_stored_snapshot stringify session_uid marker_json m st).1 { disk = d },
        )
  save-load-conflict m m' snapshot uuid st e e' d o here looks loaded there looks' differ =
      save-conflict parse_stored_snapshot stringify session_uid marker_json m' snapshot uuid _ (
        rw (seen, looks', there)
          (rw (identity-ne parse_stored_snapshot stringify session_uid marker_json m' _ _ differ)
            refl))
    where
      seen :
          (load parse_stored_snapshot stringify session_uid marker_json m st).1.last_seen
          ≡ some (identity_of e)
      seen =
          Noted-last_seen m e [] (get [] st.disk.files) (λ h. cc) o _ loaded
            (load-Noted parse_stored_snapshot stringify session_uid marker_json m e [] _ (λ h. cc)
              st ((e, here, (refl, refl, refl, refl)), refl))
            looks
