-- ===== src/Session/Store/Signout.antt =====
-- `remove` of `OwnedFileSessionStore` (src/service/sessionStore.ts).
use rclone_proton_drive_webd.Base.{◌≡◌, ◌≢◌, refl, sym, ◌∙◌, Option, some}
use rclone_proton_drive_webd.Base.Text.{Text, codes, starts_with}
use rclone_proton_drive_webd.Base.Map.{get}
use rclone_proton_drive_webd.Gateway.{Bytes}
use rclone_proton_drive_webd.Session.Disk.{
  Entry, Disk, Result, done, failed, Act, return, ◌>>=◌, ◌>>◌, settled, ignore, Machine, utf8_text,
}
use rclone_proton_drive_webd.Base.Triple.{Post, Triple, then-Triple, catch-Triple}
use rclone_proton_drive_webd.Session.Write.{temp_name, write_private_file_atomic}
use rclone_proton_drive_webd.Session.Write.Loop.{IsFile}
use rclone_proton_drive_webd.Session.Write.Atomic.{
  Replaced, Abandoned, write_private_file_atomic-Replaced,
}
use rclone_proton_drive_webd.Session.Store.{
  session_filename, Store, on_store, on_disk, prune_markers, hint_of, uid_hint, remove, marker_of,
  load,
}
use rclone_proton_drive_webd.Session.Store.Loading.{IsSameFile, Still, Noted, load-Noted}
use rclone_proton_drive_webd.Session.Store.Pruning.{prune_markers-other}

module _ {Snapshot : Type 0} (parse_stored_snapshot : Bytes → Option Snapshot)
    (stringify : Snapshot → Text) (session_uid : Snapshot → Text) (marker_json : Text → Text → Text)
    (m : Machine) where
  abbrev prune : Act Disk (Unit {0})
  prune = prune_markers parse_stored_snapshot stringify session_uid marker_json m

  -- The session file of the entry stays, but perhaps for its mode.
  abbrev pub Stays : Entry → Disk → Type 0
  Stays e d = (f : Entry) × (get session_filename d.files ≡ some f) × IsSameFile e f

  module _ (e : Entry) (iso uuid : Text) where
    abbrev tmp : Text
    tmp = temp_name m.pid (marker_of iso) uuid

    marker-differs : session_filename ≢ marker_of iso
    marker-differs h = cc

    tmp-differs : session_filename ≢ tmp
    tmp-differs h = cc

    prune-Stays : Triple (Stays e) prune (λ _. Stays e) (λ _. Stays e)
    unfolding starts_with
    prune-Stays d (f, here, same) = go (prune d) (
      f,
      prune_markers-other parse_stored_snapshot stringify session_uid marker_json m session_filename
            d refl
          ∙ here,
      same,
    )
      where
        go : (r : Result (Unit {0}) × Disk) → Stays e r.1 → Post (λ _. Stays e) (λ _. Stays e) r
        go (done _, d') h = h
        go (failed x, d') h = h

    write_marker-Stays :
        (text : Text) (d : Disk)
        → IsFile (get tmp d.files)
        → Stays e d
        → Post
            (λ _. Stays e)
            (λ _. Stays e)
            (write_private_file_atomic m (marker_of iso) text uuid d)
    write_marker-Stays text d is_file (f, here, same) =
        go (write_private_file_atomic m (marker_of iso) text uuid d)
          (write_private_file_atomic-Replaced m (marker_of iso) text uuid d is_file)
      where
        go :
            (r : Result (Unit {0}) × Disk)
            → Post (λ _. Replaced tmp (marker_of iso) (utf8_text text) d) (λ _. Abandoned m tmp d) r
            → Post (λ _. Stays e) (λ _. Stays e) r
        go (done _, d') (_, _, rest) =
            (f, rest session_filename tmp-differs marker-differs ∙ here, same)
        go (failed x, d') (rest, _) = (f, rest session_filename tmp-differs ∙ here, same)

    mark-Stays :
        (text : Text) (d : Disk)
        → IsFile (get tmp d.files)
        → Stays e d
        → Post
            (λ _. Stays e)
            (λ _. Stays e)
            ((write_private_file_atomic m (marker_of iso) text uuid >> prune) d)
    mark-Stays text d is_file stays =
        then-Triple (λ _. Stays e) (λ _. Stays e) (λ _. Stays e)
          (λ d. IsFile (get tmp d.files) × Stays e d)
          (write_private_file_atomic m (marker_of iso) text uuid) (λ _. prune)
          (λ d h. write_marker-Stays text d h.0 h.1) (λ _. prune-Stays) d (is_file, stays)

    module _ (o : Option Entry) where
      abbrev StillHere : Store → Type 0
      StillHere =
          Still parse_stored_snapshot stringify session_uid marker_json m e tmp o
            (λ h. tmp-differs (sym h))

      hint : Act Store Text
      hint = uid_hint parse_stored_snapshot stringify session_uid marker_json m

      hint-Still : Triple StillHere hint (λ _. StillHere) (λ _ _. ⊥)
      unfolding hint uid_hint
      hint-Still =
          catch-Triple (λ _. StillHere) (λ _. StillHere) (λ _ _. ⊥) StillHere
            (do
              snapshot ← load parse_stored_snapshot stringify session_uid marker_json m
              return (hint_of parse_stored_snapshot stringify session_uid marker_json m snapshot))
            (λ _. return (codes "unknown"))
            (then-Triple
              (λ _.
                Noted parse_stored_snapshot stringify session_uid marker_json m e tmp o
                  (λ h. tmp-differs (sym h)))
              (λ _. StillHere) (λ _. StillHere) StillHere
              (load parse_stored_snapshot stringify session_uid marker_json m)
              (λ snapshot.
                return (hint_of parse_stored_snapshot stringify session_uid marker_json m snapshot))
              (load-Noted parse_stored_snapshot stringify session_uid marker_json m e tmp o
                (λ h. tmp-differs (sym h)))
              (λ _ st h. h.0))
            (λ _ st h. h)

      abbrev Kept : Store → Type 0
      Kept st = Stays e st.disk

      abbrev mark : Text → Act Store (Unit {0})
      mark text = ignore (
          on_disk
            (write_private_file_atomic m (marker_of iso) (marker_json iso text) uuid >> prune))

      marked :
          (st : Store) (r : Result (Unit {0}) × Disk)
          → Post (λ _. Stays e) (λ _. Stays e) r
          → Post {A = Unit {0}} (λ _. Kept) (λ _ _. ⊥) (settled (on_store st r))
      marked st (done _, d) h = h
      marked st (failed x, d) h = h

      remove-Kept :
          IsFile o
          → Triple StillHere
              (remove parse_stored_snapshot stringify session_uid marker_json m iso uuid)
              (λ _. Kept)
              (λ _ _. ⊥)
      unfolding remove hint
      remove-Kept is_file =
          then-Triple (λ _. StillHere) (λ _ _. ⊥) (λ _. Kept) StillHere hint mark hint-Still
            (λ text st h.
              marked st _ (mark-Stays (marker_json iso text) st.disk (rw h.1 is_file) h.0))

    never_fails :
        (r : Result (Unit {0}) × Store)
        → Post (λ _ st. Stays e st.disk) (λ _ _. ⊥) r
        → (r.0 ≡ done tt) × Stays e r.1.disk
    never_fails (done _, st) h = (refl, h)
    never_fails (failed x, st) h = absurd h

    -- A sign-out never fails and never costs the session: whatever calls fail on the way, the session file
    -- is afterwards the one that it was, of which at most the mode has changed. At the temporary name of the
    -- marker there is no directory or link before.
    pub remove-Stays :
        (st : Store)
        → get session_filename st.disk.files ≡ some e
        → IsFile (get (temp_name m.pid (marker_of iso) uuid) st.disk.files)
        → ((remove parse_stored_snapshot stringify session_uid marker_json m iso uuid st).0
            ≡ done tt)
          × Stays e
              (remove parse_stored_snapshot stringify session_uid marker_json m iso uuid st).1.disk
    remove-Stays st here is_file =
        never_fails _ (
          remove-Kept (get tmp st.disk.files) is_file st
            ((e, here, (refl, refl, refl, refl)), refl))
