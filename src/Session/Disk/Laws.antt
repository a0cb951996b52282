-- ===== src/Session/Disk/Laws.antt =====
-- What the calls of the state directory do with a name that is there, and with one that is not.
use mathlib.Core.Option.{Option, none, some}
use rclone_proton_drive_webd.Base.{◌≡◌, refl, ◌⊎◌, inl, inr}
use rclone_proton_drive_webd.Base.Text.{Text}
use rclone_proton_drive_webd.Base.Map.{get, delete}
use rclone_proton_drive_webd.Session.Disk.{
  Kind, regular, directory, link, Entry, Disk, Code, enoent, other, Failure, system, done, failed,
  Machine, read, stat, unlink, unless_fails, on_entry, return, removed, read_file, stat_file,
  unlink_file, quiet, or_null,
}

module _ (m : Machine) (name : Text) (d : Disk) where
  pub read_file-present :
      (e : Entry)
      → m.fails read name ≡ none
      → get name d.files ≡ some e
      → e.kind ≡ regular
      → read_file m name d ≡ (done e.content, d)
  unfolding read_file
  read_file-present e free here kind = rw (free, here, kind) refl

  pub read_file-absent :
      m.fails read name ≡ none
      → get name d.files ≡ none
      → read_file m name d ≡ (failed (system enoent), d)
  unfolding read_file
  read_file-absent free gone = rw (free, gone) refl

  -- A call that looks leaves the directory as it is, and sees the entry that is there.
  pub stat_file-cases :
      (e : Entry)
      → get name d.files ≡ some e
      → (quiet (stat_file m name) d ≡ (done none, d))
        ⊎ (quiet (stat_file m name) d ≡ (done (some e), d))
  unfolding stat_file
  stat_file-cases e here = rw here (go (m.fails stat name))
    where
      go :
          (f : Option Code)
          → (or_null (unless_fails m f (on_entry m (some e) return) d) ≡ (done none, d))
            ⊎ (or_null (unless_fails m f (on_entry m (some e) return) d) ≡ (done (some e), d))
      go none = inr refl
      go (some c) = inl refl

  pub stat_file-present :
      (e : Entry)
      → m.fails stat name ≡ none
      → get name d.files ≡ some e
      → quiet (stat_file m name) d ≡ (done (some e), d)
  unfolding stat_file
  stat_file-present e free here = rw (free, here) refl

  abbrev pub without : Disk
  without = record d { files = delete name d.files }

  pub unlink_file-present :
      (e : Entry)
      → m.fails unlink name ≡ none
      → get name d.files ≡ some e
      → e.kind ≡ regular
      → unlink_file m name d ≡ (done tt, without)
  unfolding unlink_file
  unlink_file-present e free here kind = rw (free, here, kind) refl

  -- `unlink` removes the name or changes nothing.
  pub unlink_file-cases :
      ((e : Failure) × (unlink_file m name d ≡ (failed e, d)))
      ⊎ (unlink_file m name d ≡ (done tt, without))
  unfolding unlink_file
  unlink_file-cases = go (m.fails unlink name) (get name d.files)
    where
      by_kind :
          (k : Kind)
          → ((e : Failure) × (removed m k name d ≡ (failed e, d)))
            ⊎ (removed m k name d ≡ (done tt, without))
      by_kind regular = inr refl
      by_kind link = inr refl
      by_kind directory = inl (system other, refl)

      go :
          (f : Option Code) (o : Option Entry)
          → ((e : Failure) × (unless_fails m f (on_entry m o (λ e. removed m e.kind name)) d
                ≡ (failed e, d)))
            ⊎ (unless_fails m f (on_entry m o (λ e. removed m e.kind name)) d ≡ (done tt, without))
      go (some c) o = inl (system c, refl)
      go none none = inl (system enoent, refl)
      go none (some e) = by_kind e.kind
