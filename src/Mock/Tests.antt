-- ===== src/Mock/Tests.antt =====
-- Runs of the in-memory gateway.
use rclone_proton_drive_webd.Base.{◌≡◌, ◌≢◌, refl, true, false, none, some, [], ◌∷◌, length}
use rclone_proton_drive_webd.Base.Text.{Text, codes, text_dec, includes_char}
use rclone_proton_drive_webd.Base.Map.{get, set}
use rclone_proton_drive_webd.Base.Int.{pos}
use rclone_proton_drive_webd.Gateway.{
  Bytes, Stream, concat, Date, at, PutOptions, PutResult, created, updated, skipped_identical, ok,
  throw, immutable_precondition_error, immutable_default, draft_conflict_error,
  draft_conflict_default,
}
use rclone_proton_drive_webd.Paths.{
  segments, normalize, is_root, base_name, parent_path, is_safe_segment, join_parts,
}
use rclone_proton_drive_webd.Mock.Tree.{
  MockFile, MockDraft, file, dir, draft, Children, empty, entry, get_child, set_child, delete_child,
  walk, change_dir, modify_child,
}
use rclone_proton_drive_webd.Mock.Tree.Lookup.{nothing, a_file}
use rclone_proton_drive_webd.Mock.State.{
  MockGateway, no_faults, tick, lookup, dir_of, reported_sha1, stat_of,
}
use rclone_proton_drive_webd.Mock.Visible.{visible}
use rclone_proton_drive_webd.Mock.Put.{
  put, put_at, plan_put, receive, commit, upload, size_mismatch, size_agrees, digest_differs,
}
use rclone_proton_drive_webd.Mock.Ops.{
  mkcol, mkcol_at, remove, remove_at, copy, copy_at, move, move_at,
}
use rclone_proton_drive_webd.Mock.Ops.Effects.{Makes, mkcol-Makes, Removes, remove-Removes}
use rclone_proton_drive_webd.Mock.Ops.Copying.{Copies, copy-Copies}
use rclone_proton_drive_webd.Gateway.{not_found_error, not_found_default}
use rclone_proton_drive_webd.Mock.Put.Effect.{Before}
use rclone_proton_drive_webd.Mock.Put.Safety.{
  put_failure, put_success, put_skipped, put_immutable, uploaded_file,
}
use rclone_proton_drive_webd.Mock.Put.Drafts.{put_keeps_drafts}
use rclone_proton_drive_webd.Mock.Put.Accepted.{put_accepted}

machine : Unit {0}
unfolding put put_at plan_put receive commit upload tick lookup dir_of reported_sha1 stat_of visible
    walk change_dir get_child set_child delete_child segments normalize is_root base_name
    parent_path join_parts is_safe_segment text_dec includes_char get set
machine = tt

-- A digest for the runs.
abbrev toy_sha1 : Bytes → Text
toy_sha1 bytes = bytes

abbrev old_file : MockFile
old_file = record { content = 1 ∷ 2 ∷ []; sha1 = 1 ∷ 2 ∷ []; mtime = at (pos 5); revisions = 1 }

abbrev folder : Children
folder =
    entry (codes "x") (file old_file)
      (entry (codes "d") (draft (record { client_uid = codes "other"; received_bytes = 1 })) empty)

abbrev store : MockGateway
store = record {
  root = dir (at (pos 0)) (entry (codes "a") (dir (at (pos 0)) folder) empty);
  faults = no_faults;
  calls = [];
  put_bytes = [];
  used_bytes = 2;
  client_uid = codes "me";
}

abbrev body : Stream
body = record { chunks = (3 ∷ 4 ∷ []) ∷ (5 ∷ []) ∷ []; broken = false }

abbrev plain : PutOptions
plain = record {
  size = none;
  sha1 = none;
  mtime = none;
  immutable = false;
  override_other_client_draft_for_path = none;
  aborted = false;
}

abbrev too_long : PutOptions
too_long = record plain { size = some (pos 9) }

abbrev fixed : PutOptions
fixed = record plain { immutable = true }

abbrev same : PutOptions
same = record plain { sha1 = some (1 ∷ 2 ∷ []) }

abbrev now : Date
now = at (pos 7)

abbrev x : Text
x = codes "/a/x"

abbrev y : Text
y = codes "/a/y"

outcomes :
    ((put toy_sha1 now x body plain store).0 ≡ ok updated)
    × ((put toy_sha1 now y body plain store).0 ≡ ok created)
    × ((put toy_sha1 now x body same store).0 ≡ ok skipped_identical)
    × ((put toy_sha1 now (codes "/a/d") body plain store).0
        ≡ throw (draft_conflict_error draft_conflict_default))
    × ((put toy_sha1 now x body fixed store).0
        ≡ throw (immutable_precondition_error immutable_default))
unfolding machine
outcomes = (refl, refl, refl, refl, refl)

put_failure_example : visible x (put toy_sha1 now y body too_long store).1 ≡ visible x store
put_failure_example =
    put_failure toy_sha1 now y body too_long store (size_mismatch too_long 3)
      (unfold machine in refl) x

put_success_example :
    (visible x (put toy_sha1 now x body plain store).1
      ≡ a_file (uploaded_file toy_sha1 now x body plain store))
    × ((q : Text)
        → segments q ≢ segments x
        → visible q (put toy_sha1 now x body plain store).1 ≡ visible q store)
    × Before plain updated (visible x store)
    × (size_agrees plain.size (length (concat body.chunks)) ≡ true)
    × (digest_differs plain.sha1 (toy_sha1 (concat body.chunks)) ≡ false)
put_success_example =
    put_success toy_sha1 now x body plain store updated (λ e. cc) (unfold machine in refl)

put_skipped_example :
    ((q : Text) → visible q (put toy_sha1 now x body same store).1 ≡ visible q store)
    × ((f : MockFile) × (visible x store ≡ a_file f)
        × (same.sha1 ≡ some (reported_sha1 (normalize x) f store))
        × (size_agrees same.size (length f.content) ≡ true))
put_skipped_example = put_skipped toy_sha1 now x body same store (unfold machine in refl)

put_immutable_example : visible x (put toy_sha1 now x body fixed store).1 ≡ visible x store
put_immutable_example =
    put_immutable toy_sha1 now x body fixed store old_file refl (unfold machine in refl) x

put_accepted_example : (k : PutResult) × ((put toy_sha1 now x body plain store).0 ≡ ok k)
put_accepted_example =
    put_accepted toy_sha1 now x body plain store (at (pos 0)) folder refl refl refl
      (unfold machine in refl) (unfold machine in refl) (unfold machine in refl)
      (unfold machine in refl) refl refl refl

mkcol-Makes_example : Makes now (codes "/a/new") store (mkcol now (codes "/a/new") store)
mkcol-Makes_example = mkcol-Makes now (codes "/a/new") store

remove-Removes_example : Removes x store (remove x store)
remove-Removes_example = remove-Removes x store

copy-Copies_example : Copies x y store (copy x y store)
copy-Copies_example = copy-Copies x y store (unfold machine in refl)

changes :
    ((mkcol now (codes "/a/new") store).0 ≡ ok tt)
    × ((remove x store).0 ≡ ok tt)
    × ((copy x y store).0 ≡ ok tt)
    × ((remove (codes "/a/d") store).0 ≡ throw (not_found_error not_found_default))
unfolding machine mkcol mkcol_at remove remove_at copy copy_at
changes = (refl, refl, refl, refl)

-- A directory that is moved into itself is no longer in the tree.
move_into_itself :
    let r = move (codes "/a") (codes "/a/z") store in
    (r.0 ≡ ok tt)
    × (visible x store ≡ a_file old_file)
    × (visible (codes "/a") r.1 ≡ nothing)
    × (visible (codes "/a/z") r.1 ≡ nothing)
    × (visible (codes "/a/z/x") r.1 ≡ nothing)
unfolding machine move move_at modify_child
move_into_itself = (refl, refl, refl, refl, refl)

abbrev other_draft : MockDraft
other_draft = record { client_uid = codes "other"; received_bytes = 1 }

put_keeps_drafts_example :
    walk (segments (codes "/a/d")) (put toy_sha1 now (codes "/a/d") body plain store).1.root
    ≡ some (draft other_draft)
put_keeps_drafts_example =
    put_keeps_drafts toy_sha1 now (codes "/a/d") (codes "/a/d") other_draft body plain store
      (unfold machine in refl) (λ e. cc) (λ e. cc)
