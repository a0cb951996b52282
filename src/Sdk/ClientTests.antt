-- ===== src/Sdk/ClientTests.antt =====
-- The operations of src/service/sdkGateway.ts over a small drive.
use rclone_proton_drive_webd.Base.{
  ℕ, suc, ◌≡◌, refl, List, true, false, Option, none, some, [], ◌∷◌, if◌then◌else◌,
}
use rclone_proton_drive_webd.Base.Text.{Text, codes, text_dec, text_eq, includes_char, ◌===◌}
use rclone_proton_drive_webd.Base.Action.{done}
use rclone_proton_drive_webd.Base.Triple.{Post}
use rclone_proton_drive_webd.Gateway.{Bytes, at, PutOptions}
use rclone_proton_drive_webd.Base.Int.{pos}
use rclone_proton_drive_webd.Paths.{
  segments, normalize, is_root, base_name, parent_path, is_safe_segment,
}
use rclone_proton_drive_webd.Sdk.Nodes.{is_sha1, NodeType, file, folder, Revision, NodeEntity}
use rclone_proton_drive_webd.Sdk.Cache.{cached}
use rclone_proton_drive_webd.Sdk.Client.{Client, SdkGateway}
use rclone_proton_drive_webd.Sdk.Resolve.{resolve}
use rclone_proton_drive_webd.Sdk.Resolve.Live.{IsLiveIfAny, resolve-Live}
use rclone_proton_drive_webd.Sdk.Whole.{
  closed, Event, chunk, pull, taken, completed, begun, read_whole,
}
use rclone_proton_drive_webd.Sdk.Whole.Delivery.{Delivered, read_whole-Delivered}
use rclone_proton_drive_webd.Sdk.Changes.{remove}
use rclone_proton_drive_webd.Sdk.Changes.Trash.{Trashed, Forgets, remove-Trashed}
use rclone_proton_drive_webd.Sdk.Uploads.{put}
use rclone_proton_drive_webd.Sdk.Uploads.Decision.{a_file, node_of_file, Follows, put-Follows}
use rclone_proton_drive_webd.Mock.Tree.{MockNode}
use rclone_proton_drive_webd.Mock.Put.{plan_put}
use rclone_proton_drive_webd.Mock.State.{reported_sha1}
use rclone_proton_drive_webd.Webdav.Tests.{old_file, store, body}

abbrev node_named : Text → NodeType → Option Revision → NodeEntity
node_named name type revision = record {
  uid = name;
  parent_uid = some (codes "root");
  name = name;
  name_ok = true;
  type = type;
  trash_time = none;
  modification_time = at (pos 0);
  folder_modification_time = none;
  active_revision = revision;
}

abbrev committed : Revision
committed = record { claimed_size = some 3; claimed_sha1 = none; claimed_modification_time = none }

abbrev root_folder : NodeEntity
root_folder = node_named (codes "root") folder none

abbrev report : NodeEntity
report = node_named (codes "report") file (some committed)

-- A folder with one file; the world counts the calls that change it.
abbrev drive : Client
drive = record {
  World = ℕ;
  root_node = λ w. (done root_folder, w);
  get_node = λ uid w. (done (if uid === codes "root" then root_folder else report), w);
  iterate_folder_children = λ node w. (record { items = report ∷ []; error = none }, w);
  trash_node = λ node w. (record { items = none ∷ []; error = none }, suc w);
  move_node = λ node parent w. (record { items = none ∷ []; error = none }, suc w);
  rename_node = λ node name w. (done tt, suc w);
  copy_node = λ uid name parent w. (record { items = none ∷ []; error = none }, suc w);
  create_folder = λ parent name w. (done name, suc w);
  upload_file = λ parent name metadata body w. (done tt, suc w);
  upload_revision = λ uid metadata body w. (done tt, suc w);
  user_space = λ w. (done (record { used_space = none; max_space = none }), w);
}

abbrev name_of : NodeEntity → Text
name_of node = node.name

abbrev gateway : SdkGateway ℕ
gateway = record { world = 0; resolve_cache = []; root_uid = none }

resolve-Live_example :
    Post
      (λ o _. IsLiveIfAny name_of (codes "/") drive 100 (base_name (codes "/report")) false o)
      (λ _ _. Unit)
      (resolve name_of (codes "/") drive 100 (codes "/report") false gateway)
unfolding is_root segments text_dec
resolve-Live_example =
    resolve-Live name_of (codes "/") drive 100 (codes "/report") false gateway refl

remove-Trashed_example :
    Post
      (λ _ after.
        Trashed name_of (codes "/") drive 100 (normalize (codes "/report")) gateway after
        × Forgets name_of (codes "/") drive 100 (normalize (codes "/report")) after)
      (λ _ _. Unit)
      (remove name_of (codes "/") drive 100 (codes "/report") gateway)
remove-Trashed_example = remove-Trashed name_of (codes "/") drive 100 (codes "/report") gateway

abbrev fixed : PutOptions
fixed = record {
  size = none;
  sha1 = some (codes "da39a3ee5e6b4b0d3255bfef95601890afd80709");
  mtime = none;
  immutable = true;
  override_other_client_draft_for_path = none;
  aborted = false;
}

-- The drive with the file of the in-memory gateway.
abbrev standing : NodeEntity
standing = node_of_file (codes "/report") old_file store report

abbrev same_drive : Client
same_drive = record drive {
  get_node = λ uid w. (done (if uid === codes "root" then root_folder else standing), w);
  iterate_folder_children = λ node w. (record { items = standing ∷ []; error = none }, w);
}

abbrev report_path : Text
report_path = normalize (codes "/report")

abbrev at_parent : SdkGateway ℕ
at_parent = (resolve name_of (codes "/") same_drive 100 (parent_path report_path) false gateway).1

abbrev at_report : SdkGateway ℕ
at_report = (resolve name_of (codes "/") same_drive 100 report_path true at_parent).1

-- Both refuse to overwrite.
put-Follows_example :
    Follows name_of
      (codes "/")
      same_drive
      100
      report_path
      root_folder
      body
      fixed
      (some (node_of_file report_path old_file store report))
      (plan_put report_path (some (MockNode.file old_file)) fixed store)
      at_report
      (put name_of (codes "/") same_drive 100 (codes "/report") body fixed gateway)
unfolding is_root segments text_dec reported_sha1 resolve normalize parent_path base_name
    is_safe_segment is_sha1 includes_char cached
put-Follows_example =
    put-Follows name_of (codes "/") same_drive 100 (codes "/report") body fixed store
      (some (MockNode.file old_file)) (some (node_of_file report_path old_file store report))
      root_folder gateway at_parent at_report (a_file old_file report refl) refl refl refl refl refl
      refl

-- A file of three bytes in two chunks.
abbrev fetched : List Event
fetched = chunk (1 ∷ 2 ∷ []) ∷ pull ∷ chunk (3 ∷ []) ∷ taken 3 ∷ completed ∷ []

abbrev toy_sha1 : Bytes → Text
toy_sha1 bytes = bytes

read_whole-Delivered_example :
    Delivered toy_sha1
      (codes "/report")
      (some (1 ∷ 2 ∷ 3 ∷ []))
      true
      3
      (read_whole toy_sha1 (codes "/report") (some (1 ∷ 2 ∷ 3 ∷ [])) true 3 fetched begun)
read_whole-Delivered_example =
    read_whole-Delivered toy_sha1 (codes "/report") (some (1 ∷ 2 ∷ 3 ∷ [])) true 3 fetched

whole :
    (read_whole toy_sha1 (codes "/report") (some (1 ∷ 2 ∷ 3 ∷ [])) true 3 fetched begun).body
    ≡ closed
unfolding read_whole text_dec text_eq
whole = refl
