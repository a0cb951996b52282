-- ===== src/Mock/Ops.antt =====
-- The other operations of `MockGateway` in src/service/mockGateway.ts, and the gateway as a whole.
pub mod Effects
pub mod Copying
use rclone_proton_drive_webd.Base.{Bool, true, false, Option, none, some, ◌++◌, if◌then◌else◌}
use rclone_proton_drive_webd.Base.Text.{Text, codes}
use rclone_proton_drive_webd.Gateway.{
  Bytes, Date, DriveGateway, Op, Outcome, ok, throw, Thrown, foreign, ◌>>◌, plain_error,
  already_exists_error, already_exists_default, not_found_error, not_found_default,
  immutable_precondition_error,
}
use rclone_proton_drive_webd.Paths.{normalize, base_name, is_root}
use rclone_proton_drive_webd.Mock.Tree.{
  MockNode, file, dir, draft, Children, empty, get_child, set_child, delete_child,
}
use rclone_proton_drive_webd.Mock.State.{MockGateway, tick, lookup, dir_of, stat, list, quota}
use rclone_proton_drive_webd.Mock.Reading.{read}
use rclone_proton_drive_webd.Mock.Put.{in_dir, put}

abbrev pub has_child : Text → Children → Bool
has_child name cs = elim (get_child name cs) [ none ↦ false | some n ↦ true ]

module _ (now : Date) where
  abbrev pub mkcol_in : Text → Outcome (Date × Children) → Op MockGateway (Unit {0})
  mkcol_in p (throw e) st = (throw e, st)
  mkcol_in p (ok (m, cs)) st =
      if has_child (base_name p) cs
      then (throw (already_exists_error already_exists_default), st)
      else (ok tt, in_dir p (set_child (base_name p) (dir now empty)) st)

  -- `mkcol` behind `tick`.
  unfoldable pub mkcol_at : Text → Op MockGateway (Unit {0})
  mkcol_at p st =
      if is_root p
      then (throw (already_exists_error already_exists_default), st)
      else mkcol_in p (dir_of p st) st

  unfoldable pub mkcol : Text → Op MockGateway (Unit {0})
  mkcol path = do let p = normalize path; tick (codes "mkcol") p; mkcol_at p

abbrev pub remove_node : Text → Option MockNode → Op MockGateway (Unit {0})
remove_node p none st = (throw (not_found_error not_found_default), st)
remove_node p (some (draft d)) st = (throw (not_found_error not_found_default), st)
remove_node p (some (file f)) st = (ok tt, in_dir p (delete_child (base_name p)) st)
remove_node p (some (dir m cs)) st = (ok tt, in_dir p (delete_child (base_name p)) st)

abbrev pub remove_in : Text → Outcome (Date × Children) → Op MockGateway (Unit {0})
remove_in p (throw e) st = (throw e, st)
remove_in p (ok (m, cs)) st = remove_node p (get_child (base_name p) cs) st

unfoldable pub remove_at : Text → Op MockGateway (Unit {0})
remove_at p st =
    if is_root p
    then (throw (plain_error (codes "Refusing to remove root") 403), st)
    else remove_in p (dir_of p st) st

unfoldable pub remove : Text → Op MockGateway (Unit {0})
remove path = do let p = normalize path; tick (codes "remove") p; remove_at p

abbrev pub destination_exists : Text → Thrown
destination_exists d = immutable_precondition_error (codes "Destination exists: " ++ d)

abbrev pub arrow : Text → Text → Text
arrow s d = s ++ (codes " -> " ++ d)

-- `this.dirOf(s).children.delete(...)`, which throws where `s` has no parent directory, and then
-- `dstDir.children.set(...)`. Where `s` holds `dstDir` itself, that is no longer in the tree.
-- To link the root makes the source's tree a cycle, which the model has not: here that fails with an
-- error of no gateway class and changes nothing.
abbrev pub relink : Text → Text → MockNode → Outcome (Date × Children) → Op MockGateway (Unit {0})
relink s d node (throw e) st = (throw e, st)
relink s d node (ok _) st =
    if is_root s
    then (throw foreign, st)
    else (ok tt, in_dir d (set_child (base_name d) node) (in_dir s (delete_child (base_name s)) st))

abbrev pub move_to : Text → Text → MockNode → Outcome (Date × Children) → Op MockGateway (Unit {0})
move_to s d node (throw e) st = (throw e, st)
move_to s d node (ok (m, cs)) st =
    if has_child (base_name d) cs
    then (throw (destination_exists d), st)
    else relink s d node (dir_of s st) st

abbrev pub move_node : Text → Text → Option MockNode → Op MockGateway (Unit {0})
move_node s d none st = (throw (not_found_error not_found_default), st)
move_node s d (some node) st = move_to s d node (dir_of d st) st

-- `move` behind `tick`.
unfoldable pub move_at : Text → Text → Op MockGateway (Unit {0})
move_at s d st = move_node s d (lookup s false st) st

unfoldable pub move : Text → Text → Op MockGateway (Unit {0})
move src dst = do
  let s = normalize src
  let d = normalize dst
  tick (codes "move") (arrow s d)
  move_at s d

abbrev pub copy_to : Text → MockNode → Outcome (Date × Children) → Op MockGateway (Unit {0})
copy_to d node (throw e) st = (throw e, st)
copy_to d node (ok (m, cs)) st =
    if has_child (base_name d) cs
    then (throw (destination_exists d), st)
    else (ok tt, in_dir d (set_child (base_name d) node) st)

abbrev pub copy_node : Text → Option MockNode → Op MockGateway (Unit {0})
copy_node d none st = (throw (not_found_error not_found_default), st)
copy_node d (some (draft x)) st = (throw (not_found_error not_found_default), st)
copy_node d (some (dir m cs)) st =
    (throw (plain_error (codes "Collection copy unsupported") 501), st)
copy_node d (some (file f)) st = copy_to d (file f) (dir_of d st) st

unfoldable pub copy_at : Text → Text → Op MockGateway (Unit {0})
copy_at s d st = copy_node d (lookup s false st) st

unfoldable pub copy : Text → Text → Op MockGateway (Unit {0})
copy src dst = do
  let s = normalize src
  let d = normalize dst
  tick (codes "copy") (arrow s d)
  copy_at s d

-- The gateway at a time, with a digest.
abbrev pub mock_gateway : (Bytes → Text) → Date → DriveGateway
mock_gateway sha1_hex now = record {
  State = MockGateway;
  stat = stat;
  list = list;
  read = read;
  put = put sha1_hex now;
  mkcol = mkcol now;
  remove = remove;
  move = move;
  copy = copy;
  quota = quota;
}
