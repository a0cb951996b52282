-- ===== src/Mock/Tree.antt =====
-- The tree of src/service/mockGateway.ts: nodes by path. A directory's children are a `Map`, in
-- insertion order; `set` of a present name keeps its place.
pub mod Lookup
pub mod Drafts
use rclone_proton_drive_webd.Base.{
  ℕ, Bool, true, false, Option, none, some, List, [], ◌∷◌, if◌then◌else◌,
}
use rclone_proton_drive_webd.Base.Text.{Text, ◌===◌}
use rclone_proton_drive_webd.Gateway.{Bytes, Date}

-- `content` is the source's `data`.
pub record MockFile : Type 0 where
  pub content : Bytes
  pub sha1 : Text
  pub mtime : Date
  pub revisions : ℕ

pub record MockDraft : Type 0 where
  pub client_uid : Text
  pub received_bytes : ℕ

mutual
  pub data MockNode : Type 0 where
    file : MockFile → MockNode
    dir : Date → Children → MockNode
    draft : MockDraft → MockNode

  pub data Children : Type 0 where
    empty : Children
    entry : Text → MockNode → Children → Children

unfoldable pub get_child : Text → Children → Option MockNode
get_child k empty = none
get_child k (entry j n cs) = let rest = get_child k cs in if j === k then some n else rest

unfoldable pub set_child : Text → MockNode → Children → Children
set_child k v empty = entry k v empty
set_child k v (entry j n cs) =
    let rest = set_child k v cs in if j === k then entry j v cs else entry j n rest

unfoldable pub delete_child : Text → Children → Children
delete_child k empty = empty
delete_child k (entry j n cs) =
    let rest = delete_child k cs in if j === k then rest else entry j n rest

-- Changes the node of a name, if there is one.
unfoldable pub modify_child : Text → (MockNode → MockNode) → Children → Children
modify_child k f empty = empty
modify_child k f (entry j n cs) =
    let rest = modify_child k f cs in if j === k then entry j (f n) cs else entry j n rest

abbrev pub child_of : Text → MockNode → Option MockNode
child_of s (dir m cs) = get_child s cs
child_of s (file f) = none
child_of s (draft d) = none

abbrev pub bind {ℓ κ} : {A : Type ℓ} {B : Type κ} → Option A → (A → Option B) → Option B
bind none f = none
bind (some a) f = f a

-- The walk of `lookup` along the segments, drafts included.
unfoldable pub walk : List Text → MockNode → Option MockNode
walk [] node = some node
walk (s ∷ segs) node = bind (child_of s node) (walk segs)

-- Changes the children of the directory at a path; where there is none, nothing. The source
-- changes the directory object that it found there.
unfoldable pub change_dir : List Text → (Children → Children) → MockNode → MockNode
change_dir [] f (dir m cs) = dir m (f cs)
change_dir [] f (file x) = file x
change_dir [] f (draft d) = draft d
change_dir (s ∷ segs) f (dir m cs) = dir m (modify_child s (change_dir segs f) cs)
change_dir (s ∷ segs) f (file x) = file x
change_dir (s ∷ segs) f (draft d) = draft d
