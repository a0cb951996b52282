-- ===== src/Sdk/Resolve.antt =====
-- `getRootUid`, `resolve` and `resolveOrThrow` of src/service/sdkGateway.ts. An operation reads the clock
-- once.
pub mod Live
use rclone_proton_drive_webd.Base.{
  ℕ, Bool, true, false, not, ◌&&◌, ◌||◌, Option, none, some, List, [], ◌∷◌, ◌++◌, if◌then◌else◌,
  is_empty,
}
use rclone_proton_drive_webd.Base.Text.{Text, codes, ◌===◌}
use rclone_proton_drive_webd.Base.Map.{delete}
use rclone_proton_drive_webd.Base.Action.{
  Ended, done, failed, Action, return, raise, ◌>>=◌, ◌>>◌, quiet,
}
use rclone_proton_drive_webd.Gateway.{plain_error, not_found_error}
use rclone_proton_drive_webd.Paths.{segments, join_parts, is_safe_segment, slash}
use rclone_proton_drive_webd.Propfind.{truthy}
use rclone_proton_drive_webd.Sdk.Cache.{Resolved, cached, cache_path}
use rclone_proton_drive_webd.Sdk.Nodes.{NodeType, file, folder, other, NodeEntity, is_trashed}
use rclone_proton_drive_webd.Sdk.Errors.{SdkError}
use rclone_proton_drive_webd.Sdk.Client.{
  Iteration, Client, SdkGateway, own_error, call, iterate, change_cache, raise_if_any,
}

abbrev pub is_folder : NodeType → Bool
is_folder folder = true
is_folder file = false
is_folder other = false

abbrev pub is_file : NodeType → Bool
is_file file = true
is_file folder = false
is_file other = false

abbrev pub has_revision : NodeEntity → Bool
has_revision node = elim node.active_revision [ none ↦ false | some rev ↦ true ]

-- `node.type === NodeType.File && !node.activeRevision`
abbrev pub is_draft : NodeEntity → Bool
is_draft node = is_file node.type && not (has_revision node)

abbrev pub reverse_onto : List Text → List Text → List Text
reverse_onto [] ys = ys
reverse_onto (x ∷ xs) ys = reverse_onto xs (x ∷ ys)

-- The normal path whose segments are given from the last one to the first.
abbrev pub path_of : List Text → Text
path_of rev = slash ∷ join_parts (reverse_onto rev [])

abbrev pub all_safe : List Text → Bool
all_safe [] = true
all_safe (s ∷ segs) = is_safe_segment s && all_safe segs

-- `get_name` is the helper of the CLI, `root_path` the option.
module _ (get_name : NodeEntity → Text) (root_path : Text) (c : Client) (now : ℕ) where
  abbrev pub Sdk : Type 0 → Type 0
  Sdk A = Action SdkError (SdkGateway c.World) A

  abbrev pub known_root : SdkGateway c.World → Option Text
  known_root st = if truthy st.root_uid then st.root_uid else none

  abbrev pub set_root : Text → Sdk (Unit {0})
  set_root uid st = (done tt, record st { root_uid = some uid })

  abbrev pub fetch_root : Sdk Text
  fetch_root = do
    node ← call c.root_node
    (if is_folder node.type
        then (do set_root node.uid; return node.uid)
        else raise (
            own_error (
              plain_error (codes "Configured root " ++ (root_path ++ codes " is not a folder"))
                500)))

  abbrev pub or_fetch : Option Text → Sdk Text
  or_fetch none = fetch_root
  or_fetch (some uid) = return uid

  unfoldable pub get_root_uid : Sdk Text
  get_root_uid st = or_fetch (known_root st) st

  abbrev pub parent_still_matches : Option Text → Option Text → Bool
  parent_still_matches none parent = true
  parent_still_matches (some uid) none = false
  parent_still_matches (some uid) (some parent) = parent === uid

  -- Whether a node that the cache named is still the one of the path.
  unfoldable pub is_current : Text → Bool → Resolved → NodeEntity → Bool
  is_current name include_drafts r node =
      (get_name node === name)
      && parent_still_matches r.parent_uid node.parent_uid
      && not (is_trashed node.trash_time)
      && (include_drafts || not (is_draft node))

  abbrev pub if_current : Text → Bool → Resolved → Option NodeEntity → Option NodeEntity
  if_current name include_drafts r none = none
  if_current name include_drafts r (some node) =
      if is_current name include_drafts r node then some node else none

  abbrev pub keep_or_forget : Text → Option NodeEntity → Sdk (Option NodeEntity)
  keep_or_forget p (some node) = return (some node)
  keep_or_forget p none = do change_cache (delete p); return none

  abbrev pub revalidate : Text → Text → Bool → Option Resolved → Sdk (Option NodeEntity)
  revalidate p name include_drafts none = return none
  revalidate p name include_drafts (some r) = do
    node ← quiet (call (c.get_node r.uid))
    keep_or_forget p (if_current name include_drafts r node)

  unfoldable pub from_cache : Text → Text → Bool → Sdk (Option NodeEntity)
  unfolding is_current
  from_cache p name include_drafts st =
      revalidate p name include_drafts (cached p now st.resolve_cache) st

  -- The first child of the name.
  unfoldable pub find_child : Text → List NodeEntity → Option NodeEntity
  find_child name [] = none
  find_child name (child ∷ children) =
      let rest = find_child name children in if get_name child === name then some child else rest

  -- An iteration that is left at the child does not meet the error at its end.
  abbrev pub or_error : Option SdkError → Option NodeEntity → Sdk (Option NodeEntity)
  or_error e (some child) = return (some child)
  or_error e none = do raise_if_any e; return none

  abbrev pub found_or_error : Text → Iteration NodeEntity → Sdk (Option NodeEntity)
  found_or_error name i = or_error i.error (find_child name i.items)

  abbrev pub remember : Text → Bool → NodeEntity → Option NodeEntity → Sdk (Option NodeEntity)
  remember p include_drafts parent none = return none
  remember p include_drafts parent (some found) =
      if (is_draft found && not include_drafts) || is_trashed found.trash_time
      then return none
      else (do change_cache (cache_path p found.uid (some parent.uid) now); return (some found))

  unfoldable pub look_in : Text → Text → Bool → Option NodeEntity → Sdk (Option NodeEntity)
  unfolding find_child
  look_in p name include_drafts none = return none
  look_in p name include_drafts (some parent) =
      if not (is_folder parent.type) then return none else (do
        i ← iterate (c.iterate_folder_children parent)
        found ← found_or_error name i
        remember p include_drafts parent found)

  abbrev pub root_entity : Text → Sdk (Option NodeEntity)
  root_entity uid = do node ← call (c.get_node uid); return (some node)

  abbrev pub or_walk : Option NodeEntity → Sdk (Option NodeEntity) → Sdk (Option NodeEntity)
  or_walk (some node) walk = return (some node)
  or_walk none walk = walk

  -- The segments from the last one to the first. The source's recursive call normalises the path of the
  -- parent and tests its segments again, which changes nothing.
  unfoldable pub walk : List Text → Bool → Sdk (Option NodeEntity)
  unfolding get_root_uid from_cache look_in
  walk [] include_drafts = do uid ← get_root_uid; root_entity uid
  walk (name ∷ above) include_drafts =
      let up = walk above false in
      do
        uid ← get_root_uid
        hit ← from_cache (path_of (name ∷ above)) name include_drafts
        or_walk hit (do
          parent ← (if is_empty above then root_entity uid else up)
          look_in (path_of (name ∷ above)) name include_drafts parent)

  unfoldable pub resolve : Text → Bool → Sdk (Option NodeEntity)
  unfolding walk
  resolve path include_drafts =
      if all_safe (segments path)
      then walk (reverse_onto (segments path) []) include_drafts
      else raise (own_error (plain_error (codes "Invalid path segment") 400))

  abbrev pub or_not_found : Text → Option NodeEntity → Sdk NodeEntity
  or_not_found path none = raise (own_error (not_found_error (codes "Not found: " ++ path)))
  or_not_found path (some node) = return node

  unfoldable pub resolve_or_throw : Text → Sdk NodeEntity
  unfolding resolve
  resolve_or_throw path = do node ← resolve path false; or_not_found path node
