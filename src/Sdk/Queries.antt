-- ===== src/Sdk/Queries.antt =====
-- `stat`, `list`, the head of `read`, and `quota` of src/service/sdkGateway.ts.
use rclone_proton_drive_webd.Base.{
  ℕ, ◌-◌, false, not, Option, none, some, List, [], ◌++◌, if◌then◌else◌,
}
use rclone_proton_drive_webd.Base.Text.{Text, codes}
use rclone_proton_drive_webd.Base.Action.{done, return, raise, ◌>>=◌, ◌>>◌, catch}
use rclone_proton_drive_webd.Gateway.{DriveEntry, Quota, plain_error, not_found_error}
use rclone_proton_drive_webd.Paths.{is_root}
use rclone_proton_drive_webd.Sdk.Nodes.{Revision, NodeEntity, folder_entry, to_entry, list_entries}
use rclone_proton_drive_webd.Sdk.Errors.{SdkError, map_generic_error}
use rclone_proton_drive_webd.Sdk.Client.{Client, own_error, call, iterate}
use rclone_proton_drive_webd.Sdk.Resolve.{is_folder, is_file, Sdk, resolve, resolve_or_throw}

-- An error, as the gateway throws it.
abbrev pub mapped : SdkError → SdkError
mapped e = own_error (map_generic_error e)

module _ (get_name : NodeEntity → Text) (root_path : Text) (c : Client) (now : ℕ) where
  -- `mapErrors`
  abbrev pub map_errors :
      {A : Type 0} → Sdk get_name root_path c now A → Sdk get_name root_path c now A
  map_errors act = catch act (λ e. raise (mapped e))

  abbrev pub entry_of : Text → Option NodeEntity → Option DriveEntry
  entry_of path none = none
  entry_of path (some node) =
      if is_root path then some (folder_entry [] node.modification_time) else to_entry get_name node

  unfoldable pub stat : Text → Sdk get_name root_path c now (Option DriveEntry)
  unfolding resolve to_entry
  stat path = do
    node ← map_errors (resolve get_name root_path c now path false)
    return (entry_of path node)

  -- The entries of the children, which are remembered as they come.
  abbrev pub take_entries :
      Text → NodeEntity → List NodeEntity → Sdk get_name root_path c now (List DriveEntry)
  take_entries path node children st =
      let (entries, cache) = list_entries get_name path node now children [] st.resolve_cache in
      (done entries, record st { resolve_cache = cache })

  abbrev pub raise_mapped : Option SdkError → Sdk get_name root_path c now (Unit {0})
  raise_mapped none = return tt
  raise_mapped (some e) = raise (mapped e)

  unfoldable pub list : Text → Sdk get_name root_path c now (List DriveEntry)
  unfolding resolve_or_throw list_entries
  list path = do
    node ← map_errors (resolve_or_throw get_name root_path c now path)
    (if not (is_folder node.type)
        then raise (own_error (not_found_error (codes "Not a directory: " ++ path)))
        else (do
          i ← iterate (c.iterate_folder_children node)
          entries ← take_entries path node i.items
          raise_mapped i.error
          return entries))

  -- What `read` has found when it hands over to `readRange` or `readWhole`: the node, its revision and its
  -- size.
  abbrev pub size_of_revision :
      Text → NodeEntity → Option Revision → Sdk get_name root_path c now (NodeEntity × ℕ)
  size_of_revision path node none =
      raise (own_error (not_found_error (codes "Not a file: " ++ path)))
  size_of_revision path node (some rev) = elim rev.claimed_size [
    | some size ↦ return (node, size)
    | none ↦ raise (
        own_error
          (plain_error (path ++ codes ": Proton reports no clear-text size for this revision") 409))
  ]

  unfoldable pub find_for_read : Text → Sdk get_name root_path c now (NodeEntity × ℕ)
  unfolding resolve_or_throw
  find_for_read path = do
    node ← resolve_or_throw get_name root_path c now path
    (if not (is_file node.type)
        then raise (own_error (not_found_error (codes "Not a file: " ++ path)))
        else size_of_revision path node node.active_revision)

  -- `Math.max(0, max - used)`
  abbrev pub available_of : Option ℕ → Option ℕ → Option ℕ
  available_of none max = none
  available_of (some used) none = none
  available_of (some used) (some max) = some (max - used)

  unfoldable pub quota : Sdk get_name root_path c now Quota
  quota =
      catch
        (do
          space ← call c.user_space
          return (record {
            used = space.used_space;
            available = available_of space.used_space space.max_space;
          }))
        (λ _. return (record { used = none; available = none }))
