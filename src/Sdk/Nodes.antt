-- ===== src/Sdk/Nodes.antt =====
-- `toEntry` of src/service/sdkGateway.ts, and the loop of its `list`: which nodes of a folder are shown.
pub mod Listing
use mathlib.Core.Option.{get_or}
use rclone_proton_drive_webd.Base.{
  ℕ, Bool, true, false, not, ◌&&◌, ◌||◌, Option, none, some, List, [], ◌∷◌, ◌==◌, leb,
  if◌then◌else◌, length,
}
use rclone_proton_drive_webd.Base.Text.{Text, ◌===◌}
use rclone_proton_drive_webd.Gateway.{DriveEntry, Date}
use rclone_proton_drive_webd.Paths.{is_safe_segment, join}
use rclone_proton_drive_webd.Sdk.Cache.{ResolveCache, cache_path}
use rclone_proton_drive_webd.Webdav.Headers.{to_lower}

pub data NodeType : Type 0 where
  file folder other : NodeType

-- What the service reads of a revision and of a node of the SDK; `name_ok` is `name.ok`.
pub record Revision : Type 0 where
  pub claimed_size : Option ℕ
  pub claimed_sha1 : Option Text
  pub claimed_modification_time : Option Date

pub record NodeEntity : Type 0 where
  pub uid : Text
  pub parent_uid : Option Text
  pub name : Text
  pub name_ok : Bool
  pub type : NodeType
  pub trash_time : Option Date
  pub modification_time : Date
  pub folder_modification_time : Option Date
  pub active_revision : Option Revision

abbrev pub is_lower_hex : ℕ → Bool
is_lower_hex c = (leb b'0' c && leb c b'9') || (leb b'a' c && leb c b'f')

abbrev pub all_hex : Text → Bool
all_hex [] = true
all_hex (c ∷ s) = is_lower_hex c && all_hex s

-- `SHA1_RE`
unfoldable pub is_sha1 : Text → Bool
is_sha1 s = (length s == 40) && all_hex s

abbrev pub digest_of : Option Text → Option Text
digest_of none = none
digest_of (some s) = if is_sha1 (to_lower s) then some (to_lower s) else none

abbrev pub is_trashed : Option Date → Bool
is_trashed none = false
is_trashed (some d) = true

abbrev pub file_entry : Text → Date → Option Revision → Option DriveEntry
file_entry name time none = none
file_entry name time (some rev) = elim rev.claimed_size [
  | none ↦ none
  | some size ↦ some (record {
    name = name;
    is_dir = false;
    size = size;
    mtime = get_or rev.claimed_modification_time time;
    sha1 = digest_of rev.claimed_sha1;
  })
]

abbrev pub folder_entry : Text → Date → DriveEntry
folder_entry name time = record { name = name; is_dir = true; size = 0; mtime = time; sha1 = none }

abbrev pub visible_entry : Text → NodeEntity → NodeType → Option DriveEntry
visible_entry name node other = none
visible_entry name node folder =
    some (folder_entry name (get_or node.folder_modification_time node.modification_time))
visible_entry name node file = file_entry name node.modification_time node.active_revision

abbrev pub has_name : Text → List Text → Bool
has_name n [] = false
has_name n (k ∷ ks) = (k === n) || has_name n ks

-- What a child adds: nothing, or its entry if the name is new.
abbrev pub add_entry :
    List Text
    → Option DriveEntry
    → List DriveEntry × ResolveCache
    → (DriveEntry → List DriveEntry × ResolveCache)
    → List DriveEntry × ResolveCache
add_entry seen none skipped shown = skipped
add_entry seen (some e) skipped shown =
    if has_name e.name seen then skipped else (e ∷ (shown e).0, (shown e).1)

-- `get_name` is the helper of the CLI.
module _ (get_name : NodeEntity → Text) where
  unfoldable pub to_entry : NodeEntity → Option DriveEntry
  to_entry node =
      if is_trashed node.trash_time || not node.name_ok || not (is_safe_segment (get_name node))
      then none
      else visible_entry (get_name node) node node.type

  -- The loop of `list`, at a time, with the names that were seen before.
  unfoldable pub list_entries :
      Text
      → NodeEntity
      → ℕ
      → List NodeEntity
      → List Text
      → ResolveCache
      → List DriveEntry × ResolveCache
  list_entries path node now [] seen cache = ([], cache)
  list_entries path node now (child ∷ children) seen cache =
      add_entry seen (to_entry child) (list_entries path node now children seen cache) (λ e.
        list_entries path node now children (e.name ∷ seen)
          (cache_path (join path e.name) child.uid (some node.uid) now cache))
