-- ===== src/Sdk/Tests.antt =====
-- The parts of the SDK gateway at concrete inputs.
use rclone_proton_drive_webd.Base.{
  ◌≤◌, ◌≡◌, refl, true, false, none, some, List, [], ◌∷◌, arith, length, All,
}
use rclone_proton_drive_webd.Base.Text.{Text, codes, text_dec, starts_with, includes_char}
use rclone_proton_drive_webd.Base.Map.{delete}
use rclone_proton_drive_webd.Base.Int.{pos}
use rclone_proton_drive_webd.Gateway.{plain_error, draft_conflict_error, at, DriveEntry}
use rclone_proton_drive_webd.Paths.{segments, normalize, is_root, join_parts, is_safe_segment}
use rclone_proton_drive_webd.Sdk.Cache.{
  resolve_cache_max_entries, Resolved, ResolveCache, delete_covered, invalidate,
}
use rclone_proton_drive_webd.Sdk.Nodes.{file, NodeEntity, has_name, list_entries}
use rclone_proton_drive_webd.Sdk.Nodes.Listing.{Distinct, names, IsFrom, list_entries_sound}
use rclone_proton_drive_webd.Sdk.Errors.{
  SdkError, map_generic_error, map_upload_error, draft_message,
}
use rclone_proton_drive_webd.Sdk.Seek.{Reply, got, read_range, pull_replies, answered, closed}

abbrev entry : Resolved
entry = record { uid = codes "u1"; parent_uid = none; expires_at = 500 }

abbrev cache : ResolveCache
cache = (codes "/a", entry) ∷ (codes "/a/b", entry) ∷ (codes "/ab", entry) ∷ []

abbrev a : Text
a = codes "/a"

paths : Unit {0}
unfolding segments normalize is_root join_parts is_safe_segment text_dec starts_with includes_char
paths = tt

forgotten : invalidate a cache ≡ (codes "/ab", entry) ∷ []
unfolding paths invalidate delete_covered delete
forgotten = refl

abbrev node : NodeEntity
node = record {
  uid = codes "n1";
  parent_uid = none;
  name = codes "x";
  name_ok = true;
  type = file;
  trash_time = none;
  modification_time = at (pos 5);
  folder_modification_time = none;
  active_revision =
      some
        (record { claimed_size = some 3; claimed_sha1 = none; claimed_modification_time = none });
}

abbrev name_of : NodeEntity → Text
name_of n = n.name

abbrev shown : DriveEntry
shown = record { name = codes "x"; is_dir = false; size = 3; mtime = at (pos 5); sha1 = none }

list_entries_sound_example :
    let r = list_entries name_of a node 10 (node ∷ node ∷ []) [] cache in
    Distinct [] r.0
    × All (IsFrom name_of (node ∷ node ∷ [])) r.0
    × ((e : DriveEntry) → IsFrom name_of (node ∷ node ∷ []) e → has_name e.name (names r.0) ≡ true)
    × (length r.1 ≤ resolve_cache_max_entries)
list_entries_sound_example =
    list_entries_sound name_of a node 10 (node ∷ node ∷ []) cache (omega arith)

abbrev refused_upload : SdkError
refused_upload = record {
  gateway_class = none;
  same_name = some true;
  is_integrity = false;
  is_abort = false;
  is_rate_limited = false;
  is_connection = false;
  is_server = false;
  is_validation = true;
  message = codes "exists";
}

-- An unfinished upload under the name is a conflict, whatever else the error is.
errors :
    (map_upload_error refused_upload a ≡ draft_conflict_error (draft_message a))
    × (map_generic_error refused_upload ≡ plain_error (codes "exists") 422)
unfolding map_upload_error
errors = (refl, refl)

abbrev replies : List Reply
replies = got (1 ∷ 2 ∷ []) false ∷ got (3 ∷ 4 ∷ []) true ∷ []

read : read_range 5 7 100 replies ≡ answered ((1 ∷ 2 ∷ []) ∷ (3 ∷ []) ∷ [], closed) 3
unfolding read_range pull_replies
read = refl
