-- ===== src/Sdk/Uploads.antt =====
-- `put` of src/service/sdkGateway.ts. What it does with the request's body, which it cancels where it
-- refuses, is left out.
pub mod Decision
use rclone_proton_drive_webd.Base.{
  ℕ, Bool, true, false, not, ◌&&◌, ◌||◌, Option, none, some, List, [], ◌∷◌, ◌++◌, if◌then◌else◌,
}
use rclone_proton_drive_webd.Base.Text.{Text, codes, ◌===◌}
use rclone_proton_drive_webd.Base.Int.{ℤ, pos, eq_ℤ}
use rclone_proton_drive_webd.Base.Action.{
  Ended, done, failed, Action, return, raise, ◌>>=◌, ◌>>◌, catch,
}
use rclone_proton_drive_webd.Gateway.{
  Stream, PutOptions, PutResult, created, updated, skipped_identical, Thrown, plain_error,
  conflict_error, immutable_precondition_error,
}
use rclone_proton_drive_webd.Paths.{normalize, is_root, base_name, parent_path, is_safe_segment}
use rclone_proton_drive_webd.Propfind.{truthy}
use rclone_proton_drive_webd.Webdav.Headers.{to_lower}
use rclone_proton_drive_webd.Sdk.Cache.{invalidate}
use rclone_proton_drive_webd.Sdk.Nodes.{
  NodeType, file, folder, other, Revision, NodeEntity, is_sha1,
}
use rclone_proton_drive_webd.Sdk.Errors.{SdkError, map_generic_error, map_upload_error}
use rclone_proton_drive_webd.Sdk.Client.{
  UploadMetadata, Client, SdkGateway, own_error, call, change_cache,
}
use rclone_proton_drive_webd.Sdk.Resolve.{is_folder, Sdk, resolve}
use rclone_proton_drive_webd.Sdk.Queries.{mapped, map_errors}

-- What is to happen with what stands at the name.
pub data UploadPlan : Type 0 where
  refuse : Thrown → UploadPlan
  skip : UploadPlan
  revise : Text → UploadPlan
  create : UploadPlan

abbrev pub is_text : Option Text → Text → Bool
is_text none t = false
is_text (some s) t = s === t

abbrev pub lower_digest : Option Text → Option Text
lower_digest none = none
lower_digest (some s) = some (to_lower s)

-- `opts.sha1 && currentSha1 === opts.sha1`
abbrev pub same_digest : Option Text → Option Text → Bool
same_digest none claimed = false
same_digest (some sha1) claimed = truthy (some sha1) && is_text (lower_digest claimed) sha1

-- `opts.size === undefined || currentSize === opts.size`
abbrev pub same_size : Option ℤ → Option ℕ → Bool
same_size none claimed = true
same_size (some z) none = false
same_size (some z) (some n) = eq_ℤ z (pos n)

abbrev pub immutable_message : Option Text → Text → Text
immutable_message sha1 p =
    if truthy sha1
    then codes "Immutable: " ++ (p ++ codes " exists with different content")
    else codes "Immutable: "
      ++ (p ++ codes " exists and no OC-Checksum was supplied to prove identity")

abbrev pub plan_revision : Text → Text → Option Revision → PutOptions → UploadPlan
plan_revision p uid none opts = create
plan_revision p uid (some rev) opts =
    if same_digest opts.sha1 rev.claimed_sha1 && same_size opts.size rev.claimed_size
    then skip
    else if opts.immutable
    then refuse (immutable_precondition_error (immutable_message opts.sha1 p))
    else revise uid

abbrev pub plan_type : NodeType → Text → NodeEntity → PutOptions → UploadPlan
plan_type folder p node opts = refuse (plain_error (codes "A collection exists at this path") 405)
plan_type file p node opts = plan_revision p node.uid node.active_revision opts
plan_type other p node opts = create

unfoldable pub plan_upload : Text → Option NodeEntity → PutOptions → UploadPlan
plan_upload p none opts = create
plan_upload p (some node) opts = plan_type node.type p node opts

abbrev pub metadata_of : Text → PutOptions → UploadMetadata
metadata_of p opts = record {
  expected_size = opts.size;
  expected_sha1 = if truthy opts.sha1 then opts.sha1 else none;
  modification_time = opts.mtime;
  override_existing_draft_by_other_client = is_text opts.override_other_client_draft_for_path p;
}

abbrev pub malformed : Option Text → Bool
malformed none = false
malformed (some s) = truthy (some s) && not (is_sha1 s)

module _ (get_name : NodeEntity → Text) (root_path : Text) (c : Client) (now : ℕ) where
  abbrev pub own : {A : Type 0} → Thrown → Sdk get_name root_path c now A
  own e = raise (own_error e)

  abbrev pub after_failure : Text → SdkError → Sdk get_name root_path c now PutResult
  after_failure p e = do change_cache (invalidate p); raise (own_error (map_upload_error e p))

  -- From the request for an uploader on.
  unfoldable pub transfer :
      Text → Action SdkError c.World (Unit {0}) → PutResult → Sdk get_name root_path c now PutResult
  transfer p upload result =
      catch (do call upload; change_cache (invalidate p); return result) (after_failure p)

  abbrev pub carry_out :
      Text → NodeEntity → Stream → PutOptions → UploadPlan → Sdk get_name root_path c now PutResult
  carry_out p parent body opts (refuse e) = own e
  carry_out p parent body opts skip = return skipped_identical
  carry_out p parent body opts (revise uid) =
      transfer p (c.upload_revision uid (metadata_of p opts) body) updated
  carry_out p parent body opts create =
      transfer p (c.upload_file parent (base_name p) (metadata_of p opts) body) created

  abbrev pub no_parent : {A : Type 0} → Text → Sdk get_name root_path c now A
  no_parent p = own (conflict_error (codes "Parent collection does not exist: " ++ parent_path p))

  abbrev pub put_in :
      Text → Stream → PutOptions → Option NodeEntity → Sdk get_name root_path c now PutResult
  put_in p body opts none = no_parent p
  put_in p body opts (some parent) = if not (is_folder parent.type) then no_parent p else (do
    existing ← resolve get_name root_path c now p true
    carry_out p parent body opts (plan_upload p existing opts))

  -- `put` of a normal path.
  unfoldable pub put_at : Text → Stream → PutOptions → Sdk get_name root_path c now PutResult
  unfolding resolve transfer plan_upload
  put_at p body opts =
      if is_root p
      then own (plain_error (codes "Cannot PUT to the root collection") 405)
      else if not (is_safe_segment (base_name p))
      then own (plain_error (codes "Invalid file name") 400)
      else if malformed opts.sha1
      then own (plain_error (codes "Malformed OC-Checksum SHA1") 400)
      else (do
        parent ←
            map_errors get_name root_path c now
              (resolve get_name root_path c now (parent_path p) false)
        put_in p body opts parent)

  unfoldable pub put : Text → Stream → PutOptions → Sdk get_name root_path c now PutResult
  unfolding put_at
  put path body opts = put_at (normalize path) body opts
