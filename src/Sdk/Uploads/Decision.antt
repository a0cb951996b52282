-- ===== src/Sdk/Uploads/Decision.antt =====
-- The decision of `put` in src/service/sdkGateway.ts against that of `MockGateway.put` in
-- src/service/mockGateway.ts.
use rclone_proton_drive_webd.Base.{
  ℕ, ◌≡◌, refl, Bool, true, false, ◌&&◌, Option, none, some, arith, if◌then◌else◌, length,
}
use rclone_proton_drive_webd.Base.Text.{Text, ◌===◌}
use rclone_proton_drive_webd.Base.Int.{ℤ}
use rclone_proton_drive_webd.Gateway.{
  Date, Stream, PutOptions, PutResult, created, updated, skipped_identical, Thrown, gateway,
  foreign, immutable_precondition_error, immutable_default,
}
use rclone_proton_drive_webd.Base.Action.{Ended, done, failed}
use rclone_proton_drive_webd.Paths.{normalize, is_root, base_name, parent_path, is_safe_segment}
use rclone_proton_drive_webd.Sdk.Errors.{SdkError}
use rclone_proton_drive_webd.Sdk.Client.{Client, SdkGateway, own_error}
use rclone_proton_drive_webd.Sdk.Resolve.{is_folder, resolve}
use rclone_proton_drive_webd.Propfind.{truthy}
use rclone_proton_drive_webd.Webdav.Headers.{to_lower}
use rclone_proton_drive_webd.Mock.Tree.{MockFile, MockNode, Children}
use rclone_proton_drive_webd.Mock.State.{MockGateway, reported_sha1}
use rclone_proton_drive_webd.Mock.Put.{PutPlan, plan_put, is_identical, size_agrees, eq_text?}
use rclone_proton_drive_webd.Sdk.Nodes.{file, folder, NodeEntity}
use rclone_proton_drive_webd.Sdk.Uploads.{
  UploadPlan, refuse, skip, revise, create, same_digest, same_size, plan_upload, immutable_message,
  malformed, metadata_of, carry_out, transfer, put_at, put,
}

-- The node of the SDK that shows the file of the mock, with the digest that the mock reports.
abbrev pub node_of_file : Text → MockFile → MockGateway → NodeEntity → NodeEntity
node_of_file p f st node = record node {
  type = file;
  active_revision = some (record {
    claimed_size = some (length f.content);
    claimed_sha1 = some (reported_sha1 p f st);
    claimed_modification_time = some f.mtime;
  });
}

abbrev pub node_of_dir : NodeEntity → NodeEntity
node_of_dir node = record node { type = folder; active_revision = none }

-- What stands at the name, in the mock and in the SDK's view, with a digest in lower case; drafts are the
-- SDK's own affair.
pub data Shows (p : Text) (st : MockGateway) : Option MockNode → Option NodeEntity → Type 0 where
  nothing : Shows p st none none
  a_file :
      (f : MockFile) (node : NodeEntity)
      → to_lower (reported_sha1 p f st) ≡ reported_sha1 p f st
      → Shows p st (some (MockNode.file f)) (some (node_of_file p f st node))
  a_dir :
      (mtime : Date) (cs : Children) (node : NodeEntity)
      → Shows p st (some (MockNode.dir mtime cs)) (some (node_of_dir node))

-- The same decision: the two refuse with the same class and status, skip, make a revision, or create.
abbrev pub SameError : Thrown → Thrown → Type 0
SameError (gateway a) (gateway b) = (a.name ≡ b.name) × (a.http_status ≡ b.http_status)
SameError foreign foreign = Unit
SameError (gateway a) foreign = ⊥
SameError foreign (gateway b) = ⊥

abbrev pub IsOf : Option NodeEntity → Text → Type 0
IsOf none uid = ⊥
IsOf (some node) uid = uid ≡ node.uid

abbrev SamePlan : Option NodeEntity → UploadPlan → PutPlan → Type 0
SamePlan existing (refuse a) (PutPlan.refuse b) = SameError a b
SamePlan existing skip PutPlan.skip = Unit
SamePlan existing (revise uid) (PutPlan.revise f) = IsOf existing uid
SamePlan existing create PutPlan.create = Unit
SamePlan existing _ _ = ⊥

===_sym : (a b : Text) → (a === b) ≡ (b === a)
===_sym a b = ground arith

same_size_lem : (o : Option ℤ) (n : ℕ) → same_size o (some n) ≡ size_agrees o n
same_size_lem none n = refl
same_size_lem (some z) n = refl

same_digest_lem :
    (o : Option Text) (r : Text)
    → to_lower r ≡ r
    → same_digest o (some r) ≡ (truthy o && eq_text? o r)
same_digest_lem none r h = refl
same_digest_lem (some s) r h = rw (h, ===_sym r s) refl

plan_upload-SamePlan :
    (p : Text) (opts : PutOptions) (st : MockGateway) (seen : Option MockNode)
    (node : Option NodeEntity)
    → Shows p st seen node
    → SamePlan node (plan_upload p node opts) (plan_put p seen opts st)
unfolding plan_upload plan_put
plan_upload-SamePlan p opts st none none nothing = tt
plan_upload-SamePlan p opts st none (some _) shows = elim shows [ ]
plan_upload-SamePlan p opts st (some _) none shows = elim shows [ ]
plan_upload-SamePlan p opts st (some _) (some _) (a_dir mtime cs node) = (refl, refl)
plan_upload-SamePlan p opts st (some _) (some _) (a_file f node lower) =
    rw
      (
        same_digest_lem opts.sha1 (reported_sha1 p f st) lower,
        same_size_lem opts.size (length f.content),
      )
      (go (is_identical p f opts st) opts.immutable)
  where
    go :
        (same immutable : Bool)
        → SamePlan
            (some (node_of_file p f st node))
            (if same
              then skip
              else if immutable
              then refuse (immutable_precondition_error (immutable_message opts.sha1 p))
              else revise node.uid)
            (if same
              then PutPlan.skip
              else if immutable
              then PutPlan.refuse (immutable_precondition_error immutable_default)
              else PutPlan.revise f)
    go true immutable = tt
    go false true = (refl, refl)
    go false false = refl

module _ (get_name : NodeEntity → Text) (root_path : Text) (c : Client) (now : ℕ) where
  abbrev pub Outcome : Type 0
  Outcome = Ended SdkError PutResult × SdkGateway c.World

  -- What follows a plan: an error of the same class and status or the answer that the content is there,
  -- and nothing is changed; or the upload of a revision of the node that stands there, or of a new file.
  abbrev pub Follows :
      Text
      → NodeEntity
      → Stream
      → PutOptions
      → Option NodeEntity
      → PutPlan
      → SdkGateway c.World
      → Outcome
      → Type 0
  Follows p parent body opts existing (PutPlan.refuse b) st r =
      (a : Thrown) × SameError a b × (r ≡ (failed (own_error a), st))
  Follows p parent body opts existing PutPlan.skip st r = r ≡ (done skipped_identical, st)
  Follows p parent body opts existing (PutPlan.revise f) st r =
      (uid : Text) × IsOf existing uid
      × (r
          ≡ transfer get_name root_path c now p (c.upload_revision uid (metadata_of p opts) body)
              updated st)
  Follows p parent body opts existing PutPlan.create st r =
      r
      ≡ transfer get_name root_path c now p
          (c.upload_file parent (base_name p) (metadata_of p opts) body) created st
  Follows p parent body opts existing PutPlan.replace_draft st r = ⊥

  carry_out-Follows :
      (p : Text) (parent : NodeEntity) (body : Stream) (opts : PutOptions)
      (existing : Option NodeEntity) (a : UploadPlan) (b : PutPlan) (st : SdkGateway c.World)
      → SamePlan existing a b
      → Follows p parent body opts existing b st
          (carry_out get_name root_path c now p parent body opts a st)
  carry_out-Follows p parent body opts existing (refuse a) (PutPlan.refuse b) st h = (a, h, refl)
  carry_out-Follows p parent body opts existing (refuse a) PutPlan.skip st h = absurd h
  carry_out-Follows p parent body opts existing (refuse a) (PutPlan.revise f) st h = absurd h
  carry_out-Follows p parent body opts existing (refuse a) PutPlan.create st h = absurd h
  carry_out-Follows p parent body opts existing skip PutPlan.skip st h = refl
  carry_out-Follows p parent body opts existing skip (PutPlan.refuse b) st h = absurd h
  carry_out-Follows p parent body opts existing skip (PutPlan.revise f) st h = absurd h
  carry_out-Follows p parent body opts existing skip PutPlan.create st h = absurd h
  carry_out-Follows p parent body opts existing (revise uid) (PutPlan.revise f) st h =
      (uid, h, refl)
  carry_out-Follows p parent body opts existing (revise uid) (PutPlan.refuse b) st h = absurd h
  carry_out-Follows p parent body opts existing (revise uid) PutPlan.skip st h = absurd h
  carry_out-Follows p parent body opts existing (revise uid) PutPlan.create st h = absurd h
  carry_out-Follows p parent body opts existing create PutPlan.create st h = refl
  carry_out-Follows p parent body opts existing create (PutPlan.refuse b) st h = absurd h
  carry_out-Follows p parent body opts existing create PutPlan.skip st h = absurd h
  carry_out-Follows p parent body opts existing create (PutPlan.revise f) st h = absurd h
  carry_out-Follows p parent body opts existing (refuse a) PutPlan.replace_draft st h = absurd h
  carry_out-Follows p parent body opts existing skip PutPlan.replace_draft st h = absurd h
  carry_out-Follows p parent body opts existing (revise uid) PutPlan.replace_draft st h = absurd h
  carry_out-Follows p parent body opts existing create PutPlan.replace_draft st h = absurd h

  -- An upload over the SDK whose path is not the root and ends in a safe name, whose digest is absent or
  -- well-formed, and whose parent resolves to a folder, does what `plan_put`, the decision of
  -- `MockGateway.put`, is where the same stands at the path, which is nothing, a file or a directory: it
  -- is refused with the same class and status of error, it skips the same identical content, and it
  -- uploads a revision of the file, or a new file, in the same cases. The digest of the file that
  -- stands there is in lower case.
  pub put-Follows :
      (path : Text) (body : Stream) (opts : PutOptions) (mock : MockGateway)
      (seen : Option MockNode) (existing : Option NodeEntity) (parent : NodeEntity)
      (st st1 st2 : SdkGateway c.World)
      → Shows (normalize path) mock seen existing
      → is_root (normalize path) ≡ false
      → is_safe_segment (base_name (normalize path)) ≡ true
      → malformed opts.sha1 ≡ false
      → resolve get_name root_path c now (parent_path (normalize path)) false st
        ≡ (done (some parent), st1)
      → is_folder parent.type ≡ true
      → resolve get_name root_path c now (normalize path) true st1 ≡ (done existing, st2)
      → Follows
          (normalize path)
          parent
          body
          opts
          existing
          (plan_put (normalize path) seen opts mock)
          st2
          (put get_name root_path c now path body opts st)
  unfolding put put_at
  put-Follows path body opts mock seen existing parent st st1 st2 shows below safe formed above
        is_folder' here =
      rw (below, safe, formed, above, is_folder', here)
        (carry_out-Follows (normalize path) parent body opts existing
          (plan_upload (normalize path) existing opts) (plan_put (normalize path) seen opts mock)
          st2 (plan_upload-SamePlan (normalize path) opts mock seen existing shows))
