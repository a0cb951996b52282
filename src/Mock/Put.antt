-- ===== src/Mock/Put.antt =====
-- `MockGateway.put` of src/service/mockGateway.ts: the decision on what is there, the transfer into a
-- draft, and the commit. Nothing else runs between its awaits here.
pub mod Steps
pub mod Effect
pub mod Safety
pub mod Accepted
pub mod Drafts
use mathlib.Core.Option.{get_or}
use rclone_proton_drive_webd.Base.{
  ℕ, ◌+◌, Bool, true, false, not, ◌&&◌, ◌||◌, Option, none, some, List, [], ◌∷◌, ◌++◌, leb,
  if◌then◌else◌, length,
}
use rclone_proton_drive_webd.Base.Text.{Text, codes, ◌===◌}
use rclone_proton_drive_webd.Base.Map.{Map, get, set}
use rclone_proton_drive_webd.Base.Int.{ℤ, pos, eq_ℤ}
use rclone_proton_drive_webd.Gateway.{
  Bytes, Stream, concat, Date, PutOptions, PutResult, created, updated, skipped_identical, Op,
  Outcome, ok, throw, Thrown, foreign, raise, ◌>>=◌, ◌>>◌, plain_error,
  immutable_precondition_error, immutable_default, draft_conflict_error, draft_conflict_default,
  integrity_failed_error,
}
use rclone_proton_drive_webd.Number.{decimal, decimal_ℤ}
use rclone_proton_drive_webd.Paths.{
  segments, normalize, base_name, parent_path, is_root, is_safe_segment,
}
use rclone_proton_drive_webd.Propfind.{truthy}
use rclone_proton_drive_webd.Mock.Tree.{
  MockFile, MockDraft, MockNode, file, dir, draft, Children, get_child, set_child, delete_child,
  change_dir,
}
use rclone_proton_drive_webd.Mock.State.{MockGateway, tick, dir_of, reported_sha1}

-- What is to happen with what stands at the name.
pub data PutPlan : Type 0 where
  refuse : Thrown → PutPlan
  skip : PutPlan
  revise : MockFile → PutPlan
  replace_draft : PutPlan
  create : PutPlan

abbrev pub eq_text? : Option Text → Text → Bool
eq_text? none t = false
eq_text? (some s) t = s === t

abbrev pub size_agrees : Option ℤ → ℕ → Bool
size_agrees none n = true
size_agrees (some z) n = eq_ℤ z (pos n)

abbrev pub is_identical : Text → MockFile → PutOptions → MockGateway → Bool
is_identical p f opts st =
    truthy opts.sha1
    && eq_text? opts.sha1 (reported_sha1 p f st)
    && size_agrees opts.size (length f.content)

unfoldable pub plan_put : Text → Option MockNode → PutOptions → MockGateway → PutPlan
plan_put p none opts st = create
plan_put p (some (dir m cs)) opts st = refuse (plain_error (codes "Collection exists at path") 405)
plan_put p (some (file f)) opts st =
    if is_identical p f opts st
    then skip
    else if opts.immutable
    then refuse (immutable_precondition_error immutable_default)
    else revise f
plan_put p (some (draft d)) opts st =
    if not (d.client_uid === st.client_uid)
      && not (eq_text? opts.override_other_client_draft_for_path p)
    then refuse (draft_conflict_error draft_conflict_default)
    else replace_draft

-- The transfer: the chunks so far, their bytes, and the counters of all paths.
pub record Transfer : Type 0 where
  pub chunks : List Bytes
  pub received_bytes : ℕ
  pub put_bytes : Map ℕ

pub data TransferEnd : Type 0 where
  complete : TransferEnd
  failed : Thrown → TransferEnd

abbrev pub reaches : Option ℕ → ℕ → Bool
reaches none n = false
reaches (some drop_at) n = leb drop_at n

abbrev pub receive_chunk : Text → Bytes → Transfer → Transfer
receive_chunk p chunk t = record {
  chunks = t.chunks ++ chunk ∷ [];
  received_bytes = t.received_bytes + length chunk;
  put_bytes = set p (get_or (get p t.put_bytes) 0 + length chunk) t.put_bytes;
}

-- The loop over the reader; a broken body makes `reader.read()` fail.
unfoldable pub receive : Text → Option ℕ → Bool → List Bytes → Transfer → Transfer × TransferEnd
receive p drop_at broken [] t = (t, if broken then failed foreign else complete)
receive p drop_at broken (chunk ∷ chunks) t =
    let t' = receive_chunk p chunk t in
    let rest = receive p drop_at broken chunks t' in
    if reaches drop_at t'.received_bytes
    then (t', failed (plain_error (codes "Simulated connection drop during upload") 599))
    else rest

-- A change of the directory that holds the path.
abbrev pub in_dir : Text → (Children → Children) → MockGateway → MockGateway
in_dir p f st = record st { root = change_dir (segments (parent_path p)) f st.root }

abbrev pub start_transfer : MockGateway → Transfer
start_transfer st = record { chunks = []; received_bytes = 0; put_bytes = st.put_bytes }

abbrev pub after_transfer : Transfer → MockGateway → MockGateway
after_transfer t st = record st {
  put_bytes = t.put_bytes;
  faults = record (st.faults) { drop_put_after_bytes = none };
}

abbrev pub received_draft : Transfer → MockGateway → MockNode
received_draft t st =
    draft (record { client_uid = st.client_uid; received_bytes = t.received_bytes })

-- The directory while the transfer runs: for a revision the file stays, else the draft stands at the
-- name, an older draft having been deleted.
abbrev pub with_draft : PutPlan → Text → Transfer → MockGateway → Children → Children
with_draft create name t st cs = set_child name (received_draft t st) cs
with_draft replace_draft name t st cs = set_child name (received_draft t st) (delete_child name cs)
with_draft (revise f) name t st cs = cs
with_draft skip name t st cs = cs
with_draft (refuse e) name t st cs = cs

abbrev pub is_revision : PutPlan → Bool
is_revision (revise f) = true
is_revision _ = false

abbrev pub previous_revisions : PutPlan → ℕ
previous_revisions (revise f) = f.revisions
previous_revisions _ = 0

-- After a wrong digest the draft is deleted; a file under revision is another object and stays.
abbrev pub without_draft : PutPlan → Text → Children → Children
without_draft (revise f) name cs = cs
without_draft create name cs = delete_child name cs
without_draft replace_draft name cs = delete_child name cs
without_draft skip name cs = cs
without_draft (refuse e) name cs = cs

abbrev pub digest_differs : Option Text → Text → Bool
digest_differs expected sha1 = truthy expected && not (eq_text? expected sha1)

abbrev text_of : Option Text → Text
text_of o = get_or o []

abbrev number_of : Option ℤ → Text
number_of none = codes "undefined"
number_of (some z) = decimal_ℤ z

abbrev pub size_mismatch : PutOptions → ℕ → Thrown
size_mismatch opts n =
    integrity_failed_error
      (codes "Size mismatch: expected " ++ (number_of opts.size ++ (codes ", got " ++ decimal n)))

abbrev pub sha1_mismatch : PutOptions → Text → Thrown
sha1_mismatch opts sha1 =
    integrity_failed_error
      (codes "SHA-1 mismatch: expected " ++ (text_of opts.sha1 ++ (codes ", got " ++ sha1)))

-- `sha1_hex` is the digest of node:crypto, `now` the time of `new Date()`.
module _ (sha1_hex : Bytes → Text) (now : Date) where
  abbrev pub committed_file : PutPlan → Bytes → PutOptions → MockFile
  committed_file plan content opts = record {
    content = content;
    sha1 = sha1_hex content;
    mtime = get_or opts.mtime now;
    revisions = previous_revisions plan + 1;
  }

  -- From `const data = concat(chunks)` on.
  unfoldable pub commit : PutPlan → Text → Bytes → PutOptions → Op MockGateway PutResult
  commit plan p content opts st =
      if not (size_agrees opts.size (length content))
      then (throw (size_mismatch opts (length content)), st)
      else if digest_differs opts.sha1 (sha1_hex content)
      then (
        throw (sha1_mismatch opts (sha1_hex content)),
        in_dir p (without_draft plan (base_name p)) st,
      )
      else (
        ok (if is_revision plan then updated else created),
        (let st' =
              in_dir p (set_child (base_name p) (file (committed_file plan content opts))) st in
            record st' { used_bytes = st'.used_bytes + length content }),
      )

  abbrev pub finish :
      PutPlan → Text → PutOptions → Transfer × TransferEnd → Op MockGateway PutResult
  finish plan p opts (t, failed e) st =
      (throw e, in_dir p (with_draft plan (base_name p) t st) (after_transfer t st))
  finish plan p opts (t, complete) st =
      commit plan p (concat t.chunks) opts
        (in_dir p (with_draft plan (base_name p) t st) (after_transfer t st))

  unfoldable pub upload : PutPlan → Text → Stream → PutOptions → Op MockGateway PutResult
  upload plan p body opts st =
      finish plan p opts
        (receive p st.faults.drop_put_after_bytes body.broken body.chunks (start_transfer st)) st

  abbrev pub follow_plan : PutPlan → Text → Stream → PutOptions → Op MockGateway PutResult
  follow_plan (refuse e) p body opts st = (throw e, st)
  follow_plan skip p body opts st = (ok skipped_identical, st)
  follow_plan (revise f) p body opts st = upload (revise f) p body opts st
  follow_plan replace_draft p body opts st = upload replace_draft p body opts st
  follow_plan create p body opts st = upload create p body opts st

  abbrev pub put_in_dir :
      Outcome (Date × Children) → Text → Stream → PutOptions → Op MockGateway PutResult
  put_in_dir (throw e) p body opts st = (throw e, st)
  put_in_dir (ok (m, cs)) p body opts st =
      follow_plan (plan_put p (get_child (base_name p) cs) opts st) p body opts st

  -- `put` behind `tick`, for a normal path.
  unfoldable pub put_at : Text → Stream → PutOptions → Op MockGateway PutResult
  put_at p body opts st =
      if st.faults.session_revoked
      then (throw (plain_error (codes "Session revoked; login required") 401), st)
      else if is_root p || not (is_safe_segment (base_name p))
      then (throw (plain_error (codes "Invalid name") 400), st)
      else put_in_dir (dir_of p st) p body opts st

  unfoldable pub put : Text → Stream → PutOptions → Op MockGateway PutResult
  put path body opts = do let p = normalize path; tick (codes "put") p; put_at p body opts
