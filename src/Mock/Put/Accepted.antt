-- ===== src/Mock/Put/Accepted.antt =====
-- When `MockGateway.put` of src/service/mockGateway.ts succeeds, and what a draft of another client does
-- to it.
use rclone_proton_drive_webd.Base.{
  ◌≡◌, ◌⊎◌, refl, ◌∙◌, ap, Bool, true, false, not, ◌&&◌, ◌||◌, Option, none, some, List, [], ◌∷◌,
  arith, length, if◌then◌else◌, inl, inr,
}
use rclone_proton_drive_webd.Base.Text.{Text, codes, ◌===◌}
use rclone_proton_drive_webd.Gateway.{
  Bytes, Stream, concat, Date, PutOptions, PutResult, created, updated, skipped_identical, Outcome,
  ok, throw, Thrown,
}
use rclone_proton_drive_webd.Paths.{normalize, is_root, is_safe_segment, base_name}
use rclone_proton_drive_webd.Mock.Tree.{MockNode, file, dir, draft, Children, get_child}
use rclone_proton_drive_webd.Mock.State.{MockGateway, logged, tick, lookup, dir_of}
use rclone_proton_drive_webd.Mock.Put.{
  PutPlan, refuse, skip, revise, replace_draft, create, eq_text?, put, put_at, put_in_dir, plan_put,
  follow_plan, upload, commit, finish, receive, receive_chunk, start_transfer, Transfer,
  TransferEnd, complete, failed, size_agrees, digest_differs, is_identical, is_revision,
}
use rclone_proton_drive_webd.Mock.Put.Steps.{receive_complete}

pub tick-passes :
    (op p : Text) (st : MockGateway)
    → st.faults.transient_failures ≡ 0
    → tick op p st ≡ (ok tt, logged op p st)
unfolding tick
tick-passes op p st none' = rw none' refl

dir_of-logged : (op p q : Text) (st : MockGateway) → dir_of p (logged op q st) ≡ dir_of p st
unfolding dir_of
dir_of-logged op p q st = unfold lookup in refl

receive-completes :
    (p : Text) (chunks : List Bytes) (t : Transfer) → (receive p none false chunks t).1 ≡ complete
unfolding receive
receive-completes p [] t = refl
receive-completes p (c ∷ cs) t = receive-completes p cs (receive_chunk p c t)

ok-injective : (a b : Date × Children) → ok a ≡ ok b → a ≡ b
ok-injective a b e = ap (λ (o : Outcome (Date × Children)). elim o [ ok k ↦ k | throw e ↦ a ]) e

abbrev pub Succeeds : Outcome PutResult → Type 0
Succeeds o = (k : PutResult) × (o ≡ ok k)

-- What stands at the name does not forbid the upload.
abbrev pub Open : Text → PutOptions → MockGateway → Option MockNode → Type 0
Open p opts st none = Unit
Open p opts st (some (dir m cs)) = ⊥
Open p opts st (some (file f)) = opts.immutable ≡ false
Open p opts st (some (draft d)) =
    (d.client_uid ≡ st.client_uid) ⊎ (opts.override_other_client_draft_for_path ≡ some p)

module _ (sha1_hex : Bytes → Text) (now : Date) (p : Text) (body : Stream) (opts : PutOptions)
    (st : MockGateway) (keeps : st.faults.drop_put_after_bytes ≡ none) (whole : body.broken ≡ false)
    (fits : size_agrees opts.size (length (concat body.chunks)) ≡ true)
    (right : digest_differs opts.sha1 (sha1_hex (concat body.chunks)) ≡ false) where
  commit-Succeeds :
      (plan : PutPlan) (content : Bytes) (s : MockGateway)
      → content ≡ concat body.chunks
      → (commit sha1_hex now plan p content opts s).0
        ≡ ok (if is_revision plan then updated else created)
  unfolding commit
  commit-Succeeds plan content s e = rw (e, fits, right) refl

  finish-Succeeds :
      (plan : PutPlan) (t : Transfer) (end : TransferEnd)
      → end ≡ complete
      → t.chunks ≡ body.chunks
      → Succeeds (finish sha1_hex now plan p opts (t, end) st).0
  finish-Succeeds plan t (failed e) done all = cc
  finish-Succeeds plan t complete done all =
      (_, commit-Succeeds plan (concat t.chunks) _ (ap concat all))

  transfer-completes :
      (receive p st.faults.drop_put_after_bytes body.broken body.chunks (start_transfer st)).1
      ≡ complete
  transfer-completes = rw (keeps, whole) (receive-completes p body.chunks (start_transfer st))

  upload-Succeeds : (plan : PutPlan) → Succeeds (upload sha1_hex now plan p body opts st).0
  unfolding upload
  upload-Succeeds plan = finish-Succeeds plan _ _ transfer-completes (
      receive_complete p st.faults.drop_put_after_bytes body.broken body.chunks (start_transfer st)
        transfer-completes)

  Open-follow_plan :
      (o : Option MockNode)
      → Open p opts st o
      → Succeeds (follow_plan sha1_hex now (plan_put p o opts st) p body opts st).0
  unfolding plan_put
  Open-follow_plan none h = upload-Succeeds create
  Open-follow_plan (some (dir m cs)) h = absurd h
  Open-follow_plan (some (file f)) h = go _ (is_identical p f opts st) opts.immutable h
    where
      go :
          (e : Thrown) (same fixed : Bool)
          → fixed ≡ false
          → Succeeds
              (follow_plan sha1_hex now
                (if same then skip else if fixed then refuse e else revise f)
                p
                body
                opts
                st).0
      go e true fixed h = (skipped_identical, refl)
      go e false true h = cc
      go e false false h = upload-Succeeds (revise f)
  Open-follow_plan (some (draft d)) h = rw (go h) (upload-Succeeds replace_draft)
    where
      go :
          (d.client_uid ≡ st.client_uid) ⊎ (opts.override_other_client_draft_for_path ≡ some p)
          → (not (d.client_uid === st.client_uid)
              && not (eq_text? opts.override_other_client_draft_for_path p))
            ≡ false
      go (inl own) = ground arith
      go (inr named) = rw named (ground arith)

  put_at-Succeeds :
      (m : Date) (cs : Children)
      → st.faults.session_revoked ≡ false
      → is_root p ≡ false
      → is_safe_segment (base_name p) ≡ true
      → dir_of p st ≡ ok (m, cs)
      → Open p opts st (get_child (base_name p) cs)
      → Succeeds (put_at sha1_hex now p body opts st).0
  unfolding put_at
  put_at-Succeeds m cs valid below safe found h =
      go _ _ st.faults.session_revoked (is_root p) (is_safe_segment (base_name p)) valid below safe
        (dir_of p st) found
    where
      go :
          (e e' : Thrown) (revoked top good : Bool)
          → revoked ≡ false
          → top ≡ false
          → good ≡ true
          → (d : Outcome (Date × Children)) → d ≡ ok (m, cs)
          → Succeeds
              (if revoked
                then (throw e, st)
                else if top || not good
                then (throw e', st)
                else put_in_dir sha1_hex now d p body opts st).0
      go e e' false false true v b s (throw t) found = cc
      go e e' false false true v b s (ok (m', cs')) found =
          rw (ap (λ (x : Date × Children). x.1) (ok-injective (m', cs') (m, cs) found))
            (Open-follow_plan (get_child (base_name p) cs) h)
      go e e' true top good v b s d found = cc
      go e e' false true good v b s d found = cc
      go e e' false false false v b s d found = cc

-- An upload succeeds when no fault is pending, the session stands, the path is not the root and ends in a
-- safe name, its parent is a directory, nothing there forbids it (a collection, a file when the upload is
-- immutable, or a draft that is neither of this client nor named by the override), the body arrives
-- whole, and it has the declared size and digest.
pub put_accepted :
    (sha1_hex : Bytes → Text) (now : Date) (path : Text) (body : Stream) (opts : PutOptions)
    (st : MockGateway) (m : Date) (cs : Children)
    → st.faults.transient_failures ≡ 0
    → st.faults.session_revoked ≡ false
    → st.faults.drop_put_after_bytes ≡ none
    → is_root (normalize path) ≡ false
    → is_safe_segment (base_name (normalize path)) ≡ true
    → dir_of (normalize path) st ≡ ok (m, cs)
    → Open (normalize path) opts st (get_child (base_name (normalize path)) cs)
    → body.broken ≡ false
    → size_agrees opts.size (length (concat body.chunks)) ≡ true
    → digest_differs opts.sha1 (sha1_hex (concat body.chunks)) ≡ false
    → (k : PutResult) × ((put sha1_hex now path body opts st).0 ≡ ok k)
unfolding put
put_accepted sha1_hex now path body opts st m cs calm valid keeps below safe found h whole fits
      right =
    rw (tick-passes (codes "put") (normalize path) st calm) (
      put_at-Succeeds sha1_hex now (normalize path) body opts
        (logged (codes "put") (normalize path) st) keeps whole fits right m cs valid below safe
        (dir_of-logged (codes "put") (normalize path) (normalize path) st ∙ found) h)
