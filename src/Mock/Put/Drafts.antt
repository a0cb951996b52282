-- ===== src/Mock/Put/Drafts.antt =====
-- `MockGateway.put` of src/service/mockGateway.ts and the drafts of other clients.
use mathlib.Core.Option.{none-ne-some}
use rclone_proton_drive_webd.Base.{
  ◌≡◌, ◌≢◌, refl, sym, ◌∙◌, ap, Bool, true, false, not, ◌&&◌, ◌||◌, Option, none, some, arith,
  length, if◌then◌else◌, Bool-cases, inl, inr,
}
use rclone_proton_drive_webd.Base.Text.{Text, codes, ◌===◌, text_dec}
use rclone_proton_drive_webd.Gateway.{
  Bytes, Stream, concat, Date, PutOptions, PutResult, Outcome, ok, throw, Thrown,
}
use rclone_proton_drive_webd.Paths.{
  segments, normalize, base_name, parent_path, is_root, is_safe_segment,
}
use rclone_proton_drive_webd.Paths.Segments.{segments-split}
use rclone_proton_drive_webd.Mock.Tree.{
  MockFile, MockDraft, MockNode, file, dir, draft, Children, get_child, walk,
}
use rclone_proton_drive_webd.Mock.Tree.Lookup.{IsLeaf, OnlyAt, set_child-OnlyAt, walk_at}
use rclone_proton_drive_webd.Mock.Tree.Drafts.{draft-change_dir}
use rclone_proton_drive_webd.Mock.State.{MockGateway, logged, dir_of}
use rclone_proton_drive_webd.Mock.Visible.{Holds, dir_of-Holds, in_dir-Holds, tick_cases}
use rclone_proton_drive_webd.Mock.Put.{
  PutPlan, refuse, skip, revise, replace_draft, create, plan_put, eq_text?, Transfer, TransferEnd,
  complete, failed, after_transfer, in_dir, with_draft, without_draft, digest_differs, size_agrees,
  commit, finish, upload, follow_plan, put_in_dir, put_at, put, receive, start_transfer,
  is_identical,
}
use rclone_proton_drive_webd.Mock.Put.Steps.{
  Ready, Ready-IsLeaf, with_draft-OnlyAt, with_draft-IsLeaf, without_draft-OnlyAt,
}

-- The draft stands at the path.
abbrev pub DraftAt : Text → MockDraft → MockGateway → Type 0
DraftAt q d st = walk (segments q) st.root ≡ some (draft d)

file-ne-draft : (f : MockFile) (d : MockDraft) → some (file f) ≢ some (draft d)
file-ne-draft f d h = cc

draft-injective : (a b : MockDraft) → some (draft a) ≡ some (draft b) → a ≡ b
draft-injective a b e = ap draft_of e
  where
    draft_of : Option MockNode → MockDraft
    draft_of none = a
    draft_of (some (file f)) = a
    draft_of (some (dir m cs)) = a
    draft_of (some (draft x)) = x

true-ne-false : true ≢ false
true-ne-false h = cc

module _ (q : Text) (d : MockDraft) (p : Text) where
  in_dir-DraftAt :
      (st : MockGateway) (m : Date) (cs : Children) (f : Children → Children)
      → Holds p st m cs
      → is_root p ≡ false
      → OnlyAt (base_name p) f
      → IsLeaf (get_child (base_name p) cs)
      → segments q ≢ segments p
      → DraftAt q d st
      → DraftAt q d (in_dir p f st)
  in_dir-DraftAt st m cs f h below only leaf ne =
      draft-change_dir (base_name p) f only d (segments (parent_path p)) st.root m cs (segments q) h
        leaf (λ e. ne (e ∙ sym (segments-split p below)))

  module _ (sha1_hex : Bytes → Text) (now : Date) (body : Stream) (opts : PutOptions)
      (st : MockGateway) (at_q : DraftAt q d st) where
    abbrev Keeps : Outcome PutResult × MockGateway → Type 0
    Keeps r = DraftAt q d r.1

    module _ (m : Date) (cs : Children) (h : Holds p st m cs) (below : is_root p ≡ false)
        (plan : PutPlan) (ready : Ready plan (get_child (base_name p) cs))
        (apart : segments q ≢ segments p) (t : Transfer) where
      abbrev before_commit : MockGateway
      before_commit = in_dir p (with_draft plan (base_name p) t st) (after_transfer t st)

      kept : DraftAt q d before_commit
      kept =
          in_dir-DraftAt (after_transfer t st) m cs _ h below
            (with_draft-OnlyAt (base_name p) t st plan) (Ready-IsLeaf plan _ ready) apart at_q

      kept_again :
          (g : Children → Children)
          → OnlyAt (base_name p) g
          → DraftAt q d (in_dir p g before_commit)
      kept_again g only =
          in_dir-DraftAt before_commit m _ g
            (in_dir-Holds p (after_transfer t st) m cs h below _
              (with_draft-OnlyAt (base_name p) t st plan))
            below only (with_draft-IsLeaf (base_name p) t st plan cs ready) apart kept

      commit-Keeps :
          (content : Bytes) → Keeps (commit sha1_hex now plan p content opts before_commit)
      unfolding commit
      commit-Keeps content = elim (Bool-cases (size_agrees opts.size (length content))) [
        | inl fits ↦ elim (Bool-cases (digest_differs opts.sha1 (sha1_hex content))) [
          | inl wrong ↦
              rw (fits, wrong)
                (kept_again (without_draft plan (base_name p))
                  (without_draft-OnlyAt (base_name p) t st plan))
          | inr right ↦ rw (fits, right) (kept_again _ (set_child-OnlyAt (base_name p) _))
        ]
        | inr differs ↦ rw differs kept
      ]

      finish-Keeps : (end : TransferEnd) → Keeps (finish sha1_hex now plan p opts (t, end) st)
      finish-Keeps (failed e) = kept
      finish-Keeps complete = commit-Keeps (concat t.chunks)

    upload-Keeps :
        (plan : PutPlan) (m : Date) (cs : Children)
        → Holds p st m cs
        → is_root p ≡ false
        → Ready plan (get_child (base_name p) cs)
        → segments q ≢ segments p
        → Keeps (upload sha1_hex now plan p body opts st)
    unfolding upload
    upload-Keeps plan m cs h below ready apart =
        let received =
          receive p st.faults.drop_put_after_bytes body.broken body.chunks (start_transfer st) in
        finish-Keeps m cs h below plan ready apart received.0 received.1

    -- The draft is another client's, and the override does not name its path.
    module _ (foreign_draft : d.client_uid ≢ st.client_uid)
        (unnamed : opts.override_other_client_draft_for_path ≢ some p) where
      at_p :
          (m : Date) (cs : Children)
          → Holds p st m cs
          → is_root p ≡ false
          → segments q ≡ segments p
          → get_child (base_name p) cs ≡ some (draft d)
      at_p m cs h below e =
          sym (walk_at (base_name p) (segments (parent_path p)) st.root m cs h)
          ∙ ap (λ l. walk l st.root) (sym (e ∙ segments-split p below))
          ∙ at_q

      not_named : eq_text? opts.override_other_client_draft_for_path p ≡ false
      not_named = go opts.override_other_client_draft_for_path unnamed
        where
          go : (o : Option Text) → o ≢ some p → eq_text? o p ≡ false
          go none ne = refl
          go (some t) ne = elim (text_dec t p) [
            | yes same ↦ absurd (ne (ap some same))
            | no differs ↦ ground arith
          ]

      abbrev blocks : MockDraft → Bool
      blocks x =
          not (x.client_uid === st.client_uid)
          && not (eq_text? opts.override_other_client_draft_for_path p)

      blocked : blocks d ≡ true
      blocked = rw not_named (ground (arith, foreign_draft))

      follow_plan-Keeps :
          (m : Date) (cs : Children) (o : Option MockNode)
          → Holds p st m cs
          → is_root p ≡ false
          → get_child (base_name p) cs ≡ o
          → Keeps (follow_plan sha1_hex now (plan_put p o opts st) p body opts st)
      unfolding plan_put
      follow_plan-Keeps m cs none h below found =
          upload-Keeps create m cs h below found
            (λ e. none-ne-some (draft d) (sym found ∙ at_p m cs h below e))
      follow_plan-Keeps m cs (some (dir m' cs')) h below found = at_q
      follow_plan-Keeps m cs (some (file f)) h below found =
          go _ (is_identical p f opts st) opts.immutable
        where
          go :
              (e : Thrown) (same fixed : Bool)
              → Keeps (
                  follow_plan sha1_hex now
                    (if same then skip else if fixed then refuse e else revise f)
                    p
                    body
                    opts
                    st)
          go e true fixed = at_q
          go e false true = at_q
          go e false false =
              upload-Keeps (revise f) m cs h below found
                (λ e. file-ne-draft f d (sym found ∙ at_p m cs h below e))
      follow_plan-Keeps m cs (some (draft d')) h below found =
          elim (Bool-cases (
            not (d'.client_uid === st.client_uid)
            && not (eq_text? opts.override_other_client_draft_for_path p))) [
              | inl stops ↦ rw stops at_q
              | inr goes_on ↦ rw goes_on (
                  upload-Keeps replace_draft m cs h below (d', found)
                    (λ e. true-ne-false (
                      sym blocked
                      ∙ ap blocks (draft-injective d d' (sym (at_p m cs h below e) ∙ found))
                      ∙ goes_on)))
            ]

      put_in_dir-Keeps :
          (o : Outcome (Date × Children))
          → dir_of p st ≡ o
          → is_root p ≡ false
          → Keeps (put_in_dir sha1_hex now o p body opts st)
      put_in_dir-Keeps (throw e) found below = at_q
      put_in_dir-Keeps (ok (m, cs)) found below =
          follow_plan-Keeps m cs (get_child (base_name p) cs) (dir_of-Holds p st m cs found) below
            refl

      put_at-Keeps : Keeps (put_at sha1_hex now p body opts st)
      unfolding put_at
      put_at-Keeps =
          go _ _ st.faults.session_revoked (is_root p) (is_safe_segment (base_name p)) refl
        where
          go :
              (e e' : Thrown) (revoked top safe : Bool)
              → is_root p ≡ top
              → Keeps (
                  if revoked
                  then (throw e, st)
                  else if top || not safe
                  then (throw e', st)
                  else put_in_dir sha1_hex now (dir_of p st) p body opts st)
          go e e' true top safe below = at_q
          go e e' false true safe below = at_q
          go e e' false false false below = at_q
          go e e' false false true below = put_in_dir-Keeps (dir_of p st) refl below

-- No upload, to this path or another, and whatever its outcome, removes or replaces the unfinished
-- upload of another client, unless the override names exactly the path of the upload.
pub put_keeps_drafts :
    (sha1_hex : Bytes → Text) (now : Date) (path q : Text) (d : MockDraft) (body : Stream)
    (opts : PutOptions) (st : MockGateway)
    → walk (segments q) st.root ≡ some (draft d)
    → d.client_uid ≢ st.client_uid
    → opts.override_other_client_draft_for_path ≢ some (normalize path)
    → walk (segments q) (put sha1_hex now path body opts st).1.root ≡ some (draft d)
unfolding put
put_keeps_drafts sha1_hex now path q d body opts st at_q foreign_draft unnamed =
    elim (tick_cases (codes "put") (normalize path) st) [
      | inl e ↦ rw e (
          put_at-Keeps q d (normalize path) sha1_hex now body opts
            (logged (codes "put") (normalize path) st) at_q foreign_draft unnamed)
      | inr (e, st', fails, same) ↦ rw (fails, same) at_q
    ]
