-- ===== src/Mock/Put/Effect.antt =====
-- What `MockGateway.put` of src/service/mockGateway.ts does to what clients see, for every outcome.
use mathlib.Core.Option.{get_or}
use rclone_proton_drive_webd.Base.{
  ℕ, ◌+◌, ◌≡◌, ◌≢◌, refl, ◌∙◌, ap, Bool, true, false, not, ◌||◌, length, if◌then◌else◌, Bool-cases,
  inl, inr,
}
use rclone_proton_drive_webd.Base.Text.{Text}
use rclone_proton_drive_webd.Gateway.{
  Bytes, Stream, concat, Date, PutOptions, PutResult, created, updated, skipped_identical, Outcome,
  ok, throw, Thrown,
}
use rclone_proton_drive_webd.Paths.{segments, base_name, is_root, is_safe_segment}
use rclone_proton_drive_webd.Mock.Tree.{MockFile, file, Children, get_child, set_child}
use rclone_proton_drive_webd.Mock.Tree.Lookup.{Seen, nothing, a_file, a_dir, seen, set_child-OnlyAt}
use rclone_proton_drive_webd.Mock.State.{MockGateway, dir_of}
use rclone_proton_drive_webd.Mock.Visible.{
  visible, visible_of_root, visible_at, Unchanged, Holds, dir_of-Holds, in_dir-Holds,
  in_dir-Unchanged, visible-in_dir_here, visible-in_dir_elsewhere,
}
use rclone_proton_drive_webd.Mock.Put.{
  PutPlan, refuse, skip, revise, replace_draft, create, is_identical, Transfer, TransferEnd,
  complete, failed, start_transfer, after_transfer, in_dir, with_draft, without_draft,
  digest_differs, size_agrees, committed_file, commit, finish, upload, follow_plan, put_in_dir,
  put_at, is_revision, previous_revisions,
}
use rclone_proton_drive_webd.Mock.Put.Steps.{
  Ready, Ready-IsLeaf, Planned, plan_put-Planned, with_draft-OnlyAt, with_draft-IsLeaf,
  seen-with_draft, without_draft-OnlyAt, without_draft-IsLeaf, get_child-set_child_here,
  receive_complete,
}

abbrev pub revisions_of : Seen → ℕ
revisions_of (a_file f) = f.revisions
revisions_of nothing = 0
revisions_of (a_dir m) = 0

-- What the path showed before an upload of that result.
abbrev pub Before : PutOptions → PutResult → Seen → Type 0
Before opts created old = old ≡ nothing
Before opts updated old = (f : MockFile) × (old ≡ a_file f) × (opts.immutable ≡ false)
Before opts skipped_identical old = ⊥

module _ (sha1_hex : Bytes → Text) (now : Date) (p : Text) (body : Stream) (opts : PutOptions)
    (st : MockGateway) where
  -- The file that a successful upload leaves.
  abbrev pub new_file : MockFile
  new_file = record {
    content = concat body.chunks;
    sha1 = sha1_hex (concat body.chunks);
    mtime = get_or opts.mtime now;
    revisions = revisions_of (visible p st) + 1;
  }

  -- The path shows the new file, and every other path what it showed.
  abbrev pub Stored : PutResult → MockGateway → Type 0
  Stored result st' =
      (visible p st' ≡ a_file new_file)
      × ((q : Text) → segments q ≢ segments p → visible q st' ≡ visible q st)
      × Before opts result (visible p st)
      × (size_agrees opts.size (length (concat body.chunks)) ≡ true)
      × (digest_differs opts.sha1 (sha1_hex (concat body.chunks)) ≡ false)

  abbrev pub Skipped : MockGateway → Type 0
  Skipped st' =
      Unchanged st st'
      × ((f : MockFile) × (visible p st ≡ a_file f) × (is_identical p f opts st ≡ true))

  abbrev pub Success : PutResult → MockGateway → Type 0
  Success skipped_identical st' = Skipped st'
  Success created st' = Stored created st'
  Success updated st' = Stored updated st'

  abbrev pub Effect : Outcome PutResult × MockGateway → Type 0
  Effect (throw e, st') = Unchanged st st'
  Effect (ok result, st') = Success result st'

  module _ (m : Date) (cs : Children) (h : Holds p st m cs) (below : is_root p ≡ false)
      (plan : PutPlan) (ready : Ready plan (get_child (base_name p) cs))
      (planned : Planned p opts st (get_child (base_name p) cs) plan) (t : Transfer) where
    abbrev before_commit : MockGateway
    before_commit = in_dir p (with_draft plan (base_name p) t st) (after_transfer t st)

    abbrev cs' : Children
    cs' = with_draft plan (base_name p) t st cs

    holds' : Holds p before_commit m cs'
    holds' =
        in_dir-Holds p (after_transfer t st) m cs h below _
          (with_draft-OnlyAt (base_name p) t st plan)

    -- While the transfer runs, clients see what they saw.
    before_commit-Unchanged : Unchanged st before_commit
    before_commit-Unchanged q =
        in_dir-Unchanged p (after_transfer t st) m cs h below _
          (with_draft-OnlyAt (base_name p) t st plan) (Ready-IsLeaf plan _ ready)
          (with_draft-IsLeaf (base_name p) t st plan cs ready)
          (seen-with_draft (base_name p) t st plan cs ready) q
        ∙ visible_of_root q (after_transfer t st) st refl

    given_up-Unchanged : Unchanged st (in_dir p (without_draft plan (base_name p)) before_commit)
    given_up-Unchanged q =
        let (leaf, same) = without_draft-IsLeaf (base_name p) t st plan cs ready in
        in_dir-Unchanged p before_commit m cs' holds' below _
          (without_draft-OnlyAt (base_name p) t st plan)
          (with_draft-IsLeaf (base_name p) t st plan cs ready) leaf same q
        ∙ before_commit-Unchanged q

    revisions_lem : previous_revisions plan ≡ revisions_of (visible p st)
    revisions_lem = rw (visible_at p st m cs h below) (go plan ready)
      where
        go :
            (plan : PutPlan)
            → Ready plan (get_child (base_name p) cs)
            → previous_revisions plan ≡ revisions_of (seen (get_child (base_name p) cs))
        go create r = rw r refl
        go (revise f) r = rw r refl
        go replace_draft (d, r) = rw r refl
        go skip r = absurd r
        go (refuse e) r = absurd r

    Before_lem : Before opts (if is_revision plan then updated else created) (visible p st)
    Before_lem = rw (visible_at p st m cs h below) (go plan ready planned)
      where
        go :
            (plan : PutPlan)
            → Ready plan (get_child (base_name p) cs)
            → Planned p opts st (get_child (base_name p) cs) plan
            → Before opts
                (if is_revision plan then updated else created)
                (seen (get_child (base_name p) cs))
        go create r pl = rw r refl
        go (revise f) r (_, i) = rw r (f, refl, i)
        go replace_draft (d, r) pl = rw r refl
        go skip r pl = absurd r
        go (refuse e) r pl = absurd r

    Stored-Effect : (r : PutResult) (st' : MockGateway) → Stored r st' → Effect (ok r, st')
    Stored-Effect created st' s = s
    Stored-Effect updated st' s = s
    Stored-Effect skipped_identical st' s = let (_, _, never, _, _) = s in absurd never

    abbrev committed : MockGateway
    committed =
        in_dir p
          (set_child (base_name p)
            (file (committed_file sha1_hex now plan (concat body.chunks) opts)))
          before_commit

    committed_here : visible p committed ≡ a_file new_file
    committed_here =
        visible-in_dir_here p before_commit m cs' holds' below _ (set_child-OnlyAt (base_name p) _)
        ∙ ap seen (get_child-set_child_here (base_name p) _ cs')
        ∙ ap (λ n. a_file (record (new_file) { revisions = n + 1 })) revisions_lem

    committed_elsewhere : (q : Text) → segments q ≢ segments p → visible q committed ≡ visible q st
    committed_elsewhere q ne =
        visible-in_dir_elsewhere p before_commit m cs' holds' below _
          (set_child-OnlyAt (base_name p) _) (with_draft-IsLeaf (base_name p) t st plan cs ready)
          (λ s. rw (get_child-set_child_here (base_name p)) refl) q ne
        ∙ before_commit-Unchanged q

    commit-Effect : Effect (commit sha1_hex now plan p (concat body.chunks) opts before_commit)
    unfolding commit
    commit-Effect = elim (Bool-cases (size_agrees opts.size (length (concat body.chunks)))) [
      | inl fits ↦ elim (Bool-cases (digest_differs opts.sha1 (sha1_hex (concat body.chunks)))) [
        | inl wrong ↦ rw (fits, wrong) given_up-Unchanged
        | inr right ↦
            rw (fits, right)
              (Stored-Effect _ _ (
                visible_of_root p _ committed refl ∙ committed_here,
                (λ q ne. visible_of_root q _ committed refl ∙ committed_elsewhere q ne),
                Before_lem,
                fits,
                right,
              ))
      ]
      | inr differs ↦ rw differs before_commit-Unchanged
    ]

    commit-Effect_of_content :
        (content : Bytes)
        → content ≡ concat body.chunks
        → Effect (commit sha1_hex now plan p content opts before_commit)
    commit-Effect_of_content content e = rw e commit-Effect

    finish-Effect :
        (end : TransferEnd)
        → (end ≡ complete → t.chunks ≡ body.chunks)
        → Effect (finish sha1_hex now plan p opts (t, end) st)
    finish-Effect (failed e) all = before_commit-Unchanged
    finish-Effect complete all = commit-Effect_of_content (concat t.chunks) (ap concat (all refl))

  upload-Effect :
      (plan : PutPlan) (m : Date) (cs : Children)
      → Holds p st m cs
      → is_root p ≡ false
      → Ready plan (get_child (base_name p) cs)
      → Planned p opts st (get_child (base_name p) cs) plan
      → Effect (upload sha1_hex now plan p body opts st)
  unfolding upload
  upload-Effect plan m cs h below ready planned =
      finish-Effect m cs h below plan ready planned _ _ (λ done.
        receive_complete p st.faults.drop_put_after_bytes body.broken body.chunks
          (start_transfer st) done)

  follow_plan-Effect :
      (plan : PutPlan) (m : Date) (cs : Children)
      → Holds p st m cs
      → is_root p ≡ false
      → Planned p opts st (get_child (base_name p) cs) plan
      → Effect (follow_plan sha1_hex now plan p body opts st)
  follow_plan-Effect (refuse e) m cs h below pl = λ q. refl
  follow_plan-Effect skip m cs h below (f, there, same) =
      ((λ q. refl), (f, visible_at p st m cs h below ∙ ap seen there, same))
  follow_plan-Effect (revise f) m cs h below pl = upload-Effect (revise f) m cs h below pl.0 pl
  follow_plan-Effect replace_draft m cs h below pl = upload-Effect replace_draft m cs h below pl pl
  follow_plan-Effect create m cs h below pl = upload-Effect create m cs h below pl pl

  put_in_dir-Effect :
      (d : Outcome (Date × Children))
      → dir_of p st ≡ d
      → is_root p ≡ false
      → Effect (put_in_dir sha1_hex now d p body opts st)
  put_in_dir-Effect (throw e) found below = λ q. refl
  put_in_dir-Effect (ok (m, cs)) found below =
      follow_plan-Effect _ m cs (dir_of-Holds p st m cs found) below
        (plan_put-Planned p opts st (get_child (base_name p) cs))

  pub put_at-Effect : Effect (put_at sha1_hex now p body opts st)
  unfolding put_at
  put_at-Effect = go _ _ st.faults.session_revoked (is_root p) (is_safe_segment (base_name p)) refl
    where
      go :
          (e e' : Thrown) (revoked top safe : Bool)
          → is_root p ≡ top
          → Effect (
              if revoked
              then (throw e, st)
              else if top || not safe
              then (throw e', st)
              else put_in_dir sha1_hex now (dir_of p st) p body opts st)
      go e e' true top safe below = λ q. refl
      go e e' false true safe below = λ q. refl
      go e e' false false false below = λ q. refl
      go e e' false false true below = put_in_dir-Effect (dir_of p st) refl below
