-- ===== src/Mock/Put/Safety.antt =====
-- `MockGateway.put` of src/service/mockGateway.ts as clients see it: what a failed, a successful and a
-- skipped upload leave behind, and what an immutable path keeps.
use mathlib.Core.Option.{get_or}
use rclone_proton_drive_webd.Base.{
  ◌+◌, ◌≡◌, ◌≢◌, ◌⊎◌, refl, sym, ◌∙◌, ap, Bool, true, false, ◌&&◌, Option, none, some, [], ◌∷◌,
  arith, length, inl, inr,
}
use rclone_proton_drive_webd.Base.Text.{Text, codes}
use rclone_proton_drive_webd.Gateway.{
  Bytes, Stream, concat, Date, PutOptions, PutResult, created, updated, skipped_identical, Outcome,
  ok, throw, Thrown,
}
use rclone_proton_drive_webd.Propfind.{truthy}
use rclone_proton_drive_webd.Paths.{segments, normalize}
use rclone_proton_drive_webd.Paths.Segments.{segments-normalize}
use rclone_proton_drive_webd.Mock.Tree.{MockFile}
use rclone_proton_drive_webd.Mock.Tree.Lookup.{Seen, nothing, a_file, a_dir}
use rclone_proton_drive_webd.Mock.State.{MockGateway, logged, reported_sha1}
use rclone_proton_drive_webd.Mock.Visible.{
  visible, visible_lem, visible_of_root, Unchanged, tick_cases,
}
use rclone_proton_drive_webd.Mock.Put.{eq_text?, put, size_agrees, digest_differs}
use rclone_proton_drive_webd.Mock.Put.Effect.{
  Effect, Stored, Success, Before, revisions_of, put_at-Effect,
}

pub visible_of_segments :
    (p q : Text) (st : MockGateway) → segments p ≡ segments q → visible p st ≡ visible q st
visible_of_segments p q st e = visible_lem p st ∙ rw e (sym (visible_lem q st))

pub visible-normalize : (p : Text) (st : MockGateway) → visible (normalize p) st ≡ visible p st
visible-normalize p st = visible_of_segments (normalize p) p st (segments-normalize p)

identical_lem :
    (o : Option Text) (t : Text) (b : Bool)
    → (truthy o && eq_text? o t && b) ≡ true
    → (o ≡ some t) × (b ≡ true)
identical_lem none t b h = cc
identical_lem (some []) t b h = cc
identical_lem (some (c ∷ s)) t b h = ground arith

reported_sha1_started :
    (q op p : Text) (f : MockFile) (st : MockGateway)
    → reported_sha1 q f (logged op p st) ≡ reported_sha1 q f st
unfolding reported_sha1
reported_sha1_started q op p f st = refl

outcome_cases :
    (o : Outcome PutResult) → ((e : Thrown) × (o ≡ throw e)) ⊎ ((k : PutResult) × (o ≡ ok k))
outcome_cases (throw e) = inl (e, refl)
outcome_cases (ok k) = inr (k, refl)

ok-injective : (a b : PutResult) → ok a ≡ ok b → a ≡ b
ok-injective a b e = ap (λ (o : Outcome PutResult). elim o [ ok k ↦ k | throw e ↦ a ]) e

throw-ne-ok : (e : Thrown) (k : PutResult) → throw e ≢ ok k
throw-ne-ok e k h = cc

a_file-ne-nothing : (f : MockFile) → a_file f ≢ nothing
a_file-ne-nothing f h = cc

a_file-injective : (f g : MockFile) → a_file f ≡ a_file g → f ≡ g
a_file-injective f g e = ap (λ (s : Seen). elim s [ nothing ↦ f | a_file x ↦ x | a_dir m ↦ f ]) e

module _ (sha1_hex : Bytes → Text) (now : Date) (path : Text) (body : Stream) (opts : PutOptions)
    (st : MockGateway) where
  abbrev p : Text
  p = normalize path

  abbrev started : MockGateway
  started = logged (codes "put") p st

  abbrev result : Outcome PutResult × MockGateway
  result = put sha1_hex now path body opts st

  put-Effect :
      ((e : Thrown) × (result.0 ≡ throw e) × Unchanged st result.1)
      ⊎ Effect sha1_hex now p body opts started result
  unfolding put
  put-Effect = elim (tick_cases (codes "put") p st) [
    | inl e ↦ inr (rw e (put_at-Effect sha1_hex now p body opts started))
    | inr (e, st', fails, same) ↦
        inl (e, rw fails refl, rw fails (λ q. visible_of_root q st' st same))
  ]

  Effect-failure :
      (r : Outcome PutResult × MockGateway) (e : Thrown)
      → Effect sha1_hex now p body opts started r
      → r.0 ≡ throw e
      → Unchanged started r.1
  Effect-failure (throw e', st') e f h = f
  Effect-failure (ok k, st') e f h = cc

  Effect-Success :
      (r : Outcome PutResult × MockGateway) (k : PutResult)
      → Effect sha1_hex now p body opts started r
      → r.0 ≡ ok k
      → Success sha1_hex now p body opts started k r.1
  Effect-Success (throw e', st') k f h = cc
  Effect-Success (ok k', st') k f h = rw (ok-injective k' k h) at f

  put-Success :
      (k : PutResult) → result.0 ≡ ok k → Success sha1_hex now p body opts started k result.1
  put-Success k h = elim put-Effect [
    | inl (e, fails, _) ↦ absurd (throw-ne-ok e k (sym fails ∙ h))
    | inr f ↦ Effect-Success result k f h
  ]

  -- The file that an upload of the body leaves at the path, one revision later.
  abbrev pub uploaded_file : MockFile
  uploaded_file = record {
    content = concat body.chunks;
    sha1 = sha1_hex (concat body.chunks);
    mtime = get_or opts.mtime now;
    revisions = revisions_of (visible path st) + 1;
  }

  started_lem : (q : Text) → visible q started ≡ visible q st
  started_lem q = visible_of_root q started st refl

  p_lem : visible p started ≡ visible path st
  p_lem = visible-normalize path started ∙ started_lem path

  -- Whatever makes an upload fail, afterwards every path shows what it showed before, the path itself
  -- included: a committed file is never lost, and the draft of the upload is not visible.
  pub put_failure :
      (e : Thrown)
      → (put sha1_hex now path body opts st).0 ≡ throw e
      → (q : Text) → visible q (put sha1_hex now path body opts st).1 ≡ visible q st
  put_failure e fails q = elim put-Effect [
    | inl (_, _, same) ↦ same q
    | inr f ↦ Effect-failure result e f fails q ∙ visible_of_root q started st refl
  ]

  Stored_lem :
      (k : PutResult)
      → Stored sha1_hex now p body opts started k result.1
      → (visible path result.1 ≡ a_file uploaded_file)
        × ((q : Text) → segments q ≢ segments path → visible q result.1 ≡ visible q st)
        × Before opts k (visible path st)
        × (size_agrees opts.size (length (concat body.chunks)) ≡ true)
        × (digest_differs opts.sha1 (sha1_hex (concat body.chunks)) ≡ false)
  Stored_lem k (here, elsewhere, before, fits, right) = (
    sym (visible-normalize path result.1)
        ∙ here
        ∙ ap (λ n. a_file (record (uploaded_file) { revisions = n + 1 })) (ap revisions_of p_lem),
    λ q ne. elsewhere q (λ e. ne (e ∙ segments-normalize path)) ∙ started_lem q,
    rw p_lem at before,
    fits,
    right,
  )

  -- A successful upload stores the whole body with its digest and one revision more, and no other path
  -- shows a change. It is `created` where the path showed nothing, `updated` only where it showed a file
  -- and the upload was not immutable, and the body has the size and the digest that were declared.
  pub put_success :
      (k : PutResult)
      → k ≢ skipped_identical
      → (put sha1_hex now path body opts st).0 ≡ ok k
      → (visible path (put sha1_hex now path body opts st).1 ≡ a_file uploaded_file)
        × ((q : Text)
            → segments q ≢ segments path
            → visible q (put sha1_hex now path body opts st).1 ≡ visible q st)
        × Before opts k (visible path st)
        × (size_agrees opts.size (length (concat body.chunks)) ≡ true)
        × (digest_differs opts.sha1 (sha1_hex (concat body.chunks)) ≡ false)
  put_success created ne h = Stored_lem created (put-Success created h)
  put_success updated ne h = Stored_lem updated (put-Success updated h)
  put_success skipped_identical ne h = absurd (ne refl)

  -- A skipped upload changes nothing that is visible, and the path shows a file whose reported digest is
  -- the declared one, and whose size is the declared one where a size was declared.
  pub put_skipped :
      (put sha1_hex now path body opts st).0 ≡ ok skipped_identical
      → ((q : Text) → visible q (put sha1_hex now path body opts st).1 ≡ visible q st)
        × ((f : MockFile) × (visible path st ≡ a_file f)
            × (opts.sha1 ≡ some (reported_sha1 (normalize path) f st))
            × (size_agrees opts.size (length f.content) ≡ true))
  put_skipped h =
      let (same, (f, there, identical)) = put-Success skipped_identical h in
      let (digest, fits) = identical_lem opts.sha1 _ _ identical in
      (
        (λ q. same q ∙ started_lem q),
        (
          f,
          sym p_lem ∙ there,
          digest ∙ ap some (reported_sha1_started p (codes "put") p f st),
          fits,
        ),
      )

  -- An immutable upload to a path that shows a file leaves every path as it was, whatever the outcome.
  pub put_immutable :
      (f : MockFile)
      → opts.immutable ≡ true
      → visible path st ≡ a_file f
      → (q : Text) → visible q (put sha1_hex now path body opts st).1 ≡ visible q st
  put_immutable f fixed there q = elim (outcome_cases result.0) [
    | inl (e, fails) ↦ put_failure e fails q
    | inr (created, h) ↦
        let (_, _, before, _, _) = put_success created (λ e. cc) h in
        absurd (a_file-ne-nothing f (sym there ∙ before))
    | inr (updated, h) ↦
        let (_, _, (_, _, free), _, _) = put_success updated (λ e. cc) h in cc (free, fixed)
    | inr (skipped_identical, h) ↦ (put_skipped h).0 q
  ]
