-- ===== src/Mock/Ops/Effects.antt =====
-- What `mkcol`, `remove` and `copy` of src/service/mockGateway.ts do to what clients see, for every
-- outcome.
use rclone_proton_drive_webd.Base.{
  ◌≡◌, ◌≢◌, refl, sym, ◌∙◌, ap, true, false, inl, inr, Option, none, some, List, ◌++◌, Bool-cases,
}
use rclone_proton_drive_webd.Base.Text.{Text, codes}
use rclone_proton_drive_webd.Gateway.{Date, Outcome, ok, throw}
use rclone_proton_drive_webd.Paths.{segments, normalize, base_name, is_root}
use rclone_proton_drive_webd.Paths.Segments.{segments-normalize}
use rclone_proton_drive_webd.Mock.Tree.{MockNode, file, dir, draft, Children, empty, get_child}
use rclone_proton_drive_webd.Mock.Tree.Lookup.{
  nothing, a_dir, seen, set_child-OnlyAt, delete_child-OnlyAt,
}
use rclone_proton_drive_webd.Mock.State.{MockGateway, logged, dir_of}
use rclone_proton_drive_webd.Mock.Visible.{
  visible, visible_of_root, visible_at, Unchanged, Holds, dir_of-Holds, visible-in_dir_here,
  visible-in_dir_elsewhere, visible-in_dir_apart, visible-in_dir_gone, tick_cases,
}
use rclone_proton_drive_webd.Mock.Put.Steps.{get_child-set_child_here, get_child-delete_child_here}
use rclone_proton_drive_webd.Mock.Put.Safety.{visible-normalize}
use rclone_proton_drive_webd.Mock.Ops.{
  has_child, mkcol_in, mkcol_at, mkcol, remove_node, remove_in, remove_at, remove,
}

pub has_child-none :
    (name : Text) (cs : Children) → has_child name cs ≡ false → get_child name cs ≡ none
has_child-none name cs h = go (get_child name cs) h
  where
    go : (o : Option MockNode) → (elim o [ none ↦ false | some n ↦ true ]) ≡ false → o ≡ none
    go none h = refl
    go (some n) h = cc

-- A new empty directory, and nothing else; nothing at all if it fails.
abbrev pub Makes : Date → Text → MockGateway → Outcome (Unit {0}) × MockGateway → Type 0
Makes now p st (throw e, st') = Unchanged st st'
Makes now p st (ok _, st') =
    (visible p st ≡ nothing)
    × (visible p st' ≡ a_dir now)
    × ((q : Text) → segments q ≢ segments p → visible q st' ≡ visible q st)

module _ (now : Date) (p : Text) (st : MockGateway) where
  mkcol_in-Makes :
      (d : Outcome (Date × Children))
      → dir_of p st ≡ d
      → is_root p ≡ false
      → Makes now p st (mkcol_in now p d st)
  mkcol_in-Makes (throw e) found below = λ q. refl
  mkcol_in-Makes (ok (m, cs)) found below = elim (Bool-cases (has_child (base_name p) cs)) [
    | inl there ↦ rw there (λ q. refl)
    | inr free ↦
        let h = dir_of-Holds p st m cs found in
        let gone = has_child-none (base_name p) cs free in
        let here = get_child-set_child_here (base_name p) (dir now empty) cs in
        let only = set_child-OnlyAt (base_name p) (dir now empty) in
        rw free (
          visible_at p st m cs h below ∙ ap seen gone,
          visible-in_dir_here p st m cs h below _ only ∙ ap seen here,
          visible-in_dir_elsewhere p st m cs h below _ only (λ s. rw gone refl)
              (λ s. rw here (unfold get_child in refl)),
        )
  ]

  mkcol_at-Makes : Makes now p st (mkcol_at now p st)
  unfolding mkcol_at
  mkcol_at-Makes = elim (Bool-cases (is_root p)) [
    | inl top ↦ rw top (λ q. refl)
    | inr below ↦ rw below (mkcol_in-Makes (dir_of p st) refl below)
  ]

-- The same for a path as it was given, behind `tick`.
Makes-normalize :
    (now : Date) (op path : Text) (st : MockGateway) (r : Outcome (Unit {0}) × MockGateway)
    → Makes now (normalize path) (logged op (normalize path) st) r
    → Makes now path st r
Makes-normalize now op path st (throw e, st') h = λ q. h q ∙ visible_of_root q _ st refl
Makes-normalize now op path st (ok _, st') (before, after, elsewhere) = (
  sym (visible-normalize path st) ∙ visible_of_root (normalize path) st _ refl ∙ before,
  sym (visible-normalize path st') ∙ after,
  λ q ne. elsewhere q (λ e. ne (e ∙ segments-normalize path)) ∙ visible_of_root q _ st refl,
)

-- `mkcol` either fails, and every path shows what it showed, or makes an empty directory where
-- nothing was visible, and no other path shows a change.
pub mkcol-Makes :
    (now : Date) (path : Text) (st : MockGateway) → Makes now path st (mkcol now path st)
unfolding mkcol
mkcol-Makes now path st = elim (tick_cases (codes "mkcol") (normalize path) st) [
  | inl e ↦ rw e (
      Makes-normalize now (codes "mkcol") path st _
        (mkcol_at-Makes now (normalize path) (logged (codes "mkcol") (normalize path) st)))
  | inr (e, st', fails, same) ↦ rw fails (λ q. visible_of_root q st' st same)
]

-- The path and all below it gone, and nothing else; nothing at all if it fails.
abbrev pub Removes : Text → MockGateway → Outcome (Unit {0}) × MockGateway → Type 0
Removes p st (throw e, st') = Unchanged st st'
Removes p st (ok _, st') =
    (visible p st ≢ nothing)
    × ((q : Text) (rest : List Text) → segments q ≡ segments p ++ rest → visible q st' ≡ nothing)
    × ((q : Text)
        → ((rest : List Text) → segments q ≢ segments p ++ rest)
        → visible q st' ≡ visible q st)

module _ (p : Text) (st : MockGateway) where
  remove_node-Removes :
      (o : Option MockNode) (m : Date) (cs : Children)
      → Holds p st m cs
      → is_root p ≡ false
      → get_child (base_name p) cs ≡ o
      → Removes p st (remove_node p o st)
  remove_node-Removes none m cs h below found = λ q. refl
  remove_node-Removes (some (draft d)) m cs h below found = λ q. refl
  remove_node-Removes (some (file f)) m cs h below found = (
    (λ e. cc (sym (visible_at p st m cs h below) ∙ e, found)),
    visible-in_dir_gone p st m cs h below _ (delete_child-OnlyAt (base_name p))
        (get_child-delete_child_here (base_name p) cs),
    visible-in_dir_apart p st m cs h below _ (delete_child-OnlyAt (base_name p)),
  )
  remove_node-Removes (some (dir m' cs')) m cs h below found = (
    (λ e. cc (sym (visible_at p st m cs h below) ∙ e, found)),
    visible-in_dir_gone p st m cs h below _ (delete_child-OnlyAt (base_name p))
        (get_child-delete_child_here (base_name p) cs),
    visible-in_dir_apart p st m cs h below _ (delete_child-OnlyAt (base_name p)),
  )

  remove_in-Removes :
      (d : Outcome (Date × Children))
      → dir_of p st ≡ d
      → is_root p ≡ false
      → Removes p st (remove_in p d st)
  remove_in-Removes (throw e) found below = λ q. refl
  remove_in-Removes (ok (m, cs)) found below =
      remove_node-Removes _ m cs (dir_of-Holds p st m cs found) below refl

  remove_at-Removes : Removes p st (remove_at p st)
  unfolding remove_at
  remove_at-Removes = elim (Bool-cases (is_root p)) [
    | inl top ↦ rw top (λ q. refl)
    | inr below ↦ rw below (remove_in-Removes (dir_of p st) refl below)
  ]

Removes-normalize :
    (op path : Text) (st : MockGateway) (r : Outcome (Unit {0}) × MockGateway)
    → Removes (normalize path) (logged op (normalize path) st) r
    → Removes path st r
Removes-normalize op path st (throw e, st') h = λ q. h q ∙ visible_of_root q _ st refl
Removes-normalize op path st (ok _, st') (before, gone, elsewhere) = (
  (λ e. before (visible-normalize path _ ∙ visible_of_root path _ st refl ∙ e)),
  (λ q rest e. gone q rest (e ∙ ap (λ l. l ++ rest) (sym (segments-normalize path)))),
  λ q apart.
      elsewhere q (λ rest e. apart rest (e ∙ ap (λ l. l ++ rest) (segments-normalize path)))
      ∙ visible_of_root q _ st refl,
)

-- `remove` either fails, and every path shows what it showed, or the path showed a file or a
-- directory, and then neither it nor any path below it shows anything and no other path a change. It
-- never succeeds on a draft.
pub remove-Removes : (path : Text) (st : MockGateway) → Removes path st (remove path st)
unfolding remove
remove-Removes path st = elim (tick_cases (codes "remove") (normalize path) st) [
  | inl e ↦ rw e (
      Removes-normalize (codes "remove") path st _
        (remove_at-Removes (normalize path) (logged (codes "remove") (normalize path) st)))
  | inr (e, st', fails, same) ↦ rw fails (λ q. visible_of_root q st' st same)
]
