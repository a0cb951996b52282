-- ===== src/Mock/Ops/Copying.antt =====
-- What `copy` of src/service/mockGateway.ts does to what clients see, for every outcome.
use rclone_proton_drive_webd.Base.{
  ◌≡◌, ◌≢◌, refl, sym, ◌∙◌, ap, false, inl, inr, Option, none, some, Bool-cases,
}
use rclone_proton_drive_webd.Base.Text.{Text, codes}
use rclone_proton_drive_webd.Gateway.{Date, Outcome, ok, throw}
use rclone_proton_drive_webd.Paths.{segments, normalize, base_name, is_root}
use rclone_proton_drive_webd.Paths.Segments.{segments-normalize}
use rclone_proton_drive_webd.Mock.Tree.{MockFile, MockNode, file, dir, draft, Children}
use rclone_proton_drive_webd.Mock.Tree.Lookup.{nothing, a_file, seen, set_child-OnlyAt}
use rclone_proton_drive_webd.Mock.State.{MockGateway, logged, lookup, dir_of}
use rclone_proton_drive_webd.Mock.Visible.{
  visible, visible_of_root, visible_at, Unchanged, dir_of-Holds, visible-in_dir_here,
  visible-in_dir_elsewhere, tick_cases,
}
use rclone_proton_drive_webd.Mock.Put.Steps.{get_child-set_child_here}
use rclone_proton_drive_webd.Mock.Put.Safety.{visible-normalize}
use rclone_proton_drive_webd.Mock.Ops.{has_child, copy_to, copy_node, copy_at, copy, arrow}
use rclone_proton_drive_webd.Mock.Ops.Effects.{has_child-none}

-- The file of `s` also at `d`, where nothing was; nothing at all if it fails.
abbrev pub Copies : Text → Text → MockGateway → Outcome (Unit {0}) × MockGateway → Type 0
Copies s d st (throw e, st') = Unchanged st st'
Copies s d st (ok _, st') =
    (visible d st ≡ nothing)
    × ((f : MockFile) × (visible s st ≡ a_file f) × (visible d st' ≡ a_file f))
    × ((q : Text) → segments q ≢ segments d → visible q st' ≡ visible q st)

module _ (s d : Text) (st : MockGateway) (below : is_root d ≡ false) where
  copy_to-Copies :
      (f : MockFile) (o : Outcome (Date × Children))
      → visible s st ≡ a_file f
      → dir_of d st ≡ o
      → Copies s d st (copy_to d (file f) o st)
  copy_to-Copies f (throw e) source found = λ q. refl
  copy_to-Copies f (ok (m, cs)) source found = elim (Bool-cases (has_child (base_name d) cs)) [
    | inl there ↦ rw there (λ q. refl)
    | inr free ↦
        let h = dir_of-Holds d st m cs found in
        let gone = has_child-none (base_name d) cs free in
        let here = get_child-set_child_here (base_name d) (file f) cs in
        let only = set_child-OnlyAt (base_name d) (file f) in
        rw free (
          visible_at d st m cs h below ∙ ap seen gone,
          (f, source, visible-in_dir_here d st m cs h below _ only ∙ ap seen here),
          visible-in_dir_elsewhere d st m cs h below _ only (λ x. rw gone refl) (λ x. rw here refl),
        )
  ]

  copy_node-Copies :
      (o : Option MockNode) → visible s st ≡ seen o → Copies s d st (copy_node d o st)
  copy_node-Copies none source = λ q. refl
  copy_node-Copies (some (draft x)) source = λ q. refl
  copy_node-Copies (some (dir m cs)) source = λ q. refl
  copy_node-Copies (some (file f)) source = copy_to-Copies f (dir_of d st) source refl

  copy_at-Copies : Copies s d st (copy_at s d st)
  unfolding copy_at visible
  copy_at-Copies = copy_node-Copies (lookup s false st) refl

Copies-normalize :
    (op p src dst : Text) (st : MockGateway) (r : Outcome (Unit {0}) × MockGateway)
    → Copies (normalize src) (normalize dst) (logged op p st) r
    → Copies src dst st r
Copies-normalize op p src dst st (throw e, st') h = λ q. h q ∙ visible_of_root q _ st refl
Copies-normalize op p src dst st (ok _, st') (free, (f, source, copied), elsewhere) = (
  sym (visible-normalize dst st) ∙ visible_of_root (normalize dst) st _ refl ∙ free,
  (
    f,
    sym (visible-normalize src st) ∙ visible_of_root (normalize src) st _ refl ∙ source,
    sym (visible-normalize dst st') ∙ copied,
  ),
  λ q ne. elsewhere q (λ e. ne (e ∙ segments-normalize dst)) ∙ visible_of_root q _ st refl,
)

-- `copy` to a path that is not the root either fails, and every path shows what it showed, or the
-- destination showed nothing and now shows the file of the source, and no other path a change.
pub copy-Copies :
    (src dst : Text) (st : MockGateway)
    → is_root (normalize dst) ≡ false
    → Copies src dst st (copy src dst st)
unfolding copy
copy-Copies src dst st below =
    elim (tick_cases (codes "copy") (arrow (normalize src) (normalize dst)) st) [
      | inl e ↦ rw e (
          Copies-normalize (codes "copy") (arrow (normalize src) (normalize dst)) src dst st _
            (copy_at-Copies (normalize src) (normalize dst) _ below))
      | inr (e, st', fails, same) ↦ rw fails (λ q. visible_of_root q st' st same)
    ]
