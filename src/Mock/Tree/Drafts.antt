-- ===== src/Mock/Tree/Drafts.antt =====
-- A draft stays where it is while a directory of the tree of src/service/mockGateway.ts changes
-- elsewhere.
use mathlib.Core.Path.{ap₂}
use mathlib.Core.Option.{none-ne-some}
use rclone_proton_drive_webd.Base.{◌≡◌, ◌≢◌, sym, ◌∙◌, ap, some, List, [], ◌∷◌, ◌++◌, arith}
use rclone_proton_drive_webd.Base.Text.{Text, text_dec}
use rclone_proton_drive_webd.Gateway.{Date}
use rclone_proton_drive_webd.Mock.Tree.{
  MockDraft, MockNode, dir, draft, Children, get_child, walk, change_dir, bind,
}
use rclone_proton_drive_webd.Mock.Tree.Lookup.{
  IsLeaf, OnlyAt, walk-eq-none, dir_of_walk, walk-cons, step_of_walk, walk-change_dir_through,
}

dir-ne-draft : (m : Date) (cs : Children) (d : MockDraft) → some (dir m cs) ≢ some (draft d)
dir-ne-draft m cs d h = cc

module _ (name : Text) (f : Children → Children) (only : OnlyAt name f) (x : MockDraft) where
  draft_here :
      (m : Date) (cs : Children) (q : List Text)
      → IsLeaf (get_child name cs)
      → q ≢ name ∷ []
      → walk q (dir m cs) ≡ some (draft x)
      → walk q (dir m (f cs)) ≡ some (draft x)
  unfolding walk
  draft_here m cs [] leaf ne h = absurd (dir-ne-draft m cs x h)
  draft_here m cs (s ∷ rest) leaf ne h = elim (text_dec name s) [
    | yes same ↦ absurd (below rest same ne h)
    | no differs ↦ rw (only s cs differs) h
  ]
    where
      below :
          (rest : List Text)
          → name ≡ s
          → s ∷ rest ≢ name ∷ []
          → bind (get_child s cs) (walk rest) ≡ some (draft x)
          → ⊥
      below [] same ne h = ne (ap (λ y. y ∷ []) (sym same))
      below (r ∷ rest) same ne h = none-ne-some (draft x) (
          sym (walk-eq-none (get_child name cs) r rest leaf)
          ∙ ap (λ (k : Text). bind (get_child k cs) (walk (r ∷ rest))) same
          ∙ h)

  -- A draft elsewhere stays, if nothing lies below the name.
  pub draft-change_dir :
      (ds : List Text) (n : MockNode) (m : Date) (cs : Children) (q : List Text)
      → walk ds n ≡ some (dir m cs)
      → IsLeaf (get_child name cs)
      → q ≢ ds ++ name ∷ []
      → walk q n ≡ some (draft x)
      → walk q (change_dir ds f n) ≡ some (draft x)
  draft-change_dir [] n m cs q e leaf ne h =
      rw (dir_of_walk n m cs e)
        (unfold change_dir in draft_here m cs q leaf ne (rw (dir_of_walk n m cs e) at h))
  draft-change_dir (d ∷ ds) n m cs [] e leaf ne h =
      let (m', cs', c, here, found, later) = step_of_walk d ds n m cs e in
      absurd (dir-ne-draft m' cs' x (unfold walk in rw here at h))
  draft-change_dir (d ∷ ds) n m cs (s ∷ q) e leaf ne h =
      let (m', cs', c, here, found, later) = step_of_walk d ds n m cs e in
      let h' = rw here at h in
      elim (text_dec d s) [
        | yes same ↦
            let ih =
              draft-change_dir ds c m cs q later leaf
                (λ r. ne (ap₂ (λ y (l : List Text). y ∷ l) (sym same) r)) in
            let hc : walk q c ≡ some (draft x) =
              rw (← same, walk-cons d q (dir m' cs'), found) at h' in
            rw (here, walk-change_dir_through s d ds f m' cs' c q found)
              (ground (arith, ih hc, same))
        | no differs ↦
            rw (here, walk-change_dir_through s d ds f m' cs' c q found) (ground (arith, h'))
      ]
