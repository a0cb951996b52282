-- ===== src/Mock/Visible.antt =====
-- What a client of `MockGateway` in src/service/mockGateway.ts can see at a path, and what a change of
-- one name in one directory does to it.
use rclone_proton_drive_webd.Base.{
  ◌≡◌, ◌≢◌, ◌⊎◌, refl, sym, ◌∙◌, ap, Bool, true, false, inl, inr, Option, none, some, if◌then◌else◌,
  List, [], ◌∷◌, ◌++◌, append_assoc,
}
use rclone_proton_drive_webd.Base.Text.{Text}
use rclone_proton_drive_webd.Gateway.{Date, Outcome, ok, throw, Thrown}
use rclone_proton_drive_webd.Paths.{segments, base_name, parent_path, is_root}
use rclone_proton_drive_webd.Paths.Segments.{segments-split}
use rclone_proton_drive_webd.Mock.Tree.{MockNode, file, dir, draft, Children, get_child, walk}
use rclone_proton_drive_webd.Mock.Tree.Lookup.{
  Seen, nothing, seen, IsLeaf, OnlyAt, walk-change_dir_self, walk_at, seen-change_dir,
  seen-change_dir_apart, walk-change_dir_at,
}
use rclone_proton_drive_webd.Mock.State.{
  MockGateway, lookup, hide_draft, dir_of, directory_or_throw, tick, logged, fails_now,
  one_failure_less, transient_failure,
}
use rclone_proton_drive_webd.Mock.Put.{in_dir}

-- The file, directory or nothing that `lookup` finds without drafts.
unfoldable pub visible : Text → MockGateway → Seen
unfolding lookup
visible q st = seen (lookup q false st)

pub visible_lem : (q : Text) (st : MockGateway) → visible q st ≡ seen (walk (segments q) st.root)
unfolding visible
visible_lem q st = go (walk (segments q) st.root)
  where
    go : (o : Option MockNode) → seen (hide_draft false o) ≡ seen o
    go none = refl
    go (some (file f)) = refl
    go (some (dir m cs)) = refl
    go (some (draft d)) = refl

-- Every path shows what it showed.
abbrev pub Unchanged : MockGateway → MockGateway → Type 0
Unchanged st st' = (q : Text) → visible q st' ≡ visible q st

-- The directory that holds the path.
abbrev pub Holds : Text → MockGateway → Date → Children → Type 0
Holds p st m cs = walk (segments (parent_path p)) st.root ≡ some (dir m cs)

pub dir_of-Holds :
    (p : Text) (st : MockGateway) (m : Date) (cs : Children)
    → dir_of p st ≡ ok (m, cs)
    → Holds p st m cs
unfolding dir_of lookup
dir_of-Holds p st m cs e = go (walk (segments (parent_path p)) st.root) e
  where
    go :
        (o : Option MockNode)
        → directory_or_throw p (hide_draft false o) ≡ ok (m, cs)
        → o ≡ some (dir m cs)
    go none e = cc
    go (some (file f)) e = cc
    go (some (dir m' cs')) e = cc
    go (some (draft d)) e = cc

module _ (p : Text) (st : MockGateway) (m : Date) (cs : Children) (h : Holds p st m cs)
    (below : is_root p ≡ false) where
  -- What a directory has at the base name is visible at the path.
  pub visible_at : visible p st ≡ seen (get_child (base_name p) cs)
  visible_at =
      rw (visible_lem p st, segments-split p below)
        (ap seen (walk_at (base_name p) (segments (parent_path p)) st.root m cs h))

  module _ (f : Children → Children) (only : OnlyAt (base_name p) f) where
    pub in_dir-Holds : Holds p (in_dir p f st) m (f cs)
    in_dir-Holds = walk-change_dir_self f (segments (parent_path p)) st.root m cs h

    pub visible-in_dir_elsewhere :
        IsLeaf (get_child (base_name p) cs)
        → IsLeaf (get_child (base_name p) (f cs))
        → (q : Text) → segments q ≢ segments p
        → visible q (in_dir p f st) ≡ visible q st
    visible-in_dir_elsewhere old new q ne =
        elim (seen-change_dir (base_name p) f only (segments (parent_path p)) st.root m cs
          (segments q) h old new) [
            | inl e ↦ absurd (ne (e ∙ sym (segments-split p below)))
            | inr e ↦ visible_lem q (in_dir p f st) ∙ e ∙ sym (visible_lem q st)
          ]

    pub visible-in_dir_here : visible p (in_dir p f st) ≡ seen (get_child (base_name p) (f cs))
    visible-in_dir_here =
        visible_lem p (in_dir p f st)
        ∙ rw (segments-split p below) (
            ap seen (
              walk_at (base_name p) (segments (parent_path p)) (in_dir p f st).root m (f cs)
                in_dir-Holds))

    -- The path and what lies below it aside, every path shows what it showed.
    pub visible-in_dir_apart :
        (q : Text)
        → ((rest : List Text) → segments q ≢ segments p ++ rest)
        → visible q (in_dir p f st) ≡ visible q st
    visible-in_dir_apart q apart =
        visible_lem q (in_dir p f st)
        ∙ seen-change_dir_apart (base_name p) f only (segments (parent_path p)) st.root m cs
            (segments q) h (λ rest e. apart rest (e ∙ below_lem rest))
        ∙ sym (visible_lem q st)
      where
        below_lem :
            (rest : List Text) → segments (parent_path p) ++ base_name p ∷ rest ≡ segments p ++ rest
        below_lem rest =
            sym (append_assoc (segments (parent_path p)) (base_name p ∷ []) rest)
            ∙ ap (λ l. l ++ rest) (sym (segments-split p below))

    -- Below a name that has gone nothing is left.
    pub visible-in_dir_gone :
        get_child (base_name p) (f cs) ≡ none
        → (q : Text) (rest : List Text) → segments q ≡ segments p ++ rest
        → visible q (in_dir p f st) ≡ nothing
    visible-in_dir_gone gone q rest e =
        visible_lem q (in_dir p f st)
        ∙ rw
            (
              e,
              segments-split p below,
              append_assoc (segments (parent_path p)) (base_name p ∷ []) rest,
              walk-change_dir_at (base_name p) f only (segments (parent_path p)) st.root m cs rest
                  h,
              gone,
            )
            refl

    -- A change that shows the same at the name shows the same everywhere.
    pub in_dir-Unchanged :
        IsLeaf (get_child (base_name p) cs)
        → IsLeaf (get_child (base_name p) (f cs))
        → seen (get_child (base_name p) (f cs)) ≡ seen (get_child (base_name p) cs)
        → Unchanged st (in_dir p f st)
    in_dir-Unchanged old new same q =
        elim (seen-change_dir (base_name p) f only (segments (parent_path p)) st.root m cs
          (segments q) h old new) [
            | inl e ↦
                let at_p : segments q ≡ segments p = e ∙ sym (segments-split p below) in
                rw
                  (
                    visible_lem q (in_dir p f st),
                    visible_lem q st,
                    at_p,
                    ← visible_lem p (in_dir p f st),
                    ← visible_lem p st,
                  )
                  (visible-in_dir_here ∙ same ∙ sym visible_at)
            | inr e ↦ visible_lem q (in_dir p f st) ∙ e ∙ sym (visible_lem q st)
          ]

-- The root alone decides what is visible.
pub visible_of_root :
    (q : Text) (st st' : MockGateway) → st.root ≡ st'.root → visible q st ≡ visible q st'
visible_of_root q st st' e = visible_lem q st ∙ rw e (sym (visible_lem q st'))

-- `tick` lets a call through with an entry in the log, or throws; neither changes the tree.
pub tick_cases :
    (op p : Text) (st : MockGateway)
    → (tick op p st ≡ (ok tt, logged op p st))
      ⊎ ((e : Thrown) × (st' : MockGateway) × (tick op p st ≡ (throw e, st'))
          × (st'.root ≡ st.root))
unfolding tick
tick_cases op p st = go (fails_now op (logged op p st))
  where
    go :
        (b : Bool)
        → let r : Outcome (Unit {0}) × MockGateway =
            if b
            then (throw transient_failure, one_failure_less (logged op p st))
            else (ok tt, logged op p st) in
          (r ≡ (ok tt, logged op p st))
          ⊎ ((e : Thrown) × (st' : MockGateway) × (r ≡ (throw e, st')) × (st'.root ≡ st.root))
    go true = inr (transient_failure, one_failure_less (logged op p st), refl, refl)
    go false = inl refl
