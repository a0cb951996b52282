-- ===== src/Mock/Tree/Lookup.antt =====
-- What a path leads to after the children of a directory were changed.
use mathlib.Core.Path.{ap₂}
use mathlib.Core.Option.{some-injective, none-ne-some}
use rclone_proton_drive_webd.Base.{
  ◌≡◌, ◌≢◌, ◌⊎◌, refl, sym, ◌∙◌, ap, inl, inr, Option, none, some, List, [], ◌∷◌, ◌++◌, arith,
  if◌then◌else◌, Option-cases,
}
use rclone_proton_drive_webd.Base.Text.{Text, ◌===◌, text_dec}
use rclone_proton_drive_webd.Mock.Tree.{
  MockNode, file, dir, draft, Children, empty, entry, get_child, set_child, delete_child,
  modify_child, child_of, bind, walk, change_dir, MockFile,
}
use rclone_proton_drive_webd.Gateway.{Date}

pub get_child-set_child :
    (j k : Text) (v : MockNode) (cs : Children)
    → get_child j (set_child k v cs) ≡ (if k === j then some v else get_child j cs)
unfolding get_child set_child
get_child-set_child j k v empty = refl
get_child-set_child j k v (entry i n cs) = ground (arith, get_child-set_child j k v cs)

pub get_child-delete_child :
    (j k : Text) (cs : Children)
    → get_child j (delete_child k cs) ≡ (if k === j then none else get_child j cs)
unfolding get_child delete_child
get_child-delete_child j k empty = ground arith
get_child-delete_child j k (entry i n cs) = ground (arith, get_child-delete_child j k cs)

abbrev map_node : (MockNode → MockNode) → Option MockNode → Option MockNode
map_node f none = none
map_node f (some n) = some (f n)

get_child-modify_child :
    (j k : Text) (f : MockNode → MockNode) (cs : Children)
    → get_child j (modify_child k f cs)
      ≡ (if k === j then map_node f (get_child j cs) else get_child j cs)
unfolding get_child modify_child
get_child-modify_child j k f empty = ground arith
get_child-modify_child j k f (entry i n cs) = ground (arith, get_child-modify_child j k f cs)

-- What a client can see at a place: drafts are invisible.
pub data Seen : Type 0 where
  nothing : Seen
  a_file : MockFile → Seen
  a_dir : Date → Seen

abbrev pub seen : Option MockNode → Seen
seen none = nothing
seen (some (file f)) = a_file f
seen (some (dir m cs)) = a_dir m
seen (some (draft d)) = nothing

-- Nothing lies below the node.
abbrev pub IsLeaf : Option MockNode → Type 0
IsLeaf o = (s : Text) → bind o (child_of s) ≡ none

-- A change of one name.
abbrev pub OnlyAt : Text → (Children → Children) → Type 0
OnlyAt name f = (j : Text) (cs : Children) → name ≢ j → get_child j (f cs) ≡ get_child j cs

pub set_child-OnlyAt : (name : Text) (v : MockNode) → OnlyAt name (set_child name v)
set_child-OnlyAt name v j cs ne = ground (arith, get_child-set_child j name v cs)

pub delete_child-OnlyAt : (name : Text) → OnlyAt name (delete_child name)
delete_child-OnlyAt name j cs ne = ground (arith, get_child-delete_child j name cs)

pub walk-eq-none :
    (o : Option MockNode) (s : Text) (rest : List Text) → IsLeaf o → bind o (walk (s ∷ rest)) ≡ none
unfolding walk
walk-eq-none none s rest leaf = refl
walk-eq-none (some n) s rest leaf = rw (leaf s)

pub dir_of_walk :
    (n : MockNode) (m : Date) (cs : Children) → walk [] n ≡ some (dir m cs) → n ≡ dir m cs
unfolding walk
dir_of_walk n m cs e = some-injective n (dir m cs) e

bind-some : (o : Option MockNode) → bind o (λ n. some n) ≡ o
bind-some none = refl
bind-some (some n) = refl

pub walk-cons :
    (s : Text) (q : List Text) (n : MockNode) → walk (s ∷ q) n ≡ bind (child_of s n) (walk q)
unfolding walk
walk-cons s q n = refl

-- The first step of a walk to a directory.
pub step_of_walk :
    (d : Text) (ds : List Text) (n : MockNode) (m : Date) (cs : Children)
    → walk (d ∷ ds) n ≡ some (dir m cs)
    → (m' : Date) × (cs' : Children) × (c : MockNode) × (n ≡ dir m' cs')
      × (get_child d cs' ≡ some c)
      × (walk ds c ≡ some (dir m cs))
unfolding walk
step_of_walk d ds (file x) m cs e = cc
step_of_walk d ds (draft x) m cs e = cc
step_of_walk d ds (dir m' cs') m cs e = elim (Option-cases (get_child d cs')) [
  | inl none' ↦ absurd (none-ne-some _ (rw none' at e))
  | inr (c, found) ↦ (m', cs', c, refl, found, rw found at e)
]

-- A change below the child `d`, seen from its parent.
child-change_dir :
    (s d : Text) (ds : List Text) (f : Children → Children) (m : Date) (cs : Children)
    (c : MockNode)
    → get_child d cs ≡ some c
    → child_of s (change_dir (d ∷ ds) f (dir m cs))
      ≡ (if d === s then some (change_dir ds f c) else get_child s cs)
unfolding change_dir
child-change_dir s d ds f m cs c found =
    get_child-modify_child s d (change_dir ds f) cs
    ∙ elim (text_dec d s) [ yes same ↦ rw (← same, found) | no ne ↦ ground arith ]

pub walk-change_dir_through :
    (s d : Text) (ds : List Text) (f : Children → Children) (m : Date) (cs : Children)
    (c : MockNode) (q : List Text)
    → get_child d cs ≡ some c
    → walk (s ∷ q) (change_dir (d ∷ ds) f (dir m cs))
      ≡ (if d === s then walk q (change_dir ds f c) else walk (s ∷ q) (dir m cs))
walk-change_dir_through s d ds f m cs c q found =
    rw (walk-cons s q, child-change_dir s d ds f m cs c found)
      (ground (arith, walk-cons s q (dir m cs)))

pub walk_at :
    (name : Text) (ds : List Text) (n : MockNode) (m : Date) (cs : Children)
    → walk ds n ≡ some (dir m cs)
    → walk (ds ++ name ∷ []) n ≡ get_child name cs
walk_at name [] n m cs e = rw (dir_of_walk n m cs e) (unfold walk in bind-some (get_child name cs))
walk_at name (d ∷ ds) n m cs e =
    let (m', cs', c, here, found, later) = step_of_walk d ds n m cs e in
    rw (here, walk-cons d, found) (walk_at name ds c m cs later)

pub walk-change_dir_self :
    (f : Children → Children) (ds : List Text) (n : MockNode) (m : Date) (cs : Children)
    → walk ds n ≡ some (dir m cs)
    → walk ds (change_dir ds f n) ≡ some (dir m (f cs))
walk-change_dir_self f [] n m cs e = rw (dir_of_walk n m cs e) (unfold walk change_dir in refl)
walk-change_dir_self f (d ∷ ds) n m cs e =
    let (m', cs', c, here, found, later) = step_of_walk d ds n m cs e in
    rw here (
      rw (walk-change_dir_through d d ds f m' cs' c ds found)
        (ground (arith, walk-change_dir_self f ds c m cs later)))

-- A change at `name` in the directory at `ds`.
module _ (name : Text) (f : Children → Children) (only : OnlyAt name f) where
  -- At `name` and below it the walk goes on from the changed children.
  pub walk-change_dir_at :
      (ds : List Text) (n : MockNode) (m : Date) (cs : Children) (rest : List Text)
      → walk ds n ≡ some (dir m cs)
      → walk (ds ++ name ∷ rest) (change_dir ds f n) ≡ bind (get_child name (f cs)) (walk rest)
  walk-change_dir_at [] n m cs rest e = rw (dir_of_walk n m cs e) (unfold walk change_dir in refl)
  walk-change_dir_at (d ∷ ds) n m cs rest e =
      let (m', cs', c, here, found, later) = step_of_walk d ds n m cs e in
      rw (here, walk-cons d, child-change_dir d d ds f m' cs' c found)
        (ground (arith, walk-change_dir_at ds c m cs rest later))

  -- Neither at the name nor below it, a client sees what it saw.
  pub seen-change_dir_apart :
      (ds : List Text) (n : MockNode) (m : Date) (cs : Children) (q : List Text)
      → walk ds n ≡ some (dir m cs)
      → ((rest : List Text) → q ≢ ds ++ name ∷ rest)
      → seen (walk q (change_dir ds f n)) ≡ seen (walk q n)
  seen-change_dir_apart [] n m cs [] e apart =
      rw (dir_of_walk n m cs e) (unfold walk change_dir in refl)
  seen-change_dir_apart [] n m cs (s ∷ q) e apart = elim (text_dec name s) [
    | yes same ↦ absurd (apart q (ap (λ x. x ∷ q) (sym same)))
    | no ne ↦ rw (dir_of_walk n m cs e) (unfold walk change_dir in rw (only s cs ne) refl)
  ]
  seen-change_dir_apart (d ∷ ds) n m cs [] e apart =
      let (m', cs', c, here, found, later) = step_of_walk d ds n m cs e in
      rw here (unfold walk change_dir in refl)
  seen-change_dir_apart (d ∷ ds) n m cs (s ∷ q) e apart =
      let (m', cs', c, here, found, later) = step_of_walk d ds n m cs e in
      elim (text_dec d s) [
        | yes same ↦
            let ih =
              seen-change_dir_apart ds c m cs q later
                (λ rest r. apart rest (ap₂ (λ x (y : List Text). x ∷ y) (sym same) r)) in
            rw
              (
                here,
                walk-change_dir_through s d ds f m' cs' c q found,
                ← same,
                walk-cons d q,
                found,
              )
              (ground (arith, ih))
        | no ne ↦ rw (here, walk-change_dir_through s d ds f m' cs' c q found) (ground arith)
      ]

  seen-change_dir_here :
      (m : Date) (cs : Children) (q : List Text)
      → IsLeaf (get_child name cs)
      → IsLeaf (get_child name (f cs))
      → (q ≡ name ∷ []) ⊎ (seen (walk q (dir m (f cs))) ≡ seen (walk q (dir m cs)))
  unfolding walk
  seen-change_dir_here m cs [] old new = inr refl
  seen-change_dir_here m cs (s ∷ rest) old new = elim (text_dec name s) [
    | yes same ↦ at_name rest same
    | no ne ↦ inr (rw (only s cs ne))
  ]
    where
      at_name :
          (rest : List Text)
          → name ≡ s
          → (s ∷ rest ≡ name ∷ [])
            ⊎ (seen (walk (s ∷ rest) (dir m (f cs))) ≡ seen (walk (s ∷ rest) (dir m cs)))
      at_name [] same = inl (ap (λ x. x ∷ []) (sym same))
      at_name (r ∷ rest) same = inr (
          rw (← same) (
            rw (walk-eq-none (get_child name (f cs)) r rest new)
              (rw (walk-eq-none (get_child name cs) r rest old))))

  step-elsewhere :
      (s d : Text) (ds q : List Text) (m : Date) (cs : Children) (c : MockNode)
      → get_child d cs ≡ some c
      → (q ≡ ds ++ name ∷ []) ⊎ (seen (walk q (change_dir ds f c)) ≡ seen (walk q c))
      → (s ∷ q ≡ (d ∷ ds) ++ name ∷ [])
        ⊎ (seen (walk (s ∷ q) (change_dir (d ∷ ds) f (dir m cs))) ≡ seen (walk (s ∷ q) (dir m cs)))
  step-elsewhere s d ds q m cs c found ih = elim (text_dec d s) [
    | yes same ↦ elim ih [
      | inl e ↦ inl (ap₂ (λ x (y : List Text). x ∷ y) (sym same) e)
      | inr e ↦ inr (
          rw (walk-change_dir_through s d ds f m cs c q found, ← same, walk-cons d q, found)
            (ground arith))
    ]
    | no ne ↦ inr (rw (walk-change_dir_through s d ds f m cs c q found) (ground arith))
  ]

  -- Elsewhere a client sees what it saw, if nothing lies below the name before and after.
  pub seen-change_dir :
      (ds : List Text) (n : MockNode) (m : Date) (cs : Children) (q : List Text)
      → walk ds n ≡ some (dir m cs)
      → IsLeaf (get_child name cs)
      → IsLeaf (get_child name (f cs))
      → (q ≡ ds ++ name ∷ []) ⊎ (seen (walk q (change_dir ds f n)) ≡ seen (walk q n))
  seen-change_dir [] n m cs q e old new =
      rw (dir_of_walk n m cs e) (unfold change_dir in seen-change_dir_here m cs q old new)
  seen-change_dir (d ∷ ds) n m cs [] e old new =
      let (m', cs', c, here, found, later) = step_of_walk d ds n m cs e in
      inr (rw here (unfold walk change_dir in refl))
  seen-change_dir (d ∷ ds) n m cs (s ∷ q) e old new =
      let (m', cs', c, here, found, later) = step_of_walk d ds n m cs e in
      rw here (step-elsewhere s d ds q m' cs' c found (seen-change_dir ds c m cs q later old new))
