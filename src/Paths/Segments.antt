-- ===== src/Paths/Segments.antt =====
-- The segments of a path, and what normalising, joining and taking the parent do to them.
use rclone_proton_drive_webd.Base.{
  ℕ, ◌≡◌, ◌≢◌, refl, sym, ◌∙◌, ap, true, false, ◌↔◌, inl, inr, List, [], ◌∷◌, ◌++◌, arith, ◌==◌,
  if◌then◌else◌, All, All-drop_last, Bool-cases, filter, filter-append, drop_last, last_or,
  is_empty, drop_last-append, last_or-append, drop_last-append-last_or,
}
use rclone_proton_drive_webd.Base.Text.{Text}
use rclone_proton_drive_webd.Paths.{
  slash, dot, split, push_front, join_parts, is_kept, segments, normalize, is_root, base_name,
  parent_path, join,
}

abbrev pub NoSlash : Text → Type 0
NoSlash s = All (λ c. c ≢ slash) s

-- A clean segment.
abbrev pub IsSegment : Text → Type 0
IsSegment s = NoSlash s × (s ≢ []) × (s ≢ dot)

split-cons : (s : Text) → (h : Text) × (t : List Text) × (split s ≡ h ∷ t)
unfolding split
split-cons [] = ([], [], refl)
split-cons (c ∷ s) =
    let (h, t, e) = split-cons s in
    elim (Bool-cases (c == slash)) [
      | inl q ↦ ([], h ∷ t, rw (q, e))
      | inr q ↦ (c ∷ h, t, rw (q, e))
    ]

split-NoSlash_parts : (s : Text) → All NoSlash (split s)
unfolding split
split-NoSlash_parts [] = (tt, tt)
split-NoSlash_parts (c ∷ s) =
    let (h, t, e) = split-cons s in
    let parts : All NoSlash (h ∷ t) = rw e at (split-NoSlash_parts s) in rw e (ground arith)

push_front-append :
    (c : ℕ) (h : Text) (t ys : List Text)
    → push_front c ((h ∷ t) ++ ys) ≡ push_front c (h ∷ t) ++ ys
push_front-append c h t ys = refl

pub split-append : (a b : Text) → split (a ++ slash ∷ b) ≡ split a ++ split b
unfolding split
split-append [] b = refl
split-append (c ∷ a) b = let (h, t, e) = split-cons a in rw (split-append a b, e) (ground arith)

split_of_NoSlash : (s : Text) → NoSlash s → split s ≡ s ∷ []
unfolding split
split_of_NoSlash [] h = refl
split_of_NoSlash (c ∷ s) (n, h) = rw (split_of_NoSlash s h) (ground arith)

split-join_parts :
    (x : Text) (xs : List Text) → All NoSlash (x ∷ xs) → split (join_parts (x ∷ xs)) ≡ x ∷ xs
unfolding join_parts
split-join_parts x [] (h, _) = split_of_NoSlash x h
split-join_parts x (y ∷ xs) (h, hs) =
    split-append x (join_parts (y ∷ xs)) ∙ rw (split_of_NoSlash x h, split-join_parts y xs hs)

All-map : (xs : List Text) → All IsSegment xs → All NoSlash xs
All-map [] h = tt
All-map (x ∷ xs) (p, h) = (p.0, All-map xs h)

filter-IsSegment : (xs : List Text) → All NoSlash xs → All IsSegment (filter is_kept xs)
filter-IsSegment [] h = tt
filter-IsSegment ([] ∷ xs) (n, h) = filter-IsSegment xs h
filter-IsSegment ((c ∷ s) ∷ xs) (n, h) = ground (arith, filter-IsSegment xs h)

kept_of : (x : Text) → x ≢ [] → x ≢ dot → is_kept x ≡ true
kept_of [] ne nd = absurd (ne refl)
kept_of (c ∷ x) ne nd = ground arith

filter_of_IsSegment : (xs : List Text) → All IsSegment xs → filter is_kept xs ≡ xs
filter_of_IsSegment [] h = refl
filter_of_IsSegment (x ∷ xs) ((n, ne, nd), h) =
    ground (arith, filter_of_IsSegment xs h, kept_of x ne nd)

-- Every segment is clean.
pub segments-IsSegment : (p : Text) → All IsSegment (segments p)
unfolding segments
segments-IsSegment p = filter-IsSegment (split p) (split-NoSlash_parts p)

join_parts-nil : join_parts [] ≡ []
unfolding join_parts
join_parts-nil = refl

-- A rooted path written from clean segments has these segments.
pub segments-join_parts :
    (xs : List Text) → All IsSegment xs → segments (slash ∷ join_parts xs) ≡ xs
unfolding segments
segments-join_parts [] h = ap segments (ap (λ l. slash ∷ l) join_parts-nil)
segments-join_parts (x ∷ xs) h =
    ap (filter is_kept) (ap (λ l. [] ∷ l) (split-join_parts x xs (All-map (x ∷ xs) h)))
    ∙ filter_of_IsSegment (x ∷ xs) h

pub normalize_lem : (p : Text) → normalize p ≡ slash ∷ join_parts (segments p)
unfolding normalize
normalize_lem p = refl

pub segments-normalize : (p : Text) → segments (normalize p) ≡ segments p
segments-normalize p = rw normalize_lem (segments-join_parts (segments p) (segments-IsSegment p))

-- Two paths have the same normal form exactly when they have the same segments, and a normal form
-- is its own normal form.
pub normalize_iff :
    (p q : Text)
    → ((normalize p ≡ normalize q) ↔ (segments p ≡ segments q))
      × (normalize (normalize p) ≡ normalize p)
normalize_iff p q = (
  (
    λ e. sym (segments-normalize p) ∙ ap segments e ∙ segments-normalize q,
    λ e. rw (normalize_lem p, normalize_lem q, e),
  ),
  rw (normalize_lem (normalize p), segments-normalize p, normalize_lem p),
)

pub segments-append : (a b : Text) → segments (a ++ slash ∷ b) ≡ segments a ++ segments b
unfolding segments
segments-append a b = rw split-append (filter-append is_kept (split a) (split b))

-- Joining two paths puts their segments one behind the other, and the result is normal.
pub segments-join :
    (a b : Text)
    → (segments (join a b) ≡ segments a ++ segments b)
      × (join a b ≡ slash ∷ join_parts (segments a ++ segments b))
unfolding join
segments-join a b = (
  segments-normalize (a ++ slash ∷ b) ∙ segments-append a b,
  normalize_lem (a ++ slash ∷ b) ∙ ap (λ l. slash ∷ join_parts l) (segments-append a b),
)

parent_path_lem : (p : Text) → parent_path p ≡ slash ∷ join_parts (drop_last (segments p))
unfolding parent_path
parent_path_lem p = go (segments p)
  where
    go :
        (l : List Text)
        → (if is_empty l then slash ∷ [] else slash ∷ join_parts (drop_last l))
          ≡ slash ∷ join_parts (drop_last l)
    go [] = refl
    go (x ∷ l) = refl

base_name_lem : (p : Text) → base_name p ≡ last_or [] (segments p)
unfolding base_name
base_name_lem p = refl

is_root_lem : (p : Text) → is_root p ≡ is_empty (segments p)
unfolding is_root
is_root_lem p = refl

pub segments-parent_path : (p : Text) → segments (parent_path p) ≡ drop_last (segments p)
segments-parent_path p = rw parent_path_lem (
    segments-join_parts (drop_last (segments p))
      (All-drop_last IsSegment (segments p) (segments-IsSegment p)))

segments_of_IsSegment : (n : Text) → IsSegment n → segments n ≡ n ∷ []
unfolding segments
segments_of_IsSegment n h = rw (split_of_NoSlash n h.0) (filter_of_IsSegment (n ∷ []) (h, tt))

-- A path joined with a clean segment has that base name, the first path as its parent, and is not
-- the root.
pub join_child :
    (d n : Text)
    → IsSegment n
    → (base_name (join d n) ≡ n)
      × (parent_path (join d n) ≡ normalize d)
      × (is_root (join d n) ≡ false)
join_child d n h =
    let e : segments (join d n) ≡ segments d ++ n ∷ [] =
      (segments-join d n).0 ∙ ap (λ l. segments d ++ l) (segments_of_IsSegment n h) in
    (
      rw (base_name_lem (join d n), e) (last_or-append [] (segments d) n),
      rw (parent_path_lem (join d n), e, normalize_lem d)
          (ap (λ l. slash ∷ join_parts l) (drop_last-append (segments d) n)),
      rw (is_root_lem (join d n), e) (is_empty-append (segments d)),
    )
  where
    is_empty-append : (l : List Text) → is_empty (l ++ n ∷ []) ≡ false
    is_empty-append [] = refl
    is_empty-append (x ∷ l) = refl

-- The segments of a path that is not the root.
pub segments-split :
    (p : Text) → is_root p ≡ false → segments p ≡ segments (parent_path p) ++ base_name p ∷ []
segments-split p h =
    go (segments p) (rw is_root_lem at h) ∙ rw (segments-parent_path p, base_name_lem p) refl
  where
    go : (l : List Text) → is_empty l ≡ false → l ≡ drop_last l ++ last_or [] l ∷ []
    go [] h = cc
    go (x ∷ xs) h = sym (drop_last-append-last_or [] x xs)
