-- ===== src/Session/Store/Markers.antt =====
-- `pruneMarkers` of `OwnedFileSessionStore` (src/service/sessionStore.ts): which markers go.
use rclone_proton_drive_webd.Base.{
  ℕ, zero, suc, ◌≡◌, refl, ◌⊎◌, inl, inr, Bool, true, false, List, [], ◌∷◌, arith, length, take,
  drop, filter, All, Bool-cases,
}
use rclone_proton_drive_webd.Base.Text.{Text}
use rclone_proton_drive_webd.Session.Store.{text_leb, insert, sort}

module _ (P : Text → Type 0) where
  insert-All : (x : Text) (ys : List Text) → P x → All P ys → All P (insert x ys)
  unfolding insert
  insert-All x [] p h = (p, tt)
  insert-All x (y ∷ ys) p h = ground (arith, insert-All x ys p h.1)

  pub sort-All : (xs : List Text) → All P xs → All P (sort xs)
  unfolding sort
  sort-All [] h = tt
  sort-All (x ∷ xs) h = insert-All x (sort xs) h.0 (sort-All xs h.1)

  pub take-All : (n : ℕ) (xs : List Text) → All P xs → All P (take n xs)
  take-All zero xs h = tt
  take-All (suc n) [] h = tt
  take-All (suc n) (x ∷ xs) h = (h.0, take-All n xs h.1)

  pub drop-All : (n : ℕ) (xs : List Text) → All P xs → All P (drop n xs)
  drop-All zero xs h = h
  drop-All (suc n) [] h = tt
  drop-All (suc n) (x ∷ xs) h = drop-All n xs h.1

pub filter-All : (p : Text → Bool) (xs : List Text) → All (λ x. p x ≡ true) (filter p xs)
filter-All p [] = tt
filter-All p (x ∷ xs) = elim (Bool-cases (p x)) [
  | inl h ↦ rw h (h, filter-All p xs)
  | inr h ↦ rw h (filter-All p xs)
]

length-insert : (x : Text) (ys : List Text) → length (insert x ys) ≡ suc (length ys)
unfolding insert
length-insert x [] = refl
length-insert x (y ∷ ys) = ground (arith, length-insert x ys)

-- The order on names is total and transitive.
text_leb_total : (s t : Text) → text_leb s t ≡ false → text_leb t s ≡ true
unfolding text_leb
text_leb_total [] t h = cc
text_leb_total (x ∷ s) [] h = refl
text_leb_total (x ∷ s) (y ∷ t) h = ground (arith, text_leb_total s t)

text_leb_trans : (s t u : Text) → text_leb s t ≡ true → text_leb t u ≡ true → text_leb s u ≡ true
unfolding text_leb
text_leb_trans [] t u h k = refl
text_leb_trans (x ∷ s) [] u h k = cc
text_leb_trans (x ∷ s) (y ∷ t) [] h k = cc
text_leb_trans (x ∷ s) (y ∷ t) (z ∷ u) h k = ground (arith, text_leb_trans s t u)

text_leb_refl : (s : Text) → text_leb s s ≡ true
unfolding text_leb
text_leb_refl [] = refl
text_leb_refl (x ∷ s) = ground (arith, text_leb_refl s)

abbrev pub IsBelow : Text → List Text → Type 0
IsBelow x ys = All (λ y. text_leb x y ≡ true) ys

abbrev pub IsSorted : List Text → Type 0
IsSorted [] = Unit
IsSorted (x ∷ xs) = IsBelow x xs × IsSorted xs

IsBelow-trans : (x y : Text) (zs : List Text) → text_leb x y ≡ true → IsBelow y zs → IsBelow x zs
IsBelow-trans x y [] h k = tt
IsBelow-trans x y (z ∷ zs) h k = (text_leb_trans x y z h k.0, IsBelow-trans x y zs h k.1)

insert-IsSorted : (x : Text) (ys : List Text) → IsSorted ys → IsSorted (insert x ys)
unfolding insert
insert-IsSorted x [] h = (tt, tt)
insert-IsSorted x (y ∷ ys) (below, sorted) = elim (Bool-cases (text_leb x y)) [
  | inl e ↦ rw e ((e, IsBelow-trans x y ys e below), (below, sorted))
  | inr e ↦
      rw e (
        insert-All (text_leb_below y) x ys (text_leb_total x y e) below,
        insert-IsSorted x ys sorted,
      )
]
  where
    text_leb_below : Text → Text → Type 0
    text_leb_below y z = text_leb y z ≡ true

pub sort-IsSorted : (xs : List Text) → IsSorted (sort xs)
unfolding sort
sort-IsSorted [] = tt
sort-IsSorted (x ∷ xs) = insert-IsSorted x (sort xs) (sort-IsSorted xs)

-- In a sorted list what is taken from the front comes before the rest.
pub take-IsBelow-drop :
    (n : ℕ) (xs : List Text) → IsSorted xs → All (λ x. IsBelow x (drop n xs)) (take n xs)
take-IsBelow-drop zero xs h = tt
take-IsBelow-drop (suc n) [] h = tt
take-IsBelow-drop (suc n) (x ∷ xs) (below, sorted) =
    (drop-All (λ y. text_leb x y ≡ true) n xs below, take-IsBelow-drop n xs sorted)

-- Membership.
abbrev pub Listed : Text → List Text → Type 0
Listed q [] = ⊥
Listed q (x ∷ xs) = (q ≡ x) ⊎ Listed q xs

insert-Listed : (q x : Text) (ys : List Text) → (q ≡ x) ⊎ Listed q ys → Listed q (insert x ys)
unfolding insert
insert-Listed q x [] h = h
insert-Listed q x (y ∷ ys) h = elim (Bool-cases (text_leb x y)) [
  | inl e ↦ rw e h
  | inr e ↦ rw e (elim h [
    | inl s ↦ inr (insert-Listed q x ys (inl s))
    | inr (inl s) ↦ inl s
    | inr (inr l) ↦ inr (insert-Listed q x ys (inr l))
  ])
]

pub sort-Listed : (q : Text) (xs : List Text) → Listed q xs → Listed q (sort xs)
unfolding sort
sort-Listed q [] h = h
sort-Listed q (x ∷ xs) (inl s) = insert-Listed q x (sort xs) (inl s)
sort-Listed q (x ∷ xs) (inr l) = insert-Listed q x (sort xs) (inr (sort-Listed q xs l))

pub filter-Listed :
    (p : Text → Bool) (q : Text) (xs : List Text)
    → p q ≡ true
    → Listed q xs
    → Listed q (filter p xs)
filter-Listed p q [] h l = l
filter-Listed p q (x ∷ xs) h (inl s) = rw (← s, h) (inl refl)
filter-Listed p q (x ∷ xs) h (inr l) = elim (Bool-cases (p x)) [
  | inl e ↦ rw e (inr (filter-Listed p q xs h l))
  | inr e ↦ rw e (filter-Listed p q xs h l)
]

-- What is listed is taken from the front or is in the rest.
pub Listed-take-drop :
    (n : ℕ) (q : Text) (xs : List Text) → Listed q xs → Listed q (take n xs) ⊎ Listed q (drop n xs)
Listed-take-drop zero q xs l = inr l
Listed-take-drop (suc n) q [] l = absurd l
Listed-take-drop (suc n) q (x ∷ xs) (inl s) = inl (inl s)
Listed-take-drop (suc n) q (x ∷ xs) (inr l) = elim (Listed-take-drop n q xs l) [
  | inl t ↦ inl (inr t)
  | inr d ↦ inr d
]
