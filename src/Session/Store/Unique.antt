-- ===== src/Session/Store/Unique.antt =====
-- The names that `pruneMarkers` of src/service/sessionStore.ts sorts, none of them twice.
use rclone_proton_drive_webd.Base.{
  ℕ, zero, suc, ◌≡◌, sym, ◌⊎◌, inl, inr, Bool, none, List, [], ◌∷◌, arith, take, drop, filter,
  Bool-cases,
}
use rclone_proton_drive_webd.Base.Text.{Text, text_dec}
use rclone_proton_drive_webd.Base.Map.{Map, get, NodupKeys}
use rclone_proton_drive_webd.Session.Disk.{Entry, Machine, keys}
use rclone_proton_drive_webd.Session.Store.{text_leb, insert, sort}
use rclone_proton_drive_webd.Session.Store.Markers.{Listed}

abbrev pub Unique : List Text → Type 0
Unique [] = Unit
Unique (x ∷ xs) = (¬ Listed x xs) × Unique xs

Listed-insert : (q x : Text) (ys : List Text) → Listed q (insert x ys) → (q ≡ x) ⊎ Listed q ys
unfolding insert
Listed-insert q x [] l = l
Listed-insert q x (y ∷ ys) l = elim (Bool-cases (text_leb x y)) [
  | inl e ↦ rw e at l
  | inr e ↦ elim (rw e at l) [
    | inl s ↦ inr (inl s)
    | inr l' ↦ elim (Listed-insert q x ys l') [ inl s ↦ inl s | inr m ↦ inr (inr m) ]
  ]
]

insert-Unique : (x : Text) (ys : List Text) → ¬ Listed x ys → Unique ys → Unique (insert x ys)
unfolding insert
insert-Unique x [] absent u = (absent, tt)
insert-Unique x (y ∷ ys) absent (fresh, u) = elim (Bool-cases (text_leb x y)) [
  | inl e ↦ rw e (absent, (fresh, u))
  | inr e ↦ rw e (
    (λ l. elim (Listed-insert y x ys l) [ inl s ↦ absent (inl (sym s)) | inr m ↦ fresh m ]),
    insert-Unique x ys (λ l. absent (inr l)) u,
  )
]

Listed-sort : (q : Text) (xs : List Text) → Listed q (sort xs) → Listed q xs
unfolding sort
Listed-sort q [] l = l
Listed-sort q (x ∷ xs) l = elim (Listed-insert q x (sort xs) l) [
  | inl s ↦ inl s
  | inr m ↦ inr (Listed-sort q xs m)
]

pub sort-Unique : (xs : List Text) → Unique xs → Unique (sort xs)
unfolding sort
sort-Unique [] u = tt
sort-Unique (x ∷ xs) (fresh, u) =
    insert-Unique x (sort xs) (λ l. fresh (Listed-sort x xs l)) (sort-Unique xs u)

Listed-filter : (p : Text → Bool) (q : Text) (xs : List Text) → Listed q (filter p xs) → Listed q xs
Listed-filter p q [] l = l
Listed-filter p q (x ∷ xs) l = elim (Bool-cases (p x)) [
  | inl e ↦ elim (rw e at l) [ inl s ↦ inl s | inr m ↦ inr (Listed-filter p q xs m) ]
  | inr e ↦ inr (Listed-filter p q xs (rw e at l))
]

pub filter-Unique : (p : Text → Bool) (xs : List Text) → Unique xs → Unique (filter p xs)
filter-Unique p [] u = tt
filter-Unique p (x ∷ xs) (fresh, u) = elim (Bool-cases (p x)) [
  | inl e ↦ rw e ((λ l. fresh (Listed-filter p x xs l)), filter-Unique p xs u)
  | inr e ↦ rw e (filter-Unique p xs u)
]

keys-absent :
    (m : Machine) (q : Text) (files : Map Entry) → get q files ≡ none → ¬ Listed q (keys m files)
unfolding get
keys-absent m q [] h l = l
keys-absent m q ((k, v) ∷ files) h l = elim (text_dec k q) [
  | yes same ↦ ground (arith, h)
  | no differ ↦ elim l [
    | inl s ↦ differ (sym s)
    | inr l' ↦ keys-absent m q files (ground (arith, h)) l'
  ]
]

pub keys-Unique : (m : Machine) (files : Map Entry) → NodupKeys files → Unique (keys m files)
keys-Unique m [] u = tt
keys-Unique m ((k, v) ∷ files) (fresh, u) = (keys-absent m k files fresh, keys-Unique m files u)

Listed-drop : (n : ℕ) (q : Text) (xs : List Text) → Listed q (drop n xs) → Listed q xs
Listed-drop zero q xs l = l
Listed-drop (suc n) q [] l = l
Listed-drop (suc n) q (x ∷ xs) l = inr (Listed-drop n q xs l)

-- No name is both before the cut and behind it.
pub take-drop-apart :
    (n : ℕ) (q : Text) (xs : List Text) → Unique xs → Listed q (take n xs) → ¬ Listed q (drop n xs)
take-drop-apart zero q xs u l k = l
take-drop-apart (suc n) q [] u l k = l
take-drop-apart (suc n) q (x ∷ xs) (fresh, u) (inl s) k = fresh (Listed-drop n x xs (rw s at k))
take-drop-apart (suc n) q (x ∷ xs) (fresh, u) (inr l) k = take-drop-apart n q xs u l k
