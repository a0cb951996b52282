-- ===== src/Mock/Reading/Whole.antt =====
-- What a reader gets from `MockGateway.read`.
use rclone_proton_drive_webd.Base.{
  false, ℕ, zero, suc, ◌+◌, ◌-◌, ◌<◌, ◌≤◌, ◌≡◌, refl, sym, ◌∙◌, ap, inl, inr, Option, none, some,
  List, [], ◌∷◌, ◌++◌, arith, ltb, leb, length, take, drop, min, Bool-cases, length-take,
  length-drop,
}
use rclone_proton_drive_webd.Gateway.{Bytes, concat}
use rclone_proton_drive_webd.Mock.Reading.{subarray, slice_of, pull_chunks, limit_of, stream_of}

take-nil {ℓ} : {A : Type ℓ} (n : ℕ) → take {A = A} n [] ≡ []
take-nil zero = refl
take-nil (suc n) = refl

drop-nil {ℓ} : {A : Type ℓ} (n : ℕ) → drop {A = A} n [] ≡ []
drop-nil zero = refl
drop-nil (suc n) = refl

subarray-nil : (a b : ℕ) → subarray [] a b ≡ []
subarray-nil a b = ap (drop a) (take-nil b) ∙ drop-nil a

subarray_empty : (bytes : Bytes) (a b : ℕ) → b ≤ a → subarray bytes a b ≡ []
subarray_empty [] a b h = subarray-nil a b
subarray_empty (x ∷ bytes) a zero h = drop-nil a
subarray_empty (x ∷ bytes) zero (suc b) h = elim h [ ]
subarray_empty (x ∷ bytes) (suc a) (suc b) h = subarray_empty bytes a b (omega arith)

subarray_split :
    (bytes : Bytes) (a b c : ℕ)
    → a ≤ b
    → b ≤ c
    → subarray bytes a b ++ subarray bytes b c ≡ subarray bytes a c
subarray_split [] a b c h k = rw (subarray-nil a b, subarray-nil b c, subarray-nil a c)
subarray_split (x ∷ bytes) zero zero c h k = refl
subarray_split (x ∷ bytes) zero (suc b) zero h k = elim k [ ]
subarray_split (x ∷ bytes) zero (suc b) (suc c) h k =
    ap (λ l. x ∷ l) (subarray_split bytes zero b c (omega arith) (omega arith))
subarray_split (x ∷ bytes) (suc a) zero c h k = elim h [ ]
subarray_split (x ∷ bytes) (suc a) (suc b) zero h k = elim k [ ]
subarray_split (x ∷ bytes) (suc a) (suc b) (suc c) h k =
    subarray_split bytes a b c (omega arith) (omega arith)

length-subarray : (bytes : Bytes) (a b : ℕ) → b ≤ length bytes → length (subarray bytes a b) ≡ b - a
length-subarray bytes a b h = omega (arith, length-drop a (take b bytes), length-take b bytes)

concat-pull_chunks :
    (fuel : ℕ) (bytes : Bytes) (offset limit : ℕ)
    → limit < fuel + offset
    → limit ≤ length bytes
    → concat (pull_chunks fuel bytes offset limit) ≡ subarray bytes offset limit
unfolding pull_chunks
concat-pull_chunks zero bytes offset limit f h =
    sym (subarray_empty bytes offset limit (omega arith))
concat-pull_chunks (suc fuel) bytes offset limit f h = elim (Bool-cases (leb limit offset)) [
  | inl done ↦ rw done (sym (subarray_empty bytes offset limit (ground arith)))
  | inr more ↦
      let inside : offset < limit = ground arith in
      let stop : ℕ = min (offset + 65536) limit in
      let next : offset + length (subarray bytes offset stop) ≡ stop =
        omega (arith, length-subarray bytes offset stop (omega arith)) in
      rw more (
        ap (λ k. subarray bytes offset stop ++ concat (pull_chunks fuel bytes k limit)) next
        ∙ ap (λ l. subarray bytes offset stop ++ l)
            (concat-pull_chunks fuel bytes stop limit (omega arith) h)
        ∙ subarray_split bytes offset stop limit (omega arith) (omega arith))
]

subarray_all : (bytes : Bytes) → subarray bytes 0 (length bytes) ≡ bytes
subarray_all [] = refl
subarray_all (x ∷ bytes) = ap (λ l. x ∷ l) (subarray_all bytes)

limit_of-le : (drop_at : Option ℕ) (n : ℕ) → limit_of drop_at n ≤ n
limit_of-le none n = omega arith
limit_of-le (some d) n = ground arith

-- What the chunks of a stream hold: the slice up to the limit.
pub concat-stream_of :
    (slice : Bytes) (drop_at : Option ℕ)
    → concat (stream_of slice drop_at).chunks ≡ take (limit_of drop_at (length slice)) slice
unfolding stream_of
concat-stream_of slice drop_at =
    concat-pull_chunks (suc (limit_of drop_at (length slice))) slice 0
      (limit_of drop_at (length slice)) (omega arith) (limit_of-le drop_at (length slice))

broken_lem :
    (slice : Bytes) (drop_at : Option ℕ)
    → (stream_of slice drop_at).broken ≡ ltb (limit_of drop_at (length slice)) (length slice)
unfolding stream_of
broken_lem slice drop_at = refl

drop-take {ℓ} : {A : Type ℓ} (s n : ℕ) (xs : List A) → drop s (take n xs) ≡ take (n - s) (drop s xs)
drop-take zero n xs = ap (λ (k : ℕ). take k xs) (omega arith)
drop-take (suc s) zero xs =
    ap (λ (k : ℕ). take k (drop (suc s) xs)) (let e : 0 ≡ 0 - suc s = omega arith in e)
drop-take (suc s) (suc n) [] = sym (take-nil (suc n - suc s))
drop-take (suc s) (suc n) (x ∷ xs) =
    drop-take s n xs
    ∙ ap (λ (k : ℕ). take k (drop s xs)) (let e : n - s ≡ suc n - suc s = omega arith in e)

-- A range from `s` to `e` that the file has is read as the e - s + 1 bytes from position `s` on.
pub slice_of_range :
    (content : Bytes) (s e : ℕ)
    → s ≤ e
    → e < length content
    → (length (slice_of content (some (s, e))) ≡ e - s + 1)
      × (slice_of content (some (s, e)) ≡ take (e - s + 1) (drop s content))
unfolding slice_of
slice_of_range content s e h k =
    let stop : min (e + 1) (length content) ≡ e + 1 = omega arith in
    let count : e + 1 - s ≡ e - s + 1 = omega arith in
    rw stop (
      length-subarray content s (e + 1) (omega arith) ∙ count,
      drop-take s (e + 1) content ∙ ap (λ (m : ℕ). take m (drop s content)) count,
    )

-- Without a fault the stream is the whole slice.
pub stream_of_whole :
    (slice : Bytes)
    → (concat (stream_of slice none).chunks ≡ slice) × ((stream_of slice none).broken ≡ false)
stream_of_whole slice =
    (concat-stream_of slice none ∙ subarray_all slice, broken_lem slice none ∙ ground arith)

pub slice_of_all : (content : Bytes) → slice_of content none ≡ content
unfolding slice_of
slice_of_all content = subarray_all content
