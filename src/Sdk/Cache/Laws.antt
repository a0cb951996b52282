-- ===== src/Sdk/Cache/Laws.antt =====
-- The path cache of src/service/sdkGateway.ts stays bounded, and forgets a changed path and all below it.
use rclone_proton_drive_webd.Base.{
  ℕ, ◌+◌, ◌≤◌, ◌≡◌, ◌≢◌, ◌⊎◌, refl, sym, ◌∙◌, ap, Bool, true, false, Option, none, some, List, [],
  ◌∷◌, ◌++◌, inl, inr, arith, ltb, leb, if◌then◌else◌, length, length-drop, Bool-cases,
  append_assoc, append-nil, is_empty,
}
use rclone_proton_drive_webd.Base.Text.{Text, text_dec, starts_with}
use rclone_proton_drive_webd.Base.Map.{get, set, delete, get-set, get-delete}
use rclone_proton_drive_webd.Base.Map.Size.{length-set}
use rclone_proton_drive_webd.Paths.{segments, normalize, is_root, join_parts, slash}
use rclone_proton_drive_webd.Paths.Segments.{normalize_lem}
use rclone_proton_drive_webd.Sdk.Cache.{
  resolve_cache_ttl_ms, resolve_cache_max_entries, ResolveCache, to_drop, evict_oldest, cache_path,
  covers, keys, delete_covered, invalidate, cached,
}

length-evict_oldest :
    (cache : ResolveCache)
    → length cache ≤ resolve_cache_max_entries
    → length (evict_oldest cache) + 1 ≤ resolve_cache_max_entries
unfolding evict_oldest
length-evict_oldest cache h = elim (Bool-cases (leb resolve_cache_max_entries (length cache))) [
  | inl full ↦ rw full (omega (arith, h, length-drop to_drop cache))
  | inr room ↦ rw room (ground (arith, room, h))
]

cache_path-shape :
    (path uid : Text) (parent_uid : Option Text) (now : ℕ) (cache : ResolveCache)
    → cache_path path uid parent_uid now cache
      ≡ set path
          (record { uid = uid; parent_uid = parent_uid; expires_at = now + resolve_cache_ttl_ms })
          (evict_oldest cache)
unfolding cache_path
cache_path-shape path uid parent_uid now cache = refl

-- A cache of at most 20,000 entries stays so when a path is added, and then answers for that path
-- with what was added for the 30 seconds that follow, and no longer.
pub cache_path_bounded :
    (path uid : Text) (parent_uid : Option Text) (now later : ℕ) (cache : ResolveCache)
    → length cache ≤ resolve_cache_max_entries
    → (length (cache_path path uid parent_uid now cache) ≤ resolve_cache_max_entries)
      × (cached path later (cache_path path uid parent_uid now cache) ≡ (
          if ltb later (now + resolve_cache_ttl_ms)
          then some (record {
            uid = uid;
            parent_uid = parent_uid;
            expires_at = now + resolve_cache_ttl_ms;
          })
          else none))
unfolding cached
cache_path_bounded path uid parent_uid now later cache h = (
  rw cache_path-shape
      (omega (arith, length-evict_oldest cache h, length-set path _ (evict_oldest cache))),
  rw (cache_path-shape, get-set path path) (ground arith),
)

-- Deleting covered keys one by one.
get-delete_covered_other :
    (p q : Text) (ks : List Text) (cache : ResolveCache)
    → covers p q ≡ false
    → get q (delete_covered p ks cache) ≡ get q cache
unfolding delete_covered
get-delete_covered_other p q [] cache h = refl
get-delete_covered_other p q (k ∷ ks) cache h = elim (Bool-cases (covers p k)) [
  | inl c ↦ rw c (
      get-delete_covered_other p q ks (delete k cache) h
      ∙ get-delete q k cache
      ∙ elim (text_dec k q) [ yes same ↦ cc (ap (covers p) same, c, h) | no ne ↦ ground arith ])
  | inr n ↦ rw n (get-delete_covered_other p q ks cache h)
]

abbrev Listed : Text → List Text → Type 0
Listed q [] = ⊥
Listed q (k ∷ ks) = (k ≡ q) ⊎ Listed q ks

get-delete_covered_gone :
    (p q : Text) (ks : List Text) (cache : ResolveCache)
    → covers p q ≡ true
    → Listed q ks ⊎ (get q cache ≡ none)
    → get q (delete_covered p ks cache) ≡ none
unfolding delete_covered
get-delete_covered_gone p q [] cache h (inl l) = absurd l
get-delete_covered_gone p q [] cache h (inr e) = e
get-delete_covered_gone p q (k ∷ ks) cache h l = elim (text_dec k q) [
  | yes same ↦
      rw (same, h)
        (get-delete_covered_gone p q ks (delete q cache) h
          (inr (get-delete q q cache ∙ ground arith)))
  | no ne ↦ get-delete_covered_gone p q ks _ h (later ne l)
]
  where
    later :
        k ≢ q
        → Listed q (k ∷ ks) ⊎ (get q cache ≡ none)
        → Listed q ks ⊎ (get q (if covers p k then delete k cache else cache) ≡ none)
    later ne (inl (inl e)) = absurd (ne e)
    later ne (inl (inr l)) = inl l
    later ne (inr e) = inr (go (covers p k))
      where
        go : (b : Bool) → get q (if b then delete k cache else cache) ≡ none
        go true = get-delete q k cache ∙ ground (arith, e)
        go false = e

get-Listed : (q : Text) (cache : ResolveCache) → Listed q (keys cache) ⊎ (get q cache ≡ none)
unfolding get
get-Listed q [] = inr refl
get-Listed q ((k, v) ∷ cache) = elim (text_dec k q) [
  | yes same ↦ inl (inl same)
  | no ne ↦ elim (get-Listed q cache) [ inl l ↦ inl (inr l) | inr e ↦ inr (ground (arith, e)) ]
]

-- After `invalidate` the cache knows neither the path nor anything below it, and every other key as
-- before.
pub get-invalidate :
    (path q : Text) (cache : ResolveCache)
    → get q (invalidate path cache) ≡ (if covers (normalize path) q then none else get q cache)
unfolding invalidate
get-invalidate path q cache = elim (Bool-cases (covers (normalize path) q)) [
  | inl c ↦
      rw c (get-delete_covered_gone (normalize path) q (keys cache) cache c (get-Listed q cache))
  | inr n ↦ rw n (get-delete_covered_other (normalize path) q (keys cache) cache n)
]

join_parts-append :
    (xs ys : List Text) (y : Text)
    → xs ≢ []
    → join_parts (xs ++ y ∷ ys) ≡ join_parts xs ++ slash ∷ join_parts (y ∷ ys)
unfolding join_parts
join_parts-append [] ys y ne = absurd (ne refl)
join_parts-append (x ∷ []) ys y ne = refl
join_parts-append (x ∷ x' ∷ xs) ys y ne =
    ap (λ t. x ++ slash ∷ t) (join_parts-append (x' ∷ xs) ys y (λ e. cc))
    ∙ sym (append_assoc x (slash ∷ join_parts (x' ∷ xs)) (slash ∷ join_parts (y ∷ ys)))

starts_with-append : (a b : Text) → starts_with (a ++ b) a ≡ true
unfolding starts_with
starts_with-append [] [] = refl
starts_with-append [] (c ∷ b) = refl
starts_with-append (c ∷ a) b = ground (arith, starts_with-append a b)

not_root : (p : Text) → is_root p ≡ false → segments p ≢ []
unfolding is_root
not_root p h e = cc (h, ap is_empty e)

covers_below :
    (p q : Text) (rest : List Text)
    → segments p ≢ []
    → segments q ≡ segments p ++ rest
    → covers (normalize p) (normalize q) ≡ true
covers_below p q [] ne e =
    rw (normalize_lem q, e, append-nil (segments p), ← normalize_lem p) (ground arith)
covers_below p q (y ∷ ys) ne e =
    let below : normalize q ≡ (normalize p ++ slash ∷ []) ++ join_parts (y ∷ ys) =
      normalize_lem q
      ∙ ap (λ l. slash ∷ join_parts l) e
      ∙ ap (λ t. slash ∷ t) (join_parts-append (segments p) ys y ne)
      ∙ rw (normalize_lem p)
          (sym (append_assoc (slash ∷ join_parts (segments p)) (slash ∷ []) _)) in
    rw (ap (λ t. starts_with t (normalize p ++ slash ∷ [])) below, starts_with-append _ _)
      (ground arith)

-- After `invalidate` of a path that is not the root the cache answers neither for the path nor for
-- any path below it, so a later call resolves them afresh.
pub invalidate_below :
    (path q : Text) (rest : List Text) (now : ℕ) (cache : ResolveCache)
    → is_root path ≡ false
    → segments q ≡ segments path ++ rest
    → cached (normalize q) now (invalidate path cache) ≡ none
unfolding cached
invalidate_below path q rest now cache below e =
    rw (get-invalidate path (normalize q) cache, covers_below path q rest (not_root path below) e)
      refl
