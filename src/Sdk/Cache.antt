-- ===== src/Sdk/Cache.antt =====
-- The path cache of `SdkGateway` in src/service/sdkGateway.ts: `cachePath`, `invalidate`, and the lookup
-- in `resolve`. A `Map` keeps the order of insertion, so its oldest entries come first.
pub mod Laws
use rclone_proton_drive_webd.Base.{
  ℕ, ◌+◌, Bool, true, false, ◌||◌, Option, none, some, List, [], ◌∷◌, ◌++◌, ltb, leb, if◌then◌else◌,
  length, drop,
}
use rclone_proton_drive_webd.Base.Text.{Text, ◌===◌, starts_with}
use rclone_proton_drive_webd.Base.Map.{Map, get, set, delete}
use rclone_proton_drive_webd.Paths.{normalize, slash}

abbrev pub resolve_cache_ttl_ms : ℕ
resolve_cache_ttl_ms = 30000

abbrev pub resolve_cache_max_entries : ℕ
resolve_cache_max_entries = 20000

pub record Resolved : Type 0 where
  pub uid : Text
  pub parent_uid : Option Text
  pub expires_at : ℕ

abbrev pub ResolveCache : Type 0
ResolveCache = Map Resolved

-- `Math.max(1, Math.floor(RESOLVE_CACHE_MAX_ENTRIES / 10))`
abbrev pub to_drop : ℕ
to_drop = 2000

-- The loop over the keys deletes the first ones.
unfoldable pub evict_oldest : ResolveCache → ResolveCache
evict_oldest cache =
    if leb resolve_cache_max_entries (length cache) then drop to_drop cache else cache

unfoldable pub cache_path : Text → Text → Option Text → ℕ → ResolveCache → ResolveCache
unfolding evict_oldest
cache_path path uid parent_uid now cache =
    set path
      (record { uid = uid; parent_uid = parent_uid; expires_at = now + resolve_cache_ttl_ms })
      (evict_oldest cache)

-- The key is the normal path, or lies below it.
abbrev pub covers : Text → Text → Bool
covers p key = (key === p) || starts_with key (p ++ slash ∷ [])

abbrev pub keys : ResolveCache → List Text
keys [] = []
keys ((k, v) ∷ cache) = k ∷ keys cache

unfoldable pub delete_covered : Text → List Text → ResolveCache → ResolveCache
delete_covered p [] cache = cache
delete_covered p (k ∷ ks) cache = delete_covered p ks (if covers p k then delete k cache else cache)

-- The loop runs over a copy of the keys.
unfoldable pub invalidate : Text → ResolveCache → ResolveCache
invalidate path cache = delete_covered (normalize path) (keys cache) cache

abbrev pub if_fresh : ℕ → Option Resolved → Option Resolved
if_fresh now none = none
if_fresh now (some r) = if ltb now r.expires_at then some r else none

-- `cached && cached.expiresAt > Date.now()`
unfoldable pub cached : Text → ℕ → ResolveCache → Option Resolved
unfolding get
cached p now cache = if_fresh now (get p cache)
