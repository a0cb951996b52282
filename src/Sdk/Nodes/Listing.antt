-- ===== src/Sdk/Nodes/Listing.antt =====
-- What a listing of src/service/sdkGateway.ts shows.
use mathlib.Core.Option.{some-injective, none-ne-some}
use rclone_proton_drive_webd.Base.{
  ℕ, ◌≤◌, ◌≡◌, ◌⊎◌, refl, sym, ◌∙◌, ap, Bool, true, false, ◌||◌, Option, none, some, List, [], ◌∷◌,
  inl, inr, arith, length, Bool-cases, All,
}
use rclone_proton_drive_webd.Base.Text.{Text, ◌===◌}
use rclone_proton_drive_webd.Gateway.{DriveEntry}
use rclone_proton_drive_webd.Paths.{is_safe_segment, join}
use rclone_proton_drive_webd.Sdk.Cache.{ResolveCache, resolve_cache_max_entries}
use rclone_proton_drive_webd.Sdk.Cache.Laws.{cache_path_bounded}
use rclone_proton_drive_webd.Sdk.Nodes.{
  Revision, NodeEntity, is_sha1, to_entry, has_name, add_entry, list_entries,
}

-- Live, named, and committed if it is a file.
abbrev pub IsShown : (NodeEntity → Text) → NodeEntity → DriveEntry → Type 0
IsShown get_name node e =
    (node.trash_time ≡ none)
    × (node.name_ok ≡ true)
    × (e.name ≡ get_name node)
    × (is_safe_segment e.name ≡ true)
    × ((e.is_dir ≡ true)
        ⊎ ((rev : Revision) × (node.active_revision ≡ some rev) × (rev.claimed_size ≡ some e.size)))

abbrev pub HasDigest : Option Text → Type 0
HasDigest none = Unit
HasDigest (some s) = is_sha1 s ≡ true

module _ (get_name : NodeEntity → Text) (node : NodeEntity) where
  abbrev Shown : DriveEntry → Type 0
  Shown e =
      (e.name ≡ get_name node)
      × ((e.is_dir ≡ true)
          ⊎ ((rev : Revision) × (node.active_revision ≡ some rev)
              × (rev.claimed_size ≡ some e.size)))
      × HasDigest e.sha1

-- No entry has the name of an earlier one, or of one that was seen.
abbrev pub Distinct : List Text → List DriveEntry → Type 0
Distinct seen [] = Unit
Distinct seen (e ∷ es) = (has_name e.name seen ≡ false) × Distinct (e.name ∷ seen) es

abbrev pub names : List DriveEntry → List Text
names [] = []
names (e ∷ es) = e.name ∷ names es

eq_true : (a b : Text) → a ≡ b → (a === b) ≡ true
eq_true a b e = ground (arith, e)

or_true : (a b c : Bool) → b ≡ true → (a || (b || c)) ≡ true
or_true true b c h = refl
or_true false b c h = rw h refl

or_swap : (a b c : Bool) → ((b || a) || c) ≡ true → (a || (b || c)) ≡ true
or_swap true b c h = refl
or_swap false true c h = refl
or_swap false false c h = h

module _ (get_name : NodeEntity → Text) where
  -- The entry of one of the children.
  abbrev pub IsFrom : List NodeEntity → DriveEntry → Type 0
  IsFrom [] e = ⊥
  IsFrom (c ∷ cs) e = (to_entry get_name c ≡ some e) ⊎ IsFrom cs e

  All-IsFrom :
      (c : NodeEntity) (cs : List NodeEntity) (es : List DriveEntry)
      → All (IsFrom cs) es
      → All (IsFrom (c ∷ cs)) es
  All-IsFrom c cs [] h = tt
  All-IsFrom c cs (e ∷ es) (p, h) = (inr p, All-IsFrom c cs es h)

  module _ (path : Text) (node : NodeEntity) (now : ℕ) where
    abbrev Sound : List NodeEntity → List Text → List DriveEntry × ResolveCache → Type 0
    Sound children seen (es, cache) =
        Distinct seen es × All (IsFrom children) es × (length cache ≤ resolve_cache_max_entries)

    add_entry-Sound :
        (c : NodeEntity) (cs : List NodeEntity) (seen : List Text) (o : Option DriveEntry)
        (skipped : List DriveEntry × ResolveCache)
        (shown : DriveEntry → List DriveEntry × ResolveCache)
        → to_entry get_name c ≡ o
        → Sound cs seen skipped
        → ((e : DriveEntry) → Sound cs (e.name ∷ seen) (shown e))
        → Sound (c ∷ cs) seen (add_entry seen o skipped shown)
    add_entry-Sound c cs seen none (es, cache) shown h (d, f, k) new = (d, All-IsFrom c cs es f, k)
    add_entry-Sound c cs seen (some e) (es, cache) shown h (d, f, k) new =
        elim (Bool-cases (has_name e.name seen)) [
          | inl old ↦ rw old (d, All-IsFrom c cs es f, k)
          | inr fresh ↦
              let (d', f', k') = new e in
              rw fresh ((fresh, d'), (inl h, All-IsFrom c cs (shown e).0 f'), k')
        ]

    list_entries-Sound :
        (children : List NodeEntity) (seen : List Text) (cache : ResolveCache)
        → length cache ≤ resolve_cache_max_entries
        → Sound children seen (list_entries get_name path node now children seen cache)
    unfolding list_entries
    list_entries-Sound [] seen cache small = (tt, tt, small)
    list_entries-Sound (c ∷ cs) seen cache small =
        add_entry-Sound c cs seen (to_entry get_name c) _ _ refl
          (list_entries-Sound cs seen cache small)
          (λ e.
            list_entries-Sound cs (e.name ∷ seen) _
              (cache_path_bounded (join path e.name) c.uid (some node.uid) now now cache small).0)

    -- Every child with an entry has its name listed, if it was not seen before.
    abbrev Complete : List NodeEntity → List Text → List DriveEntry → Type 0
    Complete children seen es =
        (e : DriveEntry)
        → IsFrom children e
        → (has_name e.name seen || has_name e.name (names es)) ≡ true

    add_entry-Complete :
        (c : NodeEntity) (cs : List NodeEntity) (seen : List Text) (o : Option DriveEntry)
        (skipped : List DriveEntry × ResolveCache)
        (shown : DriveEntry → List DriveEntry × ResolveCache)
        → to_entry get_name c ≡ o
        → Complete cs seen skipped.0
        → ((e : DriveEntry) → Complete cs (e.name ∷ seen) (shown e).0)
        → Complete (c ∷ cs) seen (add_entry seen o skipped shown).0
    add_entry-Complete c cs seen none skipped shown h old new e (inl f) =
        absurd (none-ne-some e (sym h ∙ f))
    add_entry-Complete c cs seen none skipped shown h old new e (inr f) = old e f
    add_entry-Complete c cs seen (some e') skipped shown h old new e from =
        elim (Bool-cases (has_name e'.name seen)) [
          | inl dup ↦ rw dup (known dup from)
          | inr fresh ↦ rw fresh (added from)
        ]
      where
        same : to_entry get_name c ≡ some e → e' ≡ e
        same f = some-injective e' e (sym h ∙ f)

        known :
            has_name e'.name seen ≡ true
            → IsFrom (c ∷ cs) e
            → (has_name e.name seen || has_name e.name (names skipped.0)) ≡ true
        known dup (inl f) = rw (← same f, dup) refl
        known dup (inr f) = old e f

        added :
            IsFrom (c ∷ cs) e
            → (has_name e.name seen
                || ((e'.name === e.name) || has_name e.name (names (shown e').0)))
              ≡ true
        added (inl f) =
            or_true (has_name e.name seen) (e'.name === e.name)
              (has_name e.name (names (shown e').0))
              (eq_true e'.name e.name (ap (λ (x : DriveEntry). x.name) (same f)))
        added (inr f) =
            or_swap (has_name e.name seen) (e'.name === e.name)
              (has_name e.name (names (shown e').0)) (new e' e f)

    list_entries-Complete :
        (children : List NodeEntity) (seen : List Text) (cache : ResolveCache)
        → Complete children seen (list_entries get_name path node now children seen cache).0
    unfolding list_entries
    list_entries-Complete [] seen cache e from = absurd from
    list_entries-Complete (c ∷ cs) seen cache e from =
        add_entry-Complete c cs seen (to_entry get_name c) _ _ refl
          (list_entries-Complete cs seen cache) (λ e'. list_entries-Complete cs (e'.name ∷ seen) _)
          e from

    -- A listing names every child that has an entry, each name once, and holds entries of children
    -- only; the path cache stays within its bound.
    pub list_entries_sound :
        (children : List NodeEntity) (cache : ResolveCache)
        → length cache ≤ resolve_cache_max_entries
        → let r = list_entries get_name path node now children [] cache in
          Distinct [] r.0
          × All (IsFrom children) r.0
          × ((e : DriveEntry) → IsFrom children e → has_name e.name (names r.0) ≡ true)
          × (length r.1 ≤ resolve_cache_max_entries)
    list_entries_sound children cache small =
        let (d, f, k) = list_entries-Sound children [] cache small in
        (d, f, list_entries-Complete children [] cache, k)
