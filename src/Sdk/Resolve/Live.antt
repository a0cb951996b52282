-- ===== src/Sdk/Resolve/Live.antt =====
-- What `resolve` of src/service/sdkGateway.ts answers for a path, whatever the cache holds.
use rclone_proton_drive_webd.Base.{
  ℕ, ◌≡◌, refl, inl, inr, Bool, true, false, not, ◌&&◌, ◌||◌, Option, none, some, List, [], ◌∷◌,
  arith, if◌then◌else◌, is_empty, last_or, Bool-cases,
}
use rclone_proton_drive_webd.Base.Text.{Text, codes}
use rclone_proton_drive_webd.Base.Action.{
  Ended, done, failed, return, raise, continue, ◌>>=◌, ◌>>◌, or_null,
}
use rclone_proton_drive_webd.Base.Triple.{Post, Triple, then-Triple}
use rclone_proton_drive_webd.Gateway.{plain_error}
use rclone_proton_drive_webd.Paths.{segments, base_name, is_root}
use rclone_proton_drive_webd.Sdk.Cache.{Resolved, cached, cache_path}
use rclone_proton_drive_webd.Sdk.Nodes.{NodeEntity, is_trashed}
use rclone_proton_drive_webd.Sdk.Errors.{SdkError}
use rclone_proton_drive_webd.Sdk.Client.{
  Iteration, Client, SdkGateway, own_error, in_world, iterate, change_cache, raise_if_any,
}
use rclone_proton_drive_webd.Sdk.Resolve.{
  is_folder, is_draft, reverse_onto, path_of, all_safe, Sdk, get_root_uid, is_current, if_current,
  keep_or_forget, revalidate, from_cache, find_child, or_error, found_or_error, remember, look_in,
  root_entity, or_walk, walk, resolve,
}

module _ (get_name : NodeEntity → Text) (root_path : Text) (c : Client) (now : ℕ) where
  -- A node that is shown at a name: it has the name, is not in the trash, and is no draft, unless drafts
  -- are asked for.
  pub record IsLive (name : Text) (include_drafts : Bool) (node : NodeEntity) : Type 0 where
    pub named : get_name node ≡ name
    pub kept : is_trashed node.trash_time ≡ false
    pub committed : (is_draft node && not include_drafts) ≡ false

  abbrev pub IsLiveIfAny : Text → Bool → Option NodeEntity → Type 0
  IsLiveIfAny name include_drafts none = Unit
  IsLiveIfAny name include_drafts (some node) = IsLive name include_drafts node

  abbrev Anything : SdkError → SdkGateway c.World → Type 0
  Anything e st = Unit

  abbrev pub FindsLive : Text → Bool → Sdk get_name root_path c now (Option NodeEntity) → Type 0
  FindsLive name include_drafts act =
      Triple (λ _. Unit) act (λ o _. IsLiveIfAny name include_drafts o) Anything

  find_child-named :
      (name : Text) (nodes : List NodeEntity) (node : NodeEntity)
      → find_child get_name root_path c now name nodes ≡ some node
      → get_name node ≡ name
  unfolding find_child
  find_child-named name [] node h = cc
  find_child-named name (x ∷ nodes) node h = ground (arith, h, find_child-named name nodes node)

  is_current-IsLive :
      (name : Text) (include_drafts : Bool) (r : Resolved) (node : NodeEntity)
      → is_current get_name root_path c now name include_drafts r node ≡ true
      → IsLive name include_drafts node
  unfolding is_current
  is_current-IsLive name include_drafts r node h = record {
    named = ground (arith, h);
    kept = ground (arith, h);
    committed = ground (arith, h);
  }

  abbrev PostLive : Text → Bool → Ended SdkError (Option NodeEntity) × SdkGateway c.World → Type 0
  PostLive name include_drafts r = Post (λ o _. IsLiveIfAny name include_drafts o) Anything r

  keep_or_forget-Live :
      (p name : Text) (include_drafts : Bool) (r : Resolved) (o : Option NodeEntity)
      (st : SdkGateway c.World)
      → PostLive name include_drafts (
          keep_or_forget get_name root_path c now p
            (if_current get_name root_path c now name include_drafts r o)
            st)
  keep_or_forget-Live p name include_drafts r none st = tt
  keep_or_forget-Live p name include_drafts r (some node) st =
      elim (Bool-cases (is_current get_name root_path c now name include_drafts r node)) [
        | inl yes_current ↦
            rw yes_current (is_current-IsLive name include_drafts r node yes_current)
        | inr not_current ↦ rw not_current tt
      ]

  from_cache-Live :
      (p name : Text) (include_drafts : Bool)
      → FindsLive name include_drafts (from_cache get_name root_path c now p name include_drafts)
  unfolding from_cache
  from_cache-Live p name include_drafts st h = go (cached p now st.resolve_cache)
    where
      fetched :
          (r : Resolved) (e : Ended SdkError NodeEntity × c.World)
          → PostLive name include_drafts (
              continue
                (λ node.
                  keep_or_forget get_name root_path c now p
                    (if_current get_name root_path c now name include_drafts r node))
                (or_null (in_world st e)))
      fetched r (done node, w) =
          keep_or_forget-Live p name include_drafts r (some node) (record st { world = w })
      fetched r (failed e, w) =
          keep_or_forget-Live p name include_drafts r none (record st { world = w })

      go :
          (o : Option Resolved)
          → PostLive name include_drafts
              (revalidate get_name root_path c now p name include_drafts o st)
      go none = tt
      go (some r) = fetched r (c.get_node r.uid st.world)

  remember-Live :
      (p name : Text) (include_drafts : Bool) (parent found : NodeEntity) (st : SdkGateway c.World)
      → get_name found ≡ name
      → PostLive name include_drafts
          (remember get_name root_path c now p include_drafts parent (some found) st)
  remember-Live p name include_drafts parent found st named =
      go (is_draft found && not include_drafts) (is_trashed found.trash_time) refl refl
    where
      go :
          (d t : Bool)
          → (is_draft found && not include_drafts) ≡ d
          → is_trashed found.trash_time ≡ t
          → PostLive name include_drafts (
              (if d || t then return none else (do
                change_cache (cache_path p found.uid (some parent.uid) now)
                return (some found)))
                st)
      go true t hd ht = tt
      go false true hd ht = tt
      go false false hd ht = record { named = named; kept = ht; committed = hd }

  look_in-Live :
      (p name : Text) (include_drafts : Bool) (parent : Option NodeEntity)
      → FindsLive name include_drafts
          (look_in get_name root_path c now p name include_drafts parent)
  unfolding look_in
  look_in-Live p name include_drafts none st h = tt
  look_in-Live p name include_drafts (some parent) st h = inside (is_folder parent.type)
    where
      raised :
          (o : Option SdkError) (st' : SdkGateway c.World)
          → PostLive name include_drafts (
              continue
                (remember get_name root_path c now p include_drafts parent)
                (continue (λ _. return none) (raise_if_any o st')))
      raised none st' = tt
      raised (some e) st' = tt

      found :
          (i : Iteration NodeEntity) (st' : SdkGateway c.World) (o : Option NodeEntity)
          → find_child get_name root_path c now name i.items ≡ o
          → PostLive name include_drafts (
              continue
                (remember get_name root_path c now p include_drafts parent)
                (or_error get_name root_path c now i.error o st'))
      found i st' none e = raised i.error st'
      found i st' (some child) e =
          remember-Live p name include_drafts parent child st'
            (find_child-named name i.items child e)

      inside :
          (b : Bool)
          → PostLive name include_drafts (
              (if not b then return none else (do
                i ← iterate (c.iterate_folder_children parent)
                found ← found_or_error get_name root_path c now name i
                remember get_name root_path c now p include_drafts parent found))
                st)
      inside true =
          let i = c.iterate_folder_children parent st.world in
          found i.0 (record st { world = i.1 }) (find_child get_name root_path c now name i.0.items)
            refl
      inside false = tt

  or_walk-Live :
      (name : Text) (include_drafts : Bool) (hit : Option NodeEntity)
      (rest : Sdk get_name root_path c now (Option NodeEntity))
      → FindsLive name include_drafts rest
      → Triple
          (λ _. IsLiveIfAny name include_drafts hit)
          (or_walk get_name root_path c now hit rest)
          (λ o _. IsLiveIfAny name include_drafts o)
          Anything
  or_walk-Live name include_drafts none rest h st k = h st tt
  or_walk-Live name include_drafts (some node) rest h st k = k

  anything :
      {A : Type 0} (act : Sdk get_name root_path c now A)
      → Triple (λ _. Unit) act (λ _ _. Unit) Anything
  anything {A} act st h = go (act st)
    where
      go : (r : Ended SdkError A × SdkGateway c.World) → Post (λ _ _. Unit) Anything r
      go (done a, st) = tt
      go (failed e, st) = tt

  walk-Live :
      (name : Text) (above : List Text) (include_drafts : Bool)
      → FindsLive name include_drafts (walk get_name root_path c now (name ∷ above) include_drafts)
  unfolding walk
  walk-Live name above include_drafts =
      let look = look_in get_name root_path c now (path_of (name ∷ above)) name include_drafts in
      then-Triple (λ _ _. Unit) Anything (λ o _. IsLiveIfAny name include_drafts o) (λ _. Unit)
        (get_root_uid get_name root_path c now) _ (anything (get_root_uid get_name root_path c now))
        (λ uid.
          then-Triple (λ o _. IsLiveIfAny name include_drafts o) Anything
            (λ o _. IsLiveIfAny name include_drafts o) (λ _. Unit)
            (from_cache get_name root_path c now (path_of (name ∷ above)) name include_drafts) _
            (from_cache-Live (path_of (name ∷ above)) name include_drafts)
            (λ hit. or_walk-Live name include_drafts hit _ (
              then-Triple (λ _ _. Unit) Anything (λ o _. IsLiveIfAny name include_drafts o)
                (λ _. Unit)
                (if is_empty above
                  then root_entity get_name root_path c now uid
                  else walk get_name root_path c now above false)
                look
                (anything (
                  if is_empty above
                  then root_entity get_name root_path c now uid
                  else walk get_name root_path c now above false))
                (look_in-Live (path_of (name ∷ above)) name include_drafts))))

  reverse_onto-last_or :
      (x : Text) (xs ys : List Text)
      → (rest : List Text) × (reverse_onto xs (x ∷ ys) ≡ last_or x xs ∷ rest)
  reverse_onto-last_or x [] ys = (ys, refl)
  reverse_onto-last_or x (y ∷ xs) ys = reverse_onto-last_or y xs (x ∷ ys)

  segments_walk-Live :
      (segs : List Text) (include_drafts : Bool)
      → is_empty segs ≡ false
      → FindsLive
          (last_or [] segs)
          include_drafts
          (walk get_name root_path c now (reverse_onto segs []) include_drafts)
  segments_walk-Live [] include_drafts h = cc
  segments_walk-Live (x ∷ xs) include_drafts h =
      let (rest, e) = reverse_onto-last_or x xs [] in
      rw e (walk-Live (last_or x xs) rest include_drafts)

  -- Whatever the cache and the SDK hold: what a path resolves to has the last segment of the path as its
  -- name, is not in the trash, and is not an unfinished upload, unless drafts were asked for. A cached
  -- answer is no exception.
  pub resolve-Live :
      (path : Text) (include_drafts : Bool) (st : SdkGateway c.World)
      → is_root path ≡ false
      → Post
          (λ o _. IsLiveIfAny (base_name path) include_drafts o)
          (λ _ _. Unit)
          (resolve get_name root_path c now path include_drafts st)
  unfolding resolve is_root base_name
  resolve-Live path include_drafts st h = go (all_safe (segments path))
    where
      go :
          (b : Bool)
          → Post
              (λ o _. IsLiveIfAny (last_or [] (segments path)) include_drafts o)
              (λ _ _. Unit)
              ((if b
                  then walk get_name root_path c now
                      (reverse_onto (segments path) [])
                      include_drafts
                  else raise (own_error (plain_error (codes "Invalid path segment") 400)))
                st)
      go true = segments_walk-Live (segments path) include_drafts h st tt
      go false = tt
