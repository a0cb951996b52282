-- ===== src/Sdk/Changes/Trash.antt =====
-- What `remove` of src/service/sdkGateway.ts has put into the trash when it succeeds.
use rclone_proton_drive_webd.Base.{
  ℕ, ◌≡◌, refl, ap, Bool, true, false, Option, none, some, List, [], ◌∷◌, ◌++◌, if◌then◌else◌,
}
use rclone_proton_drive_webd.Base.Text.{Text, codes}
use rclone_proton_drive_webd.Base.Action.{Ended, done, failed, continue, ◌>>=◌, ◌>>◌}
use rclone_proton_drive_webd.Base.Triple.{Post, Triple, then-Triple}
use rclone_proton_drive_webd.Gateway.{plain_error}
use rclone_proton_drive_webd.Paths.{segments, normalize, is_root, base_name}
use rclone_proton_drive_webd.Sdk.Cache.{cached, invalidate}
use rclone_proton_drive_webd.Sdk.Cache.Laws.{invalidate_below}
use rclone_proton_drive_webd.Sdk.Nodes.{NodeEntity}
use rclone_proton_drive_webd.Sdk.Errors.{SdkError}
use rclone_proton_drive_webd.Sdk.Client.{Client, SdkGateway, iterate, change_cache}
use rclone_proton_drive_webd.Sdk.Resolve.{Sdk, resolve, or_not_found, resolve_or_throw}
use rclone_proton_drive_webd.Sdk.Resolve.Live.{IsLive, IsLiveIfAny, resolve-Live}
use rclone_proton_drive_webd.Sdk.Uploads.{own}
use rclone_proton_drive_webd.Sdk.Changes.{trash_results, remove_at, remove}

module _ (get_name : NodeEntity → Text) (root_path : Text) (c : Client) (now : ℕ) where
  abbrev Anything : SdkError → SdkGateway c.World → Type 0
  Anything e st = Unit

  abbrev pub IsFine : List (Option SdkError) → Type 0
  IsFine [] = Unit
  IsFine (o ∷ results) = (o ≡ none) × IsFine results

  -- The node that the path resolved to, a live one of its name, was given to the trash in the world that
  -- the look-up left; there was no error, neither in a result nor in the iteration over them; and the
  -- world is what that left.
  abbrev pub Trashed : Text → SdkGateway c.World → SdkGateway c.World → Type 0
  Trashed p before after =
      (node : NodeEntity) × (st : SdkGateway c.World) × (resolve_or_throw get_name root_path c now p
          before
        ≡ (done node, st))
      × IsLive get_name root_path c now (base_name p) false node
      × IsFine (c.trash_node node st.world).0.items
      × ((c.trash_node node st.world).0.error ≡ none)
      × (after.world ≡ (c.trash_node node st.world).1)

  resolve_or_throw-Live :
      (path : Text) (st : SdkGateway c.World)
      → is_root path ≡ false
      → Post
          (λ node _. IsLive get_name root_path c now (base_name path) false node)
          Anything
          (resolve_or_throw get_name root_path c now path st)
  unfolding resolve_or_throw
  resolve_or_throw-Live path st below =
      then-Triple (λ o _. IsLiveIfAny get_name root_path c now (base_name path) false o) Anything
        (λ node _. IsLive get_name root_path c now (base_name path) false node) (λ _. Unit)
        (resolve get_name root_path c now path false) (or_not_found get_name root_path c now path)
        (λ st _. resolve-Live get_name root_path c now path false st below) given st tt
    where
      given :
          (o : Option NodeEntity)
          → Triple
              (λ _. IsLiveIfAny get_name root_path c now (base_name path) false o)
              (or_not_found get_name root_path c now path o)
              (λ node _. IsLive get_name root_path c now (base_name path) false node)
              Anything
      given none st h = tt
      given (some node) st h = h

  -- The loop over the results ends without an error only if there is none, and changes nothing.
  trash_results-IsFine :
      (st0 : SdkGateway c.World) (results : List (Option SdkError)) (end : Option SdkError)
      → Triple
          (λ st. st ≡ st0)
          (trash_results get_name root_path c now results end)
          (λ _ st. (st ≡ st0) × IsFine results × (end ≡ none))
          Anything
  trash_results-IsFine st0 [] none st h = (h, tt, refl)
  trash_results-IsFine st0 [] (some e) st h = tt
  trash_results-IsFine st0 (none ∷ results) end st h =
      weaken results end (trash_results get_name root_path c now results end st)
        (trash_results-IsFine st0 results end st h)
    where
      weaken :
          (results : List (Option SdkError)) (end : Option SdkError)
          (r : Ended SdkError (Unit {0}) × SdkGateway c.World)
          → Post (λ _ st. (st ≡ st0) × IsFine results × (end ≡ none)) Anything r
          → Post (λ _ st. (st ≡ st0) × IsFine (none ∷ results) × (end ≡ none)) Anything r
      weaken results end (done _, st) (same, fine, ended) = (same, (refl, fine), ended)
      weaken results end (failed e, st) h = tt
  trash_results-IsFine st0 (some e ∷ results) end st h = tt

  abbrev pub Forgets : Text → SdkGateway c.World → Type 0
  Forgets p st =
      (q : Text) (rest : List Text) (later : ℕ)
      → segments q ≡ segments p ++ rest
      → cached (normalize q) later st.resolve_cache ≡ none

  abbrev trashing : Text → NodeEntity → Sdk get_name root_path c now (Unit {0})
  trashing p node = do
    i ← iterate (c.trash_node node)
    trash_results get_name root_path c now i.items i.error
    change_cache (invalidate p)

  trash-Trashed :
      (p : Text) (node : NodeEntity) (before st : SdkGateway c.World)
      → is_root p ≡ false
      → resolve_or_throw get_name root_path c now p before ≡ (done node, st)
      → IsLive get_name root_path c now (base_name p) false node
      → Post (λ _ after. Trashed p before after × Forgets p after) Anything (trashing p node st)
  trash-Trashed p node before st below found live =
      let i = c.trash_node node st.world in
      let left = record st { world = i.1 } in
      then-Triple (λ _ st. (st ≡ left) × IsFine i.0.items × (i.0.error ≡ none)) Anything
        (λ _ after. Trashed p before after × Forgets p after) (λ st. st ≡ left)
        (trash_results get_name root_path c now i.0.items i.0.error)
        (λ _. change_cache (invalidate p)) (trash_results-IsFine left i.0.items i.0.error)
        (λ _ st' (same, fine, ended). (
          (node, st, found, live, fine, ended, ap (λ (s : SdkGateway c.World). s.world) same),
          λ q rest later e. invalidate_below p q rest later st'.resolve_cache below e,
        ))
        left refl

  -- A removal that succeeds has given the node that the path resolved to to the trash, once. It was live
  -- under the path's name: neither a draft nor a node that was in the trash, nor one that another client
  -- has renamed since; no result of the trash and not the iteration over the results was an error. The
  -- cache then answers neither for the path nor for any path below it.
  pub remove-Trashed :
      (path : Text) (st : SdkGateway c.World)
      → Post
          (λ _ after. Trashed (normalize path) st after × Forgets (normalize path) after)
          (λ _ _. Unit)
          (remove get_name root_path c now path st)
  unfolding remove remove_at
  remove-Trashed path st = go (is_root (normalize path)) refl
    where
      found :
          (r : Ended SdkError NodeEntity × SdkGateway c.World)
          → is_root (normalize path) ≡ false
          → resolve_or_throw get_name root_path c now (normalize path) st ≡ r
          → Post
              (λ node _. IsLive get_name root_path c now (base_name (normalize path)) false node)
              Anything
              r
          → Post
              (λ _ after. Trashed (normalize path) st after × Forgets (normalize path) after)
              Anything
              (continue (trashing (normalize path)) r)
      found (failed e, st') below same h = tt
      found (done node, st') below same live =
          trash-Trashed (normalize path) node st st' below same live

      go :
          (b : Bool)
          → is_root (normalize path) ≡ b
          → Post
              (λ _ after. Trashed (normalize path) st after × Forgets (normalize path) after)
              Anything
              ((if b
                  then own get_name root_path c now
                      (plain_error (codes "Refusing to remove the root collection") 403)
                  else (resolve_or_throw get_name root_path c now (normalize path)
                      >>= trashing (normalize path)))
                st)
      go true e = tt
      go false e = found _ e refl (resolve_or_throw-Live (normalize path) st e)
