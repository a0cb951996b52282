-- ===== src/Sdk/Changes.antt =====
-- `mkcol`, `remove`, `move` and `copy` of src/service/sdkGateway.ts.
pub mod Trash
use rclone_proton_drive_webd.Base.{
  ℕ, ◌+◌, Bool, true, false, not, ◌&&◌, ◌||◌, Option, none, some, List, [], ◌∷◌, ◌++◌,
  if◌then◌else◌,
}
use rclone_proton_drive_webd.Base.Text.{Text, codes, ◌===◌, starts_with}
use rclone_proton_drive_webd.Base.Map.{set}
use rclone_proton_drive_webd.Base.Action.{
  Ended, done, failed, Action, return, raise, continue, ◌>>=◌, ◌>>◌, catch,
}
use rclone_proton_drive_webd.Gateway.{
  Thrown, plain_error, already_exists_error, already_exists_default, conflict_error,
  immutable_precondition_error,
}
use rclone_proton_drive_webd.Paths.{
  normalize, is_root, base_name, parent_path, join, is_safe_segment, slash,
}
use rclone_proton_drive_webd.Sdk.Cache.{resolve_cache_ttl_ms, invalidate}
use rclone_proton_drive_webd.Sdk.Nodes.{NodeEntity}
use rclone_proton_drive_webd.Sdk.Errors.{SdkError, map_generic_error}
use rclone_proton_drive_webd.Sdk.Client.{
  Iteration, Client, SdkGateway, own_error, call, iterate, change_cache, raise_if_any, first_error,
}
use rclone_proton_drive_webd.Sdk.Resolve.{is_folder, is_file, Sdk, resolve, resolve_or_throw}
use rclone_proton_drive_webd.Sdk.Queries.{mapped}
use rclone_proton_drive_webd.Sdk.Uploads.{own, no_parent}

module _ (get_name : NodeEntity → Text) (root_path : Text) (c : Client) (now : ℕ) where
  abbrev Does : Type 0
  Does = Sdk get_name root_path c now (Unit {0})

  abbrev pub already_exists : {A : Type 0} → Text → Sdk get_name root_path c now A
  already_exists p =
      own get_name root_path c now (already_exists_error (codes "Already exists: " ++ p))

  abbrev pub mkcol_failed : Text → SdkError → Does
  mkcol_failed p e = elim e.same_name [
    | some unfinished ↦ already_exists p
    | none ↦ raise (mapped e)
  ]

  -- The entry has no parent, and no older one makes room for it.
  abbrev pub remember_created : Text → Text → Does
  remember_created p uid =
      change_cache
        (set p (record { uid = uid; parent_uid = none; expires_at = now + resolve_cache_ttl_ms }))

  abbrev pub create_in : Text → NodeEntity → Option NodeEntity → Does
  create_in p parent (some existing) = already_exists p
  create_in p parent none =
      catch (do uid ← call (c.create_folder parent (base_name p)); remember_created p uid)
        (mkcol_failed p)

  abbrev pub mkcol_in : Text → Option NodeEntity → Does
  mkcol_in p none = no_parent get_name root_path c now p
  mkcol_in p (some parent) =
      if not (is_folder parent.type)
      then no_parent get_name root_path c now p
      else (do existing ← resolve get_name root_path c now p true; create_in p parent existing)

  -- `mkcol` of a normal path.
  unfoldable pub mkcol_at : Text → Does
  unfolding resolve
  mkcol_at p =
      if is_root p
      then own get_name root_path c now (already_exists_error already_exists_default)
      else if not (is_safe_segment (base_name p))
      then own get_name root_path c now (plain_error (codes "Invalid collection name") 400)
      else (do parent ← resolve get_name root_path c now (parent_path p) false; mkcol_in p parent)

  unfoldable pub mkcol : Text → Does
  unfolding mkcol_at
  mkcol path = mkcol_at (normalize path)

  -- The loop over the results throws what a result or the iteration has, mapped only in the first case.
  abbrev pub trash_results : List (Option SdkError) → Option SdkError → Does
  trash_results [] end = raise_if_any end
  trash_results (none ∷ results) end = trash_results results end
  trash_results (some e ∷ results) end = raise (mapped e)

  unfoldable pub remove_at : Text → Does
  unfolding resolve_or_throw
  remove_at p =
      if is_root p
      then own get_name root_path c now
          (plain_error (codes "Refusing to remove the root collection") 403)
      else (do
        node ← resolve_or_throw get_name root_path c now p
        i ← iterate (c.trash_node node)
        trash_results i.items i.error
        change_cache (invalidate p))

  unfoldable pub remove : Text → Does
  unfolding remove_at
  remove path = remove_at (normalize path)

  abbrev pub run_results : Iteration (Option SdkError) → Does
  run_results i = raise_if_any (first_error i.items i.error)

  abbrev pub destination_exists : Text → Does
  destination_exists d =
      own get_name root_path c now
        (immutable_precondition_error (codes "Destination exists: " ++ d))

  abbrev pub partial_move : Text → Text → Does
  partial_move s d = own get_name root_path c now (
      plain_error
        (codes "Partially completed move: the file is now at "
          ++ (join (parent_path d) (base_name s)
              ++ (codes ", not " ++ (d ++ codes ". Rename it or move it back."))))
        500)

  -- `finally`, where the last step does not fail.
  abbrev pub and_then_forget :
      List Text
      → Ended SdkError (Unit {0}) × SdkGateway c.World
      → Ended SdkError (Unit {0}) × SdkGateway c.World
  and_then_forget [] r = r
  and_then_forget (p ∷ ps) (r, st) =
      and_then_forget ps (r, record st { resolve_cache = invalidate p st.resolve_cache })

  abbrev pub relocate : Text → Text → NodeEntity → NodeEntity → Does
  relocate s d node parent =
      if parent_path s === parent_path d
      then return tt
      else (do i ← iterate (c.move_node node parent); run_results i)

  abbrev pub rename : Text → Text → NodeEntity → Does
  rename s d node =
      if base_name s === base_name d
      then return tt
      else catch (call (c.rename_node node (base_name d))) (λ _. partial_move s d)

  abbrev pub move_into : Text → Text → NodeEntity → NodeEntity → Option NodeEntity → Does
  move_into s d node parent (some existing) st = destination_exists d st
  move_into s d node parent none st =
      and_then_forget (s ∷ d ∷ [])
        (catch (do relocate s d node parent; rename s d node) (λ e. raise (mapped e)) st)

  abbrev pub no_destination : Text → Does
  no_destination d =
      own get_name root_path c now
        (conflict_error (codes "Destination parent does not exist: " ++ parent_path d))

  abbrev pub invalid_destination : Does
  invalid_destination =
      own get_name root_path c now (plain_error (codes "Invalid destination name") 400)

  -- The tests that `move` and `copy` share: the destination's parent is a folder, its name is safe, and
  -- nothing stands there.
  abbrev pub check_parent :
      Text → Option NodeEntity → (NodeEntity → Option NodeEntity → Does) → Does
  check_parent d none next = no_destination d
  check_parent d (some parent) next =
      if not (is_folder parent.type)
      then no_destination d
      else if not (is_safe_segment (base_name d))
      then invalid_destination
      else (do existing ← resolve get_name root_path c now d true; next parent existing)

  unfoldable pub move_at : Text → Text → Does
  unfolding resolve_or_throw
  move_at s d =
      if is_root s || is_root d
      then own get_name root_path c now (plain_error (codes "Cannot move the root collection") 403)
      else if d === s || starts_with d (s ++ slash ∷ [])
      then own get_name root_path c now
          (plain_error (codes "Cannot move a collection into itself") 409)
      else (do
        node ← resolve_or_throw get_name root_path c now s
        parent ← resolve get_name root_path c now (parent_path d) false
        check_parent d parent (move_into s d node))

  unfoldable pub move : Text → Text → Does
  unfolding move_at
  move src dst = move_at (normalize src) (normalize dst)

  abbrev pub copy_into : Text → NodeEntity → NodeEntity → Option NodeEntity → Does
  copy_into d node parent (some existing) st = destination_exists d st
  copy_into d node parent none st = and_then_forget (d ∷ []) (
      catch (do i ← iterate (c.copy_node node.uid (base_name d) parent); run_results i)
        (λ e. raise (mapped e)) st)

  unfoldable pub copy_at : Text → Text → Does
  unfolding resolve_or_throw
  copy_at s d = do
    node ← resolve_or_throw get_name root_path c now s
    (if not (is_file node.type)
        then own get_name root_path c now
            (plain_error (codes "Server-side copy of collections is not supported") 501)
        else (do
          parent ← resolve get_name root_path c now (parent_path d) false
          check_parent d parent (copy_into d node)))

  unfoldable pub copy : Text → Text → Does
  unfolding copy_at
  copy src dst = copy_at (normalize src) (normalize dst)
