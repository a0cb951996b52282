-- ===== src/Sdk/Client.antt =====
-- What src/service/sdkGateway.ts calls of the Proton Drive SDK, as a record of operations on a world that
-- the service does not see, and the state of `SdkGateway` itself.
use rclone_proton_drive_webd.Base.{ℕ, Bool, false, Option, none, some, List, [], ◌∷◌}
use rclone_proton_drive_webd.Base.Text.{Text}
use rclone_proton_drive_webd.Base.Int.{ℤ}
use rclone_proton_drive_webd.Base.Action.{Ended, done, Action, return, raise}
use rclone_proton_drive_webd.Gateway.{Stream, Date, Thrown, gateway, foreign}
use rclone_proton_drive_webd.Sdk.Cache.{ResolveCache}
use rclone_proton_drive_webd.Sdk.Nodes.{NodeEntity}
use rclone_proton_drive_webd.Sdk.Errors.{SdkError}

-- What an iteration yields, and the error that it ends with, if it does.
pub record Iteration (A : Type 0) : Type 0 where
  pub items : List A
  pub error : Option SdkError

-- The metadata of an upload; the media type is left out.
pub record UploadMetadata : Type 0 where
  pub expected_size : Option ℤ
  pub expected_sha1 : Option Text
  pub modification_time : Option Date
  pub override_existing_draft_by_other_client : Bool

-- `UsedSpace` and `MaxSpace` of the user.
pub record UserSpace : Type 0 where
  pub used_space : Option ℕ
  pub max_space : Option ℕ

-- A result of `trashNodes`, `moveNodes` and `copyNodes` is its error, if it has one. An upload is the
-- request for an uploader, the transfer and its completion.
pub record Client : Type 1 where
  pub World : Type 0
  pub root_node : Action SdkError World NodeEntity
  pub get_node : Text → Action SdkError World NodeEntity
  pub iterate_folder_children : NodeEntity → World → Iteration NodeEntity × World
  pub trash_node : NodeEntity → World → Iteration (Option SdkError) × World
  pub move_node : NodeEntity → NodeEntity → World → Iteration (Option SdkError) × World
  pub rename_node : NodeEntity → Text → Action SdkError World (Unit {0})
  pub copy_node : Text → Text → NodeEntity → World → Iteration (Option SdkError) × World
  pub create_folder : NodeEntity → Text → Action SdkError World Text
  pub upload_file : NodeEntity → Text → UploadMetadata → Stream → Action SdkError World (Unit {0})
  pub upload_revision : Text → UploadMetadata → Stream → Action SdkError World (Unit {0})
  pub user_space : Action SdkError World UserSpace

-- An error of the service's own classes.
abbrev pub own_error : Thrown → SdkError
own_error (gateway g) = record {
  gateway_class = some g;
  same_name = none;
  is_integrity = false;
  is_abort = false;
  is_rate_limited = false;
  is_connection = false;
  is_server = false;
  is_validation = false;
  message = g.message;
}
own_error foreign = record {
  gateway_class = none;
  same_name = none;
  is_integrity = false;
  is_abort = false;
  is_rate_limited = false;
  is_connection = false;
  is_server = false;
  is_validation = false;
  message = [];
}

-- `for await (const result of ...) if (!result.ok) throw result.error`
abbrev pub first_error : List (Option SdkError) → Option SdkError → Option SdkError
first_error [] end = end
first_error (none ∷ results) end = first_error results end
first_error (some e ∷ results) end = some e

-- `SdkGateway`: the SDK's world, `resolveCache`, and `rootUid`.
pub record SdkGateway (World : Type 0) : Type 0 where
  pub world : World
  pub resolve_cache : ResolveCache
  pub root_uid : Option Text

module _ {World : Type 0} where
  abbrev pub in_world :
      {A : Type 0}
      → SdkGateway World
      → Ended SdkError A × World
      → Ended SdkError A × SdkGateway World
  in_world st (r, w) = (r, record st { world = w })

  -- A call of the SDK.
  abbrev pub call : {A : Type 0} → Action SdkError World A → Action SdkError (SdkGateway World) A
  call act st = in_world st (act st.world)

  abbrev pub kept_items :
      {A : Type 0}
      → SdkGateway World
      → Iteration A × World
      → Ended SdkError (Iteration A) × SdkGateway World
  kept_items st (i, w) = (done i, record st { world = w })

  -- The iteration, with its error still to be met.
  abbrev pub iterate :
      {A : Type 0}
      → (World → Iteration A × World)
      → Action SdkError (SdkGateway World) (Iteration A)
  iterate act st = kept_items st (act st.world)

  abbrev pub change_cache :
      (ResolveCache → ResolveCache) → Action SdkError (SdkGateway World) (Unit {0})
  change_cache f st = (done tt, record st { resolve_cache = f st.resolve_cache })

  abbrev pub raise_if_any : Option SdkError → Action SdkError (SdkGateway World) (Unit {0})
  raise_if_any none = return tt
  raise_if_any (some e) = raise e
