-- ===== src/Sdk/Errors.antt =====
-- `mapGenericError` and `mapUploadError` of src/service/sdkGateway.ts.
use rclone_proton_drive_webd.Base.{Bool, true, false, Option, none, some, ◌++◌, if◌then◌else◌}
use rclone_proton_drive_webd.Base.Text.{Text, codes}
use rclone_proton_drive_webd.Gateway.{
  GatewayError, Thrown, gateway, plain_error, draft_conflict_error, integrity_failed_error,
}

-- What the service asks of a thrown value: the classes of the SDK that it is an instance of, for a
-- name conflict whether an unfinished upload holds the name, and its text.
pub record SdkError : Type 0 where
  pub gateway_class : Option GatewayError
  pub same_name : Option Bool
  pub is_integrity : Bool
  pub is_abort : Bool
  pub is_rate_limited : Bool
  pub is_connection : Bool
  pub is_server : Bool
  pub is_validation : Bool
  pub message : Text

abbrev pub map_sdk_error : SdkError → Thrown
map_sdk_error e =
    if e.is_abort
    then plain_error (codes "Operation aborted") 499
    else if e.is_rate_limited
    then plain_error (codes "Rate limited by Proton; retry later") 429
    else if e.is_connection
    then plain_error (codes "Proton is unreachable") 503
    else if e.is_server
    then plain_error (codes "Proton API error: " ++ e.message) 502
    else if e.is_validation
    then plain_error e.message 422
    else plain_error (codes "Internal error: " ++ e.message) 500

unfoldable pub map_generic_error : SdkError → Thrown
map_generic_error e = elim e.gateway_class [ none ↦ map_sdk_error e | some g ↦ gateway g ]

abbrev pub draft_message : Text → Text
draft_message path =
    path
    ++ (codes ": an unfinished upload blocks this name. It may be this service's own draft, "
        ++ (codes "if deleting it just failed transiently; retry first. "
            ++ (codes "Only if it persists, and the draft belongs to a different client, "
                ++ (codes "authorise exactly this path with PROTON_WEBDAV_OVERRIDE_DRAFT_PATH="
                    ++ (path ++ codes ".")))))

abbrev pub map_name_conflict : Bool → Text → Thrown
map_name_conflict true path = draft_conflict_error (draft_message path)
map_name_conflict false path =
    plain_error (path ++ codes ": a file with this name was created concurrently") 412

abbrev pub map_upload_class : SdkError → Text → Thrown
map_upload_class e path = elim e.same_name [
  | some unfinished ↦ map_name_conflict unfinished path
  | none ↦
      if e.is_integrity
      then integrity_failed_error (path ++ (codes ": " ++ e.message))
      else map_generic_error e
]

unfoldable pub map_upload_error : SdkError → Text → Thrown
unfolding map_generic_error
map_upload_error e path = elim e.gateway_class [
  | none ↦ map_upload_class e path
  | some g ↦ gateway g
]
