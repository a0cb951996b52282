-- ===== src/Gateway.antt =====
-- src/service/gateway.ts: the data that the WebDAV layer and a storage gateway exchange, the errors
-- with their HTTP status, and the interface itself as a record of operations on a state.
use rclone_proton_drive_webd.Base.{ℕ, Bool, Option, List, [], ◌∷◌, ◌++◌}
use rclone_proton_drive_webd.Base.Text.{Text, codes}
use rclone_proton_drive_webd.Base.Int.{ℤ}

abbrev pub Bytes : Type 0
Bytes = List ℕ

-- A body that is read to its end: its chunks, and whether it fails after them.
pub record Stream : Type 0 where
  pub chunks : List Bytes
  pub broken : Bool

-- The bytes that a reader receives.
abbrev pub concat : List Bytes → Bytes
concat [] = []
concat (c ∷ cs) = c ++ concat cs

-- A JavaScript `Date`: a time in milliseconds, or `Invalid Date`.
pub data Date : Type 0 where
  invalid : Date
  at : ℤ → Date

pub record DriveEntry : Type 0 where
  pub name : Text
  pub is_dir : Bool
  pub size : ℕ
  pub mtime : Date
  pub sha1 : Option Text

-- `aborted` is the state of the abort signal.
pub record PutOptions : Type 0 where
  pub size : Option ℤ
  pub sha1 : Option Text
  pub mtime : Option Date
  pub immutable : Bool
  pub override_other_client_draft_for_path : Option Text
  pub aborted : Bool

pub data PutResult : Type 0 where
  created : PutResult
  updated : PutResult
  skipped_identical : PutResult

pub record ReadResult : Type 0 where
  pub stream : Stream
  pub size : ℕ
  pub total_size : ℕ

-- The error classes.
pub data ErrorName : Type 0 where
  gateway_error not_found conflict already_exists : ErrorName
  immutable_precondition draft_conflict integrity_failed : ErrorName

pub record GatewayError : Type 0 where
  pub name : ErrorName
  pub message : Text
  pub http_status : ℕ

-- What is thrown: a `GatewayError`, or an error of another class.
pub data Thrown : Type 0 where
  gateway : GatewayError → Thrown
  foreign : Thrown

abbrev pub plain_error : Text → ℕ → Thrown
plain_error message status =
    gateway (record { name = gateway_error; message = message; http_status = status })

abbrev pub not_found_error : Text → Thrown
not_found_error message =
    gateway (record { name = not_found; message = message; http_status = 404 })

abbrev pub conflict_error : Text → Thrown
conflict_error message = gateway (record { name = conflict; message = message; http_status = 409 })

abbrev pub already_exists_error : Text → Thrown
already_exists_error message =
    gateway (record { name = already_exists; message = message; http_status = 405 })

abbrev pub immutable_precondition_error : Text → Thrown
immutable_precondition_error message =
    gateway (record { name = immutable_precondition; message = message; http_status = 412 })

abbrev pub draft_conflict_error : Text → Thrown
draft_conflict_error message =
    gateway (record { name = draft_conflict; message = message; http_status = 409 })

abbrev pub integrity_failed_error : Text → Thrown
integrity_failed_error message =
    gateway (record { name = integrity_failed; message = message; http_status = 422 })

-- The default messages.
abbrev pub not_found_default : Text
not_found_default = codes "Not Found"

abbrev pub already_exists_default : Text
already_exists_default = codes "Already Exists"

abbrev pub immutable_default : Text
immutable_default = codes "Immutable: refusing to overwrite existing content"

abbrev pub draft_conflict_default : Text
draft_conflict_default = codes "An unfinished upload by another client blocks this name"

-- An awaited call: a value or what it threw, and the state that it leaves in either case.
pub data Outcome {ℓ} (A : Type ℓ) : Type ℓ where
  ok : A → Outcome A
  throw : Thrown → Outcome A

abbrev pub Op : Type 0 → Type 0 → Type 0
Op S A = S → Outcome A × S

abbrev pub return : {S A : Type 0} → A → Op S A
return a s = (ok a, s)

abbrev pub raise : {S A : Type 0} → Thrown → Op S A
raise e s = (throw e, s)

-- A step that reads no state.
abbrev pub lift : {S A : Type 0} → Outcome A → Op S A
lift o s = (o, s)

abbrev pub continue : {S A B : Type 0} → (A → Op S B) → Outcome A × S → Outcome B × S
continue f (ok a, s) = f a s
continue f (throw e, s) = (throw e, s)

infixl 5 ◌>>=◌ ◌>>◌
abbrev pub ◌>>=◌ : {S A B : Type 0} → Op S A → (A → Op S B) → Op S B
◌>>=◌ m f s = continue f (m s)

abbrev pub ◌>>◌ : {S B : Type 0} → Op S (Unit {0}) → Op S B → Op S B
◌>>◌ m k = m >>= λ _. k

pub record Quota : Type 0 where
  pub used : Option ℕ
  pub available : Option ℕ

-- `start` and `end` of a byte range, both inclusive.
abbrev pub ByteRange : Type 0
ByteRange = ℕ × ℕ

-- The flag of `read` says whether the signal was aborted before the call.
pub record DriveGateway : Type 1 where
  pub State : Type 0
  pub stat : Text → Op State (Option DriveEntry)
  pub list : Text → Op State (List DriveEntry)
  pub read : Text → Option ByteRange → Bool → Op State ReadResult
  pub put : Text → Stream → PutOptions → Op State PutResult
  pub mkcol : Text → Op State (Unit {0})
  pub remove : Text → Op State (Unit {0})
  pub move : Text → Text → Op State (Unit {0})
  pub copy : Text → Text → Op State (Unit {0})
  pub quota : Op State Quota
