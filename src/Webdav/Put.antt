-- ===== src/Webdav/Put.antt =====
-- `handlePut` of src/service/webdav.ts: the upload, and the guard that a failed one arms.
use rclone_proton_drive_webd.Base.{
  ℕ, Bool, true, false, Option, none, some, [], ◌∷◌, ◌++◌, if◌then◌else◌,
}
use rclone_proton_drive_webd.Base.Text.{Text, codes}
use rclone_proton_drive_webd.Base.Map.{Map}
use rclone_proton_drive_webd.Base.Int.{ℤ, pos, eq_ℤ}
use rclone_proton_drive_webd.Gateway.{
  DriveGateway, DriveEntry, Stream, Date, PutOptions, PutResult, created, updated,
  skipped_identical, Op, Outcome, ok, throw, conflict_error,
}
use rclone_proton_drive_webd.Guard.{OverwriteGuard, protect}
use rclone_proton_drive_webd.Number.{decimal_ℤ}
use rclone_proton_drive_webd.Webdav.Http.{Request, Response, header, no_body, dav_response}
use rclone_proton_drive_webd.Webdav.Headers.{parse_oc_checksum, parse_mtime, parse_content_length}
use rclone_proton_drive_webd.Webdav.Handlers.{checksum_header}

-- `sessionInvalid` is the answer of the callback, false where there is none. The guard is part of
-- the server's state.
pub record WebdavOptions : Type 0 where
  pub immutable : Bool
  pub allow_override_draft_for_path : Option Text
  pub session_invalid : Bool

pub record Server (S : Type 0) : Type 0 where
  pub store : S
  pub guard : Option OverwriteGuard

-- A call of the gateway leaves the guard alone.
abbrev pub on_store : {S A : Type 0} → Op S A → Op (Server S) A
on_store op s = let (r, store) = op s.store in (r, record s { store = store })

abbrev declares_zero : Option ℤ → Bool
declares_zero none = false
declares_zero (some n) = eq_ℤ n (pos 0)

abbrev no_body_message : Option ℤ → Text
no_body_message none =
    codes "PUT has no body and no Content-Length; refusing to guess an empty upload"
no_body_message (some n) =
    codes "PUT declared " ++ (decimal_ℤ n ++ codes " bytes but carried no body")

abbrev pub empty_stream : Stream
empty_stream = record { chunks = []; broken = false }

-- The body to upload, or the message of the refusal.
pub data BodyChoice : Type 0 where
  upload : Stream → BodyChoice
  refuse : Text → BodyChoice

abbrev pub choose_body : Option Stream → Option ℤ → BodyChoice
choose_body (some body) declared = upload body
choose_body none declared =
    if declares_zero declared then upload empty_stream else refuse (no_body_message declared)

abbrev pub put_options : Request → WebdavOptions → PutOptions
put_options req opts = record {
  size = parse_content_length (header req (codes "Content-Length"));
  sha1 = parse_oc_checksum (header req (codes "OC-Checksum"));
  mtime = parse_mtime (header req (codes "X-OC-Mtime"));
  immutable = opts.immutable;
  override_other_client_draft_for_path = opts.allow_override_draft_for_path;
  aborted = req.aborted;
}

abbrev mtime_header : Option Date → Map Text
mtime_header none = []
mtime_header (some d) = (codes "X-OC-Mtime", codes "accepted") ∷ []

unfoldable pub put_response : PutOptions → PutResult → Response
put_response o created = dav_response 201 no_body (checksum_header o.sha1 ++ mtime_header o.mtime)
put_response o updated = dav_response 204 no_body (checksum_header o.sha1 ++ mtime_header o.mtime)
put_response o skipped_identical = dav_response 204 no_body (checksum_header o.sha1)

-- `gw.stat(path).catch(() => null)` found an entry.
abbrev pub finds : Outcome (Option DriveEntry) → Bool
finds (ok none) = false
finds (ok (some e)) = true
finds (throw e) = false

abbrev pub protect_if : Bool → Text → ℕ → OverwriteGuard → OverwriteGuard
protect_if found path now g = if found then protect path now g else g

module _ (G : DriveGateway) where
  -- The `catch` block, without the `throw` that ends it.
  unfoldable pub arm_guard : Text → ℕ → Server G.State → Server G.State
  arm_guard path now s = elim s.guard [
    | none ↦ s
    | some g ↦
        let (r, store) = G.stat path s.store in
        record { store = store; guard = some (protect_if (finds r) path now g) }
  ]

  abbrev pub after_put :
      PutOptions → Text → ℕ → Outcome PutResult × Server G.State → Outcome Response × Server G.State
  after_put o path now (ok result, s) = (ok (put_response o result), s)
  after_put o path now (throw error, s) = (throw error, arm_guard path now s)

  abbrev pub put_body : BodyChoice → PutOptions → Text → ℕ → Op (Server G.State) Response
  put_body (refuse message) o path now s = (throw (conflict_error message), s)
  put_body (upload body) o path now s = after_put o path now (on_store (G.put path body o) s)

  unfoldable pub handle_put : Request → Text → WebdavOptions → ℕ → Op (Server G.State) Response
  handle_put req path opts now s =
      let o = put_options req opts in put_body (choose_body req.body o.size) o path now s
