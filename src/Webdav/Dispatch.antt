-- ===== src/Webdav/Dispatch.antt =====
-- `handleRequest` of src/service/webdav.ts.
use mathlib.Core.Option.{get_or}
use rclone_proton_drive_webd.Base.{
  ℕ, Bool, true, false, not, ◌&&◌, Option, none, some, List, [], ◌∷◌, ◌++◌, if◌then◌else◌,
}
use rclone_proton_drive_webd.Base.Text.{Text, codes, ◌===◌, text_dec}
use rclone_proton_drive_webd.Base.Map.{Map}
use rclone_proton_drive_webd.Gateway.{
  DriveGateway, Op, Outcome, ok, throw, return, lift, ◌>>=◌, conflict_error,
}
use rclone_proton_drive_webd.Guard.{OverwriteGuard, is_protected, release}
use rclone_proton_drive_webd.Paths.{normalize, decode}
use rclone_proton_drive_webd.Webdav.Http.{
  Request, Response, header, no_body, text_body, dav_response, xml_ct, error_to_response,
}
use rclone_proton_drive_webd.Webdav.Headers.{to_upper}
use rclone_proton_drive_webd.Webdav.Handlers.{
  handle_propfind, handle_proppatch, handle_recalculate_hash, handle_get,
}
use rclone_proton_drive_webd.Webdav.Put.{WebdavOptions, Server, on_store, handle_put}

pub data Method : Type 0 where
  options propfind proppatch get head put patch mkcol delete move copy : Method
  unknown : Method

abbrev pub is_options : Method → Bool
is_options options = true
is_options _ = false

unfoldable pub method_of : Text → Method
unfolding text_dec
method_of name =
    let m = to_upper name in
    if m === codes "OPTIONS"
    then options
    else if m === codes "PROPFIND"
    then propfind
    else if m === codes "PROPPATCH"
    then proppatch
    else if m === codes "GET"
    then get
    else if m === codes "HEAD"
    then head
    else if m === codes "PUT"
    then put
    else if m === codes "PATCH"
    then patch
    else if m === codes "MKCOL"
    then mkcol
    else if m === codes "DELETE"
    then delete
    else if m === codes "MOVE"
    then move
    else if m === codes "COPY"
    then copy
    else unknown

abbrev pub allow : Map Text
allow =
    (
      codes "Allow",
      codes "OPTIONS, GET, HEAD, PUT, PATCH, DELETE, PROPFIND, PROPPATCH, MKCOL, MOVE, COPY",
    )
    ∷ []

abbrev pub session_rejected : Text
session_rejected =
    codes "Proton rejected this session: the saved token is no longer valid. "
    ++ (codes "Re-authenticate with the official Proton Drive CLI (`auth login`) against the same "
        ++ codes "data directory, then restart this service. Retrying will not help.")

abbrev pub refused_delete : Response
refused_delete =
    dav_response 403
      (text_body (
        codes
          "<?xml version=\"1.0\"?><d:error xmlns:d=\"DAV:\"><d:message>Refusing to delete committed content immediately after a failed overwrite</d:message></d:error>"))
      xml_ct

unfoldable pub path_of : Request → Text
unfolding normalize decode
path_of req = normalize (decode req.pathname)

-- `opts.guard?.isProtected(path)`, which prunes.
abbrev pub check_guard : Text → ℕ → Option OverwriteGuard → Option OverwriteGuard × Bool
check_guard path now none = (none, false)
check_guard path now (some g) = let (g', b) = is_protected path now g in (some g', b)

abbrev pub release_guard : Text → Option OverwriteGuard → Option OverwriteGuard
release_guard path none = none
release_guard path (some g) = some (release path g)

-- The `catch` of the dispatcher.
abbrev pub respond : {S : Type 0} → Outcome Response × S → Response × S
respond (ok r, s) = (r, s)
respond (throw e, s) = (error_to_response e, s)

abbrev non_empty : Option Text → Option Text
non_empty none = none
non_empty (some []) = none
non_empty (some (c ∷ s)) = some (c ∷ s)

-- `url_pathname` is `new URL(dest).pathname`, `none` where the constructor throws.
module _ (url_pathname : Text → Option Text) where
  abbrev destination_or_throw : Option Text → Outcome Text
  destination_or_throw none = throw (conflict_error (codes "Missing Destination header"))
  destination_or_throw (some dest) = ok (normalize (decode (get_or (url_pathname dest) dest)))

  unfoldable pub destination_path : Request → Outcome Text
  destination_path req = destination_or_throw (non_empty (header req (codes "Destination")))

abbrev pub created_after : {S : Type 0} → Op S (Unit {0}) → Op (Server S) Response
created_after op = do _ ← on_store op; return (dav_response 201 no_body [])

module _ (G : DriveGateway) (url_pathname : Text → Option Text) where
  abbrev pub after_remove :
      Text → Outcome (Unit {0}) × Server G.State → Outcome Response × Server G.State
  after_remove path (ok _, s) =
      (ok (dav_response 204 no_body []), record s { guard = release_guard path s.guard })
  after_remove path (throw e, s) = (throw e, s)

  abbrev pub checked_delete : Text → Bool → Op (Server G.State) Response
  checked_delete path true s = (ok refused_delete, s)
  checked_delete path false s = after_remove path (on_store (G.remove path) s)

  unfoldable pub handle_delete : Text → ℕ → Op (Server G.State) Response
  handle_delete path now s =
      let (guard, protected) = check_guard path now s.guard in
      checked_delete path protected (record s { guard = guard })

  -- The branches of the `switch`.
  unfoldable pub dispatch :
      Method → Request → Text → WebdavOptions → ℕ → Op (Server G.State) Response
  dispatch options req path opts now = return (dav_response 200 no_body allow)
  dispatch propfind req path opts now = on_store (handle_propfind G req path)
  dispatch proppatch req path opts now = on_store (handle_proppatch G req path)
  dispatch get req path opts now = on_store (handle_get G req path false)
  dispatch head req path opts now = on_store (handle_get G req path true)
  dispatch put req path opts now = handle_put G req path opts now
  dispatch patch req path opts now = on_store (handle_recalculate_hash G req path)
  dispatch mkcol req path opts now = created_after (G.mkcol path)
  dispatch delete req path opts now = handle_delete path now
  dispatch move req path opts now = do
    dest ← lift (destination_path url_pathname req)
    created_after (G.move path dest)
  dispatch copy req path opts now = do
    dest ← lift (destination_path url_pathname req)
    created_after (G.copy path dest)
  dispatch unknown req path opts now = return (dav_response 405 no_body allow)

  -- `now` is `Date.now()` at the one place where a request reads it.
  unfoldable pub handle_request :
      Request → WebdavOptions → ℕ → Server G.State → Response × Server G.State
  handle_request req opts now s =
      let method = method_of req.method in
      if not (is_options method) && opts.session_invalid
      then (dav_response 401 (text_body session_rejected) [], s)
      else respond (dispatch method req (path_of req) opts now s)

-- A request with the options and the clock that it is handled under.
pub record Event : Type 0 where
  pub req : Request
  pub opts : WebdavOptions
  pub now : ℕ

-- The requests one after the other.
unfoldable pub serve :
    (G : DriveGateway) → (Text → Option Text) → List Event → Server G.State → Server G.State
serve G url_pathname [] s = s
serve G url_pathname (e ∷ es) s =
    serve G url_pathname es (handle_request G url_pathname e.req e.opts e.now s).1
