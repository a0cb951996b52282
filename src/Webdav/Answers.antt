-- ===== src/Webdav/Answers.antt =====
-- What the answers of `handleRequest` in src/service/webdav.ts say about a PUT.
use rclone_proton_drive_webd.Base.{
  ℕ, Bool, zero, suc, not, ◌&&◌, true, if◌then◌else◌, ◌≡◌, refl, false, Option, none, some, [],
  arith,
}
use rclone_proton_drive_webd.Base.Text.{Text}
use rclone_proton_drive_webd.Base.Int.{ℤ, pos, negsuc, eq_ℤ}
use rclone_proton_drive_webd.Gateway.{
  DriveGateway, Stream, PutOptions, PutResult, created, updated, skipped_identical, Outcome, ok,
  throw, Thrown, gateway, foreign,
}
use rclone_proton_drive_webd.Webdav.Http.{
  Request, Response, text_body, dav_response, error_to_response,
}
use rclone_proton_drive_webd.Webdav.Put.{
  WebdavOptions, Server, upload, choose_body, put_options, put_response, after_put, put_body,
  handle_put,
}
use rclone_proton_drive_webd.Webdav.Dispatch.{
  Method, is_options, session_rejected, method_of, path_of, dispatch, respond, handle_request,
}

-- The status that tells the client which result the gateway gave.
abbrev pub status_of : PutResult → ℕ
status_of created = 201
status_of updated = 204
status_of skipped_identical = 204

abbrev pub status_of_error : Thrown → ℕ
status_of_error (gateway e) = e.http_status
status_of_error foreign = 500

abbrev pub status_of_outcome : Outcome PutResult → ℕ
status_of_outcome (ok k) = status_of k
status_of_outcome (throw e) = status_of_error e

module _ (G : DriveGateway) (url_pathname : Text → Option Text) where
  -- The status of what the gateway did with the body.
  abbrev pub Forwarded :
      Stream → Text → PutOptions → Server G.State → Response × Server G.State → Type 0
  Forwarded body path o s r = r.0.status ≡ status_of_outcome (G.put path body o s.store).0

  abbrev pub Refused : Server G.State → Response × Server G.State → Type 0
  Refused s r = (r.0.status ≡ 409) × (r.1.store ≡ s.store) × (r.1.guard ≡ s.guard)

  -- By the body of a PUT and its declared size.
  abbrev pub Answer :
      Option Stream
      → Option ℤ
      → Text
      → PutOptions
      → Server G.State
      → Response × Server G.State
      → Type 0
  Answer (some body) size path o s r = Forwarded body path o s r
  Answer none (some (pos zero)) path o s r =
      Forwarded (record { chunks = []; broken = false }) path o s r
  Answer none (some (pos (suc n))) path o s r = Refused s r
  Answer none (some (negsuc n)) path o s r = Refused s r
  Answer none none path o s r = Refused s r

  after_put_status :
      (o : PutOptions) (path : Text) (now : ℕ) (r : Outcome PutResult) (s : Server G.State)
      → (respond (after_put G o path now (r, s))).0.status ≡ status_of_outcome r
  unfolding put_response error_to_response
  after_put_status o path now (ok created) s = refl
  after_put_status o path now (ok updated) s = refl
  after_put_status o path now (ok skipped_identical) s = refl
  after_put_status o path now (throw (gateway e)) s = refl
  after_put_status o path now (throw foreign) s = refl

  upload-Forwarded :
      (body : Stream) (path : Text) (o : PutOptions) (now : ℕ) (s : Server G.State)
      → Forwarded body path o s (respond (put_body G (upload body) o path now s))
  upload-Forwarded body path o now s =
      let put_result = G.put path body o s.store in
      after_put_status o path now put_result.0 (record s { store = put_result.1 })

  put_body-Answer :
      (b : Option Stream) (size : Option ℤ) (path : Text) (o : PutOptions) (now : ℕ)
      (s : Server G.State)
      → Answer b size path o s (respond (put_body G (choose_body b size) o path now s))
  unfolding error_to_response
  put_body-Answer (some body) size path o now s = upload-Forwarded body path o now s
  put_body-Answer none none path o now s = (refl, refl, refl)
  put_body-Answer none (some (pos zero)) path o now s =
      upload-Forwarded (record { chunks = []; broken = false }) path o now s
  put_body-Answer none (some (pos (suc n))) path o now s =
      let differ : eq_ℤ (pos (suc n)) (pos 0) ≡ false = ground arith in rw differ (refl, refl, refl)
  put_body-Answer none (some (negsuc n)) path o now s = (refl, refl, refl)

  -- In a valid session a PUT is answered 201 when the gateway created the file, 204 when it updated or skipped it, and with
  -- the status of the error when the upload failed; without a body, and without the declaration of zero
  -- bytes, it is answered 409, and neither the gateway nor the guard changes.
  pub handle_request-Answer :
      (req : Request) (opts : WebdavOptions) (now : ℕ) (s : Server G.State)
      → method_of req.method ≡ Method.put
      → opts.session_invalid ≡ false
      → Answer req.body
          (put_options req opts).size
          (path_of req)
          (put_options req opts)
          s
          (handle_request G url_pathname req opts now s)
  unfolding handle_request dispatch handle_put
  handle_request-Answer req opts now s m valid =
      rw (m, valid)
        (put_body-Answer req.body (put_options req opts).size (path_of req) (put_options req opts)
          now s)

  -- Once the session is known to be rejected, no request reaches the gateway or changes the guard:
  -- OPTIONS is answered 200, and every other method, known or not, 401.
  pub handle_request_session :
      (req : Request) (opts : WebdavOptions) (now : ℕ) (s : Server G.State)
      → opts.session_invalid ≡ true
      → let r = handle_request G url_pathname req opts now s in
        (r.0.status ≡ (if is_options (method_of req.method) then 200 else 401)) × (r.1 ≡ s)
  unfolding handle_request dispatch
  handle_request_session req opts now s invalid =
      go opts.session_invalid (method_of req.method) invalid
    where
      go :
          (b : Bool) (m : Method)
          → b ≡ true
          → let r : Response × Server G.State =
              if not (is_options m) && b
              then (dav_response 401 (text_body session_rejected) [], s)
              else respond (dispatch G url_pathname m req (path_of req) opts now s) in
            (r.0.status ≡ (if is_options m then 200 else 401)) × (r.1 ≡ s)
      go true Method.options e = (refl, refl)
      go true Method.propfind e = (refl, refl)
      go true Method.proppatch e = (refl, refl)
      go true Method.get e = (refl, refl)
      go true Method.head e = (refl, refl)
      go true Method.put e = (refl, refl)
      go true Method.patch e = (refl, refl)
      go true Method.mkcol e = (refl, refl)
      go true Method.delete e = (refl, refl)
      go true Method.move e = (refl, refl)
      go true Method.copy e = (refl, refl)
      go true Method.unknown e = (refl, refl)
      go false m e = cc
