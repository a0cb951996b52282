-- ===== src/Webdav/Guarded.antt =====
-- The guard behind `handleRequest`: what a failed PUT arms, and what a DELETE meets while the window
-- is open, whatever other requests come in between.
pub mod Steps
use rclone_proton_drive_webd.Base.{
  ℕ, ◌+◌, ◌<◌, ◌≤◌, ◌≡◌, ◌≢◌, ◌⊎◌, refl, Bool, true, false, not, ◌&&◌, inl, inr, Option, none, some,
  List, [], ◌∷◌, arith, Bool-cases, All,
}
use rclone_proton_drive_webd.Base.Text.{Text, text_dec}
use rclone_proton_drive_webd.Gateway.{
  DriveGateway, DriveEntry, PutOptions, PutResult, Stream, Thrown, Op, Outcome, ok, throw, continue,
  return,
}
use rclone_proton_drive_webd.Guard.{
  OverwriteGuard, overwrite_protect_ms, protect, is_protected, release,
}
use rclone_proton_drive_webd.Guard.Window.{
  IsMap, expiry_of, is_protected-IsMap, protect-IsMap, release-IsMap, expiry_of-protect,
  expiry_of-release, expiry_of-queried, is_protected_lem,
}
use rclone_proton_drive_webd.Webdav.Http.{Request, Response, dav_response, no_body}
use rclone_proton_drive_webd.Webdav.Put.{
  WebdavOptions, Server, arm_guard, after_put, handle_put, protect_if, finds, choose_body,
  put_options, put_body, BodyChoice, upload, refuse,
}
use rclone_proton_drive_webd.Webdav.Dispatch.{
  Method, created_after, is_options, after_remove, release_guard, checked_delete, method_of,
  path_of, dispatch, handle_request, Event, serve, handle_delete, destination_path, refused_delete,
  respond,
}
use rclone_proton_drive_webd.Webdav.Guarded.Steps.{
  Guards, protected-Guards, respond-Guards, handle_request-Guards, handle_delete-eq-refused,
}

module _ (G : DriveGateway) (url_pathname : Text → Option Text) where
  -- The requests come while the window that was opened at `t` is open.
  abbrev pub InWindow : ℕ → Event → Type 0
  InWindow t ev = (t ≤ ev.now) × (ev.now < t + overwrite_protect_ms)

  serve-Guards :
      (p : Text) (t : ℕ) (evs : List Event) (s : Server G.State)
      → All (InWindow t) evs
      → Guards p (t + overwrite_protect_ms) s.guard
      → Guards p (t + overwrite_protect_ms) (serve G url_pathname evs s).guard
  unfolding serve
  serve-Guards p t [] s w h = h
  serve-Guards p t (ev ∷ evs) s ((from, to), w) h = serve-Guards p t evs _ w (
      handle_request-Guards G url_pathname p (t + overwrite_protect_ms) ev.now to (omega arith)
        ev.req ev.opts s h)

  -- A PUT whose upload fails while the path holds something arms the guard for the path.
  handle_put_armed :
      (req : Request) (path : Text) (opts : WebdavOptions) (t : ℕ) (store : G.State)
      (g : OverwriteGuard) (body : Stream) (error : Thrown) (entry : DriveEntry)
      → IsMap g
      → choose_body req.body (put_options req opts).size ≡ upload body
      → (G.put path body (put_options req opts) store).0 ≡ throw error
      → (G.stat path (G.put path body (put_options req opts) store).1).0 ≡ ok (some entry)
      → Guards path
          (t + overwrite_protect_ms)
          (handle_put G req path opts t (record { store = store; guard = some g })).1.guard
  unfolding handle_put arm_guard
  handle_put_armed req path opts t store g body error entry u chosen failed found =
      rw (chosen, failed, found) (protected-Guards path t g u)

  -- While the guard protects the path, a DELETE of it is answered 403, and the gateway keeps its
  -- state.
  handle_request-refused :
      (p : Text) (e now : ℕ) (req : Request) (opts : WebdavOptions) (s : Server G.State)
      → now < e
      → e ≤ now + overwrite_protect_ms
      → Guards p e s.guard
      → method_of req.method ≡ Method.delete
      → path_of req ≡ p
      → opts.session_invalid ≡ false
      → let r = handle_request G url_pathname req opts now s in
        (r.0 ≡ refused_delete) × (r.1.store ≡ s.store)
  unfolding handle_request dispatch
  handle_request-refused p e now req opts s to later h m path valid =
      let (a, b) = handle_delete-eq-refused G url_pathname p e now to later s h in
      rw (m, path) (rw valid (rw a (refl, b)))

  -- The guard after a PUT request whose upload fails while the path holds something.
  handle_request_armed :
      (req : Request) (opts : WebdavOptions) (t : ℕ) (store : G.State) (g : OverwriteGuard)
      (body : Stream) (error : Thrown) (entry : DriveEntry)
      → IsMap g
      → method_of req.method ≡ Method.put
      → opts.session_invalid ≡ false
      → choose_body req.body (put_options req opts).size ≡ upload body
      → (G.put (path_of req) body (put_options req opts) store).0 ≡ throw error
      → (G.stat (path_of req) (G.put (path_of req) body (put_options req opts) store).1).0
        ≡ ok (some entry)
      → Guards
          (path_of req)
          (t + overwrite_protect_ms)
          (handle_request G url_pathname req opts t
            (record { store = store; guard = some g })).1.guard
  unfolding handle_request dispatch handle_put
  handle_request_armed req opts t store g body error entry u m valid chosen failed found =
      rw (m, valid)
        (respond-Guards (path_of req) (t + overwrite_protect_ms) _ _ (
          handle_put_armed req (path_of req) opts t store g body error entry u chosen failed found))

  -- The session is valid, a PUT with a body reaches the gateway and fails at the time `t`, for whatever
  -- reason the gateway gives, and the `stat` of the path with which the handler then looks for content
  -- answers, and finds something. After it the server handles any requests within the window of 120
  -- seconds. A DELETE of the path within the window, in a valid session, is then answered 403, and leaves the
  -- gateway's state as it finds it. Where that `stat` fails or finds nothing, nothing is said.
  pub delete_after_failed_put :
      (req : Request) (opts : WebdavOptions) (t : ℕ) (store : G.State) (g : OverwriteGuard)
      (body : Stream) (error : Thrown) (entry : DriveEntry) (between : List Event) (cleanup : Event)
      → IsMap g
      → method_of req.method ≡ Method.put
      → opts.session_invalid ≡ false
      → choose_body req.body (put_options req opts).size ≡ upload body
      → (G.put (path_of req) body (put_options req opts) store).0 ≡ throw error
      → (G.stat (path_of req) (G.put (path_of req) body (put_options req opts) store).1).0
        ≡ ok (some entry)
      → All (InWindow t) between
      → InWindow t cleanup
      → method_of cleanup.req.method ≡ Method.delete
      → path_of cleanup.req ≡ path_of req
      → cleanup.opts.session_invalid ≡ false
      → let s =
          serve G url_pathname between
            (handle_request G url_pathname req opts t
              (record { store = store; guard = some g })).1 in
        let r = handle_request G url_pathname cleanup.req cleanup.opts cleanup.now s in
        (r.0 ≡ refused_delete) × (r.1.store ≡ s.store)
  delete_after_failed_put req opts t store g body error entry between cleanup u m valid chosen
        failed found w (from, to) m' path valid' =
      handle_request-refused (path_of req) (t + overwrite_protect_ms) cleanup.now cleanup.req
        cleanup.opts _ to (omega arith)
        (serve-Guards (path_of req) t between _ w
          (handle_request_armed req opts t store g body error entry u m valid chosen failed found))
        m' path valid'

  -- The gateway's state after a PUT whose upload fails: that of the `stat` after the upload.
  pub handle_request_stat :
      (req : Request) (opts : WebdavOptions) (t : ℕ) (store : G.State) (g : OverwriteGuard)
      (body : Stream) (error : Thrown)
      → method_of req.method ≡ Method.put
      → opts.session_invalid ≡ false
      → choose_body req.body (put_options req opts).size ≡ upload body
      → (G.put (path_of req) body (put_options req opts) store).0 ≡ throw error
      → (handle_request G url_pathname req opts t
          (record { store = store; guard = some g })).1.store
        ≡ (G.stat (path_of req) (G.put (path_of req) body (put_options req opts) store).1).1
  unfolding handle_request dispatch handle_put arm_guard
  handle_request_stat req opts t store g body error m valid chosen failed =
      rw (m, valid) (rw (chosen, failed) refl)
