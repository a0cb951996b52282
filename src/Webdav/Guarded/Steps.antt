-- ===== src/Webdav/Guarded/Steps.antt =====
-- What one request behind `handleRequest` of src/service/webdav.ts does to the guard.
use rclone_proton_drive_webd.Base.{
  ℕ, ◌+◌, ◌<◌, ◌≤◌, ◌≡◌, ◌≢◌, ◌⊎◌, refl, Bool, true, false, not, ◌&&◌, inl, inr, Option, none, some,
  [], arith, Bool-cases,
}
use rclone_proton_drive_webd.Base.Text.{Text, text_dec}
use rclone_proton_drive_webd.Gateway.{
  DriveGateway, PutOptions, PutResult, Op, Outcome, ok, throw, continue, return,
}
use rclone_proton_drive_webd.Guard.{
  OverwriteGuard, overwrite_protect_ms, protect, is_protected, release,
}
use rclone_proton_drive_webd.Guard.Window.{
  IsMap, expiry_of, is_protected-IsMap, protect-IsMap, release-IsMap, expiry_of-protect,
  expiry_of-release, expiry_of-queried, is_protected_lem,
}
use rclone_proton_drive_webd.Webdav.Http.{Request, Response, dav_response, no_body}
use rclone_proton_drive_webd.Webdav.Put.{
  WebdavOptions, Server, arm_guard, after_put, handle_put, protect_if, finds, put_options, put_body,
  BodyChoice, upload, refuse,
}
use rclone_proton_drive_webd.Webdav.Dispatch.{
  Method, created_after, is_options, after_remove, release_guard, checked_delete, method_of,
  path_of, dispatch, handle_request, handle_delete, destination_path, refused_delete, respond,
}

abbrev Until : ℕ → Option ℕ → Type 0
Until e none = ⊥
Until e (some expiry) = e ≤ expiry

-- The guard is there, and protects the path at least until `e`.
abbrev pub Guards : Text → ℕ → Option OverwriteGuard → Type 0
Guards p e none = ⊥
Guards p e (some g) = IsMap g × Until e (expiry_of p g)

module _ (p : Text) (e now : ℕ) (g : OverwriteGuard) (h : Guards p e (some g)) where
  is_protected-Guards : (q : Text) → now < e → Guards p e (some (is_protected q now g).0)
  is_protected-Guards q open_ =
      (is_protected-IsMap q now g h.0, ground (arith, expiry_of-queried p q now g h.0))

  is_protected-eq-true : now < e → (is_protected p now g).1 ≡ true
  is_protected-eq-true open_ = ground (arith, is_protected_lem p now g h.0)

  protect-Guards :
      (q : Text) → now < e → e ≤ now + overwrite_protect_ms → Guards p e (some (protect q now g))
  protect-Guards q open_ later =
      (protect-IsMap q now g h.0, ground (arith, expiry_of-protect p q now g h.0))

  release-Guards : (q : Text) → q ≢ p → Guards p e (some (release q g))
  release-Guards q ne = (release-IsMap q g h.0, ground (arith, expiry_of-release p q g))

pub protected-Guards :
    (path : Text) (t : ℕ) (g : OverwriteGuard)
    → IsMap g
    → Guards path (t + overwrite_protect_ms) (some (protect path t g))
protected-Guards path t g u =
    (protect-IsMap path t g u, ground (arith, expiry_of-protect path path t g u))

-- The steps of a handler that leave the guard alone.
continue-Guards :
    {S A B : Type 0} (p : Text) (e : ℕ) (f : A → Op (Server S) B) (o : Outcome A) (s : Server S)
    → Guards p e s.guard
    → ((a : A) → Guards p e (f a s).1.guard)
    → Guards p e (continue f (o, s)).1.guard
continue-Guards p e f (ok a) s h k = k a
continue-Guards p e f (throw t) s h k = h

created_after-Guards :
    {S : Type 0} (p : Text) (e : ℕ) (op : Op S (Unit {0})) (s : Server S)
    → Guards p e s.guard
    → Guards p e (created_after op s).1.guard
created_after-Guards {S} p e op s h = go (op s.store)
  where
    go :
        (r : Outcome (Unit {0}) × S)
        → Guards p e
            (continue
              (λ _. return (dav_response 201 no_body []))
              (r.0, record s { store = r.1 })).1.guard
    go (ok _, s') = h
    go (throw t, s') = h

pub respond-Guards :
    {S : Type 0} (p : Text) (e : ℕ) (o : Outcome Response) (s : Server S)
    → Guards p e s.guard
    → Guards p e (respond (o, s)).1.guard
respond-Guards p e (ok r) s h = h
respond-Guards p e (throw t) s h = h

-- A request at `now`, inside a window that ends at `e` and was opened at or before `now`.
module _ (G : DriveGateway) (url_pathname : Text → Option Text) (p : Text) (e now : ℕ)
    (open_ : now < e) (later : e ≤ now + overwrite_protect_ms) where
  arm_guard-Guards :
      (path : Text) (s : Server G.State)
      → Guards p e s.guard
      → Guards p e (arm_guard G path now s).guard
  unfolding arm_guard
  arm_guard-Guards path s h = go s.guard h
    where
      go :
          (og : Option OverwriteGuard)
          → Guards p e og
          → Guards p e (arm_guard G path now (record s { guard = og })).guard
      go none h = h
      go (some g) h = armed (finds (G.stat path s.store).0)
        where
          armed : (b : Bool) → Guards p e (some (protect_if b path now g))
          armed true = protect-Guards p e now g h path open_ later
          armed false = h

  after_put-Guards :
      (o : PutOptions) (path : Text) (r : Outcome PutResult) (s : Server G.State)
      → Guards p e s.guard
      → Guards p e (after_put G o path now (r, s)).1.guard
  after_put-Guards o path (ok result) s h = h
  after_put-Guards o path (throw t) s h = arm_guard-Guards path s h

  put_body-Guards :
      (c : BodyChoice) (o : PutOptions) (path : Text) (s : Server G.State)
      → Guards p e s.guard
      → Guards p e (put_body G c o path now s).1.guard
  put_body-Guards (refuse message) o path s h = h
  put_body-Guards (upload body) o path s h = after_put-Guards o path _ _ h

  handle_put-Guards :
      (req : Request) (path : Text) (opts : WebdavOptions) (s : Server G.State)
      → Guards p e s.guard
      → Guards p e (handle_put G req path opts now s).1.guard
  unfolding handle_put
  handle_put-Guards req path opts s h = put_body-Guards _ (put_options req opts) path s h

  after_remove-Guards :
      (path : Text) (r : Outcome (Unit {0})) (s : Server G.State)
      → path ≢ p
      → Guards p e s.guard
      → Guards p e (after_remove G url_pathname path (r, s)).1.guard
  after_remove-Guards path (ok _) s ne h = go s.guard h
    where
      go : (og : Option OverwriteGuard) → Guards p e og → Guards p e (release_guard path og)
      go none h = h
      go (some g) h = release-Guards p e now g h path ne
  after_remove-Guards path (throw t) s ne h = h

  checked_delete-Guards :
      (path : Text) (b : Bool) (s : Server G.State)
      → (b ≡ true) ⊎ (path ≢ p)
      → Guards p e s.guard
      → Guards p e (checked_delete G url_pathname path b s).1.guard
  checked_delete-Guards path true s side h = h
  checked_delete-Guards path false s (inl t) h = cc
  checked_delete-Guards path false s (inr ne) h = after_remove-Guards path _ _ ne h

  handle_delete-Guards :
      (path : Text) (s : Server G.State)
      → Guards p e s.guard
      → Guards p e (handle_delete G url_pathname path now s).1.guard
  unfolding handle_delete
  handle_delete-Guards path s h = go s.guard h
    where
      go :
          (og : Option OverwriteGuard)
          → Guards p e og
          → Guards p e (handle_delete G url_pathname path now (record s { guard = og })).1.guard
      go none h = absurd h
      go (some g) h =
          checked_delete-Guards path (is_protected path now g).1
            (record s { guard = some (is_protected path now g).0 })
            (elim (text_dec path p) [
              | yes same ↦ inl (rw same (is_protected-eq-true p e now g h open_))
              | no ne ↦ inr ne
            ])
            (is_protected-Guards p e now g h path open_)

  dispatch-Guards :
      (m : Method) (req : Request) (path : Text) (opts : WebdavOptions) (s : Server G.State)
      → Guards p e s.guard
      → Guards p e (dispatch G url_pathname m req path opts now s).1.guard
  unfolding dispatch
  dispatch-Guards Method.options req path opts s h = h
  dispatch-Guards Method.propfind req path opts s h = h
  dispatch-Guards Method.proppatch req path opts s h = h
  dispatch-Guards Method.get req path opts s h = h
  dispatch-Guards Method.head req path opts s h = h
  dispatch-Guards Method.put req path opts s h = handle_put-Guards req path opts s h
  dispatch-Guards Method.patch req path opts s h = h
  dispatch-Guards Method.mkcol req path opts s h = created_after-Guards p e (G.mkcol path) s h
  dispatch-Guards Method.delete req path opts s h = handle_delete-Guards path s h
  dispatch-Guards Method.move req path opts s h =
      continue-Guards p e _ (destination_path url_pathname req) s h
        (λ dest. created_after-Guards p e (G.move path dest) s h)
  dispatch-Guards Method.copy req path opts s h =
      continue-Guards p e _ (destination_path url_pathname req) s h
        (λ dest. created_after-Guards p e (G.copy path dest) s h)
  dispatch-Guards Method.unknown req path opts s h = h

  -- Whatever a request inside the window does, the guard goes on protecting the path.
  pub handle_request-Guards :
      (req : Request) (opts : WebdavOptions) (s : Server G.State)
      → Guards p e s.guard
      → Guards p e (handle_request G url_pathname req opts now s).1.guard
  unfolding handle_request
  handle_request-Guards req opts s h =
      elim (Bool-cases (not (is_options (method_of req.method)) && opts.session_invalid)) [
        | inl t ↦ rw t h
        | inr f ↦ rw f (
            respond-Guards p e _ _
              (dispatch-Guards (method_of req.method) req (path_of req) opts s h))
      ]

  -- A DELETE of the path inside the window is answered 403, and the gateway is not called.
  pub handle_delete-eq-refused :
      (s : Server G.State)
      → Guards p e s.guard
      → ((handle_delete G url_pathname p now s).0 ≡ ok refused_delete)
        × ((handle_delete G url_pathname p now s).1.store ≡ s.store)
  unfolding handle_delete
  handle_delete-eq-refused s h = go s.guard h
    where
      go :
          (og : Option OverwriteGuard)
          → Guards p e og
          → let r = handle_delete G url_pathname p now (record s { guard = og }) in
            (r.0 ≡ ok refused_delete) × (r.1.store ≡ s.store)
      go none h = absurd h
      go (some g) h = rw (is_protected-eq-true p e now g h open_) (refl, refl)
