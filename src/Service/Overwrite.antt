-- ===== src/Service/Overwrite.antt =====
-- A failed overwrite and the cleanup after it, from src/service/webdav.ts down to the files of
-- src/service/mockGateway.ts.
use rclone_proton_drive_webd.Base.{ℕ, ◌≡◌, refl, ◌∙◌, ap, false, Option, none, some, []}
use rclone_proton_drive_webd.Base.Text.{Text, codes}
use rclone_proton_drive_webd.Gateway.{Bytes, Stream, Date, DriveEntry, ok, throw, Thrown}
use rclone_proton_drive_webd.Guard.{OverwriteGuard}
use rclone_proton_drive_webd.Guard.Window.{IsMap}
use rclone_proton_drive_webd.Paths.{normalize, base_name}
use rclone_proton_drive_webd.Mock.Tree.{MockFile, MockNode, file, dir, draft}
use rclone_proton_drive_webd.Mock.Tree.Lookup.{Seen, nothing, a_file, a_dir, seen}
use rclone_proton_drive_webd.Mock.State.{MockGateway, logged, lookup, to_entry, stat_of, stat}
use rclone_proton_drive_webd.Mock.Visible.{visible, visible_of_root}
use rclone_proton_drive_webd.Mock.Put.{put}
use rclone_proton_drive_webd.Mock.Put.Safety.{put_failure, visible-normalize}
use rclone_proton_drive_webd.Mock.Put.Accepted.{tick-passes}
use rclone_proton_drive_webd.Mock.Ops.{mock_gateway}
use rclone_proton_drive_webd.Webdav.Http.{Request}
use rclone_proton_drive_webd.Webdav.Put.{WebdavOptions, choose_body, put_options, upload}
use rclone_proton_drive_webd.Webdav.Dispatch.{
  Method, method_of, path_of, handle_request, Event, serve, refused_delete,
}
use rclone_proton_drive_webd.Webdav.Guarded.{InWindow, handle_request_stat, delete_after_failed_put}

pub file_of_seen : (o : Option MockNode) (f : MockFile) → seen o ≡ a_file f → o ≡ some (file f)
file_of_seen none f h = cc
file_of_seen (some (file g)) f h = ap (λ x. some (file x)) (a_file-injective g f h)
  where
    a_file-injective : (g f : MockFile) → a_file g ≡ a_file f → g ≡ f
    a_file-injective g f e =
        ap (λ (s : Seen). elim s [ nothing ↦ g | a_file x ↦ x | a_dir m ↦ g ]) e
file_of_seen (some (dir m cs)) f h = cc
file_of_seen (some (draft d)) f h = cc

pub stat_of_file :
    (p : Text) (st : MockGateway) (f : MockFile)
    → visible p st ≡ a_file f
    → stat_of p st ≡ to_entry (base_name p) (file f) p st
unfolding visible stat_of
stat_of_file p st f h = rw (file_of_seen (lookup p false st) f h) refl

pub stat_lem :
    (path : Text) (st : MockGateway)
    → st.faults.transient_failures ≡ 0
    → stat path st ≡ (
      ok (stat_of (normalize path) (logged (codes "stat") (normalize path) st)),
      logged (codes "stat") (normalize path) st,
    )
unfolding stat
stat_lem path st calm = rw (tick-passes (codes "stat") (normalize path) st calm) refl

-- `stat` finds a visible file and changes no file.
stat-finds :
    (path : Text) (st : MockGateway) (f : MockFile)
    → st.faults.transient_failures ≡ 0
    → visible path st ≡ a_file f
    → ((entry : DriveEntry) × ((stat path st).0 ≡ ok (some entry)))
      × ((q : Text) → visible q (stat path st).1 ≡ visible q st)
unfolding to_entry
stat-finds path st f calm there = rw (stat_lem path st calm) (
  (
    _,
    ap ok (
        stat_of_file (normalize path) (logged (codes "stat") (normalize path) st) f
          (visible-normalize path _ ∙ visible_of_root path _ st refl ∙ there)),
  ),
  λ q. visible_of_root q _ st refl,
)

-- The service over the in-memory gateway, in a valid session. A path shows a file, and an upload to it
-- fails for whatever reason, the file being immutable among them, while no transient fault is left for
-- the `stat` that follows. rclone's DELETE of the path within 120 seconds is then answered 403, and
-- after it every path shows what it showed before the upload: the file is still there.
pub failed_overwrite_keeps_file :
    (sha1_hex : Bytes → Text) (now : Date) (url_pathname : Text → Option Text) (req : Request)
    (opts : WebdavOptions) (t : ℕ) (store : MockGateway) (g : OverwriteGuard) (body : Stream)
    (error : Thrown) (f : MockFile) (cleanup : Event)
    → IsMap g
    → method_of req.method ≡ Method.put
    → opts.session_invalid ≡ false
    → choose_body req.body (put_options req opts).size ≡ upload body
    → (put sha1_hex now (path_of req) body (put_options req opts) store).0 ≡ throw error
    → (put sha1_hex now (path_of req) body (put_options req opts) store).1.faults.transient_failures
      ≡ 0
    → visible (path_of req) store ≡ a_file f
    → InWindow (mock_gateway sha1_hex now) url_pathname t cleanup
    → method_of cleanup.req.method ≡ Method.delete
    → path_of cleanup.req ≡ path_of req
    → cleanup.opts.session_invalid ≡ false
    → let G = mock_gateway sha1_hex now in
      let s =
        (handle_request G url_pathname req opts t (record { store = store; guard = some g })).1 in
      let r = handle_request G url_pathname cleanup.req cleanup.opts cleanup.now s in
      (r.0 ≡ refused_delete) × ((q : Text) → visible q r.1.store ≡ visible q store)
unfolding serve
failed_overwrite_keeps_file sha1_hex now url_pathname req opts t store g body error f cleanup u m
      valid chosen failed calm there w m' path valid' =
    let G = mock_gateway sha1_hex now in
    let after = (put sha1_hex now (path_of req) body (put_options req opts) store).1 in
    let kept : (q : Text) → visible q after ≡ visible q store =
      put_failure sha1_hex now (path_of req) body (put_options req opts) store error failed in
    let ((entry, found), unchanged) =
      stat-finds (path_of req) after f calm (kept (path_of req) ∙ there) in
    let (refused, same) =
      delete_after_failed_put G url_pathname req opts t store g body error entry [] cleanup u m
        valid chosen failed found tt w m' path valid' in
    (
      refused,
      λ q.
          ap (visible q) same
          ∙ ap (visible q) (
              handle_request_stat G url_pathname req opts t store g body error m valid chosen
                failed)
          ∙ unchanged q
          ∙ kept q,
    )
