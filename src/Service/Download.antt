-- ===== src/Service/Download.antt =====
-- A download, from src/service/webdav.ts down to the files of src/service/mockGateway.ts.
use rclone_proton_drive_webd.Base.{
  ℕ, ◌+◌, ◌-◌, ◌≡◌, refl, ◌∙◌, ap, Bool, false, Option, none, some, ◌++◌, length, take, drop,
}
use rclone_proton_drive_webd.Base.Text.{Text, codes}
use rclone_proton_drive_webd.Gateway.{
  Bytes, ByteRange, Stream, concat, Date, DriveEntry, DriveGateway, ReadResult, ok,
}
use rclone_proton_drive_webd.Guard.{OverwriteGuard}
use rclone_proton_drive_webd.Paths.{normalize, base_name}
use rclone_proton_drive_webd.Mock.Tree.{MockFile, file}
use rclone_proton_drive_webd.Mock.Tree.Lookup.{a_file}
use rclone_proton_drive_webd.Mock.State.{MockGateway, logged, lookup, to_entry, reported_sha1, stat}
use rclone_proton_drive_webd.Mock.Visible.{visible, visible_of_root}
use rclone_proton_drive_webd.Mock.Reading.{stream_of, slice_of, read, read_file}
use rclone_proton_drive_webd.Mock.Reading.Whole.{stream_of_whole, slice_of_all, slice_of_range}
use rclone_proton_drive_webd.Webdav.Range.Bounds.{parse_range_bounds}
use rclone_proton_drive_webd.Webdav.Put.{WebdavOptions}
use rclone_proton_drive_webd.Webdav.Dispatch.{Method, method_of, path_of, dispatch, handle_request}
use rclone_proton_drive_webd.Mock.Put.Safety.{visible-normalize}
use rclone_proton_drive_webd.Mock.Put.Accepted.{tick-passes}
use rclone_proton_drive_webd.Mock.Ops.{mock_gateway}
use rclone_proton_drive_webd.Webdav.Http.{Request, Response, header, stream_body}
use rclone_proton_drive_webd.Webdav.Range.{
  RangeResult, no_range, unsatisfiable, bytes_range, parse_range,
}
use rclone_proton_drive_webd.Webdav.Handlers.{
  handle_get, stat_or_throw, respond_get, plain_response, common_headers, content_length,
  content_range,
}
use rclone_proton_drive_webd.Service.Overwrite.{file_of_seen, stat_of_file, stat_lem}

abbrev stat_log : Text → MockGateway → MockGateway
stat_log path st = logged (codes "stat") (normalize path) st

abbrev file_entry : Text → MockFile → MockGateway → DriveEntry
file_entry path f st = record {
  name = base_name (normalize path);
  is_dir = false;
  size = length f.content;
  mtime = f.mtime;
  sha1 = some (reported_sha1 (normalize path) f (stat_log path st));
}

abbrev read_result : MockFile → Option ByteRange → ReadResult
read_result f range = record {
  stream = stream_of (slice_of f.content range) none;
  size = length (slice_of f.content range);
  total_size = length f.content;
}

module _ (path : Text) (st : MockGateway) (f : MockFile) (calm : st.faults.transient_failures ≡ 0)
    (there : visible path st ≡ a_file f) where
  stat_entry : stat path st ≡ (ok (some (file_entry path f st)), stat_log path st)
  unfolding to_entry
  stat_entry =
      stat_lem path st calm
      ∙ ap (λ (e : Option DriveEntry). (ok e, stat_log path st))
          (stat_of_file (normalize path) (stat_log path st) f
            (visible-normalize path _ ∙ visible_of_root path _ st refl ∙ there))

  abbrev read_log : MockGateway
  read_log = logged (codes "read") (normalize path) st

  found : lookup (normalize path) false read_log ≡ some (file f)
  unfolding visible
  found =
      file_of_seen (lookup (normalize path) false read_log) f
        (visible-normalize path read_log ∙ visible_of_root path read_log st refl ∙ there)

  read_content :
      (range : Option ByteRange)
      → st.faults.drop_get_after_bytes ≡ none
      → (read path range false st).0 ≡ ok (read_result f range)
  unfolding read read_file
  read_content range whole =
      rw (tick-passes (codes "read") (normalize path) st calm) (rw found (rw whole refl))

-- The response that a download of the file is to get, for the range that was asked for.
abbrev pub Serves : ℕ → Bytes → Response → Type 0
Serves status content r =
    (r.status ≡ status)
    × ((s : Stream) × (r.body ≡ stream_body s) × (concat s.chunks ≡ content) × (s.broken ≡ false))

abbrev pub Downloads : MockFile → RangeResult → Response → Type 0
Downloads f no_range r = Serves 200 f.content r
Downloads f (bytes_range a b) r = Serves 206 (take (b - a + 1) (drop a f.content)) r
Downloads f unsatisfiable r = r.status ≡ 416

module _ (sha1_hex : Bytes → Text) (now : Date) (url_pathname : Text → Option Text) (req : Request)
    (st : MockGateway) (f : MockFile) (calm : st.faults.transient_failures ≡ 0)
    (whole : st.faults.drop_get_after_bytes ≡ none) (there : visible (path_of req) st ≡ a_file f)
    (listening : req.aborted ≡ false) where
  abbrev G : DriveGateway
  G = mock_gateway sha1_hex now

  abbrev path : Text
  path = path_of req

  abbrev asked : RangeResult
  asked = parse_range (header req (codes "Range")) (length f.content)

  content_read :
      (range : Option ByteRange)
      → (read path range req.aborted (stat_log path st)).0 ≡ ok (read_result f range)
  content_read range =
      ap (λ (b : Bool). (read path range b (stat_log path st)).0) listening
      ∙ read_content path (stat_log path st) f calm
          (visible_of_root path (stat_log path st) st refl ∙ there) range whole

  respond_get-Downloads :
      (x : RangeResult)
      → asked ≡ x
      → (r : Response) × ((respond_get G req path false
            (file_entry path f st)
            x
            (stat_log path st)).0
          ≡ ok r)
        × Downloads f x r
  unfolding respond_get
  respond_get-Downloads unsatisfiable e = (_, refl, refl)
  respond_get-Downloads no_range e =
      let (bytes, unbroken) = stream_of_whole (slice_of f.content none) in
      let got = read_result f none in
      (
        plain_response 200 (stream_body got.stream)
            (common_headers (file_entry path f st) ++ content_length got.size),
        rw (content_read none) refl,
        (refl, (got.stream, refl, bytes ∙ slice_of_all f.content, unbroken)),
      )
  respond_get-Downloads (bytes_range a b) e =
      let (bytes, unbroken) = stream_of_whole (slice_of f.content (some (a, b))) in
      let (least, most) =
        parse_range_bounds (header req (codes "Range")) (length f.content) a b e in
      let got = read_result f (some (a, b)) in
      (
        plain_response 206 (stream_body got.stream) (
            common_headers (file_entry path f st)
            ++ (content_length got.size ++ content_range a b got.total_size)),
        rw (content_read (some (a, b))) refl,
        (refl, (got.stream, refl, bytes ∙ (slice_of_range f.content a b least most).1, unbroken)),
      )

  handle_get-Downloads :
      (r : Response) × ((handle_get G req path false st).0 ≡ ok r) × Downloads f asked r
  unfolding handle_get stat_or_throw
  handle_get-Downloads =
      let (r, answered, right) = respond_get-Downloads asked refl in
      (r, rw (stat_entry path st f calm there) answered, right)

  -- The service over the in-memory gateway without pending faults, in a valid session. A GET of a path that shows a file is
  -- answered 200 with a body of exactly the bytes of the file, if `parse_range` finds no range in the
  -- request; 206 with exactly the bytes of the range, if it finds one inside the file; and 416, if
  -- the range cannot be satisfied.
  pub get-Downloads :
      (opts : WebdavOptions) (t : ℕ) (g : Option OverwriteGuard)
      → method_of req.method ≡ Method.get
      → opts.session_invalid ≡ false
      → Downloads f
          (parse_range (header req (codes "Range")) (length f.content))
          (handle_request
            (mock_gateway sha1_hex now)
            url_pathname
            req
            opts
            t
            (record { store = st; guard = g })).0
  unfolding handle_request dispatch
  get-Downloads opts t g m valid =
      let (r, answered, right) = handle_get-Downloads in rw (m, valid) (rw answered right)
