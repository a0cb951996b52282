-- ===== src/Webdav/Handlers.antt =====
-- The handlers of src/service/webdav.ts that need neither the guard nor the options.
use mathlib.Core.Option
use mathlib.Core.Option.{get_or}
use rclone_proton_drive_webd.Base.{
  ℕ, ◌+◌, leb, ◌==◌, Bool, true, false, not, ◌&&◌, Option, none, some, List, [], ◌∷◌, ◌++◌,
  if◌then◌else◌,
}
use rclone_proton_drive_webd.Base.Text.{Text, codes, ◌===◌, includes}
use rclone_proton_drive_webd.Base.Map.{Map}
use rclone_proton_drive_webd.Base.Int.{pos, eq_ℤ, floor_div}
use rclone_proton_drive_webd.Gateway.{
  DriveGateway, DriveEntry, Date, invalid, at, Op, return, raise, ◌>>=◌, not_found_error,
  not_found_default,
}
use rclone_proton_drive_webd.Paths.{is_root, join}
use rclone_proton_drive_webd.Number.{decimal}
use rclone_proton_drive_webd.HttpDate.{to_utc_string}
use rclone_proton_drive_webd.Propfind.{
  truthy, text_or_nil, response_xml, multistatus, quota_multistatus, proppatch_multistatus,
}
use rclone_proton_drive_webd.Webdav.Http.{
  Request, Response, Body, header, no_body, text_body, stream_body, dav_response, xml_ct,
}
use rclone_proton_drive_webd.Webdav.Headers.{or_next}
use rclone_proton_drive_webd.Webdav.Range.{
  RangeResult, bytes_range, no_range, unsatisfiable, span_digits, digits_value, parse_range,
}

unfoldable pub href_for : Text → DriveEntry → Text
unfolding is_root
href_for path entry = if is_root path then codes "/" else path

unfoldable pub child_responses : Text → List DriveEntry → List Text
child_responses path [] = []
child_responses path (child ∷ children) =
    response_xml (href_for (join path child.name) child) child ∷ child_responses path children

-- ASCII case, as the flag `i` compares.
abbrev lower_ascii : ℕ → ℕ
lower_ascii c = if leb 65 c && leb c 90 then c + 32 else c

-- The text behind a prefix of lower-case letters, in any case.
unfoldable pub strip_any_case : Text → Text → Option Text
strip_any_case [] s = some s
strip_any_case (x ∷ p) [] = none
strip_any_case (x ∷ p) (y ∷ s) =
    let rest = strip_any_case p s in if x == lower_ascii y then rest else none

-- The text behind the first `>`.
unfoldable pub after_gt : Text → Option Text
after_gt [] = none
after_gt (c ∷ s) = let rest = after_gt s in if c == b'>' then some s else rest

abbrev close_tag : Text × Text → Option Text
close_tag ([], rest) = none
close_tag (d ∷ ds, rest) = Option.map (λ _. d ∷ ds) (strip_any_case (codes "</lastmodified>") rest)

abbrev digits_in_tag : Option Text → Option Text
digits_in_tag none = none
digits_in_tag (some s) = close_tag (span_digits s)

abbrev open_tag : Option Text → Option Text
open_tag none = none
open_tag (some s) = digits_in_tag (after_gt s)

-- The digits of the first match of `/<lastmodified[^>]*>(\d+)<\/lastmodified>/i`.
unfoldable pub match_lastmodified : Text → Option Text
unfolding strip_any_case after_gt span_digits
match_lastmodified [] = none
match_lastmodified (c ∷ s) =
    or_next (open_tag (strip_any_case (codes "<lastmodified") (c ∷ s))) (match_lastmodified s)

-- `=== Math.floor(mtime.getTime() / 1000)`, false for an invalid date.
abbrev pub is_seconds_of : ℕ → Date → Bool
is_seconds_of n invalid = false
is_seconds_of n (at t) = eq_ℤ (pos n) (floor_div t 1000)

abbrev pub proppatch_ok : Option Text → Date → Bool
proppatch_ok none mtime = false
proppatch_ok (some digits) mtime = is_seconds_of (digits_value digits) mtime

abbrev pub checksum_header : Option Text → Map Text
checksum_header sha1 =
    if truthy sha1 then (codes "OC-Checksum", codes "SHA1:" ++ text_or_nil sha1) ∷ [] else []

unfoldable pub common_headers : DriveEntry → Map Text
common_headers info =
    (codes "Accept-Ranges", codes "bytes")
    ∷ (codes "Last-Modified", to_utc_string info.mtime)
    ∷ (codes "Content-Type", codes "application/octet-stream")
    ∷ checksum_header info.sha1

abbrev pub content_length : ℕ → Map Text
content_length n = (codes "Content-Length", decimal n) ∷ []

abbrev pub content_range : ℕ → ℕ → ℕ → Map Text
content_range start end total =
    (
      codes "Content-Range",
      codes "bytes " ++ (decimal start ++ (b'-' ∷ decimal end) ++ (b'/' ∷ decimal total)),
    )
    ∷ []

abbrev pub unsatisfied_range : ℕ → Map Text
unsatisfied_range size = (codes "Content-Range", codes "bytes */" ++ decimal size) ∷ []

-- A `Response` that is not built by `davResponse`.
abbrev pub plain_response : ℕ → Body → Map Text → Response
plain_response status body headers = record { status = status; headers = headers; body = body }

abbrev pub found_or_throw : {S : Type 0} → Option DriveEntry → Op S DriveEntry
found_or_throw none = raise (not_found_error not_found_default)
found_or_throw (some entry) = return entry

module _ (G : DriveGateway) where
  open G use {State}

  -- `const self = await gw.stat(path); if (!self) throw new NotFoundError();`
  unfoldable pub stat_or_throw : Text → Op State DriveEntry
  stat_or_throw path = do self ← G.stat path; found_or_throw self

  abbrev pub children_of : Bool → Text → Op State (List DriveEntry)
  children_of true path = G.list path
  children_of false path = return []

  unfoldable pub handle_propfind : Request → Text → Op State Response
  handle_propfind req path =
      if includes req.text (codes "quota-available-bytes")
      then (do
        q ← G.quota
        return (dav_response 207 (text_body (quota_multistatus path q.used q.available)) xml_ct))
      else (do
        self ← stat_or_throw path
        let depth = get_or (header req (codes "Depth")) (codes "infinity")
        children ← children_of (not (depth === codes "0") && self.is_dir) path
        return (
            dav_response 207
              (text_body (
                multistatus
                  (response_xml (href_for path self) self ∷ child_responses path children)))
              xml_ct))

  unfoldable pub handle_proppatch : Request → Text → Op State Response
  handle_proppatch req path = do
    self ← stat_or_throw path
    return (
        dav_response 207
          (text_body
            (proppatch_multistatus path (proppatch_ok (match_lastmodified req.text) self.mtime)))
          xml_ct)

  unfoldable pub handle_recalculate_hash : Request → Text → Op State Response
  handle_recalculate_hash req path =
      if not (truthy (header req (codes "X-Recalculate-Hash")))
      then return (dav_response 400 no_body [])
      else (do
        info ← stat_or_throw path
        return (
            if info.is_dir
            then dav_response 405 no_body []
            else dav_response 200 no_body (checksum_header info.sha1)))

  -- The part of `handleGet` behind the test for a directory.
  unfoldable pub respond_get : Request → Text → Bool → DriveEntry → RangeResult → Op State Response
  respond_get req path head_only info unsatisfiable =
      return (dav_response 416 no_body (unsatisfied_range info.size))
  respond_get req path true info no_range =
      return (plain_response 200 no_body (common_headers info ++ content_length info.size))
  respond_get req path true info (bytes_range start end) =
      return (plain_response 200 no_body (common_headers info ++ content_length info.size))
  respond_get req path false info (bytes_range start end) = do
    r ← G.read path (some (start, end)) req.aborted
    return (
        plain_response 206 (stream_body r.stream)
          (common_headers info ++ (content_length r.size ++ content_range start end r.total_size)))
  respond_get req path false info no_range = do
    r ← G.read path none req.aborted
    return
        (plain_response 200 (stream_body r.stream) (common_headers info ++ content_length r.size))

  unfoldable pub handle_get : Request → Text → Bool → Op State Response
  handle_get req path head_only = do
    info ← stat_or_throw path
    (if info.is_dir
        then return (dav_response 405 no_body [])
        else respond_get req path head_only info
            (parse_range (header req (codes "Range")) info.size))
