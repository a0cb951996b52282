-- ===== src/Webdav/Tests.antt =====
-- Runs of the WebDAV layer over the in-memory gateway.
use rclone_proton_drive_webd.Base.{◌≡◌, refl, true, false, Option, none, some, [], ◌∷◌, arith}
use rclone_proton_drive_webd.Base.Text.{Text, codes, text_dec, includes_char}
use rclone_proton_drive_webd.Base.Map.{get}
use rclone_proton_drive_webd.Base.Int.{pos}
use rclone_proton_drive_webd.Gateway.{
  Stream, at, DriveGateway, immutable_precondition_error, immutable_default,
}
use rclone_proton_drive_webd.Guard.{empty_guard}
use rclone_proton_drive_webd.Number.{decimal}
use rclone_proton_drive_webd.Paths.{
  segments, normalize, is_root, base_name, parent_path, is_safe_segment, join_parts, decode,
}
use rclone_proton_drive_webd.Mock.Tree.{MockFile, file, dir, empty, entry, get_child, walk}
use rclone_proton_drive_webd.Mock.State.{
  MockGateway, no_faults, tick, lookup, dir_of, reported_sha1, to_entry, stat_of, stat,
}
use rclone_proton_drive_webd.Mock.Put.{put, put_at, plan_put}
use rclone_proton_drive_webd.Mock.Ops.{mock_gateway}
use rclone_proton_drive_webd.Webdav.Http.{Request, header}
use rclone_proton_drive_webd.Webdav.Headers.{parse_content_length, parse_oc_checksum, parse_mtime}
use rclone_proton_drive_webd.Webdav.Range.{parse_range}
use rclone_proton_drive_webd.Webdav.Range.Bounds.{range_header, selected, parse_range_forms}
use rclone_proton_drive_webd.Webdav.Put.{WebdavOptions, Server}
use rclone_proton_drive_webd.Webdav.Dispatch.{
  method_of, path_of, Event, serve, handle_request, refused_delete,
}
use rclone_proton_drive_webd.Webdav.Answers.{Answer, handle_request-Answer}
use rclone_proton_drive_webd.Webdav.Put.{put_options}
use rclone_proton_drive_webd.Webdav.Guarded.{delete_after_failed_put}

parse_range_forms_example :
    (parse_range (some (range_header (decimal 2) (decimal 5))) 10 ≡ selected 2 5 10)
    × (parse_range (some (range_header (decimal 2) [])) 10 ≡ selected 2 9 10)
    × (parse_range (some (range_header [] (decimal 3))) 10 ≡ selected 7 9 10)
parse_range_forms_example = parse_range_forms 2 5 3 10

unfoldable pub machine : Unit {0}
unfolding put put_at plan_put tick lookup dir_of reported_sha1 to_entry stat_of stat walk get_child
    segments normalize is_root base_name parent_path join_parts is_safe_segment text_dec
    includes_char get header parse_content_length parse_oc_checksum parse_mtime method_of path_of
    decode
machine = tt

abbrev pub old_file : MockFile
old_file = record { content = 1 ∷ []; sha1 = 1 ∷ []; mtime = at (pos 5); revisions = 1 }

abbrev pub store : MockGateway
store = record {
  root = dir (at (pos 0)) (entry (codes "x") (file old_file) empty);
  faults = no_faults;
  calls = [];
  put_bytes = [];
  used_bytes = 1;
  client_uid = codes "me";
}

abbrev pub gateway_at_7 : DriveGateway
gateway_at_7 = mock_gateway (λ bytes. bytes) (at (pos 7))

abbrev pub no_url : Text → Option Text
no_url s = none

abbrev pub body : Stream
body = record { chunks = (9 ∷ []) ∷ []; broken = false }

abbrev pub request : Text → Option Stream → Request
request method content = record {
  method = method;
  pathname = codes "/x";
  headers = [];
  body = content;
  text = [];
  aborted = false;
}

abbrev pub immutable_options : WebdavOptions
immutable_options = record {
  immutable = true;
  allow_override_draft_for_path = none;
  session_invalid = false;
}

abbrev pub overwrite : Request
overwrite = request (codes "PUT") (some body)

abbrev pub cleanup : Event
cleanup = record { req = request (codes "DELETE") none; opts = immutable_options; now = 60000 }

abbrev reading : Event
reading = record { req = request (codes "GET") none; opts = immutable_options; now = 30000 }

abbrev after_overwrite : Server MockGateway
after_overwrite =
    serve gateway_at_7 no_url (reading ∷ [])
      (handle_request gateway_at_7 no_url overwrite immutable_options 1000
        (record { store = store; guard = some empty_guard })).1

delete_after_failed_put_example :
    let r =
      handle_request gateway_at_7 no_url cleanup.req immutable_options 60000 after_overwrite in
    (r.0 ≡ refused_delete) × (r.1.store ≡ after_overwrite.store)
delete_after_failed_put_example =
    delete_after_failed_put gateway_at_7 no_url overwrite immutable_options 1000 store empty_guard
      body (immutable_precondition_error immutable_default)
      (record {
        name = codes "x";
        is_dir = false;
        size = 1;
        mtime = at (pos 5);
        sha1 = some (1 ∷ []);
      })
      (reading ∷ []) cleanup tt (unfold machine in refl) refl (unfold machine in refl)
      (unfold machine in refl) (unfold machine in refl) ((omega arith, omega arith), tt)
      (omega arith, omega arith) (unfold machine in refl) (unfold machine in refl) refl

abbrev pub server : Server MockGateway
server = record { store = store; guard = some empty_guard }

handle_request-Answer_example :
    Answer gateway_at_7 no_url overwrite.body
      (put_options overwrite immutable_options).size
      (path_of overwrite)
      (put_options overwrite immutable_options)
      server
      (handle_request gateway_at_7 no_url overwrite immutable_options 1000 server)
handle_request-Answer_example =
    handle_request-Answer gateway_at_7 no_url overwrite immutable_options 1000 server
      (unfold machine in refl) refl

abbrev pub expired : WebdavOptions
expired = record immutable_options { session_invalid = true }
