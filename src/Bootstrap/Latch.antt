-- ===== src/Bootstrap/Latch.antt =====
-- The sign-out latch of src/service/bootstrap.ts together with the requests of src/service/webdav.ts.
use rclone_proton_drive_webd.Base.{ℕ, ◌≡◌, Option, some, if◌then◌else◌}
use rclone_proton_drive_webd.Base.Text.{Text}
use rclone_proton_drive_webd.Base.Map.{get}
use rclone_proton_drive_webd.Gateway.{Bytes, DriveGateway}
use rclone_proton_drive_webd.Session.Disk.{Entry, Machine}
use rclone_proton_drive_webd.Session.Write.{temp_name}
use rclone_proton_drive_webd.Session.Write.Loop.{IsFile}
use rclone_proton_drive_webd.Session.Store.{session_filename, marker_of}
use rclone_proton_drive_webd.Session.Store.Signout.{Stays, remove-Stays}
use rclone_proton_drive_webd.Webdav.Http.{Request}
use rclone_proton_drive_webd.Webdav.Put.{WebdavOptions, Server}
use rclone_proton_drive_webd.Webdav.Dispatch.{is_options, method_of, handle_request}
use rclone_proton_drive_webd.Webdav.Answers.{handle_request_session}
use rclone_proton_drive_webd.Bootstrap.{Latched, latched_remove}

module _ {Snapshot : Type 0} (parse_stored_snapshot : Bytes → Option Snapshot)
    (stringify : Snapshot → Text) (session_uid : Snapshot → Text) (marker_json : Text → Text → Text)
    (m : Machine) where
  abbrev pub signed_out : Text → Text → Latched → Latched
  signed_out iso uuid l =
      (latched_remove parse_stored_snapshot stringify session_uid marker_json m iso uuid l).1

  module _ (G : DriveGateway) (url_pathname : Text → Option Text) where
    -- The session file is there, and no directory or link stands at the temporary name of the marker. Once the
    -- account has signed out, whatever fails on the way, the session file is still there, and no request
    -- reaches the gateway or changes the guard: OPTIONS is answered 200, and every other method 401.
    pub handle_request-latched_remove :
        (e : Entry) (iso uuid : Text) (l : Latched) (req : Request) (opts : WebdavOptions) (now : ℕ)
        (s : Server G.State)
        → get session_filename l.store.disk.files ≡ some e
        → IsFile (get (temp_name m.pid (marker_of iso) uuid) l.store.disk.files)
        → opts.session_invalid ≡ (signed_out iso uuid l).session_rejected
        → Stays parse_stored_snapshot stringify session_uid marker_json m e
            (signed_out iso uuid l).store.disk
          × ((handle_request G url_pathname req opts now s).0.status
              ≡ (if is_options (method_of req.method) then 200 else 401))
          × ((handle_request G url_pathname req opts now s).1 ≡ s)
    unfolding latched_remove
    handle_request-latched_remove e iso uuid l req opts now s here is_file rejected =
        let (fine, stays) =
          remove-Stays parse_stored_snapshot stringify session_uid marker_json m e iso uuid l.store
            here is_file in
        let (status, same) = handle_request_session G url_pathname req opts now s rejected in
        (stays, status, same)
