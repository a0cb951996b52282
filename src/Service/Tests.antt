-- ===== src/Service/Tests.antt =====
-- The service at concrete requests.
use rclone_proton_drive_webd.Base.{◌≡◌, refl, some, arith}
use rclone_proton_drive_webd.Base.Text.{Text}
use rclone_proton_drive_webd.Base.Int.{pos}
use rclone_proton_drive_webd.Gateway.{at, immutable_precondition_error, immutable_default}
use rclone_proton_drive_webd.Base.Map.{delete, retain}
use rclone_proton_drive_webd.Guard.{empty_guard, protect, is_protected, release, prune}
use rclone_proton_drive_webd.Mock.Tree.{change_dir, delete_child}
use rclone_proton_drive_webd.Mock.Tree.Lookup.{nothing, a_file}
use rclone_proton_drive_webd.Mock.State.{MockGateway}
use rclone_proton_drive_webd.Webdav.Http.{error_to_response}
use rclone_proton_drive_webd.Webdav.Put.{handle_put, arm_guard}
use rclone_proton_drive_webd.Mock.Visible.{visible}
use rclone_proton_drive_webd.Mock.Ops.{mock_gateway, remove, remove_at}
use rclone_proton_drive_webd.Webdav.Dispatch.{
  handle_request, handle_delete, dispatch, path_of, refused_delete,
}
use rclone_proton_drive_webd.Webdav.Tests.{
  machine, store, old_file, body, no_url, overwrite, immutable_options, cleanup,
}
use rclone_proton_drive_webd.Service.Download.{Downloads, get-Downloads}
use rclone_proton_drive_webd.Webdav.Range.{parse_range}
use rclone_proton_drive_webd.Webdav.Tests.{request}
use rclone_proton_drive_webd.Base.{none}
use rclone_proton_drive_webd.Base.Text.{codes}
use rclone_proton_drive_webd.Webdav.Http.{Request, header}
use rclone_proton_drive_webd.Service.Overwrite.{failed_overwrite_keeps_file}

failed_overwrite_keeps_file_example :
    let G = mock_gateway (λ bytes. bytes) (at (pos 7)) in
    let s =
      (handle_request G no_url overwrite immutable_options 1000
        (record { store = store; guard = some empty_guard })).1 in
    let r = handle_request G no_url cleanup.req immutable_options 60000 s in
    (r.0 ≡ refused_delete) × ((q : Text) → visible q r.1.store ≡ visible q store)
failed_overwrite_keeps_file_example =
    failed_overwrite_keeps_file (λ bytes. bytes) (at (pos 7)) no_url overwrite immutable_options
      1000 store empty_guard body (immutable_precondition_error immutable_default) old_file cleanup
      tt (unfold machine in refl) refl (unfold machine in refl) (unfold machine in refl)
      (unfold machine in refl) (unfold machine visible in refl) (omega arith, omega arith)
      (unfold machine in refl) (unfold machine in refl) refl

-- Two transient faults: the upload fails, the `stat` after it fails too, so the guard is not armed, and
-- the cleanup removes the file that was there.
abbrev faulty : MockGateway
faulty = record store { faults = record (store.faults) { transient_failures = 2 } }

unguarded_cleanup :
    let G = mock_gateway (λ bytes. bytes) (at (pos 7)) in
    let r =
      handle_request G no_url overwrite immutable_options 1000
        (record { store = faulty; guard = some empty_guard }) in
    let r' = handle_request G no_url cleanup.req immutable_options 60000 r.1 in
    (r.0.status ≡ 503)
    × (r'.0.status ≡ 204)
    × (visible (path_of overwrite) faulty ≡ a_file old_file)
    × (visible (path_of overwrite) r'.1.store ≡ nothing)
unfolding machine visible handle_request dispatch handle_put arm_guard handle_delete remove
    remove_at error_to_response protect is_protected release prune delete retain change_dir
    delete_child
unguarded_cleanup = (refl, refl, refl, refl)

abbrev download : Request
download = request (codes "GET") none

get-Downloads_example :
    Downloads old_file
      (parse_range (header download (codes "Range")) 1)
      (handle_request
        (mock_gateway (λ bytes. bytes) (at (pos 7)))
        no_url
        download
        immutable_options
        5
        (record { store = store; guard = some empty_guard })).0
get-Downloads_example =
    get-Downloads (λ bytes. bytes) (at (pos 7)) no_url download store old_file refl refl
      (unfold machine visible in refl) refl immutable_options 5 (some empty_guard)
      (unfold machine in refl) refl
