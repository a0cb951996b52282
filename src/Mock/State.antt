-- ===== src/Mock/State.antt =====
-- The state of `MockGateway` in src/service/mockGateway.ts, its private helpers, and the operations
-- that only look.
use rclone_proton_drive_webd.Base.{
  ℕ, ◌-◌, ◌*◌, Bool, true, false, ◌&&◌, Option, none, some, List, [], ◌∷◌, ◌++◌, ltb, if◌then◌else◌,
  length,
}
use rclone_proton_drive_webd.Base.Text.{Text, codes, ◌===◌}
use rclone_proton_drive_webd.Base.Map.{Map}
use rclone_proton_drive_webd.Gateway.{
  DriveEntry, Date, Op, Outcome, ok, throw, Thrown, raise, ◌>>◌, plain_error, conflict_error,
  not_found_error, not_found_default, Quota,
}
use rclone_proton_drive_webd.Paths.{segments, normalize, base_name, parent_path, slash}
use rclone_proton_drive_webd.Mock.Tree.{
  MockFile, MockNode, file, dir, draft, Children, empty, entry, walk, bind,
}

pub record Faults : Type 0 where
  pub transient_failures : ℕ
  pub transient_failures_for : Option Text
  pub drop_put_after_bytes : Option ℕ
  pub drop_get_after_bytes : Option ℕ
  pub corrupt_sha1_for_path : Option Text
  pub session_revoked : Bool

pub record MockGateway : Type 0 where
  pub root : MockNode
  pub faults : Faults
  pub calls : List Text
  pub put_bytes : Map ℕ
  pub used_bytes : ℕ
  pub client_uid : Text

abbrev applies_to : Option Text → Text → Bool
applies_to none op = true
applies_to (some scoped) op = scoped === op

abbrev pub logged : Text → Text → MockGateway → MockGateway
logged op path st = record st { calls = st.calls ++ (op ++ b' ' ∷ path) ∷ [] }

abbrev pub transient_failure : Thrown
transient_failure = plain_error (codes "Simulated transient upstream failure") 503

abbrev pub one_failure_less : MockGateway → MockGateway
one_failure_less st = record st {
  faults = record (st.faults) { transient_failures = st.faults.transient_failures - 1 };
}

abbrev pub fails_now : Text → MockGateway → Bool
fails_now op st =
    ltb 0 st.faults.transient_failures && applies_to st.faults.transient_failures_for op

unfoldable pub tick : Text → Text → Op MockGateway (Unit {0})
tick op path st =
    let st' = logged op path st in
    if fails_now op st' then (throw transient_failure, one_failure_less st') else (ok tt, st')

abbrev pub hide_draft : Bool → Option MockNode → Option MockNode
hide_draft include_drafts none = none
hide_draft include_drafts (some (file f)) = some (file f)
hide_draft include_drafts (some (dir m cs)) = some (dir m cs)
hide_draft include_drafts (some (draft d)) = if include_drafts then some (draft d) else none

unfoldable pub lookup : Text → Bool → MockGateway → Option MockNode
lookup path include_drafts st = hide_draft include_drafts (walk (segments path) st.root)

abbrev missing_parent : Text → Thrown
missing_parent path = conflict_error (codes "Parent missing: " ++ parent_path path)

abbrev pub directory_or_throw : Text → Option MockNode → Outcome (Date × Children)
directory_or_throw path none = throw (missing_parent path)
directory_or_throw path (some (file f)) = throw (missing_parent path)
directory_or_throw path (some (draft d)) = throw (missing_parent path)
directory_or_throw path (some (dir m cs)) = ok (m, cs)

-- The directory that holds `path`.
unfoldable pub dir_of : Text → MockGateway → Outcome (Date × Children)
dir_of path st = directory_or_throw path (lookup (parent_path path) false st)

abbrev forty_zeros : Text
forty_zeros = codes "0000000000000000000000000000000000000000"

abbrev corrupts : Option Text → Text → Bool
corrupts none path = false
corrupts (some p) path = p === path

unfoldable pub reported_sha1 : Text → MockFile → MockGateway → Text
reported_sha1 path f st =
    if corrupts st.faults.corrupt_sha1_for_path path then forty_zeros else f.sha1

unfoldable pub to_entry : Text → MockNode → Text → MockGateway → Option DriveEntry
to_entry name (draft d) path st = none
to_entry name (dir m cs) path st =
    some (record { name = name; is_dir = true; size = 0; mtime = m; sha1 = none })
to_entry name (file f) path st = some (record {
  name = name;
  is_dir = false;
  size = length f.content;
  mtime = f.mtime;
  sha1 = some (reported_sha1 path f st);
})

-- What `stat` answers for a normal path, the log and the faults aside.
unfoldable pub stat_of : Text → MockGateway → Option DriveEntry
stat_of p st = bind (lookup p false st) (λ node. to_entry (base_name p) node p st)

unfoldable pub stat : Text → Op MockGateway (Option DriveEntry)
stat path = do let p = normalize path; tick (codes "stat") p; λ st. (ok (stat_of p st), st)

unfoldable pub list_children : Text → Children → MockGateway → List DriveEntry
list_children p empty st = []
list_children p (entry name child cs) st =
    let rest = list_children p cs st in
    elim (to_entry name child (normalize (p ++ slash ∷ name)) st) [
      | none ↦ rest
      | some e ↦ e ∷ rest
    ]

abbrev list_of : Text → Option MockNode → Op MockGateway (List DriveEntry)
list_of p none = raise (not_found_error not_found_default)
list_of p (some (file f)) = raise (not_found_error not_found_default)
list_of p (some (draft d)) = raise (not_found_error not_found_default)
list_of p (some (dir m cs)) = λ st. (ok (list_children p cs st), st)

unfoldable pub list : Text → Op MockGateway (List DriveEntry)
list path = do let p = normalize path; tick (codes "list") p; λ st. list_of p (lookup p false st) st

unfoldable pub quota : Op MockGateway Quota
quota st =
    (ok (record { used = some st.used_bytes; available = some (10 * 1024 * 1024 * 1024) }), st)

abbrev pub no_faults : Faults
no_faults = record {
  transient_failures = 0;
  transient_failures_for = none;
  drop_put_after_bytes = none;
  drop_get_after_bytes = none;
  corrupt_sha1_for_path = none;
  session_revoked = false;
}
