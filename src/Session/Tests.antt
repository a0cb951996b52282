-- ===== src/Session/Tests.antt =====
-- Runs of the session lock and the session file of src/service/sessionStore.ts.
use rclone_proton_drive_webd.Base.{
  ℕ, ◌≡◌, ◌≢◌, refl, sym, ◌∙◌, ap, inr, List, true, Option, none, some, [], ◌∷◌, ◌++◌, arith, ◌==◌,
  if◌then◌else◌, length, drop, min, append_assoc,
}
use rclone_proton_drive_webd.Base.Text.{Text, codes, text_eq, text_dec}
use rclone_proton_drive_webd.Base.Map.{Map, get, set, delete, get-set_self, get-set_ne}
use rclone_proton_drive_webd.Base.Int.{ℤ, pos}
use rclone_proton_drive_webd.Base.Triple.{Post}
use rclone_proton_drive_webd.Gateway.{Bytes}
use rclone_proton_drive_webd.Number.{decimal, read_digits}
use rclone_proton_drive_webd.Number.Decimal.{IsDigits, decimal-IsDigits, read_digits-decimal}
use rclone_proton_drive_webd.Uri.{utf8}
use rclone_proton_drive_webd.Session.Disk.{
  regular, Entry, Disk, session_conflict, done, failed, delivered, esrch, Machine, utf8_text,
  open_new_file, set_content, rename_file, lstat_file, read_file,
}
use rclone_proton_drive_webd.Session.Write.{
  owner_only, temp_name, write_loop, write_temp, replace_file, write_private_file_atomic,
}
use rclone_proton_drive_webd.Session.Write.Loop.{Holds, write_loop-ends}
use rclone_proton_drive_webd.Session.Write.Atomic.{
  Replaced, Abandoned, write_private_file_atomic-Replaced,
}
use rclone_proton_drive_webd.Session.Lock.{
  session_lock_filename, lock_json, is_process_alive, acquire_session_ownership,
}
use rclone_proton_drive_webd.Session.Lock.Free.{Acquired, acquire-Decision}
use rclone_proton_drive_webd.Session.Lock.Owners.{System, acquired}
use rclone_proton_drive_webd.Session.Store.{
  session_filename, marker_of, Store, Identity, load, load_entry, save, remove, current_identity,
  note_identity,
}
use rclone_proton_drive_webd.Session.Store.Saving.{load-save, save-load-conflict}
use rclone_proton_drive_webd.Session.Store.Pruning.{
  IsRemovable, newest, sorted_markers, Pruned, prune_markers-Pruned,
}
use rclone_proton_drive_webd.Session.Store.Signout.{Stays, remove-Stays}

-- A process with the number 7, on a machine where it and the process 8 live, and no call fails.
abbrev pub host : Machine
host = record {
  pid = 7;
  now = 5000;
  uptime = 4000;
  kill = λ q. if (q == 7) then delivered else if q == 8 then delivered else esrch;
  fails = λ call name. none;
  takes = λ written asked. asked;
}

abbrev pub started : Text
started = codes "1970-01-01T00:00:05.000Z"

abbrev pub file_with : Bytes → Entry
file_with content = record {
  kind = regular;
  content = content;
  ino = 3;
  mtime = 4000;
  mode = owner_only;
}

abbrev pub disk_with : Map Entry → Disk
disk_with files = record { files = files; next_ino = 10 }

-- The number behind `{"pid":`.
abbrev pub read_pid : Bytes → Option (Option ℤ)
read_pid raw = some (some (pos (read_digits 0 (drop 7 raw)).0))

utf8_text-append : (s t : Text) → utf8_text (s ++ t) ≡ utf8_text s ++ utf8_text t
utf8_text-append [] t = refl
utf8_text-append (c ∷ s) t =
    ap (λ l. utf8 c ++ l) (utf8_text-append s t)
    ∙ sym (append_assoc (utf8 c) (utf8_text s) (utf8_text t))

utf8_text-digits : (s : Text) → IsDigits s → utf8_text s ≡ s
unfolding utf8
utf8_text-digits [] h = refl
utf8_text-digits (c ∷ s) h = ground (arith, h, utf8_text-digits s h.1)

pub read_pid-lock_json :
    (p : ℕ) (t : Text) → read_pid (utf8_text (lock_json p t)) ≡ some (some (pos p))
unfolding utf8
read_pid-lock_json p t =
    ap (λ (s : Bytes). some (some (pos (read_digits 0 s).0)))
      (utf8_text-append (decimal p) (codes ",\"startedAt\":\"" ++ (t ++ codes "\"}"))
        ∙ rw (utf8_text-digits (decimal p) (decimal-IsDigits p)) refl)
    ∙ ap (λ (r : ℕ × Text). some (some (pos r.0)))
        (read_digits-decimal p (utf8_text (codes ",\"startedAt\":\"" ++ (t ++ codes "\"}"))) refl)

abbrev pub lock_of : ℕ → Entry
lock_of p = file_with (utf8_text (lock_json p started))

-- A lock of the process 9, which has ended.
abbrev stale_disk : Disk
stale_disk = disk_with ((session_lock_filename, lock_of 9) ∷ [])

acquire-Decision_example :
    Acquired read_pid host started stale_disk
      (acquire_session_ownership read_pid host started stale_disk)
unfolding get text_dec text_eq is_process_alive
acquire-Decision_example =
    acquire-Decision read_pid host started stale_disk
      (inr (refl, inr (some (pos 9), read_pid-lock_json 9 started, refl)))
      (record { reads = refl; stats = refl; unlinks = refl; opens = refl; writes = refl })

abbrev before : System
before = record {
  disk = stale_disk;
  alive = λ q. if q == 7 then true else q == 8;
  owners = [];
  boot = 1000;
  now = 5000;
}

abbrev after : System
after = acquired read_pid before 7 (acquire_session_ownership read_pid host started before.disk)

abbrev empty_disk : Disk
empty_disk = disk_with []

abbrev pub unique : Text
unique = codes "0f"

write_private_file_atomic-Replaced_example :
    Post
      (λ _.
        Replaced
          (temp_name 7 session_filename unique)
          session_filename
          (utf8_text (codes "{}"))
          empty_disk)
      (λ _. Abandoned host (temp_name 7 session_filename unique) empty_disk)
      (write_private_file_atomic host session_filename (codes "{}") unique empty_disk)
unfolding get
write_private_file_atomic-Replaced_example =
    write_private_file_atomic-Replaced host session_filename (codes "{}") unique empty_disk tt

-- The system takes one byte at a time.
abbrev slow : Machine
slow = record host { takes = λ written asked. 1 }

abbrev opened : Disk
opened = disk_with (set (codes "t") (file_with []) [])

opened-Holds : Holds slow (codes "t") (1 ∷ 2 ∷ 3 ∷ []) empty_disk [] opened
opened-Holds = (
  (file_with [], get-set_self (codes "t") (file_with []) [], refl, refl, refl),
  λ q ne. get-set_ne q (codes "t") (file_with []) [] ne,
)

write_loop-ends_example :
    (write_loop slow 9 (codes "t") (1 ∷ 2 ∷ 3 ∷ []) 0 opened
      ≡ write_loop slow 4 (codes "t") (1 ∷ 2 ∷ 3 ∷ []) 0 opened)
    × ((write_loop slow 9 (codes "t") (1 ∷ 2 ∷ 3 ∷ []) 0 opened).0 ≡ done tt)
    × Holds slow
        (codes "t")
        (1 ∷ 2 ∷ 3 ∷ [])
        empty_disk
        (1 ∷ 2 ∷ 3 ∷ [])
        (write_loop slow 9 (codes "t") (1 ∷ 2 ∷ 3 ∷ []) 0 opened).1
write_loop-ends_example =
    write_loop-ends slow (codes "t") (1 ∷ 2 ∷ 3 ∷ []) 8 empty_disk opened (omega arith) opened-Holds
      refl (λ written asked h. omega arith)

-- A session is its text here.
abbrev pub parse : Bytes → Option Text
parse raw = some raw

abbrev pub as_text : Text → Text
as_text s = s

abbrev pub marker_text : Text → Text → Text
marker_text at hint = hint

abbrev pub session_entry : Entry
session_entry = file_with (utf8_text (codes "{\"a\":1}"))

abbrev pub signed_in : Store
signed_in = record { disk = disk_with ((session_filename, session_entry) ∷ []); last_seen = none }

load-save_example :
    (load parse as_text as_text marker_text host
      (record (save parse as_text as_text marker_text host (codes "{\"b\":2}") unique signed_in).1 {
        last_seen = none;
      })).0
    ≡ done (some (codes "{\"b\":2}"))
unfolding get set delete text_eq utf8 save current_identity note_identity lstat_file
    write_private_file_atomic replace_file write_temp write_loop open_new_file set_content
    rename_file text_dec decimal
load-save_example =
    load-save parse as_text as_text marker_text host host (codes "{\"b\":2}") unique signed_in
      (record (save parse as_text as_text marker_text host (codes "{\"b\":2}") unique signed_in).1 {
        last_seen = none;
      })
      refl refl tt refl refl refl refl

abbrev foreign_disk : Disk
foreign_disk = disk_with ((session_filename, record session_entry { mtime = 4500 }) ∷ [])

save-load-conflict_example :
    save parse as_text as_text marker_text host
      (codes "{\"b\":2}")
      unique
      (record (load parse as_text as_text marker_text host signed_in).1 { disk = foreign_disk })
    ≡ (
      failed session_conflict,
      record (load parse as_text as_text marker_text host signed_in).1 { disk = foreign_disk },
    )
unfolding get text_dec text_eq utf8 load load_entry lstat_file read_file note_identity
    current_identity
save-load-conflict_example =
    save-load-conflict parse as_text as_text marker_text host host (codes "{\"b\":2}") unique
      signed_in session_entry (record session_entry { mtime = 4500 }) foreign_disk
      (some (codes "{\"a\":1}")) refl refl refl refl refl
      (λ e. absurd (four_ne_five (ap (λ (i : Identity). i.mtime) e)))
  where
    four_ne_five : ◌≢◌ {A = ℕ} 4000 4500
    four_ne_five h = omega arith

remove-Stays_example :
    ((remove parse as_text as_text marker_text host started unique signed_in).0 ≡ done tt)
    × Stays parse as_text as_text marker_text host session_entry
        (remove parse as_text as_text marker_text host started unique signed_in).1.disk
unfolding get text_dec text_eq
remove-Stays_example =
    remove-Stays parse as_text as_text marker_text host session_entry started unique signed_in refl
      tt

-- Six markers.
abbrev marker_names : List Text
marker_names = codes "6" ∷ codes "2" ∷ codes "3" ∷ codes "1" ∷ codes "5" ∷ codes "4" ∷ []

abbrev with_markers : List Text → Map Entry
with_markers [] = []
with_markers (n ∷ names) = (marker_of n, file_with []) ∷ with_markers names

abbrev marked : Disk
marked = disk_with (with_markers marker_names)

marked-IsRemovable : IsRemovable parse as_text as_text marker_text host marked
unfolding get
marked-IsRemovable = ((λ q. refl), λ q e h. kind_of q e marker_names h)
  where
    kind_of :
        (q : Text) (e : Entry) (names : List Text)
        → get q (with_markers names) ≡ some e
        → e.kind ≡ regular
    kind_of q e [] h = cc
    kind_of q e (n ∷ names) h = elim (text_dec (marker_of n) q) [
      | yes same ↦
          let found : some (file_with []) ≡ some e = ground (arith, h) in
          ap (λ (o : Option Entry). elim o [ none ↦ regular | some e ↦ e.kind ]) (sym found)
      | no differ ↦ kind_of q e names (ground (arith, h))
    ]

prune_markers-Pruned_example :
    (length (newest parse as_text as_text marker_text host marked)
      ≡ min 5 (length (sorted_markers parse as_text as_text marker_text host marked)))
    × Pruned parse as_text as_text marker_text host (marker_of (codes "1")) marked
prune_markers-Pruned_example =
    prune_markers-Pruned parse as_text as_text marker_text host (marker_of (codes "1")) marked refl
      (unfold get text_dec text_eq in (refl, (refl, (refl, (refl, (refl, (refl, tt)))))))
      marked-IsRemovable
