-- ===== src/Serve/Tests.antt =====
-- A service of src/service/serve.ts that starts, and ends.
use rclone_proton_drive_webd.Base.{ℕ, ◌≡◌, refl, true, false, Option, none, some, List, [], ◌∷◌}
use rclone_proton_drive_webd.Base.Text.{codes, text_dec, text_eq}
use rclone_proton_drive_webd.Base.Map.{get}
use rclone_proton_drive_webd.Base.Int.{pos}
use rclone_proton_drive_webd.Session.Lock.{session_lock_filename}
use rclone_proton_drive_webd.Session.Tests.{
  host, started, disk_with, lock_of, read_pid, read_pid-lock_json, as_text, unique,
}
use rclone_proton_drive_webd.Bootstrap.Tests.{user, start, read_uid}
use rclone_proton_drive_webd.Serve.{
  env_flag, listens, socket, unrelated, PathEntry, Site, Calls, Event, signal, tick, drained, moved,
  start_serving, run, serving, main,
}
use rclone_proton_drive_webd.Serve.Release.{IsMine}
use rclone_proton_drive_webd.Serve.Path.{Kept, main-Kept, Began, start_serving-Began}
use rclone_proton_drive_webd.Serve.Exit.{Ending, run-Ending, run-gone}

flags :
    (env_flag none true ≡ true)
    × (env_flag (some []) true ≡ true)
    × (env_flag (some (codes "0")) true ≡ false)
    × (env_flag (some (codes "YES")) false ≡ true)
unfolding env_flag text_dec text_eq
flags = (refl, refl, refl, refl)

abbrev calm : Calls
calm = record {
  lstat_fails = false;
  unlink_fails = false;
  chmod_fails = false;
  bind = λ place. listens 12;
}

abbrev at_ino : ℕ → PathEntry
at_ino ino = record { kind = socket; ino = ino }

abbrev notes : PathEntry
notes = record { kind = unrelated; ino = 5 }

abbrev owned : Option PathEntry → Site
owned place = record {
  place = place;
  home = record { place = none; disk = disk_with ((session_lock_filename, lock_of 7) ∷ []) };
}

mine : IsMine read_pid host (owned (some (at_ino 4))).home.disk
unfolding get text_dec text_eq
mine = record {
  lock = lock_of 7;
  pid = some (pos 7);
  here = refl;
  kind = refl;
  names = read_pid-lock_json 7 started;
  own = refl;
  reads = refl;
  unlinks = refl;
}

main-Kept_example :
    Kept
      (some notes)
      (main read_pid host calm read_uid as_text user start unique unique true (owned (some notes)))
main-Kept_example =
    main-Kept read_pid host calm read_uid as_text user start unique unique true notes
      (owned (some notes)) refl refl refl

start_serving-Began_example :
    Began
      (owned (some (at_ino 4)))
      (start_serving read_pid host calm true (owned (some (at_ino 4))))
start_serving-Began_example =
    start_serving-Began read_pid host calm true (owned (some (at_ino 4))) mine refl

-- Another program takes the path.
abbrev taken : List Event
taken = tick ∷ moved (some (at_ino 20)) ∷ []

abbrev site : Site
site = owned (some (at_ino 4))

run-Ending_example :
    Ending read_pid host calm site
      (run read_pid host calm (signal ∷ drained ∷ []) (serving read_pid host calm 4 site))
      (run read_pid host calm (signal ∷ drained ∷ []) (serving read_pid host calm 4 site)).exit_code
run-Ending_example = run-Ending read_pid host calm (signal ∷ drained ∷ []) 4 site mine

run-gone_example :
    let s =
      run read_pid host calm
        (tick ∷ drained ∷ [])
        (run read_pid host calm taken (serving read_pid host calm 4 site)) in
    (s.exit_code ≡ some 0) × (get session_lock_filename s.disk.files ≡ none) × (s.place ≡ none)
unfolding run
run-gone_example = run-gone read_pid host calm taken 4 site mine refl refl refl
