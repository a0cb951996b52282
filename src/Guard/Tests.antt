-- ===== src/Guard/Tests.antt =====
-- Runs of the guard.
use rclone_proton_drive_webd.Base.{◌≡◌, ◌≤◌, ◌+◌, refl, true, false, List, [], ◌∷◌, arith}
use rclone_proton_drive_webd.Base.Text.{Text, codes, text_dec}
use rclone_proton_drive_webd.Base.Map.{get, set, delete, retain}
use rclone_proton_drive_webd.Guard.{protect, is_protected, release, prune, size, is_live}
use rclone_proton_drive_webd.Guard.History.{
  Call, protected, queried, released, run, deadline, is_protected-run,
}
use rclone_proton_drive_webd.Guard.Memory.{recent, size-run}

guard : Unit {0}
unfolding protect is_protected release prune size get set delete retain text_dec run deadline
guard = tt

abbrev a : Text
a = codes "/a.bin"

abbrev b : Text
b = codes "/b.bin"

abbrev calls : List Call
calls = queried a 5000 ∷ released b ∷ protected b 2000 ∷ protected a 1000 ∷ []

window :
    ((is_protected a 120999 (run calls)).1 ≡ true)
    × ((is_protected a 121000 (run calls)).1 ≡ false)
    × ((is_protected b 6000 (run calls)).1 ≡ false)
unfolding guard
window = (refl, refl, refl)

is_protected-run_example : (is_protected a 6000 (run calls)).1 ≡ is_live 6000 (deadline a calls)
is_protected-run_example = is_protected-run a 6000 calls (omega arith)

size-run_example :
    (size (protect a 6000 (run calls)) ≤ recent 6000 calls + 1)
    × (size (is_protected a 6000 (run calls)).0 ≤ recent 6000 calls)
size-run_example = size-run a 6000 calls
