-- ===== src/Tests/Saves.antt =====
-- The theorems on saves and on the backup's state, at concrete values.
use panpack.Base.{ℕ, true, false, refl, none, some, message, [], ◌∷◌, All, arith}
use panpack.Files.{whole, Disk, put, Outcomes, smooth, crash_points}
use panpack.Files.Atomic.{IsOldOrNew, crash_points-All}
use panpack.Store.{Volume, World, fresh, mark_uploaded}
use panpack.Store.Durable.{seal, call, IsSettled, call-IsSettled}
use panpack.Store.Invariant as Inv
use panpack.Store.Invariant.{IsWellFormed, Reach-IsWellFormed, fresh-IsWellFormed}

abbrev full_disk : Outcomes
full_disk = record smooth { write = some (message "no space left on device") }

abbrev a_disk : Disk ℕ
a_disk = put "n.json" (some (whole 1)) (λ p. none)

crash_points_example :
    All
      (IsOldOrNew "n.json.tmp" "n.json" refl 2 a_disk)
      (crash_points "n.json.tmp" "n.json" 2 full_disk a_disk)
crash_points_example = crash_points-All "n.json.tmp" "n.json" refl 2 full_disk a_disk

abbrev first_volume : Volume
first_volume = record {
  index = 0;
  name = "v0.tar";
  local_path = "/state/v0.tar";
  remote_path = "/apps/p/v0.tar";
  size = 4096;
  md5 = "m";
  block_md5s = "b" ∷ [];
  cursor_after = record { manifest_offset = 80; file_offset = 0; next_volume = 1; is_done = true };
  sealed_at = 3;
  uploaded_at = 0;
  uploaded = false;
  upload_attempts = 0;
}

abbrev start : World
start = record { backup = fresh "s1" "/src" "/apps/p" 1; disk = λ p. none }

abbrev sealed : World
sealed = (call "state.json" smooth 2 (seal first_volume) start).1

call_example :
    IsSettled "state.json" start (call "state.json" full_disk 2 (seal first_volume) start)
call_example = call-IsSettled "state.json" full_disk 2 (seal first_volume) start

Reach_example : IsWellFormed (mark_uploaded "state.json" full_disk 4 0 sealed).1.backup
Reach_example = Reach-IsWellFormed "state.json" (fresh-IsWellFormed "s1" "/src" "/apps/p" 1) (
    Inv.next
      (Inv.next Inv.here
        (Inv.seal smooth 2 first_volume (record { next = refl; hashed = λ e. ground arith }) refl))
      (Inv.upload full_disk 4 0))
