-- ===== src/Store/Durable.antt =====
-- What lies on the disk after a method of the store.
use Prim.Native.String.{count}
use text.Mathlib.TextLemmas.{length-append}
use panpack.Base.{
  ℕ, String, str_eq, ◌<>◌, eq_iff, true, false, Bool-cases, Option, none, some, List, [], ◌∷◌, ◌++◌,
  ◌≡◌, ap, inl, inr, arith, Error, refl,
}
use panpack.Files.{whole, Disk, Outcomes, write_atomic}
use panpack.Files.Atomic.{write_atomic-succeeds, write_atomic-fails}
use panpack.Store.{
  Volume, Backup, World, save_locked, commit, commit_found, add_sealed, increment_attempt,
  mark_uploaded, mark_complete, mark_archive_done,
}

pub tmp-ne : (path : String) → str_eq (path <> ".tmp") path ≡ false
tmp-ne path = elim (Bool-cases (str_eq (path <> ".tmp") path)) [
  | inl same ↦
      absurd
        (omega (arith, ap count ((eq_iff (path <> ".tmp") path).0 same), length-append path ".tmp"))
  | inr differ ↦ differ
]

-- The methods, by name.
pub data Method : Type 0 where
  seal : Volume → Method
  attempt : ℕ → Method
  upload : ℕ → Method
  complete archive_done : Method

abbrev pub call : String → Outcomes → ℕ → Method → World → Option Error × World
call path io now (seal v) = add_sealed path io now v
call path io now (attempt i) = increment_attempt path io now i
call path io now (upload i) = mark_uploaded path io now i
call path io now complete = mark_complete path io now
call path io now archive_done = mark_archive_done path io now

-- A call that returns no error has put the new state on the disk; one that returns an error has
-- left the file as it was.
abbrev pub IsSettled : String → World → Option Error × World → Type 0
IsSettled path w (none, w') = w'.disk path ≡ some (whole w'.backup)
IsSettled path w (some e, w') = w'.disk path ≡ w.disk path

module _ (path : String) (io : Outcomes) where
  settled :
      (w : World) (r : Option Error × Disk Backup)
      → (r.0 ≡ none → r.1 path ≡ some (whole w.backup))
      → ((e : Error) → r.0 ≡ some e → r.1 path ≡ w.disk path)
      → IsSettled path w (r.0, record w { disk = r.1 })
  settled w (none, d) good bad = good refl
  settled w (some e, d) good bad = bad e refl

  save_locked-IsSettled : (w : World) → IsSettled path w (save_locked path io w)
  unfolding save_locked
  save_locked-IsSettled w =
      settled w (write_atomic (path <> ".tmp") path w.backup io w.disk)
        (write_atomic-succeeds (path <> ".tmp") path (tmp-ne path) w.backup io w.disk)
        (write_atomic-fails (path <> ".tmp") path (tmp-ne path) w.backup io w.disk)

  commit-IsSettled : (now : ℕ) (b : Backup) (w : World) → IsSettled path w (commit path io now b w)
  unfolding commit
  commit-IsSettled now b w =
      save_locked-IsSettled (record w { backup = record b { updated_at = now } })

  commit_found-IsSettled :
      (now : ℕ) (found : Option (List Volume)) (w : World)
      → IsSettled path w (commit_found path io now found w)
  unfolding commit_found
  commit_found-IsSettled now none w = refl
  commit_found-IsSettled now (some vs) w = commit-IsSettled now _ w

  -- After any method, the file holds the state that the object holds, or what it held before, as
  -- the method reports.
  pub call-IsSettled : (now : ℕ) (m : Method) (w : World) → IsSettled path w (call path io now m w)
  unfolding add_sealed increment_attempt mark_uploaded mark_complete mark_archive_done
  call-IsSettled now (seal v) w = ground (
    arith,
    commit-IsSettled now
        (record w.backup { cursor = v.cursor_after; volumes = w.backup.volumes ++ (v ∷ []) }) w,
  )
  call-IsSettled now (attempt i) w = commit_found-IsSettled now _ w
  call-IsSettled now (upload i) w = commit_found-IsSettled now _ w
  call-IsSettled now complete w =
      ground (arith, commit-IsSettled now (record w.backup { completed = true }) w)
  call-IsSettled now archive_done w =
      commit-IsSettled now (record w.backup { cursor = record w.backup.cursor { is_done = true } })
        w
