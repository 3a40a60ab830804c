-- ===== src/Files/Atomic.antt =====
-- The disk after a save, and at each point where a save may be killed.
use panpack.Base.{String, str_eq, eq_refl, false, none, some, ◌≡◌, ◌⊎◌, arith, Error, All}
use panpack.Files.{whole, Disk, Outcomes, write_atomic, crash_points}

module _ {ℓ} {A : Type ℓ} (tmp path : String) (distinct : str_eq tmp path ≡ false) (value : A) where
  -- The file under `path` is untouched, or holds the whole new document.
  abbrev pub IsOldOrNew : Disk A → Disk A → Type ℓ
  IsOldOrNew d d' = (d' path ≡ d path) ⊎ (d' path ≡ some (whole value))

  -- Before and after each call of a save, however the calls end, the file under the path is untouched or
  -- holds the whole new document, brought to the disk by a sync, if the temporary file is another one.
  pub crash_points-All :
      (io : Outcomes) (d : Disk A) → All (IsOldOrNew d) (crash_points tmp path value io d)
  unfolding crash_points
  crash_points-All io d = ground (arith, eq_refl path, eq_refl tmp)

  -- A save that reports success has put the new document in place.
  pub write_atomic-succeeds :
      (io : Outcomes) (d : Disk A)
      → (write_atomic tmp path value io d).0 ≡ none
      → (write_atomic tmp path value io d).1 path ≡ some (whole value)
  unfolding write_atomic
  write_atomic-succeeds io d h = ground (arith, eq_refl path, eq_refl tmp)

  -- A save that reports an error has left the old file.
  pub write_atomic-fails :
      (io : Outcomes) (d : Disk A) (e : Error)
      → (write_atomic tmp path value io d).0 ≡ some e
      → (write_atomic tmp path value io d).1 path ≡ d path
  unfolding write_atomic
  write_atomic-fails io d e h = ground (arith, eq_refl path, eq_refl tmp)

  -- Files other than the two are left alone.
  pub write_atomic-frame :
      (io : Outcomes) (d : Disk A) (q : String)
      → str_eq tmp q ≡ false
      → str_eq path q ≡ false
      → (write_atomic tmp path value io d).1 q ≡ d q
  unfolding write_atomic
  write_atomic-frame io d q t p = ground arith
