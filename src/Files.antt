-- ===== src/Files.antt =====
-- A file system of JSON documents, and the write, sync and rename by which state, receipts and
-- credentials are replaced: internal/state/state.go (saveLocked), internal/manifest/manifest.go
-- (writeJSONAtomic), internal/batchupload/batch.go (saveState), internal/credentials/credentials.go
-- (Save) and internal/backup/backup.go (writeAtomic) share this body.
pub mod Atomic
use panpack.Base.{
  String, str_eq, Bool, Option, none, some, List, [], ◌∷◌, ◌++◌, Error, if◌then◌else◌,
}

-- What a file surely holds: a whole document, or what a write that has not been finished, or not been
-- brought to the disk by a sync, left.
pub data Content {ℓ} (A : Type ℓ) : Type ℓ where
  torn : Content A
  whole : A → Content A

-- The files by their paths.
abbrev pub Disk {ℓ} : Type ℓ → Type ℓ
Disk A = String → Option (Content A)

module _ {ℓ} {A : Type ℓ} where
  abbrev pub put : String → Option (Content A) → Disk A → Disk A
  put p c d q = if str_eq p q then c else d q

-- How the calls of one save end; `remove` is that of the temporary file.
pub record Outcomes : Type 0 where
  pub marshal : Option Error
  pub open_file : Option Error
  pub write : Option Error
  pub sync : Option Error
  pub close : Option Error
  pub remove : Option Error
  pub rename : Option Error

-- No call fails.
abbrev pub smooth : Outcomes
smooth = record {
  marshal = none;
  open_file = none;
  write = none;
  sync = none;
  close = none;
  remove = none;
  rename = none;
}

abbrev pub or_else : Option Error → Option Error → Option Error
or_else none e = e
or_else (some e) _ = some e

-- A save under way: the first error, the disk, and the disks so far, which a process that is killed
-- or a machine that stops can leave.
pub record Saving {ℓ} (A : Type ℓ) : Type ℓ where
  pub failed : Option Error
  pub disk : Disk A
  pub seen : List (Disk A)

module _ {ℓ} {A : Type ℓ} where
  -- A call that changes the disk if it succeeds.
  abbrev make_call : Option Error → (Disk A → Disk A) → Saving A → Saving A
  make_call none f s = record s { disk = f s.disk; seen = s.seen ++ (f s.disk ∷ []) }
  make_call (some e) f s = record s { failed = or_else s.failed (some e) }

  -- What is only done after no error.
  abbrev if_well : (Saving A → Saving A) → Saving A → Saving A
  if_well f s = elim s.failed [ none ↦ f s | some e ↦ s ]

module _ {ℓ} {A : Type ℓ} (tmp path : String) (value : A) where
  abbrev begin : Disk A → Saving A
  begin d = record { failed = none; disk = d; seen = d ∷ [] }

  -- `os.OpenFile(tmp, …)`, which truncates the file.
  abbrev open_tmp : Outcomes → Saving A → Saving A
  open_tmp io = make_call io.open_file (put tmp (some torn))

  -- Write, and Sync if that succeeded, and then Close in any case. The document is surely there only
  -- once it is synced.
  abbrev write_tmp : Outcomes → Saving A → Saving A
  write_tmp io s =
      make_call io.close (λ d. d)
        (if_well (make_call io.sync (put tmp (some (whole value))))
          (make_call io.write (put tmp (some torn)) s))

  -- `os.Remove(tmp)`, whose error is dropped.
  abbrev remove_tmp : Outcomes → Saving A → Saving A
  remove_tmp io = make_call io.remove (put tmp none)

  -- `os.Rename(tmp, path)`.
  abbrev rename_tmp : Outcomes → Saving A → Saving A
  rename_tmp io = make_call io.rename (λ d. put path (d tmp) (put tmp none d))

  abbrev finish_tmp : Outcomes → Saving A → Saving A
  finish_tmp io s = elim s.failed [ none ↦ rename_tmp io s | some e ↦ remove_tmp io s ]

  -- The save of `value` under `path`, call by call.
  unfoldable pub saving : Outcomes → Disk A → Saving A
  saving io d =
      if_well (λ s. finish_tmp io (write_tmp io s))
        (if_well (open_tmp io) (make_call io.marshal (λ d'. d') (begin d)))

  -- The save of `value` under `path`: the error it returns, and the disk.
  unfoldable pub write_atomic : Outcomes → Disk A → Option Error × Disk A
  unfolding saving
  write_atomic io d = let s = saving io d in (s.failed, s.disk)

  -- The disks before and after each call of the save, first to last.
  unfoldable pub crash_points : Outcomes → Disk A → List (Disk A)
  unfolding saving
  crash_points io d = (saving io d).seen
