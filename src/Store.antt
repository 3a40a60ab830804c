-- ===== src/Store.antt =====
-- The resumable backup state: internal/state/state.go. A `World` is the Store object's data with
-- the disk that its file lies on; every method takes the outcomes of its save and the clock. A file on
-- the disk stands for the value that its JSON text decodes to.
pub mod Durable
pub mod Invariant
pub mod Staged
use panpack.Base.{
  ℕ, ◌+◌, String, str_eq, ◌<>◌, Bool, true, false, not, ◌||◌, ◌&&◌, Option, none, some, List, [],
  ◌∷◌, ◌++◌, Error, is_not_exist, message, not_exist, Result, ok, err, ◌==◌, if◌then◌else◌,
}
use panpack.Files.{Content, torn, whole, Disk, Outcomes, write_atomic}

abbrev pub format_version : ℕ
format_version = 1

pub record Cursor : Type 0 where
  pub manifest_offset : ℕ
  pub file_offset : ℕ
  pub next_volume : ℕ
  pub is_done : Bool

-- Times are numbers, the zero time is 0.
pub record Volume : Type 0 where
  pub index : ℕ
  pub name : String
  pub local_path : String
  pub remote_path : String
  pub size : ℕ
  pub md5 : String
  pub block_md5s : List String
  pub cursor_after : Cursor
  pub sealed_at : ℕ
  pub uploaded_at : ℕ
  pub uploaded : Bool
  pub upload_attempts : ℕ

pub record Backup : Type 0 where
  pub format_version : ℕ
  pub snapshot_id : String
  pub source : String
  pub remote_dir : String
  pub cursor : Cursor
  pub volumes : List Volume
  pub completed : Bool
  pub created_at : ℕ
  pub updated_at : ℕ

abbrev pub start_cursor : Cursor
start_cursor = record { manifest_offset = 0; file_offset = 0; next_volume = 0; is_done = false }

pub record World : Type 0 where
  pub backup : Backup
  pub disk : Disk Backup

-- What `Open` writes where there is no state yet.
abbrev pub fresh : String → String → String → ℕ → Backup
fresh snapshot_id source remote_dir now = record {
  format_version = format_version;
  snapshot_id = snapshot_id;
  source = source;
  remote_dir = remote_dir;
  cursor = start_cursor;
  volumes = [];
  completed = false;
  created_at = now;
  updated_at = now;
}

module _ (path : String) where
  -- `saveLocked`
  unfoldable pub save_locked : Outcomes → World → Option Error × World
  save_locked io w =
      let (e, d) = write_atomic (path <> ".tmp") path w.backup io w.disk in
      (e, record w { disk = d })

  -- `Load`: a missing file, a file that does not decode, another format.
  unfoldable pub load : Disk Backup → Result Backup
  load d = elim (d path) [
    | none ↦ err not_exist
    | some torn ↦ err (message "decode backup state")
    | some (whole b) ↦
        if b.format_version == format_version
        then ok b
        else err (message "unsupported backup state format")
  ]

  -- `Open`
  unfoldable pub open_store :
      Outcomes → ℕ → String → String → String → Disk Backup → Result World × Disk Backup
  unfolding load save_locked
  open_store io now snapshot_id source remote_dir d = elim (load d) [
    | ok b ↦
        if not (str_eq b.snapshot_id snapshot_id)
        then (err (message "backup state belongs to another snapshot"), d)
        else if not (str_eq b.remote_dir remote_dir)
        then (err (message "backup state remote directory differs"), d)
        else (ok (record { backup = b; disk = d }), d)
    | err e ↦
        if not (is_not_exist e)
        then (err e, d)
        else (let b = fresh snapshot_id source remote_dir now in
            let (failed, w) = save_locked io (record { backup = b; disk = d }) in
            elim failed [ some e ↦ (err e, w.disk) | none ↦ (ok w, w.disk) ])
  ]

-- The range over `s.data.Volumes` in `AddSealed`.
has_index : ℕ → List Volume → Bool
has_index i [] = false
has_index i (v ∷ vs) = v.index == i || has_index i vs

-- The loops of `IncrementAttempt` and `MarkUploaded`: the first volume of the index is changed,
-- and there is none if the loop falls through.
update_first : ℕ → (Volume → Volume) → List Volume → Option (List Volume)
update_first i f [] = none
update_first i f (v ∷ vs) =
    let rest = update_first i f vs in
    if v.index == i then some (f v ∷ vs) else elim rest [ none ↦ none | some us ↦ some (v ∷ us) ]

abbrev attempted : Volume → Volume
attempted v = record v { upload_attempts = v.upload_attempts + 1 }

abbrev marked : ℕ → Volume → Volume
marked now v = record v { uploaded = true; uploaded_at = now; block_md5s = [] }

-- The first loop of `MarkComplete`.
pub all_uploaded : List Volume → Bool
all_uploaded [] = true
all_uploaded (v ∷ vs) = v.uploaded && all_uploaded vs

module _ (path : String) (io : Outcomes) (now : ℕ) where
  commit : Backup → World → Option Error × World
  commit b w = save_locked path io (record w { backup = record b { updated_at = now } })

  unfoldable pub add_sealed : Volume → World → Option Error × World
  unfolding has_index commit
  add_sealed v w =
      if not (v.index == w.backup.cursor.next_volume)
      then (some (message "volume index does not match cursor"), w)
      else if has_index v.index w.backup.volumes
      then (some (message "volume already exists in state"), w)
      else commit
          (record w.backup { cursor = v.cursor_after; volumes = w.backup.volumes ++ (v ∷ []) }) w

  -- The two returns of the methods that look a volume up.
  commit_found : Option (List Volume) → World → Option Error × World
  commit_found none w = (some (message "unknown volume"), w)
  commit_found (some vs) w = commit (record w.backup { volumes = vs }) w

  unfoldable pub increment_attempt : ℕ → World → Option Error × World
  unfolding update_first commit_found commit
  increment_attempt i w = commit_found (update_first i attempted w.backup.volumes) w

  unfoldable pub mark_uploaded : ℕ → World → Option Error × World
  unfolding update_first commit_found commit
  mark_uploaded i w = commit_found (update_first i (marked now) w.backup.volumes) w

  unfoldable pub mark_complete : World → Option Error × World
  unfolding all_uploaded commit
  mark_complete w =
      if not (all_uploaded w.backup.volumes)
      then (some (message "cannot complete: volume is not uploaded"), w)
      else if not w.backup.cursor.is_done
      then (some (message "cannot complete: archive cursor has not reached end of manifest"), w)
      else commit (record w.backup { completed = true }) w

  unfoldable pub mark_archive_done : World → Option Error × World
  unfolding commit
  mark_archive_done w =
      commit (record w.backup { cursor = record w.backup.cursor { is_done = true } }) w
