-- ===== src/Restore/Volumes.antt =====
-- The volumes of a backup in their order: Run and extractVolume of internal/restore/restore.go. A
-- volume is the list of its tar entries with what the reader gives behind them.
use panpack.Base.{
  ℕ, suc, ◌<>◌, String, str_eq, Bool, true, false, not, ◌&&◌, ◌||◌, Option, none, some, Error,
  message, wrapped, is_eof, Result, ok, ◌==◌, if◌then◌else◌, List, [], ◌∷◌, ◌++◌, take,
}
use panpack.Base.Programs.{Program, wrapping, ◌>>=◌, ◌>>◌, give, lift, unless}
use panpack.Archive.Pack.Headers.{VolumeMarker, TarEntry, format_version, perm}
use panpack.Restore.{
  DirMetadata, EntryLookup, FragmentProgress, Options, Texts, Environment, RestoreState, act, call,
  try,
}
use panpack.Restore.Entries.{restore_entry, restore_fragment}

pub record Tape : Type 0 where
  pub entries : List TarEntry
  pub ending : Error

pub record SnapshotFields : Type 0 where
  pub format_version : ℕ
  pub id : String

-- The files of the backup, and sort.Strings; `glob` takes a pattern below the directory of the
-- volumes.
pub record BackupFiles : Type 0 where
  pub snapshot : Result SnapshotFields
  pub manifest : Result EntryLookup
  pub glob : String → Result (List String)
  pub sort : List String → List String
  pub open_volume : String → Result Tape

unfoldable pub is_expected : VolumeMarker → String → ℕ → Bool
is_expected m snapshot_id index =
    m.format_version == format_version
    && (str_eq m.snapshot_id snapshot_id && m.volume_index == index)

module _ (texts : Texts) (env : Environment) (opts : Options) (snapshot_id : String) where
  unfoldable pub check_marker : ℕ → TarEntry → Program RestoreState (Unit {0})
  unfolding wrapping is_expected
  check_marker index t = do
    m ← wrapping "decode volume marker" (lift (texts.decode_marker (take t.header.size t.content)))
    unless (not (is_expected m snapshot_id index)) (message "unexpected volume marker")

  -- The body of the loop; the result is whether the entry is a marker.
  unfoldable pub extract_entry : ℕ → TarEntry → Program RestoreState Bool
  unfolding check_marker wrapping restore_entry restore_fragment
  extract_entry index t =
      if str_eq t.header.name ".panpack/volume.json"
      then check_marker index t >> give true
      else if texts.is_fragment t.header.name
      then wrapping "restore fragment" (restore_fragment texts env opts t.header t.content)
        >> give false
      else wrapping "restore" (restore_entry texts env opts t.header t.content) >> give false

  unfoldable pub extract_entries : ℕ → Bool → Error → List TarEntry → Program RestoreState Bool
  unfolding extract_entry act
  extract_entries index marker_seen ending [] = do
    call texts env opts
    unless (not (is_eof ending)) (wrapped "read volume" ending)
    give marker_seen
  extract_entries index marker_seen ending (t ∷ ts) = do
    call texts env opts
    is_marker ← extract_entry index t
    extract_entries index (marker_seen || is_marker) ending ts

  -- `extractVolume`
  unfoldable pub extract_volume : BackupFiles → ℕ → String → Program RestoreState (Unit {0})
  unfolding extract_entries
  extract_volume backup index path = do
    tape ← lift (backup.open_volume path)
    marker_seen ← extract_entries index false tape.ending tape.entries
    unless (not marker_seen) (message "volume has no panpack marker")

  unfoldable pub extract_volumes : BackupFiles → ℕ → List String → Program RestoreState (Unit {0})
  unfolding extract_volume act
  extract_volumes backup index [] = give tt
  extract_volumes backup index (p ∷ ps) = do
    call texts env opts
    extract_volume backup index p
    extract_volumes backup (suc index) ps

-- A fragment that has not reached the end of its file.
unfoldable pub is_incomplete : Option FragmentProgress → Bool
is_incomplete none = false
is_incomplete (some p) = not (p.written == p.entry.size)

unfoldable pub is_empty : List String → Bool
is_empty [] = true
is_empty (p ∷ ps) = false

module _ (texts : Texts) (env : Environment) (opts : Options) where
  -- os.Chmod and os.Chtimes of a directory.
  settle : DirMetadata → Program RestoreState (Unit {0})
  unfolding try
  settle d = do
    try texts env opts (λ w. w)
    try texts env opts
        (λ w. record w { settled = w.settled ++ (record d { mode = perm d.mode } ∷ []) })

  -- In reverse order: the rest of the list goes first.
  unfoldable pub settle_dirs : List DirMetadata → Program RestoreState (Unit {0})
  unfolding settle
  settle_dirs [] = give tt
  settle_dirs (d ∷ ds) = settle_dirs ds >> settle d

  unfoldable pub check_complete : Program RestoreState (Unit {0})
  unfolding is_incomplete
  check_complete w = unless (is_incomplete w.active) (message "fragmented file is incomplete") w

  -- `Run`
  unfoldable pub run : BackupFiles → Program RestoreState (Unit {0})
  unfolding act wrapping extract_volumes check_complete settle_dirs
  run backup = do
    snapshot ← wrapping "snapshot" (lift backup.snapshot)
    unless (not (snapshot.format_version == format_version)) (message "unsupported snapshot format")
    wrapping "create destination" (call texts env opts)
    found ← lift (backup.glob (snapshot.id <> ".volume-*.tar"))
    unless (is_empty (backup.sort found)) (message "no volumes match")
    lookup ← lift backup.manifest
    λ w. (ok tt, record w { lookup = lookup; dirs = []; active = none })
    extract_volumes texts env opts snapshot.id backup 0 (backup.sort found)
    check_complete
    λ w. settle_dirs w.dirs w
