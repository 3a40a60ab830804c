-- ===== src/Backup/RemoteDir.antt =====
-- The remote directory of a backup: resolveRemoteDir and cleanRemoteDir of internal/backup/backup.go.
-- The functions of strings and of path are parameters.
use panpack.Base.{
  ℕ, ◌<>◌, String, str_eq, Bool, true, false, not, ◌&&◌, ◌||◌, ◌≡◌, Error, message, wrapped,
  is_not_exist, Result, ok, err, IfOk, leb, ◌==◌, if◌then◌else◌, [], ◌∷◌, Bytes, codes,
}
use panpack.Files.{Disk}
use panpack.Store.{Backup, load}

-- path.Clean after strings.TrimRight of slashes, strings.HasPrefix of "/apps/", and path.Join.
pub record PathText : Type 0 where
  pub clean : String → String
  pub is_under_apps : String → Bool
  pub join : String → String → String

-- A letter, a digit, a dash or an underscore.
pub is_safe_char : ℕ → Bool
is_safe_char c =
    (leb b'a' c && leb c b'z')
    || ((leb b'A' c && leb c b'Z') || ((leb b'0' c && leb c b'9') || (c == b'-' || c == b'_')))

pub is_safe_id : Bytes → Bool
unfolding is_safe_char
is_safe_id [] = true
is_safe_id (c ∷ cs) = is_safe_char c && is_safe_id cs

module _ (text : PathText) where
  -- `cleanRemoteDir`
  pub clean_remote_dir : String → Result String
  clean_remote_dir dir =
      if str_eq dir "" || not (text.is_under_apps (text.clean dir))
      then err (message "remote directory must be under /apps/<app>")
      else ok (text.clean dir)

  -- Of the state that was loaded.
  pub stored_dir : String → Backup → Result String
  unfolding clean_remote_dir
  stored_dir snapshot_id b =
      if not (str_eq b.snapshot_id snapshot_id)
      then err (message "backup state belongs to another snapshot")
      else elim (clean_remote_dir b.remote_dir) [
        | err e ↦ err (wrapped "stored backup remote directory" e)
        | ok dir ↦ ok dir
      ]

  -- Where there is no state.
  pub default_dir : String → Result String
  unfolding is_safe_id
  default_dir snapshot_id =
      if str_eq snapshot_id ""
      then err (message "snapshot ID is empty")
      else if not (is_safe_id (codes snapshot_id))
      then err (message "snapshot ID contains an unsafe character")
      else ok (text.join "/apps/bypy" ("panpack-" <> snapshot_id))

  -- `resolveRemoteDir`
  unfoldable pub resolve_remote_dir : String → String → String → Disk Backup → Result String
  unfolding load stored_dir default_dir
  resolve_remote_dir configured snapshot_id state_file d =
      if not (str_eq configured "") then ok configured else elim (load state_file d) [
        | ok b ↦ stored_dir snapshot_id b
        | err e ↦
            if not (is_not_exist e)
            then err (wrapped "read backup state for remote directory" e)
            else default_dir snapshot_id
      ]

  -- A directory that is under /apps/ in its clean form.
  record IsCleanOf (given dir : String) : Type 0 where
    cleaned : dir ≡ text.clean given
    under : text.is_under_apps dir ≡ true

  -- Where the directory comes from.
  data Resolved (configured snapshot_id state_file : String) (d : Disk Backup) (dir : String)
      : Type 0 where
    as_configured :
        str_eq configured "" ≡ false
        → dir ≡ configured
        → Resolved configured snapshot_id state_file d dir
    as_stored :
        (b : Backup)
        → load state_file d ≡ ok b
        → b.snapshot_id ≡ snapshot_id
        → IsCleanOf b.remote_dir dir
        → Resolved configured snapshot_id state_file d dir
    as_default :
        (e : Error)
        → load state_file d ≡ err e
        → is_not_exist e ≡ true
        → is_safe_id (codes snapshot_id) ≡ true
        → dir ≡ text.join "/apps/bypy" ("panpack-" <> snapshot_id)
        → Resolved configured snapshot_id state_file d dir

  module _ (configured snapshot_id state_file : String) (d : Disk Backup) where
    abbrev IsResolved : Result String → Type 0
    IsResolved = IfOk (Resolved configured snapshot_id state_file d)

  -- What is kept of a directory that was resolved, so that it is accepted again.
  record IsKept (dir : String) : Type 0 where
    cleaned : text.clean dir ≡ dir
    under : text.is_under_apps dir ≡ true
