-- ===== src/Backup.antt =====
-- The backup loop: Run, uploadPending, uploadOne and the upload of the metadata of
-- internal/backup/backup.go, as a program over the store, the staged files that were removed, and a
-- remote side of any kind. The packer and the policy are parts of the environment, from which what a call
-- gives is read off by the number of calls before it.
pub mod Staging
pub mod Rounds
pub mod Fuel
pub mod RemoteDir
use panpack.Base.{
  ℕ, zero, suc, ◌+◌, ◌<>◌, String, str_eq, Bool, true, false, not, ◌&&◌, ◌||◌, Option, none, some,
  Error, eof, message, wrapped, is_not_exist, is_eof, Result, ok, err, ◌==◌, if◌then◌else◌, List,
  [], ◌∷◌, ◌++◌, is_empty, Bytes,
}
use panpack.Base.Programs.{Program, ◌>>=◌, ◌>>◌, give, raise, lift, returned, unless, when}
use panpack.Files.{Content, Disk, Outcomes, write_atomic}
use panpack.Baidu.Blocks.{Hashed}
use panpack.Baidu.Concurrency.{UploadStats}
use panpack.Store.{Cursor, Volume, Backup, World}
use panpack.Store.Durable.{Method, seal, attempt, upload, complete, archive_done, call}

-- What Run asks of the remote client.
pub record Uploader {ℓ} (R : Type ℓ) : Type ℓ where
  pub upload_volume : Volume → R → Result UploadStats × R
  pub upload_file : String → String → R → Result UploadStats × R

-- The names of one snapshot, as Run joins them from its configuration.
pub record Names : Type 0 where
  pub state_file : String
  pub snapshot_id : String
  pub manifest_path : String
  pub manifest_name : String
  pub snapshot_path : String
  pub snapshot_name : String
  pub index_path : String
  pub index_name : String
  pub remote_dir : String

pub record IndexedFile : Type 0 where
  pub name : String
  pub size : ℕ
  pub md5 : String

pub record VolumeIndex : Type 0 where
  pub format_version : ℕ
  pub snapshot_id : String
  pub created_at : ℕ
  pub volumes : List IndexedFile
  pub manifest : IndexedFile
  pub snapshot : IndexedFile

-- What the system answers, by the number of calls before. `plan` is the detection of the resources
-- with the policy's volume size for them, `hash_file` the size and the checksum of a local file.
pub record Environment : Type 0 where
  pub outcomes : ℕ → Outcomes
  pub now : ℕ → ℕ
  pub exists : ℕ → String → Bool
  pub remove : ℕ → String → Option Error
  pub plan : ℕ → Result ℕ
  pub pack_next : ℕ → Cursor → ℕ → Result Volume
  pub hash_file : ℕ → String → Result (ℕ × String)

-- `removals` are the staged files whose removal was asked for, the last one first.
pub record Machine {ℓ} (R : Type ℓ) : Type ℓ where
  pub store : World
  pub indexes : Disk VolumeIndex
  pub removals : List String
  pub remote : R
  pub tick : ℕ

-- How the packing of a volume went on.
pub data Packed : Type 0 where
  sealed : Volume → Packed
  exhausted : Packed
  broken : Error → Packed

unfoldable pub packed_of : Result Volume → Packed
packed_of (ok v) = sealed v
packed_of (err e) = if is_eof e then exhausted else broken e

pub removed : Bool → Option Error → Result (Unit {0})
removed tolerant none = ok tt
removed tolerant (some e) =
    if tolerant && is_not_exist e then ok tt else err (wrapped "remove staging volume" e)

-- The entries of the index, where every volume is uploaded.
pub index_volumes : List Volume → Result (List IndexedFile)
index_volumes [] = ok []
index_volumes (v ∷ vs) =
    let rest = index_volumes vs in
    if not v.uploaded then err (message "volume is not uploaded") else elim rest [
      | err e ↦ err e
      | ok files ↦ ok (record { name = v.name; size = v.size; md5 = v.md5 } ∷ files)
    ]

module _ {ℓ} {R : Type ℓ} where
  pub ask {κ} : {A : Type κ} → (ℕ → A) → Program (Machine R) A
  ask f w = (ok (f w.tick), record w { tick = w.tick + 1 })

  pub request {κ} : {A : Type κ} → (R → A × R) → Program (Machine R) A
  request f w =
      let (a, remote) = f w.remote in (ok a, record w { remote = remote; tick = w.tick + 1 })

module _ {ℓ} {R : Type ℓ} (client : Uploader R) (env : Environment) (names : Names) where
  -- A method of the store.
  pub store_call : Method → Program (Machine R) (Unit {0})
  store_call m w =
      let (e, s) = call names.state_file (env.outcomes w.tick) (env.now w.tick) m w.store in
      returned e (record w { store = s; tick = w.tick + 1 })

  pub volumes : Program (Machine R) (List Volume)
  volumes w = (ok w.store.backup.volumes, w)

  pub cursor : Program (Machine R) Cursor
  cursor w = (ok w.store.backup.cursor, w)

  -- `os.Remove`, where a missing file is an error or is not.
  pub remove : Bool → String → Program (Machine R) (Unit {0})
  unfolding removed
  remove tolerant path w = (
    removed tolerant (env.remove w.tick path),
    record w { removals = path ∷ w.removals; tick = w.tick + 1 },
  )

  pub upload_one : Volume → Program (Machine R) (Unit {0})
  unfolding store_call request remove
  upload_one v = do
    store_call (attempt v.index)
    stats ← request (client.upload_volume v)
    uploaded ← lift stats
    store_call (upload v.index)
    remove true v.local_path

  -- One volume of the range in `uploadPending`.
  pub upload_pending_one : Volume → Program (Machine R) (Unit {0})
  unfolding ask remove upload_one
  upload_pending_one v =
      if v.uploaded
      then (do
        staged ← ask (λ t. env.exists t v.local_path)
        when staged (remove false v.local_path))
      else (do
        unless (is_empty v.block_md5s) (message "pending volume has no block hashes")
        upload_one v)

  pub upload_each : List Volume → Program (Machine R) (Unit {0})
  unfolding upload_pending_one
  upload_each [] = give tt
  upload_each (v ∷ vs) = do upload_pending_one v; upload_each vs

  -- `uploadPending`, over the volumes as they are when it begins.
  pub upload_pending : Program (Machine R) (Unit {0})
  unfolding volumes upload_each
  upload_pending = do current ← volumes; upload_each current

  -- What follows PackNext; `again` are the rounds after this one.
  pub after_pack : Packed → Program (Machine R) (Unit {0}) → Program (Machine R) (Unit {0})
  unfolding store_call upload_one
  after_pack exhausted again = store_call archive_done
  after_pack (broken e) again = raise e
  after_pack (sealed v) again = do store_call (seal v); upload_one v; again

  -- The rounds of the packing loop, of which there are at most as many as the fuel.
  pub pack_rounds : ℕ → Program (Machine R) (Unit {0})
  unfolding cursor ask packed_of after_pack
  pack_rounds zero = raise (message "out of fuel")
  pack_rounds (suc fuel) = do
    current ← cursor
    if current.is_done then give tt else (do
      planned ← ask env.plan
      target ← lift planned
      result ← ask (λ t. env.pack_next t current target)
      after_pack (packed_of result) (pack_rounds fuel))

  -- The index is written like every JSON document.
  pub write_index : VolumeIndex → Program (Machine R) (Unit {0})
  write_index index w =
      let (e, d) =
        write_atomic (names.index_path <> ".tmp") names.index_path index (env.outcomes w.tick)
          w.indexes in
      returned e (record w { indexes = d; tick = w.tick + 1 })

  pub upload_local : String → String → Program (Machine R) (Unit {0})
  unfolding request
  upload_local path name = do
    stats ← request (client.upload_file path (names.remote_dir <> ("/" <> name)))
    uploaded ← lift stats
    give tt

  -- `uploadMetadata`
  pub upload_metadata : Program (Machine R) (Unit {0})
  unfolding volumes index_volumes ask write_index upload_local
  upload_metadata = do
    now ← ask env.now
    current ← volumes
    indexed ← lift (index_volumes current)
    hashed_manifest ← ask (λ t. env.hash_file t names.manifest_path)
    manifest ← lift hashed_manifest
    hashed_snapshot ← ask (λ t. env.hash_file t names.snapshot_path)
    snapshot ← lift hashed_snapshot
    write_index (record {
      format_version = 1;
      snapshot_id = names.snapshot_id;
      created_at = now;
      volumes = indexed;
      manifest = record { name = names.manifest_name; size = manifest.0; md5 = manifest.1 };
      snapshot = record { name = names.snapshot_name; size = snapshot.0; md5 = snapshot.1 };
    })
    upload_local names.manifest_path names.manifest_name
    upload_local names.snapshot_path names.snapshot_name
    upload_local names.index_path names.index_name

  -- `Run` from the opened store on.
  unfoldable pub run : ℕ → Program (Machine R) (Unit {0})
  unfolding upload_pending pack_rounds upload_metadata store_call
  run fuel = do upload_pending; pack_rounds fuel; upload_metadata; store_call complete
