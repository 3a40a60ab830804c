-- ===== src/Lib.antt =====
-- panpack: resumable backups to Baidu Netdisk as size-capped tar volumes.
--
-- A backup scans a tree into a manifest, packs it volume by volume, uploads each volume in blocks
-- and records its progress in a state file, from which a killed run resumes. Batches upload the
-- files of a directory; receipts attest that a run has ended well. The packer reads the manifest
-- from the cursor of the state and gives the state a sealed volume with its hashes; the client
-- compares these hashes with the remote ones; a policy bounds the volumes and the workers.
--
-- Which file models which part (paths from the repository's root):
--   Base        lists, options, Boolean tests, integers, Go's error values, and programs: functions of
--               a world to a result and a world
--   Files       the write, sync and rename by which JSON documents are replaced: saveLocked of
--               internal/state/state.go, saveState, Save and save of the other packages
--   Store       internal/state/state.go: Store is World (the state and the disk), each method is a
--               function from how its calls end and a world to an error and a world
--   Archive     internal/archive/packer.go: PackNext is pack_next over the lines of the manifest,
--               hashingWriter is HashingWriter; Entry is that of internal/manifest/manifest.go
--   Baidu       internal/baidu/uploader.go: retry, feedback, ListDir, Metadata, HashFile, the
--               checksums of the remote side, RemoteInfo and Verify;
--               Baidu/Upload is upload, uploadBlock and EnsureDir; Baidu/Pool is uploadBlocks, a step
--               relation over its goroutines and the loop that feeds them
--   Resource    internal/resource/resource.go: Plan and cgroupMemoryAvailable
--   Receipt     internal/runreceipt/receipt.go
--   Credentials internal/credentials/credentials.go
--   Batch       internal/batchupload/batch.go: the state of a batch and its validation; Batch/Run is
--               runWithClient
--   Backup      internal/backup/backup.go: Run from the opened store on, and the remote
--               directory
--   Audit       internal/audit/audit.go: RunWithClient and GenerateExpected
--   Restore     internal/restore/restore.go: Run over volumes as lists of tar entries, the
--               destination as a tree of files and links; Restore/Packed is its round trip with the packer,
--               where no call fails
--   Tests       concrete runs
--
-- System calls, hash functions, archive/tar, path/filepath and the remote service are parameters:
-- records of outcomes or functions. The text of a JSON document is not modelled: a file on the disk
-- stands for the value that its text decodes to, or for none where its write was not synced. Sizes
-- are natural numbers: the source's int64 values that are not negative, far below 2 ^ 63; the slice
-- size and differences that may be negative are integers. The indexes of GenerateExpected wrap around
-- as an int of 64 bits does.
-- The floating-point results of the policy are parameters. Loops recurse on the list they read;
-- the loops of HashFile, ListDir and the writer recurse on fuel, one more than the bytes or
-- entries they read, and each round but the last consumes some, so it is enough. The packing loop
-- of the backup recurses on fuel too, one round for each volume, and more rounds than there
-- are volumes left are enough. GenerateExpected needs one round more than there are names.
--
-- A run of a batch or of a backup reads what the system answers off an environment, a function of
-- the number of calls before, and records every file whose removal it asks for.
--
-- Not modelled: the scan (manifest.Build), the requests of Verify within an upload as changes of
-- its world, directories of a restore beside the list of their metadata, the preparation of a
-- backup (paths, snapshot, credentials), OAuth and the command line, and the mutex of the state,
-- whose methods run one at a time.
pub mod Base
pub mod Files
pub mod Store
pub mod Baidu
pub mod Archive
pub mod Batch
pub mod Backup
pub mod Audit
pub mod Restore
pub mod Credentials
pub mod Receipt
pub mod Resource
pub mod Tests
