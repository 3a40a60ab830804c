-- ===== src/Restore/Packed/Chain.antt =====
-- Packing and restoring together: the volumes that PackNext of internal/archive/packer.go seals one
-- after another are restored by Run of internal/restore/restore.go.
use panpack.Base.{
  ℕ, suc, ◌^◌, ◌<◌, ◌<>◌, ◌≡◌, refl, subst, false, none, eof, String, ok, List, [], ◌∷◌, map,
}
use panpack.Store.{Cursor, start_cursor}
use panpack.Archive.Pack.{Line, Source, Packer, Sealed, pack_next}
use panpack.Archive.Pack.Headers.{tar_entry}
use panpack.Archive.Pack.Between.{AtEnd, AtEnd-zero, Covers-AtEnd}
use panpack.Archive.Pack.Readable.{IsReadable, pack_next-IsReadable}
use panpack.Archive.Pack.Sealing.{Ordered, IsSealed, pack_next-IsSealed}
use panpack.Restore.{RestoreState}
use panpack.Restore.Volumes.{BackupFiles, is_empty, run}
use panpack.Restore.Quiet.{quiet}
use panpack.Restore.Packed.{Setting, Reads, ArePlain, IsFree, entries}
use panpack.Restore.Packed.Run.{HoldPacked, no_more, volume, IsRestored, run-IsRestored}

-- From a cursor on, the volumes at the paths are those that PackNext sealed, one after another up to
-- the end of the manifest. The source may change between two of them, and so may the target.
pub data Packs (s : Setting) (backup : BackupFiles) (packer : Packer)
    : Cursor → List Line → List String → Type 0 where
  all_packed : {c : Cursor} → Packs s backup packer c [] []
  pack :
      {c : Cursor} {lines : List Line} {p : String} {ps : List String} {v : Sealed} (src : Source)
      (target : ℕ)
      → Ordered c.manifest_offset lines
      → pack_next src packer c target lines ≡ ok v
      → v.index < 2 ^ 63
      → backup.open_volume p
        ≡ ok (record {
          entries = map (tar_entry s.packed s.content_of s.snapshot_id v.index) v.items;
          ending = eof;
        })
      → Packs s backup packer v.cursor_after v.left ps
      → Packs s backup packer c lines (p ∷ ps)

module _ (s : Setting) (backup : BackupFiles) (packer : Packer) where
  Packs-HoldPacked :
      {c : Cursor} {lines : List Line} {ps : List String}
      → Packs s backup packer c lines ps
      → AtEnd lines c.file_offset
      → HoldPacked s backup c.next_volume ps lines c.file_offset
  Packs-HoldPacked all_packed h = no_more h
  Packs-HoldPacked (pack {c} {lines} {p} {ps} {v} src target ordered sealed bound opens more) h =
      let is : IsSealed packer lines c target v =
        pack_next-IsSealed src packer c target lines ordered sealed in
      let reads : IsReadable v.items = pack_next-IsReadable src packer c target lines sealed in
      let rest : HoldPacked s backup (suc v.index) ps v.left v.cursor_after.file_offset =
        subst (λ i. HoldPacked s backup i ps v.left v.cursor_after.file_offset) is.advanced
          (Packs-HoldPacked more (Covers-AtEnd is.covers h)) in
      subst (λ i. HoldPacked s backup i (p ∷ ps) lines c.file_offset) is.numbered
        (volume bound opens is.covers reads.kinds reads.marked rest)

  -- Where no call fails, what PackNext packs of a whole manifest, volume by volume, is restored: the
  -- run ends without an error, every file is back with its content, the permission bits of its mode and
  -- its time, every link with its target, every directory is given its permission bits and time at the
  -- end, and nothing else in the tree has changed. The lines of the manifest lie one behind the other
  -- with ascending ids, no parent of a destination is a link, the names are safe, not reserved and lead
  -- to different destinations where nothing lies yet, and numbers and markers are read as they were
  -- written.
  pub packed-IsRestored :
      (reads : Reads s) (lines : List Line) (found : List String) (n : ℕ) (w : RestoreState)
      → backup.snapshot ≡ ok (record { format_version = 1; id = s.snapshot_id })
      → backup.manifest ≡ ok (record { left = entries lines; ending = s.ending; current = none })
      → backup.glob (s.snapshot_id <> ".volume-*.tar") ≡ ok found
      → is_empty (backup.sort found) ≡ false
      → Packs s backup packer start_cursor lines (backup.sort found)
      → ArePlain s n lines
      → IsFree s w.tree lines
      → IsRestored s lines w (run s.texts (quiet s.links s.now) s.opts backup w)
  packed-IsRestored reads lines found n w of_snapshot of_manifest globbed some_volume packs plain
        free =
      run-IsRestored s reads backup lines found n w of_snapshot of_manifest globbed some_volume
        (Packs-HoldPacked packs (AtEnd-zero lines 0 refl)) plain free
