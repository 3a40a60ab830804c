-- ===== src/Archive/Pack.antt =====
-- The packing of one volume: PackNext, the size budgets and verifyEntry of
-- internal/archive/packer.go, over the entries of internal/manifest/manifest.go. int64 sizes are
-- exact here: file and volume sizes stay far below 2 ^ 63. The volume is the list of its tar
-- entries with the byte count of the hashing writer.
pub mod Headers
pub mod Between
pub mod Covers
pub mod Kinds
pub mod Readable
pub mod Sealing
pub mod Volume
use panpack.Base.{
  ℕ, zero, suc, ◌+◌, ◌-◌, ◌*◌, ◌/◌, ◌%◌, Bool, true, false, not, ◌&&◌, ◌||◌, String, str_eq, Option,
  none, some, Error, message, wrapped, eof, Result, ok, err, ◌>>=◌, ◌>>◌, fail_if, ltb, leb, ◌==◌,
  if◌then◌else◌, List, [], ◌∷◌, ◌++◌, Bytes, codes,
}
use panpack.Base.Int.{ℤ, pos, negsuc, pos_part, sub_ℕ, leb_ℤ, ltb_ℤ}
use panpack.Store.{Cursor}

pub data Kind : Type 0 where
  file dir symlink unknown : Kind

pub record Entry : Type 0 where
  pub id : ℕ
  pub path : String
  pub kind : Kind
  pub size : ℕ
  pub mode : ℕ
  pub mod_time : ℕ
  pub link_target : String

-- A line of the manifest with its offset and that of the next one: what Reader.Next gives.
pub record Line : Type 0 where
  pub entry : Entry
  pub start : ℕ
  pub next : ℕ

-- What os.Lstat gives of a source path.
pub record FileInfo : Type 0 where
  pub mode : ℕ
  pub mod_time : ℕ
  pub size : ℕ

pub data Item : Type 0 where
  marker : Item
  whole : Entry → Item
  fragment : Entry → ℕ → ℕ → Item
  meta : Entry → Item

-- The world that a volume is packed in. `header` is the number of bytes that archive/tar writes
-- for the header of an item, `copy` the outcome of copying a range of a source file. `ctx_err` and
-- `read_err` are what ctx.Err() and the reader give at an offset of the manifest, the end of the
-- manifest aside.
pub record Source : Type 0 where
  pub ctx_err : ℕ → Option Error
  pub read_err : ℕ → Option Error
  pub safe_path : String → Result String
  pub lstat : String → Result FileInfo
  pub readlink : String → Result String
  pub header : Item → ℕ
  pub write_header : Item → Option Error
  pub copy : Entry → ℕ → ℕ → Option Error
  pub marker_size : ℕ

abbrev pub end_block_budget : ℕ
end_block_budget = 1024

abbrev pub header_budget : ℕ
header_budget = 4096

-- (n + 511) &^ 511
abbrev pub round512 : ℕ → ℕ
round512 n = (n + 511) - (n + 511) % 512

-- len(name) counts the bytes of the UTF-8 encoding.
byte_count : Bytes → ℕ
byte_count [] = 0
byte_count (c ∷ cs) =
    (if ltb c 128 then 1 else if ltb c 2048 then 2 else if ltb c 65536 then 3 else 4)
    + byte_count cs

unfoldable pub tar_entry_budget : String → ℕ → ℕ
unfolding byte_count
tar_entry_budget name size =
    header_budget + round512 (byte_count (codes name) * 2 + 512) + round512 size

-- The tar writer over the hashing writer: the bytes written, and the padding that the next header
-- or the end of the archive writes first.
pub record Tar : Type 0 where
  pub written : ℕ
  pub padding : ℕ

abbrev pub padding_of : ℕ → ℕ
padding_of n = round512 n - n

pub record Pack : Type 0 where
  pub tar : Tar
  pub items : List Item
  pub marker_written : Bool
  pub source_items : ℕ
  pub cursor : Cursor

pub data Next : Type 0 where
  fail : Error → Next
  stop : Pack → Next
  continue : Pack → Next

abbrev pub returned : Option Error → Result (Unit {0})
returned none = ok tt
returned (some e) = err e

check_link : Kind → Entry → Result String → Result (Unit {0})
check_link symlink entry (err e) = err (message "source changed after scan: symlink")
check_link symlink entry (ok target) =
    fail_if (not (str_eq target entry.link_target)) (message "source changed after scan: symlink")
check_link _ entry target = ok tt

is_file : Kind → Bool
is_file file = true
is_file _ = false

changed : FileInfo → Entry → Bool
changed fi entry = not (fi.mode == entry.mode) || not (fi.mod_time == entry.mod_time)

abbrev advance : Line → Cursor → Cursor
advance line c = record c { manifest_offset = line.next; file_offset = 0 }

abbrev lift : (Pack → Next) → Result Pack → Next
lift f (ok p) = f p
lift f (err e) = fail e

-- The cursor after a fragment of `n` bytes.
after_fragment : Line → ℕ → Cursor → Cursor
after_fragment line n c =
    if c.file_offset + n == line.entry.size
    then advance line c
    else record c { file_offset = c.file_offset + n }

-- Non-final fragments are 512-byte aligned.
part_size : ℕ → ℕ → ℕ
part_size remaining available =
    let part = if ltb available remaining then available else remaining in
    if ltb part remaining then part - part % 512 else part

-- What a reader opened at the cursor finds, when the loop leaves at `line`.
abbrev rest_of : Line → List Line → Pack → List Line
rest_of line lines q = if q.cursor.manifest_offset == line.start then line ∷ lines else lines

-- nextCursor.FileOffset == 0 && fullEstimate <= available
fits_now : ℕ → Line → Pack → Bool
fits_now target line p =
    p.cursor.file_offset == 0
    && leb_ℤ (pos (tar_entry_budget line.entry.path (line.entry.size - p.cursor.file_offset)))
        (sub_ℕ target (p.tar.written + end_block_budget))

-- The file would fit in a fresh volume, and this one is not empty.
fits_fresh : ℕ → Line → Pack → Bool
fits_fresh target line p =
    p.cursor.file_offset == 0
    && ltb 0 p.source_items
    && leb_ℤ (pos (tar_entry_budget line.entry.path (line.entry.size - p.cursor.file_offset)))
        (sub_ℕ target (end_block_budget + header_budget))

-- A directory or a link does not fit what is left of this volume.
meta_waits : ℕ → Line → Pack → Bool
meta_waits target line p =
    ltb 0 p.source_items
    && ltb_ℤ (sub_ℕ target (p.tar.written + end_block_budget))
        (pos (tar_entry_budget line.entry.path 0))

module _ (src : Source) where
  -- An item with `size` bytes of data.
  append_item : Item → ℕ → Pack → Pack
  append_item item size p = record p {
    tar = record {
      written = p.tar.written + p.tar.padding + src.header item + size;
      padding = padding_of size;
    };
    items = p.items ++ (item ∷ []);
  }

  write_marker : Pack → Result Pack
  unfolding append_item
  write_marker p = if p.marker_written then ok p else do
    returned (src.write_header marker)
    ok (record (append_item marker src.marker_size p) { marker_written = true })

  write_item : Item → Entry → ℕ → ℕ → Pack → Result Pack
  unfolding append_item
  write_item item entry offset size p = do
    returned (src.write_header item)
    returned (src.copy entry offset size)
    ok (record (append_item item size p) { source_items = p.source_items + 1 })

  -- `writeMetadataEntry` copies nothing.
  write_meta : Entry → Pack → Result Pack
  unfolding append_item
  write_meta entry p = do
    returned (src.write_header (meta entry))
    ok (record (append_item (meta entry) 0 p) { source_items = p.source_items + 1 })

  verify_entry : String → Entry → Result (Unit {0})
  unfolding check_link is_file changed
  verify_entry path entry = elim (src.lstat path) [
    | err e ↦ err (wrapped "source changed after scan; lstat" e)
    | ok fi ↦ do
      fail_if (changed fi entry) (message "source changed after scan (mode or mtime differs)")
      fail_if (is_file entry.kind && not (fi.size == entry.size))
          (message "source changed after scan (size)")
      check_link entry.kind entry (src.readlink path)
  ]

  -- The whole file fits what is left of the volume.
  pack_whole : Line → Pack → Next
  unfolding write_marker write_item
  pack_whole line p =
      lift (λ q. continue (record q { cursor = advance line q.cursor }))
        (do
          marked ← write_marker p
          write_item (whole line.entry) line.entry 0 line.entry.size marked)

  cut_fragment : Line → ℕ → Pack → Next
  unfolding write_item after_fragment
  cut_fragment line n q =
      if n == 0
      then fail (message "unable to fit fragment")
      else lift (λ r. stop (record r { cursor = after_fragment line n r.cursor }))
          (write_item (fragment line.entry q.cursor.file_offset n) line.entry q.cursor.file_offset n
            q)

  -- One fragment, which closes the volume.
  pack_fragment : ℕ → Line → ℕ → Pack → Next
  unfolding write_marker part_size cut_fragment
  pack_fragment target line remaining p =
      lift
        (λ q.
          let available = sub_ℕ target (q.tar.written + end_block_budget + header_budget) in
          if ltb_ℤ available (pos 512)
          then (if ltb 0 q.source_items
              then stop q
              else fail (message "volume target leaves no room for file data"))
          else cut_fragment line (part_size remaining (pos_part available)) q)
        (write_marker p)

  pack_file : ℕ → Line → Pack → Next
  unfolding pack_whole pack_fragment fits_now fits_fresh
  pack_file target line p =
      if ltb line.entry.size p.cursor.file_offset
      then fail (message "invalid file cursor")
      else if fits_now target line p
      then pack_whole line p
      else if fits_fresh target line p
      then stop p
      else pack_fragment target line (line.entry.size - p.cursor.file_offset) p

  pack_meta : ℕ → Line → Pack → Next
  unfolding write_marker write_meta meta_waits
  pack_meta target line p =
      if meta_waits target line p
      then stop p
      else lift (λ q. continue (record q { cursor = advance line q.cursor }))
          (do marked ← write_marker p; write_meta line.entry marked)

  pub pack_kind : ℕ → Kind → Line → Pack → Next
  unfolding pack_file pack_meta
  pack_kind target file line p = pack_file target line p
  pack_kind target dir line p = pack_meta target line p
  pack_kind target symlink line p = pack_meta target line p
  pack_kind target unknown line p = fail (message "unsupported manifest entry kind")

  -- One round of the loop, on the line that was read.
  pack_line : ℕ → Line → Pack → Next
  unfolding verify_entry pack_kind
  pack_line target line p =
      if not (line.start == p.cursor.manifest_offset)
      then fail (message "manifest cursor drift")
      else elim (src.safe_path line.entry.path) [
        | err e ↦ fail e
        | ok path ↦ elim (verify_entry path line.entry) [
          | err e ↦ fail e
          | ok _ ↦ pack_kind target line.entry.kind line p
        ]
      ]

  -- What ends the loop before a line is looked at: the context, or the reader.
  abbrev pub interrupted : ℕ → Option Error
  interrupted offset = elim (src.ctx_err offset) [ some e ↦ some e | none ↦ src.read_err offset ]

  -- The loop over the lines from the cursor on, with those that are left to the next volume.
  pub pack_loop : ℕ → List Line → Pack → Result (Pack × List Line)
  unfolding pack_line
  pack_loop target [] p = elim (interrupted p.cursor.manifest_offset) [
    | some e ↦ err e
    | none ↦ ok (record p { cursor = record p.cursor { is_done = true } }, [])
  ]
  pack_loop target (line ∷ lines) p =
      let again = λ (q : Pack). pack_loop target lines q in
      elim (interrupted line.start) [
        | some e ↦ err e
        | none ↦ elim (pack_line target line p) [
          | fail e ↦ err e
          | stop q ↦ ok (q, rest_of line lines q)
          | continue q ↦ again q
        ]
      ]

pub record Packer : Type 0 where
  pub manifest_size : ℕ
  pub block_size : ℕ

-- The volume that PackNext seals, as far as the loop decides it: the entries, the size, the cursor.
pub record Sealed : Type 0 where
  pub index : ℕ
  pub items : List Item
  pub size : ℕ
  pub cursor_after : Cursor
  pub left : List Line

abbrev pub empty_pack : Cursor → Pack
empty_pack cursor = record {
  tar = record { written = 0; padding = 0 };
  items = [];
  marker_written = false;
  source_items = 0;
  cursor = cursor;
}

-- tw.Close pads the last entry and writes the end blocks.
abbrev pub closed_size : Pack → ℕ
closed_size p = p.tar.written + p.tar.padding + end_block_budget

-- The cursor of the sealed volume.
abbrev sealed_cursor : Packer → Cursor → Cursor
sealed_cursor packer c = record {
  manifest_offset = c.manifest_offset;
  file_offset = c.file_offset;
  next_volume = c.next_volume + 1;
  is_done = c.is_done || (c.file_offset == 0 && leb packer.manifest_size c.manifest_offset);
}

-- What follows the loop. The file operations round it are those of a single volume file: they end
-- in an error or as the source expects, and are not told apart here.
seal : Packer → ℕ → Cursor → Pack × List Line → Result Sealed
seal packer target cursor (p, left) =
    if p.source_items == 0
    then err eof
    else if ltb target (closed_size p)
    then err (message "internal error: volume above target")
    else ok (record {
      index = cursor.next_volume;
      items = p.items;
      size = closed_size p;
      cursor_after = sealed_cursor packer p.cursor;
      left = left;
    })

-- `PackNext`, where no volume of the name is there yet: `lines` is the manifest from the cursor on.
unfoldable pub pack_next : Source → Packer → Cursor → ℕ → List Line → Result Sealed
unfolding pack_loop seal
pack_next src packer cursor target lines =
    if cursor.is_done
    then err eof
    else if ltb target (64 * 1024)
    then err (message "target volume size is too small")
    else if packer.block_size == 0
    then err (message "block size must be positive")
    else do
      packed ← pack_loop src target lines (empty_pack cursor)
      seal packer target cursor packed
