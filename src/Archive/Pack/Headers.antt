-- ===== src/Archive/Pack/Headers.antt =====
-- The tar entries of a volume: headerFor, writeWholeFile, writeFragment, writeMetadataEntry and
-- writeMarker of internal/archive/packer.go. An entry is its header with the bytes behind it. The
-- numbers of fmt.Sprintf and the JSON of the marker are parameters.
use panpack.Base.{ℕ, ◌%◌, ◌<>◌, String, Bytes, length, take, drop, []}
use panpack.Archive.Pack.{Kind, dir, Entry, Item, marker, whole, fragment, meta}

abbrev pub format_version : ℕ
format_version = 1

pub record VolumeMarker : Type 0 where
  pub format_version : ℕ
  pub snapshot_id : String
  pub volume_index : ℕ

pub data TypeFlag : Type 0 where
  directory link regular other : TypeFlag

-- The records of PAX that are read back; an empty text stands for a record that is missing.
pub record Header : Type 0 where
  pub name : String
  pub linkname : String
  pub size : ℕ
  pub mode : ℕ
  pub mod_time : ℕ
  pub type_flag : TypeFlag
  pub entry_id : String
  pub file_offset : String

pub record TarEntry : Type 0 where
  pub header : Header
  pub content : Bytes

-- "%d" and "%020d", the JSON of a marker, and a name with one slash at its end.
pub record Texts : Type 0 where
  pub decimal : ℕ → String
  pub padded : ℕ → String
  pub marshal : VolumeMarker → Bytes
  pub with_slash : String → String

-- os.FileMode.Perm
abbrev pub perm : ℕ → ℕ
perm mode = mode % 512

abbrev pub header_for : Entry → String → ℕ → TypeFlag → Header
header_for entry name size type_flag = record {
  name = name;
  linkname = entry.link_target;
  size = size;
  mode = perm entry.mode;
  mod_time = entry.mod_time;
  type_flag = type_flag;
  entry_id = "";
  file_offset = "";
}

module _ (texts : Texts) where
  abbrev pub whole_header : Entry → Header
  whole_header entry = header_for entry entry.path entry.size regular

  abbrev pub fragment_header : Entry → ℕ → ℕ → Header
  fragment_header entry offset size =
      record (header_for entry
        (".panpack/fragments/"
          <> (texts.padded entry.id <> ("/" <> (texts.padded offset <> ".part"))))
        size regular) { entry_id = texts.decimal entry.id; file_offset = texts.decimal offset }

  abbrev pub meta_kind : Kind → Entry → Header
  meta_kind dir entry = record (header_for entry (texts.with_slash entry.path) 0 directory) {
    linkname = entry.link_target;
  }
  meta_kind _ entry = record (header_for entry entry.path 0 link) { linkname = entry.link_target }

  abbrev pub meta_header : Entry → Header
  meta_header entry = meta_kind entry.kind entry

  abbrev pub marker_content : String → ℕ → Bytes
  marker_content snapshot_id index =
      texts.marshal (record {
        format_version = format_version;
        snapshot_id = snapshot_id;
        volume_index = index;
      })

  abbrev pub marker_header : Bytes → Header
  marker_header content = record {
    name = ".panpack/volume.json";
    linkname = "";
    size = length content;
    mode = 384;
    mod_time = 0;
    type_flag = regular;
    entry_id = "";
    file_offset = "";
  }

  -- The entry that an item of a volume becomes, where `content_of` is what the source files hold.
  abbrev pub tar_entry : (Entry → Bytes) → String → ℕ → Item → TarEntry
  tar_entry content_of snapshot_id index marker = record {
    header = marker_header (marker_content snapshot_id index);
    content = marker_content snapshot_id index;
  }
  tar_entry content_of snapshot_id index (whole e) = record {
    header = whole_header e;
    content = take e.size (content_of e);
  }
  tar_entry content_of snapshot_id index (fragment e o n) = record {
    header = fragment_header e o n;
    content = take n (drop o (content_of e));
  }
  tar_entry content_of snapshot_id index (meta e) = record { header = meta_header e; content = [] }
