-- ===== src/Restore/Packed.antt =====
-- The restore of what a packer wrote: the volumes of internal/archive/packer.go are read back by
-- internal/restore/restore.go. Here stands what is asked of the paths, the texts and the disk, and
-- how far a restore is after some of the entries.
pub mod Steps
pub mod Metadata
pub mod Grown
pub mod Fragments
pub mod Items
pub mod Run
pub mod Chain
pub mod Whole
use panpack.Base.{
  ℕ, suc, ◌+◌, ◌^◌, ◌<◌, ◌≤◌, ◌<>◌, ◌≡◌, ◌≢◌, ◌⊎◌, String, str_eq, Bool, true, false, Option, none,
  some, Error, Result, ok, List, [], ◌∷◌, Bytes, length, take, All, Mem,
}
use panpack.Base.Int.{pos}
use panpack.Archive.Pack as Pack
use panpack.Archive.Pack.{Entry, Kind, Line, Item, marker, whole, fragment, meta}
use panpack.Archive.Pack.Headers as Headers
use panpack.Archive.Pack.Headers.{marker_content, perm}
use panpack.Restore.{
  Node, link, file, DirMetadata, EntryLookup, FragmentProgress, Options, Texts, RestoreState,
  link_test, safe_destination,
}
use panpack.Restore.Entries.{is_file}
use panpack.Restore.Quiet.{quiet}
use panpack.Restore.Tree.{Gives}

-- What the volumes were packed from and where they are restored to: the contents of the files, the
-- destination of each entry, and what lies behind the entries of the manifest.
pub record Setting : Type 0 where
  pub texts : Texts
  pub packed : Headers.Texts
  pub snapshot_id : String
  pub opts : Options
  pub links : ℕ → String → Result Bool
  pub now : ℕ → ℕ
  pub content_of : Entry → Bytes
  pub dst : Entry → String
  pub ending : Error

-- Numbers and markers are read back as they were written, a name under the directory of the
-- fragments has its prefix, and no parent of a destination is a link.
pub record Reads (s : Setting) : Type 0 where
  pub parse_uint_lem : (n : ℕ) → n < 2 ^ 64 → s.texts.parse_uint (s.packed.decimal n) ≡ ok n
  pub parse_int_lem : (n : ℕ) → n < 2 ^ 63 → s.texts.parse_int (s.packed.decimal n) ≡ ok (pos n)
  pub decimal_lem : (n : ℕ) → str_eq (s.packed.decimal n) "" ≡ false
  pub decode_lem :
      (i : ℕ)
      → i < 2 ^ 63
      → s.texts.decode_marker (marker_content s.packed s.snapshot_id i)
        ≡ ok (record { format_version = 1; snapshot_id = s.snapshot_id; volume_index = i })
  pub fragment_lem : (x : String) → s.texts.is_fragment (".panpack/fragments/" <> x) ≡ true
  pub no_links : (t : ℕ) (p : String) → link_test (s.links t p) ≡ ok tt

-- The name of an entry in a volume, where it is not cut.
abbrev pub name_as : Headers.Texts → Kind → String → String
name_as t Pack.dir path = t.with_slash path
name_as t _ path = path

-- Its name is safe and none of those that panpack uses itself, and its sizes fit.
pub record IsPlain (s : Setting) (e : Entry) : Type 0 where
  pub id_bound : e.id < 2 ^ 64
  pub size_bound : e.size < 2 ^ 63
  pub safe :
      safe_destination s.texts (quiet s.links s.now) s.opts (name_as s.packed e.kind e.path)
      ≡ ok (s.dst e)
  pub rel : String
  pub relative : s.texts.rel s.opts.destination (s.dst e) ≡ ok rel
  pub no_marker : str_eq (name_as s.packed e.kind e.path) ".panpack/volume.json" ≡ false
  pub no_fragment : s.texts.is_fragment (name_as s.packed e.kind e.path) ≡ false
  pub sized : e.kind ≡ Pack.file → length (s.content_of e) ≡ e.size

-- Ascending ids, and destinations that are all different.
abbrev pub ArePlain : Setting → ℕ → List Line → Type 0
ArePlain s n [] = Unit
ArePlain s n (l ∷ ls) =
    (n ≤ l.entry.id)
    × (IsPlain s l.entry
        × (All (λ k. s.dst l.entry ≢ s.dst k.entry) ls × ArePlain s (suc l.entry.id) ls))

abbrev pub entries : List Line → List Entry
entries [] = []
entries (l ∷ ls) = l.entry ∷ entries ls

-- An entry is as it was packed: the content, mode and time of a file, the target of a link, the
-- metadata that a directory is given at the end.
abbrev pub IsBack : Setting → Kind → Entry → (String → Option Node) → List DirMetadata → Type 0
IsBack s Pack.file e tree dirs =
    tree (s.dst e) ≡ some (file (s.content_of e) (perm e.mode) e.mod_time)
IsBack s Pack.symlink e tree dirs = tree (s.dst e) ≡ some (link e.link_target)
IsBack s Pack.dir e tree dirs =
    Mem (record { path = s.dst e; mode = perm e.mode; mod_time = e.mod_time }) dirs
IsBack s Pack.unknown e tree dirs = Unit

-- No fragment is awaited.
abbrev pub IsIdle : ℕ → Option FragmentProgress → Type 0
IsIdle n none = Unit
IsIdle n (some p) = (p.written ≡ p.entry.size) × (p.entry.id < n)

abbrev pub IsFree : Setting → (String → Option Node) → List Line → Type 0
IsFree s tree ls = All (λ l. tree (s.dst l.entry) ≡ none) ls

-- How far the restore is at offset `o` of the first of the lines: `between` two of them, or `within`
-- a file of which the bytes before `o` are written.
pub data At (s : Setting) (n : ℕ) (active : Option FragmentProgress) (tree : String → Option Node)
    : List Line → ℕ → Type 0 where
  between :
      {ls : List Line} {o : ℕ}
      → o ≡ 0
      → IsIdle n active
      → IsFree s tree ls
      → At s n active tree ls o
  within :
      {l : Line} {ls : List Line} {o m : ℕ}
      → 0 < o
      → o < l.entry.size
      → l.entry.kind ≡ Pack.file
      → active ≡ some (record { entry = l.entry; written = o })
      → tree (s.dst l.entry) ≡ some (file (take o (s.content_of l.entry)) (perm l.entry.mode) m)
      → IsFree s tree ls
      → At s n active tree (l ∷ ls) o

pub record Stands (s : Setting) (ls : List Line) (o : ℕ) (lookup : EntryLookup)
    (active : Option FragmentProgress) (tree : String → Option Node) : Type 0 where
  pub next_id : ℕ
  pub plain : ArePlain s next_id ls
  pub gives : Gives s.ending lookup (entries ls)
  pub at : At s next_id active tree ls o

-- What the rest of the restore still does, from a tree and its directories to others.
pub record Restores (s : Setting) (ls : List Line) (tree : String → Option Node)
    (dirs : List DirMetadata) (tree1 : String → Option Node) (dirs1 : List DirMetadata)
    : Type 0 where
  pub back : All (λ l. IsBack s l.entry.kind l.entry tree1 dirs1) ls
  pub elsewhere : (p : String) → All (λ l. s.dst l.entry ≢ p) ls → tree1 p ≡ tree p
  pub kept : (d : DirMetadata) → Mem d dirs → Mem d dirs1

-- From one place to another.
pub record Leads (s : Setting) (ls : List Line) (w : RestoreState) (ls1 : List Line) (o1 : ℕ)
    (w1 : RestoreState) : Type 0 where
  pub stands : Stands s ls1 o1 w1.lookup w1.active w1.tree
  pub behind :
      (tree : String → Option Node) (dirs : List DirMetadata)
      → Restores s ls1 w1.tree w1.dirs tree dirs
      → Restores s ls w.tree w.dirs tree dirs
