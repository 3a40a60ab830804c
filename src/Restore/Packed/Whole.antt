-- ===== src/Restore/Packed/Whole.antt =====
-- Entries that are packed whole, directories, links and markers are restored.
use panpack.Base.{
  ℕ, suc, ◌^◌, ◌<◌, ◌≤◌, ◌≡◌, refl, sym, subst, ap, ◌∙◌, arith, String, str_eq, eq_refl, Bool, true,
  false, Option, none, some, Result, ok, List, ◌∷◌, Bytes, length, take, take_all, ==_iff,
}
use panpack.Base.Programs.{wrapping, Program, continue, lift, unless}
use panpack.Archive.Pack as Pack
use panpack.Archive.Pack.{Entry, Line, Item, marker, whole, meta}
use panpack.Archive.Pack.Headers.{Header, TarEntry, tar_entry, perm, whole_header, marker_content}
use panpack.Restore.{Node, set_node, file, FragmentProgress, RestoreState, safe_destination}
use panpack.Restore.Entries.{restore_entry, restore_as}
use panpack.Restore.Volumes.{extract_entry, check_marker, is_expected}
use panpack.Restore.Quiet.{quiet, later, ensure-passes, restore_regular-writes}
use panpack.Restore.Packed.{
  Setting, Reads, IsPlain, IsBack, IsIdle, IsFree, At, between, within, Stands, Leads, name_as,
}
use panpack.Restore.Packed.Steps.{done-Leads}

-- What is restored of a volume: the loop's body on the tar entry of an item.
abbrev pub extracted : Setting → ℕ → Item → Program RestoreState Bool
extracted s index item =
    extract_entry s.texts (quiet s.links s.now) s.opts s.snapshot_id index
      (tar_entry s.packed s.content_of s.snapshot_id index item)

-- A run of a program that ends well, at a place that is led to.
pub record Arrives (s : Setting) (b : Bool) (r : Result Bool × RestoreState) (ls : List Line)
    (w : RestoreState) (ls1 : List Line) (o1 : ℕ) : Type 0 where
  pub world : RestoreState
  pub ends : r ≡ (ok b, world)
  pub leads : Leads s ls w ls1 o1 world

pub between_files :
    {s : Setting} {n : ℕ} {active : Option FragmentProgress} {tree : String → Option Node}
    {ls : List Line} {o : ℕ}
    → At s n active tree ls o
    → o ≡ 0
    → IsIdle n active × IsFree s tree ls
between_files (between z idle free) e = (idle, free)
between_files (within lt more is_file a t free) e = absurd (omega arith)

pub IsIdle-later :
    (n m : ℕ) (active : Option FragmentProgress) → n ≤ m → IsIdle n active → IsIdle m active
IsIdle-later n m none le idle = tt
IsIdle-later n m (some p) le (all, lt) = (all, omega arith)

-- What is asked of the name of an entry of some kind.
abbrev pub IsSafeAs : Setting → Entry → Pack.Kind → Type 0
IsSafeAs s e k =
    (safe_destination s.texts (quiet s.links s.now) s.opts (name_as s.packed k e.path)
      ≡ ok (s.dst e))
    × ((str_eq (name_as s.packed k e.path) ".panpack/volume.json" ≡ false)
        × (s.texts.is_fragment (name_as s.packed k e.path) ≡ false))

pub IsPlain-named :
    {s : Setting} {e : Entry} {k : Pack.Kind} → IsPlain s e → e.kind ≡ k → IsSafeAs s e k
IsPlain-named {s} {e} pl same = subst (IsSafeAs s e) same (pl.safe, (pl.no_marker, pl.no_fragment))

perm-perm : (mode : ℕ) → perm (perm mode) ≡ perm mode
perm-perm mode = omega arith

module _ (s : Setting) (reads : Reads s) (index : ℕ) where
  pub restore_entry-as :
      (hdr : Header) (content : Bytes) (dst rel : String) (w : RestoreState)
      → safe_destination s.texts (quiet s.links s.now) s.opts hdr.name ≡ ok dst
      → s.texts.rel s.opts.destination dst ≡ ok rel
      → (t : ℕ) × (restore_entry s.texts (quiet s.links s.now) s.opts hdr content w
          ≡ restore_as s.texts
              (quiet s.links s.now)
              s.opts
              hdr.type_flag
              hdr
              content
              dst
              (later t w))
  unfolding restore_entry continue lift
  restore_entry-as hdr content dst rel w safe relative =
      let (t, passes) =
        ensure-passes s.texts s.opts s.links s.now reads.no_links dst rel w relative in
      (t, rw (safe, passes))

  pub extract-plain :
      (t : TarEntry) (w w1 : RestoreState)
      → str_eq t.header.name ".panpack/volume.json" ≡ false
      → s.texts.is_fragment t.header.name ≡ false
      → restore_entry s.texts (quiet s.links s.now) s.opts t.header t.content w ≡ (ok tt, w1)
      → extract_entry s.texts (quiet s.links s.now) s.opts s.snapshot_id index t w ≡ (ok false, w1)
  unfolding extract_entry continue wrapping
  extract-plain t w w1 no_marker no_fragment e = rw (no_marker, no_fragment, e)

  pub marker-Arrives :
      (ls : List Line) (o : ℕ) (w : RestoreState)
      → index < 2 ^ 63
      → Stands s ls o w.lookup w.active w.tree
      → Arrives s true (extracted s index marker w) ls w ls o
  unfolding extract_entry continue wrapping check_marker lift unless is_expected
  marker-Arrives ls o w bound at = record {
    world = w;
    ends = rw (
      take_all (length (marker_content s.packed s.snapshot_id index))
          (marker_content s.packed s.snapshot_id index) (omega arith),
      reads.decode_lem index bound,
      eq_refl s.snapshot_id,
      (==_iff index index).1 refl,
    );
    leads = record { stands = at; behind = λ tree dirs r. r };
  }

  pub whole-Arrives :
      (l : Line) (ls : List Line) (o z : ℕ) (w : RestoreState)
      → o ≡ 0
      → z ≡ 0
      → l.entry.kind ≡ Pack.file
      → Stands s (l ∷ ls) o w.lookup w.active w.tree
      → Arrives s false (extracted s index (whole l.entry) w) (l ∷ ls) w ls z
  unfolding restore_as
  whole-Arrives l ls o z w o0 z0 is_file at =
      let (le, (pl, (apart, rest))) = at.plain in
      let (safe, (no_marker, no_fragment)) = IsPlain-named pl is_file in
      let (idle, (free_here, free)) = between_files at.at o0 in
      let content : Bytes = take l.entry.size (s.content_of l.entry) in
      let same : content ≡ s.content_of l.entry =
        take_all l.entry.size (s.content_of l.entry) (omega (arith, pl.sized is_file)) in
      let long : length content ≡ l.entry.size = ap length same ∙ pl.sized is_file in
      let hdr : Header = whole_header s.packed l.entry in
      let (t, as_file) = restore_entry-as hdr content (s.dst l.entry) pl.rel w safe pl.relative in
      let (u, writes) =
        restore_regular-writes s.texts s.opts s.links s.now reads.no_links hdr content
          (s.dst l.entry) (later t w) free_here long in
      let n : Option Node = some (file content (perm (perm l.entry.mode)) l.entry.mod_time) in
      record {
        world = record w { tree = set_node (s.dst l.entry) n w.tree; tick = u };
        ends =
            extract-plain (tar_entry s.packed s.content_of s.snapshot_id index (whole l.entry)) w _
              no_marker no_fragment (as_file ∙ writes);
        leads =
            done-Leads s l ls n w w.lookup w.active at.next_id u z z0 at.plain at.gives.1
              (IsIdle-later at.next_id (suc l.entry.id) w.active (omega arith) idle) free
              λ t ds e.
                subst (λ k. IsBack s k l.entry t ds) (sym is_file)
                  (e ∙ rw (same, perm-perm l.entry.mode));
      }
