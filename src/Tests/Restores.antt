-- ===== src/Tests/Restores.antt =====
-- The theorems on restores, at concrete values: a file in two fragments over two volumes, a link and
-- a directory, packed and restored.
use Prim.Native.String.{slice}
use text.Mathlib.TextLemmas.{cons≢nil}
use text.Mathlib.TextPositions.{slice-append_left}
use panpack.Base.{
  ℕ, zero, suc, ◌+◌, ◌^◌, ◌<◌, ◌<>◌, ◌≡◌, ◌≢◌, refl, ap, arith, String, str_eq, eq_iff, eq_refl,
  Bool-cases, ◌∙◌, sym, Bool, true, false, Option, none, some, eof, not_exist, Result, ok, err,
  List, [], ◌∷◌, Bytes, inl, inr, if◌then◌else◌, map,
}
use panpack.Base.Int.{ℤ, pos}
use panpack.Archive.Pack as Pack
use panpack.Archive.Pack.{
  Entry, Kind, Line, Item, marker, whole, fragment, meta, whole, Source, Packer, Sealed, pack_next,
}
use panpack.Archive.Pack.Between.{nothing, skip, metadata, part, last_part}
use panpack.Archive.Pack.Headers as Headers
use panpack.Archive.Pack.Headers.{Header, VolumeMarker, regular, tar_entry}
use panpack.Restore.{Options, Texts, Environment, RestoreState, EntryLookup, Node}
use panpack.Restore.Entries.{restore_fragment}
use panpack.Restore.Next.{IsNext, restore_fragment-IsNext}
use panpack.Restore.Volumes.{BackupFiles, run}
use panpack.Restore.Quiet.{quiet}
use panpack.Restore.Packed.{Setting, Reads, IsPlain, ArePlain, name_as}
use panpack.Store.{start_cursor}
use panpack.Restore.Packed.Chain.{Packs, pack, all_packed, packed-IsRestored}
use panpack.Restore.Packed.Run.{HoldPacked, no_more, volume, IsRestored, run-IsRestored}

-- Numbers in unary.
tally : ℕ → String
tally zero = ""
tally (suc n) = String.◌∷◌ "i" (tally n)

abbrev decimal : ℕ → String
decimal n = String.◌∷◌ "n" (tally n)

untally : String → ℕ
untally String.[] = zero
untally (String.◌∷◌ c s) = suc (untally s)

untally-tally : (n : ℕ) → untally (tally n) ≡ n
unfolding untally tally
untally-tally zero = refl
untally-tally (suc n) = ap suc (untally-tally n)

abbrev entry_of : ℕ → String → Kind → ℕ → Entry
entry_of id path kind size = record {
  id = id;
  path = path;
  kind = kind;
  size = size;
  mode = 420;
  mod_time = 9;
  link_target = "f";
}

abbrev a_file : Entry
a_file = entry_of 0 "f" Pack.file 3

abbrev a_link : Entry
a_link = entry_of 1 "l" Pack.symlink 0

abbrev a_dir : Entry
a_dir = entry_of 2 "d" Pack.dir 0

abbrev lines : List Line
lines =
    record { entry = a_file; start = 0; next = 10 }
    ∷ record { entry = a_link; start = 10; next = 20 }
    ∷ record { entry = a_dir; start = 20; next = 30 }
    ∷ []

abbrev content_of : Entry → Bytes
content_of e = if str_eq e.path "f" then 7 ∷ 8 ∷ 9 ∷ [] else []

abbrev packed_texts : Headers.Texts
packed_texts = record {
  decimal = decimal;
  padded = decimal;
  marshal = λ m. m.volume_index ∷ [];
  with_slash = λ p. p <> "/";
}

index_of : Bytes → Result VolumeMarker
index_of [] = err eof
index_of (i ∷ bytes) = ok (record { format_version = 1; snapshot_id = "s"; volume_index = i })

read_number : String → Result ℕ
read_number String.[] = err eof
read_number (String.◌∷◌ c s) = ok (untally s)

read_int : String → Result ℤ
read_int String.[] = err eof
read_int (String.◌∷◌ c s) = ok (pos (untally s))

abbrev texts : Texts
texts = record {
  clean = λ p. p;
  join = λ a b. a <> ("/" <> b);
  rel = λ root p. ok p;
  parents = λ p. [];
  is_fragment = λ p. str_eq (slice p 0 19) ".panpack/fragments/";
  parse_uint = read_number;
  parse_int = read_int;
  decode_marker = index_of;
}

abbrev setting : Setting
setting = record {
  texts = texts;
  packed = packed_texts;
  snapshot_id = "s";
  opts = record { destination = "out"; force = false };
  links = λ t p. ok false;
  now = λ t. t;
  content_of = content_of;
  dst = λ e. "out" <> ("/" <> name_as packed_texts e.kind e.path);
  ending = eof;
}

named : (n : ℕ) → str_eq (decimal n) "" ≡ false
named n = elim (Bool-cases (str_eq (decimal n) "")) [
  | inl same ↦ absurd (cons≢nil ((eq_iff (decimal n) "").0 same))
  | inr other ↦ other
]

reads : Reads setting
unfolding untally tally read_number read_int index_of panpack.Restore.link_test
reads = record {
  parse_uint_lem = λ n lt. ap ok (untally-tally n);
  parse_int_lem = λ n lt. ap (λ k. ok (pos k)) (untally-tally n);
  decimal_lem = named;
  decode_lem = λ i lt. refl;
  fragment_lem = λ x. rw (slice-append_left ".panpack/fragments/" x);
  no_links = λ t p. refl;
}

abbrev items0 : List Item
items0 = marker ∷ fragment a_file 0 2 ∷ []

abbrev items1 : List Item
items1 = marker ∷ fragment a_file 2 1 ∷ meta a_link ∷ meta a_dir ∷ []

abbrev backup : BackupFiles
backup = record {
  snapshot = ok (record { format_version = 1; id = "s" });
  manifest = ok (record { left = a_file ∷ a_link ∷ a_dir ∷ []; ending = eof; current = none });
  glob = λ p. ok ("s.volume-0.tar" ∷ "s.volume-1.tar" ∷ []);
  sort = λ ps. ps;
  open_volume = λ p.
      if str_eq p "s.volume-0.tar"
      then ok
          (record { entries = map (tar_entry packed_texts content_of "s" 0) items0; ending = eof })
      else ok
          (record { entries = map (tar_entry packed_texts content_of "s" 1) items1; ending = eof });
}

holds : HoldPacked setting backup 0 ("s.volume-0.tar" ∷ "s.volume-1.tar" ∷ []) lines 0
holds =
    volume {items = items0} (omega arith) refl
      (skip (part (omega arith) refl (omega arith) nothing)) (tt, (refl, tt)) refl
      (volume {items = items1} (omega arith) refl
        (skip (last_part {n = 1} (omega arith) refl refl (metadata refl (metadata refl nothing))))
        (tt, (refl, (inr refl, (inl refl, tt)))) refl (no_more refl))

abbrev empty_world : RestoreState
empty_world = record {
  tree = λ p. none;
  dirs = [];
  lookup = record { left = []; ending = eof; current = none };
  active = none;
  settled = [];
  tick = 0;
}

differ : (p q : String) → str_eq p q ≡ false → p ≢ q
differ p q e same = let yes : str_eq p q ≡ true = (eq_iff p q).1 same in cc

file-IsPlain : IsPlain setting a_file
unfolding panpack.Restore.safe_destination
file-IsPlain = record {
  id_bound = omega arith;
  size_bound = omega arith;
  safe = refl;
  rel = "out/f";
  relative = refl;
  no_marker = refl;
  no_fragment = refl;
  sized = λ k. refl;
}

link-IsPlain : IsPlain setting a_link
unfolding panpack.Restore.safe_destination
link-IsPlain = record {
  id_bound = omega arith;
  size_bound = omega arith;
  safe = refl;
  rel = "out/l";
  relative = refl;
  no_marker = refl;
  no_fragment = refl;
  sized = λ k. refl;
}

dir-IsPlain : IsPlain setting a_dir
unfolding panpack.Restore.safe_destination
dir-IsPlain = record {
  id_bound = omega arith;
  size_bound = omega arith;
  safe = refl;
  rel = "out/d/";
  relative = refl;
  no_marker = refl;
  no_fragment = refl;
  sized = λ k. refl;
}

lines-ArePlain : ArePlain setting 0 lines
lines-ArePlain = (
  omega arith,
  (
    file-IsPlain,
    (
      (differ "out/f" "out/l" refl, (differ "out/f" "out/d/" refl, tt)),
      (
        omega arith,
        (
          link-IsPlain,
          ((differ "out/l" "out/d/" refl, tt), (omega arith, (dir-IsPlain, (tt, tt)))),
        ),
      ),
    ),
  ),
)

run-IsRestored_example :
    IsRestored setting lines empty_world
      (run texts (quiet (λ t p. ok false) (λ t. t)) setting.opts backup empty_world)
unfolding panpack.Restore.safe_destination panpack.Restore.Volumes.is_empty
run-IsRestored_example =
    run-IsRestored setting reads backup lines ("s.volume-0.tar" ∷ "s.volume-1.tar" ∷ []) 0
      empty_world refl refl refl refl holds lines-ArePlain (refl, (refl, (refl, tt)))

-- The texts where a slash parts a path.
abbrev nested_texts : Texts
nested_texts = record texts {
  clean = λ p. "a/b";
  rel = λ root p. ok "a/b";
  parents = λ p. "a" ∷ [];
}

abbrev noisy : Environment
noisy = quiet (λ t p. ok (str_eq p "out/link")) (λ t. t)

abbrev a_header : Header
a_header = record {
  name = "a/b";
  linkname = "";
  size = 1;
  mode = 420;
  mod_time = 3;
  type_flag = regular;
  entry_id = "";
  file_offset = "";
}

abbrev awaiting : RestoreState
awaiting = record empty_world {
  lookup = record { left = a_file ∷ []; ending = eof; current = none };
}

abbrev fragment_of : Header
fragment_of = Headers.fragment_header packed_texts a_file 0 2

abbrev taken : Result (Unit {0}) × RestoreState
taken = restore_fragment texts noisy setting.opts fragment_of (7 ∷ 8 ∷ []) awaiting

restore_fragment-IsNext_example : IsNext texts fragment_of awaiting taken.1
unfolding restore_fragment panpack.Base.Programs.continue panpack.Base.Programs.unless tally
    panpack.Base.Programs.lift read_number read_int untally panpack.Base.Programs.when
restore_fragment-IsNext_example =
    restore_fragment-IsNext texts noisy setting.opts fragment_of (7 ∷ 8 ∷ []) awaiting taken.1 refl

-- The same entries in one volume, as PackNext seals it.
abbrev a_source : Source
a_source = record {
  ctx_err = λ n. none;
  read_err = λ n. none;
  safe_path = λ p. ok p;
  lstat = λ p. ok (record { mode = 420; mod_time = 9; size = 3 });
  readlink = λ p. ok "f";
  header = λ i. 512;
  write_header = λ i. none;
  copy = λ e offset n. none;
  marker_size = 60;
}

abbrev a_packer : Packer
a_packer = record { manifest_size = 30; block_size = 4096 }

abbrev a_volume : Sealed
a_volume = record {
  index = 0;
  items = marker ∷ whole a_file ∷ meta a_link ∷ meta a_dir ∷ [];
  size = 4096;
  cursor_after = record { manifest_offset = 30; file_offset = 0; next_volume = 1; is_done = true };
  left = [];
}

abbrev one_volume : BackupFiles
one_volume = record backup {
  glob = λ p. ok ("s.volume-0.tar" ∷ []);
  open_volume = λ p. ok (record {
    entries = map (tar_entry packed_texts content_of "s" 0) a_volume.items;
    ending = eof;
  });
}

packs : Packs setting one_volume a_packer start_cursor lines ("s.volume-0.tar" ∷ [])
unfolding pack_next panpack.Archive.Pack.tar_entry_budget
packs =
    pack {v = a_volume} a_source 65536
      (refl, omega arith, (refl, omega arith, (refl, omega arith, tt))) refl (omega arith) refl
      all_packed

packed-IsRestored_example :
    IsRestored setting lines empty_world
      (run texts (quiet (λ t p. ok false) (λ t. t)) setting.opts one_volume empty_world)
unfolding panpack.Restore.safe_destination panpack.Restore.Volumes.is_empty
packed-IsRestored_example =
    packed-IsRestored setting one_volume a_packer reads lines ("s.volume-0.tar" ∷ []) 0 empty_world
      refl refl refl refl packs lines-ArePlain (refl, (refl, (refl, tt)))
