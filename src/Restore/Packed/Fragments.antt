-- ===== src/Restore/Packed/Fragments.antt =====
-- Fragments are put together to the file that they were cut from.
use Prim.Native.String.{slice}
use text.Mathlib.TextPositions.{slice-append_left}
use panpack.Base.{
  eq_iff, Bool-cases, inl, inr, ℕ, suc, ◌+◌, ◌<◌, ◌<>◌, ◌≡◌, sym, subst, ap, ◌∙◌, arith, String,
  str_eq, true, false, Option, some, ok, List, ◌∷◌, take, take_all,
}
use panpack.Base.Programs.{wrapping, continue}
use panpack.Archive.Pack as Pack
use panpack.Archive.Pack.{Entry, Line, fragment}
use panpack.Archive.Pack.Headers.{perm}
use panpack.Restore.{Node, set_node, file, EntryLookup, FragmentProgress, RestoreState}
use panpack.Restore.Volumes.{extract_entry}
use panpack.Restore.Quiet.{placed, end_fragment-goes_on, end_fragment-ends}
use panpack.Restore.Tree.{found_at, Gives-after}
use panpack.Restore.Packed.{Setting, Reads, IsBack, Stands, Leads, entries}
use panpack.Restore.Packed.Steps.{done-Leads, grown-Leads, entries-Ascending}
use panpack.Restore.Packed.Whole.{extracted, Arrives}
use panpack.Restore.Packed.Grown.{restored, begun, here-Grows}

abbrev fragments_dir : String
fragments_dir = ".panpack/fragments/"

-- A name in the directory of the fragments is not that of a marker.
fragment_is_no_marker :
    (x : String) → str_eq (".panpack/fragments/" <> x) ".panpack/volume.json" ≡ false
fragment_is_no_marker x =
    elim (Bool-cases (str_eq (".panpack/fragments/" <> x) ".panpack/volume.json")) [
      | inl same ↦
          let e : fragments_dir ≡ ".panpack/volume.jso" =
            sym (slice-append_left fragments_dir x)
            ∙ ap (λ u. slice u 0 19)
                ((eq_iff (fragments_dir <> x) ".panpack/volume.json").0 same) in
          let differ : true ≡ false = ap (λ u. str_eq u fragments_dir) e in cc
      | inr differ ↦ differ
    ]

module _ (s : Setting) (reads : Reads s) where
  module _ (index : ℕ) where
    extract-fragment :
        (e : Entry) (o n : ℕ) (w w1 : RestoreState)
        → restored s reads e o n w ≡ (ok tt, w1)
        → extracted s index (fragment e o n) w ≡ (ok false, w1)
    unfolding extract_entry continue wrapping
    extract-fragment e o n w w1 done = rw (
      fragment_is_no_marker (s.packed.padded e.id <> ("/" <> (s.packed.padded o <> ".part"))),
      reads.fragment_lem (s.packed.padded e.id <> ("/" <> (s.packed.padded o <> ".part"))),
      done,
    )

    pub part-Arrives :
        (l : Line) (ls : List Line) (o n m : ℕ) (w : RestoreState)
        → 0 < n
        → m ≡ o + n
        → m < l.entry.size
        → l.entry.kind ≡ Pack.file
        → Stands s (l ∷ ls) o w.lookup w.active w.tree
        → Arrives s false (extracted s index (fragment l.entry o n) w) (l ∷ ls) w (l ∷ ls) m
    part-Arrives l ls o n m w some_bytes sum more of_file at =
        let e : Entry = l.entry in
        let ((t, (time, grows)), free) =
          here-Grows s reads l ls o n w of_file (omega arith) at at.at in
        let grown : RestoreState =
          placed (s.dst e) (some (file (take (o + n) (s.content_of e)) (perm e.mode) time)) t
            (begun s reads e o (found_at s.ending e (entries ls)) w) in
        record {
          world = record grown { active = some (record { entry = e; written = o + n }) };
          ends = extract-fragment e o n w _ (
              grows
              ∙ end_fragment-goes_on s.texts s.opts s.links s.now reads.no_links e o n (s.dst e)
                  grown (omega arith));
          leads =
              subst
                (λ k.
                  Leads s (l ∷ ls) w (l ∷ ls) k
                    (record grown { active = some (record { entry = e; written = o + n }) }))
                (sym sum)
                (grown-Leads s l ls w at.next_id t (o + n) time (omega arith) (omega arith) of_file
                  at.plain free);
        }

    pub last_part-Arrives :
        (l : Line) (ls : List Line) (o n z : ℕ) (w : RestoreState)
        → o + n ≡ l.entry.size
        → z ≡ 0
        → l.entry.kind ≡ Pack.file
        → Stands s (l ∷ ls) o w.lookup w.active w.tree
        → Arrives s false (extracted s index (fragment l.entry o n) w) (l ∷ ls) w ls z
    last_part-Arrives l ls o n z w last z0 of_file at =
        let e : Entry = l.entry in
        let (le, (pl, (apart, rest))) = at.plain in
        let lookup : EntryLookup = found_at s.ending e (entries ls) in
        let ((t, (time, grows)), free) =
          here-Grows s reads l ls o n w of_file (omega arith) at at.at in
        let all : take (o + n) (s.content_of e) ≡ s.content_of e =
          take_all (o + n) (s.content_of e) (omega (arith, pl.sized of_file)) in
        let (u, ends) =
          end_fragment-ends s.texts s.opts s.links s.now reads.no_links e o n (s.dst e)
            (begun s reads e o lookup w) (take (o + n) (s.content_of e)) (perm e.mode) time t
            last in
        let n1 : Option Node =
          some (file (take (o + n) (s.content_of e)) (perm e.mode) e.mod_time) in
        let active : Option FragmentProgress = some (record { entry = e; written = o + n }) in
        record {
          world = record w {
            tree = set_node (s.dst e) n1 w.tree;
            lookup = lookup;
            active = active;
            tick = u;
          };
          ends = extract-fragment e o n w _ (grows ∙ ends);
          leads =
              done-Leads s l ls n1 w lookup active at.next_id u z z0 at.plain
                (Gives-after s.ending e (entries ls) (entries-Ascending s (suc e.id) ls rest))
                (last, omega arith) free
                λ tr ds here. subst (λ k. IsBack s k e tr ds) (sym of_file) (here ∙ rw all);
        }
