-- ===== src/Restore/Packed/Metadata.antt =====
-- Directories and links are restored from their metadata.
use panpack.Base.{
  ℕ, suc, ◌≡◌, ◌⊎◌, inl, inr, sym, subst, ◌∙◌, arith, String, false, Option, some, List, [], ◌∷◌,
  ◌++◌,
}
use panpack.Archive.Pack as Pack
use panpack.Archive.Pack.{Entry, Line, Item, meta}
use panpack.Archive.Pack.Headers.{Header, TarEntry, meta_kind, perm}
use panpack.Restore.{Node, set_node, link, DirMetadata, FragmentProgress, RestoreState}
use panpack.Restore.Entries.{restore_as}
use panpack.Restore.Volumes.{extract_entry}
use panpack.Restore.Quiet.{quiet, later, restore_link-links, restore_dir-notes}
use panpack.Restore.Packed.{Setting, Reads, IsBack, IsIdle, IsFree, At, between, within, Stands}
use panpack.Restore.Packed.Steps.{done-Leads, noted-Leads}
use panpack.Restore.Packed.Whole.{
  extracted, Arrives, IsIdle-later, IsPlain-named, restore_entry-as, extract-plain,
}

-- No file is begun where an entry that is none stands first.
between_others :
    {s : Setting} {n : ℕ} {active : Option FragmentProgress} {tree : String → Option Node}
    {l : Line} {ls : List Line} {o : ℕ}
    → (l.entry.kind ≡ Pack.file → ⊥)
    → At s n active tree (l ∷ ls) o
    → IsIdle n active × IsFree s tree (l ∷ ls)
between_others other (between z idle free) = (idle, free)
between_others other (within lt more is_file a t free) = absurd (other is_file)

module _ (s : Setting) (reads : Reads s) (index : ℕ) where
  abbrev of_kind : Pack.Kind → Entry → TarEntry
  of_kind k e = record { header = meta_kind s.packed k e; content = [] }

  abbrev Gets : Pack.Kind → Line → List Line → ℕ → RestoreState → Type 0
  Gets k l ls z w =
      Arrives s false
        (extract_entry s.texts (quiet s.links s.now) s.opts s.snapshot_id index (of_kind k l.entry)
          w)
        (l ∷ ls) w ls z

  dir-Arrives :
      (l : Line) (ls : List Line) (o z : ℕ) (w : RestoreState)
      → z ≡ 0
      → l.entry.kind ≡ Pack.dir
      → Stands s (l ∷ ls) o w.lookup w.active w.tree
      → Gets Pack.dir l ls z w
  unfolding restore_as
  dir-Arrives l ls o z w z0 is_dir at =
      let (le, (pl, rest)) = at.plain in
      let (safe, (no_marker, no_fragment)) = IsPlain-named pl is_dir in
      let (idle, (free_here, free)) = between_others (λ is_file. cc) at.at in
      let hdr : Header = meta_kind s.packed Pack.dir l.entry in
      let (t, as_dir) =
        restore_entry-as s reads index hdr [] (s.dst l.entry) pl.rel w safe pl.relative in
      let (u, notes) =
        restore_dir-notes s.texts s.opts s.links s.now reads.no_links hdr (s.dst l.entry)
          (later t w) in
      let d : DirMetadata = record {
        path = s.dst l.entry;
        mode = perm l.entry.mode;
        mod_time = l.entry.mod_time;
      } in
      record {
        world = record w { dirs = w.dirs ++ (d ∷ []); tick = u };
        ends =
            extract-plain s reads index (of_kind Pack.dir l.entry) w _ no_marker no_fragment
              (as_dir ∙ notes);
        leads =
            noted-Leads s l ls w d at.next_id u z z0 at.plain at.gives.1
              (IsIdle-later at.next_id (suc l.entry.id) w.active (omega arith) idle) free
              λ t ds m. subst (λ k. IsBack s k l.entry t ds) (sym is_dir) m;
      }

  link-Arrives :
      (l : Line) (ls : List Line) (o z : ℕ) (w : RestoreState)
      → z ≡ 0
      → l.entry.kind ≡ Pack.symlink
      → Stands s (l ∷ ls) o w.lookup w.active w.tree
      → Gets Pack.symlink l ls z w
  unfolding restore_as
  link-Arrives l ls o z w z0 is_link at =
      let (le, (pl, rest)) = at.plain in
      let (safe, (no_marker, no_fragment)) = IsPlain-named pl is_link in
      let (idle, (free_here, free)) = between_others (λ is_file. cc) at.at in
      let hdr : Header = meta_kind s.packed Pack.symlink l.entry in
      let (t, as_link) =
        restore_entry-as s reads index hdr [] (s.dst l.entry) pl.rel w safe pl.relative in
      let (u, links) =
        restore_link-links s.texts s.opts s.links s.now reads.no_links hdr (s.dst l.entry)
          (later t w) free_here in
      let n : Option Node = some (link l.entry.link_target) in
      record {
        world = record w { tree = set_node (s.dst l.entry) n w.tree; tick = u };
        ends =
            extract-plain s reads index (of_kind Pack.symlink l.entry) w _ no_marker no_fragment
              (as_link ∙ links);
        leads =
            done-Leads s l ls n w w.lookup w.active at.next_id u z z0 at.plain at.gives.1
              (IsIdle-later at.next_id (suc l.entry.id) w.active (omega arith) idle) free
              λ t ds e. subst (λ k. IsBack s k l.entry t ds) (sym is_link) e;
      }

  pub meta-Arrives :
      (l : Line) (ls : List Line) (o z : ℕ) (w : RestoreState)
      → z ≡ 0
      → (l.entry.kind ≡ Pack.dir) ⊎ (l.entry.kind ≡ Pack.symlink)
      → Stands s (l ∷ ls) o w.lookup w.active w.tree
      → Arrives s false (extracted s index (meta l.entry) w) (l ∷ ls) w ls z
  meta-Arrives l ls o z w z0 (inl is_dir) at =
      subst (λ k. Gets k l ls z w) (sym is_dir) (dir-Arrives l ls o z w z0 is_dir at)
  meta-Arrives l ls o z w z0 (inr is_link) at =
      subst (λ k. Gets k l ls z w) (sym is_link) (link-Arrives l ls o z w z0 is_link at)
