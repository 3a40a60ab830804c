-- ===== src/Restore/Packed/Run.antt =====
-- A restore of all that was packed: Run of internal/restore/restore.go over the volumes of
-- internal/archive/packer.go.
use panpack.Base.{
  ℕ, suc, ◌+◌, ◌^◌, ◌<◌, ◌<>◌, ◌≡◌, ◌≢◌, refl, subst, arith, String, true, false, Option, none,
  some, eof, Result, ok, List, [], ◌∷◌, ◌++◌, map, All, All-map, Mem, at_head, in_tail, ==_iff,
}
use panpack.Base.Programs.{wrapping, continue, lift, unless}
use panpack.Archive.Pack as Pack
use panpack.Archive.Pack.{Entry, Kind, Line, Item}
use panpack.Archive.Pack.Headers.{tar_entry, perm}
use panpack.Archive.Pack.Kinds.{IsOfKind, has_marker}
use panpack.Archive.Pack.Between.{Covers}
use panpack.Restore.{DirMetadata, FragmentProgress, RestoreState, Node}
use panpack.Restore.Volumes.{
  BackupFiles, extract_volume, extract_volumes, run, check_complete, settle_dirs, is_incomplete,
  is_empty,
}
use panpack.Restore.Quiet.{quiet, later}
use panpack.Restore.Tree.{Gives-behind}
use panpack.Restore.Packed.{
  Setting, Reads, ArePlain, IsFree, IsBack, Stands, Restores, Leads, At, between, entries,
}
use panpack.Restore.Packed.Steps.{entries-Ascending, Mem-append, Mem-last}
use panpack.Restore.Packed.Items.{items-Arrive, Leads-after, Leads-trans}

-- The volumes at the paths hold what was packed from offset `o` of the first of the lines on, each
-- behind a marker with its number.
pub data HoldPacked (s : Setting) (backup : BackupFiles)
    : ℕ → List String → List Line → ℕ → Type 0 where
  no_more : {i o : ℕ} → o ≡ 0 → HoldPacked s backup i [] [] o
  volume :
      {i o o' : ℕ} {p : String} {ps : List String} {ls ls' : List Line} {items : List Item}
      → i < 2 ^ 63
      → backup.open_volume p
        ≡ ok (record {
          entries = map (tar_entry s.packed s.content_of s.snapshot_id i) items;
          ending = eof;
        })
      → Covers ls o items ls' o'
      → All IsOfKind items
      → has_marker items ≡ true
      → HoldPacked s backup (suc i) ps ls' o'
      → HoldPacked s backup i (p ∷ ps) ls o

module _ (s : Setting) (reads : Reads s) (backup : BackupFiles) where
  -- The volumes, up to the end of the manifest.
  pub record Ends (r : Result (Unit {0}) × RestoreState) (ls : List Line) (w : RestoreState)
      : Type 0 where
    pub world : RestoreState
    pub ends : r ≡ (ok tt, world)
    pub leads : Leads s ls w [] 0 world

  volumes-End :
      (index : ℕ) (paths : List String) (ls : List Line) (o : ℕ) (w : RestoreState)
      → HoldPacked s backup index paths ls o
      → Stands s ls o w.lookup w.active w.tree
      → Ends
          (extract_volumes s.texts (quiet s.links s.now) s.opts s.snapshot_id backup index paths w)
          ls
          w
  unfolding extract_volumes extract_volume continue lift unless
  volumes-End index [] ls o w (no_more o0) at = record {
    world = w;
    ends = refl;
    leads = record {
      stands = subst (λ k. Stands s [] k w.lookup w.active w.tree) o0 at;
      behind = λ tree dirs r. r;
    };
  }
  volumes-End index (p ∷ ps) ls o w
        (volume {o' = o'} {ls' = ls'} {items = items} bound opens c kinds marked more) at =
      let w0 : RestoreState = later (w.tick + 1) w in
      let v =
        items-Arrive s reads index bound false items ls ls' o o' w0 c kinds
          record { next_id = at.next_id; plain = at.plain; gives = at.gives; at = at.at } in
      let rest = volumes-End (suc index) ps ls' o' v.world more v.leads.stands in
      record {
        world = rest.world;
        ends = rw (opens, v.ends, marked) rest.ends;
        leads = Leads-after s ls (w.tick + 1) w [] 0 rest.world (Leads-trans v.leads rest.leads);
      }

abbrev settled_as : DirMetadata → DirMetadata
settled_as d = record d { mode = perm d.mode }

settled-Mem :
    (x d : DirMetadata) (ds all : List DirMetadata)
    → ((y : DirMetadata) → Mem y ds → Mem (settled_as y) all)
    → Mem x (d ∷ ds)
    → Mem (settled_as x) (all ++ (settled_as d ∷ []))
settled-Mem x d ds all holds at_head = Mem-last (settled_as d) all
settled-Mem x d ds all holds (in_tail m) =
    Mem-append (settled_as x) all (settled_as d ∷ []) (holds x m)

-- Every directory is given its mode and time.
settle_dirs-settles :
    (s : Setting) (ds : List DirMetadata) (w : RestoreState)
    → (t : ℕ) × ((all : List DirMetadata) × ((settle_dirs s.texts (quiet s.links s.now) s.opts ds w
            ≡ (ok tt, record w { settled = all; tick = t }))
          × ((d : DirMetadata) → Mem d ds → Mem (settled_as d) all)))
unfolding settle_dirs continue
settle_dirs-settles s [] w = (w.tick, (w.settled, (refl, λ d m. elim m [ ])))
settle_dirs-settles s (d ∷ ds) w =
    let (t, (all, (settles, holds))) = settle_dirs-settles s ds w in
    (t + 1 + 1, (all ++ (settled_as d ∷ []), (rw settles, λ x m. settled-Mem x d ds all holds m)))

IsBack-settled :
    (s : Setting) (k : Kind) (e : Entry) (tree : String → Option Node) (ds all : List DirMetadata)
    → ((d : DirMetadata) → Mem d ds → Mem (settled_as d) all)
    → IsBack s k e tree ds
    → IsBack s k e tree all
IsBack-settled s Pack.file e tree ds all holds back = back
IsBack-settled s Pack.symlink e tree ds all holds back = back
IsBack-settled s Pack.unknown e tree ds all holds back = tt
IsBack-settled s Pack.dir e tree ds all holds back =
    let same : perm (perm e.mode) ≡ perm e.mode = omega arith in
    subst (λ m. Mem (record { path = s.dst e; mode = m; mod_time = e.mod_time }) all) same
      (holds _ back)

complete-At_end :
    (s : Setting) (n : ℕ) (active : Option FragmentProgress) (tree : String → Option Node)
    → At s n active tree [] 0
    → is_incomplete active ≡ false
unfolding is_incomplete
complete-At_end s n none tree at = refl
complete-At_end s n (some p) tree (between o0 (all, lt) free) =
    rw ((==_iff p.written p.entry.size).1 all)

-- A run that ends well: each entry is back, with the metadata of the directories given at the end,
-- and nothing else in the tree has changed.
pub record IsRestored (s : Setting) (ls : List Line) (w : RestoreState)
    (r : Result (Unit {0}) × RestoreState) : Type 0 where
  pub world : RestoreState
  pub ends : r ≡ (ok tt, world)
  pub back : All (λ l. IsBack s l.entry.kind l.entry world.tree world.settled) ls
  pub elsewhere : (p : String) → All (λ l. s.dst l.entry ≢ p) ls → world.tree p ≡ w.tree p

module _ (s : Setting) (reads : Reads s) (backup : BackupFiles) where
  pub run-IsRestored :
      (ls : List Line) (found : List String) (n : ℕ) (w : RestoreState)
      → backup.snapshot ≡ ok (record { format_version = 1; id = s.snapshot_id })
      → backup.manifest ≡ ok (record { left = entries ls; ending = s.ending; current = none })
      → backup.glob (s.snapshot_id <> ".volume-*.tar") ≡ ok found
      → is_empty (backup.sort found) ≡ false
      → HoldPacked s backup 0 (backup.sort found) ls 0
      → ArePlain s n ls
      → IsFree s w.tree ls
      → IsRestored s ls w (run s.texts (quiet s.links s.now) s.opts backup w)
  unfolding run continue lift unless wrapping check_complete
  run-IsRestored ls found n w of_snapshot of_manifest globbed some_volume volumes plain free =
      let w0 : RestoreState = record w {
        lookup = record { left = entries ls; ending = s.ending; current = none };
        dirs = [];
        active = none;
        tick = w.tick + 1;
      } in
      let at : Stands s ls 0 w0.lookup w0.active w0.tree = record {
        next_id = n;
        plain = plain;
        gives =
            Gives-behind s.ending none n [] (entries ls) (λ e same. cc) tt
              (entries-Ascending s n ls plain);
        at = between refl tt free;
      } in
      let v = volumes-End s reads backup 0 (backup.sort found) ls 0 w0 volumes at in
      let (t, (all, (settles, holds))) = settle_dirs-settles s v.world.dirs v.world in
      let complete =
        complete-At_end s v.leads.stands.next_id v.world.active v.world.tree v.leads.stands.at in
      let r : Restores s ls w.tree [] v.world.tree v.world.dirs =
        v.leads.behind v.world.tree v.world.dirs
          record { back = tt; elsewhere = λ p h. refl; kept = λ d m. m } in
      record {
        world = record v.world { settled = all; tick = t };
        ends = rw (of_snapshot, globbed, some_volume, of_manifest, v.ends, complete) settles;
        back =
            All-map (λ l. IsBack s l.entry.kind l.entry v.world.tree v.world.dirs)
              (λ l. IsBack s l.entry.kind l.entry v.world.tree all) ls
              (λ l b. IsBack-settled s l.entry.kind l.entry v.world.tree v.world.dirs all holds b)
              r.back;
        elsewhere = r.elsewhere;
      }
