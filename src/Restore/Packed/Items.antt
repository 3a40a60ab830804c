-- ===== src/Restore/Packed/Items.antt =====
-- A restore of the items of a volume: extractVolume of internal/restore/restore.go over the
-- volumes of internal/archive/packer.go.
use panpack.Base.{
  ℕ, ◌+◌, ◌^◌, ◌<◌, ◌≡◌, refl, sym, ap, ◌∙◌, Bool, true, false, ◌||◌, eof, ok, List, [], ◌∷◌, map,
  All,
}
use panpack.Base.Programs.{Program, continue, unless}
use panpack.Archive.Pack.{Line, Item, marker, whole, fragment, meta}
use panpack.Archive.Pack.Headers.{tar_entry}
use panpack.Archive.Pack.Kinds.{IsOfKind, has_marker}
use panpack.Archive.Pack.Between.{Covers, nothing, skip, whole_file, metadata, part, last_part}
use panpack.Restore.{RestoreState}
use panpack.Restore.Volumes.{extract_entries}
use panpack.Restore.Quiet.{quiet, later}
use panpack.Restore.Packed.{Setting, Reads, Stands, Leads}
use panpack.Restore.Packed.Whole.{extracted, Arrives, marker-Arrives, whole-Arrives}
use panpack.Restore.Packed.Metadata.{meta-Arrives}
use panpack.Restore.Packed.Fragments.{part-Arrives, last_part-Arrives}

abbrev is_marker : Item → Bool
is_marker marker = true
is_marker _ = false

-- The tick of the clock does not matter, and one step leads on from another.
pub Leads-after :
    (s : Setting) (ls : List Line) (t : ℕ) (w : RestoreState) (ls1 : List Line) (o1 : ℕ)
    (w1 : RestoreState)
    → Leads s ls (later t w) ls1 o1 w1
    → Leads s ls w ls1 o1 w1
Leads-after s ls t w ls1 o1 w1 l = record { stands = l.stands; behind = l.behind }

pub Leads-trans :
    {s : Setting} {ls ls1 ls2 : List Line} {o1 o2 : ℕ} {w w1 w2 : RestoreState}
    → Leads s ls w ls1 o1 w1
    → Leads s ls1 w1 ls2 o2 w2
    → Leads s ls w ls2 o2 w2
Leads-trans l m = record {
  stands = m.stands;
  behind = λ tree dirs r. l.behind tree dirs (m.behind tree dirs r);
}

or_false : (b : Bool) → (b || false) ≡ b
or_false true = refl
or_false false = refl

seen_so_far :
    (seen : Bool) (item : Item) (items : List Item)
    → ((seen || is_marker item) || has_marker items) ≡ (seen || has_marker (item ∷ items))
seen_so_far true item items = refl
seen_so_far false marker items = refl
seen_so_far false (whole e) items = refl
seen_so_far false (fragment e o n) items = refl
seen_so_far false (meta e) items = refl

module _ (s : Setting) (reads : Reads s) (index : ℕ) (bound : index < 2 ^ 63) where
  -- One item after another.
  item-Arrives :
      {ls ls' : List Line} {o o' : ℕ} {item : Item} {items : List Item} (w : RestoreState)
      → Covers ls o (item ∷ items) ls' o'
      → IsOfKind item
      → Stands s ls o w.lookup w.active w.tree
      → (ls1 : List Line) × ((o1 : ℕ) × (Covers ls1 o1 items ls' o'
            × Arrives s (is_marker item) (extracted s index item w) ls w ls1 o1))
  item-Arrives {ls} {ls'} {o} w (skip c) k at =
      (ls, (o, (c, marker-Arrives s reads index ls o w bound at)))
  item-Arrives {o = o} w (whole_file {l} {ls} {z = z} o0 z0 c) k at =
      (ls, (z, (c, whole-Arrives s reads index l ls o z w o0 z0 k at)))
  item-Arrives {o = o} w (metadata {l} {ls} {z = z} z0 c) k at =
      (ls, (z, (c, meta-Arrives s reads index l ls o z w z0 k at)))
  item-Arrives {o = o} w (part {l} {ls} {n = n} {m = m} lt sum more c) k at =
      (l ∷ ls, (m, (c, part-Arrives s reads index l ls o n m w lt sum more k at)))
  item-Arrives {o = o} w (last_part {l} {ls} {n = n} {z = z} lt last z0 c) k at =
      (ls, (z, (c, last_part-Arrives s reads index l ls o n z w last z0 k at)))

  abbrev extracted_all : Bool → List Item → Program RestoreState Bool
  extracted_all seen items =
      extract_entries s.texts (quiet s.links s.now) s.opts s.snapshot_id index seen eof
        (map (tar_entry s.packed s.content_of s.snapshot_id index) items)

  pub items-Arrive :
      (seen : Bool) (items : List Item) (ls ls' : List Line) (o o' : ℕ) (w : RestoreState)
      → Covers ls o items ls' o'
      → All IsOfKind items
      → Stands s ls o w.lookup w.active w.tree
      → Arrives s (seen || has_marker items) (extracted_all seen items w) ls w ls' o'
  unfolding extract_entries continue unless
  items-Arrive seen [] ls ls' o o' w nothing kinds at = record {
    world = later (w.tick + 1) w;
    ends = ap (λ b. (ok b, later (w.tick + 1) w)) (sym (or_false seen));
    leads = record {
      stands = record { next_id = at.next_id; plain = at.plain; gives = at.gives; at = at.at };
      behind = λ tree dirs r. r;
    };
  }
  items-Arrive seen (item ∷ items) ls ls' o o' w c (k, kinds) at =
      let w0 : RestoreState = later (w.tick + 1) w in
      let (ls1, (o1, (c1, first))) =
        item-Arrives w0 c k
          record { next_id = at.next_id; plain = at.plain; gives = at.gives; at = at.at } in
      let rest =
        items-Arrive (seen || is_marker item) items ls1 ls' o1 o' first.world c1 kinds
          first.leads.stands in
      record {
        world = rest.world;
        ends =
            rw first.ends (rest.ends ∙ ap (λ b. (ok b, rest.world)) (seen_so_far seen item items));
        leads =
            Leads-after s ls (w.tick + 1) w ls' o' rest.world (Leads-trans first.leads rest.leads);
      }
