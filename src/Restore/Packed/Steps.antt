-- ===== src/Restore/Packed/Steps.antt =====
-- How a restore of packed volumes gets from one place to another: an entry is done, or a file has
-- grown, when one node of the tree has changed.
use panpack.Base.{
  ℕ, suc, ◌<◌, ◌≡◌, ◌≢◌, refl, sym, ◌∙◌, String, Option, none, some, List, [], ◌∷◌, ◌++◌, take, All,
  All-map, Mem, at_head, in_tail,
}
use panpack.Archive.Pack as Pack
use panpack.Archive.Pack.{Entry, Line}
use panpack.Archive.Pack.Headers.{perm}
use panpack.Restore.{Node, file, DirMetadata, EntryLookup, FragmentProgress, RestoreState, set_node}
use panpack.Restore.Tree.{
  Gives, Gives-after, get-again, found_at, Ascending, set_node-here, set_node-elsewhere,
}
use panpack.Restore.Packed.{
  Setting, ArePlain, entries, IsBack, IsIdle, IsFree, between, within, Restores, Leads,
}

All-both {ℓ κ μ ν} :
    {A : Type ℓ} (P : A → Type κ) (Q : A → Type μ) (R : A → Type ν) (xs : List A)
    → ((x : A) → P x → Q x → R x)
    → All P xs
    → All Q xs
    → All R xs
All-both P Q R [] f p q = tt
All-both P Q R (x ∷ xs) f (p, ps) (q, qs) = (f x p q, All-both P Q R xs f ps qs)

pub entries-Ascending :
    (s : Setting) (n : ℕ) (ls : List Line) → ArePlain s n ls → Ascending n (entries ls)
entries-Ascending s n [] plain = tt
entries-Ascending s n (l ∷ ls) (le, (pl, (apart, rest))) =
    (le, entries-Ascending s (suc l.entry.id) ls rest)

-- A directory that is noted stays noted.
pub Mem-append : (d : DirMetadata) (xs ys : List DirMetadata) → Mem d xs → Mem d (xs ++ ys)
Mem-append d [] ys m = elim m [ ]
Mem-append d (x ∷ xs) ys at_head = at_head
Mem-append d (x ∷ xs) ys (in_tail m) = in_tail (Mem-append d xs ys m)

pub Mem-last : (d : DirMetadata) (xs : List DirMetadata) → Mem d (xs ++ (d ∷ []))
Mem-last d [] = at_head
Mem-last d (x ∷ xs) = in_tail (Mem-last d xs)

-- Another node at the head leaves the others free.
IsFree-elsewhere :
    (s : Setting) (l : Line) (ls : List Line) (n : Option Node) (tree : String → Option Node)
    → All (λ k. s.dst l.entry ≢ s.dst k.entry) ls
    → IsFree s tree ls
    → IsFree s (set_node (s.dst l.entry) n tree) ls
IsFree-elsewhere s l ls n tree apart free =
    All-both (λ k. s.dst l.entry ≢ s.dst k.entry) (λ k. tree (s.dst k.entry) ≡ none)
      (λ k. set_node (s.dst l.entry) n tree (s.dst k.entry) ≡ none) ls
      (λ k ne at. set_node-elsewhere (s.dst l.entry) (s.dst k.entry) n tree ne ∙ at) apart free

-- What a change of one node leaves to do.
Restores-set_node :
    (s : Setting) (l : Line) (ls : List Line) (n : Option Node) (tree tree1 : String → Option Node)
    (dirs dirs1 : List DirMetadata)
    → All (λ k. s.dst l.entry ≢ s.dst k.entry) ls
    → ((t : String → Option Node) (ds : List DirMetadata)
        → t (s.dst l.entry) ≡ n
        → IsBack s l.entry.kind l.entry t ds)
    → Restores s ls (set_node (s.dst l.entry) n tree) dirs tree1 dirs1
    → Restores s (l ∷ ls) tree dirs tree1 dirs1
Restores-set_node s l ls n tree tree1 dirs dirs1 apart is_back r = record {
  back = (
    is_back tree1 dirs1 (
        r.elsewhere (s.dst l.entry) (
          All-map (λ k. s.dst l.entry ≢ s.dst k.entry) (λ k. s.dst k.entry ≢ s.dst l.entry) ls
            (λ k ne same. ne (sym same)) apart)
        ∙ set_node-here (s.dst l.entry) n tree),
    r.back,
  );
  elsewhere = λ p (ne, nes). r.elsewhere p nes ∙ set_node-elsewhere (s.dst l.entry) p n tree ne;
  kept = r.kept;
}

-- The first of the lines is restored.
pub done-Leads :
    (s : Setting) (l : Line) (ls : List Line) (n : Option Node) (w : RestoreState)
    (lookup : EntryLookup) (active : Option FragmentProgress) (next_id tick z : ℕ)
    → z ≡ 0
    → ArePlain s next_id (l ∷ ls)
    → Gives s.ending lookup (entries ls)
    → IsIdle (suc l.entry.id) active
    → IsFree s w.tree ls
    → ((t : String → Option Node) (ds : List DirMetadata)
        → t (s.dst l.entry) ≡ n
        → IsBack s l.entry.kind l.entry t ds)
    → Leads s (l ∷ ls) w ls z (record w {
      tree = set_node (s.dst l.entry) n w.tree;
      lookup = lookup;
      active = active;
      tick = tick;
    })
done-Leads s l ls n w lookup active next_id tick z z0 (le, (pl, (apart, rest))) gives idle free
      is_back =
    record {
      stands = record {
        next_id = suc l.entry.id;
        plain = rest;
        gives = gives;
        at = between z0 idle (IsFree-elsewhere s l ls n w.tree apart free);
      };
      behind = λ tree dirs r. Restores-set_node s l ls n w.tree tree w.dirs dirs apart is_back r;
    }

-- A directory is noted.
pub noted-Leads :
    (s : Setting) (l : Line) (ls : List Line) (w : RestoreState) (d : DirMetadata)
    (next_id tick z : ℕ)
    → z ≡ 0
    → ArePlain s next_id (l ∷ ls)
    → Gives s.ending w.lookup (entries ls)
    → IsIdle (suc l.entry.id) w.active
    → IsFree s w.tree ls
    → ((t : String → Option Node) (ds : List DirMetadata)
        → Mem d ds
        → IsBack s l.entry.kind l.entry t ds)
    → Leads s (l ∷ ls) w ls z (record w { dirs = w.dirs ++ (d ∷ []); tick = tick })
noted-Leads s l ls w d next_id tick z z0 (le, (pl, (apart, rest))) gives idle free is_back =
    record {
      stands = record {
        next_id = suc l.entry.id;
        plain = rest;
        gives = gives;
        at = between z0 idle free;
      };
      behind = λ tree dirs r. record {
        back = (is_back tree dirs (r.kept d (Mem-last d w.dirs)), r.back);
        elsewhere = λ p (ne, nes). r.elsewhere p nes;
        kept = λ x m. r.kept x (Mem-append x w.dirs (d ∷ []) m);
      };
    }

-- The first of the lines has grown to offset `o`.
pub grown-Leads :
    (s : Setting) (l : Line) (ls : List Line) (w : RestoreState) (next_id tick o m : ℕ)
    → 0 < o
    → o < l.entry.size
    → l.entry.kind ≡ Pack.file
    → ArePlain s next_id (l ∷ ls)
    → IsFree s w.tree ls
    → Leads s (l ∷ ls) w (l ∷ ls) o (record w {
      tree =
          set_node
            (s.dst l.entry)
            (some (file (take o (s.content_of l.entry)) (perm l.entry.mode) m))
            w.tree;
      lookup = found_at s.ending l.entry (entries ls);
      active = some (record { entry = l.entry; written = o });
      tick = tick;
    })
grown-Leads s l ls w next_id tick o m begun more is_file (le, (pl, (apart, rest))) free =
    let n : Option Node = some (file (take o (s.content_of l.entry)) (perm l.entry.mode) m) in
    record {
      stands = record {
        next_id = next_id;
        plain = (le, (pl, (apart, rest)));
        gives = (
          get-again s.ending l.entry (entries ls),
          Gives-after s.ending l.entry (entries ls) (entries-Ascending s (suc l.entry.id) ls rest),
        );
        at =
            within begun more is_file refl (set_node-here (s.dst l.entry) n w.tree)
              (IsFree-elsewhere s l ls n w.tree apart free);
      };
      behind = λ tree dirs r. record {
        back = r.back;
        elsewhere = λ p (ne, nes).
            r.elsewhere p (ne, nes) ∙ set_node-elsewhere (s.dst l.entry) p n w.tree ne;
        kept = r.kept;
      };
    }
