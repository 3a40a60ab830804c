-- ===== src/Restore/Packed/Grown.antt =====
-- A file grows by the bytes of a fragment: restoreFragment of internal/restore/restore.go up to the end
-- of the file.
use panpack.Base.{
  ℕ, zero, suc, ◌+◌, ◌^◌, ◌<◌, ◌≤◌, ◌≡◌, refl, ap, ◌∙◌, arith, true, false, Option, none, some,
  Result, ok, List, ◌∷◌, Bytes, length, take, drop, length-take, length-drop, ltb, ◌==◌, ==_iff,
}
use panpack.Base.Programs.{continue, lift, unless}
use panpack.Archive.Pack as Pack
use panpack.Archive.Pack.{Entry, Line, fragment}
use panpack.Archive.Pack.Headers.{fragment_header, perm}
use panpack.Restore.{file, EntryLookup, FragmentProgress, RestoreState, get}
use panpack.Restore.Entries.{
  restore_fragment, look_up, begin_fragment, write_fragment, end_fragment, is_file, is_at,
  out_of_range,
}
use panpack.Restore.Quiet.{
  quiet, later, placed, ensure-passes, write_fragment-begins, write_fragment-continues,
}
use panpack.Restore.Tree.{found_at, take-plus}
use panpack.Restore.Packed.{
  Setting, Reads, IsPlain, IsIdle, IsFree, At, between, within, Stands, entries,
}
use panpack.Restore.Packed.Whole.{IsPlain-named}

module _ (s : Setting) (reads : Reads s) where
  abbrev piece_of : Entry → ℕ → ℕ → Bytes
  piece_of e o n = take n (drop o (s.content_of e))

  abbrev pub restored : Entry → ℕ → ℕ → RestoreState → Result (Unit {0}) × RestoreState
  restored e o n w =
      restore_fragment s.texts (quiet s.links s.now) s.opts (fragment_header s.packed e o n)
        (piece_of e o n) w

  abbrev ended : Entry → ℕ → ℕ → RestoreState → Result (Unit {0}) × RestoreState
  ended e o n w =
      end_fragment s.texts (quiet s.links s.now) s.opts e (record { entry = e; written = o }) n
        (s.dst e) w

  abbrev written : Entry → ℕ → ℕ → RestoreState → Result (Unit {0}) × RestoreState
  written e o n w =
      write_fragment s.texts (quiet s.links s.now) s.opts e (record { entry = e; written = o }) n
        (piece_of e o n) (s.dst e) w

  abbrev pub begun : Entry → ℕ → EntryLookup → RestoreState → RestoreState
  begun e o lookup w = record w {
    lookup = lookup;
    active = some (record { entry = e; written = o });
  }

  -- What comes before the bytes are written.
  restored-as :
      (e : Entry) (o n : ℕ) (w : RestoreState) (lookup : EntryLookup)
      → IsPlain s e
      → e.kind ≡ Pack.file
      → o + n ≤ e.size
      → get e.id w.lookup ≡ (ok e, lookup)
      → begin_fragment s.texts (quiet s.links s.now) s.opts e.id e (record w { lookup = lookup })
        ≡ (ok (record { entry = e; written = o }), begun e o lookup w)
      → (t : ℕ) × (restored e o n w
          ≡ continue (λ done. ended e o n) (written e o n (later t (begun e o lookup w))))
  unfolding restore_fragment continue lift unless look_up is_file is_at out_of_range
  restored-as e o n w lookup pl of_file fits found begins =
      let (safe, rest) = IsPlain-named pl of_file in
      let (t, passes) =
        ensure-passes s.texts s.opts s.links s.now reads.no_links (s.dst e) pl.rel
          (begun e o lookup w) pl.relative in
      let in_range : ltb e.size (o + n) ≡ false = ground arith in
      let kind : is_file e.kind ≡ true = ap is_file of_file in
      let small : e.size < 2 ^ 63 = pl.size_bound in
      (
        t,
        rw (
          reads.decimal_lem e.id,
          reads.decimal_lem o,
          reads.parse_uint_lem e.id pl.id_bound,
          reads.parse_int_lem o (omega arith),
          found,
          kind,
          in_range,
          begins,
          (==_iff o o).1 refl,
          safe,
          passes,
        ),
      )

  length-piece :
      (e : Entry) (o n : ℕ)
      → length (s.content_of e) ≡ e.size
      → o + n ≤ e.size
      → length (piece_of e o n) ≡ n
  length-piece e o n sized fits =
      omega (arith, length-take n (drop o (s.content_of e)), length-drop o (s.content_of e))

  -- The file has grown by the fragment, and what is left to do is to end it.
  abbrev pub Grows : Line → List Line → ℕ → ℕ → RestoreState → Type 0
  Grows l ls o n w =
      (t : ℕ) × ((m : ℕ) × (restored l.entry o n w
          ≡ ended l.entry o n (
              placed (s.dst l.entry)
                (some (file (take (o + n) (s.content_of l.entry)) (perm l.entry.mode) m)) t
                (begun l.entry o (found_at s.ending l.entry (entries ls)) w))))

  begin-afresh :
      (e : Entry) (n : ℕ) (w : RestoreState) (active : Option FragmentProgress)
      → n ≤ e.id
      → IsIdle n active
      → begin_fragment s.texts (quiet s.links s.now) s.opts e.id e (record w { active = active })
        ≡ (
          ok (record { entry = e; written = 0 }),
          record w { active = some (record { entry = e; written = 0 }) },
        )
  unfolding begin_fragment
  begin-afresh e n w none le idle = refl
  begin-afresh e n w (some p) le (all, lt) =
      let other : (p.entry.id == e.id) ≡ false = ground arith in
      rw (other, (==_iff p.written p.entry.size).1 all)

  begin-again :
      (e : Entry) (o : ℕ) (w : RestoreState) (active : Option FragmentProgress)
      → active ≡ some (record { entry = e; written = o })
      → begin_fragment s.texts (quiet s.links s.now) s.opts e.id e (record w { active = active })
        ≡ (
          ok (record { entry = e; written = o }),
          record w { active = some (record { entry = e; written = o }) },
        )
  unfolding begin_fragment
  begin-again e o w active same =
      rw (same, (==_iff e.id e.id).1 refl)
        (ap (λ a. (ok (record { entry = e; written = o }), record w { active = a })) same)

  begins-Grows :
      (l : Line) (ls : List Line) (n : ℕ) (w : RestoreState)
      → l.entry.kind ≡ Pack.file
      → 0 + n ≤ l.entry.size
      → (at : Stands s (l ∷ ls) 0 w.lookup w.active w.tree) → IsIdle at.next_id w.active
      → IsFree s w.tree (l ∷ ls)
      → Grows l ls 0 n w
  unfolding continue
  begins-Grows l ls n w of_file fits at idle (free, others) =
      let (le, (pl, rest)) = at.plain in
      let e : Entry = l.entry in
      let lookup : EntryLookup = found_at s.ending e (entries ls) in
      let (t, before) =
        restored-as e 0 n w lookup pl of_file fits at.gives.0
          (begin-afresh e at.next_id (record w { lookup = lookup }) w.active le idle) in
      let (u, (m, writes)) =
        write_fragment-begins s.texts s.opts s.links s.now reads.no_links e n (piece_of e 0 n)
          (s.dst e) (later t (begun e 0 lookup w)) free
          (length-piece e 0 n (pl.sized of_file) fits) in
      (u, (m, before ∙ rw (writes, take-plus 0 n (s.content_of e))))

  goes_on-Grows :
      (l : Line) (ls : List Line) (o n m : ℕ) (w : RestoreState)
      → l.entry.kind ≡ Pack.file
      → 0 < o
      → o + n ≤ l.entry.size
      → (at : Stands s (l ∷ ls) o w.lookup w.active w.tree)
      → w.active ≡ some (record { entry = l.entry; written = o })
      → w.tree (s.dst l.entry) ≡ some (file (take o (s.content_of l.entry)) (perm l.entry.mode) m)
      → Grows l ls o n w
  unfolding continue
  goes_on-Grows l ls o n m w of_file pos_o fits at active here =
      let (le, (pl, rest)) = at.plain in
      let e : Entry = l.entry in
      let lookup : EntryLookup = found_at s.ending e (entries ls) in
      let whole : length (s.content_of e) ≡ e.size = pl.sized of_file in
      let old : length (take o (s.content_of e)) ≡ o =
        omega (arith, length-take o (s.content_of e)) in
      let (t, before) =
        restored-as e o n w lookup pl of_file fits at.gives.0
          (begin-again e o (record w { lookup = lookup }) w.active active) in
      let (u, writes) =
        write_fragment-continues s.texts s.opts s.links s.now reads.no_links e o n (piece_of e o n)
          (s.dst e) (later t (begun e o lookup w)) pos_o here old (length-piece e o n whole fits) in
      (u, (m, before ∙ rw (writes, take-plus o n (s.content_of e))))

  begins_at :
      (l : Line) (ls : List Line) (o n : ℕ) (w : RestoreState)
      → l.entry.kind ≡ Pack.file
      → o + n ≤ l.entry.size
      → (at : Stands s (l ∷ ls) o w.lookup w.active w.tree) → o ≡ 0
      → IsIdle at.next_id w.active
      → IsFree s w.tree (l ∷ ls)
      → Grows l ls o n w
  begins_at l ls (suc o) n w of_file fits at o0 idle free = absurd (omega arith)
  begins_at l ls zero n w of_file fits at o0 idle free =
      begins-Grows l ls n w of_file fits at idle free

  pub here-Grows :
      (l : Line) (ls : List Line) (o n : ℕ) (w : RestoreState)
      → l.entry.kind ≡ Pack.file
      → o + n ≤ l.entry.size
      → (at : Stands s (l ∷ ls) o w.lookup w.active w.tree)
      → At s at.next_id w.active w.tree (l ∷ ls) o
      → Grows l ls o n w × IsFree s w.tree ls
  here-Grows l ls o n w of_file fits at (between o0 idle free) =
      (begins_at l ls o n w of_file fits at o0 idle free, free.1)
  here-Grows l ls o n w of_file fits at (within {m = m} pos_o more of_file' active here free) =
      (goes_on-Grows l ls o n m w of_file pos_o fits at active here, free)
