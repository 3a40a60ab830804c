-- ===== src/Archive/Pack/Covers.antt =====
-- What a round of the loop of PackNext (internal/archive/packer.go) adds to a volume.
use panpack.Base.{
  ℕ, ◌+◌, ◌-◌, ◌<◌, ◌≤◌, true, ◌≡◌, ◌⊎◌, inl, refl, sym, ap, ◌∙◌, arith, Option, none, some,
  if_intro, subst, Error, Result, ok, err, ◌>>=◌, ◌>>◌, ltb, ◌==◌, List, [], ◌∷◌, ◌++◌,
  append_assoc, append-nil,
}
use panpack.Base.Int.{pos, sub_ℕ, ltb_ℤ}
use panpack.Store.{Cursor}
use panpack.Archive.Pack.{
  Kind, file, dir, symlink, unknown, Entry, Line, Item, marker, whole, fragment, meta, Source, Pack,
  Next, fail, stop, continue, returned, write_marker, write_item, write_meta, lift, advance,
  pack_whole, after_fragment, cut_fragment, pack_fragment, pack_file, pack_meta, pack_kind, rest_of,
  part_size, end_block_budget, header_budget, fits_now, fits_fresh, meta_waits,
}
use panpack.Archive.Pack.Between.{
  Covers, nothing, skip, whole_file, metadata, part, last_part, Reaches, here, behind,
}

-- What a round adds to the volume.
pub record Adds (ls : List Line) (p : Pack) (ls' : List Line) (q : Pack) : Type 0 where
  pub added : List Item
  pub items : q.items ≡ p.items ++ added
  pub number : q.cursor.next_volume ≡ p.cursor.next_volume
  pub covers : Covers ls p.cursor.file_offset added ls' q.cursor.file_offset
  pub reached : Reaches ls p.cursor.manifest_offset ls' q.cursor.manifest_offset
  pub done : q.cursor.is_done ≡ true → (p.cursor.is_done ≡ true) ⊎ (ls' ≡ [])

-- A marker at most.
record Marked (p q : Pack) : Type 0 where
  cursor : q.cursor ≡ p.cursor
  pub added : List Item
  pub items : q.items ≡ p.items ++ added
  skipped :
      {ls ls' : List Line} {o o' : ℕ} {more : List Item}
      → Covers ls o more ls' o'
      → Covers ls o (added ++ more) ls' o'

-- A marker at most, and then an item.
record MarkedItem (p q : Pack) (item : Item) : Type 0 where
  cursor : q.cursor ≡ p.cursor
  before : List Item
  items : q.items ≡ p.items ++ (before ++ (item ∷ []))
  skipped :
      {ls ls' : List Line} {o o' : ℕ} {more : List Item}
      → Covers ls o more ls' o'
      → Covers ls o (before ++ more) ls' o'

abbrev IfOk : (Pack → Type 0) → Result Pack → Type 0
IfOk P (ok p) = P p
IfOk P (err e) = Unit

IfOk-returned :
    (P : Pack → Type 0) (o : Option Error) (r : Result Pack) → IfOk P r → IfOk P (returned o >> r)
IfOk-returned P none r h = h
IfOk-returned P (some e) r h = tt

IfOk-bind :
    (P Q : Pack → Type 0) (r : Result Pack) (f : Pack → Result Pack)
    → IfOk P r
    → ((q : Pack) → P q → IfOk Q (f q))
    → IfOk Q (r >>= f)
IfOk-bind P Q (ok q) f h k = k q h
IfOk-bind P Q (err e) f h k = tt

-- `S` of a volume that is closed, `C` of one that goes on.
abbrev pub IfNext : (Pack → Type 0) → (Pack → Type 0) → Next → Type 0
IfNext S C (fail e) = Unit
IfNext S C (stop q) = S q
IfNext S C (continue q) = C q

IfNext-lift :
    (S C P : Pack → Type 0) (f : Pack → Next) (r : Result Pack)
    → IfOk P r
    → ((q : Pack) → P q → IfNext S C (f q))
    → IfNext S C (lift f r)
IfNext-lift S C P f (ok q) h k = k q h
IfNext-lift S C P f (err e) h k = tt

part_size-le : (remaining available : ℕ) → part_size remaining available ≤ remaining
unfolding part_size
part_size-le remaining available = ground arith

module _ (src : Source) where
  write_marker-Marked : (p : Pack) → IfOk (Marked p) (write_marker src p)
  unfolding write_marker
  write_marker-Marked p =
      if_intro (IfOk (Marked p)) p.marker_written
        (λ present. record {
          cursor = refl;
          added = [];
          items = sym (append-nil p.items);
          skipped = λ c. c;
        })
        λ absent.
          IfOk-returned (Marked p) (src.write_header marker) _
            (record { cursor = refl; added = marker ∷ []; items = refl; skipped = λ c. skip c })

  MarkedItem-of :
      (p m q : Pack) (item : Item)
      → Marked p m
      → q.cursor ≡ m.cursor
      → q.items ≡ m.items ++ (item ∷ [])
      → MarkedItem p q item
  MarkedItem-of p m q item h e f = record {
    cursor = e ∙ h.cursor;
    before = h.added;
    items = f ∙ ap (λ t. t ++ (item ∷ [])) h.items ∙ append_assoc p.items h.added (item ∷ []);
    skipped = h.skipped;
  }

  write_item-MarkedItem :
      (p m : Pack) (item : Item) (entry : Entry) (offset size : ℕ)
      → Marked p m
      → IfOk (λ q. MarkedItem p q item) (write_item src item entry offset size m)
  unfolding write_item
  write_item-MarkedItem p m item entry offset size h =
      IfOk-returned _ (src.write_header item) _
        (IfOk-returned _ (src.copy entry offset size) _ (MarkedItem-of p m _ item h refl refl))

  write_meta-MarkedItem :
      (p m : Pack) (entry : Entry)
      → Marked p m
      → IfOk (λ q. MarkedItem p q (meta entry)) (write_meta src entry m)
  unfolding write_meta
  write_meta-MarkedItem p m entry h =
      IfOk-returned _ (src.write_header (meta entry)) _
        (MarkedItem-of p m _ (meta entry) h refl refl)

  module _ (line : Line) (lines : List Line) (p : Pack) (ordered : line.start < line.next)
      (placed : p.cursor.manifest_offset ≡ line.start) where
    abbrev pub Stopped : Pack → Type 0
    Stopped q = Adds (line ∷ lines) p (rest_of line lines q) q

    abbrev pub Continued : Pack → Type 0
    Continued q = Adds (line ∷ lines) p lines q × (q.cursor.manifest_offset ≡ line.next)

    abbrev pub IsGood : Next → Type 0
    IsGood = IfNext Stopped Continued

    halted-IsGood : Stopped p
    halted-IsGood =
        subst (λ ls. Adds (line ∷ lines) p ls p) (sym at_line)
          (record {
            added = [];
            items = sym (append-nil p.items);
            number = refl;
            covers = nothing;
            reached = here;
            done = inl;
          })
      where
        at_line : rest_of line lines p ≡ line ∷ lines
        at_line = ground arith

    fits_now-zero : (target : ℕ) → fits_now target line p ≡ true → p.cursor.file_offset ≡ 0
    unfolding fits_now
    fits_now-zero target h = ground arith

    pack_whole-IsGood : p.cursor.file_offset ≡ 0 → IsGood (pack_whole src line p)
    unfolding pack_whole
    pack_whole-IsGood e =
        IfNext-lift Stopped Continued (λ q. MarkedItem p q (whole line.entry)) _ _
          (IfOk-bind (Marked p) _ (write_marker src p) _ (write_marker-Marked p)
            (λ m h. write_item-MarkedItem p m (whole line.entry) line.entry 0 line.entry.size h))
          λ q h. (
            record {
              added = h.before ++ (whole line.entry ∷ []);
              items = h.items;
              number = ap (λ (c : Cursor). c.next_volume) h.cursor;
              covers = h.skipped (whole_file e refl nothing);
              reached = behind refl here;
              done = λ d. inl (ap (λ (c : Cursor). c.is_done) (sym h.cursor) ∙ d);
            },
            refl,
          )

    pack_meta-IsGood : (target : ℕ) → IsGood (pack_meta src target line p)
    unfolding pack_meta
    pack_meta-IsGood target =
        if_intro IsGood (meta_waits target line p) (λ full. halted-IsGood)
          λ room.
            IfNext-lift Stopped Continued (λ q. MarkedItem p q (meta line.entry))
              (λ q. continue (record q { cursor = advance line q.cursor })) _
              (IfOk-bind (Marked p) _ (write_marker src p) (write_meta src line.entry)
                (write_marker-Marked p) (λ m h. write_meta-MarkedItem p m line.entry h))
              λ q h. (
                record {
                  added = h.before ++ (meta line.entry ∷ []);
                  items = h.items;
                  number = ap (λ (c : Cursor). c.next_volume) h.cursor;
                  covers = h.skipped (metadata refl nothing);
                  reached = behind refl here;
                  done = λ d. inl (ap (λ (c : Cursor). c.is_done) (sym h.cursor) ∙ d);
                },
                refl,
              )

    Stopped-of :
        (q : Pack) (added : List Item) (ls : List Line)
        → q.items ≡ p.items ++ added
        → q.cursor.next_volume ≡ p.cursor.next_volume
        → rest_of line lines q ≡ ls
        → Covers (line ∷ lines) p.cursor.file_offset added ls q.cursor.file_offset
        → Reaches (line ∷ lines) p.cursor.manifest_offset ls q.cursor.manifest_offset
        → q.cursor.is_done ≡ p.cursor.is_done
        → Stopped q
    Stopped-of q added ls e n r c reached same =
        subst (λ t. Adds (line ∷ lines) p t q) (sym r)
          (record {
            added = added;
            items = e;
            number = n;
            covers = c;
            reached = reached;
            done = λ d. inl (sym same ∙ d);
          })

    stayed :
        (q : Pack)
        → q.cursor.manifest_offset ≡ p.cursor.manifest_offset
        → Reaches (line ∷ lines) p.cursor.manifest_offset (line ∷ lines) q.cursor.manifest_offset
    stayed q e =
        subst (λ o. Reaches (line ∷ lines) p.cursor.manifest_offset (line ∷ lines) o) (sym e) here

    -- A fragment that ends the file, and one that does not.
    fragment-Stopped :
        (q : Pack) (n : ℕ)
        → MarkedItem p q (fragment line.entry p.cursor.file_offset n)
        → 0 < n
        → n ≤ line.entry.size - p.cursor.file_offset
        → Stopped (record q { cursor = after_fragment line n q.cursor })
    unfolding after_fragment
    fragment-Stopped q n h some_byte le =
        let o : q.cursor.file_offset ≡ p.cursor.file_offset = ap (λ c. c.file_offset) h.cursor in
        let at : q.cursor.manifest_offset ≡ line.start =
          ap (λ c. c.manifest_offset) h.cursor ∙ placed in
        if_intro (λ c. Stopped (record q { cursor = c }))
          (q.cursor.file_offset + n == line.entry.size)
          (λ ends.
            Stopped-of (record q { cursor = advance line q.cursor })
              (h.before ++ (fragment line.entry p.cursor.file_offset n ∷ [])) lines h.items
              (ap (λ (c : Cursor). c.next_volume) h.cursor) (ground arith)
              (h.skipped (last_part some_byte (ground arith) refl nothing)) (behind refl here)
              (ap (λ (c : Cursor). c.is_done) h.cursor))
          λ goes_on.
            Stopped-of
              (record q { cursor = record q.cursor { file_offset = q.cursor.file_offset + n } })
              (h.before ++ (fragment line.entry p.cursor.file_offset n ∷ [])) (line ∷ lines) h.items
              (ap (λ (c : Cursor). c.next_volume) h.cursor) (ground arith)
              (h.skipped (part some_byte (omega arith) (ground arith) nothing))
              (stayed q (ap (λ (c : Cursor). c.manifest_offset) h.cursor))
              (ap (λ (c : Cursor). c.is_done) h.cursor)

    -- The marker alone was written, and the volume is closed.
    Marked-Stopped : (q : Pack) → Marked p q → Stopped q
    Marked-Stopped q h =
        let o : p.cursor.file_offset ≡ q.cursor.file_offset =
          ap (λ (c : Cursor). c.file_offset) (sym h.cursor) in
        let at : q.cursor.manifest_offset ≡ line.start =
          ap (λ (c : Cursor). c.manifest_offset) h.cursor ∙ placed in
        Stopped-of q h.added (line ∷ lines) h.items (ap (λ (c : Cursor). c.next_volume) h.cursor)
          (ground arith)
          (subst
            (λ t. Covers (line ∷ lines) p.cursor.file_offset t (line ∷ lines) q.cursor.file_offset)
            (append-nil h.added)
            (h.skipped (
              subst (λ t. Covers (line ∷ lines) p.cursor.file_offset [] (line ∷ lines) t) o
                nothing)))
          (stayed q (ap (λ (c : Cursor). c.manifest_offset) h.cursor))
          (ap (λ (c : Cursor). c.is_done) h.cursor)

    cut_fragment-IsGood :
        (n : ℕ) (m : Pack)
        → Marked p m
        → n ≤ line.entry.size - p.cursor.file_offset
        → IsGood (cut_fragment src line n m)
    unfolding cut_fragment
    cut_fragment-IsGood n m h le =
        if_intro IsGood (n == 0) (λ empty. tt)
          λ some_byte.
            IfNext-lift Stopped Continued
              (λ q. MarkedItem p q (fragment line.entry m.cursor.file_offset n))
              (λ r. stop (record r { cursor = after_fragment line n r.cursor })) _
              (write_item-MarkedItem p m (fragment line.entry m.cursor.file_offset n) line.entry
                m.cursor.file_offset n h)
              λ q k.
                fragment-Stopped q n
                  (subst (λ o. MarkedItem p q (fragment line.entry o n))
                    (ap (λ (c : Cursor). c.file_offset) h.cursor) k)
                  (ground arith) le

    pack_fragment-IsGood :
        (target : ℕ)
        → IsGood (pack_fragment src target line (line.entry.size - p.cursor.file_offset) p)
    unfolding pack_fragment
    pack_fragment-IsGood target =
        IfNext-lift Stopped Continued (Marked p) _ (write_marker src p) (write_marker-Marked p)
          λ q h.
            if_intro IsGood
              (ltb_ℤ (sub_ℕ target (q.tar.written + end_block_budget + header_budget)) (pos 512))
              (λ tight.
                if_intro IsGood (ltb 0 q.source_items) (λ some_item. Marked-Stopped q h)
                  (λ empty. tt))
              λ room. cut_fragment-IsGood _ q h (part_size-le _ _)

    pack_file-IsGood : (target : ℕ) → IsGood (pack_file src target line p)
    unfolding pack_file
    pack_file-IsGood target =
        if_intro IsGood (ltb line.entry.size p.cursor.file_offset) (λ beyond. tt)
          λ within.
            if_intro IsGood (fits_now target line p)
              (λ now. pack_whole-IsGood (fits_now-zero target now))
              λ not_now.
                if_intro IsGood (fits_fresh target line p) (λ fresh. halted-IsGood)
                  λ part. pack_fragment-IsGood target

    pub pack_kind-IsGood : (target : ℕ) (kind : Kind) → IsGood (pack_kind src target kind line p)
    unfolding pack_kind
    pack_kind-IsGood target file = pack_file-IsGood target
    pack_kind-IsGood target dir = pack_meta-IsGood target
    pack_kind-IsGood target symlink = pack_meta-IsGood target
    pack_kind-IsGood target unknown = tt
