-- ===== src/Archive/Pack/Kinds.antt =====
-- What kinds of items a volume holds: PackNext of internal/archive/packer.go packs files whole or in
-- fragments, directories and links by their metadata, and the marker before any of them.
use panpack.Base.{
  ℕ, ◌+◌, ◌-◌, ◌<◌, ◌≡◌, ◌⊎◌, inl, inr, refl, sym, subst, Bool, true, false, Option, none, some,
  Error, Result, ok, err, ◌>>=◌, ◌>>◌, IfOk, ltb, ◌==◌, if_intro, List, [], ◌∷◌, ◌++◌, All,
  All-append,
}
use panpack.Base.Int.{pos, sub_ℕ, ltb_ℤ}
use panpack.Store.{Cursor}
use panpack.Archive.Pack.{
  Kind, file, dir, symlink, unknown, Entry, Line, Item, marker, whole, fragment, meta, Source, Pack,
  Next, fail, stop, continue, returned, write_marker, write_item, write_meta, lift, pack_whole,
  cut_fragment, pack_fragment, pack_file, pack_meta, pack_kind, fits_now, fits_fresh, meta_waits,
  end_block_budget, header_budget,
}

-- A file is packed whole or in fragments, a directory or a link by its metadata.
abbrev pub IsOfKind : Item → Type 0
IsOfKind marker = Unit
IsOfKind (whole e) = e.kind ≡ file
IsOfKind (fragment e o n) = e.kind ≡ file
IsOfKind (meta e) = (e.kind ≡ dir) ⊎ (e.kind ≡ symlink)

abbrev pub has_marker : List Item → Bool
has_marker [] = false
has_marker (marker ∷ items) = true
has_marker (_ ∷ items) = has_marker items

has_marker-append : (xs ys : List Item) → has_marker xs ≡ true → has_marker (xs ++ ys) ≡ true
has_marker-append [] ys h = cc
has_marker-append (marker ∷ xs) ys h = refl
has_marker-append (whole e ∷ xs) ys h = has_marker-append xs ys h
has_marker-append (fragment e o n ∷ xs) ys h = has_marker-append xs ys h
has_marker-append (meta e ∷ xs) ys h = has_marker-append xs ys h

has_marker-last : (xs : List Item) → has_marker (xs ++ (marker ∷ [])) ≡ true
has_marker-last [] = refl
has_marker-last (marker ∷ xs) = refl
has_marker-last (whole e ∷ xs) = has_marker-last xs
has_marker-last (fragment e o n ∷ xs) = has_marker-last xs
has_marker-last (meta e ∷ xs) = has_marker-last xs

-- The items so far.
pub record IsRight (p : Pack) : Type 0 where
  pub kinds : All IsOfKind p.items
  pub marked : p.marker_written ≡ true → has_marker p.items ≡ true
  pub behind : 0 < p.source_items → has_marker p.items ≡ true

record IsMarked (p : Pack) : Type 0 where
  right : IsRight p
  present : has_marker p.items ≡ true

abbrev pub IfNext : Next → Type 0
IfNext (fail e) = Unit
IfNext (stop q) = IsRight q
IfNext (continue q) = IsRight q

IfOk-returned :
    (P : Pack → Type 0) (o : Option Error) (r : Result Pack) → IfOk P r → IfOk P (returned o >> r)
IfOk-returned P none r h = h
IfOk-returned P (some e) r h = tt

IfOk-bind :
    (P Q : Pack → Type 0) (r : Result Pack) (f : Pack → Result Pack)
    → IfOk P r
    → ((q : Pack) → P q → IfOk Q (f q))
    → IfOk Q (r >>= f)
IfOk-bind P Q (ok q) f h k = k q h
IfOk-bind P Q (err e) f h k = tt

IfNext-lift :
    (P : Pack → Type 0) (f : Pack → Next) (r : Result Pack)
    → IfOk P r
    → ((q : Pack) → P q → IfNext (f q))
    → IfNext (lift f r)
IfNext-lift P f (ok q) h k = k q h
IfNext-lift P f (err e) h k = tt

module _ (src : Source) where
  write_marker-IsMarked : (p : Pack) → IsRight p → IfOk IsMarked (write_marker src p)
  unfolding write_marker
  write_marker-IsMarked p h =
      if_intro (IfOk IsMarked) p.marker_written
        (λ present. record { right = h; present = h.marked present })
        λ absent. IfOk-returned IsMarked (src.write_header marker) _ (
          let present = has_marker-last p.items in
          record {
            right = record {
              kinds = All-append IsOfKind p.items (marker ∷ []) h.kinds (tt, tt);
              marked = λ m. present;
              behind = λ m. present;
            };
            present = present;
          })

  -- An item of its kind behind a marker.
  appended :
      (p q : Pack) (item : Item)
      → IsMarked p
      → IsOfKind item
      → q.items ≡ p.items ++ (item ∷ [])
      → IsRight q
  appended p q item h kind e =
      let present : has_marker q.items ≡ true =
        subst (λ items. has_marker items ≡ true) (sym e)
          (has_marker-append p.items (item ∷ []) h.present) in
      record {
        kinds =
            subst (All IsOfKind) (sym e)
              (All-append IsOfKind p.items (item ∷ []) h.right.kinds (kind, tt));
        marked = λ m. present;
        behind = λ m. present;
      }

  pub same_items : (p : Pack) (c : Cursor) → IsRight p → IsRight (record p { cursor = c })
  same_items p c h = record { kinds = h.kinds; marked = h.marked; behind = h.behind }

  write_item-IsRight :
      (p : Pack) (item : Item) (entry : Entry) (offset size : ℕ)
      → IsMarked p
      → IsOfKind item
      → IfOk IsRight (write_item src item entry offset size p)
  unfolding write_item
  write_item-IsRight p item entry offset size h kind =
      IfOk-returned IsRight (src.write_header item) _
        (IfOk-returned IsRight (src.copy entry offset size) _ (appended p _ item h kind refl))

  write_meta-IsRight :
      (p : Pack) (entry : Entry)
      → IsMarked p
      → IsOfKind (meta entry)
      → IfOk IsRight (write_meta src entry p)
  unfolding write_meta
  write_meta-IsRight p entry h kind =
      IfOk-returned IsRight (src.write_header (meta entry)) _
        (appended p _ (meta entry) h kind refl)

  module _ (target : ℕ) (line : Line) (p : Pack) (right : IsRight p) where
    pack_whole-IsRight : line.entry.kind ≡ file → IfNext (pack_whole src line p)
    unfolding pack_whole
    pack_whole-IsRight kind =
        IfNext-lift IsRight _ _
          (IfOk-bind IsMarked IsRight (write_marker src p) _ (write_marker-IsMarked p right)
            (λ m h. write_item-IsRight m (whole line.entry) line.entry 0 line.entry.size h kind))
          λ q h. same_items q _ h

    pack_meta-IsRight :
        (line.entry.kind ≡ dir) ⊎ (line.entry.kind ≡ symlink) → IfNext (pack_meta src target line p)
    unfolding pack_meta
    pack_meta-IsRight kind =
        if_intro IfNext (meta_waits target line p) (λ full. right)
          λ room.
            IfNext-lift IsRight _ _
              (IfOk-bind IsMarked IsRight (write_marker src p) (write_meta src line.entry)
                (write_marker-IsMarked p right) (λ m h. write_meta-IsRight m line.entry h kind))
              λ q h. same_items q _ h

    cut_fragment-IsRight :
        (n : ℕ) (m : Pack)
        → line.entry.kind ≡ file
        → IsMarked m
        → IfNext (cut_fragment src line n m)
    unfolding cut_fragment
    cut_fragment-IsRight n m kind h =
        if_intro IfNext (n == 0) (λ empty. tt)
          λ some_byte.
            IfNext-lift IsRight _ _
              (write_item-IsRight m (fragment line.entry m.cursor.file_offset n) line.entry
                m.cursor.file_offset n h kind)
              λ q k. same_items q _ k

    pack_fragment-IsRight :
        (remaining : ℕ)
        → line.entry.kind ≡ file
        → IfNext (pack_fragment src target line remaining p)
    unfolding pack_fragment
    pack_fragment-IsRight remaining kind =
        IfNext-lift IsMarked _ (write_marker src p) (write_marker-IsMarked p right) λ q h.
          if_intro IfNext
            (ltb_ℤ (sub_ℕ target (q.tar.written + end_block_budget + header_budget)) (pos 512))
            (λ tight. if_intro IfNext (ltb 0 q.source_items) (λ some_item. h.right) (λ empty. tt))
            λ room. cut_fragment-IsRight _ q kind h

    pack_file-IsRight : line.entry.kind ≡ file → IfNext (pack_file src target line p)
    unfolding pack_file
    pack_file-IsRight kind =
        if_intro IfNext (ltb line.entry.size p.cursor.file_offset) (λ beyond. tt)
          λ within.
            if_intro IfNext (fits_now target line p) (λ now. pack_whole-IsRight kind)
              λ not_now.
                if_intro IfNext (fits_fresh target line p) (λ fresh. right)
                  λ part. pack_fragment-IsRight (line.entry.size - p.cursor.file_offset) kind

    pub pack_kind-IsRight :
        (k : Kind) → line.entry.kind ≡ k → IfNext (pack_kind src target k line p)
    unfolding pack_kind
    pack_kind-IsRight file e = pack_file-IsRight e
    pack_kind-IsRight dir e = pack_meta-IsRight (inl e)
    pack_kind-IsRight symlink e = pack_meta-IsRight (inr e)
    pack_kind-IsRight unknown e = tt
