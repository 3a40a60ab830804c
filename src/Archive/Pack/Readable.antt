-- ===== src/Archive/Pack/Readable.antt =====
-- What a volume that PackNext of internal/archive/packer.go seals holds.
use panpack.Base.{
  ℕ, ◌*◌, ◌≡◌, refl, subst, arith, true, not, Option, none, some, Error, Result, ok, err, ◌>>=◌,
  ltb, ◌==◌, if_intro, List, [], ◌∷◌, All, String,
}
use panpack.Store.{Cursor}
use panpack.Archive.Pack.{
  Line, interrupted, Item, Source, Pack, Packer, Sealed, Next, fail, stop, continue, verify_entry,
  pack_kind, pack_line, pack_loop, rest_of, empty_pack, closed_size, seal, pack_next,
}
use panpack.Archive.Pack.Kinds.{
  IsOfKind, has_marker, IsRight, IfNext, same_items, pack_kind-IsRight,
}

module _ (src : Source) where
  module _ (target : ℕ) (line : Line) (p : Pack) (right : IsRight p) where
    checked-IsRight :
        (checked : Result (Unit {0}))
        → IfNext
            (elim checked [ err e ↦ fail e | ok _ ↦ pack_kind src target line.entry.kind line p ])
    checked-IsRight (err e) = tt
    checked-IsRight (ok _) = pack_kind-IsRight src target line p right line.entry.kind refl

    located-IsRight :
        (located : Result String)
        → IfNext (elim located [
          | err e ↦ fail e
          | ok path ↦ elim (verify_entry src path line.entry) [
            | err e ↦ fail e
            | ok _ ↦ pack_kind src target line.entry.kind line p
          ]
        ])
    located-IsRight (err e) = tt
    located-IsRight (ok path) = checked-IsRight (verify_entry src path line.entry)

    pack_line-IsRight : IfNext (pack_line src target line p)
    unfolding pack_line
    pack_line-IsRight =
        if_intro IfNext (not (line.start == p.cursor.manifest_offset)) (λ drift. tt)
          λ at. located-IsRight (src.safe_path line.entry.path)

  abbrev IfPacked : Result (Pack × List Line) → Type 0
  IfPacked (ok (q, left)) = IsRight q
  IfPacked (err e) = Unit

  next-IsRight :
      (target : ℕ) (line : Line) (lines : List Line) (next : Next)
      → IfNext next
      → ((q : Pack) → IsRight q → IfPacked (pack_loop src target lines q))
      → IfPacked (elim next [
        | fail e ↦ err e
        | stop q ↦ ok (q, rest_of line lines q)
        | continue q ↦ pack_loop src target lines q
      ])
  next-IsRight target line lines (fail e) h again = tt
  next-IsRight target line lines (stop q) h again = h
  next-IsRight target line lines (continue q) h again = again q h

  begun-IsRight :
      (stopped : Option Error) (rest : Result (Pack × List Line))
      → IfPacked rest
      → IfPacked (elim stopped [ some e ↦ err e | none ↦ rest ])
  begun-IsRight (some e) rest h = tt
  begun-IsRight none rest h = h

  pack_loop-IsRight :
      (target : ℕ) (lines : List Line) (p : Pack)
      → IsRight p
      → IfPacked (pack_loop src target lines p)
  unfolding pack_loop
  pack_loop-IsRight target [] p h =
      begun-IsRight (interrupted src p.cursor.manifest_offset) _ (same_items src p _ h)
  pack_loop-IsRight target (line ∷ lines) p h = begun-IsRight (interrupted src line.start) _ (
      next-IsRight target line lines (pack_line src target line p)
        (pack_line-IsRight target line p h) λ q k. pack_loop-IsRight target lines q k)

-- What is asked of the items of a volume when it is read back.
pub record IsReadable (items : List Item) : Type 0 where
  pub kinds : All IsOfKind items
  pub marked : has_marker items ≡ true

module _ (src : Source) (packer : Packer) (cursor : Cursor) (target : ℕ) (lines : List Line) where
  abbrev IfSealed : Result Sealed → Type 0
  IfSealed (ok v) = IsReadable v.items
  IfSealed (err e) = Unit

  seal-IsReadable :
      (packed : Result (Pack × List Line))
      → IfPacked src packed
      → IfSealed (packed >>= seal packer target cursor)
  unfolding seal
  seal-IsReadable (err e) h = tt
  seal-IsReadable (ok (p, left)) h =
      if_intro IfSealed (p.source_items == 0) (λ empty. tt)
        λ some_item.
          if_intro IfSealed (ltb target (closed_size p)) (λ above. tt)
            λ within. record { kinds = h.kinds; marked = h.behind (ground arith) }

  pack_next-IfReadable : IfSealed (pack_next src packer cursor target lines)
  unfolding pack_next
  pack_next-IfReadable =
      if_intro IfSealed cursor.is_done (λ done. tt)
        λ more.
          if_intro IfSealed (ltb target (64 * 1024)) (λ small. tt)
            λ enough.
              if_intro IfSealed (packer.block_size == 0) (λ zero_block. tt)
                λ sized. seal-IsReadable (pack_loop src target lines (empty_pack cursor)) (
                  pack_loop-IsRight src target lines (empty_pack cursor)
                    record { kinds = tt; marked = λ m. cc; behind = λ m. absurd (omega arith) })

  -- A sealed volume holds a marker, files whole or in fragments, and directories and links by their
  -- metadata.
  pub pack_next-IsReadable :
      {v : Sealed} → pack_next src packer cursor target lines ≡ ok v → IsReadable v.items
  pack_next-IsReadable {v} e = subst IfSealed e pack_next-IfReadable
