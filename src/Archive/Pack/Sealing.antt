-- ===== src/Archive/Pack/Sealing.antt =====
-- The loop of PackNext of internal/archive/packer.go, and what it seals.
use panpack.Base.{
  ℕ, suc, ◌*◌, ◌<◌, ◌≤◌, not, true, false, ◌≡◌, ◌≢◌, ◌⊎◌, inl, inr, Bool-cases, refl, sym, ap, ◌∙◌,
  arith, Option, none, some, if_intro, subst, Error, Result, ok, err, ◌>>=◌, ltb, ◌==◌, List, [],
  ◌∷◌, ◌++◌, append_assoc, append-nil, String,
}
use panpack.Store.{Cursor}
use panpack.Archive.Pack.{
  Line, Source, Pack, Next, fail, stop, continue, verify_entry, pack_kind, pack_line, rest_of,
  pack_loop, interrupted, Packer, Sealed, empty_pack, closed_size, seal, pack_next,
}
use panpack.Archive.Pack.Covers.{Adds, IsGood, pack_kind-IsGood}
use panpack.Archive.Pack.Between.{
  Covers, nothing, Covers-trans, Reaches, here, Reaches-trans, Reaches-nil,
}

-- The lines of a manifest from offset `o` on lie one behind the other.
abbrev pub Ordered : ℕ → List Line → Type 0
Ordered o [] = Unit
Ordered o (l ∷ ls) = (l.start ≡ o) × (l.start < l.next) × Ordered l.next ls

abbrev IfPacked : List Line → Pack → Result (Pack × List Line) → Type 0
IfPacked lines p (ok (q, left)) = Adds lines p left q
IfPacked lines p (err e) = Unit

Adds-trans :
    (ls ms ns : List Line) (p q r : Pack) → Adds ls p ms q → Adds ms q ns r → Adds ls p ns r
Adds-trans ls ms ns p q r a b = record {
  added = a.added ++ b.added;
  items = b.items ∙ ap (λ t. t ++ b.added) a.items ∙ append_assoc p.items a.added b.added;
  number = b.number ∙ a.number;
  covers = Covers-trans a.covers b.covers;
  reached = Reaches-trans a.reached b.reached;
  done = λ d. elim (b.done d) [
    | inr end ↦ inr end
    | inl before ↦ elim (a.done before) [
      | inl at_once ↦ inl at_once
      | inr end ↦ inr (Reaches-nil b.reached end)
    ]
  ];
}

module _ (src : Source) (target : ℕ) where
  module _ (line : Line) (lines : List Line) (p : Pack) (ordered : line.start < line.next)
      (placed : p.cursor.manifest_offset ≡ line.start) where
    verified-IsGood :
        (path : String) (checked : Result (Unit {0}))
        → IsGood src line lines p ordered placed
            (elim checked [ err e ↦ fail e | ok _ ↦ pack_kind src target line.entry.kind line p ])
    verified-IsGood path (err e) = tt
    verified-IsGood path (ok _) =
        pack_kind-IsGood src line lines p ordered placed target line.entry.kind

    located-IsGood :
        (located : Result String)
        → IsGood src line lines p ordered placed (elim located [
          | err e ↦ fail e
          | ok path ↦ elim (verify_entry src path line.entry) [
            | err e ↦ fail e
            | ok _ ↦ pack_kind src target line.entry.kind line p
          ]
        ])
    located-IsGood (err e) = tt
    located-IsGood (ok path) = verified-IsGood path (verify_entry src path line.entry)

    pack_line-IsGood : IsGood src line lines p ordered placed (pack_line src target line p)
    unfolding pack_line
    pack_line-IsGood =
        if_intro (IsGood src line lines p ordered placed)
          (not (line.start == p.cursor.manifest_offset)) (λ drift. tt)
          λ at. located-IsGood (src.safe_path line.entry.path)

  next-IfPacked :
      (line : Line) (lines : List Line) (p : Pack) (ordered : line.start < line.next)
      (placed : p.cursor.manifest_offset ≡ line.start) (next : Next)
      → IsGood src line lines p ordered placed next
      → ((q : Pack)
          → q.cursor.manifest_offset ≡ line.next
          → IfPacked lines q (pack_loop src target lines q))
      → IfPacked (line ∷ lines) p (elim next [
        | fail e ↦ err e
        | stop q ↦ ok (q, rest_of line lines q)
        | continue q ↦ pack_loop src target lines q
      ])
  next-IfPacked line lines p ordered placed (fail e) good rest = tt
  next-IfPacked line lines p ordered placed (stop q) good rest = good
  next-IfPacked line lines p ordered placed (continue q) good rest =
      joined (pack_loop src target lines q) (rest q good.1)
    where
      joined : (r : Result (Pack × List Line)) → IfPacked lines q r → IfPacked (line ∷ lines) p r
      joined (ok (r, left)) h = Adds-trans (line ∷ lines) lines left p q r good.0 h
      joined (err e) h = tt

  begun-IfPacked :
      (lines : List Line) (p : Pack) (stopped : Option Error) (rest : Result (Pack × List Line))
      → IfPacked lines p rest
      → IfPacked lines p (elim stopped [ some e ↦ err e | none ↦ rest ])
  begun-IfPacked lines p (some e) rest h = tt
  begun-IfPacked lines p none rest h = h

  pack_loop-IfPacked :
      (lines : List Line) (p : Pack)
      → Ordered p.cursor.manifest_offset lines
      → IfPacked lines p (pack_loop src target lines p)
  unfolding pack_loop
  pack_loop-IfPacked [] p o =
      begun-IfPacked [] p (interrupted src p.cursor.manifest_offset) _ (record {
        added = [];
        items = sym (append-nil p.items);
        number = refl;
        covers = nothing;
        reached = here;
        done = λ d. inr refl;
      })
  pack_loop-IfPacked (line ∷ lines) p (at, lt, o) =
      begun-IfPacked (line ∷ lines) p (interrupted src line.start) _ (
        next-IfPacked line lines p lt (sym at) (pack_line src target line p)
          (pack_line-IsGood line lines p lt (sym at))
          λ q e. pack_loop-IfPacked lines q (subst (λ n. Ordered n lines) (sym e) o))

-- What the loop and the seal promise of a volume, whatever the size of the manifest.
pub record IsSealed (packer : Packer) (lines : List Line) (cursor : Cursor) (target : ℕ)
    (v : Sealed) : Type 0 where
  pub covers : Covers lines cursor.file_offset v.items v.left v.cursor_after.file_offset
  pub reached : Reaches lines cursor.manifest_offset v.left v.cursor_after.manifest_offset
  pub numbered : v.index ≡ cursor.next_volume
  pub advanced : v.cursor_after.next_volume ≡ suc v.index
  pub bounded : v.size ≤ target
  pub some_line : lines ≢ []
  pub done :
      v.cursor_after.is_done ≡ true
      → (v.left ≡ [])
        ⊎ ((v.cursor_after.file_offset ≡ 0)
            × (packer.manifest_size ≤ v.cursor_after.manifest_offset))
  pub ends :
      v.cursor_after.file_offset ≡ 0
      → packer.manifest_size ≤ v.cursor_after.manifest_offset
      → v.cursor_after.is_done ≡ true

module _ (src : Source) (packer : Packer) (cursor : Cursor) (target : ℕ) (lines : List Line) where
  abbrev IfSealed : Result Sealed → Type 0
  IfSealed (ok v) = IsSealed packer lines cursor target v
  IfSealed (err e) = Unit

  seal-IfSealed :
      cursor.is_done ≡ false
      → lines ≢ []
      → (packed : Result (Pack × List Line)) → IfPacked lines (empty_pack cursor) packed
      → IfSealed (packed >>= seal packer target cursor)
  unfolding seal
  seal-IfSealed more some_line (err e) h = tt
  seal-IfSealed more some_line (ok (p, left)) h =
      if_intro IfSealed (p.source_items == 0) (λ empty. tt)
        λ some_item.
          if_intro IfSealed (ltb target (closed_size p)) (λ above. tt)
            λ within. record {
              covers =
                  subst (λ t. Covers lines cursor.file_offset t left p.cursor.file_offset)
                    (sym h.items) h.covers;
              reached = h.reached;
              numbered = refl;
              advanced = omega (arith, h.number);
              bounded = ground arith;
              some_line = some_line;
              done = λ d. elim (Bool-cases p.cursor.is_done) [
                | inl by_loop ↦ elim (h.done by_loop) [
                  | inl before ↦ absurd (ground (arith, more, before))
                  | inr end ↦ inl end
                ]
                | inr not_by_loop ↦ inr (ground arith)
              ];
              ends = λ zero_offset at_end. ground arith;
            }

  begun-IfSealed :
      (ls : List Line)
      → ls ≡ lines
      → cursor.is_done ≡ false
      → Ordered cursor.manifest_offset ls
      → IfSealed (pack_loop src target ls (empty_pack cursor) >>= seal packer target cursor)
  unfolding pack_loop seal
  begun-IfSealed [] e more o = unpacked (interrupted src cursor.manifest_offset)
    where
      unpacked :
          (stopped : Option Error)
          → IfSealed (
              (elim stopped [
                | some e ↦ err e
                | none ↦ ok (empty_pack (record cursor { is_done = true }), [])
              ])
              >>= seal packer target cursor)
      unpacked (some e) = tt
      unpacked none = tt
  begun-IfSealed (l ∷ ls) e more o =
      subst
        (λ t. IfSealed (pack_loop src target t (empty_pack cursor) >>= seal packer target cursor))
        (sym e)
        (seal-IfSealed more (λ n. let bad : l ∷ ls ≡ [] = e ∙ n in cc)
          (pack_loop src target lines (empty_pack cursor))
          (pack_loop-IfPacked src target lines (empty_pack cursor)
            (subst (Ordered cursor.manifest_offset) e o)))

  pack_next-IfSealed :
      Ordered cursor.manifest_offset lines → IfSealed (pack_next src packer cursor target lines)
  unfolding pack_next
  pack_next-IfSealed o =
      if_intro IfSealed cursor.is_done (λ done. tt)
        λ more.
          if_intro IfSealed (ltb target (64 * 1024)) (λ small. tt)
            λ enough.
              if_intro IfSealed (packer.block_size == 0) (λ zero_block. tt)
                λ sized. begun-IfSealed lines refl more o

  pub pack_next-IsSealed :
      {v : Sealed}
      → Ordered cursor.manifest_offset lines
      → pack_next src packer cursor target lines ≡ ok v
      → IsSealed packer lines cursor target v
  pack_next-IsSealed {v} o e = subst IfSealed e (pack_next-IfSealed o)
