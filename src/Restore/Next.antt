-- ===== src/Restore/Next.antt =====
-- A fragment is taken only where its file ends: restoreFragment of internal/restore/restore.go,
-- whatever the calls answer.
use panpack.Base.{
  ℕ, ◌+◌, ◌^◌, ◌<◌, ◌≤◌, ◌≡◌, ◌⊎◌, inl, inr, refl, sym, subst, ap, ◌∙◌, arith, String, Bool, true,
  false, not, ◌&&◌, ◌||◌, Bool-cases, Option, none, some, Error, ok, Bytes, ==_iff, ltb, ◌==◌,
}
use panpack.Base.Int.{ℤ, pos, negsuc}
use panpack.Base.Programs.{
  Leaves, then-Leaves, lift-then, unless-then, map-Leaves, when-Leaves, Leaves-ok, lift, continue,
}
use panpack.Archive.Pack.{Entry}
use panpack.Archive.Pack.Headers.{Header, perm}
use panpack.Restore.{
  Node, FragmentProgress, Options, Texts, Environment, RestoreState, get, try, acted,
}
use panpack.Restore.Entries.{
  restore_fragment, look_up, begin_fragment, with_mode, with_time, change_node, end_fragment,
  is_file, is_at, out_of_range,
}
use panpack.Restore.Safe.{Anywhere, anything}

-- Where a fragment of entry `id` may begin: behind what is written of the same file, or at the start
-- of a file when the one before it is complete.
abbrev pub MayBegin : ℕ → ℕ → Option FragmentProgress → Type 0
MayBegin id offset none = offset ≡ 0
MayBegin id offset (some p) =
    ((p.entry.id ≡ id) × (offset ≡ p.written)) ⊎ ((p.written ≡ p.entry.size) × (offset ≡ 0))

-- How many bytes are written of the file that is being put together.
abbrev pub HasWritten : ℕ → Option FragmentProgress → Type 0
HasWritten n none = ⊥
HasWritten n (some p) = p.written ≡ n

pub record IsNext (texts : Texts) (hdr : Header) (w w1 : RestoreState) : Type 0 where
  pub id : ℕ
  pub offset : ℕ
  pub entry : Entry
  pub id_lem : texts.parse_uint hdr.entry_id ≡ ok id
  pub offset_lem : texts.parse_int hdr.file_offset ≡ ok (pos offset)
  pub entry_lem : (get id w.lookup).0 ≡ ok entry
  pub kind_lem : is_file entry.kind ≡ true
  pub fits : offset + hdr.size < 2 ^ 63 → offset + hdr.size ≤ entry.size
  pub begins : MayBegin id offset w.active
  pub grown : HasWritten (offset + hdr.size) w1.active

small_sum :
    (n size whole : ℕ)
    → (ltb whole (n + size) && ltb (n + size) 9223372036854775808) ≡ false
    → n + size < 2 ^ 63
    → n + size ≤ whole
small_sum n size whole r lt = ground arith

in_range-lem :
    (o : ℤ) (size whole n : ℕ)
    → out_of_range o size whole ≡ false
    → is_at o n ≡ true
    → (o ≡ pos n) × (n + size < 2 ^ 63 → n + size ≤ whole)
unfolding out_of_range is_at
in_range-lem (negsuc o) size whole n r a = cc
in_range-lem (pos o) size whole n r a =
    let same : o ≡ n = (==_iff o n).0 a in
    (
      ap pos same,
      small_sum n size whole (subst (λ k. out_of_range (pos k) size whole ≡ false) same r),
    )

or-false : (a b : Bool) → (a || b) ≡ false → (a ≡ false) × (b ≡ false)
or-false false b h = (refl, h)
or-false true b h = cc

not-false : (b : Bool) → not b ≡ false → b ≡ true
not-false true h = refl
not-false false h = cc

module _ (texts : Texts) (env : Environment) (opts : Options) where
  MayBegin-at :
      (id : ℕ) (entry : Entry) (w : RestoreState) (active : Option FragmentProgress)
      → Leaves
          (λ p w1. MayBegin id p.written active)
          Anywhere
          (begin_fragment texts env opts id entry (record w { active = active }))
  unfolding begin_fragment Leaves
  MayBegin-at id entry w none = refl
  MayBegin-at id entry w (some p) = elim (Bool-cases (p.entry.id == id)) [
    | inl same ↦ rw same (inl ((==_iff p.entry.id id).0 same, refl))
    | inr other ↦ elim (Bool-cases (p.written == p.entry.size)) [
      | inl all ↦ rw (other, all) (inr ((==_iff p.written p.entry.size).0 all, refl))
      | inr some_left ↦ rw (other, some_left) tt
    ]
  ]

  acted-active :
      (o : Option Error) (p : String) (f : Option Node → Option Node) (w : RestoreState)
      → (acted o (change_node texts env opts p f) w).1.active ≡ w.active
  unfolding acted
  acted-active none p f w = refl
  acted-active (some e) p f w = refl

  try-keeps :
      (P : Option FragmentProgress → Type 0) (p : String) (f : Option Node → Option Node)
      (w : RestoreState)
      → P w.active
      → Leaves
          (λ a w1. P w1.active)
          Anywhere
          (try texts env opts (change_node texts env opts p f) w)
  unfolding Leaves try
  try-keeps P p f w h =
      subst P (sym (acted-active (env.outcome w.tick) p f (record w { tick = w.tick + 1 }))) h

  end_fragment-HasWritten :
      (entry : Entry) (p : FragmentProgress) (size : ℕ) (dst : String) (w : RestoreState)
      → Leaves
          (λ a w1. HasWritten (p.written + size) w1.active)
          Anywhere
          (end_fragment texts env opts entry p size dst w)
  unfolding end_fragment continue
  end_fragment-HasWritten entry p size dst w =
      let H : Option FragmentProgress → Type 0 = HasWritten (p.written + size) in
      let grown : RestoreState = record w {
        active = some (record p { written = p.written + size });
      } in
      when-Leaves (λ a w1. H w1.active) Anywhere _ _ _
        (λ last.
          then-Leaves (λ a w1. H w1.active) (λ a w1. H w1.active) Anywhere _
            (λ a. try texts env opts (change_node texts env opts dst (with_time entry.mod_time)))
            (try-keeps H dst (with_mode (perm entry.mode)) grown refl)
            λ a w1 h. try-keeps H dst (with_time entry.mod_time) w1 h)
        λ more. refl

  fragment-Leaves :
      (hdr : Header) (content : Bytes) (w : RestoreState)
      → Leaves
          (λ a w1. IsNext texts hdr w w1)
          Anywhere
          (restore_fragment texts env opts hdr content w)
  unfolding restore_fragment look_up lift
  fragment-Leaves hdr content w =
      let Q : Unit {0} → RestoreState → Type 0 = λ a w1. IsNext texts hdr w w1 in
      unless-then Q Anywhere _ _ _ w
        (λ named.
          lift-then Q Anywhere (texts.parse_uint hdr.entry_id) _ w
            (λ id id_lem.
              lift-then Q Anywhere (texts.parse_int hdr.file_offset) _ w
                (λ o o_lem.
                  lift-then Q Anywhere (get id w.lookup).0 _
                    (record w { lookup = (get id w.lookup).1 })
                    (λ entry entry_lem.
                      let w1 : RestoreState = record w { lookup = (get id w.lookup).1 } in
                      unless-then Q Anywhere _ _ _ w1
                        (λ ranged.
                          let (kind, in_range) = or-false _ _ ranged in
                          then-Leaves (λ p w2. MayBegin id p.written w.active) Q Anywhere _ _
                            (MayBegin-at id entry w1 w.active)
                            λ p w2 begins.
                              unless-then Q Anywhere _ _ _ w2
                                (λ at.
                                  let (same, fits) =
                                    in_range-lem o hdr.size entry.size p.written in_range
                                      (not-false _ at) in
                                  lift-then Q Anywhere _ _ w2
                                    (λ dst safe.
                                      then-Leaves (λ a w3. Unit {0}) Q Anywhere _ _ (anything _)
                                        λ a w3 u.
                                          then-Leaves (λ b w4. Unit {0}) Q Anywhere _ _ (anything _)
                                            λ b w4 v.
                                              map-Leaves
                                                (λ c w5.
                                                  HasWritten (p.written + hdr.size) w5.active)
                                                Q Anywhere _
                                                (λ c w5 grown. record {
                                                  id = id;
                                                  offset = p.written;
                                                  entry = entry;
                                                  id_lem = id_lem;
                                                  offset_lem = o_lem ∙ ap ok same;
                                                  entry_lem = entry_lem;
                                                  kind_lem = not-false _ kind;
                                                  fits = fits;
                                                  begins = begins;
                                                  grown = grown;
                                                })
                                                (end_fragment-HasWritten entry p hdr.size dst w4))
                                    tt)
                                tt)
                        tt)
                    tt)
                tt)
            tt)
        tt

  -- A fragment that is restored without an error belongs to an entry of a file that the manifest gives
  -- for its id and lies within it, unless its end is beyond int64; it begins where the bytes end that are
  -- written of that file, or at the start of a file when the one before is complete; and then as many
  -- bytes are counted as its offset and its size are together.
  pub restore_fragment-IsNext :
      (hdr : Header) (content : Bytes) (w w1 : RestoreState)
      → restore_fragment texts env opts hdr content w ≡ (ok tt, w1)
      → IsNext texts hdr w w1
  restore_fragment-IsNext hdr content w w1 e = subst (IsNext texts hdr w) (ap (λ r. r.1) e) (
      Leaves-ok (λ a w2. IsNext texts hdr w w2) Anywhere
        (restore_fragment texts env opts hdr content w) tt (ap (λ r. r.0) e)
        (fragment-Leaves hdr content w))
