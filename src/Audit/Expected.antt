-- ===== src/Audit/Expected.antt =====
-- The generated list of expected names: GenerateExpected and validateExpectedName of
-- internal/audit/audit.go. fmt.Sprintf with the template, the searches in what it gives and path.Base
-- are parameters.
use panpack.Base.{
  ℕ, zero, suc, ◌+◌, ◌-◌, ◌≤◌, ◌<◌, ◌==◌, String, str_eq, Bool, true, false, not, Option, none,
  some, ◌≡◌, refl, sym, ap, subst, ◌∙◌, arith, if_intro, message, Result, ok, err, IfOk, ltb,
  if◌then◌else◌, List, [], ◌∷◌, ◌++◌, append-nil, append_assoc,
}
use panpack.Base.Int.{ℤ, pos, negsuc, ltb_ℤ}
use panpack.Batch.{member}
use panpack.Audit.{is_safe_name}

-- fmt.Sprintf with the template, strings.Contains of "%!" and of a backslash, and path.Base.
pub record Format : Type 0 where
  pub name_at : ℤ → String
  pub is_broken : String → Bool
  pub has_backslash : String → Bool
  pub base : String → String

abbrev pub name_limit : ℕ
name_limit = 1000000

abbrev pub largest_int : ℕ
largest_int = 9223372036854775807

-- `index++` of an int of 64 bits, which wraps around behind the largest one.
next_int : ℤ → ℤ
next_int (pos n) = if n == largest_int then negsuc largest_int else pos (n + 1)
next_int (negsuc zero) = pos 0
next_int (negsuc (suc n)) = negsuc n

module _ (f : Format) where
  -- The test of `validateExpectedName`.
  abbrev pub is_safe : String → Bool
  is_safe = is_safe_name f.base f.has_backslash

  -- The loop from `index` on to `end`, with the names so far. `none`: the fuel ran out.
  pub generate_loop : ℕ → ℤ → ℤ → List String → Option (Result (List String))
  unfolding next_int
  generate_loop zero index end seen = none
  generate_loop (suc fuel) index end seen =
      let rest = generate_loop fuel (next_int index) end (seen ++ (f.name_at index ∷ [])) in
      if ltb_ℤ end index
      then some (ok seen)
      else if f.is_broken (f.name_at index)
      then some (err (message "invalid expected template"))
      else if not (is_safe (f.name_at index))
      then some (err (message "expected name must be a safe basename"))
      else if member (f.name_at index) seen
      then some (err (message "expected template produces duplicate name"))
      else rest

  -- From indexes that are not negative. The number of names wraps around where it is 2 ^ 63, passes for
  -- a small one, and make panics: `none`, like fuel that ran out.
  pub generate_between : ℕ → ℕ → ℕ → Option (Result (List String))
  unfolding generate_loop
  generate_between fuel start end =
      if ltb end start
      then some (err (message "expected end is before start"))
      else if end - start == largest_int
      then none
      else if ltb name_limit (end - start + 1)
      then some (err (message "expected sequence exceeds one million names"))
      else generate_loop fuel (pos start) (pos end) []

  -- `GenerateExpected`
  unfoldable pub generate_expected : ℕ → String → ℤ → ℤ → Option (Result (List String))
  unfolding generate_between
  generate_expected fuel template start end =
      if str_eq template ""
      then some (err (message "expected template is empty"))
      else by_sign start end
    where
      by_sign : ℤ → ℤ → Option (Result (List String))
      by_sign (pos s) (pos e) = generate_between fuel s e
      by_sign _ _ = some (err (message "expected sequence indexes must be non-negative"))

  -- The names of the indexes in turn.
  unfoldable pub names_from : ℕ → ℕ → List String
  names_from zero index = []
  names_from (suc count) index = f.name_at (pos index) ∷ names_from count (index + 1)

  -- Each name is whole and safe, and none of those before it.
  abbrev pub AllFresh : List String → List String → Type 0
  AllFresh seen [] = Unit
  AllFresh seen (n ∷ ns) =
      ((f.is_broken n ≡ false) × ((is_safe n ≡ true) × (member n seen ≡ false)))
      × AllFresh (seen ++ (n ∷ [])) ns

  -- What a list that is returned has.
  abbrev IfListed : (List String → Type 0) → Option (Result (List String)) → Type 0
  IfListed P none = Unit
  IfListed P (some r) = IfOk P r

  IfListed-map :
      (P Q : List String → Type 0) (o : Option (Result (List String)))
      → ((ns : List String) → P ns → Q ns)
      → IfListed P o
      → IfListed Q o
  IfListed-map P Q none g h = tt
  IfListed-map P Q (some (ok ns)) g h = g ns h
  IfListed-map P Q (some (err e)) g h = tt

  -- One round of the loop, whatever its tests find.
  round-IfListed :
      (P : List String → Type 0) (seen : List String) (n : String) (past : Bool)
      (rest : Option (Result (List String)))
      → (past ≡ true → P seen)
      → (past ≡ false
          → f.is_broken n ≡ false
          → is_safe n ≡ true
          → member n seen ≡ false
          → IfListed P rest)
      → IfListed P (
          if past
          then some (ok seen)
          else if f.is_broken n
          then some (err (message "invalid expected template"))
          else if not (is_safe n)
          then some (err (message "expected name must be a safe basename"))
          else if member n seen
          then some (err (message "expected template produces duplicate name"))
          else rest)
  round-IfListed P seen n past rest at_end goes_on = if_intro (IfListed P) past at_end λ within.
      if_intro (IfListed P) (f.is_broken n) (λ broken. tt)
        λ whole.
          if_intro (IfListed P) (not (is_safe n)) (λ unsafe. tt)
            λ safe.
              if_intro (IfListed P) (member n seen) (λ twice. tt)
                λ fresh. goes_on within whole (ground arith) fresh

  next_int-within :
      (index : ℤ)
      → ltb_ℤ (pos largest_int) index ≡ false
      → ltb_ℤ (pos largest_int) (next_int index) ≡ false
  unfolding next_int
  next_int-within (pos n) h = ground arith
  next_int-within (negsuc zero) h = refl
  next_int-within (negsuc (suc n)) h = ground arith

  -- No int is behind an end that is the largest one or above it.
  never_past :
      (index : ℤ) (end : ℕ)
      → largest_int ≤ end
      → ltb_ℤ (pos largest_int) index ≡ false
      → ltb_ℤ (pos end) index ≡ true
      → ⊥
  never_past (pos n) end le h p = ground arith
  never_past (negsuc n) end le h p = ground arith

  endless-IfListed :
      (P : List String → Type 0) (fuel : ℕ) (index : ℤ) (end : ℕ) (seen : List String)
      → largest_int ≤ end
      → ltb_ℤ (pos largest_int) index ≡ false
      → IfListed P (generate_loop fuel index (pos end) seen)
  unfolding generate_loop
  endless-IfListed P zero index end seen le h = tt
  endless-IfListed P (suc fuel) index end seen le h =
      round-IfListed P seen (f.name_at index) (ltb_ℤ (pos end) index) _
        (λ past. absurd (never_past index end le h past))
        λ within whole safe fresh.
          endless-IfListed P fuel (next_int index) end _ le (next_int-within index h)

  generate_loop-AllFresh :
      (fuel count index end : ℕ) (seen : List String)
      → index + count ≡ suc end
      → IfListed
          (λ ns. (ns ≡ seen ++ names_from count index) × AllFresh seen (names_from count index))
          (generate_loop fuel (pos index) (pos end) seen)
  unfolding generate_loop names_from next_int
  generate_loop-AllFresh zero count index end seen e = tt
  generate_loop-AllFresh (suc fuel) zero index end seen e =
      round-IfListed _ seen (f.name_at (pos index)) (ltb_ℤ (pos end) (pos index)) _
        (λ past. (sym (append-nil seen), tt)) λ within. absurd (ground arith)
  generate_loop-AllFresh (suc fuel) (suc count) index end seen e =
      let n = f.name_at (pos index) in
      let P : List String → Type 0 = λ ns.
        (ns ≡ seen ++ names_from (suc count) index)
        × AllFresh seen (names_from (suc count) index) in
      round-IfListed P seen n (ltb_ℤ (pos end) (pos index)) _ (λ past. absurd (ground arith))
        λ within whole safe fresh.
          if_intro (λ i. IfListed P (generate_loop fuel i (pos end) (seen ++ (n ∷ []))))
            (index == largest_int)
            (λ last.
              endless-IfListed P fuel (negsuc largest_int) end (seen ++ (n ∷ [])) (ground arith)
                refl)
            λ more.
              IfListed-map _ P (generate_loop fuel (pos (index + 1)) (pos end) (seen ++ (n ∷ [])))
                (λ ns (same, rest). (
                  same ∙ append_assoc seen (n ∷ []) (names_from count (index + 1)),
                  ((whole, (safe, fresh)), rest),
                ))
                (generate_loop-AllFresh fuel count (index + 1) end (seen ++ (n ∷ []))
                  (omega (arith, e)))

  generate_loop-names_from :
      (fuel count index end : ℕ) (seen : List String)
      → index + count ≡ suc end
      → end < largest_int
      → count < fuel
      → AllFresh seen (names_from count index)
      → generate_loop fuel (pos index) (pos end) seen ≡ some (ok (seen ++ names_from count index))
  unfolding generate_loop names_from next_int
  generate_loop-names_from zero count index end seen e below enough h = absurd (omega arith)
  generate_loop-names_from (suc fuel) zero index end seen e below enough h =
      let past : ltb_ℤ (pos end) (pos index) ≡ true = ground arith in
      rw past (ap (λ t. some (ok t)) (sym (append-nil seen)))
  generate_loop-names_from (suc fuel) (suc count) index end seen e below enough
        ((whole, (safe, fresh)), h) =
      let n = f.name_at (pos index) in
      let within : ltb_ℤ (pos end) (pos index) ≡ false = ground arith in
      let not_last : (index == largest_int) ≡ false = ground arith in
      let rest =
        generate_loop-names_from fuel count (index + 1) end (seen ++ (n ∷ [])) (omega arith) below
          (omega arith) h
        ∙ ap (λ t. some (ok t)) (append_assoc seen (n ∷ []) (names_from count (index + 1))) in
      rw (within, whole, safe, fresh, not_last) rest

  -- The list that was generated: one name for each index in turn, a million at most.
  pub record IsGenerated (start end : ℕ) (names : List String) : Type 0 where
    pub ordered : start ≤ end
    pub bounded : end - start + 1 ≤ name_limit
    pub listed : names ≡ names_from (end - start + 1) start
    pub fresh : AllFresh [] names

  generate_between-IsGenerated :
      (fuel start end : ℕ) → IfListed (IsGenerated start end) (generate_between fuel start end)
  unfolding generate_between
  generate_between-IsGenerated fuel start end =
      let G = IsGenerated start end in
      if_intro (IfListed G) (ltb end start) (λ before. tt)
        λ ordered.
          if_intro (IfListed G) (end - start == largest_int) (λ wraps. tt)
            λ whole.
              if_intro (IfListed G) (ltb name_limit (end - start + 1)) (λ many. tt)
                λ bounded.
                  IfListed-map _ G (generate_loop fuel (pos start) (pos end) [])
                    (λ ns (e, fresh). record {
                      ordered = ground arith;
                      bounded = ground arith;
                      listed = e;
                      fresh = subst (AllFresh []) (sym e) fresh;
                    })
                    (generate_loop-AllFresh fuel (end - start + 1) start end [] (ground arith))

  -- A list that GenerateExpected returns, from indexes that are not negative, has one name for each
  -- index from the first to the last, in this order, a million at most, each of them whole and safe
  -- and different from those before it.
  pub generate_expected-IsGenerated :
      (fuel : ℕ) (template : String) (start end : ℕ) (names : List String)
      → generate_expected fuel template (pos start) (pos end) ≡ some (ok names)
      → IsGenerated start end names
  unfolding generate_expected
  generate_expected-IsGenerated fuel template start end names h =
      subst (IfListed (IsGenerated start end)) h (
        if_intro (IfListed (IsGenerated start end)) (str_eq template "") (λ empty. tt)
          (λ given. generate_between-IsGenerated fuel start end))

  -- GenerateExpected returns the list of any template that is not empty over ordered indexes of a
  -- million names at most, the last one below the largest int, whose names are each whole, safe and
  -- different from those before: one name for each index in turn, within a round more than there are
  -- names.
  pub generate_expected-names_from :
      (fuel : ℕ) (template : String) (start end : ℕ)
      → str_eq template "" ≡ false
      → start ≤ end
      → end < largest_int
      → end - start + 1 ≤ name_limit
      → end - start + 1 < fuel
      → AllFresh [] (names_from (end - start + 1) start)
      → generate_expected fuel template (pos start) (pos end)
        ≡ some (ok (names_from (end - start + 1) start))
  unfolding generate_expected generate_between
  generate_expected-names_from fuel template start end given ordered below bounded enough fresh =
      let in_order : ltb end start ≡ false = ground arith in
      let no_wrap : (end - start == largest_int) ≡ false = ground arith in
      let few : ltb name_limit (end - start + 1) ≡ false = ground arith in
      rw (given, in_order, no_wrap, few)
        (generate_loop-names_from fuel (end - start + 1) start end [] (omega arith) below enough
          fresh)
