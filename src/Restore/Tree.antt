-- ===== src/Restore/Tree.antt =====
-- Nodes of the destination tree, bytes written at an offset, and the search in the manifest, for
-- internal/restore/restore.go.
use panpack.Base.{
  ℕ, zero, suc, ◌+◌, ◌-◌, ◌<◌, ◌≤◌, ◌≡◌, ◌≢◌, refl, sym, ap, ◌∙◌, subst, arith, String, str_eq,
  eq_iff, eq_refl, false, Bool-cases, inl, inr, Option, none, some, Error, ok, List, [], ◌∷◌, ◌++◌,
  append-nil, append_assoc, Bytes, length, take, drop, All, All-map, All-append, ltb, ==_iff,
  take_all, ◌==◌,
}
use panpack.Archive.Pack.{Entry}
use panpack.Restore.{Node, EntryLookup, set_node, write_at, get, get_from, zeros}

pub set_node-here :
    (p : String) (n : Option Node) (tree : String → Option Node) → set_node p n tree p ≡ n
unfolding set_node
set_node-here p n tree = rw (eq_refl p)

pub set_node-elsewhere :
    (p q : String) (n : Option Node) (tree : String → Option Node)
    → p ≢ q
    → set_node p n tree q ≡ tree q
unfolding set_node
set_node-elsewhere p q n tree ne = elim (Bool-cases (str_eq p q)) [
  | inl same ↦ absurd (ne ((eq_iff p q).0 same))
  | inr differ ↦ rw differ
]

set_node-again_at :
    (p : String) (n m : Option Node) (tree : String → Option Node) (q : String)
    → set_node p n (set_node p m tree) q ≡ set_node p n tree q
unfolding set_node
set_node-again_at p n m tree q = elim (Bool-cases (str_eq p q)) [
  | inl same ↦ rw same
  | inr differ ↦ rw differ
]

pub set_node-again :
    (p : String) (n m : Option Node) (tree : String → Option Node)
    → set_node p n (set_node p m tree) ≡ set_node p n tree
set_node-again p n m tree = λ i q. set_node-again_at p n m tree q i

drop-past : (n : ℕ) (xs : Bytes) → length xs ≤ n → drop n xs ≡ []
drop-past zero [] h = refl
drop-past (suc n) [] h = refl
drop-past zero (x ∷ xs) h = absurd (omega arith)
drop-past (suc n) (x ∷ xs) h = drop-past n xs (omega arith)

take_nil : (n : ℕ) → take {A = ℕ} n [] ≡ []
take_nil zero = refl
take_nil (suc n) = refl

nothing_to_fill : (n : ℕ) → n ≡ 0 → zeros n ≡ []
unfolding zeros
nothing_to_fill zero e = refl
nothing_to_fill (suc n) e = absurd (omega arith)

-- A write at the end of the file appends.
pub write_at-end :
    (o : ℕ) (bytes old : Bytes) → length old ≡ o → write_at o bytes old ≡ old ++ bytes
unfolding write_at
write_at-end o bytes old e = rw (
  take_all o old (omega arith),
  nothing_to_fill (o - length old) (omega arith),
  drop-past (o + length bytes) old (omega arith),
  append-nil bytes,
)

take-more : (n m : ℕ) (xs : Bytes) → n ≡ m → take n xs ≡ take m xs
take-more n m xs e = ap (λ k. take k xs) e

pub take-plus : (n m : ℕ) (xs : Bytes) → take n xs ++ take m (drop n xs) ≡ take (n + m) xs
take-plus zero m xs = take-more m (0 + m) xs (omega arith)
take-plus (suc n) m [] =
    take_nil m
    ∙ (sym (take_nil (suc (n + m))) ∙ take-more (suc (n + m)) (suc n + m) [] (omega arith))
take-plus (suc n) m (x ∷ xs) =
    ap (λ ys. x ∷ ys) (take-plus n m xs)
    ∙ take-more (suc (n + m)) (suc n + m) (x ∷ xs) (omega arith)

-- The entries that are given next, each under a larger id than the one before it.
abbrev pub Ascending : ℕ → List Entry → Type 0
Ascending n [] = Unit
Ascending n (e ∷ es) = (n ≤ e.id) × Ascending (suc e.id) es

abbrev pub found_at : Error → Entry → List Entry → EntryLookup
found_at ending e es = record { left = es; ending = ending; current = some e }

-- The lookup gives each of the entries, whichever of them is asked for next.
abbrev pub Gives : Error → EntryLookup → List Entry → Type 0
Gives ending l [] = Unit
Gives ending l (e ∷ es) = (get e.id l ≡ (ok e, found_at ending e es)) × Gives ending l es

other_id : (a b : ℕ) → a < b → (a == b) ≡ false
other_id a b lt = ground arith

not_above : (a b : ℕ) → a < b → ltb b a ≡ false
not_above a b lt = ground arith

get_from-behind :
    (ending : Error) (e : Entry) (es skipped : List Entry) (c : Option Entry)
    → All (λ x. x.id < e.id) skipped
    → get_from e.id ending (skipped ++ (e ∷ es)) c ≡ (ok e, found_at ending e es)
unfolding get_from
get_from-behind ending e es [] c h = rw ((==_iff e.id e.id).1 refl)
get_from-behind ending e es (s ∷ skipped) c (lt, h) =
    rw (
      get_from-behind ending e es skipped (some s) h,
      other_id s.id e.id lt,
      not_above s.id e.id lt,
    )

above_some : (e x : Entry) → some e ≡ some x → x.id < suc e.id
above_some e x same =
    let of : Option Entry → ℕ = λ o. elim o [ none ↦ e.id | some y ↦ y.id ] in
    let ids : e.id ≡ x.id = ap of same in omega arith

first-found :
    (ending : Error) (c : Option Entry) (e : Entry) (es skipped : List Entry)
    → ((x : Entry) → c ≡ some x → x.id < e.id)
    → All (λ x. x.id < e.id) skipped
    → get e.id (record { left = skipped ++ (e ∷ es); ending = ending; current = c })
      ≡ (ok e, found_at ending e es)
unfolding get
first-found ending none e es skipped small h = get_from-behind ending e es skipped none h
first-found ending (some x) e es skipped small h =
    let lt : x.id < e.id = small x refl in
    rw (
      other_id x.id e.id lt,
      not_above x.id e.id lt,
      get_from-behind ending e es skipped (some x) h,
    )

-- Entries of smaller ids than those that are left were read before.
pub Gives-behind :
    (ending : Error) (c : Option Entry) (n : ℕ) (skipped es : List Entry)
    → ((e : Entry) → c ≡ some e → e.id < n)
    → All (λ x. x.id < n) skipped
    → Ascending n es
    → Gives ending (record { left = skipped ++ es; ending = ending; current = c }) es
Gives-behind ending c n skipped [] small behind up = tt
Gives-behind ending c n skipped (e ∷ es) small behind (le, up) = (
  first-found ending c e es skipped (λ x same. let lt : x.id < n = small x same in omega arith)
      (All-map (λ x. x.id < n) (λ x. x.id < e.id) skipped (λ x lt. omega arith) behind),
  subst (λ l. Gives ending (record { left = l; ending = ending; current = c }) es)
      (append_assoc skipped (e ∷ []) es)
      (Gives-behind ending c (suc e.id) (skipped ++ (e ∷ [])) es
        (λ x same. let lt : x.id < n = small x same in omega arith)
        (All-append (λ x. x.id < suc e.id) skipped (e ∷ [])
          (All-map (λ x. x.id < n) (λ x. x.id < suc e.id) skipped (λ x lt. omega arith) behind)
          (omega arith, tt))
        up),
)

pub Gives-after :
    (ending : Error) (e : Entry) (es : List Entry)
    → Ascending (suc e.id) es
    → Gives ending (found_at ending e es) es
Gives-after ending e es up =
    Gives-behind ending (some e) (suc e.id) [] es (λ x same. above_some e x same) tt up

pub get-again :
    (ending : Error) (e : Entry) (es : List Entry)
    → get e.id (found_at ending e es) ≡ (ok e, found_at ending e es)
unfolding get
get-again ending e es = rw ((==_iff e.id e.id).1 refl)
