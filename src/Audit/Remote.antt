-- ===== src/Audit/Remote.antt =====
-- The remote set against the expected one: the range over the listing and the comparison of the two
-- sets in RunWithClient of internal/audit/audit.go.
use panpack.Base.{Mem}
use panpack.Base.{
  ◌+◌, String, str_eq, eq_iff, eq_refl, Bool, true, false, ◌≡◌, refl, sym, subst, ◌∙◌, arith, inl,
  inr, Bool-cases, Option, none, some, Result, ok, err, if◌then◌else◌, List, [], ◌∷◌, ◌++◌,
  is_empty, All, All-map, All-append,
}
use panpack.Base.Programs.{
  Program, ◌>>=◌, ◌>>◌, give, lift, continue, gives, Leaves, then-Leaves, lift-Leaves,
}
use panpack.Baidu.Listing.{RemoteInfo}
use panpack.Batch.{member}
use panpack.Audit.{Report, change, names_outside}

abbrev pub Remote : Type 0
Remote = List (String × RemoteInfo)

unfoldable pub find : String → Remote → Option RemoteInfo
find n [] = none
find n ((k, e) ∷ rest) = let found = find n rest in if str_eq k n then some e else found

unfoldable pub names_of : Remote → List String
names_of [] = []
names_of ((k, e) ∷ rest) = k ∷ names_of rest

unfoldable pub remote_name : (String → String) → RemoteInfo → String
remote_name base e = if str_eq e.name "" then base e.path else e.name

-- One entry of the listing, in the report and in the map, by whether its name matches and is known.
abbrev count_entry : Bool → Bool → String → Report → Report
count_entry false known n w = w
count_entry true true n w = record w {
  remote_entries = w.remote_entries + 1;
  duplicates = w.duplicates ++ (n ∷ []);
}
count_entry true false n w = record w { remote_entries = w.remote_entries + 1 }

abbrev enter : Bool → Bool → String → RemoteInfo → Remote → Remote
enter true false n e remote = remote ++ ((n, e) ∷ [])
enter _ _ n e remote = remote

-- The range over the listing.
unfoldable pub collect :
    (String → String) → (String → Result Bool) → List RemoteInfo → Remote → Program Report Remote
unfolding names_of remote_name change
collect base matches [] remote = give remote
collect base matches (e ∷ es) remote = do
  matched ← lift (matches (remote_name base e))
  change (count_entry matched (member (remote_name base e) (names_of remote)) (remote_name base e))
  collect base matches es
      (enter matched (member (remote_name base e) (names_of remote)) (remote_name base e) e remote)

-- The expected names with no entry, and those whose entry is a directory.
unfoldable pub missing_names : Remote → List String → List String
unfolding find
missing_names remote [] = []
missing_names remote (n ∷ ns) =
    let rest = missing_names remote ns in elim (find n remote) [ none ↦ n ∷ rest | some e ↦ rest ]

unfoldable pub directory_names : Remote → List String → List String
unfolding find
directory_names remote [] = []
directory_names remote (n ∷ ns) =
    let rest = directory_names remote ns in
    elim (find n remote) [ none ↦ rest | some e ↦ if e.is_dir then n ∷ rest else rest ]

pub Leaves-map {ℓ κ} :
    {W : Type ℓ} {A : Type κ} (P Q : A → W → Type 0) (E : W → Type 0) (r : Result A × W)
    → ((a : A) (w : W) → P a w → Q a w)
    → Leaves P E r
    → Leaves Q E r
unfolding Leaves
Leaves-map P Q E (ok a, w) f h = f a w h
Leaves-map P Q E (err e, w) f h = h

module _ (base : String → String) (matches : String → Result Bool) (listing : List RemoteInfo) where
  -- An entry of the map is an entry of the listing, under its name, which matches.
  pub record IsListed (n : String) (e : RemoteInfo) : Type 0 where
    pub listed : Mem e listing
    pub named : remote_name base e ≡ n
    pub matched : matches n ≡ ok true

  abbrev pub AllListed : Remote → Type 0
  AllListed = All (λ r. IsListed r.0 r.1)

  pub find-IsListed :
      (n : String) (e : RemoteInfo) (remote : Remote)
      → AllListed remote
      → find n remote ≡ some e
      → IsListed n e
  unfolding find
  find-IsListed n e [] h found = cc
  find-IsListed n e ((k, f) ∷ rest) h found = elim (Bool-cases (str_eq k n)) [
    | inl same ↦
        (let here : some f ≡ some e = ground arith in
          let at_n : IsListed n f = subst (λ m. IsListed m f) ((eq_iff k n).0 same) h.0 in
          subst (λ o. elim o [ none ↦ Unit | some x ↦ IsListed n x ]) here at_n)
    | inr other ↦ find-IsListed n e rest h.1 (ground arith)
  ]

  find-append :
      (n : String) (e : RemoteInfo) (xs ys : Remote)
      → find n xs ≡ some e
      → find n (xs ++ ys) ≡ some e
  unfolding find
  find-append n e [] ys h = cc
  find-append n e ((k, f) ∷ xs) ys h = ground (arith, find-append n e xs ys)

  find-snoc :
      (n : String) (e : RemoteInfo) (xs : Remote)
      → member n (names_of xs) ≡ false
      → find n (xs ++ ((n, e) ∷ [])) ≡ some e
  unfolding find names_of member
  find-snoc n e [] h = ground (arith, eq_refl n)
  find-snoc n e ((k, f) ∷ xs) h = ground (arith, find-snoc n e xs, eq_iff k n, eq_iff n k)

  -- An entry that matches is the one of its name.
  abbrev pub IsFound : Remote → RemoteInfo → Type 0
  IsFound remote e =
      matches (remote_name base e) ≡ ok true → find (remote_name base e) remote ≡ some e

  -- What some of the range over the listing leaves: the map's entries are listed, those before are
  -- still there, and without a duplicate every entry that matches is found.
  pub record Collected (es : List RemoteInfo) (before : Remote) (w : Report) (after : Remote)
      (v : Report) : Type 0 where
    pub listed : AllListed after
    pub kept : (n : String) (e : RemoteInfo) → find n before ≡ some e → find n after ≡ some e
    pub fresh : is_empty v.duplicates ≡ true → is_empty w.duplicates ≡ true
    pub entered : is_empty v.duplicates ≡ true → All (IsFound after) es
    pub issues : v.issues ≡ w.issues
    pub digest : v.state_sha256 ≡ w.state_sha256

  is_empty-snoc : (xs : List String) (n : String) → is_empty (xs ++ (n ∷ [])) ≡ false
  is_empty-snoc [] n = refl
  is_empty-snoc (x ∷ xs) n = refl

  enter-Collected :
      (matched known : Bool) (e : RemoteInfo) (remote : Remote) (w : Report)
      → Mem e listing
      → matches (remote_name base e) ≡ ok matched
      → member (remote_name base e) (names_of remote) ≡ known
      → AllListed remote
      → Collected
          (e ∷ [])
          remote
          w
          (enter matched known (remote_name base e) e remote)
          (count_entry matched known (remote_name base e) w)
  enter-Collected false known e remote w m s k h = record {
    listed = h;
    kept = λ n f g. g;
    fresh = λ z. z;
    entered = λ z. ((λ yes. cc), tt);
    issues = refl;
    digest = refl;
  }
  enter-Collected true true e remote w m s k h = record {
    listed = h;
    kept = λ n f g. g;
    fresh = λ z. cc (is_empty-snoc w.duplicates (remote_name base e));
    entered = λ z. cc (is_empty-snoc w.duplicates (remote_name base e));
    issues = refl;
    digest = refl;
  }
  enter-Collected true false e remote w m s k h = record {
    listed =
        All-append (λ r. IsListed r.0 r.1) remote ((remote_name base e, e) ∷ []) h
          (record { listed = m; named = refl; matched = s }, tt);
    kept = λ n f. find-append n f remote ((remote_name base e, e) ∷ []);
    fresh = λ z. z;
    entered = λ z. ((λ yes. find-snoc (remote_name base e) e remote k), tt);
    issues = refl;
    digest = refl;
  }

  IsFound-kept :
      (before after : Remote) (es : List RemoteInfo)
      → ((n : String) (e : RemoteInfo) → find n before ≡ some e → find n after ≡ some e)
      → All (IsFound before) es
      → All (IsFound after) es
  IsFound-kept before after es kept h =
      All-map (IsFound before) (IsFound after) es
        (λ e found yes. kept (remote_name base e) e (found yes)) h

  Collected-cons :
      (e : RemoteInfo) (es : List RemoteInfo) (r1 r2 r3 : Remote) (w1 w2 w3 : Report)
      → Collected (e ∷ []) r1 w1 r2 w2
      → Collected es r2 w2 r3 w3
      → Collected (e ∷ es) r1 w1 r3 w3
  Collected-cons e es r1 r2 r3 w1 w2 w3 c d = record {
    listed = d.listed;
    kept = λ n f g. d.kept n f (c.kept n f g);
    fresh = λ z. c.fresh (d.fresh z);
    entered = λ z. ((IsFound-kept r2 r3 (e ∷ []) d.kept (c.entered (d.fresh z))).0, d.entered z);
    issues = d.issues ∙ c.issues;
    digest = d.digest ∙ c.digest;
  }

  entry_and_rest :
      (e : RemoteInfo) (es : List RemoteInfo) (remote : Remote) (w : Report) (b : Bool)
      → matches (remote_name base e) ≡ ok b
      → Mem e listing
      → AllListed remote
      → ((r : Remote) (v : Report)
          → AllListed r
          → Leaves
              (λ after u. Collected es r v after u)
              (λ v. Unit {0})
              (collect base matches es r v))
      → Leaves
          (λ after v. Collected (e ∷ es) remote w after v)
          (λ v. Unit {0})
          (continue
            (λ done. collect base matches es (
              enter b
                (member (remote_name base e) (names_of remote))
                (remote_name base e)
                e
                remote))
            (change
              (count_entry b (member (remote_name base e) (names_of remote)) (remote_name base e))
              w))
  unfolding change
  entry_and_rest e es remote w b s m h rest =
      let n = remote_name base e in
      let known = member n (names_of remote) in
      let one = enter-Collected b known e remote w m s refl h in
      let r = enter b known n e remote in
      let v = count_entry b known n w in
      let P : Unit {0} → Report → Type 0 = λ u v'. v' ≡ v in
      let Q : Remote → Report → Type 0 = λ after u. Collected (e ∷ es) remote w after u in
      let E : Report → Type 0 = λ v'. Unit {0} in
      let whole : Leaves Q E (collect base matches es r v) =
        Leaves-map (λ after u. Collected es r v after u) Q E (collect base matches es r v)
          (λ after u d. Collected-cons e es remote r after w v u one d) (rest r v one.listed) in
      then-Leaves P Q E (ok tt, v) (λ done. collect base matches es r) (gives P E tt v refl)
        (λ u v' same. subst (λ v''. Leaves Q E (collect base matches es r v'')) (sym same) whole)

  pub collect-Collected :
      (es : List RemoteInfo) (remote : Remote) (w : Report)
      → All (λ e. Mem e listing) es
      → AllListed remote
      → Leaves
          (λ after v. Collected es remote w after v)
          (λ v. Unit {0})
          (collect base matches es remote w)
  unfolding collect
  collect-Collected [] remote w m h =
      gives (λ after v. Collected [] remote w after v) (λ v. Unit {0}) remote w
        (record {
          listed = h;
          kept = λ n f g. g;
          fresh = λ z. z;
          entered = λ z. tt;
          issues = refl;
          digest = refl;
        })
  collect-Collected (e ∷ es) remote w (m, ms) h =
      let P : Bool → Report → Type 0 = λ b v. (matches (remote_name base e) ≡ ok b) × (v ≡ w) in
      let Q : Remote → Report → Type 0 = λ after v. Collected (e ∷ es) remote w after v in
      then-Leaves P Q (λ v. Unit {0}) (lift (matches (remote_name base e)) w) _
        (lift-Leaves P (λ v. Unit {0}) (matches (remote_name base e)) w (λ b s. (s, refl)) tt)
        λ b v (s, same).
          subst
            (λ u.
              Leaves Q (λ v. Unit {0})
                (continue
                  (λ done. collect base matches es (
                    enter b (member (remote_name base e) (names_of remote)) (remote_name base e) e
                      remote))
                  (change
                    (count_entry b (member (remote_name base e) (names_of remote))
                      (remote_name base e))
                    u)))
            (sym same)
            (entry_and_rest e es remote w b s m h (λ r u l. collect-Collected es r u ms l))

-- Every name of the first list is in the second, when none is outside.
pub names_outside-All :
    (ns known : List String)
    → is_empty (names_outside ns known) ≡ true
    → All (λ n. member n known ≡ true) ns
unfolding names_outside
names_outside-All [] known h = tt
names_outside-All (n ∷ ns) known h = elim (Bool-cases (member n known)) [
  | inl inside ↦ (inside, names_outside-All ns known (ground arith))
  | inr outside ↦ cc (the_head outside h)
]
  where
    the_head :
        member n known ≡ false
        → is_empty (if member n known then names_outside ns known else n ∷ names_outside ns known)
          ≡ true
        → false ≡ true
    the_head o h = ground arith
