-- ===== src/Restore/Safe.antt =====
-- Where restoreEntry of internal/restore/restore.go writes: safeDestination and
-- ensureNoSymlinkParents.
use panpack.Base.{
  ℕ, ◌==◌, not, ◌&&◌, codes, ◌≡◌, ◌≢◌, String, str_eq, Bool, true, false, ◌||◌, Result, ok, err,
  List, [], ◌∷◌, Bytes, All, if◌then◌else◌,
}
use panpack.Base.Programs.{Leaves}
use panpack.Restore.{Options, Texts, Environment, RestoreState}

abbrev pub Anywhere : RestoreState → Type 0
Anywhere w = Unit

pub anything : {A : Type 0} (r : Result A × RestoreState) → Leaves (λ a w. Unit {0}) Anywhere r
unfolding Leaves
anything (ok a, w) = tt
anything (err e, w) = tt

-- The parts of a path between its slashes.
add_to_first : ℕ → List Bytes → List Bytes
add_to_first c [] = (c ∷ []) ∷ []
add_to_first c (p ∷ ps) = (c ∷ p) ∷ ps

unfoldable pub parts_of : Bytes → List Bytes
unfolding add_to_first
parts_of [] = [] ∷ []
parts_of (c ∷ cs) = let rest = parts_of cs in if c == b'/' then [] ∷ rest else add_to_first c rest

-- A part that leads to the directory above.
unfoldable pub is_up : Bytes → Bool
is_up (c ∷ d ∷ []) = c == b'.' && d == b'.'
is_up _ = false

-- No part leads up; and none but the first ones, as in any path that filepath.Clean returns.
unfoldable pub none_up : List Bytes → Bool
unfolding is_up
none_up [] = true
none_up (p ∷ ps) = not (is_up p) && none_up ps

unfoldable pub first_up : List Bytes → Bool
unfolding none_up
first_up [] = true
first_up (p ∷ ps) = if is_up p then first_up ps else none_up ps

first_of : List Bytes → Bytes
first_of [] = []
first_of (p ∷ ps) = p

module _ (texts : Texts) (env : Environment) (opts : Options) where
  -- The parents that are looked at, each joined to those above it.
  abbrev pub prefixes : List String → String → List String
  prefixes [] current = []
  prefixes (p ∷ ps) current =
      let below = prefixes ps (texts.join current p) in
      let beside = prefixes ps current in
      if str_eq p "" || str_eq p "." then beside else texts.join current p ∷ below

  abbrev pub NoLinks : (String → Result Bool) → List String → Type 0
  NoLinks links cs = All (λ c. links c ≢ ok true) cs

  -- A path below the destination: joined to it by parts of which none leads up.
  pub record IsBelow (name dst : String) : Type 0 where
    pub joined : dst ≡ texts.join opts.destination (texts.clean name)
    pub inside : none_up (parts_of (codes (texts.clean name))) ≡ true

  -- What an entry was restored to: a place below the destination, and no link among its parents.
  pub record IsUnder (links : String → Result Bool) (name : String) : Type 0 where
    pub dst : String
    pub below : IsBelow name dst
    pub rel : String
    pub relative : texts.rel opts.destination dst ≡ ok rel
    pub parents : NoLinks links (prefixes (texts.parents rel) opts.destination)
