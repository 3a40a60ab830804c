-- ===== src/Credentials/Found.antt =====
-- Which credentials are found, and that saved ones are loaded again: Discover, Load and Save of
-- internal/credentials/credentials.go.
use panpack.Base.{
  ℕ, ◌<>◌, String, str_eq, Bool, true, false, ◌≡◌, refl, ◌∙◌, Option, none, some, Error, Result, ok,
  err, arith, List, [], ap, eq_iff, Bool-cases, Option-cases, inl, inr, ◌∷◌,
}
use panpack.Files.{Content, torn, whole, Disk, Outcomes}
use panpack.Files.Atomic.{write_atomic-succeeds}
use panpack.Store.Durable.{tmp-ne}
use panpack.Credentials.{
  Credentials, Environment, is_expired, decoded, load_unchecked, load, member, candidates, try_next,
  discover_loop, discover, save, save_if, no_credentials,
}

save_if-saves :
    (path : String) (c : Credentials) (io : Outcomes) (d : Disk Credentials) (empty : Bool)
    (mkdir : Option Error)
    → (save_if path c io d empty mkdir).0 ≡ none
    → (empty ≡ false) × ((save_if path c io d empty mkdir).1 path ≡ some (whole c))
unfolding save_if
save_if-saves path c io d true mkdir h = ground arith
save_if-saves path c io d false (some e) h = ground arith
save_if-saves path c io d false none h =
    (refl, write_atomic-succeeds (path <> ".tmp") path (tmp-ne path) c io d h)

load-whole :
    (now : ℕ) (path : String) (c : Credentials) (d : Disk Credentials)
    → d path ≡ some (whole c)
    → str_eq c.access_token "" ≡ false
    → is_expired c now ≡ false
    → load now path d ≡ ok c
unfolding load load_unchecked decoded
load-whole now path c d found token current = rw (found, token, current) refl

-- Credentials with a token that were saved without an error are loaded again until they expire.
pub load-save :
    (now : ℕ) (path : String) (c : Credentials) (mkdir : Option Error) (io : Outcomes)
    (d : Disk Credentials)
    → is_expired c now ≡ false
    → (save path c mkdir io d).0 ≡ none
    → load now path (save path c mkdir io d).1 ≡ ok c
unfolding save
load-save now path c mkdir io d current saved =
    let (token, found) = save_if-saves path c io d (str_eq c.access_token "") mkdir saved in
    load-whole now path c (save path c mkdir io d).1 found token current

module _ (env : Environment) (d : Disk Credentials) where
  abbrev at_path : String → Result Credentials → Result (Credentials × String)
  at_path path (ok c) = ok (c, path)
  at_path path (err e) = err e

  -- What the first of the files that exists gives, be it usable or not.
  pub first_existing : List String → Result (Credentials × String)
  first_existing [] = err no_credentials
  first_existing (p ∷ ps) =
      let rest = first_existing ps in
      elim (d (env.clean p)) [
        | none ↦ rest
        | some content ↦ at_path (env.clean p) (load env.now (env.clean p) d)
      ]

  -- A file that exists is never reported as missing.
  existing-read :
      (path : String) (content : Content Credentials) (rest : Result (Credentials × String))
      → d path ≡ some content
      → try_next path (load env.now path d) rest ≡ at_path path (load env.now path d)
  unfolding try_next load load_unchecked decoded
  existing-read path torn rest e = rw e refl
  existing-read path (whole c) rest e = rw e (ground arith)

  missing-skipped :
      (path : String) (rest : Result (Credentials × String))
      → d path ≡ none
      → try_next path (load env.now path d) rest ≡ rest
  unfolding try_next load load_unchecked decoded
  missing-skipped path rest e = rw e refl

  abbrev AreMissing : List String → Type 0
  AreMissing seen = (q : String) → member q seen ≡ true → d q ≡ none

  AreMissing-cons :
      (path : String) (seen : List String)
      → d path ≡ none
      → AreMissing seen
      → AreMissing (path ∷ seen)
  unfolding member
  AreMissing-cons path seen e h q m = elim (Bool-cases (str_eq q path)) [
    | inl same ↦ ap d ((eq_iff q path).0 same) ∙ e
    | inr other ↦ h q (ground arith)
  ]

  discover_loop-first_existing :
      (seen ps : List String) → AreMissing seen → discover_loop env d seen ps ≡ first_existing ps
  unfolding discover_loop first_existing
  discover_loop-first_existing seen [] h = refl
  discover_loop-first_existing seen (p ∷ ps) h =
      let path = env.clean p in
      elim (Bool-cases (member path seen)) [
        | inl met ↦ rw (met, h path met, first_existing) (discover_loop-first_existing seen ps h)
        | inr unmet ↦ elim (Option-cases (d path)) [
          | inl gone ↦
              rw (unmet, gone, first_existing)
                (missing-skipped path _ gone
                  ∙ discover_loop-first_existing (path ∷ seen) ps
                      (AreMissing-cons path seen gone h))
          | inr (content, found) ↦
              rw (unmet, found, first_existing) (existing-read path content _ found)
        ]
      ]

  -- Without the token variable, Discover gives what the first of the candidates that exists gives,
  -- with its path, or its error: skipping the paths it has met loses nothing, and behind a file that
  -- exists none is looked at, even if it holds no usable credentials.
  pub discover-first_existing :
      (explicit : String)
      → str_eq env.access_token "" ≡ true
      → discover env explicit d ≡ first_existing (candidates env explicit)
  unfolding discover
  discover-first_existing explicit unset =
      rw unset (discover_loop-first_existing [] (candidates env explicit) λ q m. absurd cc)
