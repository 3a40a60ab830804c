-- ===== src/Base/Programs.antt =====
-- Code that changes a world and may return an error: the world is kept beside the error.
use mathlib.Core.Path.{◌≡◌, refl, subst}
use mathlib.Core.Bool.{Bool, true, false}
use mathlib.Core.Option.{Option, none, some}
use Prim.Native.String.{String}
use panpack.Base.Errors.{Error, wrapped, Result, ok, err, IfOk}

abbrev pub Program {ℓ κ} : Type ℓ → Type κ → Type (ℓ ⊔ κ)
Program W A = W → Result A × W

-- What a program leaves: a property of the value and the world, or one of the world of an error.
unfoldable pub Leaves {ℓ κ μ} :
    {W : Type ℓ} {A : Type κ} → (A → W → Type μ) → (W → Type μ) → Result A × W → Type μ
Leaves P E (ok a, w) = P a w
Leaves P E (err e, w) = E w

module _ {ℓ} {W : Type ℓ} where
  unfoldable pub continue {κ μ} :
      {A : Type κ} {B : Type μ} → (A → Program W B) → Result A × W → Result B × W
  continue f (ok a, w) = f a w
  continue f (err e, w) = (err e, w)

  infixl 5 ◌>>=◌ ◌>>◌
  abbrev pub ◌>>=◌ {κ μ} : {A : Type κ} {B : Type μ} → Program W A → (A → Program W B) → Program W B
  ◌>>=◌ m f w = continue f (m w)

  abbrev pub ◌>>◌ {κ} : {B : Type κ} → Program W (Unit {0}) → Program W B → Program W B
  ◌>>◌ m k w = continue (λ done. k) (m w)

  abbrev pub give {κ} : {A : Type κ} → A → Program W A
  give a w = (ok a, w)

  abbrev pub raise {κ} : {A : Type κ} → Error → Program W A
  raise e w = (err e, w)

  -- `if err != nil { return err }`
  unfoldable pub lift {κ} : {A : Type κ} → Result A → Program W A
  lift r w = (r, w)

  unfoldable pub returned : Option Error → Program W (Unit {0})
  returned none w = (ok tt, w)
  returned (some e) w = (err e, w)

  unfoldable pub unless : Bool → Error → Program W (Unit {0})
  unless false e w = (ok tt, w)
  unless true e w = (err e, w)

  unfoldable pub when : Bool → Program W (Unit {0}) → Program W (Unit {0})
  when true m w = m w
  when false m w = (ok tt, w)

  -- `if err != nil { return fmt.Errorf(m, err) }`
  unfoldable pub wrapping {κ} : {A : Type κ} → String → Program W A → Program W A
  wrapping m f w = let (r, w1) = f w in (elim r [ ok a ↦ ok a | err e ↦ err (wrapped m e) ], w1)

  -- The rules of the steps.
  pub gives {κ ν} :
      {A : Type κ} (P : A → W → Type ν) (E : W → Type ν) (a : A) (w : W)
      → P a w
      → Leaves P E (ok a, w)
  unfolding Leaves
  gives P E a w h = h

  pub raises {κ ν} :
      {A : Type κ} (P : A → W → Type ν) (E : W → Type ν) (e : Error) (w : W)
      → E w
      → Leaves P E (err e, w)
  unfolding Leaves
  raises P E e w h = h

  pub then-Leaves {κ μ ν} :
      {A : Type κ} {B : Type μ} (P : A → W → Type ν) (Q : B → W → Type ν) (E : W → Type ν)
      (m : Result A × W) (f : A → Program W B)
      → Leaves P E m
      → ((a : A) (w : W) → P a w → Leaves Q E (f a w))
      → Leaves Q E (continue f m)
  unfolding Leaves continue
  then-Leaves P Q E (ok a, w) f h k = k a w h
  then-Leaves P Q E (err e, w) f h k = h

  pub lift-Leaves {κ ν} :
      {A : Type κ} (P : A → W → Type ν) (E : W → Type ν) (r : Result A) (w : W)
      → ((a : A) → r ≡ ok a → P a w)
      → E w
      → Leaves P E (lift r w)
  unfolding Leaves lift
  lift-Leaves P E (ok a) w h e = h a refl
  lift-Leaves P E (err x) w h e = e

  pub returned-Leaves {ν} :
      (P : Unit {0} → W → Type ν) (E : W → Type ν) (o : Option Error) (w : W)
      → (o ≡ none → P tt w)
      → E w
      → Leaves P E (returned o w)
  unfolding Leaves returned
  returned-Leaves P E none w h e = h refl
  returned-Leaves P E (some x) w h e = e

  pub unless-Leaves {ν} :
      (P : Unit {0} → W → Type ν) (E : W → Type ν) (b : Bool) (x : Error) (w : W)
      → (b ≡ false → P tt w)
      → E w
      → Leaves P E (unless b x w)
  unfolding Leaves unless
  unless-Leaves P E false x w h e = h refl
  unless-Leaves P E true x w h e = e

  pub when-Leaves {ν} :
      (P : Unit {0} → W → Type ν) (E : W → Type ν) (b : Bool) (m : Program W (Unit {0})) (w : W)
      → (b ≡ true → Leaves P E (m w))
      → (b ≡ false → P tt w)
      → Leaves P E (when b m w)
  unfolding when
  when-Leaves P E true m w h k = h refl
  when-Leaves P E false m w h k = gives P E tt w (k refl)

  pub map-Leaves {κ ν} :
      {A : Type κ} (P : A → W → Type ν) (Q : A → W → Type ν) (E : W → Type ν) (r : Result A × W)
      → ((a : A) (w : W) → P a w → Q a w)
      → Leaves P E r
      → Leaves Q E r
  unfolding Leaves
  map-Leaves P Q E (ok a, w) f h = f a w h
  map-Leaves P Q E (err x, w) f h = h

  wrapped-Leaves {κ ν} :
      {A : Type κ} (P : A → W → Type ν) (E : W → Type ν) (m : String) (r : Result A × W)
      → Leaves P E r
      → Leaves P E (elim r.0 [ ok a ↦ ok a | err e ↦ err (wrapped m e) ], r.1)
  unfolding Leaves
  wrapped-Leaves P E m (ok a, w) h = h
  wrapped-Leaves P E m (err e, w) h = h

  pub wrapping-Leaves {κ ν} :
      {A : Type κ} (P : A → W → Type ν) (E : W → Type ν) (m : String) (f : Program W A) (w : W)
      → Leaves P E (f w)
      → Leaves P E (wrapping m f w)
  unfolding Leaves wrapping
  wrapping-Leaves P E m f w h = wrapped-Leaves P E m (f w) h

  -- A step that leaves the world as it is, and what follows it.
  pub lift-then {κ μ ν} :
      {A : Type κ} {B : Type μ} (Q : B → W → Type ν) (E : W → Type ν) (r : Result A)
      (f : A → Program W B) (w : W)
      → ((a : A) → r ≡ ok a → Leaves Q E (f a w))
      → E w
      → Leaves Q E (continue f (lift r w))
  unfolding Leaves continue lift
  lift-then Q E (ok a) f w h e = h a refl
  lift-then Q E (err x) f w h e = e

  pub unless-then {μ ν} :
      {B : Type μ} (Q : B → W → Type ν) (E : W → Type ν) (b : Bool) (x : Error)
      (f : Unit {0} → Program W B) (w : W)
      → (b ≡ false → Leaves Q E (f tt w))
      → E w
      → Leaves Q E (continue f (unless b x w))
  unfolding Leaves continue unless
  unless-then Q E false x f w h e = h refl
  unless-then Q E true x f w h e = e

  -- What a program leaves, read off its result.
  pub Leaves-world {κ ν} :
      {A : Type κ} (P : A → W → Type ν) (E : W → Type ν) (r : Result A × W)
      → ((a : A) (w : W) → P a w → E w)
      → Leaves P E r
      → E r.1
  unfolding Leaves
  Leaves-world P E (ok a, w) f h = f a w h
  Leaves-world P E (err e, w) f h = h

  pub Leaves-ok {κ ν} :
      {A : Type κ} (P : A → W → Type ν) (E : W → Type ν) (r : Result A × W) (a : A)
      → r.0 ≡ ok a
      → Leaves P E r
      → P a r.1
  unfolding Leaves
  Leaves-ok P E (ok b, w) a e h = subst (λ m. IfOk (λ c. P c w) m) e h
  Leaves-ok P E (err x, w) a e h = cc
