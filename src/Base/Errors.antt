-- ===== src/Base/Errors.antt =====
-- Go's error values, as far as the code tells them apart, and results with an error.
use Prim.Native.Nat.{ℕ}
use Prim.Native.String.{String}
use mathlib.Core.Path.{◌≡◌, refl, subst}
use mathlib.Core.Bool.{Bool, true, false}

-- `message` is `errors.New` or `fmt.Errorf` by its format, `wrapped` is `fmt.Errorf` with `%w`,
-- and `errno` is an error that the remote service numbers.
pub data Error : Type 0 where
  eof not_exist remote_not_found canceled : Error
  errno : ℕ → Error
  message : String → Error
  wrapped : String → Error → Error

-- `os.IsNotExist` looks through no wrapping.
abbrev pub is_not_exist : Error → Bool
is_not_exist not_exist = true
is_not_exist _ = false

-- `errors.Is` looks through it.
abbrev pub is_remote_not_found : Error → Bool
is_remote_not_found remote_not_found = true
is_remote_not_found (wrapped m e) = is_remote_not_found e
is_remote_not_found _ = false

-- Whether `errors.Is` finds the end of a file.
abbrev pub is_eof : Error → Bool
is_eof eof = true
is_eof (wrapped m e) = is_eof e
is_eof e = false

-- A pair `(value, error)` of which one is nil.
pub data Result {ℓ} (A : Type ℓ) : Type ℓ where
  err : Error → Result A
  ok : A → Result A

-- `if b { return e }`
abbrev pub fail_if : Bool → Error → Result (Unit {0})
fail_if false e = ok tt
fail_if true e = err e

-- `x, err := m; if err != nil { return err }`, and the same without a value.
infixl 5 ◌>>=◌ ◌>>◌
abbrev pub ◌>>=◌ {ℓ κ} : {A : Type ℓ} {B : Type κ} → Result A → (A → Result B) → Result B
err failure >>= next = err failure
ok value >>= next = next value

abbrev pub ◌>>◌ {κ} : {B : Type κ} → Result (Unit {0}) → Result B → Result B
check >> rest = check >>= λ done. rest

-- A property of what a computation returns, where it returns something, and how the steps of a
-- computation pass it on.
abbrev pub IfOk {ℓ κ} : {A : Type ℓ} → (A → Type κ) → Result A → Type κ
IfOk P (ok a) = P a
IfOk P (err e) = Unit

pub then-IfOk {ℓ κ μ} :
    {A : Type ℓ} {B : Type κ} (P : B → Type μ) (m : Result A) (f : A → Result B)
    → ((a : A) → m ≡ ok a → IfOk P (f a))
    → IfOk P (m >>= f)
then-IfOk P (ok a) f h = h a refl
then-IfOk P (err e) f h = tt

pub guard-IfOk {κ μ} :
    {B : Type κ} (P : B → Type μ) (b : Bool) (e : Error) (k : Result B)
    → (b ≡ false → IfOk P k)
    → IfOk P (fail_if b e >> k)
guard-IfOk P false e k h = h refl
guard-IfOk P true e k h = tt

pub fail_if-IfOk {κ} :
    (P : Unit {0} → Type κ) (b : Bool) (e : Error) → (b ≡ false → P tt) → IfOk P (fail_if b e)
fail_if-IfOk P false e h = h refl
fail_if-IfOk P true e h = tt

pub map-IfOk {ℓ κ μ} :
    {A : Type ℓ} (P : A → Type κ) (Q : A → Type μ) (m : Result A)
    → ((a : A) → P a → Q a)
    → IfOk P m
    → IfOk Q m
map-IfOk P Q (ok a) f h = f a h
map-IfOk P Q (err e) f h = tt

pub ok-IfOk {ℓ κ} : {A : Type ℓ} (P : A → Type κ) {m : Result A} {a : A} → m ≡ ok a → IfOk P m → P a
ok-IfOk P e h = subst (IfOk P) e h
