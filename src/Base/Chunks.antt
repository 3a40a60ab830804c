-- ===== src/Base/Chunks.antt =====
-- Cutting content into blocks of one size: what the block hashes of a file range over.
use Prim.Native.Nat.{ℕ, ◌+◌, ◌<◌, ◌≤◌}
use mathlib.Core.Path.{◌≡◌, refl, ap, ap₂, sym, ◌∙◌}
use mathlib.Core.List.{List, [], ◌∷◌, ◌++◌, append_assoc}
use native.Mathlib.Omega.{arith}
use panpack.Base.Lists.{Bytes, length, length-append, take, drop}

-- The bytes of the blocks, in order.
abbrev pub concat : List Bytes → Bytes
concat [] = []
concat (c ∷ cs) = c ++ concat cs

-- Every block but the last has the size, and the last has a byte at least and the size at most.
abbrev pub Filled : ℕ → List Bytes → Type 0
Filled size [] = Unit
Filled size (c ∷ []) = (0 < length c) × (length c ≤ size)
Filled size (c ∷ d ∷ cs) = (length c ≡ size) × Filled size (d ∷ cs)

-- The cut of `content` into blocks of `size`, the last of which may be shorter.
pub record IsCut (size : ℕ) (content : Bytes) (blocks : List Bytes) : Type 0 where
  pub whole : concat blocks ≡ content
  pub filled : Filled size blocks

-- Blocks that are all of the size.
abbrev pub Full : ℕ → List Bytes → Type 0
Full size [] = Unit
Full size (c ∷ cs) = (length c ≡ size) × Full size cs

pub concat-append : (bs cs : List Bytes) → concat (bs ++ cs) ≡ concat bs ++ concat cs
concat-append [] cs = refl
concat-append (b ∷ bs) cs =
    ap (λ t. b ++ t) (concat-append bs cs) ∙ sym (append_assoc b (concat bs) (concat cs))

pub Full-append :
    (size : ℕ) (bs : List Bytes) (c : Bytes)
    → Full size bs
    → length c ≡ size
    → Full size (bs ++ (c ∷ []))
Full-append size [] c h e = (e, tt)
Full-append size (b ∷ bs) c h e = (h.0, Full-append size bs c h.1 e)

pub Full-Filled : (size : ℕ) (bs : List Bytes) → 0 < size → Full size bs → Filled size bs
Full-Filled size [] p h = tt
Full-Filled size (c ∷ []) p h = (omega arith, omega arith)
Full-Filled size (c ∷ d ∷ cs) p h = (h.0, Full-Filled size (d ∷ cs) p h.1)

pub Full-Filled_append :
    (size : ℕ) (bs : List Bytes) (c : Bytes)
    → Full size bs
    → 0 < length c
    → length c ≤ size
    → Filled size (bs ++ (c ∷ []))
Full-Filled_append size [] c h p q = (p, q)
Full-Filled_append size (b ∷ []) c h p q = (h.0, (p, q))
Full-Filled_append size (b ∷ d ∷ bs) c h p q = (h.0, Full-Filled_append size (d ∷ bs) c h.1 p q)

pub Filled-cons :
    (size : ℕ) (c : Bytes) (cs : List Bytes)
    → 0 < size
    → length c ≡ size
    → Filled size cs
    → Filled size (c ∷ cs)
Filled-cons size c [] p e h = (omega arith, omega arith)
Filled-cons size c (d ∷ cs) p e h = (e, h)

take-append_self : (c x : Bytes) → take (length c) (c ++ x) ≡ c
take-append_self [] x = refl
take-append_self (b ∷ c) x = ap (λ t. b ∷ t) (take-append_self c x)

drop-append_self : (c x : Bytes) → drop (length c) (c ++ x) ≡ x
drop-append_self [] x = refl
drop-append_self (b ∷ c) x = drop-append_self c x

append_split : (c d x y : Bytes) → length c ≡ length d → c ++ x ≡ d ++ y → (c ≡ d) × (x ≡ y)
append_split c d x y e h = (
  sym (take-append_self c x) ∙ ap₂ take e h ∙ take-append_self d y,
  sym (drop-append_self c x) ∙ ap₂ drop e h ∙ drop-append_self d y,
)

Filled-pos :
    (size : ℕ) (c : Bytes) (cs : List Bytes) → 0 < size → Filled size (c ∷ cs) → 0 < length c
Filled-pos size c [] p h = h.0
Filled-pos size c (d ∷ cs) p h = omega arith

Filled-tail : (size : ℕ) (c : Bytes) (cs : List Bytes) → Filled size (c ∷ cs) → Filled size cs
Filled-tail size c [] h = tt
Filled-tail size c (d ∷ cs) h = h.1

-- The heads of two cuts of the same content have one length.
same_head :
    (size : ℕ) (c d : Bytes) (cs ds : List Bytes)
    → 0 < size
    → Filled size (c ∷ cs)
    → Filled size (d ∷ ds)
    → length c + length (concat cs) ≡ length d + length (concat ds)
    → length c ≡ length d
same_head size c d [] [] p h k e = omega arith
same_head size c d [] (d' ∷ ds) p h k e =
    omega (arith, Filled-pos size d' ds p k.1, length-append d' (concat ds))
same_head size c d (c' ∷ cs) [] p h k e =
    omega (arith, Filled-pos size c' cs p h.1, length-append c' (concat cs))
same_head size c d (c' ∷ cs) (d' ∷ ds) p h k e = omega arith

-- The cut is determined by the content and the size.
Filled-unique :
    (size : ℕ) (bs cs : List Bytes)
    → 0 < size
    → Filled size bs
    → Filled size cs
    → concat bs ≡ concat cs
    → bs ≡ cs
Filled-unique size [] [] p h k e = refl
Filled-unique size [] (c ∷ cs) p h k e =
    absurd (omega (arith, ap length e, Filled-pos size c cs p k, length-append c (concat cs)))
Filled-unique size (b ∷ bs) [] p h k e =
    absurd (omega (arith, ap length e, Filled-pos size b bs p h, length-append b (concat bs)))
Filled-unique size (b ∷ bs) (c ∷ cs) p h k e =
    let heads =
      same_head size b c bs cs p h k
        (omega (arith, ap length e, length-append b (concat bs), length-append c (concat cs))) in
    let (first, rest) = append_split b c (concat bs) (concat cs) heads e in
    ap₂ ◌∷◌ first
      (Filled-unique size bs cs p (Filled-tail size b bs h) (Filled-tail size c cs k) rest)

pub IsCut-unique :
    (size : ℕ) (content : Bytes) (bs cs : List Bytes)
    → 0 < size
    → IsCut size content bs
    → IsCut size content cs
    → bs ≡ cs
IsCut-unique size content bs cs p h k =
    Filled-unique size bs cs p h.filled k.filled (h.whole ∙ sym k.whole)
