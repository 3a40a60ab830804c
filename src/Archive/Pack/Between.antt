-- ===== src/Archive/Pack/Between.antt =====
-- What lies between two cursors over the manifest of PackNext (internal/archive/packer.go).
use panpack.Base.{ℕ, ◌+◌, ◌<◌, ◌≡◌, List, [], ◌∷◌, ◌++◌}
use panpack.Archive.Pack.{Line, Item, marker, whole, fragment, meta}

-- `Covers ls o items ls' o'`: from offset `o` of the first of `ls`, the items pack all up to
-- offset `o'` of the first of `ls'`. A whole file begins at 0, fragments follow one another
-- without a gap, and a line is left when its last byte is packed.
pub data Covers : List Line → ℕ → List Item → List Line → ℕ → Type 0 where
  nothing : {ls : List Line} {o : ℕ} → Covers ls o [] ls o
  skip :
      {ls ls' : List Line} {o o' : ℕ} {items : List Item}
      → Covers ls o items ls' o'
      → Covers ls o (marker ∷ items) ls' o'
  whole_file :
      {l : Line} {ls ls' : List Line} {o z o' : ℕ} {items : List Item}
      → o ≡ 0
      → z ≡ 0
      → Covers ls z items ls' o'
      → Covers (l ∷ ls) o (whole l.entry ∷ items) ls' o'
  metadata :
      {l : Line} {ls ls' : List Line} {o z o' : ℕ} {items : List Item}
      → z ≡ 0
      → Covers ls z items ls' o'
      → Covers (l ∷ ls) o (meta l.entry ∷ items) ls' o'
  part :
      {l : Line} {ls ls' : List Line} {o n m o' : ℕ} {items : List Item}
      → 0 < n
      → m ≡ o + n
      → m < l.entry.size
      → Covers (l ∷ ls) m items ls' o'
      → Covers (l ∷ ls) o (fragment l.entry o n ∷ items) ls' o'
  last_part :
      {l : Line} {ls ls' : List Line} {o n z o' : ℕ} {items : List Item}
      → 0 < n
      → o + n ≡ l.entry.size
      → z ≡ 0
      → Covers ls z items ls' o'
      → Covers (l ∷ ls) o (fragment l.entry o n ∷ items) ls' o'

pub Covers-trans :
    {ls ms ns : List Line} {o p q : ℕ} {is js : List Item}
    → Covers ls o is ms p
    → Covers ms p js ns q
    → Covers ls o (is ++ js) ns q
Covers-trans nothing d = d
Covers-trans (skip c) d = skip (Covers-trans c d)
Covers-trans (whole_file e z c) d = whole_file e z (Covers-trans c d)
Covers-trans (metadata z c) d = metadata z (Covers-trans c d)
Covers-trans (part p e lt c) d = part p e lt (Covers-trans c d)
Covers-trans (last_part p e z c) d = last_part p e z (Covers-trans c d)

-- Behind the last line no bytes are packed.
abbrev pub AtEnd : List Line → ℕ → Type 0
AtEnd [] o = o ≡ 0
AtEnd (l ∷ ls) o = Unit

pub AtEnd-zero : (ls : List Line) (o : ℕ) → o ≡ 0 → AtEnd ls o
AtEnd-zero [] o e = e
AtEnd-zero (l ∷ ls) o e = tt

pub Covers-AtEnd :
    {ls ls' : List Line} {o o' : ℕ} {items : List Item}
    → Covers ls o items ls' o'
    → AtEnd ls o
    → AtEnd ls' o'
Covers-AtEnd nothing h = h
Covers-AtEnd (skip c) h = Covers-AtEnd c h
Covers-AtEnd (whole_file {ls = ls} {z = z} e z0 c) h = Covers-AtEnd c (AtEnd-zero ls z z0)
Covers-AtEnd (metadata {ls = ls} {z = z} z0 c) h = Covers-AtEnd c (AtEnd-zero ls z z0)
Covers-AtEnd (part lt e more c) h = Covers-AtEnd c tt
Covers-AtEnd (last_part {ls = ls} {z = z} lt e z0 c) h = Covers-AtEnd c (AtEnd-zero ls z z0)

-- `Reaches ls o ls' o'`: the lines from `ls` to `ls'` are passed, and `o'` is the offset behind the last
-- of them, or `o` where none is passed.
pub data Reaches : List Line → ℕ → List Line → ℕ → Type 0 where
  here : {ls : List Line} {o : ℕ} → Reaches ls o ls o
  behind :
      {l : Line} {ls ls' : List Line} {o n o' : ℕ}
      → n ≡ l.next
      → Reaches ls n ls' o'
      → Reaches (l ∷ ls) o ls' o'

pub Reaches-trans :
    {ls ms ns : List Line} {o p q : ℕ} → Reaches ls o ms p → Reaches ms p ns q → Reaches ls o ns q
Reaches-trans here d = d
Reaches-trans (behind e c) d = behind e (Reaches-trans c d)

pub Reaches-nil : {ls ms : List Line} {o p : ℕ} → Reaches ls o ms p → ls ≡ [] → ms ≡ []
Reaches-nil here e = e
Reaches-nil (behind n c) e = cc
