-- ===== src/Restore.antt =====
-- The restore of a backup from its volumes: internal/restore/restore.go. The destination is a tree of
-- regular files and links by their paths; what a system call answers is read off an environment by
-- the number of calls before it.
pub mod Entries
pub mod Volumes
pub mod Tree
pub mod Quiet
pub mod Packed
pub mod Safe
pub mod Next
use panpack.Base.{
  ℕ, zero, suc, ◌+◌, ◌-◌, ◌<>◌, String, str_eq, Bool, true, false, not, ◌&&◌, ◌||◌, Option, none,
  some, Error, message, wrapped, is_not_exist, Result, ok, err, ◌==◌, ltb, if◌then◌else◌, List, [],
  ◌∷◌, ◌++◌, Bytes, codes, length, take, drop,
}
use panpack.Base.Int.{ℤ, pos, negsuc}
use panpack.Base.Programs.{Program, ◌>>=◌, ◌>>◌, give, raise, lift, returned, unless, when}
use panpack.Archive.Pack.{Entry}
use panpack.Archive.Pack.Headers.{VolumeMarker}

-- A link or a file with its content, mode and time.
pub data Node : Type 0 where
  link : String → Node
  file : Bytes → ℕ → ℕ → Node

pub record DirMetadata : Type 0 where
  pub path : String
  pub mode : ℕ
  pub mod_time : ℕ

-- The entries that the reader has still to give, with the error or end of file behind them, and the
-- entry that was found last.
pub record EntryLookup : Type 0 where
  pub left : List Entry
  pub ending : Error
  pub current : Option Entry

pub record FragmentProgress : Type 0 where
  pub entry : Entry
  pub written : ℕ

pub record Options : Type 0 where
  pub destination : String
  pub force : Bool

-- The functions of path/filepath, strings, strconv and encoding/json: `clean` is Clean of FromSlash,
-- `parents` the parts of the directory of a path that is relative to the root.
pub record Texts : Type 0 where
  pub clean : String → String
  pub join : String → String → String
  pub rel : String → String → Result String
  pub parents : String → List String
  pub is_fragment : String → Bool
  pub parse_uint : String → Result ℕ
  pub parse_int : String → Result ℤ
  pub decode_marker : Bytes → Result VolumeMarker

-- How a call ends; the bytes that a copy wrote before it failed; whether a path is a link; the clock.
pub record Environment : Type 0 where
  pub outcome : ℕ → Option Error
  pub copied : ℕ → Option (ℕ × Error)
  pub is_symlink : ℕ → String → Result Bool
  pub now : ℕ → ℕ

pub record RestoreState : Type 0 where
  pub tree : String → Option Node
  pub dirs : List DirMetadata
  pub lookup : EntryLookup
  pub active : Option FragmentProgress
  pub settled : List DirMetadata
  pub tick : ℕ

unfoldable pub set_node : String → Option Node → (String → Option Node) → String → Option Node
set_node p n tree q = if str_eq p q then n else tree q

-- A write at an offset keeps what lies before and behind; a gap is filled with zeros.
pub zeros : ℕ → Bytes
zeros zero = []
zeros (suc n) = 0 ∷ zeros n

unfoldable pub write_at : ℕ → Bytes → Bytes → Bytes
unfolding zeros
write_at offset bytes old =
    take offset old ++ (zeros (offset - length old) ++ (bytes ++ drop (offset + length bytes) old))

abbrev pub written_node : ℕ → Bytes → Option Node → Option Node
written_node offset bytes none = none
written_node offset bytes (some (link t)) = some (link t)
written_node offset bytes (some (file old mode time)) =
    some (file (write_at offset bytes old) mode time)

-- `Get` from the entries that are left, with the last one that was read.
unfoldable pub get_from : ℕ → Error → List Entry → Option Entry → Result Entry × EntryLookup
get_from id ending [] current =
    (err ending, record { left = []; ending = ending; current = current })
get_from id ending (e ∷ es) current =
    let rest = get_from id ending es (some e) in
    let here : EntryLookup = record { left = es; ending = ending; current = some e } in
    if e.id == id
    then (ok e, here)
    else if ltb id e.id
    then (err (message "manifest entry not found"), here)
    else rest

unfoldable pub get : ℕ → EntryLookup → Result Entry × EntryLookup
unfolding get_from
get id l = elim l.current [
  | none ↦ get_from id l.ending l.left none
  | some e ↦
      if e.id == id
      then (ok e, l)
      else if ltb id e.id
      then (err (message "fragment entry id moved backward"), l)
      else get_from id l.ending l.left (some e)
]

unfoldable pub acted :
    Option Error → (RestoreState → RestoreState) → Program RestoreState (Unit {0})
acted none f w = (ok tt, f w)
acted (some e) f w = (err e, w)

unfoldable pub link_test : Result Bool → Result (Unit {0})
link_test (err e) = if is_not_exist e then ok tt else err e
link_test (ok true) = err (message "refusing to write through symlink parent")
link_test (ok false) = ok tt

-- strings.HasPrefix, on the bytes of the texts.
unfoldable pub has_prefix : Bytes → Bytes → Bool
has_prefix text [] = true
has_prefix [] (p ∷ ps) = false
has_prefix (c ∷ cs) (p ∷ ps) = c == p && has_prefix cs ps

unfoldable pub is_same : Bytes → Bytes → Bool
is_same [] [] = true
is_same [] (d ∷ ds) = false
is_same (c ∷ cs) [] = false
is_same (c ∷ cs) (d ∷ ds) = c == d && is_same cs ds

module _ (texts : Texts) (env : Environment) (opts : Options) where
  -- `safeDestination`
  unfoldable pub safe_destination : String → Result String
  unfolding has_prefix is_same
  safe_destination slash_path =
      let rel = texts.clean slash_path in
      if str_eq slash_path "" || has_prefix (codes slash_path) (codes "/")
      then err (message "unsafe archive path")
      else if is_same (codes rel) (codes ".")
          || (is_same (codes rel) (codes "..") || has_prefix (codes rel) (codes "../"))
      then err (message "unsafe archive path")
      else ok (texts.join opts.destination rel)

  unfoldable pub ask {κ} : {A : Type κ} → (ℕ → A) → Program RestoreState A
  ask f w = (ok (f w.tick), record w { tick = w.tick + 1 })

  -- A call that changes the world if it succeeds.
  unfoldable pub act : (RestoreState → RestoreState) → Program RestoreState (Unit {0})
  unfolding acted
  act f w = acted (env.outcome w.tick) f (record w { tick = w.tick + 1 })

  -- A call that changes nothing that is modelled.
  abbrev pub call : Program RestoreState (Unit {0})
  call = act (λ w. w)

  -- A call whose error is dropped.
  unfoldable pub try : (RestoreState → RestoreState) → Program RestoreState (Unit {0})
  unfolding act
  try f w = (ok tt, (act f w).1)

  unfoldable pub check_parents : List String → String → Program RestoreState (Unit {0})
  unfolding ask link_test
  check_parents [] current = give tt
  check_parents (p ∷ ps) current =
      if str_eq p "" || str_eq p "." then check_parents ps current else (do
        found ← ask (λ t. env.is_symlink t (texts.join current p))
        lift (link_test found)
        check_parents ps (texts.join current p))

  -- `ensureNoSymlinkParents`
  unfoldable pub ensure_no_symlink_parents : String → Program RestoreState (Unit {0})
  unfolding check_parents
  ensure_no_symlink_parents dst = do
    rel ← lift (texts.rel opts.destination dst)
    check_parents (texts.parents rel) opts.destination
