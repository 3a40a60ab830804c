-- ===== src/Restore/Quiet.antt =====
-- Restores in which no call fails and no parent is a link: what the steps of restoreEntry and
-- restoreFragment of internal/restore/restore.go do to the tree.
use panpack.Base.{
  ℕ, ◌+◌, ◌≡◌, refl, arith, String, str_eq, Bool, true, false, not, ◌||◌, Bool-cases, inl, inr,
  Option, none, some, Result, ok, List, [], ◌∷◌, ◌++◌, Bytes, length, take_all, ltb, ◌==◌, ==_iff,
  ◌<◌,
}
use panpack.Base.Programs.{continue, lift, when}
use panpack.Archive.Pack.{Entry}
use panpack.Archive.Pack.Headers.{Header, perm}
use panpack.Restore.{
  Node, link, file, act, Options, Texts, Environment, RestoreState, set_node, link_test,
  check_parents, ensure_no_symlink_parents, try,
}
use panpack.Restore.Entries.{
  restore_regular, restore_link, restore_dir, open_file, copy, write_fragment, end_fragment,
}
use panpack.Restore.Tree.{set_node-here, set_node-again, write_at-end}

abbrev pub quiet : (ℕ → String → Result Bool) → (ℕ → ℕ) → Environment
quiet links now = record { outcome = λ t. none; copied = λ t. none; is_symlink = links; now = now }

abbrev pub later : ℕ → RestoreState → RestoreState
later t w = record w { tick = t }

-- The world with another node at one path.
abbrev pub placed : String → Option Node → ℕ → RestoreState → RestoreState
placed p n t w = record w { tree = set_node p n w.tree; tick = t }

module _ (texts : Texts) (opts : Options) (links : ℕ → String → Result Bool) (now : ℕ → ℕ)
    (no_links : (t : ℕ) (p : String) → link_test (links t p) ≡ ok tt) where
  abbrev env : Environment
  env = quiet links now

  pub check_parents-passes :
      (ps : List String) (current : String) (w : RestoreState)
      → (t : ℕ) × (check_parents texts env opts ps current w ≡ (ok tt, later t w))
  unfolding check_parents continue lift
  check_parents-passes [] current w = (w.tick, refl)
  check_parents-passes (p ∷ ps) current w = elim (Bool-cases (str_eq p "" || str_eq p ".")) [
    | inl empty ↦ let (t, e) = check_parents-passes ps current w in (t, rw (empty, e))
    | inr part ↦
        let (t, e) = check_parents-passes ps (texts.join current p) (later (w.tick + 1) w) in
        (t, rw (part, no_links w.tick (texts.join current p), e))
  ]

  pub ensure-passes :
      (dst rel : String) (w : RestoreState)
      → texts.rel opts.destination dst ≡ ok rel
      → (t : ℕ) × (ensure_no_symlink_parents texts env opts dst w ≡ (ok tt, later t w))
  unfolding ensure_no_symlink_parents continue lift
  ensure-passes dst rel w e =
      let (t, passes) = check_parents-passes (texts.parents rel) opts.destination w in
      (t, rw (e, passes))

  open_file-creates :
      (exclusive truncate : Bool) (mode : ℕ) (p : String) (w : RestoreState)
      → w.tree p ≡ none
      → open_file texts env opts exclusive truncate mode p w
        ≡ (ok tt, placed p (some (file [] mode (now w.tick))) (w.tick + 1) w)
  unfolding open_file
  open_file-creates true truncate mode p w absent = rw absent
  open_file-creates false truncate mode p w absent = rw absent

  copy-appends :
      (p : String) (o : ℕ) (content : Bytes) (size : ℕ) (w : RestoreState) (old : Bytes) (m t u : ℕ)
      → length old ≡ o
      → length content ≡ size
      → copy texts env opts p o content size (placed p (some (file old m t)) u w)
        ≡ (ok tt, placed p (some (file (old ++ content) m t)) (u + 1) w)
  unfolding copy
  copy-appends p o content size w old m t u at long =
      let enough : ltb (length content) size ≡ false = ground arith in
      rw (
        enough,
        set_node-here p (some (file old m t)) w.tree,
        take_all size content (omega arith),
        write_at-end o content old at,
        set_node-again p (some (file (old ++ content) m t)) (some (file old m t)) w.tree,
      )

  pub restore_regular-writes :
      (hdr : Header) (content : Bytes) (dst : String) (w : RestoreState)
      → w.tree dst ≡ none
      → length content ≡ hdr.size
      → (t : ℕ) × (restore_regular texts env opts hdr content dst w
          ≡ (ok tt, placed dst (some (file content (perm hdr.mode) hdr.mod_time)) t w))
  unfolding restore_regular continue act
  restore_regular-writes hdr content dst w absent long = (
    w.tick + 1 + 1 + 1 + 1 + 1 + 1,
    rw (
      open_file-creates (not opts.force) true (perm hdr.mode) dst (later (w.tick + 1) w) absent,
      copy-appends dst 0 content hdr.size w [] _ _ _ refl long,
      set_node-here dst,
      set_node-again dst,
      set_node-here dst,
      set_node-again dst,
    ),
  )

  pub restore_link-links :
      (hdr : Header) (dst : String) (w : RestoreState)
      → w.tree dst ≡ none
      → (t : ℕ) × (restore_link texts env opts hdr dst w
          ≡ (ok tt, placed dst (some (link hdr.linkname)) t w))
  unfolding restore_link continue act lift when
  restore_link-links hdr dst w absent = (w.tick + 1 + 1 + 1, rw absent)

  pub restore_dir-notes :
      (hdr : Header) (dst : String) (w : RestoreState)
      → (t : ℕ) × (restore_dir texts env opts hdr dst w ≡ (
        ok tt,
        record w {
          dirs = w.dirs ++ (record { path = dst; mode = hdr.mode; mod_time = hdr.mod_time } ∷ []);
          tick = t;
        },
      ))
  unfolding restore_dir continue
  restore_dir-notes hdr dst w = (w.tick + 1, refl)

  pub write_fragment-begins :
      (e : Entry) (size : ℕ) (content : Bytes) (dst : String) (w : RestoreState)
      → w.tree dst ≡ none
      → length content ≡ size
      → (t : ℕ) × ((m : ℕ) × (write_fragment texts env opts e
              (record { entry = e; written = 0 })
              size
              content
              dst
              w
            ≡ (ok tt, placed dst (some (file content (perm e.mode) m)) t w)))
  unfolding write_fragment continue act
  write_fragment-begins e size content dst w absent long = (
    w.tick + 1 + 1 + 1 + 1 + 1,
    (
      now (w.tick + 1),
      rw (
        open_file-creates (not opts.force) true (perm e.mode) dst (later (w.tick + 1) w) absent,
        copy-appends dst 0 content size w [] (perm e.mode) (now (w.tick + 1)) (w.tick + 1 + 1 + 1)
            refl long,
      ),
    ),
  )

  pub write_fragment-continues :
      (e : Entry) (o size : ℕ) (content : Bytes) (dst : String) (w : RestoreState) {old : Bytes}
      {mode m : ℕ}
      → 0 < o
      → w.tree dst ≡ some (file old mode m)
      → length old ≡ o
      → length content ≡ size
      → (t : ℕ) × (write_fragment texts env opts e
            (record { entry = e; written = o })
            size
            content
            dst
            w
          ≡ (ok tt, placed dst (some (file (old ++ content) mode m)) t w))
  unfolding write_fragment continue act
  write_fragment-continues e o size content dst w {old} {mode} {m} some_written present at long = (
    w.tick + 1 + 1 + 1 + 1 + 1,
    let begun : (o == 0) ≡ false = ground arith in
        rw (
          begun,
          present,
          copy-appends dst o content size w old mode m (w.tick + 1 + 1 + 1) at long,
        ),
  )

  pub end_fragment-goes_on :
      (e : Entry) (o size : ℕ) (dst : String) (w : RestoreState)
      → o + size < e.size
      → end_fragment texts env opts e (record { entry = e; written = o }) size dst w
        ≡ (ok tt, record w { active = some (record { entry = e; written = o + size }) })
  unfolding end_fragment continue when
  end_fragment-goes_on e o size dst w lt =
      let more : (o + size == e.size) ≡ false = ground arith in rw more

  pub end_fragment-ends :
      (e : Entry) (o size : ℕ) (dst : String) (w : RestoreState) (whole : Bytes) (mode m u : ℕ)
      → o + size ≡ e.size
      → (t : ℕ) × (end_fragment texts env opts e
            (record { entry = e; written = o })
            size
            dst
            (placed dst (some (file whole mode m)) u w)
          ≡ (
            ok tt,
            record (placed dst (some (file whole (perm e.mode) e.mod_time)) t w) {
              active = some (record { entry = e; written = o + size });
            },
          ))
  unfolding end_fragment continue when try
  end_fragment-ends e o size dst w whole mode m u last = (
    u + 1 + 1,
    let done : (o + size == e.size) ≡ true = (==_iff (o + size) e.size).1 last in
        rw (done, set_node-here dst, set_node-again dst, set_node-here dst, set_node-again dst),
  )
