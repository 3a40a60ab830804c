-- ===== src/Restore/Entries.antt =====
-- The tar entries of a volume, written to the destination: restoreEntry and restoreFragment of
-- internal/restore/restore.go.
use panpack.Base.{
  ℕ, ◌+◌, String, str_eq, Bool, true, false, not, ◌&&◌, ◌||◌, Option, none, some, message,
  is_not_exist, ok, err, ◌==◌, ltb, if◌then◌else◌, [], ◌∷◌, ◌++◌, Bytes, length, take,
}
use panpack.Base.Int.{ℤ, pos, negsuc}
use panpack.Base.Programs.{Program, ◌>>=◌, ◌>>◌, raise, lift, unless, when}
use panpack.Archive.Pack as Packed
use panpack.Archive.Pack.{Entry, Kind}
use panpack.Archive.Pack.Headers.{Header, TarEntry, TypeFlag, directory, regular, other, perm}
use panpack.Archive.Pack.Headers as Headers
use panpack.Restore.{
  Node, link, file, FragmentProgress, Options, Texts, Environment, RestoreState, set_node,
  written_node, get, safe_destination, act, call, try, ensure_no_symlink_parents,
}

-- os.OpenFile on what lies at the path.
abbrev pub opened_node : Bool → ℕ → ℕ → Option Node → Option Node
opened_node truncate mode now none = some (file [] mode now)
opened_node truncate mode now (some (link t)) = some (link t)
opened_node true mode now (some (file old m t)) = some (file [] m now)
opened_node false mode now (some (file old m t)) = some (file old m t)

abbrev pub with_mode : ℕ → Option Node → Option Node
with_mode mode (some (file d m t)) = some (file d mode t)
with_mode mode n = n

abbrev pub with_time : ℕ → Option Node → Option Node
with_time time (some (file d m t)) = some (file d m time)
with_time time n = n

abbrev pub is_present : Option Node → Bool
is_present none = false
is_present (some n) = true

-- `offset < 0 || offset+hdr.Size > entry.Size`; a sum above int64 is negative.
unfoldable pub out_of_range : ℤ → ℕ → ℕ → Bool
out_of_range (pos o) size whole = ltb whole (o + size) && ltb (o + size) 9223372036854775808
out_of_range (negsuc o) size whole = true

unfoldable pub is_at : ℤ → ℕ → Bool
is_at (pos o) n = o == n
is_at (negsuc o) n = false

unfoldable pub is_file : Kind → Bool
is_file Packed.file = true
is_file _ = false

module _ (texts : Texts) (env : Environment) (opts : Options) where
  abbrev pub change_node : String → (Option Node → Option Node) → RestoreState → RestoreState
  change_node p f w = record w { tree = set_node p (f (w.tree p)) w.tree }

  unfoldable pub open_file : Bool → Bool → ℕ → String → Program RestoreState (Unit {0})
  open_file exclusive truncate mode path w =
      let w1 = record w { tick = w.tick + 1 } in
      elim (env.outcome w.tick) [
        | some e ↦ (err e, w1)
        | none ↦
            if exclusive && is_present (w.tree path)
            then (err (message "file exists"), w1)
            else (ok tt, change_node path (opened_node truncate mode (env.now w.tick)) w1)
      ]

  -- io.CopyN of the entry's bytes into the file at an offset.
  unfoldable pub copy : String → ℕ → Bytes → ℕ → Program RestoreState (Unit {0})
  copy path offset content size w =
      let w1 = record w { tick = w.tick + 1 } in
      elim (env.copied w.tick) [
        | some (n, e) ↦ (err e, change_node path (written_node offset (take n content)) w1)
        | none ↦
            if ltb (length content) size
            then (err (message "unexpected EOF"), change_node path (written_node offset content) w1)
            else (ok tt, change_node path (written_node offset (take size content)) w1)
      ]

  -- os.Lstat: whether something lies at the path.
  unfoldable pub lstat : String → Program RestoreState Bool
  lstat path w =
      let w1 = record w { tick = w.tick + 1 } in
      elim (env.outcome w.tick) [
        | none ↦ (ok (is_present (w.tree path)), w1)
        | some e ↦ ((if is_not_exist e then ok false else err e), w1)
      ]

  replace : Bool → String → Program RestoreState (Unit {0})
  unfolding act
  replace present dst = when present (
      unless (not opts.force) (message "destination exists")
      >> act texts env opts (change_node dst (λ n. none)))

  -- os.Lstat, and os.Remove of what may be replaced.
  unfoldable pub clear_way : String → Program RestoreState (Unit {0})
  unfolding lstat replace
  clear_way dst = do present ← lstat dst; replace present dst

  unfoldable pub restore_dir : Header → String → Program RestoreState (Unit {0})
  unfolding act
  restore_dir hdr dst = do
    call texts env opts
    λ w. (
      ok tt,
      record w {
        dirs = w.dirs ++ (record { path = dst; mode = hdr.mode; mod_time = hdr.mod_time } ∷ []);
      },
    )

  unfoldable pub restore_link : Header → String → Program RestoreState (Unit {0})
  unfolding act clear_way
  restore_link hdr dst = do
    call texts env opts
    clear_way dst
    act texts env opts (change_node dst (λ n. some (link hdr.linkname)))

  unfoldable pub restore_regular : Header → Bytes → String → Program RestoreState (Unit {0})
  unfolding act open_file copy
  restore_regular hdr content dst = do
    call texts env opts
    open_file (not opts.force) true (perm hdr.mode) dst
    copy dst 0 content hdr.size
    call texts env opts
    act texts env opts (change_node dst (with_mode (perm hdr.mode)))
    act texts env opts (change_node dst (with_time hdr.mod_time))

  unfoldable pub restore_as : TypeFlag → Header → Bytes → String → Program RestoreState (Unit {0})
  unfolding restore_dir restore_link restore_regular
  restore_as directory hdr content dst = restore_dir hdr dst
  restore_as Headers.link hdr content dst = restore_link hdr dst
  restore_as regular hdr content dst = restore_regular hdr content dst
  restore_as other hdr content dst = raise (message "unsupported tar entry type")

  -- `restoreEntry`
  unfoldable pub restore_entry : Header → Bytes → Program RestoreState (Unit {0})
  unfolding safe_destination ensure_no_symlink_parents restore_as
  restore_entry hdr content = do
    dst ← lift (safe_destination texts env opts hdr.name)
    ensure_no_symlink_parents texts env opts dst
    restore_as hdr.type_flag hdr content dst

  unfoldable pub look_up : ℕ → Program RestoreState Entry
  unfolding get
  look_up id w = let (r, l) = get id w.lookup in (r, record w { lookup = l })

  abbrev pub fresh_progress : Entry → FragmentProgress
  fresh_progress entry = record { entry = entry; written = 0 }

  -- The file that the fragments go on with, or a new one where the one before is complete.
  unfoldable pub begin_fragment : ℕ → Entry → Program RestoreState FragmentProgress
  begin_fragment id entry w = elim w.active [
    | none ↦ (ok (fresh_progress entry), record w { active = some (fresh_progress entry) })
    | some p ↦
        if p.entry.id == id
        then (ok p, w)
        else if not (p.written == p.entry.size)
        then (err (message "fragmented file ended early"), w)
        else (ok (fresh_progress entry), record w { active = some (fresh_progress entry) })
  ]

  unfoldable pub write_fragment :
      Entry → FragmentProgress → ℕ → Bytes → String → Program RestoreState (Unit {0})
  unfolding act open_file copy
  write_fragment entry p size content dst = do
    call texts env opts
    open_file (p.written == 0 && not opts.force) (p.written == 0) (perm entry.mode) dst
    call texts env opts
    copy dst p.written content size
    call texts env opts

  unfoldable pub end_fragment :
      Entry → FragmentProgress → ℕ → String → Program RestoreState (Unit {0})
  unfolding try
  end_fragment entry p size dst = do
    λ w. (ok tt, record w { active = some (record p { written = p.written + size }) })
    when (p.written + size == entry.size) (
        try texts env opts (change_node dst (with_mode (perm entry.mode)))
        >> try texts env opts (change_node dst (with_time entry.mod_time)))

  -- `restoreFragment`
  unfoldable pub restore_fragment : Header → Bytes → Program RestoreState (Unit {0})
  unfolding look_up is_file out_of_range begin_fragment is_at safe_destination
      ensure_no_symlink_parents write_fragment end_fragment
  restore_fragment hdr content = do
    unless (str_eq hdr.entry_id "" || str_eq hdr.file_offset "")
        (message "fragment lacks PANPACK metadata")
    id ← lift (texts.parse_uint hdr.entry_id)
    offset ← lift (texts.parse_int hdr.file_offset)
    entry ← look_up id
    unless (not (is_file entry.kind) || out_of_range offset hdr.size entry.size)
        (message "invalid fragment range")
    p ← begin_fragment id entry
    unless (not (is_at offset p.written)) (message "unexpected fragment offset")
    dst ← lift (safe_destination texts env opts entry.path)
    ensure_no_symlink_parents texts env opts dst
    write_fragment entry p hdr.size content dst
    end_fragment entry p hdr.size dst
