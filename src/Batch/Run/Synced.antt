-- ===== src/Batch/Run/Synced.antt =====
-- One attempt on a file, and the saves round it, through runWithClient of
-- internal/batchupload/batch.go: what they keep of the state and its file.
use panpack.Base.{
  ℕ, ◌+◌, ◌-◌, ◌<>◌, String, str_eq, eq_refl, Bool, true, false, not, ◌&&◌, ◌||◌, ◌≡◌, refl, sym,
  ap, subst, ◌∙◌, arith, Option, none, some, Error, Result, ok, err, if_intro, List, [], ◌∷◌, ◌++◌,
  All, All-map, is_remote_not_found,
}
use panpack.Base.Programs.{
  Program, gives, raises, Leaves, then-Leaves, lift-Leaves, returned-Leaves, unless-Leaves,
  returned, unless, lift,
}
use panpack.Files.{whole, Disk, write_atomic}
use panpack.Files.Atomic.{write_atomic-succeeds, write_atomic-fails}
use panpack.Store.Durable.{tmp-ne}
use panpack.Baidu.Checksum.{Codec}
use panpack.Baidu.Blocks.{Hashed}
use panpack.Baidu.Listing.{RemoteInfo}
use panpack.Baidu.Concurrency.{UploadStats}
use panpack.Batch.{FileRecord, State, save_state, complete_record, retry_delay}
use panpack.Batch.Run.{
  UploadClient, Environment, RunConfig, Run, Attempt, completed, failed, check_context, save_files,
  remove_if_present, local_path, upload_missing, answered, attempt_once, pause, ask, request,
  remote_path, rapid_stats, removed,
}

-- Some record of the path is marked as uploaded.
pub is_uploaded : (String → String) → String → List FileRecord → Bool
is_uploaded path_of p [] = false
is_uploaded path_of p (r ∷ rs) =
    (r.uploaded && str_eq (path_of r.name) p) || is_uploaded path_of p rs

-- `r'` is what a call makes of the record `r`.
pub record Grows (r r' : FileRecord) : Type 0 where
  pub same_name : r'.name ≡ r.name
  pub still : r.uploaded ≡ true → r'.uploaded ≡ true

pub is_uploaded-Grows :
    (path_of : String → String) (p : String) (before after : List FileRecord) (r r' : FileRecord)
    → Grows r r'
    → is_uploaded path_of p (before ++ (r ∷ after)) ≡ true
    → is_uploaded path_of p (before ++ (r' ∷ after)) ≡ true
unfolding is_uploaded
is_uploaded-Grows path_of p [] after r r' g h = ground (arith, g.still, ap path_of g.same_name)
is_uploaded-Grows path_of p (b ∷ before) after r r' g h =
    ground (arith, is_uploaded-Grows path_of p before after r r' g)

abbrev pub path_of : RunConfig → String → String
path_of cfg name = cfg.join cfg.source_dir name

abbrev pub Marked : RunConfig → List FileRecord → String → Type 0
Marked cfg files p = is_uploaded (path_of cfg) p files ≡ true

module _ {ℓ} {R : Type ℓ} (cfg : RunConfig) where
  -- The state file holds a whole state, in which every file whose removal was asked for is marked as
  -- uploaded.
  pub record IsSafe (w : Run R) : Type 0 where
    pub on_disk : State
    pub holds : w.disk cfg.state_file ≡ some (whole on_disk)
    pub recorded : All (Marked cfg on_disk.files) w.removals

  -- Between two saves: what is marked in memory is marked on the disk.
  pub record IsSynced (files : List FileRecord) (w : Run R) : Type 0 where
    pub on_disk : State
    pub holds : w.disk cfg.state_file ≡ some (whole on_disk)
    pub in_memory : All (Marked cfg files) w.removals
    pub saved : (p : String) → Marked cfg files p → Marked cfg on_disk.files p
    pub same : w.state.files ≡ files

  pub IsSynced-IsSafe : (files : List FileRecord) (w : Run R) → IsSynced files w → IsSafe w
  IsSynced-IsSafe files w s = record {
    on_disk = s.on_disk;
    holds = s.holds;
    recorded =
        All-map (Marked cfg files) (Marked cfg s.on_disk.files) w.removals s.saved s.in_memory;
  }

  -- A call that leaves the state, its file and the removals alone.
  unchanged-IsSynced :
      (files : List FileRecord) (w : Run R) (remote : R) (tick : ℕ)
      → IsSynced files w
      → IsSynced files (record w { remote = remote; tick = tick })
  unchanged-IsSynced files w remote tick s = record {
    on_disk = s.on_disk;
    holds = s.holds;
    in_memory = s.in_memory;
    saved = s.saved;
    same = s.same;
  }

  -- A save that returns no error has the new state on the disk; one that returns an error has left
  -- what was there.
  saved-Leaves :
      (P : Run R → Type 0) (files old : List FileRecord) (w : Run R) (s : State) (tick : ℕ)
      → s.files ≡ files
      → IsSynced old w
      → ((p : String) → Marked cfg old p → Marked cfg files p)
      → ((d : Disk State)
          → d cfg.state_file ≡ some (whole s)
          → IsSynced files (record w { state = s; disk = d; tick = tick })
          → P (record w { state = s; disk = d; tick = tick }))
      → (r : Option Error × Disk State) → (r.0 ≡ none → r.1 cfg.state_file ≡ some (whole s))
      → ((e : Error) → r.0 ≡ some e → r.1 cfg.state_file ≡ w.disk cfg.state_file)
      → Leaves
          (λ done w'. P w')
          IsSafe
          (returned r.0 (record w { state = s; disk = r.1; tick = tick }))
  unfolding returned
  saved-Leaves P files old w s tick e h grow made (none, d) good bad =
      gives (λ done w'. P w') IsSafe tt _
        (made d (good refl) (record {
          on_disk = s;
          holds = good refl;
          in_memory = All-map (Marked cfg old) (Marked cfg files) w.removals grow h.in_memory;
          saved = λ p m. subst (λ fs. Marked cfg fs p) (sym e) m;
          same = e;
        }))
  saved-Leaves P files old w s tick e h grow made (some x, d) good bad =
      raises (λ done w'. P w') IsSafe x _
        (record {
          on_disk = h.on_disk;
          holds = bad x refl ∙ h.holds;
          recorded =
              All-map (Marked cfg old) (Marked cfg h.on_disk.files) w.removals h.saved h.in_memory;
        })

module _ {ℓ} {R : Type ℓ} (client : UploadClient R) (codec : Codec) (env : Environment)
    (cfg : RunConfig) where
  -- The state that a save writes.
  abbrev stamped : Bool → List FileRecord → Run R → State
  stamped done files w = record w.state {
    files = files;
    completed = w.state.completed || done;
    updated_at = env.now w.tick;
  }

  pub save_files-Leaves_of :
      (P : Run R → Type 0) (done : Bool) (old files : List FileRecord) (w : Run R)
      → IsSynced cfg old w
      → ((p : String) → Marked cfg old p → Marked cfg files p)
      → ((d : Disk State)
          → d cfg.state_file ≡ some (whole (stamped done files w))
          → IsSynced cfg files
              (record w { state = stamped done files w; disk = d; tick = w.tick + 1 })
          → P (record w { state = stamped done files w; disk = d; tick = w.tick + 1 }))
      → Leaves (λ u w'. P w') (IsSafe cfg) (save_files client codec env cfg done files w)
  unfolding save_files save_state
  save_files-Leaves_of P done old files w h grow made =
      let s = stamped done files w in
      let tmp = cfg.state_file <> ".tmp" in
      let io = env.outcomes w.tick in
      saved-Leaves cfg P files old w s (w.tick + 1) refl h grow made
        (write_atomic tmp cfg.state_file s io w.disk)
        (write_atomic-succeeds tmp cfg.state_file (tmp-ne cfg.state_file) s io w.disk)
        (write_atomic-fails tmp cfg.state_file (tmp-ne cfg.state_file) s io w.disk)

  pub save_files-Leaves :
      (done : Bool) (old files : List FileRecord) (w : Run R)
      → IsSynced cfg old w
      → ((p : String) → Marked cfg old p → Marked cfg files p)
      → Leaves
          (λ u w'. IsSynced cfg files w')
          (IsSafe cfg)
          (save_files client codec env cfg done files w)
  save_files-Leaves done old files w h grow =
      save_files-Leaves_of (λ w'. IsSynced cfg files w') done old files w h grow
        (λ d put synced. synced)

  pub remove_if_present-Leaves :
      (path : String) (files : List FileRecord) (w : Run R)
      → IsSynced cfg files w
      → Marked cfg files path
      → Leaves
          (λ u w'. IsSynced cfg files w')
          (IsSafe cfg)
          (remove_if_present client codec env cfg path w)
  unfolding remove_if_present lift
  remove_if_present-Leaves path files w h m =
      let w' = record w { removals = path ∷ w.removals; tick = w.tick + 1 } in
      let synced : IsSynced cfg files w' = record {
        on_disk = h.on_disk;
        holds = h.holds;
        in_memory = (m, h.in_memory);
        saved = h.saved;
        same = h.same;
      } in
      lift-Leaves (λ u. IsSynced cfg files) (IsSafe cfg) (removed (env.remove w.tick path)) w'
        (λ u e. synced) (IsSynced-IsSafe cfg files w' synced)

  module _ (files : List FileRecord) where
    pub ask-Leaves {κ} :
        {A : Type κ} (f : ℕ → A) (w : Run R)
        → IsSynced cfg files w
        → Leaves (λ a w'. IsSynced cfg files w') (IsSafe cfg) (ask f w)
    unfolding ask
    ask-Leaves f w h = gives _ _ _ _ (unchanged-IsSynced cfg files w w.remote (w.tick + 1) h)

    pub request-Leaves {κ} :
        {A : Type κ} (f : R → A × R) (w : Run R)
        → IsSynced cfg files w
        → Leaves (λ a w'. IsSynced cfg files w') (IsSafe cfg) (request f w)
    unfolding request
    request-Leaves f w h =
        gives _ _ _ _ (unchanged-IsSynced cfg files w (f w.remote).1 (w.tick + 1) h)

    pub returned-IsSynced :
        (e : Option Error) (w : Run R)
        → IsSynced cfg files w
        → Leaves (λ u w'. IsSynced cfg files w') (IsSafe cfg) (returned e w)
    returned-IsSynced e w h =
        returned-Leaves (λ u w'. IsSynced cfg files w') (IsSafe cfg) e w (λ _. h)
          (IsSynced-IsSafe cfg files w h)

    pub unless-IsSynced :
        (b : Bool) (e : Error) (w : Run R)
        → IsSynced cfg files w
        → Leaves (λ u w'. IsSynced cfg files w') (IsSafe cfg) (unless b e w)
    unless-IsSynced b e w h =
        unless-Leaves (λ u w'. IsSynced cfg files w') (IsSafe cfg) b e w (λ _. h)
          (IsSynced-IsSafe cfg files w h)

    pub lift-IsSynced {κ} :
        {A : Type κ} (m : Result A) (w : Run R)
        → IsSynced cfg files w
        → Leaves (λ a w'. IsSynced cfg files w') (IsSafe cfg) (lift m w)
    lift-IsSynced m w h =
        lift-Leaves (λ a w'. IsSynced cfg files w') (IsSafe cfg) m w (λ _ _. h)
          (IsSynced-IsSafe cfg files w h)

    pub check_context-Leaves :
        (w : Run R)
        → IsSynced cfg files w
        → Leaves (λ u w'. IsSynced cfg files w') (IsSafe cfg) (check_context client codec env cfg w)
    unfolding check_context
    check_context-Leaves w h =
        then-Leaves (λ e w'. IsSynced cfg files w') (λ u w'. IsSynced cfg files w') (IsSafe cfg)
          (ask env.ctx_err w) _ (ask-Leaves env.ctx_err w h) returned-IsSynced

    pub pause-Leaves :
        (k : ℕ) (w : Run R)
        → IsSynced cfg files w
        → Leaves (λ u w'. IsSynced cfg files w') (IsSafe cfg) (pause client codec env cfg k w)
    unfolding pause
    pause-Leaves k w h =
        then-Leaves (λ e w'. IsSynced cfg files w') (λ u w'. IsSynced cfg files w') (IsSafe cfg)
          (ask (λ t. env.wait t (retry_delay cfg.retry_delay k)) w) _
          (ask-Leaves (λ t. env.wait t (retry_delay cfg.retry_delay k)) w h) returned-IsSynced

    -- An attempt completes the record that it is made for, or leaves it.
    abbrev pub Ends : FileRecord → Attempt → Type 0
    Ends r (completed r') = Grows r r' × (r'.uploaded ≡ true)
    Ends r (failed e) = Unit

    completed-Ends :
        (r : FileRecord) (now duration : ℕ) (stats : UploadStats)
        → Ends r (completed (complete_record now duration stats r))
    unfolding complete_record
    completed-Ends r now duration stats = (record { same_name = refl; still = λ _. refl }, refl)

    uploaded-Ends :
        (r : FileRecord) (now duration : ℕ) (uploaded : Result UploadStats)
        → Ends r (elim uploaded [
          | ok stats ↦ completed (complete_record now duration stats r)
          | err e ↦ failed e
        ])
    uploaded-Ends r now duration (ok stats) = completed-Ends r now duration stats
    uploaded-Ends r now duration (err e) = tt

    -- What an attempt leaves.
    abbrev pub Tried : FileRecord → Attempt → Run R → Type 0
    Tried r o w = Ends r o × IsSynced cfg files w

    upload_missing-Leaves :
        (r : FileRecord) (h : Hashed) (w : Run R)
        → IsSynced cfg files w
        → Leaves (Tried r) (IsSafe cfg) (upload_missing client codec env cfg r h w)
    unfolding upload_missing
    upload_missing-Leaves r h w s =
        let upload =
          client.upload_hashed_file (local_path client codec env cfg r)
            (remote_path client codec env cfg r) h.size h.full_md5 h.blocks in
        then-Leaves (λ t w'. IsSynced cfg files w') (Tried r) (IsSafe cfg) (ask env.now w) _
          (ask-Leaves env.now w s)
          λ started w1 s1.
            then-Leaves (λ u w'. IsSynced cfg files w') (Tried r) (IsSafe cfg) (request upload w1) _
              (request-Leaves upload w1 s1)
              λ uploaded w2 s2.
                then-Leaves (λ t w'. IsSynced cfg files w') (Tried r) (IsSafe cfg) (ask env.now w2)
                  _ (ask-Leaves env.now w2 s2)
                  λ ended w3 s3.
                    gives (Tried r) (IsSafe cfg) _ w3
                      (uploaded-Ends r ended (ended - started) uploaded, s3)

    answered-Leaves :
        (r : FileRecord) (h : Hashed) (found : Result RemoteInfo) (w : Run R)
        → IsSynced cfg files w
        → Leaves (Tried r) (IsSafe cfg) (answered client codec env cfg r h found w)
    unfolding answered
    answered-Leaves r h (ok remote) w s =
        then-Leaves (λ u w'. IsSynced cfg files w') (Tried r) (IsSafe cfg) (unless _ _ w) _
          (unless-IsSynced _ _ w s)
          λ u w1 s1.
            then-Leaves (λ t w'. IsSynced cfg files w') (Tried r) (IsSafe cfg) (ask env.now w1) _
              (ask-Leaves env.now w1 s1)
              λ now w2 s2.
                gives (Tried r) (IsSafe cfg) _ w2
                  (completed-Ends r now 0 (rapid_stats h.size h.full_md5), s2)
    answered-Leaves r h (err e) w s =
        if_intro {A = Program (Run R) Attempt} (λ m. Leaves (Tried r) (IsSafe cfg) (m w))
          (not (is_remote_not_found e)) (λ other. gives (Tried r) (IsSafe cfg) _ w (tt, s))
          (λ missing. upload_missing-Leaves r h w s)

    pub attempt_once-Leaves :
        (r : FileRecord) (h : Hashed) (w : Run R)
        → IsSynced cfg files w
        → Leaves (Tried r) (IsSafe cfg) (attempt_once client codec env cfg r h w)
    unfolding attempt_once
    attempt_once-Leaves r h w s =
        let look = client.remote_info (remote_path client codec env cfg r) in
        then-Leaves (λ t w'. IsSynced cfg files w') (Tried r) (IsSafe cfg) (request look w) _
          (request-Leaves look w s) λ found w1 s1. answered-Leaves r h found w1 s1

  pub is_uploaded-middle :
      (before after : List FileRecord) (r : FileRecord)
      → r.uploaded ≡ true
      → Marked cfg (before ++ (r ∷ after)) (path_of cfg r.name)
  unfolding is_uploaded
  is_uploaded-middle [] after r u = ground (arith, eq_refl (path_of cfg r.name))
  is_uploaded-middle (b ∷ before) after r u = ground (arith, is_uploaded-middle before after r u)
