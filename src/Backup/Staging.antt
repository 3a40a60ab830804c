-- ===== src/Backup/Staging.antt =====
-- Staged volumes and the state on the disk, through Run of internal/backup/backup.go.
use panpack.Base.{
  ℕ, ◌+◌, String, Bool, true, false, ◌≡◌, refl, ◌∙◌, Option, none, some, Error, Result, if_intro,
  List, [], ◌∷◌, All, All-map,
}
use panpack.Base.Programs.{
  Program, gives, raises, Leaves, then-Leaves, lift-Leaves, unless-Leaves, when-Leaves, returned,
  lift, unless, ◌>>◌,
}
use panpack.Files.{whole}
use panpack.Store.{Volume, Backup, World}
use panpack.Store.Durable.{Method, attempt, upload, call, IsSettled, call-IsSettled}
use panpack.Store.Invariant as Inv
use panpack.Store.Invariant.{IsWellFormed, IsSealed, Step, Reach-IsWellFormed, IsWellFormed-open}
use panpack.Store.Staged.{
  is_uploaded, is_listed, Kept, call-Kept, upload-marks, Known, Known-Kept, Known-self,
}
use panpack.Backup.{
  Uploader, Names, Environment, Machine, removed, ask, request, store_call, volumes, remove,
  upload_one, upload_pending_one, upload_each, upload_pending,
}

module _ {ℓ} {R : Type ℓ} (names : Names) where
  -- The state file holds a whole state, in which every staged file whose removal was asked for is
  -- marked as uploaded; and the state in memory is well formed.
  pub record IsSafe (w : Machine R) : Type 0 where
    pub on_disk : Backup
    pub holds : w.store.disk names.state_file ≡ some (whole on_disk)
    pub recorded : All (λ p. is_uploaded p on_disk.volumes ≡ true) w.removals
    pub formed : IsWellFormed w.store.backup

  -- The state file holds the state in memory.
  pub record IsSynced (w : Machine R) : Type 0 where
    pub holds : w.store.disk names.state_file ≡ some (whole w.store.backup)
    pub recorded : All (λ p. is_uploaded p w.store.backup.volumes ≡ true) w.removals
    pub formed : IsWellFormed w.store.backup

  pub IsSynced-IsSafe : (w : Machine R) → IsSynced w → IsSafe w
  IsSynced-IsSafe w h = record {
    on_disk = w.store.backup;
    holds = h.holds;
    recorded = h.recorded;
    formed = h.formed;
  }

  abbrev pub after : World → ℕ → Machine R → Machine R
  after s tick w = record w { store = s; tick = tick }

  settled-Leaves :
      (P : Machine R → Type 0) (w : Machine R) (tick : ℕ) (r : Option Error × World)
      → IsSynced w
      → IsSettled names.state_file w.store r
      → Kept w.store.backup.volumes r.1.backup.volumes
      → IsWellFormed r.1.backup
      → (r.0 ≡ none → IsSynced (after r.1 tick w) → P (after r.1 tick w))
      → Leaves (λ u w'. P w') IsSafe (returned r.0 (after r.1 tick w))
  unfolding returned
  settled-Leaves P w tick (none, s) h settled k formed made =
      gives (λ u w'. P w') IsSafe tt _
        (made refl (record {
          holds = settled;
          recorded = All-map _ _ w.removals k.uploads h.recorded;
          formed = formed;
        }))
  settled-Leaves P w tick (some e, s) h settled k formed made =
      raises (λ u w'. P w') IsSafe e _
        (record {
          on_disk = w.store.backup;
          holds = settled ∙ h.holds;
          recorded = h.recorded;
          formed = formed;
        })

module _ {ℓ} {R : Type ℓ} (client : Uploader R) (env : Environment) (names : Names) where
  -- The world after a method.
  abbrev pub called : Method → Machine R → Option Error × World
  called m w = call names.state_file (env.outcomes w.tick) (env.now w.tick) m w.store

  pub store_call-Leaves :
      (P : Machine R → Type 0) (m : Method) (w : Machine R)
      → Step names.state_file w.store (called m w).1
      → IsSynced names w
      → ((called m w).0 ≡ none
          → IsSynced names (after names (called m w).1 (w.tick + 1) w)
          → P (after names (called m w).1 (w.tick + 1) w))
      → Leaves (λ u w'. P w') (IsSafe names) (store_call client env names m w)
  unfolding store_call
  store_call-Leaves P m w step h made =
      let io = env.outcomes w.tick in
      let now = env.now w.tick in
      settled-Leaves names P w (w.tick + 1) (called m w) h
        (call-IsSettled names.state_file io now m w.store)
        (call-Kept names.state_file io now m w.store)
        (Reach-IsWellFormed names.state_file h.formed (Inv.next Inv.here step)) made

  module _ (seen : List Volume) where
    -- The state file is that in memory, and the volumes that were seen are still there.
    abbrev pub Keeps : Machine R → Type 0
    Keeps w = IsSynced names w × Known seen w.store.backup.volumes

    pub keep :
        (m : Method) (w : Machine R)
        → Keeps w
        → IsSynced names (after names (called m w).1 (w.tick + 1) w)
        → Keeps (after names (called m w).1 (w.tick + 1) w)
    keep m w (h, known) synced = (
      synced,
      Known-Kept seen _ _
          (call-Kept names.state_file (env.outcomes w.tick) (env.now w.tick) m w.store) known,
    )

    pub unchanged :
        (w : Machine R) (remote : R) (tick : ℕ)
        → Keeps w
        → Keeps (record w { remote = remote; tick = tick })
    unchanged w remote tick (h, known) =
        (record { holds = h.holds; recorded = h.recorded; formed = h.formed }, known)

    pub Keeps-IsSafe : (w : Machine R) → Keeps w → IsSafe names w
    Keeps-IsSafe w h = IsSynced-IsSafe names w h.0

    pub ask-Leaves {κ} :
        {A : Type κ} (f : ℕ → A) (w : Machine R)
        → Keeps w
        → Leaves (λ a w'. Keeps w') (IsSafe names) (ask f w)
    unfolding ask
    ask-Leaves f w h =
        gives (λ a w'. Keeps w') (IsSafe names) _ _ (unchanged w w.remote (w.tick + 1) h)

    pub request-Leaves {κ} :
        {A : Type κ} (f : R → A × R) (w : Machine R)
        → Keeps w
        → Leaves (λ a w'. Keeps w') (IsSafe names) (request f w)
    unfolding request
    request-Leaves f w h =
        gives (λ a w'. Keeps w') (IsSafe names) _ _ (unchanged w (f w.remote).1 (w.tick + 1) h)

    pub lift-Keeps {κ} :
        {A : Type κ} (m : Result A) (w : Machine R)
        → Keeps w
        → Leaves (λ a w'. Keeps w') (IsSafe names) (lift m w)
    lift-Keeps m w h =
        lift-Leaves (λ a w'. Keeps w') (IsSafe names) m w (λ _ _. h) (Keeps-IsSafe w h)

    remove-Leaves :
        (tolerant : Bool) (path : String) (w : Machine R)
        → Keeps w
        → is_uploaded path w.store.backup.volumes ≡ true
        → Leaves (λ u w'. Keeps w') (IsSafe names) (remove client env names tolerant path w)
    unfolding remove lift
    remove-Leaves tolerant path w (h, known) up =
        let w' = record w { removals = path ∷ w.removals; tick = w.tick + 1 } in
        let keeps : Keeps w' =
          (record { holds = h.holds; recorded = (up, h.recorded); formed = h.formed }, known) in
        lift-Keeps (removed tolerant (env.remove w.tick path)) w' keeps

    pub store_call-Keeps :
        (m : Method) (w : Machine R)
        → Step names.state_file w.store (called m w).1
        → Keeps w
        → Leaves (λ u w'. Keeps w') (IsSafe names) (store_call client env names m w)
    store_call-Keeps m w step h =
        store_call-Leaves Keeps m w step h.0 (λ good synced. keep m w h synced)

  Keeps-tail : (v : Volume) (seen : List Volume) (w : Machine R) → Keeps (v ∷ seen) w → Keeps seen w
  Keeps-tail v seen w (h, known) = (h, known.1)

  -- A volume that is pending, as far as is known.
  abbrev pending : Volume → Volume
  pending v = record v { uploaded = false }

  Keeps-listed :
      (seen : List Volume) (v : Volume) (w : Machine R)
      → Keeps seen w
      → is_listed v.index v.local_path w.store.backup.volumes ≡ true
      → Keeps (pending v ∷ seen) w
  Keeps-listed seen v w (h, known) listed = (h, ((listed, λ u. cc), known))

  listed-Keeps :
      (seen : List Volume) (v : Volume) (w : Machine R)
      → Keeps (pending v ∷ seen) w
      → is_listed v.index v.local_path w.store.backup.volumes ≡ true
  listed-Keeps seen v w (h, known) = known.0.0

  -- The volume is marked before its file is removed.
  mark_and_remove :
      (seen : List Volume) (v : Volume) (w : Machine R)
      → Keeps (pending v ∷ seen) w
      → Leaves
          (λ u w'. Keeps seen w')
          (IsSafe names)
          ((store_call client env names (upload v.index)
              >> remove client env names true v.local_path)
            w)
  mark_and_remove seen v w h =
      let P : Machine R → Type 0 =
        λ w'. Keeps seen w' × (is_uploaded v.local_path w'.store.backup.volumes ≡ true) in
      then-Leaves (λ u w'. P w') (λ u w'. Keeps seen w') (IsSafe names)
        (store_call client env names (upload v.index) w) _
        (store_call-Leaves P (upload v.index) w
          (Inv.upload (env.outcomes w.tick) (env.now w.tick) v.index) h.0
          λ good synced. (
            keep seen (upload v.index) w (Keeps-tail (pending v) seen w h) synced,
            upload-marks names.state_file (env.outcomes w.tick) (env.now w.tick) v.index _
                v.local_path w.store h.0.formed.numbered (listed-Keeps seen v w h) good,
          ))
        λ marked w1 (h1, up). remove-Leaves seen true v.local_path w1 h1 up

  pub upload_one-Leaves :
      (seen : List Volume) (v : Volume) (w : Machine R)
      → Keeps seen w
      → is_listed v.index v.local_path w.store.backup.volumes ≡ true
      → Leaves (λ u w'. Keeps seen w') (IsSafe names) (upload_one client env names v w)
  unfolding upload_one
  upload_one-Leaves seen v w h listed =
      let seen' = pending v ∷ seen in
      then-Leaves (λ u w'. Keeps seen' w') (λ u w'. Keeps seen w') (IsSafe names)
        (store_call client env names (attempt v.index) w) _
        (store_call-Keeps seen' (attempt v.index) w
          (Inv.attempt (env.outcomes w.tick) (env.now w.tick) v.index)
          (Keeps-listed seen v w h listed))
        λ tried w1 h1.
          then-Leaves (λ u w'. Keeps seen' w') (λ u w'. Keeps seen w') (IsSafe names)
            (request (client.upload_volume v) w1) _
            (request-Leaves seen' (client.upload_volume v) w1 h1)
            λ stats w2 h2.
              then-Leaves (λ u w'. Keeps seen' w') (λ u w'. Keeps seen w') (IsSafe names)
                (lift stats w2) _ (lift-Keeps seen' stats w2 h2)
                λ uploaded w3 h3. mark_and_remove seen v w3 h3

  upload_pending_one-Leaves :
      (seen : List Volume) (v : Volume) (w : Machine R)
      → Keeps (v ∷ seen) w
      → Leaves (λ u w'. Keeps seen w') (IsSafe names) (upload_pending_one client env names v w)
  unfolding upload_pending_one
  upload_pending_one-Leaves seen v w (h, known) =
      let K : Machine R → Type 0 = λ w'. Keeps (v ∷ seen) w' in
      if_intro {A = Program (Machine R) (Unit {0})}
        (λ m. Leaves (λ u w'. Keeps seen w') (IsSafe names) (m w)) v.uploaded
        (λ done.
          then-Leaves (λ b w'. K w') (λ u w'. Keeps seen w') (IsSafe names)
            (ask (λ t. env.exists t v.local_path) w) _
            (ask-Leaves (v ∷ seen) (λ t. env.exists t v.local_path) w (h, known))
            λ staged w1 (h1, known1).
              when-Leaves (λ u w'. Keeps seen w') (IsSafe names) staged
                (remove client env names false v.local_path) w1
                (λ here. remove-Leaves seen false v.local_path w1 (h1, known1.1) (known1.0.1 done))
                (λ gone. (h1, known1.1)))
        (λ waiting.
          then-Leaves (λ b w'. K w') (λ u w'. Keeps seen w') (IsSafe names) (unless _ _ w) _
            (unless-Leaves (λ u w'. K w') (IsSafe names) _ _ w (λ _. (h, known))
              (IsSynced-IsSafe names w h))
            λ hashed w1 (h1, known1). upload_one-Leaves seen v w1 (h1, known1.1) known1.0.0)

  upload_each-Leaves :
      (vs : List Volume) (w : Machine R)
      → Keeps vs w
      → Leaves (λ u w'. IsSynced names w') (IsSafe names) (upload_each client env names vs w)
  unfolding upload_each
  upload_each-Leaves [] w h = gives (λ u w'. IsSynced names w') (IsSafe names) tt w h.0
  upload_each-Leaves (v ∷ vs) w h =
      then-Leaves (λ u w'. Keeps vs w') (λ u w'. IsSynced names w') (IsSafe names)
        (upload_pending_one client env names v w) _ (upload_pending_one-Leaves vs v w h)
        (λ done w1 h1. upload_each-Leaves vs w1 h1)

  pub listed_now :
      (w : Machine R)
      → IsSynced names w
      → Leaves (λ current w'. Keeps current w') (IsSafe names) (volumes client env names w)
  unfolding volumes
  listed_now w h =
      gives (λ current w'. Keeps current w') (IsSafe names) _ w
        (h, Known-self w.store.backup.volumes)

  pub upload_pending-Leaves :
      (w : Machine R)
      → IsSynced names w
      → Leaves (λ u w'. IsSynced names w') (IsSafe names) (upload_pending client env names w)
  unfolding upload_pending
  upload_pending-Leaves w h =
      let vs = w.store.backup.volumes in
      let P : List Volume → Machine R → Type 0 = λ current w'. Keeps current w' in
      then-Leaves P (λ u w'. IsSynced names w') (IsSafe names) (volumes client env names w) _
        (listed_now w h) (λ current w1 h1. upload_each-Leaves current w1 h1)
