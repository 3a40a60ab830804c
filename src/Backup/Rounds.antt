-- ===== src/Backup/Rounds.antt =====
-- The packing loop, the metadata and the whole of Run of internal/backup/backup.go.
use panpack.Base.{
  is_eof, ℕ, zero, suc, ◌+◌, String, ◌<>◌, true, false, ◌≡◌, sym, subst, some, Result, ok, err,
  if_intro, [], All,
}
use panpack.Base.Programs.{
  Program, gives, raises, Leaves, Leaves-world, Leaves-ok, then-Leaves, lift-Leaves,
  returned-Leaves, lift, continue,
}
use panpack.Files.{whole, write_atomic}
use panpack.Store.{Cursor, Volume, all_uploaded}
use panpack.Store.Durable.{seal, complete, archive_done}
use panpack.Store.Invariant as Inv
use panpack.Store.Invariant.{IsWellFormed, IsSealed, IsWellFormed-open, IsWellFormed-completed}
use panpack.Store.Staged.{is_uploaded, is_listed, seal-lists, complete-marks}
use panpack.Backup.{
  Uploader, Names, Environment, Machine, Packed, sealed, exhausted, broken, packed_of, ask,
  store_call, volumes, cursor, upload_one, after_pack, pack_rounds, write_index, upload_local,
  upload_metadata, index_volumes, VolumeIndex, run,
}
use panpack.Backup.Staging.{
  IsSafe, IsSynced, IsSynced-IsSafe, Keeps, unchanged, store_call-Leaves, store_call-Keeps,
  ask-Leaves, request-Leaves, lift-Keeps, upload_one-Leaves, upload_pending-Leaves,
}

-- What the packer promises of a volume that it returns.
abbrev Sealing : Result Volume → Type 0
Sealing (ok v) = IsSealed v
Sealing (err e) = Unit

abbrev Sealed : Packed → Type 0
Sealed (sealed v) = IsSealed v
Sealed exhausted = Unit
Sealed (broken e) = Unit

packed_of-Sealed : (result : Result Volume) → Sealing result → Sealed (packed_of result)
unfolding packed_of
packed_of-Sealed (ok v) h = h
packed_of-Sealed (err e) h = if_intro Sealed (is_eof e) (λ last. tt) (λ other. tt)

module _ {ℓ} {R : Type ℓ} (client : Uploader R) (env : Environment) (names : Names) where
  -- A synced machine, whose backup is not completed.
  abbrev Open : Machine R → Type 0
  Open w = IsSynced names w × (w.store.backup.completed ≡ false)

  abbrev Synced : Machine R → Type 0
  Synced w = Keeps client env names [] w

  seal_and_upload :
      (again : Program (Machine R) (Unit {0})) (v : Volume) (w : Machine R)
      → IsSealed v
      → Open w
      → ((w' : Machine R) → Synced w' → Leaves (λ u w'. Synced w') (IsSafe names) (again w'))
      → Leaves (λ u w'. Synced w') (IsSafe names) (after_pack client env names (sealed v) again w)
  unfolding after_pack
  seal_and_upload again v w is_sealed (h, unfinished) rounds =
      let P : Machine R → Type 0 =
        λ w'. Synced w' × (is_listed v.index v.local_path w'.store.backup.volumes ≡ true) in
      then-Leaves (λ u w'. P w') (λ u w'. Synced w') (IsSafe names)
        (store_call client env names (seal v) w) _
        (store_call-Leaves client env names P (seal v) w
          (Inv.seal (env.outcomes w.tick) (env.now w.tick) v is_sealed unfinished) h
          λ good synced. (
            (synced, tt),
            seal-lists names.state_file (env.outcomes w.tick) (env.now w.tick) v w.store good,
          ))
        λ added w1 (h1, listed).
          then-Leaves (λ u w'. Synced w') (λ u w'. Synced w') (IsSafe names)
            (upload_one client env names v w1) _
            (upload_one-Leaves client env names [] v w1 h1 listed) λ sent w2 h2. rounds w2 h2

  after_pack-Leaves :
      (packed : Packed) (again : Program (Machine R) (Unit {0})) (w : Machine R)
      → Sealed packed
      → Open w
      → ((w' : Machine R) → Synced w' → Leaves (λ u w'. Synced w') (IsSafe names) (again w'))
      → Leaves (λ u w'. Synced w') (IsSafe names) (after_pack client env names packed again w)
  unfolding after_pack
  after_pack-Leaves exhausted again w s (h, unfinished) rounds =
      store_call-Keeps client env names [] archive_done w
        (Inv.archive_done (env.outcomes w.tick) (env.now w.tick)) (h, tt)
  after_pack-Leaves (broken e) again w s (h, unfinished) rounds =
      raises (λ u w'. Synced w') (IsSafe names) e w (IsSynced-IsSafe names w h)
  after_pack-Leaves (sealed v) again w s h rounds = seal_and_upload again v w s h rounds

  ask-Open {κ} :
      {A : Type κ} (P : A → Type 0) (f : ℕ → A) (w : Machine R)
      → ((t : ℕ) → P (f t))
      → Open w
      → Leaves (λ a w'. P a × Open w') (IsSafe names) (ask f w)
  unfolding ask
  ask-Open P f w always (h, unfinished) =
      gives (λ a w'. P a × Open w') (IsSafe names) _ _
        (
          always w.tick,
          ((unchanged client env names [] w w.remote (w.tick + 1) (h, tt)).0, unfinished),
        )

  cursor-Leaves :
      (w : Machine R)
      → Synced w
      → Leaves
          (λ c w'. Synced w' × (c.is_done ≡ false → Open w'))
          (IsSafe names)
          (cursor client env names w)
  unfolding cursor
  cursor-Leaves w (h, t) =
      gives (λ c w'. Synced w' × (c.is_done ≡ false → Open w')) (IsSafe names) _ w
        ((h, t), λ e. (h, IsWellFormed-open w.store.backup h.formed e))

  -- A packer whose volumes are sealed.
  abbrev pub Seals : Type 0
  Seals = (t : ℕ) (c : Cursor) (n : ℕ) → Sealing (env.pack_next t c n)

  pack_rounds-Leaves :
      Seals
      → (fuel : ℕ) (w : Machine R) → Synced w
      → Leaves (λ u w'. Synced w') (IsSafe names) (pack_rounds client env names fuel w)
  unfolding pack_rounds
  pack_rounds-Leaves seals zero w h =
      raises (λ u w'. Synced w') (IsSafe names) _ w (IsSynced-IsSafe names w h.0)
  pack_rounds-Leaves seals (suc fuel) w h =
      let Q : Unit {0} → Machine R → Type 0 = λ u w'. Synced w' in
      then-Leaves (λ c w'. Synced w' × (c.is_done ≡ false → Open w')) Q (IsSafe names)
        (cursor client env names w) _ (cursor-Leaves w h)
        λ current w1 (h1, is_open).
          if_intro {A = Program (Machine R) (Unit {0})} (λ m. Leaves Q (IsSafe names) (m w1))
            current.is_done (λ over. gives Q (IsSafe names) tt w1 h1)
            λ more.
              then-Leaves (λ p w'. Unit {0} × Open w') Q (IsSafe names) (ask env.plan w1) _
                (ask-Open (λ p. Unit {0}) env.plan w1 (λ t. tt) (is_open more))
                λ planned w2 (t2, h2).
                  then-Leaves (λ p w'. Open w') Q (IsSafe names) (lift planned w2) _
                    (lift-Leaves (λ p w'. Open w') (IsSafe names) planned w2 (λ _ _. h2)
                      (IsSynced-IsSafe names w2 h2.0))
                    λ target w3 h3.
                      then-Leaves (λ r w'. Sealing r × Open w') Q (IsSafe names)
                        (ask (λ t. env.pack_next t current target) w3) _
                        (ask-Open Sealing (λ t. env.pack_next t current target) w3
                          (λ t. seals t current target) h3)
                        λ result w4 (s4, h4).
                          after_pack-Leaves (packed_of result) (pack_rounds client env names fuel)
                            w4 (packed_of-Sealed result s4) h4
                            (λ w5 h5. pack_rounds-Leaves seals fuel w5 h5)

  -- One step of a chain that keeps the state and its file the same.
  continue-Synced {κ μ} :
      {A : Type κ} {B : Type μ} (m : Result A × Machine R) (f : A → Program (Machine R) B)
      → Leaves (λ a w'. Synced w') (IsSafe names) m
      → ((a : A) (w : Machine R) → Synced w → Leaves (λ b w'. Synced w') (IsSafe names) (f a w))
      → Leaves (λ b w'. Synced w') (IsSafe names) (continue f m)
  continue-Synced m f h k =
      then-Leaves (λ a w'. Synced w') (λ b w'. Synced w') (IsSafe names) m f h k

  asked {κ} :
      {A : Type κ} (f : ℕ → A) (w : Machine R)
      → Synced w
      → Leaves (λ a w'. Synced w') (IsSafe names) (ask f w)
  asked f w h = ask-Leaves client env names [] f w h

  lifted {κ} :
      {A : Type κ} (r : Result A) (w : Machine R)
      → Synced w
      → Leaves (λ a w'. Synced w') (IsSafe names) (lift r w)
  lifted r w h = lift-Keeps client env names [] r w h

  write_index-Leaves :
      (index : VolumeIndex) (w : Machine R)
      → Synced w
      → Leaves (λ u w'. Synced w') (IsSafe names) (write_index client env names index w)
  unfolding write_index
  write_index-Leaves index w (h, t) =
      let written =
        write_atomic (names.index_path <> ".tmp") names.index_path index (env.outcomes w.tick)
          w.indexes in
      let w' = record w { indexes = written.1; tick = w.tick + 1 } in
      let h' : IsSynced names w' = record {
        holds = h.holds;
        recorded = h.recorded;
        formed = h.formed;
      } in
      returned-Leaves (λ u w'. Synced w') (IsSafe names) written.0 w' (λ _. (h', tt))
        (IsSynced-IsSafe names w' h')

  upload_local-Leaves :
      (path name : String) (w : Machine R)
      → Synced w
      → Leaves (λ u w'. Synced w') (IsSafe names) (upload_local client env names path name w)
  unfolding upload_local
  upload_local-Leaves path name w h =
      continue-Synced _ _
        (request-Leaves client env names []
          (client.upload_file path (names.remote_dir <> ("/" <> name))) w h)
        λ stats w1 h1.
          continue-Synced _ _ (lifted stats w1 h1)
            λ uploaded w2 h2. gives (λ u w'. Synced w') (IsSafe names) tt w2 h2

  listed :
      (w : Machine R)
      → Synced w
      → Leaves (λ vs w'. Synced w') (IsSafe names) (volumes client env names w)
  unfolding volumes
  listed w h = gives (λ vs w'. Synced w') (IsSafe names) _ w h

  upload_metadata-Leaves :
      (w : Machine R)
      → Synced w
      → Leaves (λ u w'. Synced w') (IsSafe names) (upload_metadata client env names w)
  unfolding upload_metadata
  upload_metadata-Leaves w h = continue-Synced _ _ (asked env.now w h) λ now w1 h1.
      continue-Synced _ _ (listed w1 h1) λ current w2 h2.
        continue-Synced _ _ (lifted (index_volumes current) w2 h2) λ indexed w3 h3.
          continue-Synced _ _ (asked (λ t. env.hash_file t names.manifest_path) w3 h3)
            λ hashed_manifest w4 h4.
              continue-Synced _ _ (lifted hashed_manifest w4 h4) λ manifest w5 h5.
                continue-Synced _ _ (asked (λ t. env.hash_file t names.snapshot_path) w5 h5)
                  λ hashed_snapshot w6 h6.
                    continue-Synced _ _ (lifted hashed_snapshot w6 h6) λ snapshot w7 h7.
                      continue-Synced _ _ (write_index-Leaves _ w7 h7) λ written w8 h8.
                        continue-Synced _ _
                          (upload_local-Leaves names.manifest_path names.manifest_name w8 h8)
                          λ sent w9 h9.
                            continue-Synced _ _
                              (upload_local-Leaves names.snapshot_path names.snapshot_name w9 h9)
                              λ sent_too w10 h10.
                                upload_local-Leaves names.index_path names.index_name w10 h10

  -- The state file holds the state in memory, a completed one: every volume is uploaded and the
  -- manifest is used up.
  pub record IsComplete (w : Machine R) : Type 0 where
    pub holds : w.store.disk names.state_file ≡ some (whole w.store.backup)
    pub marked : w.store.backup.completed ≡ true
    pub uploaded : all_uploaded w.store.backup.volumes ≡ true
    pub exhausted : w.store.backup.cursor.is_done ≡ true

  abbrev Complete : Machine R → Type 0
  Complete w = IsComplete w × IsSafe names w

  complete-Leaves :
      (w : Machine R)
      → Synced w
      → Leaves (λ u w'. Complete w') (IsSafe names) (store_call client env names complete w)
  complete-Leaves w (h, t) =
      store_call-Leaves client env names Complete complete w
        (Inv.complete (env.outcomes w.tick) (env.now w.tick)) h
        λ good synced.
          let marked =
            complete-marks names.state_file (env.outcomes w.tick) (env.now w.tick) w.store good in
          let ended = IsWellFormed-completed _ synced.formed marked in
          (
            record {
              holds = synced.holds;
              marked = marked;
              uploaded = ended.0;
              exhausted = ended.1;
            },
            IsSynced-IsSafe names _ synced,
          )

  run-Leaves :
      Seals
      → (fuel : ℕ) (w : Machine R) → IsSynced names w
      → Leaves (λ u w'. Complete w') (IsSafe names) (run client env names fuel w)
  unfolding run
  run-Leaves seals fuel w h =
      let E = IsSafe names in
      let Q : Unit {0} → Machine R → Type 0 = λ u w'. Complete w' in
      then-Leaves (λ u w'. IsSynced names w') Q E _ _ (upload_pending-Leaves client env names w h)
        λ sent w1 h1.
          then-Leaves (λ u w'. Synced w') Q E _ _ (pack_rounds-Leaves seals fuel w1 (h1, tt))
            λ packed w2 h2.
              then-Leaves (λ u w'. Synced w') Q E _ _ (upload_metadata-Leaves w2 h2)
                λ described w3 h3. complete-Leaves w3 h3

  begun :
      (w : Machine R)
      → w.removals ≡ []
      → w.store.disk names.state_file ≡ some (whole w.store.backup)
      → IsWellFormed w.store.backup
      → IsSynced names w
  begun w none_removed loaded formed = record {
    holds = loaded;
    recorded = subst (All (λ p. is_uploaded p w.store.backup.volumes ≡ true)) (sym none_removed) tt;
    formed = formed;
  }

  -- A backup that begins with a well-formed state on the disk and no removal, with a packer that
  -- returns sealed volumes, however its calls and the remote side answer and wherever it stops: the
  -- state in memory is well formed, and the state file holds a whole state in which every staged file
  -- whose removal was asked for is marked as uploaded.
  pub run-IsSafe :
      Seals
      → (fuel : ℕ) (w : Machine R) → w.removals ≡ []
      → w.store.disk names.state_file ≡ some (whole w.store.backup)
      → IsWellFormed w.store.backup
      → IsSafe names (run client env names fuel w).1
  run-IsSafe seals fuel w none_removed loaded formed =
      Leaves-world (λ u w'. Complete w') (IsSafe names) (run client env names fuel w)
        (λ u w' c. c.1) (run-Leaves seals fuel w (begun w none_removed loaded formed))

  -- A backup that returns no error, from such a beginning, has put a completed state on the disk in
  -- which every volume is uploaded and the manifest is used up.
  pub run-IsComplete :
      Seals
      → (fuel : ℕ) (w : Machine R) → w.removals ≡ []
      → w.store.disk names.state_file ≡ some (whole w.store.backup)
      → IsWellFormed w.store.backup
      → (run client env names fuel w).0 ≡ ok tt
      → IsComplete (run client env names fuel w).1
  run-IsComplete seals fuel w none_removed loaded formed good =
      (Leaves-ok (λ u w'. Complete w') (IsSafe names) (run client env names fuel w) tt good
        (run-Leaves seals fuel w (begun w none_removed loaded formed))).0
