-- ===== src/Backup/Fuel.antt =====
-- How many rounds the packing loop of Run in internal/backup/backup.go makes.
use panpack.Base.{
  ℕ, zero, suc, ◌+◌, ◌<◌, Bool, true, false, ◌≡◌, refl, sym, ap, subst, ◌∙◌, arith, if_intro,
  if◌then◌else◌, none, Result, ok, err, List, [], ◌∷◌, String,
}
use panpack.Base.Programs.{
  Program, continue, ◌>>◌, lift, gives, Leaves, then-Leaves, lift-Leaves, returned-Leaves,
  unless-Leaves, when-Leaves,
}
use panpack.Store.{Cursor, Volume}
use panpack.Store.Durable.{Method, seal, attempt, upload, complete, call}
use panpack.Store.Staged.{seal-cursor, attempt-cursor, upload-cursor}
use panpack.Backup.{
  Uploader, Names, Environment, Machine, Packed, sealed, exhausted, broken, packed_of, ask, request,
  store_call, cursor, remove, removed, upload_one, upload_pending_one, upload_each, upload_pending,
  volumes, upload_metadata, after_pack, pack_rounds, run,
}

module _ {ℓ} {R : Type ℓ} (client : Uploader R) (env : Environment) (names : Names) where
  -- Two programs that agree from where a first one leads.
  continue-agrees {κ μ} :
      {A : Type κ} {B : Type μ} (P : A → Machine R → Type 0) (m : Result A × Machine R)
      (f g : A → Program (Machine R) B)
      → Leaves P (λ w. Unit {0}) m
      → ((a : A) (w : Machine R) → P a w → f a w ≡ g a w)
      → continue f m ≡ continue g m
  unfolding Leaves continue
  continue-agrees P (ok a, w) f g h k = k a w h
  continue-agrees P (err e, w) f g h k = refl

  -- The cursor is this one.
  abbrev At : Cursor → Machine R → Type 0
  At c w = w.store.backup.cursor ≡ c

  ask-At {κ} :
      {A : Type κ} (P : A → Type 0) (f : ℕ → A) (c : Cursor) (w : Machine R)
      → ((t : ℕ) → P (f t))
      → At c w
      → Leaves (λ a w'. P a × At c w') (λ w. Unit {0}) (ask f w)
  unfolding ask
  ask-At P f c w always h = gives (λ a w'. P a × At c w') (λ w. Unit {0}) _ _ (always w.tick, h)

  request-At {κ} :
      {A : Type κ} (f : R → A × R) (c : Cursor) (w : Machine R)
      → At c w
      → Leaves (λ a w'. At c w') (λ w. Unit {0}) (request f w)
  unfolding request
  request-At f c w h = gives (λ a w'. At c w') (λ w. Unit {0}) _ _ h

  store_call-At :
      (m : Method) (c : Cursor) (w : Machine R)
      → ((call names.state_file (env.outcomes w.tick) (env.now w.tick) m w.store).0 ≡ none
          → (call names.state_file (env.outcomes w.tick) (env.now w.tick) m w.store).1.backup.cursor
            ≡ c)
      → Leaves (λ u w'. At c w') (λ w. Unit {0}) (store_call client env names m w)
  unfolding store_call
  store_call-At m c w h = returned-Leaves (λ u w'. At c w') (λ w. Unit {0}) _ _ (λ good. h good) tt

  remove-At :
      (tolerant : Bool) (path : String) (c : Cursor) (w : Machine R)
      → At c w
      → Leaves (λ u w'. At c w') (λ w. Unit {0}) (remove client env names tolerant path w)
  unfolding remove lift
  remove-At tolerant path c w h =
      lift-Leaves (λ u w'. At c w') (λ w. Unit {0}) (removed tolerant (env.remove w.tick path)) _
        (λ u good. h) tt

  upload_one-At :
      (v : Volume) (c : Cursor) (w : Machine R)
      → At c w
      → Leaves (λ u w'. At c w') (λ w. Unit {0}) (upload_one client env names v w)
  unfolding upload_one
  upload_one-At v c w h =
      let E : Machine R → Type 0 = λ w. Unit {0} in
      let P : Unit {0} → Machine R → Type 0 = λ u w'. At c w' in
      then-Leaves P P E _ _
        (store_call-At (attempt v.index) c w (λ good.
          attempt-cursor names.state_file (env.outcomes w.tick) (env.now w.tick) v.index w.store
          ∙ h))
        λ tried w1 h1.
          then-Leaves (λ s w'. At c w') P E _ _ (request-At (client.upload_volume v) c w1 h1)
            λ stats w2 h2.
              then-Leaves (λ s w'. At c w') P E _ _
                (lift-Leaves (λ s w'. At c w') E stats w2 (λ s good. h2) tt)
                λ sent w3 h3.
                  then-Leaves P P E _ _
                    (store_call-At (upload v.index) c w3 (λ good.
                      upload-cursor names.state_file (env.outcomes w3.tick) (env.now w3.tick)
                        v.index w3.store
                      ∙ h3))
                    λ done w4 h4. remove-At true v.local_path c w4 h4

  upload_pending_one-At :
      (v : Volume) (c : Cursor) (w : Machine R)
      → At c w
      → Leaves (λ u w'. At c w') (λ w. Unit {0}) (upload_pending_one client env names v w)
  unfolding upload_pending_one
  upload_pending_one-At v c w h =
      let E : Machine R → Type 0 = λ w. Unit {0} in
      let P : Unit {0} → Machine R → Type 0 = λ u w'. At c w' in
      if_intro {A = Program (Machine R) (Unit {0})} (λ m. Leaves P E (m w)) v.uploaded
        (λ done.
          then-Leaves (λ b w'. Unit {0} × At c w') P E _ _
            (ask-At (λ b. Unit {0}) (λ t. env.exists t v.local_path) c w (λ t. tt) h)
            λ staged w1 (t1, h1).
              when-Leaves P E staged (remove client env names false v.local_path) w1
                (λ here. remove-At false v.local_path c w1 h1) (λ gone. h1))
        (λ waiting.
          then-Leaves P P E _ _ (unless-Leaves P E _ _ w (λ good. h) tt)
            λ hashed w1 h1. upload_one-At v c w1 h1)

  upload_each-At :
      (vs : List Volume) (c : Cursor) (w : Machine R)
      → At c w
      → Leaves (λ u w'. At c w') (λ w. Unit {0}) (upload_each client env names vs w)
  unfolding upload_each
  upload_each-At [] c w h = gives (λ u w'. At c w') (λ w. Unit {0}) tt w h
  upload_each-At (v ∷ vs) c w h =
      then-Leaves (λ u w'. At c w') (λ u w'. At c w') (λ w. Unit {0}) _ _
        (upload_pending_one-At v c w h) λ sent w1 h1. upload_each-At vs c w1 h1

  volumes-At :
      (c : Cursor) (w : Machine R)
      → At c w
      → Leaves (λ vs w'. At c w') (λ w. Unit {0}) (volumes client env names w)
  unfolding volumes
  volumes-At c w h = gives (λ vs w'. At c w') (λ w. Unit {0}) _ w h

  upload_pending-At :
      (c : Cursor) (w : Machine R)
      → At c w
      → Leaves (λ u w'. At c w') (λ w. Unit {0}) (upload_pending client env names w)
  unfolding upload_pending
  upload_pending-At c w h =
      then-Leaves (λ vs w'. At c w') (λ u w'. At c w') (λ w. Unit {0}) _ _ (volumes-At c w h)
        λ vs w1 h1. upload_each-At vs c w1 h1

  -- A packer that gets on: by some measure of the cursor, what is left is less after a volume.
  module _ (left : Cursor → ℕ) where
    abbrev pub Shrinks : Cursor → Packed → Type 0
    Shrinks c (sealed v) = left v.cursor_after < left c
    Shrinks c exhausted = Unit
    Shrinks c (broken e) = Unit

    abbrev pub GetsOn : Type 0
    GetsOn = (t : ℕ) (c : Cursor) (n : ℕ) → Shrinks c (packed_of (env.pack_next t c n))

    after_pack-agrees :
        (packed : Packed) (c : Cursor) (again more : Program (Machine R) (Unit {0})) (w : Machine R)
        → Shrinks c packed
        → ((w' : Machine R) → left w'.store.backup.cursor < left c → again w' ≡ more w')
        → after_pack client env names packed again w ≡ after_pack client env names packed more w
    unfolding after_pack
    after_pack-agrees exhausted c again more w s h = refl
    after_pack-agrees (broken e) c again more w s h = refl
    after_pack-agrees (sealed v) c again more w s h =
        let P : Unit {0} → Machine R → Type 0 = λ u w'. At v.cursor_after w' in
        continue-agrees P _ _ _
          (store_call-At (seal v) v.cursor_after w
            (seal-cursor names.state_file (env.outcomes w.tick) (env.now w.tick) v w.store))
          λ added w1 h1.
            continue-agrees P _ _ _ (upload_one-At v v.cursor_after w1 h1)
              λ sent w2 h2. h w2 (subst (λ k. left k < left c) (sym h2) s)

    if-agrees :
        (b : Bool) (x y z : Program (Machine R) (Unit {0})) (w : Machine R)
        → (b ≡ false → y w ≡ z w)
        → (if b then x else y) w ≡ (if b then x else z) w
    if-agrees true x y z w h = refl
    if-agrees false x y z w h = h refl

    cursor-At :
        (fuel : ℕ) (w : Machine R)
        → left w.store.backup.cursor < suc fuel
        → Leaves (λ c w'. At c w' × (left c < suc fuel)) (λ w. Unit {0}) (cursor client env names w)
    unfolding cursor
    cursor-At fuel w h = gives (λ c w'. At c w' × (left c < suc fuel)) (λ w. Unit {0}) _ w (refl, h)

    pack_rounds-agrees :
        GetsOn
        → (fuel : ℕ) (w : Machine R) → left w.store.backup.cursor < fuel
        → pack_rounds client env names fuel w ≡ pack_rounds client env names (suc fuel) w
    unfolding pack_rounds
    pack_rounds-agrees gets_on zero w h = absurd (omega arith)
    pack_rounds-agrees gets_on (suc fuel) w h =
        continue-agrees (λ c w'. At c w' × (left c < suc fuel)) (cursor client env names w) _ _
          (cursor-At fuel w h)
          λ current w1 (h1, lt). if-agrees current.is_done _ _ _ w1 λ more.
            continue-agrees (λ p w'. Unit {0} × At current w') _ _ _
              (ask-At (λ p. Unit {0}) env.plan current w1 (λ t. tt) h1)
              λ planned w2 (t2, h2).
                continue-agrees (λ n w'. At current w') _ _ _
                  (lift-Leaves (λ n w'. At current w') (λ w. Unit {0}) planned w2 (λ n good. h2) tt)
                  λ target w3 h3.
                    continue-agrees (λ r w'. Shrinks current (packed_of r) × At current w') _ _ _
                      (ask-At (λ r. Shrinks current (packed_of r))
                        (λ t. env.pack_next t current target) current w3
                        (λ t. gets_on t current target) h3)
                      λ result w4 (s4, h4).
                        after_pack-agrees (packed_of result) current
                          (pack_rounds client env names fuel)
                          (pack_rounds client env names (suc fuel)) w4 s4
                          λ w5 less. pack_rounds-agrees gets_on fuel w5 (omega arith)

    run_once_more :
        GetsOn
        → (fuel : ℕ) (w : Machine R) → left w.store.backup.cursor < fuel
        → run client env names fuel w ≡ run client env names (suc fuel) w
    unfolding run
    run_once_more gets_on fuel w h =
        continue-agrees (λ u w'. At w.store.backup.cursor w') _ _ _
          (upload_pending-At w.store.backup.cursor w refl)
          λ sent w1 h1.
            let lt : left w1.store.backup.cursor < fuel = subst (λ c. left c < fuel) (sym h1) h in
            ap
              (λ m.
                continue
                  (λ done. upload_metadata client env names >> store_call client env names complete)
                  m)
              (pack_rounds-agrees gets_on fuel w1 lt)

    -- With a packer that gets on, by some measure of what is left of the manifest, a backup with more
    -- rounds than are left when it begins has enough: however many more change nothing, whatever the
    -- calls answer.
    pub run-agrees :
        GetsOn
        → (fuel more : ℕ) (w : Machine R) → left w.store.backup.cursor < fuel
        → run client env names (more + fuel) w ≡ run client env names fuel w
    run-agrees gets_on fuel zero w h =
        let none_more : 0 + fuel ≡ fuel = omega arith in
        ap (λ n. run client env names n w) none_more
    run-agrees gets_on fuel (suc more) w h =
        let one_more : suc more + fuel ≡ suc (more + fuel) = omega arith in
        ap (λ n. run client env names n w) one_more
        ∙ (sym (run_once_more gets_on (more + fuel) w (omega arith))
            ∙ run-agrees gets_on fuel more w h)
