-- ===== src/Batch/Run/Removal.antt =====
-- Local files and the state on the disk, through runWithClient of internal/batchupload/batch.go.
use panpack.Base.{
  ℕ, zero, suc, ◌+◌, true, false, ◌≡◌, refl, sym, subst, arith, some, Error, message, Bytes, ok,
  if_intro, ltb, List, [], ◌∷◌, ◌++◌, append_assoc, append-nil, All, All-append,
}
use panpack.Base.Programs.{
  Program, gives, raises, Leaves, Leaves-world, Leaves-ok, then-Leaves, when-Leaves, unless, when,
  lift, ◌>>◌,
}
use panpack.Files.{whole}
use panpack.Baidu.Checksum.{Codec, remote_md5}
use panpack.Baidu.Blocks.{Hashed, hash_file}
use panpack.Batch.{FileRecord, Tally}
use panpack.Batch.Run.{
  UploadClient, Environment, RunConfig, Run, Attempt, completed, failed, check_context, save_files,
  remove_if_present, local_path, attempt_once, finish_file, pause, after_attempt, attempts,
  upload_file, run_file, run_files, run_with_client, ask,
}
use panpack.Batch.Run.Synced.{
  is_uploaded-middle, Grows, is_uploaded-Grows, path_of, Marked, IsSafe, IsSynced, IsSynced-IsSafe,
  save_files-Leaves_of, save_files-Leaves, remove_if_present-Leaves, ask-Leaves, request-Leaves,
  returned-IsSynced, unless-IsSynced, lift-IsSynced, check_context-Leaves, pause-Leaves, Ends,
  Tried, attempt_once-Leaves,
}

module _ {ℓ} {R : Type ℓ} (client : UploadClient R) (codec : Codec) (env : Environment)
    (cfg : RunConfig) where
  module _ (before after : List FileRecord) where
    -- What a file's turn leaves: its record is marked, and nothing is lost.
    abbrev Turned : FileRecord → Run R → Type 0
    Turned r w = (r.uploaded ≡ true) × IsSynced cfg (before ++ (r ∷ after)) w

    abbrev with_record : FileRecord → List FileRecord
    with_record r = before ++ (r ∷ after)

    remove_own :
        (r : FileRecord) (w : Run R)
        → r.uploaded ≡ true
        → IsSynced cfg (with_record r) w
        → Leaves
            (λ u w'. IsSynced cfg (with_record r) w')
            (IsSafe cfg)
            (when cfg.delete_after_verify
              (remove_if_present client codec env cfg (local_path client codec env cfg r))
              w)
    remove_own r w u h =
        when-Leaves (λ u w'. IsSynced cfg (with_record r) w') (IsSafe cfg) cfg.delete_after_verify
          (remove_if_present client codec env cfg (local_path client codec env cfg r)) w
          (λ yes.
            remove_if_present-Leaves client codec env cfg (local_path client codec env cfg r)
              (with_record r) w h (is_uploaded-middle client codec env cfg before after r u))
          (λ no. h)

    finish_file-Leaves :
        (r r' : FileRecord) (w : Run R)
        → IsSynced cfg (with_record r) w
        → Grows r r'
        → r'.uploaded ≡ true
        → Leaves Turned (IsSafe cfg) (finish_file client codec env cfg before r' after w)
    unfolding finish_file
    finish_file-Leaves r r' w h g u =
        then-Leaves (λ u w'. IsSynced cfg (with_record r') w') Turned (IsSafe cfg)
          (save_files client codec env cfg false (with_record r') w) _
          (save_files-Leaves client codec env cfg false (with_record r) (with_record r') w h
            (λ p. is_uploaded-Grows (path_of cfg) p before after r r' g))
          λ saved w1 h1.
            then-Leaves (λ u w'. IsSynced cfg (with_record r') w') Turned (IsSafe cfg) _ _
              (remove_own r' w1 u h1) λ removed w2 h2. gives Turned (IsSafe cfg) r' w2 (u, h2)

    after_attempt-Leaves :
        (r : FileRecord) (k : ℕ) (o : Attempt) (again : Error → Program (Run R) FileRecord)
        (w : Run R)
        → Ends client codec env cfg (with_record r) r o
        → IsSynced cfg (with_record r) w
        → ((e : Error) (w' : Run R)
            → IsSynced cfg (with_record r) w'
            → Leaves Turned (IsSafe cfg) (again e w'))
        → Leaves Turned (IsSafe cfg) (after_attempt client codec env cfg before after k o again w)
    unfolding after_attempt
    after_attempt-Leaves r k (completed r') again w (g, u) h more = finish_file-Leaves r r' w h g u
    after_attempt-Leaves r k (failed e) again w o h more =
        then-Leaves (λ u w'. IsSynced cfg (with_record r) w') Turned (IsSafe cfg)
          (when (ltb k cfg.max_file_attempts) (pause client codec env cfg k) w) _
          (when-Leaves (λ u w'. IsSynced cfg (with_record r) w') (IsSafe cfg)
            (ltb k cfg.max_file_attempts) (pause client codec env cfg k) w
            (λ yes. pause-Leaves client codec env cfg (with_record r) k w h) (λ no. h))
          (λ waited. more e)

    attempts-Leaves :
        (left k : ℕ) (r : FileRecord) (h : Hashed) (last : Error) (w : Run R)
        → IsSynced cfg (with_record r) w
        → Leaves Turned (IsSafe cfg) (attempts client codec env cfg left k before r after h last w)
    unfolding attempts
    attempts-Leaves zero k r h last w s =
        raises Turned (IsSafe cfg) _ w (IsSynced-IsSafe cfg (with_record r) w s)
    attempts-Leaves (suc left) k r h last w s =
        let r1 = record r { attempts = r.attempts + 1 } in
        let grown : Grows r r1 = record { same_name = refl; still = λ u. u } in
        then-Leaves (λ u w'. IsSynced cfg (with_record r) w') Turned (IsSafe cfg)
          (check_context client codec env cfg w) _
          (check_context-Leaves client codec env cfg (with_record r) w s)
          λ live w1 s1.
            then-Leaves (λ u w'. IsSynced cfg (with_record r1) w') Turned (IsSafe cfg)
              (save_files client codec env cfg false (with_record r1) w1) _
              (save_files-Leaves client codec env cfg false (with_record r) (with_record r1) w1 s1
                (λ p. is_uploaded-Grows (path_of cfg) p before after r r1 grown))
              λ saved w2 s2.
                then-Leaves (Tried client codec env cfg (with_record r1) r1) Turned (IsSafe cfg)
                  (attempt_once client codec env cfg r1 h w2) _
                  (attempt_once-Leaves client codec env cfg (with_record r1) r1 h w2 s2)
                  λ o w3 t.
                    after_attempt-Leaves r1 k o _ w3 t.0 t.1
                      (λ e w4 s4. attempts-Leaves left (k + 1) r1 h e w4 s4)

    hashed-Leaves :
        (r : FileRecord) (h : Hashed) (composite : Bytes) (w : Run R)
        → IsSynced cfg (with_record r) w
        → let r1 = record r { md5 = h.full_md5; remote_md5 = composite } in
          Leaves Turned (IsSafe cfg) (
            (save_files client codec env cfg false (with_record r1)
                >> attempts client codec env cfg cfg.max_file_attempts 1 before r1 after h
                    (message "no attempt"))
              w)
    hashed-Leaves r h composite w s =
        let r1 = record r { md5 = h.full_md5; remote_md5 = composite } in
        let grown : Grows r r1 = record { same_name = refl; still = λ u. u } in
        then-Leaves (λ u w'. IsSynced cfg (with_record r1) w') Turned (IsSafe cfg)
          (save_files client codec env cfg false (with_record r1) w) _
          (save_files-Leaves client codec env cfg false (with_record r) (with_record r1) w s
            (λ p. is_uploaded-Grows (path_of cfg) p before after r r1 grown))
          λ saved w1 s1. attempts-Leaves cfg.max_file_attempts 1 r1 h (message "no attempt") w1 s1

    upload_file-Leaves :
        (r : FileRecord) (w : Run R)
        → IsSynced cfg (with_record r) w
        → Leaves Turned (IsSafe cfg) (upload_file client codec env cfg before r after w)
    unfolding upload_file
    upload_file-Leaves r w s =
        let K : List FileRecord → Run R → Type 0 = λ files w'. IsSynced cfg files w' in
        then-Leaves (λ u. K (with_record r)) Turned (IsSafe cfg)
          (check_context client codec env cfg w) _
          (check_context-Leaves client codec env cfg (with_record r) w s)
          λ live w1 s1.
            then-Leaves (λ u. K (with_record r)) Turned (IsSafe cfg)
              (ask (λ t. env.lstat t (local_path client codec env cfg r)) w1) _
              (ask-Leaves client codec env cfg (with_record r)
                (λ t. env.lstat t (local_path client codec env cfg r)) w1 s1)
              λ found w2 s2.
                then-Leaves (λ u. K (with_record r)) Turned (IsSafe cfg) (lift found w2) _
                  (lift-IsSynced client codec env cfg (with_record r) found w2 s2)
                  λ info w3 s3.
                    then-Leaves (λ u. K (with_record r)) Turned (IsSafe cfg) (unless _ _ w3) _
                      (unless-IsSynced client codec env cfg (with_record r) _ _ w3 s3)
                      λ same w4 s4.
                        then-Leaves (λ u. K (with_record r)) Turned (IsSafe cfg)
                          (ask (λ t. env.read t (local_path client codec env cfg r)) w4) _
                          (ask-Leaves client codec env cfg (with_record r)
                            (λ t. env.read t (local_path client codec env cfg r)) w4 s4)
                          λ content w5 s5.
                            then-Leaves (λ u. K (with_record r)) Turned (IsSafe cfg)
                              (lift (hash_file codec cfg.slice_size content) w5) _
                              (lift-IsSynced client codec env cfg (with_record r) _ w5 s5)
                              λ h w6 s6.
                                then-Leaves (λ u. K (with_record r)) Turned (IsSafe cfg)
                                  (unless _ _ w6) _
                                  (unless-IsSynced client codec env cfg (with_record r) _ _ w6 s6)
                                  λ stable w7 s7.
                                    then-Leaves (λ u. K (with_record r)) Turned (IsSafe cfg)
                                      (lift (remote_md5 codec h.blocks) w7) _
                                      (lift-IsSynced client codec env cfg (with_record r) _ w7 s7)
                                      λ composite w8 s8. hashed-Leaves r h composite w8 s8

    run_file-Leaves :
        (r : FileRecord) (w : Run R)
        → IsSynced cfg (with_record r) w
        → Leaves Turned (IsSafe cfg) (run_file client codec env cfg before r after w)
    unfolding run_file
    run_file-Leaves r w s =
        if_intro {A = Program (Run R) FileRecord} (λ m. Leaves Turned (IsSafe cfg) (m w)) r.uploaded
          (λ done.
            then-Leaves (λ u w'. IsSynced cfg (with_record r) w') Turned (IsSafe cfg) _ _
              (remove_own r w done s) λ removed w1 s1. gives Turned (IsSafe cfg) r w1 (done, s1))
          (λ pending. upload_file-Leaves r w s)

  abbrev Finished : List FileRecord → Run R → Type 0
  Finished files w = All (λ r. r.uploaded ≡ true) files × IsSynced cfg files w

  run_files-Leaves :
      (before rest : List FileRecord) (w : Run R)
      → All (λ r. r.uploaded ≡ true) before
      → IsSynced cfg (before ++ rest) w
      → Leaves Finished (IsSafe cfg) (run_files client codec env cfg before rest w)
  unfolding run_files
  run_files-Leaves before [] w u s =
      gives Finished (IsSafe cfg) before w
        (u, subst (λ fs. IsSynced cfg fs w) (append-nil before) s)
  run_files-Leaves before (r ∷ rest) w u s =
      then-Leaves (Turned before rest) Finished (IsSafe cfg) _ _ (run_file-Leaves before rest r w s)
        λ r' w1 t.
          run_files-Leaves (before ++ (r' ∷ [])) rest w1
            (All-append (λ r. r.uploaded ≡ true) before (r' ∷ []) u (t.0, tt))
            (subst (λ fs. IsSynced cfg fs w1) (sym (append_assoc before (r' ∷ []) rest)) t.1)

  -- A run that is complete: the file of the state is the state, which is marked as completed and has
  -- every file uploaded.
  pub record IsComplete (w : Run R) : Type 0 where
    pub holds : w.disk cfg.state_file ≡ some (whole w.state)
    pub marked : w.state.completed ≡ true
    pub uploaded : All (λ r. r.uploaded ≡ true) w.state.files

  abbrev Complete : Run R → Type 0
  Complete w = IsComplete w × IsSafe cfg w

  save_files-Complete :
      (files : List FileRecord) (w : Run R)
      → Finished files w
      → Leaves (λ u w'. Complete w') (IsSafe cfg) (save_files client codec env cfg true files w)
  save_files-Complete files w (u, h) =
      save_files-Leaves_of client codec env cfg Complete true files files w h (λ p m. m)
        λ d put synced. (
          record { holds = put; marked = ground arith; uploaded = u },
          IsSynced-IsSafe cfg files _ synced,
        )

  run_with_client-Leaves :
      (w : Run R)
      → IsSynced cfg w.state.files w
      → Leaves (λ t w'. Complete w') (IsSafe cfg) (run_with_client client codec env cfg w)
  unfolding run_with_client
  run_with_client-Leaves w h =
      let files = w.state.files in
      then-Leaves (λ u w'. IsSynced cfg files w') (λ t w'. Complete w') (IsSafe cfg) _ _
        (request-Leaves client codec env cfg files (client.ensure_dir cfg.remote_dir) w h)
        λ e w1 s1.
          then-Leaves (λ u w'. IsSynced cfg files w') (λ t w'. Complete w') (IsSafe cfg) _ _
            (returned-IsSynced client codec env cfg files e w1 s1)
            λ ok_dir w2 s2.
              then-Leaves Finished (λ t w'. Complete w') (IsSafe cfg) _ _
                (run_files-Leaves [] files w2 tt s2)
                λ done w3 f.
                  then-Leaves (λ u w'. Complete w') (λ t w'. Complete w') (IsSafe cfg) _ _
                    (save_files-Complete done w3 f)
                    λ saved w4 c. gives (λ t w'. Complete w') (IsSafe cfg) _ w4 c

  started :
      (w : Run R)
      → w.removals ≡ []
      → w.disk cfg.state_file ≡ some (whole w.state)
      → IsSynced cfg w.state.files w
  started w none_removed loaded = record {
    on_disk = w.state;
    holds = loaded;
    in_memory = subst (All (Marked cfg w.state.files)) (sym none_removed) tt;
    saved = λ p m. m;
    same = refl;
  }

  -- A run that begins with its state on the disk and no removal, however its calls and the remote side
  -- answer and wherever it stops: the state file holds a whole state, in which every local file whose
  -- removal was asked for is marked as uploaded.
  pub run_with_client-IsSafe :
      (w : Run R)
      → w.removals ≡ []
      → w.disk cfg.state_file ≡ some (whole w.state)
      → IsSafe cfg (run_with_client client codec env cfg w).1
  run_with_client-IsSafe w none_removed loaded =
      Leaves-world (λ t w'. Complete w') (IsSafe cfg) (run_with_client client codec env cfg w)
        (λ t w' c. c.1) (run_with_client-Leaves w (started w none_removed loaded))

  -- A run that returns no error, from such a beginning, has put a completed state on the disk in which
  -- every file is uploaded.
  pub run_with_client-IsComplete :
      (w : Run R)
      → w.removals ≡ []
      → w.disk cfg.state_file ≡ some (whole w.state)
      → (t : Tally) → (run_with_client client codec env cfg w).0 ≡ ok t
      → IsComplete (run_with_client client codec env cfg w).1
  run_with_client-IsComplete w none_removed loaded t e =
      (Leaves-ok (λ t w'. Complete w') (IsSafe cfg) (run_with_client client codec env cfg w) t e
        (run_with_client-Leaves w (started w none_removed loaded))).0
