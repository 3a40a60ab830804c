-- ===== src/Store/Invariant.antt =====
-- Well-formed states of a backup, and sequences of methods whose saves may fail:
-- internal/state/state.go.
use panpack.Base.{
  ℕ, suc, ◌+◌, String, Bool, true, false, Bool-cases, Option, none, some, List, [], ◌∷◌, ◌++◌, ◌≡◌,
  ◌≢◌, ◌∙◌, ◌⊎◌, inl, inr, arith, Error, All, All-append, length, refl, not, sym, ap, subst,
  if_intro, ◌==◌,
}
use panpack.Files.{Outcomes}
use panpack.Store.{
  Volume, Backup, World, save_locked, commit, commit_found, add_sealed, increment_attempt,
  mark_uploaded, mark_complete, mark_archive_done, update_first, attempted, marked, has_index,
  all_uploaded, fresh,
}

-- The volumes are numbered in order from `i`, and the next number is `n`.
abbrev pub Numbered : ℕ → List Volume → ℕ → Type 0
Numbered i [] n = i ≡ n
Numbered i (v ∷ vs) n = (v.index ≡ i) × Numbered (suc i) vs n

-- A volume that still has to be uploaded has the block hashes that a resumed upload needs.
abbrev pub Resumable : Volume → Type 0
Resumable v = (v.uploaded ≡ true) ⊎ (v.block_md5s ≢ [])

-- A completed backup has every volume uploaded and the manifest used up.
abbrev Finished : Bool → List Volume → Bool → Type 0
Finished true vs is_done = (all_uploaded vs ≡ true) × (is_done ≡ true)
Finished false vs is_done = Unit

pub record IsWellFormed (b : Backup) : Type 0 where
  pub numbered : Numbered 0 b.volumes b.cursor.next_volume
  pub resumable : All Resumable b.volumes
  pub finished : Finished b.completed b.volumes b.cursor.is_done

-- What the packer gives of a sealed volume.
pub record IsSealed (v : Volume) : Type 0 where
  pub next : v.cursor_after.next_volume ≡ suc v.index
  pub hashed : v.block_md5s ≢ []

Numbered-append :
    (i : ℕ) (vs : List Volume) (n : ℕ) (v : Volume)
    → Numbered i vs n
    → v.index ≡ n
    → Numbered i (vs ++ (v ∷ [])) (suc n)
Numbered-append i [] n v h e = ground arith
Numbered-append i (u ∷ vs) n v h e = (h.0, Numbered-append (suc i) vs n v h.1 e)

Numbered-le : (i : ℕ) (vs : List Volume) (n : ℕ) → Numbered i vs n → n ≡ i + length vs
Numbered-le i [] n h = omega arith
Numbered-le i (v ∷ vs) n h = omega (arith, Numbered-le (suc i) vs n h.1)

-- No volume has the next number, so the second guard of `AddSealed` never fires.
has_index-next : (i : ℕ) (vs : List Volume) (n : ℕ) → Numbered i vs n → has_index n vs ≡ false
unfolding has_index
has_index-next i [] n h = refl
has_index-next i (v ∷ vs) n h =
    ground (arith, has_index-next (suc i) vs n h.1, Numbered-le (suc i) vs n h.1)

-- `us` is `vs` with nothing lost: the numbers, the hashes, the marks of upload.
record Kept (i : ℕ) (vs us : List Volume) : Type 0 where
  numbers : (n : ℕ) → Numbered i vs n → Numbered i us n
  hashes : All Resumable vs → All Resumable us
  marks : all_uploaded vs ≡ true → all_uploaded us ≡ true

abbrev IfFound : (List Volume → Type 0) → Option (List Volume) → Type 0
IfFound P none = Unit
IfFound P (some us) = P us

-- A change of one volume that loses nothing.
record KeepsVolume (f : Volume → Volume) : Type 0 where
  index : (v : Volume) → (f v).index ≡ v.index
  hashes : (v : Volume) → Resumable v → Resumable (f v)
  mark : (v : Volume) → v.uploaded ≡ true → (f v).uploaded ≡ true

attempted-KeepsVolume : KeepsVolume attempted
attempted-KeepsVolume = record { index = λ v. refl; hashes = λ v h. h; mark = λ v h. h }

marked-KeepsVolume : (now : ℕ) → KeepsVolume (marked now)
marked-KeepsVolume now = record { index = λ v. refl; hashes = λ v h. inl refl; mark = λ v h. refl }

module _ (f : Volume → Volume) (keeps : KeepsVolume f) where
  Kept-head : (i : ℕ) (v : Volume) (vs : List Volume) → Kept i (v ∷ vs) (f v ∷ vs)
  unfolding all_uploaded
  Kept-head i v vs = record {
    numbers = λ n h. (keeps.index v ∙ h.0, h.1);
    hashes = λ h. (keeps.hashes v h.0, h.1);
    marks = λ h. ground (arith, keeps.mark v);
  }

  Kept-tail :
      (i : ℕ) (v : Volume) (vs : List Volume) (found : Option (List Volume))
      → IfFound (Kept (suc i) vs) found
      → IfFound (Kept i (v ∷ vs)) (elim found [ none ↦ none | some us ↦ some (v ∷ us) ])
  unfolding all_uploaded
  Kept-tail i v vs none k = tt
  Kept-tail i v vs (some us) k = record {
    numbers = λ n h. (h.0, k.numbers n h.1);
    hashes = λ h. (h.0, k.hashes h.1);
    marks = λ h. ground (arith, k.marks);
  }

  update_first-Kept : (i j : ℕ) (vs : List Volume) → IfFound (Kept i vs) (update_first j f vs)
  unfolding update_first
  update_first-Kept i j [] = tt
  update_first-Kept i j (v ∷ vs) = elim (Bool-cases (v.index == j)) [
    | inl here ↦ rw here (Kept-head i v vs)
    | inr further ↦
        rw further (Kept-tail i v vs (update_first j f vs) (update_first-Kept (suc i) j vs))
  ]

Finished-volumes :
    (c : Bool) (vs us : List Volume) (is_done : Bool)
    → (all_uploaded vs ≡ true → all_uploaded us ≡ true)
    → Finished c vs is_done
    → Finished c us is_done
Finished-volumes true vs us d marks h = (marks h.0, h.1)
Finished-volumes false vs us d marks h = tt

Finished-done :
    (c : Bool) (vs : List Volume) (is_done : Bool) → Finished c vs is_done → Finished c vs true
Finished-done true vs d h = (h.0, refl)
Finished-done false vs d h = tt

abbrev Leaves : Option Error × World → Type 0
Leaves r = IsWellFormed r.1.backup

module _ (path : String) (io : Outcomes) (now : ℕ) where
  commit-IsWellFormed :
      (b : Backup) (w : World) → IsWellFormed b → IsWellFormed (commit path io now b w).1.backup
  unfolding commit save_locked
  commit-IsWellFormed b w h = record {
    numbered = h.numbered;
    resumable = h.resumable;
    finished = h.finished;
  }

  commit_found-IsWellFormed :
      (found : Option (List Volume)) (w : World)
      → IfFound (Kept 0 w.backup.volumes) found
      → IsWellFormed w.backup
      → IsWellFormed (commit_found path io now found w).1.backup
  unfolding commit_found
  commit_found-IsWellFormed none w k h = h
  commit_found-IsWellFormed (some us) w k h =
      commit-IsWellFormed (record w.backup { volumes = us }) w
        (record {
          numbered = k.numbers _ h.numbered;
          resumable = k.hashes h.resumable;
          finished =
              Finished-volumes w.backup.completed w.backup.volumes us w.backup.cursor.is_done
                k.marks h.finished;
        })

  increment_attempt-IsWellFormed :
      (i : ℕ) (w : World)
      → IsWellFormed w.backup
      → IsWellFormed (increment_attempt path io now i w).1.backup
  unfolding increment_attempt
  increment_attempt-IsWellFormed i w =
      commit_found-IsWellFormed _ w
        (update_first-Kept attempted attempted-KeepsVolume 0 i w.backup.volumes)

  mark_uploaded-IsWellFormed :
      (i : ℕ) (w : World)
      → IsWellFormed w.backup
      → IsWellFormed (mark_uploaded path io now i w).1.backup
  unfolding mark_uploaded
  mark_uploaded-IsWellFormed i w =
      commit_found-IsWellFormed _ w
        (update_first-Kept (marked now) (marked-KeepsVolume now) 0 i w.backup.volumes)

  sealed-IsWellFormed :
      (v : Volume) (b : Backup)
      → IsSealed v
      → b.completed ≡ false
      → v.index ≡ b.cursor.next_volume
      → IsWellFormed b
      → IsWellFormed (record b { cursor = v.cursor_after; volumes = b.volumes ++ (v ∷ []) })
  sealed-IsWellFormed v b s open_still e h = record {
    numbered =
        subst (λ n. Numbered 0 (b.volumes ++ (v ∷ [])) n) (sym (s.next ∙ ap suc e))
          (Numbered-append 0 b.volumes b.cursor.next_volume v h.numbered e);
    resumable = All-append Resumable b.volumes (v ∷ []) h.resumable (inr s.hashed, tt);
    finished = rw open_still tt;
  }

  add_sealed-IsWellFormed :
      (v : Volume) (w : World)
      → IsSealed v
      → w.backup.completed ≡ false
      → IsWellFormed w.backup
      → IsWellFormed (add_sealed path io now v w).1.backup
  unfolding add_sealed
  add_sealed-IsWellFormed v w s o h =
      if_intro Leaves (not (v.index == w.backup.cursor.next_volume)) (λ other. h)
        λ same.
          if_intro Leaves (has_index v.index w.backup.volumes) (λ present. h)
            λ absent. commit-IsWellFormed _ w (sealed-IsWellFormed v w.backup s o (ground arith) h)

  mark_complete-IsWellFormed :
      (w : World) → IsWellFormed w.backup → IsWellFormed (mark_complete path io now w).1.backup
  unfolding mark_complete
  mark_complete-IsWellFormed w h =
      if_intro Leaves (not (all_uploaded w.backup.volumes)) (λ pending. h)
        λ every.
          if_intro Leaves (not w.backup.cursor.is_done) (λ more. h)
            λ over.
              commit-IsWellFormed (record w.backup { completed = true }) w
                (record {
                  numbered = h.numbered;
                  resumable = h.resumable;
                  finished = (ground arith, ground arith);
                })

  mark_archive_done-IsWellFormed :
      (w : World) → IsWellFormed w.backup → IsWellFormed (mark_archive_done path io now w).1.backup
  unfolding mark_archive_done
  mark_archive_done-IsWellFormed w h =
      commit-IsWellFormed (record w.backup { cursor = record w.backup.cursor { is_done = true } }) w
        (record {
          numbered = h.numbered;
          resumable = h.resumable;
          finished =
              Finished-done w.backup.completed w.backup.volumes w.backup.cursor.is_done h.finished;
        })

-- The methods under the conditions that the backup loop meets: a sealed volume is added only while
-- the backup is not completed. How the saves end is up to the environment.
pub data Step (path : String) : World → World → Type 0 where
  seal :
      {w : World} (io : Outcomes) (now : ℕ) (v : Volume)
      → IsSealed v
      → w.backup.completed ≡ false
      → Step path w (add_sealed path io now v w).1
  attempt :
      {w : World} (io : Outcomes) (now i : ℕ) → Step path w (increment_attempt path io now i w).1
  upload : {w : World} (io : Outcomes) (now i : ℕ) → Step path w (mark_uploaded path io now i w).1
  complete : {w : World} (io : Outcomes) (now : ℕ) → Step path w (mark_complete path io now w).1
  archive_done :
      {w : World} (io : Outcomes) (now : ℕ) → Step path w (mark_archive_done path io now w).1

pub data Reach (path : String) (w : World) : World → Type 0 where
  here : Reach path w w
  next : {u v : World} → Reach path w u → Step path u v → Reach path w v

Step-IsWellFormed :
    (path : String) {w u : World} → Step path w u → IsWellFormed w.backup → IsWellFormed u.backup
Step-IsWellFormed path (seal {w} io now v s o) h = add_sealed-IsWellFormed path io now v w s o h
Step-IsWellFormed path (attempt {w} io now i) h = increment_attempt-IsWellFormed path io now i w h
Step-IsWellFormed path (upload {w} io now i) h = mark_uploaded-IsWellFormed path io now i w h
Step-IsWellFormed path (complete {w} io now) h = mark_complete-IsWellFormed path io now w h
Step-IsWellFormed path (archive_done {w} io now) h = mark_archive_done-IsWellFormed path io now w h

-- Every state that the methods reach from a well-formed one is well formed, as long as only volumes with
-- block hashes whose cursor counts one volume more are added, and none once the backup is completed:
-- its volumes are numbered without a gap up to the cursor's next volume, a pending volume has its block
-- hashes, and a completed backup has every volume uploaded and the manifest used up.
pub Reach-IsWellFormed :
    (path : String) {w u : World} → IsWellFormed w.backup → Reach path w u → IsWellFormed u.backup
Reach-IsWellFormed path h here = h
Reach-IsWellFormed path h (next r s) = Step-IsWellFormed path s (Reach-IsWellFormed path h r)

-- What `Open` writes first is well formed.
pub fresh-IsWellFormed :
    (snapshot_id source remote_dir : String) (now : ℕ)
    → IsWellFormed (fresh snapshot_id source remote_dir now)
fresh-IsWellFormed snapshot_id source remote_dir now = record {
  numbered = refl;
  resumable = tt;
  finished = tt;
}

open-Finished :
    (completed : Bool) (vs : List Volume) (is_done : Bool)
    → Finished completed vs is_done
    → is_done ≡ false
    → completed ≡ false
open-Finished false vs is_done f h = refl
open-Finished true vs is_done f h = cc f.1

-- A backup whose cursor is not at the end is not completed.
pub IsWellFormed-open :
    (b : Backup) → IsWellFormed b → b.cursor.is_done ≡ false → b.completed ≡ false
IsWellFormed-open b h e = open-Finished b.completed b.volumes b.cursor.is_done h.finished e

-- A completed one has every volume uploaded and its cursor at the end.
pub IsWellFormed-completed :
    (b : Backup)
    → IsWellFormed b
    → b.completed ≡ true
    → (all_uploaded b.volumes ≡ true) × (b.cursor.is_done ≡ true)
IsWellFormed-completed b h e = subst (λ c. Finished c b.volumes b.cursor.is_done) e h.finished
