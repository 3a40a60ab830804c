-- ===== src/Store/Staged.antt =====
-- Staged volumes in the state: which are listed and which are marked as uploaded, through the methods
-- of internal/state/state.go.
use panpack.Base.{
  ℕ, suc, ◌≤◌, String, str_eq, Bool, true, false, not, ◌&&◌, ◌||◌, ◌≡◌, refl, ap, eq_refl, arith,
  Option, none, some, Error, if_intro, All, All-map, ◌==◌, List, [], ◌∷◌, ◌++◌,
}
use panpack.Files.{Outcomes}
use panpack.Store.{
  Cursor, Volume, World, save_locked, has_index, all_uploaded, update_first, attempted, marked,
  commit, commit_found, add_sealed, increment_attempt, mark_uploaded, mark_complete,
  mark_archive_done,
}
use panpack.Store.Durable.{Method, seal, attempt, upload, complete, archive_done, call}
use panpack.Store.Invariant.{Numbered}

-- Some volume staged under the path is marked as uploaded.
pub is_uploaded : String → List Volume → Bool
is_uploaded p [] = false
is_uploaded p (v ∷ vs) = (v.uploaded && str_eq v.local_path p) || is_uploaded p vs

-- A volume of this number is staged under this path.
pub is_listed : ℕ → String → List Volume → Bool
is_listed i p [] = false
is_listed i p (v ∷ vs) = (v.index == i && str_eq v.local_path p) || is_listed i p vs

-- What a method keeps of the volumes.
pub record Kept (vs us : List Volume) : Type 0 where
  pub uploads : (p : String) → is_uploaded p vs ≡ true → is_uploaded p us ≡ true
  pub lists : (i : ℕ) (p : String) → is_listed i p vs ≡ true → is_listed i p us ≡ true

Kept-refl : (vs : List Volume) → Kept vs vs
Kept-refl vs = record { uploads = λ p h. h; lists = λ i p h. h }

uploads-append :
    (p : String) (vs us : List Volume) → is_uploaded p vs ≡ true → is_uploaded p (vs ++ us) ≡ true
unfolding is_uploaded
uploads-append p [] us h = ground arith
uploads-append p (v ∷ vs) us h = ground (arith, uploads-append p vs us)

lists-append :
    (i : ℕ) (p : String) (vs us : List Volume)
    → is_listed i p vs ≡ true
    → is_listed i p (vs ++ us) ≡ true
unfolding is_listed
lists-append i p [] us h = ground arith
lists-append i p (v ∷ vs) us h = ground (arith, lists-append i p vs us)

Kept-append : (vs us : List Volume) → Kept vs (vs ++ us)
Kept-append vs us = record {
  uploads = λ p. uploads-append p vs us;
  lists = λ i p. lists-append i p vs us;
}

-- A change of one volume that keeps its number and its path, and marks it at most.
record KeepsPath (f : Volume → Volume) : Type 0 where
  index : (v : Volume) → (f v).index ≡ v.index
  path : (v : Volume) → (f v).local_path ≡ v.local_path
  uploaded : (v : Volume) → v.uploaded ≡ true → (f v).uploaded ≡ true

-- What is found of a list.
abbrev Found : (List Volume → Type 0) → Option (List Volume) → Type 0
Found P none = Unit
Found P (some us) = P us

module _ (f : Volume → Volume) (keeps : KeepsPath f) where
  Kept-head : (v : Volume) (vs : List Volume) → Kept (v ∷ vs) (f v ∷ vs)
  unfolding is_uploaded is_listed
  Kept-head v vs = record {
    uploads = λ p h. ground (arith, keeps.uploaded v, ap (λ q. str_eq q p) (keeps.path v));
    lists = λ i p h. ground (arith, keeps.index v, ap (λ q. str_eq q p) (keeps.path v));
  }

  Kept-tail : (v : Volume) (vs us : List Volume) → Kept vs us → Kept (v ∷ vs) (v ∷ us)
  unfolding is_uploaded is_listed
  Kept-tail v vs us k = record {
    uploads = λ p h. ground (arith, k.uploads p);
    lists = λ i p h. ground (arith, k.lists i p);
  }

  Found-later :
      (v : Volume) (vs : List Volume) (found : Option (List Volume))
      → Found (Kept vs) found
      → Found (Kept (v ∷ vs)) (elim found [ none ↦ none | some us ↦ some (v ∷ us) ])
  Found-later v vs none h = tt
  Found-later v vs (some us) h = Kept-tail v vs us h

  update_first-Kept : (i : ℕ) (vs : List Volume) → Found (Kept vs) (update_first i f vs)
  unfolding update_first
  update_first-Kept i [] = tt
  update_first-Kept i (v ∷ vs) =
      if_intro (Found (Kept (v ∷ vs))) (v.index == i) (λ here. Kept-head v vs)
        (λ further. Found-later v vs (update_first i f vs) (update_first-Kept i vs))

attempted-KeepsPath : KeepsPath attempted
attempted-KeepsPath = record { index = λ v. refl; path = λ v. refl; uploaded = λ v h. h }

marked-KeepsPath : (now : ℕ) → KeepsPath (marked now)
marked-KeepsPath now = record { index = λ v. refl; path = λ v. refl; uploaded = λ v h. refl }

module _ (path : String) (io : Outcomes) (now : ℕ) where
  abbrev volumes_of : Option Error × World → List Volume
  volumes_of r = r.1.backup.volumes

  commit_found-Kept :
      (found : Option (List Volume)) (w : World)
      → Found (Kept w.backup.volumes) found
      → Kept w.backup.volumes (volumes_of (commit_found path io now found w))
  unfolding commit_found commit save_locked
  commit_found-Kept none w h = Kept-refl w.backup.volumes
  commit_found-Kept (some us) w h = h

  -- A method loses no mark and no volume.
  pub call-Kept :
      (m : Method) (w : World) → Kept w.backup.volumes (volumes_of (call path io now m w))
  unfolding add_sealed increment_attempt mark_uploaded mark_complete mark_archive_done commit
      save_locked
  call-Kept (seal v) w =
      let P : Option Error × World → Type 0 = λ r. Kept w.backup.volumes (volumes_of r) in
      if_intro P (not (v.index == w.backup.cursor.next_volume))
        (λ wrong. Kept-refl w.backup.volumes)
        λ right.
          if_intro P (has_index v.index w.backup.volumes) (λ twice. Kept-refl w.backup.volumes)
            λ fresh. Kept-append w.backup.volumes (v ∷ [])
  call-Kept (attempt i) w =
      commit_found-Kept (update_first i attempted w.backup.volumes) w
        (update_first-Kept attempted attempted-KeepsPath i w.backup.volumes)
  call-Kept (upload i) w =
      commit_found-Kept (update_first i (marked now) w.backup.volumes) w
        (update_first-Kept (marked now) (marked-KeepsPath now) i w.backup.volumes)
  call-Kept complete w =
      let P : Option Error × World → Type 0 = λ r. Kept w.backup.volumes (volumes_of r) in
      if_intro P (not (all_uploaded w.backup.volumes)) (λ pending. Kept-refl w.backup.volumes)
        λ all.
          if_intro P (not w.backup.cursor.is_done) (λ open_end. Kept-refl w.backup.volumes)
            λ ended. Kept-refl w.backup.volumes
  call-Kept archive_done w = Kept-refl w.backup.volumes

lists-lt :
    (i j : ℕ) (p : String) (vs : List Volume) (n : ℕ)
    → Numbered i vs n
    → is_listed j p vs ≡ true
    → i ≤ j
unfolding is_listed
lists-lt i j p [] n h l = cc
lists-lt i j p (v ∷ vs) n h l = ground (arith, lists-lt (suc i) j p vs n h.1)

Found-rest :
    (v : Volume) (p : String) (found : Option (List Volume))
    → Found (λ us. is_uploaded p us ≡ true) found
    → Found (λ us. is_uploaded p us ≡ true) (elim found [ none ↦ none | some us ↦ some (v ∷ us) ])
unfolding is_uploaded
Found-rest v p none h = tt
Found-rest v p (some us) h = ground arith

-- The volume that is marked is the one of this number, of which there is one.
update_first-marks :
    (i j now : ℕ) (p : String) (vs : List Volume) (n : ℕ)
    → Numbered i vs n
    → is_listed j p vs ≡ true
    → Found (λ us. is_uploaded p us ≡ true) (update_first j (marked now) vs)
unfolding update_first is_listed is_uploaded
update_first-marks i j now p [] n h l = tt
update_first-marks i j now p (v ∷ vs) n h l =
    if_intro (Found (λ us. is_uploaded p us ≡ true)) (v.index == j)
      (λ here. ground (arith, lists-lt (suc i) j p vs n h.1))
      (λ further.
        let listed : is_listed j p vs ≡ true = ground arith in
        Found-rest v p (update_first j (marked now) vs)
          (update_first-marks (suc i) j now p vs n h.1 listed))

module _ (path : String) (io : Outcomes) (now : ℕ) where
  commit_found-marks :
      (p : String) (found : Option (List Volume)) (w : World)
      → Found (λ us. is_uploaded p us ≡ true) found
      → (commit_found path io now found w).0 ≡ none
      → is_uploaded p (volumes_of path io now (commit_found path io now found w)) ≡ true
  unfolding commit_found commit save_locked
  commit_found-marks p none w h e = ground arith
  commit_found-marks p (some us) w h e = h

  -- After MarkUploaded returned no error, the volume's path counts as uploaded.
  pub upload-marks :
      (i n : ℕ) (p : String) (w : World)
      → Numbered 0 w.backup.volumes n
      → is_listed i p w.backup.volumes ≡ true
      → (call path io now (upload i) w).0 ≡ none
      → is_uploaded p (call path io now (upload i) w).1.backup.volumes ≡ true
  unfolding mark_uploaded
  upload-marks i n p w numbered listed e =
      commit_found-marks p (update_first i (marked now) w.backup.volumes) w
        (update_first-marks 0 i now p w.backup.volumes n numbered listed) e

  lists-last :
      (v : Volume) (vs : List Volume) → is_listed v.index v.local_path (vs ++ (v ∷ [])) ≡ true
  unfolding is_listed
  lists-last v [] = ground (arith, eq_refl v.local_path)
  lists-last v (u ∷ vs) = ground (arith, lists-last v vs)

  -- After AddSealed returned no error, the volume is listed.
  pub seal-lists :
      (v : Volume) (w : World)
      → (call path io now (seal v) w).0 ≡ none
      → is_listed v.index v.local_path (call path io now (seal v) w).1.backup.volumes ≡ true
  unfolding add_sealed commit save_locked
  seal-lists v w e = ground (arith, lists-last v w.backup.volumes)

  -- After MarkComplete returned no error, the backup is completed.
  pub complete-marks :
      (w : World)
      → (call path io now complete w).0 ≡ none
      → (call path io now complete w).1.backup.completed ≡ true
  unfolding mark_complete commit save_locked
  complete-marks w e = ground arith

-- Volumes that were seen in the state: each is listed, and is marked if it was marked then.
abbrev pub Known : List Volume → List Volume → Type 0
Known vs us =
    All
      (λ v.
        (is_listed v.index v.local_path us ≡ true)
        × (v.uploaded ≡ true → is_uploaded v.local_path us ≡ true))
      vs

pub Known-Kept : (vs us ts : List Volume) → Kept us ts → Known vs us → Known vs ts
Known-Kept vs us ts k h =
    All-map _ _ vs
      (λ v (listed, up). (k.lists v.index v.local_path listed, λ u. k.uploads v.local_path (up u)))
      h

Kept-cons : (v : Volume) (vs : List Volume) → Kept vs (v ∷ vs)
unfolding is_listed is_uploaded
Kept-cons v vs = record { uploads = λ p h. ground arith; lists = λ i p h. ground arith }

pub Known-self : (vs : List Volume) → Known vs vs
unfolding is_listed is_uploaded
Known-self [] = tt
Known-self (v ∷ vs) = (
  (ground (arith, eq_refl v.local_path), λ u. ground (arith, eq_refl v.local_path)),
  Known-Kept vs vs (v ∷ vs) (Kept-cons v vs) (Known-self vs),
)

module _ (path : String) (io : Outcomes) (now : ℕ) where
  abbrev cursor_of : Option Error × World → Cursor
  cursor_of r = r.1.backup.cursor

  commit_found-cursor :
      (found : Option (List Volume)) (w : World)
      → cursor_of (commit_found path io now found w) ≡ w.backup.cursor
  unfolding commit_found commit save_locked
  commit_found-cursor none w = refl
  commit_found-cursor (some us) w = refl

  -- The cursor of a sealed volume that was added is the backup's.
  pub seal-cursor :
      (v : Volume) (w : World)
      → (call path io now (seal v) w).0 ≡ none
      → (call path io now (seal v) w).1.backup.cursor ≡ v.cursor_after
  unfolding add_sealed commit save_locked
  seal-cursor v w =
      let P : Option Error × World → Type 0 = λ r. r.0 ≡ none → cursor_of r ≡ v.cursor_after in
      if_intro P (not (v.index == w.backup.cursor.next_volume)) (λ wrong good. cc)
        λ right.
          if_intro P (has_index v.index w.backup.volumes) (λ twice good. cc) λ fresh good. refl

  -- The attempts and the uploads leave it.
  pub attempt-cursor :
      (i : ℕ) (w : World) → (call path io now (attempt i) w).1.backup.cursor ≡ w.backup.cursor
  unfolding increment_attempt
  attempt-cursor i w = commit_found-cursor (update_first i attempted w.backup.volumes) w

  pub upload-cursor :
      (i : ℕ) (w : World) → (call path io now (upload i) w).1.backup.cursor ≡ w.backup.cursor
  unfolding mark_uploaded
  upload-cursor i w = commit_found-cursor (update_first i (marked now) w.backup.volumes) w
