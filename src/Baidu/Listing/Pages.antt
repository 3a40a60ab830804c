-- ===== src/Baidu/Listing/Pages.antt =====
-- The pages of a listing and the directory that they are of: ListDir of internal/baidu/uploader.go.
use panpack.Base.{
  ℕ, zero, suc, ◌+◌, ◌<◌, ◌≡◌, refl, sym, ap, ◌∙◌, arith, some, if_intro, ok, ltb, List, [], ◌∷◌,
  ◌++◌, append_assoc, length, length-take, length-drop, take, drop, take_all, take-append-drop,
}
use panpack.Baidu.Listing.{RemoteInfo, Lister, page_limit, list_loop, list_dir}

module _ {ℓ} {A : Type ℓ} where
  drop-nil : (n : ℕ) → ◌≡◌ {A = List A} (drop n []) []
  drop-nil zero = refl
  drop-nil (suc n) = refl

  drop-drop : (m n : ℕ) (xs : List A) → drop n (drop m xs) ≡ drop (m + n) xs
  drop-drop zero n xs = ap (λ k. drop k xs) (omega arith)
  drop-drop (suc m) n [] = drop-nil n ∙ sym (drop-nil (suc m + n))
  drop-drop (suc m) n (x ∷ xs) =
      let e : suc (m + n) ≡ suc m + n = omega arith in
      drop-drop m n xs ∙ ap (λ k. drop k (x ∷ xs)) e

-- A directory that does not change while it is listed.
abbrev pub serve : List RemoteInfo → Lister
serve all start limit = ok (take limit (drop start all))

module _ (all : List RemoteInfo) where
  list_loop-serve :
      (fuel start : ℕ) (result : List RemoteInfo)
      → length (drop start all) < fuel
      → list_loop (serve all) fuel start result ≡ some (ok (result ++ drop start all))
  unfolding list_loop
  list_loop-serve zero start result lt = absurd (omega arith)
  list_loop-serve (suc fuel) start result lt =
      let rest = drop start all in
      let listing = take page_limit rest in
      if_intro (λ r. r ≡ some (ok (result ++ rest))) (ltb (length listing) page_limit)
        (λ short.
          ap (λ t. some (ok (result ++ t)))
            (take_all page_limit rest (ground (arith, length-take page_limit rest))))
        λ full.
          let size : length listing ≡ page_limit = ground (arith, length-take page_limit rest) in
          let after : drop (start + length listing) all ≡ drop page_limit rest =
            ap (λ n. drop (start + n) all) size ∙ sym (drop-drop start page_limit all) in
          list_loop-serve fuel (start + length listing) (result ++ listing) (
            omega
              (arith, ap length after, length-take page_limit rest, length-drop page_limit rest))
          ∙ ap (λ t. some (ok t))
              (append_assoc result listing _
                ∙ ap (λ t. result ++ t)
                    (ap (λ t. listing ++ t) after ∙ take-append-drop page_limit rest))

  -- Any more rounds are enough too.
  pub list_dir-enough : (fuel : ℕ) → length all < fuel → list_dir (serve all) fuel ≡ some (ok all)
  unfolding list_dir
  list_dir-enough fuel lt = list_loop-serve fuel 0 [] lt

  -- The listing of a directory that does not change is the whole of it, in order and with nothing
  -- repeated, and one round more than it has entries is enough.
  pub list_dir-serve : list_dir (serve all) (length all + 1) ≡ some (ok all)
  unfolding list_dir
  list_dir-serve = list_loop-serve (length all + 1) 0 [] (omega arith)
