-- ===== src/Batch/Configured.antt =====
-- The configuration of a batch: resolveConfig of internal/batchupload/batch.go. The functions of
-- path/filepath, path, strings and os are parameters.
use panpack.Base.{
  ℕ, zero, suc, ◌<◌, String, str_eq, Bool, true, false, not, ◌||◌, ◌≡◌, ◌≢◌, refl, subst, arith,
  Option, none, some, Error, message, Result, ok, err, ok-IfOk, then-IfOk, guard-IfOk, if_intro,
  fail_if, ◌>>=◌, ◌>>◌, ◌==◌, if◌then◌else◌,
}
use panpack.Base.Int.{ℤ, pos, negsuc}
use panpack.Resource.{Limits, default_limits}

-- The numbers are those given on the command line, of any sign.
pub record Given : Type 0 where
  pub source_dir : String
  pub pattern : String
  pub remote_dir : String
  pub state_file : String
  pub receipt_file : String
  pub max_file_attempts : ℤ
  pub retry_delay : ℤ
  pub limits : Limits

pub record Settled : Type 0 where
  pub source_dir : String
  pub pattern : String
  pub remote_dir : String
  pub state_file : String
  pub receipt_file : String
  pub max_file_attempts : ℕ
  pub retry_delay : ℕ
  pub limits : Limits

-- filepath.Abs, Clean, Base, Join and Dir, path.Clean, os.Stat for a directory, strings.Contains of a
-- separator, strings.HasPrefix of "/apps/", and os.MkdirAll.
pub record Paths : Type 0 where
  pub abs : String → Result String
  pub clean : String → String
  pub base : String → String
  pub join : String → String → String
  pub dir : String → String
  pub clean_remote : String → String
  pub stat_is_dir : String → Result Bool
  pub has_separator : String → Bool
  pub is_under_apps : String → Bool
  pub mkdir_all : String → Option Error

-- `if n <= 0 { n = d }`
pub positive_or : ℕ → ℤ → ℕ
positive_or d (pos (suc n)) = suc n
positive_or d _ = d

-- SliceSize == 0
is_unset : ℤ → Bool
is_unset (pos n) = n == 0
is_unset (negsuc n) = false

-- A minute, in nanoseconds.
abbrev pub one_minute : ℕ
one_minute = 60000000000

abbrev made : Option Error → Result (Unit {0})
made none = ok tt
made (some e) = err e

module _ (os : Paths) where
  absolute : String → Result String
  absolute p = os.abs p >>= λ a. ok (os.clean a)

  -- `resolveConfig`
  unfoldable pub resolve_config : Given → Result Settled
  unfolding absolute positive_or is_unset
  resolve_config cfg =
      fail_if (str_eq cfg.source_dir "") (message "source directory is required")
      >> (absolute cfg.source_dir >>= λ source.
          (os.stat_is_dir source >>= λ is_dir.
          (fail_if (not is_dir) (message "source is not a directory")
            >> (let pattern = if str_eq cfg.pattern "" then "*.tar" else cfg.pattern in
                fail_if (not (str_eq (os.base pattern) pattern) || os.has_separator pattern)
                  (message "pattern must match basenames only")
                >> (fail_if
                      (str_eq cfg.remote_dir ""
                        || not (os.is_under_apps (os.clean_remote cfg.remote_dir)))
                      (message "remote directory must be under /apps/<app>")
                    >> (absolute (
                          if str_eq cfg.state_file ""
                          then os.join source ".panpack-upload-state.json"
                          else cfg.state_file)
                        >>= λ state_file.
                            ((if str_eq cfg.receipt_file ""
                                then ok ""
                                else absolute cfg.receipt_file)
                              >>= λ receipt_file.
                                  (made (os.mkdir_all (os.dir state_file))
                                    >> ok (record {
                                      source_dir = source;
                                      pattern = pattern;
                                      remote_dir = os.clean_remote cfg.remote_dir;
                                      state_file = state_file;
                                      receipt_file = receipt_file;
                                      max_file_attempts = positive_or 20 cfg.max_file_attempts;
                                      retry_delay = positive_or one_minute cfg.retry_delay;
                                      limits =
                                          if is_unset cfg.limits.slice_size
                                          then default_limits
                                          else cfg.limits;
                                    })))))))))

  -- What the run relies on.
  pub record IsSettled (cfg : Settled) : Type 0 where
    pub source : os.stat_is_dir cfg.source_dir ≡ ok true
    pub pattern : str_eq (os.base cfg.pattern) cfg.pattern ≡ true
    pub flat : os.has_separator cfg.pattern ≡ false
    pub remote : os.is_under_apps cfg.remote_dir ≡ true
    pub state_dir : os.mkdir_all (os.dir cfg.state_file) ≡ none
    pub attempts : 0 < cfg.max_file_attempts
    pub delay : 0 < cfg.retry_delay
    pub slices : cfg.limits.slice_size ≢ pos 0

  positive_or-lt : (d : ℕ) (n : ℤ) → 0 < d → 0 < positive_or d n
  unfolding positive_or
  positive_or-lt d (pos (suc n)) h = omega arith
  positive_or-lt d (pos zero) h = h
  positive_or-lt d (negsuc n) h = h

  slices_of :
      (l : Limits) → (if is_unset l.slice_size then default_limits else l).slice_size ≢ pos 0
  unfolding is_unset
  slices_of l =
      if_intro {A = Limits} (λ k. k.slice_size ≢ pos 0) (is_unset l.slice_size)
        (λ unset e. ground arith) (λ set e. ground (arith, e))

  yes : (b : Bool) → not b ≡ false → b ≡ true
  yes true h = refl
  yes false h = cc

  made-none : (o : Option Error) (u : Unit {0}) → made o ≡ ok u → o ≡ none
  made-none none u h = refl
  made-none (some e) u h = cc

  -- A configuration that resolveConfig returns: the source is a directory, the pattern is a basename
  -- without a separator, the remote directory is under /apps/, the directory of the state file is made,
  -- the attempts and the delay are positive, and the size of a slice is not zero: a negative one is let
  -- through.
  pub resolve_config-IsSettled :
      (cfg : Given) (settled : Settled) → resolve_config cfg ≡ ok settled → IsSettled settled
  unfolding resolve_config
  resolve_config-IsSettled cfg settled e = ok-IfOk IsSettled e (
      guard-IfOk IsSettled (str_eq cfg.source_dir "") _ _ λ given.
        then-IfOk IsSettled (absolute cfg.source_dir) _ λ source located.
          then-IfOk IsSettled (os.stat_is_dir source) _ λ is_dir found.
            guard-IfOk IsSettled (not is_dir) _ _ λ directory.
              let pattern = if str_eq cfg.pattern "" then "*.tar" else cfg.pattern in
              guard-IfOk IsSettled
                (not (str_eq (os.base pattern) pattern) || os.has_separator pattern) _ _
                λ plain.
                  guard-IfOk IsSettled
                    (str_eq cfg.remote_dir ""
                      || not (os.is_under_apps (os.clean_remote cfg.remote_dir)))
                    _ _
                    λ under.
                      then-IfOk IsSettled
                        (absolute (
                          if str_eq cfg.state_file ""
                          then os.join source ".panpack-upload-state.json"
                          else cfg.state_file))
                        _
                        λ state_file state_located.
                          then-IfOk IsSettled
                            (if str_eq cfg.receipt_file ""
                              then ok ""
                              else absolute cfg.receipt_file)
                            _
                            λ receipt_file receipt_located.
                              then-IfOk IsSettled (made (os.mkdir_all (os.dir state_file))) _
                                λ u is_made. record {
                                  source =
                                      subst (λ b. os.stat_is_dir source ≡ ok b)
                                        (yes is_dir directory) found;
                                  pattern = ground arith;
                                  flat = ground arith;
                                  remote = ground arith;
                                  state_dir =
                                      made-none (os.mkdir_all (os.dir state_file)) u is_made;
                                  attempts = positive_or-lt 20 cfg.max_file_attempts (omega arith);
                                  delay = positive_or-lt one_minute cfg.retry_delay (omega arith);
                                  slices = slices_of cfg.limits;
                                })
