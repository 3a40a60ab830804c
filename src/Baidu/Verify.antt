-- ===== src/Baidu/Verify.antt =====
-- The check of a remote file: RemoteInfo, Verify and validateRemotePath of
-- internal/baidu/uploader.go, over the listing and the metadata. The functions of path and strings
-- are parameters.
use panpack.Base.{
  ℕ, ◌<◌, String, str_eq, Bool, true, false, not, ◌&&◌, ◌||◌, ◌≡◌, refl, subst, sym, ap, ◌∙◌, arith,
  Option, none, some, message, wrapped, remote_not_found, Result, ok, err, IfOk, ok-IfOk, then-IfOk,
  guard-IfOk, map-IfOk, fail_if-IfOk, if_intro, fail_if, ◌>>=◌, ◌>>◌, ltb, ◌==◌, if◌then◌else◌,
  List, [], ◌∷◌, Bytes, is_empty, length, Mem, at_head, in_tail,
}
use panpack.Baidu.Checksum.{Codec, remote_md5_matches}
use panpack.Baidu.Listing.{RemoteInfo, Lister, list_dir, metadata}
use panpack.Baidu.Listing.Pages.{serve, list_dir-enough}

-- path.Clean, strings.HasPrefix of "/" and of "/apps/", the number of the segments of a path, and
-- path.Split, whose directory is without its slash at the end.
pub record RemotePaths : Type 0 where
  pub clean : String → String
  pub is_absolute : String → Bool
  pub is_under_apps : String → Bool
  pub segments : String → ℕ
  pub dir_of : String → String
  pub name_of : String → String

-- The requests: the pages of a directory, and the metadata of a batch of ids.
pub record Requests : Type 0 where
  pub pages : String → Lister
  pub meta : List ℕ → Result (List RemoteInfo)

abbrev context {ℓ} : {A : Type ℓ} → String → Result A → Result A
context m (ok a) = ok a
context m (err e) = err (wrapped m e)

listing_of : Option (Result (List RemoteInfo)) → Result (List RemoteInfo)
listing_of none = err (message "out of fuel")
listing_of (some r) = r

module _ (paths : RemotePaths) where
  -- `validateRemotePath`
  unfoldable pub validate_remote_path : String → Result String
  validate_remote_path p =
      if str_eq p "" || not (paths.is_absolute p)
      then err (message "remote path must be absolute")
      else if not (paths.is_under_apps (paths.clean p)) || ltb (paths.segments (paths.clean p)) 2
      then err (message "remote path must be under /apps/<app>")
      else ok (paths.clean p)

module _ (meta : List ℕ → Result (List RemoteInfo)) where
  -- The metadata of the file that was found.
  pub info_of : RemoteInfo → Option RemoteInfo → Result RemoteInfo
  info_of file none = err (message "remote metadata not found")
  info_of file (some info) =
      if is_empty info.md5 then err (message "remote metadata has no md5") else ok info

  pub found_info : RemoteInfo → Result RemoteInfo
  unfolding info_of metadata
  found_info file =
      if file.is_dir
      then err (message "remote path is a directory")
      else context "read remote metadata" (metadata meta (file.fs_id ∷ [])) >>= λ found.
          info_of file (found file.fs_id)

  -- The range over the listing.
  pub search_listing : String → String → List RemoteInfo → Result RemoteInfo
  unfolding found_info
  search_listing name remote_path [] = err (wrapped "remote path" remote_not_found)
  search_listing name remote_path (file ∷ files) =
      let rest = search_listing name remote_path files in
      if not (str_eq file.name name) && not (str_eq file.path remote_path)
      then rest
      else found_info file

  -- What is known of a remote file that was found.
  pub record IsKnown (name remote_path : String) (all : List RemoteInfo) (info : RemoteInfo)
      : Type 0 where
    pub file : RemoteInfo
    pub listed : Mem file all
    pub named : str_eq file.name name || str_eq file.path remote_path ≡ true
    pub is_file : file.is_dir ≡ false
    pub found : ℕ → Option RemoteInfo
    pub answered : metadata meta (file.fs_id ∷ []) ≡ ok found
    pub known : found file.fs_id ≡ some info
    pub summed : is_empty info.md5 ≡ false

  module _ (name remote_path : String) (all : List RemoteInfo) (file : RemoteInfo)
      (listed : Mem file all) (named : str_eq file.name name || str_eq file.path remote_path ≡ true)
      (is_file : file.is_dir ≡ false) where
    info_of-IsKnown :
        (found : ℕ → Option RemoteInfo)
        → metadata meta (file.fs_id ∷ []) ≡ ok found
        → (o : Option RemoteInfo) → found file.fs_id ≡ o
        → IfOk (IsKnown name remote_path all) (info_of file o)
    unfolding info_of
    info_of-IsKnown found answered none e = tt
    info_of-IsKnown found answered (some info) e =
        if_intro (IfOk (IsKnown name remote_path all)) (is_empty info.md5) (λ bare. tt)
          λ summed. record {
            file = file;
            listed = listed;
            named = named;
            is_file = is_file;
            found = found;
            answered = answered;
            known = e;
            summed = summed;
          }

    metadata-IsKnown :
        (r : Result (ℕ → Option RemoteInfo))
        → metadata meta (file.fs_id ∷ []) ≡ r
        → IfOk
            (IsKnown name remote_path all)
            (context "read remote metadata" r >>= λ found. info_of file (found file.fs_id))
    metadata-IsKnown (err e) answered = tt
    metadata-IsKnown (ok found) answered = info_of-IsKnown found answered (found file.fs_id) refl

  search_listing-IsKnown :
      (name remote_path : String) (all files : List RemoteInfo)
      → ((f : RemoteInfo) → Mem f files → Mem f all)
      → IfOk (IsKnown name remote_path all) (search_listing name remote_path files)
  unfolding search_listing found_info
  search_listing-IsKnown name remote_path all [] inside = tt
  search_listing-IsKnown name remote_path all (file ∷ files) inside =
      if_intro (IfOk (IsKnown name remote_path all))
        (not (str_eq file.name name) && not (str_eq file.path remote_path))
        (λ other. search_listing-IsKnown name remote_path all files (λ f m. inside f (in_tail m)))
        λ named.
          if_intro (IfOk (IsKnown name remote_path all)) file.is_dir (λ dir. tt)
            λ is_file.
              metadata-IsKnown name remote_path all file (inside file at_head) (ground arith)
                is_file (metadata meta (file.fs_id ∷ [])) refl

module _ (paths : RemotePaths) (codec : Codec) (requests : Requests) (fuel : ℕ) where
  -- `RemoteInfo`; the listing is ListDir, which validates the path again.
  unfoldable pub remote_info : String → Result RemoteInfo
  unfolding validate_remote_path listing_of list_dir search_listing
  remote_info p = validate_remote_path paths p >>= λ remote_path.
      (validate_remote_path paths (paths.dir_of remote_path) >>= λ dir.
      (listing_of (list_dir (requests.pages dir) fuel) >>= λ files.
      search_listing requests.meta (paths.name_of remote_path) remote_path files))

  -- `Verify`
  unfoldable pub verify : String → ℕ → Bytes → List Bytes → Result (Unit {0})
  unfolding remote_info remote_md5_matches
  verify p size expected blocks = remote_info p >>= λ info.
      (fail_if (not (info.size == size)) (message "remote size mismatch")
        >> fail_if
            (not (is_empty expected) && not (remote_md5_matches codec info.md5 expected blocks))
            (message "remote md5 mismatch"))

module _ (paths : RemotePaths) (codec : Codec) (meta : List ℕ → Result (List RemoteInfo))
    (all : String → List RemoteInfo) where
  -- The requests on directories that do not change: `all` gives what each of them has.
  abbrev pub serving : Requests
  serving = record { pages = λ dir. serve (all dir); meta = meta }

  -- What is known of the path's file, which the directory above the path has.
  record IsLocated (p : String) (info : RemoteInfo) : Type 0 where
    remote_path : String
    valid : validate_remote_path paths p ≡ ok remote_path
    dir : String
    valid_dir : validate_remote_path paths (paths.dir_of remote_path) ≡ ok dir
    known : IsKnown meta (paths.name_of remote_path) remote_path (all dir) info

  remote_info-IsLocated :
      (fuel : ℕ)
      → ((d : String) → length (all d) < fuel)
      → (p : String) → IfOk (IsLocated p) (remote_info paths codec serving fuel p)
  unfolding remote_info listing_of
  remote_info-IsLocated fuel enough p =
      let L = IsLocated p in
      then-IfOk L (validate_remote_path paths p) _ λ remote_path valid.
        then-IfOk L (validate_remote_path paths (paths.dir_of remote_path)) _ λ dir valid_dir.
          then-IfOk L (listing_of (list_dir (serve (all dir)) fuel)) _ λ files listed.
            let search : List RemoteInfo → Result RemoteInfo =
              search_listing meta (paths.name_of remote_path) remote_path in
            let whole : IfOk L (search (all dir)) =
              map-IfOk (IsKnown meta (paths.name_of remote_path) remote_path (all dir)) L
                (search (all dir))
                (λ info known. record {
                  remote_path = remote_path;
                  valid = valid;
                  dir = dir;
                  valid_dir = valid_dir;
                  known = known;
                })
                (search_listing-IsKnown meta (paths.name_of remote_path) remote_path (all dir)
                  (all dir) (λ f m. m)) in
            let same : listing_of (some (ok (all dir))) ≡ ok files =
              sym (ap listing_of (list_dir-enough (all dir) fuel (enough dir))) ∙ listed in
            subst (IfOk (λ fs. IfOk L (search fs))) same whole

  -- A remote file that was verified.
  pub record IsVerified (p : String) (size : ℕ) (expected : Bytes) (blocks : List Bytes)
      : Type 0 where
    pub remote_path : String
    pub valid : validate_remote_path paths p ≡ ok remote_path
    pub info : RemoteInfo
    pub dir : String
    pub valid_dir : validate_remote_path paths (paths.dir_of remote_path) ≡ ok dir
    pub known : IsKnown meta (paths.name_of remote_path) remote_path (all dir) info
    pub sized : info.size ≡ size
    pub summed :
        is_empty expected ≡ false → remote_md5_matches codec info.md5 expected blocks ≡ true

  -- Verify succeeds, on directories that do not change and with more rounds than any has entries, only
  -- if the directory above the path has a file of the path's name or path whose metadata has this size
  -- and, where a checksum is given, this checksum.
  pub verify-IsVerified :
      (fuel : ℕ)
      → ((d : String) → length (all d) < fuel)
      → (p : String) (size : ℕ) (expected : Bytes) (blocks : List Bytes)
      → verify paths codec serving fuel p size expected blocks ≡ ok tt
      → IsVerified p size expected blocks
  unfolding verify
  verify-IsVerified fuel enough p size expected blocks h =
      let V : Unit {0} → Type 0 = λ u. IsVerified p size expected blocks in
      ok-IfOk V h (
        then-IfOk V (remote_info paths codec serving fuel p) _ λ info e.
          let located = ok-IfOk (IsLocated p) e (remote_info-IsLocated fuel enough p) in
          guard-IfOk V (not (info.size == size)) _ _ λ sized.
            fail_if-IfOk V
              (not (is_empty expected) && not (remote_md5_matches codec info.md5 expected blocks)) _
              λ summed. record {
                remote_path = located.remote_path;
                valid = located.valid;
                dir = located.dir;
                valid_dir = located.valid_dir;
                info = info;
                known = located.known;
                sized = ground arith;
                summed = λ given. ground arith;
              })
