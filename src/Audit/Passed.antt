-- ===== src/Audit/Passed.antt =====
-- What a passed audit has established: RunWithClient of internal/audit/audit.go.
use panpack.Base.{String, true, ◌≡◌, Result, ok, List, map, All}
use panpack.Base.Programs.{Leaves}
use panpack.Baidu.Listing.{RemoteInfo}
use panpack.Batch.{State, load_state, member}
use panpack.Audit.{Config, RemoteClient, System, Report, normalize_expected, record_name}
use panpack.Audit.Records.{is_clear, IsSoundState}
use panpack.Audit.Remote.{Remote, names_of, IsListed, IsFound}
use panpack.Audit.Frozen.{Metadata, metadata_ids, Backed}
use panpack.Audit.Run.{pattern_of, safe_name, metadata_of}
use panpack.Audit.Clear.{IsSorting, Present, Swept, Receipted}

module _ (cfg : Config) (sys : System) (client : RemoteClient) where
  -- Of the remote set: it is what the directory holds of the pattern, each name once, and it has the
  -- expected names, as files, and no other.
  pub record IsSameSet (state : State) (expected : List String) (remote : Remote) : Type 0 where
    pub listing : List RemoteInfo
    pub asked : client.list_dir state.remote_dir ≡ ok listing
    pub listed :
        All
          (λ r. IsListed sys.base (sys.matches (pattern_of cfg sys client state)) listing r.0 r.1)
          remote
    pub found :
        All
          (IsFound sys.base (sys.matches (pattern_of cfg sys client state)) listing remote)
          listing
    pub present : All (Present remote) expected
    pub only : All (λ n. member n expected ≡ true) (names_of remote)

  -- Of the frozen files, against the metadata that was given for them.
  pub record IsAllBacked (state : State) (remote : Remote) : Type 0 where
    pub metadata : Metadata
    pub asked : metadata_of cfg sys client (metadata_ids remote state.files) ≡ ok metadata
    pub backed : All (λ r. Backed cfg.require_checksum r metadata remote) state.files

  -- Of what follows the comparison of the two sets.
  pub record Inspected (state_file receipt_file digest : String) (state : State) (remote : Remote)
      : Type 0 where
    pub all_backed : IsAllBacked state remote
    pub local : List String
    pub matched : sys.os.glob (sys.os.join state.source_dir state.pattern) ≡ ok local
    pub swept : cfg.require_local_empty ≡ true → Swept cfg sys client state_file receipt_file local
    pub receipted : Receipted cfg sys client state_file receipt_file
    pub unchanged : sys.after state_file ≡ ok digest

  -- What a passed audit has established.
  pub record IsPassed (v : Report) : Type 0 where
    pub state_file : String
    pub receipt_file : String
    pub digest : String
    pub state : State
    pub expected : List String
    pub remote : Remote
    pub located : sys.abs cfg.state_file ≡ ok state_file
    pub begun : sys.before state_file ≡ ok digest
    pub loaded : load_state state_file sys.states ≡ ok state
    pub sound : IsSoundState sys.base state
    pub normal :
        normalize_expected (safe_name cfg sys client) cfg.expected_names state ≡ ok expected
    pub frozen : All (λ n. member n expected ≡ true) (map record_name state.files)
    pub same_set : IsSameSet state expected remote
    pub inspected : Inspected state_file receipt_file digest state remote
    pub marked : v.is_passed ≡ true

  -- The steps of a program, by what its end leaves.
  module _ (Q : Unit {0} → Report → Type 0) where
    abbrev Ends : Result (Unit {0}) × Report → Type 0
    Ends = Leaves Q (λ v. Unit {0})

  module _ (sorting : IsSorting sys) where
    -- The end of an audit that had entered no issue up to `w`.
    abbrev Inspection : String → String → String → State → Remote → Report → Report → Type 0
    Inspection state_file receipt_file digest state remote w v =
        (is_clear w ≡ true)
        × (Inspected state_file receipt_file digest state remote × (v.is_passed ≡ true))

    -- What the audit of a loaded state leaves.
    record Stated (state_file receipt_file digest : String) (state : State) (v : Report)
        : Type 0 where
      expected : List String
      remote : Remote
      sound : IsSoundState sys.base state
      normal : normalize_expected (safe_name cfg sys client) cfg.expected_names state ≡ ok expected
      frozen : All (λ n. member n expected ≡ true) (map record_name state.files)
      same_set : IsSameSet state expected remote
      inspected : Inspected state_file receipt_file digest state remote
      marked : v.is_passed ≡ true
