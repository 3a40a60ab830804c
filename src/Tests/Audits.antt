-- ===== src/Tests/Audits.antt =====
-- The theorem on audits, at a directory of one file.
use panpack.Base.{◌<>◌, true, false, refl, none, some, ok, [], ◌∷◌}
use panpack.Base.Programs as Steps
use panpack.Files.{whole, put}
use panpack.Baidu.Listing.{RemoteInfo}
use panpack.Batch.{FileRecord, State, Os}
use panpack.Audit.{Config, RemoteClient, System}
use panpack.Base.{◌==◌, ◌-◌, ◌+◌, ◌≡◌, arith, if◌then◌else◌}
use panpack.Base.Int.{pos, pos_part}
use panpack.Audit.Expected.{
  Format, generate_expected, names_from, IsGenerated, generate_expected-IsGenerated,
  generate_expected-names_from,
}

abbrev frozen_file : FileRecord
frozen_file = record {
  name = "a.tar";
  size = 2;
  md5 = 65 ∷ [];
  remote_md5 = [];
  attempts = 1;
  uploaded = true;
  uploaded_at = 3;
  duration = 1;
  retries = 0;
  rate_limits = 0;
}

abbrev frozen_state : State
frozen_state = record {
  format_version = 1;
  source_dir = "/d";
  pattern = "*.tar";
  remote_dir = "/apps/p";
  files = frozen_file ∷ [];
  total_bytes = 2;
  completed = true;
  created_at = 0;
  updated_at = 0;
}

abbrev remote_file : RemoteInfo
remote_file = record {
  fs_id = 9;
  path = "/apps/p/a.tar";
  name = "a.tar";
  size = 2;
  md5 = 97 ∷ [];
  is_dir = false;
}

abbrev audit_config : Config
audit_config = record {
  state_file = "/d/s.json";
  remote_pattern = "";
  expected_names = [];
  require_local_empty = true;
  require_checksum = true;
  receipt_file = "";
}

abbrev one_file_client : RemoteClient
one_file_client = record {
  list_dir = λ dir. ok (remote_file ∷ []);
  metadata = λ ids. ok (λ id. some remote_file);
}

abbrev plain_system : System
plain_system = record {
  os = record {
    lstat = λ p. ok (record { is_regular = true; size = 2 });
    glob = λ p. ok [];
    sort = λ ps. ps;
    base = λ p. p;
    clean = λ p. p;
    join = λ d p. d <> ("/" <> p);
  };
  abs = λ p. ok p;
  matches = λ pattern n. ok true;
  base = λ p. p;
  has_backslash = λ n. false;
  sort_sizes = λ ms. ms;
  before = λ p. ok "digest";
  during = λ p. ok "digest";
  after = λ p. ok "digest";
  states = put "/d/s.json" (some (whole frozen_state)) (λ p. none);
  receipts = λ p. none;
}

abbrev two_names : Format
two_names = record {
  name_at = λ i. if pos_part i == 3 then "a.tar" else "b.tar";
  is_broken = λ n. false;
  has_backslash = λ n. false;
  base = λ n. n;
}

generate_expected-IsGenerated_example : IsGenerated two_names 3 4 ("a.tar" ∷ "b.tar" ∷ [])
unfolding generate_expected panpack.Batch.member panpack.Audit.is_safe_name
generate_expected-IsGenerated_example =
    generate_expected-IsGenerated two_names 3 "%d.tar" 3 4 ("a.tar" ∷ "b.tar" ∷ []) refl

generate_expected-names_from_example :
    generate_expected two_names 3 "%d.tar" (pos 3) (pos 4)
    ≡ some (ok (names_from two_names (4 - 3 + 1) 3))
unfolding names_from panpack.Audit.is_safe_name panpack.Batch.member
generate_expected-names_from_example =
    generate_expected-names_from two_names 3 "%d.tar" 3 4 refl (omega arith) (omega arith)
      (omega arith) (omega arith) ((refl, (refl, refl)), ((refl, (refl, refl)), tt))
