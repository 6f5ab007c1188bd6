-- ===== src/Tests.antt =====
-- Concrete inputs for the theorems: a small reader of `http://host/path` in place of the crate
-- `url`, and a run of an assessment.
pub mod Scopes
pub mod Requests
pub mod Runs
pub mod Bodies
pub mod Plans
pub mod Missions
pub mod Proposals
pub mod Verdicts
use mathlib.Core.Option
use rust_forge.Base.{
  ℕ, Bool, List, [], ◌∷◌, ◌++◌, Option, none, some, Result, ok, err, length, drop, pos, min,
}
use rust_forge.Text.{Text, codes, first_part, split, strip_prefix}
use rust_forge.Authorization.Url.{Host, domain, UrlLib}
use rust_forge.Authorization.Scope.{ScopePolicy, exact, wildcard}
use rust_forge.Assessment.Policy.{AssessmentPolicy, is_slash}
use rust_forge.Assessment.Budget.{discovery, RequestBudget}
use rust_forge.Assessment.Executor.{
  ReplayRun, AssessmentReplayRequest, AssessmentExecutor, World, RequestArgs, RuntimeIdentity,
  identity_a, ExecuteError,
}

-- host and path
abbrev pub SimpleUrl : Type 0
SimpleUrl = Text × Text

abbrev parse_rest : Text → SimpleUrl
parse_rest rest = let host = first_part (split is_slash rest) in (host, drop (length host) rest)

abbrev segments : Text → List Text
segments path = split is_slash (drop 1 path)

abbrev pub simple_lib : UrlLib SimpleUrl
simple_lib = record {
  parse = λ raw. Option.map parse_rest (strip_prefix (codes "http://") raw);
  scheme = λ _. codes "http";
  username = λ _. [];
  password = λ _. none;
  host = λ url. some (domain url.0);
  host_str = λ url. some url.0;
  port_or_known_default = λ _. some 80;
  path = λ url. url.1;
  path_segments = λ url. some (segments url.1);
  query_pairs = λ _. [];
  without_fragment = λ url. url;
  to_text = λ url. codes "http://" ++ url.0 ++ url.1;
  parse_host = λ raw. some (domain raw);
  parse_ipv6 = λ _. none;
}

abbrev pub entries : List Text
entries = codes "*.App.test" ∷ codes "b.test" ∷ codes " *.app.test " ∷ []

abbrev pub scope : ScopePolicy
scope = record {
  patterns =
      record { normalized = codes "*.app.test"; kind = wildcard }
      ∷ record { normalized = codes "b.test"; kind = exact }
      ∷ [];
}

abbrev pub policy : AssessmentPolicy
policy = record { exact_origin = codes "http://b.test:80"; excluded_paths = codes "/private" ∷ [] }

abbrev pub budget : RequestBudget
budget = record { total = 30; discovery_limit = 10; used = 2; discovery_used = 1; bytes_used = 100 }

abbrev pub identity : RuntimeIdentity
identity = record {
  profile_id = 7;
  label = codes "A";
  header_name = codes "Authorization";
  revision = 3;
  secret = codes "s";
}

abbrev pub executor : AssessmentExecutor
executor = record {
  preview = record {
    template_registry_hash = codes "h";
    normalized_scope = codes "*.app.test" ∷ codes "b.test" ∷ [];
  };
  scope = scope;
  policy = policy;
  identity_a = some identity;
  identity_b = none;
  budget = budget;
  request_interval = 500;
  last_request_started = none;
  consecutive_target_failures = 0;
}

abbrev pub answer : ℕ → ℕ → ReplayRun
answer status size = record { status = some status; error_code = none; resp_wire_size = pos size }

abbrev pub world : World
world = record {
  cancelled = Bool.false;
  cancelled_before_wait = Bool.false;
  cancelled_in_wait = Bool.false;
  registry_hash = codes "h";
  is_connected = Bool.true;
  current_scope = ok scope;
  is_ai_current = Bool.true;
  current_revision = λ _. ok (some 3);
  elapsed = 0;
  now = 1000;
  send = λ r. ok (answer 200 (min 700 r.max_response_bytes));
  is_persisted = Bool.true;
}

abbrev pub args : RequestArgs
args = record {
  phase = discovery;
  method = codes "GET";
  url = codes "http://b.test/users";
  extra_headers = [];
  identity = identity_a;
  auth_override = none;
  hash_suffix = codes "t";
}
