-- ===== src/Settings.antt =====
-- What the program takes from its environment: the settings that it reads with `env_u64`
-- (src/db.rs), the identity of the host, and the functions of other packages that it calls.
use agentmom.Prelude.{ℕ, String, Bool, Option}
use agentmom.Json.{Json}

-- What `reqwest::Url::parse` says of a URL.
pub record Url : Type 0 where
  pub scheme : String
  pub host : Option String
  pub port : Option ℕ
  pub path : String

-- What `std::net::IpAddr` says of an address.
pub record Addr : Type 0 where
  pub is_unspecified : Bool
  pub is_loopback : Bool

pub record Settings : Type 0 where
  -- MOM_NODE_STALE_SECS, MOM_JOB_CLAIM_TIMEOUT_SECS, MOM_JOB_RUNNING_TIMEOUT_SECS
  pub node_stale_secs : ℕ
  pub job_claim_timeout_secs : ℕ
  pub job_running_timeout_secs : ℕ
  -- node_id() and CARGO_PKG_VERSION
  pub local_node : String
  pub version : String
  -- serde_json::to_string, and the first digits of the SHA-256 of a text
  pub to_string : Json → String
  pub short_hash : String → ℕ → String
  -- Url::parse (`port` is `none` for the default port of the scheme) and host.parse::<IpAddr>()
  pub parse_url : String → Option Url
  pub parse_addr : String → Option Addr
  -- MOM_WORKER_URL_ALLOWLIST, and whether MOM_RUNTIME is "fake"
  pub worker_url_allowlist : Option String
  pub fake_runtime : Bool
  -- auth.secret of the configuration file, and HMAC-SHA-256 of a key and a message in hexadecimal
  pub auth_secret : Option String
  pub hmac_sha256 : String → String → String
  -- Argon2 with a salt, which may fail, and the check of a password against a stored hash, which
  -- is `none` where the hash cannot be parsed
  pub hash_password : String → String → Option String
  pub verify_password : String → String → Option Bool
