-- ===== src/WorkerUrl.antt =====
-- `validate_worker_url` and `normalized_url` of src/db.rs. Parsing a URL and an address is the
-- work of other packages: see Settings.antt.
use agentmom.Prelude.{
  String, Bool, false, not, ◌&&◌, ◌||◌, Option, none, some, List, [], ◌∷◌, ◌==◌, eqb, is_some,
  if◌then◌else◌,
}
use agentmom.Settings.{Settings, Url, Addr}
use agentmom.Text.{trim, trim_end_where, split, to_lowercase}
use agentmom.Catalog.Exec.{bad_worker_url, Result, ok, err}

-- value.trim().trim_end_matches('/')
unfoldable pub normalized_url : String → String
normalized_url url = trim_end_where (λ c. eqb c b'/') (trim url)

unfoldable pub is_allowlisted : String → List String → Bool
is_allowlisted url [] = false
is_allowlisted url (entry ∷ entries) =
    (not (trim entry == "") && normalized_url (trim entry) == normalized_url url)
    || is_allowlisted url entries

-- host.parse::<IpAddr>() succeeds, and the address may not be used.
unfoldable pub bad_addr : Bool → Option Addr → Bool
bad_addr fake none = false
bad_addr fake (some a) = a.is_unspecified || (a.is_loopback && not fake)

unfoldable pub validate_host : Settings → String → String → Result (Unit {0})
validate_host env url host = elim env.worker_url_allowlist [
  | some allowlist ↦ if is_allowlisted url (split b',' allowlist) then ok tt else err bad_worker_url
  | none ↦
      if to_lowercase host == "localhost" && not env.fake_runtime
      then err bad_worker_url
      else if bad_addr env.fake_runtime (env.parse_addr host)
      then err bad_worker_url
      else ok tt
]

unfoldable pub validate_parsed : Settings → String → Option Url → Result (Unit {0})
validate_parsed env url none = err bad_worker_url
validate_parsed env url (some u) =
    if not (u.scheme == "http" || u.scheme == "https")
    then err bad_worker_url
    else if not (is_some u.port)
    then err bad_worker_url
    else elim u.host [ none ↦ err bad_worker_url | some host ↦ validate_host env url host ]

unfoldable pub validate_worker_url : Settings → String → Result (Unit {0})
validate_worker_url env url = validate_parsed env url (env.parse_url url)

-- `if let Some(worker_url) = worker_url { validate_worker_url(worker_url)?; }`
unfoldable pub validate_given : Settings → Option String → Result (Unit {0})
validate_given env none = ok tt
validate_given env (some url) = validate_worker_url env url
