-- ===== src/Tunnels.antt =====
-- The service tunnels of src/db.rs and src/service.rs: which host name leads to which service of a
-- workspace, their ports, and the previews of src/main.rs.

pub mod Stored
pub mod Ports
pub mod Reservation
pub mod Previews
pub mod Specified
use agentmom.Prelude.{
  ℕ, String, Bool, false, not, ◌&&◌, Option, none, some, List, [], ◌∷◌, ◌++◌, ◌==◌, ltb, eqb,
  if◌then◌else◌, count, update, keep, exists, best,
}
use agentmom.Settings.{Settings, Url}
use agentmom.Text.{trim_end_where, split, to_lowercase}
use agentmom.Catalog.{Catalog, Tunnel}
use agentmom.Catalog.Exec.{
  ◌>>◌, err, database_failed, clock_failed, Exec, ok, pure, lift, ok_or, bad_url, ◌>>=◌,
}
use text.Mathlib.Text.{starts_with}

-- url.host_str() is "agentmom.xyz" in any case, and the path is one of the API's own
unfoldable pub service_tunnel_uses_path_route : Url → Bool
service_tunnel_uses_path_route url = elim url.host [
  | none ↦ false
  | some host ↦ to_lowercase host == "agentmom.xyz" && starts_with url.path "/tunnels/"
]

abbrev pub serves : String → String → Tunnel → Bool
serves workspace service t = t.workspace_name == workspace && t.service == service

abbrev pub at_host : String → Tunnel → Bool
at_host hostname t = t.hostname == hostname

-- INSERT … ON CONFLICT(hostname) DO UPDATE
unfoldable pub put_tunnel : Tunnel → List Tunnel → List Tunnel
put_tunnel t ts =
    if exists (at_host t.hostname) ts then update (at_host t.hostname) (λ _. t) ts else ts ++ t ∷ []

abbrev pub drop_others : String → String → String → List Tunnel → List Tunnel
drop_others workspace service hostname =
    keep (λ t. not (serves workspace service t && not (at_host hostname t)))

-- A statement of its own, which the database carries out or refuses.
abbrev pub statement : Bool → (Catalog → Catalog) → Exec Unit
statement works f db = if works then (ok tt, f db) else (err database_failed, db)

-- The two statements, which no transaction holds together. `deletes` and `inserts` are whether the
-- database carries them out, and `clock` is what now_epoch gives between them.
unfoldable pub replace_tunnel :
    Bool → Option ℕ → Bool → String → String → String → String → String → Exec Unit
replace_tunnel deletes clock inserts hostname workspace node service url = do
  statement deletes
      (λ db. record db { tunnels = drop_others workspace service hostname db.tunnels })
  now ← lift (ok_or clock clock_failed)
  statement inserts (λ db. record db {
    tunnels =
        put_tunnel
          (record {
            hostname = hostname;
            workspace_name = workspace;
            node_id = node;
            service = service;
            url = url;
            updated_at = now;
          })
          db.tunnels;
  })

unfoldable pub service_tunnel_upsert :
    Settings → Bool → Option ℕ → Bool → String → String → String → String → Exec Unit
service_tunnel_upsert env deletes clock inserts workspace node service url = do
  parsed ← lift (ok_or (env.parse_url url) bad_url)
  if service_tunnel_uses_path_route parsed then pure tt else do
    host ← lift (ok_or parsed.host bad_url)
    replace_tunnel deletes clock inserts (to_lowercase host) workspace node service url

-- ORDER BY updated_at DESC LIMIT 1
unfoldable pub service_tunnel_get : String → String → Catalog → Option Tunnel
service_tunnel_get workspace service db =
    best (serves workspace service) (λ a b. ltb b.updated_at a.updated_at) db.tunnels

-- Whether a row was deleted.
unfoldable pub service_tunnel_delete : String → String → Exec Bool
service_tunnel_delete workspace service db = (
  ok (not (eqb (count (serves workspace service) db.tunnels) 0)),
  record db { tunnels = keep (λ t. not (serves workspace service t)) db.tunnels },
)

abbrev first_part : List String → String → String
first_part [] s = s
first_part (part ∷ parts) s = part

-- hostname.split(':').next(), without dots at the end, in lower case
unfoldable pub canonical_hostname : String → String
canonical_hostname hostname =
    to_lowercase (trim_end_where (λ c. eqb c b'.') (first_part (split b':' hostname) hostname))

unfoldable pub service_tunnel_hostname_registered : String → Catalog → Bool
service_tunnel_hostname_registered hostname db =
    exists
      (λ t.
        at_host (canonical_hostname hostname) t
        && exists (λ w. w.name == t.workspace_name && not (w.status == "removed")) db.workspaces)
      db.tunnels
