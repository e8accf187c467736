-- ===== src/Tunnels/Stored.antt =====
-- What a lookup of a tunnel returns after one was stored.
use agentmom.Prelude.{
  true, false, Option, ◌==◌, ℕ, String, ◌≡◌, ◌⊎◌, Bool, true, false, not, ◌&&◌, some, keep, Has,
}
use agentmom.Settings.{Settings, Url}
use agentmom.Text.{to_lowercase}
use agentmom.Catalog.{Catalog, Tunnel}
use agentmom.Catalog.Exec.{Result, ok, err}
use agentmom.Tunnels.{put_tunnel, drop_others, service_tunnel_get, service_tunnel_uses_path_route}

-- The two statements of an upsert, one after the other.
unfoldable write_tunnel : Tunnel → Catalog → Catalog
write_tunnel t db = record db {
  tunnels = put_tunnel t (drop_others t.workspace_name t.service t.hostname db.tunnels);
}

-- What an upsert of a service URL leaves, by the parsed URL.
abbrev pub Stored : ℕ → String → String → String → String → Url → Catalog → Catalog → Type 0
Stored now workspace node service url parsed db db' =
    (host : String) × (parsed.host ≡ some host)
    × (service_tunnel_get workspace service db'
        ≡ some (record {
          hostname = to_lowercase host;
          workspace_name = workspace;
          node_id = node;
          service = service;
          url = url;
          updated_at = now;
        }))
    × ((r : Tunnel)
        → (r.workspace_name == workspace && r.service == service) ≡ false
        → (r.hostname == to_lowercase host) ≡ false
        → Has r db.tunnels
        → Has r db'.tunnels)

-- What an upsert leaves that fails after its first statement.
abbrev pub Cleared : String → String → Url → Catalog → Catalog → Type 0
Cleared workspace service parsed db db' =
    (host : String) × (parsed.host ≡ some host)
    × (db' ≡ record db {
      tunnels =
          keep
            (λ t. not (
              t.workspace_name == workspace
              && t.service == service
              && not (t.hostname == to_lowercase host)))
            db.tunnels;
    })

abbrev pub Upsert :
    Settings
    → Option ℕ
    → String
    → String
    → String
    → String
    → Catalog
    → Result (Unit {0}) × Catalog
    → Type 0
Upsert env clock workspace node service url db (err e, db') =
    (db' ≡ db)
    ⊎ ((parsed : Url) × (env.parse_url url ≡ some parsed)
        × (service_tunnel_uses_path_route parsed ≡ false)
        × Cleared workspace service parsed db db')
Upsert env clock workspace node service url db (ok u, db') =
    (parsed : Url) × (env.parse_url url ≡ some parsed)
    × ((service_tunnel_uses_path_route parsed ≡ true) × (db' ≡ db)
        ⊎ ((now : ℕ) × (clock ≡ some now)
            × (service_tunnel_uses_path_route parsed ≡ false)
            × Stored now workspace node service url parsed db db'))
