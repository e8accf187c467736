-- ===== src/Api/Tokens.antt =====
-- The tokens of the workers: `require_worker_node_token` and what it calls, of src/db.rs.
-- Reading the token files is the work of the environment.
use agentmom.Prelude.{String, Option, none, some, List, [], ◌∷◌, ◌==◌, if◌then◌else◌}
use agentmom.Text.{trim, strip_prefix}
use agentmom.Catalog.Exec.{unauthorized, Result, ok, err}

-- What `worker_node_tokens` and `worker_token` read: the token of each node, of two
-- entries for one node the later one first, and the token that all nodes share when no node has
-- one of its own.
pub record Tokens : Type 0 where
  pub per_node : List (String × String)
  pub shared : Option String

unfoldable pub lookup : String → List (String × String) → Option String
lookup node [] = none
lookup node ((k, token) ∷ rest) = if k == node then some token else lookup node rest

-- `value` is the header `authorization`.
unfoldable pub require_bearer_token : Option String → String → Result (Unit {0})
require_bearer_token value expected = if trim expected == "" then err unauthorized else elim value [
  | none ↦ err unauthorized
  | some header ↦ elim (strip_prefix "Bearer " header) [
    | none ↦ err unauthorized
    | some actual ↦ if actual == expected then ok tt else err unauthorized
  ]
]

unfoldable pub require_worker_token : Tokens → Option String → Result (Unit {0})
require_worker_token tokens value = elim tokens.shared [
  | none ↦ err unauthorized
  | some expected ↦ require_bearer_token value expected
]

unfoldable pub require_worker_node_token : Tokens → Option String → String → Result (Unit {0})
require_worker_node_token tokens value node = elim tokens.per_node [
  | [] ↦ require_worker_token tokens value
  | _ ∷ _ ↦ elim (lookup node tokens.per_node) [
    | none ↦ err unauthorized
    | some expected ↦ require_bearer_token value expected
  ]
]
