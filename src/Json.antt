-- ===== src/Json.antt =====
-- The JSON values that the program builds with `json!` and reads with `Value::get`.
use agentmom.Prelude.{ℕ, String, Bool, Option, none, some, ◌==◌, if◌then◌else◌}

mutual
  pub data Json : Type 0 where
    null : Json
    bool : Bool → Json
    num : ℕ → Json
    text : String → Json
    arr : Items → Json
    obj : Fields → Json

  pub data Items : Type 0 where
    nil : Items
    item : Json → Items → Items

  pub data Fields : Type 0 where
    end : Fields
    field : String → Json → Fields → Fields

-- The last binding of a key counts, as in a parsed object.
unfoldable pub get_field : String → Fields → Option Json
get_field k end = none
get_field k (field j v fs) = elim (get_field k fs) [
  | some w ↦ some w
  | none ↦ if j == k then some v else none
]

-- Value::get with a key
unfoldable pub get : Json → String → Option Json
unfolding get_field
get (obj fs) k = get_field k fs
get _ k = none

-- Value::as_str
abbrev pub as_str : Option Json → Option String
as_str (some (text s)) = some s
as_str _ = none

-- Value::as_bool
abbrev pub as_bool : Option Json → Option Bool
as_bool (some (bool b)) = some b
as_bool _ = none
