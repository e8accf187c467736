-- ===== src/Tunnels/Ports.antt =====
-- The ports of service tunnels on a host: `reserve_host_port` of src/service.rs and what it calls.
-- The set of reserved ports is the list of them.
use agentmom.Prelude.{
  ℕ, zero, suc, ◌+◌, ◌-◌, String, Bool, not, Option, none, some, List, [], ◌∷◌, ◌++◌, ltb, eqb,
  if◌then◌else◌, keep, exists,
}
use agentmom.Text.Parts.{split_once}
use agentmom.Text.Numbers.{parse_unsigned, u16_max}
use agentmom.Catalog.Exec.{Result, ok, err, io_failed, no_free_port, bad_port_range}

unfoldable pub try_mark_port_reserved : ℕ → List ℕ → Option (List ℕ)
try_mark_port_reserved port taken =
    if exists (eqb port) taken then none else some (taken ++ port ∷ [])

-- The drop of a reservation.
unfoldable pub release : ℕ → List ℕ → List ℕ
release port taken = keep (λ p. not (eqb port p)) taken

-- What an attempt returns, and the set after it.
abbrev pub Reserved : Type 0
Reserved = Option ℕ × List ℕ

abbrev bound_or_released : Bool → ℕ → List ℕ → List ℕ → Reserved
bound_or_released free port before after =
    if free then (some port, after) else (none, release port after)

abbrev pub on_mark : ℕ → List ℕ → Option (List ℕ) → Bool → Reserved
on_mark port before none free = (none, before)
on_mark port before (some after) free = bound_or_released free port before after

-- `free` is whether a listener can be bound to a port.
unfoldable pub try_reserve_port : (ℕ → Bool) → ℕ → List ℕ → Reserved
unfolding try_mark_port_reserved release
try_reserve_port free port taken =
    on_mark port taken (try_mark_port_reserved port taken) (free port)

abbrev pub or_rest : Option ℕ → List ℕ → Result ℕ × List ℕ → Result ℕ × List ℕ
or_rest none taken rest = rest
or_rest (some port) taken rest = (ok port, taken)

-- The loop over the `left` ports from `port` on.
unfoldable pub reserve_in_range : (ℕ → Bool) → ℕ → ℕ → List ℕ → Result ℕ × List ℕ
unfolding try_reserve_port
reserve_in_range free zero port taken = (err no_free_port, taken)
reserve_in_range free (suc left) port taken =
    let attempt = try_reserve_port free port taken in
    let rest = reserve_in_range free left (port + 1) attempt.1 in or_rest attempt.0 attempt.1 rest

abbrev unless_reserved : Result ℕ × List ℕ → ℕ → Option (List ℕ) → Result ℕ × List ℕ
unless_reserved rest port none = rest
unless_reserved rest port (some after) = (ok port, after)

abbrev pub on_offer : Option ℕ → List ℕ → Result ℕ × List ℕ → Result ℕ × List ℕ
on_offer none taken rest = (err io_failed, taken)
on_offer (some port) taken rest = unless_reserved rest port (try_mark_port_reserved port taken)

-- `offered` is the port that the system gives at an attempt, none where it fails; there are `left`
-- attempts to come, and `n` were made.
unfoldable pub reserve_ephemeral : (ℕ → Option ℕ) → ℕ → ℕ → List ℕ → Result ℕ × List ℕ
unfolding try_mark_port_reserved
reserve_ephemeral offered zero n taken = (err no_free_port, taken)
reserve_ephemeral offered (suc left) n taken =
    let rest = reserve_ephemeral offered left (n + 1) taken in on_offer (offered n) taken rest

abbrev ends_of_range : Option ℕ → Option ℕ → Result (ℕ × ℕ)
ends_of_range (some from) (some to) = if ltb to from then err bad_port_range else ok (from, to)
ends_of_range _ _ = err bad_port_range

abbrev parsed_range : Option (String × String) → Result (ℕ × ℕ)
parsed_range none = err bad_port_range
parsed_range (some (from, to)) =
    ends_of_range (parse_unsigned u16_max from) (parse_unsigned u16_max to)

abbrev or_split : Option (String × String) → Option (String × String) → Option (String × String)
or_split none other = other
or_split (some parts) other = some parts

-- The errors are one constructor here.
unfoldable pub parse_service_tunnel_port_range : String → Result (ℕ × ℕ)
unfolding split_once parse_unsigned
parse_service_tunnel_port_range raw =
    parsed_range (or_split (split_once b'-' raw) (split_once b':' raw))

abbrev pub reserve_between : (ℕ → Bool) → Result (ℕ × ℕ) → List ℕ → Result ℕ × List ℕ
reserve_between free (err e) taken = (err e, taken)
reserve_between free (ok (from, to)) taken = reserve_in_range free (to + 1 - from) from taken

-- `range` is MOM_SERVICE_TUNNEL_PORT_RANGE.
unfoldable pub reserve_host_port :
    Option String → (ℕ → Bool) → (ℕ → Option ℕ) → List ℕ → Result ℕ × List ℕ
unfolding parse_service_tunnel_port_range reserve_in_range reserve_ephemeral
reserve_host_port none free offered taken = reserve_ephemeral offered 32 0 taken
reserve_host_port (some raw) free offered taken =
    reserve_between free (parse_service_tunnel_port_range raw) taken
