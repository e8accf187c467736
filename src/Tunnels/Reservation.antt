-- ===== src/Tunnels/Reservation.antt =====
-- What the reservation of a port does to the set of reserved ports.
use agentmom.Prelude.{
  ℕ, zero, suc, ◌+◌, ◌-◌, ◌≤◌, ◌<◌, String, ◌≡◌, refl, ◌⊎◌, inl, inr, Bool, true, false, not, ◌||◌,
  Option, none, some, List, [], ◌∷◌, ◌++◌, arith, eqb, Bool-cases, keep, exists,
}
use agentmom.Catalog.Exec.{Result, ok, err, no_free_port}
use agentmom.Tunnels.Ports.{
  try_mark_port_reserved, release, try_reserve_port, Reserved, reserve_in_range, reserve_ephemeral,
  parse_service_tunnel_port_range, reserve_host_port, reserve_between, or_rest, on_offer,
}

-- A port that is reserved already, or that a listener cannot be bound to.
abbrev pub busy : (ℕ → Bool) → List ℕ → ℕ → Bool
busy free taken port = exists (eqb port) taken || not (free port)

-- A new port is added to the set; an error leaves the set as it was.
abbrev pub Kept : List ℕ → Result ℕ × List ℕ → Type 0
Kept taken (ok port, after) = (exists (eqb port) taken ≡ false) × (after ≡ taken ++ port ∷ [])
Kept taken (err e, after) = after ≡ taken

-- The outcome of the search through the `left` ports from `from` on.
abbrev pub Found : (ℕ → Bool) → ℕ → ℕ → List ℕ → Result ℕ × List ℕ → Type 0
Found free left from taken (ok port, after) =
    (from ≤ port)
    × (port < from + left)
    × (free port ≡ true)
    × ((j : ℕ) → from ≤ j → j < port → busy free taken j ≡ true)
    × Kept taken (ok port, after)
Found free left from taken (err e, after) =
    (e ≡ no_free_port)
    × ((j : ℕ) → from ≤ j → j < from + left → busy free taken j ≡ true)
    × (after ≡ taken)

release-append :
    (port : ℕ) (taken : List ℕ)
    → exists (eqb port) taken ≡ false
    → release port (taken ++ port ∷ []) ≡ taken
unfolding release exists keep
release-append port [] h = let same : eqb port port ≡ true = ground arith in rw same refl
release-append port (p ∷ taken) h =
    let apart_here : eqb port p ≡ false = ground arith in
    let others : exists (eqb port) taken ≡ false = ground arith in
    rw (apart_here, release-append port taken others) refl

-- An attempt reserves a port that is not busy, and leaves the set as it was for one that is.
abbrev Attempt : (ℕ → Bool) → ℕ → List ℕ → Reserved → Type 0
Attempt free port taken r =
    ((busy free taken port ≡ true) × (r ≡ (none, taken)))
    ⊎ ((exists (eqb port) taken ≡ false)
        × (free port ≡ true)
        × (r ≡ (some port, taken ++ port ∷ [])))

try_reserve_port-Attempt :
    (free : ℕ → Bool) (port : ℕ) (taken : List ℕ)
    → Attempt free port taken (try_reserve_port free port taken)
unfolding try_reserve_port try_mark_port_reserved
try_reserve_port-Attempt free port taken = elim (Bool-cases (exists (eqb port) taken)) [
  | inl e ↦ inl (rw e refl, rw e refl)
  | inr e ↦ elim (Bool-cases (free port)) [
    | inl f ↦ inr (e, f, rw (e, f) refl)
    | inr f ↦ inl (rw (e, f) refl, rw (e, f, release-append port taken e) refl)
  ]
]

from_next :
    (free : ℕ → Bool) (left from : ℕ) (taken : List ℕ) (r : Result ℕ × List ℕ)
    → busy free taken from ≡ true
    → Found free left (from + 1) taken r
    → Found free (suc left) from taken r
from_next free left from taken (ok port, after) here (low, high, is_free, below, kept) = (
  omega arith,
  omega arith,
  is_free,
  λ j l h. elim (Bool-cases (eqb j from)) [
    | inl e ↦ let same : j ≡ from = ground arith in rw same here
    | inr e ↦ below j (ground arith) h
  ],
  kept,
)
from_next free left from taken (err e, after) here (is_none, all, same_set) = (
  is_none,
  λ j l h. elim (Bool-cases (eqb j from)) [
    | inl e ↦ let same : j ≡ from = ground arith in rw same here
    | inr e ↦ all j (ground arith) (omega arith)
  ],
  same_set,
)

Attempt-Found :
    (free : ℕ → Bool) (left from : ℕ) (taken : List ℕ) (scan : List ℕ → Result ℕ × List ℕ)
    (r : Reserved)
    → Attempt free from taken r
    → Found free left (from + 1) taken (scan taken)
    → Found free (suc left) from taken (or_rest r.0 r.1 (scan r.1))
Attempt-Found free left from taken scan r (inl (here, e)) found =
    rw e (from_next free left from taken (scan taken) here found)
Attempt-Found free left from taken scan r (inr (new, is_free, e)) found =
    rw e (omega arith, omega arith, is_free, λ j l h. absurd (omega arith), (new, refl))

reserve_in_range-Found :
    (free : ℕ → Bool) (left from : ℕ) (taken : List ℕ)
    → Found free left from taken (reserve_in_range free left from taken)
unfolding reserve_in_range
reserve_in_range-Found free zero from taken = (refl, λ j l h. absurd (omega arith), refl)
reserve_in_range-Found free (suc left) from taken =
    Attempt-Found free left from taken (reserve_in_range free left (from + 1))
      (try_reserve_port free from taken) (try_reserve_port-Attempt free from taken)
      (reserve_in_range-Found free left (from + 1) taken)

on_offer-Kept :
    (taken : List ℕ) (rest : Result ℕ × List ℕ)
    → Kept taken rest
    → (o : Option ℕ) → Kept taken (on_offer o taken rest)
unfolding try_mark_port_reserved
on_offer-Kept taken rest kept none = refl
on_offer-Kept taken rest kept (some port) = elim (Bool-cases (exists (eqb port) taken)) [
  | inl f ↦ rw f kept
  | inr f ↦ rw f (f, refl)
]

reserve_ephemeral-Kept :
    (offered : ℕ → Option ℕ) (left n : ℕ) (taken : List ℕ)
    → Kept taken (reserve_ephemeral offered left n taken)
unfolding reserve_ephemeral
reserve_ephemeral-Kept offered zero n taken = refl
reserve_ephemeral-Kept offered (suc left) n taken =
    on_offer-Kept taken (reserve_ephemeral offered left (n + 1) taken)
      (reserve_ephemeral-Kept offered left (n + 1) taken) (offered n)

abbrev pub InRange : (ℕ → Bool) → List ℕ → Result (ℕ × ℕ) → Result ℕ × List ℕ → Type 0
InRange free taken (err e) r = r ≡ (err e, taken)
InRange free taken (ok (from, to)) r = Found free (to + 1 - from) from taken r

abbrev pub Reservation : (ℕ → Bool) → List ℕ → Option String → Result ℕ × List ℕ → Type 0
Reservation free taken none r = Kept taken r
Reservation free taken (some raw) r = InRange free taken (parse_service_tunnel_port_range raw) r

-- Where a range of ports is configured, the reservation gives the first port of it that is not
-- reserved and that a listener can be bound to, and fails only where there is none or where the
-- range cannot be read. Without a range it gives a port that was not reserved. The port is added to
-- the reserved ones, and a failure leaves them as they were.
pub reserve_host_port-Reservation :
    (range : Option String) (free : ℕ → Bool) (offered : ℕ → Option ℕ) (taken : List ℕ)
    → Reservation free taken range (reserve_host_port range free offered taken)
unfolding reserve_host_port
reserve_host_port-Reservation none free offered taken = reserve_ephemeral-Kept offered 32 0 taken
reserve_host_port-Reservation (some raw) free offered taken =
    read (parse_service_tunnel_port_range raw)
  where
    read : (r : Result (ℕ × ℕ)) → InRange free taken r (reserve_between free r taken)
    read (err e) = refl
    read (ok (from, to)) = reserve_in_range-Found free (to + 1 - from) from taken
