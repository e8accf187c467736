-- ===== src/Examples/Previews.antt =====
-- Ports, previews and backups on one host.
use agentmom.Prelude.{
  ℕ, ◌≡◌, refl, Bool, true, false, Option, none, some, [], ◌∷◌, ltb, keep, exists,
}
use agentmom.Json.{obj, text, field, end, get, get_field}
use agentmom.Catalog.Exec.{ok}
use agentmom.Text.{byte_len, trim, trim_start_where, trim_end_where, lower}
use agentmom.Text.Parts.{any_char, split_once, contains}
use agentmom.Text.Numbers.{parse_unsigned}
use agentmom.Restore.{split_location, check_location}
use agentmom.Restore.Artifact.{
  Output, first_id, run_restic_backup, artifact_at, run_restic_backup-check_location,
}
use agentmom.Tunnels.Ports.{
  parse_service_tunnel_port_range, reserve_host_port, reserve_in_range, try_reserve_port,
  try_mark_port_reserved, release,
}
use agentmom.Tunnels.Reservation.{Reservation, reserve_host_port-Reservation}
use agentmom.Tunnels.Previews.{PreviewOpenRequest, preview_spec, normalize_preview_name}
use agentmom.Tunnels.Specified.{Preview, preview_spec-Preview}

-- The first port of the range is reserved, the second cannot be bound.
abbrev can_bind : ℕ → Bool
can_bind port = ltb 8001 port

abbrev offers : ℕ → Option ℕ
offers n = none

third_port :
    reserve_host_port (some "8000-8010") can_bind offers (8000 ∷ []) ≡ (ok 8002, 8000 ∷ 8002 ∷ [])
unfolding reserve_host_port parse_service_tunnel_port_range split_once parse_unsigned
    reserve_in_range try_reserve_port try_mark_port_reserved release exists keep
third_port = refl

reserve_host_port-Reservation_example :
    Reservation can_bind
      (8000 ∷ [])
      (some "8000-8010")
      (reserve_host_port (some "8000-8010") can_bind offers (8000 ∷ []))
reserve_host_port-Reservation_example =
    reserve_host_port-Reservation (some "8000-8010") can_bind offers (8000 ∷ [])

abbrev request : PreviewOpenRequest
request = record { name = " My App.v2 "; host = "0.0.0.0"; port = 3000; path = "" }

my_app : normalize_preview_name " My App.v2 " ≡ ok "my-app-v2"
unfolding normalize_preview_name trim trim_start_where trim_end_where lower byte_len
my_app = refl

preview_spec-Preview_example : Preview request (preview_spec request)
preview_spec-Preview_example = preview_spec-Preview request

abbrev output : Output
output =
    none
    ∷ some (obj (field "message_type" (text "status") end))
    ∷ some (obj (field "message_type" (text "summary") (field "snapshot_id" (text "4bf2a1") end)))
    ∷ []

reported_id : first_id output ≡ some "4bf2a1"
unfolding first_id get get_field
reported_id = refl

plain_id : contains b'#' "4bf2a1" ≡ false
unfolding contains any_char
plain_id = refl

run_restic_backup-check_location_example :
    (run_restic_backup (some "repo") true (some output) ≡ ok (artifact_at "repo" "4bf2a1"))
    × (split_location (artifact_at "repo" "4bf2a1").location ≡ some ("repo", "4bf2a1"))
    × (check_location (some "repo") true (artifact_at "repo" "4bf2a1").location ≡ ok tt)
run_restic_backup-check_location_example =
    run_restic_backup-check_location "repo" "4bf2a1" output refl (plain_id, refl) reported_id
