-- ===== src/Examples/Lookups.antt =====
-- Expiry, selection and tunnels in the small fleet.
use agentmom.Prelude.{true, ◌≤◌, ◌≡◌, refl, none, arith, i64_max, true}
use agentmom.Catalog.Exec.{ok}
use agentmom.Jobs.{expire_stale_job_leases, expire_claims, expire_runs, cutoff_before}
use agentmom.Jobs.Expiry.{Swept, expire_stale_job_leases-Swept}
use agentmom.Nodes.{select_ready_node}
use agentmom.Nodes.Selection.{Selection, select_ready_node-Selection}
use agentmom.Text.{byte_len, all_bytes, trim}
use agentmom.Text.Bytes.{is_slug_byte}
use agentmom.Names.{
  sanitize_workspace_name, slug_loop, drop_dashes, shorten, finish_slug, workspace_slug_from_name,
}
use agentmom.Names.Slugs.{Shape, workspace_slug-Shape}
use agentmom.Examples.Fleet.{settings, fleet}

expires : (expire_stale_job_leases settings 5010 fleet).0 ≡ ok tt
unfolding expire_stale_job_leases expire_claims expire_runs cutoff_before
expires = refl

expire_stale_job_leases-Swept_example :
    Swept settings 5010 (expire_stale_job_leases settings 5010 fleet).1.jobs
expire_stale_job_leases-Swept_example = expire_stale_job_leases-Swept settings 5010 fleet expires

short_timeout : 90 ≤ i64_max
short_timeout = omega arith

select_ready_node-Selection_example :
    Selection 4920 none fleet (select_ready_node settings 5010 none fleet)
select_ready_node-Selection_example =
    select_ready_node-Selection settings 5010 none fleet short_timeout

hash_digits : byte_len "0123456789ab" ≡ 12
unfolding byte_len
hash_digits = refl

hash_hex : all_bytes is_slug_byte "0123456789ab" ≡ true
unfolding all_bytes
hash_hex = refl

slugged : workspace_slug_from_name settings "My Notes" ≡ ok "my-notes-0123456789ab"
unfolding workspace_slug_from_name trim byte_len slug_loop drop_dashes finish_slug shorten
slugged = refl

workspace_slug-Shape_example :
    Shape "my-notes-0123456789ab"
    × (sanitize_workspace_name "my-notes-0123456789ab" ≡ ok "my-notes-0123456789ab")
workspace_slug-Shape_example =
    workspace_slug-Shape settings "My Notes" "my-notes-0123456789ab" hash_digits hash_hex slugged
