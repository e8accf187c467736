-- ===== src/Worker/Site.antt =====
-- A worker between the API server and a machine: the requests that it sends, and the machine that
-- it works on. A request can be lost on its way, and so can the response to one that was handled.
use agentmom.Prelude.{ℕ, String, Bool, false, Option, none, some, if◌then◌else◌}
use agentmom.Json.{Json}
use agentmom.Settings.{Settings}
use agentmom.Catalog.{Catalog}
use agentmom.Catalog.Exec.{Exec, Result, ok, err}
use agentmom.Api.Tokens.{Tokens}
use agentmom.Api.Worker.{api_worker_workspace_state, api_worker_workspace_event}
use agentmom.Machines.Vm.{
  Tools, Machine, VmStatus, Act, load_spec, send_request, receive_response, run, vm_status,
}

pub record Site (W : Type 0) : Type 0 where
  pub catalog : Catalog
  pub machine : Machine W

-- WorkerApi: the settings of the server, the tokens of its workers, the header that this worker
-- sends, the time and the node.
pub record WorkerApi : Type 0 where
  pub env : Settings
  pub tokens : Tokens
  pub value : Option String
  pub now : ℕ
  pub node : String

abbrev pub SiteAct : Type 0 → Type 0
SiteAct W = Site W → Result (Unit {0}) × Site W

abbrev pub both : Result (Unit {0}) → Result (Unit {0}) → Result (Unit {0})
both (ok u) r = r
both (err e) r = err e

module _ {W : Type 0} where
  abbrev pub then_site : Result (Unit {0}) → SiteAct W → SiteAct W
  then_site (ok u) k s = k s
  then_site (err e) k s = (err e, s)

  infixl 5 ◌>>◌
  abbrev pub ◌>>◌ : SiteAct W → SiteAct W → SiteAct W
  ◌>>◌ a k s = then_site (a s).0 k (a s).1

module _ {W : Type 0} (tools : Tools W) where
  abbrev pub on_machine : Act tools → SiteAct W
  on_machine a s = ((a s.machine).0, record s { machine = (a s.machine).1 })

  -- The handler runs on the server; the result is the response, where it arrives.
  abbrev pub handled : Exec Unit → SiteAct W
  handled x s =
      let back = run tools receive_response s.machine in
      (both back.0 (x s.catalog).0, record { catalog = (x s.catalog).1; machine = back.1 })

  unfoldable pub call : Exec Unit → SiteAct W
  unfolding run
  call x = on_machine (run tools send_request) >> handled x

  module _ (api : WorkerApi) where
    unfoldable pub update_workspace :
        String → Option String → Option String → Bool → Bool → SiteAct W
    unfolding call api_worker_workspace_state
    update_workspace name status desired touch mark_backup = call (
        api_worker_workspace_state api.env api.tokens api.value api.now api.node name status desired
          none touch mark_backup)

    unfoldable pub update_workspace_version : String → String → SiteAct W
    unfolding call api_worker_workspace_state
    update_workspace_version name version = call (
        api_worker_workspace_state api.env api.tokens api.value api.now api.node name none none
          (some version) false false)

    unfoldable pub event : String → String → String → String → Json → SiteAct W
    unfolding call api_worker_workspace_event
    event name event_type status message metadata = call (
        api_worker_workspace_event api.env api.tokens api.value api.now api.node name event_type
          status message metadata)

  abbrev pub given_handle :
      Result (Unit {0}) → Machine W → Act tools → (VmStatus → Act tools) → Act tools
  given_handle (ok u) m absent present n = present (vm_status tools n) n
  given_handle (err e) m absent present n = absent n

  -- The match on what get_vm returns: it fails without a machine or without its specification.
  unfoldable pub with_vm : Act tools → (VmStatus → Act tools) → Act tools
  unfolding run vm_status
  with_vm absent present m =
      if m.exists_dir
      then given_handle (run tools load_spec m).0 m absent present (run tools load_spec m).1
      else absent m
