-- ===== src/Worker/Agreement.antt =====
-- After a worker has paused, suspended, stopped or removed a workspace, the catalog says what the
-- machine is.
use agentmom.Prelude.{subst, String, ◌≡◌, refl, sym, ap, ◌∙◌, false, Option, none, some, find}
use agentmom.Json.{Json}
use agentmom.Catalog.{Catalog, Workspace}
use agentmom.Workspaces.{is_named, reported}
use agentmom.Api.Worker.{api_worker_workspace_state, api_worker_workspace_event}
use agentmom.Machines.Vm.{run, load_spec, Tools, Machine, Act}
use agentmom.Worker.Site.{Site, SiteAct, WorkerApi, ◌>>◌, on_machine, update_workspace, event}
use agentmom.Worker.Rows.{state-row, event-workspaces}
use agentmom.Worker.Success.{Steady, Then, Then-Then, call-Then, Done, machine-Then, exactly}

module _ {W : Type 0} (tools : Tools W) (api : WorkerApi) (name : String) where
  -- What the row of the workspace says.
  abbrev pub WantsIn : String → Catalog → Type 0
  WantsIn desired c =
      (r : Workspace) × (find (is_named name) c.workspaces ≡ some r) × (r.desired_state ≡ desired)

  abbrev pub HasIn : String → String → Catalog → Type 0
  HasIn status desired c =
      (r : Workspace) × (find (is_named name) c.workspaces ≡ some r)
      × (r.status ≡ status)
      × (r.desired_state ≡ desired)

  pub wants-Then :
      (M : Machine W → Type 0) (status : Option String) (desired : String) (s : Site W)
      → Steady tools api name M
      → M s.machine
      → Then tools api name
          (λ t. WantsIn desired t.catalog × M t.machine)
          (update_workspace tools api name status (some desired) false false s)
  unfolding update_workspace
  wants-Then M status desired s stays m =
      call-Then tools api name M
        (api_worker_workspace_state api.env api.tokens api.value api.now api.node name status
          (some desired) none false false)
        (WantsIn desired) s stays m
        (λ h.
          let (w, f, after) =
            state-row api.env api.tokens api.value api.now api.node name status (some desired) false
              false s.catalog h in
          (reported api.now status (some desired) false false w, after, refl))

  pub has-Then :
      (M : Machine W → Type 0) (status desired : String) (s : Site W)
      → Steady tools api name M
      → WantsIn desired s.catalog
      → M s.machine
      → Then tools api name
          (λ t. HasIn status desired t.catalog × M t.machine)
          (update_workspace tools api name (some status) none false false s)
  unfolding update_workspace
  has-Then M status desired s stays (r, row, wanted) m =
      call-Then tools api name M
        (api_worker_workspace_state api.env api.tokens api.value api.now api.node name (some status)
          none none false false)
        (HasIn status desired) s stays m
        (λ h.
          let (w, f, after) =
            state-row api.env api.tokens api.value api.now api.node name (some status) none false
              false s.catalog h in
          let same : w ≡ r = some_inj w r (sym f ∙ row) in
          (
            reported api.now (some status) none false false w,
            after,
            refl,
            ap (λ (v : Workspace). v.desired_state) same ∙ wanted,
          ))
    where
      some_inj : (v w : Workspace) → some v ≡ some w → v ≡ w
      some_inj v w e = cc

  pub sets-Then :
      (M : Machine W → Type 0) (status desired : String) (s : Site W)
      → Steady tools api name M
      → M s.machine
      → Then tools api name
          (λ t. HasIn status desired t.catalog × M t.machine)
          (update_workspace tools api name (some status) (some desired) false false s)
  unfolding update_workspace
  sets-Then M status desired s stays m =
      call-Then tools api name M
        (api_worker_workspace_state api.env api.tokens api.value api.now api.node name (some status)
          (some desired) none false false)
        (HasIn status desired) s stays m
        (λ h.
          let (w, f, after) =
            state-row api.env api.tokens api.value api.now api.node name (some status)
              (some desired) false false s.catalog h in
          (reported api.now (some status) (some desired) false false w, after, refl, refl))

  pub event-Then :
      (M : Machine W → Type 0) (status desired event_type outcome message : String)
      (metadata : Json) (s : Site W)
      → Steady tools api name M
      → HasIn status desired s.catalog
      → M s.machine
      → Then tools api name
          (λ t. HasIn status desired t.catalog × M t.machine)
          (event tools api name event_type outcome message metadata s)
  unfolding event
  event-Then M status desired event_type outcome message metadata s stays (r, row, is, wants) m =
      call-Then tools api name M
        (api_worker_workspace_event api.env api.tokens api.value api.now api.node name event_type
          outcome message metadata)
        (HasIn status desired) s stays m
        (λ h. (
          r,
          rw
              (event-workspaces api.env api.tokens api.value api.now api.node name event_type
                outcome message metadata s.catalog h)
              row,
          is,
          wants,
        ))

  -- The site after a worker told the server what is wanted, and the machine in which it then looks
  -- for the status.
  abbrev pub told : String → Site W → Site W
  told desired s = (update_workspace tools api name none (some desired) false false s).1

  abbrev pub looked : String → Site W → Machine W
  looked desired s = (run tools load_spec (told desired s).machine).1

  -- The steps that pausing and suspending have in common.
  pub settle-Then :
      (M : Machine W → Type 0) (a : Act tools) (state event_type message : String) (metadata : Json)
      (s : Site W)
      → Steady tools api name M
      → Done tools api name M (a (told state s).machine)
      → Then tools api name
          (λ t. HasIn state state t.catalog × M t.machine)
          ((update_workspace tools api name none (some state) false false
              >> on_machine tools a
              >> update_workspace tools api name (some state) none false false
              >> event tools api name event_type "succeeded" message metadata)
            s)
  settle-Then M a state event_type message metadata s stays h =
      Then-Then tools api name (λ t. HasIn state state t.catalog × M t.machine)
        (λ t. HasIn state state t.catalog × M t.machine) reported_all
        (event tools api name event_type "succeeded" message metadata) s
        (Then-Then tools api name (λ t. WantsIn state t.catalog × M t.machine)
          (λ t. HasIn state state t.catalog × M t.machine) acted
          (update_workspace tools api name (some state) none false false) s
          (Then-Then tools api name Told (λ t. WantsIn state t.catalog × M t.machine) tell
            (on_machine tools a) s
            (exactly tools api name (λ t. WantsIn state t.catalog × Unit) tell s
              (wants-Then (λ m. Unit) none state s (λ m w u. u) tt))
            (λ t k. machine-Then tools api name (WantsIn state) M a t k.0.0 (
              subst (λ g. Done tools api name M (a g)) (ap (λ (g : Site W). g.machine) (sym k.1))
                h)))
          (λ t k. has-Then M state state t stays k.0 k.1))
        (λ t k. event-Then M state state event_type "succeeded" message metadata t stays k.0 k.1)
    where
      tell : SiteAct W
      tell = update_workspace tools api name none (some state) false false

      Told : Site W → Type 0
      Told t = (WantsIn state t.catalog × Unit) × (t ≡ told state s)

      acted : SiteAct W
      acted = update_workspace tools api name none (some state) false false >> on_machine tools a

      reported_all : SiteAct W
      reported_all = acted >> update_workspace tools api name (some state) none false false
