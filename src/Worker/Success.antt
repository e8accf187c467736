-- ===== src/Worker/Success.antt =====
-- Rules for the steps of a worker: what holds after a step that succeeds.
use agentmom.Prelude.{String, ◌≡◌, refl, Bool, true, false, if◌then◌else◌}
use agentmom.Catalog.{Catalog}
use agentmom.Catalog.Exec.{Exec, Result, ok, err, vm_absent}
use agentmom.Machines.Vm.{
  Tools, Machine, Act, Command, send_request, receive_response, load_spec, answer, command, run,
  refuse, keep_all,
}
use agentmom.Machines.Lifecycle.{Ends}
use agentmom.Worker.Site.{
  Site, SiteAct, WorkerApi, ◌>>◌, then_site, both, on_machine, handled, call, with_vm, given_handle,
}
use agentmom.Worker.Local.{on_handle}

module _ {W : Type 0} (tools : Tools W) (api : WorkerApi) (name : String) where
  -- A predicate of the machine that the world outside does not change.
  abbrev pub Steady : (Machine W → Type 0) → Type 0
  Steady M = (m : Machine W) (w : W) → M m → M (record m { world = w })

  abbrev pub Then : (Site W → Type 0) → Result (Unit {0}) × Site W → Type 0
  Then Q (ok u, s) = Q s
  Then Q (err e, s) = Unit

  pub Then-Then :
      (P Q : Site W → Type 0) (a k : SiteAct W) (s : Site W)
      → Then P (a s)
      → ((t : Site W) → P t → Then Q (k t))
      → Then Q ((a >> k) s)
  Then-Then P Q a k s h next = cases (a s).0 (a s).1 h
    where
      cases : (r : Result (Unit {0})) (t : Site W) → Then P (r, t) → Then Q (then_site r k t)
      cases (ok u) t h = next t h
      cases (err e) t h = tt

  -- What holds of the site that a step leaves, with that it is this one.
  pub exactly :
      (P : Site W → Type 0) (a : SiteAct W) (s : Site W)
      → Then P (a s)
      → Then (λ t. P t × (t ≡ (a s).1)) (a s)
  exactly P a s h = cases (a s).0 (a s).1 refl h
    where
      cases :
          (r : Result (Unit {0})) (t : Site W)
          → t ≡ (a s).1
          → Then P (r, t)
          → Then (λ g. P g × (g ≡ (a s).1)) (r, t)
      cases (ok u) t e h = (h, e)
      cases (err x) t e h = tt

  run_steady :
      (M : Machine W → Type 0) (c : Command) (m : Machine W) → Steady M → M m → M (run tools c m).1
  unfolding run command
  run_steady M c m stays h = cases (tools.perform c m.world)
    where
      cases : (a : Bool × W) → M (answer tools a (keep_all tools) m).1
      cases (true, w) = stays m w h
      cases (false, w) = stays m w h

  -- A request that succeeds was handled with success.
  pub call-Then :
      (M : Machine W → Type 0) (x : Exec Unit) (Q : Catalog → Type 0) (s : Site W)
      → Steady M
      → M s.machine
      → ((x s.catalog).0 ≡ ok tt → Q (x s.catalog).1)
      → Then (λ t. Q t.catalog × M t.machine) (call tools x s)
  unfolding call
  call-Then M x Q s stays h q =
      sent (run tools send_request s.machine).0 (run tools send_request s.machine).1
        (run_steady M send_request s.machine stays h)
    where
      back :
          (r : Result (Unit {0})) (n : Machine W) (y : Result (Unit {0}))
          → (y ≡ ok tt → Q (x s.catalog).1)
          → M n
          → Then
              (λ t. Q t.catalog × M t.machine)
              (both r y, record { catalog = (x s.catalog).1; machine = n })
      back (ok u) n (ok v) q m = (q refl, m)
      back (ok u) n (err e) q m = tt
      back (err e) n y q m = tt

      sent :
          (r : Result (Unit {0})) (n : Machine W)
          → M n
          → Then
              (λ t. Q t.catalog × M t.machine)
              (then_site r (handled tools x) (record s { machine = n }))
      sent (ok u) n m =
          back (run tools receive_response n).0 (run tools receive_response n).1 (x s.catalog).0 q
            (run_steady M receive_response n stays m)
      sent (err e) n m = tt

  abbrev pub Done : (Machine W → Type 0) → Result (Unit {0}) × Machine W → Type 0
  Done Q (ok u, n) = Q n
  Done Q (err e, n) = Unit

  pub machine-Then :
      (C : Catalog → Type 0) (M : Machine W → Type 0) (a : Act tools) (s : Site W)
      → C s.catalog
      → Done M (a s.machine)
      → Then (λ t. C t.catalog × M t.machine) (on_machine tools a s)
  machine-Then C M a s c h = cases (a s.machine).0 (a s.machine).1 h
    where
      cases :
          (r : Result (Unit {0})) (n : Machine W)
          → Done M (r, n)
          → Then (λ t. C t.catalog × M t.machine) (r, record s { machine = n })
      cases (ok u) n h = (c, h)
      cases (err e) n h = tt

  pub handle-Done :
      (Q : Machine W → Type 0) (a : Act tools) (m : Machine W)
      → Done Q (a (run tools load_spec m).1)
      → Done Q (on_handle tools api a m)
  unfolding on_handle with_vm
  handle-Done Q a m h = cases m.exists_dir
    where
      given :
          (r : Result (Unit {0}))
          → Done Q
              (given_handle tools r m (refuse tools vm_absent) (λ s. a) (run tools load_spec m).1)
      given (ok u) = h
      given (err e) = tt

      cases :
          (b : Bool)
          → Done Q (
              if b
              then given_handle tools
                  (run tools load_spec m).0
                  m
                  (refuse tools vm_absent)
                  (λ s. a)
                  (run tools load_spec m).1
              else refuse tools vm_absent m)
      cases true = given (run tools load_spec m).0
      cases false = tt

  pub from_ends :
      (P Q : Machine W → Type 0) (m : Machine W) (a : Act tools)
      → Ends tools m P (a m)
      → ((n : Machine W) → P n → Q n)
      → Done Q (a m)
  from_ends P Q m a h f = cases (a m).0 (a m).1 h
    where
      cases : (r : Result (Unit {0})) (n : Machine W) → Ends tools m P (r, n) → Done Q (r, n)
      cases (ok u) n h = f n h
      cases (err e) n h = tt
