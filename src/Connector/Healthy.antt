-- ===== src/Connector/Healthy.antt =====
-- The health check of internal/controller/dnsconnector_controller.go: when it succeeds, and what it
-- has read of the workload.
use coredns_manager_operator.Common.{
  ◌≡◌, refl, ap, sym, ◌∙◌, inl, inr, arith, Bool, true, some, Option-cases, subst,
}
use coredns_manager_operator.Common.Text.{text}
use coredns_manager_operator.Errors.{Result, ok, ok-injective}
use coredns_manager_operator.Api.DnsConnector.{
  DnsConnector, Workload, WorkloadKind, assert_coredns_deployment_type,
}
use coredns_manager_operator.Kube.{workloads, Client, Exec, pure, raise, wrapped}
use coredns_manager_operator.Kube.Outcome.{err-ne-ok, bind-ok, wrapped-ok, get_obj-ok}
use coredns_manager_operator.Kube.Finalizers.{is_ready, get_obj_from_k8s}
use coredns_manager_operator.Connector.Fetch.{
  fetch_coredns_deployment, fetch_asserted, deployment_key,
}
use coredns_manager_operator.Connector.Health.{
  Waiting, Polled, ready, failed, timed_out, again, IsWaiting, fetched_is_ready, coredns_is_ready,
  coredns_is_healthy,
}
use coredns_manager_operator.Connector.Safety.{fetch_coredns_deployment-Preserves}

-- The API server holds, in a state, the workload of the kind and the name that the connector gives,
-- and as many of its replicas are ready as it wants.
abbrev pub IsUp : (c : Client) → DnsConnector → c.State → Type 0
IsUp c conn s =
    (k : WorkloadKind) × (w : Workload) × (assert_coredns_deployment_type
        conn.spec.coredns_deployment.type_name
      ≡ some k)
    × (c.get (workloads k) (deployment_key conn) s ≡ ok w)
    × (w.ready ≡ w.wanted)

is_ready-wanted : (w : Workload) → is_ready w ≡ true → w.ready ≡ w.wanted
unfolding is_ready
is_ready-wanted w h = ground (arith, h)

-- A workload that is fetched is the one of the connector's kind and name.
fetch_coredns_deployment-get :
    (c : Client) (conn : DnsConnector) (s t : c.State) (w : WorkloadKind × Workload)
    → fetch_coredns_deployment c conn s ≡ (ok w, t)
    → (assert_coredns_deployment_type conn.spec.coredns_deployment.type_name ≡ some w.0)
      × (c.get (workloads w.0) (deployment_key conn) s ≡ ok w.1)
unfolding fetch_coredns_deployment fetch_asserted raise pure
fetch_coredns_deployment-get c conn s t w h =
    elim (Option-cases (assert_coredns_deployment_type conn.spec.coredns_deployment.type_name)) [
      | inl e ↦ err-ne-ok (rw e at h)
      | inr (k, e) ↦
          let (found, u, got, ends) =
            bind-ok
              (wrapped (text "failed to fetch coredns deployment object: ")
                (get_obj_from_k8s c (workloads k) (deployment_key conn)))
              (λ x. pure (k, x)) s w t (rw e at h) in
          let (held, _) =
            get_obj-ok c (workloads k) (deployment_key conn) s u found (
              wrapped-ok _ (get_obj_from_k8s c (workloads k) (deployment_key conn)) s found u
                got) in
          let same : (k, found) ≡ w = ok-injective (ap (λ x. x.0) ends) in
          subst
            (λ (x : WorkloadKind × Workload).
              (assert_coredns_deployment_type conn.spec.coredns_deployment.type_name ≡ some x.0)
              × (c.get (workloads x.0) (deployment_key conn) s ≡ ok x.1))
            same (e, held)
    ]

-- A poll that ends without an error ends at a call of its condition that says yes.
Polled-ok :
    {S : Type 0} {passes : S → S → Type 0} {condition : Exec S Bool} {r : Result (Unit {0})}
    {t s : S}
    → Polled passes condition r t s
    → r ≡ ok tt
    → (u : S) × (condition u ≡ (ok true, t))
Polled-ok (ready s e _) h = (s, e)
Polled-ok (failed s e _ fails) h = absurd (ground (arith, sym fails ∙ h))
Polled-ok (timed_out s u e _ _ fails) h = absurd (ground (arith, sym fails ∙ h))
Polled-ok (again s u v _ _ rest) h = Polled-ok rest h

pub fetch_coredns_deployment-reads :
    (c : Client) (conn : DnsConnector) (s t : c.State) (w : WorkloadKind × Workload)
    → fetch_coredns_deployment c conn s ≡ (ok w, t)
    → t ≡ s
fetch_coredns_deployment-reads c conn s t w h =
    sym (ap (λ x. x.1) h) ∙ (fetch_coredns_deployment-Preserves c {P = λ u. u ≡ s} conn).run s refl

module _ (c : Client) (wait : Waiting c) (conn : DnsConnector) where
  -- A call of the condition that says yes has seen the workload ready, in the state it leaves.
  coredns_is_ready-IsUp :
      (s t : c.State) → coredns_is_ready c wait conn s ≡ (ok true, t) → IsUp c conn t
  unfolding coredns_is_ready fetched_is_ready pure
  coredns_is_ready-IsUp s t h =
      let (w, u, fetched, is) =
        bind-ok (fetch_coredns_deployment c conn) (λ w. pure (is_ready w.1)) (wait.sleep 6 s) true t
          h in
      let same : u ≡ wait.sleep 6 s = fetch_coredns_deployment-reads c conn _ u w fetched in
      let stays : u ≡ t = ap (λ x. x.1) is in
      let (kind, held) = fetch_coredns_deployment-get c conn (wait.sleep 6 s) u w fetched in
      (
        w.0,
        w.1,
        kind,
        subst (λ v. c.get (workloads w.0) (deployment_key conn) v ≡ ok w.1) (sym same ∙ stays) held,
        is_ready-wanted w.1 (ok-injective (ap (λ x. x.0) is)),
      )

  -- A health check that ends without an error ends in a state in which the workload is ready.
  pub coredns_is_healthy-IsUp :
      (passes : c.State → c.State → Type 0) (s t : c.State)
      → IsWaiting c wait passes
      → coredns_is_healthy c wait conn s ≡ (ok tt, t)
      → IsUp c conn t
  unfolding coredns_is_healthy
  coredns_is_healthy-IsUp passes s t waits h =
      let run = waits.polled 3 conn.spec.wait_for_update_timeout (coredns_is_ready c wait conn) s in
      let (u, is) = Polled-ok run (ap (λ x. x.0) h) in
      coredns_is_ready-IsUp u t
        (subst (λ v. coredns_is_ready c wait conn u ≡ (ok true, v)) (ap (λ x. x.1) h) is)
