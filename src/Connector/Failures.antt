-- ===== src/Connector/Failures.antt =====
-- The errors of internal/controller/dnsconnector_controller.go: what a reconciliation that fails
-- leaves alone.
use coredns_manager_operator.Common.{◌≡◌, refl, ap, ◌∙◌, subst}
use coredns_manager_operator.Errors.{Error, ok, err}
use coredns_manager_operator.Api.Meta.{NamespacedName, ConfigMap}
use coredns_manager_operator.Api.DnsConnector.{DnsConnector, WorkloadKind}
use coredns_manager_operator.Kube.{
  Object, config_maps, workloads, dns_connectors, Client, Library, ZoneParser, ◌>>=◌, ◌>>◌,
}
use coredns_manager_operator.Kube.Preserve.{Preserves}
use coredns_manager_operator.Kube.Outcome.{bind-err, then-err}
use coredns_manager_operator.Connector.Health.{Waiting}
use coredns_manager_operator.Connector.Backup.{restore_original_corefile_cm}
use coredns_manager_operator.Connector.Safety.{
  prepare-Preserves, restore_original_corefile_cm-Preserves,
}
use coredns_manager_operator.Connector.Reconcile.{
  RangeOrders, prepare, apply_changes, await_coredns, announce, reconcile_dns_connector,
  reconcile_delete,
}

-- What the documentation of the API server says of writes to objects of other kinds, and of a
-- creation: it changes no object that is there.
pub record KeepsOthers (c : Client) : Type 0 where
  pub config_maps-update_status :
      (o : DnsConnector) (key : NamespacedName) (s : c.State)
      → c.get config_maps key (c.update_status dns_connectors o s).1 ≡ c.get config_maps key s
  pub workloads-update_status :
      (k : WorkloadKind) (o : DnsConnector) (key : NamespacedName) (s : c.State)
      → c.get (workloads k) key (c.update_status dns_connectors o s).1 ≡ c.get (workloads k) key s
  pub connectors-update :
      (o : ConfigMap) (key : NamespacedName) (s : c.State)
      → c.get dns_connectors key (c.update config_maps o s).1 ≡ c.get dns_connectors key s
  pub workloads-create :
      (k : WorkloadKind) (o : ConfigMap) (key : NamespacedName) (s : c.State)
      → c.get (workloads k) key (c.create config_maps o s).1 ≡ c.get (workloads k) key s
  pub config_maps-create :
      (o : ConfigMap) (key : NamespacedName) (s : c.State) (held : ConfigMap)
      → c.get config_maps key s ≡ ok held
      → c.get config_maps key (c.create config_maps o s).1 ≡ ok held

-- The config maps and the workloads of a first state are as they were.
pub record AreLeft (c : Client) (s t : c.State) : Type 0 where
  pub config_map :
      (key : NamespacedName) (o : ConfigMap)
      → c.get config_maps key s ≡ ok o
      → c.get config_maps key t ≡ ok o
  pub workload :
      (k : WorkloadKind) (key : NamespacedName) (o : Object (workloads k))
      → c.get (workloads k) key s ≡ ok o
      → c.get (workloads k) key t ≡ ok o

module _ (c : Client) (l : Library) (z : ZoneParser) (wait : Waiting c) (orders : RangeOrders)
    (keeps : KeepsOthers c) (conn : DnsConnector) where
  show-AreLeft :
      (s : c.State) (o : DnsConnector) → Preserves (AreLeft c s) (c.update_status dns_connectors o)
  show-AreLeft s o = record {
    run = λ t left. record {
      config_map =
          λ key held h. keeps.config_maps-update_status o key t ∙ left.config_map key held h;
      workload =
          λ k key held h. keeps.workloads-update_status k o key t ∙ left.workload k key held h;
    };
  }

  create-AreLeft : (s : c.State) (o : ConfigMap) → Preserves (AreLeft c s) (c.create config_maps o)
  create-AreLeft s o = record {
    run = λ t left. record {
      config_map = λ key held h. keeps.config_maps-create o key t held (left.config_map key held h);
      workload = λ k key held h. keeps.workloads-create k o key t ∙ left.workload k key held h;
    };
  }

  prepare-AreLeft : (s : c.State) → AreLeft c s (prepare c l z wait orders conn s).1
  prepare-AreLeft s =
      (prepare-Preserves c l (show-AreLeft s) z wait orders (create-AreLeft s) conn).run s
        (record { config_map = λ key o h. h; workload = λ k key o h. h })

  -- Where the Corefile or the workload cannot be prepared, for whatever reason, the reconciliation
  -- ends with that error, and every config map, that of the Corefile included, and every workload
  -- that there was before is as it was.
  pub reconcile_dns_connector-fails :
      (s t : c.State) (e : Error)
      → prepare c l z wait orders conn s ≡ (err e, t)
      → (reconcile_dns_connector c l z wait orders conn s ≡ (err e, t)) × AreLeft c s t
  unfolding reconcile_dns_connector
  reconcile_dns_connector-fails s t e h = (
    bind-err (prepare c l z wait orders conn)
        (λ changes.
          apply_changes c l z wait orders conn changes
          >> (await_coredns c l z wait orders conn >>= λ updating.
              announce c l z wait orders conn updating changes))
        s e t h,
    subst (AreLeft c s) (ap (λ x. x.1) h) (prepare-AreLeft s),
  )

  -- A connector that is being deleted is not given up before the original Corefile is back: where
  -- the restoration fails, the reconciliation ends with its error, and every connector, with its
  -- finalizers, is as it was.
  pub reconcile_delete-waits :
      (s t : c.State) (e : Error)
      → restore_original_corefile_cm c conn s ≡ (err e, t)
      → (reconcile_delete c l z wait orders conn s ≡ (err e, t))
        × ((key : NamespacedName) → c.get dns_connectors key t ≡ c.get dns_connectors key s)
  unfolding reconcile_delete
  reconcile_delete-waits s t e h = (
    then-err (restore_original_corefile_cm c conn) _ s e t h,
    λ key.
        subst (λ u. c.get dns_connectors key u ≡ c.get dns_connectors key s) (ap (λ x. x.1) h)
          ((restore_original_corefile_cm-Preserves c
              {P = λ u. c.get dns_connectors key u ≡ c.get dns_connectors key s}
              (λ o. record { run = λ u same. keeps.connectors-update o key u ∙ same }) conn).run
            s refl),
  )
