-- ===== src/System/Meanwhile.antt =====
-- What happens while the reconciler of internal/controller/dnsconnector_controller.go waits: the other
-- two reconcilers and the users of the API server take steps. A connector's reconciler does not run
-- beside itself (one worker, the default of controller-runtime).
use coredns_manager_operator.Common.{◌≡◌, ◌⊎◌, inl, inr, subst, sym, false, arith}
use coredns_manager_operator.Errors.{ok}
use coredns_manager_operator.Api.Meta.{NamespacedName}
use coredns_manager_operator.Api.DnsRecord.{DnsRecord}
use coredns_manager_operator.Kube.{dns_records, Client, Library, ZoneParser}
use coredns_manager_operator.Record.Honest.{
  SeparatesStatus, IsHonestStatus, IsHonest, reconcile-Preserves,
}
use coredns_manager_operator.Zone.Honest.{reconcile_zone-Preserves}

-- Users create, change and delete objects, but not the statuses of records: a record that is read
-- behind such a step has the status that it had, or a status that says nothing of a validation.
pub record IsForeign (c : Client) (s t : c.State) : Type 0 where
  pub kept :
      (key : NamespacedName) (r : DnsRecord)
      → c.get dns_records key t ≡ ok r
      → ((q : DnsRecord) × (c.get dns_records key s ≡ ok q) × (r.status ≡ q.status))
        ⊎ (r.status.validation_passed ≡ false)

-- A step of anyone but the connectors' reconciler.
pub data OtherStep (c : Client) (l : Library) (z : ZoneParser) (s : c.State)
    : c.State → Type 0 where
  by_user : (t : c.State) → IsForeign c s t → OtherStep c l z s t
  by_record :
      (req : NamespacedName)
      → OtherStep c l z s (coredns_manager_operator.Record.Reconcile.reconcile c l z req s).1
  by_zone :
      (req : NamespacedName)
      → OtherStep c l z s (coredns_manager_operator.Zone.Reconcile.reconcile c l z req s).1

pub data Meanwhile (c : Client) (l : Library) (z : ZoneParser) (s : c.State)
    : c.State → Type 0 where
  none_yet : Meanwhile c l z s s
  another : (t u : c.State) → Meanwhile c l z s t → OtherStep c l z t u → Meanwhile c l z s u

module _ (c : Client) (l : Library) (z : ZoneParser) (separates : SeparatesStatus c) where
  foreign-IsHonest : (s t : c.State) → IsForeign c s t → IsHonest c z s → IsHonest c z t
  foreign-IsHonest s t foreign h = record {
    read = λ key r found. elim (foreign.kept key r found) [
      | inl (q, held, same) ↦ subst (IsHonestStatus z) (sym same) (h.read key q held)
      | inr silent ↦ λ passed. absurd (ground (arith, silent, passed))
    ];
  }

  pub OtherStep-IsHonest : {s t : c.State} → OtherStep c l z s t → IsHonest c z s → IsHonest c z t
  OtherStep-IsHonest (by_user t foreign) h = foreign-IsHonest _ t foreign h
  OtherStep-IsHonest (by_record req) h = (reconcile-Preserves c l z separates req).run _ h
  OtherStep-IsHonest (by_zone req) h = (reconcile_zone-Preserves c l z separates req).run _ h

  pub Meanwhile-IsHonest : {s t : c.State} → Meanwhile c l z s t → IsHonest c z s → IsHonest c z t
  Meanwhile-IsHonest none_yet h = h
  Meanwhile-IsHonest (another t u before step) h =
      OtherStep-IsHonest step (Meanwhile-IsHonest before h)
