-- ===== src/Manager.antt =====
-- cmd/main.go, and the SetupWithManager functions of internal/controller on a manager of
-- controller-runtime. Flags and logging are values and messages; the schemes are left out.
pub mod Registered
use coredns_manager_operator.Common.{ℕ, Bool, false, Option, none, some, List}
use coredns_manager_operator.Common.Text.{Text, text}
use coredns_manager_operator.Errors.{Error, Result, ok, err}
use coredns_manager_operator.Kube.{Kind, Object, dns_records, dns_zones}
use coredns_manager_operator.Watch.{dns_record_index, dns_zone_connector_index}
use coredns_manager_operator.Watch.Events.{Predicates, Controller}
use coredns_manager_operator.Watch.Setup.{
  dns_record_controller, dns_zone_controller, dns_connector_controller,
}

-- The flags of the command line.
pub record Flags : Type 0 where
  pub metrics_addr : Text
  pub probe_addr : Text
  pub enable_leader_election : Bool

-- The values of the flags that are not set.
abbrev pub default_flags : Flags
default_flags = record {
  metrics_addr = text ":8080";
  probe_addr = text ":8081";
  enable_leader_election = false;
}

-- ctrl.Options
pub record Options : Type 0 where
  pub metrics_bind_address : Text
  pub port : ℕ
  pub health_probe_bind_address : Text
  pub leader_election : Bool
  pub leader_election_id : Text

unfoldable pub manager_options : Flags → Options
manager_options flags = record {
  metrics_bind_address = flags.metrics_addr;
  port = 9443;
  health_probe_bind_address = flags.probe_addr;
  leader_election = flags.enable_leader_election;
  leader_election_id = text "7aca862b.monkale.io";
}

unfoldable pub dns_record_index_name : Text
dns_record_index_name = text ".spec.dnsZoneRef.name"

unfoldable pub dns_zone_connector_index_name : Text
dns_zone_connector_index_name = text "spec.ConnectorName"

-- A call that returns an error or nil, on the state of a manager.
abbrev pub Call : Type 0 → Type 0
Call S = S → Option Error × S

-- ctrl.Manager, its field indexer, and the builder's `Complete`
pub record Manager : Type 1 where
  pub State : Type 0
  pub new_manager : Options → Result State
  pub index_field : (k : Kind) → Text → (Object k → List Text) → Call State
  pub complete : Controller → Call State
  pub add_healthz_check : Text → Call State
  pub add_readyz_check : Text → Call State
  pub start : Call State

-- `if err := m; err != nil { return err }; return k`
abbrev pub after : {S : Type 0} → Call S → Option Error × S → Option Error × S
after k (some e, s) = (some e, s)
after k (none, s) = k s

-- How the process goes on: it ends by `os.Exit(1)` behind a logged error, or it does not. A message
-- has the name of the controller that is logged with it.
pub data Outcome (S : Type 0) : Type 0 where
  exits : Text → Error → Outcome S
  goes_on : S → Outcome S

-- `if err := m; err != nil { setupLog.Error(err, "..."); os.Exit(1) }`
abbrev pub unless_error : {S : Type 0} → Text → Option Error × S → Outcome S
unless_error message (some e, s) = exits message e
unless_error message (none, s) = goes_on s

infixl 5 ◌>>=◌
unfoldable pub ◌>>=◌ : {S : Type 0} → Outcome S → (S → Outcome S) → Outcome S
exits message e >>= k = exits message e
goes_on s >>= k = k s

module _ (m : Manager) (p : Predicates) where
  -- `DNSRecordReconciler.SetupWithManager`
  unfoldable pub setup_dns_record : Call m.State
  unfolding dns_record_controller
  setup_dns_record = m.complete (dns_record_controller p)

  -- `DNSZoneReconciler.SetupWithManager`
  unfoldable pub setup_dns_zone : Call m.State
  unfolding dns_zone_controller dns_record_index dns_record_index_name
  setup_dns_zone s =
      after (m.complete (dns_zone_controller p))
        (m.index_field dns_records dns_record_index_name dns_record_index s)

  -- `DNSConnectorReconciler.SetupWithManager`
  unfoldable pub setup_dns_connector : Call m.State
  unfolding dns_connector_controller dns_zone_connector_index dns_zone_connector_index_name
  setup_dns_connector s =
      after (m.complete (dns_connector_controller p))
        (m.index_field dns_zones dns_zone_connector_index_name dns_zone_connector_index s)

  abbrev pub new_manager_made : Result m.State → Outcome m.State
  new_manager_made (ok s) = goes_on s
  new_manager_made (err e) = exits (text "unable to start manager") e

  -- `main`, up to the start
  unfoldable pub set_up : Flags → Outcome m.State
  unfolding manager_options setup_dns_record setup_dns_zone setup_dns_connector
  set_up flags =
      new_manager_made (m.new_manager (manager_options flags))
      >>= (λ s. unless_error (text "unable to create controller DNSZone") (setup_dns_zone s))
      >>= (λ s. unless_error (text "unable to create controller DNSRecord") (setup_dns_record s))
      >>= (λ s.
          unless_error (text "unable to create controller DNSConnector") (setup_dns_connector s))
      >>= (λ s.
          unless_error (text "unable to set up health check")
            (m.add_healthz_check (text "healthz") s))
      >>= (λ s.
          unless_error (text "unable to set up ready check") (m.add_readyz_check (text "readyz") s))

  -- `main`
  unfoldable pub main : Flags → Outcome m.State
  unfolding set_up
  main flags = set_up flags >>= λ s. unless_error (text "problem running manager") (m.start s)
