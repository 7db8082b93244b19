-- ===== src/Connector/Health.antt =====
-- `corednsIsHealthy` of internal/controller/dnsconnector_controller.go, over `time.Sleep` and
-- `wait.PollUntilContextTimeout` (apimachinery).
use coredns_manager_operator.Common.{ℕ, ◌≡◌, Bool, true, false}
use coredns_manager_operator.Errors.{Error, Result, ok, err}
use coredns_manager_operator.Api.DnsConnector.{DnsConnector}
use coredns_manager_operator.Kube.{Client, Exec, pure, ◌>>=◌}
use coredns_manager_operator.Kube.Finalizers.{is_ready}
use coredns_manager_operator.Connector.Fetch.{fetch_coredns_deployment}

-- `time.Sleep`, and `wait.PollUntilContextTimeout` with an interval and a timeout in seconds and
-- with `immediate`. While time passes, others change the state of the API server.
pub record Waiting (c : Client) : Type 0 where
  pub sleep : ℕ → c.State → c.State
  pub poll_until : ℕ → ℕ → Exec c.State Bool → Exec c.State Unit

-- The condition that is polled, behind the sleep. The switch on the type has a case for each of the
-- three kinds.
unfoldable pub fetched_is_ready : (c : Client) → DnsConnector → Exec c.State Bool
fetched_is_ready c conn = do w ← fetch_coredns_deployment c conn; pure (is_ready w.1)

module _ (c : Client) (wait : Waiting c) where
  unfoldable pub coredns_is_ready : DnsConnector → Exec c.State Bool
  coredns_is_ready conn s = fetched_is_ready c conn (wait.sleep 6 s)

  -- `corednsIsHealthy`; the end time only goes into the log
  unfoldable pub coredns_is_healthy : DnsConnector → Exec c.State Unit
  coredns_is_healthy conn =
      wait.poll_until 3 conn.spec.wait_for_update_timeout (coredns_is_ready conn)

-- How a poll runs, by the calls of its condition: it ends at the first call that says yes or
-- fails, and, behind a call that says no, time passes, and it ends by the timeout or calls again.
pub data Polled {S : Type 0} (passes : S → S → Type 0) (condition : Exec S Bool)
    (r : Result (Unit {0})) (t : S) : S → Type 0 where
  ready : (s : S) → condition s ≡ (ok true, t) → r ≡ ok tt → Polled passes condition r t s
  failed :
      (s : S) (e : Error) → condition s ≡ (err e, t) → r ≡ err e → Polled passes condition r t s
  timed_out :
      (s u : S) (e : Error)
      → condition s ≡ (ok false, u)
      → passes u t
      → r ≡ err e
      → Polled passes condition r t s
  again :
      (s u v : S)
      → condition s ≡ (ok false, u)
      → passes u v
      → Polled passes condition r t v
      → Polled passes condition r t s

-- What the documentation says of both, where `passes` tells what others do to the state while time
-- passes.
pub record IsWaiting (c : Client) (wait : Waiting c) (passes : c.State → c.State → Type 0)
    : Type 0 where
  pub slept : (n : ℕ) (s : c.State) → passes s (wait.sleep n s)
  pub polled :
      (interval timeout : ℕ) (condition : Exec c.State Bool) (s : c.State)
      → let run = wait.poll_until interval timeout condition s in
        Polled passes condition run.0 run.1 s
