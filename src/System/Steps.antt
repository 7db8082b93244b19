-- ===== src/System/Steps.antt =====
-- The steps of the operator and of the users, and the states that they reach from a first state.
use coredns_manager_operator.Api.Meta.{NamespacedName}
use coredns_manager_operator.Kube.{Client, Library, ZoneParser}
use coredns_manager_operator.Record.Honest.{SeparatesStatus, IsHonest}
use coredns_manager_operator.Connector.Health.{Waiting, IsWaiting}
use coredns_manager_operator.Connector.Reconcile.{RangeOrders}
use coredns_manager_operator.Connector.Honest.{reconcile_connector-Preserves}
use coredns_manager_operator.System.Meanwhile.{OtherStep, Meanwhile, OtherStep-IsHonest}

pub data Step (c : Client) (l : Library) (z : ZoneParser) (wait : Waiting c) (orders : RangeOrders)
    (s : c.State) : c.State → Type 0 where
  by_other : (t : c.State) → OtherStep c l z s t → Step c l z wait orders s t
  by_connector :
      (req : NamespacedName)
      → Step c l z wait orders s
          (coredns_manager_operator.Connector.Reconcile.reconcile c l z wait orders req s).1

pub data Reach (c : Client) (l : Library) (z : ZoneParser) (wait : Waiting c) (orders : RangeOrders)
    (s : c.State) : c.State → Type 0 where
  start : Reach c l z wait orders s s
  next :
      (t u : c.State)
      → Reach c l z wait orders s t
      → Step c l z wait orders t u
      → Reach c l z wait orders s u

module _ (c : Client) (l : Library) (z : ZoneParser) (wait : Waiting c) (orders : RangeOrders)
    (separates : SeparatesStatus c) (waits : IsWaiting c wait (Meanwhile c l z)) where
  Step-IsHonest : {s t : c.State} → Step c l z wait orders s t → IsHonest c z s → IsHonest c z t
  Step-IsHonest (by_other t step) h = OtherStep-IsHonest c l z separates step h
  Step-IsHonest (by_connector req) h =
      (reconcile_connector-Preserves c l z wait orders separates waits req).run _ h

  -- The operator never vouches for a record that the parser refuses: in every state that steps of
  -- the three reconcilers and of the users reach from a state in which each record whose status says
  -- that its validation has passed holds an entry that the parser accepts, this is so again. Users
  -- do not write the statuses of records, a write of the API server changes no other status, and
  -- while the connectors' reconciler waits, the others take steps.
  pub Reach-IsHonest :
      (s t : c.State) → Reach c l z wait orders s t → IsHonest c z s → IsHonest c z t
  Reach-IsHonest s t start h = h
  Reach-IsHonest s t (next u v before step) h = Step-IsHonest step (Reach-IsHonest s u before h)
