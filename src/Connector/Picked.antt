-- ===== src/Connector/Picked.antt =====
-- Which zones the reconciler of internal/controller/dnsconnector_controller.go serves.
use coredns_manager_operator.Common.{
  ◌≡◌, ◌≢◌, ◌↔◌, ◌⊎◌, refl, sym, ◌∙◌, inl, inr, arith, Bool, true, false, ◌&&◌, ◌||◌, List, [], ◌∷◌,
  Bool-cases,
}
use coredns_manager_operator.Common.Text.{eqb}
use coredns_manager_operator.Common.Text.Equality.{eqb_refl, eqb→eq}
use coredns_manager_operator.Api.Meta.{
  Condition, ConditionStatus, condition_true, condition_false, condition_unknown,
}
use coredns_manager_operator.Api.DnsZone.{DnsZone, condition_zone_type_ready}
use coredns_manager_operator.Connector.Fetch.{is_true, is_picked, is_good_zone}

-- Some condition says that the zone is ready.
abbrev pub SaysReady : List Condition → Type 0
SaysReady [] = ⊥
SaysReady (condition ∷ conditions) =
    ((condition.type_name ≡ condition_zone_type_ready) × (condition.status ≡ condition_true))
    ⊎ SaysReady conditions

unfoldable pub says_ready : List Condition → Bool
unfolding is_true
says_ready [] = false
says_ready (condition ∷ conditions) =
    (eqb condition.type_name condition_zone_type_ready && is_true condition.status)
    || says_ready conditions

is_true_iff : (st : ConditionStatus) → (is_true st ≡ true) ↔ (st ≡ condition_true)
unfolding is_true
is_true_iff condition_true = (λ h. refl, λ h. refl)
is_true_iff condition_false = (λ h. absurd (ground (arith, h)), λ h. absurd (ground (arith, h)))
is_true_iff condition_unknown = (λ h. absurd (ground (arith, h)), λ h. absurd (ground (arith, h)))

says_ready-SaysReady :
    (conditions : List Condition) → says_ready conditions ≡ true → SaysReady conditions
unfolding says_ready
says_ready-SaysReady [] h = absurd (ground (arith, h))
says_ready-SaysReady (condition ∷ conditions) h =
    elim (Bool-cases
      (eqb condition.type_name condition_zone_type_ready && is_true condition.status)) [
        | inl both ↦ inl (
          eqb→eq condition.type_name condition_zone_type_ready (ground (arith, both)),
          (is_true_iff condition.status).0 (ground (arith, both)),
        )
        | inr other ↦ inr (says_ready-SaysReady conditions (ground (arith, other, h)))
      ]

SaysReady-says_ready :
    (conditions : List Condition) → SaysReady conditions → says_ready conditions ≡ true
unfolding says_ready
SaysReady-says_ready [] h = absurd h
SaysReady-says_ready (condition ∷ conditions) (inl (named, is)) =
    rw (named, eqb_refl condition_zone_type_ready, (is_true_iff condition.status).1 is)
SaysReady-says_ready (condition ∷ conditions) (inr later) =
    ground (arith, SaysReady-says_ready conditions later)

is_picked-says_ready :
    (conditions : List Condition) → is_picked false conditions ≡ says_ready conditions
unfolding is_picked says_ready
is_picked-says_ready [] = refl
is_picked-says_ready (condition ∷ conditions) = ground (arith, is_picked-says_ready conditions)

is_picked-checkpoint :
    (condition : Condition) (conditions : List Condition)
    → is_picked true (condition ∷ conditions) ≡ true
unfolding is_picked
is_picked-checkpoint condition conditions = ground arith

-- The loop picks a zone of either sort.
picked_sound :
    (checkpoint : Bool) (conditions : List Condition)
    → is_picked checkpoint conditions ≡ true
    → SaysReady conditions ⊎ ((checkpoint ≡ true) × (conditions ≢ []))
unfolding is_picked
picked_sound false conditions h =
    inl (says_ready-SaysReady conditions (sym (is_picked-says_ready conditions) ∙ h))
picked_sound true [] h = absurd (ground (arith, h))
picked_sound true (condition ∷ conditions) h = inr (refl, λ e. absurd (ground (arith, e)))

picked_complete :
    (checkpoint : Bool) (conditions : List Condition)
    → SaysReady conditions ⊎ ((checkpoint ≡ true) × (conditions ≢ []))
    → is_picked checkpoint conditions ≡ true
picked_complete checkpoint [] (inl ready) = absurd ready
picked_complete checkpoint [] (inr (_, some)) = absurd (some refl)
picked_complete true (condition ∷ conditions) h = is_picked-checkpoint condition conditions
picked_complete false (condition ∷ conditions) (inl ready) =
    is_picked-says_ready (condition ∷ conditions)
    ∙ SaysReady-says_ready (condition ∷ conditions) ready
picked_complete false (condition ∷ conditions) (inr (is, _)) = absurd (ground (arith, is))

-- A zone is served exactly if one of its conditions says that it is ready, or if it has a checkpoint,
-- an earlier version that was valid, and any condition at all.
pub is_good_zone_iff :
    (zone : DnsZone)
    → (is_good_zone zone ≡ true) ↔ (
        SaysReady zone.status.conditions
        ⊎ ((zone.status.checkpoint ≡ true) × (zone.status.conditions ≢ [])))
unfolding is_good_zone
is_good_zone_iff zone = (
  picked_sound zone.status.checkpoint zone.status.conditions,
  picked_complete zone.status.checkpoint zone.status.conditions,
)
