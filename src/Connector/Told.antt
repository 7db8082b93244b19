-- ===== src/Connector/Told.antt =====
-- What the reconciler of internal/controller/dnsconnector_controller.go tells the zones:
-- `notifyGoodDNSZones`.
pub mod Outcome
use coredns_manager_operator.Common.{
  ℕ, ◌≡◌, ◌≢◌, refl, ap, sym, ◌∙◌, subst, inl, inr, ◌⊎◌, arith, not, Bool, true, false,
  if◌then◌else◌, Bool-cases, List, [], ◌∷◌, All, All-map, ◌++◌,
}
use coredns_manager_operator.Common.Text.{Text, text}
use coredns_manager_operator.Errors.{Result, ok, err}
use coredns_manager_operator.Api.Meta.{
  NamespacedName, ConditionStatus, condition_true, condition_false, key_of,
}
use coredns_manager_operator.Api.DnsZone.{
  DnsZone, condition_reason_zone_active, condition_reason_zone_pending,
}
use coredns_manager_operator.Api.DnsConnector.{DnsConnector}
use coredns_manager_operator.Kube.{
  Kind, dns_zones, dns_connectors, Client, Library, ZoneParser, Exec, IsStored, IsSeparate,
  StoresZoneStatus, pure, lift, raise, gets, wrapped,
}
use coredns_manager_operator.Kube.Memory.{same_key, same_key-eq, same_key_refl}
use coredns_manager_operator.Kube.Outcome.{err-ne-ok, bind-ok, then-ok, wrapped-ok, get_obj-ok}
use coredns_manager_operator.Kube.Finalizers.{get_obj_from_k8s, remove_finalizer}
use coredns_manager_operator.Record.Reconcile.{ReconcileResult}
use coredns_manager_operator.Zone.Update.{set_dns_zone_condition}
use coredns_manager_operator.Connector.Fetch.{fetch_good_zones}
use coredns_manager_operator.Connector.Status.{
  notify_fetched, notify_good_dns_zones, show_condition, dns_connector_update_status,
  refresh_dns_connector_resource,
}

pub branch-ok :
    {S A : Type 0} (b : Bool) (m n : Exec S A) (s t : S) (a : A)
    → (if b then m else n) s ≡ (ok a, t)
    → (m s ≡ (ok a, t)) ⊎ ((b ≡ false) × (n s ≡ (ok a, t)))
branch-ok true m n s t a h = inl h
branch-ok false m n s t a h = inr (refl, h)

module _ (c : Client) (l : Library) (z : ZoneParser) (st : ConditionStatus)
    (reason message : Text) where
  -- The zone of the key is there. Its zone file has failed the validation, or the condition is
  -- set, at some time, on some version of it.
  pub record IsTold (s : c.State) (key : NamespacedName) : Type 0 where
    pub stored : DnsZone
    pub found : c.get dns_zones key s ≡ ok stored
    pub told :
        (stored.status.validation_passed ≡ false)
        ⊎ ((version : DnsZone) × (time : ℕ) × (stored.status
              ≡ (set_dns_zone_condition c l z time version st reason message).status))

  -- A write of the condition on a version of the zone, that has returned a result.
  Writes : DnsZone → c.State → c.State → Type 0
  Writes zone s t =
      (time : ℕ) × (o : DnsZone) × (c.update_status dns_zones
          (set_dns_zone_condition c l z time zone st reason message) s
        ≡ (ok o, t))

  notify_fetched-ok :
      (zone : DnsZone) (s t : c.State)
      → notify_fetched c l z st reason message zone s ≡ (ok tt, t)
      → ((zone.status.validation_passed ≡ false) × (t ≡ s)) ⊎ Writes zone s t
  unfolding notify_fetched gets pure Writes
  notify_fetched-ok zone s t h = elim (branch-ok zone.status.validation_passed _ _ s t tt h) [
    | inl ran ↦
        let (time, u, timed, h1) = bind-ok _ _ s tt t ran in
        let (o, v, wrote, h2) = bind-ok _ _ u tt t h1 in
        let here : u ≡ s = sym (ap (λ x. x.1) timed) in
        let update : Exec c.State DnsZone =
          c.update_status dns_zones (set_dns_zone_condition c l z time zone st reason message) in
        inr (
          time,
          o,
          subst (λ x. update s ≡ (ok o, x)) (ap (λ x. x.1) h2)
              (subst (λ x. update x ≡ (ok o, v)) here (wrapped-ok _ update u o v wrote)),
        )
    | inr (failed, ran) ↦ inl (failed, sym (ap (λ x. x.1) ran))
  ]

module _ (c : Client) (l : Library) (z : ZoneParser) (st : ConditionStatus) (reason message : Text)
    (stores : IsStored c dns_zones) (statuses : StoresZoneStatus c) (separate : IsSeparate c) where
  written-IsTold :
      (current : DnsZone) (key : NamespacedName) (s t : c.State)
      → key_of current.meta ≡ key
      → Writes c l z st reason message current s t
      → IsTold c l z st reason message t key
  unfolding Writes set_dns_zone_condition
  written-IsTold current key s t is (time, o, wrote) = record {
    stored = o;
    found = subst (λ k. c.get dns_zones k t ≡ ok o) is (stores.get-update_status _ s wrote);
    told = inr (current, time, statuses.status-update_status _ s wrote);
  }

  -- One pass of the loop
  pass-ok :
      (zone current : DnsZone) (s t : c.State)
      → c.get dns_zones (key_of zone.meta) s ≡ ok current
      → notify_fetched c l z st reason message current s ≡ (ok tt, t)
      → IsTold c l z st reason message t (key_of zone.meta)
  pass-ok zone current s t found h =
      elim (notify_fetched-ok c l z st reason message current s t h) [
        | inl (failed, stays) ↦ record {
          stored = current;
          found = subst (λ x. c.get dns_zones (key_of zone.meta) x ≡ ok current) (sym stays) found;
          told = inl failed;
        }
        | inr wrote ↦
            written-IsTold current (key_of zone.meta) s t
              (stores.key-get (key_of zone.meta) s found) wrote
      ]

  -- Who was told stays told: nothing is written to it, or it is told again.
  IsTold-notify_fetched :
      (current : DnsZone) (key : NamespacedName) (s t : c.State)
      → notify_fetched c l z st reason message current s ≡ (ok tt, t)
      → IsTold c l z st reason message s key
      → IsTold c l z st reason message t key
  unfolding Writes set_dns_zone_condition
  IsTold-notify_fetched current key s t h told =
      elim (notify_fetched-ok c l z st reason message current s t h) [
        | inl (_, stays) ↦ subst (λ x. IsTold c l z st reason message x key) (sym stays) told
        | inr (time, o, wrote) ↦ elim (Bool-cases (same_key (key_of current.meta) key)) [
          | inl same ↦
              written-IsTold current key s t (same_key-eq (key_of current.meta) key same)
                (time, o, wrote)
          | inr other ↦ record {
            stored = told.stored;
            found =
                subst (λ x. c.get dns_zones key x ≡ c.get dns_zones key s) (ap (λ x. x.1) wrote)
                  (separate.get-update_status_other dns_zones dns_zones
                    (set_dns_zone_condition c l z time current st reason message) key s
                    (inr (λ e. absurd (
                      ground (
                        arith,
                        sym other ∙ (ap (λ k. same_key k key) (sym e) ∙ same_key_refl key),
                      )))))
                ∙ told.found;
            told = told.told;
          }
        ]
      ]

  -- A lookup, and what follows it
  lookup-ok :
      (zone : DnsZone) (zones : List DnsZone) (s t : c.State)
      → notify_good_dns_zones c l z st reason message (zone ∷ zones) s ≡ (ok tt, t)
      → (current : DnsZone) × (u : c.State) × (c.get dns_zones (key_of zone.meta) s ≡ ok current)
        × (notify_fetched c l z st reason message current s ≡ (ok tt, u))
        × (notify_good_dns_zones c l z st reason message zones u ≡ (ok tt, t))
  unfolding notify_good_dns_zones
  lookup-ok zone zones s t h =
      let (current, v, got, h1) = bind-ok _ _ s tt t h in
      let (u, notified, rest) = then-ok _ _ v tt t h1 in
      let (found, stays) =
        get_obj-ok c dns_zones (key_of zone.meta) s v current
          (wrapped-ok _ (get_obj_from_k8s c dns_zones (key_of zone.meta)) s current v got) in
      (
        current,
        u,
        found,
        subst (λ x. notify_fetched c l z st reason message current x ≡ (ok tt, u)) stays notified,
        rest,
      )

  IsTold-notify_good_dns_zones :
      (zones : List DnsZone) (key : NamespacedName) (s t : c.State)
      → notify_good_dns_zones c l z st reason message zones s ≡ (ok tt, t)
      → IsTold c l z st reason message s key
      → IsTold c l z st reason message t key
  unfolding notify_good_dns_zones pure
  IsTold-notify_good_dns_zones [] key s t h told =
      subst (λ u. IsTold c l z st reason message u key) (ap (λ x. x.1) h) told
  IsTold-notify_good_dns_zones (zone ∷ zones) key s t h told =
      let (current, u, found, notified, rest) = lookup-ok zone zones s t h in
      IsTold-notify_good_dns_zones zones key u t rest
        (IsTold-notify_fetched current key s u notified told)

  pub notify_good_dns_zones-IsTold :
      (zones : List DnsZone) (s t : c.State)
      → notify_good_dns_zones c l z st reason message zones s ≡ (ok tt, t)
      → All (λ (zone : DnsZone). IsTold c l z st reason message t (key_of zone.meta)) zones
  notify_good_dns_zones-IsTold [] s t h = tt
  notify_good_dns_zones-IsTold (zone ∷ zones) s t h =
      let (current, u, found, notified, rest) = lookup-ok zone zones s t h in
      (
        IsTold-notify_good_dns_zones zones (key_of zone.meta) u t rest
            (pass-ok zone current s u found notified),
        notify_good_dns_zones-IsTold zones u t rest,
      )
