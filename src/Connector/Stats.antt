-- ===== src/Connector/Stats.antt =====
-- The loop of `reconcileDNSConnector` in internal/controller/dnsconnector_controller.go that collects
-- what the connector reports of its zones.
use coredns_manager_operator.Common.{
  ◌≡◌, ◌↔◌, refl, subst, inl, inr, arith, Option, some, Option-cases, List, [], ◌∷◌,
}
use coredns_manager_operator.Common.Text.{text}
use coredns_manager_operator.Common.Dict.{lookup}
use coredns_manager_operator.Errors.{Result, ok, Result-cases}
use coredns_manager_operator.Api.Meta.{ConfigMap}
use coredns_manager_operator.Api.DnsConnector.{ProvisionedDnsZone}
use coredns_manager_operator.Connector.Reconcile.{provisioned, add_stat, dns_zone_stats}

-- The stat says what the three annotations of the config map say.
abbrev pub IsProvisioned : ConfigMap → ProvisionedDnsZone → Type 0
IsProvisioned cm stat =
    (lookup (text "DNSZoneRef") cm.meta.annotations ≡ some stat.name)
    × (lookup (text "DomainName") cm.meta.annotations ≡ some stat.domain)
    × (lookup (text "SerialNumber") cm.meta.annotations ≡ some stat.serial_number)

provisioned-IsProvisioned :
    (cm : ConfigMap) (stat : ProvisionedDnsZone)
    → provisioned cm ≡ some stat
    → IsProvisioned cm stat
unfolding provisioned
provisioned-IsProvisioned cm stat h =
    elim (Option-cases (lookup (text "DNSZoneRef") cm.meta.annotations)) [
      | inl e ↦ absurd (ground (arith, rw (e, provisioned) at h))
      | inr (name, e) ↦ elim (Option-cases (lookup (text "DomainName") cm.meta.annotations)) [
        | inl e₂ ↦ absurd (ground (arith, rw (e, e₂, provisioned) at h))
        | inr (domain, e₂) ↦
            elim (Option-cases (lookup (text "SerialNumber") cm.meta.annotations)) [
              | inl e₃ ↦ absurd (ground (arith, rw (e, e₂, e₃, provisioned) at h))
              | inr (serial, e₃) ↦
                  let made : ProvisionedDnsZone = record {
                    name = name;
                    domain = domain;
                    serial_number = serial;
                  } in
                  let is : Path (Option ProvisionedDnsZone) (some made) (some stat) =
                    rw (e, e₂, e₃, provisioned) at h in
                  let same : made ≡ stat = cc in subst (IsProvisioned cm) same (e, e₂, e₃)
            ]
      ]
    ]

IsProvisioned-provisioned :
    (cm : ConfigMap) (stat : ProvisionedDnsZone)
    → IsProvisioned cm stat
    → provisioned cm ≡ some stat
unfolding provisioned
IsProvisioned-provisioned cm stat (e, e₂, e₃) = rw (e, e₂, e₃, provisioned)

-- The stats that belong to the config maps, one for each.
abbrev pub AreProvisioned : List ConfigMap → List ProvisionedDnsZone → Type 0
AreProvisioned [] [] = Unit
AreProvisioned [] (stat ∷ stats) = ⊥
AreProvisioned (cm ∷ cms) [] = ⊥
AreProvisioned (cm ∷ cms) (stat ∷ stats) = IsProvisioned cm stat × AreProvisioned cms stats

stats-AreProvisioned :
    (cms : List ConfigMap) (stats : List ProvisionedDnsZone)
    → dns_zone_stats cms ≡ ok stats
    → AreProvisioned cms stats
unfolding dns_zone_stats add_stat
stats-AreProvisioned [] [] h = tt
stats-AreProvisioned [] (stat ∷ stats) h = absurd (ground (arith, h))
stats-AreProvisioned (cm ∷ cms) stats h = elim (Option-cases (provisioned cm)) [
  | inl lacks ↦ absurd (ground (arith, rw lacks at h))
  | inr (stat, has) ↦ elim (Result-cases (dns_zone_stats cms)) [
    | inl (rest, e) ↦
        let is : Path (Result (List ProvisionedDnsZone)) (ok (stat ∷ rest)) (ok stats) =
          rw (has, e) at h in
        let same : stat ∷ rest ≡ stats = cc in
        subst (AreProvisioned (cm ∷ cms)) same
          (provisioned-IsProvisioned cm stat has, stats-AreProvisioned cms rest e)
    | inr (e', e) ↦ absurd (ground (arith, rw (has, e) at h))
  ]
]

AreProvisioned-stats :
    (cms : List ConfigMap) (stats : List ProvisionedDnsZone)
    → AreProvisioned cms stats
    → dns_zone_stats cms ≡ ok stats
unfolding dns_zone_stats add_stat
AreProvisioned-stats [] [] h = refl
AreProvisioned-stats [] (stat ∷ stats) h = absurd h
AreProvisioned-stats (cm ∷ cms) [] h = absurd h
AreProvisioned-stats (cm ∷ cms) (stat ∷ stats) (has, h) =
    rw (IsProvisioned-provisioned cm stat has, AreProvisioned-stats cms stats h)

-- The stats are collected, one for each config map and in their order, exactly if every config map
-- has the annotations DNSZoneRef, DomainName and SerialNumber, and they are the name, the domain and
-- the serial number of its stat.
pub dns_zone_stats_iff :
    (cms : List ConfigMap) (stats : List ProvisionedDnsZone)
    → (dns_zone_stats cms ≡ ok stats) ↔ AreProvisioned cms stats
dns_zone_stats_iff cms stats = (stats-AreProvisioned cms stats, AreProvisioned-stats cms stats)
