-- ===== src/System/Served.antt =====
-- The records that the reconciler of internal/controller/dnszone_controller.go puts into a zone file,
-- in the states that the operator and its users reach.
use mathlib.Core.List.Permᴰ
use coredns_manager_operator.Common.{
  ◌≡◌, subst, inl, inr, arith, Bool-cases, none, List, [], ◌∷◌, All, keep,
}
use coredns_manager_operator.Common.Text.{Text}
use coredns_manager_operator.Common.Sort.Laws.{All-perm, sort_by_perm}
use coredns_manager_operator.Errors.{ok, ok-injective, Result-cases}
use coredns_manager_operator.Api.Meta.{key_of}
use coredns_manager_operator.Api.DnsRecord.{DnsRecord}
use coredns_manager_operator.Api.DnsZone.{DnsZone}
use coredns_manager_operator.Kube.{dns_records, Client, Library, ZoneParser}
use coredns_manager_operator.Record.Validation.{validate_records}
use coredns_manager_operator.Record.Honest.{SeparatesStatus, IsHonest}
use coredns_manager_operator.Zone.Construction.{good_dns_records}
use coredns_manager_operator.Zone.Reconcile.{get_good_dns_records}
use coredns_manager_operator.Connector.Health.{Waiting, IsWaiting}
use coredns_manager_operator.Connector.Reconcile.{RangeOrders}
use coredns_manager_operator.System.Meanwhile.{Meanwhile}
use coredns_manager_operator.System.Steps.{Reach, Reach-IsHonest}

-- What a list of records returns are the records that a read returns.
pub record ListsStored (c : Client) : Type 0 where
  pub get-list :
      (zone namespace : Text) (s : c.State) (items : List DnsRecord)
      → c.list_records zone namespace s ≡ ok items
      → All (λ (r : DnsRecord). c.get dns_records (key_of r.meta) s ≡ ok r) items

-- The parser accepts the entries.
abbrev pub AreValid : ZoneParser → List DnsRecord → Type 0
AreValid z = All (λ (r : DnsRecord). validate_records z r.status.generated_record ≡ none)

module _ (c : Client) (z : ZoneParser) where
  kept-AreValid :
      (s : c.State) (items : List DnsRecord)
      → IsHonest c z s
      → All (λ (r : DnsRecord). c.get dns_records (key_of r.meta) s ≡ ok r) items
      → AreValid z (keep (λ (r : DnsRecord). r.status.validation_passed) items)
  unfolding keep
  kept-AreValid s [] h stored = tt
  kept-AreValid s (r ∷ rs) h (here, stored) =
      let rest = kept-AreValid s rs h stored in
      elim (Bool-cases r.status.validation_passed) [
        | inl passed ↦ rw passed (h.read (key_of r.meta) r here passed, rest)
        | inr failed ↦ rw failed rest
      ]

  good-AreValid :
      (s : c.State) (items : List DnsRecord)
      → IsHonest c z s
      → All (λ (r : DnsRecord). c.get dns_records (key_of r.meta) s ≡ ok r) items
      → AreValid z (good_dns_records items)
  unfolding good_dns_records
  good-AreValid s items h stored =
      All-perm _ (Permᴰ.symm (sort_by_perm (λ (r : DnsRecord). r.meta.name) _))
        (kept-AreValid s items h stored)

  listed-AreValid :
      (l : Library) (zone : DnsZone) (s : c.State) (rs : List DnsRecord)
      → ListsStored c
      → IsHonest c z s
      → get_good_dns_records c l z zone s ≡ ok rs
      → AreValid z rs
  unfolding get_good_dns_records
  listed-AreValid l zone s rs lists h listed =
      elim (Result-cases (c.list_records zone.meta.name zone.meta.namespace s)) [
        | inl (items, e) ↦
            subst (AreValid z) (ok-injective (rw (e, get_good_dns_records) at listed)) (
              good-AreValid s items h (lists.get-list zone.meta.name zone.meta.namespace s items e))
        | inr (e', e) ↦ absurd (ground (arith, rw (e, get_good_dns_records) at listed))
      ]

-- Every record that goes into a zone file holds an entry that the parser accepts: whatever state
-- the three reconcilers and the users reach from one in which every record whose status says that
-- its validation has passed holds such an entry, the records that a zone's reconciler lists there are of
-- this kind. Users do not write the statuses of records, a write of the API server changes no other
-- status, a list returns the records as they are stored, and while the connectors' reconciler waits,
-- the others take steps.
pub Reach-good_dns_records :
    (c : Client) (l : Library) (z : ZoneParser) (wait : Waiting c) (orders : RangeOrders)
    (s t : c.State) (zone : DnsZone) (rs : List DnsRecord)
    → SeparatesStatus c
    → ListsStored c
    → IsWaiting c wait (Meanwhile c l z)
    → IsHonest c z s
    → Reach c l z wait orders s t
    → get_good_dns_records c l z zone t ≡ ok rs
    → AreValid z rs
Reach-good_dns_records c l z wait orders s t zone rs separates lists waits h reach listed =
    listed-AreValid c z l zone t rs lists
      (Reach-IsHonest c l z wait orders separates waits s t reach h) listed
