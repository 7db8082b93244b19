-- ===== src/Examples/Systems.antt =====
-- A record and its reconciliation, in the steps of the system on an API server in memory, and serial
-- numbers of two days.
use Prim.Native.Nat.{◌^◌}
use coredns_manager_operator.Common.{
  ◌≡◌, ◌↔◌, ◌<◌, inl, inr, refl, ap, sym, ◌∙◌, [], ◌∷◌, arith, length,
}
use coredns_manager_operator.Common.Decimal.{value_of}
use coredns_manager_operator.Errors.{ok}
use coredns_manager_operator.Api.DnsRecord.{DnsRecord}
use coredns_manager_operator.Api.DnsZone.{Time, dns_zone_generate_serial}
use coredns_manager_operator.Kube.{dns_records, meta_of}
use coredns_manager_operator.Kube.Memory.{helpers, strict_parser}
use coredns_manager_operator.Kube.Store.{
  Store, store, store-SeparatesStatus, listed, newest_of, newest_of-cons,
}
use coredns_manager_operator.Kube.Store.Laws.{store-ListsStored, impatient, impatient-IsWaiting}
use coredns_manager_operator.Record.Honest.{IsHonest}
use coredns_manager_operator.Record.Reconcile.{reconcile}
use coredns_manager_operator.Zone.Construction.{good_dns_records}
use coredns_manager_operator.Zone.Reconcile.{get_good_dns_records}
use coredns_manager_operator.Zone.Serial.{IsTime, IsBefore, dns_zone_generate_serial_iff}
use coredns_manager_operator.Connector.Health.{IsWaiting}
use coredns_manager_operator.Connector.Reconcile.{RangeOrders}
use coredns_manager_operator.System.Meanwhile.{Meanwhile, none_yet, by_record}
use coredns_manager_operator.System.Steps.{by_other, Reach, start, next, Reach-IsHonest}
use coredns_manager_operator.System.Served.{AreValid, Reach-good_dns_records}
use coredns_manager_operator.Examples.Records.{req, held}
use coredns_manager_operator.Examples.Zones.{zone}

abbrev before : Store
before = record { records = held ∷ []; zones = []; connectors = []; maps = []; works = [] }

before-IsHonest : IsHonest store strict_parser before
unfolding newest_of
before-IsHonest = record {
  read = λ key r found passed. elim (newest_of-cons (meta_of dns_records) held r [] key found) [
    | inl (_, is) ↦
        absurd
          (ground (arith, sym (ap (λ (x : DnsRecord). x.status.validation_passed) is) ∙ passed))
    | inr old ↦ absurd (ground (arith, old))
  ];
}

abbrev orders : RangeOrders
orders = record { blocks = λ m. m; volumes = λ m. m }

abbrev after : Store
after = (reconcile store helpers strict_parser req before).1

reached : Reach store helpers strict_parser (impatient store) orders before after
reached = next before after start (by_other after (by_record req))

store-IsWaiting : IsWaiting store (impatient store) (Meanwhile store helpers strict_parser)
store-IsWaiting = impatient-IsWaiting store _ (λ s. none_yet)

Reach-IsHonest_example : IsHonest store strict_parser after
Reach-IsHonest_example =
    Reach-IsHonest store helpers strict_parser (impatient store) orders store-SeparatesStatus
      store-IsWaiting before after reached before-IsHonest

after-listed :
    get_good_dns_records store helpers strict_parser zone after
    ≡ ok (good_dns_records (listed after.records))
unfolding get_good_dns_records
after-listed = refl

Reach-good_dns_records_example : AreValid strict_parser (good_dns_records (listed after.records))
Reach-good_dns_records_example =
    Reach-good_dns_records store helpers strict_parser (impatient store) orders before after zone
      (good_dns_records (listed after.records)) store-SeparatesStatus store-ListsStored
      store-IsWaiting before-IsHonest reached after-listed

abbrev may : Time
may = record { month = 5; day = 31; hour = 23; minute = 59; second = 59 }

abbrev june : Time
june = record { month = 6; day = 1; hour = 0; minute = 0; second = 0 }

may-IsTime : IsTime may
may-IsTime = record {
  month-le = omega arith;
  day-le = omega arith;
  hour-lt = omega arith;
  minute-lt = omega arith;
  second-lt = omega arith;
}

june-IsTime : IsTime june
june-IsTime = record {
  month-le = omega arith;
  day-le = omega arith;
  hour-lt = omega arith;
  minute-lt = omega arith;
  second-lt = omega arith;
}

dns_zone_generate_serial_iff_example :
    ((value_of (dns_zone_generate_serial may) < value_of (dns_zone_generate_serial june))
      ↔ IsBefore may june)
    × (length (dns_zone_generate_serial may) ≡ 10)
    × (value_of (dns_zone_generate_serial may) < 2 ^ 31)
dns_zone_generate_serial_iff_example = dns_zone_generate_serial_iff may june may-IsTime june-IsTime
