-- ===== src/Zone/Serial.antt =====
-- The serial numbers of `DNSZoneGenerateSerial` in api/v1alpha1/dnszone_types.go as numbers.
use Prim.Native.Nat.{◌^◌}
use coredns_manager_operator.Common.{
  ℕ, ◌+◌, ◌*◌, ◌/◌, ◌%◌, ◌-◌, ◌≤◌, ◌<◌, ◌≡◌, ◌↔◌, ◌⊎◌, inl, inr, refl, arith, length, Bool-cases,
  ltb,
}
use coredns_manager_operator.Common.Decimal.{value_of, value_loop}
use coredns_manager_operator.Api.DnsZone.{Time, two_digits, dns_zone_generate_serial}

-- The parts of a time are in the ranges of a calendar and a clock.
pub record IsTime (t : Time) : Type 0 where
  pub month-le : t.month ≤ 12
  pub day-le : t.day ≤ 31
  pub hour-lt : t.hour < 24
  pub minute-lt : t.minute < 60
  pub second-lt : t.second < 60

-- The time of the year in seconds, if all months had a hundred days and so on
abbrev rank : Time → ℕ
rank t = (((t.month * 100 + t.day) * 100 + t.hour) * 100 + t.minute) * 100 + t.second

two_digits-value : (m n : ℕ) → (m * 10 + (48 + n / 10 - 48)) * 10 + (48 + n % 10 - 48) ≡ m * 100 + n
two_digits-value m n = omega arith

-- The serial number counts the time of the year.
serial-rank : (t : Time) → value_of (dns_zone_generate_serial t) ≡ rank t
unfolding value_of value_loop dns_zone_generate_serial two_digits
serial-rank t = omega (
  arith,
  two_digits-value 0 t.month,
  two_digits-value t.month t.day,
  two_digits-value (t.month * 100 + t.day) t.hour,
  two_digits-value ((t.month * 100 + t.day) * 100 + t.hour) t.minute,
  two_digits-value (((t.month * 100 + t.day) * 100 + t.hour) * 100 + t.minute) t.second,
)

-- One time of the year is before another one.
abbrev pub IsBefore : Time → Time → Type 0
IsBefore t u =
    (t.month < u.month)
    ⊎ ((t.month ≡ u.month)
        × ((t.day < u.day)
            ⊎ ((t.day ≡ u.day)
                × ((t.hour < u.hour)
                    ⊎ ((t.hour ≡ u.hour)
                        × ((t.minute < u.minute)
                            ⊎ ((t.minute ≡ u.minute) × (t.second < u.second))))))))

rank-IsBefore : (t u : Time) → IsTime t → IsTime u → IsBefore t u → rank t < rank u
rank-IsBefore t u is is' (inl months) =
    omega (arith, months, is.day-le, is.hour-lt, is.minute-lt, is.second-lt)
rank-IsBefore t u is is' (inr (m, inl days)) =
    omega (arith, m, days, is.hour-lt, is.minute-lt, is.second-lt)
rank-IsBefore t u is is' (inr (m, inr (d, inl hours))) =
    omega (arith, m, d, hours, is.minute-lt, is.second-lt)
rank-IsBefore t u is is' (inr (m, inr (d, inr (h, inl minutes)))) =
    omega (arith, m, d, h, minutes, is.second-lt)
rank-IsBefore t u is is' (inr (m, inr (d, inr (h, inr (n, seconds))))) =
    omega (arith, m, d, h, n, seconds)

ten_digits : (t : Time) → length (dns_zone_generate_serial t) ≡ 10
unfolding dns_zone_generate_serial two_digits
ten_digits t = refl

-- Two numbers in order
in_order : (a b : ℕ) → a ≤ b → (a < b) ⊎ (a ≡ b)
in_order a b h = elim (Bool-cases (ltb a b)) [
  | inl less ↦ inl (ground (arith, less))
  | inr same ↦ inr (ground (arith, same, h))
]

IsBefore-rank : (t u : Time) → IsTime t → IsTime u → rank t < rank u → IsBefore t u
IsBefore-rank t u is is' h = elim (in_order t.month u.month (omega arith)) [
  | inl months ↦ inl months
  | inr m ↦ inr (
    m,
    elim (in_order t.day u.day (omega arith)) [
      | inl days ↦ inl days
      | inr d ↦ inr (
        d,
        elim (in_order t.hour u.hour (omega arith)) [
          | inl hours ↦ inl hours
          | inr o ↦ inr (
            o,
            elim (in_order t.minute u.minute (omega arith)) [
              | inl minutes ↦ inl minutes
              | inr n ↦ inr (n, omega arith)
            ],
          )
        ],
      )
    ],
  )
]

-- Of two serial numbers of the same year, the one of the earlier time is the smaller one, and a serial
-- number has ten digits and is below 2 ^ 31, so that a name server that compares serial numbers of 32
-- bits by RFC 1982 takes the larger one for the newer one.
pub dns_zone_generate_serial_iff :
    (t u : Time)
    → IsTime t
    → IsTime u
    → ((value_of (dns_zone_generate_serial t) < value_of (dns_zone_generate_serial u))
        ↔ IsBefore t u)
      × (length (dns_zone_generate_serial t) ≡ 10)
      × (value_of (dns_zone_generate_serial t) < 2 ^ 31)
dns_zone_generate_serial_iff t u is is' =
    rw (serial-rank t, serial-rank u)
      ((IsBefore-rank t u is is', rank-IsBefore t u is is'), ten_digits t, omega arith)
