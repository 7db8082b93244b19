-- ===== src/Zone/Construction/Contents.antt =====
-- Zone files of internal/controller/dnszone_construction.go by their lines, and their records.
use mathlib.Core.List.{Permᴰ}
use coredns_manager_operator.Common.{
  ℕ, ◌+◌, ◌≡◌, refl, ap, ◌∙◌, List, [], ◌∷◌, ◌++◌, map, append_assoc, arith, Bool, All-append,
  length, All, Bool-cases, inl, inr,
}
use coredns_manager_operator.Common.Text.{Text, text, tab, newline, split, join, has_suffix}
use coredns_manager_operator.Common.Decimal.{decimal, decimal-Lacks}
use coredns_manager_operator.Common.Text.Lines.{Lacks, Lacks-append, split-unlines, split-join}
use coredns_manager_operator.Common.Sort.Laws.{Distinct, sort_by-perm, keep-perm, Distinct-keep}
use coredns_manager_operator.Errors.{ok}
use coredns_manager_operator.Api.DnsRecord.{DnsRecord, ensure_fqdn, dot}
use coredns_manager_operator.Api.DnsZone.{DnsZone, Time, dns_zone_generate_serial}
use coredns_manager_operator.Zone.Construction.{
  BakedRecords, zone_header, header_lines, construct_zone_file, good_dns_records, bake_loop,
  bake_records, records_of, lines_before_serial, lines_after_serial, serial_line,
}

abbrev pub generated : DnsRecord → Text
generated r = r.status.generated_record

bake_loop-join :
    (rs : List DnsRecord) (r : DnsRecord) (i n : ℕ) (sb : Text)
    → n ≡ i + length (r ∷ rs)
    → bake_loop (r ∷ rs) i n sb ≡ sb ++ join (map generated (r ∷ rs)) newline
unfolding bake_loop join
bake_loop-join [] r i n sb h = ground arith
bake_loop-join (q ∷ rs) r i n sb h = ground (
  arith,
  bake_loop-join rs q (i + 1) n ((sb ++ generated r) ++ newline ∷ []),
  append_assoc (sb ++ generated r) (newline ∷ []) (join (map generated (q ∷ rs)) newline),
  append_assoc sb (generated r) (newline ∷ join (map generated (q ∷ rs)) newline),
)

-- The index loop writes the records with newlines between them.
pub bake_records-join :
    (rs : List DnsRecord)
    → let baked = join (map generated rs) newline in
      bake_records rs ≡ ok (record { count = length (split baked newline); records_string = baked })
unfolding bake_records
bake_records-join [] = unfold bake_loop join in refl
bake_records-join (r ∷ rs) = rw (bake_loop-join rs r 0 (length (r ∷ rs)) [] (omega arith))

length-map-generated : (rs : List DnsRecord) → length (map generated rs) ≡ length rs
length-map-generated [] = refl
length-map-generated (r ∷ rs) = omega (arith, length-map-generated rs)

-- If the generated text of each record is one line, the count that is taken of at least one record
-- is the number of the records.
pub bake_records-count :
    (r : DnsRecord) (rs : List DnsRecord)
    → All (Lacks newline) (map generated (r ∷ rs))
    → (b : BakedRecords) × (bake_records (r ∷ rs) ≡ ok b) × (b.count ≡ length (r ∷ rs))
bake_records-count r rs h = (
  _,
  bake_records-join (r ∷ rs),
  ap length (split-join (map generated (r ∷ rs)) newline (cc) h) ∙ length-map-generated (r ∷ rs),
)

-- What a zone file has of records does not depend on the order in which the API server lists
-- them, if no two of them have one name.
pub records_of-order :
    {items items' : List DnsRecord}
    → Permᴰ items items'
    → Distinct (λ r. r.meta.name) items
    → records_of (good_dns_records items) ≡ records_of (good_dns_records items')
unfolding good_dns_records
records_of-order {items} p d =
    ap records_of
      (sort_by-perm by_name (keep-perm by_name passed p) (Distinct-keep by_name passed items d))
  where
    by_name : DnsRecord → Text
    by_name = λ r. r.meta.name

    passed : DnsRecord → Bool
    passed = λ r. r.status.validation_passed

-- The texts of the zone that stand in its header are one line each.
pub record IsOneLine (zone : DnsZone) : Type 0 where
  pub domain : Lacks newline zone.spec.domain
  pub hostname : Lacks newline zone.spec.primary_ns.hostname
  pub ip_address : Lacks newline zone.spec.primary_ns.ip_address
  pub record_type : Lacks newline zone.spec.primary_ns.record_type
  pub resp_person : Lacks newline zone.spec.resp_person_email

pub ensure_fqdn-Lacks : (name : Text) → Lacks newline name → Lacks newline (ensure_fqdn name)
unfolding ensure_fqdn
ensure_fqdn-Lacks name h = elim (Bool-cases (has_suffix name dot)) [
  | inl ends ↦ rw ends h
  | inr open_end ↦ rw open_end (Lacks-append newline name dot h (omega arith))
]

lines_before_serial-Lacks :
    (zone : DnsZone) (serial : Text)
    → IsOneLine zone
    → All (Lacks newline) (lines_before_serial (zone_header zone serial))
unfolding lines_before_serial zone_header
lines_before_serial-Lacks zone serial h = (
  Lacks-append newline (text "$ORIGIN ") _ (omega arith) fqdn,
  (
    Lacks-append newline (text "$TTL ") _ (omega arith) (
        Lacks-append newline (decimal zone.spec.ttl) (text "s") (decimal-Lacks zone.spec.ttl)
          (omega arith)),
    (
      Lacks-append newline (text "@ IN SOA ") _ (omega arith) (
          Lacks-append newline zone.spec.primary_ns.hostname _ h.hostname (
            Lacks-append newline dot _ (omega arith) (
              Lacks-append newline (ensure_fqdn zone.spec.domain) _ fqdn (
                Lacks-append newline (text " ") _ (omega arith) (
                  Lacks-append newline zone.spec.resp_person_email (text ". (") h.resp_person
                    (omega arith)))))),
      tt,
    ),
  ),
)
  where
    fqdn : Lacks newline (ensure_fqdn zone.spec.domain)
    fqdn = ensure_fqdn-Lacks zone.spec.domain h.domain

tabbed-Lacks : (n : ℕ) (s : Text) → Lacks newline s → Lacks newline (tab ∷ (decimal n ++ s))
tabbed-Lacks n s h = (omega arith, Lacks-append newline (decimal n) s (decimal-Lacks n) h)

lines_after_serial-Lacks :
    (zone : DnsZone) (serial : Text)
    → IsOneLine zone
    → All (Lacks newline) (lines_after_serial (zone_header zone serial))
unfolding lines_after_serial zone_header
lines_after_serial-Lacks zone serial h = (
  tabbed-Lacks zone.spec.refresh_rate (text "    ; Refresh") (omega arith),
  (
    tabbed-Lacks zone.spec.retry_interval (text "      ; Retry") (omega arith),
    (
      tabbed-Lacks zone.spec.expire_time (text "     ; Expire") (omega arith),
      (
        tabbed-Lacks zone.spec.minimum_ttl (text " ; Minimum TTL") (omega arith),
        (
          omega arith,
          (
            Lacks-append newline (text "@ IN NS ") _ (omega arith) (
                Lacks-append newline zone.spec.primary_ns.hostname _ h.hostname (
                  Lacks-append newline dot _ (omega arith)
                    (ensure_fqdn-Lacks zone.spec.domain h.domain))),
            (
              Lacks-append newline zone.spec.primary_ns.hostname _ h.hostname (
                  Lacks-append newline (text " IN ") _ (omega arith) (
                    Lacks-append newline zone.spec.primary_ns.record_type _ h.record_type
                      (Lacks-append newline (text " ") _ (omega arith) h.ip_address))),
              tt,
            ),
          ),
        ),
      ),
    ),
  ),
)

serial_line-Lacks : (serial : Text) → Lacks newline serial → Lacks newline (serial_line serial)
unfolding serial_line
serial_line-Lacks serial h = (omega arith, Lacks-append newline serial _ h (omega arith))

pub header_lines-Lacks :
    (zone : DnsZone) (serial : Text)
    → IsOneLine zone
    → Lacks newline serial
    → All (Lacks newline) (header_lines (zone_header zone serial))
unfolding header_lines zone_header
header_lines-Lacks zone serial h hs =
    All-append _ (lines_before_serial (zone_header zone serial)) _
      (lines_before_serial-Lacks zone serial h)
      (serial_line-Lacks serial hs, lines_after_serial-Lacks zone serial h)

-- A serial number is made of digits.
pub dns_zone_generate_serial-Lacks : (now : Time) → Lacks newline (dns_zone_generate_serial now)
unfolding dns_zone_generate_serial
dns_zone_generate_serial-Lacks now = omega arith

-- A zone with at least one record, in which the header's texts, the serial number and the generated
-- texts of the records are one line each, has its records baked and its zone file built, and the
-- lines of the zone file are those of the header and then the generated text of each record, in
-- the order of the records.
pub construct_zone_file-lines :
    (zone : DnsZone) (serial : Text) (r : DnsRecord) (rs : List DnsRecord)
    → IsOneLine zone
    → Lacks newline serial
    → All (Lacks newline) (map generated (r ∷ rs))
    → (b : BakedRecords) × (z : Text) × (records_of (r ∷ rs) ≡ ok b)
      × (construct_zone_file zone b.records_string serial ≡ ok z)
      × (split z newline ≡ header_lines (zone_header zone serial) ++ map generated (r ∷ rs))
unfolding records_of construct_zone_file
construct_zone_file-lines zone serial r rs one_line hs hr = (
  _,
  _,
  bake_records-join (r ∷ rs),
  refl,
  split-unlines (header_lines (zone_header zone serial)) _
        (header_lines-Lacks zone serial one_line hs)
      ∙ ap (λ ls. header_lines (zone_header zone serial) ++ ls)
          (split-join (map generated (r ∷ rs)) newline (cc) hr),
)
