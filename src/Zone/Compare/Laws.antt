-- ===== src/Zone/Compare/Laws.antt =====
-- The comparison of zone config maps in internal/controller/dnszone_controller.go, at zone files as
-- internal/controller/dnszone_construction.go makes them, and at any texts.
use coredns_manager_operator.Common.{
  ◌≡◌, ◌↔◌, refl, ap, ◌∙◌, sym, Bool, true, Option, none, some, List, [], ◌∷◌, ◌++◌, map,
  append_assoc, arith, Bool-cases, inl, inr,
}
use coredns_manager_operator.Common.Text.{Text, text, newline, tab, split, eqb}
use coredns_manager_operator.Common.Text.Lines.{
  Lacks, Lacks-append, unlines, unlines-append_append, split-append_sep, split_Lacks,
}
use coredns_manager_operator.Common.Text.Prefix.{contains-append}
use coredns_manager_operator.Common.Dict.{Dict, lookup, SameMap}
use mathlib.Core.Option
use coredns_manager_operator.Errors.{ok}
use coredns_manager_operator.Api.Meta.{ConfigMap}
use coredns_manager_operator.Api.DnsZone.{DnsZone}
use coredns_manager_operator.Api.DnsRecord.{ensure_fqdn}
use coredns_manager_operator.Zone.Construction.{
  zone_header, header_lines, lines_before_serial, lines_after_serial, serial_line,
  construct_zone_file, construct_zone_config_map,
}
use coredns_manager_operator.Zone.Compare.{
  first_piece, serial_word, has_serial, masked_end, mask_line, remove_serial_number, map_values,
  compare_zonefile_config_maps,
}
use coredns_manager_operator.Zone.Compare.Masks.{
  plain_lines, mask_line_serial, remove_serial_number-plain_lines, masked,
  remove_serial_number_of_masked, ok-injective, masked-append_line,
}

pub lookup-map_values :
    (f : Text → Text) (k : Text) (m : Dict Text)
    → lookup k (map_values f m) ≡ Option.map f (lookup k m)
unfolding map_values lookup
lookup-map_values f k [] = refl
lookup-map_values f k ((j, v) ∷ m) = elim (Bool-cases (eqb j k)) [
  | inl same ↦ rw same refl
  | inr other ↦ rw other (lookup-map_values f k m)
]

pub map-eq-some :
    (f : Text → Text) (o : Option Text) (z : Text)
    → some (f z) ≡ Option.map f o
    → (z' : Text) × (o ≡ some z') × (f z ≡ f z')
map-eq-some f none z h = cc
map-eq-some f (some z') z h = (z', refl, cc)

masked-unlines :
    (ls : List Text) (z z' : Text)
    → masked z ≡ masked z'
    → masked (unlines ls ++ z) ≡ masked (unlines ls ++ z')
masked-unlines [] z z' h = h
masked-unlines (l ∷ ls) z z' h =
    rw (append_assoc l _ z, append_assoc l _ z')
      (masked-append_line l (unlines ls ++ z)
        ∙ (ap (λ ms. map mask_line (split l newline) ++ ms) (masked-unlines ls z z' h)
            ∙ sym (masked-append_line l (unlines ls ++ z'))))

has_serial-serial_line : (s : Text) → has_serial (serial_line s) ≡ true
unfolding serial_line has_serial
has_serial-serial_line s =
    rw (← append_assoc s (text "     ; ") (text "Serial"))
      (contains-append (tab ∷ (s ++ text "     ; ")) (text "Serial"))

mask_line-serial_line : (s : Text) → mask_line (serial_line s) ≡ masked_end ++ serial_word
mask_line-serial_line s =
    mask_line_serial (serial_line s) (has_serial-serial_line s)
    ∙ unfold serial_line split first_piece in refl

masked-serial_line :
    (s z : Text)
    → Lacks newline s
    → masked (serial_line s ++ newline ∷ z) ≡ (masked_end ++ serial_word) ∷ masked z
masked-serial_line s z h =
    masked-append_line (serial_line s) z
    ∙ rw (
      split_Lacks (serial_line s) newline
          (unfold serial_line in (omega arith, Lacks-append newline s _ h (omega arith))),
      mask_line-serial_line,
    )

abbrev zone_text : DnsZone → Text → Text → Text
zone_text zone records s = unlines (header_lines (zone_header zone s)) ++ records

construct_zone_file-zone_text :
    (zone : DnsZone) (records s : Text)
    → construct_zone_file zone records s ≡ ok (zone_text zone records s)
unfolding construct_zone_file
construct_zone_file-zone_text zone records s = refl

masked-zone_text :
    (zone : DnsZone) (records s : Text)
    → masked (zone_text zone records s)
      ≡ masked (
          unlines (lines_before_serial (zone_header zone []))
          ++ (serial_line s
              ++ newline ∷ (unlines (lines_after_serial (zone_header zone [])) ++ records)))
unfolding header_lines zone_header lines_before_serial lines_after_serial
masked-zone_text zone records s = ap masked (
    unlines-append_append (lines_before_serial (zone_header zone s))
      (serial_line s ∷ lines_after_serial (zone_header zone s)) records
    ∙ ap (λ x. unlines (lines_before_serial (zone_header zone s)) ++ x)
        (append_assoc (serial_line s) _ records))

-- The serial number of a constructed zone file does not survive.
pub remove_serial_number-construct :
    (zone : DnsZone) (records s s' : Text) {z z' : Text}
    → Lacks newline s
    → Lacks newline s'
    → construct_zone_file zone records s ≡ ok z
    → construct_zone_file zone records s' ≡ ok z'
    → remove_serial_number z ≡ remove_serial_number z'
remove_serial_number-construct zone records s s' {z} {z'} hs hs' h h' =
    ap remove_serial_number (ok-injective (sym h ∙ construct_zone_file-zone_text zone records s))
    ∙ (remove_serial_number_of_masked _ _ (masked_zone s hs ∙ sym (masked_zone s' hs'))
        ∙ ap remove_serial_number
            (ok-injective (sym (construct_zone_file-zone_text zone records s') ∙ h')))
  where
    rest : Text
    rest = unlines (lines_after_serial (zone_header zone [])) ++ records

    masked_zone :
        (r : Text)
        → Lacks newline r
        → masked (zone_text zone records r)
          ≡ masked (
              unlines (lines_before_serial (zone_header zone []))
              ++ (serial_line [] ++ newline ∷ rest))
    masked_zone r hr =
        masked-zone_text zone records r
        ∙ masked-unlines (lines_before_serial (zone_header zone [])) _ _
            (masked-serial_line r rest hr ∙ sym (masked-serial_line [] rest tt))

first_piece-split : (p s : Text) → Lacks tab p → first_piece (split (p ++ tab ∷ s) tab) ≡ p
unfolding first_piece
first_piece-split p s h = rw (split-append_sep p s tab, split_Lacks p tab h)

-- Two lines that hold the word "Serial" and are the same in front of their first tab, which both
-- have, are the same for the comparison, whatever stands behind that tab.
pub remove_serial_number_blind :
    (p s s' : Text)
    → Lacks tab p
    → Lacks newline p
    → Lacks newline s
    → Lacks newline s'
    → has_serial (p ++ tab ∷ s) ≡ true
    → has_serial (p ++ tab ∷ s') ≡ true
    → remove_serial_number (p ++ tab ∷ s) ≡ remove_serial_number (p ++ tab ∷ s')
remove_serial_number_blind p s s' tp np ns ns' h h' =
    remove_serial_number_of_masked _ _ (masked_half s ns h ∙ sym (masked_half s' ns' h'))
  where
    masked_half :
        (r : Text)
        → Lacks newline r
        → has_serial (p ++ tab ∷ r) ≡ true
        → masked (p ++ tab ∷ r) ≡ ((p ++ masked_end) ++ serial_word) ∷ []
    masked_half r nr hr =
        rw
          (split_Lacks (p ++ tab ∷ r) newline
            (Lacks-append newline p (tab ∷ r) np (omega arith, nr)))
          (ap (λ l. l ∷ [])
            (mask_line_serial (p ++ tab ∷ r) hr
              ∙ ap (λ q. (q ++ masked_end) ++ serial_word) (first_piece-split p r tp)))

-- `equality.Semantic.DeepEqual` at maps of texts: it holds of two maps with the same values.
module _ (deep_equal : Dict Text → Dict Text → Bool)
    (deep_equal_iff : (m n : Dict Text) → (deep_equal m n ≡ true) ↔ SameMap m n) where
  -- If two config maps compare equal, and the first has a zone file at a key, then the second has
  -- one at that key, and the lines without the word "Serial" are the same in both, in their order.
  pub compare-plain_lines :
      (previous upcoming : ConfigMap) (k z : Text)
      → compare_zonefile_config_maps deep_equal previous upcoming ≡ true
      → lookup k previous.contents ≡ some z
      → (z' : Text) × (lookup k upcoming.contents ≡ some z') × (plain_lines z ≡ plain_lines z')
  unfolding compare_zonefile_config_maps
  compare-plain_lines previous upcoming k z same found =
      let equal : some (remove_serial_number z)
          ≡ Option.map remove_serial_number (lookup k upcoming.contents) =
        sym (
          lookup-map_values remove_serial_number k previous.contents
          ∙ ap (Option.map remove_serial_number) found)
        ∙ ((deep_equal_iff _ _).0 same k
            ∙ lookup-map_values remove_serial_number k upcoming.contents) in
      let (z', there, agree) =
        map-eq-some remove_serial_number (lookup k upcoming.contents) z equal in
      (z', there, remove_serial_number-plain_lines z z' agree)

  pub compare-construct :
      (zone : DnsZone) (cm_obj records s s' : Text) (annotations annotations' : Dict Text)
      → Lacks newline s
      → Lacks newline s'
      → {z z' : Text} {cm cm' : ConfigMap} → construct_zone_file zone records s ≡ ok z
      → construct_zone_file zone records s' ≡ ok z'
      → construct_zone_config_map cm_obj zone z annotations ≡ ok cm
      → construct_zone_config_map cm_obj zone z' annotations' ≡ ok cm'
      → compare_zonefile_config_maps deep_equal cm cm' ≡ true
  unfolding compare_zonefile_config_maps construct_zone_config_map map_values
  compare-construct zone cm_obj records s s' annotations annotations' hs hs' {z} {z'} built built'
        at_z at_z' =
      rw (contents_of (sym at_z), contents_of (sym at_z'))
        ((deep_equal_iff _ _).1 (λ k.
          ap (λ y. lookup k ((ensure_fqdn zone.spec.domain ++ text "zone", y) ∷ []))
            (remove_serial_number-construct zone records s s' hs hs' built built')))
    where
      contents_of : {c c' : ConfigMap} → ok c ≡ ok c' → c.contents ≡ c'.contents
      contents_of h = cc

  -- A zone that is built twice, with two serial numbers of one line and with whatever annotations,
  -- and with nothing else changed, is built both times, and the two config maps compare equal.
  pub compare-construct_again :
      (zone : DnsZone) (cm_obj records s s' : Text) (annotations annotations' : Dict Text)
      → Lacks newline s
      → Lacks newline s'
      → (z z' : Text) × (cm cm' : ConfigMap) × (construct_zone_file zone records s ≡ ok z)
        × (construct_zone_file zone records s' ≡ ok z')
        × (construct_zone_config_map cm_obj zone z annotations ≡ ok cm)
        × (construct_zone_config_map cm_obj zone z' annotations' ≡ ok cm')
        × (compare_zonefile_config_maps deep_equal cm cm' ≡ true)
  unfolding construct_zone_config_map
  compare-construct_again zone cm_obj records s s' annotations annotations' hs hs' = (
    zone_text zone records s,
    zone_text zone records s',
    _,
    _,
    construct_zone_file-zone_text zone records s,
    construct_zone_file-zone_text zone records s',
    refl,
    refl,
    compare-construct zone cm_obj records s s' annotations annotations' hs hs'
        (construct_zone_file-zone_text zone records s)
        (construct_zone_file-zone_text zone records s') refl refl,
  )
