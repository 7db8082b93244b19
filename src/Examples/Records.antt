-- ===== src/Examples/Records.antt =====
-- The reconciliation of a record, on an API server in memory.
use coredns_manager_operator.Common.{
  ℕ, ◌≡◌, refl, subst, ap, ◌∙◌, true, false, not, Option, none, some, is_some, List, [], ◌∷◌, ◌↔◌,
  exists, keep,
}
use coredns_manager_operator.Common.Text.{Text, text, eqb}
use coredns_manager_operator.Common.Text.Equality.{eqb_refl}
use coredns_manager_operator.Errors.{ok}
use coredns_manager_operator.Api.Meta.{NamespacedName, empty_meta, key_of}
use coredns_manager_operator.Api.DnsRecord.{DnsRecord, dns_records_finalizer_name}
use coredns_manager_operator.Kube.Memory.{
  memory, helpers, strict_parser, newest, newest_self, memory-IsStored, memory-StoresRecordStatus,
  helpers-IsLibrary, strict_parser-Consumes,
}
use coredns_manager_operator.Record.Validation.{
  record_text, validate_loop, validate_records, final_error, IsReadThrough,
  validate_records-none_iff,
}
use coredns_manager_operator.Record.Reconcile.{
  done, once_more, is_supported, supported_types, reconcile,
}
use coredns_manager_operator.Record.Stored.{HasEntry, answer, reconcile-stores}
use coredns_manager_operator.Record.Lifecycle.{reconcile-ok, reconcile-adopts, reconcile-releases}

abbrev finalizer : Text
finalizer = dns_records_finalizer_name

abbrev record_of : List Text → Option ℕ → Text → DnsRecord
record_of finalizers deleted value = record {
  meta = record empty_meta {
    name = text "www";
    namespace = text "dns";
    finalizers = finalizers;
    deletion_timestamp = deleted;
  };
  spec = record {
    entry = record { name = text "www"; value = value; type_name = text "A"; ttl = [] };
    dns_zone_ref = text "zone-a";
  };
  status = record { conditions = []; validation_passed = false; generated_record = [] };
}

abbrev pub req : NamespacedName
req = record { name = text "www"; namespace = text "dns" }

abbrev fresh : DnsRecord
fresh = record_of [] none (text "10.0.0.2")

abbrev pub held : DnsRecord
held = record_of (finalizer ∷ []) none (text "10.0.0.2")

abbrev broken : DnsRecord
broken = record_of (finalizer ∷ []) none (text "10!")

abbrev leaving : DnsRecord
leaving = record_of (finalizer ∷ []) (some 7) (text "10.0.0.2")

stands : (r : DnsRecord) (s : List DnsRecord) → key_of r.meta ≡ req → newest req (r ∷ s) ≡ ok r
stands r s e = subst (λ k. newest k (r ∷ s) ≡ ok r) e (newest_self r s)

has_finalizer : helpers.contains_finalizer (finalizer ∷ []) finalizer ≡ true
unfolding exists
has_finalizer = rw (eqb_refl finalizer)

without_finalizer : helpers.remove_finalizer (finalizer ∷ []) finalizer ≡ []
unfolding keep
without_finalizer = rw (eqb_refl finalizer)

lacks_finalizer : helpers.contains_finalizer [] finalizer ≡ false
unfolding exists
lacks_finalizer = refl

adding_finalizer : helpers.add_finalizer [] finalizer ≡ finalizer ∷ []
unfolding exists
adding_finalizer = refl

supported : is_supported (text "A") ≡ true
unfolding is_supported supported_types exists eqb
supported = refl

held-valid : validate_records strict_parser (record_text held) ≡ none
unfolding validate_records validate_loop final_error record_text eqb
held-valid = refl

reconcile-stores_example :
    (s'' : List DnsRecord) × (reconcile memory helpers strict_parser req (broken ∷ []) ≡ (
      answer memory helpers strict_parser (validate_records strict_parser (record_text broken)),
      s'',
    ))
    × HasEntry memory helpers strict_parser req s''
        (record_text broken)
        (not (is_some (validate_records strict_parser (record_text broken))))
reconcile-stores_example =
    reconcile-stores memory helpers strict_parser memory-IsStored memory-StoresRecordStatus
      helpers-IsLibrary req broken (broken ∷ []) (stands broken [] refl) has_finalizer refl
      supported refl

validate_records-none_iff_example :
    (validate_records strict_parser (text "a!") ≡ none)
    ↔ IsReadThrough strict_parser (strict_parser.new_zone_parser (text "a!"))
validate_records-none_iff_example =
    validate_records-none_iff strict_parser (text "a!") strict_parser-Consumes

reconcile-adopts_example :
    (reconcile memory helpers strict_parser req (fresh ∷ []) ≡ (ok once_more, held ∷ fresh ∷ []))
    × (newest req (held ∷ fresh ∷ []) ≡ ok held)
    × (helpers.contains_finalizer (finalizer ∷ []) finalizer ≡ true)
reconcile-adopts_example =
    reconcile-adopts memory helpers strict_parser memory-IsStored helpers-IsLibrary req fresh
      (fresh ∷ []) (stands fresh [] refl) lacks_finalizer
      (ap
        (λ fs. (
          ok (record_of fs none (text "10.0.0.2")),
          record_of fs none (text "10.0.0.2") ∷ fresh ∷ [],
        ))
        adding_finalizer)

reconcile-releases_example :
    (reconcile memory helpers strict_parser req (leaving ∷ [])
      ≡ (ok done, record_of [] (some 7) (text "10.0.0.2") ∷ leaving ∷ []))
    × (helpers.contains_finalizer [] finalizer ≡ false)
reconcile-releases_example =
    reconcile-releases memory helpers strict_parser memory-IsStored helpers-IsLibrary req leaving
      (leaving ∷ []) 7 {o' = record_of [] (some 7) (text "10.0.0.2")} (stands leaving [] refl)
      has_finalizer refl
      (ap
        (λ fs. (
          ok (record_of fs (some 7) (text "10.0.0.2")),
          record_of fs (some 7) (text "10.0.0.2") ∷ leaving ∷ [],
        ))
        without_finalizer)

held-reconciled : (reconcile memory helpers strict_parser req (held ∷ [])).0 ≡ ok done
held-reconciled =
    let stored =
      reconcile-stores memory helpers strict_parser memory-IsStored memory-StoresRecordStatus
        helpers-IsLibrary req held (held ∷ []) (stands held [] refl) has_finalizer refl supported
        refl in
    ap (λ x. x.0) stored.1 ∙ ap (answer memory helpers strict_parser) held-valid

reconcile-ok_example :
    (is_supported (text "A") ≡ true) × (validate_records strict_parser (record_text held) ≡ none)
reconcile-ok_example =
    reconcile-ok memory helpers strict_parser req held (held ∷ []) done (stands held [] refl)
      has_finalizer refl held-reconciled
