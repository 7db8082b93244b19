-- ===== src/Record/Reconcile.antt =====
-- internal/controller/dnsrecord_controller.go, and `handleGenericRecord` of
-- internal/controller/dnsrecord_construction.go. Logging is left out.
use coredns_manager_operator.Common.{
  ℕ, Bool, true, false, not, Option, none, some, is_some, List, [], ◌∷◌, ◌++◌, exists,
  if◌then◌else◌,
}
use coredns_manager_operator.Common.Text.{Text, text, eqb}
use coredns_manager_operator.Errors.{Error, Result, ok, err, wrap, new_error, errorf, is_not_found}
use coredns_manager_operator.Api.Meta.{
  NamespacedName, Condition, ConditionStatus, condition_false, key_of,
}
use coredns_manager_operator.Api.DnsRecord.{
  DnsRecord, condition_record_type_ready, condition_reason_record_pending,
  condition_reason_record_degraded, dns_records_finalizer_name,
}
use coredns_manager_operator.Kube.{
  dns_records, Client, Library, ZoneParser, Exec, pure, lift, raise, gets, ◌>>=◌, ◌>>◌, wrapped,
}
use coredns_manager_operator.Kube.Finalizers.{get_obj_from_k8s, add_finalizer, remove_finalizer}
use coredns_manager_operator.Record.Validation.{construct_record, validate_records}

-- `ctrl.Result`
pub record ReconcileResult : Type 0 where
  pub requeue : Bool

abbrev pub done : ReconcileResult
done = record { requeue = false }

abbrev pub once_more : ReconcileResult
once_more = record { requeue = true }

pub record_has_been_constructed_msg : Text
record_has_been_constructed_msg =
    text "Record has been constructed. Awaiting for the dnszone controller to pick up the record"

-- The cases of the switch in `reconcileDNSRecord`, which all call `handleGenericRecord`.
unfoldable pub supported_types : List Text
supported_types =
    text "A"
    ∷ text "AAAA"
    ∷ text "CNAME"
    ∷ text "MX"
    ∷ text "TXT"
    ∷ text "NS"
    ∷ text "PTR"
    ∷ text "SRV"
    ∷ text "CAA"
    ∷ text "DNSKEY"
    ∷ text "DS"
    ∷ text "NAPTR"
    ∷ text "RRSIG"
    ∷ text "DNAME"
    ∷ text "HINFO"
    ∷ []

unfoldable pub is_supported : Text → Bool
is_supported t = exists (λ u. eqb u t) supported_types

module _ (c : Client) (l : Library) (z : ZoneParser) where
  -- `setDnsRecordCondition`, at the time `now`
  unfoldable pub set_dns_record_condition :
      ℕ → DnsRecord → ConditionStatus → Text → Text → DnsRecord
  set_dns_record_condition now r status reason message =
      let condition : Condition = record {
        type_name = condition_record_type_ready;
        status = status;
        last_transition_time = now;
        reason = reason;
        message = message;
        observed_generation = r.meta.generation;
      } in
      record r {
        status = record r.status {
          conditions = l.set_status_condition r.status.conditions condition;
        };
      }

  -- `refreshDNSRecordResource`: the object that it fetches is a copy, and is not used
  unfoldable pub refresh_dns_record_resource : DnsRecord → Exec c.State Unit
  refresh_dns_record_resource r = do
    _ ←
        wrapped (text "failed to refresh DNSRecord resource: ")
          (get_obj_from_k8s c dns_records (key_of r.meta))
    pure tt

  -- `dnsRecordUpdateStatus`
  unfoldable pub dns_record_update_status : DnsRecord → DnsRecord → Exec c.State Unit
  dns_record_update_status previous current =
      if not (l.equal_record_status previous.status current.status)
      then (do
        _ ←
            wrapped (text "failed to update status and condition: ")
              (c.update_status dns_records current)
        pure tt)
      else pure tt

  -- The record as `handleGenericRecord` leaves it, for the outcome of the validation.
  unfoldable pub judged : ℕ → DnsRecord → Text → Option Error → DnsRecord
  judged now r generated none =
      let r' =
        set_dns_record_condition now r condition_false condition_reason_record_pending
          record_has_been_constructed_msg in
      record r' {
        status = record r'.status { generated_record = generated; validation_passed = true };
      }
  judged now r generated (some e) =
      let r' =
        set_dns_record_condition now r condition_false condition_reason_record_degraded
          (text "Record validation failure: " ++ e.message) in
      record r' {
        status = record r'.status { generated_record = generated; validation_passed = false };
      }

  -- What `handleGenericRecord` returns in the end.
  unfoldable pub verdict : Text → Option Error → Result Text
  verdict generated none = ok generated
  verdict generated (some e) = err (errorf (text "record validation failure: ") e)

  -- `handleGenericRecord`. Both branches refresh, set the condition and update the status.
  unfoldable pub handle_generic_record : DnsRecord → Exec c.State Text
  handle_generic_record r = do
    generated ← lift (wrap (text "handle Record Error: ") (construct_record r))
    let outcome = validate_records z generated
    wrapped (text "failed to refresh DNSRecord resource: ") (refresh_dns_record_resource r)
    now ← gets c.now
    wrapped (text "failed to update status and condition: ")
        (dns_record_update_status r (judged now r generated outcome))
    lift (verdict generated outcome)

  -- `reconcileDNSRecord`
  unfoldable pub reconcile_dns_record : DnsRecord → Exec c.State ReconcileResult
  reconcile_dns_record r =
      if is_supported r.spec.entry.type_name
      then (do _ ← handle_generic_record r; pure done)
      else raise (new_error (text "unknown redord type: " ++ r.spec.entry.type_name))

  -- `reconcileDelete`
  unfoldable pub reconcile_delete : DnsRecord → Exec c.State ReconcileResult
  reconcile_delete r = do
    remove_finalizer c l dns_records (key_of r.meta) dns_records_finalizer_name
    pure done

  -- `Reconcile`, behind the call of `r.Get`
  unfoldable pub reconcile_found : DnsRecord → Exec c.State ReconcileResult
  reconcile_found r =
      if not (l.contains_finalizer r.meta.finalizers dns_records_finalizer_name)
      then (do
        add_finalizer c l dns_records (key_of r.meta) dns_records_finalizer_name
        pure once_more)
      else if is_some r.meta.deletion_timestamp
      then reconcile_delete r
      else reconcile_dns_record r

  -- `Reconcile`, on what `r.Get` returns
  unfoldable pub reconcile_fetched : Result DnsRecord → Exec c.State ReconcileResult
  reconcile_fetched (ok r) s = reconcile_found r s
  reconcile_fetched (err e) s = if is_not_found e then (ok done, s) else (err e, s)

  -- `Reconcile`
  unfoldable pub reconcile : NamespacedName → Exec c.State ReconcileResult
  reconcile req s = reconcile_fetched (c.get dns_records req s) s
