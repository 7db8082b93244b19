-- ===== src/Kube/Memory.antt =====
-- An API server of DNSRecords in memory, with helpers and a zone parser: they satisfy what the
-- development supposes of the libraries.
use coredns_manager_operator.Common.{
  ◌≡◌, refl, ap, sym, ◌∙◌, Bool, true, false, not, ◌&&◌, Option, none, some, List, [], ◌∷◌, ◌++◌,
  arith, keep, exists, exists-append, length, Bool-cases, inl, inr, ◌==◌, if◌then◌else◌,
}
use coredns_manager_operator.Common.Text.{Text, text, eqb}
use coredns_manager_operator.Common.Text.Equality.{eqb_refl, eqb→eq}
use coredns_manager_operator.Errors.{Error, Result, ok, err, not_found, new_error}
use coredns_manager_operator.Api.Meta.{NamespacedName, key_of}
use coredns_manager_operator.Api.DnsRecord.{DnsRecord}
use coredns_manager_operator.Kube.{
  Kind, Object, dns_records, dns_zones, dns_connectors, config_maps, workloads, Client, Library,
  ZoneParser, Consumes, IsStored, StoresRecordStatus, IsLibrary,
}

abbrev pub missing : Error
missing = record { reason = not_found; message = text "not found" }

abbrev pub same_key : NamespacedName → NamespacedName → Bool
same_key j k = eqb j.name k.name && eqb j.namespace k.namespace

pub same_key-eq : (j k : NamespacedName) → same_key j k ≡ true → j ≡ k
same_key-eq j k h = λ i. record {
  name = eqb→eq j.name k.name (ground arith) i;
  namespace = eqb→eq j.namespace k.namespace (ground arith) i;
}

pub same_key_refl : (k : NamespacedName) → same_key k k ≡ true
same_key_refl k = rw (eqb_refl k.name, eqb_refl k.namespace)

-- The newest version of a record.
unfoldable pub newest : NamespacedName → List DnsRecord → Result DnsRecord
newest key [] = err missing
newest key (r ∷ rs) = if same_key (key_of r.meta) key then ok r else newest key rs

newest-key :
    (key : NamespacedName) (rs : List DnsRecord) {r : DnsRecord}
    → newest key rs ≡ ok r
    → key_of r.meta ≡ key
unfolding newest
newest-key key [] h = cc
newest-key key (q ∷ rs) {r} h = elim (Bool-cases (same_key (key_of q.meta) key)) [
  | inl same ↦
      let q_is : ok q ≡ ok r = rw same at h in
      let q_eq : q ≡ r = cc in ap (λ x. key_of x.meta) (sym q_eq) ∙ same_key-eq _ _ same
  | inr other ↦ newest-key key rs (rw other at h)
]

pub newest_self : (r : DnsRecord) (rs : List DnsRecord) → newest (key_of r.meta) (r ∷ rs) ≡ ok r
unfolding newest
newest_self r rs = rw (same_key_refl (key_of r.meta))

abbrev get_in : (k : Kind) → NamespacedName → List DnsRecord → Result (Object k)
get_in dns_records key s = newest key s
get_in dns_zones key s = err missing
get_in dns_connectors key s = err missing
get_in config_maps key s = err missing
get_in (workloads k) key s = err missing

abbrev put_in : (k : Kind) → Object k → List DnsRecord → Result (Object k) × List DnsRecord
put_in dns_records o s = (ok o, o ∷ s)
put_in dns_zones o s = (err missing, s)
put_in dns_connectors o s = (err missing, s)
put_in config_maps o s = (err missing, s)
put_in (workloads k) o s = (err missing, s)

-- A write puts the record before its older versions.
abbrev pub memory : Client
memory = record {
  State = List DnsRecord;
  get = get_in;
  create = put_in;
  update = put_in;
  update_status = put_in;
  list_records = λ zone namespace s. ok s;
  list_zones = λ connector namespace s. ok [];
  now = λ s. length s;
  local_time = λ s. record { month = 1; day = 2; hour = 3; minute = 4; second = 5 };
}

abbrev pub helpers : Library
helpers = record {
  contains_finalizer = λ fs f. exists (λ g. eqb g f) fs;
  add_finalizer = λ fs f. if exists (λ g. eqb g f) fs then fs else fs ++ f ∷ [];
  remove_finalizer = λ fs f. keep (λ g. not (eqb g f)) fs;
  set_status_condition = λ cs c. c ∷ keep (λ d. not (eqb d.type_name c.type_name)) cs;
  equal_record_status = λ a b. false;
  equal_zone_status = λ a b. false;
  equal_connector_status = λ a b. false;
  equal_data = λ m n. false;
}

-- It reads a character at a time and refuses an exclamation mark.
abbrev pub strict_parser : ZoneParser
strict_parser = record {
  Parser = Text × Option Error;
  new_zone_parser = λ s. (s, none);
  next = next_of;
  parse_error = λ p. p.1;
  remaining = λ p. length p.0;
}
  where
    next_of : Text × Option Error → Bool × (Text × Option Error)
    next_of ([], e) = (false, ([], e))
    next_of (c ∷ s, e) =
        if c == 33 then (false, (s, some (new_error (text "bad character")))) else (true, (s, e))

exists-keep-not :
    (f : Text) (fs : List Text) → exists (λ g. eqb g f) (keep (λ g. not (eqb g f)) fs) ≡ false
unfolding exists keep
exists-keep-not f [] = refl
exists-keep-not f (g ∷ fs) = ground (arith, exists-keep-not f fs)

exists-add :
    (f : Text) (fs : List Text)
    → exists (λ g. eqb g f) (if exists (λ g. eqb g f) fs then fs else fs ++ f ∷ []) ≡ true
unfolding exists
exists-add f fs = ground (arith, exists-append (λ g. eqb g f) fs (f ∷ []), eqb_refl f)

put-object :
    (o : DnsRecord) (s : List DnsRecord) {o' : DnsRecord} {s' : List DnsRecord}
    → put_in dns_records o s ≡ (ok o', s')
    → o' ≡ o
put-object o s {o'} e = let h : ok o ≡ ok o' = ap (λ x. x.0) e in cc

newest-put :
    (o : DnsRecord) (s : List DnsRecord) {o' : DnsRecord} {s' : List DnsRecord}
    → put_in dns_records o s ≡ (ok o', s')
    → newest (key_of o.meta) s' ≡ ok o'
newest-put o s e =
    ap (newest (key_of o.meta)) (sym (ap (λ x. x.1) e)) ∙ (newest_self o s ∙ ap (λ x. x.0) e)

pub memory-IsStored : IsStored memory dns_records
memory-IsStored = record {
  key-get = λ key s found. newest-key key s found;
  get-update = λ o s e held. newest-put o s e;
  finalizers-update = λ o s e. ap (λ (r : DnsRecord). r.meta.finalizers) (put-object o s e);
  get-update_status = λ o s e. newest-put o s e;
}

pub memory-StoresRecordStatus : StoresRecordStatus memory
memory-StoresRecordStatus = record {
  status-update_status = λ o s e. ap (λ (r : DnsRecord). r.status) (put-object o s e);
}

pub helpers-IsLibrary : IsLibrary helpers
unfolding exists
helpers-IsLibrary = record {
  contains-nil = λ f. refl;
  contains-add = λ fs f. exists-add f fs;
  contains-remove = λ fs f. exists-keep-not f fs;
  equal_record_status-eq = λ a b h. cc;
}

pub strict_parser-Consumes : Consumes strict_parser
strict_parser-Consumes ([], e) h = cc
strict_parser-Consumes (c ∷ s, e) h = ground arith
