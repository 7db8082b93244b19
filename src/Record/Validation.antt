-- ===== src/Record/Validation.antt =====
-- `constructRecord` and `validateRecords` of internal/controller/dnsrecord_construction.go
use coredns_manager_operator.Common.{
  ℕ, zero, suc, ◌<◌, ◌≡◌, ◌↔◌, refl, true, false, Option, none, some, [], ◌++◌, arith, Bool-cases,
  Option-cases, inl, inr, if◌then◌else◌,
}
use coredns_manager_operator.Common.Text.{Text, text, eqb}
use coredns_manager_operator.Errors.{Error, Result, ok, new_error, errorf}
use coredns_manager_operator.Api.DnsRecord.{DnsRecord}
use coredns_manager_operator.Kube.{ZoneParser, Consumes}

-- The template of `constructRecord`, on a record.
unfoldable pub record_text : DnsRecord → Text
record_text r =
    let e = r.spec.entry in
    e.name
    ++ ((if eqb e.ttl [] then [] else text " " ++ e.ttl)
        ++ (text " IN " ++ (e.type_name ++ (text " " ++ e.value))))

-- `constructRecord`. The template is a constant that parses, and it is executed on a record with
-- all its fields into a buffer, so both error returns stay unused.
unfoldable pub construct_record : DnsRecord → Result Text
construct_record r = ok (record_text r)

-- What holds at 0 and at the successor of what is below n holds below the successor of n.
below_suc :
    (P : ℕ → Type 0) (n : ℕ) → P 0 → ((k : ℕ) → k < n → P (suc k)) → (k : ℕ) → k < suc n → P k
below_suc P n first rest zero less = first
below_suc P n first rest (suc k) less = rest k (omega arith)

module _ (z : ZoneParser) where
  open z use {Parser, new_zone_parser, next, parse_error, remaining}

  -- The check after the loop.
  unfoldable pub final_error : Option Error → Option Error
  final_error none = none
  final_error (some e) = some (errorf (text "error parsing records: ") e)

  -- The loop over the records of the text, with fuel. The loop of the source has no bound of its own.
  unfoldable pub validate_loop : ℕ → Parser → Option Error
  validate_loop zero p = some (new_error (text "out of fuel"))
  validate_loop (suc f) p =
      let rest = validate_loop f (next p).1 in
      if (next p).0
      then elim (parse_error (next p).1) [
        | some e ↦ some (errorf (text "error parsing record: ") e)
        | none ↦ rest
      ]
      else final_error (parse_error (next p).1)

  -- `validateRecords`, with fuel for each record that the parser may return and for the end
  unfoldable pub validate_records : Text → Option Error
  validate_records records = let p = new_zone_parser records in validate_loop (suc (remaining p)) p

  -- The parser behind a number of calls of `Next`.
  unfoldable pub calls : ℕ → Parser → Parser
  calls zero p = p
  calls (suc n) p = calls n (next p).1

  -- A text is read to its end: there is a number of records that the parser returns, then it returns
  -- no more, and behind none of its calls, the last one included, has it an error.
  abbrev pub IsReadThrough : Parser → Type 0
  IsReadThrough p =
      (n : ℕ) × ((k : ℕ) → k < n → (next (calls k p)).0 ≡ true)
      × ((next (calls n p)).0 ≡ false)
      × ((k : ℕ) → k < suc n → parse_error (calls (suc k) p) ≡ none)

  some-ne-none : {e : Error} → (let x : Option Error = some e in x ≡ none) → ⊥
  some-ne-none h = ground (arith, h)

  final_error-none : (o : Option Error) → final_error o ≡ none → o ≡ none
  unfolding final_error
  final_error-none none h = refl
  final_error-none (some e) h = absurd (some-ne-none h)

  validate_loop-IsReadThrough : (f : ℕ) (p : Parser) → validate_loop f p ≡ none → IsReadThrough p
  unfolding validate_loop calls
  validate_loop-IsReadThrough zero p h = absurd (some-ne-none h)
  validate_loop-IsReadThrough (suc f) p h = elim (Bool-cases (next p).0) [
    | inl more ↦ elim (Option-cases (parse_error (next p).1)) [
      | inl fine ↦
          let (n, going, stops, well) =
            validate_loop-IsReadThrough f (next p).1 (rw (more, fine) at h) in
          (
            suc n,
            below_suc (λ k. (next (calls k p)).0 ≡ true) n more going,
            stops,
            below_suc (λ k. parse_error (calls (suc k) p) ≡ none) (suc n) fine well,
          )
      | inr (e, bad) ↦ absurd (some-ne-none (rw (more, bad) at h))
    ]
    | inr done ↦ (
      0,
      λ k less. absurd (omega arith),
      done,
      below_suc (λ k. parse_error (calls (suc k) p) ≡ none) 0 (final_error-none _ (rw done at h))
          (λ k less. absurd (omega arith)),
    )
  ]

  IsReadThrough-validate_loop :
      (f : ℕ) (p : Parser)
      → Consumes z
      → z.remaining p < f
      → IsReadThrough p
      → validate_loop f p ≡ none
  unfolding validate_loop calls final_error
  IsReadThrough-validate_loop zero p ends h reads = absurd (omega arith)
  IsReadThrough-validate_loop (suc f) p ends h (zero, going, stops, well) =
      rw (stops, well 0 (omega arith))
  IsReadThrough-validate_loop (suc f) p ends h (suc n, going, stops, well) =
      let more = going 0 (omega arith) in
      let fewer = ends p more in
      rw (more, well 0 (omega arith))
        (IsReadThrough-validate_loop f (next p).1 ends (omega arith)
          (n, λ k less. going (suc k) (omega arith), stops, λ k less. well (suc k) (omega arith)))

  -- For a parser that comes to the end of its text: `validateRecords` returns no error exactly if
  -- the parser returns some number of records and then no more, and has no error behind any of
  -- these calls, the one that ends the loop included.
  pub validate_records-none_iff :
      (records : Text)
      → Consumes z
      → (validate_records records ≡ none) ↔ IsReadThrough (new_zone_parser records)
  unfolding validate_records
  validate_records-none_iff records ends =
      let p = new_zone_parser records in
      (
        validate_loop-IsReadThrough (suc (remaining p)) p,
        IsReadThrough-validate_loop (suc (remaining p)) p ends (omega arith),
      )
