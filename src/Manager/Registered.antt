-- ===== src/Manager/Registered.antt =====
-- What a manager has when `main` of cmd/main.go starts it.
use coredns_manager_operator.Common.{
  ◌≡◌, refl, inl, inr, ap, ◌∙◌, Option, none, some, List, [], ◌∷◌, ◌++◌, arith,
}
use coredns_manager_operator.Common.Text.{Text, text}
use coredns_manager_operator.Errors.{Error, ok, Result-cases}
use coredns_manager_operator.Kube.{Kind, Object, dns_records, dns_zones}
use coredns_manager_operator.Watch.{dns_record_index, dns_zone_connector_index}
use coredns_manager_operator.Watch.Events.{Predicates, Controller}
use coredns_manager_operator.Watch.Setup.{
  dns_record_controller, dns_zone_controller, dns_connector_controller,
}
use coredns_manager_operator.Manager.{
  Flags, Options, manager_options, dns_record_index_name, dns_zone_connector_index_name, Call,
  Manager, after, Outcome, exits, goes_on, unless_error, ◌>>=◌, setup_dns_record, setup_dns_zone,
  setup_dns_connector, new_manager_made, set_up, main,
}

-- What a manager was told, the last call first.
pub data Told : Type 0 where
  indexed : (k : Kind) → Text → (Object k → List Text) → Told
  completed : Controller → Told
  healthz readyz : Text → Told

-- What the set-ups of the controllers of zones and of connectors tell it.
abbrev zone_calls : Predicates → List Told
zone_calls p =
    completed (dns_zone_controller p)
    ∷ indexed dns_records dns_record_index_name dns_record_index
    ∷ []

abbrev connector_calls : Predicates → List Told
connector_calls p =
    completed (dns_connector_controller p)
    ∷ indexed dns_zones dns_zone_connector_index_name dns_zone_connector_index
    ∷ []

-- What the manager was told, as it is documented: a call that returns no error is done.
pub record Remembers (m : Manager) : Type 1 where
  pub options : m.State → Options
  pub told : m.State → List Told
  pub new_lem :
      (o : Options) (s : m.State) → m.new_manager o ≡ ok s → (options s ≡ o) × (told s ≡ [])
  pub index_lem :
      (k : Kind) (name : Text) (f : Object k → List Text) (s t : m.State)
      → m.index_field k name f s ≡ (none, t)
      → (options t ≡ options s) × (told t ≡ indexed k name f ∷ told s)
  pub complete_lem :
      (c : Controller) (s t : m.State)
      → m.complete c s ≡ (none, t)
      → (options t ≡ options s) × (told t ≡ completed c ∷ told s)
  pub healthz_lem :
      (name : Text) (s t : m.State)
      → m.add_healthz_check name s ≡ (none, t)
      → (options t ≡ options s) × (told t ≡ healthz name ∷ told s)
  pub readyz_lem :
      (name : Text) (s t : m.State)
      → m.add_readyz_check name s ≡ (none, t)
      → (options t ≡ options s) × (told t ≡ readyz name ∷ told s)

then-goes_on :
    {S : Type 0} (o : Outcome S) (k : S → Outcome S) (t : S)
    → (o >>= k) ≡ goes_on t
    → (s : S) × (o ≡ goes_on s) × (k s ≡ goes_on t)
unfolding ◌>>=◌
then-goes_on (exits message e) k t h = absurd (ground (arith, h))
then-goes_on (goes_on s) k t h = (s, refl, h)

goes_on-injective :
    {S : Type 0} {s t : S} → (let x : Outcome S = goes_on s in x ≡ goes_on t) → s ≡ t
goes_on-injective h = cc

unless_error-goes_on :
    {S : Type 0} (message : Text) (r : Option Error × S) (t : S)
    → unless_error message r ≡ goes_on t
    → r ≡ (none, t)
unless_error-goes_on message (some e, s) t h = absurd (ground (arith, h))
unless_error-goes_on message (none, s) t h =
    let same : s ≡ t = goes_on-injective h in λ i. (none, same i)

after-none :
    {S : Type 0} (k : Call S) (r : Option Error × S) (t : S)
    → after k r ≡ (none, t)
    → (s : S) × (r ≡ (none, s)) × (k s ≡ (none, t))
after-none k (some e, s) t h = absurd (ground (arith, ap (λ x. x.0) h))
after-none k (none, s) t h = (s, refl, h)

module _ (m : Manager) (p : Predicates) (memory : Remembers m) where
  -- A step of the process, and what it told the manager.
  abbrev Adds : List Told → m.State → m.State → Type 0
  Adds new s t = (memory.options t ≡ memory.options s) × (memory.told t ≡ new ++ memory.told s)

  step-Adds :
      (new : List Told) {s t : m.State} {o : Options} {old : List Told}
      → Adds new s t
      → (memory.options s ≡ o) × (memory.told s ≡ old)
      → (memory.options t ≡ o) × (memory.told t ≡ new ++ old)
  step-Adds new (same, adds) (options, told) = (same ∙ options, adds ∙ ap (λ x. new ++ x) told)

  setup_dns_zone-Adds : (s t : m.State) → setup_dns_zone m p s ≡ (none, t) → Adds (zone_calls p) s t
  unfolding setup_dns_zone
  setup_dns_zone-Adds s t h =
      let (u, first, second) = after-none _ _ t h in
      step-Adds (completed (dns_zone_controller p) ∷ []) (memory.complete_lem _ u t second)
        (memory.index_lem _ _ _ s u first)

  setup_dns_connector-Adds :
      (s t : m.State) → setup_dns_connector m p s ≡ (none, t) → Adds (connector_calls p) s t
  unfolding setup_dns_connector
  setup_dns_connector-Adds s t h =
      let (u, first, second) = after-none _ _ t h in
      step-Adds (completed (dns_connector_controller p) ∷ []) (memory.complete_lem _ u t second)
        (memory.index_lem _ _ _ s u first)

  new_manager_made-goes_on :
      (flags : Flags) (s : m.State)
      → new_manager_made m p (m.new_manager (manager_options flags)) ≡ goes_on s
      → (memory.options s ≡ manager_options flags) × (memory.told s ≡ [])
  new_manager_made-goes_on flags s h = elim (Result-cases (m.new_manager (manager_options flags))) [
    | inl (u, made) ↦
        let same : u ≡ s = goes_on-injective (rw made at h) in
        memory.new_lem (manager_options flags) s (made ∙ ap ok same)
    | inr (e, failed) ↦ absurd (ground (arith, rw failed at h))
  ]

  main_lem :
      (flags : Flags) (s : m.State)
      → set_up m p flags ≡ goes_on s
      → main m p flags ≡ unless_error (text "problem running manager") (m.start s)
  unfolding main ◌>>=◌
  main_lem flags s h = rw h refl

  -- Where the set-up of the process ends without an error, the manager has the options of the flags
  -- and was told of these and nothing else, in this order: the index of records by their zone, the
  -- controllers of zones and of records, the index of zones by their connector, the controller of
  -- connectors, and the two probes. Only such a manager is started, and the process ends with an
  -- error or not as the start does. What the manager was told is supposed to be as it is documented.
  pub set_up-tells :
      (flags : Flags) (s : m.State)
      → set_up m p flags ≡ goes_on s
      → (memory.options s ≡ manager_options flags)
        × (memory.told s
            ≡ readyz (text "readyz")
              ∷ healthz (text "healthz")
              ∷ completed (dns_connector_controller p)
              ∷ indexed dns_zones dns_zone_connector_index_name dns_zone_connector_index
              ∷ completed (dns_record_controller p)
              ∷ completed (dns_zone_controller p)
              ∷ indexed dns_records dns_record_index_name dns_record_index
              ∷ [])
        × (main m p flags ≡ unless_error (text "problem running manager") (m.start s))
  unfolding set_up setup_dns_record
  set_up-tells flags s h =
      let (s₅, h₅, ready) = then-goes_on _ _ s h in
      let (s₄, h₄, health) = then-goes_on _ _ s₅ h₅ in
      let (s₃, h₃, connector) = then-goes_on _ _ s₄ h₄ in
      let (s₂, h₂, dns_record) = then-goes_on _ _ s₃ h₃ in
      let (s₁, h₁, zone) = then-goes_on _ _ s₂ h₂ in
      let told₂ =
        step-Adds (zone_calls p) (setup_dns_zone-Adds s₁ s₂ (unless_error-goes_on _ _ s₂ zone))
          (new_manager_made-goes_on flags s₁ h₁) in
      let told₃ =
        step-Adds (completed (dns_record_controller p) ∷ [])
          (memory.complete_lem _ s₂ s₃ (unless_error-goes_on _ _ s₃ dns_record)) told₂ in
      let told₄ =
        step-Adds (connector_calls p)
          (setup_dns_connector-Adds s₃ s₄ (unless_error-goes_on _ _ s₄ connector)) told₃ in
      let told₅ =
        step-Adds (healthz (text "healthz") ∷ [])
          (memory.healthz_lem _ s₄ s₅ (unless_error-goes_on _ _ s₅ health)) told₄ in
      let told₆ =
        step-Adds (readyz (text "readyz") ∷ [])
          (memory.readyz_lem _ s₅ s (unless_error-goes_on _ _ s ready)) told₅ in
      (told₆.0, told₆.1, main_lem flags s h)
