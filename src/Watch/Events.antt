-- ===== src/Watch/Events.antt =====
-- The events, predicates and controllers of controller-runtime, as the calls of its builder in the
-- three SetupWithManager functions of internal/controller use them.
use coredns_manager_operator.Common.{◌≡◌, ◌≢◌, ◌↔◌, ◌⊎◌, Bool, true, List, [], ◌∷◌, All}
use coredns_manager_operator.Api.Meta.{NamespacedName, key_of}
use coredns_manager_operator.Kube.{Kind, Object, meta_of}

-- What happened to an object of a kind.
pub data Event (k : Kind) : Type 0 where
  created deleted : Object k → Event k
  updated : Object k → Object k → Event k

-- The objects that an event carries.
abbrev pub objects : (k : Kind) → Event k → List (Object k)
objects k (created o) = o ∷ []
objects k (deleted o) = o ∷ []
objects k (updated old new) = old ∷ new ∷ []

-- The object that an event is about.
abbrev pub source : (k : Kind) → Event k → Object k
source k (created o) = o
source k (deleted o) = o
source k (updated old new) = new

-- predicate.Predicate
abbrev pub Predicate : Type 0
Predicate = (k : Kind) → Event k → Bool

-- predicate.GenerationChangedPredicate and predicate.ResourceVersionChangedPredicate
pub record Predicates : Type 0 where
  pub generation_changed : Predicate
  pub resource_version_changed : Predicate

-- The event is a creation, a deletion, or an update that is a change.
abbrev pub IsChange : (k : Kind) → (Object k → Object k → Type 0) → Event k → Type 0
IsChange k Changes (created o) = Unit
IsChange k Changes (deleted o) = Unit
IsChange k Changes (updated old new) = Changes old new

abbrev pub ChangesGeneration : (k : Kind) → Object k → Object k → Type 0
ChangesGeneration k old new = (meta_of k old).generation ≢ (meta_of k new).generation

abbrev pub ChangesVersion : (k : Kind) → Object k → Object k → Type 0
ChangesVersion k old new = (meta_of k old).resource_version ≢ (meta_of k new).resource_version

-- As they are documented, both skip updates alone: those that have not changed the generation, and
-- those that have not changed the version.
pub record IsPredicates (p : Predicates) : Type 0 where
  pub generation_changed_iff :
      (k : Kind) (e : Event k)
      → (p.generation_changed k e ≡ true) ↔ IsChange k (ChangesGeneration k) e
  pub resource_version_changed_iff :
      (k : Kind) (e : Event k)
      → (p.resource_version_changed k e ≡ true) ↔ IsChange k (ChangesVersion k) e

-- `Watches(&T{}, handler.EnqueueRequestsFromMapFunc(f), builder.WithPredicates(...))`
pub record Watch : Type 0 where
  pub kind : Kind
  pub map_func : (k : Kind) → Object k → List NamespacedName
  pub predicates : List Predicate

-- `ctrl.NewControllerManagedBy(mgr)` with its calls of `For`, `WithEventFilter` and `Watches`
pub record Controller : Type 0 where
  pub for_kind : Kind
  pub for_predicates : List Predicate
  pub event_filters : List Predicate
  pub watches : List Watch

-- Some item of a list is so.
abbrev pub Any : {A : Type 0} → (A → Type 0) → List A → Type 0
Any P [] = ⊥
Any P (x ∷ xs) = P x ⊎ Any P xs

abbrev pub Passes : (k : Kind) → Event k → List Predicate → Type 0
Passes k e predicates = All (λ (p : Predicate). p k e ≡ true) predicates

-- A request for the object itself, of an event of the kind that the controller is for
abbrev pub AskedForSelf : Controller → (k : Kind) → Event k → NamespacedName → Type 0
AskedForSelf c k e key =
    (k ≡ c.for_kind) × Passes k e c.for_predicates × (key_of (meta_of k (source k e)) ≡ key)

-- A request by the map function of a watch, on an object of the event
abbrev pub AskedByWatch : (k : Kind) → Event k → NamespacedName → Watch → Type 0
AskedByWatch k e key w =
    (k ≡ w.kind)
    × Passes k e w.predicates
    × Any (λ (o : Object k). Any (λ (r : NamespacedName). r ≡ key) (w.map_func k o)) (objects k e)

-- What a running controller asks its reconciler for, and when it does, as it is documented: the
-- event passes the filters of the controller, and those of what it is watched for.
pub record Delivery : Type 1 where
  pub Asked : Controller → (k : Kind) → Event k → NamespacedName → Type 0
  pub asked_if :
      (c : Controller) (k : Kind) (e : Event k) (key : NamespacedName)
      → Passes k e c.event_filters
      → (AskedForSelf c k e key) ⊎ (Any (AskedByWatch k e key) c.watches)
      → Asked c k e key
  pub asked_only_if :
      (c : Controller) (k : Kind) (e : Event k) (key : NamespacedName)
      → Asked c k e key
      → Passes k e c.event_filters
        × ((AskedForSelf c k e key) ⊎ (Any (AskedByWatch k e key) c.watches))
