-- ===== src/Kube/Store/Separate.antt =====
-- Writes of statuses on the API server in memory, and the other objects.
use coredns_manager_operator.Common.{◌≡◌, ◌≢◌, ◌⊎◌, inl, inr, refl, sym, ◌∙◌, List, ◌∷◌, Bool-cases}
use coredns_manager_operator.Errors.{Result, ok, err}
use coredns_manager_operator.Api.Meta.{NamespacedName, ObjectMeta, key_of}
use coredns_manager_operator.Kube.{
  Kind, Object, meta_of, dns_records, dns_zones, dns_connectors, config_maps, workloads, IsSeparate,
}
use coredns_manager_operator.Kube.Memory.{same_key, same_key-eq}
use coredns_manager_operator.Kube.Store.{
  Store, store, newest_of, rewritten, taking_status, newest_of-key, get_stored, put_stored,
}

module _ {A : Type 0} (meta : A → ObjectMeta) (key : NamespacedName) where
  -- An object that is written under its own key is not read under another one.
  newest_of_other :
      (o : A) (os : List A)
      → key ≢ key_of (meta o)
      → newest_of meta key (o ∷ os) ≡ newest_of meta key os
  unfolding newest_of
  newest_of_other o os other = elim (Bool-cases (same_key (key_of (meta o)) key)) [
    | inl same ↦ absurd (other (sym (same_key-eq _ _ same)))
    | inr differs ↦ rw differs refl
  ]

  -- An object that is written again as it was is read as it was.
  newest_of_again :
      (o : A) (os : List A)
      → newest_of meta (key_of (meta o)) os ≡ ok o
      → newest_of meta key (o ∷ os) ≡ newest_of meta key os
  unfolding newest_of
  newest_of_again o os held = elim (Bool-cases (same_key (key_of (meta o)) key)) [
    | inl same ↦ rw same (sym (rw (same_key-eq _ _ same) at held))
    | inr differs ↦ rw differs refl
  ]

  rewritten_other :
      (merge : A → A → A) (o : A) (os : List A) (f : Result A)
      → f ≡ newest_of meta (key_of (meta o)) os
      → ((old : A) → meta (merge old o) ≡ meta old)
      → key ≢ key_of (meta o)
      → newest_of meta key (rewritten meta merge o f os).1 ≡ newest_of meta key os
  unfolding rewritten
  rewritten_other merge o os (err e) is keeps other = refl
  rewritten_other merge o os (ok old) is keeps other =
      newest_of_other (merge old o) os
        (λ e. other (e ∙ (rw (keeps old) (newest_of-key meta _ os old (sym is)))))

  rewritten_again :
      (o : A) (os : List A) (f : Result A)
      → f ≡ newest_of meta (key_of (meta o)) os
      → newest_of meta key (rewritten meta (λ old new. old) o f os).1 ≡ newest_of meta key os
  unfolding rewritten
  rewritten_again o os (err e) is = refl
  rewritten_again o os (ok old) is =
      newest_of_again old os (rw (newest_of-key meta _ os old (sym is)) (sym is))

unchanged :
    (k j : Kind) (o : Object k) (key : NamespacedName) (s : Store)
    → (j ≢ k) ⊎ (key ≢ key_of (meta_of k o))
    → get_stored j key (put_stored k (taking_status k) o s).1 ≡ get_stored j key s
unchanged dns_records dns_records o key s (inl e) = absurd (e refl)
unchanged dns_records dns_records o key s (inr e) =
    rewritten_other (meta_of dns_records) key (taking_status dns_records) o s.records _ refl
      (λ old. refl) e
unchanged dns_zones dns_zones o key s (inl e) = absurd (e refl)
unchanged dns_zones dns_zones o key s (inr e) =
    rewritten_other (meta_of dns_zones) key (taking_status dns_zones) o s.zones _ refl (λ old. refl)
      e
unchanged dns_connectors dns_connectors o key s (inl e) = absurd (e refl)
unchanged dns_connectors dns_connectors o key s (inr e) =
    rewritten_other (meta_of dns_connectors) key (taking_status dns_connectors) o s.connectors _
      refl (λ old. refl) e
unchanged config_maps config_maps o key s e =
    rewritten_again (meta_of config_maps) key o s.maps _ refl
unchanged (workloads k) (workloads j) o key s e =
    rewritten_again (meta_of (workloads k)) key o s.works _ refl
unchanged k j o key s e = refl

pub store-IsSeparate : IsSeparate store
store-IsSeparate = record { get-update_status_other = unchanged }
