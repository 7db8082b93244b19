-- ===== src/Kube/Store/Rewritten.antt =====
-- What a write on the API server in memory stores.
use coredns_manager_operator.Common.{◌≡◌, ap, refl, sym, subst, List}
use coredns_manager_operator.Errors.{Result, ok, err, ok-injective}
use coredns_manager_operator.Api.Meta.{ObjectMeta, key_of}
use coredns_manager_operator.Kube.Outcome.{err-ne-ok}
use coredns_manager_operator.Kube.Store.{newest_of, rewritten, newest_of_self}

module _ {A : Type 0} (meta : A → ObjectMeta) where
  -- A write gives the object that a read of its key then finds.
  pub rewritten-stores :
      (merge : A → A → A) (o o' : A) (os os' : List A) (f : Result A)
      → rewritten meta merge o f os ≡ (ok o', os')
      → (old : A) × (f ≡ ok old)
        × (o' ≡ merge old o)
        × (newest_of meta (key_of (meta o')) os' ≡ ok o')
  unfolding rewritten
  rewritten-stores merge o o' os os' (err e) h = err-ne-ok h
  rewritten-stores merge o o' os os' (ok old) h =
      let same : merge old o ≡ o' = ok-injective (ap (λ x. x.0) h) in
      (
        old,
        refl,
        sym same,
        subst (λ x. newest_of meta (key_of (meta x)) os' ≡ ok x) same
            (subst (λ u. newest_of meta (key_of (meta (merge old o))) u ≡ ok (merge old o))
              (ap (λ x. x.1) h) (newest_of_self meta (merge old o) os)),
      )
