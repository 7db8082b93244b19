-- ===== src/Kube/Outcome.antt =====
-- What a method did that has returned a result.
use coredns_manager_operator.Common.{◌++◌, ◌≡◌, ap, sym, ◌∙◌, inl, inr, arith}
use coredns_manager_operator.Common.Text.{Text, text}
use coredns_manager_operator.Errors.{Error, Result, ok, err, wrap-ok, Result-cases}
use coredns_manager_operator.Api.Meta.{NamespacedName}
use coredns_manager_operator.Kube.Finalizers.{get_obj_from_k8s}
use coredns_manager_operator.Kube.{Client, Kind, Object, Exec, ◌>>=◌, ◌>>◌, wrapped}

pub err-ne-ok :
    {A B : Type 0} {e : Error} {a : A} {t u : B} {C : Type 0}
    → (let x : Result A × B = (err e, t) in x ≡ (ok a, u))
    → C
err-ne-ok {A = A} {e = e} {a = a} h =
    let first : Path (Result A) (err e) (ok a) = ap (λ x. x.0) h in absurd (ground (arith, first))

module _ {S A B : Type 0} (m : Exec S A) (f : A → Exec S B) (s : S) where
  pub bind-ok :
      (b : B) (t : S)
      → (m >>= f) s ≡ (ok b, t)
      → (a : A) × (u : S) × (m s ≡ (ok a, u)) × (f a u ≡ (ok b, t))
  unfolding ◌>>=◌
  bind-ok b t h = elim (Result-cases (m s).0) [
    | inl (a, e) ↦ (a, (m s).1, (λ i. (e i, (m s).1)), rw e at h)
    | inr (e', e) ↦ err-ne-ok (rw e at h)
  ]

  pub bind-err : (e : Error) (t : S) → m s ≡ (err e, t) → (m >>= f) s ≡ (err e, t)
  unfolding ◌>>=◌
  bind-err e t h = rw h

  pub bind-run : (a : A) (t : S) → m s ≡ (ok a, t) → (m >>= f) s ≡ f a t
  unfolding ◌>>=◌
  bind-run a t h = rw h

module _ {S B : Type 0} (m : Exec S (Unit {0})) (k : Exec S B) (s : S) where
  pub then-ok :
      (b : B) (t : S) → (m >> k) s ≡ (ok b, t) → (u : S) × (m s ≡ (ok tt, u)) × (k u ≡ (ok b, t))
  unfolding ◌>>◌
  then-ok b t h = let (a, u, first, rest) = bind-ok m (λ _. k) s b t h in (u, first, rest)

  pub then-err : (e : Error) (t : S) → m s ≡ (err e, t) → (m >> k) s ≡ (err e, t)
  unfolding ◌>>◌
  then-err e t h = bind-err m (λ _. k) s e t h

module _ {S A : Type 0} (prefix : Text) (m : Exec S A) (s : S) where
  pub wrapped-ok : (a : A) (t : S) → wrapped prefix m s ≡ (ok a, t) → m s ≡ (ok a, t)
  unfolding wrapped
  wrapped-ok a t h = elim (Result-cases (m s).0) [
    | inl (b, e) ↦ (λ i. (e i, (m s).1)) ∙ (rw e at h)
    | inr (e', e) ↦ err-ne-ok (rw e at h)
  ]

-- A lookup leaves the state as it is.
pub get_obj-ok :
    (c : Client) (k : Kind) (key : NamespacedName) (s t : c.State) (o : Object k)
    → get_obj_from_k8s c k key s ≡ (ok o, t)
    → (c.get k key s ≡ ok o) × (t ≡ s)
unfolding get_obj_from_k8s
get_obj-ok c k key s t o h = (
  wrap-ok
      (text "failed to get resource " ++ (key.name ++ (text "/" ++ (key.namespace ++ text ": "))))
      (c.get k key s) o (ap (λ x. x.0) h),
  sym (ap (λ x. x.1) h),
)
