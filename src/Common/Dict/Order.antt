-- ===== src/Common/Dict/Order.antt =====
-- The order of a map's entries does not show in what its keys give.
use mathlib.Core.List.{Permᴰ, ◌∷◌}
use mathlib.Core.Option.{none, some}
use mathlib.Core.Path.{◌≡◌, refl, sym, subst, ◌∙◌}
use native.Mathlib.Omega.{arith}
use coredns_manager_operator.Common.Tests.{if◌then◌else◌}
use coredns_manager_operator.Common.Text.{Text, eqb}
use coredns_manager_operator.Common.Text.Equality.{eqb_iff}
use coredns_manager_operator.Common.Dict.{Dict, lookup, NodupKeys}

module _ {ℓ} {V : Type ℓ} where
  lookup_cons-eq :
      (k : Text) (m n : Dict V) {a b : Text × V}
      → a ≡ b
      → lookup k m ≡ lookup k n
      → lookup k (a ∷ m) ≡ lookup k (b ∷ n)
  unfolding lookup
  lookup_cons-eq k m n e h = λ i. if eqb (e i).0 k then some (e i).1 else h i

  lookup_swap :
      (k : Text) (a b : Text × V) (m : Dict V)
      → NodupKeys (a ∷ b ∷ m)
      → lookup k (a ∷ b ∷ m) ≡ lookup k (b ∷ a ∷ m)
  unfolding lookup
  lookup_swap k (i, v) (j, w) m (fresh, h) = ground (arith, eqb_iff i k, eqb_iff j k, eqb_iff j i)

  NodupKeys-swap : (a b : Text × V) (m : Dict V) → NodupKeys (a ∷ b ∷ m) → NodupKeys (b ∷ a ∷ m)
  unfolding lookup
  NodupKeys-swap (i, v) (j, w) m (fresh, (fresh', h)) = ground (arith, eqb_iff i j, eqb_iff j i)

  -- A permuted map is a map, and gives the same values.
  pub NodupKeys-perm :
      {m n : Dict V}
      → Permᴰ m n
      → NodupKeys m
      → NodupKeys n × ((k : Text) → lookup k m ≡ lookup k n)
  NodupKeys-perm Permᴰ.nil h = (h, λ k. refl)
  NodupKeys-perm (Permᴰ.cons {a = a} {b = b} {l₁ = m} {l₂ = n} e p) (fresh, h) =
      let (h', same) = NodupKeys-perm p h in
      (
        (subst (λ (x : Text × V). lookup x.0 n ≡ none) e (sym (same a.0) ∙ fresh), h'),
        λ k. lookup_cons-eq k m n e (same k),
      )
  NodupKeys-perm (Permᴰ.swap {a = a} {b = b} {b' = b'} {l = m} e f) h = (
    subst (λ x. NodupKeys (x ∷ b' ∷ m)) f
        (subst (λ x. NodupKeys (b ∷ x ∷ m)) e (NodupKeys-swap a b m h)),
    λ k. lookup_swap k a b m h ∙ lookup_cons-eq k (a ∷ m) (b' ∷ m) f (lookup_cons-eq k m m e refl),
  )
  NodupKeys-perm (Permᴰ.trans p q) h =
      let (h', same) = NodupKeys-perm p h in
      let (h'', same') = NodupKeys-perm q h' in (h'', λ k. same k ∙ same' k)
