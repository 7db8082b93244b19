-- ===== src/Common/Dict/Agreement.antt =====
-- A test of two maps of texts for equal values, as reflection compares Go maps.
use mathlib.Core.Bool.{Bool, true, false, ◌&&◌}
use mathlib.Core.List.{[], ◌∷◌}
use mathlib.Core.Logic.{◌↔◌, inl, inr}
use mathlib.Core.Option.{Option, none, some}
use mathlib.Core.Path.{◌≡◌, refl, ap, sym, ◌∙◌}
use native.Mathlib.Omega.{arith}
use coredns_manager_operator.Common.Text.{Text, eqb}
use coredns_manager_operator.Common.Text.Equality.{eqb→eq, eqb_refl}
use coredns_manager_operator.Common.Tests.{Bool-cases, Option-cases, is_some}
use coredns_manager_operator.Common.Dict.{Dict, lookup, SameMap}

same_value : Option Text → Option Text → Bool
same_value none none = true
same_value none (some t) = false
same_value (some s) none = false
same_value (some s) (some t) = eqb s t

same_value-eq : (o p : Option Text) → same_value o p ≡ true → o ≡ p
unfolding same_value
same_value-eq none none h = refl
same_value-eq none (some t) h = cc
same_value-eq (some s) none h = cc
same_value-eq (some s) (some t) h = ap some (eqb→eq s t h)

same_value_refl : (o : Option Text) → same_value o o ≡ true
unfolding same_value
same_value_refl none = refl
same_value_refl (some s) = eqb_refl s

-- The two maps agree at the keys of the first.
agree : Dict Text → Dict Text → Dict Text → Bool
unfolding same_value
agree [] m n = true
agree ((k, v) ∷ l) m n = same_value (lookup k m) (lookup k n) && agree l m n

agree-lookup :
    (l m n : Dict Text)
    → agree l m n ≡ true
    → (k : Text) → is_some (lookup k l) ≡ true
    → lookup k m ≡ lookup k n
unfolding agree lookup
agree-lookup [] m n h k found = cc
agree-lookup ((j, v) ∷ l) m n h k found = elim (Bool-cases (eqb j k)) [
  | inl same ↦
      ap (λ x. lookup x m) (sym (eqb→eq j k same))
      ∙ (same_value-eq (lookup j m) (lookup j n) (ground arith)
          ∙ ap (λ x. lookup x n) (eqb→eq j k same))
  | inr other ↦ agree-lookup l m n (ground arith) k (rw other at found)
]

agree_all : (l m n : Dict Text) → SameMap m n → agree l m n ≡ true
unfolding agree same_value
agree_all [] m n h = refl
agree_all ((k, v) ∷ l) m n h = rw (h k, same_value_refl (lookup k n)) (agree_all l m n h)

unfoldable pub same_map : Dict Text → Dict Text → Bool
unfolding agree same_value
same_map m n = agree m m n && agree n m n

pub same_map_iff : (m n : Dict Text) → (same_map m n ≡ true) ↔ SameMap m n
unfolding same_map
same_map_iff m n = (
  λ h k. elim (Option-cases (lookup k m)) [
    | inl absent ↦ elim (Option-cases (lookup k n)) [
      | inl absent' ↦ absent ∙ sym absent'
      | inr (t, there) ↦ agree-lookup n m n (ground arith) k (rw there)
    ]
    | inr (s, here) ↦ agree-lookup m m n (ground arith) k (rw here)
  ],
  λ h. rw (agree_all m m n h, agree_all n m n h),
)
