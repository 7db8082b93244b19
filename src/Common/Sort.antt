-- ===== src/Common/Sort.antt =====
-- Go's `sort.Slice` by a key that is a text. Go does not say where items with equal keys go.
pub mod Laws
use coredns_manager_operator.Common.Tests.{if◌then◌else◌}
use coredns_manager_operator.Common.Text.{Text, lessb}
use mathlib.Core.List.{List, [], ◌∷◌}

module _ {ℓ} {A : Type ℓ} (key : A → Text) where
  unfoldable pub insert_sorted : A → List A → List A
  insert_sorted x [] = x ∷ []
  insert_sorted x (y ∷ ys) = if lessb (key y) (key x) then y ∷ insert_sorted x ys else x ∷ y ∷ ys

  unfoldable pub sort_by : List A → List A
  unfolding insert_sorted
  sort_by [] = []
  sort_by (x ∷ xs) = insert_sorted x (sort_by xs)
