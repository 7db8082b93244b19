-- ===== src/Common/Text/Equality.antt =====
-- `eqb` decides equality of texts, and `lessb` is a strict order.
use mathlib.Core.Bool.{true, false}
use mathlib.Core.List.{[], ◌∷◌}
use mathlib.Core.Path.{◌≡◌, refl}
use mathlib.Core.Logic.{◌↔◌}
use native.Mathlib.Omega.{arith}
use coredns_manager_operator.Common.Text.{Text, eqb, lessb}

pub eqb→eq : (s t : Text) → eqb s t ≡ true → s ≡ t
unfolding eqb
eqb→eq [] [] h = refl
eqb→eq (a ∷ s) [] h = ground arith
eqb→eq [] (b ∷ t) h = ground arith
eqb→eq (a ∷ s) (b ∷ t) h = ground (arith, eqb→eq s t)

pub eqb_refl : (s : Text) → eqb s s ≡ true
unfolding eqb
eqb_refl [] = refl
eqb_refl (a ∷ s) = ground (arith, eqb_refl s)

pub eqb_iff : (s t : Text) → (eqb s t ≡ true) ↔ (s ≡ t)
eqb_iff s t = (eqb→eq s t, λ e. rw e (eqb_refl t))

pub lessb_irrefl : (s : Text) → lessb s s ≡ false
unfolding lessb
lessb_irrefl [] = refl
lessb_irrefl (a ∷ s) = ground (arith, lessb_irrefl s)

pub lessb_trans : (s t u : Text) → lessb s t ≡ true → lessb t u ≡ true → lessb s u ≡ true
unfolding lessb
lessb_trans [] [] u h k = ground arith
lessb_trans (a ∷ s) [] u h k = ground arith
lessb_trans [] (b ∷ t) [] h k = ground arith
lessb_trans (a ∷ s) (b ∷ t) [] h k = ground arith
lessb_trans [] (b ∷ t) (c ∷ u) h k = refl
lessb_trans (a ∷ s) (b ∷ t) (c ∷ u) h k = ground (arith, lessb_trans s t u)

-- Two texts neither of which is less are equal.
pub lessb_connex : (s t : Text) → lessb s t ≡ false → lessb t s ≡ false → s ≡ t
unfolding lessb
lessb_connex [] [] h k = refl
lessb_connex [] (b ∷ t) h k = ground arith
lessb_connex (a ∷ s) [] h k = ground arith
lessb_connex (a ∷ s) (b ∷ t) h k = ground (arith, lessb_connex s t)
