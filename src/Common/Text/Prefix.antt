-- ===== src/Common/Text/Prefix.antt =====
-- Laws of prefixes.
use mathlib.Core.Bool.{true}
use mathlib.Core.List.{[], ◌∷◌, ◌++◌}
use mathlib.Core.Path.{◌≡◌, refl}
use native.Mathlib.Omega.{arith}
use coredns_manager_operator.Common.Text.{Text, has_prefix, drop_prefix, trim_prefix, contains}

pub has_prefix-append : (p s : Text) → has_prefix (p ++ s) p ≡ true
unfolding has_prefix
has_prefix-append [] s = refl
has_prefix-append (a ∷ p) s = ground (arith, has_prefix-append p s)

has_prefix_self : (t : Text) → has_prefix t t ≡ true
unfolding has_prefix
has_prefix_self [] = refl
has_prefix_self (a ∷ t) = ground (arith, has_prefix_self t)

contains_self : (t : Text) → contains t t ≡ true
unfolding contains
contains_self [] = unfold has_prefix in refl
contains_self (a ∷ t) = ground (arith, has_prefix_self (a ∷ t))

pub drop_prefix-append : (p s : Text) → drop_prefix (p ++ s) p ≡ s
unfolding drop_prefix
drop_prefix-append [] s = refl
drop_prefix-append (a ∷ p) s = drop_prefix-append p s

pub trim_prefix-append : (p s : Text) → trim_prefix (p ++ s) p ≡ s
unfolding trim_prefix
trim_prefix-append p s = ground (arith, has_prefix-append p s, drop_prefix-append p s)

-- A text holds what it ends in.
pub contains-append : (s t : Text) → contains (s ++ t) t ≡ true
unfolding contains
contains-append [] t = contains_self t
contains-append (a ∷ s) t = ground (arith, contains-append s t)
