-- ===== src/Copies/References/Structs.antt =====
-- Structs whose references are copied one behind the other.
use coredns_manager_operator.Common.{◌≡◌, refl, ap, ◌∙◌}
use coredns_manager_operator.Copies.Memory.{Memory}
use coredns_manager_operator.Copies.Memory.Extends.{
  Holds, Extends-refl, Extends-trans, Holds-first, Holds-second,
}
use coredns_manager_operator.Copies.References.Laws.{IsDeepCopy}

-- A copy without cells of its own, of a type without references.
pub copy_value-IsDeepCopy :
    {A : Type 0} (copy : A → A)
    → ((x : A) → copy x ≡ x)
    → IsDeepCopy (λ (x : A) h. x) (λ x h. Unit) (λ x h. (copy x, h))
copy_value-IsDeepCopy copy same = record {
  extends = λ x h. Extends-refl h;
  copied = λ x h k live holds. same x;
  kept = λ x h k live e. refl;
  lives = λ x h k live e. tt;
}

module _ {A V B W : Type 0} {see_a : A → Memory → V} {IsLiveA : A → Memory → Type 0}
    {copy_a : A → Memory → A × Memory} {see_b : B → Memory → W} {IsLiveB : B → Memory → Type 0}
    {copy_b : B → Memory → B × Memory} (deep_a : IsDeepCopy see_a IsLiveA copy_a)
    (deep_b : IsDeepCopy see_b IsLiveB copy_b) where
  abbrev pub see_both : A × B → Memory → V × W
  see_both p h = (see_a p.0 h, see_b p.1 h)

  abbrev pub IsLiveBoth : A × B → Memory → Type 0
  IsLiveBoth p h = IsLiveA p.0 h × IsLiveB p.1 h

  abbrev pub copy_both : A × B → Memory → (A × B) × Memory
  copy_both p h = let (a, h') = copy_a p.0 h in let (b, h'') = copy_b p.1 h' in ((a, b), h'')

  see-copy_both :
      (p : A × B) (h k : Memory)
      → IsLiveBoth p h
      → Holds h (copy_both p h).1 k
      → see_both (copy_both p h).0 k ≡ see_both p h
  see-copy_both p h k (live, live') holds =
      let h' = (copy_a p.0 h).1 in
      let grows = deep_a.extends p.0 h in
      let first = deep_a.copied p.0 h k live (Holds-first h h' _ k (deep_b.extends p.1 h') holds) in
      let second =
        deep_b.copied p.1 h' k (deep_b.lives p.1 h h' live' grows)
          (Holds-second h h' _ k grows holds)
        ∙ deep_b.kept p.1 h h' live' grows in
      λ i. (first i, second i)

  pub copy_both-IsDeepCopy : IsDeepCopy see_both IsLiveBoth copy_both
  copy_both-IsDeepCopy = record {
    extends = λ p h.
        Extends-trans h (copy_a p.0 h).1 _ (deep_a.extends p.0 h)
          (deep_b.extends p.1 (copy_a p.0 h).1);
    copied = see-copy_both;
    kept = λ p h k live e. λ i. (deep_a.kept p.0 h k live.0 e i, deep_b.kept p.1 h k live.1 e i);
    lives = λ p h k live e. (deep_a.lives p.0 h k live.0 e, deep_b.lives p.1 h k live.1 e);
  }

-- A struct, by the part that has its references.
module _ {A V S W : Type 0} {see : A → Memory → V} {IsLive : A → Memory → Type 0}
    {copy : A → Memory → A × Memory} (deep : IsDeepCopy see IsLive copy) (part : S → A)
    (put : A → S → S) (look : V → S → W) (part-put : (a : A) (s : S) → part (put a s) ≡ a)
    (look-put : (v : V) (a : A) (s : S) → look v (put a s) ≡ look v s) where
  pub struct-IsDeepCopy :
      IsDeepCopy
        (λ (s : S) h. look (see (part s) h) s)
        (λ s h. IsLive (part s) h)
        (λ s h. (put (copy (part s) h).0 s, (copy (part s) h).1))
  struct-IsDeepCopy = record {
    extends = λ s h. deep.extends (part s) h;
    copied = λ s h k live holds.
        look-put _ (copy (part s) h).0 s
        ∙ (rw (part-put (copy (part s) h).0 s)
            (ap (λ v. look v s) (deep.copied (part s) h k live holds)));
    kept = λ s h k live e. ap (λ v. look v s) (deep.kept (part s) h k live e);
    lives = λ s h k live e. deep.lives (part s) h k live e;
  }
