-- ===== src/Common/Text/Lines.antt =====
-- Laws of `split` and `join`: a text is its lines, and the lines of two texts with a separator
-- between them are those of the first and then those of the second.
use mathlib.Core.List.{List, [], ◌∷◌, ◌++◌, append_assoc}
use mathlib.Core.Path.{◌≡◌, refl, ap, ◌∙◌, sym}
use mathlib.Core.Logic.{inl, inr, ◌≢◌}
use native.Mathlib.Omega.{arith}
use Prim.Native.Nat.{ℕ}
use coredns_manager_operator.Common.Tests.{Bool-cases, ◌==◌}
use coredns_manager_operator.Common.Lists.{All, All-append}
use coredns_manager_operator.Common.Text.{Text, newline, split, join, extend_first}

-- The text does not hold the character.
abbrev pub Lacks : ℕ → Text → Type 0
Lacks c = All (λ d. d ≢ c)

pub Lacks-append : (c : ℕ) (s t : Text) → Lacks c s → Lacks c t → Lacks c (s ++ t)
Lacks-append c s t hs ht = All-append _ s t hs ht

extend_first-append :
    (c : ℕ) (ps qs : List Text) → ps ≢ [] → extend_first c (ps ++ qs) ≡ extend_first c ps ++ qs
unfolding extend_first
extend_first-append c [] qs h = absurd (h refl)
extend_first-append c (p ∷ ps) qs h = refl

extend_first-ne-nil : (c : ℕ) (ps : List Text) → extend_first c ps ≢ []
unfolding extend_first
extend_first-ne-nil c [] h = cc
extend_first-ne-nil c (p ∷ ps) h = cc

extend_first-All :
    (P : ℕ → Type 0) (c : ℕ) (ps : List Text)
    → P c
    → All (All P) ps
    → All (All P) (extend_first c ps)
unfolding extend_first
extend_first-All P c [] hc h = ((hc, tt), tt)
extend_first-All P c (p ∷ ps) hc (hp, h) = ((hc, hp), h)

pub split-ne-nil : (s : Text) (sep : ℕ) → split s sep ≢ []
unfolding split
split-ne-nil [] sep h = cc
split-ne-nil (c ∷ s) sep h = ground (arith, extend_first-ne-nil c (split s sep))

pub split-append_sep :
    (s t : Text) (sep : ℕ) → split (s ++ sep ∷ t) sep ≡ split s sep ++ split t sep
unfolding split
split-append_sep [] t sep = ground arith
split-append_sep (c ∷ s) t sep = ground (
  arith,
  split-append_sep s t sep,
  extend_first-append c (split s sep) (split t sep) (split-ne-nil s sep),
)

-- A text without the separator is one piece.
pub split_Lacks : (s : Text) (sep : ℕ) → Lacks sep s → split s sep ≡ s ∷ []
unfolding split
split_Lacks [] sep h = refl
split_Lacks (c ∷ s) sep (hc, hs) = ground (arith, split_Lacks s sep hs)

join-extend_first :
    (c : ℕ) (ps : List Text) (sep : ℕ) → join (extend_first c ps) sep ≡ c ∷ join ps sep
unfolding join extend_first
join-extend_first c [] sep = refl
join-extend_first c (p ∷ []) sep = refl
join-extend_first c (p ∷ q ∷ ps) sep = refl

join-cons_nil : (ps : List Text) (sep : ℕ) → ps ≢ [] → join ([] ∷ ps) sep ≡ sep ∷ join ps sep
unfolding join
join-cons_nil [] sep h = absurd (h refl)
join-cons_nil (p ∷ ps) sep h = refl

pub join-split : (s : Text) (sep : ℕ) → join (split s sep) sep ≡ s
unfolding split
join-split [] sep = unfold join in refl
join-split (c ∷ s) sep = ground (
  arith,
  join-split s sep,
  join-extend_first c (split s sep) sep,
  join-cons_nil (split s sep) sep (split-ne-nil s sep),
)

-- What holds of each character holds of each character of each piece.
pub split-All : (P : ℕ → Type 0) (s : Text) (sep : ℕ) → All P s → All (All P) (split s sep)
unfolding split extend_first
split-All P [] sep h = (tt, tt)
split-All P (c ∷ s) sep (hc, hs) = elim (Bool-cases (c == sep)) [
  | inl same ↦ rw same (tt, split-All P s sep hs)
  | inr other ↦ rw other (extend_first-All P c (split s sep) hc (split-All P s sep hs))
]

extend_first-Lacks :
    (sep c : ℕ) (ps : List Text)
    → c ≢ sep
    → All (Lacks sep) ps
    → All (Lacks sep) (extend_first c ps)
extend_first-Lacks sep c ps = extend_first-All _ c ps

-- No piece holds the separator.
pub split-Lacks : (s : Text) (sep : ℕ) → All (Lacks sep) (split s sep)
unfolding split
split-Lacks [] sep = (tt, tt)
split-Lacks (c ∷ s) sep = elim (Bool-cases (c == sep)) [
  | inl same ↦ rw same (tt, split-Lacks s sep)
  | inr other ↦ rw other (extend_first-Lacks sep c (split s sep) (ground arith) (split-Lacks s sep))
]

-- Splitting a join gives the pieces back, if there is one and none holds the separator.
pub split-join :
    (ps : List Text) (sep : ℕ) → ps ≢ [] → All (Lacks sep) ps → split (join ps sep) sep ≡ ps
unfolding join
split-join [] sep h l = absurd (h refl)
split-join (p ∷ []) sep h (lp, l) = split_Lacks p sep lp
split-join (p ∷ q ∷ ps) sep h (lp, l) =
    split-append_sep p (join (q ∷ ps) sep) sep
    ∙ (rw (split_Lacks p sep lp) (ap (◌∷◌ p) (split-join (q ∷ ps) sep (cc) l)))

-- Every line with its end.
abbrev pub unlines : List Text → Text
unlines [] = []
unlines (l ∷ ls) = l ++ newline ∷ unlines ls

pub unlines-append : (ls ms : List Text) → unlines (ls ++ ms) ≡ unlines ls ++ unlines ms
unlines-append [] ms = refl
unlines-append (l ∷ ls) ms = rw (unlines-append ls ms) (sym (append_assoc l _ _))

pub unlines-append_append :
    (ls ms : List Text) (z : Text) → unlines (ls ++ ms) ++ z ≡ unlines ls ++ (unlines ms ++ z)
unlines-append_append [] ms z = refl
unlines-append_append (l ∷ ls) ms z = simp (append_assoc, unlines-append_append ls ms z)

-- Complete lines are split off one by one.
pub split-unlines :
    (ls : List Text) (s : Text)
    → All (Lacks newline) ls
    → split (unlines ls ++ s) newline ≡ ls ++ split s newline
split-unlines [] s h = refl
split-unlines (l ∷ ls) s (hl, h) =
    rw (append_assoc l (newline ∷ unlines ls) s, split-append_sep l, split_Lacks l newline hl)
      (ap (◌∷◌ l) (split-unlines ls s h))
