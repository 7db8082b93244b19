-- ===== src/Common/Sort/Laws.antt =====
-- Sorting by distinct keys gives one result, whatever the order of the input: so which algorithm
-- `sort.Slice` runs does not matter.
use coredns_manager_operator.Common.Tests.{Bool-cases}
use coredns_manager_operator.Common.Text.{Text, lessb}
use coredns_manager_operator.Common.Text.Equality.{lessb_irrefl, lessb_trans, lessb_connex}
use coredns_manager_operator.Common.Sort.{insert_sorted, sort_by}
use coredns_manager_operator.Common.Lists.{keep, All}
use mathlib.Core.Bool.{Bool, false}
use mathlib.Core.List.{List, [], ◌∷◌, Permᴰ}
use mathlib.Core.List.Permᴰ
use mathlib.Core.Logic.{◌≢◌, inl, inr}
use mathlib.Core.Path.{◌≡◌, refl, sym, ◌∙◌, ap, subst}
use native.Mathlib.Omega.{arith}

-- What holds of every item holds of every item of a permuted list.
pub All-perm {ℓ κ} : {A : Type ℓ} (P : A → Type κ) {l m : List A} → Permᴰ l m → All P l → All P m
All-perm P Permᴰ.nil h = h
All-perm P (Permᴰ.cons e p) (hx, h) = (subst P e hx, All-perm P p h)
All-perm P (Permᴰ.swap e f) (ha, (hb, h)) = (subst P f hb, (subst P e ha, h))
All-perm P (Permᴰ.trans p q) h = All-perm P q (All-perm P p h)

module _ {ℓ} {A : Type ℓ} (key : A → Text) where
  abbrev pub InOrder : List A → Type 0
  InOrder [] = Unit
  InOrder (x ∷ []) = Unit
  InOrder (x ∷ y ∷ l) = (lessb (key y) (key x) ≡ false) × InOrder (y ∷ l)

  insert_sorted_comm :
      (x y : A) (l : List A)
      → key x ≢ key y
      → insert_sorted key x (insert_sorted key y l) ≡ insert_sorted key y (insert_sorted key x l)
  unfolding insert_sorted
  insert_sorted_comm x y [] d = ground (
    arith,
    lessb_connex (key x) (key y),
    lessb_trans (key x) (key y) (key x),
    lessb_irrefl (key x),
  )
  insert_sorted_comm x y (z ∷ l) d = ground (
    arith,
    lessb_connex (key x) (key y),
    lessb_trans (key x) (key y) (key x),
    lessb_irrefl (key x),
    lessb_trans (key z) (key x) (key y),
    lessb_trans (key z) (key y) (key x),
    insert_sorted_comm x y l d,
  )

  -- No two items have one key.
  abbrev pub Distinct : List A → Type 0
  Distinct [] = Unit
  Distinct (x ∷ l) = All (λ y. key x ≢ key y) l × Distinct l

  Distinct-perm : {l m : List A} → Permᴰ l m → Distinct l → Distinct m
  Distinct-perm Permᴰ.nil h = h
  Distinct-perm (Permᴰ.cons {l₂ = m} e p) (hx, h) =
      (subst (λ x. All (λ y. key x ≢ key y) m) e (All-perm _ p hx), Distinct-perm p h)
  Distinct-perm (Permᴰ.swap {l = m} e f) ((hab, ha), (hb, h)) = (
    (
      (λ q. hab (ap key e ∙ (sym q ∙ ap key (sym f)))),
      subst (λ x. All (λ y. key x ≢ key y) m) f hb,
    ),
    (subst (λ x. All (λ y. key x ≢ key y) m) e ha, h),
  )
  Distinct-perm (Permᴰ.trans p q) h = Distinct-perm q (Distinct-perm p h)

  -- The order of the input does not show in the sorted list.
  pub sort_by-perm : {l m : List A} → Permᴰ l m → Distinct l → sort_by key l ≡ sort_by key m
  unfolding sort_by
  sort_by-perm Permᴰ.nil h = refl
  sort_by-perm (Permᴰ.cons e p) (hx, h) = λ i. insert_sorted key (e i) (sort_by-perm p h i)
  sort_by-perm (Permᴰ.swap {a = a} {b = b} {l = m} e f) ((hab, ha), (hb, h)) =
      insert_sorted_comm a b (sort_by key m) hab ∙ λ i.
      insert_sorted key (f i) (insert_sorted key (e i) (sort_by key m))
  sort_by-perm (Permᴰ.trans p q) h = sort_by-perm p h ∙ sort_by-perm q (Distinct-perm p h)

  keep_cons-perm :
      (t : A → Bool) (a : A) (l m : List A)
      → Permᴰ (keep t l) (keep t m)
      → Permᴰ (keep t (a ∷ l)) (keep t (a ∷ m))
  unfolding keep
  keep_cons-perm t a l m p = elim (Bool-cases (t a)) [
    | inl passes ↦ rw passes (Permᴰ.cons refl p)
    | inr fails ↦ rw fails p
  ]

  keep_swap-perm :
      (t : A → Bool) (a b : A) (l : List A) → Permᴰ (keep t (a ∷ b ∷ l)) (keep t (b ∷ a ∷ l))
  unfolding keep
  keep_swap-perm t a b l = elim (Bool-cases (t a)) [
    | inl pa ↦ elim (Bool-cases (t b)) [
      | inl pb ↦ rw (pa, pb) (Permᴰ.swap refl refl)
      | inr fb ↦ rw (pa, fb) (Permᴰ.refl _)
    ]
    | inr fa ↦ elim (Bool-cases (t b)) [
      | inl pb ↦ rw (fa, pb) (Permᴰ.refl _)
      | inr fb ↦ rw (fa, fb) (Permᴰ.refl _)
    ]
  ]

  -- What passes a test is permuted as the whole is.
  pub keep-perm : (t : A → Bool) {l m : List A} → Permᴰ l m → Permᴰ (keep t l) (keep t m)
  keep-perm t Permᴰ.nil = Permᴰ.refl _
  keep-perm t (Permᴰ.cons {a = a} {l₁ = l} {l₂ = m} e p) =
      subst (λ x. Permᴰ (keep t (a ∷ l)) (keep t (x ∷ m))) e
        (keep_cons-perm t a l m (keep-perm t p))
  keep-perm t (Permᴰ.swap {a = a} {b = b} {b' = b'} {l = l} e f) =
      subst (λ x. Permᴰ (keep t (a ∷ b ∷ l)) (keep t (x ∷ b' ∷ l))) f
        (subst (λ x. Permᴰ (keep t (a ∷ b ∷ l)) (keep t (b ∷ x ∷ l))) e (keep_swap-perm t a b l))
  keep-perm t (Permᴰ.trans p q) = Permᴰ.trans (keep-perm t p) (keep-perm t q)

  insert_sorted-perm : (x : A) (l : List A) → Permᴰ (insert_sorted key x l) (x ∷ l)
  unfolding insert_sorted
  insert_sorted-perm x [] = Permᴰ.refl _
  insert_sorted-perm x (y ∷ l) = elim (Bool-cases (lessb (key y) (key x))) [
    | inl less ↦
        rw less (Permᴰ.trans (Permᴰ.cons refl (insert_sorted-perm x l)) (Permᴰ.swap refl refl))
    | inr more ↦ rw more (Permᴰ.refl _)
  ]

  -- Sorting only moves items.
  pub sort_by_perm : (l : List A) → Permᴰ (sort_by key l) l
  unfolding sort_by
  sort_by_perm [] = Permᴰ.refl _
  sort_by_perm (x ∷ l) = Permᴰ.trans (insert_sorted-perm x _) (Permᴰ.cons refl (sort_by_perm l))

  insert_sorted-InOrder : (x : A) (l : List A) → InOrder l → InOrder (insert_sorted key x l)
  unfolding insert_sorted
  insert_sorted-InOrder x [] h = tt
  insert_sorted-InOrder x (y ∷ []) h =
      ground (arith, lessb_trans (key x) (key y) (key x), lessb_irrefl (key x))
  insert_sorted-InOrder x (y ∷ z ∷ l) h = ground (
    arith,
    insert_sorted-InOrder x (z ∷ l) h.1,
    lessb_trans (key x) (key y) (key x),
    lessb_irrefl (key x),
  )

  -- The sorted list ascends by key.
  pub sort_by-InOrder : (l : List A) → InOrder (sort_by key l)
  unfolding sort_by
  sort_by-InOrder [] = tt
  sort_by-InOrder (x ∷ l) = insert_sorted-InOrder x _ (sort_by-InOrder l)

  All-keep {κ} : (P : A → Type κ) (t : A → Bool) (l : List A) → All P l → All P (keep t l)
  unfolding keep
  All-keep P t [] h = tt
  All-keep P t (x ∷ l) (hx, h) = elim (Bool-cases (t x)) [
    | inl passes ↦ rw passes (hx, All-keep P t l h)
    | inr fails ↦ rw fails (All-keep P t l h)
  ]

  pub Distinct-keep : (t : A → Bool) (l : List A) → Distinct l → Distinct (keep t l)
  unfolding keep
  Distinct-keep t [] h = tt
  Distinct-keep t (x ∷ l) (hx, h) = elim (Bool-cases (t x)) [
    | inl passes ↦ rw passes (All-keep _ t l hx, Distinct-keep t l h)
    | inr fails ↦ rw fails (Distinct-keep t l h)
  ]
