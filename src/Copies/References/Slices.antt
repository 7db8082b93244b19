-- ===== src/Copies/References/Slices.antt =====
-- Slices that are copied item by item.
use coredns_manager_operator.Common.{
  ℕ, zero, suc, ◌≤◌, ◌≡◌, refl, ap, ◌∙◌, Option, none, some, List, [], ◌∷◌, map, All, All-map,
  length, arith,
}
use coredns_manager_operator.Copies.Memory.{Slice, Memory, CellType, allocate, load, take}
use coredns_manager_operator.Copies.Memory.Extends.{
  Extends, Holds, Extends-refl, Extends-trans, allocate-Extends, Holds-first, Holds-second,
}
use coredns_manager_operator.Copies.References.{
  copy_all, items, items_found, copy_slice, see_slice, IsLiveSlice,
}
use coredns_manager_operator.Copies.References.Laws.{
  IsDeepCopy, IsCellType, load-Extends, load-allocate,
}

take_all : {A : Type 0} (n : ℕ) (xs : List A) → length xs ≤ n → take n xs ≡ xs
take_all zero [] h = refl
take_all zero (x ∷ xs) h = absurd (omega arith)
take_all (suc n) [] h = refl
take_all (suc n) (x ∷ xs) h = ap (◌∷◌ x) (take_all n xs (omega arith))

length-take : {A : Type 0} (n : ℕ) (xs : List A) → length (take n xs) ≤ n
length-take zero xs = omega arith
length-take (suc n) [] = omega arith
length-take (suc n) (x ∷ xs) = omega (arith, length-take n xs)

module _ {A V : Type 0} (see : A → Memory → V) (IsLive : A → Memory → Type 0)
    (copy : A → Memory → A × Memory) (deep : IsDeepCopy see IsLive copy) where
  copy_all-Extends : (xs : List A) (h : Memory) → Extends h (copy_all copy xs h).1
  unfolding copy_all
  copy_all-Extends [] h = Extends-refl h
  copy_all-Extends (x ∷ xs) h =
      let h' = (copy x h).1 in Extends-trans h h' _ (deep.extends x h) (copy_all-Extends xs h')

  length-copy_all : (xs : List A) (h : Memory) → length (copy_all copy xs h).0 ≡ length xs
  unfolding copy_all
  length-copy_all [] h = refl
  length-copy_all (x ∷ xs) h = ap suc (length-copy_all xs (copy x h).1)

  All-IsLive_Extends :
      (xs : List A) (h k : Memory)
      → Extends h k
      → All (λ x. IsLive x h) xs
      → All (λ x. IsLive x k) xs
  All-IsLive_Extends xs h k e live =
      All-map (λ x. IsLive x h) (λ x. IsLive x k) xs (λ x here. deep.lives x h k here e) live

  map-see_Extends :
      (xs : List A) (h k : Memory)
      → Extends h k
      → All (λ x. IsLive x h) xs
      → map (λ x. see x k) xs ≡ map (λ x. see x h) xs
  map-see_Extends [] h k e live = refl
  map-see_Extends (x ∷ xs) h k e (here, live) =
      rw (deep.kept x h k here e, map-see_Extends xs h k e live) refl

  map-see-copy_all :
      (xs : List A) (h k : Memory)
      → All (λ x. IsLive x h) xs
      → Holds h (copy_all copy xs h).1 k
      → map (λ x. see x k) (copy_all copy xs h).0 ≡ map (λ x. see x h) xs
  unfolding copy_all
  map-see-copy_all [] h k live holds = refl
  map-see-copy_all (x ∷ xs) h k (here, live) holds =
      let h' = (copy x h).1 in
      let grows = deep.extends x h in
      let first = deep.copied x h k here (Holds-first h h' _ k (copy_all-Extends xs h') holds) in
      let rest =
        map-see-copy_all xs h' k (All-IsLive_Extends xs h h' grows live)
          (Holds-second h h' _ k grows holds)
        ∙ map-see_Extends xs h h' grows live in
      λ i. first i ∷ rest i

  module _ (t : CellType (List A)) (stores : IsCellType t) where
    items-Extends :
        (s : Slice) (h k : Memory) (xs : List A)
        → load t s.array h ≡ some xs
        → Extends h k
        → items t s k ≡ items t s h
    unfolding items
    items-Extends s h k xs there e = rw (there, load-Extends t s.array h k xs there e) refl

    copy_slice-Extends : (s : Option Slice) (h : Memory) → Extends h (copy_slice t copy s h).1
    unfolding copy_slice
    copy_slice-Extends none h = Extends-refl h
    copy_slice-Extends (some s) h =
        Extends-trans h _ _ (copy_all-Extends (items t s h) h) (allocate-Extends _ _)

    see-copy_slice :
        (s : Option Slice) (h k : Memory)
        → IsLiveSlice t IsLive s h
        → Holds h (copy_slice t copy s h).1 k
        → see_slice t see (copy_slice t copy s h).0 k ≡ see_slice t see s h
    unfolding copy_slice see_slice items
    see-copy_slice none h k live holds = refl
    see-copy_slice (some s) h k (xs, there, live) holds =
        let was = items t s h in
        let (ys, h') = copy_all copy was h in
        let grows = copy_all-Extends was h in
        let found : load t (allocate (t.to_cell ys) h').0 k ≡ some ys =
          load-allocate t stores ys h h' k grows holds in
        let whole : take s.count ys ≡ ys = take_all s.count ys (
          omega
            (arith, length-copy_all was h, length-take s.count (items_found (load t s.array h)))) in
        let seen =
          map-see-copy_all was h k live
            (Holds-first h h' _ k (allocate-Extends (t.to_cell ys) h') holds) in
        rw (found, whole) (ap some seen)

    see_slice-Extends :
        (s : Option Slice) (h k : Memory)
        → IsLiveSlice t IsLive s h
        → Extends h k
        → see_slice t see s k ≡ see_slice t see s h
    unfolding see_slice
    see_slice-Extends none h k live e = refl
    see_slice-Extends (some s) h k (xs, there, live) e =
        rw (items-Extends s h k xs there e) (ap some (map-see_Extends (items t s h) h k e live))

    IsLiveSlice-Extends :
        (s : Option Slice) (h k : Memory)
        → IsLiveSlice t IsLive s h
        → Extends h k
        → IsLiveSlice t IsLive s k
    IsLiveSlice-Extends none h k live e = tt
    IsLiveSlice-Extends (some s) h k (xs, there, live) e = (
      xs,
      load-Extends t s.array h k xs there e,
      rw (items-Extends s h k xs there e) (All-IsLive_Extends (items t s h) h k e live),
    )

    pub copy_slice-IsDeepCopy :
        IsDeepCopy (see_slice t see) (IsLiveSlice t IsLive) (copy_slice t copy)
    copy_slice-IsDeepCopy = record {
      extends = copy_slice-Extends;
      copied = see-copy_slice;
      kept = see_slice-Extends;
      lives = IsLiveSlice-Extends;
    }
