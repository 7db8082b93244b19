-- ===== src/Copies/References/Laws.antt =====
-- What it is to be a deep copy, for pointers, slices and structs of them.
use coredns_manager_operator.Common.{
  ◌≡◌, refl, sym, ◌∙◌, Option, none, some, Option-cases, inl, inr, arith,
}
use coredns_manager_operator.Copies.Memory.{
  Address, Memory, Cell, CellType, allocate, load, get_elem?,
}
use coredns_manager_operator.Copies.Memory.Extends.{
  Extends, Holds, Extends-refl, allocate-Extends, allocate_found, allocate_bound,
}
use coredns_manager_operator.Copies.References.{
  copy_pointer, see_pointer, IsLivePointer, copy_plain, see_plain, IsLivePlain,
}

-- A deep copy, by what is seen of a value in a memory: it keeps the memory, and as long as the new
-- cells hold what they hold, the copy looks as the original did. What is seen of a live value does
-- not change in a memory that has all of the cells.
pub record IsDeepCopy {A V : Type 0} (see : A → Memory → V) (IsLive : A → Memory → Type 0)
    (copy : A → Memory → A × Memory) : Type 0 where
  pub extends : (x : A) (h : Memory) → Extends h (copy x h).1
  pub copied :
      (x : A) (h k : Memory) → IsLive x h → Holds h (copy x h).1 k → see (copy x h).0 k ≡ see x h
  pub kept : (x : A) (h k : Memory) → IsLive x h → Extends h k → see x k ≡ see x h
  pub lives : (x : A) (h k : Memory) → IsLive x h → Extends h k → IsLive x k

-- What a cell type's values are stored as is read back.
abbrev pub IsCellType : {A : Type 0} → CellType A → Type 0
IsCellType {A} t = (x : A) → t.of_cell (t.to_cell x) ≡ some x

pub copy_plain-IsDeepCopy : {A : Type 0} → IsDeepCopy {A = A} see_plain IsLivePlain copy_plain
unfolding copy_plain
copy_plain-IsDeepCopy = record {
  extends = λ x h. Extends-refl h;
  copied = λ x h k live holds. refl;
  kept = λ x h k live e. refl;
  lives = λ x h k live e. tt;
}

module _ {A : Type 0} (t : CellType A) where
  load-get_elem? :
      (a : Address) (h : Memory) (x : A)
      → load t a h ≡ some x
      → (c : Cell) × (get_elem? h a ≡ some c) × (t.of_cell c ≡ some x)
  unfolding load
  load-get_elem? a h x e = elim (Option-cases (get_elem? h a)) [
    | inl absent ↦ absurd (ground (arith, rw absent at e))
    | inr (c, there) ↦ (c, there, rw there at e)
  ]

  pub load-Extends :
      (a : Address) (h k : Memory) (x : A) → load t a h ≡ some x → Extends h k → load t a k ≡ some x
  unfolding load
  load-Extends a h k x e (n, keeps) =
      let (c, there, is) = load-get_elem? a h x e in rw (keeps a c there) is

  module _ (stores : IsCellType t) where
    -- A fresh cell is read as it was filled.
    pub load-allocate :
        (x : A) (h h₁ k : Memory)
        → Extends h h₁
        → Holds h (allocate (t.to_cell x) h₁).1 k
        → load t (allocate (t.to_cell x) h₁).0 k ≡ some x
    unfolding load
    load-allocate x h h₁ k e holds =
        rw (holds _ _ (allocate_bound (t.to_cell x) h h₁ e) (allocate_found (t.to_cell x) h₁))
          (stores x)

    copy_pointer-Extends : (p : Option Address) (h : Memory) → Extends h (copy_pointer t p h).1
    unfolding copy_pointer
    copy_pointer-Extends none h = Extends-refl h
    copy_pointer-Extends (some a) h = elim (Option-cases (load t a h)) [
      | inl absent ↦ rw absent (Extends-refl h)
      | inr (x, there) ↦ rw there (allocate-Extends (t.to_cell x) h)
    ]

    see-copy_pointer :
        (p : Option Address) (h k : Memory)
        → IsLivePointer t p h
        → Holds h (copy_pointer t p h).1 k
        → see_pointer t (copy_pointer t p h).0 k ≡ see_pointer t p h
    unfolding copy_pointer see_pointer
    see-copy_pointer none h k live holds = refl
    see-copy_pointer (some a) h k (x, there) holds =
        rw there (load-allocate x h h k (Extends-refl h) (rw there at holds))

    see_pointer-Extends :
        (p : Option Address) (h k : Memory)
        → IsLivePointer t p h
        → Extends h k
        → see_pointer t p k ≡ see_pointer t p h
    unfolding see_pointer
    see_pointer-Extends none h k live e = refl
    see_pointer-Extends (some a) h k (x, there) e = load-Extends a h k x there e ∙ sym there

    IsLivePointer-Extends :
        (p : Option Address) (h k : Memory)
        → IsLivePointer t p h
        → Extends h k
        → IsLivePointer t p k
    IsLivePointer-Extends none h k live e = tt
    IsLivePointer-Extends (some a) h k (x, there) e = (x, load-Extends a h k x there e)

    pub copy_pointer-IsDeepCopy : IsDeepCopy (see_pointer t) (IsLivePointer t) (copy_pointer t)
    copy_pointer-IsDeepCopy = record {
      extends = copy_pointer-Extends;
      copied = see-copy_pointer;
      kept = see_pointer-Extends;
      lives = IsLivePointer-Extends;
    }
