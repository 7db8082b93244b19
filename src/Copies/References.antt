-- ===== src/Copies/References.antt =====
-- How the functions of api/v1alpha1/zz_generated.deepcopy.go copy what pointers point at and the
-- arrays behind slices.
pub mod Laws
pub mod Slices
pub mod Structs
use coredns_manager_operator.Common.{◌≡◌, Option, none, some, List, [], ◌∷◌, map, All}
use coredns_manager_operator.Copies.Memory.{Address, Slice, Memory, CellType, allocate, load, take}

module _ {A : Type 0} (t : CellType A) where
  abbrev copy_found : Option A → Memory → Option Address × Memory
  copy_found none h = (none, h)
  copy_found (some x) h = let (a, h') = allocate (t.to_cell x) h in (some a, h')

  -- `if in.X != nil { *out = new(T); **out = **in }`
  unfoldable pub copy_pointer : Option Address → Memory → Option Address × Memory
  unfolding load
  copy_pointer none h = (none, h)
  copy_pointer (some a) h = copy_found (load t a h) h

  -- What a pointer points at.
  unfoldable pub see_pointer : Option Address → Memory → Option A
  unfolding load
  see_pointer none h = none
  see_pointer (some a) h = load t a h

  -- A pointer is nil or points at something of its type.
  abbrev pub IsLivePointer : Option Address → Memory → Type 0
  IsLivePointer none h = Unit
  IsLivePointer (some a) h = (x : A) × (load t a h ≡ some x)

module _ {A : Type 0} (copy : A → Memory → A × Memory) where
  -- `for i := range *in { (*in)[i].DeepCopyInto(&(*out)[i]) }`
  unfoldable pub copy_all : List A → Memory → List A × Memory
  copy_all [] h = ([], h)
  copy_all (x ∷ xs) h = let (y, h') = copy x h in let (ys, h'') = copy_all xs h' in (y ∷ ys, h'')

-- The elements of an array, which is there.
abbrev pub items_found : {A : Type 0} → Option (List A) → List A
items_found none = []
items_found (some xs) = xs

module _ {A : Type 0} (t : CellType (List A)) where
  -- The elements of a slice.
  unfoldable pub items : Slice → Memory → List A
  unfolding load
  items s h = take s.count (items_found (load t s.array h))

  module _ (copy : A → Memory → A × Memory) where
    -- `if in.X != nil { *out = make([]T, len(*in)); ... }` with the loop over the elements. The array
    -- is put into memory when it is filled.
    unfoldable pub copy_slice : Option Slice → Memory → Option Slice × Memory
    unfolding items copy_all allocate
    copy_slice none h = (none, h)
    copy_slice (some s) h =
        let (ys, h') = copy_all copy (items s h) h in
        let (a, h'') = allocate (t.to_cell ys) h' in
        (some (record { array = a; count = s.count }), h'')

  -- The elements of a slice, as they are seen.
  unfoldable pub see_slice :
      {V : Type 0} → (A → Memory → V) → Option Slice → Memory → Option (List V)
  unfolding items
  see_slice see none h = none
  see_slice see (some s) h = some (map (λ x. see x h) (items s h))

  -- A slice is nil or has an array, with live elements.
  abbrev pub IsLiveSlice : (A → Memory → Type 0) → Option Slice → Memory → Type 0
  IsLiveSlice IsLive none h = Unit
  IsLiveSlice IsLive (some s) h =
      (xs : List A) × (load t s.array h ≡ some xs) × All (λ x. IsLive x h) (items s h)

-- `*out = *in` for a type without references
unfoldable pub copy_plain : {A : Type 0} → A → Memory → A × Memory
copy_plain x h = (x, h)

abbrev pub see_plain : {A : Type 0} → A → Memory → A
see_plain x h = x

abbrev pub IsLivePlain : {A : Type 0} → A → Memory → Type 0
IsLivePlain x h = Unit
