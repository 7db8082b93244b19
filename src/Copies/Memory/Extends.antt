-- ===== src/Copies/Memory/Extends.antt =====
-- Memories that hold what another one holds.
use coredns_manager_operator.Common.{
  zero, suc, ◌≤◌, ◌<◌, ◌≡◌, ◌≢◌, refl, ap, some, List, [], ◌∷◌, ◌++◌, length, length-append, arith,
  All,
}
use coredns_manager_operator.Copies.Memory.{
  Address, Cell, Memory, get_elem?, allocate, write, Step, writes, allocates, run_step, run_steps,
  WritesBelow, WritesFrom,
}

pub get_elem?_bound : (h : Memory) (a : Address) (c : Cell) → get_elem? h a ≡ some c → a < length h
get_elem?_bound [] a c e = absurd (ground (arith, e))
get_elem?_bound (x ∷ h) zero c e = omega arith
get_elem?_bound (x ∷ h) (suc a) c e = omega (arith, get_elem?_bound h a c e)

get_elem?-append :
    (h k : Memory) (a : Address) (c : Cell) → get_elem? h a ≡ some c → get_elem? (h ++ k) a ≡ some c
get_elem?-append [] k a c e = absurd (ground (arith, e))
get_elem?-append (x ∷ h) k zero c e = e
get_elem?-append (x ∷ h) k (suc a) c e = get_elem?-append h k a c e

get_elem?_last : (h : Memory) (c : Cell) → get_elem? (h ++ c ∷ []) (length h) ≡ some c
get_elem?_last [] c = refl
get_elem?_last (x ∷ h) c = get_elem?_last h c

-- The second memory has every cell of the first.
abbrev pub Extends : Memory → Memory → Type 0
Extends h k =
    (length h ≤ length k)
    × ((a : Address) (c : Cell) → get_elem? h a ≡ some c → get_elem? k a ≡ some c)

-- The last memory has every cell that the second one has beyond the first.
abbrev pub Holds : Memory → Memory → Memory → Type 0
Holds h h₁ k =
    (a : Address) (c : Cell) → length h ≤ a → get_elem? h₁ a ≡ some c → get_elem? k a ≡ some c

pub Extends-refl : (h : Memory) → Extends h h
Extends-refl h = (omega arith, λ a c e. e)

pub Extends-trans : (h k l : Memory) → Extends h k → Extends k l → Extends h l
Extends-trans h k l (n, e) (m, f) = (omega arith, λ a c g. f a c (e a c g))

pub allocate-Extends : (c : Cell) (h : Memory) → Extends h (allocate c h).1
unfolding allocate
allocate-Extends c h =
    (omega (arith, length-append h (c ∷ [])), λ a d e. get_elem?-append h (c ∷ []) a d e)

pub allocate_found : (c : Cell) (h : Memory) → get_elem? (allocate c h).1 (allocate c h).0 ≡ some c
unfolding allocate
allocate_found c h = get_elem?_last h c

pub allocate_bound : (c : Cell) (h h₁ : Memory) → Extends h h₁ → length h ≤ (allocate c h₁).0
unfolding allocate
allocate_bound c h h₁ (n, e) = n

pub Holds-Extends : (h k l : Memory) → Extends k l → Holds h k l
Holds-Extends h k l (n, e) a c bound found = e a c found

-- Of two copies behind each other.
pub Holds-first : (h h₁ h₂ k : Memory) → Extends h₁ h₂ → Holds h h₂ k → Holds h h₁ k
Holds-first h h₁ h₂ k (n, e) holds a c bound found = holds a c bound (e a c found)

pub Holds-second : (h h₁ h₂ k : Memory) → Extends h h₁ → Holds h h₂ k → Holds h₁ h₂ k
Holds-second h h₁ h₂ k (n, e) holds a c bound found = holds a c (omega arith) found

get_elem?-write :
    (h : Memory) (a b : Address) (x c : Cell)
    → a ≢ b
    → get_elem? h a ≡ some c
    → get_elem? (write b x h) a ≡ some c
unfolding write
get_elem?-write [] a b x c other e = absurd (ground (arith, e))
get_elem?-write (y ∷ h) zero zero x c other e = absurd (other refl)
get_elem?-write (y ∷ h) zero (suc b) x c other e = e
get_elem?-write (y ∷ h) (suc a) zero x c other e = e
get_elem?-write (y ∷ h) (suc a) (suc b) x c other e =
    get_elem?-write h a b x c (λ same. other (ap suc same)) e

length-write : (h : Memory) (b : Address) (x : Cell) → length (write b x h) ≡ length h
unfolding write
length-write [] b x = refl
length-write (y ∷ h) zero x = refl
length-write (y ∷ h) (suc b) x = ap suc (length-write h b x)

pub run_steps-Holds :
    (h h₁ k : Memory) (steps : List Step)
    → All (WritesBelow (length h)) steps
    → Holds h h₁ k
    → Holds h h₁ (run_steps steps k)
unfolding run_steps run_step
run_steps-Holds h h₁ k [] old holds = holds
run_steps-Holds h h₁ k (writes b x ∷ steps) (below, old) holds =
    run_steps-Holds h h₁ (write b x k) steps old (λ a c bound found.
      get_elem?-write k a b x c (λ same. omega (arith, same, bound, below)) (holds a c bound found))
run_steps-Holds h h₁ k (allocates x ∷ steps) (_, old) holds =
    run_steps-Holds h h₁ (allocate x k).1 steps old
      (λ a c bound found. (allocate-Extends x k).1 a c (holds a c bound found))

pub run_steps-Extends :
    (h k : Memory) (steps : List Step)
    → All (WritesFrom (length h)) steps
    → Extends h k
    → Extends h (run_steps steps k)
unfolding run_steps run_step
run_steps-Extends h k [] new e = e
run_steps-Extends h k (writes b x ∷ steps) (from, new) (n, e) =
    run_steps-Extends h (write b x k) steps new (
      omega (arith, length-write k b x),
      λ a c found.
          get_elem?-write k a b x c (λ same. omega (arith, same, from, get_elem?_bound h a c found))
            (e a c found),
    )
run_steps-Extends h k (allocates x ∷ steps) (_, new) e =
    run_steps-Extends h (allocate x k).1 steps new
      (Extends-trans h k (allocate x k).1 e (allocate-Extends x k))
