-- ===== src/Connector/Corefile/Markers.antt =====
-- The lines of a Corefile outside managed blocks, described without the loop, and that the loop
-- writes them and nothing else where no marker names a wanted zone.
use mathlib.Core.List.{append-nil}
use coredns_manager_operator.Common.{
  ℕ, ◌≡◌, ◌≢◌, refl, Bool, true, false, ◌||◌, none, List, [], ◌∷◌, ◌++◌, append_assoc, arith, All,
  Bool-cases, inl, inr, if◌then◌else◌,
}
use coredns_manager_operator.Common.Text.{
  Text, newline, tab, trim_space, trim_left, trim_right, put_back, is_space, has_prefix,
  trim_prefix,
}
use coredns_manager_operator.Common.Text.Lines.{unlines}
use coredns_manager_operator.Common.Dict.{Dict, lookup}
use coredns_manager_operator.Connector.Corefile.{
  block_start_prefix, block_end_prefix, replace_block, corefile_step, corefile_loop,
}

unfoldable pub is_begin : Text → Bool
is_begin line = has_prefix (trim_space line) block_start_prefix

unfoldable pub is_end : Text → Bool
is_end line = has_prefix (trim_space line) block_end_prefix

-- The domain that a begin marker names.
unfoldable pub marked_domain : Text → Text
marked_domain line = trim_prefix (trim_space line) block_start_prefix

-- Neither kind of marker.
abbrev pub IsUser : Text → Type 0
IsUser line = (is_begin line ≡ false) × (is_end line ≡ false)

-- The lines outside blocks, of a text that begins inside one or not.
unfoldable pub outside : Bool → List Text → List Text
outside b [] = []
outside b (l ∷ ls) =
    let rest = outside (if is_begin l then true else if is_end l then false else b) ls in
    if is_begin l || (is_end l || b) then rest else l ∷ rest

-- Whether the text ends inside a block.
unfoldable pub inside_at_end : Bool → List Text → Bool
inside_at_end b [] = b
inside_at_end b (l ∷ ls) =
    inside_at_end (if is_begin l then true else if is_end l then false else b) ls

-- No begin marker names one of the wanted zones.
abbrev pub NoneNamed : Dict Text → List Text → Type 0
NoneNamed blocks = All (λ l. is_begin l ≡ true → lookup (marked_domain l) blocks ≡ none)

corefile_step-outside :
    (l : Text) (b : Bool) (blocks : Dict Text) (out : Text)
    → (is_begin l ≡ true → lookup (marked_domain l) blocks ≡ none)
    → corefile_step l (record { in_block = b; blocks = blocks; written = out }) ≡ record {
      in_block = if is_begin l then true else if is_end l then false else b;
      blocks = blocks;
      written = if is_begin l || (is_end l || b) then out else out ++ (l ++ newline ∷ []);
    }
unfolding corefile_step replace_block is_begin is_end marked_domain
corefile_step-outside l b blocks out h = ground arith

append-unlines :
    (l : Text) (ls : List Text) (out : Text)
    → (out ++ (l ++ newline ∷ [])) ++ unlines ls ≡ out ++ unlines (l ∷ ls)
append-unlines l ls out = simp append_assoc

pub corefile_loop-outside :
    (ls : List Text) (b : Bool) (blocks : Dict Text) (out : Text)
    → NoneNamed blocks ls
    → corefile_loop ls (record { in_block = b; blocks = blocks; written = out }) ≡ record {
      in_block = inside_at_end b ls;
      blocks = blocks;
      written = out ++ unlines (outside b ls);
    }
unfolding outside inside_at_end corefile_loop
corefile_loop-outside [] b blocks out h = rw append-nil
corefile_loop-outside (l ∷ ls) b blocks out (hl, h) =
    rw (corefile_step-outside l b blocks out hl)
      (elim (Bool-cases (is_begin l || (is_end l || b))) [
        | inl skipped ↦ rw skipped (
            corefile_loop-outside ls (if is_begin l then true else if is_end l then false else b)
              blocks out h)
        | inr kept ↦
            rw (kept, ← append-unlines l _ out)
              (corefile_loop-outside ls (if is_begin l then true else if is_end l then false else b)
                blocks (out ++ (l ++ newline ∷ [])) h)
      ])

pub outside-append :
    (b : Bool) (ls ms : List Text)
    → outside b (ls ++ ms) ≡ outside b ls ++ outside (inside_at_end b ls) ms
unfolding outside inside_at_end
outside-append b [] ms = refl
outside-append b (l ∷ ls) ms =
    ground
      (arith, outside-append (if is_begin l then true else if is_end l then false else b) ls ms)

pub inside_at_end-append :
    (b : Bool) (ls ms : List Text)
    → inside_at_end b (ls ++ ms) ≡ inside_at_end (inside_at_end b ls) ms
unfolding inside_at_end
inside_at_end-append b [] ms = refl
inside_at_end-append b (l ∷ ls) ms =
    inside_at_end-append (if is_begin l then true else if is_end l then false else b) ls ms

-- What lies outside blocks holds no markers.
pub outside-IsUser : (b : Bool) (ls : List Text) → All IsUser (outside b ls)
unfolding outside
outside-IsUser b [] = tt
outside-IsUser b (l ∷ ls) =
    ground (arith, outside-IsUser (if is_begin l then true else if is_end l then false else b) ls)

pub outside_users : (ls : List Text) → All IsUser ls → outside false ls ≡ ls
unfolding outside
outside_users [] h = refl
outside_users (l ∷ ls) (hl, h) = ground (arith, outside_users ls h)

pub outside_in_block : (ls : List Text) → All IsUser ls → outside true ls ≡ []
unfolding outside
outside_in_block [] h = refl
outside_in_block (l ∷ ls) (hl, h) = ground (arith, outside_in_block ls h)

pub inside_at_end-IsUser : (b : Bool) (ls : List Text) → All IsUser ls → inside_at_end b ls ≡ b
unfolding inside_at_end
inside_at_end-IsUser b [] h = refl
inside_at_end-IsUser b (l ∷ ls) (hl, h) = ground (arith, inside_at_end-IsUser b ls h)

-- A line whose first character is neither white space nor `#` is no marker.
put_back-head : (c : ℕ) (s : Text) → is_space c ≡ false → (t : Text) × (put_back c s ≡ c ∷ t)
unfolding put_back
put_back-head c [] h = ([], rw h)
put_back-head c (d ∷ s) h = (d ∷ s, refl)

trim_space-head :
    (c : ℕ) (s : Text) → is_space c ≡ false → (t : Text) × (trim_space (c ∷ s) ≡ c ∷ t)
unfolding trim_space trim_left trim_right
trim_space-head c s h = let (t, e) = put_back-head c (trim_right s) h in (t, rw (h, trim_right) e)

pub IsUser-of_head : (c : ℕ) (s : Text) → is_space c ≡ false → c ≢ 35 → IsUser (c ∷ s)
unfolding is_begin is_end has_prefix block_start_prefix block_end_prefix
IsUser-of_head c s h k =
    let (t, e) = trim_space-head c s h in (rw e (ground arith), rw e (ground arith))

pub IsUser-of_tab : (s : Text) → IsUser s → IsUser (tab ∷ s)
unfolding is_begin is_end trim_space is_space
IsUser-of_tab s h = h

pub IsUser-nil : IsUser []
unfolding is_begin is_end trim_space has_prefix block_start_prefix block_end_prefix
IsUser-nil = (refl, refl)
