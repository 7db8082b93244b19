-- ===== src/Zone/Compare/Masks.antt =====
-- The lines of a zone file, masked one by one.
use coredns_manager_operator.Common.{
  ℕ, ◌≡◌, ◌≢◌, refl, ap, ◌∙◌, sym, true, false, not, List, [], ◌∷◌, ◌++◌, map, append_assoc,
  map-append, arith, keep, All, Bool-cases, inl, inr,
}
use coredns_manager_operator.Common.Text.{Text, newline, tab, split, join}
use coredns_manager_operator.Common.Text.Lines.{
  Lacks, Lacks-append, split-append_sep, split-join, split-All, split-Lacks, split-ne-nil,
}
use coredns_manager_operator.Common.Text.Prefix.{contains-append}
use coredns_manager_operator.Errors.{ok}
use coredns_manager_operator.Zone.Compare.{
  first_piece, serial_word, has_serial, masked_end, mask_line, remove_serial_number,
}

pub first_piece-All : (P : ℕ → Type 0) (ps : List Text) → All (All P) ps → All P (first_piece ps)
unfolding first_piece
first_piece-All P [] h = tt
first_piece-All P (p ∷ ps) h = h.0

pub mask_line-Lacks : (l : Text) → Lacks newline l → Lacks newline (mask_line l)
unfolding mask_line
mask_line-Lacks l h = elim (Bool-cases (has_serial l)) [
  | inl serial ↦ rw serial (
      Lacks-append newline (first_piece (split l tab)) _
        (first_piece-All _ (split l tab) (split-All _ l tab h))
        (unfold masked_end serial_word in omega arith))
  | inr plain ↦ rw plain h
]

pub map-mask_line-Lacks :
    (ls : List Text) → All (Lacks newline) ls → All (Lacks newline) (map mask_line ls)
map-mask_line-Lacks [] h = tt
map-mask_line-Lacks (l ∷ ls) (hl, h) = (mask_line-Lacks l hl, map-mask_line-Lacks ls h)

pub map-ne-nil : (f : Text → Text) (ls : List Text) → ls ≢ [] → map f ls ≢ []
map-ne-nil f [] h = h
map-ne-nil f (l ∷ ls) h = cc

-- The lines of a zone file without its serial number are its lines, each masked.
pub split-remove_serial_number :
    (z : Text) → split (remove_serial_number z) newline ≡ map mask_line (split z newline)
unfolding remove_serial_number
split-remove_serial_number z =
    split-join (map mask_line (split z newline)) newline
      (map-ne-nil mask_line (split z newline) (split-ne-nil z newline))
      (map-mask_line-Lacks (split z newline) (split-Lacks z newline))

-- The lines that hold no serial number.
abbrev pub plain_lines : Text → List Text
plain_lines z = keep (λ l. not (has_serial l)) (split z newline)

pub mask_line_serial :
    (l : Text)
    → has_serial l ≡ true
    → mask_line l ≡ (first_piece (split l tab) ++ masked_end) ++ serial_word
unfolding mask_line
mask_line_serial l h = rw (h, append_assoc)

pub mask_line_plain : (l : Text) → has_serial l ≡ false → mask_line l ≡ l
unfolding mask_line
mask_line_plain l h = rw h

pub has_serial-append : (s : Text) → has_serial (s ++ serial_word) ≡ true
unfolding has_serial
has_serial-append s = contains-append s serial_word

pub has_serial-mask_line : (l : Text) → has_serial (mask_line l) ≡ has_serial l
has_serial-mask_line l = elim (Bool-cases (has_serial l)) [
  | inl serial ↦ rw (mask_line_serial l serial) (has_serial-append _ ∙ sym serial)
  | inr plain ↦ rw (mask_line_plain l plain)
]

pub keep-map-mask_line :
    (ls : List Text)
    → keep (λ l. not (has_serial l)) (map mask_line ls) ≡ keep (λ l. not (has_serial l)) ls
unfolding keep
keep-map-mask_line [] = refl
keep-map-mask_line (l ∷ ls) = elim (Bool-cases (has_serial l)) [
  | inl serial ↦ rw (has_serial-mask_line, serial) (keep-map-mask_line ls)
  | inr plain ↦ rw (mask_line_plain l plain, plain) (ap (◌∷◌ l) (keep-map-mask_line ls))
]

-- Two zone files that are one without their serial numbers have the same plain lines.
pub remove_serial_number-plain_lines :
    (z z' : Text)
    → remove_serial_number z ≡ remove_serial_number z'
    → plain_lines z ≡ plain_lines z'
remove_serial_number-plain_lines z z' h =
    sym (plain-masked z) ∙ (ap plain_lines h ∙ plain-masked z')
  where
    plain-masked : (y : Text) → plain_lines (remove_serial_number y) ≡ plain_lines y
    plain-masked y = rw split-remove_serial_number (keep-map-mask_line (split y newline))

-- The lines of a text, each masked.
abbrev pub masked : Text → List Text
masked z = map mask_line (split z newline)

pub remove_serial_number_of_masked :
    (z z' : Text) → masked z ≡ masked z' → remove_serial_number z ≡ remove_serial_number z'
unfolding remove_serial_number
remove_serial_number_of_masked z z' h = ap (λ ls. join ls newline) h

pub ok-injective : {z z' : Text} → ok z ≡ ok z' → z ≡ z'
ok-injective h = cc

pub masked-append_line :
    (l z : Text) → masked (l ++ newline ∷ z) ≡ map mask_line (split l newline) ++ masked z
masked-append_line l z =
    ap (map mask_line) (split-append_sep l z newline) ∙ map-append mask_line (split l newline) _
