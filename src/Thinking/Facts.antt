-- ===== src/Thinking/Facts.antt =====
-- src/factory_agent/application/session/thinking.py: facts only accumulate, so that a sentence which
-- has passed the gate passes it for the rest of the round.
use factory_agent.Prelude.{
  ℕ, ◌≡◌, refl, ap, ◌∙◌, inl, inr, Bool, true, false, not, ◌&&◌, ◌||◌, none, List, [], ◌∷◌, ◌++◌,
  map, leb, any, if◌then◌else◌, ◌==◌, ==_refl, nat_eq, list_eq, list_beq_iff, contains, length,
  Text, strip, arith, Bool-cases,
}
use factory_agent.Thinking.{
  ThinkingFacts, merge_lines, merged_with, widened, digits, numbers_of, numbers, is_unsupported,
  rejection_reason, long_number_digits,
}

-- Every member of the one is a member of the other.
abbrev Within : List Text → List Text → Type 0
Within xs ys = (a : Text) → contains xs a ≡ true → contains ys a ≡ true

contains-append :
    (xs ys : List Text) (a : Text) → contains (xs ++ ys) a ≡ (contains xs a || contains ys a)
contains-append [] ys a = refl
contains-append (x ∷ xs) ys a = ground (arith, contains-append xs ys a)

or_left : (a b : Bool) → a ≡ true → (a || b) ≡ true
or_left a b h = ground arith

or_right : (a b : Bool) → b ≡ true → (a || b) ≡ true
or_right a b h = ground arith

add_line :
    (lines : List Text) (line a : Text)
    → contains (if contains lines line then lines else lines ++ line ∷ []) a
      ≡ (contains lines a || line == a)
add_line lines line a = elim (Bool-cases (contains lines line)) [
  | inl old ↦ elim (Bool-cases (line == a)) [
    | inl same ↦ ground (arith, old, same, ap (contains lines) ((list_beq_iff line a).0 same))
    | inr other ↦ ground (arith, old, other)
  ]
  | inr new ↦ ground (arith, new, contains-append lines (line ∷ []) a)
]

-- Merging keeps every line of both, and adds none.
contains-merge_lines :
    (lines others : List Text) (a : Text)
    → contains (merge_lines lines others) a ≡ (contains lines a || contains others a)
unfolding merge_lines
contains-merge_lines lines [] a = ground arith
contains-merge_lines lines (line ∷ others) a = ground (
  arith,
  add_line lines line a,
  contains-merge_lines (if contains lines line then lines else lines ++ line ∷ []) others a,
)

any-eq-false :
    (p q : Text → Bool) (xs : List Text)
    → ((x : Text) → p x ≡ false → q x ≡ false)
    → any p xs ≡ false
    → any q xs ≡ false
any-eq-false p q [] f h = refl
any-eq-false p q (x ∷ xs) f h =
    ground (arith, f x (ground (arith, h)), any-eq-false p q xs f (ground (arith, h)))

module _ (lower : Text → Text) (is_identifier : Text → Bool) (is_digit : ℕ → Bool)
    (number_matches : Text → List Text) where
  abbrev numbers_in : List Text → List Text
  numbers_in = numbers_of lower is_identifier is_digit number_matches

  abbrev digits_of : Text → List Text
  digits_of line = map (digits lower is_identifier is_digit number_matches) (number_matches line)

  -- The figures of a line are figures of every list with that line.
  line-numbers_of :
      (line : Text) (lines : List Text) (d : Text)
      → contains lines line ≡ true
      → contains (digits_of line) d ≡ true
      → contains (numbers_in lines) d ≡ true
  unfolding numbers_of
  line-numbers_of line [] d h k = cc
  line-numbers_of line (l ∷ lines) d h k =
      contains-append (digits_of l) (numbers_in lines) d ∙ elim (Bool-cases (l == line)) [
        | inl same ↦
            or_left (contains (digits_of l) d) _
              (ap (λ x. contains (digits_of x) d) ((list_beq_iff l line).0 same) ∙ k)
        | inr other ↦
            or_right (contains (digits_of l) d) _
              (line-numbers_of line lines d (ground (arith, other, h)) k)
      ]

  numbers_of-Within : (xs ys : List Text) → Within xs ys → Within (numbers_in xs) (numbers_in ys)
  unfolding numbers_of
  numbers_of-Within [] ys h d m = cc
  numbers_of-Within (x ∷ xs) ys h d m = elim (Bool-cases (contains (digits_of x) d)) [
    | inl here ↦ line-numbers_of x ys d (h x (or_left (x == x) _ (==_refl x))) here
    | inr there ↦
        numbers_of-Within xs ys (λ a k. h a (or_right (x == a) _ k)) d
          (ground (arith, m, there, contains-append (digits_of x) (numbers_in xs) d))
  ]

  is_unsupported-Within :
      (f g : ThinkingFacts) (raw : Text)
      → Within f.lines g.lines
      → is_unsupported lower is_identifier is_digit number_matches f raw ≡ false
      → is_unsupported lower is_identifier is_digit number_matches g raw ≡ false
  unfolding is_unsupported numbers
  is_unsupported-Within f g raw h k =
      implied
        (leb long_number_digits (length (digits lower is_identifier is_digit number_matches raw)))
        (contains (numbers_in f.lines) (digits lower is_identifier is_digit number_matches raw))
        (contains (numbers_in g.lines) (digits lower is_identifier is_digit number_matches raw))
        (numbers_of-Within f.lines g.lines h
          (digits lower is_identifier is_digit number_matches raw))
        k
    where
      implied :
          (long a b : Bool)
          → (a ≡ true → b ≡ true)
          → (long && not a) ≡ false
          → (long && not b) ≡ false
      implied true true b h k = rw (h refl) refl
      implied true false b h k = cc
      implied false a b h k = refl

  rejection_reason-Within :
      (f g : ThinkingFacts) (s : Text)
      → Within f.lines g.lines
      → rejection_reason lower is_identifier is_digit number_matches s f ≡ none
      → rejection_reason lower is_identifier is_digit number_matches s g ≡ none
  unfolding rejection_reason
  rejection_reason-Within f g s h k = ground (
    arith,
    k,
    any-eq-false (is_unsupported lower is_identifier is_digit number_matches f)
        (is_unsupported lower is_identifier is_digit number_matches g) (number_matches (strip s))
        (λ (raw : Text)
            (u : is_unsupported lower is_identifier is_digit number_matches f raw ≡ false).
          is_unsupported-Within f g raw h u),
  )

  -- A text that passes the gate under some facts passes it under those facts with any sentence
  -- added, and when they are merged with others, from either side.
  pub rejection_reason-merged_with :
      (facts other : ThinkingFacts) (sentence s : Text)
      → rejection_reason lower is_identifier is_digit number_matches s facts ≡ none
      → (rejection_reason lower is_identifier is_digit number_matches s (widened facts sentence)
          ≡ none)
        × (rejection_reason lower is_identifier is_digit number_matches s (merged_with facts other)
            ≡ none)
        × (rejection_reason lower is_identifier is_digit number_matches s (merged_with other facts)
            ≡ none)
  unfolding merged_with widened
  rejection_reason-merged_with f g sentence s h = (
    rejection_reason-Within f (widened f sentence) s widened_within h,
    rejection_reason-Within f (merged_with f g) s
        (λ a m. contains-merge_lines f.lines g.lines a ∙ or_left _ (contains g.lines a) m) h,
    rejection_reason-Within f (merged_with g f) s
        (λ a m. contains-merge_lines g.lines f.lines a ∙ or_right (contains g.lines a) _ m) h,
  )
    where
      widened_within : Within f.lines (widened f sentence).lines
      widened_within a m = elim (Bool-cases (contains f.lines (strip sentence))) [
        | inl old ↦ rw old m
        | inr new ↦
            rw new
              (contains-append f.lines (strip sentence ∷ []) a ∙ or_left (contains f.lines a) _ m)
      ]
