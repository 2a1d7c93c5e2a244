-- ===== src/Prelude/Sets.antt =====
-- Python's `frozenset`: a list of its elements, read only through membership.
use mathlib.Core.Path.{◌≡◌, refl, sym, ap, ◌∙◌}
use mathlib.Core.Logic.{◌↔◌, inl, inr}
use mathlib.Core.Bool.{Bool, true, false, ◌&&◌, ◌||◌}
use mathlib.Core.List.{List, [], ◌∷◌}
use native.Mathlib.Omega.{arith}
use factory_agent.Prelude.Tests.{Bool-cases, Bool-ext, and-eq-true}
use factory_agent.Prelude.Equality.{Eq, ◌==◌, ==_refl}
use factory_agent.Prelude.Lists.{all, select, is_empty}

module _ {ℓ} {A : Type ℓ} ⦃e : Eq A⦄ where
  -- a in xs
  abbrev pub contains : List A → A → Bool
  contains [] a = false
  contains (x ∷ xs) a = x == a || contains xs a

  -- xs & ys
  unfoldable pub inter : List A → List A → List A
  inter xs ys = select (contains ys) xs

  -- xs <= ys, as sets
  abbrev pub subset : List A → List A → Bool
  subset xs ys = all (contains ys) xs

  -- xs == ys, as sets
  unfoldable pub set_beq : List A → List A → Bool
  set_beq xs ys = subset xs ys && subset ys xs

  pub contains-select :
      (p : A → Bool) (xs : List A) (a : A) → contains (select p xs) a ≡ (contains xs a && p a)
  contains-select p [] a = refl
  contains-select p (x ∷ xs) a = elim (Bool-cases (x == a)) [
    | inl same ↦ ground (arith, same, ap p ((e.same_iff x a).0 same), contains-select p xs a)
    | inr other ↦ ground (arith, other, contains-select p xs a)
  ]

  pub contains-inter :
      (xs ys : List A) (a : A) → contains (inter xs ys) a ≡ (contains xs a && contains ys a)
  unfolding inter
  contains-inter xs ys a = contains-select (contains ys) xs a

  pub contains_of_all :
      (p : A → Bool) (xs : List A) (a : A) → all p xs ≡ true → contains xs a ≡ true → p a ≡ true
  contains_of_all p [] a h m = cc
  contains_of_all p (x ∷ xs) a h m =
      let (hx, hxs) = (and-eq-true (p x) (all p xs)).0 h in
      elim (Bool-cases (x == a)) [
        | inl same ↦ ap p (sym ((e.same_iff x a).0 same)) ∙ hx
        | inr other ↦ contains_of_all p xs a hxs (rw other at m)
      ]

  pub all_of_contains :
      (p : A → Bool) (xs : List A) → ((a : A) → contains xs a ≡ true → p a ≡ true) → all p xs ≡ true
  all_of_contains p [] h = refl
  all_of_contains p (x ∷ xs) h =
      (and-eq-true (p x) (all p xs)).1
        (h x (rw (==_refl x)), all_of_contains p xs (λ a m. h a (or_right (x == a) m)))
    where
      or_right : (b : Bool) {c : Bool} → c ≡ true → (b || c) ≡ true
      or_right b h = ground arith

  pub subset_iff :
      (xs ys : List A)
      → (subset xs ys ≡ true) ↔ ((a : A) → contains xs a ≡ true → contains ys a ≡ true)
  subset_iff xs ys =
      (λ h a m. contains_of_all (contains ys) xs a h m, λ h. all_of_contains (contains ys) xs h)

  -- Two sets are equal when they have the same members.
  pub set_beq_iff :
      (xs ys : List A) → (set_beq xs ys ≡ true) ↔ ((a : A) → contains xs a ≡ contains ys a)
  unfolding set_beq
  set_beq_iff xs ys = (
    λ h a.
        let (hx, hy) = (and-eq-true (subset xs ys) (subset ys xs)).0 h in
        Bool-ext _ _ ((subset_iff xs ys).0 hx a) ((subset_iff ys xs).0 hy a),
    λ h.
        (and-eq-true (subset xs ys) (subset ys xs)).1
          ((subset_iff xs ys).1 (λ a m. sym (h a) ∙ m), (subset_iff ys xs).1 (λ a m. h a ∙ m)),
  )

  pub is_empty_iff : (xs : List A) → (is_empty xs ≡ true) ↔ ((a : A) → contains xs a ≡ false)
  is_empty_iff [] = (λ _ a. refl, λ _. refl)
  is_empty_iff (x ∷ xs) = (λ h. cc, λ h. cc (h x, or_left (x == x) (contains xs x) (==_refl x)))
    where
      or_left : (b c : Bool) → b ≡ true → (b || c) ≡ true
      or_left b c h = ground arith
