-- ===== src/Prelude/Equality.antt =====
-- Python's `==` as an interface: a Boolean test that decides equality.
use Prim.Native.Nat.{ℕ}
use mathlib.Core.Path.{◌≡◌, refl, sym, ap, ap₂, ◌∙◌}
use mathlib.Core.Logic.{◌↔◌, ◌≢◌, inl, inr}
use mathlib.Core.Bool.{Bool, true, false, ◌&&◌}
use mathlib.Core.List.{List, [], ◌∷◌}
use factory_agent.Prelude.Tests.{nat_beq, nat_beq_iff, and-eq-true, Bool-cases}

infix 50 ◌==◌
pub record Eq {ℓ} (Key : Type ℓ) : Type ℓ where
  pub same : (x y : Key) → Bool
  pub same_iff : (x y : Key) → (same x y ≡ true) ↔ (x ≡ y)

abbrev pub ◌==◌ {ℓ} : {Key : Type ℓ} ⦃keys : Eq Key⦄ (x y : Key) → Bool
◌==◌ ⦃keys⦄ x y = keys.same x y

pub ==_refl {ℓ} : {A : Type ℓ} ⦃e : Eq A⦄ (a : A) → (a == a) ≡ true
==_refl ⦃e⦄ a = (e.same_iff a a).1 refl

pub ==_of_ne {ℓ} : {A : Type ℓ} ⦃e : Eq A⦄ (a b : A) → a ≢ b → (a == b) ≡ false
==_of_ne ⦃e⦄ a b h = elim (Bool-cases (a == b)) [
  | inl same ↦ absurd (h ((e.same_iff a b).0 same))
  | inr other ↦ other
]

instance abbrev pub nat_eq : Eq ℕ
nat_eq = record { same = nat_beq; same_iff = nat_beq_iff }

abbrev pub list_beq {ℓ} : {A : Type ℓ} ⦃e : Eq A⦄ → List A → List A → Bool
list_beq [] [] = true
list_beq [] (y ∷ ys) = false
list_beq (x ∷ xs) [] = false
list_beq (x ∷ xs) (y ∷ ys) = x == y && list_beq xs ys

list_beq→eq {ℓ} : {A : Type ℓ} ⦃e : Eq A⦄ (xs ys : List A) → list_beq xs ys ≡ true → xs ≡ ys
list_beq→eq [] [] h = refl
list_beq→eq [] (y ∷ ys) h = cc
list_beq→eq (x ∷ xs) [] h = cc
list_beq→eq ⦃e⦄ (x ∷ xs) (y ∷ ys) h =
    let (hx, hxs) = (and-eq-true (x == y) (list_beq xs ys)).0 h in
    ap₂ (λ a r. a ∷ r) ((e.same_iff x y).0 hx) (list_beq→eq xs ys hxs)

list_beq_refl {ℓ} : {A : Type ℓ} ⦃e : Eq A⦄ (xs : List A) → list_beq xs xs ≡ true
list_beq_refl [] = refl
list_beq_refl (x ∷ xs) = (and-eq-true (x == x) (list_beq xs xs)).1 (==_refl x, list_beq_refl xs)

pub list_beq_iff {ℓ} :
    {A : Type ℓ} ⦃e : Eq A⦄ (xs ys : List A) → (list_beq xs ys ≡ true) ↔ (xs ≡ ys)
list_beq_iff xs ys = (list_beq→eq xs ys, λ p. ap (list_beq xs) (sym p) ∙ list_beq_refl xs)

instance abbrev pub list_eq {ℓ} : {A : Type ℓ} ⦃e : Eq A⦄ → Eq (List A)
list_eq = record { same = list_beq; same_iff = list_beq_iff }

-- An enumeration is compared through a numbering that has a left inverse.
pub beq_of_index_iff {ℓ} :
    {A : Type ℓ} (index : A → ℕ) (back : ℕ → A)
    → ((a : A) → back (index a) ≡ a)
    → (a b : A) → (nat_beq (index a) (index b) ≡ true) ↔ (a ≡ b)
beq_of_index_iff index back inv a b = (
  λ h. sym (inv a) ∙ ap back ((nat_beq_iff (index a) (index b)).0 h) ∙ inv b,
  λ p. (nat_beq_iff (index a) (index b)).1 (ap index p),
)

abbrev pub pair_beq {ℓ} : {A B : Type ℓ} ⦃d : Eq A⦄ ⦃e : Eq B⦄ → A × B → A × B → Bool
pair_beq (a, b) (a', b') = a == a' && b == b'

pub pair_beq_iff {ℓ} :
    {A B : Type ℓ} ⦃d : Eq A⦄ ⦃e : Eq B⦄ (x y : A × B) → (pair_beq x y ≡ true) ↔ (x ≡ y)
pair_beq_iff ⦃d⦄ ⦃e⦄ (a, b) (a', b') = (
  λ h.
      let (ha, hb) = (and-eq-true (a == a') (b == b')).0 h in
      ap₂ (λ x y. (x, y)) ((d.same_iff a a').0 ha) ((e.same_iff b b').0 hb),
  λ p.
      (and-eq-true (a == a') (b == b')).1
        ((d.same_iff a a').1 (ap (λ x. x.0) p), (e.same_iff b b').1 (ap (λ x. x.1) p)),
)

instance abbrev pub pair_eq {ℓ} : {A B : Type ℓ} ⦃d : Eq A⦄ ⦃e : Eq B⦄ → Eq (A × B)
pair_eq = record { same = pair_beq; same_iff = pair_beq_iff }
