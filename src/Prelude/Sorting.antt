-- ===== src/Prelude/Sorting.antt =====
-- `sorted` on texts keeps the members.
use mathlib.Core.Path.{◌≡◌, refl, ◌∙◌, ap}
use mathlib.Core.Logic.{inl, inr}
use mathlib.Core.Bool.{Bool, ◌||◌}
use mathlib.Core.List.{List, [], ◌∷◌}
use native.Mathlib.Omega.{arith}
use factory_agent.Prelude.Tests.{Bool-cases}
use factory_agent.Prelude.Equality.{◌==◌, nat_eq, list_eq}
use factory_agent.Prelude.Sets.{contains}
use factory_agent.Prelude.Texts.{Text, text_le, insert_sorted, sorted}

contains-insert_sorted :
    (s : Text) (r : List Text) (a : Text)
    → contains (insert_sorted s r) a ≡ (s == a || contains r a)
unfolding insert_sorted
contains-insert_sorted s [] a = refl
contains-insert_sorted s (t ∷ r) a = elim (Bool-cases (text_le s t)) [
  | inl le ↦ rw le refl
  | inr gt ↦ rw (gt, contains-insert_sorted s r a) (swap (t == a) (s == a) (contains r a))
]
  where
    swap : (b c d : Bool) → (b || (c || d)) ≡ (c || (b || d))
    swap b c d = ground arith

pub contains-sorted : (r : List Text) (a : Text) → contains (sorted r) a ≡ contains r a
unfolding sorted
contains-sorted [] a = refl
contains-sorted (s ∷ r) a =
    contains-insert_sorted s (sorted r) a ∙ ap (λ b. s == a || b) (contains-sorted r a)
