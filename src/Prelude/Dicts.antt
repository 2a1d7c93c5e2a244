-- ===== src/Prelude/Dicts.antt =====
-- Python's `dict` as an association list with one entry for a key, in order of insertion.
use mathlib.Core.Path.{◌≡◌, refl, sym, ap, subst, ◌∙◌}
use mathlib.Core.Logic.{inl, inr}
use mathlib.Core.Bool.{true, false}
use mathlib.Core.Option.{Option, none, some}
use mathlib.Core.List.{List, [], ◌∷◌}
use native.Mathlib.Omega.{arith}
use factory_agent.Prelude.Tests.{if◌then◌else◌, Bool-cases}
use factory_agent.Prelude.Equality.{Eq, ◌==◌, ==_refl}
use factory_agent.Prelude.Lists.{select}
use factory_agent.Prelude.Sets.{contains, contains-select}

module _ {ℓ} {K V : Type ℓ} ⦃e : Eq K⦄ where
  -- d.get(k)
  unfoldable pub get : K → List (K × V) → Option V
  get k [] = none
  get k ((j, v) ∷ d) = if j == k then some v else get k d

  -- d[k] = v
  unfoldable pub put : K → V → List (K × V) → List (K × V)
  put k v [] = (k, v) ∷ []
  put k v ((j, w) ∷ d) = if j == k then (j, v) ∷ d else (j, w) ∷ put k v d

  -- d.pop(k, None): every entry of the key goes, of which there is at most one.
  unfoldable pub remove : K → List (K × V) → List (K × V)
  remove k [] = []
  remove k ((j, v) ∷ d) = if j == k then remove k d else (j, v) ∷ remove k d

  pub get-put :
      (k j : K) (v : V) (d : List (K × V))
      → get j (put k v d) ≡ (if k == j then some v else get j d)
  unfolding get put
  get-put k j v [] = refl
  get-put k j v ((i, w) ∷ d) = elim (Bool-cases (i == k)) [
    | inl same ↦ ground (arith, same, ap (λ x. x == j) ((e.same_iff i k).0 same))
    | inr other ↦ elim (Bool-cases (k == j)) [
      | inl here ↦
          ground
            (arith, other, here, get-put k j v d, sym (ap (λ x. i == x) ((e.same_iff k j).0 here)))
      | inr there ↦ ground (arith, other, there, get-put k j v d)
    ]
  ]

  -- What holds of the entries of a dict and of one more entry holds of them all.
  pub get-put-eq-some :
      (P : K → V → Type ℓ) (k : K) (v : V) (d : List (K × V))
      → P k v
      → ((j : K) (w : V) → get j d ≡ some w → P j w)
      → (j : K) (w : V) → get j (put k v d) ≡ some w
      → P j w
  get-put-eq-some P k v d h hs j w found =
      let found_there : (if k == j then some v else get j d) ≡ some w =
        sym (get-put k j v d) ∙ found in
      elim (Bool-cases (k == j)) [
        | inl here ↦
            let is_v : ◌≡◌ {A = Option V} (some v) (some w) = rw here at found_there in
            let same : v ≡ w = cc in
            subst (λ x. P x w) ((e.same_iff k j).0 here) (subst (P k) same h)
        | inr there ↦ hs j w (rw there at found_there)
      ]

  pub get-remove :
      (k j : K) (d : List (K × V)) → get j (remove k d) ≡ (if k == j then none else get j d)
  unfolding get remove
  get-remove k j [] = ground arith
  get-remove k j ((i, w) ∷ d) = elim (Bool-cases (i == k)) [
    | inl same ↦ ground (arith, same, ap (λ x. x == j) ((e.same_iff i k).0 same), get-remove k j d)
    | inr other ↦ elim (Bool-cases (k == j)) [
      | inl here ↦
          ground
            (arith, other, here, get-remove k j d, sym (ap (λ x. i == x) ((e.same_iff k j).0 here)))
      | inr there ↦ ground (arith, other, there, get-remove k j d)
    ]
  ]

module _ {ℓ} {K : Type ℓ} ⦃e : Eq K⦄ where
  -- s.add(k)
  unfoldable pub add : K → List K → List K
  add k s = if contains s k then s else k ∷ s

  -- s.discard(k)
  unfoldable pub discard : K → List K → List K
  discard k s = select (λ j. if j == k then false else true) s

  pub contains-add :
      (k j : K) (s : List K) → contains (add k s) j ≡ (if k == j then true else contains s j)
  unfolding add
  contains-add k j s = elim (Bool-cases (k == j)) [
    | inl here ↦ ground (arith, here, ap (contains s) ((e.same_iff k j).0 here))
    | inr there ↦ ground (arith, there)
  ]

  pub contains-discard :
      (k j : K) (s : List K) → contains (discard k s) j ≡ (if k == j then false else contains s j)
  unfolding discard
  contains-discard k j s = elim (Bool-cases (k == j)) [
    | inl here ↦
        contains-select (λ i. if i == k then false else true) s j
        ∙ ground (arith, here, ap (λ x. x == k) ((e.same_iff k j).0 here), ==_refl k)
    | inr there ↦
        contains-select (λ i. if i == k then false else true) s j ∙ elim (Bool-cases (j == k)) [
          | inl back ↦ ground (arith, there, ap (λ x. x == j) ((e.same_iff j k).0 back), ==_refl j)
          | inr apart ↦ ground (arith, there, apart)
        ]
  ]
