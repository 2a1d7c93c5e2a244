-- ===== src/Dag/Progress.antt =====
-- src/factory_agent/execution/dag.py: `_parallel_groups` ends, and finds waves for every recipe
-- whose dependencies can be ranked.
use factory_agent.Prelude.{
  ℕ, zero, suc, ◌+◌, ◌≤◌, ◌<◌, ◌≡◌, ◌≢◌, refl, ap, inl, inr, Bool, true, false, not, ◌&&◌, ◌||◌,
  List, [], ◌∷◌, ◌==◌, nat_eq, list_eq, list_beq_iff, ==_refl, contains, contains_of_all, all,
  select, length, is_empty, Text, Result, ok, err, ◌>>=◌, is_ok, arith, Bool-cases, and-eq-true,
  ltb,
}
use factory_agent.Dag.{
  Step, ids, put_step, by_id, without, with_done, is_ready, wave_of, PlanError, out_of_fuel, waves,
  parallel_groups,
}
use factory_agent.Dag.Waves.{
  contains-without, contains-with_done, contains-wave_of, is_empty-wave_of, all_of_select,
  contains-by_id,
}

length-select : (p : Step → Bool) (xs : List Step) → length (select p xs) ≤ length xs
length-select p [] = omega arith
length-select p (x ∷ xs) = ground (arith, length-select p xs)

length-deleted :
    (k : Text) (xs : List Step)
    → contains (ids xs) k ≡ true
    → length (select (λ t. not (t.step_id == k)) xs) < length xs
length-deleted k [] h = absurd (ground arith)
length-deleted k (x ∷ xs) h = elim (Bool-cases (x.step_id == k)) [
  | inl same ↦ ground (arith, same, length-select (λ t. not (t.step_id == k)) xs)
  | inr other ↦ ground (arith, other, length-deleted k xs (ground (arith, other, h)))
]

length-without : (wave xs : List Step) → length (without wave xs) ≤ length xs
unfolding without
length-without [] xs = omega arith
length-without (s ∷ wave) xs = omega (
  arith,
  length-without wave (select (λ t. not (t.step_id == s.step_id)) xs),
  length-select (λ t. not (t.step_id == s.step_id)) xs,
)

-- A wave that is not empty and stands in the list makes the list shorter.
length-without_wave :
    (wave xs : List Step)
    → is_empty wave ≡ false
    → ((i : Text) → contains (ids wave) i ≡ true → contains (ids xs) i ≡ true)
    → length (without wave xs) < length xs
unfolding without
length-without_wave [] xs h k = cc
length-without_wave (s ∷ wave) xs h k = omega (
  arith,
  length-without wave (select (λ t. not (t.step_id == s.step_id)) xs),
  length-deleted s.step_id xs (k s.step_id (ground (arith, ==_refl s.step_id))),
)

length-put_step : (s : Step) (xs : List Step) → length (put_step s xs) ≤ suc (length xs)
unfolding put_step
length-put_step s [] = omega arith
length-put_step s (t ∷ xs) = ground (arith, length-put_step s xs)

length-by_id :
    (remaining steps : List Step) → length (by_id remaining steps) ≤ length remaining + length steps
unfolding by_id
length-by_id remaining [] = omega arith
length-by_id remaining (s ∷ steps) =
    omega (arith, length-by_id (put_step s remaining) steps, length-put_step s remaining)

-- What remains after the wave of the ready steps needs less fuel.
length-next :
    (p : Step → Bool) (xs : List Step) (fuel : ℕ)
    → is_empty (select p xs) ≡ false
    → length xs ≤ suc fuel
    → length (without (wave_of (select p xs)) xs) ≤ fuel
length-next p xs fuel h k = omega (
  arith,
  length-without_wave (wave_of (select p xs)) xs (is_empty-wave_of (select p xs) h)
      (contains-wave_of p xs),
)

>>=-out_of_fuel :
    {A B : Type 0} (first : Result PlanError A) (next : A → B)
    → (first >>= λ a. ok (next a)) ≡ err out_of_fuel
    → first ≡ err out_of_fuel
>>=-out_of_fuel (err e) next h = cc
>>=-out_of_fuel (ok a) next h = cc

waves-fuel :
    (fuel : ℕ) (remaining : List Step) (done : List Text)
    → length remaining ≤ fuel
    → waves fuel remaining done ≢ err out_of_fuel
unfolding waves
waves-fuel fuel [] done k h = cc
waves-fuel zero (s ∷ steps) done k h = absurd (omega arith)
waves-fuel (suc fuel) (s ∷ steps) done k h =
    elim (Bool-cases (is_empty (select (is_ready done) (s ∷ steps)))) [
      | inl stuck ↦ let bad = (rw stuck at h) in cc
      | inr some_ready ↦
          let wave = wave_of (select (is_ready done) (s ∷ steps)) in
          waves-fuel fuel (without wave (s ∷ steps)) (with_done wave done)
            (length-next (is_ready done) (s ∷ steps) fuel some_ready k)
            (>>=-out_of_fuel (waves fuel (without wave (s ∷ steps)) (with_done wave done))
              (λ rest. wave ∷ rest) (rw some_ready at h))
    ]

-- Every dependency of a step is one of the known names, and ranks below the step.
abbrev pub is_ranked : (Text → ℕ) → (Text → Bool) → Step → Bool
is_ranked rank known s = all (λ d. known d && ltb (rank d) (rank s.step_id)) s.depends_on

module _ {A : Type 0} where
  all_mono :
      (p q : A → Bool) (xs : List A)
      → ((x : A) → p x ≡ true → q x ≡ true)
      → all p xs ≡ true
      → all q xs ≡ true
  all_mono p q [] f h = refl
  all_mono p q (x ∷ xs) f h =
      let (hx, hxs) = (and-eq-true (p x) (all p xs)).0 h in
      (and-eq-true (q x) (all q xs)).1 (f x hx, all_mono p q xs f hxs)

all-eq-false :
    (p : Text → Bool) (xs : List Text)
    → all p xs ≡ false
    → (x : Text) × (contains xs x ≡ true) × (p x ≡ false)
all-eq-false p [] h = cc
all-eq-false p (x ∷ xs) h = elim (Bool-cases (p x)) [
  | inl holds ↦
      let (y, m, k) = all-eq-false p xs (ground (arith, holds, h)) in (y, ground (arith, m), k)
  | inr fails ↦ (x, ground (arith, ==_refl x), fails)
]

-- The step of a name, with what holds of every step; when a test takes it, some step is taken.
find_step :
    (p q : Step → Bool) (xs : List Step) (i : Text)
    → contains (ids xs) i ≡ true
    → all q xs ≡ true
    → (s : Step) × (s.step_id ≡ i) × (q s ≡ true) × (p s ≡ true → is_empty (select p xs) ≡ false)
find_step p q [] i m h = cc
find_step p q (x ∷ xs) i m h =
    let (hx, hxs) = (and-eq-true (q x) (all q xs)).0 h in
    elim (Bool-cases (x.step_id == i)) [
      | inl same ↦ (x, (list_beq_iff x.step_id i).0 same, hx, λ k. ground (arith, k))
      | inr other ↦
          let (s, e, k, f) = find_step p q xs i (rw other at m) hxs in
          (s, e, k, λ t. ground (arith, f t))
    ]

-- Among ranked steps some step is ready.
ready-exists :
    (rank : Text → ℕ) (remaining : List Step) (done : List Text) (n : ℕ) (i : Text)
    → all (is_ranked rank (λ d. contains done d || contains (ids remaining) d)) remaining ≡ true
    → contains (ids remaining) i ≡ true
    → rank i < n
    → is_empty (select (is_ready done) remaining) ≡ false
ready-exists rank remaining done zero i h m k = absurd (omega arith)
ready-exists rank remaining done (suc n) i h m k =
    let known : Text → Bool = λ d. contains done d || contains (ids remaining) d in
    let (s, e, r, f) = find_step (is_ready done) (is_ranked rank known) remaining i m h in
    elim (Bool-cases (is_ready done s)) [
      | inl now ↦ f now
      | inr later ↦
          let (d, md, nd) = all-eq-false (contains done) s.depends_on later in
          let below =
            contains_of_all (λ x. known x && ltb (rank x) (rank s.step_id)) s.depends_on d r md in
          let lower : rank d < rank s.step_id = ground (arith, below) in
          let same : rank s.step_id ≡ rank i = ap rank e in
          ready-exists rank remaining done n d h (ground (arith, below, nd)) (omega arith)
    ]

all-without :
    (q : Step → Bool) (wave xs : List Step) → all q xs ≡ true → all q (without wave xs) ≡ true
unfolding without
all-without q [] xs h = h
all-without q (s ∷ wave) xs h =
    all-without q wave (select (λ t. not (t.step_id == s.step_id)) xs)
      (all_of_select (λ t. not (t.step_id == s.step_id)) q xs h)

-- After a wave, a dependency is done or remains.
ranked-without :
    (rank : Text → ℕ) (wave remaining : List Step) (done : List Text)
    → all (is_ranked rank (λ d. contains done d || contains (ids remaining) d)) remaining ≡ true
    → all
        (is_ranked rank
          (λ d. contains (with_done wave done) d || contains (ids (without wave remaining)) d))
        (without wave remaining)
      ≡ true
ranked-without rank wave remaining done h =
    all_mono _ _ (without wave remaining)
      (λ s. all_mono _ _ s.depends_on (λ d k.
        ground (arith, k, contains-with_done wave done d, contains-without wave remaining d)))
      (all-without (is_ranked rank (λ d. contains done d || contains (ids remaining) d)) wave
        remaining h)

is_ok->>= :
    {A B : Type 0} (first : Result PlanError A) (next : A → B)
    → is_ok first ≡ true
    → is_ok (first >>= λ a. ok (next a)) ≡ true
is_ok->>= (ok a) next h = refl
is_ok->>= (err e) next h = cc

waves-ranked :
    (rank : Text → ℕ) (fuel : ℕ) (remaining : List Step) (done : List Text)
    → length remaining ≤ fuel
    → all (is_ranked rank (λ d. contains done d || contains (ids remaining) d)) remaining ≡ true
    → is_ok (waves fuel remaining done) ≡ true
unfolding waves
waves-ranked rank fuel [] done k h = refl
waves-ranked rank zero (s ∷ steps) done k h = absurd (omega arith)
waves-ranked rank (suc fuel) (s ∷ steps) done k h =
    let wave = wave_of (select (is_ready done) (s ∷ steps)) in
    let some_ready =
      ready-exists rank (s ∷ steps) done (suc (rank s.step_id)) s.step_id h
        (ground (arith, ==_refl s.step_id)) (omega arith) in
    rw some_ready (
      is_ok->>= (waves fuel (without wave (s ∷ steps)) (with_done wave done)) (λ rest. wave ∷ rest)
        (waves-ranked rank fuel (without wave (s ∷ steps)) (with_done wave done)
          (length-next (is_ready done) (s ∷ steps) fuel some_ready k)
          (ranked-without rank wave (s ∷ steps) done h)))

all-put_step :
    (q : Step → Bool) (s : Step) (xs : List Step)
    → q s ≡ true
    → all q xs ≡ true
    → all q (put_step s xs) ≡ true
unfolding put_step
all-put_step q s [] k h = ground (arith, k)
all-put_step q s (t ∷ xs) k h =
    let (ht, hxs) = (and-eq-true (q t) (all q xs)).0 h in
    ground (arith, k, ht, hxs, all-put_step q s xs k hxs)

all-by_id :
    (q : Step → Bool) (remaining steps : List Step)
    → all q remaining ≡ true
    → all q steps ≡ true
    → all q (by_id remaining steps) ≡ true
unfolding by_id
all-by_id q remaining [] h k = h
all-by_id q remaining (s ∷ steps) h k =
    let (ks, kss) = (and-eq-true (q s) (all q steps)).0 k in
    all-by_id q (put_step s remaining) steps (all-put_step q s remaining ks h) kss

some_ok : {A : Type 0} (r : Result PlanError A) → is_ok r ≡ true → (a : A) × (r ≡ ok a)
some_ok (ok a) h = (a, refl)
some_ok (err e) h = cc

-- For any steps the search for waves ends within its fuel, the number of the steps.
pub parallel_groups-Ends : (steps : List Step) → parallel_groups steps ≢ err out_of_fuel
unfolding parallel_groups
parallel_groups-Ends steps =
    waves-fuel (length steps) (by_id [] steps) [] (omega (arith, length-by_id [] steps))

-- When every dependency of a step is the name of a step and ranks below the step, for some ranking
-- of the names, the steps are put into waves and no cycle is reported.
pub parallel_groups-ranked :
    (rank : Text → ℕ) (steps : List Step)
    → all (is_ranked rank (contains (ids steps))) steps ≡ true
    → (ws : List (List Step)) × (parallel_groups steps ≡ ok ws)
unfolding parallel_groups
parallel_groups-ranked rank steps h = some_ok (waves (length steps) (by_id [] steps) []) (
    waves-ranked rank (length steps) (by_id [] steps) [] (omega (arith, length-by_id [] steps)) (
      all_mono _ _ (by_id [] steps)
        (λ s. all_mono _ _ s.depends_on (λ d k. ground (arith, k, contains-by_id [] steps d)))
        (all-by_id (is_ranked rank (contains (ids steps))) [] steps refl h)))
