-- ===== src/Dag/Waves.antt =====
-- src/factory_agent/execution/dag.py: what the waves hold. Every wave is ready when it starts, and
-- together the waves hold the recipe's steps.
use factory_agent.Prelude.{
  ℕ, zero, suc, ◌≡◌, refl, sym, ap, subst, ◌∙◌, inl, inr, Bool, true, false, not, ◌&&◌, ◌||◌, List,
  [], ◌∷◌, ◌++◌, ◌==◌, nat_eq, list_eq, list_beq_iff, ==_refl, contains, all, select, take, length,
  is_empty, Text, add, contains-add, ok, >>=-eq-ok, ok-injective, arith, Bool-cases, and-eq-true,
}
use factory_agent.Dag.{
  Step, ids, put_step, by_id, without, with_done, is_ready, is_grouped, wave_of, waves,
  parallel_groups,
}

abbrev pub concat : List (List Step) → List Step
concat [] = []
concat (w ∷ ws) = w ++ concat ws

-- Each wave has steps, none of which is done, and all that they depend on is done.
abbrev pub AreOrdered : List Text → List (List Step) → Type 0
AreOrdered done [] = Unit
AreOrdered done (w ∷ ws) =
    (is_empty w ≡ false)
    × (all (λ s. is_ready done s && not (contains done s.step_id)) w ≡ true)
    × AreOrdered (with_done w done) ws

pub contains-without :
    (wave remaining : List Step) (i : Text)
    → contains (ids (without wave remaining)) i
      ≡ (contains (ids remaining) i && not (contains (ids wave) i))
unfolding without
contains-without [] remaining i = ground arith
contains-without (s ∷ wave) remaining i = ground (
  arith,
  contains-without wave (select (λ t. not (t.step_id == s.step_id)) remaining) i,
  deleted s.step_id remaining i,
)
  where
    deleted :
        (k : Text) (steps : List Step) (i : Text)
        → contains (ids (select (λ t. not (t.step_id == k)) steps)) i
          ≡ (contains (ids steps) i && not (k == i))
    deleted k [] i = refl
    deleted k (t ∷ steps) i = elim (Bool-cases (t.step_id == k)) [
      | inl same ↦
          ground
            (arith, same, ap (λ x. x == i) ((list_beq_iff t.step_id k).0 same), deleted k steps i)
      | inr other ↦ elim (Bool-cases (k == i)) [
        | inl here ↦ ground (
          arith,
          other,
          here,
          deleted k steps i,
          ap (λ x. t.step_id == x) ((list_beq_iff k i).0 here),
        )
        | inr there ↦ ground (arith, other, there, deleted k steps i)
      ]
    ]

pub contains-with_done :
    (wave : List Step) (done : List Text) (i : Text)
    → contains (with_done wave done) i ≡ (contains (ids wave) i || contains done i)
unfolding with_done
contains-with_done [] done i = refl
contains-with_done (s ∷ wave) done i =
    ground (arith, contains-with_done wave (add s.step_id done) i, contains-add s.step_id i done)

contains-put_step :
    (s : Step) (steps : List Step) (i : Text)
    → contains (ids (put_step s steps)) i ≡ (s.step_id == i || contains (ids steps) i)
unfolding put_step
contains-put_step s [] i = refl
contains-put_step s (t ∷ steps) i = elim (Bool-cases (t.step_id == s.step_id)) [
  | inl same ↦ ground (arith, same, ap (λ x. x == i) ((list_beq_iff t.step_id s.step_id).0 same))
  | inr other ↦ ground (arith, other, contains-put_step s steps i)
]

pub contains-by_id :
    (remaining steps : List Step) (i : Text)
    → contains (ids (by_id remaining steps)) i
      ≡ (contains (ids remaining) i || contains (ids steps) i)
unfolding by_id
contains-by_id remaining [] i = ground arith
contains-by_id remaining (s ∷ steps) i =
    ground (arith, contains-by_id (put_step s remaining) steps i, contains-put_step s remaining i)

contains-append :
    (xs ys : List Step) (i : Text)
    → contains (ids (xs ++ ys)) i ≡ (contains (ids xs) i || contains (ids ys) i)
contains-append [] ys i = refl
contains-append (x ∷ xs) ys i = ground (arith, contains-append xs ys i)

all-select :
    (p r : Step → Bool) (xs : List Step)
    → all r xs ≡ true
    → all (λ s. p s && r s) (select p xs) ≡ true
all-select p r [] h = refl
all-select p r (x ∷ xs) h =
    let (hx, hxs) = (and-eq-true (r x) (all r xs)).0 h in
    elim (Bool-cases (p x)) [
      | inl taken ↦ ground (arith, taken, hx, all-select p r xs hxs)
      | inr left ↦ ground (arith, left, all-select p r xs hxs)
    ]

pub all_of_select :
    (p q : Step → Bool) (xs : List Step) → all q xs ≡ true → all q (select p xs) ≡ true
all_of_select p q [] h = refl
all_of_select p q (x ∷ xs) h =
    let (hx, hxs) = (and-eq-true (q x) (all q xs)).0 h in
    elim (Bool-cases (p x)) [
      | inl taken ↦ ground (arith, taken, hx, all_of_select p q xs hxs)
      | inr left ↦ ground (arith, left, all_of_select p q xs hxs)
    ]

all_of_take : (q : Step → Bool) (xs : List Step) → all q xs ≡ true → all q (take 1 xs) ≡ true
all_of_take q [] h = refl
all_of_take q (x ∷ xs) h = ground (arith, h)

-- What holds of the ready steps holds of the wave.
all-wave_of :
    (q : Step → Bool) (ready : List Step) → all q ready ≡ true → all q (wave_of ready) ≡ true
unfolding wave_of
all-wave_of q ready h = elim (Bool-cases (is_empty (select is_grouped ready))) [
  | inl none_grouped ↦ rw none_grouped (
      all_of_take q (select (λ s. not (is_grouped s)) ready)
        (all_of_select (λ s. not (is_grouped s)) q ready h))
  | inr grouped ↦ rw grouped (all_of_select is_grouped q ready h)
]

-- A list has a first step that a test takes, or one that it leaves.
select-split :
    (p : Step → Bool) (xs : List Step)
    → is_empty xs ≡ false
    → is_empty (select p xs) ≡ true
    → is_empty (take 1 (select (λ s. not (p s)) xs)) ≡ false
select-split p [] h e = cc
select-split p (x ∷ xs) h e = elim (Bool-cases (p x)) [
  | inl taken ↦ ground (arith, taken, e)
  | inr left ↦ ground (arith, left)
]

pub is_empty-wave_of :
    (ready : List Step) → is_empty ready ≡ false → is_empty (wave_of ready) ≡ false
unfolding wave_of
is_empty-wave_of ready h = elim (Bool-cases (is_empty (select is_grouped ready))) [
  | inl none_grouped ↦ rw none_grouped (select-split is_grouped ready h none_grouped)
  | inr grouped ↦ rw grouped grouped
]

-- Steps that all stand in a list under their names.
all_contained : (xs : List Step) → all (λ s. contains (ids xs) s.step_id) xs ≡ true
all_contained xs = go xs xs (λ i h. h)
  where
    go :
        (xs ys : List Step)
        → ((i : Text) → contains (ids ys) i ≡ true → contains (ids xs) i ≡ true)
        → all (λ s. contains (ids xs) s.step_id) ys ≡ true
    go xs [] h = refl
    go xs (y ∷ ys) h =
        (and-eq-true _ _).1 (
          h y.step_id (ground (arith, ==_refl y.step_id)),
          go xs ys (λ i k. h i (ground (arith, k))),
        )

contains_of_all-ids :
    (p : Text → Bool) (xs : List Step) (i : Text)
    → all (λ s. p s.step_id) xs ≡ true
    → contains (ids xs) i ≡ true
    → p i ≡ true
contains_of_all-ids p [] i h m = cc
contains_of_all-ids p (x ∷ xs) i h m =
    let (hx, hxs) = (and-eq-true (p x.step_id) (all (λ s. p s.step_id) xs)).0 h in
    elim (Bool-cases (x.step_id == i)) [
      | inl same ↦ ap p (sym ((list_beq_iff x.step_id i).0 same)) ∙ hx
      | inr other ↦ contains_of_all-ids p xs i hxs (rw other at m)
    ]

-- The wave is taken from the remaining steps.
pub contains-wave_of :
    (p : Step → Bool) (remaining : List Step) (i : Text)
    → contains (ids (wave_of (select p remaining))) i ≡ true
    → contains (ids remaining) i ≡ true
contains-wave_of p remaining i h =
    contains_of_all-ids (contains (ids remaining)) (wave_of (select p remaining)) i
      (all-wave_of (λ s. contains (ids remaining) s.step_id) (select p remaining)
        (all_of_select p (λ s. contains (ids remaining) s.step_id) remaining
          (all_contained remaining)))
      h

-- No remaining step is done.
abbrev pub IsFresh : List Step → List Text → Type 0
IsFresh remaining done = (i : Text) → contains (ids remaining) i ≡ true → contains done i ≡ false

all_fresh :
    (done : List Text) (xs : List Step)
    → IsFresh xs done
    → all (λ s. not (contains done s.step_id)) xs ≡ true
all_fresh done [] h = refl
all_fresh done (x ∷ xs) h = (and-eq-true _ _).1 (
  ground (arith, h x.step_id (ground (arith, ==_refl x.step_id))),
  all_fresh done xs (λ i k. h i (ground (arith, k))),
)

IsFresh-without :
    (wave remaining : List Step) (done : List Text)
    → IsFresh remaining done
    → IsFresh (without wave remaining) (with_done wave done)
IsFresh-without wave remaining done h i m =
    let (here, apart) =
      (and-eq-true (contains (ids remaining) i) (not (contains (ids wave) i))).0
        (sym (contains-without wave remaining i) ∙ m) in
    ground (arith, contains-with_done wave done i, h i here, apart)

abbrev Holds : List Step → List Text → List (List Step) → Type 0
Holds remaining done ws =
    AreOrdered done ws × ((i : Text) → contains (ids (concat ws)) i ≡ contains (ids remaining) i)

step-Holds :
    (remaining : List Step) (done : List Text) (ws : List (List Step))
    → IsFresh remaining done
    → is_empty (select (is_ready done) remaining) ≡ false
    → Holds
        (without (wave_of (select (is_ready done) remaining)) remaining)
        (with_done (wave_of (select (is_ready done) remaining)) done)
        ws
    → Holds remaining done (wave_of (select (is_ready done) remaining) ∷ ws)
step-Holds remaining done ws fresh some_ready (ordered, same) =
    let wave = wave_of (select (is_ready done) remaining) in
    (
      (
        is_empty-wave_of (select (is_ready done) remaining) some_ready,
        all-wave_of (λ s. is_ready done s && not (contains done s.step_id))
            (select (is_ready done) remaining)
            (all-select (is_ready done) (λ s. not (contains done s.step_id)) remaining
              (all_fresh done remaining fresh)),
        ordered,
      ),
      λ i.
          contains-append wave (concat ws) i
          ∙ ap (λ b. contains (ids wave) i || b) (same i ∙ contains-without wave remaining i)
          ∙ or_and_not (contains (ids wave) i) (contains (ids remaining) i)
              (contains-wave_of (is_ready done) remaining i),
    )
  where
    or_and_not : (a b : Bool) → (a ≡ true → b ≡ true) → (a || b && not a) ≡ b
    or_and_not true b h = sym (h refl)
    or_and_not false b h = ground arith

waves-Holds :
    (fuel : ℕ) (remaining : List Step) (done : List Text) (ws : List (List Step))
    → IsFresh remaining done
    → waves fuel remaining done ≡ ok ws
    → Holds remaining done ws
unfolding waves
waves-Holds fuel [] done ws fresh h =
    let e : [] ≡ ws = ok-injective h in subst (Holds [] done) e (tt, λ i. refl)
waves-Holds zero (s ∷ steps) done ws fresh h = cc
waves-Holds (suc fuel) (s ∷ steps) done ws fresh h =
    elim (Bool-cases (is_empty (select (is_ready done) (s ∷ steps)))) [
      | inl stuck ↦ let bad = (rw stuck at h) in cc
      | inr some_ready ↦
          let wave = wave_of (select (is_ready done) (s ∷ steps)) in
          let (rest, later, e) =
            >>=-eq-ok (waves fuel (without wave (s ∷ steps)) (with_done wave done))
              (λ rest. ok (wave ∷ rest)) (rw some_ready at h) in
          subst (Holds (s ∷ steps) done) (ok-injective e) (
            step-Holds (s ∷ steps) done rest fresh some_ready (
              waves-Holds fuel (without wave (s ∷ steps)) (with_done wave done) rest
                (IsFresh-without wave (s ∷ steps) done fresh) later))
    ]

-- When the steps of a recipe are put into waves, every wave has a step, whatever a wave's step
-- depends on is in an earlier wave, no step of an earlier wave comes back, and the waves together
-- have exactly the names of the recipe's steps.
pub parallel_groups-AreOrdered :
    (steps : List Step) (ws : List (List Step))
    → parallel_groups steps ≡ ok ws
    → AreOrdered [] ws × ((i : Text) → contains (ids (concat ws)) i ≡ contains (ids steps) i)
unfolding parallel_groups
parallel_groups-AreOrdered steps ws h =
    let (ordered, same) = waves-Holds (length steps) (by_id [] steps) [] ws (λ i m. refl) h in
    (ordered, λ i. same i ∙ contains-by_id [] steps i ∙ ground arith)
