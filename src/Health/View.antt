-- ===== src/Health/View.antt =====
-- llm/health.py: each endpoint's part of the monitor is a machine of its own.
use factory_agent.Prelude.{
  ℕ, ◌+◌, ◌≡◌, ap, Bool, true, false, none, some, leb, if◌then◌else◌, contains, ◌==◌, nat_eq,
  list_eq, Text, get, put, remove, add, discard, get-put, get-remove, contains-add,
  contains-discard, arith, Bool-cases, inl, inr, list_beq_iff,
}
use factory_agent.Health.{Monitor, failures, Probe, answers, raises, probe_one}

-- What the monitor knows of one endpoint.
pub record View : Type 0 where
  pub failed : ℕ
  pub is_demoted : Bool
  pub is_error : Bool

abbrev pub view : Monitor → Text → View
view m endpoint = record {
  failed = failures m endpoint;
  is_demoted = contains m.demoted endpoint;
  is_error = contains m.probe_errors endpoint;
}

-- One verdict on one endpoint: success clears everything, failure counts up, marks an error of the
-- probe, and demotes from the threshold on.
abbrev pub view_step : ℕ → View → Probe → View
view_step limit v (answers true) = record { failed = 0; is_demoted = false; is_error = false }
view_step limit v (answers false) = record {
  failed = v.failed + 1;
  is_demoted = if v.is_demoted then true else leb limit (v.failed + 1);
  is_error = v.is_error;
}
view_step limit v raises = record {
  failed = v.failed + 1;
  is_demoted = if v.is_demoted then true else leb limit (v.failed + 1);
  is_error = true;
}

module _ (m : Monitor) (e f : Text) where
  -- The laws of the dict and the two sets at the keys that a verdict touches.
  abbrev Laws : ℕ → Type 0
  Laws count =
      (get f (remove e m.consecutive_failures)
        ≡ (if e == f then none else get f m.consecutive_failures))
      × (get f (put e count m.consecutive_failures)
          ≡ (if e == f then some count else get f m.consecutive_failures))
      × (contains (discard e m.demoted) f ≡ (if e == f then false else contains m.demoted f))
      × (contains (add e m.demoted) f ≡ (if e == f then true else contains m.demoted f))
      × (contains (discard e m.probe_errors) f
          ≡ (if e == f then false else contains m.probe_errors f))
      × (contains (add e m.probe_errors) f ≡ (if e == f then true else contains m.probe_errors f))

  laws : (count : ℕ) → Laws count
  laws count = (
    get-remove e f m.consecutive_failures,
    get-put e f count m.consecutive_failures,
    contains-discard e f m.demoted,
    contains-add e f m.demoted,
    contains-discard e f m.probe_errors,
    contains-add e f m.probe_errors,
  )

  -- A verdict moves the view of its endpoint by `view_step` and leaves every other view alone; the
  -- threshold stays.
  pub view-probe_one :
      (p : Probe)
      → (view (probe_one m e p) f
          ≡ (if e == f then view_step m.failures_to_demote (view m e) p else view m f))
        × ((probe_one m e p).failures_to_demote ≡ m.failures_to_demote)
  unfolding probe_one
  view-probe_one p = elim (Bool-cases (e == f)) [
    | inl same ↦
        let q : e ≡ f = (list_beq_iff e f).0 same in
        cases p same (ap (contains m.demoted) q) (ap (contains m.probe_errors) q)
          (ap (λ x. get x m.consecutive_failures) q)
    | inr other ↦ apart p other
  ]
    where
      apart :
          (p : Probe)
          → (e == f) ≡ false
          → (view (probe_one m e p) f
              ≡ (if e == f then view_step m.failures_to_demote (view m e) p else view m f))
            × ((probe_one m e p).failures_to_demote ≡ m.failures_to_demote)
      apart (answers true) o = ground (arith, laws 0)
      apart (answers false) o = ground (arith, laws (failures m e + 1))
      apart raises o = ground (arith, laws (failures m e + 1))

      cases :
          (p : Probe)
          → (e == f) ≡ true
          → contains m.demoted e ≡ contains m.demoted f
          → contains m.probe_errors e ≡ contains m.probe_errors f
          → get e m.consecutive_failures ≡ get f m.consecutive_failures
          → (view (probe_one m e p) f
              ≡ (if e == f then view_step m.failures_to_demote (view m e) p else view m f))
            × ((probe_one m e p).failures_to_demote ≡ m.failures_to_demote)
      cases (answers true) o d r g = ground (arith, laws 0)
      cases (answers false) o d r g = ground (arith, laws (failures m e + 1))
      cases raises o d r g = ground (arith, laws (failures m e + 1))
