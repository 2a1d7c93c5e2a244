-- ===== src/Health/Streaks.antt =====
-- llm/health.py: which endpoints are demoted after any sequence of verdicts, and what was logged.
use factory_agent.Prelude.{
  ℕ, suc, ◌+◌, ◌≡◌, refl, sym, ap, ◌∙◌, subst, Bool, true, false, ◌&&◌, List, [], ◌∷◌, ◌++◌, leb,
  ltb, if◌then◌else◌, contains, ◌==◌, nat_eq, list_eq, Text, get, put, contains-add,
  contains-discard, arith, Bool-cases, inl, inr, list_beq_iff,
}
use factory_agent.Registry.{ModelRegistry}
use factory_agent.Health.{
  Monitor, LogLine, endpoint_restored, probe_error, endpoint_demoted, fresh, failures,
  record_healthy, note_error, demote, record_unhealthy, Probe, answers, raises, probe_one,
  probe_all,
}
use factory_agent.Health.View.{View, view, view_step, view-probe_one}

-- The verdicts on one endpoint, in order.
abbrev pub verdicts_on : Text → List (Text × Probe) → List Probe
verdicts_on e [] = []
verdicts_on e ((f, p) ∷ ps) = if f == e then p ∷ verdicts_on e ps else verdicts_on e ps

abbrev pub view_steps : ℕ → View → List Probe → View
view_steps limit v [] = v
view_steps limit v (p ∷ ps) = view_steps limit (view_step limit v p) ps

-- The view of an endpoint after a sequence of verdicts depends on the verdicts on that endpoint
-- alone: it is what its own machine makes of them, however they were interleaved with others.
pub view-probe_all :
    (m : Monitor) (ps : List (Text × Probe)) (e : Text)
    → view (probe_all m ps) e ≡ view_steps m.failures_to_demote (view m e) (verdicts_on e ps)
unfolding probe_all
view-probe_all m [] e = refl
view-probe_all m ((f, p) ∷ ps) e =
    let (moved, kept) = view-probe_one m f e p in
    view-probe_all (probe_one m f p) ps e ∙ elim (Bool-cases (f == e)) [
      | inl same ↦ rw (kept, moved, same) (let q : f ≡ e = (list_beq_iff f e).0 same in rw q refl)
      | inr other ↦ rw (kept, moved, other)
    ]

-- The failures since the last success, after `n` before the list.
abbrev pub streak_from : ℕ → List Probe → ℕ
streak_from n [] = n
streak_from n (answers true ∷ ps) = streak_from 0 ps
streak_from n (answers false ∷ ps) = streak_from (n + 1) ps
streak_from n (raises ∷ ps) = streak_from (n + 1) ps

abbrev IsStreak : ℕ → ℕ → View → Type 0
IsStreak limit n v = (v.failed ≡ n) × (v.is_demoted ≡ (ltb 0 n && leb limit n))

view_steps-IsStreak :
    (limit n : ℕ) (v : View) (ps : List Probe)
    → IsStreak limit n v
    → IsStreak limit (streak_from n ps) (view_steps limit v ps)
view_steps-IsStreak limit n v [] h = h
view_steps-IsStreak limit n v (answers true ∷ ps) h =
    view_steps-IsStreak limit 0 (view_step limit v (answers true)) ps (refl, refl)
view_steps-IsStreak limit n v (answers false ∷ ps) h =
    view_steps-IsStreak limit (n + 1) (view_step limit v (answers false)) ps (ground arith)
view_steps-IsStreak limit n v (raises ∷ ps) h =
    view_steps-IsStreak limit (n + 1) (view_step limit v raises) ps (ground arith)

-- After any sequence of verdicts an endpoint is demoted exactly when its failures since its last
-- success are at least one and reach the threshold, and that number is what the monitor counts.
pub probe_all-streak :
    (r : ModelRegistry) (limit : ℕ) (ps : List (Text × Probe)) (e : Text)
    → (failures (probe_all (fresh r limit) ps) e ≡ streak_from 0 (verdicts_on e ps))
      × (contains (probe_all (fresh r limit) ps).demoted e ≡ (
          ltb 0 (streak_from 0 (verdicts_on e ps)) && leb limit (streak_from 0 (verdicts_on e ps))))
unfolding failures get
probe_all-streak r limit ps e =
    subst (IsStreak limit (streak_from 0 (verdicts_on e ps)))
      (sym (view-probe_all (fresh r limit) ps e))
      (view_steps-IsStreak limit 0 (view (fresh r limit) e) (verdicts_on e ps) (refl, refl))

-- How often the log says of an endpoint that it was demoted, and that it was restored.
abbrev pub demotions : Text → List LogLine → ℕ
demotions e [] = 0
demotions e (endpoint_demoted f n ∷ l) = if f == e then suc (demotions e l) else demotions e l
demotions e (endpoint_restored f n ∷ l) = demotions e l
demotions e (probe_error f n ∷ l) = demotions e l

abbrev pub restorations : Text → List LogLine → ℕ
restorations e [] = 0
restorations e (endpoint_restored f n ∷ l) =
    if f == e then suc (restorations e l) else restorations e l
restorations e (endpoint_demoted f n ∷ l) = restorations e l
restorations e (probe_error f n ∷ l) = restorations e l

demotions-append :
    (e : Text) (l k : List LogLine) → demotions e (l ++ k) ≡ demotions e l + demotions e k
demotions-append e [] k = omega arith
demotions-append e (endpoint_demoted f n ∷ l) k = ground (arith, demotions-append e l k)
demotions-append e (endpoint_restored f n ∷ l) k = demotions-append e l k
demotions-append e (probe_error f n ∷ l) k = demotions-append e l k

restorations-append :
    (e : Text) (l k : List LogLine) → restorations e (l ++ k) ≡ restorations e l + restorations e k
restorations-append e [] k = omega arith
restorations-append e (endpoint_restored f n ∷ l) k = ground (arith, restorations-append e l k)
restorations-append e (endpoint_demoted f n ∷ l) k = restorations-append e l k
restorations-append e (probe_error f n ∷ l) k = restorations-append e l k

abbrev IsLogged : Text → Monitor → Type 0
IsLogged e m = demotions e m.log ≡ restorations e m.log + (if contains m.demoted e then 1 else 0)

-- The members of a set at two texts that may be equal.
same_member : (s : List Text) (f e : Text) → (f == e) ≡ true → contains s f ≡ contains s e
same_member s f e h = ap (contains s) ((list_beq_iff f e).0 h)

demote-IsLogged :
    (e f : Text) (m : Monitor) (count : ℕ) → IsLogged e m → IsLogged e (demote m f count)
unfolding demote
demote-IsLogged e f m count h = elim (Bool-cases (f == e)) [
  | inl same ↦ ground (
    arith,
    same,
    same_member m.demoted f e same,
    contains-add f e m.demoted,
    demotions-append e m.log (endpoint_demoted f count ∷ []),
    restorations-append e m.log (endpoint_demoted f count ∷ []),
  )
  | inr other ↦ ground (
    arith,
    other,
    contains-add f e m.demoted,
    demotions-append e m.log (endpoint_demoted f count ∷ []),
    restorations-append e m.log (endpoint_demoted f count ∷ []),
  )
]

note_error-IsLogged :
    (e f : Text) (m : Monitor) (count : ℕ) (raised : Bool)
    → IsLogged e m
    → IsLogged e (note_error m f count raised)
unfolding note_error
note_error-IsLogged e f m count raised h = ground (
  arith,
  demotions-append e m.log (probe_error f count ∷ []),
  restorations-append e m.log (probe_error f count ∷ []),
)

record_healthy-IsLogged :
    (e f : Text) (m : Monitor) → IsLogged e m → IsLogged e (record_healthy m f)
unfolding record_healthy
record_healthy-IsLogged e f m h = elim (Bool-cases (f == e)) [
  | inl same ↦ ground (
    arith,
    same,
    same_member m.demoted f e same,
    contains-discard f e m.demoted,
    demotions-append e m.log (endpoint_restored f (failures m f) ∷ []),
    restorations-append e m.log (endpoint_restored f (failures m f) ∷ []),
  )
  | inr other ↦ ground (
    arith,
    other,
    contains-discard f e m.demoted,
    demotions-append e m.log (endpoint_restored f (failures m f) ∷ []),
    restorations-append e m.log (endpoint_restored f (failures m f) ∷ []),
  )
]

record_unhealthy-IsLogged :
    (e f : Text) (m : Monitor) (raised : Bool)
    → IsLogged e m
    → IsLogged e (record_unhealthy m f raised)
unfolding record_unhealthy
record_unhealthy-IsLogged e f m raised h =
    let count = failures m f + 1 in
    let counted = record m { consecutive_failures = put f count m.consecutive_failures } in
    demote-IsLogged e f (note_error counted f count raised) count
      (note_error-IsLogged e f counted count raised h)

probe_one-IsLogged :
    (e f : Text) (m : Monitor) (p : Probe) → IsLogged e m → IsLogged e (probe_one m f p)
unfolding probe_one
probe_one-IsLogged e f m (answers true) h = record_healthy-IsLogged e f m h
probe_one-IsLogged e f m (answers false) h = record_unhealthy-IsLogged e f m false h
probe_one-IsLogged e f m raises h = record_unhealthy-IsLogged e f m true h

probe_all-IsLogged :
    (e : Text) (m : Monitor) (ps : List (Text × Probe)) → IsLogged e m → IsLogged e (probe_all m ps)
unfolding probe_all
probe_all-IsLogged e m [] h = h
probe_all-IsLogged e m ((f, p) ∷ ps) h =
    probe_all-IsLogged e (probe_one m f p) ps (probe_one-IsLogged e f m p h)

-- After any sequence of verdicts the log has, for each endpoint, as many demotions as restorations
-- while it is not demoted, and one more while it is: a verdict that repeats writes no such line.
pub probe_all-log :
    (r : ModelRegistry) (limit : ℕ) (ps : List (Text × Probe)) (e : Text)
    → demotions e (probe_all (fresh r limit) ps).log
      ≡ restorations e (probe_all (fresh r limit) ps).log
        + (if contains (probe_all (fresh r limit) ps).demoted e then 1 else 0)
probe_all-log r limit ps e = probe_all-IsLogged e (fresh r limit) ps (omega arith)
