-- ===== src/Pager/Bounds.antt =====
-- pagination.py: the loop ends, within its page and row budgets, and says truly whether it is
-- complete.
use factory_agent.Prelude.{
  ℕ, zero, suc, ◌+◌, ◌-◌, ◌≤◌, ◌<◌, min, ◌≡◌, refl, true, false, Option, none, some, List, [], ◌++◌,
  length, length-take, length-append, Text, Result, ok, err, arith, list_eq, nat_eq,
}
use factory_agent.Pager.Types.{returned, raised, again, result, failure, out_of_fuel}
use factory_agent.Pager.{
  PagerBudget, Reason, Payload, PagerError, Page, PagedResult, Loop, Pass, Fetched, start, collect,
  first_page, later_page, accept, answer, receive, turn, loop, fetch_all,
}

-- What every result keeps to: the budgets, and `complete` with no reason exactly when the rows
-- number the total, else a reason.
pub record IsSound {Item Footer : Type 0} (budget : PagerBudget) (r : PagedResult Item Footer)
    : Type 0 where
  pub within_rows : length r.items ≤ budget.max_rows
  pub within_pages : r.pages_fetched ≤ budget.max_pages
  pub complete_total : r.complete ≡ true → length r.items ≡ r.total
  pub complete_reason : r.complete ≡ true → r.reason ≡ none
  pub partial_reason : r.complete ≡ false → (why : Reason) × (r.reason ≡ some why)

abbrev pub bonus : Option ℕ → ℕ
bonus none = 1
bonus (some t) = 0

module _ {Raw Item Footer E : Type 0} (validate : Raw → Option Item) (repr : Item → Text)
    (execute : (calls page size : ℕ) → Result E (Payload Raw Footer)) (budget : PagerBudget) where
  -- The passes that a state of the loop can still take.
  abbrev pub left : Loop Item Footer → ℕ
  left s = budget.max_pages + 2 - s.page_number + bonus s.expected_total

  -- Held at the head of the loop.
  pub record Inv (s : Loop Item Footer) : Type 0 where
    pub rows : length s.items ≤ budget.max_rows
    pub first : 1 ≤ s.page_number
    pub last : s.page_number ≤ budget.max_pages + 1
    pub fresh : s.expected_total ≡ none → (s.items ≡ []) × (s.page_number ≡ 1)

  -- An error comes from a request within the page budget, or from its answer.
  abbrev pub IsUpstream : PagerError E → Type 0
  IsUpstream e =
      (calls page size : ℕ) × (receive validate repr execute budget (execute calls page size)
        ≡ err e)
      × (page ≤ budget.max_pages)

  abbrev pub Ensures : ℕ → Pass Item Footer E → Type 0
  Ensures n (returned r told) = IsSound budget r
  Ensures n (raised e) = IsUpstream e
  Ensures n (again s) = Inv s × (left s < n)

  abbrev pub Ends : Fetched Item Footer E → Type 0
  Ends (result r told) = IsSound budget r
  Ends (failure e) = IsUpstream e
  Ends out_of_fuel = ⊥

  collect-Ensures :
      (s : Loop Item Footer) (n expected : ℕ) (page : List Item)
      → Inv s
      → s.page_number ≤ budget.max_pages
      → s.expected_total ≡ some expected
      → budget.max_pages + 2 - s.page_number ≤ n
      → Ensures n (collect validate repr execute budget s expected page)
  unfolding collect
  collect-Ensures s n expected page inv h k l = ground (
    arith,
    length-take (min expected budget.max_rows) (s.items ++ page),
    length-take budget.max_rows (s.items ++ page),
  )

  first_page-Ensures :
      (s : Loop Item Footer) (n total : ℕ) (page : List Item)
      → Inv s
      → s.page_number ≤ budget.max_pages
      → s.items ≡ []
      → budget.max_pages + 2 - s.page_number < n
      → budget.max_pages + 1 < n
      → Ensures n (first_page validate repr execute budget s total page)
  unfolding first_page
  first_page-Ensures s n total page inv h e l l' = ground (
    arith,
    length-take (min total budget.max_rows) page,
    length-take budget.max_rows page,
    length-append s.items page,
    collect-Ensures (record s { expected_total = some total }) n total page,
  )

  later_page-Ensures :
      (s : Loop Item Footer) (n expected : ℕ) (page : Page Item Footer)
      → Inv s
      → s.page_number ≤ budget.max_pages
      → s.expected_total ≡ some expected
      → budget.max_pages + 2 - s.page_number ≤ n
      → Ensures n (later_page validate repr execute budget s expected page)
  unfolding later_page
  later_page-Ensures s n expected page inv h k l =
      ground (arith, collect-Ensures s n expected page.items)

  accept-Ensures :
      (s : Loop Item Footer) (page : Page Item Footer)
      → Inv s
      → s.page_number ≤ budget.max_pages
      → Ensures (left s) (accept validate repr execute budget s page)
  unfolding accept
  accept-Ensures s page inv h = go s.expected_total refl
    where
      heard : Loop Item Footer
      heard = record s {
        footer = elim page.footer [ none ↦ s.footer | some f ↦ some f ];
        calls = s.calls + 1;
      }

      go :
          (o : Option ℕ)
          → s.expected_total ≡ o
          → Ensures (left s) (elim o [
            | none ↦ first_page validate repr execute budget heard page.total page.items
            | some expected ↦ later_page validate repr execute budget heard expected page
          ])
      go none e =
          first_page-Ensures heard (left s) page.total page.items
            (record { rows = inv.rows; first = inv.first; last = inv.last; fresh = inv.fresh }) h
            (inv.fresh e).0 (rw e (omega arith)) (rw e (omega (arith, (inv.fresh e).1)))
      go (some t) e =
          later_page-Ensures heard (left s) t page
            (record { rows = inv.rows; first = inv.first; last = inv.last; fresh = inv.fresh }) h e
            (omega arith)

  answer-Ensures :
      (s : Loop Item Footer) (got : Result (PagerError E) (Page Item Footer))
      → receive validate repr execute budget (execute s.calls s.page_number s.size) ≡ got
      → Inv s
      → s.page_number ≤ budget.max_pages
      → Ensures (left s) (answer validate repr execute budget s got)
  unfolding answer
  answer-Ensures s (err e) g inv h = (s.calls, s.page_number, s.size, g, h)
  answer-Ensures s (ok page) g inv h = accept-Ensures s page inv h

  turn-Ensures :
      (s : Loop Item Footer) → Inv s → Ensures (left s) (turn validate repr execute budget s)
  unfolding turn
  turn-Ensures s inv = ground (
    arith,
    length-take budget.max_rows s.items,
    answer-Ensures s (receive validate repr execute budget (execute s.calls s.page_number s.size))
        refl,
  )

  -- The pass `p` of a state with at most `fuel + 1` passes left, then the rest of the loop.
  after-Ends :
      (fuel n : ℕ) (p : Pass Item Footer E)
      → n ≤ suc fuel
      → ((s : Loop Item Footer)
          → Inv s
          → left s ≤ fuel
          → Ends (loop validate repr execute budget fuel s))
      → Ensures n p
      → Ends (elim p [
        | returned r told ↦ result r told
        | raised e ↦ failure e
        | again s' ↦ loop validate repr execute budget fuel s'
      ])
  after-Ends fuel n (returned r told) h rest e = e
  after-Ends fuel n (raised e') h rest e = e
  after-Ends fuel n (again s) h rest e = rest s e.0 (omega arith)

  loop-Ends :
      (fuel : ℕ) (s : Loop Item Footer)
      → Inv s
      → left s ≤ fuel
      → Ends (loop validate repr execute budget fuel s)
  unfolding loop
  loop-Ends zero s inv h = absurd (let l = inv.last in omega arith)
  loop-Ends (suc fuel) s inv h =
      after-Ends fuel (left s) (turn validate repr execute budget s) h
        (λ s' inv' h'. loop-Ends fuel s' inv' h') (turn-Ensures s inv)

  -- `fetch_all` always ends within `max_pages + 2` passes. A result holds at most `max_rows` rows
  -- from at most `max_pages` pages; it is marked complete only when its rows number the total that
  -- it states, with no reason, and otherwise gives a reason. An error is the adapter's own or that
  -- of an invalid answer to a request within the page budget.
  pub fetch_all-Ends : Ends (fetch_all validate repr execute budget)
  unfolding fetch_all
  fetch_all-Ends =
      loop-Ends (budget.max_pages + 2) (start budget)
        (record {
          rows = omega arith;
          first = omega arith;
          last = omega arith;
          fresh = λ _. (refl, refl);
        })
        (omega arith)
