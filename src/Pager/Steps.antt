-- ===== src/Pager/Steps.antt =====
-- pagination.py: the passes of the loop, each under the tests that lead to it.
use factory_agent.Prelude.{
  ℕ, ◌+◌, ◌≤◌, ◌<◌, ◌≡◌, ap, ◌∙◌, true, false, Option, none, some, List, [], ◌∷◌, ◌++◌, ltb, leb,
  length, is_empty, contains, Text, Result, ok, arith, list_eq, nat_eq,
}
use factory_agent.Pager.Types.{returned, again}
use factory_agent.Pager.{
  PagerBudget, Payload, Page, Loop, Pass, start, fingerprint, collect, first_page, later_page,
  answer, receive, turn, whole, publish, or_else,
}

module _ {Raw Item Footer E : Type 0} (validate : Raw → Option Item) (repr : Item → Text)
    (execute : (calls page size : ℕ) → Result E (Payload Raw Footer)) (budget : PagerBudget) where
  -- A new page that is not empty and keeps within the total completes it or goes on.
  pub collect-whole :
      (s : Loop Item Footer) (expected : ℕ) (page : List Item)
      → contains s.seen_pages (fingerprint validate repr execute budget page) ≡ false
      → expected ≤ budget.max_rows
      → length (s.items ++ page) ≡ expected
      → collect validate repr execute budget s expected page
        ≡ returned
            (whole s (s.items ++ page) expected)
            (publish s (s.items ++ page) (or_else expected expected))
  unfolding collect
  collect-whole s expected page new small done = ground arith

  pub collect-again :
      (s : Loop Item Footer) (expected : ℕ) (page : List Item)
      → is_empty page ≡ false
      → contains s.seen_pages (fingerprint validate repr execute budget page) ≡ false
      → expected ≤ budget.max_rows
      → length (s.items ++ page) < expected
      → collect validate repr execute budget s expected page
        ≡ again (record s {
          items = s.items ++ page;
          seen_pages = fingerprint validate repr execute budget page ∷ s.seen_pages;
          page_number = s.page_number + 1;
          progress = publish s (s.items ++ page) (or_else expected expected);
        })
  unfolding collect
  collect-again s expected page full new small less = ground arith

  pub first_page-whole :
      (s : Loop Item Footer) (total : ℕ) (page : List Item)
      → length page ≡ total
      → total ≤ budget.max_rows
      → first_page validate repr execute budget s total page
        ≡ returned (whole s (s.items ++ page) total) (publish s (s.items ++ page) total)
  unfolding first_page
  first_page-whole s total page e l = ground arith

  pub first_page-again :
      (s : Loop Item Footer) (total : ℕ) (page : List Item)
      → length page < total
      → total ≤ budget.max_rows
      → s.resized ≡ false
      → s.size < total
      → s.size < budget.page_size_ceiling
      → first_page validate repr execute budget s total page
        ≡ again (record s {
          items = [];
          seen_pages = [];
          expected_total = some total;
          page_number = 1;
          size = budget.page_size_ceiling;
          resized = true;
        })
  unfolding first_page
  first_page-again s total page e l f g u = ground arith

  pub first_page-collect :
      (s : Loop Item Footer) (total : ℕ) (page : List Item)
      → length page < total
      → total ≤ budget.max_rows
      → budget.page_size_ceiling ≤ s.size
      → first_page validate repr execute budget s total page
        ≡ collect validate repr execute budget (record s { expected_total = some total }) total page
  unfolding first_page
  first_page-collect s total page e l u = ground arith

  -- `accept` over the value of `expected_total`.
  abbrev pub pick : Loop Item Footer → Page Item Footer → Option ℕ → Pass Item Footer E
  pick s page o =
      let heard = record s {
        footer = elim page.footer [ none ↦ s.footer | some f ↦ some f ];
        calls = s.calls + 1;
      } in
      elim o [
        | none ↦ first_page validate repr execute budget heard page.total page.items
        | some expected ↦ later_page validate repr execute budget heard expected page
      ]

  -- A request within the budgets whose answer repeats the total is handed to `collect`.
  pub turn_cases :
      (s : Loop Item Footer) (expected : ℕ) (page : Page Item Footer)
      → s.page_number ≤ budget.max_pages
      → length s.items < budget.max_rows
      → s.expected_total ≡ some expected
      → page.total ≡ expected
      → receive validate repr execute budget (execute s.calls s.page_number s.size) ≡ ok page
      → turn validate repr execute budget s
        ≡ collect validate repr execute budget
            (record s {
              footer = elim page.footer [ none ↦ s.footer | some f ↦ some f ];
              calls = s.calls + 1;
            })
            expected
            page.items
  unfolding turn
  turn_cases s expected page p r e t got =
      rw (test_page, test_rows)
        (ap (answer validate repr execute budget s) got ∙ ap (pick s page) e ∙ ground arith)
    where
      test_page : ltb budget.max_pages s.page_number ≡ false
      test_page = ground arith

      test_rows : leb budget.max_rows (length s.items) ≡ false
      test_rows = ground arith

  pub turn_first :
      (page : Page Item Footer)
      → 0 < budget.max_pages
      → 0 < budget.max_rows
      → receive validate repr execute budget (execute 0 1 budget.page_size) ≡ ok page
      → turn validate repr execute budget (start budget) ≡ pick (start budget) page none
  unfolding turn
  turn_first page p r got =
      rw (test_page, test_rows) (ap (answer validate repr execute budget (start budget)) got)
    where
      test_page : ltb budget.max_pages 1 ≡ false
      test_page = ground arith

      test_rows : leb budget.max_rows 0 ≡ false
      test_rows = ground arith
