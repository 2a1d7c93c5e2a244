-- ===== src/Pager.antt =====
-- src/factory_agent/data_api/pagination.py: `BoundedPager.fetch_all`, which walks `page`/`size`
-- until the envelope proves that every row was fetched. The adapter (its answer may depend on how
-- many requests came before), the row model's validation and `repr` are parameters.
pub mod Types
pub mod Bounds
pub mod Steps
pub mod Honest
mod Examples
use factory_agent.Prelude.{
  ℕ, zero, suc, ◌+◌, ◌-◌, min, Bool, true, false, not, ◌&&◌, Option, none, some, List, [], ◌∷◌,
  ◌++◌, map, ltb, leb, nat_beq, if◌then◌else◌, length, take, is_empty, nat_eq, list_eq, contains,
  Text, sorted, Result, ok, err, ◌>>=◌,
}
pub use Types.{
  PagerBudget, Reason, ℤ, Payload, PagerError, Page, PagedResult, Progress, Loop, Pass, Fetched,
  start, default_budget,
}
use Types.{
  page_budget_exhausted, row_budget_exhausted, row_overflow, total_drift, duplicate_page,
  missing_pages, pos, negsuc, envelope_invalid, total_negative, row_invalid, adapter_failed,
  returned, raised, again, result, failure, out_of_fuel,
}

-- `or` on a number: zero gives way.
abbrev pub or_else : ℕ → ℕ → ℕ
or_else zero d = d
or_else (suc n) d = suc n

-- `expected_total or len(items)`
abbrev pub known_total : {Item Footer : Type 0} → Loop Item Footer → ℕ
known_total s = elim s.expected_total [
  | none ↦ length s.items
  | some t ↦ or_else t (length s.items)
]

module _ {Item Footer : Type 0} where
  -- A result that is not complete.
  abbrev pub partial : Loop Item Footer → List Item → ℕ → ℕ → Reason → PagedResult Item Footer
  partial s items total pages why = record {
    items = items;
    total = total;
    pages_fetched = pages;
    complete = false;
    reason = some why;
    footer = s.footer;
  }

  abbrev pub whole : Loop Item Footer → List Item → ℕ → PagedResult Item Footer
  whole s items total = record {
    items = items;
    total = total;
    pages_fetched = s.page_number;
    complete = true;
    reason = none;
    footer = s.footer;
  }

  abbrev pub publish : Loop Item Footer → List Item → ℕ → List Progress
  publish s items total =
      s.progress ++ record { page = s.page_number; rows = length items; total = total } ∷ []

-- `item_model.model_validate` on each row; one bad row fails the page.
unfoldable pub validate_rows :
    {Raw Item : Type 0} → (Raw → Option Item) → List Raw → Option (List Item)
validate_rows validate [] = some []
validate_rows validate (r ∷ rs) = elim (validate r) [
  | none ↦ none
  | some x ↦ elim (validate_rows validate rs) [ none ↦ none | some xs ↦ some (x ∷ xs) ]
]

module _ {Raw Item Footer E : Type 0} (validate : Raw → Option Item) (repr : Item → Text)
    (execute : (calls page size : ℕ) → Result E (Payload Raw Footer)) (budget : PagerBudget) where
  -- The envelope's keys, then the sign of `total`, then the rows.
  unfoldable pub check_rows :
      Option Footer → ℕ → Option (List Item) → Result (PagerError E) (Page Item Footer)
  check_rows footer total none = err row_invalid
  check_rows footer total (some items) =
      ok (record { footer = footer; items = items; total = total })

  unfoldable pub check_payload : Payload Raw Footer → Result (PagerError E) (Page Item Footer)
  unfolding check_rows
  check_payload p = elim p.raw_items [
    | none ↦ err envelope_invalid
    | some raw ↦ elim p.total [
      | none ↦ err envelope_invalid
      | some (negsuc n) ↦ err total_negative
      | some (pos n) ↦ check_rows p.footer n (validate_rows validate raw)
    ]
  ]

  unfoldable pub receive : Result E (Payload Raw Footer) → Result (PagerError E) (Page Item Footer)
  unfolding check_payload
  receive (err e) = err (adapter_failed e)
  receive (ok p) = check_payload p

  -- `PageFingerprint.of`
  unfoldable pub fingerprint : List Item → List Text
  fingerprint items = sorted (map repr items)

  -- The tests behind the first answer and behind every later one, from the fingerprint on.
  unfoldable pub collect : Loop Item Footer → ℕ → List Item → Pass Item Footer E
  unfolding fingerprint
  collect s expected page =
      if not (is_empty page) && contains s.seen_pages (fingerprint page)
      then returned (partial s s.items expected s.page_number duplicate_page) s.progress
      else (let items = s.items ++ page in
          let told = publish s items (or_else expected expected) in
          if ltb expected (length items)
          then returned
              (partial s (take (min expected budget.max_rows) items) expected s.page_number
                row_overflow)
              told
          else if ltb budget.max_rows (length items)
          then returned
              (partial s (take budget.max_rows items) expected s.page_number row_budget_exhausted)
              told
          else if nat_beq (length items) expected
          then returned (whole s items expected) told
          else if is_empty page
          then returned (partial s items expected s.page_number missing_pages) told
          else again (record s {
            items = items;
            seen_pages = fingerprint page ∷ s.seen_pages;
            page_number = s.page_number + 1;
            progress = told;
          }))

  -- `expected_total is None`: the first answer fixes the total, and may restart the walk once with
  -- the larger page size.
  unfoldable pub first_page : Loop Item Footer → ℕ → List Item → Pass Item Footer E
  unfolding collect
  first_page s total page =
      if ltb total (length page)
      then returned
          (partial s (take (min total budget.max_rows) page) total s.page_number row_overflow)
          s.progress
      else if ltb budget.max_rows (length page)
      then returned (partial s (take budget.max_rows page) total s.page_number row_budget_exhausted)
          s.progress
      else if nat_beq (length page) total
      then returned (whole s (s.items ++ page) total) (publish s (s.items ++ page) total)
      else if not s.resized && (ltb s.size total && ltb s.size budget.page_size_ceiling)
      then again (record s {
        items = [];
        seen_pages = [];
        expected_total = some total;
        page_number = 1;
        size = budget.page_size_ceiling;
        resized = true;
      })
      else collect (record s { expected_total = some total }) total page

  -- A later answer has to repeat the total.
  unfoldable pub later_page : Loop Item Footer → ℕ → Page Item Footer → Pass Item Footer E
  unfolding collect
  later_page s expected page =
      if nat_beq expected page.total
      then collect s expected page.items
      else returned (partial s s.items page.total s.page_number total_drift) s.progress

  unfoldable pub accept : Loop Item Footer → Page Item Footer → Pass Item Footer E
  unfolding first_page later_page
  accept s page =
      let heard = record s {
        footer = elim page.footer [ none ↦ s.footer | some f ↦ some f ];
        calls = s.calls + 1;
      } in
      elim s.expected_total [
        | none ↦ first_page heard page.total page.items
        | some expected ↦ later_page heard expected page
      ]

  unfoldable pub answer :
      Loop Item Footer → Result (PagerError E) (Page Item Footer) → Pass Item Footer E
  unfolding accept
  answer s (err e) = raised e
  answer s (ok page) = accept s page

  -- The body of `while True`.
  unfoldable pub turn : Loop Item Footer → Pass Item Footer E
  unfolding answer receive
  turn s =
      if ltb budget.max_pages s.page_number
      then returned (partial s s.items (known_total s) (s.page_number - 1) page_budget_exhausted)
          s.progress
      else if leb budget.max_rows (length s.items)
      then returned
          (partial s (take budget.max_rows s.items) (known_total s) (s.page_number - 1)
            row_budget_exhausted)
          s.progress
      else answer s (receive (execute s.calls s.page_number s.size))

  unfoldable pub loop : ℕ → Loop Item Footer → Fetched Item Footer E
  unfolding turn
  loop zero s = out_of_fuel
  loop (suc fuel) s = elim (turn s) [
    | returned r told ↦ result r told
    | raised e ↦ failure e
    | again s' ↦ loop fuel s'
  ]

  -- Two passes more than there are pages: one for the restart, one for the page budget's refusal.
  unfoldable pub fetch_all : Fetched Item Footer E
  unfolding loop
  fetch_all = loop (budget.max_pages + 2) (start budget)
