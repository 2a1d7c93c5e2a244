-- ===== src/Pager/Honest.antt =====
-- pagination.py: against a source that serves one fixed list of rows, the pager returns that list.
use factory_agent.Prelude.{
  ℕ, zero, suc, ◌+◌, ◌-◌, ◌*◌, ◌≤◌, ◌<◌, ◌≢◌, min, ◌≡◌, refl, sym, ap, ap₂, ◌∙◌, true, false, ◌&&◌,
  Option, none, some, List, [], ◌∷◌, ◌++◌, ltb, if◌then◌else◌, length, take, drop, take-all,
  take-add, length-take, length-drop, is_empty, contains, Text, Result, ok, arith, list_eq, nat_eq,
  ==_of_ne,
}
use native.Mathlib.Decide.{dec_lt}
use factory_agent.Pager.Types.{returned, raised, again, result, failure, out_of_fuel}
use factory_agent.Pager.{
  PagerBudget, Payload, Page, PagedResult, Loop, Pass, Fetched, start, fingerprint, collect,
  first_page, receive, turn, loop, fetch_all,
}
use factory_agent.Pager.Steps.{
  collect-whole, collect-again, first_page-whole, first_page-again, first_page-collect, turn_cases,
  turn_first,
}

module _ {Raw Item Footer E : Type 0} (validate : Raw → Option Item) (repr : Item → Text)
    (execute : (calls page size : ℕ) → Result E (Payload Raw Footer)) (budget : PagerBudget)
    (rows : List Item) where
  -- Page `k + 1` of the rows, at `size` rows to a page.
  abbrev pub slice : ℕ → ℕ → List Item
  slice size k = take size (drop (k * size) rows)

  -- The size at which the walk is made: the ceiling, where the first page shows that there is more
  -- than it holds and the ceiling is larger.
  abbrev pub walk_size : ℕ
  walk_size =
      if ltb budget.page_size (length rows) && ltb budget.page_size budget.page_size_ceiling
      then budget.page_size_ceiling
      else budget.page_size

  -- The source answers every request with its page of `rows` and with their number, the rows fit
  -- the budgets at the size of the walk, and no two of its pages have one fingerprint.
  pub record IsHonest : Type 0 where
    pub footer : Option Footer
    pub serves :
        (calls page size : ℕ)
        → 1 ≤ page
        → receive validate repr execute budget (execute calls page size)
          ≡ ok (record { footer = footer; items = slice size (page - 1); total = length rows })
    pub page_size_pos : 0 < budget.page_size
    pub max_rows_pos : 0 < budget.max_rows
    pub rows_fit : length rows ≤ budget.max_rows
    pub pages_fit : length rows ≤ budget.max_pages * walk_size
    pub max_pages_pos : 0 < budget.max_pages
    pub distinct :
        (i j : ℕ)
        → i < j
        → j * walk_size < length rows
        → fingerprint validate repr execute budget (slice walk_size i)
          ≢ fingerprint validate repr execute budget (slice walk_size j)

  -- The fetch returned all rows, marked complete.
  abbrev pub IsAll : Fetched Item Footer E → Type 0
  IsAll (result r told) =
      (r.items ≡ rows) × (r.complete ≡ true) × (r.reason ≡ none) × (r.total ≡ length rows)
  IsAll (failure e) = ⊥
  IsAll out_of_fuel = ⊥

  -- The fingerprints of the first `k` pages, the last one first.
  abbrev seen : ℕ → List (List Text)
  seen zero = []
  seen (suc k) = fingerprint validate repr execute budget (slice walk_size k) ∷ seen k

  below :
      (k pages size n : ℕ) {page : ℕ}
      → k * size < n
      → n ≤ pages * size
      → page ≡ k + 1
      → page ≤ pages
  below k pages size n l m e = grind arith

  module _ (h : IsHonest) where
    walk_size_pos : 0 < walk_size
    walk_size_pos = let p = h.page_size_pos in ground arith

    not-seen :
        (k j : ℕ)
        → k ≤ j
        → j * walk_size < length rows
        → contains (seen k) (fingerprint validate repr execute budget (slice walk_size j)) ≡ false
    not-seen zero j l r = refl
    not-seen (suc k) j l r =
        rw
          (==_of_ne (fingerprint validate repr execute budget (slice walk_size k))
            (fingerprint validate repr execute budget (slice walk_size j))
            (h.distinct k j (omega arith) r))
          (not-seen k j (omega arith) r)

    -- At the head of the loop, `k` pages in.
    record At (k : ℕ) (s : Loop Item Footer) : Type 0 where
      items : s.items ≡ take (k * walk_size) rows
      seen_pages : s.seen_pages ≡ seen k
      expected : s.expected_total ≡ some (length rows)
      page : s.page_number ≡ k + 1
      size : s.size ≡ walk_size
      more : k * walk_size < length rows

    abbrev IsWhole : PagedResult Item Footer → Type 0
    IsWhole r = (r.items ≡ rows) × (r.complete ≡ true) × (r.reason ≡ none) × (r.total ≡ length rows)

    abbrev Continues : ℕ → Pass Item Footer E → Type 0
    Continues k (returned r told) = IsWhole r
    Continues k (raised e) = ⊥
    Continues k (again s) = At (suc k) s

    -- One more page.
    grown : (k : ℕ) → take (k * walk_size) rows ++ slice walk_size k ≡ take (suc k * walk_size) rows
    grown k =
        let e : suc k * walk_size ≡ k * walk_size + walk_size = grind arith in
        sym (ap (λ n. take n rows) e ∙ take-add (k * walk_size) walk_size rows)

    slice-pos : (k : ℕ) → k * walk_size < length rows → is_empty (slice walk_size k) ≡ false
    slice-pos k l = nonempty (slice walk_size k) (
        let p = walk_size_pos in
        omega (
          arith,
          length-take walk_size (drop (k * walk_size) rows),
          length-drop (k * walk_size) rows,
        ))
      where
        nonempty : (xs : List Item) → 0 < length xs → is_empty xs ≡ false
        nonempty [] p = absurd (omega arith)
        nonempty (x ∷ xs) p = refl

    collect-At :
        (k : ℕ) (s : Loop Item Footer)
        → At k s
        → Continues k (collect validate repr execute budget s (length rows) (slice walk_size k))
    collect-At k s a = elim (dec_lt (length (s.items ++ slice walk_size k)) (length rows)) [
      | yes less ↦
          rw
            (collect-again validate repr execute budget s (length rows) (slice walk_size k)
              (slice-pos k a.more) new h.rows_fit less)
            (record {
              items = joined;
              seen_pages =
                  ap (λ l. fingerprint validate repr execute budget (slice walk_size k) ∷ l)
                    a.seen_pages;
              expected = a.expected;
              page = omega (arith, a.page);
              size = a.size;
              more = omega (arith, measured);
            })
      | no full ↦
          rw
            (collect-whole validate repr execute budget s (length rows) (slice walk_size k) new
              h.rows_fit (omega (arith, measured)))
            (joined ∙ take-all (suc k * walk_size) rows (omega (arith, measured)), refl, refl, refl)
    ]
      where
        joined : s.items ++ slice walk_size k ≡ take (suc k * walk_size) rows
        joined = ap (λ l. l ++ slice walk_size k) a.items ∙ grown k

        measured : length (s.items ++ slice walk_size k) ≡ min (suc k * walk_size) (length rows)
        measured = ap length joined ∙ length-take (suc k * walk_size) rows

        new :
            contains s.seen_pages (fingerprint validate repr execute budget (slice walk_size k))
            ≡ false
        new = rw a.seen_pages (not-seen k k (omega arith) a.more)

    turn-At :
        (k : ℕ) (s : Loop Item Footer) → At k s → Continues k (turn validate repr execute budget s)
    turn-At k s a =
        rw
          (turn_cases validate repr execute budget s (length rows) served page_le rows_lt a.expected
            refl answered)
          (collect-At k (record s { footer = heard_footer; calls = s.calls + 1 })
            (record {
              items = a.items;
              seen_pages = a.seen_pages;
              expected = a.expected;
              page = a.page;
              size = a.size;
              more = a.more;
            }))
      where
        served : Page Item Footer
        served = record { footer = h.footer; items = slice walk_size k; total = length rows }

        heard_footer : Option Footer
        heard_footer = elim h.footer [ none ↦ s.footer | some f ↦ some f ]

        page_le : s.page_number ≤ budget.max_pages
        page_le = below k budget.max_pages walk_size (length rows) a.more h.pages_fit a.page

        rows_lt : length s.items < budget.max_rows
        rows_lt =
            let m = h.rows_fit in
            omega (arith, ap length a.items, length-take (k * walk_size) rows, a.more)

        answered :
            receive validate repr execute budget (execute s.calls s.page_number s.size) ≡ ok served
        answered =
            h.serves s.calls s.page_number s.size (omega (arith, a.page))
            ∙ ap (λ l. ok (record { footer = h.footer; items = l; total = length rows }))
                (ap₂ slice a.size (let e : s.page_number - 1 ≡ k = omega (arith, a.page) in e))

    after-At :
        (k fuel : ℕ) (p : Pass Item Footer E)
        → Continues k p
        → ((s : Loop Item Footer) → At (suc k) s → IsAll (loop validate repr execute budget fuel s))
        → IsAll (elim p [
          | returned r told ↦ result r told
          | raised e ↦ failure e
          | again s' ↦ loop validate repr execute budget fuel s'
        ])
    after-At k fuel (returned r told) c rest = c
    after-At k fuel (raised e) c rest = c
    after-At k fuel (again s) c rest = rest s c

    loop-At :
        (fuel k : ℕ) (s : Loop Item Footer)
        → At k s
        → length rows ≤ (k + fuel) * walk_size
        → IsAll (loop validate repr execute budget fuel s)
    unfolding loop
    loop-At zero k s a l = absurd (let m = a.more in grind arith)
    loop-At (suc fuel) k s a l =
        after-At k fuel (turn validate repr execute budget s) (turn-At k s a) (λ s' a'.
          loop-At fuel (suc k) s' a'
            (let e : k + suc fuel ≡ suc k + fuel = omega arith in rw e at l))

    -- The state at the first answer.
    abbrev heard : Loop Item Footer
    heard = record (start budget) {
      footer = elim h.footer [ none ↦ none | some f ↦ some f ];
      calls = 1;
    }

    nothing : [] ≡ take (0 * walk_size) rows
    nothing = let e : 0 * walk_size ≡ 0 = omega arith in rw e refl

    grown_size :
        budget.page_size < length rows
        → budget.page_size < budget.page_size_ceiling
        → budget.page_size_ceiling ≡ walk_size
    grown_size big up = ground arith

    kept_size : budget.page_size_ceiling ≤ budget.page_size → budget.page_size ≡ walk_size
    kept_size same = ground arith

    first_slice : budget.page_size ≡ walk_size → take budget.page_size rows ≡ slice walk_size 0
    first_slice e = let z : 0 ≡ 0 * walk_size = omega arith in ap₂ (λ n k. take n (drop k rows)) e z

    -- The first pass: all rows at once, or the head of the walk.
    abbrev First : Pass Item Footer E → Type 0
    First (returned r told) = IsWhole r
    First (raised e) = ⊥
    First (again s) = (k : ℕ) × At k s

    Continues→First : (k : ℕ) (p : Pass Item Footer E) → Continues k p → First p
    Continues→First k (returned r told) c = c
    Continues→First k (raised e) c = c
    Continues→First k (again s) c = (suc k, c)

    first_page-First :
        First
          (first_page validate repr execute budget heard (length rows) (take budget.page_size rows))
    first_page-First = elim (dec_lt budget.page_size (length rows)) [
      | no small ↦
          let e : take budget.page_size rows ≡ rows =
            take-all budget.page_size rows (omega arith) in
          rw
            (
              e,
              first_page-whole validate repr execute budget heard (length rows) rows refl
                  h.rows_fit,
            )
            (refl, refl, refl, refl)
      | yes big ↦ elim (dec_lt budget.page_size budget.page_size_ceiling) [
        | yes up ↦
            rw
              (first_page-again validate repr execute budget heard (length rows)
                (take budget.page_size rows) (omega (arith, length-take budget.page_size rows))
                h.rows_fit refl big up)
              (
                0,
                record {
                  items = nothing;
                  seen_pages = refl;
                  expected = refl;
                  page = refl;
                  size = grown_size big up;
                  more = omega arith;
                },
              )
        | no same ↦
            rw
              (first_page-collect validate repr execute budget heard (length rows)
                (take budget.page_size rows) (omega (arith, length-take budget.page_size rows))
                h.rows_fit (omega arith))
              (let e : take budget.page_size rows ≡ slice walk_size 0 =
                  first_slice (kept_size (omega arith)) in
                rw e (
                  Continues→First 0 _ (
                    collect-At 0 (record heard { expected_total = some (length rows) })
                      (record {
                        items = nothing;
                        seen_pages = refl;
                        expected = refl;
                        page = refl;
                        size = kept_size (omega arith);
                        more = omega arith;
                      }))))
      ]
    ]

    -- The pass over the first answer.
    turn-First : First (turn validate repr execute budget (start budget))
    turn-First =
        rw
          (turn_first validate repr execute budget
            (record { footer = h.footer; items = take budget.page_size rows; total = length rows })
            h.max_pages_pos h.max_rows_pos answered)
          first_page-First
      where
        answered :
            receive validate repr execute budget (execute 0 1 budget.page_size)
            ≡ ok (record {
              footer = h.footer;
              items = take budget.page_size rows;
              total = length rows;
            })
        answered =
            let z : 0 * budget.page_size ≡ 0 = omega arith in
            h.serves 0 1 budget.page_size (omega arith)
            ∙ ap
                (λ n. ok (record {
                  footer = h.footer;
                  items = take budget.page_size (drop n rows);
                  total = length rows;
                }))
                z

    after-First-IsAll :
        (fuel : ℕ) (p : Pass Item Footer E)
        → First p
        → length rows ≤ fuel * walk_size
        → IsAll (elim p [
          | returned r told ↦ result r told
          | raised e ↦ failure e
          | again s' ↦ loop validate repr execute budget fuel s'
        ])
    after-First-IsAll fuel (returned r told) c l = c
    after-First-IsAll fuel (raised e) c l = c
    after-First-IsAll fuel (again s) (k, c) l = loop-At fuel k s c (grind arith)

    -- From an honest source whose rows fit the budgets `fetch_all` returns exactly its rows, in
    -- order, marked complete, with their number as the total, whether or not it restarts the walk
    -- at the larger page size. That no two of its pages have the same fingerprint is one of the
    -- conditions on an honest source: `fetch_all` takes a page that comes again for a repetition.
    pub fetch_all-IsAll : IsAll (fetch_all validate repr execute budget)
    unfolding fetch_all
    fetch_all-IsAll =
        let e : budget.max_pages + 2 ≡ suc (budget.max_pages + 1) = omega arith in
        rw e (
          unfold loop in
          after-First-IsAll (budget.max_pages + 1)
            (turn validate repr execute budget (start budget)) turn-First
            (let f = h.pages_fit in grind arith))
