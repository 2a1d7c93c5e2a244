-- ===== src/Pager/Examples.antt =====
-- pagination.py: five rows on pages of two, which restart at three, and the theorems at them.
use factory_agent.Prelude.{
  ℕ, ◌-◌, ◌*◌, ◌<◌, ◌≤◌, ◌≡◌, ◌≢◌, refl, Option, some, List, [], ◌∷◌, length, take, drop, Text,
  Result, ok, arith, sorted,
}
use factory_agent.Pager.Types.{pos}
use factory_agent.Pager.{
  PagerBudget, Payload, Fetched, receive, validate_rows, fingerprint, fetch_all,
}
use factory_agent.Pager.Bounds.{Ends, fetch_all-Ends}
use factory_agent.Pager.Honest.{IsHonest, IsAll, slice, fetch_all-IsAll}

abbrev rows : List ℕ
rows = 11 ∷ 12 ∷ 13 ∷ 14 ∷ 15 ∷ []

abbrev budget : PagerBudget
budget = record { max_pages = 3; max_rows = 10; page_size = 2; page_size_ceiling = 3 }

abbrev valid : ℕ → Option ℕ
valid n = some n

abbrev repr : ℕ → Text
repr n = n ∷ []

abbrev serve : ℕ → ℕ → ℕ → Result (Unit {0}) (Payload ℕ ℕ)
serve calls page size = ok (record {
  footer = some 65;
  raw_items = some (take size (drop ((page - 1) * size) rows));
  total = some (pos (length rows));
})

fetched : Fetched ℕ ℕ (Unit {0})
fetched = fetch_all valid repr serve budget

validate_rows_all : (xs : List ℕ) → validate_rows valid xs ≡ some xs
unfolding validate_rows
validate_rows_all [] = refl
validate_rows_all (x ∷ xs) = rw (validate_rows_all xs)

serves :
    (calls page size : ℕ)
    → 1 ≤ page
    → receive valid repr serve budget (serve calls page size)
      ≡ ok (record {
        footer = some 65;
        items = slice valid repr serve budget rows size (page - 1);
        total = length rows;
      })
unfolding receive
serves calls page size h = rw (validate_rows_all (take size (drop ((page - 1) * size) rows))) refl

differ :
    (i j : ℕ)
    → i < j
    → j * 3 < 5
    → fingerprint valid repr serve budget (slice valid repr serve budget rows 3 i)
      ≢ fingerprint valid repr serve budget (slice valid repr serve budget rows 3 j)
unfolding fingerprint sorted
differ i j h k e =
    let ei : i ≡ 0 = omega arith in let ej : j ≡ 1 = omega arith in cc (rw (ei, ej) at e)

rows-IsHonest : IsHonest valid repr serve budget rows
rows-IsHonest = record {
  footer = some 65;
  serves = serves;
  page_size_pos = omega arith;
  max_rows_pos = omega arith;
  rows_fit = omega arith;
  pages_fit = omega arith;
  max_pages_pos = omega arith;
  distinct = differ;
}

fetch_all-Ends_example : Ends valid repr serve budget (fetch_all valid repr serve budget)
fetch_all-Ends_example = fetch_all-Ends valid repr serve budget

fetch_all-IsAll_example : IsAll valid repr serve budget rows (fetch_all valid repr serve budget)
fetch_all-IsAll_example = fetch_all-IsAll valid repr serve budget rows rows-IsHonest
