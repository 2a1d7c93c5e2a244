-- ===== src/Pager/Types.antt =====
-- src/factory_agent/data_api/pagination.py: the budget, the results and the state of the loop.
use factory_agent.Prelude.{ℕ, Bool, false, Option, none, List, [], Text}

pub record PagerBudget : Type 0 where
  pub max_pages : ℕ
  pub max_rows : ℕ
  pub page_size : ℕ
  pub page_size_ceiling : ℕ

-- The dataclass's defaults.
abbrev pub default_budget : PagerBudget
default_budget = record {
  max_pages = 20;
  max_rows = 250000;
  page_size = 20000;
  page_size_ceiling = 50000;
}

pub data Reason : Type 0 where
  page_budget_exhausted row_budget_exhausted row_overflow total_drift duplicate_page : Reason
  missing_pages : Reason

-- `int(result[total_key])`, which may be negative.
pub data ℤ : Type 0 where
  pos : ℕ → ℤ
  negsuc : ℕ → ℤ

-- The adapter's answer. `none` stands for an envelope that is no mapping, a key that is missing, or
-- a total that is no integer; a list under the list key is taken to be one.
pub record Payload (Raw Footer : Type 0) : Type 0 where
  pub footer : Option Footer
  pub raw_items : Option (List Raw)
  pub total : Option ℤ

-- The `UpstreamInvalidError`s that the pager raises, and what the adapter raises itself.
pub data PagerError (E : Type 0) : Type 0 where
  envelope_invalid total_negative row_invalid : PagerError E
  adapter_failed : E → PagerError E

-- An answer that passed validation.
pub record Page (Item Footer : Type 0) : Type 0 where
  pub footer : Option Footer
  pub items : List Item
  pub total : ℕ

pub record PagedResult (Item Footer : Type 0) : Type 0 where
  pub items : List Item
  pub total : ℕ
  pub pages_fetched : ℕ
  pub complete : Bool
  pub reason : Option Reason
  pub footer : Option Footer

-- `MesFetchProgress`, as published to the waiting user.
pub record Progress : Type 0 where
  pub page : ℕ
  pub rows : ℕ
  pub total : ℕ

-- The loop's variables, with the number of requests made and the progress published so far.
pub record Loop (Item Footer : Type 0) : Type 0 where
  pub items : List Item
  pub seen_pages : List (List Text)
  pub expected_total : Option ℕ
  pub footer : Option Footer
  pub page_number : ℕ
  pub size : ℕ
  pub resized : Bool
  pub calls : ℕ
  pub progress : List Progress

-- One pass through the loop's body: it returns, raises, or goes round again.
pub data Pass (Item Footer E : Type 0) : Type 0 where
  returned : PagedResult Item Footer → List Progress → Pass Item Footer E
  raised : PagerError E → Pass Item Footer E
  again : Loop Item Footer → Pass Item Footer E

-- What a call of `fetch_all` ends with.
pub data Fetched (Item Footer E : Type 0) : Type 0 where
  result : PagedResult Item Footer → List Progress → Fetched Item Footer E
  failure : PagerError E → Fetched Item Footer E
  out_of_fuel : Fetched Item Footer E

abbrev pub start : {Item Footer : Type 0} → PagerBudget → Loop Item Footer
start budget = record {
  items = [];
  seen_pages = [];
  expected_total = none;
  footer = none;
  page_number = 1;
  size = budget.page_size;
  resized = false;
  calls = 0;
  progress = [];
}
