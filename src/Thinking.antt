-- ===== src/Thinking.antt =====
-- src/factory_agent/application/session/thinking.py: the facts that a round may restate and the gate
-- that every frame passes. `str.lower`, `str.isdigit` and the regular expressions (the two of internal
-- identifiers as one test, the runs of digits as the list of their matches) are parameters.
pub mod Coalescer
pub mod Facts
pub mod Budget
pub mod Gate
pub mod Watch
mod Examples
use factory_agent.Prelude.{
  ℕ, Bool, true, false, not, ◌&&◌, Option, none, some, List, [], ◌∷◌, ◌++◌, map, leb, any, select,
  if◌then◌else◌, ◌==◌, nat_eq, list_eq, contains, is_empty, length, Text, text, strip, is_infix,
}

pub record ThinkingFacts : Type 0 where
  pub stage : Text
  pub lines : List Text

abbrev pub forbidden_literals : List Text
forbidden_literals =
    text "select "
    ∷ text " from "
    ∷ text " where "
    ∷ text "join "
    ∷ text "group by"
    ∷ text "order by"
    ∷ text "insert "
    ∷ text "update "
    ∷ text "delete "
    ∷ text "drop "
    ∷ text "http://"
    ∷ text "https://"
    ∷ text "app_key"
    ∷ text "appkey"
    ∷ text "access_token"
    ∷ text "accesstoken"
    ∷ text "x-factory"
    ∷ text "duckdb"
    ∷ text "litellm"
    ∷ text "sqlite"
    ∷ text "prompt"
    ∷ text "系统提示"
    ∷ text "提示词"
    ∷ text "字段名"
    ∷ text "表名"
    ∷ text "recipe"
    ∷ text "data_api"
    ∷ text ".yaml"
    ∷ text ".json"
    ∷ text "result.total"
    ∷ text "code="
    ∷ text "message="
    ∷ []

abbrev pub long_number_digits : ℕ
long_number_digits = 4

-- `ThinkingFacts.widened`
unfoldable pub widened : ThinkingFacts → Text → ThinkingFacts
unfolding strip
widened facts sentence =
    if contains facts.lines (strip sentence)
    then facts
    else record facts { lines = facts.lines ++ strip sentence ∷ [] }

-- The lines that are not there yet, one after the other.
unfoldable pub merge_lines : List Text → List Text → List Text
merge_lines lines [] = lines
merge_lines lines (line ∷ others) =
    merge_lines (if contains lines line then lines else lines ++ line ∷ []) others

-- `ThinkingFacts.merged_with`
unfoldable pub merged_with : ThinkingFacts → ThinkingFacts → ThinkingFacts
unfolding merge_lines
merged_with facts other = record {
  stage = other.stage;
  lines = merge_lines facts.lines other.lines;
}

-- `transcript_line`
unfoldable pub transcript_line : Text → Text
unfolding strip
transcript_line sentence = 10 ∷ strip sentence

pub data Rejection : Type 0 where
  empty internal_artifact internal_identifier unsupported_number : Rejection

module _ (lower : Text → Text) (is_identifier : Text → Bool) (is_digit : ℕ → Bool)
    (number_matches : Text → List Text) where
  -- `_digits`
  abbrev pub digits : Text → Text
  digits raw = select is_digit raw

  unfoldable pub numbers_of : List Text → List Text
  numbers_of [] = []
  numbers_of (line ∷ lines) = map digits (number_matches line) ++ numbers_of lines

  -- `ThinkingFacts.numbers`
  unfoldable pub numbers : ThinkingFacts → List Text
  unfolding numbers_of
  numbers facts = numbers_of facts.lines

  -- A long figure that the facts do not hold.
  unfoldable pub is_unsupported : ThinkingFacts → Text → Bool
  unfolding numbers
  is_unsupported facts raw =
      leb long_number_digits (length (digits raw)) && not (contains (numbers facts) (digits raw))

  unfoldable pub rejection_reason : Text → ThinkingFacts → Option Rejection
  unfolding is_unsupported is_infix strip
  rejection_reason sentence facts =
      let stripped = strip sentence in
      let lowered = lower stripped in
      if is_empty stripped
      then some empty
      else if any (λ literal. is_infix literal lowered) forbidden_literals
      then some internal_artifact
      else if is_identifier lowered
      then some internal_identifier
      else if any (is_unsupported facts) (number_matches stripped)
      then some unsupported_number
      else none
