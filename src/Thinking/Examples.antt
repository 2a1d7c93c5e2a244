-- ===== src/Thinking/Examples.antt =====
-- A round with short frames: a sentence over three frames, and a figure that the facts do not hold.
use factory_agent.Prelude.{
  ℕ, ◌≡◌, refl, Bool, false, ◌&&◌, none, some, List, [], ◌∷◌, ◌++◌, leb, select, Text, text, strip,
  lstrip, is_infix, starts_with, arith,
}
use factory_agent.Pager.{Progress}
use factory_agent.Thinking.{
  ThinkingFacts, rejection_reason, unsupported_number, is_unsupported, numbers, numbers_of,
  merged_with, widened,
}
use factory_agent.Thinking.Coalescer.{
  Coalescer, fresh_coalescer, lstrip_newlines, boundary, run_length, accept, gated, pass, commit,
}
use factory_agent.Thinking.Budget.{IsCounted, Extends, commit-IsCounted}
use factory_agent.Thinking.Gate.{ArePassed, commit-IsClean}
use factory_agent.Thinking.Facts.{rejection_reason-merged_with}
use factory_agent.Thinking.Watch.{
  started, Event, observes, asks, told, page_sentence, wait_sentence, observe, fresh_sentence,
  fresh_with, wait_or_silence,
}

abbrev same_case : Text → Text
same_case s = s

abbrev nothing_internal : Text → Bool
nothing_internal s = false

abbrev is_figure : ℕ → Bool
is_figure c = leb 48 c && leb c 57

-- All the digits of a line as one figure.
abbrev figures : Text → List Text
figures s = select is_figure s ∷ []

abbrev facts : ThinkingFacts
facts = record { stage = text "fetch"; lines = text "12345 rows" ∷ [] }

abbrev round : Coalescer
round = fresh_coalescer 8 40

abbrev sentence : Text
sentence = text "got 12345 of it"

abbrev after : Coalescer
after = record {
  max_frame_chars = 8;
  max_total_chars = 40;
  sent = text "got " ∷ text "12345 " ∷ text "of " ∷ text "it" ∷ [];
  last_sent = text "it";
  used = 15;
  truncated = false;
  stopped = false;
}

sentence-committed :
    commit same_case nothing_internal is_figure figures facts round sentence
    ≡ some (after, text "got " ∷ text "12345 " ∷ text "of " ∷ text "it" ∷ [])
unfolding commit pass rejection_reason is_unsupported numbers numbers_of is_infix starts_with
    boundary run_length accept gated lstrip_newlines strip lstrip
sentence-committed = refl

unknown_figure :
    rejection_reason same_case nothing_internal is_figure figures (text "got 99999") facts
    ≡ some unsupported_number
unfolding rejection_reason is_unsupported numbers numbers_of is_infix starts_with strip lstrip
unknown_figure = refl

round-IsCounted : IsCounted round
round-IsCounted = record { counted = refl; within = omega arith; framed = tt }

commit-IsCounted_example :
    (c' : Coalescer) × (frames : List Text) × (commit same_case nothing_internal is_figure figures
        facts round sentence
      ≡ some (c', frames))
    × IsCounted c'
    × Extends round c' frames
commit-IsCounted_example =
    commit-IsCounted same_case nothing_internal is_figure figures facts round sentence
      round-IsCounted

commit-IsClean_example :
    (after.sent ≡ round.sent ++ text "got " ∷ text "12345 " ∷ text "of " ∷ text "it" ∷ [])
    × ArePassed same_case nothing_internal is_figure figures facts round.sent
        (text "got " ∷ text "12345 " ∷ text "of " ∷ text "it" ∷ [])
commit-IsClean_example =
    commit-IsClean same_case nothing_internal is_figure figures facts round sentence after
      (text "got " ∷ text "12345 " ∷ text "of " ∷ text "it" ∷ []) sentence-committed

abbrev parsed : ThinkingFacts
parsed = record { stage = text "parse"; lines = text "2 words" ∷ [] }

sentence-passes :
    rejection_reason same_case nothing_internal is_figure figures sentence facts ≡ none
unfolding rejection_reason is_unsupported numbers numbers_of is_infix starts_with strip lstrip
sentence-passes = refl

rejection_reason-merged_with_example :
    (rejection_reason same_case nothing_internal is_figure figures sentence
        (widened facts (text "page 2"))
      ≡ none)
    × (rejection_reason same_case nothing_internal is_figure figures sentence
          (merged_with facts parsed)
        ≡ none)
    × (rejection_reason same_case nothing_internal is_figure figures sentence
          (merged_with parsed facts)
        ≡ none)
rejection_reason-merged_with_example =
    rejection_reason-merged_with same_case nothing_internal is_figure figures facts parsed
      (text "page 2") sentence sentence-passes

abbrev mark : ℕ → ℕ → Progress
mark page rows = record { page = page; rows = rows; total = 900 }

abbrev wait : List Event
wait =
    asks 3000
    ∷ asks 5000
    ∷ observes (mark 1 300)
    ∷ asks 5500
    ∷ asks 6000
    ∷ asks 10500
    ∷ observes (mark 2 600)
    ∷ asks 11000
    ∷ []

wait-told :
    told (started 5000 0) wait
    ≡ (5000, wait_sentence 5)
      ∷ (5500, page_sentence 1 300 900)
      ∷ (10500, wait_sentence 10)
      ∷ (11000, page_sentence 2 600 900)
      ∷ []
unfolding told observe fresh_sentence fresh_with wait_or_silence
wait-told = refl
