-- ===== src/Thinking/Watch.antt =====
-- src/factory_agent/application/session/thinking.py: `FetchProgressWatch`, the sentences on a wait. The
-- monotonic clock is an argument of each call, in milliseconds; a sentence is what it tells.
use factory_agent.Prelude.{
  ℕ, ◌+◌, ◌-◌, ◌/◌, ◌≤◌, ◌<◌, ◌≡◌, Bool, false, ◌&&◌, ◌||◌, Option, none, some, List, [], ◌∷◌, ltb,
  nat_beq, if◌then◌else◌,
}
use factory_agent.Pager.{Progress}

-- What `_page_sentence` and the wait sentence say; the latter has the elapsed seconds.
pub data Sentence : Type 0 where
  page_sentence : (page rows total : ℕ) → Sentence
  wait_sentence : ℕ → Sentence

pub record FetchProgressWatch : Type 0 where
  pub wait_milliseconds : ℕ
  pub started_at : ℕ
  pub reported_at : ℕ
  pub latest : Option Progress
  pub reported : Option (ℕ × ℕ)
  pub observations : ℕ

-- `__init__`
abbrev pub started : ℕ → ℕ → FetchProgressWatch
started wait_milliseconds now = record {
  wait_milliseconds = wait_milliseconds;
  started_at = now;
  reported_at = now;
  latest = none;
  reported = none;
  observations = 0;
}

unfoldable pub observe : FetchProgressWatch → Progress → FetchProgressWatch
observe w progress = record w { latest = some progress; observations = w.observations + 1 }

-- Whether the mark is the one that was reported last.
abbrev pub is_reported : Option (ℕ × ℕ) → ℕ → ℕ → Bool
is_reported none page rows = false
is_reported (some (p, r)) page rows = nat_beq p page && nat_beq r rows

-- `_wait_sentence`
unfoldable pub wait_or_silence : FetchProgressWatch → ℕ → FetchProgressWatch × Option Sentence
wait_or_silence w now =
    if nat_beq w.wait_milliseconds 0 || ltb (now - w.reported_at) w.wait_milliseconds
    then (w, none)
    else (record w { reported_at = now }, some (wait_sentence ((now - w.started_at) / 1000)))

unfoldable pub fresh_with :
    FetchProgressWatch → ℕ → Option Progress → FetchProgressWatch × Option Sentence
unfolding wait_or_silence
fresh_with w now none = wait_or_silence w now
fresh_with w now (some p) =
    if is_reported w.reported p.page p.rows then wait_or_silence w now else (
      record w { reported = some (p.page, p.rows); reported_at = now },
      some (page_sentence p.page p.rows p.total),
    )

-- `fresh_sentence`
unfoldable pub fresh_sentence : FetchProgressWatch → ℕ → FetchProgressWatch × Option Sentence
unfolding fresh_with
fresh_sentence w now = fresh_with w now w.latest

-- What a watch goes through: the pager publishes a mark, or the caller asks.
pub data Event : Type 0 where
  observes : Progress → Event
  asks : ℕ → Event

-- The sentences with the times at which they were given.
unfoldable pub told : FetchProgressWatch → List Event → List (ℕ × Sentence)
unfolding observe fresh_sentence
told w [] = []
told w (observes p ∷ events) = told (observe w p) events
told w (asks now ∷ events) =
    let (w', sentence) = fresh_sentence w now in
    let later = told w' events in elim sentence [ none ↦ later | some s ↦ (now, s) ∷ later ]

-- From a last sentence at `at` and a last mark: no mark is told twice in a row, and a wait sentence
-- stands a whole interval, which is not empty, behind the sentence before it.
abbrev pub IsSpaced : ℕ → ℕ → Option (ℕ × ℕ) → List (ℕ × Sentence) → Type 0
IsSpaced wait at last [] = Unit
IsSpaced wait at last ((now, page_sentence page rows total) ∷ told_later) =
    (is_reported last page rows ≡ false) × IsSpaced wait now (some (page, rows)) told_later
IsSpaced wait at last ((now, wait_sentence seconds) ∷ told_later) =
    (0 < wait) × (at + wait ≤ now) × IsSpaced wait now last told_later

-- What one answer has to keep so that the later ones are spaced.
abbrev Keeps : FetchProgressWatch → ℕ → FetchProgressWatch × Option Sentence → Type 0
Keeps w now (w', none) =
    (w'.wait_milliseconds ≡ w.wait_milliseconds)
    × (w'.reported_at ≡ w.reported_at)
    × (w'.reported ≡ w.reported)
Keeps w now (w', some (page_sentence page rows total)) =
    (w'.wait_milliseconds ≡ w.wait_milliseconds)
    × (w'.reported_at ≡ now)
    × (w'.reported ≡ some (page, rows))
    × (is_reported w.reported page rows ≡ false)
Keeps w now (w', some (wait_sentence seconds)) =
    (w'.wait_milliseconds ≡ w.wait_milliseconds)
    × (w'.reported_at ≡ now)
    × (w'.reported ≡ w.reported)
    × (0 < w.wait_milliseconds)
    × (w.reported_at + w.wait_milliseconds ≤ now)
