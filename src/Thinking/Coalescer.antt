-- ===== src/Thinking/Coalescer.antt =====
-- src/factory_agent/application/session/thinking.py: `ThinkingCoalescer`, which sends sentences as
-- frames within the budget of a round.
use factory_agent.Prelude.{
  ℕ, zero, suc, ◌+◌, ◌-◌, min, Bool, true, false, not, ◌&&◌, ◌||◌, Option, none, some, List, [],
  ◌∷◌, ◌++◌, reverse, ltb, leb, nat_beq, if◌then◌else◌, ◌==◌, nat_eq, list_eq, is_empty, length,
  take, drop, Text, strip,
}
use factory_agent.Thinking.{ThinkingFacts, Rejection, rejection_reason}

-- `last_sent` is stripped.
pub record Coalescer : Type 0 where
  pub max_frame_chars : ℕ
  pub max_total_chars : ℕ
  pub sent : List Text
  pub last_sent : Text
  pub used : ℕ
  pub truncated : Bool
  pub stopped : Bool

-- `__init__`
abbrev pub fresh_coalescer : ℕ → ℕ → Coalescer
fresh_coalescer max_frame_chars max_total_chars = record {
  max_frame_chars = max_frame_chars;
  max_total_chars = max_total_chars;
  sent = [];
  last_sent = [];
  used = 0;
  truncated = false;
  stopped = false;
}

-- "".join(frames)
abbrev pub joined : List Text → Text
joined [] = []
joined (f ∷ frames) = f ++ joined frames

-- s.lstrip("\n")
unfoldable pub lstrip_newlines : Text → Text
lstrip_newlines [] = []
lstrip_newlines (c ∷ s) = if nat_beq c 10 then lstrip_newlines s else c ∷ s

-- `[A-Za-z0-9_.]`
abbrev pub is_token_char : ℕ → Bool
is_token_char c =
    leb 65 c && leb c 90
    || leb 97 c && leb c 122
    || leb 48 c && leb c 57
    || nat_beq c 95
    || nat_beq c 46

unfoldable pub run_length : Text → ℕ
run_length [] = 0
run_length (c ∷ s) = if is_token_char c then suc (run_length s) else 0

-- `$` holds at the end and before a newline at the end.
abbrev pub before_newline : Text → Text
before_newline [] = []
before_newline (c ∷ s) = if nat_beq c 10 then s else c ∷ s

-- `_boundary`: cut in front of the trailing token, unless the token is the whole text.
unfoldable pub boundary : ℕ → Text → Text
unfolding run_length
boundary max_frame_chars sentence =
    let window = take max_frame_chars sentence in
    let ending = before_newline (reverse window) in
    let start = length ending - run_length ending in
    if ltb 0 (run_length ending) && ltb 0 start then take start window else window

-- `_accept`: the state afterwards, and the frame unless it is empty or a repeat.
unfoldable pub accept : Coalescer → Text → Coalescer × Option Text
unfolding lstrip_newlines strip
accept c piece =
    let frame = if is_empty c.sent then lstrip_newlines piece else piece in
    if is_empty (strip frame) || (strip frame == c.last_sent) then (c, none) else (
      record c {
        used = c.used + length frame;
        last_sent = strip frame;
        sent = c.sent ++ frame ∷ [];
      },
      some frame,
    )

abbrev pub add_frame : Option Text → List Text → List Text
add_frame none frames = frames
add_frame (some f) frames = f ∷ frames

-- A pass of the loop ends the call, or goes round again with the rest.
pub data Pass : Type 0 where
  ends : Coalescer → Option Text → Pass
  goes_on : Coalescer → Option Text → Text → Pass

-- Behind the gate: what `accept` gave, and the rest of the sentence.
unfoldable pub gated : Option Rejection → Coalescer → Coalescer × Option Text → Text → Pass
gated (some why) c sent rest = ends (record c { stopped = true }) none
gated none c (c', accepted) rest =
    if leb c'.max_total_chars c'.used && not (is_empty rest)
    then ends (record c' { truncated = true }) accepted
    else goes_on c' accepted rest

module _ (lower : Text → Text) (is_identifier : Text → Bool) (is_digit : ℕ → Bool)
    (number_matches : Text → List Text) where
  -- The body of `while rest`, with `_reject` in it.
  unfoldable pub pass : ThinkingFacts → Coalescer → Text → Pass
  unfolding boundary accept gated
  pass facts c rest =
      let room = c.max_total_chars - c.used in
      let piece = boundary c.max_frame_chars (take (min c.max_frame_chars room) rest) in
      if leb c.max_total_chars c.used
      then ends (record c { truncated = true }) none
      else if is_empty piece
      then ends c none
      else gated
          (rejection_reason lower is_identifier is_digit number_matches (joined c.sent ++ piece)
            facts)
          c (accept c piece) (drop (length piece) rest)

  -- `while rest`; `none` when the fuel is out. The frames of the later passes come behind.
  unfoldable pub commit_rest : ℕ → ThinkingFacts → Coalescer → Text → Option (Coalescer × List Text)
  unfolding pass
  commit_rest fuel facts c [] = some (c, [])
  commit_rest zero facts c (x ∷ s) = none
  commit_rest (suc fuel) facts c (x ∷ s) = elim (pass facts c (x ∷ s)) [
    | ends c' accepted ↦ some (c', add_frame accepted [])
    | goes_on c' accepted rest ↦ elim (commit_rest fuel facts c' rest) [
      | none ↦ none
      | some (c'', frames) ↦ some (c'', add_frame accepted frames)
    ]
  ]

  -- `commit`; every pass that goes round takes a character away.
  unfoldable pub commit : ThinkingFacts → Coalescer → Text → Option (Coalescer × List Text)
  unfolding commit_rest strip
  commit facts c sentence =
      if c.stopped || (c.truncated || is_empty (strip sentence))
      then some (c, [])
      else commit_rest (length sentence) facts c sentence
