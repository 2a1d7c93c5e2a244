-- ===== src/Thinking/Budget.antt =====
-- src/factory_agent/application/session/thinking.py: a round's transcript keeps its budget and is the
-- frames that were sent, and committing ends.
use factory_agent.Prelude.{
  ℕ, zero, suc, ◌+◌, ◌-◌, ◌≤◌, ◌<◌, ◌≡◌, refl, sym, ap, subst, ◌∙◌, inl, inr, min, Bool, true,
  false, not, ◌&&◌, ◌||◌, Option, none, some, List, [], ◌∷◌, ◌++◌, leb, if◌then◌else◌, ◌==◌, nat_eq,
  list_eq, is_empty, length, take, drop, length-append, length-take, length-drop, Text, strip,
  arith, Bool-cases,
}
use factory_agent.Thinking.{ThinkingFacts, Rejection}
use factory_agent.Thinking.Coalescer.{
  Coalescer, joined, lstrip_newlines, boundary, accept, add_frame, Pass, ends, goes_on, gated, pass,
  commit_rest, commit,
}

-- The frames are neither too long nor blank.
abbrev pub AreFrames : ℕ → List Text → Type 0
AreFrames limit [] = Unit
AreFrames limit (f ∷ frames) =
    (length f ≤ limit) × (is_empty (strip f) ≡ false) × AreFrames limit frames

-- The characters of the transcript are counted, and within the round's limit.
pub record IsCounted (c : Coalescer) : Type 0 where
  pub counted : c.used ≡ length (joined c.sent)
  pub within : c.used ≤ c.max_total_chars
  pub framed : AreFrames c.max_frame_chars c.sent

pub joined-append : (fs gs : List Text) → joined (fs ++ gs) ≡ joined fs ++ joined gs
joined-append [] gs = refl
joined-append (f ∷ fs) gs =
    ap (λ t. f ++ t) (joined-append fs gs) ∙ append f (joined fs) (joined gs)
  where
    append : (r s t : Text) → r ++ (s ++ t) ≡ (r ++ s) ++ t
    append [] s t = refl
    append (x ∷ r) s t = ap (λ u. x ∷ u) (append r s t)

AreFrames-append :
    (limit : ℕ) (fs gs : List Text)
    → AreFrames limit fs
    → AreFrames limit gs
    → AreFrames limit (fs ++ gs)
AreFrames-append limit [] gs h k = k
AreFrames-append limit (f ∷ fs) gs (l, b, h) k = (l, b, AreFrames-append limit fs gs h k)

length-lstrip_newlines : (s : Text) → length (lstrip_newlines s) ≤ length s
unfolding lstrip_newlines
length-lstrip_newlines [] = omega arith
length-lstrip_newlines (c ∷ s) = ground (arith, length-lstrip_newlines s)

length-cut : (b : Bool) (n : ℕ) (w : Text) → length (if b then take n w else w) ≤ length w
length-cut true n w = omega (arith, length-take n w)
length-cut false n w = omega arith

length-boundary : (limit : ℕ) (s : Text) → length (boundary limit s) ≤ length s
unfolding boundary
length-boundary limit s = omega (arith, length-cut _ _ (take limit s), length-take limit s)

length_pos : (s : Text) → is_empty s ≡ false → 0 < length s
length_pos [] h = cc
length_pos (c ∷ s) h = omega arith

-- The limits stay, and the frames stand behind those that were sent before.
pub record Extends (c c' : Coalescer) (frames : List Text) : Type 0 where
  pub same_frame : c'.max_frame_chars ≡ c.max_frame_chars
  pub same_total : c'.max_total_chars ≡ c.max_total_chars
  pub sent_is : c'.sent ≡ c.sent ++ frames

pub append-nil {ℓ} : {A : Type ℓ} (fs : List A) → fs ++ [] ≡ fs
append-nil [] = refl
append-nil (f ∷ fs) = ap (λ gs. f ∷ gs) (append-nil fs)

pub append_assoc : (fs gs hs : List Text) → (fs ++ gs) ++ hs ≡ fs ++ (gs ++ hs)
append_assoc [] gs hs = refl
append_assoc (f ∷ fs) gs hs = ap (λ t. f ∷ t) (append_assoc fs gs hs)

Extends-nil : (c : Coalescer) → Extends c c []
Extends-nil c = record { same_frame = refl; same_total = refl; sent_is = sym (append-nil c.sent) }

Extends-trans :
    (c d e : Coalescer) (fs gs : List Text)
    → Extends c d fs
    → Extends d e gs
    → Extends c e (fs ++ gs)
Extends-trans c d e fs gs h k = record {
  same_frame = k.same_frame ∙ h.same_frame;
  same_total = k.same_total ∙ h.same_total;
  sent_is = k.sent_is ∙ ap (λ t. t ++ gs) h.sent_is ∙ append_assoc c.sent fs gs;
}

add_frame-append : (o : Option Text) (fs : List Text) → add_frame o fs ≡ add_frame o [] ++ fs
add_frame-append none fs = refl
add_frame-append (some f) fs = refl

-- A piece that fits is counted when it is sent.
accept-IsCounted :
    (c : Coalescer) (piece : Text)
    → IsCounted c
    → length piece ≤ c.max_frame_chars
    → c.used + length piece ≤ c.max_total_chars
    → IsCounted (accept c piece).0 × Extends c (accept c piece).0 (add_frame (accept c piece).1 [])
unfolding accept
accept-IsCounted c piece v fits room =
    let frame = if is_empty c.sent then lstrip_newlines piece else piece in
    let short : length frame ≤ length piece = ground (arith, length-lstrip_newlines piece) in
    elim (Bool-cases (is_empty (strip frame) || (strip frame == c.last_sent))) [
      | inl dropped ↦ rw dropped (v, Extends-nil c)
      | inr kept ↦ rw kept (
        record {
          counted = omega (
            arith,
            v.counted,
            ap length (joined-append c.sent (frame ∷ [])),
            length-append (joined c.sent) (frame ++ []),
            length-append frame [],
          );
          within = omega (arith, short);
          framed =
              AreFrames-append c.max_frame_chars c.sent (frame ∷ []) v.framed
                (omega (arith, short), ground (arith, kept), tt);
        },
        record { same_frame = refl; same_total = refl; sent_is = refl },
      )
    ]

-- A flag changes neither the count nor the transcript.
abbrev pub Grows : Coalescer → Coalescer → Option Text → Type 0
Grows c c' accepted = IsCounted c' × Extends c c' (add_frame accepted [])

truncate-Grows :
    (c d : Coalescer) (accepted : Option Text)
    → Grows c d accepted
    → Grows c (record d { truncated = true }) accepted
truncate-Grows c d accepted (v, h) = (
  record { counted = v.counted; within = v.within; framed = v.framed },
  record { same_frame = h.same_frame; same_total = h.same_total; sent_is = h.sent_is },
)

stop-Grows : (c : Coalescer) → IsCounted c → Grows c (record c { stopped = true }) none
stop-Grows c v = (
  record { counted = v.counted; within = v.within; framed = v.framed },
  record { same_frame = refl; same_total = refl; sent_is = (Extends-nil c).sent_is },
)

-- A pass keeps the count, and what is left for the next pass is shorter.
abbrev IsSound : Coalescer → Text → Pass → Type 0
IsSound c s (ends c' accepted) = Grows c c' accepted
IsSound c s (goes_on c' accepted rest) = Grows c c' accepted × (length rest < length s)

gated-IsSound :
    (why : Option Rejection) (c : Coalescer) (sent : Coalescer × Option Text) (s rest : Text)
    → IsCounted c
    → Grows c sent.0 sent.1
    → length rest < length s
    → IsSound c s (gated why c sent rest)
unfolding gated
gated-IsSound (some why) c (c', accepted) s rest v g h = stop-Grows c v
gated-IsSound none c (c', accepted) s rest v g h =
    elim (Bool-cases (leb c'.max_total_chars c'.used && not (is_empty rest))) [
      | inl full ↦ rw full (truncate-Grows c c' accepted g)
      | inr roomy ↦ rw roomy (g, h)
    ]

module _ (lower : Text → Text) (is_identifier : Text → Bool) (is_digit : ℕ → Bool)
    (number_matches : Text → List Text) where
  pass-IsSound :
      (facts : ThinkingFacts) (c : Coalescer) (s : Text)
      → IsCounted c
      → IsSound c s (pass lower is_identifier is_digit number_matches facts c s)
  unfolding pass
  pass-IsSound facts c s v =
      let piece =
        boundary c.max_frame_chars (take (min c.max_frame_chars (c.max_total_chars - c.used)) s) in
      elim (Bool-cases (leb c.max_total_chars c.used)) [
        | inl full ↦ rw full (truncate-Grows c c none (v, Extends-nil c))
        | inr roomy ↦ elim (Bool-cases (is_empty piece)) [
          | inl blank ↦ rw (roomy, blank) (v, Extends-nil c)
          | inr some_piece ↦
              let cut =
                length-boundary c.max_frame_chars
                  (take (min c.max_frame_chars (c.max_total_chars - c.used)) s) in
              let taken = length-take (min c.max_frame_chars (c.max_total_chars - c.used)) s in
              rw (roomy, some_piece)
                (gated-IsSound _ c (accept c piece) s (drop (length piece) s) v
                  (accept-IsCounted c piece v (omega (arith, cut, taken))
                    (omega (arith, cut, taken, v.within)))
                  (omega
                    (arith, length-drop (length piece) s, length_pos piece some_piece, cut, taken)))
        ]
      ]

  -- The run has an end, at which the transcript has grown by the frames and is within its limits.
  abbrev pub Ends : Coalescer → Option (Coalescer × List Text) → Type 0
  Ends c o =
      (c' : Coalescer) × (frames : List Text) × (o ≡ some (c', frames))
      × IsCounted c'
      × Extends c c' frames

  add-Ends :
      (c d : Coalescer) (accepted : Option Text) (o : Option (Coalescer × List Text))
      → Extends c d (add_frame accepted [])
      → Ends d o
      → Ends c (elim o [ none ↦ none | some (e, frames) ↦ some (e, add_frame accepted frames) ])
  add-Ends c d accepted o h (e, frames, same, v, k) = rw same (
    e,
    add_frame accepted frames,
    refl,
    v,
    subst (Extends c e) (sym (add_frame-append accepted frames))
        (Extends-trans c d e (add_frame accepted []) frames h k),
  )

  commit_rest-Ends :
      (fuel : ℕ) (facts : ThinkingFacts) (c : Coalescer) (s : Text)
      → length s ≤ fuel
      → IsCounted c
      → Ends c (commit_rest lower is_identifier is_digit number_matches fuel facts c s)
  unfolding commit_rest
  commit_rest-Ends fuel facts c [] h v = (c, [], refl, v, Extends-nil c)
  commit_rest-Ends zero facts c (x ∷ s) h v = absurd (omega arith)
  commit_rest-Ends (suc fuel) facts c (x ∷ s) h v =
      go (pass lower is_identifier is_digit number_matches facts c (x ∷ s))
        (pass-IsSound facts c (x ∷ s) v) (commit_rest-Ends fuel facts)
    where
      go :
          (p : Pass)
          → IsSound c (x ∷ s) p
          → ((d : Coalescer) (r : Text)
              → length r ≤ fuel
              → IsCounted d
              → Ends d (commit_rest lower is_identifier is_digit number_matches fuel facts d r))
          → Ends c (elim p [
            | ends c' accepted ↦ some (c', add_frame accepted [])
            | goes_on c' accepted rest ↦
                elim (commit_rest lower is_identifier is_digit number_matches fuel facts c' rest) [
                  | none ↦ none
                  | some (c'', frames) ↦ some (c'', add_frame accepted frames)
                ]
          ])
      go (ends c' accepted) (v', k) ih = (c', add_frame accepted [], refl, v', k)
      go (goes_on c' accepted rest) ((v', k), shorter) ih =
          add-Ends c c' accepted _ k (ih c' rest (omega arith) v')

  -- From a counted transcript, committing any sentence under any facts ends: it gives frames that
  -- are neither blank nor longer than a frame may be, the transcript is the old one followed by the
  -- frames, its characters are those counted, and they are within the round's limit.
  pub commit-IsCounted :
      (facts : ThinkingFacts) (c : Coalescer) (sentence : Text)
      → IsCounted c
      → (c' : Coalescer) × (frames : List Text) × (commit lower is_identifier is_digit
            number_matches facts c sentence
          ≡ some (c', frames))
        × IsCounted c'
        × Extends c c' frames
  unfolding commit
  commit-IsCounted facts c sentence v =
      elim (Bool-cases (c.stopped || (c.truncated || is_empty (strip sentence)))) [
        | inl silent ↦ rw silent (c, [], refl, v, Extends-nil c)
        | inr speaks ↦
            rw speaks (commit_rest-Ends (length sentence) facts c sentence (omega arith) v)
      ]
