-- ===== src/Thinking/Gate.antt =====
-- src/factory_agent/application/session/thinking.py: every frame that is sent has passed the gate
-- behind the frames before it.
use factory_agent.Prelude.{
  ℕ, zero, suc, ◌-◌, ◌≡◌, refl, sym, ap, subst, ◌∙◌, inl, inr, min, Bool, not, ◌&&◌, ◌||◌, Option,
  none, some, List, [], ◌∷◌, ◌++◌, reverse, leb, nat_beq, if◌then◌else◌, ◌==◌, nat_eq, list_eq,
  is_empty, length, take, drop, Text, strip, lstrip, arith, Bool-cases,
}
use factory_agent.Thinking.{ThinkingFacts, Rejection, rejection_reason}
use factory_agent.Thinking.Coalescer.{
  Coalescer, joined, lstrip_newlines, boundary, accept, add_frame, Pass, ends, goes_on, gated, pass,
  commit_rest, commit,
}
use factory_agent.Thinking.Budget.{joined-append, append-nil, append_assoc}

lstrip-lstrip_newlines : (s : Text) → lstrip (lstrip_newlines s) ≡ lstrip s
unfolding lstrip lstrip_newlines
lstrip-lstrip_newlines [] = refl
lstrip-lstrip_newlines (c ∷ s) = elim (Bool-cases (nat_beq c 10)) [
  | inl newline ↦ ground (arith, newline, lstrip-lstrip_newlines s)
  | inr other ↦ rw other refl
]

strip-lstrip_newlines : (s : Text) → strip (lstrip_newlines s) ≡ strip s
unfolding strip
strip-lstrip_newlines s = ap (λ t. reverse (lstrip (reverse t))) (lstrip-lstrip_newlines s)

module _ (lower : Text → Text) (is_identifier : Text → Bool) (is_digit : ℕ → Bool)
    (number_matches : Text → List Text) (facts : ThinkingFacts) where
  abbrev reason : Text → Option Rejection
  reason s = rejection_reason lower is_identifier is_digit number_matches s facts

  -- The gate looks at the stripped text only.
  rejection_reason-strip : (s t : Text) → strip s ≡ strip t → reason s ≡ reason t
  unfolding rejection_reason
  rejection_reason-strip s t e = rw e refl

  -- Every frame passes the gate behind what was sent before it.
  abbrev pub ArePassed : List Text → List Text → Type 0
  ArePassed sent [] = Unit
  ArePassed sent (f ∷ frames) =
      (rejection_reason lower is_identifier is_digit number_matches (joined (sent ++ f ∷ [])) facts
        ≡ none)
      × ArePassed (sent ++ f ∷ []) frames

  -- The frames stand behind the transcript, and have passed.
  abbrev IsClean : Coalescer → Coalescer → List Text → Type 0
  IsClean c c' frames = (c'.sent ≡ c.sent ++ frames) × ArePassed c.sent frames

  sent-reason :
      (sent : List Text) (piece : Text)
      → reason (joined sent ++ piece) ≡ none
      → reason (joined (sent ++ (if is_empty sent then lstrip_newlines piece else piece) ∷ []))
        ≡ none
  sent-reason [] piece h =
      rejection_reason-strip (lstrip_newlines piece ++ []) piece
        (ap strip (append-nil (lstrip_newlines piece)) ∙ strip-lstrip_newlines piece)
      ∙ h
  sent-reason (f ∷ sent) piece h =
      ap reason (
        joined-append (f ∷ sent) (piece ∷ []) ∙ ap (λ t. joined (f ∷ sent) ++ t) (append-nil piece))
      ∙ h

  accept-IsClean :
      (c : Coalescer) (piece : Text)
      → reason (joined c.sent ++ piece) ≡ none
      → IsClean c (accept c piece).0 (add_frame (accept c piece).1 [])
  unfolding accept
  accept-IsClean c piece h =
      let frame = if is_empty c.sent then lstrip_newlines piece else piece in
      elim (Bool-cases (is_empty (strip frame) || (strip frame == c.last_sent))) [
        | inl dropped ↦ rw dropped (sym (append-nil c.sent), tt)
        | inr kept ↦ rw kept (refl, (sent-reason c.sent piece h, tt))
      ]

  abbrev PassIsClean : Coalescer → Pass → Type 0
  PassIsClean c (ends c' accepted) = IsClean c c' (add_frame accepted [])
  PassIsClean c (goes_on c' accepted rest) = IsClean c c' (add_frame accepted [])

  gated-IsClean :
      (why : Option Rejection) (c : Coalescer) (sent : Coalescer × Option Text) (rest : Text)
      → (why ≡ none → IsClean c sent.0 (add_frame sent.1 []))
      → PassIsClean c (gated why c sent rest)
  unfolding gated
  gated-IsClean (some why) c (c', accepted) rest h = (sym (append-nil c.sent), tt)
  gated-IsClean none c (c', accepted) rest h =
      elim (Bool-cases (leb c'.max_total_chars c'.used && not (is_empty rest))) [
        | inl full ↦ rw full (h refl)
        | inr roomy ↦ rw roomy (h refl)
      ]

  pass-IsClean :
      (c : Coalescer) (s : Text)
      → PassIsClean c (pass lower is_identifier is_digit number_matches facts c s)
  unfolding pass
  pass-IsClean c s =
      let piece =
        boundary c.max_frame_chars (take (min c.max_frame_chars (c.max_total_chars - c.used)) s) in
      elim (Bool-cases (leb c.max_total_chars c.used)) [
        | inl full ↦ rw full (sym (append-nil c.sent), tt)
        | inr roomy ↦ elim (Bool-cases (is_empty piece)) [
          | inl blank ↦ rw (roomy, blank) (sym (append-nil c.sent), tt)
          | inr some_piece ↦
              rw (roomy, some_piece)
                (gated-IsClean (reason (joined c.sent ++ piece)) c (accept c piece)
                  (drop (length piece) s) (accept-IsClean c piece))
        ]
      ]

  IsClean-trans :
      (c d e : Coalescer) (accepted : Option Text) (fs : List Text)
      → IsClean c d (add_frame accepted [])
      → IsClean d e fs
      → IsClean c e (add_frame accepted fs)
  IsClean-trans c d e none fs h k =
      subst (λ s. (e.sent ≡ s ++ fs) × ArePassed s fs) (h.0 ∙ append-nil c.sent) k
  IsClean-trans c d e (some f) fs h k =
      let (grown, passed) = subst (λ s. (e.sent ≡ s ++ fs) × ArePassed s fs) h.0 k in
      (grown ∙ append_assoc c.sent (f ∷ []) fs, (h.1.0, passed))

  commit_rest-IsClean :
      (fuel : ℕ) (c : Coalescer) (s : Text) (c' : Coalescer) (frames : List Text)
      → commit_rest lower is_identifier is_digit number_matches fuel facts c s ≡ some (c', frames)
      → IsClean c c' frames
  unfolding commit_rest
  commit_rest-IsClean fuel c [] c' frames h =
      let same : ◌≡◌ {A = Coalescer × List Text} (c, []) (c', frames) = cc in
      subst (λ r. IsClean c r.0 r.1) same (sym (append-nil c.sent), tt)
  commit_rest-IsClean zero c (x ∷ s) c' frames h = cc
  commit_rest-IsClean (suc fuel) c (x ∷ s) c' frames h =
      go (pass lower is_identifier is_digit number_matches facts c (x ∷ s)) (pass-IsClean c (x ∷ s))
        (commit_rest-IsClean fuel) h
    where
      rest_of : Coalescer → Text → Option (Coalescer × List Text)
      rest_of = commit_rest lower is_identifier is_digit number_matches fuel facts

      go :
          (p : Pass)
          → PassIsClean c p
          → ((d : Coalescer) (r : Text) (e : Coalescer) (fs : List Text)
              → rest_of d r ≡ some (e, fs)
              → IsClean d e fs)
          → ◌≡◌ {A = Option (Coalescer × List Text)}
              (elim p [
                | ends d accepted ↦ some (d, add_frame accepted [])
                | goes_on d accepted rest ↦ elim (rest_of d rest) [
                  | none ↦ none
                  | some (e, fs) ↦ some (e, add_frame accepted fs)
                ]
              ])
              (some (c', frames))
          → IsClean c c' frames
      go (ends d accepted) k ih e =
          let same : ◌≡◌ {A = Coalescer × List Text} (d, add_frame accepted []) (c', frames) = cc in
          subst (λ r. IsClean c r.0 r.1) same k
      go (goes_on d accepted rest) k ih e = later (rest_of d rest) (ih d rest) e
        where
          later :
              (o : Option (Coalescer × List Text))
              → ((e : Coalescer) (fs : List Text) → o ≡ some (e, fs) → IsClean d e fs)
              → ◌≡◌ {A = Option (Coalescer × List Text)}
                  (elim o [ none ↦ none | some (e, fs) ↦ some (e, add_frame accepted fs) ])
                  (some (c', frames))
              → IsClean c c' frames
          later none ih e = cc
          later (some (e, fs)) ih q =
              let same : ◌≡◌ {A = Coalescer × List Text} (e, add_frame accepted fs) (c', frames) =
                cc in
              subst (λ r. IsClean c r.0 r.1) same (IsClean-trans c d e accepted fs k (ih e fs refl))

  -- A commit appends its frames to the transcript, and each of them passes the gate under the facts
  -- of the call together with everything that was sent before it, the earlier frames of the same
  -- commit included.
  pub commit-IsClean :
      (c : Coalescer) (sentence : Text) (c' : Coalescer) (frames : List Text)
      → commit lower is_identifier is_digit number_matches facts c sentence ≡ some (c', frames)
      → (c'.sent ≡ c.sent ++ frames) × ArePassed c.sent frames
  unfolding commit
  commit-IsClean c sentence c' frames h =
      elim (Bool-cases (c.stopped || (c.truncated || is_empty (strip sentence)))) [
        | inl silent ↦
            let early = (rw silent at h) in
            let same : ◌≡◌ {A = Coalescer × List Text} (c, []) (c', frames) = cc early in
            subst (λ r. IsClean c r.0 r.1) same (sym (append-nil c.sent), tt)
        | inr speaks ↦ commit_rest-IsClean (length sentence) c sentence c' frames (rw speaks at h)
      ]
