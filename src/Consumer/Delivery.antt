-- ===== src/Consumer/Delivery.antt =====
-- The redeliveries of a message whose handler may keep failing.
use mirageby_ai.Common.{
  ℕ, zero, suc, ◌+◌, ◌-◌, ◌≤◌, ◌<◌, String, Bool, true, false, if◌then◌else◌, ◌≡◌, ◌⊎◌, ◌∙◌, refl,
  inl, inr, Option, none, some, List, [], ◌∷◌, arith, Bool-cases, leb, leb→le,
}
use mathlib.Core.Path.{subst}
use mirageby_ai.Contracts.Subjects.{failed_subject_for}
use mirageby_ai.Consumer.{
  Msg, Failure, DeadLetterInfo, Signal, ack, nak, published, Outcome, processed, retried,
  dead_lettered, not_published, Consumer, bury, remember, dead_letter, settle, process, backoff,
}

module _ {W : Type 0} (handler : Msg → W → Option Failure × W)
    (publish : String → DeadLetterInfo → W → Bool × W) where
  -- What the broker is told, by what has happened.
  abbrev pub IsSignalled : Msg → Consumer → W → Outcome × List Signal × Consumer × W → Type 0
  IsSignalled msg c w (processed, signals, c', w') =
      ((handler msg w).0 ≡ none) × (signals ≡ ack ∷ [])
  IsSignalled msg c w (retried, signals, c', w') =
      ((e : Failure) × ((handler msg w).0 ≡ some e))
      × (msg.num_delivered < c.max_deliver)
      × (signals ≡ nak (backoff c.backoff_seconds (msg.num_delivered - 1)) ∷ [])
  IsSignalled msg c w (dead_lettered, signals, c', w') =
      (c.max_deliver ≤ msg.num_delivered)
      × ((e : Failure) × (info : DeadLetterInfo) × ((handler msg w).0 ≡ some e)
          × (info.error_type ≡ e.error_type)
          × (info.attempt_count ≡ msg.num_delivered)
          × (info.original_subject ≡ msg.subject)
          × ((publish (failed_subject_for msg.subject) info (handler msg w).1).0 ≡ true)
          × (signals ≡ published (failed_subject_for msg.subject) info ∷ ack ∷ []))
  IsSignalled msg c w (not_published, signals, c', w') =
      (c.max_deliver ≤ msg.num_delivered)
      × ((e : Failure) × (info : DeadLetterInfo) × ((handler msg w).0 ≡ some e)
          × (info.error_type ≡ e.error_type)
          × (info.attempt_count ≡ msg.num_delivered)
          × (info.original_subject ≡ msg.subject)
          × ((publish (failed_subject_for msg.subject) info (handler msg w).1).0 ≡ false)
          × (signals ≡ []))

  bury-IsSignalled :
      (msg : Msg) (e : Failure) (now : String) (seen : List (String × String)) (c : Consumer)
      (w : W)
      → (handler msg w).0 ≡ some e
      → c.max_deliver ≤ msg.num_delivered
      → IsSignalled msg c w (
          bury handler publish msg e now (record c { first_failure_seen = seen }) (handler msg w).1)
  bury-IsSignalled msg e now seen c w h last =
      let info = dead_letter (record c { first_failure_seen = seen }) msg e now in
      elim (Bool-cases (publish (failed_subject_for msg.subject) info (handler msg w).1).0) [
        | inl sent ↦ rw sent (last, (e, info, h, refl, refl, refl, sent, refl))
        | inr failed ↦ rw failed (last, (e, info, h, refl, refl, refl, failed, refl))
      ]

  settle-IsSignalled :
      (msg : Msg) (failure : Option Failure) (now : String) (seen : List (String × String))
      (c : Consumer) (w : W)
      → (handler msg w).0 ≡ failure
      → IsSignalled msg c w (
          settle handler publish msg failure now
            (record c { first_failure_seen = seen })
            (handler msg w).1)
  settle-IsSignalled msg none now seen c w h = (h, refl)
  settle-IsSignalled msg (some e) now seen c w h =
      elim (Bool-cases (leb c.max_deliver msg.num_delivered)) [
        | inr more ↦ rw more ((e, h), ground arith, refl)
        | inl last ↦ rw last (bury-IsSignalled msg e now seen c w h (leb→le _ _ last))
      ]

  -- No message is acknowledged and lost: an acknowledgement is sent only when the handler has
  -- returned, or, at the last delivery that is allowed, behind a dead letter that was published
  -- for the failure; before that a failure asks for the message again, after the backoff; and when
  -- the dead letter's publication has failed, nothing is sent.
  pub process-IsSignalled :
      (msg : Msg) (now : String) (c : Consumer) (w : W)
      → IsSignalled msg c w (process handler publish msg now c w)
  unfolding process
  process-IsSignalled msg now c w =
      settle-IsSignalled msg (handler msg w).0 now (remember msg.event_id now c.first_failure_seen)
        c w refl

  settle_keeps :
      (msg : Msg) (failure : Option Failure) (now : String) (c : Consumer) (w : W)
      → (settle handler publish msg failure now c w).2.max_deliver ≡ c.max_deliver
  settle_keeps msg none now c w = refl
  settle_keeps msg (some e) now c w = elim (Bool-cases (leb c.max_deliver msg.num_delivered)) [
    | inr more ↦ rw more refl
    | inl last ↦
        elim (Bool-cases (publish (failed_subject_for msg.subject) (dead_letter c msg e now) w).0) [
          | inl sent ↦ rw (last, sent) refl
          | inr failed ↦ rw (last, failed) refl
        ]
  ]

  process_keeps :
      (msg : Msg) (now : String) (c : Consumer) (w : W)
      → (process handler publish msg now c w).2.max_deliver ≡ c.max_deliver
  unfolding process
  process_keeps msg now c w =
      settle_keeps msg (handler msg w).0 now
        (record c { first_failure_seen = remember msg.event_id now c.first_failure_seen })
        (handler msg w).1

  -- JetStream delivers a message again when it is asked to by a signal, and counts; the times of
  -- the deliveries are given. The end is the last delivery, with the world it found and what came
  -- of it; on fuel.
  abbrev pub End : Type 0
  End = Msg × Consumer × W × Outcome × List Signal

  abbrev pub asks_again : List Signal → Bool
  asks_again [] = false
  asks_again (ack ∷ ss) = asks_again ss
  asks_again (nak delay ∷ ss) = true
  asks_again (published subject info ∷ ss) = asks_again ss

  abbrev pub deliver : ℕ → (ℕ → String) → Msg → Consumer → W → Option End
  deliver zero times msg c w = none
  deliver (suc fuel) times msg c w =
      let (o, signals, c', w') = process handler publish msg (times msg.num_delivered) c w in
      let rest = deliver fuel times (record msg { num_delivered = msg.num_delivered + 1 }) c' w' in
      if asks_again signals then rest else some (msg, c, w, o, signals)

  -- What the broker has been told at the end, and why.
  abbrev pub IsSettled : ℕ → Msg → W → List Signal → Type 0
  IsSettled most m w signals =
      (((handler m w).0 ≡ none) × (signals ≡ ack ∷ []))
      ⊎ ((m.num_delivered ≡ most)
          × ((e : Failure) × (info : DeadLetterInfo) × ((handler m w).0 ≡ some e)
              × (info.error_type ≡ e.error_type)
              × (info.attempt_count ≡ most)
              × (info.original_subject ≡ m.subject)
              × ((((publish (failed_subject_for m.subject) info (handler m w).1).0 ≡ true)
                    × (signals ≡ published (failed_subject_for m.subject) info ∷ ack ∷ []))
                  ⊎ (((publish (failed_subject_for m.subject) info (handler m w).1).0 ≡ false)
                      × (signals ≡ [])))))

  abbrev Ended : Consumer → Option End → Type 0
  Ended c x =
      (m : Msg) × (d : Consumer) × (w : W) × (o : Outcome) × (signals : List Signal) × (x
        ≡ some (m, d, w, o, signals))
      × (m.num_delivered ≤ c.max_deliver)
      × IsSettled c.max_deliver m w signals

  step-Ended :
      (msg : Msg) (c : Consumer) (w : W) (r : Outcome × List Signal × Consumer × W)
      (rest : Option End)
      → msg.num_delivered ≤ c.max_deliver
      → IsSignalled msg c w r
      → (msg.num_delivered < c.max_deliver → Ended c rest)
      → Ended c (if asks_again r.1 then rest else some (msg, c, w, r.0, r.1))
  step-Ended msg c w (processed, s, c', w') rest h (ok, told) later =
      rw told (msg, c, w, processed, ack ∷ [], refl, h, inl (ok, refl))
  step-Ended msg c w (retried, s, c', w') rest h (failed, more, told) later = rw told (later more)
  step-Ended msg c w (dead_lettered, s, c', w') rest h
        (last, (e, info, failed, type, tries, subject, sent, told)) later =
      let same : msg.num_delivered ≡ c.max_deliver = omega arith in
      rw told (
        msg,
        c,
        w,
        dead_lettered,
        _,
        refl,
        h,
        inr (same, (e, info, failed, type, tries ∙ same, subject, inl (sent, refl))),
      )
  step-Ended msg c w (not_published, s, c', w') rest h
        (last, (e, info, failed, type, tries, subject, sent, told)) later =
      let same : msg.num_delivered ≡ c.max_deliver = omega arith in
      rw told (
        msg,
        c,
        w,
        not_published,
        _,
        refl,
        h,
        inr (same, (e, info, failed, type, tries ∙ same, subject, inr (sent, refl))),
      )

  -- A message is settled within the deliveries that are allowed, whatever its handler does, also
  -- one that fails every time: at some delivery, not behind the last one allowed, either the
  -- handler returns and the message is acknowledged, or it is the last one and the handler fails;
  -- then a dead letter with the failure is published and the message acknowledged, or that
  -- publication fails and nothing is sent.
  pub deliver_settles :
      (fuel : ℕ) (times : ℕ → String) (msg : Msg) (c : Consumer) (w : W)
      → msg.num_delivered ≤ c.max_deliver
      → c.max_deliver < msg.num_delivered + fuel
      → (m : Msg) × (d : Consumer) × (v : W) × (o : Outcome) × (signals : List Signal) × (deliver
            fuel times msg c w
          ≡ some (m, d, v, o, signals))
        × (m.num_delivered ≤ c.max_deliver)
        × IsSettled c.max_deliver m v signals
  deliver_settles zero times msg c w h k = absurd (omega arith)
  deliver_settles (suc fuel) times msg c w h k =
      let now = times msg.num_delivered in
      let r = process handler publish msg now c w in
      let next = record msg { num_delivered = msg.num_delivered + 1 } in
      let same = process_keeps msg now c w in
      step-Ended msg c w r (deliver fuel times next r.2 r.3) h (process-IsSignalled msg now c w)
        λ more.
          subst
            (λ most.
              (m : Msg) × (d : Consumer) × (v : W) × (o : Outcome) × (signals : List Signal)
              × (deliver fuel times next r.2 r.3 ≡ some (m, d, v, o, signals))
              × (m.num_delivered ≤ most)
              × IsSettled most m v signals)
            same
            (deliver_settles fuel times next r.2 r.3 (omega (arith, same)) (omega (arith, same)))
