-- ===== src/Mentor/Client/Retries.antt =====
-- About the attempts of crates/core/src/mentor/anthropic.rs that are made again.
use apprentice_harness.Common.{
  ◌≡◌, ◌≢◌, refl, sym, ◌∙◌, ap, Bool, true, false, not, inl, inr, Option, List, [], ◌∷◌, Bytes,
  Text, All-append, Bool-cases, if◌then◌else◌,
}
use apprentice_harness.Common.Result.{Result, ok, err, Result-cases}
use apprentice_harness.Mentor.Types.{StreamEvent, MentorError, protocol, stream_error, disconnected}
use apprentice_harness.Mentor.Error.{is_retryable}
use apprentice_harness.Mentor.Sse.{SseEvent, SseParser, new_parser, push}
use apprentice_harness.Mentor.Assemble.{Json, ApiErrorBody, Assembler, new_assembler, feed}
use apprentice_harness.Mentor.Client.Quiet.{
  Quiet, Calm, Known, not_again, QuietFed, Settled, feed-Settled, running, calm,
}
use apprentice_harness.Mentor.Client.{
  shows, fails, ended, broken, Arrival, cancelled_wait, bytes_arrive, breaks_off, Reply,
  cancelled_send, failed_send, refused_with, streams, Attempt, interrupt, feed_event, feed_events,
  read_stream, attempt, retried,
}

true-false : true ≢ false
true-false h = cc

not-true : {b : Bool} → not b ≡ true → b ≡ false
not-true {b = true} h = cc
not-true {b = false} h = refl

module _ {Value : Type 0} where
  -- The same of `feed` of the client: what is not quiet is not tried again.
  data Heard (a : Assembler Value) (r : Result (MentorError Value) (List StreamEvent))
      (b : Assembler Value) : Type 0 where
    loud : b.started ≡ true → not_again r ≡ true → Heard a r b
    unheard : Calm a → Calm b → QuietFed r → Heard a r b

  -- And of all that is left of an attempt.
  data Ends (a : Assembler Value) (r : Attempt Value) : Type 0 where
    final : r.assembler.started ≡ true → retried r ≡ false → Ends a r
    quietly : Calm a → Calm r.assembler → Quiet r.shown → Ends a r

  module _ (json : Json Value) (to_error_body : Value → Option ApiErrorBody)
      (lossy : Bytes → Text) where
    interrupt-Heard :
        (r : Result (MentorError Value) (List StreamEvent)) (a b : Assembler Value)
        → Settled a (r, b)
        → Heard a
            (interrupt json to_error_body lossy (r, b)).0
            (interrupt json to_error_body lossy (r, b)).1
    unfolding is_retryable
    interrupt-Heard (ok events) a b (running s h) = loud s refl
    interrupt-Heard (ok events) a b (calm c d q) = unheard c d q
    interrupt-Heard (err (stream_error k m)) a b (running s h) = rw s (loud refl refl)
    interrupt-Heard (err (stream_error k m)) a b (calm c d q) = rw (d.0) (unheard c (refl, d.1) tt)
    interrupt-Heard (err (protocol f)) a b (running s h) = loud s refl
    interrupt-Heard (err _) a b (running s h) = cc
    interrupt-Heard (err _) a b (calm c d q) = unheard c d q

    feed_event-Heard :
        (payload : Text) (a : Assembler Value)
        → Known a
        → Heard a
            (feed_event json to_error_body lossy payload a).0
            (feed_event json to_error_body lossy payload a).1
    unfolding feed_event
    feed_event-Heard payload a k =
        interrupt-Heard (feed json payload a).0 a (feed json payload a).1
          (feed-Settled json payload a k)

    Known-after :
        (a : Assembler Value) (r : Result (MentorError Value) (List StreamEvent))
        (b : Assembler Value)
        → Heard a r b
        → Known b
    Known-after a r b (loud s h) = inl s
    Known-after a r b (unheard c d q) = inr d

    Heard-of :
        (a : Assembler Value) (r : Attempt Value) → Ends a r → Heard a (ok r.shown) r.assembler
    Heard-of a r (final s h) = loud s refl
    Heard-of a r (quietly c d q) = unheard c d q

    shows-Ends :
        (a : Assembler Value) (events : List StreamEvent) (b : Assembler Value) (r : Attempt Value)
        → Heard a (ok events) b
        → Ends b r
        → Ends a (shows events r)
    shows-Ends a events b r h (final s n) = final s n
    shows-Ends a events b r (loud s h) (quietly c d q) = absurd (true-false (sym s ∙ c.0))
    shows-Ends a events b r (unheard c' d' q') (quietly c d q) =
        quietly c' d (All-append _ events r.shown q' q)

    fails-Ends :
        (a : Assembler Value) (e : MentorError Value) (b : Assembler Value)
        → Heard a (err e) b
        → Ends a (fails e b)
    fails-Ends a e b (loud s h) = final s (not-true h)
    fails-Ends a e b (unheard c d q) = quietly c d tt

    feed_events-Ends :
        (evs : List SseEvent) (a : Assembler Value)
        → Known a
        → Ends a (feed_events json to_error_body lossy evs a)
    unfolding feed_events
    feed_events-Ends [] a (inl s) = final s refl
    feed_events-Ends [] a (inr c) = quietly c c tt
    feed_events-Ends (ev ∷ evs) a k =
        let fed = feed_event json to_error_body lossy ev.data_text a in
        let heard = feed_event-Heard ev.data_text a k in
        elim (Result-cases (fed.0)) [
          | inl (e, f) ↦ rw (feed_events, f) (fails-Ends a e fed.1 (rw f at heard))
          | inr (events, f) ↦
              rw (feed_events, f)
                (shows-Ends a events fed.1 (feed_events json to_error_body lossy evs fed.1)
                  (rw f at heard) (feed_events-Ends evs fed.1 (Known-after a fed.0 fed.1 heard)))
        ]

    ended-err :
        (r : Attempt Value) (e : MentorError Value)
        → r.outcome ≡ err e
        → ended json to_error_body lossy r ≡ r
    ended-err r e f = rw (ended, f) (ap (λ o. record r { outcome = o }) f)

    ended-ok :
        (r : Attempt Value)
        → r.outcome ≡ ok tt
        → ended json to_error_body lossy r ≡ record r {
          outcome =
              if r.assembler.finished
              then ok tt
              else err (broken json to_error_body lossy disconnected r.assembler);
        }
    ended-ok r f = rw (ended, f) refl

    end-Ends :
        (a : Assembler Value) (r : Attempt Value) (finished : Bool)
        → Ends a r
        → Ends a (record r {
          outcome =
              if finished
              then ok tt
              else err (broken json to_error_body lossy disconnected r.assembler);
        })
    unfolding is_retryable
    end-Ends a r true (final s h) = final s refl
    end-Ends a r false (final s h) = final s (rw s refl)
    end-Ends a r finished (quietly c d q) = quietly c d q

    ended-Ends :
        (a : Assembler Value) (r : Attempt Value)
        → Ends a r
        → Ends a (ended json to_error_body lossy r)
    ended-Ends a r h = elim (Result-cases (r.outcome)) [
      | inl (e, f) ↦ rw (ended-err r e f) h
      | inr (u, f) ↦ rw (ended-ok r f) (end-Ends a r r.assembler.finished h)
    ]

    read_stream-Ends :
        (arrivals : List Arrival) (p : SseParser) (a : Assembler Value)
        → Known a
        → Ends a (read_stream json to_error_body lossy arrivals p a)
    unfolding read_stream is_retryable
    read_stream-Ends [] p a k = ended-Ends a _ (feed_events-Ends _ a k)
    read_stream-Ends (cancelled_wait ∷ rest) p a (inl s) = final s refl
    read_stream-Ends (cancelled_wait ∷ rest) p a (inr c) = quietly c c tt
    read_stream-Ends (breaks_off t ∷ rest) p a (inl s) = final s (rw s refl)
    read_stream-Ends (breaks_off t ∷ rest) p a (inr c) = quietly c c tt
    read_stream-Ends (bytes_arrive bs ∷ rest) p a k =
        let pushed = push lossy bs p in
        let r = feed_events json to_error_body lossy pushed.0 a in
        let h = feed_events-Ends pushed.0 a k in
        let heard = Heard-of a r h in
        elim (Result-cases (r.outcome)) [
          | inl (e, f) ↦ rw (read_stream, f) h
          | inr (u, f) ↦ elim (Bool-cases (r.assembler.finished)) [
            | inl g ↦ rw (read_stream, f, g) h
            | inr g ↦
                rw (read_stream, f, g)
                  (shows-Ends a r.shown r.assembler _ heard (
                    read_stream-Ends rest pushed.1 r.assembler
                      (Known-after a (ok r.shown) r.assembler heard)))
          ]
        ]

    -- What is tried again has shown nothing of the content.
    pub attempt-Quiet :
        (reply : Reply)
        → retried (attempt json to_error_body lossy reply) ≡ true
        → Quiet (attempt json to_error_body lossy reply).shown
    unfolding attempt
    attempt-Quiet cancelled_send h = tt
    attempt-Quiet (failed_send e) h = tt
    attempt-Quiet (refused_with status retry_after body) h = tt
    attempt-Quiet (streams arrivals) h =
        elim (read_stream-Ends arrivals new_parser new_assembler (inr (refl, refl))) [
          | final s n ↦ absurd (true-false (sym h ∙ n))
          | quietly c d q ↦ q
        ]
