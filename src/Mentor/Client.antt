-- ===== src/Mentor/Client.antt =====
-- The calls of the Messages API: crates/core/src/mentor/anthropic.rs. What the HTTP library and the clock
-- do in a call is an argument: the replies to the attempts, and the cancellations of the waits.
pub mod Quiet
pub mod Retries
pub mod Calls
pub mod Sent
pub mod Response
pub mod InFlight
pub mod Received
mod Tests
use apprentice_harness.Common.{
  ℕ, zero, suc, ◌+◌, Bool, true, false, not, ◌&&◌, ◌||◌, Option, none, some, List, [], ◌∷◌, ◌++◌,
  Bytes, Text, codes, text_eq, take, ◌==◌, if◌then◌else◌,
}
use apprentice_harness.Common.Result.{Result, ok, err}
use apprentice_harness.Mentor.Types.{
  ContentBlock, Usage, StopReason, StopDetails, StreamEvent, NetworkError, MentorError, auth,
  rate_limited, overloaded, invalid_request, request_too_large, api_error, stream_error, network,
  disconnected, stream_interrupted, call_cancelled, timeout,
}
use apprentice_harness.Mentor.Error.{is_retryable}
use apprentice_harness.Mentor.Sse.{SseEvent, SseParser, new_parser, push}
use apprentice_harness.Mentor.Sse
use apprentice_harness.Mentor.Assemble.{
  Json, ApiErrorBody, Assembler, Fed, new_assembler, feed, content, stop_reason_of,
}

-- What a round of the stream's loop gets: the cancellation, bytes, or an error of the HTTP library and
-- whether that is a timeout. A list of them is the stream, which ends where the list does.
pub data Arrival : Type 0 where
  cancelled_wait : Arrival
  bytes_arrive : Bytes → Arrival
  breaks_off : Bool → Arrival

-- What the request of an attempt is answered with.
pub data Reply : Type 0 where
  cancelled_send : Reply
  failed_send : NetworkError → Reply
  refused_with : ℕ → Option ℕ → Text → Reply
  streams : List Arrival → Reply

-- `MentorResponse`, without the times and the raw bytes.
pub record MentorResponse (Value : Type 0) : Type 0 where
  pub id : Text
  pub model : Text
  pub content : List (ContentBlock Value)
  pub stop_reason : StopReason
  pub stop_details : Option (StopDetails Value)
  pub usage : Usage

-- What an attempt comes to, the events forwarded on the way, and the assembler.
pub record Attempt (Value : Type 0) : Type 0 where
  pub outcome : Result (MentorError Value) Unit
  pub shown : List StreamEvent
  pub assembler : Assembler Value

-- What a call comes to, the events forwarded, and the number of attempts.
pub record Completed (Value : Type 0) : Type 0 where
  pub outcome : Result (MentorError Value) (MentorResponse Value)
  pub shown : List StreamEvent
  pub attempts : ℕ

module _ {Value : Type 0} where
  abbrev pub map_reqwest : NetworkError → MentorError Value
  map_reqwest e = if e.is_timeout then timeout else network e

  abbrev pub status_kind : ℕ → Option ℕ → Text → Text → MentorError Value
  status_kind status retry_after kind message =
      if (status == 401 || status == 403) && not (text_eq kind (codes "billing_error"))
      then auth
      else if status == 400
      then invalid_request message
      else if status == 413
      then request_too_large
      else if status == 429
      then rate_limited retry_after
      else if status == 529
      then overloaded
      else api_error status kind message

  abbrev pub shows : List StreamEvent → Attempt Value → Attempt Value
  shows events r = record r { shown = events ++ r.shown }

  abbrev pub fails : MentorError Value → Assembler Value → Attempt Value
  fails e a = record { outcome = err e; shown = []; assembler = a }

  abbrev pub retried : Attempt Value → Bool
  retried r = elim (r.outcome) [ err e ↦ is_retryable e | ok u ↦ false ]

  abbrev pub shows_first : List StreamEvent → Completed Value → Completed Value
  shows_first events c = record c { shown = events ++ c.shown }

  abbrev pub gives_up : Attempt Value → ℕ → Completed Value
  gives_up r n = record { outcome = err call_cancelled; shown = r.shown; attempts = suc n }

module _ {Value : Type 0} (json : Json Value) (to_error_body : Value → Option ApiErrorBody)
    (lossy : Bytes → Text) where
  -- The body of a reply with the error it describes.
  abbrev pub error_body : Text → Option ApiErrorBody
  error_body body = elim (json.read_value body) [
    | err e ↦ none
    | ok v ↦ elim (json.get v (codes "error")) [ none ↦ none | some e ↦ to_error_body e ]
  ]

  unfoldable pub status_error : ℕ → Option ℕ → Text → MentorError Value
  status_error status retry_after body = elim (error_body body) [
    | none ↦ status_kind status retry_after (codes "unknown") (take 500 body)
    | some e ↦ status_kind status retry_after e.kind e.message
  ]

  -- An `error` event after content has started is an interruption.
  abbrev pub interrupt : Fed Value → Fed Value
  interrupt (err (stream_error kind message), a) =
      if a.started
      then (err (stream_interrupted (content json a)), a)
      else (err (stream_error kind message), a)
  interrupt other = other

  -- `feed` of the client.
  unfoldable pub feed_event : Text → Assembler Value → Fed Value
  feed_event payload a = interrupt (feed json payload a)

  -- The events of a chunk.
  unfoldable pub feed_events : List SseEvent → Assembler Value → Attempt Value
  unfolding feed_event
  feed_events [] a = record { outcome = ok tt; shown = []; assembler = a }
  feed_events (ev ∷ evs) a =
      let (fed, a') = feed_event ev.data_text a in
      elim fed [
        | err e ↦ record { outcome = err e; shown = []; assembler = a' }
        | ok events ↦ shows events (feed_events evs a')
      ]

  -- The error of a stream that breaks off: an interruption once content has started.
  abbrev pub broken : MentorError Value → Assembler Value → MentorError Value
  broken e a = if a.started then stream_interrupted (content json a) else e

  -- The end of the stream, behind the last event of the parser.
  abbrev pub ended : Attempt Value → Attempt Value
  ended r = elim (r.outcome) [
    | err e ↦ r
    | ok u ↦
        let a = r.assembler in
        record r { outcome = if a.finished then ok tt else err (broken disconnected a) }
  ]

  -- The loop over the stream.
  unfoldable pub read_stream : List Arrival → SseParser → Assembler Value → Attempt Value
  unfolding feed_events
  read_stream [] p a = ended (feed_events (Sse.opt_list (Sse.finish lossy p).0) a)
  read_stream (cancelled_wait ∷ rest) p a = fails call_cancelled a
  read_stream (breaks_off is_timeout ∷ rest) p a =
      fails (broken (if is_timeout then timeout else disconnected) a) a
  read_stream (bytes_arrive bs ∷ rest) p a =
      let (events, p') = push lossy bs p in
      let r = feed_events events a in
      elim (r.outcome) [
        | err e ↦ r
        | ok u ↦ elim (r.assembler.finished) [
          | true ↦ r
          | false ↦ shows r.shown (read_stream rest p' r.assembler)
        ]
      ]

  unfoldable pub attempt : Reply → Attempt Value
  unfolding read_stream
  attempt cancelled_send = fails call_cancelled new_assembler
  attempt (failed_send e) = fails (map_reqwest e) new_assembler
  attempt (refused_with status retry_after body) =
      fails (status_error status retry_after body) new_assembler
  attempt (streams arrivals) = read_stream arrivals new_parser new_assembler

  abbrev pub response_of : Assembler Value → MentorResponse Value
  response_of a = record {
    id = a.id;
    model = a.model;
    content = content json a;
    stop_reason = stop_reason_of a;
    stop_details = a.stop_details;
    usage = a.usage;
  }

  abbrev pub completed : Attempt Value → ℕ → Completed Value
  completed r n = elim (r.outcome) [
    | err e ↦ record { outcome = err e; shown = r.shown; attempts = suc n }
    | ok u ↦ record { outcome = ok (response_of r.assembler); shown = r.shown; attempts = suc n }
  ]

  -- The loop of `complete`, with `n` attempts made and some retries left: `replies n` answers the attempt,
  -- and `cancels n` says whether the wait behind it is cancelled.
  unfoldable pub complete_from : ℕ → (ℕ → Reply) → (ℕ → Bool) → ℕ → Completed Value
  complete_from zero replies cancels n = completed (attempt (replies n)) n
  complete_from (suc retries) replies cancels n =
      let r = attempt (replies n) in
      elim (retried r) [
        | false ↦ completed r n
        | true ↦ elim (cancels n) [
          | true ↦ gives_up r n
          | false ↦ shows_first r.shown (complete_from retries replies cancels (suc n))
        ]
      ]

  unfoldable pub complete : ℕ → (ℕ → Reply) → (ℕ → Bool) → Completed Value
  unfolding complete_from
  complete max_retries replies cancels = complete_from max_retries replies cancels 0
