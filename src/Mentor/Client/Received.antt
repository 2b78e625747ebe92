-- ===== src/Mentor/Client/Received.antt =====
-- About a whole response, from the events of its stream: crates/core/src/mentor/anthropic.rs and
-- crates/core/src/mentor/assemble.rs.
use apprentice_harness.Common.{
  ◌≡◌, refl, ◌∙◌, ap, Bool, true, false, Option, none, some, List, [], ◌∷◌, append-nil, Bytes, Text,
}
use apprentice_harness.Common.Result.{ok}
use apprentice_harness.Mentor.Types.{ContentBlock, Usage, StopReason, usage_event, done_event}
use apprentice_harness.Mentor.Sse.{SseEvent}
use apprentice_harness.Mentor.Assemble.{
  Json, ApiErrorBody, MessageStart, Partial, Assembler, feed_envelope, on_message_delta,
  new_assembler, max_usage, content, finished_blocks,
}
use apprentice_harness.Mentor.Assemble.Slots.{filled-map-some, filled-empties}
use apprentice_harness.Mentor.Client.{feed_events, shows, response_of}
use apprentice_harness.Mentor.Client.Sent.{begins, tells, ends, Reports, Sent, sent}
use apprentice_harness.Mentor.Client.Response.{fed, run, fed-envelope, run-fed}
use apprentice_harness.Mentor.Client.InFlight.{full, run-Blocks}

module _ {Value : Type 0} (json : Json Value) (to_error_body : Value → Option ApiErrorBody)
    (lossy : Bytes → Text) where
  abbrev begun : MessageStart → Assembler Value
  begun m = record new_assembler { id = m.id; model = m.model; usage = m.usage }

  fed-begins :
      (e : SseEvent) (m : MessageStart)
      → json.read_envelope e.data_text ≡ ok (begins m)
      → fed json to_error_body lossy e new_assembler
        ≡ (ok (usage_event m.usage ∷ []), full json to_error_body lossy (begun m) false [])
  unfolding feed_envelope
  fed-begins e m h = rw (fed-envelope json to_error_body lossy e (begins m) new_assembler h) refl

  abbrev told : Assembler Value → StopReason → Usage → Assembler Value
  told a r u = record a { usage = max_usage a.usage u; stop_reason = some r }

  fed-tells :
      (e : SseEvent) (d : Value) (r : StopReason) (u : Usage) (a : Assembler Value)
      → json.read_envelope e.data_text ≡ ok (tells d u)
      → Reports json r d
      → fed json to_error_body lossy e a ≡ (ok (usage_event (max_usage a.usage u) ∷ []), told a r u)
  unfolding feed_envelope on_message_delta
  fed-tells e d r u a h (v, there, full_value, reads, absent) =
      rw
        (
          fed-envelope json to_error_body lossy e (tells d u) a h,
          on_message_delta,
          there,
          full_value,
          reads,
          absent,
        )
        refl

  fed-ends :
      (e : SseEvent) (a : Assembler Value)
      → json.read_envelope e.data_text ≡ ok ends
      → fed json to_error_body lossy e a ≡ (ok (done_event ∷ []), record a { finished = true })
  unfolding feed_envelope
  fed-ends e a h = rw (fed-envelope json to_error_body lossy e ends a h) refl

  run-end :
      (a : Assembler Value)
      → run json to_error_body lossy [] a ≡ record { outcome = ok tt; shown = []; assembler = a }
  unfolding feed_events
  run-end a = refl

  run-tells :
      (e end : SseEvent) (d : Value) (r : StopReason) (u : Usage) (a : Assembler Value)
      → json.read_envelope e.data_text ≡ ok (tells d u)
      → Reports json r d
      → json.read_envelope end.data_text ≡ ok ends
      → run json to_error_body lossy (e ∷ end ∷ []) a ≡ record {
        outcome = ok tt;
        shown = usage_event (max_usage a.usage u) ∷ done_event ∷ [];
        assembler = (let b = told a r u in record b { finished = true });
      }
  run-tells e end d r u a h reports g =
      let events = usage_event (max_usage a.usage u) ∷ [] in
      run-fed json to_error_body lossy e (end ∷ []) a (told a r u) events
        (fed-tells e d r u a h reports)
      ∙ ap (λ x. shows events x)
          (run-fed json to_error_body lossy end [] (told a r u) _ (done_event ∷ [])
              (fed-ends end (told a r u) g)
            ∙ ap (λ x. shows (done_event ∷ []) x) (run-end _))

  abbrev done_with : MessageStart → List (ContentBlock Value) → StopReason → Usage → Assembler Value
  done_with m bs r u =
      let b = told (full json to_error_body lossy (begun m) true bs) r u in
      record b { finished = true }

  content-full :
      (a : Assembler Value) (s : Bool) (bs : List (ContentBlock Value))
      → content json (full json to_error_body lossy a s bs) ≡ bs
  unfolding content finished_blocks
  content-full a s bs =
      rw (content, filled-map-some bs, filled-empties (Partial Value) bs) (append-nil bs)

  -- The events of a response, fed to a new assembler, succeed and finish it, and what is assembled is the
  -- response: its id and model, the blocks announced, in their order, the stop reason, and of each number
  -- of the usage the larger of those reported first and last.
  pub feed_events-Sent :
      (m : MessageStart) (bs : List (ContentBlock Value)) (r : StopReason) (u : Usage)
      (events : List SseEvent)
      → Sent json m bs r u events
      → let a = run json to_error_body lossy events new_assembler in
        (a.outcome ≡ ok tt)
        × (a.assembler.finished ≡ true)
        × (response_of json to_error_body lossy a.assembler ≡ record {
          id = m.id;
          model = m.model;
          content = bs;
          stop_reason = r;
          stop_details = none;
          usage = max_usage m.usage u;
        })
  feed_events-Sent m bs r u _ (sent start stop_reason end events d h blocks g reports k) =
      let (s', shown, same) =
        run-Blocks json to_error_body lossy 0 bs events (stop_reason ∷ end ∷ []) (begun m) false []
          blocks refl in
      let whole =
        run-fed json to_error_body lossy start events new_assembler _ _ (fed-begins start m h)
        ∙ ap (λ x. shows (usage_event m.usage ∷ []) x)
            (same
              ∙ ap (λ x. shows shown x)
                  (run-tells stop_reason end d r u (full json to_error_body lossy (begun m) s' bs) g
                    reports k)) in
      (
        ap (λ x. x.outcome) whole,
        ap (λ x. x.assembler.finished) whole,
        ap (λ x. response_of json to_error_body lossy x.assembler) whole
            ∙ ap
                (λ l. record {
                  id = m.id;
                  model = m.model;
                  content = l;
                  stop_reason = r;
                  stop_details = none;
                  usage = max_usage m.usage u;
                })
                (content-full (done_with m bs r u) s' bs),
      )
