-- ===== src/Mentor/Client/Response.antt =====
-- About the assembly of the events of a response: `feed` of crates/core/src/mentor/anthropic.rs and
-- `Assembler` of crates/core/src/mentor/assemble.rs.
use apprentice_harness.Common.{
  ℕ, ◌≡◌, refl, sym, ◌∙◌, ap, true, Option, none, some, List, [], ◌∷◌, ◌++◌, append_assoc,
  append-nil, length, Bytes, Text, codes, All,
}
use apprentice_harness.Common.Result.{ok}
use apprentice_harness.Mentor.Types.{ContentBlock, StreamEvent, block_stop}
use apprentice_harness.Mentor.Sse.{SseEvent}
use apprentice_harness.Mentor.Assemble.{
  Json, ApiErrorBody, Envelope, Partial, partial_text, partial_tool, partial_thinking, Assembler,
  Fed, begin_block, apply_delta, str_field, finish, input_of, feed, feed_envelope, on_block_start,
  on_block_delta, on_block_stop,
}
use apprentice_harness.Mentor.Assemble.Slots.{
  put_slot, slot-append, put_slot-append, put_slot-end, clear_slot-append,
}
use apprentice_harness.Mentor.Client.{Attempt, feed_event, feed_events, shows, interrupt}
use apprentice_harness.Mentor.Client.Sent.{
  starts, grows, stops, pings, HasType, pieces, Announces, announces_text, announces_call,
  announces_bare_call, announces_thinking, announces_redacted,
}

module _ {Value : Type 0} (json : Json Value) (to_error_body : Value → Option ApiErrorBody)
    (lossy : Bytes → Text) where
  abbrev pub fed : SseEvent → Assembler Value → Fed Value
  fed e a = feed_event json to_error_body lossy e.data_text a

  abbrev pub run : List SseEvent → Assembler Value → Attempt Value
  run evs a = feed_events json to_error_body lossy evs a

  abbrev pub in_flight :
      Assembler Value → List (Option (Partial Value)) → Partial Value → Assembler Value
  in_flight a gone p = record a { blocks = gone ++ some p ∷ [] }

  -- A block with a delta.
  abbrev pub grown : ℕ → Partial Value → Value → Partial Value × List StreamEvent
  grown i p d = apply_delta i (str_field json d (codes "type")) (str_field json d) p

  abbrev pub grown_by : ℕ → Partial Value → List Value → Partial Value
  grown_by i p [] = p
  grown_by i p (d ∷ ds) = grown_by i (grown i p d).0 ds

  pub fed-envelope :
      (e : SseEvent) (env : Envelope Value) (a : Assembler Value)
      → json.read_envelope e.data_text ≡ ok env
      → fed e a ≡ interrupt json to_error_body lossy (feed_envelope json e.data_text env a)
  unfolding feed_event feed
  fed-envelope e env a h = rw (feed_event, feed, h) refl

  pub run-fed :
      (e : SseEvent) (evs : List SseEvent) (a b : Assembler Value) (events : List StreamEvent)
      → fed e a ≡ (ok events, b)
      → run (e ∷ evs) a ≡ shows events (run evs b)
  unfolding feed_events
  run-fed e evs a b events h =
      let h0 = ap (λ f. f.0) h in let h1 = ap (λ f. f.1) h in rw (feed_events, h0, h1) refl

  pub shows-shows :
      (xs ys : List StreamEvent) (r : Attempt Value) → shows xs (shows ys r) ≡ shows (xs ++ ys) r
  shows-shows xs ys r = ap (λ l. record r { shown = l }) (sym (append_assoc xs ys r.shown))

  pub fed-pings :
      (e : SseEvent) (a : Assembler Value)
      → json.read_envelope e.data_text ≡ ok pings
      → fed e a ≡ (ok [], a)
  unfolding feed_envelope
  fed-pings e a h = rw (fed-envelope e pings a h) refl

  pub fed-grows :
      (e : SseEvent) (a : Assembler Value) (gone : List (Option (Partial Value)))
      (p : Partial Value) (d : Value)
      → json.read_envelope e.data_text ≡ ok (grows (length gone) d)
      → fed e (in_flight a gone p)
        ≡ (ok (grown (length gone) p d).1, in_flight a gone (grown (length gone) p d).0)
  unfolding feed_envelope on_block_delta
  fed-grows e a gone p d h =
      rw
        (
          fed-envelope e (grows (length gone) d) (in_flight a gone p) h,
          on_block_delta,
          slot-append gone (some p),
          put_slot-append gone (grown (length gone) p d).0 (some p),
        )
        refl

  pub fed-stops :
      (e : SseEvent) (a : Assembler Value) (gone : List (Option (Partial Value)))
      (p : Partial Value) (b : ContentBlock Value)
      → json.read_envelope e.data_text ≡ ok (stops (length gone))
      → finish json p ≡ ok b
      → fed e (in_flight a gone p) ≡ (
        ok (block_stop (length gone) ∷ []),
        record a { blocks = gone ++ none ∷ []; done = put_slot (length gone) b a.done },
      )
  unfolding feed_envelope on_block_stop
  fed-stops e a gone p b h f =
      rw
        (
          fed-envelope e (stops (length gone)) (in_flight a gone p) h,
          on_block_stop,
          slot-append gone (some p),
          f,
          clear_slot-append gone (some p),
        )
        refl

  pub fed-starts :
      (e : SseEvent) (a : Assembler Value) (v : Value)
      → json.read_envelope e.data_text ≡ ok (starts (length a.blocks) v)
      → fed e a ≡ (
        ok (begin_block json (length a.blocks) v).1,
        in_flight (record a { started = true }) a.blocks (begin_block json (length a.blocks) v).0,
      )
  unfolding feed_envelope on_block_start
  fed-starts e a v h =
      rw
        (
          fed-envelope e (starts (length a.blocks) v) a h,
          on_block_start,
          put_slot-end a.blocks (begin_block json (length a.blocks) v).0,
        )
        refl

  grown_by-text :
      (i : ℕ) (t : Text) (ds : List Value)
      → All (HasType json (codes "text_delta")) ds
      → grown_by i (partial_text t) ds ≡ partial_text (t ++ pieces json (codes "text") ds)
  unfolding apply_delta
  grown_by-text i t [] h = ap (λ x. partial_text x) (sym (append-nil t))
  grown_by-text i t (d ∷ ds) h =
      let s = str_field json d (codes "text") in
      rw (apply_delta, h.0)
        (grown_by-text i (t ++ s) ds h.1
          ∙ ap (λ x. partial_text x) (append_assoc t s (pieces json (codes "text") ds)))

  grown_by-call :
      (i : ℕ) (id name t : Text) (ds : List Value)
      → All (HasType json (codes "input_json_delta")) ds
      → grown_by i (partial_tool id name t) ds
        ≡ partial_tool id name (t ++ pieces json (codes "partial_json") ds)
  unfolding apply_delta
  grown_by-call i id name t [] h = ap (λ x. partial_tool id name x) (sym (append-nil t))
  grown_by-call i id name t (d ∷ ds) h =
      let s = str_field json d (codes "partial_json") in
      rw (apply_delta, h.0)
        (grown_by-call i id name (t ++ s) ds h.1
          ∙ ap (λ x. partial_tool id name x)
              (append_assoc t s (pieces json (codes "partial_json") ds)))

  grown-signature :
      (i : ℕ) (t : Text) (d : Value)
      → HasType json (codes "signature_delta") d
      → (grown i (partial_thinking t []) d).0
        ≡ partial_thinking t (str_field json d (codes "signature"))
  unfolding apply_delta
  grown-signature i t d g = rw (apply_delta, g) refl

  grown_by-thinking :
      (i : ℕ) (t : Text) (ds : List Value) (d : Value)
      → All (HasType json (codes "thinking_delta")) ds
      → HasType json (codes "signature_delta") d
      → grown_by i (partial_thinking t []) (ds ++ d ∷ [])
        ≡ partial_thinking
            (t ++ pieces json (codes "thinking") ds)
            (str_field json d (codes "signature"))
  unfolding apply_delta
  grown_by-thinking i t [] d h g =
      grown-signature i t d g
      ∙ ap (λ x. partial_thinking x (str_field json d (codes "signature"))) (sym (append-nil t))
  grown_by-thinking i t (e ∷ ds) d h g =
      let s = str_field json e (codes "thinking") in
      rw (grown_by, apply_delta, h.0)
        (grown_by-thinking i (t ++ s) ds d h.1 g
          ∙ ap (λ x. partial_thinking x (str_field json d (codes "signature")))
              (append_assoc t s (pieces json (codes "thinking") ds)))

  -- What is announced is what the block in flight finishes as.
  pub finish-announced :
      (i : ℕ) (b : ContentBlock Value) (v : Value) (ds : List Value)
      → Announces json b v ds
      → finish json (grown_by i (begin_block json i v).0 ds) ≡ ok b
  unfolding begin_block finish
  finish-announced i _ _ _ (announces_text v ds h hs) =
      rw (begin_block, h, grown_by-text i (str_field json v (codes "text")) ds hs) refl
  finish-announced i _ _ _ (announces_call v ds input h hs full r) =
      rw
        (
          begin_block,
          h,
          grown_by-call i (str_field json v (codes "id")) (str_field json v (codes "name")) [] ds
              hs,
          full,
          input_of,
          r,
        )
        refl
  finish-announced i _ _ _ (announces_bare_call v ds h hs blank) =
      rw
        (
          begin_block,
          h,
          grown_by-call i (str_field json v (codes "id")) (str_field json v (codes "name")) [] ds
              hs,
          blank,
        )
        refl
  finish-announced i _ _ _ (announces_thinking v ds d h e hs g) =
      rw (begin_block, h, e, grown_by-thinking i (str_field json v (codes "thinking")) ds d hs g)
        refl
  finish-announced i _ _ _ (announces_redacted v h) = rw (begin_block, h) refl
