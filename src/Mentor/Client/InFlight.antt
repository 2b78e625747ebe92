-- ===== src/Mentor/Client/InFlight.antt =====
-- About the blocks of a response, from the events of their stream: crates/core/src/mentor/anthropic.rs and
-- crates/core/src/mentor/assemble.rs.
use apprentice_harness.Common.{
  ℕ, suc, ◌≡◌, refl, sym, ◌∙◌, ap, Bool, true, Option, none, some, List, [], ◌∷◌, ◌++◌, map,
  append_assoc, append-nil, subst, arith, length, length-append, Bytes, Text,
}
use apprentice_harness.Common.Result.{ok}
use apprentice_harness.Mentor.Types.{ContentBlock, StreamEvent, block_stop}
use apprentice_harness.Mentor.Sse.{SseEvent}
use apprentice_harness.Mentor.Assemble.{Json, ApiErrorBody, Partial, Assembler, begin_block, finish}
use apprentice_harness.Mentor.Assemble.Slots.{
  put_slot, empties, length-empties, empties-append, put_slot-done,
}
use apprentice_harness.Mentor.Client.{shows}
use apprentice_harness.Mentor.Client.Sent.{
  starts, Deltas, no_deltas, delta_then, ping_then, Blocks, no_blocks, block_then,
}
use apprentice_harness.Mentor.Client.Response.{
  run, in_flight, grown, grown_by, run-fed, shows-shows, fed-pings, fed-grows, fed-stops,
  fed-starts, finish-announced,
}

module _ {Value : Type 0} (json : Json Value) (to_error_body : Value → Option ApiErrorBody)
    (lossy : Bytes → Text) where
  -- The events of a block in flight, to its stop.
  run-Deltas :
      (gone : List (Option (Partial Value))) (ds : List Value) (evs rest : List SseEvent)
      (a : Assembler Value) (p : Partial Value) (b : ContentBlock Value)
      → Deltas json (length gone) ds evs rest
      → finish json (grown_by json to_error_body lossy (length gone) p ds) ≡ ok b
      → (shown : List StreamEvent) × (run json to_error_body lossy evs
            (in_flight json to_error_body lossy a gone p)
          ≡ shows shown (
              run json to_error_body lossy rest
                (record a { blocks = gone ++ none ∷ []; done = put_slot (length gone) b a.done })))
  run-Deltas gone _ _ rest a p b (no_deltas e _ h) f = (
    block_stop (length gone) ∷ [],
    run-fed json to_error_body lossy e rest _ _ _
        (fed-stops json to_error_body lossy e a gone p b h f),
  )
  run-Deltas gone _ _ rest a p b (delta_then e d ds evs _ h more) f =
      let p' = grown json to_error_body lossy (length gone) p d in
      let (shown, same) = run-Deltas gone ds evs rest a p'.0 b more f in
      (
        p'.1 ++ shown,
        run-fed json to_error_body lossy e evs _ _ _
              (fed-grows json to_error_body lossy e a gone p d h)
            ∙ ap (λ r. shows p'.1 r) same
            ∙ shows-shows json to_error_body lossy p'.1 shown _,
      )
  run-Deltas gone _ _ rest a p b (ping_then e ds evs _ h more) f =
      let (shown, same) = run-Deltas gone ds evs rest a p b more f in
      (
        shown,
        run-fed json to_error_body lossy e evs _ _ []
              (fed-pings json to_error_body lossy e (in_flight json to_error_body lossy a gone p) h)
            ∙ same,
      )

  -- The assembler with blocks that are all done.
  abbrev pub full : Assembler Value → Bool → List (ContentBlock Value) → Assembler Value
  full a s bs = record a { started = s; blocks = empties bs; done = map some bs }

  full-done :
      (a : Assembler Value) (b : ContentBlock Value) (bs : List (ContentBlock Value))
      → record (full a true bs) {
        blocks = empties bs ++ none ∷ [];
        done = put_slot (length (empties {A = Partial Value} bs)) b (map some bs);
      }
        ≡ full a true (bs ++ b ∷ [])
  full-done a b bs =
      rw (empties-append (Partial Value) bs b, put_slot-done (Partial Value) bs b) refl

  pub run-Blocks :
      (i : ℕ) (bs : List (ContentBlock Value)) (evs rest : List SseEvent) (a : Assembler Value)
      (s : Bool) (bs' : List (ContentBlock Value))
      → Blocks json i bs evs rest
      → length bs' ≡ i
      → (s' : Bool) × (shown : List StreamEvent) × (run json to_error_body lossy evs (full a s bs')
          ≡ shows shown (run json to_error_body lossy rest (full a s' (bs' ++ bs))))
  run-Blocks i _ _ rest a s bs' (no_blocks _ _) n =
      (s, [], ap (λ l. run json to_error_body lossy rest (full a s l)) (sym (append-nil bs')))
  run-Blocks i _ _ rest a s bs' (block_then _ e v ds b bs evs middle _ h announced deltas more) n =
      let gone : List (Option (Partial Value)) = empties bs' in
      let here : i ≡ length gone = sym (length-empties (Partial Value) bs' ∙ n) in
      let p = begin_block json (length gone) v in
      let (shown, one) =
        run-Deltas gone ds evs middle (full a true bs') p.0 b
          (subst (λ k. Deltas json k ds evs middle) here deltas)
          (finish-announced json to_error_body lossy (length gone) b v ds announced) in
      let (s', shown', others) =
        run-Blocks (suc i) bs middle rest a true (bs' ++ b ∷ []) more
          (omega (arith, length-append bs' (b ∷ []), n)) in
      (
        s',
        p.1 ++ (shown ++ shown'),
        run-fed json to_error_body lossy e evs _ _ p.1 (
              fed-starts json to_error_body lossy e (full a s bs') v
                (subst (λ k. json.read_envelope e.data_text ≡ ok (starts k v)) here h))
            ∙ ap (λ r. shows p.1 r) one
            ∙ ap (λ r. shows p.1 (shows shown r))
                (ap (λ x. run json to_error_body lossy middle x) (full-done a b bs')
                  ∙ others
                  ∙ ap (λ l. shows shown' (run json to_error_body lossy rest (full a s' l)))
                      (append_assoc bs' (b ∷ []) bs))
            ∙ ap (λ r. shows p.1 r) (shows-shows json to_error_body lossy shown shown' _)
            ∙ shows-shows json to_error_body lossy p.1 (shown ++ shown') _,
      )
