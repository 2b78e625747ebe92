-- ===== src/Runtime/Agent/Waiting.antt =====
-- About `call_mentor` of crates/core/src/runtime/agent.rs: whether its loop ends.
use apprentice_harness.Common.{
  ℕ, zero, suc, ◌+◌, ◌-◌, ◌≤◌, ◌<◌, ◌≡◌, ◌≢◌, refl, ◌∙◌, ap, arith, Bool, true, false, inl, inr,
  Option, none, some, List, [], ◌∷◌, Text, ==_iff, Bool-cases, Option-cases, ltb, ◌==◌,
}
use apprentice_harness.Common.Result.{Result, ok, err, Result-cases}
use apprentice_harness.Mentor.Types.{
  MentorError, rate_limited, overloaded, stream_interrupted, call_cancelled,
}
use apprentice_harness.Mentor.Client.{MentorResponse}
use apprentice_harness.Mentor.Error.{error_kind}
use apprentice_harness.Runtime.Agent.{
  RpcError, warning, waiting, CallMeets, CallEnd, Told, wait_for, tell, call_loop, call_mentor,
}

abbrev flag : Bool → ℕ
flag true = 0
flag false = 1

-- The seconds of the waits.
abbrev pub waits : List Told → ℕ
waits [] = 0
waits (waiting kind w ∷ told) = w + waits told
waits (_ ∷ told) = waits told

none-some : {A : Type 0} {a : A} → none ≢ some a
none-some h = cc

some-injective : {v w : ℕ} → some v ≡ some w → v ≡ w
some-injective h = cc

module _ {Value : Type 0} where
  -- No reply asks for a wait of no length.
  abbrev pub AsksToWait : CallMeets Value → Type 0
  AsksToWait met = (n : ℕ) → met.replies n ≢ err (rate_limited (some 0))

  -- The loop ends, within the seconds that are left.
  abbrev pub EndsWithin : ℕ → Option (CallEnd Value) → Type 0
  EndsWithin left r = (end : CallEnd Value) × (r ≡ some end) × (waits end.1 ≤ left)

  at_once :
      (left : ℕ) (end : Result RpcError (Result (MentorError Value) (MentorResponse Value)))
      → EndsWithin left (some (end, []))
  at_once left end = ((end, []), refl, omega arith)

  tell-warning :
      (left : ℕ) (kind : Text) (r : Option (CallEnd Value))
      → EndsWithin left r
      → EndsWithin left (tell (warning kind) r)
  tell-warning left kind r ((end, told), h, le) =
      ((end, warning kind ∷ told), ap (tell (warning kind)) h, le)

  tell-waiting :
      (left w : ℕ) (kind : Text) (r : Option (CallEnd Value))
      → w ≤ left
      → EndsWithin (left - w) r
      → EndsWithin left (tell (waiting kind w) r)
  tell-waiting left w kind r k ((end, told), h, le) =
      ((end, waiting kind w ∷ told), ap (tell (waiting kind w)) h, omega (arith, le))

  -- A wait is of some length, or it is the one behind a broken stream.
  wait_for-cases :
      (e : MentorError Value) (interrupted : Bool) (w : ℕ)
      → e ≢ rate_limited (some 0)
      → (wait_for e interrupted).0 ≡ some w
      → flag (wait_for e interrupted).1 < w + flag interrupted
  wait_for-cases (rate_limited none) interrupted w h k =
      let same = some-injective k in omega (arith, same)
  wait_for-cases (rate_limited (some zero)) interrupted w h k = absurd (h refl)
  wait_for-cases (rate_limited (some (suc d))) interrupted w h k =
      let same = some-injective k in omega (arith, same)
  wait_for-cases overloaded interrupted w h k = let same = some-injective k in omega (arith, same)
  wait_for-cases (stream_interrupted partial) false w h k = omega arith
  wait_for-cases (stream_interrupted partial) true w h k = absurd (none-some k)
  wait_for-cases _ interrupted w h k = absurd (none-some k)

  call_loop-EndsWithin :
      (fuel : ℕ) (met : CallMeets Value) (max_wait n waited : ℕ) (interrupted : Bool)
      → AsksToWait met
      → (max_wait - waited) + flag interrupted < fuel
      → EndsWithin (max_wait - waited) (call_loop fuel met max_wait n waited interrupted)
  unfolding call_loop
  call_loop-EndsWithin zero met max_wait n waited interrupted asks le = absurd (omega arith)
  call_loop-EndsWithin (suc fuel) met max_wait n waited interrupted asks le =
      let left = max_wait - waited in
      elim (Result-cases (met.replies n)) [
        | inr (resp, r) ↦ rw (call_loop, r) (at_once left _)
        | inl (e, r) ↦ elim (Option-cases (wait_for e interrupted).0) [
          | inl g ↦ rw (call_loop, r, g) (at_once left _)
          | inr (w, g) ↦
              let less =
                wait_for-cases e interrupted w (λ zero_wait. asks n (r ∙ ap (λ x. err x) zero_wait))
                  g in
              elim (Bool-cases (ltb max_wait (waited + w))) [
                | inl over ↦ rw (call_loop, r, g, over) (at_once left _)
                | inr within ↦ elim (Option-cases (met.record_fails n)) [
                  | inr (x, f) ↦ rw (call_loop, r, g, within, f) (at_once left _)
                  | inl f ↦
                      let fits : waited + w ≤ max_wait = ground (arith, within) in
                      elim (Bool-cases (w == 0)) [
                        | inl nothing ↦
                            rw (call_loop, r, g, within, f, nothing)
                              (tell-warning left _ _ (
                                call_loop-EndsWithin fuel met max_wait (suc n) waited _ asks (
                                  let zero_wait = (==_iff w 0).0 nothing in
                                  omega (arith, le, less, zero_wait))))
                        | inr something ↦ elim (Bool-cases (met.cancels_wait n)) [
                          | inl stop ↦
                              rw (call_loop, r, g, within, f, something, stop)
                                (
                                  (ok (err call_cancelled), waiting (error_kind e) w ∷ []),
                                  refl,
                                  omega (arith, fits),
                                )
                          | inr go ↦
                              rw (call_loop, r, g, within, f, something, go)
                                (tell-waiting left w _ _ (omega (arith, fits)) (
                                  let same : max_wait - (waited + w) ≡ left - w =
                                    omega (arith, fits) in
                                  rw same at (
                                    call_loop-EndsWithin fuel met max_wait (suc n) (waited + w)
                                      (wait_for e interrupted).1 asks
                                      (omega (arith, le, less, fits)))))
                        ]
                      ]
                ]
              ]
        ]
      ]

  -- When no reply asks for a wait of 0 seconds: a call of the mentor ends on `max_wait_s + 2` rounds of
  -- fuel, and it waits for at most `max_wait_s` seconds in all.
  pub call_mentor-EndsWithin :
      (met : CallMeets Value) (max_wait : ℕ)
      → AsksToWait met
      → EndsWithin max_wait (call_mentor (max_wait + 2) met max_wait)
  unfolding call_mentor
  call_mentor-EndsWithin met max_wait asks = elim (Option-cases (met.body_fails)) [
    | inr (e, f) ↦ rw (call_mentor, f) (at_once max_wait _)
    | inl f ↦ elim (Option-cases (met.request_fails)) [
      | inr (x, g) ↦ rw (call_mentor, f, g) (at_once max_wait _)
      | inl g ↦
          let same : max_wait - 0 ≡ max_wait = omega arith in
          rw (call_mentor, f, g)
            (rw same at
              (call_loop-EndsWithin (max_wait + 2) met max_wait 0 0 false asks (omega arith)))
    ]
  ]

  call_loop-endless :
      (fuel : ℕ) (met : CallMeets Value) (max_wait n : ℕ)
      → ((k : ℕ) → met.replies k ≡ err (rate_limited (some 0)))
      → ((k : ℕ) → met.record_fails k ≡ none)
      → call_loop fuel met max_wait n 0 false ≡ none
  unfolding call_loop
  call_loop-endless zero met max_wait n zero_waits records = refl
  call_loop-endless (suc fuel) met max_wait n zero_waits records =
      let within : ltb max_wait (0 + 0) ≡ false = ground arith in
      rw (call_loop, zero_waits n, within, records n)
        (ap (tell (warning _)) (call_loop-endless fuel met max_wait (suc n) zero_waits records))

  -- When every reply asks for a wait of 0 seconds and the trace fails nowhere, a call of the mentor does not
  -- end, whatever the budget of waiting: it is out of any fuel.
  pub call_mentor-endless :
      (met : CallMeets Value) (fuel max_wait : ℕ)
      → met.body_fails ≡ none
      → met.request_fails ≡ none
      → ((n : ℕ) → met.replies n ≡ err (rate_limited (some 0)))
      → ((n : ℕ) → met.record_fails n ≡ none)
      → call_mentor fuel met max_wait ≡ none
  unfolding call_mentor
  call_mentor-endless met fuel max_wait f g zero_waits records =
      rw (call_mentor, f, g) (call_loop-endless fuel met max_wait 0 zero_waits records)
