-- ===== src/Runtime/Agent/Replies.antt =====
-- About what `call_mentor` of crates/core/src/runtime/agent.rs returns and tells.
use apprentice_harness.Common.{
  ℕ, zero, suc, ◌+◌, ◌≡◌, refl, arith, Bool, false, inl, inr, Option, none, some, List, [], ◌∷◌,
  ◌++◌, Text, Bool-cases, Option-cases, ltb, ◌==◌,
}
use apprentice_harness.Common.Result.{Result, ok, err, Result-cases}
use apprentice_harness.Mentor.Types.{MentorError}
use apprentice_harness.Mentor.Client.{MentorResponse}
use apprentice_harness.Runtime.Agent.{
  RpcError, Told, mentor_step, warning, waiting, CallMeets, CallEnd, wait_for, tell, call_loop,
  call_mentor,
}

-- The steps of the mentor that were announced.
abbrev pub mentor_steps : List Told → ℕ
mentor_steps [] = 0
mentor_steps (mentor_step seq ∷ told) = suc (mentor_steps told)
mentor_steps (_ ∷ told) = mentor_steps told

pub mentor_steps-append :
    (xs ys : List Told) → mentor_steps (xs ++ ys) ≡ mentor_steps xs + mentor_steps ys
mentor_steps-append [] ys = omega arith
mentor_steps-append (mentor_step n ∷ xs) ys = omega (arith, mentor_steps-append xs ys)
mentor_steps-append (_ ∷ xs) ys = mentor_steps-append xs ys

module _ {Value : Type 0} where
  -- A response is one of the replies.
  abbrev pub Heard : CallMeets Value → MentorResponse Value → Type 0
  Heard met resp = (n : ℕ) × (met.replies n ≡ ok resp)

  abbrev IsHeard : CallMeets Value → Result (MentorError Value) (MentorResponse Value) → Type 0
  IsHeard met (ok resp) = Heard met resp
  IsHeard met (err e) = Unit

  abbrev EndIsHeard :
      CallMeets Value → Result RpcError (Result (MentorError Value) (MentorResponse Value)) → Type 0
  EndIsHeard met (ok word) = IsHeard met word
  EndIsHeard met (err x) = Unit

  abbrev pub Reported : CallMeets Value → Option (CallEnd Value) → Type 0
  Reported met none = Unit
  Reported met (some (end, told)) = EndIsHeard met end × (mentor_steps told ≡ 0)

  tell-warning :
      (met : CallMeets Value) (kind : Text) (r : Option (CallEnd Value))
      → Reported met r
      → Reported met (tell (warning kind) r)
  tell-warning met kind none h = tt
  tell-warning met kind (some (end, told)) h = h

  tell-waiting :
      (met : CallMeets Value) (kind : Text) (w : ℕ) (r : Option (CallEnd Value))
      → Reported met r
      → Reported met (tell (waiting kind w) r)
  tell-waiting met kind w none h = tt
  tell-waiting met kind w (some (end, told)) h = h

  call_loop-Reported :
      (fuel : ℕ) (met : CallMeets Value) (max_wait n waited : ℕ) (interrupted : Bool)
      → Reported met (call_loop fuel met max_wait n waited interrupted)
  unfolding call_loop
  call_loop-Reported zero met max_wait n waited interrupted = tt
  call_loop-Reported (suc fuel) met max_wait n waited interrupted =
      elim (Result-cases (met.replies n)) [
        | inr (resp, r) ↦ rw (call_loop, r) ((n, r), refl)
        | inl (e, r) ↦ elim (Option-cases (wait_for e interrupted).0) [
          | inl g ↦ rw (call_loop, r, g) (tt, refl)
          | inr (w, g) ↦ elim (Bool-cases (ltb max_wait (waited + w))) [
            | inl over ↦ rw (call_loop, r, g, over) (tt, refl)
            | inr within ↦ elim (Option-cases (met.record_fails n)) [
              | inr (x, f) ↦ rw (call_loop, r, g, within, f) (tt, refl)
              | inl f ↦ elim (Bool-cases (w == 0)) [
                | inl nothing ↦
                    rw (call_loop, r, g, within, f, nothing)
                      (tell-warning met _ _ (
                        call_loop-Reported fuel met max_wait (suc n) waited
                          (wait_for e interrupted).1))
                | inr something ↦ elim (Bool-cases (met.cancels_wait n)) [
                  | inl stop ↦ rw (call_loop, r, g, within, f, something, stop) (tt, refl)
                  | inr go ↦
                      rw (call_loop, r, g, within, f, something, go)
                        (tell-waiting met _ w _ (
                          call_loop-Reported fuel met max_wait (suc n) (waited + w)
                            (wait_for e interrupted).1))
                ]
              ]
            ]
          ]
        ]
      ]

  pub call_mentor-Reported :
      (fuel : ℕ) (met : CallMeets Value) (max_wait : ℕ)
      → Reported met (call_mentor fuel met max_wait)
  unfolding call_mentor
  call_mentor-Reported fuel met max_wait = elim (Option-cases (met.body_fails)) [
    | inr (e, f) ↦ rw (call_mentor, f) (tt, refl)
    | inl f ↦ elim (Option-cases (met.request_fails)) [
      | inr (x, g) ↦ rw (call_mentor, f, g) (tt, refl)
      | inl g ↦ rw (call_mentor, f, g) (call_loop-Reported fuel met max_wait 0 0 false)
    ]
  ]
