-- ===== src/Runtime/Agent.antt =====
-- The agent's loop: crates/core/src/runtime/agent.rs. What a run meets (the mentor's replies, the trace, the
-- cancellation, the tools) is an argument. Hooks do nothing, the texts and details of errors, the outcomes and
-- the rows of the trace are not in the model.
pub mod Waiting
pub mod Loop
pub mod Replies
pub mod Reactions
pub mod Rounds
pub mod History
pub mod Runs
mod Tests
use apprentice_harness.Common.{
  ℕ, zero, suc, ◌+◌, ◌-◌, ◌^◌, min, max, Bool, true, false, not, ◌&&◌, ◌||◌, Option, none, some,
  List, [], ◌∷◌, ◌++◌, Text, codes, text_eq, ltb, ◌==◌, if◌then◌else◌,
}
use apprentice_harness.Common.Result.{Result, ok, err}
use apprentice_harness.Mentor.Types.{
  Usage, MentorError, rate_limited, overloaded, stream_interrupted, call_cancelled, Message,
}
use apprentice_harness.Mentor.Client.{MentorResponse}
use apprentice_harness.Mentor.Error.{error_kind}
use apprentice_harness.Runtime.Ledger.{Ledger}

-- The code is negative in the source; the model has its absolute value.
pub record RpcError : Type 0 where
  pub code : ℕ
  pub kind : Option Text

abbrev pub cancelled_error : RpcError
cancelled_error = record { code = 32030; kind = some (codes "cancelled") }

abbrev pub agent_stopped : Text → RpcError
agent_stopped kind = record { code = 32031; kind = some kind }

-- `RpcError::from` of an error of the mentor.
abbrev pub from_mentor : {Value : Type 0} → MentorError Value → RpcError
from_mentor call_cancelled = cancelled_error
from_mentor (rate_limited after) = record {
  code = 32021;
  kind = some (codes "mentor_rate_limited");
}
from_mentor _ = record { code = 32020; kind = some (codes "mentor_error") }

pub data AgentStatus : Type 0 where
  ok_status : AgentStatus
  cancelled_status : AgentStatus
  error_status : AgentStatus

pub record Finish : Type 0 where
  pub status : AgentStatus
  pub error : Option RpcError
  pub truncated : Bool

abbrev pub finish_ok : Bool → Finish
finish_ok truncated = record { status = ok_status; error = none; truncated = truncated }

abbrev is_cancelled_kind : Option Text → Bool
is_cancelled_kind none = false
is_cancelled_kind (some k) = text_eq k (codes "cancelled")

-- `Finish::from_error`
abbrev pub finish_from : RpcError → Finish
finish_from e = record {
  status = if is_cancelled_kind e.kind then cancelled_status else error_status;
  error = some e;
  truncated = false;
}

-- `Finish::cancelled` and `Finish::stopped`
abbrev pub finish_cancelled : Finish
finish_cancelled = finish_from cancelled_error

abbrev pub finish_stopped : Text → Finish
finish_stopped kind = finish_from (agent_stopped kind)

-- `saturating_add` of 64 bits
abbrev saturating_add : ℕ → ℕ → ℕ
saturating_add a b = min (a + b) (2 ^ 64 - 1)

-- The timeouts of the mentor, of the execute tools and of the permission prompt, and the grace.
abbrev pub stall_window : ℕ → ℕ → ℕ → ℕ → ℕ
stall_window mentor tools ask grace =
    if grace == 0 then 0 else saturating_add (max (max mentor tools) ask) grace

-- The events told to the subscribers, the usage and the results of tools aside.
pub data Told : Type 0 where
  mentor_step : ℕ → Told
  tools_step : ℕ → Told
  warning : Text → Told
  waiting : Text → ℕ → Told

pub record RunConfig : Type 0 where
  pub max_iterations : ℕ
  pub max_wait_s : ℕ
  pub context_hard_limit : ℕ
  pub context_soft_limit : ℕ

-- What a call of the mentor meets: the errors of the adapter and of the trace in front of it, and for each
-- attempt the reply, an error of the trace behind it and the cancellation of the wait.
pub record CallMeets (Value : Type 0) : Type 0 where
  pub body_fails : Option (MentorError Value)
  pub request_fails : Option RpcError
  pub replies : ℕ → Result (MentorError Value) (MentorResponse Value)
  pub record_fails : ℕ → Option RpcError
  pub cancels_wait : ℕ → Bool

-- In seconds.
abbrev pub default_wait : ℕ
default_wait = 30

abbrev or_default : Option ℕ → ℕ
or_default none = default_wait
or_default (some d) = d

-- The trace's failure, or the mentor's final word; and what was told.
abbrev pub CallEnd : Type 0 → Type 0
CallEnd V = Result RpcError (Result (MentorError V) (MentorResponse V)) × List Told

module _ {Value : Type 0} where
  -- How long to wait before the next attempt, if at all, and whether a broken stream was tried again.
  abbrev pub wait_for : MentorError Value → Bool → Option ℕ × Bool
  wait_for (rate_limited after) interrupted = (some (or_default after), interrupted)
  wait_for overloaded interrupted = (some default_wait, interrupted)
  wait_for (stream_interrupted partial) false = (some 0, true)
  wait_for _ interrupted = (none, interrupted)

  abbrev pub tell : Told → Option (CallEnd Value) → Option (CallEnd Value)
  tell event none = none
  tell event (some (end, told)) = some (end, event ∷ told)

  -- The loop of `call_mentor`, on fuel, at the attempt `n`.
  unfoldable pub call_loop : ℕ → CallMeets Value → ℕ → ℕ → ℕ → Bool → Option (CallEnd Value)
  call_loop zero met max_wait n waited interrupted = none
  call_loop (suc fuel) met max_wait n waited interrupted = elim (met.replies n) [
    | ok resp ↦ some (ok (ok resp), [])
    | err e ↦
        let (wait, interrupted') = wait_for e interrupted in
        elim wait [
          | none ↦ some (ok (err e), [])
          | some w ↦ elim (ltb max_wait (waited + w)) [
            | true ↦ some (ok (err e), [])
            | false ↦ elim (met.record_fails n) [
              | some x ↦ some (err x, [])
              | none ↦ elim (w == 0) [
                | true ↦
                    tell (warning (codes "stream_interrupted"))
                      (call_loop fuel met max_wait (suc n) waited interrupted')
                | false ↦ elim (met.cancels_wait n) [
                  | true ↦ some (ok (err call_cancelled), waiting (error_kind e) w ∷ [])
                  | false ↦
                      tell (waiting (error_kind e) w)
                        (call_loop fuel met max_wait (suc n) (waited + w) interrupted')
                ]
              ]
            ]
          ]
        ]
  ]

  unfoldable pub call_mentor : ℕ → CallMeets Value → ℕ → Option (CallEnd Value)
  unfolding call_loop
  call_mentor fuel met max_wait = elim (met.body_fails) [
    | some e ↦ some (ok (err e), [])
    | none ↦ elim (met.request_fails) [
      | some x ↦ some (err x, [])
      | none ↦ call_loop fuel met max_wait 0 0 false
    ]
  ]
