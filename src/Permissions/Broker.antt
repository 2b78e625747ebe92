-- ===== src/Permissions/Broker.antt =====
-- The table of pending prompts and the prompter that waits on it: crates/core/src/permissions/broker.rs.
-- A one-shot channel is a number: `opened` is how many there are, `sent` what was sent on them, the
-- latest first. The session rules of the broker are those of Engine.antt.
pub mod Table
pub mod FirstAnswer
pub mod Asking
mod Tests
use apprentice_harness.Common.{
  ℕ, suc, Bool, true, false, not, ◌&&◌, Option, none, some, List, [], ◌∷◌, Text, text_eq, ◌==◌,
  if◌then◌else◌,
}
use apprentice_harness.Common.Result.{Result, ok, err}
use apprentice_harness.Permissions.Types.{PermissionAnswer, RuleSpec}

abbrev pub Answer : Type 0
Answer = PermissionAnswer × Option RuleSpec

pub record Pending : Type 0 where
  pub agent_id : Text
  pub channel : ℕ

pub record PermissionBroker : Type 0 where
  pub pending : List (Text × Pending)
  pub opened : ℕ
  pub sent : List (ℕ × Answer)

abbrev pub new_broker : PermissionBroker
new_broker = record { pending = []; opened = 0; sent = [] }

-- `HashMap::get` and `HashMap::remove` of the table.
abbrev pub find_pending : Text → List (Text × Pending) → Option Pending
find_pending id [] = none
find_pending id ((k, p) ∷ table) =
    let rest = find_pending id table in if text_eq k id then some p else rest

abbrev pub remove_pending : Text → List (Text × Pending) → List (Text × Pending)
remove_pending id [] = []
remove_pending id ((k, p) ∷ table) =
    let rest = remove_pending id table in if text_eq k id then rest else (k, p) ∷ rest

-- What the receiver of a channel finds in it.
abbrev pub received : ℕ → List (ℕ × Answer) → Option Answer
received c [] = none
received c ((d, a) ∷ sent) = let rest = received c sent in if d == c then some a else rest

-- The receiver is the channel that is opened. An entry that is replaced drops its sender.
unfoldable pub register : Text → Text → PermissionBroker → ℕ × PermissionBroker
register id agent b = (
  b.opened,
  record b {
    pending = (id, record { agent_id = agent; channel = b.opened }) ∷ remove_pending id b.pending;
    opened = suc b.opened;
  },
)

unfoldable pub forget : Text → PermissionBroker → PermissionBroker
forget id b = record b { pending = remove_pending id b.pending }

-- `RpcError::not_found`
pub data NotFound : Type 0 where
  not_waiting : Text → NotFound

unfoldable pub respond : Text → Answer → PermissionBroker → Result NotFound Unit × PermissionBroker
respond id answer b = elim (find_pending id b.pending) [
  | none ↦ (err (not_waiting id), b)
  | some p ↦ (
    ok tt,
    record b { pending = remove_pending id b.pending; sent = (p.channel, answer) ∷ b.sent },
  )
]

-- What else happens to the broker while a prompt waits.
pub data Op : Type 0 where
  registers : Text → Text → Op
  forgets : Text → Op
  responds : Text → Answer → Op

unfoldable pub apply : Op → PermissionBroker → PermissionBroker
apply (registers id agent) b = (register id agent b).1
apply (forgets id) b = forget id b
apply (responds id answer) b = (respond id answer b).1

unfoldable pub apply_all : List Op → PermissionBroker → PermissionBroker
apply_all [] b = b
apply_all (op ∷ ops) b = apply_all ops (apply op b)

pub data AskReply : Type 0 where
  answered : Answer → AskReply
  timed_out : AskReply
  no_client : AskReply

abbrev pub reply_of : Option Answer → AskReply
reply_of none = timed_out
reply_of (some a) = answered a

-- `AgentPrompter::ask`: `emitted` is what the sink says of the event, and `ops` what happens until an
-- answer is there or the time is over. `Forget` is dropped on every way out.
unfoldable pub ask : Text → Text → Bool → List Op → PermissionBroker → AskReply × PermissionBroker
ask id agent emitted ops b =
    let (rx, b1) = register id agent b in
    let b2 = apply_all ops b1 in
    if not emitted
    then (no_client, forget id b1)
    else (reply_of (received rx b2.sent), forget id b2)
