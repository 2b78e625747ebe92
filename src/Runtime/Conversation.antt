-- ===== src/Runtime/Conversation.antt =====
-- The conversation with the mentor: crates/core/src/runtime/conversation.rs. The settings of a run and
-- the accounting of tokens are not in the record.
pub mod Exchange
pub mod Request
pub mod Validity
use apprentice_harness.Common.{
  ℕ, zero, suc, Bool, true, false, not, ◌&&◌, Option, none, some, List, [], ◌∷◌, ◌++◌, map, Text,
  any, is_empty, last?, text_eq, if◌then◌else◌,
}
use apprentice_harness.Common.Result.{Result, ok, err, ◌>>=◌}
use apprentice_harness.Mentor.Types.{
  Role, user, assistant, system, role_eq, ContentBlock, text, tool_use, tool_result, cached,
  Message, SystemBlock, ToolDef,
}

pub record ToolCall (Value : Type 0) : Type 0 where
  pub id : Text
  pub name : Text
  pub input : Value

-- What `validate` reports, with the index of the message.
pub data Invalid : Type 0 where
  same_role_turns : ℕ → Role → Invalid
  unanswered : ℕ → List Text → Invalid
  no_tool_result : ℕ → Text → Invalid
  answers_nothing : ℕ → Text → Invalid
  unanswered_at_end : List Text → Invalid

abbrev opt_role_eq : Option Role → Role → Bool
opt_role_eq none r = false
opt_role_eq (some q) r = role_eq q r

abbrev pub contains_id : List Text → Text → Bool
contains_id ids id = any (text_eq id) ids

-- The first of the ids that the others do not have.
unfoldable pub missing_from : List Text → List Text → Option Text
missing_from others [] = none
missing_from others (id ∷ ids) =
    let rest = missing_from others ids in if contains_id others id then rest else some id

abbrev pub or_missing : Option Text → (Text → Invalid) → Result Invalid Unit
or_missing none e = ok tt
or_missing (some id) e = err (e id)

abbrev check : Bool → Invalid → Result Invalid Unit
check true e = err e
check false e = ok tt

-- What the loop of `validate` carries: `last_role` and `open`.
abbrev pub Seen : Type 0
Seen = Option Role × List Text

abbrev pub at_end : Seen → Result Invalid Unit
at_end (last_role, opened) = check (not (is_empty opened)) (unanswered_at_end opened)

module _ {Value : Type 0} where
  abbrev pub result_ids : List (ContentBlock Value) → List Text
  result_ids [] = []
  result_ids (tool_result id c e f ∷ bs) = id ∷ result_ids bs
  result_ids (_ ∷ bs) = result_ids bs

  abbrev pub use_ids : List (ContentBlock Value) → List Text
  use_ids [] = []
  use_ids (tool_use id n v f ∷ bs) = id ∷ use_ids bs
  use_ids (_ ∷ bs) = use_ids bs

  abbrev pub seen_after : Message Value → Seen → Seen
  seen_after m (last_role, opened) =
      (if role_eq m.role system then last_role else some m.role, use_ids m.content)

  -- A round of the loop of `validate`.
  unfoldable pub check_message : ℕ → Message Value → Seen → Result Invalid Seen
  unfolding missing_from
  check_message i m (last_role, opened) = do
    _ ←
        check (not (role_eq m.role system) && opt_role_eq last_role m.role)
          (same_role_turns i m.role)
    _ ← check (not (is_empty opened) && not (role_eq m.role user)) (unanswered i opened)
    _ ← or_missing (missing_from (result_ids m.content) opened) (no_tool_result i)
    _ ← or_missing (missing_from opened (result_ids m.content)) (answers_nothing i)
    ok (seen_after m (last_role, opened))

  unfoldable pub check_messages : ℕ → List (Message Value) → Seen → Result Invalid Seen
  unfolding check_message
  check_messages i [] seen = ok seen
  check_messages i (m ∷ ms) seen = check_message i m seen >>= λ next. check_messages (suc i) ms next

  unfoldable pub validate : List (Message Value) → Result Invalid Unit
  unfolding check_messages
  validate messages = check_messages 0 messages (none, []) >>= at_end

  -- `push_user_text`
  unfoldable pub push_user_text : Text → List (Message Value) → List (Message Value)
  push_user_text t [] = record { role = user; content = text t false ∷ [] } ∷ []
  push_user_text t (m ∷ []) =
      if role_eq m.role user
      then record m { content = m.content ++ text t false ∷ [] } ∷ []
      else m ∷ record { role = user; content = text t false ∷ [] } ∷ []
  push_user_text t (m ∷ n ∷ ms) = m ∷ push_user_text t (n ∷ ms)

  unfoldable pub push_assistant :
      List (ContentBlock Value) → List (Message Value) → List (Message Value)
  push_assistant content messages = messages ++ record { role = assistant; content = content } ∷ []

  unfoldable pub push_tool_results :
      List (ContentBlock Value) → List (Message Value) → List (Message Value)
  push_tool_results results messages = messages ++ record { role = user; content = results } ∷ []

  abbrev pub tool_calls : List (ContentBlock Value) → List (ToolCall Value)
  tool_calls [] = []
  tool_calls (tool_use i n v f ∷ bs) = record { id = i; name = n; input = v } ∷ tool_calls bs
  tool_calls (_ ∷ bs) = tool_calls bs

  unfoldable pub pending_tool_uses : List (Message Value) → List (ToolCall Value)
  pending_tool_uses messages = elim (last? messages) [
    | none ↦ []
    | some m ↦ if role_eq m.role assistant then tool_calls m.content else []
  ]

  -- All but the last, as `Vec::pop` leaves them.
  abbrev pub pop_message : List (Message Value) → List (Message Value)
  pop_message [] = []
  pop_message (m ∷ []) = []
  pop_message (m ∷ n ∷ ms) = m ∷ pop_message (n ∷ ms)

  -- The dropped message, and what is left.
  unfoldable pub repair : List (Message Value) → Option (Message Value) × List (Message Value)
  unfolding pending_tool_uses
  repair messages =
      if is_empty (pending_tool_uses messages)
      then (none, messages)
      else (last? messages, pop_message messages)
