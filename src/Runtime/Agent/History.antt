-- ===== src/Runtime/Agent/History.antt =====
-- About the conversation that a run of crates/core/src/runtime/agent.rs leaves.
use apprentice_harness.Common.{
  ◌≡◌, ◌≢◌, refl, sym, ◌∙◌, ap, arith, true, false, none, List, [], ◌∷◌, ◌++◌, append_assoc,
  is_empty, Text, text_eq_refl,
}
use apprentice_harness.Common.Result.{Result}
use apprentice_harness.Mentor.Types.{tool_use_stop, pause_turn, ContentBlock, text, Message}
use apprentice_harness.Mentor.Client.{MentorResponse}
use apprentice_harness.Runtime.Conversation.{
  ToolCall, contains_id, missing_from, result_ids, use_ids, tool_calls, push_user_text,
  push_assistant, push_tool_results, pending_tool_uses,
}
use apprentice_harness.Runtime.Conversation.Validity.{
  user_message, assistant_message, last?-append, push_user_text-assistant,
}
use apprentice_harness.Runtime.Conversation.Exchange.{
  Exchange, user_text, results, call_ids, LastIsUser, pending-assistant,
}
use apprentice_harness.Runtime.Agent.{RpcError, Finish}
use apprentice_harness.Runtime.Agent.Loop.{stops, goes_on, continue_message}

contains-middle : (id : Text) (pre ids : List Text) → contains_id (pre ++ id ∷ ids) id ≡ true
contains-middle id [] ids = rw (text_eq_refl id) refl
contains-middle id (p ∷ pre) ids = ground (arith, contains-middle id pre ids)

missing_from-within : (pre ids : List Text) → missing_from (pre ++ ids) ids ≡ none
unfolding missing_from
missing_from-within pre [] = refl
missing_from-within pre (id ∷ ids) =
    rw (missing_from, contains-middle id pre ids)
      (rw (append_assoc pre (id ∷ []) ids) at (missing_from-within (pre ++ id ∷ []) ids))

pub stops-goes_on : {end : Result RpcError Finish} → stops end ≢ goes_on
stops-goes_on h = cc

pub false-true : false ≢ true
false-true h = cc

module _ {Value : Type 0} where
  -- A response without results of tools, that asks for a tool where it stops for one, and that does not
  -- pause.
  abbrev pub Behaves : MentorResponse Value → Type 0
  Behaves resp =
      (result_ids resp.content ≡ [])
      × (resp.stop_reason ≡ tool_use_stop → is_empty (tool_calls resp.content) ≡ false)
      × (resp.stop_reason ≢ pause_turn)

  is_empty-nil : (calls : List (ToolCall Value)) → is_empty calls ≡ true → calls ≡ []
  is_empty-nil [] h = refl
  is_empty-nil (c ∷ cs) h = cc

  LastIsUser-append :
      (ms : List (Message Value)) (bs : List (ContentBlock Value))
      → LastIsUser (ms ++ user_message bs ∷ [])
  LastIsUser-append ms bs = (bs, last?-append ms (user_message bs))

  pending-pushed :
      (bs : List (ContentBlock Value)) (ms : List (Message Value))
      → pending_tool_uses (push_assistant bs ms) ≡ tool_calls bs
  unfolding push_assistant
  pending-pushed bs ms = pending-assistant ms bs

  -- Results for the calls of an answer.
  pub Exchange-results :
      (ms : List (Message Value)) (c bs : List (ContentBlock Value))
      → Exchange (push_assistant c ms)
      → is_empty (tool_calls c) ≡ false
      → result_ids bs ≡ call_ids (tool_calls c)
      → use_ids bs ≡ []
      → Exchange (push_tool_results bs (push_assistant c ms))
  Exchange-results ms c bs e calls ids uses =
      let pending = pending-pushed c ms in
      let self = missing_from-within [] (call_ids (tool_calls c)) in
      results bs (push_assistant c ms) e
        (λ h. false-true (sym calls ∙ ap is_empty (sym pending ∙ h))) uses
        (rw (pending, ids) (self, self))

  pub Exchange-carried :
      (ms : List (Message Value)) (c : List (ContentBlock Value))
      → Exchange (push_assistant c ms)
      → is_empty (tool_calls c) ≡ true
      → Exchange (push_user_text continue_message (push_assistant c ms))
  Exchange-carried ms c e none_open =
      user_text continue_message (push_assistant c ms) e
        (pending-pushed c ms ∙ is_empty-nil (tool_calls c) none_open)

  pub LastIsUser-results :
      (bs : List (ContentBlock Value)) (ms : List (Message Value))
      → LastIsUser (push_tool_results bs ms)
  unfolding push_tool_results
  LastIsUser-results bs ms = LastIsUser-append ms bs

  pub LastIsUser-carried :
      (t : Text) (c : List (ContentBlock Value)) (ms : List (Message Value))
      → LastIsUser (push_user_text t (push_assistant c ms))
  unfolding push_assistant
  LastIsUser-carried t c ms =
      rw (push_user_text-assistant t ms c)
        (LastIsUser-append (ms ++ assistant_message c ∷ []) (text t false ∷ []))
