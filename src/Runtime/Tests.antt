-- ===== src/Runtime/Tests.antt =====
-- Witnesses of the theorems on the conversation, on an exchange with one tool call.
use apprentice_harness.Common.{◌≡◌, ◌≢◌, refl, true, false, List, [], ◌∷◌, codes}
use apprentice_harness.Common.Result.{ok}
use apprentice_harness.Mentor.Types.{ContentBlock, text, tool_use, tool_result, Message, ToolDef}
use apprentice_harness.Runtime.Conversation.{
  missing_from, validate, push_user_text, push_assistant, push_tool_results, pending_tool_uses,
  repair,
}
use apprentice_harness.Runtime.Conversation.Exchange.{
  Exchange, begin, user_text, answer, results, Exchange-validate,
}

abbrev call : List (ContentBlock Unit)
call = text (codes "look") false ∷ tool_use (codes "t1") (codes "read_file") tt true ∷ []

abbrev answered : List (ContentBlock Unit)
answered = tool_result (codes "t1") [] false false ∷ []

abbrev asked : List (Message Unit)
asked = push_user_text (codes "hi") []

abbrev called : List (Message Unit)
called = push_assistant call asked

abbrev finished : List (Message Unit)
finished = push_tool_results answered called

asked-Exchange : Exchange asked
unfolding push_user_text pending_tool_uses
asked-Exchange = user_text (codes "hi") [] begin refl

called-Exchange : Exchange called
unfolding push_user_text push_assistant
called-Exchange = answer call asked asked-Exchange (text (codes "hi") false ∷ [], refl) refl

calls-open : pending_tool_uses called ≢ []
unfolding push_user_text push_assistant pending_tool_uses
calls-open h = cc

finished-Exchange : Exchange finished
unfolding push_user_text push_assistant push_tool_results pending_tool_uses missing_from
finished-Exchange = results answered called called-Exchange calls-open refl (refl, refl)

Exchange-validate_example :
    (pending_tool_uses finished ≡ [] → validate finished ≡ ok tt)
    × (validate (repair finished).1 ≡ ok tt)
Exchange-validate_example = Exchange-validate finished finished-Exchange

abbrev read_tool : ToolDef Unit
read_tool = record { name = codes "read_file"; description = []; input_schema = tt; cache = true }
