-- ===== src/Runtime/Agent/Tests.antt =====
-- Runs of the agent's loop, and the witnesses of its theorems.
use apprentice_harness.Common.{
  ℕ, zero, suc, ◌+◌, ◌≤◌, max, ◌≡◌, refl, subst, false, none, some, List, [], ◌∷◌, codes,
}
use apprentice_harness.Common.Result.{Result, ok, err}
use apprentice_harness.Mentor.Types.{
  StopReason, end_turn, tool_use_stop, MentorError, rate_limited, overloaded, ContentBlock, text,
  tool_use, Message, no_usage,
}
use apprentice_harness.Mentor.Client.{MentorResponse}
use apprentice_harness.Runtime.Conversation.{push_user_text, pending_tool_uses, validate}
use apprentice_harness.Runtime.Conversation.Exchange.{Exchange, begin, user_text, LastIsUser}
use apprentice_harness.Runtime.Ledger.{new_ledger}
use apprentice_harness.Runtime.Agent.{RpcError, Finish, RunConfig, CallMeets, call_mentor}
use apprentice_harness.Runtime.Agent.Replies.{mentor_steps}
use apprentice_harness.Runtime.Agent.Waiting.{
  AsksToWait, EndsWithin, call_mentor-EndsWithin, call_mentor-endless,
}
use apprentice_harness.Runtime.Agent.Loop.{Run, Round, run_loop, execute}
use apprentice_harness.Runtime.Agent.History.{Behaves}
use apprentice_harness.Runtime.Agent.Runs.{AllBehave, run_loop-ends, execute-valid}
use apprentice_harness.Tools.Registry.{Registry}
use apprentice_harness.Tools.Registry.Order.{ok-injective}
use apprentice_harness.Tools.Execute.{ToolsConfig, ToolEnv, Formats, Meets}

abbrev formats : Formats Unit
formats = record { debug = λ t. t; compact = λ v. []; pretty = λ v. []; null = tt }

abbrev tools_config : ToolsConfig
tools_config = record {
  read_only_timeout = 30;
  write_timeout = 30;
  network_timeout = 60;
  execute_timeout = 120;
  max_capture_bytes = 1000;
  max_mentor_bytes = 100;
}

abbrev env : ToolEnv
env = record { timeout = 30; max_capture_bytes = 1000; max_mentor_bytes = 100 }

abbrev no_tools : Registry Unit Unit
no_tools = []

abbrev config : RunConfig
config = record {
  max_iterations = 3;
  max_wait_s = 60;
  context_hard_limit = 900;
  context_soft_limit = 600;
}

abbrev response : StopReason → List (ContentBlock Unit) → MentorResponse Unit
response reason content = record {
  id = [];
  model = [];
  content = content;
  stop_reason = reason;
  stop_details = none;
  usage = no_usage;
}

abbrev asks_for_tool : MentorResponse Unit
asks_for_tool = response tool_use_stop (tool_use (codes "t1") (codes "ls") tt false ∷ [])

abbrev says_done : MentorResponse Unit
says_done = response end_turn (text (codes "done") false ∷ [])

abbrev calling : (ℕ → Result (MentorError Unit) (MentorResponse Unit)) → CallMeets Unit
calling replies = record {
  body_fails = none;
  request_fails = none;
  replies = replies;
  record_fails = λ n. none;
  cancels_wait = λ n. false;
}

abbrev met_by_tools : Meets Unit
met_by_tools = record {
  traced = none;
  valid = ok tt;
  cancels_asking = false;
  permit = ok tt;
  cancels_running = false;
  ran = none;
  stored = none;
  recorded = none;
}

abbrev with_call : CallMeets Unit → Round Unit
with_call call = record {
  cancelled = false;
  counted = none;
  start_fails = none;
  call = call;
  error_fails = none;
  response_fails = none;
  cost = none;
  finish_fails = none;
  continue_fails = none;
  tools = λ n. met_by_tools;
  tools_cancelled = false;
  row_fails = none;
}

-- The first round asks for a tool, the others end the turn.
abbrev answer_of : ℕ → MentorResponse Unit
answer_of zero = says_done
answer_of (suc zero) = asks_for_tool
answer_of (suc (suc n)) = says_done

abbrev rounds : ℕ → Round Unit
rounds n = with_call (calling (λ k. ok (answer_of n)))

abbrev greeting : List (Message Unit)
greeting = push_user_text (codes "hi") []

abbrev begun : Run Unit
begun = record {
  messages = greeting;
  ledger = new_ledger;
  warned_context = false;
  continued = false;
  told = [];
}

rounds-AsksToWait : (n : ℕ) → AsksToWait (rounds n).call
rounds-AsksToWait n k h = cc

answer_of-Behaves : (n : ℕ) → Behaves (answer_of n)
answer_of-Behaves zero = (refl, λ h. cc, λ h. cc)
answer_of-Behaves (suc zero) = (refl, λ h. refl, λ h. cc)
answer_of-Behaves (suc (suc n)) = (refl, λ h. cc, λ h. cc)

rounds-AllBehave : (n : ℕ) → AllBehave formats tools_config env no_tools config (rounds n)
rounds-AllBehave n resp (k, h) = subst Behaves (ok-injective h) (answer_of-Behaves n)

greeting-Exchange : Exchange greeting
unfolding pending_tool_uses
greeting-Exchange = user_text (codes "hi") [] begin refl

greeting-LastIsUser : LastIsUser greeting
unfolding push_user_text
greeting-LastIsUser = (text (codes "hi") false ∷ [], refl)

run_loop-ends_example :
    (end : Result RpcError Finish) × (run : Run Unit) × (run_loop formats tools_config env no_tools
        config rounds begun
      ≡ some (end, run))
    × (mentor_steps run.told ≤ 0 + max 3 1)
run_loop-ends_example =
    run_loop-ends formats tools_config env no_tools config rounds begun rounds-AsksToWait

execute-valid_example :
    (finish : Finish) × (messages : List (Message Unit)) × (execute formats tools_config env
        no_tools config false rounds begun
      ≡ some (finish, messages))
    × (validate messages ≡ ok tt)
execute-valid_example =
    execute-valid formats tools_config env no_tools config false rounds begun rounds-AsksToWait
      rounds-AllBehave greeting-Exchange greeting-LastIsUser

-- Overloaded always: the waits fill the budget of 60 seconds.
abbrev overloaded_call : CallMeets Unit
overloaded_call = calling (λ n. err overloaded)

overloaded_call-AsksToWait : AsksToWait overloaded_call
overloaded_call-AsksToWait n h = cc

call_mentor-EndsWithin_example : EndsWithin 60 (call_mentor 62 overloaded_call 60)
call_mentor-EndsWithin_example =
    call_mentor-EndsWithin overloaded_call 60 overloaded_call-AsksToWait

abbrev zero_call : CallMeets Unit
zero_call = calling (λ n. err (rate_limited (some 0)))

call_mentor-endless_example : call_mentor 1000 zero_call 60 ≡ none
call_mentor-endless_example =
    call_mentor-endless zero_call 1000 60 refl refl (λ n. refl) (λ n. refl)
