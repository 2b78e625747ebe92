-- ===== src/Tools/Execute/Tests.antt =====
-- Runs of the registry and of the execution of calls, and the witnesses of their theorems.
use mathlib.Core.List.{Permᴰ}
use apprentice_harness.Common.{
  ◌≡◌, ◌↔◌, refl, Bool, true, false, none, some, List, [], ◌∷◌, map, Text, codes, contains_text,
  starts_with,
}
use apprentice_harness.Common.Result.{Result, ok}
use apprentice_harness.Permissions.Types.{Risk, read_only, write}
use apprentice_harness.Runtime.Conversation.{ToolCall, result_ids, use_ids}
use apprentice_harness.Tools.Registry.{
  ToolSpec, Registry, is_valid_name, compile, contains, insert, names, register_all,
}
use apprentice_harness.Tools.Registry.Names.{text_lt}
use apprentice_harness.Tools.Registry.Order.{Ascending}
use apprentice_harness.Tools.Registry.Sets.{add_all, register_all_lem}
use apprentice_harness.Tools.Execute.{
  ToolsConfig, ToolEnv, ToolOutput, Formats, Meets, Executed, text_output, ok_kind,
}
use apprentice_harness.Tools.Execute.Batch.{execute_all, execute_one}
use apprentice_harness.Tools.Execute.InOrder.{in_order, execute_all_lem}
use apprentice_harness.Tools.Execute.Permitted.{Succeeds, execute_one_iff}

abbrev spec : Text → Risk → ToolSpec Unit
spec name risk = record {
  name = name;
  description = [];
  input_schema = tt;
  risk = risk;
  tags = [];
  timeout_s = none;
}

abbrev edit_tool : ToolSpec Unit
edit_tool = spec (codes "edit") write

abbrev ls_tool : ToolSpec Unit
ls_tool = spec (codes "ls") read_only

abbrev any_schema : Unit {0} → Bool
any_schema v = true

abbrev built : Unit {0} → Result Text Unit
built v = ok tt

abbrev both_tools : Registry Unit Unit
both_tools =
    record { spec = edit_tool; validator = tt } ∷ record { spec = ls_tool; validator = tt } ∷ []

both_tools-added : add_all any_schema built (ls_tool ∷ edit_tool ∷ []) [] ≡ ok both_tools
unfolding register_all is_valid_name compile contains insert text_lt contains_text starts_with
both_tools-added = refl

register_all_lem_example :
    Ascending (names both_tools)
    × (add_all any_schema built (edit_tool ∷ ls_tool ∷ []) [] ≡ ok both_tools)
register_all_lem_example =
    register_all_lem any_schema built (ls_tool ∷ edit_tool ∷ []) (edit_tool ∷ ls_tool ∷ [])
      both_tools both_tools-added (Permᴰ.swap refl refl)

abbrev formats : Formats Unit
formats = record { debug = λ t. t; compact = λ v. []; pretty = λ v. []; null = tt }

abbrev config : ToolsConfig
config = record {
  read_only_timeout = 30;
  write_timeout = 30;
  network_timeout = 60;
  execute_timeout = 120;
  max_capture_bytes = 1000;
  max_mentor_bytes = 100;
}

abbrev env : ToolEnv
env = record { timeout = 30; max_capture_bytes = 1000; max_mentor_bytes = 100 }

abbrev output : ToolOutput Unit
output = record { content = text_output (codes "a.rs"); metadata = tt; is_error = false }

abbrev fine : Meets Unit
fine = record {
  traced = none;
  valid = ok tt;
  cancels_asking = false;
  permit = ok tt;
  cancels_running = false;
  ran = some (ok output);
  stored = none;
  recorded = none;
}

abbrev call : Text → Text → ToolCall Unit
call id name = record { id = id; name = name; input = tt }

-- A call that writes, one that reads, and one of no tool.
abbrev three_calls : List (ToolCall Unit)
three_calls =
    call (codes "t1") (codes "edit")
    ∷ call (codes "t2") (codes "ls")
    ∷ call (codes "t3") (codes "rm")
    ∷ []

execute_all_lem_example :
    let results = execute_all formats config env both_tools (λ n. fine) three_calls in
    (results ≡ in_order formats config env both_tools (λ n. fine) 0 three_calls)
    × (result_ids (map Executed.block results) ≡ map ToolCall.id three_calls)
    × (use_ids (map Executed.block results) ≡ [])
execute_all_lem_example = execute_all_lem formats config env both_tools (λ n. fine) three_calls

execute_one_iff_example :
    ((execute_one formats config env both_tools (call (codes "t2") (codes "ls")) fine).kind
      ≡ ok_kind)
    ↔ Succeeds formats config env both_tools (call (codes "t2") (codes "ls")) fine
execute_one_iff_example =
    execute_one_iff formats config env both_tools (call (codes "t2") (codes "ls")) fine
