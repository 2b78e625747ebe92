-- ===== src/Permissions/Tests.antt =====
-- Runs of the permission engine at concrete inputs.
use apprentice_harness.Common.{
  ◌≡◌, ◌↔◌, refl, true, false, none, some, [], ◌∷◌, Text, codes, contains_text, starts_with,
  split_whitespace, strip_prefix, trim, is_whitespace,
}
use apprentice_harness.Common.Result.{ok}
use apprentice_harness.Permissions.Types.{
  execute, RuleEffect, RuleMatch_default, RuleSource, PermissionMode, PermissionRequest, allow_once,
  allow_session, PermissionDecision, PermissionSource, Headless, has_outside,
}
use apprentice_harness.Permissions.Command.{
  is_chain, command_has_prefix, IsLeadingRun, command_has_prefix_iff,
}
use apprentice_harness.Permissions.External.{External, Files, not_found}
use apprentice_harness.Permissions.Rule.{CompiledRule, compile, matches, path_covered, path_matches}
use apprentice_harness.Permissions.Layer.{
  Layer, missing, loaded, rules, reload_if_changed, first_match, load_state, reload,
}
use apprentice_harness.Permissions.Layer.FirstMatch.{IsFirst, first_match_iff}
use apprentice_harness.Permissions.Builtins.{builtin_rules, find_match, catastrophic}
use apprentice_harness.Permissions.Evaluate.{
  evaluate, from_deny, from_match, from_builtin, from_default, broken_files,
}
use apprentice_harness.Permissions.Evaluate.Ranking.{
  IsAllowedByRules, evaluate_allows_iff, catastrophic_denied,
}
use apprentice_harness.Permissions.Suggest.{suggest}
use apprentice_harness.Permissions.Engine.{
  Engine, Outcome, layers, refresh, engine_evaluate, session_match, session_add,
}
use apprentice_harness.Permissions.Decide.{
  answered, no_client, Prompter, by_reply, answered_by, keep_for_session, ask_user, after_rules,
  by_evaluation, decide,
}
use apprentice_harness.Permissions.Decide.Grounds.{IsPermitted, decide_allows, decide_denied}
use apprentice_harness.Permissions.Decide.Reasons.{IsExplained, decide-IsExplained}
use apprentice_harness.Permissions.Decide.Remember.{allow_session_remembered}

-- Globs and expressions that match the texts they are found in, and no rules in any file.
abbrev plain : External
plain = record {
  glob_error = λ p. none;
  glob_is_match = λ p s. starts_with s p;
  regex_error = λ r. none;
  regex_is_match = λ r c. contains_text c r;
  regex_escape = λ c. c;
  toml_from_str = λ t. ok (record { default = none; rule = [] });
  toml_push = λ t r. ok t;
  write_error = λ p t. none;
}

-- As `plain`, but every expression is found in every command.
abbrev suspicious : External
suspicious = record plain { regex_is_match = λ r c. true }

abbrev no_files : Files
no_files = record { read = λ p. not_found; stamp = λ p. none; now = 0 }

abbrev user_layer : Layer
user_layer = record {
  source = RuleSource.user;
  path = codes "permissions.toml";
  state = missing;
  stamp = none;
}

abbrev cargo_rule : RuleEffect → CompiledRule
cargo_rule effect = record {
  spec = record {
    tool = codes "shell";
    effect = effect;
    match = record RuleMatch_default { command_prefix = some (codes "cargo test") };
  };
  line = some 1;
  name = none;
  glob = none;
  regex = none;
}

abbrev with_rule : RuleEffect → Layer
with_rule effect = record user_layer { state = loaded none (cargo_rule effect ∷ []) }

abbrev engine_over : Layer → Engine
engine_over l = record {
  config = record {
    default_mode = PermissionMode.default;
    ask_timeout_s = 600;
    headless = Headless.allow_readonly;
  };
  user = l;
  workspace = none;
  session = [];
  files = no_files;
}

abbrev shell : Text → PermissionRequest
shell command = record {
  tool = codes "shell";
  risk = execute;
  paths = [];
  command = some command;
  description = [];
}

abbrev nobody : Prompter
nobody ask e = (no_client, 0, e)

abbrev yes_once : Prompter
yes_once ask e = (answered allow_once none, 3, e)

-- The engine, with all that a run goes through open.
run : External → PermissionRequest → PermissionMode → Prompter → Engine → Outcome × Engine
unfolding decide engine_evaluate refresh layers reload_if_changed reload load_state evaluate
    from_deny from_match from_builtin from_default broken_files first_match builtin_rules
    catastrophic find_match matches has_outside by_evaluation after_rules ask_user by_reply
    answered_by session_match command_has_prefix is_chain trim strip_prefix is_whitespace
    contains_text starts_with path_covered path_matches session_add keep_for_session compile suggest
run x req mode prompter e = decide x req [] (codes "call_1") mode prompter e

headless_command_is_denied :
    (run plain
      (shell (codes "ls"))
      PermissionMode.default
      nobody
      (engine_over user_layer)).0.decision
    ≡ PermissionDecision.deny
unfolding run
headless_command_is_denied = refl

decide_allows_example :
    IsPermitted plain
      (shell (codes "ls"))
      []
      (codes "call_1")
      PermissionMode.default
      yes_once
      (engine_over user_layer)
unfolding run
decide_allows_example =
    decide_allows plain (shell (codes "ls")) [] (codes "call_1") PermissionMode.default yes_once
      (engine_over user_layer) refl

deny_is_first :
    first_match plain (shell (codes "cargo test --all")) (with_rule RuleEffect.deny)
    ≡ some (1, cargo_rule RuleEffect.deny)
unfolding run
deny_is_first = refl

decide_denied_example :
    ((decide plain
        (shell (codes "cargo test --all"))
        []
        (codes "call_1")
        PermissionMode.auto
        yes_once
        (engine_over (with_rule RuleEffect.deny))).0.decision
      ≡ PermissionDecision.deny)
    × ((decide plain
          (shell (codes "cargo test --all"))
          []
          (codes "call_1")
          PermissionMode.auto
          yes_once
          (engine_over (with_rule RuleEffect.deny))).0.request_id
        ≡ none)
unfolding run
decide_denied_example =
    decide_denied plain (shell (codes "cargo test --all")) [] (codes "call_1") PermissionMode.auto
      yes_once (engine_over (with_rule RuleEffect.deny)) [] [] (with_rule RuleEffect.deny) refl
      (record {
        index = 1;
        rule = cargo_rule RuleEffect.deny;
        first = deny_is_first;
        denied = refl;
      })

decide-IsExplained_example :
    IsExplained
      (decide plain
        (shell (codes "ls"))
        []
        (codes "call_1")
        PermissionMode.plan
        nobody
        (engine_over user_layer)).0
decide-IsExplained_example =
    decide-IsExplained plain (shell (codes "ls")) [] (codes "call_1") PermissionMode.plan nobody
      (engine_over user_layer)

evaluate_allows_iff_example :
    ((evaluate plain (shell (codes "cargo test")) (with_rule RuleEffect.allow ∷ [])).effect
      ≡ RuleEffect.allow)
    ↔ IsAllowedByRules plain (shell (codes "cargo test")) (with_rule RuleEffect.allow ∷ [])
evaluate_allows_iff_example =
    evaluate_allows_iff plain (shell (codes "cargo test")) (with_rule RuleEffect.allow ∷ [])

catastrophic_denied_example :
    (evaluate suspicious (shell (codes "rm -rf /")) (user_layer ∷ [])).effect ≡ RuleEffect.deny
unfolding run
catastrophic_denied_example =
    catastrophic_denied suspicious (shell (codes "rm -rf /")) (user_layer ∷ []) (codes "rm -rf /")
      refl refl (λ e. cc) (refl, tt) (refl, tt)

command_has_prefix_iff_example :
    (command_has_prefix (codes " cargo test ") (codes "cargo") ≡ true)
    ↔ IsLeadingRun (codes " cargo test ") (codes "cargo")
command_has_prefix_iff_example = command_has_prefix_iff (codes " cargo test ") (codes "cargo")

first_match_iff_example :
    (first_match plain (shell (codes "cargo test")) (with_rule RuleEffect.allow)
      ≡ some (1, cargo_rule RuleEffect.allow))
    ↔ IsFirst plain
        (shell (codes "cargo test"))
        (rules (with_rule RuleEffect.allow))
        1
        (cargo_rule RuleEffect.allow)
first_match_iff_example =
    first_match_iff plain (shell (codes "cargo test")) (with_rule RuleEffect.allow) 1
      (cargo_rule RuleEffect.allow)

abbrev kept : CompiledRule
kept = record (cargo_rule RuleEffect.allow) { line = none }

allow_session_remembered_example :
    let e =
      (answered_by plain
        (shell (codes "cargo test"))
        allow_session
        (some (cargo_rule RuleEffect.allow).spec)
        none
        (codes "call_1")
        (engine_over user_layer)).1 in
    ((decide plain
        (shell (codes "cargo test -q"))
        []
        (codes "call_2")
        PermissionMode.default
        nobody
        e).0.decision
      ≡ PermissionDecision.allow)
    × ((decide plain
          (shell (codes "cargo test -q"))
          []
          (codes "call_2")
          PermissionMode.default
          nobody
          e).0.source
        ≡ PermissionSource.session)
    × ((decide plain
          (shell (codes "cargo test -q"))
          []
          (codes "call_2")
          PermissionMode.default
          nobody
          e).0.request_id
        ≡ none)
unfolding run
allow_session_remembered_example =
    allow_session_remembered plain (shell (codes "cargo test")) (cargo_rule RuleEffect.allow).spec
      none (codes "call_1") (engine_over user_layer) kept (shell (codes "cargo test -q")) []
      (codes "call_2") PermissionMode.default nobody refl refl refl refl

-- The suggested prefix of a command with two blanks between its words does not match that command.
suggestion_misses_double_blank :
    (suggest plain (shell (codes "cargo  test")) ≡ (
      record {
        tool = codes "shell";
        effect = RuleEffect.allow;
        match = record RuleMatch_default { command_prefix = some (codes "cargo test") };
      }
      ∷ record {
        tool = codes "shell";
        effect = RuleEffect.allow;
        match = record RuleMatch_default { command_prefix = some (codes "cargo") };
      }
      ∷ []))
    × (matches plain (cargo_rule RuleEffect.allow) (shell (codes "cargo  test")) ≡ false)
unfolding run split_whitespace
suggestion_misses_double_blank = (refl, refl)
