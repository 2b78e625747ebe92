-- ===== src/Permissions/Suggest.antt =====
-- `suggest` of crates/core/src/permissions/mod.rs: the rules that an answer would write.
use apprentice_harness.Common.{
  Bool, true, not, ◌&&◌, Option, none, some, List, [], ◌∷◌, ◌++◌, Text, codes, text_eq, is_empty,
  trim, split_whitespace, join, take, before_last, if◌then◌else◌,
}
use apprentice_harness.Permissions.Types.{
  RuleEffect, RuleMatch, RuleMatch_default, RuleSpec, SubjectPath, PermissionRequest,
}
use apprentice_harness.Permissions.Command.{is_chain}
use apprentice_harness.Permissions.External.{External}

-- The closure `rule`.
abbrev rule : PermissionRequest → RuleMatch → RuleSpec
rule req m = record { tool = req.tool; effect = RuleEffect.allow; match = m }

abbrev prefix_rule : PermissionRequest → Text → RuleSpec
prefix_rule req prefix = rule req (record RuleMatch_default { command_prefix = some prefix })

abbrev path_rule : PermissionRequest → Bool → Text → RuleSpec
path_rule req outside path = rule req (record RuleMatch_default {
  path = some path;
  outside_workspace = if outside then some true else none;
})

-- The second suggestion: the first word alone, where there are more.
abbrev first_word : PermissionRequest → Text → List Text → List RuleSpec
first_word req two (w ∷ v ∷ ws) = if text_eq w two then [] else prefix_rule req w ∷ []
first_word req two _ = []

unfoldable pub suggest_command : External → PermissionRequest → Text → List RuleSpec
suggest_command x req command =
    if is_chain command
    then rule req (record RuleMatch_default {
      command_regex = some (codes "^" ++ (x.regex_escape command ++ codes "$"));
    })
      ∷ []
    else let words = split_whitespace command in
      let two = join (codes " ") (take 2 words) in prefix_rule req two ∷ first_word req two words

abbrev dir_glob : Option Text → Text
dir_glob none = codes "**"
dir_glob (some dir) = dir ++ codes "/**"

unfoldable pub suggest_path : PermissionRequest → SubjectPath → List RuleSpec
suggest_path req first =
    let dir = dir_glob (before_last b'/' first.shown) in
    path_rule req first.outside dir
    ∷ (if not (text_eq first.shown (codes ".")) && not (text_eq first.shown dir)
        then path_rule req first.outside first.shown ∷ []
        else [])

-- By the paths of the call, where it has no command.
abbrev by_paths : PermissionRequest → List SubjectPath → List RuleSpec
by_paths req [] = rule req RuleMatch_default ∷ []
by_paths req (first ∷ _) = suggest_path req first

unfoldable pub suggest : External → PermissionRequest → List RuleSpec
unfolding suggest_command suggest_path
suggest x req = elim req.command [
  | none ↦ by_paths req req.paths
  | some c ↦
      let command = trim c in
      if is_empty command then by_paths req req.paths else suggest_command x req command
]
