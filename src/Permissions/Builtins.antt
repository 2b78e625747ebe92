-- ===== src/Permissions/Builtins.antt =====
-- The built-in rules of crates/core/src/permissions/rules.rs. `named` compiles each with `expect`; the
-- patterns are constants, so the rules stand here as they are compiled.
pub mod Laws
use apprentice_harness.Common.{
  ℕ, Bool, true, false, Option, none, some, List, [], ◌∷◌, Text, codes, map, if◌then◌else◌,
}
use apprentice_harness.Permissions.Types.{
  RuleSpec, RuleMatch, RuleMatch_default, RuleEffect, PermissionRequest, read_only,
}
use apprentice_harness.Permissions.External.{External}
use apprentice_harness.Permissions.Rule.{CompiledRule, matches}

unfoldable pub catastrophic : List (Text × Text)
catastrophic =
    (
      codes "rm_recursive_root",
      codes
          "(?i)(^|[;&|]\\s*|\\bsudo\\s+)rm\\s+(-[a-z-]+\\s+)*(-[a-z]*r[a-z]*|--recursive)\\s+(-[a-z-]+\\s+)*['\"]?(/\\*?|~/?\\*?|\\$HOME/?\\*?|%USERPROFILE%|\\*|\\.{1,2}/?\\*?|[a-z]:[\\\\/]?\\*?)['\"]?(\\s|;|&|\\||$)",
    )
    ∷ (
      codes "remove_item_recursive_root",
      codes
          "(?i)\\bRemove-Item\\b([^;|]*\\s-Recurse\\b[^;|]*?(\\s|['\"])|[^;|]*?(\\s|['\"]))(/|\\\\|[a-z]:[\\\\/]?|~|\\$HOME|\\$env:USERPROFILE|\\.\\.?|\\*)['\"]?(\\s[^;|]*-Recurse\\b|\\s|$)",
    )
    ∷ (
      codes "disk_format",
      codes
          "(?i)(^|[;&|]\\s*|\\bsudo\\s+)(mkfs(\\.[a-z0-9]+)?\\s|format(\\.com)?\\s+[a-z]:|diskpart(\\s|$)|dd\\s+[^;|]*of=/dev/)",
    )
    ∷ (codes "fork_bomb", codes ":\\(\\)\\s*\\{\\s*:\\s*\\|\\s*:\\s*&\\s*\\}\\s*;\\s*:")
    ∷ (
      codes "chmod_recursive_root",
      codes
          "(?i)(^|[;&|]\\s*|\\bsudo\\s+)(chmod|chown)\\s+(-[a-z]*R[a-z]*|--recursive)\\s+\\S+\\s+/(\\s|;|&|\\||$)",
    )
    ∷ []

abbrev read_only_inside : CompiledRule
read_only_inside = record {
  spec = record {
    tool = codes "*";
    effect = RuleEffect.allow;
    match = record RuleMatch_default { risk = some read_only; outside_workspace = some false };
  };
  line = none;
  name = some (codes "read_only_inside");
  glob = none;
  regex = none;
}

abbrev pub deny_command : Text × Text → CompiledRule
deny_command (name, regex) = record {
  spec = record {
    tool = codes "*";
    effect = RuleEffect.deny;
    match = record RuleMatch_default { command_regex = some regex };
  };
  line = none;
  name = some name;
  glob = none;
  regex = some regex;
}

unfoldable pub builtin_rules : List CompiledRule
unfolding catastrophic
builtin_rules = read_only_inside ∷ map deny_command catastrophic

-- `iter().find(|r| r.matches(req))`
unfoldable pub find_match : External → PermissionRequest → List CompiledRule → Option CompiledRule
find_match x req [] = none
find_match x req (r ∷ rs) = if matches x r req then some r else find_match x req rs
