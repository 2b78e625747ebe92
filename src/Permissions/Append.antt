-- ===== src/Permissions/Append.antt =====
-- `append_rule` of crates/core/src/permissions/rules.rs: a rule added to a rules file.
use apprentice_harness.Common.{
  ℕ, Option, none, some, List, [], ◌∷◌, ◌++◌, Text, codes, is_empty, last?, if◌then◌else◌, trim,
  lines,
}
use apprentice_harness.Common.Result.{Result, ok, err, ◌>>=◌, map_err}
use apprentice_harness.Permissions.Types.{
  Risk, read_only, write, execute, network, RuleEffect, RuleMatch, RuleSpec,
}
use apprentice_harness.Permissions.External.{
  External, FileRead, not_found, failed, content, Files, write_atomic, RuleTable, Item, string,
  boolean,
}
use apprentice_harness.Permissions.Rule.{CompiledRule, compile}
use apprentice_harness.Permissions.Layer.{
  RuleFileError, parse_error, io, bad_rule, toml_error, parse_rules,
}

unfoldable pub risk_name : Risk → Text
risk_name read_only = codes "read_only"
risk_name write = codes "write"
risk_name execute = codes "execute"
risk_name network = codes "network"

unfoldable pub effect_name : RuleEffect → Text
effect_name RuleEffect.allow = codes "allow"
effect_name RuleEffect.deny = codes "deny"
effect_name RuleEffect.ask = codes "ask"

comment_lines : List Text → Text
comment_lines [] = []
comment_lines (l ∷ ls) = codes "# " ++ (l ++ (b'\n' ∷ comment_lines ls))

unfoldable pub comment_prefix : Text → Text → Text
unfolding lines comment_lines trim
comment_prefix text comment =
    if is_empty comment
    then []
    else (if is_empty (trim text) then [] else b'\n' ∷ []) ++ comment_lines (lines comment)

abbrev entry {ℓ} : {A : Type ℓ} → Text → (A → Item) → Option A → List (Text × Item)
entry key f none = []
entry key f (some a) = (key, f a) ∷ []

unfoldable pub match_fields : RuleMatch → List (Text × Item)
unfolding risk_name
match_fields m =
    entry (codes "risk") (λ r. string (risk_name r)) m.risk
    ++ (entry (codes "path") string m.path
        ++ (entry (codes "command_prefix") string m.command_prefix
            ++ (entry (codes "command_regex") string m.command_regex
                ++ entry (codes "outside_workspace") boolean m.outside_workspace)))

unfoldable pub rule_table : Text → RuleSpec → Text → RuleTable
unfolding comment_prefix effect_name match_fields
rule_table text rule comment = record {
  prefix = comment_prefix text comment;
  fields =
      (codes "tool", string rule.tool) ∷ (codes "effect", string (effect_name rule.effect)) ∷ [];
  match = match_fields rule.match;
}

-- The text that is extended: none yet, for a file that is missing.
abbrev existing : Text → FileRead → Result RuleFileError Text
existing path not_found = ok []
existing path (failed e) = err (io path e)
existing path (content text) = ok text

abbrev line_or_one : Option CompiledRule → ℕ
line_or_one none = 1
line_or_one (some r) = elim r.line [ none ↦ 1 | some n ↦ n ]

-- The line of the new `[[rule]]` header, and the files after the write.
unfoldable pub append_rule :
    External → Text → RuleSpec → Text → Files → Result RuleFileError (ℕ × Files)
append_rule x path rule comment files = do
  compiled ← map_err (λ e. parse_error path 0 (bad_rule e)) (compile x rule)
  text ← existing path (files.read path)
  sound ← parse_rules x path text
  text' ← map_err (toml_error path text) (x.toml_push text (rule_table text rule comment))
  parsed ← parse_rules x path text'
  files' ← map_err (io path) (write_atomic x path text' files)
  ok (line_or_one (last? parsed.1), files')
