-- ===== src/Permissions/Layer.antt =====
-- `Layer` and `parse_rules` of crates/core/src/permissions/rules.rs: a rules file as it is loaded.
pub mod FirstMatch
use apprentice_harness.Common.{
  ℕ, zero, suc, ◌+◌, ◌*◌, min, Bool, true, false, Option, none, some, List, [], ◌∷◌, ◌++◌, Text,
  Bytes, codes, text_eq, length, take, last?, ◌==◌, is_empty, if◌then◌else◌, map, trim,
}
use mathlib.Core.Option
use apprentice_harness.Common.Result.{Result, ok, err, ◌>>=◌, map_err}
use apprentice_harness.Permissions.Types.{
  RuleSpec, RuleMatch, RuleMatch_default, RuleEffect, RuleSource, RuleDefault, PermissionRequest,
  read_only, Risk,
}
use apprentice_harness.Permissions.External.{
  External, FileModel, TomlError, FileRead, not_found, failed, content, Files, write_atomic,
  RuleTable, Item,
}
use apprentice_harness.Permissions.Rule.{CompileError, CompiledRule, compile, matches}

-- The message of a `Parse` error.
pub data Message : Type 0 where
  toml : Text → Message
  bad_default : Text → Message
  bad_rule : CompileError → Message

pub data RuleFileError : Type 0 where
  parse_error : (path : Text) (line : ℕ) → Message → RuleFileError
  io : (path : Text) → Text → RuleFileError

-- The newlines among the first bytes, and one: the 1-based line of a byte offset.
abbrev count_newlines : Bytes → ℕ
count_newlines [] = 0
count_newlines (b ∷ bs) = if b == b'\n' then suc (count_newlines bs) else count_newlines bs

unfoldable pub line_of : Text → ℕ → ℕ
line_of text offset = count_newlines (take (min offset (length text)) text) + 1

abbrev pub toml_error : Text → Text → TomlError → RuleFileError
toml_error path text e =
    parse_error path (elim e.span [ none ↦ 1 | some start ↦ line_of text start ]) (toml e.message)

abbrev parse_default : Text → Text → Option (Text × ℕ) → Result RuleFileError (Option RuleDefault)
parse_default path text none = ok none
parse_default path text (some (d, start)) =
    if text_eq d (codes "ask")
    then ok (some RuleDefault.ask)
    else if text_eq d (codes "deny")
    then ok (some RuleDefault.deny)
    else err (parse_error path (line_of text start) (bad_default d))

abbrev at_line : ℕ → CompiledRule → CompiledRule
at_line n r = record r { line = some n }

pub data LayerState : Type 0 where
  missing : LayerState
  loaded : (default : Option RuleDefault) (rules : List CompiledRule) → LayerState
  broken : RuleFileError → LayerState

pub record Layer : Type 0 where
  pub source : RuleSource
  pub path : Text
  pub state : LayerState
  pub stamp : Option (ℕ × ℕ)

abbrev rules_of : LayerState → List CompiledRule
rules_of (loaded default rules) = rules
rules_of _ = []

abbrev pub rules : Layer → List CompiledRule
rules l = rules_of l.state

abbrev default_of : LayerState → Option RuleDefault
default_of (loaded default rules) = default
default_of _ = none

-- `Layer::default`.
abbrev pub layer_default : Layer → Option RuleDefault
layer_default l = default_of l.state

abbrev error_of : LayerState → Option RuleFileError
error_of (broken e) = some e
error_of _ = none

-- `Layer::error`.
abbrev pub layer_error : Layer → Option RuleFileError
layer_error l = error_of l.state

module _ (x : External) where
  -- The loop over the `[[rule]]` tables.
  pub compile_all : Text → Text → List (RuleSpec × ℕ) → Result RuleFileError (List CompiledRule)
  compile_all path text [] = ok []
  compile_all path text ((spec, start) ∷ more) = do
    let line = line_of text start
    r ← map_err (λ e. parse_error path line (bad_rule e)) (compile x spec)
    rest ← compile_all path text more
    ok (at_line line r ∷ rest)

  unfoldable pub parse_rules :
      Text → Text → Result RuleFileError (Option RuleDefault × List CompiledRule)
  unfolding compile_all
  parse_rules path text = do
    model ← map_err (toml_error path text) (x.toml_from_str text)
    default ← parse_default path text model.default
    rules ← compile_all path text model.rule
    ok (default, rules)

  -- What `reload` makes of the file.
  unfoldable pub load_state : Text → FileRead → LayerState
  load_state path not_found = missing
  load_state path (failed e) = broken (io path e)
  load_state path (content text) = elim (parse_rules path text) [
    | ok (default, rules) ↦ loaded default rules
    | err e ↦ broken e
  ]

  unfoldable pub reload : Files → Layer → Layer
  unfolding load_state
  reload files l = record l {
    state = load_state l.path (files.read l.path);
    stamp = files.stamp l.path;
  }

  abbrev same_stamp : Option (ℕ × ℕ) → Option (ℕ × ℕ) → Bool
  same_stamp none none = true
  same_stamp none (some s) = false
  same_stamp (some r) none = false
  same_stamp (some (t, n)) (some (u, m)) = if t == u then n == m else false

  unfoldable pub reload_if_changed : Files → Layer → Layer
  unfolding reload
  reload_if_changed files l = if same_stamp (files.stamp l.path) l.stamp then l else reload files l

  unfoldable pub load : Files → RuleSource → Text → Layer
  unfolding reload
  load files source path =
      reload files (record { source = source; path = path; state = missing; stamp = none })

  -- `find` over `enumerate`, from position `i` on.
  pub find_from : PermissionRequest → ℕ → List CompiledRule → Option (ℕ × CompiledRule)
  find_from req i [] = none
  find_from req i (r ∷ rs) = if matches x r req then some (i, r) else find_from req (i + 1) rs

  -- The first matching rule of the layer, with its 1-based index.
  unfoldable pub first_match : PermissionRequest → Layer → Option (ℕ × CompiledRule)
  unfolding find_from
  first_match req l = find_from req 1 (rules l)
