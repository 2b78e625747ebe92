-- ===== src/Permissions/Rule.antt =====
-- `CompiledRule` of crates/core/src/permissions/rules.rs: compiling, matching and describing.
use apprentice_harness.Common.{
  ℕ, Bool, true, false, not, ◌&&◌, ◌||◌, Option, none, some, List, [], ◌∷◌, ◌++◌, Text, codes,
  text_eq, all, is_empty, strip_prefix, reverse, if◌then◌else◌,
}
use mathlib.Core.Option
use apprentice_harness.Common.Result.{Result, ok, err, ◌>>=◌}
use apprentice_harness.Permissions.Types.{
  Risk, risk_eq, RuleSpec, RuleMatch, SubjectPath, PermissionRequest, has_outside,
}
use apprentice_harness.Permissions.Command.{command_has_prefix}
use apprentice_harness.Permissions.External.{External}

-- Why a rule does not compile.
pub data CompileError : Type 0 where
  bad_tool : CompileError
  bad_path bad_regex : Text → CompileError

pub record CompiledRule : Type 0 where
  pub spec : RuleSpec
  pub line : Option ℕ
  pub name : Option Text
  pub glob : Option Text
  pub regex : Option Text

-- `path.map(build).transpose()?`
abbrev pub build :
    (Text → Option Text) → (Text → CompileError) → Option Text → Result CompileError (Option Text)
build check bad none = ok none
build check bad (some p) = elim (check p) [ none ↦ ok (some p) | some e ↦ err (bad e) ]

-- `pattern.strip_suffix("/**")`
abbrev pub strip_suffix : Text → Text → Option Text
strip_suffix pattern suffix = Option.map reverse (strip_prefix (reverse suffix) (reverse pattern))

abbrev same_dir : Text → Option Text → Bool → Bool
same_dir shown none otherwise = otherwise
same_dir shown (some dir) otherwise = text_eq shown dir

-- An absent condition holds.
abbrev given {ℓ} : {A : Type ℓ} → Option A → (A → Bool) → Bool
given none test = true
given (some a) test = test a

abbrev bool_eq : Bool → Bool → Bool
bool_eq true b = b
bool_eq false b = not b

abbrev is_true : Option Bool → Bool
is_true (some b) = b
is_true none = false

abbrev is_some_and {ℓ} : {A : Type ℓ} → Option A → (A → Bool) → Bool
is_some_and none test = false
is_some_and (some a) test = test a

-- What stands between the brackets of `describe`.
pub data Part : Type 0 where
  risk_is : Risk → Part
  path_is command_prefix_is command_regex_is : Text → Part
  outside_workspace_is : Bool → Part

-- `tool [condition, ...]`, before it is printed.
pub record Description : Type 0 where
  pub tool : Text
  pub parts : List Part

abbrev part {ℓ} : {A : Type ℓ} → (A → Part) → Option A → List Part
part f none = []
part f (some a) = f a ∷ []

unfoldable pub describe : CompiledRule → Description
describe r =
    let m = r.spec.match in
    record {
      tool = r.spec.tool;
      parts =
          part risk_is m.risk
          ++ (part path_is m.path
              ++ (part command_prefix_is m.command_prefix
                  ++ (part command_regex_is m.command_regex
                      ++ part outside_workspace_is m.outside_workspace)));
    }

module _ (x : External) where
  unfoldable pub compile : RuleSpec → Result CompileError CompiledRule
  compile spec = if is_empty spec.tool then err CompileError.bad_tool else do
    glob ← build x.glob_error bad_path spec.match.path
    regex ← build x.regex_error bad_regex spec.match.command_regex
    ok (record { spec = spec; line = none; name = none; glob = glob; regex = regex })

  unfoldable pub path_matches : Text → Text → Bool
  path_matches glob shown =
      if x.glob_is_match glob shown
      then true
      else same_dir shown (strip_suffix glob (codes "/**"))
          (text_eq glob (codes "**") && text_eq shown (codes "."))

  -- One path under a glob: an outside path needs a rule that says so.
  unfoldable pub path_covered : RuleMatch → Text → SubjectPath → Bool
  path_covered m glob p =
      (not p.outside || is_true m.outside_workspace) && path_matches glob p.shown

  unfoldable pub matches : CompiledRule → PermissionRequest → Bool
  matches r req =
      let m = r.spec.match in
      (text_eq r.spec.tool (codes "*") || text_eq r.spec.tool req.tool)
      && given m.risk (λ risk. risk_eq risk req.risk)
      && given m.outside_workspace (λ outside. bool_eq outside (has_outside req))
      && given r.glob (λ glob. not (is_empty req.paths) && all (path_covered m glob) req.paths)
      && given m.command_prefix
          (λ prefix. is_some_and req.command (λ c. command_has_prefix c prefix))
      && given r.regex (λ regex. is_some_and req.command (x.regex_is_match regex))
