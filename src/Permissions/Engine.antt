-- ===== src/Permissions/Engine.antt =====
-- The engine of one session: `Engine`, `SessionRules` and `Outcome` of
-- crates/core/src/permissions/mod.rs.

use apprentice_harness.Common.{
  ℕ, ◌+◌, Bool, true, false, Option, none, some, List, [], ◌∷◌, ◌++◌, Text, length, if◌then◌else◌,
}
use apprentice_harness.Common.Result.{Result, ok, ◌>>=◌}
use apprentice_harness.Permissions.Types.{
  Risk, RuleEffect, RuleSpec, RuleSource, PermissionRequest, PermissionMode, PermissionAnswer,
  PermissionDecision, PermissionSource, Headless,
}
use apprentice_harness.Permissions.External.{External, Files}
use apprentice_harness.Permissions.Rule.{CompileError, CompiledRule, Description, compile, matches}
use apprentice_harness.Permissions.Layer.{Layer, RuleFileError, reload_if_changed, load}
use apprentice_harness.Permissions.Evaluate.{RuleRef, Evaluation, evaluate}

pub record PermissionsConfig : Type 0 where
  pub default_mode : PermissionMode
  pub ask_timeout_s : ℕ
  pub headless : Headless

-- The state behind the engine's locks, and the files.
pub record Engine : Type 0 where
  pub config : PermissionsConfig
  pub user : Layer
  pub workspace : Option Layer
  pub session : List CompiledRule
  pub files : Files

-- What the mentor reads when denied.
pub data Reason : Type 0 where
  plan_mode : (tool : Text) → Risk → Reason
  by_rule : RuleRef → Description → Reason
  by_ref : RuleRef → Reason
  by_unnamed by_user : Reason
  timed_out : (seconds : ℕ) → Reason
  headless_read_only : (tool : Text) → Risk → Reason
  headless_denied : Reason

pub data Note : Type 0 where
  session_rule_not_kept : CompileError → Note
  no_workspace : Note
  rule_not_written not_in_force : RuleFileError → Note

pub record RuleWritten : Type 0 where
  pub path : Text
  pub line : ℕ
  pub rule : RuleSpec

pub record Outcome : Type 0 where
  pub decision : PermissionDecision
  pub source : PermissionSource
  pub rule_ref : Option RuleRef
  pub reason : Option Reason
  pub request_id : Option Text
  pub answer : Option PermissionAnswer
  pub waited : ℕ
  pub rule_written : Option RuleWritten
  pub notes : List Note

-- `Outcome::allow`
abbrev pub allowed : PermissionSource → Option RuleRef → Outcome
allowed source rule_ref = record {
  decision = PermissionDecision.allow;
  source = source;
  rule_ref = rule_ref;
  reason = none;
  request_id = none;
  answer = none;
  waited = 0;
  rule_written = none;
  notes = [];
}

-- `Outcome::deny`
abbrev pub denied : PermissionSource → Option RuleRef → Reason → Outcome
denied source rule_ref reason = record (allowed source rule_ref) {
  decision = PermissionDecision.deny;
  reason = some reason;
}

abbrev pub is_allowed : Outcome → Bool
is_allowed o = elim o.decision [ PermissionDecision.allow ↦ true | PermissionDecision.deny ↦ false ]

abbrev pub with_effect : RuleEffect → RuleSpec → RuleSpec
with_effect effect r = record r { effect = effect }

module _ (x : External) where
  -- `SessionRules::add`: the rules, and the 1-based index of the new one.
  unfoldable pub session_add :
      List CompiledRule → RuleSpec → Result CompileError (List CompiledRule × ℕ)
  session_add rules rule = do
    compiled ← compile x (with_effect RuleEffect.allow rule)
    let rules' = rules ++ compiled ∷ []
    ok (rules', length rules')

  -- `position(..)`, counted from `i`.
  unfoldable pub position_from : PermissionRequest → ℕ → List CompiledRule → Option ℕ
  position_from req i [] = none
  position_from req i (r ∷ rs) = if matches x r req then some i else position_from req (i + 1) rs

  -- `SessionRules::first_match`
  unfoldable pub session_match : PermissionRequest → List CompiledRule → Option ℕ
  unfolding position_from
  session_match req rules = position_from req 1 rules

  -- `Engine::with_files`
  unfoldable pub with_files :
      Files → Text → Option Text → PermissionsConfig → List CompiledRule → Engine
  with_files files user_file workspace_file config session = record {
    config = config;
    user = load x files RuleSource.user user_file;
    workspace = elim workspace_file [
      | none ↦ none
      | some p ↦ some (load x files RuleSource.workspace p)
    ];
    session = session;
    files = files;
  }

  -- The re-reading at the head of `with_layers`.
  unfoldable pub refresh : Engine → Engine
  refresh e = record e {
    user = reload_if_changed x e.files e.user;
    workspace = elim e.workspace [ none ↦ none | some ws ↦ some (reload_if_changed x e.files ws) ];
  }

  -- The layers that `with_layers` hands on, highest first.
  unfoldable pub layers : Engine → List Layer
  layers e = elim e.workspace [ none ↦ e.user ∷ [] | some ws ↦ ws ∷ e.user ∷ [] ]

  -- `Engine::evaluate`, and the engine with its layers re-read.
  unfoldable pub engine_evaluate : PermissionRequest → Engine → Evaluation × Engine
  unfolding refresh layers
  engine_evaluate req e = let e' = refresh e in (evaluate x req (layers e'), e')
