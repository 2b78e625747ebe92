-- ===== src/Permissions/Evaluate.antt =====
-- `evaluate` of crates/core/src/permissions/rules.rs: how the layers answer a request.
pub mod Parts
pub mod Ranking
use apprentice_harness.Common.{
  ℕ, Bool, true, false, Option, none, some, List, [], ◌∷◌, Text, is_empty, if◌then◌else◌,
}
use apprentice_harness.Permissions.Types.{
  RuleEffect, is_deny, RuleSource, RuleDefault, PermissionRequest,
}
use apprentice_harness.Permissions.External.{External}
use apprentice_harness.Permissions.Rule.{CompiledRule, Description, describe}
use apprentice_harness.Permissions.Layer.{
  Layer, RuleFileError, first_match, layer_default, layer_error,
}
use apprentice_harness.Permissions.Builtins.{builtin_rules, find_match}

-- The text of `rule_ref`, before it is printed.
pub data RuleRef : Type 0 where
  numbered : RuleSource → ℕ → RuleRef
  builtin : Option Text → RuleRef
  default_of : RuleSource → RuleRef
  session : ℕ → RuleRef
  mode_plan mode_auto : RuleRef

pub record Evaluation : Type 0 where
  pub effect : RuleEffect
  pub rule_ref : Option RuleRef
  pub rule : Option Description
  pub broken : List RuleFileError

abbrev pub decided : Layer → ℕ → CompiledRule → Evaluation
decided l i r = record {
  effect = r.spec.effect;
  rule_ref = some (numbered l.source i);
  rule = some (describe r);
  broken = [];
}

abbrev effect_of_default : RuleDefault → RuleEffect
effect_of_default RuleDefault.deny = RuleEffect.deny
effect_of_default RuleDefault.ask = RuleEffect.ask

abbrev or_else {ℓ} : {A : Type ℓ} → Option A → A → A
or_else none a = a
or_else (some b) a = b

-- The errors of the layers, in order.
unfoldable pub broken_files : List Layer → List RuleFileError
broken_files [] = []
broken_files (l ∷ ls) = elim (layer_error l) [
  | none ↦ broken_files ls
  | some e ↦ e ∷ broken_files ls
]

-- The first layer that sets a default.
unfoldable pub from_default : List Layer → Option Evaluation
from_default [] = none
from_default (l ∷ ls) = elim (layer_default l) [
  | none ↦ from_default ls
  | some d ↦ some (record {
    effect = effect_of_default d;
    rule_ref = some (default_of l.source);
    rule = none;
    broken = [];
  })
]

abbrev pub asked : List RuleFileError → Evaluation
asked broken = record { effect = RuleEffect.ask; rule_ref = none; rule = none; broken = broken }

module _ (x : External) (req : PermissionRequest) where
  -- The first loop: a layer whose first match is a deny.
  unfoldable pub from_deny : List Layer → Option Evaluation
  from_deny [] = none
  from_deny (l ∷ ls) = elim (first_match x req l) [
    | none ↦ from_deny ls
    | some (i, r) ↦ if is_deny r.spec.effect then some (decided l i r) else from_deny ls
  ]

  -- The second loop: a layer with a match.
  unfoldable pub from_match : List Layer → Option Evaluation
  from_match [] = none
  from_match (l ∷ ls) = elim (first_match x req l) [
    | none ↦ from_match ls
    | some (i, r) ↦ some (decided l i r)
  ]

  unfoldable pub from_builtin : Option Evaluation
  from_builtin = elim (find_match x req builtin_rules) [
    | none ↦ none
    | some r ↦ some (record {
      effect = r.spec.effect;
      rule_ref = some (builtin r.name);
      rule = some (describe r);
      broken = [];
    })
  ]

  -- The layers, highest first.
  unfoldable pub evaluate : List Layer → Evaluation
  evaluate layers = or_else (from_deny layers) (
      let broken = broken_files layers in
      if is_empty broken
      then or_else (from_match layers)
          (or_else from_builtin (or_else (from_default layers) (asked [])))
      else asked broken)
