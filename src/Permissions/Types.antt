-- ===== src/Permissions/Types.antt =====
-- The data of the permission engine: crates/api/src/types.rs and events.rs, and the request of
-- crates/core/src/permissions/mod.rs.
use apprentice_harness.Common.{Bool, false, true, Option, none, List, Text, any}

pub data Risk : Type 0 where
  read_only write execute network : Risk

abbrev pub risk_eq : Risk → Risk → Bool
risk_eq read_only read_only = true
risk_eq write write = true
risk_eq execute execute = true
risk_eq network network = true
risk_eq _ _ = false

pub data RuleEffect : Type 0 where
  allow deny ask : RuleEffect

abbrev pub is_deny : RuleEffect → Bool
is_deny deny = true
is_deny _ = false

pub record RuleMatch : Type 0 where
  pub path : Option Text
  pub command_prefix : Option Text
  pub command_regex : Option Text
  pub outside_workspace : Option Bool
  pub risk : Option Risk

abbrev pub RuleMatch_default : RuleMatch
RuleMatch_default = record {
  path = none;
  command_prefix = none;
  command_regex = none;
  outside_workspace = none;
  risk = none;
}

pub record RuleSpec : Type 0 where
  pub tool : Text
  pub effect : RuleEffect
  pub match : RuleMatch

pub data RuleSource : Type 0 where
  workspace user builtin : RuleSource

pub data RuleDefault : Type 0 where
  ask deny : RuleDefault

pub data PermissionMode : Type 0 where
  default plan auto : PermissionMode

pub data PermissionAnswer : Type 0 where
  allow_once allow_session allow_workspace allow_always deny_once deny_always : PermissionAnswer

pub data PermissionDecision : Type 0 where
  allow deny : PermissionDecision

pub data PermissionSource : Type 0 where
  rule user session mode timeout headless : PermissionSource

pub data Headless : Type 0 where
  deny allow_readonly : Headless

-- `abs` is not read by the engine and is left out.
pub record SubjectPath : Type 0 where
  pub given : Text
  pub shown : Text
  pub outside : Bool

-- `input` and `workspace` are only shown to the user, and are left out.
pub record PermissionRequest : Type 0 where
  pub tool : Text
  pub risk : Risk
  pub paths : List SubjectPath
  pub command : Option Text
  pub description : Text

unfoldable pub has_outside : PermissionRequest → Bool
has_outside req = any (λ p. p.outside) req.paths
