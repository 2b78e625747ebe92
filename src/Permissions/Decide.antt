-- ===== src/Permissions/Decide.antt =====
-- `Engine::decide`, `answered` and `write_rule` of crates/core/src/permissions/mod.rs. Waiting for the
-- answer is a call of the prompter, which gives the engine as it is afterwards: other calls of the
-- session may add rules meanwhile, and other processes may write the files.

pub mod Grounds
pub mod Reasons
pub mod Remember
use apprentice_harness.Common.{
  ℕ, ◌+◌, max, Bool, true, false, not, ◌&&◌, Option, none, some, List, [], ◌∷◌, ◌++◌, Text, codes,
  map, if◌then◌else◌,
}
use mathlib.Core.Option
use apprentice_harness.Common.Result.{ok, err}
use apprentice_harness.Permissions.Types.{
  Risk, read_only, write, execute, network, risk_eq, RuleEffect, RuleSpec, RuleSource,
  PermissionRequest, has_outside, PermissionMode, PermissionAnswer, allow_once, allow_session,
  allow_workspace, allow_always, deny_once, deny_always, PermissionSource, Headless,
}
use apprentice_harness.Permissions.External.{External}
use apprentice_harness.Permissions.Layer.{Layer, reload}
use apprentice_harness.Permissions.Append.{append_rule}
use apprentice_harness.Permissions.Evaluate.{RuleRef, session, mode_plan, mode_auto, Evaluation}
use apprentice_harness.Permissions.Suggest.{suggest}
use apprentice_harness.Permissions.Engine.{
  Engine, Outcome, allowed, denied, Reason, plan_mode, by_rule, by_ref, by_unnamed, by_user,
  headless_read_only, headless_denied, Note, session_rule_not_kept, no_workspace, rule_not_written,
  not_in_force, RuleWritten, with_effect, session_add, session_match, engine_evaluate,
}

pub data Reply : Type 0 where
  answered : PermissionAnswer → Option RuleSpec → Reply
  timed_out no_client : Reply

pub record Ask : Type 0 where
  pub request_id : Text
  pub agent_id : Text
  pub request : PermissionRequest
  pub suggested : List RuleSpec
  pub timeout : ℕ

-- The reply, the time waited, and the engine when the reply is there.
abbrev pub Prompter : Type 0
Prompter = Ask → Engine → Reply × ℕ × Engine

abbrev pub is_mutating : Risk → Bool
is_mutating write = true
is_mutating execute = true
is_mutating _ = false

abbrev pub is_plan : PermissionMode → Bool
is_plan PermissionMode.plan = true
is_plan _ = false

abbrev pub is_auto : PermissionMode → Bool
is_auto PermissionMode.auto = true
is_auto _ = false

abbrev pub deny_reason : Evaluation → Reason
deny_reason ev = elim ev.rule_ref [
  | none ↦ by_unnamed
  | some r ↦ elim ev.rule [ none ↦ by_ref r | some d ↦ by_rule r d ]
]

abbrev pub head : List RuleSpec → Option RuleSpec
head [] = none
head (r ∷ rs) = some r

abbrev or_opt : Option RuleSpec → Option RuleSpec → Option RuleSpec
or_opt none b = b
or_opt (some a) b = some a

-- The closure `chosen`.
abbrev pub chosen : Option RuleSpec → Option RuleSpec → RuleEffect → Option RuleSpec
chosen rule suggested effect = Option.map (with_effect effect) (or_opt rule suggested)

abbrev note : Note → Outcome → Outcome
note n o = record o { notes = o.notes ++ n ∷ [] }

abbrev answer_word : RuleEffect → RuleSource → Text
answer_word RuleEffect.deny target = codes "deny_always"
answer_word effect RuleSource.workspace = codes "allow_workspace"
answer_word effect target = codes "allow_always"

pub rule_comment : RuleSpec → RuleSource → PermissionRequest → Text → Text
rule_comment rule target req request_id =
    answer_word rule.effect target
    ++ (codes " for " ++ (req.description ++ (codes " (request " ++ (request_id ++ codes ")"))))

-- The layer of `target`, with the way to put it back.
abbrev target_layer : RuleSource → Engine → Option (Layer × (Layer → Engine))
target_layer RuleSource.workspace e = elim e.workspace [
  | none ↦ none
  | some ws ↦ some (ws, λ l. record e { workspace = some l })
]
target_layer target e = some (e.user, λ l. record e { user = l })

module _ (x : External) where
  write_to : RuleSpec → Text → Layer × (Layer → Engine) → Outcome → Engine → Outcome × Engine
  write_to rule comment (layer, put) o e = elim (append_rule x layer.path rule comment e.files) [
    | err failure ↦ (note (rule_not_written failure) o, e)
    | ok (line, files) ↦
        let e' = put (reload x files layer) in
        (
          record o { rule_written = some (record { path = layer.path; line = line; rule = rule }) },
          record e' { files = files },
        )
  ]

  -- Appends the rule to the file of the target and reloads that layer; a failure is a note.
  unfoldable pub write_rule :
      PermissionRequest → RuleSource → Option RuleSpec → Text → Outcome → Engine → Outcome × Engine
  unfolding write_to
  write_rule req target none request_id o e = (o, e)
  write_rule req target (some rule) request_id o e = elim (target_layer target e) [
    | none ↦ (note no_workspace o, e)
    | some found ↦ write_to rule (rule_comment rule target req request_id) found o e
  ]

  unfoldable pub keep_for_session : Option RuleSpec → Outcome → Engine → Outcome × Engine
  keep_for_session none o e = (o, e)
  keep_for_session (some r) o e = elim (session_add x e.session r) [
    | ok (rules, i) ↦ (record o { rule_ref = some (session i) }, record e { session = rules })
    | err failure ↦ (note (session_rule_not_kept failure) o, e)
  ]

  module _ (req : PermissionRequest) where
    by_answer : PermissionAnswer → (RuleEffect → Option RuleSpec) → Text → Engine → Outcome × Engine
    by_answer allow_once pick request_id e = (allowed PermissionSource.user none, e)
    by_answer allow_session pick request_id e =
        keep_for_session (pick RuleEffect.allow) (allowed PermissionSource.user none) e
    by_answer allow_workspace pick request_id e =
        write_rule req RuleSource.workspace (pick RuleEffect.allow) request_id
          (allowed PermissionSource.user none) e
    by_answer allow_always pick request_id e =
        write_rule req RuleSource.user (pick RuleEffect.allow) request_id
          (allowed PermissionSource.user none) e
    by_answer deny_once pick request_id e = (denied PermissionSource.user none by_user, e)
    by_answer deny_always pick request_id e =
        write_rule req RuleSource.user (pick RuleEffect.deny) request_id
          (denied PermissionSource.user none by_user) e

    unfoldable pub answered_by :
        PermissionAnswer → Option RuleSpec → Option RuleSpec → Text → Engine → Outcome × Engine
    unfolding by_answer
    answered_by answer rule suggested request_id e =
        let (o, e') = by_answer answer (chosen rule suggested) request_id e in
        (record o { answer = some answer }, e')

    unfoldable pub by_reply :
        Reply → List RuleSpec → Text → ℕ → Headless → Engine → Outcome × Engine
    by_reply (answered answer rule) suggested request_id timeout h e =
        answered_by answer rule (head suggested) request_id e
    by_reply timed_out suggested request_id timeout h e =
        (denied PermissionSource.timeout none (Reason.timed_out timeout), e)
    by_reply no_client suggested request_id timeout Headless.allow_readonly e =
        if risk_eq req.risk read_only
        then (allowed PermissionSource.headless none, e)
        else (denied PermissionSource.headless none (headless_read_only req.tool req.risk), e)
    by_reply no_client suggested request_id timeout Headless.deny e =
        (denied PermissionSource.headless none headless_denied, e)

    module _ (agent request_id : Text) (mode : PermissionMode) (prompter : Prompter) where
      -- `ask_timeout`
      abbrev ask_timeout : Engine → ℕ
      ask_timeout e = max e.config.ask_timeout_s 1

      abbrev ask_of : Engine → Ask
      ask_of e = record {
        request_id = request_id;
        agent_id = agent;
        request = req;
        suggested = suggest x req;
        timeout = ask_timeout e;
      }

      unfoldable pub ask_user : Evaluation → Engine → Outcome × Engine
      ask_user ev e =
          let (reply, waited, e') = prompter (ask_of e) e in
          let (o, e'') =
            by_reply reply (suggest x req) request_id (ask_timeout e) e.config.headless e' in
          (
            record o {
              request_id = some request_id;
              waited = waited;
              notes = o.notes ++ map not_in_force ev.broken;
            },
            e'',
          )

      unfoldable pub after_rules : Evaluation → Engine → Outcome × Engine
      after_rules ev e = elim (session_match x req e.session) [
        | some i ↦ (allowed PermissionSource.session (some (session i)), e)
        | none ↦
            if is_auto mode && risk_eq req.risk write && not (has_outside req)
            then (allowed PermissionSource.mode (some mode_auto), e)
            else ask_user ev e
      ]

      unfoldable pub by_evaluation : Evaluation → Engine → Outcome × Engine
      by_evaluation ev e = elim ev.effect [
        | RuleEffect.allow ↦ (allowed PermissionSource.rule ev.rule_ref, e)
        | RuleEffect.deny ↦ (denied PermissionSource.rule ev.rule_ref (deny_reason ev), e)
        | RuleEffect.ask ↦ after_rules ev e
      ]

      unfoldable pub decide : Engine → Outcome × Engine
      decide e =
          if is_plan mode && is_mutating req.risk
          then (denied PermissionSource.mode (some mode_plan) (plan_mode req.tool req.risk), e)
          else let (ev, e') = engine_evaluate x req e in by_evaluation ev e'
