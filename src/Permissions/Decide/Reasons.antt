-- ===== src/Permissions/Decide/Reasons.antt =====
-- About the reasons that `Engine::decide` of crates/core/src/permissions/mod.rs gives.
use apprentice_harness.Common.{
  ℕ, ◌≡◌, refl, ◌⊎◌, inl, inr, not, ◌&&◌, Option, none, some, List, arith, Text, Bool-cases,
  Option-cases,
}
use apprentice_harness.Permissions.Types.{
  risk_eq, read_only, write, RuleEffect, RuleSpec, RuleSource, PermissionRequest, has_outside,
  PermissionMode, PermissionAnswer, allow_once, allow_session, allow_workspace, allow_always,
  deny_once, deny_always, PermissionDecision, Headless,
}
use apprentice_harness.Permissions.External.{External}
use apprentice_harness.Permissions.Evaluate.{Evaluation}
use apprentice_harness.Permissions.Engine.{Engine, Outcome, Reason, engine_evaluate, session_match}
use apprentice_harness.Permissions.Decide.{
  Reply, answered, timed_out, no_client, Prompter, is_mutating, is_plan, is_auto, write_rule,
  keep_for_session, by_answer, answered_by, by_reply, ask_user, after_rules, by_evaluation, decide,
}

-- A reason stands beside a denial, and none beside an allow.
abbrev pub IsExplained : Outcome → Type 0
IsExplained o =
    ((o.decision ≡ PermissionDecision.allow) × (o.reason ≡ none))
    ⊎ ((o.decision ≡ PermissionDecision.deny) × ((r : Reason) × (o.reason ≡ some r)))

module _ (x : External) (req : PermissionRequest) where
  write_rule_keeps :
      (target : RuleSource) (rule : Option RuleSpec) (id : Text) (o : Outcome) (e : Engine)
      → ((write_rule x req target rule id o e).0.decision ≡ o.decision)
        × ((write_rule x req target rule id o e).0.reason ≡ o.reason)
  unfolding write_rule
  write_rule_keeps target none id o e = (refl, refl)
  write_rule_keeps target (some r) id o e = (ground arith, ground arith)

  write_rule-IsExplained :
      (target : RuleSource) (rule : Option RuleSpec) (id : Text) (o : Outcome) (e : Engine)
      → IsExplained o
      → IsExplained (write_rule x req target rule id o e).0
  write_rule-IsExplained target rule id o e h =
      let (d, r) = write_rule_keeps target rule id o e in rw (d, r) h

  keep_for_session_keeps :
      (rule : Option RuleSpec) (o : Outcome) (e : Engine)
      → ((keep_for_session x rule o e).0.decision ≡ o.decision)
        × ((keep_for_session x rule o e).0.reason ≡ o.reason)
  unfolding keep_for_session
  keep_for_session_keeps none o e = (refl, refl)
  keep_for_session_keeps (some r) o e = (ground arith, ground arith)

  keep_for_session-IsExplained :
      (rule : Option RuleSpec) (o : Outcome) (e : Engine)
      → IsExplained o
      → IsExplained (keep_for_session x rule o e).0
  keep_for_session-IsExplained rule o e h =
      let (d, r) = keep_for_session_keeps rule o e in rw (d, r) h

  by_answer-IsExplained :
      (a : PermissionAnswer) (pick : RuleEffect → Option RuleSpec) (id : Text) (e : Engine)
      → IsExplained (by_answer x req a pick id e).0
  unfolding by_answer
  by_answer-IsExplained allow_once pick id e = inl (refl, refl)
  by_answer-IsExplained allow_session pick id e =
      keep_for_session-IsExplained _ _ e (inl (refl, refl))
  by_answer-IsExplained allow_workspace pick id e =
      write_rule-IsExplained _ _ id _ e (inl (refl, refl))
  by_answer-IsExplained allow_always pick id e =
      write_rule-IsExplained _ _ id _ e (inl (refl, refl))
  by_answer-IsExplained deny_once pick id e = inr (refl, (_, refl))
  by_answer-IsExplained deny_always pick id e =
      write_rule-IsExplained _ _ id _ e (inr (refl, (_, refl)))

  by_reply-IsExplained :
      (reply : Reply) (suggested : List RuleSpec) (id : Text) (timeout : ℕ) (h : Headless)
      (e : Engine)
      → IsExplained (by_reply x req reply suggested id timeout h e).0
  unfolding by_reply answered_by
  by_reply-IsExplained (answered a rule) suggested id timeout h e = by_answer-IsExplained a _ id e
  by_reply-IsExplained timed_out suggested id timeout h e = inr (refl, (_, refl))
  by_reply-IsExplained no_client suggested id timeout Headless.allow_readonly e =
      elim (Bool-cases (risk_eq req.risk read_only)) [
        | inl reads ↦ rw reads (inl (refl, refl))
        | inr other ↦ rw other (inr (refl, (_, refl)))
      ]
  by_reply-IsExplained no_client suggested id timeout Headless.deny e = inr (refl, (_, refl))

  module _ (agent id : Text) (mode : PermissionMode) (prompter : Prompter) where
    after_rules-IsExplained :
        (ev : Evaluation) (e : Engine)
        → IsExplained (after_rules x req agent id mode prompter ev e).0
    unfolding after_rules ask_user
    after_rules-IsExplained ev e = elim (Option-cases (session_match x req e.session)) [
      | inr (i, found) ↦ rw (found, after_rules) (inl (refl, refl))
      | inl fresh ↦
          elim (Bool-cases (is_auto mode && risk_eq req.risk write && not (has_outside req))) [
            | inl auto ↦ rw (fresh, auto, after_rules) (inl (refl, refl))
            | inr other ↦ rw (fresh, other, after_rules) (by_reply-IsExplained _ _ id _ _ _)
          ]
    ]

    by_evaluation-IsExplained :
        (effect : RuleEffect) (ev : Evaluation) (e : Engine)
        → ev.effect ≡ effect
        → IsExplained (by_evaluation x req agent id mode prompter ev e).0
    unfolding by_evaluation
    by_evaluation-IsExplained RuleEffect.allow ev e h = rw (h, by_evaluation) (inl (refl, refl))
    by_evaluation-IsExplained RuleEffect.deny ev e h = rw (h, by_evaluation) (inr (refl, (_, refl)))
    by_evaluation-IsExplained RuleEffect.ask ev e h =
        rw (h, by_evaluation) (after_rules-IsExplained ev e)

    -- On every path through the engine a denial carries a reason for the mentor, and an allow none.
    pub decide-IsExplained : (e : Engine) → IsExplained (decide x req agent id mode prompter e).0
    unfolding decide engine_evaluate
    decide-IsExplained e = elim (Bool-cases (is_plan mode && is_mutating req.risk)) [
      | inl plan ↦ rw plan (inr (refl, (_, refl)))
      | inr free ↦ rw free (by_evaluation-IsExplained _ _ _ refl)
    ]
