-- ===== src/Permissions/Decide/Grounds.antt =====
-- What an allowed call rests on: the safety of `Engine::decide`.
use apprentice_harness.Common.{
  ℕ, ◌≡◌, refl, sym, ◌∙◌, ◌⊎◌, inl, inr, Bool, true, false, not, ◌&&◌, Option, none, some, List,
  ◌∷◌, ◌++◌, arith, Text, All, Bool-cases, Option-cases,
}
use apprentice_harness.Permissions.Types.{
  read_only, write, risk_eq, RuleEffect, RuleSpec, RuleSource, PermissionRequest, has_outside,
  PermissionMode, PermissionAnswer, allow_once, allow_session, allow_workspace, allow_always,
  deny_once, deny_always, PermissionDecision, Headless,
}
use apprentice_harness.Permissions.External.{External}
use apprentice_harness.Permissions.Layer.{Layer}
use apprentice_harness.Permissions.Evaluate.{Evaluation, evaluate}
use apprentice_harness.Permissions.Evaluate.Parts.{Denies}
use apprentice_harness.Permissions.Evaluate.Ranking.{
  IsAllowedByRules, evaluate_allows_iff, evaluate_deny_free, evaluate_deny_wins,
}
use apprentice_harness.Permissions.Engine.{
  Engine, Outcome, layers, refresh, engine_evaluate, session_match,
}
use apprentice_harness.Permissions.Decide.{
  Reply, answered, timed_out, no_client, Prompter, is_mutating, is_plan, is_auto, write_rule,
  keep_for_session, by_answer, answered_by, by_reply, ask_of, ask_user, after_rules, by_evaluation,
  decide,
}

abbrev pub is_allow_answer : PermissionAnswer → Bool
is_allow_answer deny_once = false
is_allow_answer deny_always = false
is_allow_answer _ = true

module _ (x : External) (req : PermissionRequest) where
  -- Writing a rule never changes the decision.
  decision-write_rule :
      (target : RuleSource) (rule : Option RuleSpec) (id : Text) (o : Outcome) (e : Engine)
      → (write_rule x req target rule id o e).0.decision ≡ o.decision
  unfolding write_rule
  decision-write_rule target none id o e = refl
  decision-write_rule target (some r) id o e = ground arith

  decision-keep_for_session :
      (rule : Option RuleSpec) (o : Outcome) (e : Engine)
      → (keep_for_session x rule o e).0.decision ≡ o.decision
  unfolding keep_for_session
  decision-keep_for_session none o e = refl
  decision-keep_for_session (some r) o e = ground arith

  abbrev decision_of : PermissionAnswer → PermissionDecision
  decision_of deny_once = PermissionDecision.deny
  decision_of deny_always = PermissionDecision.deny
  decision_of _ = PermissionDecision.allow

  decision-by_answer :
      (a : PermissionAnswer) (pick : RuleEffect → Option RuleSpec) (id : Text) (e : Engine)
      → (by_answer x req a pick id e).0.decision ≡ decision_of a
  unfolding by_answer
  decision-by_answer allow_once pick id e = refl
  decision-by_answer allow_session pick id e = decision-keep_for_session _ _ e
  decision-by_answer allow_workspace pick id e = decision-write_rule _ _ id _ e
  decision-by_answer allow_always pick id e = decision-write_rule _ _ id _ e
  decision-by_answer deny_once pick id e = refl
  decision-by_answer deny_always pick id e = decision-write_rule _ _ id _ e

  -- What an allow after a prompt rests on.
  pub data ReplyAllows (reply : Reply) (h : Headless) : Type 0 where
    by_user :
        {a : PermissionAnswer} {rule : Option RuleSpec}
        → reply ≡ answered a rule
        → is_allow_answer a ≡ true
        → ReplyAllows reply h
    headless :
        reply ≡ no_client → h ≡ Headless.allow_readonly → req.risk ≡ read_only → ReplyAllows reply h

  allow-is_allow_answer :
      (a : PermissionAnswer) → decision_of a ≡ PermissionDecision.allow → is_allow_answer a ≡ true
  allow-is_allow_answer a h = ground arith

  by_reply-ReplyAllows :
      (reply : Reply) (suggested : List RuleSpec) (id : Text) (timeout : ℕ) (h : Headless)
      (e : Engine)
      → (by_reply x req reply suggested id timeout h e).0.decision ≡ PermissionDecision.allow
      → ReplyAllows reply h
  unfolding by_reply answered_by
  by_reply-ReplyAllows (answered a rule) suggested id timeout h e allow =
      by_user refl (allow-is_allow_answer a (sym (decision-by_answer a _ id e) ∙ allow))
  by_reply-ReplyAllows timed_out suggested id timeout h e allow = cc
  by_reply-ReplyAllows no_client suggested id timeout Headless.allow_readonly e allow =
      headless refl refl (ground arith)
  by_reply-ReplyAllows no_client suggested id timeout Headless.deny e allow = cc

  module _ (agent id : Text) (mode : PermissionMode) (prompter : Prompter) where
    -- What an allowed call rests on, in the engine as its files are re-read.
    pub data Ground (e : Engine) : Type 0 where
      by_rules : IsAllowedByRules x req (layers x e) → Ground e
      by_session : {i : ℕ} → session_match x req e.session ≡ some i → Ground e
      by_auto : is_auto mode ≡ true → req.risk ≡ write → has_outside req ≡ false → Ground e
      by_prompt :
          ReplyAllows (prompter (ask_of x req agent id mode prompter e) e).0 e.config.headless
          → Ground e

    pub record IsPermitted (e : Engine) : Type 0 where
      pub not_planned : (mode ≡ PermissionMode.plan) → is_mutating req.risk ≡ false
      pub no_deny : All (λ l. ¬ Denies x req l) (layers x (refresh x e))
      pub ground_of : Ground (refresh x e)

    ask_user-Ground :
        (ev : Evaluation) (e : Engine)
        → (ask_user x req agent id mode prompter ev e).0.decision ≡ PermissionDecision.allow
        → Ground e
    unfolding ask_user
    ask_user-Ground ev e h = by_prompt (by_reply-ReplyAllows _ _ id _ _ _ h)

    after_rules-Ground :
        (ev : Evaluation) (e : Engine)
        → (after_rules x req agent id mode prompter ev e).0.decision ≡ PermissionDecision.allow
        → Ground e
    unfolding after_rules
    after_rules-Ground ev e h = elim (Option-cases (session_match x req e.session)) [
      | inr (i, found) ↦ by_session found
      | inl fresh ↦
          elim (Bool-cases (is_auto mode && risk_eq req.risk write && not (has_outside req))) [
            | inl auto ↦ by_auto (ground arith) (ground arith) (ground arith)
            | inr other ↦ ask_user-Ground ev e (rw (fresh, other, after_rules) at h)
          ]
    ]

    effect_cases :
        (ev : Evaluation)
        → (ev.effect ≡ RuleEffect.allow)
          ⊎ ((ev.effect ≡ RuleEffect.deny) ⊎ (ev.effect ≡ RuleEffect.ask))
    effect_cases ev = ground arith

    by_evaluation-Ground :
        (ls : List Layer) (e : Engine)
        → layers x e ≡ ls
        → (by_evaluation x req agent id mode prompter (evaluate x req ls) e).0.decision
          ≡ PermissionDecision.allow
        → All (λ l. ¬ Denies x req l) ls × Ground e
    unfolding by_evaluation
    by_evaluation-Ground ls e same h = elim (effect_cases (evaluate x req ls)) [
      | inl allow ↦
          let rules = (evaluate_allows_iff x req ls).0 allow in
          (rules.no_deny, by_rules (rw same rules))
      | inr (inl deny) ↦ cc (rw (deny, by_evaluation) at h)
      | inr (inr ask) ↦ (
        evaluate_deny_free x req ls (λ deny. cc (deny, ask)),
        after_rules-Ground _ e (rw (ask, by_evaluation) at h),
      )
    ]

    -- An allowed call is not a write or a command under plan mode, no layer's first match denies it,
    -- and it rests on the rules, on an answer kept for the session, on auto mode for a write inside
    -- the workspace, on the user's allowing answer to the prompt of this call, or, with no client
    -- and `headless = "allow_readonly"`, on being read-only.
    pub decide_allows :
        (e : Engine)
        → (decide x req agent id mode prompter e).0.decision ≡ PermissionDecision.allow
        → IsPermitted e
    unfolding decide engine_evaluate
    decide_allows e h = elim (Bool-cases (is_plan mode && is_mutating req.risk)) [
      | inl plan ↦ cc (rw plan at h)
      | inr free ↦
          let (no_deny, grounds) =
            by_evaluation-Ground (layers x (refresh x e)) (refresh x e) refl (rw free at h) in
          record {
            not_planned = λ p. ground (arith, p, free);
            no_deny = no_deny;
            ground_of = grounds;
          }
    ]

    -- A rule that denies cannot be overridden: whatever was kept for the session, in every mode and
    -- with every prompter, the call is denied and nobody is asked.
    pub decide_denied :
        (e : Engine) (above below : List Layer) (l : Layer)
        → layers x (refresh x e) ≡ above ++ l ∷ below
        → Denies x req l
        → ((decide x req agent id mode prompter e).0.decision ≡ PermissionDecision.deny)
          × ((decide x req agent id mode prompter e).0.request_id ≡ none)
    unfolding decide engine_evaluate by_evaluation
    decide_denied e above below l split d =
        elim (Bool-cases (is_plan mode && is_mutating req.risk)) [
          | inl plan ↦ (rw plan, rw plan)
          | inr free ↦
              let denies = evaluate_deny_wins x req above below l d in
              (rw (free, split, denies, by_evaluation), rw (free, split, denies, by_evaluation))
        ]
