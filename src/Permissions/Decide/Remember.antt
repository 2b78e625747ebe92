-- ===== src/Permissions/Decide/Remember.antt =====
-- About what an answer leaves behind: `Engine::answered` of crates/core/src/permissions/mod.rs.
use apprentice_harness.Common.{
  ℕ, ◌+◌, ◌≡◌, inl, inr, true, false, ◌&&◌, Option, none, some, List, [], ◌∷◌, ◌++◌, Text, length,
  Bool-cases,
}
use apprentice_harness.Common.Result.{ok}
use apprentice_harness.Permissions.Types.{
  RuleEffect, RuleSpec, PermissionRequest, PermissionMode, allow_session, PermissionDecision,
  PermissionSource,
}
use apprentice_harness.Permissions.External.{External}
use apprentice_harness.Permissions.Rule.{CompiledRule, compile, matches}
use apprentice_harness.Permissions.Evaluate.{evaluate}
use apprentice_harness.Permissions.Engine.{
  Engine, Outcome, layers, refresh, engine_evaluate, session_add, session_match, position_from,
  with_effect,
}
use apprentice_harness.Permissions.Decide.{
  Prompter, is_mutating, is_plan, answered_by, keep_for_session, after_rules, by_evaluation, decide,
}

module _ (x : External) where
  position_from-append :
      (req : PermissionRequest) (i : ℕ) (rs : List CompiledRule) (c : CompiledRule)
      → matches x c req ≡ true
      → (j : ℕ) × (position_from x req i (rs ++ c ∷ []) ≡ some j)
  unfolding position_from
  position_from-append req i [] c hit = (i, rw hit)
  position_from-append req i (r ∷ rs) c hit = elim (Bool-cases (matches x r req)) [
    | inl found ↦ (i, rw found)
    | inr miss ↦ let (j, later) = position_from-append req (i + 1) rs c hit in (j, rw miss later)
  ]

  session_add-ok :
      (rules : List CompiledRule) (r : RuleSpec) (c : CompiledRule)
      → compile x (with_effect RuleEffect.allow r) ≡ ok c
      → session_add x rules r ≡ ok (rules ++ c ∷ [], length (rules ++ c ∷ []))
  unfolding session_add
  session_add-ok rules r c h = rw h

  keep_for_session-ok :
      (r : RuleSpec) (o : Outcome) (e : Engine) (rules : List CompiledRule) (i : ℕ)
      → session_add x e.session r ≡ ok (rules, i)
      → (keep_for_session x (some r) o e).1 ≡ record e { session = rules }
  unfolding keep_for_session
  keep_for_session-ok r o e rules i h = rw (h, keep_for_session)

  answered_session :
      (req : PermissionRequest) (r : RuleSpec) (suggested : Option RuleSpec) (id : Text)
      (e : Engine) (c : CompiledRule)
      → compile x (with_effect RuleEffect.allow r) ≡ ok c
      → (answered_by x req allow_session (some r) suggested id e).1
        ≡ record e { session = e.session ++ c ∷ [] }
  unfolding answered_by
  answered_session req r suggested id e c h =
      keep_for_session-ok (with_effect RuleEffect.allow r) _ e _ _
        (session_add-ok e.session (with_effect RuleEffect.allow r) c h)

  session_decides :
      (req : PermissionRequest) (agent id : Text) (mode : PermissionMode) (prompter : Prompter)
      (e : Engine) (j : ℕ)
      → session_match x req e.session ≡ some j
      → (is_plan mode && is_mutating req.risk) ≡ false
      → (evaluate x req (layers x (refresh x e))).effect ≡ RuleEffect.ask
      → ((decide x req agent id mode prompter e).0.decision ≡ PermissionDecision.allow)
        × ((decide x req agent id mode prompter e).0.source ≡ PermissionSource.session)
        × ((decide x req agent id mode prompter e).0.request_id ≡ none)
  unfolding decide engine_evaluate by_evaluation after_rules refresh
  session_decides req agent id mode prompter e j found free asks = (
    rw (free, asks, by_evaluation, found, after_rules),
    rw (free, asks, by_evaluation, found, after_rules),
    rw (free, asks, by_evaluation, found, after_rules),
  )

  -- After the answer `allow_session` with a rule that compiles, a later call that the rule matches and
  -- that the rules would ask about is allowed and nobody is asked, unless it is a write or a command
  -- under plan mode.
  pub allow_session_remembered :
      (req : PermissionRequest) (r : RuleSpec) (suggested : Option RuleSpec) (id : Text)
      (e : Engine) (c : CompiledRule) (later : PermissionRequest) (agent id' : Text)
      (mode : PermissionMode) (prompter : Prompter)
      → compile x (with_effect RuleEffect.allow r) ≡ ok c
      → matches x c later ≡ true
      → (is_plan mode && is_mutating later.risk) ≡ false
      → (evaluate x later (layers x (refresh x e))).effect ≡ RuleEffect.ask
      → let e' = (answered_by x req allow_session (some r) suggested id e).1 in
        ((decide x later agent id' mode prompter e').0.decision ≡ PermissionDecision.allow)
        × ((decide x later agent id' mode prompter e').0.source ≡ PermissionSource.session)
        × ((decide x later agent id' mode prompter e').0.request_id ≡ none)
  unfolding session_match refresh layers
  allow_session_remembered req r suggested id e c later agent id' mode prompter ok_c hit free asks =
      let (j, found) = position_from-append later 1 e.session c hit in
      rw (answered_session req r suggested id e c ok_c) (
        session_decides later agent id' mode prompter (record e { session = e.session ++ c ∷ [] }) j
          found free asks)
