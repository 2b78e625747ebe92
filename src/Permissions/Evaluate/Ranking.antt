-- ===== src/Permissions/Evaluate/Ranking.antt =====
-- How the ranks of `evaluate` bear on one another: what an allow rests on, and what a deny rests on.
use apprentice_harness.Common.{
  ◌≡◌, ◌≢◌, refl, ◌↔◌, inl, inr, true, false, none, some, List, [], ◌∷◌, ◌++◌, All, any, Text,
  Bool-cases, Option-cases, is_empty,
}
use apprentice_harness.Permissions.Types.{RuleEffect, PermissionRequest, read_only, has_outside}
use apprentice_harness.Permissions.External.{External}
use apprentice_harness.Permissions.Layer.{Layer, first_match, layer_error}
use apprentice_harness.Permissions.Builtins.{builtin_rules, find_match, catastrophic}
use apprentice_harness.Permissions.Builtins.Laws.{builtin_allows, builtin_read_only, builtin_denies}
use apprentice_harness.Permissions.Evaluate.{
  Evaluation, broken_files, from_default, from_deny, from_match, from_builtin, evaluate, or_else,
  asked,
}
use apprentice_harness.Permissions.Evaluate.Parts.{
  Denies, IsDecided, from_deny-deny, from_deny-none, from_deny-nil, from_match-IsDecided,
  from_match-none, from_match-nil, from_match-append, broken_files-empty, broken_files-nil,
  from_default-ne-allow,
}

All-middle :
    (P : Layer → Type 0) (above : List Layer) {l : Layer} (below : List Layer)
    → All P (above ++ l ∷ below)
    → P l
All-middle P [] below h = h.0
All-middle P (k ∷ above) below h = All-middle P above below h.1

module _ (x : External) (req : PermissionRequest) where
  -- What makes the answer an allow: the highest layer with a match says so, or no layer has one and
  -- the call only reads inside the workspace.
  pub data AllowGround (ls : List Layer) : Type 0 where
    by_rule :
        {ev : Evaluation} → IsDecided x req ls ev → ev.effect ≡ RuleEffect.allow → AllowGround ls
    reads_inside :
        All (λ l. first_match x req l ≡ none) ls
        → req.risk ≡ read_only
        → has_outside req ≡ false
        → AllowGround ls

  pub record IsAllowedByRules (ls : List Layer) : Type 0 where
    pub no_deny : All (λ l. ¬ Denies x req l) ls
    pub in_force : All (λ l. layer_error l ≡ none) ls
    pub allow_ground : AllowGround ls

  no_deny_of_silent :
      (ls : List Layer) → All (λ l. first_match x req l ≡ none) ls → All (λ l. ¬ Denies x req l) ls
  no_deny_of_silent [] h = tt
  no_deny_of_silent (l ∷ ls) h = (λ d. cc (d.first, h.0), no_deny_of_silent ls h.1)

  -- With no deny and every file in force, the ranks from the first match on decide.
  pub evaluate_in_force :
      (ls : List Layer)
      → All (λ l. ¬ Denies x req l) ls
      → All (λ l. layer_error l ≡ none) ls
      → evaluate x req ls
        ≡ or_else
            (from_match x req ls)
            (or_else (from_builtin x req) (or_else (from_default ls) (asked [])))
  unfolding evaluate
  evaluate_in_force ls no_deny in_force =
      rw (from_deny-nil x req ls no_deny, broken_files-nil ls in_force)

  below_match :
      (ls : List Layer)
      → All (λ l. first_match x req l ≡ none) ls
      → (or_else (from_builtin x req) (or_else (from_default ls) (asked []))).effect
        ≡ RuleEffect.allow
      → AllowGround ls
  unfolding from_builtin
  below_match ls silent h = elim (Option-cases (find_match x req builtin_rules)) [
    | inl no_builtin ↦ elim (Option-cases (from_default ls)) [
      | inl unset ↦ cc (rw (no_builtin, unset, from_builtin) at h)
      | inr (ev, is_set) ↦
          absurd (from_default-ne-allow ls is_set (rw (no_builtin, is_set, from_builtin) at h))
    ]
    | inr (r, found) ↦
        let (ro, inside) = builtin_allows x req r found (rw (found, from_builtin) at h) in
        reads_inside silent ro inside
  ]

  allow_sound :
      (ls : List Layer) → (evaluate x req ls).effect ≡ RuleEffect.allow → IsAllowedByRules ls
  unfolding evaluate
  allow_sound ls h = elim (Option-cases (from_deny x req ls)) [
    | inr (ev, found) ↦ cc (from_deny-deny x req ls found, rw found at h)
    | inl no_deny ↦ elim (Bool-cases (is_empty (broken_files ls))) [
      | inr bad ↦ cc (rw (no_deny, bad) at h)
      | inl fine ↦ record {
        no_deny = from_deny-none x req ls no_deny;
        in_force = broken_files-empty ls fine;
        allow_ground = elim (Option-cases (from_match x req ls)) [
          | inr (ev, found) ↦
              by_rule (from_match-IsDecided x req ls found) (rw (no_deny, fine, found) at h)
          | inl silent ↦
              below_match ls (from_match-none x req ls silent) (rw (no_deny, fine, silent) at h)
        ];
      }
    ]
  ]

  from_match-eq :
      (ls : List Layer) {ev : Evaluation} → IsDecided x req ls ev → from_match x req ls ≡ some ev
  from_match-eq ls d =
      rw (d.split, d.evaluation) (from_match-append x req d.above d.below d.layer d.silent d.first)

  allow_complete :
      (ls : List Layer) → IsAllowedByRules ls → (evaluate x req ls).effect ≡ RuleEffect.allow
  unfolding from_builtin
  allow_complete ls h = rw (evaluate_in_force ls h.no_deny h.in_force) (go h.allow_ground)
    where
      go :
          AllowGround ls
          → (or_else
              (from_match x req ls)
              (or_else (from_builtin x req) (or_else (from_default ls) (asked [])))).effect
            ≡ RuleEffect.allow
      go (by_rule d allowed) = rw (from_match-eq ls d) allowed
      go (reads_inside silent ro inside) =
          rw (from_match-nil x req ls silent, builtin_read_only x req ro inside, from_builtin) refl

  -- The rules allow a call exactly when no layer's first match is a deny, every rules file is in
  -- force, and either the highest layer with a match allows it, or no layer has a match, the tool is
  -- read-only and no path of the call is outside the workspace.
  pub evaluate_allows_iff :
      (ls : List Layer) → ((evaluate x req ls).effect ≡ RuleEffect.allow) ↔ IsAllowedByRules ls
  evaluate_allows_iff ls = (allow_sound ls, allow_complete ls)

  -- A deny of any layer is the answer, whatever the other layers say and whichever files are broken.
  pub evaluate_deny_wins :
      (above below : List Layer) (l : Layer)
      → Denies x req l
      → (evaluate x req (above ++ l ∷ below)).effect ≡ RuleEffect.deny
  unfolding evaluate
  evaluate_deny_wins above below l d = elim (Option-cases (from_deny x req (above ++ l ∷ below))) [
    | inl no_deny ↦
        absurd (All-middle (λ k. ¬ Denies x req k) above below (from_deny-none x req _ no_deny) d)
    | inr (ev, found) ↦ rw found (from_deny-deny x req _ found)
  ]

  -- A command in which a catastrophic pattern is found is denied, unless a rules file matches the
  -- call or is broken, or the tool is read-only.
  pub catastrophic_denied :
      (ls : List Layer) (c : Text)
      → req.command ≡ some c
      → any (λ p. x.regex_is_match p.1 c) catastrophic ≡ true
      → req.risk ≢ read_only
      → All (λ l. first_match x req l ≡ none) ls
      → All (λ l. layer_error l ≡ none) ls
      → (evaluate x req ls).effect ≡ RuleEffect.deny
  unfolding from_builtin
  catastrophic_denied ls c has hit risky silent in_force =
      let (r, found, denied) = builtin_denies x req c has hit risky in
      rw
        (
          evaluate_in_force ls (no_deny_of_silent ls silent) in_force,
          from_match-nil x req ls silent,
        )
        (rw (found, from_builtin) denied)

  -- An answer other than a deny means that no layer denies.
  pub evaluate_deny_free :
      (ls : List Layer)
      → (evaluate x req ls).effect ≢ RuleEffect.deny
      → All (λ l. ¬ Denies x req l) ls
  unfolding evaluate
  evaluate_deny_free ls h = elim (Option-cases (from_deny x req ls)) [
    | inl no_deny ↦ from_deny-none x req ls no_deny
    | inr (ev, found) ↦ absurd (h (rw found (from_deny-deny x req ls found)))
  ]
