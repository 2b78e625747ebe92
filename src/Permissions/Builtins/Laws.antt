-- ===== src/Permissions/Builtins/Laws.antt =====
-- Which requests the built-in rules allow and deny.
use apprentice_harness.Common.{
  ◌≡◌, ◌≢◌, refl, inl, inr, true, false, Option, some, List, [], ◌∷◌, arith, Text, map, any,
  Bool-cases,
}
use apprentice_harness.Permissions.Types.{RuleEffect, PermissionRequest, read_only, has_outside}
use apprentice_harness.Permissions.External.{External}
use apprentice_harness.Permissions.Rule.{CompiledRule, matches}
use apprentice_harness.Permissions.Builtins.{
  read_only_inside, deny_command, catastrophic, builtin_rules, find_match,
}

module _ (x : External) (req : PermissionRequest) where
  -- The first built-in rule matches exactly the read-only calls that name no outside path.
  pub read_only_inside-matches :
      matches x read_only_inside req ≡ true → (req.risk ≡ read_only) × (has_outside req ≡ false)
  unfolding matches
  read_only_inside-matches h = ground arith

  pub matches-read_only_inside :
      req.risk ≡ read_only → has_outside req ≡ false → matches x read_only_inside req ≡ true
  unfolding matches
  matches-read_only_inside h k = ground arith

  deny_command-matches :
      (p : Text × Text) (c : Text)
      → req.command ≡ some c
      → matches x (deny_command p) req ≡ x.regex_is_match p.1 c
  unfolding matches
  deny_command-matches p c has = ground arith

  find_match-deny_command :
      (ps : List (Text × Text)) (r : CompiledRule)
      → find_match x req (map deny_command ps) ≡ some r
      → r.spec.effect ≡ RuleEffect.deny
  unfolding find_match
  find_match-deny_command [] r h = absurd (ground arith)
  find_match-deny_command ((name, regex) ∷ ps) r h =
      elim (Bool-cases (matches x (deny_command (name, regex)) req)) [
        | inl hit ↦
            let found : ◌≡◌ {A = Option CompiledRule} (some (deny_command (name, regex))) (some r) =
              rw hit at h in
            let same : deny_command (name, regex) ≡ r = cc in rw (← same) refl
        | inr miss ↦ find_match-deny_command ps r (rw miss at h)
      ]

  -- The only built-in rule that allows is the first.
  pub builtin_allows :
      (r : CompiledRule)
      → find_match x req builtin_rules ≡ some r
      → r.spec.effect ≡ RuleEffect.allow
      → (req.risk ≡ read_only) × (has_outside req ≡ false)
  unfolding builtin_rules find_match
  builtin_allows r h allowed = elim (Bool-cases (matches x read_only_inside req)) [
    | inl hit ↦ read_only_inside-matches hit
    | inr miss ↦ absurd (cc (allowed, find_match-deny_command catastrophic r (rw miss at h)))
  ]

  pub builtin_read_only :
      req.risk ≡ read_only
      → has_outside req ≡ false
      → find_match x req builtin_rules ≡ some read_only_inside
  unfolding builtin_rules find_match
  builtin_read_only h k = rw (matches-read_only_inside h k)

  -- A pattern of the list that is found in the command makes one of the deny rules match.
  find_match_of_any :
      (ps : List (Text × Text)) (c : Text)
      → req.command ≡ some c
      → any (λ p. x.regex_is_match p.1 c) ps ≡ true
      → (r : CompiledRule) × (find_match x req (map deny_command ps) ≡ some r)
        × (r.spec.effect ≡ RuleEffect.deny)
  unfolding find_match
  find_match_of_any [] c has hit = cc
  find_match_of_any (p ∷ ps) c has hit = elim (Bool-cases (matches x (deny_command p) req)) [
    | inl found ↦ (deny_command p, rw found, refl)
    | inr miss ↦
        let (r, found, denies) =
          find_match_of_any ps c has (ground (arith, deny_command-matches p c has)) in
        (r, rw miss found, denies)
  ]

  -- A catastrophic command is denied by the built-ins, unless the tool is read-only.
  pub builtin_denies :
      (c : Text)
      → req.command ≡ some c
      → any (λ p. x.regex_is_match p.1 c) catastrophic ≡ true
      → req.risk ≢ read_only
      → (r : CompiledRule) × (find_match x req builtin_rules ≡ some r)
        × (r.spec.effect ≡ RuleEffect.deny)
  unfolding builtin_rules find_match
  builtin_denies c has hit risky =
      let (r, found, denies) = find_match_of_any catastrophic c has hit in
      elim (Bool-cases (matches x read_only_inside req)) [
        | inl ro ↦ absurd (risky (read_only_inside-matches ro).0)
        | inr miss ↦ (r, rw miss found, denies)
      ]
