-- ===== src/Permissions/Layer/FirstMatch.antt =====
-- About `Layer::first_match` of crates/core/src/permissions/rules.rs.
use apprentice_harness.Common.{
  ℕ, ◌+◌, ◌≡◌, refl, ◌∙◌, subst, ap, ◌↔◌, inl, inr, true, false, Option, none, some, List, [], ◌∷◌,
  ◌++◌, arith, length, All, Bool-cases,
}
use apprentice_harness.Permissions.Types.{PermissionRequest}
use apprentice_harness.Permissions.External.{External}
use apprentice_harness.Permissions.Rule.{CompiledRule, matches}
use apprentice_harness.Permissions.Layer.{Layer, rules, find_from, first_match}

module _ (x : External) (req : PermissionRequest) where
  abbrev Misses : CompiledRule → Type 0
  Misses q = matches x q req ≡ false

  -- `r` is number `i` of the rules, it matches, and none before it does.
  pub record IsFirst (rs : List CompiledRule) (i : ℕ) (r : CompiledRule) : Type 0 where
    pub before : List CompiledRule
    pub after : List CompiledRule
    pub split : rs ≡ before ++ r ∷ after
    pub index : i ≡ length before + 1
    pub misses : All (λ q. matches x q req ≡ false) before
    pub hit : matches x r req ≡ true

  IsFirst-cons :
      {q r : CompiledRule} {rs : List CompiledRule} {i : ℕ}
      → Misses q
      → IsFirst rs i r
      → IsFirst (q ∷ rs) (i + 1) r
  IsFirst-cons {q} miss f = record {
    before = q ∷ f.before;
    after = f.after;
    split = ap (λ l. q ∷ l) f.split;
    index = omega (arith, f.index);
    misses = (miss, f.misses);
    hit = f.hit;
  }

  find_from-IsFirst :
      (i : ℕ) (rs : List CompiledRule) {j : ℕ} {r : CompiledRule}
      → find_from x req (i + 1) rs ≡ some (j, r)
      → (k : ℕ) × (j ≡ i + k) × IsFirst rs k r
  unfolding find_from
  find_from-IsFirst i [] h = absurd (ground arith)
  find_from-IsFirst i (q ∷ rs) {j} {r} h = elim (Bool-cases (matches x q req)) [
    | inl hit ↦
        let found : ◌≡◌ {A = Option (ℕ × CompiledRule)} (some (i + 1, q)) (some (j, r)) =
          rw hit at h in
        let same : q ≡ r = cc in
        let first : IsFirst (q ∷ rs) 1 q = record {
          before = [];
          after = rs;
          split = refl;
          index = omega arith;
          misses = tt;
          hit = hit;
        } in
        (1, ground arith, subst (IsFirst (q ∷ rs) 1) same first)
    | inr miss ↦
        let (k, e, f) = find_from-IsFirst (i + 1) rs (rw miss at h) in
        (k + 1, omega (arith, e), IsFirst-cons miss f)
  ]

  find_from-none :
      (i : ℕ) (rs : List CompiledRule)
      → find_from x req i rs ≡ none
      → All (λ q. matches x q req ≡ false) rs
  unfolding find_from
  find_from-none i [] h = tt
  find_from-none i (q ∷ rs) h = elim (Bool-cases (matches x q req)) [
    | inl hit ↦ absurd (ground arith)
    | inr miss ↦ (miss, find_from-none (i + 1) rs (rw miss at h))
  ]

  find_from_complete :
      (i : ℕ) (before after : List CompiledRule) {r : CompiledRule}
      → All (λ q. matches x q req ≡ false) before
      → matches x r req ≡ true
      → find_from x req i (before ++ r ∷ after) ≡ some (i + length before, r)
  unfolding find_from
  find_from_complete i [] after misses hit = rw hit (ground arith)
  find_from_complete i (q ∷ qs) after {r} misses hit =
      rw misses.0
        (find_from_complete (i + 1) qs after misses.1 hit ∙ ap (λ n. some (n, r)) (omega arith))

  pub first_match-IsFirst :
      (l : Layer) {i : ℕ} {r : CompiledRule}
      → first_match x req l ≡ some (i, r)
      → IsFirst (rules l) i r
  unfolding first_match
  first_match-IsFirst l {i} {r} h =
      let (k, e, f) = find_from-IsFirst 0 (rules l) {j = i} {r = r} h in
      let same : k ≡ i = omega arith in subst (λ n. IsFirst (rules l) n r) same f

  first_match_complete :
      (l : Layer) {i : ℕ} {r : CompiledRule}
      → IsFirst (rules l) i r
      → first_match x req l ≡ some (i, r)
  unfolding first_match
  first_match_complete l {i} {r} f = rw f.split (
      find_from_complete 1 f.before f.after f.misses f.hit
      ∙ ap (λ n. some (n, r)) (omega (arith, f.index)))

  -- The layer's match is a rule together with its 1-based number exactly when that rule of the file
  -- matches the request and no rule above it does.
  pub first_match_iff :
      (l : Layer) (i : ℕ) (r : CompiledRule)
      → (first_match x req l ≡ some (i, r)) ↔ IsFirst (rules l) i r
  first_match_iff l i r = (first_match-IsFirst l, first_match_complete l)

  pub first_match-none :
      (l : Layer) → first_match x req l ≡ none → All (λ q. matches x q req ≡ false) (rules l)
  unfolding first_match
  first_match-none l h = find_from-none 1 (rules l) h
