-- ===== src/Permissions/Evaluate/Parts.antt =====
-- What each rank of `evaluate` finds, and when it finds nothing.
use apprentice_harness.Common.{
  ℕ, ◌≡◌, ◌≢◌, refl, ap, inl, inr, true, Option, none, some, List, [], ◌∷◌, ◌++◌, arith, All,
  Bool-cases, Option-cases, is_empty,
}
use apprentice_harness.Permissions.Types.{RuleEffect, is_deny, PermissionRequest}
use apprentice_harness.Permissions.External.{External}
use apprentice_harness.Permissions.Rule.{CompiledRule}
use apprentice_harness.Permissions.Layer.{Layer, first_match, layer_error, layer_default}
use apprentice_harness.Permissions.Evaluate.{
  Evaluation, decided, broken_files, from_default, from_deny, from_match,
}

is_deny-true : (e : RuleEffect) → is_deny e ≡ true → e ≡ RuleEffect.deny
is_deny-true e h = ground arith

pub broken_files-empty :
    (ls : List Layer) → is_empty (broken_files ls) ≡ true → All (λ l. layer_error l ≡ none) ls
unfolding broken_files
broken_files-empty [] h = tt
broken_files-empty (l ∷ ls) h = elim (Option-cases (layer_error l)) [
  | inl fine ↦ (fine, broken_files-empty ls (rw (fine, broken_files) at h))
  | inr (e, bad) ↦ cc (rw (bad, broken_files) at h)
]

pub broken_files-nil :
    (ls : List Layer) → All (λ l. layer_error l ≡ none) ls → is_empty (broken_files ls) ≡ true
unfolding broken_files
broken_files-nil [] h = refl
broken_files-nil (l ∷ ls) h = rw (h.0, broken_files) (broken_files-nil ls h.1)

pub from_default-ne-allow :
    (ls : List Layer) {ev : Evaluation} → from_default ls ≡ some ev → ev.effect ≢ RuleEffect.allow
unfolding from_default
from_default-ne-allow [] h = cc
from_default-ne-allow (l ∷ ls) {ev} h = elim (Option-cases (layer_default l)) [
  | inl unset ↦ from_default-ne-allow ls (rw (unset, from_default) at h)
  | inr (d, is_set) ↦ ground arith
]

module _ (x : External) (req : PermissionRequest) where
  -- The first match of the layer is a deny.
  pub record Denies (l : Layer) : Type 0 where
    pub index : ℕ
    pub rule : CompiledRule
    pub first : first_match x req l ≡ some (index, rule)
    pub denied : rule.spec.effect ≡ RuleEffect.deny

  -- `ev` comes from the first match of a layer above which none has a match.
  pub record IsDecided (ls : List Layer) (ev : Evaluation) : Type 0 where
    pub above : List Layer
    pub layer : Layer
    pub below : List Layer
    pub split : ls ≡ above ++ layer ∷ below
    pub silent : All (λ l. first_match x req l ≡ none) above
    pub index : ℕ
    pub rule : CompiledRule
    pub first : first_match x req layer ≡ some (index, rule)
    pub evaluation : ev ≡ decided layer index rule

  pub from_deny-deny :
      (ls : List Layer) {ev : Evaluation}
      → from_deny x req ls ≡ some ev
      → ev.effect ≡ RuleEffect.deny
  unfolding from_deny
  from_deny-deny [] h = cc
  from_deny-deny (l ∷ ls) {ev} h = elim (Option-cases (first_match x req l)) [
    | inl silent ↦ from_deny-deny ls (rw (silent, from_deny) at h)
    | inr ((i, r), found) ↦ elim (Bool-cases (is_deny r.spec.effect)) [
      | inl bad ↦
          let same : ◌≡◌ {A = Option Evaluation} (some (decided l i r)) (some ev) =
            rw (found, from_deny, bad) at h in
          let e : decided l i r ≡ ev = cc in rw (← e) (is_deny-true _ bad)
      | inr fine ↦ from_deny-deny ls (rw (found, from_deny, fine) at h)
    ]
  ]

  pub from_deny-none : (ls : List Layer) → from_deny x req ls ≡ none → All (λ l. ¬ Denies l) ls
  unfolding from_deny
  from_deny-none [] h = tt
  from_deny-none (l ∷ ls) h = elim (Option-cases (first_match x req l)) [
    | inl silent ↦ (λ d. cc (d.first, silent), from_deny-none ls (rw (silent, from_deny) at h))
    | inr ((i, r), found) ↦ elim (Bool-cases (is_deny r.spec.effect)) [
      | inl bad ↦ cc (rw (found, from_deny, bad) at h)
      | inr fine ↦ (
        λ d. ground (arith, d.first, d.denied),
        from_deny-none ls (rw (found, from_deny, fine) at h),
      )
    ]
  ]

  pub from_deny-nil : (ls : List Layer) → All (λ l. ¬ Denies l) ls → from_deny x req ls ≡ none
  unfolding from_deny
  from_deny-nil [] h = refl
  from_deny-nil (l ∷ ls) h = elim (Option-cases (first_match x req l)) [
    | inl silent ↦ rw (silent, from_deny) (from_deny-nil ls h.1)
    | inr ((i, r), found) ↦ elim (Bool-cases (is_deny r.spec.effect)) [
      | inl bad ↦
          absurd (h.0 (record { index = i; rule = r; first = found; denied = is_deny-true _ bad }))
      | inr fine ↦ rw (found, from_deny, fine) (from_deny-nil ls h.1)
    ]
  ]

  IsDecided-cons :
      {l : Layer} {ls : List Layer} {ev : Evaluation}
      → first_match x req l ≡ none
      → IsDecided ls ev
      → IsDecided (l ∷ ls) ev
  IsDecided-cons {l} silent d = record {
    above = l ∷ d.above;
    layer = d.layer;
    below = d.below;
    split = ap (λ k. l ∷ k) d.split;
    silent = (silent, d.silent);
    index = d.index;
    rule = d.rule;
    first = d.first;
    evaluation = d.evaluation;
  }

  pub from_match-IsDecided :
      (ls : List Layer) {ev : Evaluation} → from_match x req ls ≡ some ev → IsDecided ls ev
  unfolding from_match
  from_match-IsDecided [] h = cc
  from_match-IsDecided (l ∷ ls) {ev} h = elim (Option-cases (first_match x req l)) [
    | inl silent ↦ IsDecided-cons silent (from_match-IsDecided ls (rw (silent, from_match) at h))
    | inr ((i, r), found) ↦
        let same : ◌≡◌ {A = Option Evaluation} (some (decided l i r)) (some ev) =
          rw (found, from_match) at h in
        record {
          above = [];
          layer = l;
          below = ls;
          split = refl;
          silent = tt;
          index = i;
          rule = r;
          first = found;
          evaluation = cc;
        }
  ]

  pub from_match-none :
      (ls : List Layer) → from_match x req ls ≡ none → All (λ l. first_match x req l ≡ none) ls
  unfolding from_match
  from_match-none [] h = tt
  from_match-none (l ∷ ls) h = elim (Option-cases (first_match x req l)) [
    | inl silent ↦ (silent, from_match-none ls (rw (silent, from_match) at h))
    | inr ((i, r), found) ↦ cc (rw (found, from_match) at h)
  ]

  pub from_match-nil :
      (ls : List Layer) → All (λ l. first_match x req l ≡ none) ls → from_match x req ls ≡ none
  unfolding from_match
  from_match-nil [] h = refl
  from_match-nil (l ∷ ls) h = rw (h.0, from_match) (from_match-nil ls h.1)

  pub from_match-append :
      (above below : List Layer) (l : Layer) {i : ℕ} {r : CompiledRule}
      → All (λ k. first_match x req k ≡ none) above
      → first_match x req l ≡ some (i, r)
      → from_match x req (above ++ l ∷ below) ≡ some (decided l i r)
  unfolding from_match
  from_match-append [] below l silent first = rw (first, from_match)
  from_match-append (k ∷ above) below l silent first =
      rw (silent.0, from_match) (from_match-append above below l silent.1 first)
