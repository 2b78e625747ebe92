-- ===== src/Permissions/Broker/Table.antt =====
-- Lookups and removals in the table of pending prompts.
use apprentice_harness.Common.{
  ℕ, ◌≡◌, ◌≢◌, refl, sym, ◌∙◌, ap, subst, true, false, none, some, List, [], ◌∷◌, Text, text_eq,
  text_eq_sound, ◌==◌, Bool-cases, inl, inr, ◌⊎◌, All,
}
use apprentice_harness.Permissions.Broker.{
  Answer, Pending, PermissionBroker, find_pending, remove_pending, respond,
}

true-false : true ≢ false
true-false h = cc

-- An entry that is not this channel's.
abbrev pub NotOn : ℕ → Text × Pending → Type 0
NotOn c (k, p) = (p.channel == c) ≡ false

-- An entry of another request is not this channel's.
abbrev pub OnlyFor : ℕ → Text → Text × Pending → Type 0
OnlyFor c id (k, p) = (text_eq k id ≡ true) ⊎ ((p.channel == c) ≡ false)

pub find-remove_other :
    (id k : Text) (table : List (Text × Pending))
    → text_eq k id ≡ false
    → find_pending id (remove_pending k table) ≡ find_pending id table
find-remove_other id k [] h = refl
find-remove_other id k ((j, p) ∷ table) h = elim (Bool-cases (text_eq j k)) [
  | inl same ↦
      rw
        (
          same,
          find-remove_other id k table h,
          (ap (λ t. text_eq t id) (text_eq_sound j k same) ∙ h),
        )
        refl
  | inr other ↦ rw (other, find-remove_other id k table h) refl
]

pub find-remove_same :
    (id : Text) (table : List (Text × Pending)) → find_pending id (remove_pending id table) ≡ none
find-remove_same id [] = refl
find-remove_same id ((j, p) ∷ table) = elim (Bool-cases (text_eq j id)) [
  | inl same ↦ rw (same, find-remove_same id table) refl
  | inr other ↦ rw (other, other, find-remove_same id table) refl
]

pub All-remove {ℓ} :
    (P : Text × Pending → Type ℓ) (k : Text) (table : List (Text × Pending))
    → All P table
    → All P (remove_pending k table)
All-remove P k [] h = tt
All-remove P k ((j, p) ∷ table) h = elim (Bool-cases (text_eq j k)) [
  | inl same ↦ rw same (All-remove P k table h.1)
  | inr other ↦ rw other (h.0, All-remove P k table h.1)
]

-- Without the request's own entry, none is left on its channel.
pub OnlyFor-remove :
    (c : ℕ) (id : Text) (table : List (Text × Pending))
    → All (OnlyFor c id) table
    → All (NotOn c) (remove_pending id table)
OnlyFor-remove c id [] h = tt
OnlyFor-remove c id ((j, p) ∷ table) (inl same, h) = rw same (OnlyFor-remove c id table h)
OnlyFor-remove c id ((j, p) ∷ table) (inr off, h) = elim (Bool-cases (text_eq j id)) [
  | inl same ↦ rw same (OnlyFor-remove c id table h)
  | inr other ↦ rw other (off, OnlyFor-remove c id table h)
]

entry-eq : (p q : Pending) → some p ≡ some q → p ≡ q
entry-eq p q h = cc

off_of :
    (c : ℕ) (id k j : Text) (p : Pending)
    → text_eq j k ≡ true
    → text_eq k id ≡ false
    → OnlyFor c id (j, p)
    → (p.channel == c) ≡ false
off_of c id k j p same n (inl own) =
    absurd (true-false (sym (ap (λ t. text_eq t id) (sym (text_eq_sound j k same)) ∙ own) ∙ n))
off_of c id k j p same n (inr off) = off

pub find-NotOn :
    (c : ℕ) (k : Text) (table : List (Text × Pending)) (q : Pending)
    → All (NotOn c) table
    → find_pending k table ≡ some q
    → (q.channel == c) ≡ false
find-NotOn c k [] q h e = cc
find-NotOn c k ((j, p) ∷ table) q h e = elim (Bool-cases (text_eq j k)) [
  | inl same ↦ subst (λ x. (x.channel == c) ≡ false) (entry-eq p q (rw same at e)) h.0
  | inr other ↦ find-NotOn c k table q h.1 (rw other at e)
]

pub find-OnlyFor :
    (c : ℕ) (id k : Text) (table : List (Text × Pending)) (q : Pending)
    → text_eq k id ≡ false
    → All (OnlyFor c id) table
    → find_pending k table ≡ some q
    → (q.channel == c) ≡ false
find-OnlyFor c id k [] q n h e = cc
find-OnlyFor c id k ((j, p) ∷ table) q n h e = elim (Bool-cases (text_eq j k)) [
  | inl same ↦
      subst (λ x. (x.channel == c) ≡ false) (entry-eq p q (rw same at e))
        (off_of c id k j p same n h.0)
  | inr other ↦ find-OnlyFor c id k table q n h.1 (rw other at e)
]

pub respond-none :
    (k : Text) (a : Answer) (b : PermissionBroker)
    → find_pending k b.pending ≡ none
    → (respond k a b).1 ≡ b
unfolding respond
respond-none k a b h = rw (respond, h) refl

pub respond-some :
    (k : Text) (a : Answer) (b : PermissionBroker) (q : Pending)
    → find_pending k b.pending ≡ some q
    → (respond k a b).1
      ≡ record b { pending = remove_pending k b.pending; sent = (q.channel, a) ∷ b.sent }
unfolding respond
respond-some k a b q h = rw (respond, h) refl
