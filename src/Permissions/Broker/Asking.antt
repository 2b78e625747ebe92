-- ===== src/Permissions/Broker/Asking.antt =====
-- `AgentPrompter::ask` on any broker that its operations build.
use apprentice_harness.Common.{
  ℕ, suc, ◌<◌, ◌≡◌, refl, ap, subst, arith, Bool, true, false, none, some, List, [], ◌∷◌, Text,
  text_eq, text_eq_refl, ◌==◌, Bool-cases, Option-cases, inl, inr, if◌then◌else◌, All,
}
use apprentice_harness.Permissions.Broker.{
  Answer, Pending, PermissionBroker, new_broker, find_pending, received, register, forget, Op,
  registers, forgets, responds, apply, apply_all, reply_of, no_client, ask,
}
use apprentice_harness.Permissions.Broker.Table.{
  OnlyFor, find-remove_same, All-remove, respond-none, respond-some,
}
use apprentice_harness.Permissions.Broker.FirstAnswer.{
  first_answer, IsWaiting, IsWaiting-first_answer,
}

-- Every channel in use was opened.
IsFresh : PermissionBroker → Type 0
IsFresh b = All (λ e. e.1.channel < b.opened) b.pending × All (λ s. s.0 < b.opened) b.sent

All-suc_entry :
    (n : ℕ) (table : List (Text × Pending))
    → All (λ e. e.1.channel < n) table
    → All (λ e. e.1.channel < suc n) table
All-suc_entry n [] h = tt
All-suc_entry n (e ∷ table) (o, h) = (omega arith, All-suc_entry n table h)

All-suc_sent :
    (n : ℕ) (sent : List (ℕ × Answer)) → All (λ s. s.0 < n) sent → All (λ s. s.0 < suc n) sent
All-suc_sent n [] h = tt
All-suc_sent n (e ∷ sent) (o, h) = (omega arith, All-suc_sent n sent h)

find-All {ℓ} :
    (P : Text × Pending → Type ℓ) (k : Text) (table : List (Text × Pending)) (q : Pending)
    → All P table
    → find_pending k table ≡ some q
    → (j : Text) × P (j, q)
find-All P k [] q h e = cc
find-All P k ((j, p) ∷ table) q h e = elim (Bool-cases (text_eq j k)) [
  | inl same ↦ (j, subst (λ x. P (j, x)) (some_eq p q (rw same at e)) h.0)
  | inr other ↦ find-All P k table q h.1 (rw other at e)
]
  where
    some_eq : (p q : Pending) → some p ≡ some q → p ≡ q
    some_eq p q h = cc

apply-IsFresh : (op : Op) (b : PermissionBroker) → IsFresh b → IsFresh (apply op b)
unfolding IsFresh apply register forget
apply-IsFresh (registers k agent) b (h, s) = (
  (omega arith, All-suc_entry b.opened _ (All-remove _ k b.pending h)),
  All-suc_sent b.opened b.sent s,
)
apply-IsFresh (forgets k) b (h, s) = (All-remove _ k b.pending h, s)
apply-IsFresh (responds k a) b (h, s) = elim (Option-cases (find_pending k b.pending)) [
  | inl missing ↦ rw (respond-none k a b missing) (h, s)
  | inr (q, there) ↦ rw (respond-some k a b q there) (
    All-remove _ k b.pending h,
    ((find-All (λ e. e.1.channel < b.opened) k b.pending q h there).1, s),
  )
]

apply_all-IsFresh : (ops : List Op) (b : PermissionBroker) → IsFresh b → IsFresh (apply_all ops b)
unfolding apply_all
apply_all-IsFresh [] b h = h
apply_all-IsFresh (op ∷ ops) b h = apply_all-IsFresh ops (apply op b) (apply-IsFresh op b h)

OnlyFor-fresh :
    (n : ℕ) (id : Text) (table : List (Text × Pending))
    → All (λ e. e.1.channel < n) table
    → All (OnlyFor n id) table
OnlyFor-fresh n id [] h = tt
OnlyFor-fresh n id ((k, p) ∷ table) (o, h) = (inr (ground arith), OnlyFor-fresh n id table h)

received-fresh :
    (n : ℕ) (sent : List (ℕ × Answer)) → All (λ s. s.0 < n) sent → received n sent ≡ none
received-fresh n [] h = refl
received-fresh n ((d, a) ∷ sent) (o, h) =
    let other : (d == n) ≡ false = ground arith in rw other (received-fresh n sent h)

register-IsWaiting :
    (id agent : Text) (b : PermissionBroker)
    → IsFresh b
    → IsWaiting b.opened id (register id agent b).1
unfolding IsFresh IsWaiting register
register-IsWaiting id agent b (h, s) = (
  omega arith,
  (record { agent_id = agent; channel = b.opened }, rw (text_eq_refl id) refl, ground arith),
  (inl (text_eq_refl id), OnlyFor-fresh b.opened id _ (All-remove _ id b.pending h)),
  received-fresh b.opened b.sent s,
)

-- On any broker that its operations build: a prompt that nobody sees says so; one that is seen is
-- replied to by the first answer given to its request before anything else ends the wait, whatever
-- happens to the others, and by a timeout when there is none; and afterwards the request waits no more.
pub ask-first_answer :
    (id agent : Text) (emitted : Bool) (before ops : List Op)
    → ((ask id agent emitted ops (apply_all before new_broker)).0
        ≡ (if emitted then reply_of (first_answer id ops) else no_client))
      × (find_pending id (ask id agent emitted ops (apply_all before new_broker)).1.pending ≡ none)
unfolding ask forget register IsFresh
ask-first_answer id agent false before ops =
    (refl, find-remove_same id (register id agent (apply_all before new_broker)).1.pending)
ask-first_answer id agent true before ops =
    let b = apply_all before new_broker in
    let w = register-IsWaiting id agent b (apply_all-IsFresh before new_broker (tt, tt)) in
    (
      ap reply_of (IsWaiting-first_answer b.opened id ops (register id agent b).1 w),
      find-remove_same id _,
    )
