-- ===== src/Permissions/Broker/FirstAnswer.antt =====
-- About a prompt that waits in crates/core/src/permissions/broker.rs, and what the others do meanwhile.
use apprentice_harness.Common.{
  ℕ, ◌<◌, ◌≡◌, refl, ◌∙◌, ap, arith, true, false, Option, none, some, List, [], ◌∷◌, Text, text_eq,
  text_eq_sound, ◌==◌, Bool-cases, Option-cases, inl, inr, if◌then◌else◌, All,
}
use apprentice_harness.Permissions.Broker.{
  Answer, Pending, PermissionBroker, find_pending, remove_pending, received, register, forget, Op,
  registers, forgets, responds, apply, apply_all,
}
use apprentice_harness.Permissions.Broker.Table.{
  NotOn, OnlyFor, find-remove_other, All-remove, OnlyFor-remove, find-NotOn, find-OnlyFor,
  respond-none, respond-some,
}

-- The first answer to a request, among what happens before anything else ends its wait.
abbrev pub first_answer : Text → List Op → Option Answer
first_answer id [] = none
first_answer id (registers k agent ∷ ops) =
    let rest = first_answer id ops in if text_eq k id then none else rest
first_answer id (forgets k ∷ ops) =
    let rest = first_answer id ops in if text_eq k id then none else rest
first_answer id (responds k a ∷ ops) =
    let rest = first_answer id ops in if text_eq k id then some a else rest

module _ (c : ℕ) where
  -- Nobody can send on the channel any more.
  unfoldable pub IsSettled : PermissionBroker → Type 0
  IsSettled b = (c < b.opened) × All (NotOn c) b.pending

  -- The request's own entry is the only one on the channel.
  unfoldable pub IsWaiting : Text → PermissionBroker → Type 0
  IsWaiting id b =
      (c < b.opened)
      × ((p : Pending) × (find_pending id b.pending ≡ some p) × ((p.channel == c) ≡ true))
      × All (OnlyFor c id) b.pending
      × (received c b.sent ≡ none)

  opened-ne : (n : ℕ) → c < n → (n == c) ≡ false
  opened-ne n h = ground arith

  IsSettled-apply :
      (op : Op) (b : PermissionBroker)
      → IsSettled b
      → IsSettled (apply op b) × (received c (apply op b).sent ≡ received c b.sent)
  unfolding apply register forget IsSettled
  IsSettled-apply (registers k agent) b (o, h) =
      ((omega arith, (opened-ne b.opened o, All-remove (NotOn c) k b.pending h)), refl)
  IsSettled-apply (forgets k) b (o, h) = ((o, All-remove (NotOn c) k b.pending h), refl)
  IsSettled-apply (responds k a) b (o, h) = elim (Option-cases (find_pending k b.pending)) [
    | inl missing ↦ rw (respond-none k a b missing) ((o, h), refl)
    | inr (q, there) ↦
        rw (respond-some k a b q there, find-NotOn c k b.pending q h there)
          ((o, All-remove (NotOn c) k b.pending h), refl)
  ]

  IsSettled-apply_all :
      (ops : List Op) (b : PermissionBroker)
      → IsSettled b
      → received c (apply_all ops b).sent ≡ received c b.sent
  unfolding apply_all
  IsSettled-apply_all [] b h = refl
  IsSettled-apply_all (op ∷ ops) b h =
      let (next, same) = IsSettled-apply op b h in IsSettled-apply_all ops (apply op b) next ∙ same

  IsWaiting-other :
      (id k : Text) (b : PermissionBroker)
      → text_eq k id ≡ false
      → ((p : Pending) × (find_pending id b.pending ≡ some p) × ((p.channel == c) ≡ true))
      → (p : Pending) × (find_pending id (remove_pending k b.pending) ≡ some p)
        × ((p.channel == c) ≡ true)
  IsWaiting-other id k b n (p, there, on) = (p, find-remove_other id k b.pending n ∙ there, on)

  -- What concerns another request changes nothing for this one.
  IsWaiting-apply :
      (id k : Text) (b : PermissionBroker)
      → text_eq k id ≡ false
      → IsWaiting id b
      → ((agent : Text) → IsWaiting id (apply (registers k agent) b))
        × IsWaiting id (apply (forgets k) b)
        × ((a : Answer) → IsWaiting id (apply (responds k a) b))
  unfolding apply register forget IsWaiting
  IsWaiting-apply id k b n (o, own, only, unsent) =
      let own' = IsWaiting-other id k b n own in
      let only' = All-remove (OnlyFor c id) k b.pending only in
      (
        λ agent. (
          omega arith,
          (own'.0, rw n own'.1, own'.2),
          (inr (opened-ne b.opened o), only'),
          unsent,
        ),
        (o, own', only', unsent),
        λ a. elim (Option-cases (find_pending k b.pending)) [
          | inl missing ↦ rw (respond-none k a b missing) (o, own, only, unsent)
          | inr (q, there) ↦
              rw (respond-some k a b q there, find-OnlyFor c id k b.pending q n only there)
                (o, own', only', unsent)
        ],
      )

  only_removed :
      (id k : Text) (b : PermissionBroker)
      → text_eq k id ≡ true
      → IsWaiting id b
      → All (NotOn c) (remove_pending k b.pending)
  unfolding IsWaiting
  only_removed id k b same w = rw (text_eq_sound k id same) (OnlyFor-remove c id b.pending w.2)

  taken_by_register :
      (id k agent : Text) (b : PermissionBroker)
      → text_eq k id ≡ true
      → IsWaiting id b
      → IsSettled (apply (registers k agent) b)
  unfolding apply register IsSettled IsWaiting
  taken_by_register id k agent b same w =
      let o : c < b.opened = w.0 in
      (omega arith, (opened-ne b.opened o, only_removed id k b same w))

  taken_by_forget :
      (id k : Text) (b : PermissionBroker)
      → text_eq k id ≡ true
      → IsWaiting id b
      → IsSettled (apply (forgets k) b)
  unfolding apply forget IsSettled IsWaiting
  taken_by_forget id k b same w = (w.0, only_removed id k b same w)

  taken_by_respond :
      (id k : Text) (a : Answer) (b : PermissionBroker)
      → text_eq k id ≡ true
      → IsWaiting id b
      → IsSettled (apply (responds k a) b) × (received c (apply (responds k a) b).sent ≡ some a)
  unfolding apply IsSettled IsWaiting
  taken_by_respond id k a b same w =
      let (p, there, on) = w.1 in
      rw
        (
          respond-some k a b p
              (ap (λ t. find_pending t b.pending) (text_eq_sound k id same) ∙ there),
          on,
        )
        ((w.0, only_removed id k b same w), refl)

  -- Whatever the others do: what is received in the end is the first answer.
  pub IsWaiting-first_answer :
      (id : Text) (ops : List Op) (b : PermissionBroker)
      → IsWaiting id b
      → received c (apply_all ops b).sent ≡ first_answer id ops
  unfolding apply_all IsWaiting apply register forget
  IsWaiting-first_answer id [] b w = w.3
  IsWaiting-first_answer id (registers k agent ∷ ops) b w = elim (Bool-cases (text_eq k id)) [
    | inl same ↦ rw same (IsSettled-apply_all ops _ (taken_by_register id k agent b same w) ∙ w.3)
    | inr other ↦
        rw other (IsWaiting-first_answer id ops _ ((IsWaiting-apply id k b other w).0 agent))
  ]
  IsWaiting-first_answer id (forgets k ∷ ops) b w = elim (Bool-cases (text_eq k id)) [
    | inl same ↦ rw same (IsSettled-apply_all ops _ (taken_by_forget id k b same w) ∙ w.3)
    | inr other ↦ rw other (IsWaiting-first_answer id ops _ ((IsWaiting-apply id k b other w).1))
  ]
  IsWaiting-first_answer id (responds k a ∷ ops) b w = elim (Bool-cases (text_eq k id)) [
    | inl same ↦
        let (settled, got) = taken_by_respond id k a b same w in
        rw same (IsSettled-apply_all ops _ settled ∙ got)
    | inr other ↦ rw other (IsWaiting-first_answer id ops _ ((IsWaiting-apply id k b other w).2 a))
  ]
