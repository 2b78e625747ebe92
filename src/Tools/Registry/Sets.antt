-- ===== src/Tools/Registry/Sets.antt =====
-- About `register` of crates/core/src/tools/registry.rs on many tools.
use mathlib.Core.List.{Permᴰ}
use apprentice_harness.Common.{
  ◌≡◌, refl, sym, ◌∙◌, ap, arith, Bool, false, ◌||◌, inl, inr, List, [], ◌∷◌, Text, text_eq,
}
use apprentice_harness.Common.Result.{Result, ok, Result-cases}
use apprentice_harness.Tools.Registry.{
  ToolSpec, Entry, Registry, RegistryError, contains, insert, names, register_all,
}
use apprentice_harness.Tools.Registry.Order.{
  Ascending, insert-Ascending, contains-insert, insert_comm, add, Added, register-Added,
  Added-register, text_eq_comm, err-ok, ok-injective,
}

module _ {Value Validator : Type 0} (is_object : Value → Bool)
    (build : Value → Result Text Validator) where
  abbrev pub add_all :
      List (ToolSpec Value)
      → Registry Value Validator
      → Result RegistryError (Registry Value Validator)
  add_all ts r = register_all is_object build ts r

  add_all-step :
      (t : ToolSpec Value) (ts : List (ToolSpec Value)) (r s r' : Registry Value Validator)
      → add is_object build t r ≡ ok s
      → add_all ts s ≡ ok r'
      → add_all (t ∷ ts) r ≡ ok r'
  unfolding register_all
  add_all-step t ts r s r' h k = rw (register_all, h) k

  add_all-first :
      (t : ToolSpec Value) (ts : List (ToolSpec Value)) (r r' : Registry Value Validator)
      → add_all (t ∷ ts) r ≡ ok r'
      → (s : Registry Value Validator) × (add is_object build t r ≡ ok s) × (add_all ts s ≡ ok r')
  unfolding register_all
  add_all-first t ts r r' h = elim (Result-cases (add is_object build t r)) [
    | inl (e, f) ↦ absurd (err-ok (rw (register_all, f) at h))
    | inr (s, f) ↦ (s, f, rw (register_all, f) at h)
  ]

  Added-swap :
      (a b : ToolSpec Value) (r s r' : Registry Value Validator)
      → Added is_object build a r s
      → Added is_object build b s r'
      → (s' : Registry Value Validator) × Added is_object build b r s'
        × Added is_object build a s' r'
  Added-swap a b r s r' (v, ta, ca, na, ea) (w, tb, cb, nb, eb) =
      let x : Entry Value Validator = record { spec = a; validator = v } in
      let y : Entry Value Validator = record { spec = b; validator = w } in
      let found = contains-insert b.name x r in
      let both : (text_eq a.name b.name || contains b.name r) ≡ false = sym found ∙ (rw ea at nb) in
      let apart : text_eq a.name b.name ≡ false = ground (arith, both) in
      let absent : contains b.name r ≡ false = ground (arith, both) in
      (
        insert y r,
        (w, tb, cb, absent, refl),
        (
          v,
          ta,
          ca,
          contains-insert a.name y r ∙ ground (arith, na, text_eq_comm b.name a.name, apart),
          eb ∙ ap (insert y) ea ∙ insert_comm y x r (text_eq_comm b.name a.name ∙ apart),
        ),
      )

  add_all-Permᴰ :
      (ts us : List (ToolSpec Value))
      → Permᴰ ts us
      → (r r' : Registry Value Validator) → add_all ts r ≡ ok r'
      → add_all us r ≡ ok r'
  unfolding register_all
  add_all-Permᴰ _ _ Permᴰ.nil r r' h = h
  add_all-Permᴰ _ _ (Permᴰ.cons {a = a} {b = b} {l₁ = ts} {l₂ = us} e p) r r' h =
      let (s, one, rest) = add_all-first a ts r r' h in
      add_all-step b us r s r' (rw (← e) one) (add_all-Permᴰ ts us p s r' rest)
  add_all-Permᴰ _ _ (Permᴰ.swap {a = a} {b = b} {a' = a'} {b' = b'} {l = ts} e f) r r' h =
      let (s, one, more) = add_all-first a (b ∷ ts) r r' h in
      let (t, two, rest) = add_all-first b ts s r' more in
      let (s', first, second) =
        Added-swap a b r s t (register-Added is_object build a r s one)
          (register-Added is_object build b s t two) in
      rw (← f, ← e)
        (add_all-step b (a ∷ ts) r s' r' (Added-register is_object build b r s' first)
          (add_all-step a ts s' t r' (Added-register is_object build a s' t second) rest))
  add_all-Permᴰ _ _ (Permᴰ.trans {l₁ = ts} {l₂ = us} {l₃ = vs} p q) r r' h =
      add_all-Permᴰ us vs q r r' (add_all-Permᴰ ts us p r r' h)

  add_all-Ascending :
      (ts : List (ToolSpec Value)) (r r' : Registry Value Validator)
      → Ascending (names r)
      → add_all ts r ≡ ok r'
      → Ascending (names r')
  unfolding register_all
  add_all-Ascending [] r r' a h = rw (← ok-injective h) a
  add_all-Ascending (t ∷ ts) r r' a h =
      let (s, one, rest) = add_all-first t ts r r' h in
      let (v, _, _, absent, e) = register-Added is_object build t r s one in
      add_all-Ascending ts s r'
        (rw e (insert-Ascending (record { spec = t; validator = v }) r absent a)) rest

  -- When tools are registered one behind the other in an empty registry and none is refused: the names of
  -- the entries ascend, so none stands twice, and the same tools in another order are not refused either
  -- and give the same registry.
  pub register_all_lem :
      (ts us : List (ToolSpec Value)) (r : Registry Value Validator)
      → add_all ts [] ≡ ok r
      → Permᴰ ts us
      → Ascending (names r) × (add_all us [] ≡ ok r)
  register_all_lem ts us r h p = (add_all-Ascending ts [] r tt h, add_all-Permᴰ ts us p [] r h)
