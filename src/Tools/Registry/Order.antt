-- ===== src/Tools/Registry/Order.antt =====
-- About `register` of crates/core/src/tools/registry.rs: the order of the entries.
use mathlib.Core.Path.{Path}
use apprentice_harness.Common.{
  ◌≡◌, ◌≢◌, refl, sym, ◌∙◌, ap, arith, Bool, true, false, ◌||◌, inl, inr, List, [], ◌∷◌, All, Text,
  text_eq, Bool-cases,
}
use apprentice_harness.Common.Result.{Result, ok, err, Result-cases}
use apprentice_harness.Tools.Registry.{
  ToolSpec, Entry, Registry, RegistryError, entry_name, contains, insert, names, compile,
  is_valid_name, register,
}
use apprentice_harness.Tools.Registry.Names.{text_lt, text_lt_trans, text_lt_asym, text_lt_total}

-- Each name is less than those behind it.
abbrev pub Ascending : List Text → Type 0
Ascending [] = Unit
Ascending (n ∷ ns) = All (λ m. text_lt n m ≡ true) ns × Ascending ns

pub text_eq_comm : (s t : Text) → text_eq s t ≡ text_eq t s
text_eq_comm [] [] = refl
text_eq_comm [] (y ∷ ys) = refl
text_eq_comm (x ∷ xs) [] = refl
text_eq_comm (x ∷ xs) (y ∷ ys) = ground (arith, text_eq_comm xs ys)

All-less :
    (m n : Text) (ns : List Text)
    → text_lt m n ≡ true
    → All (λ k. text_lt n k ≡ true) ns
    → All (λ k. text_lt m k ≡ true) ns
All-less m n [] h hs = tt
All-less m n (k ∷ ns) h hs = (text_lt_trans m n k h hs.0, All-less m n ns h hs.1)

pub err-ok : {F V : Type 0} {e : F} {v : V} → err e ≢ ok v
err-ok h = cc

pub ok-injective : {F V : Type 0} {v w : V} → Path (Result F V) (ok v) (ok w) → v ≡ w
ok-injective h = cc

module _ {Value Validator : Type 0} where
  abbrev LessThan : Text → Entry Value Validator → Type 0
  LessThan n e = text_lt n (entry_name e) ≡ true

  All-insert :
      (n : Text) (e : Entry Value Validator) (r : Registry Value Validator)
      → text_lt n (entry_name e) ≡ true
      → All (λ m. text_lt n m ≡ true) (names r)
      → All (λ m. text_lt n m ≡ true) (names (insert e r))
  unfolding insert
  All-insert n e [] h hs = (h, tt)
  All-insert n e (x ∷ xs) h hs = elim (Bool-cases (text_lt (entry_name e) (entry_name x))) [
    | inl t ↦ rw (insert, t) (h, hs)
    | inr f ↦ rw (insert, f) (hs.0, All-insert n e xs h hs.1)
  ]

  pub insert-Ascending :
      (e : Entry Value Validator) (r : Registry Value Validator)
      → contains (entry_name e) r ≡ false
      → Ascending (names r)
      → Ascending (names (insert e r))
  unfolding insert contains
  insert-Ascending e [] h a = (tt, tt)
  insert-Ascending e (x ∷ xs) h a = elim (Bool-cases (text_lt (entry_name e) (entry_name x))) [
    | inl t ↦ rw (insert, t) ((t, All-less (entry_name e) (entry_name x) (names xs) t a.0), a)
    | inr f ↦
        let differs : text_eq (entry_name x) (entry_name e) ≡ false = ground (arith, h) in
        let later : contains (entry_name e) xs ≡ false = ground (arith, h) in
        let less =
          text_lt_total (entry_name e) (entry_name x)
            (text_eq_comm (entry_name e) (entry_name x) ∙ differs) f in
        rw (insert, f) (All-insert (entry_name x) e xs less a.0, insert-Ascending e xs later a.1)
  ]

  pub contains-insert :
      (n : Text) (e : Entry Value Validator) (r : Registry Value Validator)
      → contains n (insert e r) ≡ (text_eq (entry_name e) n || contains n r)
  unfolding insert contains
  contains-insert n e [] = refl
  contains-insert n e (x ∷ xs) = elim (Bool-cases (text_lt (entry_name e) (entry_name x))) [
    | inl t ↦ rw (insert, t) refl
    | inr f ↦ rw (insert, f, contains-insert n e xs) (ground arith)
  ]

  insert-less :
      (e x : Entry Value Validator) (xs : Registry Value Validator)
      → text_lt (entry_name e) (entry_name x) ≡ true
      → insert e (x ∷ xs) ≡ e ∷ x ∷ xs
  unfolding insert
  insert-less e x xs h = rw (insert, h) refl

  insert-more :
      (e x : Entry Value Validator) (xs : Registry Value Validator)
      → text_lt (entry_name e) (entry_name x) ≡ false
      → insert e (x ∷ xs) ≡ x ∷ insert e xs
  unfolding insert
  insert-more e x xs h = rw (insert, h) refl

  insert-insert :
      (e d : Entry Value Validator) (r : Registry Value Validator)
      → text_lt (entry_name e) (entry_name d) ≡ true
      → insert e (insert d r) ≡ insert d (insert e r)
  unfolding insert
  insert-insert e d [] h = rw (insert, h, text_lt_asym (entry_name e) (entry_name d) h) refl
  insert-insert e d (x ∷ xs) h =
      let apart = text_lt_asym (entry_name e) (entry_name d) h in
      elim (Bool-cases (text_lt (entry_name d) (entry_name x))) [
        | inl t ↦
            let e<x = text_lt_trans (entry_name e) (entry_name d) (entry_name x) h t in
            ap (insert e) (insert-less d x xs t)
            ∙ insert-less e d (x ∷ xs) h
            ∙ sym (
                ap (insert d) (insert-less e x xs e<x)
                ∙ insert-more d e (x ∷ xs) apart
                ∙ ap (λ l. e ∷ l) (insert-less d x xs t))
        | inr f ↦ elim (Bool-cases (text_lt (entry_name e) (entry_name x))) [
          | inl t ↦
              ap (insert e) (insert-more d x xs f)
              ∙ insert-less e x (insert d xs) t
              ∙ sym (
                  ap (insert d) (insert-less e x xs t)
                  ∙ insert-more d e (x ∷ xs) apart
                  ∙ ap (λ l. e ∷ l) (insert-more d x xs f))
          | inr g ↦
              ap (insert e) (insert-more d x xs f)
              ∙ insert-more e x (insert d xs) g
              ∙ ap (λ l. x ∷ l) (insert-insert e d xs h)
              ∙ sym (ap (insert d) (insert-more e x xs g) ∙ insert-more d x (insert e xs) f)
        ]
      ]

  -- Two entries of different names.
  pub insert_comm :
      (e d : Entry Value Validator) (r : Registry Value Validator)
      → text_eq (entry_name e) (entry_name d) ≡ false
      → insert e (insert d r) ≡ insert d (insert e r)
  insert_comm e d r h = elim (Bool-cases (text_lt (entry_name e) (entry_name d))) [
    | inl t ↦ insert-insert e d r t
    | inr f ↦ sym (insert-insert d e r (text_lt_total (entry_name e) (entry_name d) h f))
  ]

  module _ (is_object : Value → Bool) (build : Value → Result Text Validator) where
    abbrev pub add :
        ToolSpec Value → Registry Value Validator → Result RegistryError (Registry Value Validator)
    add spec r = register is_object build spec r

    -- What a registration that succeeds does.
    abbrev pub Added : ToolSpec Value → Registry Value Validator → Registry Value Validator → Type 0
    Added spec r r' =
        (validator : Validator) × (is_valid_name spec.name ≡ true)
        × (compile is_object build spec.input_schema ≡ ok validator)
        × (contains spec.name r ≡ false)
        × (r' ≡ insert (record { spec = spec; validator = validator }) r)

    pub register-Added :
        (spec : ToolSpec Value) (r r' : Registry Value Validator)
        → add spec r ≡ ok r'
        → Added spec r r'
    unfolding register
    register-Added spec r r' h = elim (Bool-cases (is_valid_name spec.name)) [
      | inr f ↦ absurd (err-ok (rw (register, f) at h))
      | inl t ↦ elim (Result-cases (compile is_object build spec.input_schema)) [
        | inl (e, g) ↦ absurd (err-ok (rw (register, t, g) at h))
        | inr (v, g) ↦ elim (Bool-cases (contains spec.name r)) [
          | inl c ↦ absurd (err-ok (rw (register, t, g, c) at h))
          | inr c ↦ (v, t, g, c, ok-injective (sym (rw (register, t, g, c) at h)))
        ]
      ]
    ]

    pub Added-register :
        (spec : ToolSpec Value) (r r' : Registry Value Validator)
        → Added spec r r'
        → add spec r ≡ ok r'
    unfolding register
    Added-register spec r r' (v, t, g, c, e) = rw (register, t, g, c, e) refl
