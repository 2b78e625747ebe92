-- ===== src/Mentor/Assemble/Slots.antt =====
-- The vectors of blocks by index, of crates/core/src/mentor/assemble.rs: `set_partial`, `partial_mut`,
-- `Option::take` of an entry, and `flatten`.
use apprentice_harness.Common.{
  ℕ, zero, suc, ◌<◌, arith, ◌≡◌, refl, ap, Option, none, some, List, [], ◌∷◌, ◌++◌, map, length,
}

module _ {A : Type 0} where
  abbrev pub slot : ℕ → List (Option A) → Option A
  slot i [] = none
  slot zero (x ∷ xs) = x
  slot (suc i) (x ∷ xs) = slot i xs

  -- The vector grows by empty entries up to the index.
  abbrev pub put_slot : ℕ → A → List (Option A) → List (Option A)
  put_slot zero a [] = some a ∷ []
  put_slot zero a (x ∷ xs) = some a ∷ xs
  put_slot (suc i) a [] = none ∷ put_slot i a []
  put_slot (suc i) a (x ∷ xs) = x ∷ put_slot i a xs

  abbrev pub clear_slot : ℕ → List (Option A) → List (Option A)
  clear_slot i [] = []
  clear_slot zero (x ∷ xs) = none ∷ xs
  clear_slot (suc i) (x ∷ xs) = x ∷ clear_slot i xs

  abbrev pub filled : List (Option A) → List A
  filled [] = []
  filled (none ∷ xs) = filled xs
  filled (some a ∷ xs) = a ∷ filled xs

  -- The entries of blocks that are all done.
  abbrev pub empties : {B : Type 0} → List B → List (Option A)
  empties xs = map (λ x. none) xs

  pub slot-append : (xs : List (Option A)) (x : Option A) → slot (length xs) (xs ++ x ∷ []) ≡ x
  slot-append [] x = refl
  slot-append (y ∷ xs) x = slot-append xs x

  pub put_slot-append :
      (xs : List (Option A)) (a : A) (x : Option A)
      → put_slot (length xs) a (xs ++ x ∷ []) ≡ xs ++ some a ∷ []
  put_slot-append [] a x = refl
  put_slot-append (y ∷ xs) a x = ap (λ l. y ∷ l) (put_slot-append xs a x)

  pub put_slot-end : (xs : List (Option A)) (a : A) → put_slot (length xs) a xs ≡ xs ++ some a ∷ []
  put_slot-end [] a = refl
  put_slot-end (y ∷ xs) a = ap (λ l. y ∷ l) (put_slot-end xs a)

  pub clear_slot-append :
      (xs : List (Option A)) (x : Option A)
      → clear_slot (length xs) (xs ++ x ∷ []) ≡ xs ++ none ∷ []
  clear_slot-append [] x = refl
  clear_slot-append (y ∷ xs) x = ap (λ l. y ∷ l) (clear_slot-append xs x)

  -- Entries behind the first.
  pub put_slot-put_slot :
      (i j : ℕ) (a b : A) (xs : List (Option A))
      → i < j
      → put_slot i a (put_slot j b xs) ≡ put_slot j b (put_slot i a xs)
  put_slot-put_slot i zero a b xs h = absurd (omega arith)
  put_slot-put_slot zero (suc j) a b [] h = refl
  put_slot-put_slot zero (suc j) a b (x ∷ xs) h = refl
  put_slot-put_slot (suc i) (suc j) a b [] h =
      ap (λ l. none ∷ l) (put_slot-put_slot i j a b [] (omega arith))
  put_slot-put_slot (suc i) (suc j) a b (x ∷ xs) h =
      ap (λ l. x ∷ l) (put_slot-put_slot i j a b xs (omega arith))

  pub put_slot-behind :
      (xs ys : List (Option A)) (a : A) (x : Option A)
      → put_slot (length xs) a (xs ++ x ∷ ys) ≡ (xs ++ some a ∷ []) ++ ys
  put_slot-behind [] ys a x = refl
  put_slot-behind (y ∷ xs) ys a x = ap (λ l. y ∷ l) (put_slot-behind xs ys a x)

  pub filled-map-some : (xs : List A) → filled (map some xs) ≡ xs
  filled-map-some [] = refl
  filled-map-some (x ∷ xs) = ap (λ l. x ∷ l) (filled-map-some xs)

module _ {A : Type 0} (B : Type 0) where
  pub length-empties : (xs : List A) → length (empties {A = B} xs) ≡ length xs
  length-empties [] = refl
  length-empties (x ∷ xs) = ap suc (length-empties xs)

  pub empties-append :
      (xs : List A) (x : A) → empties {A = B} xs ++ none ∷ [] ≡ empties (xs ++ x ∷ [])
  empties-append [] x = refl
  empties-append (y ∷ xs) x = ap (λ l. none ∷ l) (empties-append xs x)

  pub put_slot-done :
      (xs : List A) (x : A)
      → put_slot (length (empties {A = B} xs)) x (map some xs) ≡ map some (xs ++ x ∷ [])
  put_slot-done [] x = refl
  put_slot-done (y ∷ xs) x = ap (λ l. some y ∷ l) (put_slot-done xs x)

  pub filled-empties : (xs : List A) → filled (empties {A = B} xs) ≡ []
  filled-empties [] = refl
  filled-empties (x ∷ xs) = filled-empties xs
