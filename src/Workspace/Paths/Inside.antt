-- ===== src/Workspace/Paths/Inside.antt =====
-- About `resolve` of crates/core/src/workspace/paths.rs: where the paths it accepts lie.
use apprentice_harness.Common.{
  ◌≡◌, ◌≢◌, refl, ◌∙◌, ap, Bool, true, false, Option, none, some, [], ◌∷◌, ◌++◌, reverse, subst,
  arith, Text, any, is_empty, trim, ◌==◌, text_eq_sound, if◌then◌else◌, All, All-append, and_true,
}
use apprentice_harness.Common.Result.{Result, ok, err}
use apprentice_harness.Workspace.Paths.{
  Component, root_dir, cur_dir, parent_dir, normal, FilePath, same_component, starts_with_path,
  invalid, Canonical, found, not_found, not_a_directory, failed, or_parent, existing_prefix,
  canonicalize_existing_prefix, within, join_path, normalize_lexically, resolve,
}

-- Neither `.` nor `..`.
abbrev pub IsUndotted : Component → Type 0
IsUndotted c = (c ≢ cur_dir) × (c ≢ parent_dir)

same_component_sound : (c d : Component) → same_component c d ≡ true → c ≡ d
same_component_sound root_dir root_dir h = refl
same_component_sound cur_dir cur_dir h = refl
same_component_sound parent_dir parent_dir h = refl
same_component_sound (normal a) (normal b) h = ap normal (text_eq_sound a b h)
same_component_sound c d h = cc

starts_with_path-append :
    (p root : FilePath) → starts_with_path p root ≡ true → (rest : FilePath) × (p ≡ root ++ rest)
unfolding starts_with_path
starts_with_path-append p [] h = (p, refl)
starts_with_path-append [] (r ∷ root) h = cc
starts_with_path-append (c ∷ p) (r ∷ root) h =
    let parts = and_true (same_component c r) (starts_with_path p root) h in
    let (rest, below) = starts_with_path-append p root parts.1 in
    (rest, ap (λ d. d ∷ p) (same_component_sound c r parts.0) ∙ ap (λ q. r ∷ q) below)

not_err {ℓ} :
    {E A : Type ℓ} (b : Bool) (e : E) (x : Result E A) (a : A)
    → (if b then err e else x) ≡ ok a
    → x ≡ ok a
not_err true e x a h = cc
not_err false e x a h = h

or_parent-IsUndotted :
    {IoError : Type 0} (answer : Canonical IoError) (rest p : FilePath)
    (further : Result IoError (Option FilePath))
    → ((c : FilePath) → answer ≡ found c → All IsUndotted c)
    → All IsUndotted rest
    → (further ≡ ok (some p) → All IsUndotted p)
    → or_parent answer rest further ≡ ok (some p)
    → All IsUndotted p
or_parent-IsUndotted (found c) rest p further hc hr hf h =
    let same : (c ++ rest) ≡ p = cc in
    subst (All IsUndotted) same (All-append _ c rest (hc c refl) hr)
or_parent-IsUndotted not_found rest p further hc hr hf h = hf h
or_parent-IsUndotted not_a_directory rest p further hc hr hf h = hf h
or_parent-IsUndotted (failed e) rest p further hc hr hf h = cc

none-IsUndotted :
    {IoError : Type 0} (p : FilePath)
    → ◌≡◌ {A = Result IoError (Option FilePath)} (ok none) (ok (some p))
    → All IsUndotted p
none-IsUndotted p h = cc

module _ {IoError : Type 0} (canonicalize : FilePath → Canonical IoError)
    (undotted : (p c : FilePath) → canonicalize p ≡ found c → All IsUndotted c) where
  existing_prefix-IsUndotted :
      (cursor rest p : FilePath)
      → All IsUndotted rest
      → existing_prefix canonicalize cursor rest ≡ ok (some p)
      → All IsUndotted p
  unfolding existing_prefix
  existing_prefix-IsUndotted (normal n ∷ up) rest p h e =
      or_parent-IsUndotted (canonicalize (reverse (normal n ∷ up))) rest p _
        (undotted (reverse (normal n ∷ up))) h
        (existing_prefix-IsUndotted up (normal n ∷ rest) p ((cc, cc), h)) e
  existing_prefix-IsUndotted cursor rest p h e =
      or_parent-IsUndotted (canonicalize (reverse cursor)) rest p (ok none)
        (undotted (reverse cursor)) h (none-IsUndotted p) e

  within-ok :
      (root r : FilePath) (t : Text) (found_path : Result IoError (Option FilePath))
      → within root t found_path ≡ ok r
      → (found_path ≡ ok (some r)) × (starts_with_path r root ≡ true)
  within-ok root r t (err e) h = cc
  within-ok root r t (ok none) h = cc
  within-ok root r t (ok (some q)) h = ground arith

  -- Where `canonicalize` answers with paths free of `.` and `..`: a path that `resolve` accepts is the
  -- root with components behind it, and none of its components is `.` or `..`.
  pub resolve-inside :
      (components : Text → FilePath) (root r : FilePath) (t : Text)
      → resolve canonicalize components root t ≡ ok r
      → ((rest : FilePath) × (r ≡ root ++ rest)) × All IsUndotted r
  unfolding resolve canonicalize_existing_prefix
  resolve-inside components root r t h =
      let joined = if is_empty (trim t) then root else join_path root (components (trim t)) in
      let found_path = canonicalize_existing_prefix canonicalize (normalize_lexically joined) in
      let w : (found_path ≡ ok (some r)) × (starts_with_path r root ≡ true) =
        within-ok root r t found_path
          (not_err (any (λ c. c == 0) t) (invalid t) (within root t found_path) r h) in
      (starts_with_path-append r root w.1, existing_prefix-IsUndotted _ [] r tt w.0)
