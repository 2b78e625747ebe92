-- ===== src/Workspace/Tests.antt =====
-- Witnesses of the theorems on paths, on a file system where every path below the root is a directory.
use apprentice_harness.Common.{
  ◌≡◌, subst, trim, is_whitespace, refl, [], ◌∷◌, ◌++◌, Text, codes, All,
}
use apprentice_harness.Common.Result.{ok}
use apprentice_harness.Workspace.Paths.{
  canonicalize_existing_prefix, starts_with_path, root_dir, cur_dir, parent_dir, normal, FilePath,
  Canonical, found, not_found, normalize_lexically, resolve,
}
use apprentice_harness.Workspace.Paths.Normal.{
  IsBelowRoot, walk, path_down, normalize_lexically-walk,
}
use apprentice_harness.Workspace.Paths.Inside.{IsUndotted, resolve-inside}

name_below : (n : Text) → IsBelowRoot (normal n)
name_below n h = cc

up_below : IsBelowRoot parent_dir
up_below h = cc

-- The directories directly below `/` are there, nothing is below them, and nothing is a link.
abbrev flat_files : FilePath → Canonical Unit
flat_files (root_dir ∷ []) = found (root_dir ∷ [])
flat_files (root_dir ∷ normal n ∷ []) = found (root_dir ∷ normal n ∷ [])
flat_files _ = not_found

-- Enough of `Path::components` for the examples: one name.
abbrev one_name : Text → FilePath
one_name t = cur_dir ∷ normal t ∷ []

abbrev repo : FilePath
repo = root_dir ∷ normal (codes "r") ∷ []

is_plain : (n : Text) → All IsUndotted (root_dir ∷ normal n ∷ [])
is_plain n = ((cc, cc), ((cc, cc), tt))

found-eq : (p c : FilePath) → ◌≡◌ {A = Canonical Unit} (found p) (found c) → p ≡ c
found-eq p c h = cc

flat_files-IsUndotted : (p c : FilePath) → flat_files p ≡ found c → All IsUndotted c
flat_files-IsUndotted [] c h = cc
flat_files-IsUndotted (root_dir ∷ []) c h = subst (All IsUndotted) (found-eq _ c h) ((cc, cc), tt)
flat_files-IsUndotted (root_dir ∷ normal n ∷ []) c h =
    subst (All IsUndotted) (found-eq _ c h) (is_plain n)
flat_files-IsUndotted _ c h = cc

file_found :
    resolve flat_files one_name repo (codes "f")
    ≡ ok (root_dir ∷ normal (codes "r") ∷ normal (codes "f") ∷ [])
unfolding resolve canonicalize_existing_prefix normalize_lexically trim is_whitespace
    starts_with_path
file_found = refl

resolve-inside_example :
    ((rest : FilePath) × (root_dir ∷ normal (codes "r") ∷ normal (codes "f") ∷ [] ≡ repo ++ rest))
    × All IsUndotted (root_dir ∷ normal (codes "r") ∷ normal (codes "f") ∷ [])
resolve-inside_example =
    resolve-inside flat_files flat_files-IsUndotted one_name repo _ (codes "f") file_found

-- `/a/../../b`
normalize_lexically-walk_example :
    normalize_lexically
      (root_dir ∷ normal (codes "a") ∷ parent_dir ∷ parent_dir ∷ normal (codes "b") ∷ [])
    ≡ path_down (walk (normal (codes "a") ∷ parent_dir ∷ parent_dir ∷ normal (codes "b") ∷ []) [])
normalize_lexically-walk_example =
    normalize_lexically-walk
      (normal (codes "a") ∷ parent_dir ∷ parent_dir ∷ normal (codes "b") ∷ [])
      (name_below (codes "a"), (up_below, (up_below, (name_below (codes "b"), tt))))
