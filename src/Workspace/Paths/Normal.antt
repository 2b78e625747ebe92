-- ===== src/Workspace/Paths/Normal.antt =====
-- About `normalize_lexically` of crates/core/src/workspace/paths.rs.
use apprentice_harness.Common.{◌≢◌, All, ◌≡◌, refl, ap, List, [], ◌∷◌, ◌++◌, map, Text, length}
use apprentice_harness.Workspace.Paths.{
  Component, root_dir, cur_dir, parent_dir, normal, FilePath, pop_last, normalize_from,
  normalize_lexically,
}

-- An absolute path without dots.
abbrev pub names_from_root : List Text → FilePath
names_from_root names = root_dir ∷ map normal names

-- `cd` in a directory tree: the names down to the directory, the last one first. There is nothing
-- above the root.
abbrev pub walk : List Component → List Text → List Text
walk [] at = at
walk (parent_dir ∷ cs) [] = walk cs []
walk (parent_dir ∷ cs) (n ∷ at) = walk cs at
walk (normal n ∷ cs) at = walk cs (n ∷ at)
walk (_ ∷ cs) at = walk cs at

-- The path down to a directory, from its names with the last one first.
abbrev pub path_down : List Text → FilePath
path_down [] = root_dir ∷ []
path_down (n ∷ names) = path_down names ++ normal n ∷ []

abbrev pub IsBelowRoot : Component → Type 0
IsBelowRoot c = c ≢ root_dir

pop_last-append : (p : FilePath) (c : Component) → pop_last (p ++ c ∷ []) ≡ p
pop_last-append [] c = refl
pop_last-append (d ∷ []) c = refl
pop_last-append (d ∷ e ∷ p) c = ap (λ q. d ∷ q) (pop_last-append (e ∷ p) c)

normalize_from-walk :
    (cs : FilePath) (names : List Text)
    → All IsBelowRoot cs
    → normalize_from cs (path_down names) (length names) ≡ path_down (walk cs names)
unfolding normalize_from
normalize_from-walk [] names h = refl
normalize_from-walk (root_dir ∷ cs) names h = absurd (h.0 refl)
normalize_from-walk (cur_dir ∷ cs) names h = normalize_from-walk cs names h.1
normalize_from-walk (parent_dir ∷ cs) [] h = normalize_from-walk cs [] h.1
normalize_from-walk (parent_dir ∷ cs) (n ∷ names) h =
    rw (pop_last-append (path_down names) (normal n)) (normalize_from-walk cs names h.1)
normalize_from-walk (normal n ∷ cs) names h = normalize_from-walk cs (n ∷ names) h.1

-- The lexical normal form of an absolute path is the path down to the directory that walking its
-- components from the root ends in, where `..` goes up, and nowhere at the root.
pub normalize_lexically-walk :
    (cs : FilePath)
    → All IsBelowRoot cs
    → normalize_lexically (root_dir ∷ cs) ≡ path_down (walk cs [])
unfolding normalize_lexically normalize_from
normalize_lexically-walk cs h = normalize_from-walk cs [] h
