-- ===== src/Workspace/Paths.antt =====
-- Path resolution and the sandbox: crates/core/src/workspace/paths.rs, with the `cfg(not(windows))`
-- code. A path is the list of its components. `Path::components` of a text is the parameter
-- `components`, `std::fs::canonicalize` the parameter `canonicalize`. On these platforms no path has a
-- prefix, so `strip_verbatim` gives back the path.
pub mod Inside
pub mod Normal
use apprentice_harness.Common.{
  ℕ, zero, suc, Bool, true, false, ◌&&◌, Option, none, some, List, [], ◌∷◌, ◌++◌, reverse, map,
  Text, any, is_empty, length, drop, join, trim, text_eq, ◌==◌, if◌then◌else◌,
}
use apprentice_harness.Common.Result.{Result, ok, err}

-- `std::path::Component`.
pub data Component : Type 0 where
  root_dir : Component
  cur_dir : Component
  parent_dir : Component
  normal : Text → Component

abbrev pub FilePath : Type 0
FilePath = List Component

abbrev pub same_component : Component → Component → Bool
same_component root_dir root_dir = true
same_component cur_dir cur_dir = true
same_component parent_dir parent_dir = true
same_component (normal a) (normal b) = text_eq a b
same_component _ _ = false

-- `PathError`; what the operating system says is an `IoError`.
pub data PathError (IoError : Type 0) : Type 0 where
  outside : Text → PathError IoError
  invalid : Text → PathError IoError
  io : Text → IoError → PathError IoError

-- What `std::fs::canonicalize` answers.
pub data Canonical (IoError : Type 0) : Type 0 where
  found : FilePath → Canonical IoError
  not_found : Canonical IoError
  not_a_directory : Canonical IoError
  failed : IoError → Canonical IoError

abbrev pub is_absolute : FilePath → Bool
is_absolute (root_dir ∷ cs) = true
is_absolute _ = false

-- `Path::join`: an absolute path replaces the other one.
abbrev pub join_path : FilePath → FilePath → FilePath
join_path base given = if is_absolute given then given else base ++ given

-- `PathBuf::pop` of a path that ends in a name.
abbrev pub pop_last : FilePath → FilePath
pop_last [] = []
pop_last (c ∷ []) = []
pop_last (c ∷ d ∷ cs) = c ∷ pop_last (d ∷ cs)

-- The loop of `normalize_lexically`: the components left, `out` and `depth`.
unfoldable pub normalize_from : FilePath → FilePath → ℕ → FilePath
normalize_from [] out depth = out
normalize_from (root_dir ∷ cs) out depth = normalize_from cs (out ++ root_dir ∷ []) depth
normalize_from (cur_dir ∷ cs) out depth = normalize_from cs out depth
normalize_from (parent_dir ∷ cs) out zero = normalize_from cs out zero
normalize_from (parent_dir ∷ cs) out (suc depth) = normalize_from cs (pop_last out) depth
normalize_from (normal n ∷ cs) out depth = normalize_from cs (out ++ normal n ∷ []) (suc depth)

unfoldable pub normalize_lexically : FilePath → FilePath
unfolding normalize_from
normalize_lexically path = normalize_from path [] 0

-- `starts_with` of this file: component by component.
unfoldable pub starts_with_path : FilePath → FilePath → Bool
starts_with_path path [] = true
starts_with_path [] (r ∷ root) = false
starts_with_path (c ∷ path) (r ∷ root) = same_component c r && starts_with_path path root

abbrev component_text : Component → Text
component_text root_dir = b'/' ∷ []
component_text cur_dir = b'.' ∷ []
component_text parent_dir = b'.' ∷ b'.' ∷ []
component_text (normal n) = n

module _ (to_text : FilePath → Text) where
  -- `to_text` is `to_string_lossy` of the whole path, with `/` for `\`.
  unfoldable pub display : FilePath → FilePath → Text
  unfolding starts_with_path
  display root abs =
      let rel = map component_text (drop (length root) abs) in
      if starts_with_path abs root
      then (if is_empty rel then b'.' ∷ [] else join (b'/' ∷ []) rel)
      else to_text abs

module _ {IoError : Type 0} where
  -- A round of the loop of `canonicalize_existing_prefix`: what it yields, or the next rounds.
  abbrev pub or_parent :
      Canonical IoError
      → FilePath
      → Result IoError (Option FilePath)
      → Result IoError (Option FilePath)
  or_parent (found c) rest further = ok (some (c ++ rest))
  or_parent (failed e) rest further = err e
  or_parent not_found rest further = further
  or_parent not_a_directory rest further = further

  abbrev pub within :
      FilePath → Text → Result IoError (Option FilePath) → Result (PathError IoError) FilePath
  within root user_path (err e) = err (io user_path e)
  within root user_path (ok none) = err (outside user_path)
  within root user_path (ok (some resolved)) =
      if starts_with_path resolved root then ok resolved else err (outside user_path)

  abbrev is_within : FilePath → Result IoError (Option FilePath) → Bool
  is_within root (ok (some resolved)) = starts_with_path resolved root
  is_within root _ = false

module _ {IoError : Type 0} (canonicalize : FilePath → Canonical IoError) where
  -- The cursor's components, the last one first, and `rest` in the order in which it is pushed back.
  unfoldable pub existing_prefix : FilePath → FilePath → Result IoError (Option FilePath)
  existing_prefix (normal n ∷ up) rest =
      or_parent (canonicalize (reverse (normal n ∷ up))) rest (existing_prefix up (normal n ∷ rest))
  existing_prefix cursor rest = or_parent (canonicalize (reverse cursor)) rest (ok none)

  unfoldable pub canonicalize_existing_prefix : FilePath → Result IoError (Option FilePath)
  unfolding existing_prefix
  canonicalize_existing_prefix path = existing_prefix (reverse path) []

  unfoldable pub resolve : (Text → FilePath) → FilePath → Text → Result (PathError IoError) FilePath
  resolve components root user_path =
      let given = trim user_path in
      let joined = if is_empty given then root else join_path root (components given) in
      if any (λ c. c == 0) user_path
      then err (invalid user_path)
      else within root user_path (canonicalize_existing_prefix (normalize_lexically joined))

  unfoldable pub contains : FilePath → FilePath → Bool
  contains root abs =
      if is_absolute abs
      then is_within root (canonicalize_existing_prefix (normalize_lexically abs))
      else false
