-- ===== src/Ass/Paths.antt =====
-- internal/ass/server.go: the paths of a workspace, and the checks that keep them under its root. A
-- clean absolute path is the list of its segments.

pub mod Inside
pub mod Local
use Prim.Native.Char.{Char, code}
use Prim.Native.String.{char_at}
use aiyolo.Base.{
  ℕ, String, Bool, true, false, not, ◌&&◌, ◌||◌, ◌===◌, ◌==◌, List, [], ◌∷◌, ◌++◌, map, any, Option,
  none, some, if◌then◌else◌,
}
use aiyolo.Text.{trim_space, is_blank}
use aiyolo.Text.Join.{join}

-- An answer, or an error with its status, code and message.
pub data Checked {ℓ} (A : Type ℓ) : Type ℓ where
  accepted : A → Checked A
  refused : ℕ → String → String → Checked A

abbrev pub and_then {ℓ κ} : {A : Type ℓ} {B : Type κ} → Checked A → (A → Checked B) → Checked B
and_then (accepted a) next = next a
and_then (refused status error message) next = refused status error message

-- `strings.ReplaceAll(text, "\\", "/")`
unfoldable pub with_slashes : String → String
with_slashes String.[] = ""
with_slashes (String.◌∷◌ c s) =
    let rest = with_slashes s in
    if code c == 92 then String.◌∷◌ (char_at "/" 0) rest else String.◌∷◌ c rest

-- `strings.ContainsRune(text, '\x00')`
unfoldable pub has_nul : String → Bool
has_nul String.[] = false
has_nul (String.◌∷◌ c s) = code c == 0 || has_nul s

abbrev pub onto_first : Char → List String → List String
onto_first c [] = String.◌∷◌ c "" ∷ []
onto_first c (s ∷ ss) = String.◌∷◌ c s ∷ ss

-- `strings.Split(text, "/")`
unfoldable pub segments : String → List String
segments String.[] = "" ∷ []
segments (String.◌∷◌ c s) =
    let rest = segments s in if code c == 47 then "" ∷ rest else onto_first c rest

abbrev pub rest_of : List String → List String
rest_of [] = []
rest_of (s ∷ ss) = ss

unfoldable pub reversed_onto : List String → List String → List String
reversed_onto [] acc = acc
reversed_onto (s ∷ ss) acc = reversed_onto ss (s ∷ acc)

-- The segments that `path.Clean` leaves of those of an absolute path; those that are kept so far are
-- in reverse.
unfoldable pub cleaned_in : List String → List String → List String
cleaned_in kept [] = reversed_onto kept []
cleaned_in kept (s ∷ ss) =
    let skipped = cleaned_in kept ss in
    let up = cleaned_in (rest_of kept) ss in
    let down = cleaned_in (s ∷ kept) ss in
    if s === "" || s === "." then skipped else if s === ".." then up else down

-- `path.Clean("/" + text)`
unfoldable pub clean : String → List String
clean text = cleaned_in [] (segments text)

path_required : Bool → Checked String
path_required true = accepted ""
path_required false = refused 400 "path_invalid" "workspace file path is required"

cleaned_path : Bool → List String → Checked String
unfolding path_required
cleaned_path allow_root [] = path_required allow_root
cleaned_path allow_root (s ∷ ss) = accepted (join "/" (s ∷ ss))

-- `normalizeWorkspacePath`.
unfoldable pub normalize_workspace_path : String → Bool → Checked String
unfolding path_required cleaned_path
normalize_workspace_path text allow_root =
    let raw = with_slashes (trim_space text) in
    if has_nul raw
    then refused 400 "path_invalid" "workspace path is invalid"
    else if raw === "" || raw === "." || raw === "/"
    then path_required allow_root
    else if any (λ s. s === "..") (segments raw)
    then refused 400 "path_invalid" "workspace path escapes root"
    else cleaned_path allow_root (clean raw)

-- `filepath.Rel` of two clean absolute paths.
unfoldable pub relative_to : List String → List String → List String
relative_to [] candidate = candidate
relative_to (r ∷ root) [] = map (λ s. "..") (r ∷ root)
relative_to (r ∷ root) (c ∷ candidate) =
    let further = relative_to root candidate in
    if r === c then further else map (λ s. "..") (r ∷ root) ++ (c ∷ candidate)

abbrev pub stays_inside : List String → Bool
stays_inside [] = true
stays_inside (s ∷ ss) = not (s === "..")

-- `pathWithinRoot`.
unfoldable pub path_within_root : List String → List String → Bool
path_within_root root candidate = stays_inside (relative_to root candidate)

-- What the system answers about a path: the path without its symbolic links, that it does not exist,
-- or another error.
pub data Evaluated : Type 0 where
  resolves_to : List String → Evaluated
  missing failing : Evaluated

-- `filepath.EvalSymlinks`, whether `os.MkdirAll` and `os.Stat` fail, whether a path is a directory, and whether
-- `os.Lstat` finds a link.
pub record FileSystem : Type 0 where
  pub eval_symlinks : List String → Evaluated
  pub mkdir_fails : List String → Bool
  pub stat_fails : List String → Bool
  pub is_directory : List String → Bool
  pub lstat : List String → Evaluated
  pub is_symlink : List String → Bool

-- `path.Dir` and `path.Base` of a clean relative path: all of its segments but the last, and the last.
unfoldable pub without_last : List String → List String
without_last [] = []
without_last (s ∷ []) = []
without_last (s ∷ t ∷ ss) = s ∷ without_last (t ∷ ss)

unfoldable pub only_last : List String → List String
only_last [] = []
only_last (s ∷ []) = s ∷ []
only_last (s ∷ t ∷ ss) = only_last (t ∷ ss)

module _ (root : List String) (system : FileSystem) where
  evaluated_existing : Evaluated → Checked (List String)
  evaluated_existing missing = refused 404 "path_not_found" "workspace path does not exist"
  evaluated_existing failing = refused 500 "internal_error" "resolve workspace path failed"
  evaluated_existing (resolves_to real) =
      if not (path_within_root root real)
      then refused 400 "path_invalid" "workspace path escapes root"
      else if system.stat_fails real
      then refused 500 "internal_error" "inspect workspace path failed"
      else accepted real

  -- `resolveExisting`: the path that a request's path leads to.
  unfoldable pub resolve_existing : String → Bool → Checked (List String)
  unfolding evaluated_existing
  resolve_existing raw allow_root =
      and_then (normalize_workspace_path raw allow_root)
        λ relative. evaluated_existing (system.eval_symlinks (root ++ clean relative))

  evaluated_parent : Evaluated → Checked (List String)
  evaluated_parent missing =
      refused 404 "path_not_found" "workspace parent directory does not exist"
  evaluated_parent failing =
      refused 500 "internal_error" "resolve workspace parent directory failed"
  evaluated_parent (resolves_to real) =
      if not (path_within_root root real)
      then refused 400 "path_invalid" "workspace path escapes root"
      else if system.stat_fails real
      then refused 500 "internal_error" "inspect workspace parent directory failed"
      else if not (system.is_directory real)
      then refused 400 "path_not_directory" "workspace parent path is not a directory"
      else accepted real

  -- The check of `resolveWritableParent`, behind the making of directories.
  unfoldable pub check_parent : String → Bool → Checked (List String)
  unfolding evaluated_parent
  check_parent relative mkdir_p =
      let parent = root ++ without_last (clean relative) in
      if mkdir_p && system.mkdir_fails parent
      then refused 500 "internal_error" "create workspace parent directory failed"
      else evaluated_parent (system.eval_symlinks parent)

  -- `resolveWritableParent`: the directory of a relative path, and the paths that it gives to
  -- `os.MkdirAll` before it knows where they lead, which makes them and the directories above them.
  unfoldable pub resolve_writable_parent :
      String → Bool → Checked (List String) × List (List String)
  resolve_writable_parent relative mkdir_p = (
    check_parent relative mkdir_p,
    if mkdir_p then (root ++ without_last (clean relative)) ∷ [] else [],
  )

  found_mutable : List String → Evaluated → Checked (List String)
  found_mutable real missing = refused 404 "path_not_found" "workspace path does not exist"
  found_mutable real failing = refused 500 "internal_error" "inspect workspace path failed"
  found_mutable real (resolves_to entry) =
      if system.is_symlink real
      then refused 400 "path_invalid" "workspace symbolic links cannot be modified"
      else accepted real

  -- `resolveMutablePath`: the path that a request may copy or delete.
  unfoldable pub resolve_mutable_path : String → Checked (List String)
  unfolding found_mutable
  resolve_mutable_path relative = and_then (resolve_writable_parent relative false).0 λ parent.
      let real = parent ++ only_last (clean relative) in
      if not (path_within_root root real)
      then refused 400 "path_invalid" "workspace path escapes root"
      else found_mutable real (system.lstat real)
