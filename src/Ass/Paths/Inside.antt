-- ===== src/Ass/Paths/Inside.antt =====
-- internal/ass/server.go: the paths that a request reads or changes are under the root of the workspace.
use aiyolo.Base.{
  ◌≡◌, refl, sym, ap, ◌∙◌, String, Bool, true, false, not, ◌&&◌, ◌===◌, List, [], ◌∷◌, ◌++◌, All,
  if_intro, Bool-cases, inl, inr, arith, eq_iff,
}
use aiyolo.Ass.Paths.{
  Checked, accepted, refused, and_then, normalize_workspace_path, relative_to, path_within_root,
  Evaluated, resolves_to, missing, failing, FileSystem, evaluated_existing, evaluated_parent,
  found_mutable, resolve_existing, resolve_writable_parent, check_parent, resolve_mutable_path,
  clean, only_last,
}

-- The path is the root or lies below it.
abbrev pub Within : List String → List String → Type 0
Within root path = (rest : List String) × (path ≡ root ++ rest)

-- The lexical check is sound: a path whose relative path does not go up is below the root.
path_within_root-Within :
    (root candidate : List String) → path_within_root root candidate ≡ true → Within root candidate
unfolding path_within_root relative_to
path_within_root-Within [] candidate h = (candidate, refl)
path_within_root-Within (r ∷ root) [] h = cc h
path_within_root-Within (r ∷ root) (c ∷ candidate) h = elim (Bool-cases (r === c)) [
  | inl same ↦
      let (rest, e) = path_within_root-Within root candidate (rw same at h) in
      (rest, ap (λ l. c ∷ l) e ∙ ap (λ s. s ∷ root ++ rest) (sym ((eq_iff r c).0 same)))
  | inr other ↦ cc (rw other at h)
]

-- An answer, if there is one, is a path under the root.
abbrev pub Keeps : List String → Checked (List String) → Type 0
Keeps root (accepted path) = Within root path
Keeps root (refused status error message) = Unit

then-Keeps {ℓ} :
    {A : Type ℓ} (root : List String) (c : Checked A) (next : A → Checked (List String))
    → ((a : A) → Keeps root (next a))
    → Keeps root (and_then c next)
then-Keeps root (accepted a) next h = h a
then-Keeps root (refused status error message) next h = tt

module _ (root : List String) (system : FileSystem) where
  existing-Keeps : (e : Evaluated) → Keeps root (evaluated_existing root system e)
  unfolding evaluated_existing
  existing-Keeps missing = tt
  existing-Keeps failing = tt
  existing-Keeps (resolves_to real) =
      if_intro (Keeps root) (not (path_within_root root real)) (λ _. tt)
        λ inside.
          if_intro (Keeps root) (system.stat_fails real) (λ _. tt)
            λ _. path_within_root-Within root real (ground (arith, inside))

  parent-Keeps : (e : Evaluated) → Keeps root (evaluated_parent root system e)
  unfolding evaluated_parent
  parent-Keeps missing = tt
  parent-Keeps failing = tt
  parent-Keeps (resolves_to real) =
      if_intro (Keeps root) (not (path_within_root root real)) (λ _. tt)
        λ inside.
          if_intro (Keeps root) (system.stat_fails real) (λ _. tt)
            λ _.
              if_intro (Keeps root) (not (system.is_directory real)) (λ _. tt)
                λ _. path_within_root-Within root real (ground (arith, inside))

  mutable-Keeps :
      (real : List String) (e : Evaluated)
      → path_within_root root real ≡ true
      → Keeps root (found_mutable root system real e)
  unfolding found_mutable
  mutable-Keeps real missing inside = tt
  mutable-Keeps real failing inside = tt
  mutable-Keeps real (resolves_to entry) inside =
      if_intro (Keeps root) (system.is_symlink real) (λ _. tt)
        λ _. path_within_root-Within root real inside

  made-Within :
      (relative : String) (mkdir_p : Bool)
      → All (Within root) (resolve_writable_parent root system relative mkdir_p).1
  unfolding resolve_writable_parent
  made-Within relative mkdir_p =
      if_intro (All (Within root)) mkdir_p (λ _. ((_, refl), tt)) (λ _. tt)

  -- The paths that `resolveExisting`, `resolveWritableParent` and `resolveMutablePath` accept are under the
  -- root of the workspace, whatever the request's path is and wherever symbolic links lead. The path of the
  -- directories that `resolveWritableParent` makes is under the root as it is written, which says nothing
  -- of where its links lead.
  pub resolved-Keeps :
      (raw relative : String) (allow_root mkdir_p : Bool)
      → Keeps root (resolve_existing root system raw allow_root)
        × Keeps root (resolve_writable_parent root system relative mkdir_p).0
        × All (Within root) (resolve_writable_parent root system relative mkdir_p).1
        × Keeps root (resolve_mutable_path root system relative)
  unfolding resolve_existing resolve_writable_parent check_parent resolve_mutable_path
  resolved-Keeps raw relative allow_root mkdir_p = (
    then-Keeps root (normalize_workspace_path raw allow_root) _ (λ found. existing-Keeps _),
    if_intro (Keeps root) (mkdir_p && system.mkdir_fails _) (λ _. tt) (λ _. parent-Keeps _),
    made-Within relative mkdir_p,
    then-Keeps root (resolve_writable_parent root system relative false).0 _ λ parent.
        let real = parent ++ only_last (clean relative) in
        if_intro (Keeps root) (not (path_within_root root real)) (λ _. tt)
          λ inside. mutable-Keeps real (system.lstat real) (ground (arith, inside)),
  )
