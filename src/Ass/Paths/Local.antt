-- ===== src/Ass/Paths/Local.antt =====
-- internal/ass/server.go `normalizeWorkspacePath`: what a path that it accepts is made of.
use Prim.Native.Char.{Char, code}
use aiyolo.Base.{
  ◌≡◌, ◌⊎◌, inl, inr, refl, String, Bool, true, false, ◌||◌, ◌===◌, ◌==◌, List, [], ◌∷◌, All, any,
  is_empty, if_intro, arith,
}
use aiyolo.Text.{trim_space}
use aiyolo.Text.Join.{join}
use aiyolo.Ass.Paths.{
  Checked, accepted, refused, with_slashes, has_nul, onto_first, segments, rest_of, reversed_onto,
  cleaned_in, clean, path_required, cleaned_path, normalize_workspace_path,
}

abbrev pub NoSlash : String → Type 0
NoSlash String.[] = Unit
NoSlash (String.◌∷◌ c s) = ((code c == 47) ≡ false) × NoSlash s

-- A segment that names an entry of a directory: neither empty nor `.` nor `..`.
pub record IsEntry (s : String) : Type 0 where
  pub some_text : (s === "") ≡ false
  pub not_here : (s === ".") ≡ false
  pub not_above : (s === "..") ≡ false
  pub no_slash : NoSlash s

onto_first-NoSlash :
    (c : Char) (ss : List String)
    → (code c == 47) ≡ false
    → All NoSlash ss
    → All NoSlash (onto_first c ss)
onto_first-NoSlash c [] h k = ((h, tt), tt)
onto_first-NoSlash c (s ∷ ss) h k = ((h, k.0), k.1)

segments-NoSlash : (s : String) → All NoSlash (segments s)
unfolding segments
segments-NoSlash String.[] = (tt, tt)
segments-NoSlash (String.◌∷◌ c s) =
    if_intro (All NoSlash) (code c == 47) (λ _. (tt, segments-NoSlash s))
      λ other. onto_first-NoSlash c (segments s) other (segments-NoSlash s)

reversed-IsEntry :
    (ss acc : List String) → All IsEntry ss → All IsEntry acc → All IsEntry (reversed_onto ss acc)
unfolding reversed_onto
reversed-IsEntry [] acc h k = k
reversed-IsEntry (s ∷ ss) acc h k = reversed-IsEntry ss (s ∷ acc) h.1 (h.0, k)

rest-IsEntry : (ss : List String) → All IsEntry ss → All IsEntry (rest_of ss)
rest-IsEntry [] h = tt
rest-IsEntry (s ∷ ss) h = h.1

cleaned-IsEntry :
    (kept ss : List String) → All IsEntry kept → All NoSlash ss → All IsEntry (cleaned_in kept ss)
unfolding cleaned_in
cleaned-IsEntry kept [] h k = reversed-IsEntry kept [] h tt
cleaned-IsEntry kept (s ∷ ss) h k =
    if_intro (All IsEntry) (s === "" || s === ".") (λ _. cleaned-IsEntry kept ss h k.1)
      λ named.
        if_intro (All IsEntry) (s === "..")
          (λ _. cleaned-IsEntry (rest_of kept) ss (rest-IsEntry kept h) k.1)
          λ below.
            let entry : IsEntry s = record {
              some_text = ground (arith, named);
              not_here = ground (arith, named);
              not_above = below;
              no_slash = k.0;
            } in
            cleaned-IsEntry (s ∷ kept) ss (entry, h) k.1

-- What a path is that is accepted: the root's, where it is allowed, or one or more entries' names that
-- are joined by slashes.
abbrev pub IsRelative : Bool → Checked String → Type 0
IsRelative allow_root (accepted path) =
    ((path ≡ "") × (allow_root ≡ true))
    ⊎ ((ss : List String) × (path ≡ join "/" ss) × (is_empty ss ≡ false) × All IsEntry ss)
IsRelative allow_root (refused status error message) = Unit

required-IsRelative : (allow_root : Bool) → IsRelative allow_root (path_required allow_root)
unfolding path_required
required-IsRelative true = inl (refl, refl)
required-IsRelative false = tt

cleaned-IsRelative :
    (allow_root : Bool) (ss : List String)
    → All IsEntry ss
    → IsRelative allow_root (cleaned_path allow_root ss)
unfolding cleaned_path
cleaned-IsRelative allow_root [] h = required-IsRelative allow_root
cleaned-IsRelative allow_root (s ∷ ss) h = inr (s ∷ ss, refl, refl, h)

-- A path that is accepted is empty, where the root is allowed, or a list of entries' names with slashes
-- between them: no name is empty, `.` or `..`, and none has a slash.
pub normalize_workspace_path-IsRelative :
    (text : String) (allow_root : Bool)
    → IsRelative allow_root (normalize_workspace_path text allow_root)
unfolding normalize_workspace_path clean
normalize_workspace_path-IsRelative text allow_root =
    let raw = with_slashes (trim_space text) in
    let P = IsRelative allow_root in
    if_intro P (has_nul raw) (λ _. tt)
      λ _.
        if_intro P (raw === "" || raw === "." || raw === "/") (λ _. required-IsRelative allow_root)
          λ _.
            if_intro P (any (λ s. s === "..") (segments raw)) (λ _. tt)
              λ _.
                cleaned-IsRelative allow_root (cleaned_in [] (segments raw))
                  (cleaned-IsEntry [] (segments raw) tt (segments-NoSlash raw))
