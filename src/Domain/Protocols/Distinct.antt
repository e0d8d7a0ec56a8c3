-- ===== src/Domain/Protocols/Distinct.antt =====
-- The loop `for _, value := range values` that normalises each text, skips empty results and results
-- already in the map `seen`, and collects the rest; several functions of the program are this loop.
use aiyolo.Base.{
  ◌≡◌, ◌≢◌, refl, String, List, [], ◌∷◌, Bool, false, not, ◌&&◌, ◌||◌, ◌===◌, eq_iff, any, All,
  arith, if◌then◌else◌,
}

-- `_, ok := set[value]`
abbrev pub member : String → List String → Bool
member s values = any (λ value. value === s) values

abbrev pub head_or : String → List String → String
head_or d [] = d
head_or d (s ∷ ss) = s

module _ (norm : String → String) where
  unfoldable pub distinct_by : List String → List String → List String
  distinct_by seen [] = []
  distinct_by seen (v ∷ vs) =
      let skipped = distinct_by seen vs in
      let kept = norm v ∷ distinct_by (norm v ∷ seen) vs in
      if norm v === "" || member (norm v) seen then skipped else kept

-- No text occurs twice.
abbrev pub Distinct : List String → Type 0
Distinct [] = Unit
Distinct (s ∷ ss) = (member s ss ≡ false) × Distinct ss

module _ (norm : String → String) where
  -- What the loop collects: the texts not seen before that are the form of some value.
  pub member-distinct_by :
      (s : String) (seen vs : List String)
      → member s (distinct_by norm seen vs)
        ≡ (not (s === "") && not (member s seen) && any (λ v. norm v === s) vs)
  unfolding distinct_by
  member-distinct_by s seen [] = ground arith
  member-distinct_by s seen (v ∷ vs) = ground (
    arith,
    member-distinct_by s seen vs,
    member-distinct_by s (norm v ∷ seen) vs,
    eq_iff (norm v) "",
    eq_iff (norm v) s,
    eq_iff s "",
  )

  pub distinct_by-Distinct : (seen vs : List String) → Distinct (distinct_by norm seen vs)
  unfolding distinct_by
  distinct_by-Distinct seen [] = tt
  distinct_by-Distinct seen (v ∷ vs) = ground (
    arith,
    distinct_by-Distinct seen vs,
    distinct_by-Distinct (norm v ∷ seen) vs,
    member-distinct_by (norm v) (norm v ∷ seen) vs,
    eq_iff (norm v) (norm v),
  )

  -- Each collected text is the form of a value, and not empty.
  abbrev pub IsForm : String → Type 0
  IsForm s = (norm s ≡ s) × (s ≢ "")

  pub distinct_by-IsForm :
      ((s : String) → norm (norm s) ≡ norm s)
      → (seen vs : List String) → All IsForm (distinct_by norm seen vs)
  unfolding distinct_by
  distinct_by-IsForm idem seen [] = tt
  distinct_by-IsForm idem seen (v ∷ vs) = ground (
    arith,
    idem v,
    distinct_by-IsForm idem seen vs,
    distinct_by-IsForm idem (norm v ∷ seen) vs,
    eq_iff (norm v) "",
  )

  -- None of the texts is in `seen`.
  abbrev pub Fresh : List String → List String → Type 0
  Fresh seen vs = All (λ v. member v seen ≡ false) vs

  Fresh-cons :
      (s : String) (seen vs : List String)
      → member s vs ≡ false
      → Fresh seen vs
      → Fresh (s ∷ seen) vs
  Fresh-cons s seen [] h f = tt
  Fresh-cons s seen (v ∷ vs) h f = ground (arith, Fresh-cons s seen vs, eq_iff v s, eq_iff s v)

  -- A list of distinct non-empty normal forms is kept as it is.
  pub distinct_by_of_Distinct :
      (seen vs : List String)
      → Distinct vs
      → All IsForm vs
      → Fresh seen vs
      → distinct_by norm seen vs ≡ vs
  unfolding distinct_by
  distinct_by_of_Distinct seen [] d h f = refl
  distinct_by_of_Distinct seen (v ∷ vs) d h f = ground (
    arith,
    eq_iff v "",
    Fresh-cons v seen vs d.0 f.1,
    distinct_by_of_Distinct (v ∷ seen) vs d.1 h.1,
  )
