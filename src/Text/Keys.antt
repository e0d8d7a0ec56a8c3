-- ===== src/Text/Keys.antt =====
-- The keys `a + "\x00" + b` of the store's two-part maps, and when they tell two pairs apart.
use Prim.Native.Char.{code, nul}
use Prim.Native.String.{◌++◌}
use text.Mathlib.TextLemmas.{nil-append, cons-append, head-eq_of_cons-eq, tail-eq_of_cons-eq}
use mathlib.Core.Path.{ap₂}
use aiyolo.Base.{String, ◌≡◌, ◌≢◌, refl, ap, sym, ◌∙◌}

-- `a + "\x00" + b`.
unfoldable pub join_nul : String → String → String
join_nul a b = a ++ String.◌∷◌ nul b

-- The text has no NUL character.
abbrev pub NoNul : String → Type 0
NoNul String.[] = Unit
NoNul (String.◌∷◌ c s) = (code c ≢ 0) × NoNul s

append_nul_inj :
    (a b c d : String)
    → NoNul a
    → NoNul c
    → a ++ String.◌∷◌ nul b ≡ c ++ String.◌∷◌ nul d
    → (a ≡ c) × (b ≡ d)
append_nul_inj String.[] b String.[] d h k e =
    (refl, tail-eq_of_cons-eq (rw (nil-append, nil-append) at e))
append_nul_inj String.[] b (String.◌∷◌ y c) d h k e =
    absurd (k.0 (ap code (sym (head-eq_of_cons-eq (rw (nil-append, cons-append) at e)))))
append_nul_inj (String.◌∷◌ x a) b String.[] d h k e =
    absurd (h.0 (ap code (head-eq_of_cons-eq (rw (nil-append, cons-append) at e))))
append_nul_inj (String.◌∷◌ x a) b (String.◌∷◌ y c) d h k e =
    let split : String.◌∷◌ x (a ++ String.◌∷◌ nul b) ≡ String.◌∷◌ y (c ++ String.◌∷◌ nul d) =
      sym (cons-append x a _) ∙ e ∙ cons-append y c _ in
    let rest : (a ≡ c) × (b ≡ d) = append_nul_inj a b c d h.1 k.1 (tail-eq_of_cons-eq split) in
    (ap₂ String.◌∷◌ (head-eq_of_cons-eq split) rest.0, rest.1)

-- Where the first parts hold no NUL, the key determines both parts.
pub join_nul_inj :
    (a b c d : String) → NoNul a → NoNul c → join_nul a b ≡ join_nul c d → (a ≡ c) × (b ≡ d)
unfolding join_nul
join_nul_inj a b c d h k e = append_nul_inj a b c d h k e
