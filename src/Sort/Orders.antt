-- ===== src/Sort/Orders.antt =====
-- Strict weak orders by a key, and one order after another.
use aiyolo.Base.{
  ◌≡◌, refl, String, Bool, true, false, arith, if◌then◌else◌, ltb, inl, inr, Bool-cases, sym, subst,
}
use aiyolo.Base.Int.{ltb_ℤ}
use aiyolo.Text.{str_lt}
use aiyolo.Text.Order.{str_lt_irrefl, str_lt_trans, str_lt_connex}
use aiyolo.Sort.Laws.{IsStrictWeak}

-- The first order, and where it does not decide, the second.
abbrev pub lex {ℓ} : {A : Type ℓ} → (A → A → Bool) → (A → A → Bool) → A → A → Bool
lex f g a b = if f a b then true else if f b a then false else g a b

pub lex-IsStrictWeak :
    {A : Type 0} (f g : A → A → Bool) → IsStrictWeak f → IsStrictWeak g → IsStrictWeak (lex f g)
lex-IsStrictWeak f g v w = record {
  irrefl = λ a. ground (arith, v.irrefl a, w.irrefl a);
  trans = λ a b c h k. ground (
    arith,
    v.trans a b c,
    v.trans c a b,
    v.trans b c a,
    v.not_trans a c b,
    v.not_trans b a c,
    v.not_trans c b a,
    v.not_trans a b c,
    w.trans a b c,
  );
  not_trans = λ a b c h k. ground (
    arith,
    v.trans c b a,
    v.not_trans a b c,
    v.not_trans b c a,
    v.not_trans c a b,
    v.not_trans c b a,
    v.not_trans b a c,
    v.not_trans a c b,
    w.not_trans a b c,
  );
}

pub on-IsStrictWeak :
    {A B : Type 0} (f : A → B) (less : B → B → Bool)
    → IsStrictWeak less
    → IsStrictWeak (λ a b. less (f a) (f b))
on-IsStrictWeak f less w = record {
  irrefl = λ a. w.irrefl (f a);
  trans = λ a b c. w.trans (f a) (f b) (f c);
  not_trans = λ a b c. w.not_trans (f a) (f b) (f c);
}

-- The reverse order.
pub flip-IsStrictWeak :
    {A : Type 0} (less : A → A → Bool) → IsStrictWeak less → IsStrictWeak (λ a b. less b a)
flip-IsStrictWeak less w = record {
  irrefl = w.irrefl;
  trans = λ a b c h k. w.trans c b a k h;
  not_trans = λ a b c h k. w.not_trans c b a k h;
}

pub ltb-IsStrictWeak : IsStrictWeak ltb
ltb-IsStrictWeak = record {
  irrefl = λ a. ground arith;
  trans = λ a b c h k. ground arith;
  not_trans = λ a b c h k. ground arith;
}

pub ltb_ℤ-IsStrictWeak : IsStrictWeak ltb_ℤ
ltb_ℤ-IsStrictWeak = record {
  irrefl = λ a. ground arith;
  trans = λ a b c h k. ground arith;
  not_trans = λ a b c h k. ground arith;
}

str_lt_not_trans : (a b c : String) → str_lt a b ≡ false → str_lt b c ≡ false → str_lt a c ≡ false
str_lt_not_trans a b c h k = elim (Bool-cases (str_lt b a)) [
  | inl before ↦ elim (Bool-cases (str_lt a c)) [
    | inr done ↦ done
    | inl other ↦ absurd (ground (arith, str_lt_trans b a c before other))
  ]
  | inr same ↦ subst (λ x. str_lt x c ≡ false) (sym (str_lt_connex a b h same)) k
]

pub str_lt-IsStrictWeak : IsStrictWeak str_lt
str_lt-IsStrictWeak = record {
  irrefl = str_lt_irrefl;
  trans = str_lt_trans;
  not_trans = str_lt_not_trans;
}

pub never-IsStrictWeak : {A : Type 0} → IsStrictWeak {A = A} (λ a b. false)
never-IsStrictWeak = record {
  irrefl = λ a. refl;
  trans = λ a b c h k. h;
  not_trans = λ a b c h k. refl;
}
