-- ===== src/ParamIo/Equal.antt =====
-- common/common.h: `STREQ` is equality.
use mathlib.Core.Path.{subst}
use viewglob.Base.{
  ◌≡◌, refl, ap, ◌∙◌, Bool, true, ◌&&◌, [], ◌∷◌, Bytes, arith, ◌==◌, Bool-cases, inl, inr,
}
use viewglob.ParamIo.{streq}

pub streq_self : (s : Bytes) → streq s s ≡ true
streq_self [] = refl
streq_self (a ∷ s) = ground (arith, streq_self s)

pub streq_equal : (s t : Bytes) → streq s t ≡ true → s ≡ t
streq_equal [] [] h = refl
streq_equal [] (b ∷ t) h = cc h
streq_equal (a ∷ s) [] h = cc h
streq_equal (a ∷ s) (b ∷ t) h = elim (Bool-cases (a == b)) [
  | inl y ↦
      let e : a ≡ b = ground arith in
      let k : (true && streq s t) ≡ true = subst (λ (x : Bool). (x && streq s t) ≡ true) y h in
      ap (λ c. c ∷ s) e ∙ ap (λ u. b ∷ u) (streq_equal s t k)
  | inr n ↦ cc (subst (λ (x : Bool). (x && streq s t) ≡ true) n h)
]
