-- ===== src/Tests/Laws.antt =====
-- The concrete functions behave as the manuals say.
use mathlib.Core.List.{append_assoc}
use viewglob.Base.{
  lacks, other_first, other_rest, none, ℕ, zero, suc, ◌+◌, ◌-◌, ◌<◌, ◌≤◌, ◌≡◌, refl, ap, ◌∙◌, true,
  false, [], ◌∷◌, ◌++◌, some, Bytes, c_string, arith, ◌==◌, length, length-append, take, drop,
  Bool-cases, inl, inr,
}
use viewglob.Libs.{OccursAt, LibsLaws}
use viewglob.Tests.Sample.{libs, begins, first_in}

begins_self : (n r : Bytes) → begins n (n ++ r) ≡ true
unfolding begins
begins_self [] r = refl
begins_self (x ∷ n) r = ground (arith, begins_self n r)

-- Only what stands in front counts.
begins_front :
    (n t r : Bytes) → length n ≤ length t → begins n (t ++ r) ≡ true → take (length n) t ≡ n
unfolding begins
begins_front [] t r h b = refl
begins_front (x ∷ n) [] r h b = absurd (omega arith)
begins_front (x ∷ n) (y ∷ t) r h b = ground (arith, begins_front n t r)

head_not_nul : (y : ℕ) (l : Bytes) → c_string (y ∷ l) ≡ y ∷ l → (y == 0) ≡ false
head_not_nul zero l h = absurd (omega (arith, ap (λ (s : Bytes). length s) h))
head_not_nul (suc y) l h = ground arith

tail_c_string : (y : ℕ) (l : Bytes) → c_string (y ∷ l) ≡ y ∷ l → c_string l ≡ l
tail_c_string zero l h = absurd (omega (arith, ap (λ (s : Bytes). length s) h))
tail_c_string (suc y) l h = ap (drop 1) h

first_in-front : (n r : Bytes) (len : ℕ) → length n ≤ len → first_in (n ++ r) len n ≡ some 0
unfolding first_in begins
first_in-front [] [] len h = ground arith
first_in-front [] (y ∷ r) len h = ground arith
first_in-front (x ∷ n) r len h = ground (arith, begins_self n r)

-- The text does not begin with the needle.
not_here :
    (t needle r : Bytes)
    → 0 < length t
    → ((i : ℕ) → i < length t → ¬ OccursAt (t ++ needle) needle i)
    → begins needle (t ++ (needle ++ r)) ≡ false
not_here t needle r h o = elim (Bool-cases (begins needle (t ++ (needle ++ r)))) [
  | inl y ↦ absurd (
      o 0 h (
        begins_front needle (t ++ needle) r (omega (arith, length-append t needle))
          (ap (begins needle) (append_assoc t needle r) ∙ y)))
  | inr n ↦ n
]

first_in-first :
    (l needle r : Bytes) (len : ℕ)
    → c_string l ≡ l
    → length l + length needle ≤ len
    → ((i : ℕ) → i < length l → ¬ OccursAt (l ++ needle) needle i)
    → first_in (l ++ (needle ++ r)) len needle ≡ some (length l)
unfolding first_in begins
first_in-first [] needle r len c h o = first_in-front needle r len (omega (arith, h))
first_in-first (y ∷ l) needle r len c h o = ground (
  arith,
  not_here (y ∷ l) needle r (omega arith) o,
  head_not_nul y l c,
  first_in-first l needle r (len - 1) (tail_c_string y l c) (omega (arith, h))
      (λ i k. o (suc i) (omega (arith, k))),
)

pub libs-LibsLaws : LibsLaws libs
unfolding first_in
libs-LibsLaws = record { strstr_len_first = first_in-first }

first_in-absent : (m : ℕ) (p : Bytes) (len : ℕ) → lacks m p ≡ true → first_in p len (m ∷ []) ≡ none
unfolding first_in begins
first_in-absent m [] len h = ground arith
first_in-absent m (y ∷ p) len h =
    ground (arith, other_first m y p h, first_in-absent m p (len - 1) (other_rest m y p h))

pub libs-absent :
    (m : ℕ) (p : Bytes) → lacks m p ≡ true → libs.strstr_len p (length p) (m ∷ []) ≡ none
libs-absent m p h = first_in-absent m p (length p) h
