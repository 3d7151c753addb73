-- ===== src/Base/Split.antt =====
-- Lists split at a position: what `take` and `drop` give of a list that was changed there.
use Prim.Native.Nat.{ℕ, zero, suc, ◌+◌, ◌-◌, ◌≤◌, ◌<◌}
use mathlib.Core.Path.{◌≡◌, refl, sym, ◌∙◌, ap}
use mathlib.Core.List.{List, [], ◌∷◌, ◌++◌}
use native.Mathlib.Omega.{arith}
use native.Mathlib.Nat.{suc-add}
use viewglob.Base.Lists.{length, set, take, drop}

module _ {ℓ} {A : Type ℓ} where
  pub drop_nil : (n : ℕ) → drop {A = A} n [] ≡ []
  drop_nil zero = refl
  drop_nil (suc n) = refl

  pub take_nil : (n : ℕ) → take {A = A} n [] ≡ []
  take_nil zero = refl
  take_nil (suc n) = refl

  pub take-of_append : (p : ℕ) (t s : List A) → p ≤ length t → take p (take p t ++ s) ≡ take p t
  take-of_append zero t s h = refl
  take-of_append (suc p) [] s h = absurd (omega arith)
  take-of_append (suc p) (x ∷ t) s h = ap (◌∷◌ x) (take-of_append p t s (omega arith))

  pub drop-of_append : (p : ℕ) (t s : List A) → p ≤ length t → drop p (take p t ++ s) ≡ s
  drop-of_append zero t s h = refl
  drop-of_append (suc p) [] s h = absurd (omega arith)
  drop-of_append (suc p) (x ∷ t) s h = drop-of_append p t s (omega arith)

  pub drop-drop : (a b : ℕ) (t : List A) → drop a (drop b t) ≡ drop (b + a) t
  drop-drop a zero t = ground arith
  drop-drop a (suc b) [] = drop_nil a ∙ sym (drop_nil (suc b + a))
  drop-drop a (suc b) (x ∷ t) = rw suc-add (drop-drop a b t)

  pub take-set :
      (p : ℕ) (t : List A) (c : A) → p < length t → take (suc p) (set t p c) ≡ take p t ++ c ∷ []
  take-set zero [] c h = absurd (omega arith)
  take-set zero (x ∷ t) c h = refl
  take-set (suc p) [] c h = absurd (omega arith)
  take-set (suc p) (x ∷ t) c h = ap (◌∷◌ x) (take-set p t c (omega arith))

  pub drop-set : (p : ℕ) (t : List A) (c : A) → drop (suc p) (set t p c) ≡ drop (suc p) t
  drop-set zero [] c = refl
  drop-set zero (x ∷ t) c = refl
  drop-set (suc p) [] c = refl
  drop-set (suc p) (x ∷ t) c = drop-set p t c

  pub take_all : (t : List A) → take (length t) t ≡ t
  take_all [] = refl
  take_all (x ∷ t) = ap (◌∷◌ x) (take_all t)

  pub drop_all : (t : List A) → drop (length t) t ≡ []
  drop_all [] = refl
  drop_all (x ∷ t) = drop_all t

  pub take-append_all : (t s : List A) → take (length t) (t ++ s) ≡ t
  take-append_all [] s = refl
  take-append_all (x ∷ t) s = ap (◌∷◌ x) (take-append_all t s)

  pub take-append_at : (n : ℕ) (t s : List A) → n ≡ length t → take n (t ++ s) ≡ t
  take-append_at n t s h = rw h (take-append_all t s)

  pub drop-append_at : (n : ℕ) (t s : List A) → n ≡ length t → drop n (t ++ s) ≡ s
  drop-append_at n [] s h = rw h
  drop-append_at zero (x ∷ t) s h = absurd (omega arith)
  drop-append_at (suc n) (x ∷ t) s h = drop-append_at n t s (omega arith)

  pub drop-append_le : (n : ℕ) (t s : List A) → n ≤ length t → drop n (t ++ s) ≡ drop n t ++ s
  drop-append_le zero t s h = refl
  drop-append_le (suc n) [] s h = absurd (omega arith)
  drop-append_le (suc n) (x ∷ t) s h = drop-append_le n t s (omega arith)

  pub drop_end : (n : ℕ) (t : List A) → n ≡ length t → drop n t ≡ []
  drop_end n t h = rw h (drop_all t)

  pub take-add : (a b : ℕ) (t : List A) → take (a + b) t ≡ take a t ++ take b (drop a t)
  take-add zero b t = ground arith
  take-add (suc a) b [] = take_nil (suc a + b) ∙ sym (take_nil b)
  take-add (suc a) b (x ∷ t) = rw suc-add (ap (◌∷◌ x) (take-add a b t))

  pub take-take : (a b : ℕ) (t : List A) → a ≤ b → take a (take b t) ≡ take a t
  take-take zero b t h = refl
  take-take (suc a) zero t h = absurd (omega arith)
  take-take (suc a) (suc b) [] h = refl
  take-take (suc a) (suc b) (x ∷ t) h = ap (◌∷◌ x) (take-take a b t (omega arith))

  pub drop-take : (a b : ℕ) (t : List A) → drop a (take b t) ≡ take (b - a) (drop a t)
  drop-take zero b t = ground arith
  drop-take (suc a) zero t = ground arith
  drop-take (suc a) (suc b) [] = sym (take_nil (suc b - suc a))
  drop-take (suc a) (suc b) (x ∷ t) = ground (arith, drop-take a b t)
