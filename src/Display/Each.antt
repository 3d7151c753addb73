-- ===== src/Display/Each.antt =====
-- What holds of every element of a list of named things, and lists with one more at the end.
use mathlib.Core.Path.{subst}
use viewglob.Base.{
  ◌≡◌, refl, sym, ap, ◌∙◌, Bool, true, false, ◌||◌, List, [], ◌∷◌, ◌++◌, some, Bytes, if◌then◌else◌,
  inl, inr, Bool-cases, map,
}
use viewglob.ParamIo.{streq}
use viewglob.ParamIo.Equal.{streq_self}
use viewglob.Display.Named.{
  find_named, change_named, is_named, AreDistinct, only, or_left, or_right, streq_sym,
}

module _ {A : Type 0} where
  abbrev pub Each : (A → Type 0) → List A → Type 0
  Each P [] = Unit {0}
  Each P (x ∷ xs) = P x × Each P xs

  pub Each-map :
      (P : A → Type 0) (f : A → A) (xs : List A)
      → ((a : A) → P a → P (f a))
      → Each P xs
      → Each P (map f xs)
  Each-map P f [] h e = tt
  Each-map P f (x ∷ xs) h (p, e) = (h x p, Each-map P f xs h e)

  pub Each-only : (P : A → Type 0) (q : A → Bool) (xs : List A) → Each P xs → Each P (only q xs)
  Each-only P q [] e = tt
  Each-only P q (x ∷ xs) (p, e) = elim (Bool-cases (q x)) [
    | inl y ↦ rw y (p, Each-only P q xs e)
    | inr y ↦ rw y (Each-only P q xs e)
  ]

  pub Each-snoc : (P : A → Type 0) (a : A) (xs : List A) → P a → Each P xs → Each P (xs ++ a ∷ [])
  Each-snoc P a [] p e = (p, tt)
  Each-snoc P a (x ∷ xs) p (q, e) = (q, Each-snoc P a xs p e)

module _ {A : Type 0} (name : A → Bytes) where
  pub Each-change :
      (P : A → Type 0) (n : Bytes) (f : A → A) (xs : List A)
      → ((a : A) → P a → P (f a))
      → Each P xs
      → Each P (change_named name n f xs)
  Each-change P n f [] h e = tt
  Each-change P n f (x ∷ xs) h (p, e) = elim (Bool-cases (streq (name x) n)) [
    | inl y ↦ rw y (h x p, e)
    | inr y ↦ rw y (p, Each-change P n f xs h e)
  ]

  pub Each-find :
      (P : A → Type 0) (n : Bytes) (xs : List A) (a : A)
      → Each P xs
      → find_named name n xs ≡ some a
      → P a
  Each-find P n [] a e h = cc h
  Each-find P n (x ∷ xs) a (p, e) h = elim (Bool-cases (streq (name x) n)) [
    | inl y ↦
        subst P (cc (sym (ap (λ (b : Bool). if b then some x else find_named name n xs) y) ∙ h)) p
    | inr y ↦
        Each-find P n xs a e
          (sym (ap (λ (b : Bool). if b then some x else find_named name n xs) y) ∙ h)
  ]

  pub is_named-snoc :
      (n : Bytes) (a : A) (xs : List A)
      → is_named name n (xs ++ a ∷ []) ≡ (is_named name n xs || streq (name a) n)
  is_named-snoc n a [] = last (streq (name a) n)
    where
      last : (b : Bool) → (b || false) ≡ b
      last true = refl
      last false = refl
  is_named-snoc n a (x ∷ xs) =
      ap (λ b. streq (name x) n || b) (is_named-snoc n a xs)
      ∙ moved (streq (name x) n) (is_named name n xs) (streq (name a) n)
    where
      moved : (x y z : Bool) → (x || (y || z)) ≡ ((x || y) || z)
      moved true y z = refl
      moved false y z = refl

  pub AreDistinct-snoc :
      (a : A) (xs : List A)
      → is_named name (name a) xs ≡ false
      → AreDistinct name xs
      → AreDistinct name (xs ++ a ∷ [])
  AreDistinct-snoc a [] h d = (refl, tt)
  AreDistinct-snoc a (x ∷ xs) h (e, d) = (
    is_named-snoc (name x) a xs ∙ rw (e, streq_sym (name x) (name a) (or_left _ _ h)) refl,
    AreDistinct-snoc a xs (or_right _ _ h) d,
  )

  pub find-snoc :
      (a : A) (xs : List A)
      → is_named name (name a) xs ≡ false
      → find_named name (name a) (xs ++ a ∷ []) ≡ some a
  find-snoc a [] h = rw (streq_self (name a)) refl
  find-snoc a (x ∷ xs) h =
      rw (or_left (streq (name x) (name a)) (is_named name (name a) xs) h)
        (find-snoc a xs (or_right _ _ h))

  pub find-some :
      (n : Bytes) (a : A) (xs : List A) → find_named name n xs ≡ some a → is_named name n xs ≡ true
  find-some n a [] h = cc h
  find-some n a (x ∷ xs) h = elim (Bool-cases (streq (name x) n)) [
    | inl y ↦ rw y refl
    | inr y ↦ rw y (
        find-some n a xs
          (sym (ap (λ (b : Bool). if b then some x else find_named name n xs) y) ∙ h))
  ]
