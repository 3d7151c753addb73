-- ===== src/Display/Lookups.antt =====
-- Lists of things with names: what is found behind a removal, an insertion or a selection.
use mathlib.Core.Path.{subst}
use viewglob.Base.{
  ℕ, zero, suc, ◌≡◌, refl, sym, ap, ◌∙◌, Bool, false, List, [], ◌∷◌, none, some, Bytes,
  if◌then◌else◌, inl, inr, Bool-cases, map,
}
use viewglob.ParamIo.{streq}
use viewglob.ParamIo.Equal.{streq_self, streq_equal}
use viewglob.Display.WrapBox.{insert_child}
use viewglob.Display.Named.{
  find_named, remove_named, is_named, AreDistinct, only, or_left, or_right, find-absent,
  is_named-insert, streq_other, streq_sym,
}

module _ {A : Type 0} (name : A → Bytes) where
  pub is_named-remove :
      (n m : Bytes) (xs : List A)
      → is_named name m xs ≡ false
      → is_named name m (remove_named name n xs) ≡ false
  is_named-remove n m [] h = refl
  is_named-remove n m (x ∷ xs) h = elim (Bool-cases (streq (name x) n)) [
    | inl y ↦ rw y (or_right _ _ h)
    | inr y ↦
        rw (y, or_left (streq (name x) m) (is_named name m xs) h)
          (is_named-remove n m xs (or_right _ _ h))
  ]

  pub AreDistinct-remove :
      (n : Bytes) (xs : List A) → AreDistinct name xs → AreDistinct name (remove_named name n xs)
  AreDistinct-remove n [] d = tt
  AreDistinct-remove n (x ∷ xs) (a, d) = elim (Bool-cases (streq (name x) n)) [
    | inl y ↦ rw y d
    | inr y ↦ rw y (is_named-remove n (name x) xs a, AreDistinct-remove n xs d)
  ]

  pub is_named-remove_self :
      (n : Bytes) (xs : List A)
      → AreDistinct name xs
      → is_named name n (remove_named name n xs) ≡ false
  is_named-remove_self n [] d = refl
  is_named-remove_self n (x ∷ xs) (a, d) = elim (Bool-cases (streq (name x) n)) [
    | inl y ↦ rw y (subst (λ t. is_named name t xs ≡ false) (streq_equal (name x) n y) a)
    | inr y ↦ rw (y, y) (is_named-remove_self n xs d)
  ]

  pub find-remove_other :
      (n m : Bytes) (xs : List A)
      → streq n m ≡ false
      → find_named name m (remove_named name n xs) ≡ find_named name m xs
  find-remove_other n m [] k = refl
  find-remove_other n m (x ∷ xs) k = elim (Bool-cases (streq (name x) n)) [
    | inl y ↦ rw (y, streq_other (name x) n m y k) refl
    | inr y ↦ rw (y, find-remove_other n m xs k) refl
  ]

  pub AreDistinct-insert :
      (p : ℕ) (a : A) (xs : List A)
      → is_named name (name a) xs ≡ false
      → AreDistinct name xs
      → AreDistinct name (insert_child p a xs)
  AreDistinct-insert zero a xs h d = (h, d)
  AreDistinct-insert (suc p) a [] h d = (refl, tt)
  AreDistinct-insert (suc p) a (x ∷ xs) h (b, d) = (
    is_named-insert name (name x) p a xs ∙ rw (streq_sym (name x) (name a) (or_left _ _ h), b) refl,
    AreDistinct-insert p a xs (or_right _ _ h) d,
  )

  pub find-insert_self :
      (p : ℕ) (a : A) (xs : List A)
      → is_named name (name a) xs ≡ false
      → find_named name (name a) (insert_child p a xs) ≡ some a
  find-insert_self zero a xs h = rw (streq_self (name a)) refl
  find-insert_self (suc p) a [] h = rw (streq_self (name a)) refl
  find-insert_self (suc p) a (x ∷ xs) h =
      rw (or_left (streq (name x) (name a)) (is_named name (name a) xs) h)
        (find-insert_self p a xs (or_right _ _ h))

  pub find-insert_other :
      (m : Bytes) (p : ℕ) (a : A) (xs : List A)
      → streq (name a) m ≡ false
      → find_named name m (insert_child p a xs) ≡ find_named name m xs
  find-insert_other m zero a xs k = rw k refl
  find-insert_other m (suc p) a [] k = rw k refl
  find-insert_other m (suc p) a (x ∷ xs) k = rw (find-insert_other m p a xs k) refl

  pub is_named-only :
      (q : A → Bool) (m : Bytes) (xs : List A)
      → is_named name m xs ≡ false
      → is_named name m (only q xs) ≡ false
  is_named-only q m [] h = refl
  is_named-only q m (x ∷ xs) h = elim (Bool-cases (q x)) [
    | inl y ↦
        rw (y, or_left (streq (name x) m) (is_named name m xs) h)
          (is_named-only q m xs (or_right _ _ h))
    | inr y ↦ rw y (is_named-only q m xs (or_right _ _ h))
  ]

  pub AreDistinct-only :
      (q : A → Bool) (xs : List A) → AreDistinct name xs → AreDistinct name (only q xs)
  AreDistinct-only q [] d = tt
  AreDistinct-only q (x ∷ xs) (a, d) = elim (Bool-cases (q x)) [
    | inl y ↦ rw y (is_named-only q (name x) xs a, AreDistinct-only q xs d)
    | inr y ↦ rw y (AreDistinct-only q xs d)
  ]

  pub find-only :
      (q : A → Bool) (n : Bytes) (xs : List A)
      → AreDistinct name xs
      → find_named name n (only q xs)
        ≡ elim (find_named name n xs) [ none ↦ none | some a ↦ (if q a then some a else none) ]
  find-only q n [] d = refl
  find-only q n (x ∷ xs) (a, d) = elim (Bool-cases (streq (name x) n)) [
    | inl y ↦ elim (Bool-cases (q x)) [
      | inl k ↦ rw (y, k, y) refl
      | inr k ↦
          rw
            (
              y,
              k,
              find-absent name n (only q xs) (
                  is_named-only q n xs
                    (subst (λ t. is_named name t xs ≡ false) (streq_equal (name x) n y) a)),
            )
            refl
    ]
    | inr y ↦ elim (Bool-cases (q x)) [
      | inl k ↦ rw (y, k, y) (find-only q n xs d)
      | inr k ↦ rw (y, k) (find-only q n xs d)
    ]
  ]

  pub is_named-map :
      (f : A → A) (m : Bytes) (xs : List A)
      → ((a : A) → name (f a) ≡ name a)
      → is_named name m (map f xs) ≡ is_named name m xs
  is_named-map f m [] h = refl
  is_named-map f m (x ∷ xs) h = rw (h x, is_named-map f m xs h) refl

  pub AreDistinct-map :
      (f : A → A) (xs : List A)
      → ((a : A) → name (f a) ≡ name a)
      → AreDistinct name xs
      → AreDistinct name (map f xs)
  AreDistinct-map f [] h d = tt
  AreDistinct-map f (x ∷ xs) h (a, d) =
      (rw (h x) (is_named-map f (name x) xs h ∙ a), AreDistinct-map f xs h d)

  pub find-map :
      (f : A → A) (n : Bytes) (xs : List A)
      → ((a : A) → name (f a) ≡ name a)
      → find_named name n (map f xs)
        ≡ elim (find_named name n xs) [ none ↦ none | some a ↦ some (f a) ]
  find-map f n [] h = refl
  find-map f n (x ∷ xs) h = elim (Bool-cases (streq (name x) n)) [
    | inl y ↦ rw (y, h x, y) refl
    | inr y ↦ rw (y, h x, y) (find-map f n xs h)
  ]

  -- Nothing found, and what is found has the name.
  pub find-none :
      (n : Bytes) (xs : List A) → find_named name n xs ≡ none → is_named name n xs ≡ false
  find-none n [] h = refl
  find-none n (x ∷ xs) h = elim (Bool-cases (streq (name x) n)) [
    | inl y ↦ cc (sym (ap (λ (b : Bool). if b then some x else find_named name n xs) y) ∙ h)
    | inr y ↦
        rw y (
          find-none n xs
            (sym (ap (λ (b : Bool). if b then some x else find_named name n xs) y) ∙ h))
  ]

  pub find-name : (n : Bytes) (xs : List A) (a : A) → find_named name n xs ≡ some a → name a ≡ n
  find-name n [] a h = cc h
  find-name n (x ∷ xs) a h = elim (Bool-cases (streq (name x) n)) [
    | inl y ↦
        let e : x ≡ a =
          cc (sym (ap (λ (b : Bool). if b then some x else find_named name n xs) y) ∙ h) in
        sym (ap name e) ∙ streq_equal (name x) n y
    | inr y ↦
        find-name n xs a (sym (ap (λ (b : Bool). if b then some x else find_named name n xs) y) ∙ h)
  ]
