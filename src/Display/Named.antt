-- ===== src/Display/Named.antt =====
-- Lists of things that are looked up by their names, as `g_slist_find_custom` does with `strcmp`.
use viewglob.Base.{
  ℕ, zero, suc, ◌≡◌, refl, sym, ap, ◌∙◌, Bool, true, false, ◌||◌, List, [], ◌∷◌, Option, none, some,
  Bytes, if◌then◌else◌, inl, inr, Bool-cases,
}
use viewglob.ParamIo.{streq}
use viewglob.ParamIo.Equal.{streq_self, streq_equal}
use viewglob.Display.WrapBox.{insert_child}

module _ {A : Type 0} (name : A → Bytes) where
  abbrev pub find_named : Bytes → List A → Option A
  find_named n [] = none
  find_named n (a ∷ as') = if streq (name a) n then some a else find_named n as'

  abbrev pub change_named : Bytes → (A → A) → List A → List A
  change_named n f [] = []
  change_named n f (a ∷ as') = if streq (name a) n then f a ∷ as' else a ∷ change_named n f as'

  abbrev pub remove_named : Bytes → List A → List A
  remove_named n [] = []
  remove_named n (a ∷ as') = if streq (name a) n then as' else a ∷ remove_named n as'

  abbrev pub is_named : Bytes → List A → Bool
  is_named n [] = false
  is_named n (a ∷ as') = streq (name a) n || is_named n as'

  -- No two have the same name.
  abbrev pub AreDistinct : List A → Type 0
  AreDistinct [] = Unit {0}
  AreDistinct (a ∷ as') = (is_named (name a) as' ≡ false) × AreDistinct as'

abbrev pub only : {A : Type 0} → (A → Bool) → List A → List A
only p [] = []
only p (a ∷ as') = if p a then a ∷ only p as' else only p as'

pub or_left : (a b : Bool) → (a || b) ≡ false → a ≡ false
or_left true b h = cc h
or_left false b h = refl

pub or_right : (a b : Bool) → (a || b) ≡ false → b ≡ false
or_right true b h = cc h
or_right false b h = h

pub streq_other : (a b c : Bytes) → streq a b ≡ true → streq b c ≡ false → streq a c ≡ false
streq_other a b c h k = ap (λ t. streq t c) (streq_equal a b h) ∙ k

pub streq_sym : (a b : Bytes) → streq a b ≡ false → streq b a ≡ false
streq_sym a b h = elim (Bool-cases (streq b a)) [
  | inl y ↦ cc (sym h ∙ ap (λ t. streq a t) (streq_equal b a y) ∙ streq_self a)
  | inr n ↦ n
]

module _ {A : Type 0} (name : A → Bytes) where
  pub find-absent :
      (n : Bytes) (xs : List A) → is_named name n xs ≡ false → find_named name n xs ≡ none
  find-absent n [] h = refl
  find-absent n (x ∷ xs) h =
      ap (λ (b : Bool). if b then some x else find_named name n xs) (or_left _ _ h)
      ∙ find-absent n xs (or_right _ _ h)

  pub is_named-insert :
      (n : Bytes) (p : ℕ) (a : A) (xs : List A)
      → is_named name n (insert_child p a xs) ≡ (streq (name a) n || is_named name n xs)
  is_named-insert n zero a xs = refl
  is_named-insert n (suc p) a [] = refl
  is_named-insert n (suc p) a (x ∷ xs) =
      ap (λ b. streq (name x) n || b) (is_named-insert n p a xs)
      ∙ swapped (streq (name x) n) (streq (name a) n) (is_named name n xs)
    where
      swapped : (x y z : Bool) → (x || (y || z)) ≡ (y || (x || z))
      swapped true true z = refl
      swapped true false z = refl
      swapped false y z = refl

  pub is_named-change :
      (n : Bytes) (f : A → A) (xs : List A)
      → ((a : A) → name (f a) ≡ name a)
      → (m : Bytes) → is_named name m (change_named name n f xs) ≡ is_named name m xs
  is_named-change n f [] h m = refl
  is_named-change n f (x ∷ xs) h m = elim (Bool-cases (streq (name x) n)) [
    | inl y ↦ rw (y, h x) refl
    | inr y ↦ rw (y, is_named-change n f xs h m) refl
  ]

  pub AreDistinct-change :
      (n : Bytes) (f : A → A) (xs : List A)
      → ((a : A) → name (f a) ≡ name a)
      → AreDistinct name xs
      → AreDistinct name (change_named name n f xs)
  AreDistinct-change n f [] h d = tt
  AreDistinct-change n f (x ∷ xs) h (a, d) = elim (Bool-cases (streq (name x) n)) [
    | inl y ↦ rw (y, h x) (a, d)
    | inr y ↦ rw (y, is_named-change n f xs h (name x)) (a, AreDistinct-change n f xs h d)
  ]

  pub find-change_self :
      (n : Bytes) (f : A → A) (xs : List A)
      → ((a : A) → name (f a) ≡ name a)
      → find_named name n (change_named name n f xs)
        ≡ elim (find_named name n xs) [ none ↦ none | some a ↦ some (f a) ]
  find-change_self n f [] h = refl
  find-change_self n f (x ∷ xs) h = elim (Bool-cases (streq (name x) n)) [
    | inl y ↦ rw (y, h x, y) refl
    | inr y ↦ rw (y, y) (find-change_self n f xs h)
  ]

  pub find-change_other :
      (n m : Bytes) (f : A → A) (xs : List A)
      → ((a : A) → name (f a) ≡ name a)
      → streq n m ≡ false
      → find_named name m (change_named name n f xs) ≡ find_named name m xs
  find-change_other n m f [] h k = refl
  find-change_other n m f (x ∷ xs) h k = elim (Bool-cases (streq (name x) n)) [
    | inl y ↦ rw (y, h x, streq_other (name x) n m y k) refl
    | inr y ↦ rw (y, find-change_other n m f xs h k) refl
  ]
