-- ===== src/Vgd/Lists.antt =====
-- vgd/vgd.c: the list of clients under the daemon's operations.
use mathlib.Core.Path.{subst}
use viewglob.Base.{
  ℕ, ◌≡◌, refl, sym, ap, ◌∙◌, Bool, true, false, List, [], ◌∷◌, Option, none, some, arith, ◌==◌,
  if◌then◌else◌, if-cases, Bool-cases, Option-cases, inl, inr,
}
use viewglob.Vgd.{Client, is_some, is_empty, find_client, change_client}
use viewglob.Vgd.Drop.{remove}
use viewglob.Vgd.Poll.{find_window, find_ready}
use viewglob.Vgd.{Message}

abbrev pub is_member : ℕ → List Client → Bool
is_member a cs = is_some (find_client a cs)

pub member_nonempty : (a : ℕ) (cs : List Client) → is_member a cs ≡ true → is_empty cs ≡ false
member_nonempty a [] h = sym h
member_nonempty a (c ∷ cs) h = refl

pub member_cons :
    (a : ℕ) (c : Client) (cs : List Client) → is_member a cs ≡ true → is_member a (c ∷ cs) ≡ true
member_cons a c cs h =
    if-cases (λ (o : Option Client). is_some o ≡ true) (c.address == a) (λ _. refl) (λ _. h)

pub member_first : (c : Client) (cs : List Client) → is_member c.address (c ∷ cs) ≡ true
member_first c cs =
    if-cases (λ (o : Option Client). is_some o ≡ true) (c.address == c.address) (λ _. refl)
      (λ n. absurd (ground arith))

if_true {ℓ} : {A : Type ℓ} {b : Bool} (x y : A) → b ≡ true → (if b then x else y) ≡ x
if_true x y h = rw h refl

if_false {ℓ} : {A : Type ℓ} {b : Bool} (x y : A) → b ≡ false → (if b then x else y) ≡ y
if_false x y h = rw h refl

-- Another client is found as before.
pub find_client-remove :
    (a b : ℕ) (cs : List Client) → (b == a) ≡ false → find_client b (remove a cs) ≡ find_client b cs
find_client-remove a b [] h = refl
find_client-remove a b (c ∷ cs) h = elim (Bool-cases (c.address == a)) [
  | inl y ↦ rw y (
      if-cases (λ (o : Option Client). find_client b cs ≡ o) (c.address == b)
        (λ k. absurd (ground arith)) (λ _. refl))
  | inr n ↦ rw n (
      ap (λ (o : Option Client). if c.address == b then some c else o)
        (find_client-remove a b cs h))
]

pub find_client-change_client :
    (a : ℕ) (f : Client → Client)
    → ((c : Client) → (f c).address ≡ c.address)
    → (b : ℕ) (cs : List Client)
    → find_client b (change_client a f cs) ≡ (
        if b == a
        then elim (find_client b cs) [ none ↦ none | some c ↦ some (f c) ]
        else find_client b cs)
find_client-change_client a f k b [] = ground arith
find_client-change_client a f k b (c ∷ cs) =
    ground (arith, k c, find_client-change_client a f k b cs)

pub change_client-nonempty :
    (a : ℕ) (f : Client → Client) (cs : List Client) → is_empty (change_client a f cs) ≡ is_empty cs
change_client-nonempty a f [] = refl
change_client-nonempty a f (c ∷ cs) =
    if-cases (λ (l : List Client). is_empty l ≡ false) (c.address == a) (λ _. refl) (λ _. refl)

pub find_window-member :
    (win : ℕ) (cs : List Client) (v : Client)
    → find_window win cs ≡ some v
    → is_member v.address cs ≡ true
find_window-member win [] v h = ground arith
find_window-member win (c ∷ cs) v h = elim (Bool-cases (win == c.win)) [
  | inl y ↦
      let e : c ≡ v = cc (h, if_true (some c) (find_window win cs) y) in
      ap (λ (u : Client). is_member u.address (c ∷ cs)) (sym e) ∙ member_first c cs
  | inr n ↦
      member_cons v.address c cs
        (find_window-member win cs v (sym (if_false (some c) (find_window win cs) n) ∙ h))
]

pub find_ready-member :
    (ready : ℕ → Option (Option Message)) (cs : List Client) (v : Client) (m : Option Message)
    → find_ready ready cs ≡ some (v, m)
    → is_member v.address cs ≡ true
find_ready-member ready [] v m h = ground arith
find_ready-member ready (c ∷ cs) v m h = elim (Option-cases (ready c.fd)) [
  | inl n ↦ member_cons v.address c cs (find_ready-member ready cs v m (subst picked n h))
  | inr (o, y) ↦
      let h' : some (c, o) ≡ some (v, m) = subst picked y h in
      let e : c ≡ v = cc h' in
      ap (λ (u : Client). is_member u.address (c ∷ cs)) (sym e) ∙ member_first c cs
]
  where
    picked : Option (Option Message) → Type 0
    picked o = elim o [ none ↦ find_ready ready cs | some m' ↦ some (c, m') ] ≡ some (v, m)
