-- ===== src/Vgd/Distinct.antt =====
-- vgd/vgd.c: the clients have addresses of their own.
use mathlib.Core.Path.{subst}
use viewglob.Base.{
  ℕ, ◌≡◌, refl, sym, ap, ◌∙◌, Bool, true, false, not, ◌&&◌, List, [], ◌∷◌, Option, none, some,
  arith, ◌==◌, if◌then◌else◌, if-cases, Bool-cases, Option-cases, inl, inr,
}
use viewglob.Vgd.{Message, Client, is_some, find_client, change_client}
use viewglob.Vgd.Drop.{remove}
use viewglob.Vgd.Poll.{find_window, find_ready}
use viewglob.Vgd.Lists.{is_member, member_first, member_cons, find_client-change_client}

abbrev pub are_distinct : List Client → Bool
are_distinct [] = true
are_distinct (c ∷ cs) = not (is_member c.address cs) && are_distinct cs

both : (a b : Bool) → a ≡ true → b ≡ true → (a && b) ≡ true
both a b h k = ground arith

first_of : (a b : Bool) → (a && b) ≡ true → a ≡ true
first_of a b h = ground arith

second_of : (a b : Bool) → (a && b) ≡ true → b ≡ true
second_of a b h = ground arith

-- Fewer clients are found.
member-remove :
    (a b : ℕ) (cs : List Client) → is_member b cs ≡ false → is_member b (remove a cs) ≡ false
member-remove a b [] h = refl
member-remove a b (c ∷ cs) h = elim (Bool-cases (c.address == b)) [
  | inl y ↦ cc (h, ap (λ t. is_some (if t then some c else find_client b cs)) y)
  | inr n ↦
      let h' : is_member b cs ≡ false =
        sym (ap (λ t. is_some (if t then some c else find_client b cs)) n) ∙ h in
      if-cases (λ (l : List Client). is_member b l ≡ false) (c.address == a) (λ _. h')
        (λ _.
          ap (λ t. is_some (if t then some c else find_client b (remove a cs))) n
          ∙ member-remove a b cs h')
]

pub distinct-remove :
    (a : ℕ) (cs : List Client) → are_distinct cs ≡ true → are_distinct (remove a cs) ≡ true
distinct-remove a [] h = refl
distinct-remove a (c ∷ cs) h =
    if-cases (λ (l : List Client). are_distinct l ≡ true) (c.address == a) (λ _. second_of _ _ h)
      (λ _.
        both _ _
          (ap not (
            member-remove a c.address cs
              (ground (arith, first_of (not (is_member c.address cs)) (are_distinct cs) h))))
          (distinct-remove a cs (second_of _ _ h)))

member-change_client :
    (a : ℕ) (f : Client → Client)
    → ((c : Client) → (f c).address ≡ c.address)
    → (b : ℕ) (cs : List Client) → is_member b (change_client a f cs) ≡ is_member b cs
member-change_client a f k b cs =
    ap is_some (find_client-change_client a f k b cs) ∙ same (find_client b cs)
  where
    same :
        (o : Option Client)
        → is_some (if b == a then elim o [ none ↦ none | some c ↦ some (f c) ] else o) ≡ is_some o
    same none = if-cases (λ (o : Option Client). is_some o ≡ false) (b == a) (λ _. refl) (λ _. refl)
    same (some c) =
        if-cases (λ (o : Option Client). is_some o ≡ true) (b == a) (λ _. refl) (λ _. refl)

pub distinct-change_client :
    (a : ℕ) (f : Client → Client)
    → ((c : Client) → (f c).address ≡ c.address)
    → (cs : List Client) → are_distinct cs ≡ true
    → are_distinct (change_client a f cs) ≡ true
distinct-change_client a f k [] h = refl
distinct-change_client a f k (c ∷ cs) h =
    if-cases (λ (l : List Client). are_distinct l ≡ true) (c.address == a)
      (λ _. ap (λ b. not (is_member b cs) && are_distinct cs) (k c) ∙ h)
      (λ _.
        both _ _ (ap not (member-change_client a f k c.address cs) ∙ first_of _ _ h)
          (distinct-change_client a f k cs (second_of _ _ h)))

-- A client of the list is the one at its address.
pub data In (v : Client) : List Client → Type 0 where
  first : {cs : List Client} → In v (v ∷ cs)
  later : (c : Client) {cs : List Client} → In v cs → In v (c ∷ cs)

member_of_In : {v : Client} {cs : List Client} → In v cs → is_member v.address cs ≡ true
member_of_In {v} {cs} first = member_first v _
member_of_In {v} (later c i) = member_cons v.address c _ (member_of_In i)

pub find_client-In :
    {v : Client} {cs : List Client}
    → In v cs
    → are_distinct cs ≡ true
    → find_client v.address cs ≡ some v
find_client-In {v} first h =
    if-cases (λ (o : Option Client). o ≡ some v) (v.address == v.address) (λ _. refl)
      (λ n. absurd (ground arith))
find_client-In {v} {cs} (later c {cs = rest} i) h =
    if-cases (λ (o : Option Client). o ≡ some v) (c.address == v.address)
      (λ y.
        absurd (twice c.address v.address rest (ground arith) (first_of _ _ h) (member_of_In i)))
      (λ _. find_client-In i (second_of _ _ h))
  where
    twice :
        (a b : ℕ) (cs : List Client)
        → a ≡ b
        → not (is_member a cs) ≡ true
        → is_member b cs ≡ true
        → ⊥
    twice a b cs e n k = cc (n, ap not (ap (λ x. is_member x cs) e ∙ k))

pub find_window-In :
    (win : ℕ) (cs : List Client) (v : Client) → find_window win cs ≡ some v → In v cs
find_window-In win [] v h = absurd (ground arith)
find_window-In win (c ∷ cs) v h = elim (Bool-cases (win == c.win)) [
  | inl y ↦ subst (λ x. In x (c ∷ cs)) (cc (subst picked y h)) first
  | inr n ↦ later c (find_window-In win cs v (subst picked n h))
]
  where
    picked : Bool → Type 0
    picked t = (if t then some c else find_window win cs) ≡ some v

pub find_ready-In :
    (ready : ℕ → Option (Option Message)) (cs : List Client) (v : Client) (m : Option Message)
    → find_ready ready cs ≡ some (v, m)
    → In v cs
find_ready-In ready [] v m h = absurd (ground arith)
find_ready-In ready (c ∷ cs) v m h = elim (Option-cases (ready c.fd)) [
  | inl n ↦ later c (find_ready-In ready cs v m (subst picked n h))
  | inr (o, y) ↦ subst (λ x. In x (c ∷ cs)) (cc (subst picked y h)) first
]
  where
    picked : Option (Option Message) → Type 0
    picked o = elim o [ none ↦ find_ready ready cs | some m' ↦ some (c, m') ] ≡ some (v, m)
