-- ===== src/Sandbox/Pieces.antt =====
-- vgseer/vgseer.c: readings cut at any place, and the marks in them.
use viewglob.Base.{
  ℕ, zero, suc, ◌+◌, ◌<◌, ◌≡◌, refl, ap, ◌⊎◌, inl, inr, true, List, [], ◌∷◌, ◌++◌, Bytes, c_string,
  length, take, drop, arith, lacks, other_first, other_rest,
}
use native.Mathlib.Nat.{suc-add}
use viewglob.Sandbox.{Chunk, chunk}

-- Readings of some bytes, and others behind them.
abbrev pub chunks : List Bytes → List Chunk → List Chunk
chunks [] more = more
chunks (c ∷ cs) more = chunk c ∷ chunks cs more

-- A mark is in the first part, or the first part is before it.
pub first_part :
    (m : ℕ) (start rest text post : Bytes)
    → start ++ rest ≡ text ++ (m ∷ post)
    → ((p : Bytes) × (start ≡ text ++ (m ∷ p)) × (p ++ rest ≡ post))
      ⊎ ((x : Bytes) × (text ≡ start ++ x) × (rest ≡ x ++ (m ∷ post)))
first_part m [] rest text post h = inr (text, refl, h)
first_part m (a ∷ s) rest [] post h = inl (s, cc h, ap (drop 1) h)
first_part m (a ∷ s) rest (b ∷ t) post h = elim (first_part m s rest t post (ap (drop 1) h)) [
  | inl (p, e, f) ↦ inl (p, cc (h, e), f)
  | inr (x, e, f) ↦ inr (x, cc (h, e), f)
]

pub lacks-OccursAt :
    (m : ℕ) (l r : Bytes) (i : ℕ)
    → lacks m l ≡ true
    → i < length l
    → ¬ (take 1 (drop i (l ++ r)) ≡ m ∷ [])
lacks-OccursAt m [] r i k h e = absurd (omega arith)
lacks-OccursAt m (x ∷ l) r zero k h e =
    let y : x ≡ m = cc e in absurd (ground (arith, other_first m x l k))
lacks-OccursAt m (x ∷ l) r (suc i) k h e =
    lacks-OccursAt m l r i (other_rest m x l k) (omega (arith, h)) e

pub lacks_left : (m : ℕ) (s x : Bytes) → lacks m (s ++ x) ≡ true → lacks m s ≡ true
lacks_left m [] x h = refl
lacks_left m (a ∷ s) x h =
    rw (other_first m a (s ++ x) h) (lacks_left m s x (other_rest m a (s ++ x) h))

pub lacks_right : (m : ℕ) (s x : Bytes) → lacks m (s ++ x) ≡ true → lacks m x ≡ true
lacks_right m [] x h = h
lacks_right m (a ∷ s) x h = lacks_right m s x (other_rest m a (s ++ x) h)

pub lacks-c_string : (l : Bytes) → lacks 0 l ≡ true → c_string l ≡ l
lacks-c_string [] h = refl
lacks-c_string (zero ∷ l) h = cc h
lacks-c_string (suc c ∷ l) h = ap (λ s. suc c ∷ s) (lacks-c_string l (other_rest 0 (suc c) l h))

pub drop_mark : (l p : Bytes) (m : ℕ) → drop (length l + 1) (l ++ (m ∷ p)) ≡ p
drop_mark [] p m = refl
drop_mark (x ∷ l) p m = rw suc-add (drop_mark l p m)
