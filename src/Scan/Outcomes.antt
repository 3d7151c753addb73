-- ===== src/Scan/Outcomes.antt =====
-- vgseer/sequences.c: what one check of a character leaves of a sequence.
use mathlib.Core.Bool.{false≢true}
use viewglob.Base.{
  ℕ, ◌+◌, ◌≡◌, ◌⊎◌, ◌∙◌, sym, inl, inr, refl, Bool, true, false, ◌||◌, Bytes, arith, ◌==◌, if-cases,
  length, get_or, if◌then◌else◌,
}
use viewglob.Connection.{MatchStatus}
use viewglob.Sequences.Pattern.{
  SeqName, cmd_wrapped, carriage_return, seq, SeqState, check_seq, arrive, mismatch, run_of,
  check_at, any_c, digit_c, printable_c, not_lf_c, not_lf_cr_c,
}
use viewglob.Scan.Moves.{leaves_last}

-- A disabled sequence is at its start.
abbrev pub is_live : SeqState → Bool
is_live st = st.enabled || st.pos == 0

-- What a check that does not match leaves: the sequence is enabled or at its start, and it is in
-- progress or at its start.
abbrev Fine : SeqState × MatchStatus → Type 0
Fine (st, r) = (r.matched ≡ true) ⊎ (is_live st ≡ true) × ((r.in_progress || st.pos == 0) ≡ true)

arrive-Fine : (s : Bytes) (p : ℕ) → Fine (arrive s p)
arrive-Fine s p =
    if-cases (λ (o : SeqState × MatchStatus). Fine o) (p == length s) (λ _. inl refl)
      (λ _. inr (refl, refl))

mismatch-Fine : Fine mismatch
mismatch-Fine = inr (refl, refl)

run_of-Fine : (more : Bool) (s : Bytes) (p c : ℕ) → Fine (run_of more s p c)
run_of-Fine true s p c = inr (refl, refl)
run_of-Fine false s p c =
    if-cases (λ (o : SeqState × MatchStatus). Fine o) (get_or s (p + 1) 0 == c)
      (λ _. arrive-Fine s (p + 2)) (λ _. mismatch-Fine)

one-Fine : (b : Bool) (s : Bytes) (p : ℕ) → Fine (if b then arrive s p else mismatch)
one-Fine true s p = arrive-Fine s p
one-Fine false s p = mismatch-Fine

none-Fine : (b : Bool) (s : Bytes) (p : ℕ) → Fine (if b then mismatch else arrive s p)
none-Fine true s p = mismatch-Fine
none-Fine false s p = arrive-Fine s p

choose-Fine :
    (b : Bool) (x y : SeqState × MatchStatus) → Fine x → Fine y → Fine (if b then x else y)
choose-Fine true x y h k = h
choose-Fine false x y h k = k

check_at-Fine : (x : ℕ) (s : Bytes) (p c : ℕ) → Fine (check_at x s p c)
check_at-Fine x s p c = choose-Fine (x == any_c) _ _ (arrive-Fine s (p + 1)) (
    choose-Fine (x == digit_c) _ _ (run_of-Fine _ s p c) (
      choose-Fine (x == printable_c) _ _ (run_of-Fine _ s p c) (
        choose-Fine (x == not_lf_c) _ _ (none-Fine _ s (p + 1))
          (choose-Fine (x == not_lf_cr_c) _ _ (none-Fine _ s (p + 1)) (one-Fine _ s (p + 1))))))

check_seq-Fine : (c : ℕ) (s : Bytes) (st : SeqState) → is_live st ≡ true → Fine (check_seq c s st)
unfolding check_seq
check_seq-Fine c s st h =
    if-cases (λ (o : SeqState × MatchStatus). Fine o) st.enabled
      (λ _. check_at-Fine (get_or s st.pos 0) s st.pos c) (λ e. inr (h, ground arith))

pub check_seq-live :
    (c : ℕ) (s : Bytes) (st : SeqState)
    → is_live st ≡ true
    → (check_seq c s st).1.matched ≡ false
    → (is_live (check_seq c s st).0 ≡ true)
      × (((check_seq c s st).1.in_progress || (check_seq c s st).0.pos == 0) ≡ true)
check_seq-live c s st h m = elim (check_seq-Fine c s st h) [
  | inl y ↦ absurd (false≢true (sym m ∙ y))
  | inr f ↦ f
]

-- One character does not complete a sequence of more.
pub check_seq-longer :
    (c : ℕ) (q : SeqName) (st : SeqState)
    → leaves_last q ≡ true
    → st.pos ≡ 0
    → (check_seq c (seq q) st).1.matched ≡ false
unfolding check_seq seq
check_seq-longer c cmd_wrapped st l z = ground arith
check_seq-longer c carriage_return st l z = ground arith
check_seq-longer c _ st l z = ground arith
