-- ===== src/Sequences/Language/Steps.antt =====
-- vgseer/sequences.c: one character of `check_seq`, by the parts of the sequence that are left.
use mathlib.Core.List.{append-nil, append_assoc}
use native.Mathlib.Nat.{suc-add}
use viewglob.Base.{
  ℕ, ◌+◌, ◌<◌, ◌≡◌, refl, sym, ap, ◌∙◌, Bool, true, false, List, [], ◌∷◌, ◌++◌, Option, none, some,
  Bytes, arith, ◌==◌, ◌||◌, length, get_or, if◌then◌else◌, length-append,
}
use viewglob.Libs.{is_digit}
use viewglob.Connection.{MatchStatus, ms_no_match, ms_in_progress, ms_match}
use viewglob.Sequences.Pattern.{
  is_cntrl, SeqState, disabled, arrive, mismatch, check_seq, any_c, not_lf_c, not_lf_cr_c, digit_c,
  printable_c,
}
use viewglob.Sequences.Language.{
  Token, any, not_lf, not_lf_cr, digits, printables, lit, encode, is_chosen,
}

-- The parts that are left behind one more character.
unfoldable pub deriv : List Token → ℕ → Option (List Token)
deriv [] c = none
deriv (any ∷ r) c = some r
deriv (not_lf ∷ r) c = if c == b'\n' then none else some r
deriv (not_lf_cr ∷ r) c = if c == b'\n' || c == b'\r' then none else some r
deriv (digits d ∷ r) c = if is_digit c then some (digits d ∷ r) else if d == c then some r else none
deriv (printables d ∷ r) c =
    if is_cntrl c then (if d == c then some r else none) else some (printables d ∷ r)
deriv (lit d ∷ r) c = if d == c then some r else none

-- The position `p` in `s` stands in front of the parts `r`.
pub record At (s : Bytes) (p : ℕ) (r : List Token) : Type 0 where
  pub front : Bytes
  pub splits : s ≡ front ++ encode r
  pub place : p ≡ length front

-- What `check_seq` gives where `r` is left.
abbrev pub Outcome : Bytes → Option (List Token) → SeqState × MatchStatus → Type 0
Outcome s none out = out ≡ (disabled, ms_no_match)
Outcome s (some []) out = out ≡ (record { pos = 0; enabled = true }, ms_match)
Outcome s (some (t ∷ r)) out =
    (p : ℕ) × (out ≡ (record { pos = p; enabled = true }, ms_in_progress)) × At s p (t ∷ r)

get_or-append : (l r : Bytes) (i : ℕ) → get_or (l ++ r) (length l + i) 0 ≡ get_or r i 0
get_or-append [] r i = ground arith
get_or-append (x ∷ l) r i = rw suc-add (get_or-append l r i)

length-encode : (t : Token) (r : List Token) → 0 < length (encode (t ∷ r))
length-encode any r = omega arith
length-encode _ r = omega arith

arrive-Outcome : (s : Bytes) (p : ℕ) (r : List Token) → At s p r → Outcome s (some r) (arrive s p)
arrive-Outcome s p [] a = ground (arith, ap length (a.splits ∙ append-nil a.front), a.place)
arrive-Outcome s p (t ∷ r) a = rw (past s p t r a) (p, refl, a)
  where
    past :
        (s : Bytes) (p : ℕ) (t : Token) (r : List Token) → At s p (t ∷ r) → (p == length s) ≡ false
    past s p t r a = ground (
      arith,
      ap length a.splits,
      length-append a.front (encode (t ∷ r)),
      length-encode t r,
      a.place,
    )

-- What stands at the position, and behind it.
At-here :
    (s : Bytes) (p : ℕ) (t : Token) (r : List Token)
    → At s p (t ∷ r)
    → get_or s p 0 ≡ get_or (encode (t ∷ r)) 0 0
At-here s p t r a = ground (arith, get_or-append a.front (encode (t ∷ r)) 0, a.splits, a.place)

At-behind :
    (s : Bytes) (p : ℕ) (t : Token) (r : List Token)
    → At s p (t ∷ r)
    → get_or s (p + 1) 0 ≡ get_or (encode (t ∷ r)) 1 0
At-behind s p t r a = ground (arith, get_or-append a.front (encode (t ∷ r)) 1, a.splits, a.place)

-- Behind `n` characters `x` of the encoding.
At-after :
    (s : Bytes) (p : ℕ) (x : Bytes) (r r' : List Token)
    → encode r ≡ x ++ encode r'
    → At s p r
    → At s (p + length x) r'
At-after s p x r r' e a = record {
  front = a.front ++ x;
  splits = a.splits ∙ ap (λ z. a.front ++ z) e ∙ sym (append_assoc a.front x (encode r'));
  place = omega (arith, length-append a.front x, a.place);
}

-- The same test decides what is left and what the check gives.
choose :
    (s : Bytes) (b : Bool) (o o' : Option (List Token)) (x x' : SeqState × MatchStatus)
    → Outcome s o x
    → Outcome s o' x'
    → Outcome s (if b then o else o') (if b then x else x')
choose s true o o' x x' h h' = h
choose s false o o' x x' h h' = h'

is_ordinary :
    (d : ℕ)
    → is_chosen (lit d) ≡ true
    → ((d == any_c) ≡ false)
      × ((d == digit_c) ≡ false)
      × ((d == printable_c) ≡ false)
      × ((d == not_lf_c) ≡ false)
      × ((d == not_lf_cr_c) ≡ false)
is_ordinary d h = ground arith

pub check_seq-Outcome :
    (c : ℕ) (s : Bytes) (p : ℕ) (t : Token) (r : List Token)
    → is_chosen t ≡ true
    → At s p (t ∷ r)
    → Outcome s (deriv (t ∷ r) c) (check_seq c s (record { pos = p; enabled = true }))
unfolding check_seq deriv
check_seq-Outcome c s p any r w a =
    rw (At-here s p any r a)
      (arrive-Outcome s (p + 1) r (At-after s p (any_c ∷ []) (any ∷ r) r refl a))
check_seq-Outcome c s p not_lf r w a =
    let next = arrive-Outcome s (p + 1) r (At-after s p (not_lf_c ∷ []) (not_lf ∷ r) r refl a) in
    rw (At-here s p not_lf r a)
      (choose s (c == b'\n') none (some r) mismatch (arrive s (p + 1)) refl next)
check_seq-Outcome c s p not_lf_cr r w a =
    let next =
      arrive-Outcome s (p + 1) r (At-after s p (not_lf_cr_c ∷ []) (not_lf_cr ∷ r) r refl a) in
    rw (At-here s p not_lf_cr r a)
      (choose s (c == b'\n' || c == b'\r') none (some r) mismatch (arrive s (p + 1)) refl next)
check_seq-Outcome c s p (digits d) r w a =
    let next =
      arrive-Outcome s (p + 2) r (At-after s p (digit_c ∷ d ∷ []) (digits d ∷ r) r refl a) in
    rw (At-here s p (digits d) r a, At-behind s p (digits d) r a)
      (choose s (is_digit c) (some (digits d ∷ r)) (if d == c then some r else none)
        (record { pos = p; enabled = true }, ms_in_progress)
        (if d == c then arrive s (p + 2) else mismatch) (p, refl, a)
        (choose s (d == c) (some r) none (arrive s (p + 2)) mismatch next refl))
check_seq-Outcome c s p (printables d) r w a =
    let next =
      arrive-Outcome s (p + 2) r
        (At-after s p (printable_c ∷ d ∷ []) (printables d ∷ r) r refl a) in
    rw (At-here s p (printables d) r a, At-behind s p (printables d) r a)
      (printing (is_cntrl c)
        (choose s (d == c) (some r) none (arrive s (p + 2)) mismatch next refl))
  where
    printing :
        (b : Bool)
        → Outcome s
            (if d == c then some r else none)
            (if d == c then arrive s (p + 2) else mismatch)
        → Outcome s (if b then (if d == c then some r else none) else some (printables d ∷ r)) (
            if (if b then false else true)
            then (record { pos = p; enabled = true }, ms_in_progress)
            else if d == c
            then arrive s (p + 2)
            else mismatch)
    printing true h = h
    printing false h = (p, refl, a)
check_seq-Outcome c s p (lit d) r w a =
    let next = arrive-Outcome s (p + 1) r (At-after s p (d ∷ []) (lit d ∷ r) r refl a) in
    let o = is_ordinary d w in
    rw (At-here s p (lit d) r a) (
      rw (o.0, o.1, o.2, o.3, o.4)
        (choose s (d == c) (some r) none (arrive s (p + 1)) mismatch next refl))
