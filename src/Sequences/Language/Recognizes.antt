-- ===== src/Sequences/Language/Recognizes.antt =====
-- vgseer/sequences.c: feeding characters to `check_seq` recognises the strings of a sequence.
use mathlib.Core.Path.{subst}
use mathlib.Core.Bool.{false≢true}
use viewglob.Base.{
  ℕ, ◌≡◌, ◌↔◌, ◌⊎◌, inl, inr, ==_iff, refl, sym, Bool, true, false, ◌||◌, List, [], ◌∷◌, Option,
  none, some, Bytes, arith, ◌==◌, if◌then◌else◌, length, ◌≤◌,
}
use viewglob.Libs.{is_digit}
use viewglob.Sequences.Pattern.{SeqName, ps1_separator, seq, SeqState, is_cntrl, check_seq}
use viewglob.Sequences.Language.{
  Token, any, not_lf, not_lf_cr, digits, printables, lit, encode, is_chosen, all_chosen, Matches,
  done, any_one, no_newline, no_newline_or_return, one_more_digit, end_digits, one_more_printable,
  end_printables, literally, parts,
}
use viewglob.Sequences.Language.Steps.{deriv, At, Outcome, check_seq-Outcome}

abbrev is_nil : Bytes → Bool
is_nil [] = true
is_nil (_ ∷ _) = false

-- The characters are checked one by one while the match is in progress; it must end with the last.
unfoldable pub recognizes : Bytes → SeqState → Bytes → Bool
recognizes s st [] = false
recognizes s st (c ∷ cs) =
    let out = check_seq c s st in
    let rest = recognizes s out.0 cs in
    if out.1.matched then is_nil cs else if out.1.in_progress then rest else false

abbrev pub fresh : SeqState
fresh = record { pos = 0; enabled = true }

module _ {r r' : List Token} (cs : Bytes) where
  unless : (b : Bool) → (if b then none else some r) ≡ some r' → (b ≡ false) × (r ≡ r')
  unless b e = ground arith

  when : (b : Bool) → (if b then some r else none) ≡ some r' → (b ≡ true) × (r ≡ r')
  when b e = ground arith

  back : r ≡ r' → Matches r' cs → Matches r cs
  back e m = subst (λ z. Matches z cs) (sym e) m

-- A run goes on, or ends at its delimiter.
run_cases :
    (on : List Token) (b : Bool) (d c : ℕ) (r r' : List Token)
    → (if b then some on else if d == c then some r else none) ≡ some r'
    → (b ≡ true) × (on ≡ r') ⊎ (d ≡ c) × (r ≡ r')
run_cases on b d c r r' e = ground arith

printing_cases :
    (on : List Token) (b : Bool) (d c : ℕ) (r r' : List Token)
    → (if b then (if d == c then some r else none) else some on) ≡ some r'
    → (b ≡ false) × (on ≡ r') ⊎ (d ≡ c) × (r ≡ r')
printing_cases on b d c r r' e = ground arith

Matches-deriv :
    (t : Token) (r r' : List Token) (c : ℕ) (cs : Bytes)
    → deriv (t ∷ r) c ≡ some r'
    → Matches r' cs
    → Matches (t ∷ r) (c ∷ cs)
unfolding deriv
Matches-deriv any r r' c cs e m = let p : r ≡ r' = cc in any_one c (back cs p m)
Matches-deriv not_lf r r' c cs e m =
    let (h, p) = unless cs (c == b'\n') e in no_newline c h (back cs p m)
Matches-deriv not_lf_cr r r' c cs e m =
    let (h, p) = unless cs (c == b'\n' || c == b'\r') e in no_newline_or_return c h (back cs p m)
Matches-deriv (digits d) r r' c cs e m = elim (run_cases (digits d ∷ r) (is_digit c) d c r r' e) [
  | inl h ↦ one_more_digit d c h.0 (back cs h.1 m)
  | inr h ↦ end_digits d c h.0 (back cs h.1 m)
]
Matches-deriv (printables d) r r' c cs e m =
    elim (printing_cases (printables d ∷ r) (is_cntrl c) d c r r' e) [
      | inl h ↦ one_more_printable d c h.0 (back cs h.1 m)
      | inr h ↦ end_printables d c h.0 (back cs h.1 m)
    ]
Matches-deriv (lit d) r r' c cs e m =
    let (h, p) = when cs (d == c) e in literally d c ((==_iff d c).0 h) (back cs p m)

deriv-Matches :
    (t : Token) (r : List Token) (c : ℕ) (cs : Bytes)
    → is_chosen t ≡ true
    → Matches (t ∷ r) (c ∷ cs)
    → (r' : List Token) × (deriv (t ∷ r) c ≡ some r') × Matches r' cs
unfolding deriv
deriv-Matches t r c cs w (any_one _ m) = (r, refl, m)
deriv-Matches t r c cs w (no_newline _ h m) = (r, rw h, m)
deriv-Matches t r c cs w (no_newline_or_return _ h m) = (r, rw h, m)
deriv-Matches t r c cs w (one_more_digit d _ h m) = (digits d ∷ r, rw h, m)
deriv-Matches t r c cs w (end_digits d _ h m) = (r, ground arith, m)
deriv-Matches t r c cs w (one_more_printable d _ h m) = (printables d ∷ r, rw h, m)
deriv-Matches t r c cs w (end_printables d _ h m) = (r, ground arith, m)
deriv-Matches t r c cs w (literally d _ h m) = (r, ground arith, m)

all_chosen-deriv :
    (t : Token) (r r' : List Token) (c : ℕ)
    → all_chosen (t ∷ r) ≡ true
    → deriv (t ∷ r) c ≡ some r'
    → all_chosen r' ≡ true
unfolding deriv
all_chosen-deriv any r r' c w e = ground arith
all_chosen-deriv _ r r' c w e = ground arith

length-Matches : {ts : List Token} {s : Bytes} → Matches ts s → length ts ≤ length s
length-Matches done = omega arith
length-Matches (any_one c m) = omega (arith, length-Matches m)
length-Matches (no_newline c h m) = omega (arith, length-Matches m)
length-Matches (no_newline_or_return c h m) = omega (arith, length-Matches m)
length-Matches (one_more_digit d c h m) = omega (arith, length-Matches m)
length-Matches (end_digits d c h m) = omega (arith, length-Matches m)
length-Matches (one_more_printable d c h m) = omega (arith, length-Matches m)
length-Matches (end_printables d c h m) = omega (arith, length-Matches m)
length-Matches (literally d c h m) = omega (arith, length-Matches m)

module _ (s : Bytes) (c : ℕ) (cs : Bytes) (p : ℕ) (t : Token) (r : List Token) where
  -- One more character, by what is left behind it.
  step_sound :
      (o : Option (List Token))
      → deriv (t ∷ r) c ≡ o
      → Outcome s o (check_seq c s (record { pos = p; enabled = true }))
      → recognizes s (record { pos = p; enabled = true }) (c ∷ cs) ≡ true
      → ((p' : ℕ) (t' : Token) (r' : List Token)
          → deriv (t ∷ r) c ≡ some (t' ∷ r')
          → At s p' (t' ∷ r')
          → recognizes s (record { pos = p'; enabled = true }) cs ≡ true
          → Matches (t' ∷ r') cs)
      → Matches (t ∷ r) (c ∷ cs)
  unfolding recognizes
  step_sound none e out h ih = absurd (false≢true (rw out at h))
  step_sound (some []) e out h ih = Matches-deriv t r [] c cs e (empty cs (rw out at h))
    where
      empty : (l : Bytes) → is_nil l ≡ true → Matches [] l
      empty [] h = done
      empty (x ∷ l) h = absurd (false≢true h)
  step_sound (some (t' ∷ r')) e (p', out, a) h ih =
      Matches-deriv t r (t' ∷ r') c cs e (ih p' t' r' e a (rw out at h))

  step_complete :
      (o : Option (List Token)) (r' : List Token)
      → o ≡ some r'
      → Outcome s o (check_seq c s (record { pos = p; enabled = true }))
      → Matches r' cs
      → ((p' : ℕ) (t' : Token) (r'' : List Token)
          → o ≡ some (t' ∷ r'')
          → At s p' (t' ∷ r'')
          → Matches (t' ∷ r'') cs
          → recognizes s (record { pos = p'; enabled = true }) cs ≡ true)
      → recognizes s (record { pos = p; enabled = true }) (c ∷ cs) ≡ true
  unfolding recognizes
  step_complete none r' e out m ih = cc
  step_complete (some []) r' e out m ih = rw out (empty cs (subst (λ z. Matches z cs) (sym e') m))
    where
      e' : [] ≡ r'
      e' = cc

      empty : (l : Bytes) → Matches [] l → is_nil l ≡ true
      empty [] m = refl
      empty (_ ∷ _) m = elim m [ ]
  step_complete (some (t' ∷ r'')) r' e (p', out, a) m ih =
      let e' : t' ∷ r'' ≡ r' = cc in
      rw out (ih p' t' r'' refl a (subst (λ z. Matches z cs) (sym e') m))

module _ (s : Bytes) where
  recognizes-Matches :
      (input : Bytes) (p : ℕ) (t : Token) (r : List Token)
      → all_chosen (t ∷ r) ≡ true
      → At s p (t ∷ r)
      → recognizes s (record { pos = p; enabled = true }) input ≡ true
      → Matches (t ∷ r) input
  unfolding recognizes
  recognizes-Matches [] p t r w a h = absurd (false≢true h)
  recognizes-Matches (c ∷ cs) p t r w a h =
      step_sound s c cs p t r (deriv (t ∷ r) c) refl (check_seq-Outcome c s p t r (ground arith) a)
        h
        (λ p' t' r' e a' h'.
          recognizes-Matches cs p' t' r' (all_chosen-deriv t r (t' ∷ r') c w e) a' h')

  Matches-recognizes :
      (input : Bytes) (p : ℕ) (t : Token) (r : List Token)
      → all_chosen (t ∷ r) ≡ true
      → At s p (t ∷ r)
      → Matches (t ∷ r) input
      → recognizes s (record { pos = p; enabled = true }) input ≡ true
  Matches-recognizes [] p t r w a m = absurd (omega (arith, length-Matches m))
  Matches-recognizes (c ∷ cs) p t r w a m =
      let (r', e, m') = deriv-Matches t r c cs (ground arith) m in
      step_complete s c cs p t r (deriv (t ∷ r) c) r' e
        (check_seq-Outcome c s p t r (ground arith) a) m'
        (λ p' t' r'' e' a' m''.
          Matches-recognizes cs p' t' r'' (all_chosen-deriv t r (t' ∷ r'') c w e') a' m'')

-- The sequence that the program writes is the encoding of its parts, which are well chosen.
seq-encode : (q : SeqName) → seq q ≡ encode (parts q)
unfolding seq parts
seq-encode ps1_separator = refl
seq-encode _ = refl

parts_chosen : (q : SeqName) → all_chosen (parts q) ≡ true
unfolding parts
parts_chosen ps1_separator = refl
parts_chosen _ = refl

parts_cons : (q : SeqName) → (t : Token) × (r : List Token) × (parts q ≡ t ∷ r)
unfolding parts
parts_cons ps1_separator = (_, _, refl)
parts_cons _ = (_, _, refl)

-- For each of the program's sequences: fed one by one to an enabled `check_seq` at its start, the
-- characters give a match at the last and are in progress before, exactly when they are a string of
-- the sequence.
pub check_seq-Matches :
    (q : SeqName) (input : Bytes)
    → (recognizes (seq q) fresh input ≡ true) ↔ Matches (parts q) input
check_seq-Matches q input =
    let (t, r, e) = parts_cons q in
    of_parts t r e (subst (λ z. all_chosen z ≡ true) e (parts_chosen q))
  where
    of_parts :
        (t : Token) (r : List Token)
        → parts q ≡ t ∷ r
        → all_chosen (t ∷ r) ≡ true
        → (recognizes (seq q) fresh input ≡ true) ↔ Matches (parts q) input
    of_parts t r e w =
        let a : At (seq q) 0 (t ∷ r) = record {
          front = [];
          splits = subst (λ z. seq q ≡ encode z) e (seq-encode q);
          place = refl;
        } in
        (
          λ h. subst (λ z. Matches z input) (sym e) (recognizes-Matches (seq q) input 0 t r w a h),
          λ m. Matches-recognizes (seq q) input 0 t r w a (subst (λ z. Matches z input) e m),
        )
