-- ===== src/Sanitize/Plain.antt =====
-- vgseer/sanitize.c: a beginning of ordinary characters, and what the first special one does.
use mathlib.Core.Bool.{false≢true}
use mathlib.Core.List.{append_assoc, append-nil}
use viewglob.Base.{
  ℕ, zero, suc, ◌-◌, ◌≡◌, refl, ◌∙◌, sym, ap, Bool, true, false, not, ◌&&◌, ◌||◌, [], ◌∷◌, ◌++◌,
  Bytes, arith, ◌==◌, ◌≤◌, length-take, ltb, length, take, get_or, ◌⊎◌, inl, inr, Bool-cases,
}
use viewglob.Sanitize.{
  SaneCmd, empty_cmd, go_on, stop, backspace, finisher, redirection, delete_rounds,
  delete_current_word, switch, sanitize_char, sanitize_loop, close_quotes, sanitize, finished,
}

-- The characters with a case of their own, but for the blanks.
abbrev is_special : ℕ → Bool
is_special c =
    c == 0o47
    || c == b'"'
    || c == b'\\'
    || c == b'$'
    || c == b'!'
    || c == b'('
    || c == b')'
    || c == b'`'
    || c == b';'
    || c == b'&'
    || c == b'|'
    || c == b'\r'
    || c == b'\n'
    || c == b'>'
    || c == b'<'

abbrev pub all_plain : Bytes → Bool
all_plain [] = true
all_plain (c ∷ cs) = not (is_special c) && all_plain cs

abbrev with_command : Bytes → SaneCmd
with_command t = record empty_cmd { command = t }

sanitize_char_plain :
    (c : ℕ) (t : Bytes)
    → is_special c ≡ false
    → sanitize_char c (with_command t) ≡ go_on (with_command (t ++ c ∷ []))
unfolding sanitize_char switch
sanitize_char_plain c t h = ground arith

&&-both : {a b : Bool} → a && b ≡ true → (a ≡ true) × (b ≡ true)
&&-both {a = true} h = (refl, h)
&&-both {a = false} h = absurd (false≢true h)

not-true : {a : Bool} → not a ≡ true → a ≡ false
not-true {a = true} h = sym h
not-true {a = false} h = refl

sanitize_loop_plain :
    (p t rest : Bytes)
    → all_plain p ≡ true
    → sanitize_loop (p ++ rest) (with_command t) ≡ sanitize_loop rest (with_command (t ++ p))
unfolding sanitize_loop
sanitize_loop_plain [] t rest h = ap (λ u. sanitize_loop rest (with_command u)) (sym (append-nil t))
sanitize_loop_plain (c ∷ cs) t rest h =
    let (hc, hcs) = &&-both h in
    ap (λ n. elim n [ go_on u ↦ sanitize_loop (cs ++ rest) u | stop u ↦ u ])
      (sanitize_char_plain c t (not-true hc))
    ∙ sanitize_loop_plain cs (t ++ c ∷ []) rest hcs
    ∙ ap (λ u. sanitize_loop rest (with_command u)) (append_assoc t (c ∷ []) cs)

-- What ends the command where it stands unquoted.
abbrev ends_command : ℕ → Bool
ends_command c = c == b';' || c == b'&' || c == b'|' || c == b'`'

sanitize_char_end :
    (c : ℕ) (t : Bytes)
    → ends_command c ≡ true
    → sanitize_char c (with_command t) ≡ stop (with_command t)
unfolding sanitize_char switch finisher
sanitize_char_end c t h = ground arith

finished_plain : (t : Bytes) → finished (with_command t) ≡ t
unfolding close_quotes
finished_plain t = refl

-- A command line of ordinary characters comes back as it is.
pub sanitize_plain : (p : Bytes) → all_plain p ≡ true → sanitize p ≡ p
unfolding sanitize sanitize_loop
sanitize_plain p h =
    ap (λ u. sanitize u) (sym (append-nil p))
    ∙ ap (λ u. finished u) (sanitize_loop_plain p [] [] h)
    ∙ finished_plain p

-- A beginning without special characters and then `;`, `&`, `|` or backtick: it and all that follows is cut.
pub sanitize_cuts :
    (p : Bytes) (c : ℕ) (rest : Bytes)
    → all_plain p ≡ true
    → ends_command c ≡ true
    → sanitize (p ++ c ∷ rest) ≡ p
unfolding sanitize sanitize_loop
sanitize_cuts p c rest hp hc =
    ap (λ u. finished u) (sanitize_loop_plain p [] (c ∷ rest) hp)
    ∙ ap (λ n. finished (elim n [ go_on u ↦ sanitize_loop rest u | stop u ↦ u ]))
        (sanitize_char_end c p hc)
    ∙ finished_plain p

get_or-length : (t : Bytes) (d : ℕ) → get_or t (length t) d ≡ d
get_or-length [] d = refl
get_or-length (x ∷ t) d = get_or-length t d

no_length : (t : Bytes) → ltb 0 (length t) ≡ false → t ≡ []
no_length [] h = refl
no_length (x ∷ t) h = ground arith

delete_rounds_all :
    (t : Bytes) (n : ℕ) → length t ≤ n → delete_rounds n (with_command t) ≡ with_command []
unfolding delete_rounds backspace
delete_rounds_all [] zero h = refl
delete_rounds_all (x ∷ t) zero h = ground arith
delete_rounds_all t (suc n) h = elim (Bool-cases (ltb 0 (length t))) [
  | inl y ↦
      rw (get_or-length t 0, y)
        (delete_rounds_all (take (length t - 1) t) n
          (omega (arith, h, length-take (length t - 1) t)))
  | inr y ↦ rw (get_or-length t 0, y) (ap (λ u. with_command u) (no_length t y))
]

sanitize_char_redirection :
    (c : ℕ) (t : Bytes)
    → (c ≡ b'>') ⊎ (c ≡ b'<')
    → sanitize_char c (with_command t) ≡ stop (delete_current_word (with_command t))
unfolding sanitize_char switch redirection
sanitize_char_redirection c t (inl h) = rw h refl
sanitize_char_redirection c t (inr h) = rw h refl

-- A beginning without special characters and then `>` or `<`: nothing is left, not even the words before
-- the one that touches the redirection.
pub sanitize_redirection :
    (p : Bytes) (c : ℕ) (rest : Bytes)
    → all_plain p ≡ true
    → (c ≡ b'>') ⊎ (c ≡ b'<')
    → sanitize (p ++ c ∷ rest) ≡ []
unfolding sanitize sanitize_loop delete_current_word
sanitize_redirection p c rest hp hc =
    ap (λ u. finished u) (sanitize_loop_plain p [] (c ∷ rest) hp)
    ∙ ap (λ n. finished (elim n [ go_on u ↦ sanitize_loop rest u | stop u ↦ u ]))
        (sanitize_char_redirection c p hc)
    ∙ ap (λ u. finished u) (delete_rounds_all p (length p) (omega arith))
    ∙ finished_plain []
