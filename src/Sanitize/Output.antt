-- ===== src/Sanitize/Output.antt =====
-- vgseer/sanitize.c: what holds of the sanitized text, whatever the command line is.
use viewglob.Base.{
  ℕ, zero, suc, ◌+◌, ◌-◌, ◌*◌, ◌≤◌, ◌≡◌, refl, ◌∙◌, Bool, true, false, not, ◌&&◌, ◌||◌, List, [],
  ◌∷◌, ◌++◌, Bytes, arith, ◌==◌, ltb, length, take, if◌then◌else◌, if-cases, length-append,
  length-take, Bool-cases, inl, inr,
}
use viewglob.Sanitize.{
  QuoteType, qt_single, qt_double, qt_extglob_paren, SaneCmd, empty_cmd, Next, go_on, stop,
  add_char, backspace, delete_rounds, single_quote, double_quote, backslash, dollar, exclamation,
  blank, open_paren, close_paren, backtick, finisher, redirection, switch, skip_or_switch,
  sanitize_char, sanitize_loop, closing, close_quotes, no_trailing_backslash, sanitize,
}

abbrev pub is_inline : ℕ → Bool
is_inline c = not (c == b'\n') && not (c == b'\r')

-- No byte ends a line.
abbrev pub all_inline : Bytes → Bool
all_inline [] = true
all_inline (c ∷ cs) = is_inline c && all_inline cs

all_inline-concat : (s : Bytes) (c : ℕ) → all_inline (s ++ c ∷ []) ≡ (all_inline s && is_inline c)
all_inline-concat [] c = ground arith
all_inline-concat (x ∷ s) c = ground (arith, all_inline-concat s c)

all_inline-take : (n : ℕ) (s : Bytes) → all_inline s ≡ true → all_inline (take n s) ≡ true
all_inline-take zero s h = refl
all_inline-take (suc n) [] h = refl
all_inline-take (suc n) (x ∷ s) h = ground (arith, all_inline-take n s)

-- The text so far ends no line, and with its open quotes it is at most so long.
pub record Within (n : ℕ) (s : SaneCmd) : Type 0 where
  pub inline : all_inline s.command ≡ true
  pub long : length s.command + length s.ql ≤ n

abbrev NextWithin : ℕ → Next → Type 0
NextWithin n (go_on t) = Within n t
NextWithin n (stop t) = Within n t

backspace-Within : (n : ℕ) (s : SaneCmd) → Within n s → Within n (backspace s)
unfolding backspace
backspace-Within n s w = elim (Bool-cases (ltb 0 (length s.command))) [
  | inl y ↦ rw y (record {
    inline = all_inline-take (length s.command - 1) s.command w.inline;
    long = omega (arith, w.long, length-take (length s.command - 1) s.command);
  })
  | inr y ↦ rw y w
]

delete_rounds-Within : (k n : ℕ) (s : SaneCmd) → Within n s → Within n (delete_rounds k s)
unfolding delete_rounds
delete_rounds-Within zero n s w = w
delete_rounds-Within (suc k) n s w =
    if-cases (Within n) _ (λ _. delete_rounds-Within k n (backspace s) (backspace-Within n s w))
      (λ _. w)

module _ (n c : ℕ) (s : SaneCmd) (p : is_inline c ≡ true) (w : Within n s) where
  more : length (s.command ++ c ∷ []) ≡ length s.command + 1
  more = length-append s.command (c ∷ [])

  added : all_inline (s.command ++ c ∷ []) ≡ true
  added = all_inline-concat s.command c ∙ ground arith

  single_quote-Within : NextWithin (n + 2) (single_quote c s)
  unfolding single_quote
  single_quote-Within = ground (arith, more, added)

  double_quote-Within : NextWithin (n + 2) (double_quote c s)
  unfolding double_quote
  double_quote-Within = ground (arith, more, added)

  backslash-Within : NextWithin (n + 2) (backslash c s)
  unfolding backslash
  backslash-Within = ground (arith, more, added)

  dollar-Within : NextWithin (n + 2) (dollar c s)
  unfolding dollar
  dollar-Within = ground (arith, more, added)

  exclamation-Within : NextWithin (n + 2) (exclamation c s)
  unfolding exclamation
  exclamation-Within = ground (arith, more, added)

  blank-Within : NextWithin (n + 2) (blank c s)
  unfolding blank
  blank-Within = ground (arith, more, added)

  close_paren-Within : NextWithin (n + 2) (close_paren c s)
  unfolding close_paren
  close_paren-Within = ground (arith, more, added)

  backtick-Within : NextWithin (n + 2) (backtick c s)
  unfolding backtick
  backtick-Within = ground (arith, more, added)

  finisher-Within : NextWithin (n + 2) (finisher c s)
  unfolding finisher
  finisher-Within = ground (arith, more, added)

  open_paren-Within : NextWithin (n + 2) (open_paren c s)
  unfolding open_paren
  open_paren-Within = ground (arith, more, added, backspace-Within n s w)

  redirection-Within : NextWithin (n + 2) (redirection c s)
  unfolding redirection
  redirection-Within = ground (arith, more, added, delete_rounds-Within (length s.command) n s w)

  plain-Within : NextWithin (n + 2) (go_on (add_char c (record s { last_char_backslash = false })))
  plain-Within = record { inline = added; long = omega (arith, more, w.long) }

weaker : (n : ℕ) (s : SaneCmd) → Within n s → Within (n + 2) s
weaker n s w = record { inline = w.inline; long = omega (arith, w.long) }

switch-Within : (n c : ℕ) (s : SaneCmd) → Within n s → NextWithin (n + 2) (switch c s)
unfolding switch
switch-Within n c s w =
    let P : Next → Type 0 = NextWithin (n + 2) in
    if-cases P (c == 0o47) (λ e. single_quote-Within n c s (ground arith) w)
      λ _.
        if-cases P (c == b'"') (λ e. double_quote-Within n c s (ground arith) w)
          λ _.
            if-cases P (c == b'\\') (λ e. backslash-Within n c s (ground arith) w)
              λ _.
                if-cases P (c == b'$') (λ e. dollar-Within n c s (ground arith) w)
                  λ _.
                    if-cases P (c == b'!') (λ e. exclamation-Within n c s (ground arith) w)
                      λ _.
                        if-cases P (c == b' ' || c == b'\t')
                          (λ e. blank-Within n c s (ground arith) w)
                          λ _.
                            if-cases P (c == b'(') (λ e. open_paren-Within n c s (ground arith) w)
                              λ _.
                                if-cases P (c == b')')
                                  (λ e. close_paren-Within n c s (ground arith) w)
                                  λ _.
                                    if-cases P (c == b'`')
                                      (λ e. backtick-Within n c s (ground arith) w)
                                      λ _.
                                        if-cases P (c == b';' || c == b'&' || c == b'|')
                                          (λ e. finisher-Within n c s (ground arith) w)
                                          λ _.
                                            if-cases P (c == b'\r' || c == b'\n')
                                              (λ e. weaker n s w)
                                              λ breaks.
                                                if-cases P (c == b'>' || c == b'<')
                                                  (λ e. redirection-Within n c s (ground arith) w)
                                                  λ _. plain-Within n c s (ground arith) w

skip_or_switch-Within :
    (n c : ℕ) (s : SaneCmd) → Within n s → NextWithin (n + 2) (skip_or_switch c s)
unfolding skip_or_switch
skip_or_switch-Within n c s w =
    if-cases (NextWithin (n + 2)) s.skip_word
      (λ _.
        if-cases (NextWithin (n + 2)) (c == b' ' || c == b'\t')
          (λ _.
            switch-Within n c (record s { skip_word = false })
              (record { inline = w.inline; long = w.long }))
          (λ _. weaker n s w))
      (λ _. switch-Within n c s w)

undollared :
    (n : ℕ) (s : SaneCmd)
    → Within n s
    → Within (n + 2) (record (backspace s) { last_char_dollar = false })
undollared n s w =
    let b = weaker n (backspace s) (backspace-Within n s w) in
    record { inline = b.inline; long = b.long }

sanitize_char-Within : (n c : ℕ) (s : SaneCmd) → Within n s → NextWithin (n + 2) (sanitize_char c s)
unfolding sanitize_char
sanitize_char-Within n c s w =
    if-cases (NextWithin (n + 2)) s.last_char_exclamation
      (λ _.
        if-cases (NextWithin (n + 2))
          (not (c == b'(') && not (c == b' ') && not (c == b'\t') && not (c == b'\n'))
          (λ _. weaker n _ (
            backspace-Within n (record s { skip_word = true; last_char_exclamation = false })
              (record { inline = w.inline; long = w.long })))
          (λ _. skip_or_switch-Within n c s w))
      λ _.
        if-cases (NextWithin (n + 2)) s.last_char_dollar
          (λ _.
            if-cases (NextWithin (n + 2)) (not (c == b' ') && not (c == b'\t') && not (c == b'\n'))
              (λ _. undollared n s w)
              (λ _.
                skip_or_switch-Within n c (record s { last_char_dollar = false })
                  (record { inline = w.inline; long = w.long })))
          (λ _. skip_or_switch-Within n c s w)

sanitize_loop-Within :
    (cs : Bytes) (n : ℕ) (s : SaneCmd)
    → Within n s
    → Within (n + 2 * length cs) (sanitize_loop cs s)
unfolding sanitize_loop
sanitize_loop-Within [] n s w = record { inline = w.inline; long = omega (arith, w.long) }
sanitize_loop-Within (c ∷ cs) n s w =
    after (sanitize_char c s) (sanitize_char-Within n c s w)
      (λ t v. sanitize_loop-Within cs (n + 2) t v)
  where
    after :
        (x : Next)
        → NextWithin (n + 2) x
        → ((t : SaneCmd) → Within (n + 2) t → Within (n + 2 + 2 * length cs) (sanitize_loop cs t))
        → Within (n + 2 * length (c ∷ cs)) (elim x [ go_on t ↦ sanitize_loop cs t | stop t ↦ t ])
    after (go_on t) v ih =
        let r = ih t v in record { inline = r.inline; long = omega (arith, r.long) }
    after (stop t) v ih = record { inline = v.inline; long = omega (arith, v.long) }

closing_inline : (qt : QuoteType) → is_inline (closing qt) ≡ true
closing_inline qt_single = refl
closing_inline qt_double = refl
closing_inline qt_extglob_paren = refl

-- Behind the loop only the text and the quotes that are still to be closed count.
abbrev Closes : ℕ → List QuoteType → SaneCmd → Type 0
Closes n qs s = (all_inline s.command ≡ true) × (length s.command + length qs ≤ n)

unexclaimed :
    (n : ℕ) (qs : List QuoteType) (s : SaneCmd) → Closes n qs s → Closes n qs (backspace s)
unfolding backspace
unexclaimed n qs s (i, l) = elim (Bool-cases (ltb 0 (length s.command))) [
  | inl y ↦ rw y (
    all_inline-take (length s.command - 1) s.command i,
    omega (arith, l, length-take (length s.command - 1) s.command),
  )
  | inr y ↦ rw y (i, l)
]

close_quotes-Closes :
    (qs : List QuoteType) (n : ℕ) (s : SaneCmd)
    → Closes n qs s
    → (all_inline (close_quotes qs s).command ≡ true) × (length (close_quotes qs s).command ≤ n)
unfolding close_quotes
close_quotes-Closes [] n s w = (w.0, omega (arith, w.1))
close_quotes-Closes (qt ∷ qs) n s w = close_quotes-Closes qs n _ (
    closed qt qs n
      (if s.last_char_exclamation
        then record (backspace s) { last_char_exclamation = false }
        else s)
      (if-cases (Closes n (qt ∷ qs)) s.last_char_exclamation (λ _. unexclaimed n (qt ∷ qs) s w)
        (λ _. w)))
  where
    closed :
        (qt : QuoteType) (qs : List QuoteType) (n : ℕ) (t : SaneCmd)
        → Closes n (qt ∷ qs) t
        → Closes n qs (add_char (closing qt) t)
    closed qt qs n t (i, l) = (
      all_inline-concat t.command (closing qt) ∙ ground (arith, closing_inline qt),
      omega (arith, length-append t.command (closing qt ∷ [])),
    )

-- Whatever the command line is, the sanitized text holds no newline and no carriage return, so that
-- the sandbox shell reads it as one line, and it is at most twice as long.
pub sanitize_inline :
    (string : Bytes)
    → (all_inline (sanitize string) ≡ true) × (length (sanitize string) ≤ 2 * length string)
unfolding sanitize
sanitize_inline string =
    let w =
      sanitize_loop-Within string 0 empty_cmd (record { inline = refl; long = omega arith }) in
    let s = sanitize_loop string empty_cmd in
    let t = no_trailing_backslash s in
    let open_quotes : Within (2 * length string) s = record {
      inline = w.inline;
      long = omega (arith, w.long);
    } in
    let b = backspace-Within (2 * length string) s open_quotes in
    close_quotes-Closes t.ql (2 * length string) t (
      if-cases (λ (x : SaneCmd). Closes (2 * length string) x.ql x) s.last_char_backslash
        (λ _. (b.inline, b.long)) (λ _. (open_quotes.inline, open_quotes.long)))
