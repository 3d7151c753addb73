-- ===== src/Sanitize.antt =====
-- vgseer/sanitize.c: the command line as it is given to the sandbox shell, without what could make
-- the shell run or write something.
pub mod Output
pub mod Plain
use viewglob.Base.{
  ℕ, zero, suc, ◌+◌, ◌-◌, Bool, true, false, not, ◌&&◌, ◌||◌, List, [], ◌∷◌, ◌++◌, Option, none,
  some, Bytes, ◌==◌, ltb, length, get_or, take, if◌then◌else◌,
}

-- `enum quote_type`; `QT_DUMMY` is never pushed, and stands here for an empty list.
pub data QuoteType : Type 0 where
  qt_single qt_double qt_extglob_paren : QuoteType

pub record SaneCmd : Type 0 where
  pub last_char_backslash : Bool
  pub last_char_exclamation : Bool
  pub last_char_dollar : Bool
  pub skip_word : Bool
  pub ql : List QuoteType
  pub command : Bytes

abbrev pub empty_cmd : SaneCmd
empty_cmd = record {
  last_char_backslash = false;
  last_char_exclamation = false;
  last_char_dollar = false;
  skip_word = false;
  ql = [];
  command = [];
}

-- After a character the loop goes on, or ends (`i = string->len`).
pub data Next : Type 0 where
  go_on stop : SaneCmd → Next

abbrev pub add_char : ℕ → SaneCmd → SaneCmd
add_char c s = record s { command = s.command ++ c ∷ [] }

unfoldable pub backspace : SaneCmd → SaneCmd
backspace s =
    if ltb 0 (length s.command)
    then record s { command = take (length s.command - 1) s.command }
    else s

last_char : ℕ → SaneCmd → Bool
last_char c s = ltb 0 (length s.command) && get_or s.command (length s.command - 1) 0 == c

abbrev same_type : QuoteType → QuoteType → Bool
same_type qt_single qt_single = true
same_type qt_double qt_double = true
same_type qt_extglob_paren qt_extglob_paren = true
same_type _ _ = false

abbrev top_is : QuoteType → List QuoteType → Bool
top_is qt [] = false
top_is qt (q ∷ qs) = same_type q qt

abbrev pub in_quote : QuoteType → SaneCmd → Bool
in_quote qt s = top_is qt s.ql

abbrev tail : List QuoteType → List QuoteType
tail [] = []
tail (q ∷ qs) = qs

abbrev pub ql_pop : SaneCmd → SaneCmd
ql_pop s = record s { ql = tail s.ql }

abbrev pub ql_push : QuoteType → SaneCmd → SaneCmd
ql_push qt s = record s { ql = qt ∷ s.ql }

-- `while (c != ' ' && ...)`, over as many rounds as there are characters. The `c` is the character
-- at the length of the text.
delete_rounds : ℕ → SaneCmd → SaneCmd
delete_rounds zero s = s
delete_rounds (suc n) s =
    let c = get_or s.command (length s.command) 0 in
    let rest = delete_rounds n (backspace s) in
    if not (c == b' ') && not (c == b'\t') && not (c == b'\n') && ltb 0 (length s.command)
    then rest
    else s

unfoldable pub delete_current_word : SaneCmd → SaneCmd
unfolding delete_rounds
delete_current_word s = delete_rounds (length s.command) s

abbrev escaped : ℕ → SaneCmd → Next
escaped c s = go_on (add_char c (record s { last_char_backslash = false }))

-- What most cases do: the character is taken where `quoted`, or behind a backslash.
abbrev taken_or : Bool → ℕ → SaneCmd → Next → Next
taken_or quoted c s other =
    if quoted then go_on (add_char c s) else if s.last_char_backslash then escaped c s else other

abbrev in_some_quote : SaneCmd → Bool
in_some_quote s = in_quote qt_single s || in_quote qt_double s || in_quote qt_extglob_paren s

single_quote : ℕ → SaneCmd → Next
single_quote c s =
    if in_quote qt_single s
    then go_on (add_char c (ql_pop s))
    else taken_or (in_quote qt_double s) c s (go_on (add_char c (ql_push qt_single s)))

double_quote : ℕ → SaneCmd → Next
double_quote c s =
    if in_quote qt_single s
    then go_on (add_char c s)
    else if in_quote qt_double s
    then go_on (add_char c (ql_pop s))
    else if s.last_char_backslash
    then escaped c s
    else go_on (add_char c (ql_push qt_double s))

backslash : ℕ → SaneCmd → Next
backslash c s =
    taken_or (in_quote qt_single s || in_quote qt_double s) c s
      (go_on (add_char c (record s { last_char_backslash = true })))

dollar : ℕ → SaneCmd → Next
dollar c s =
    taken_or (in_quote qt_single s) c s (go_on (add_char c (record s { last_char_dollar = true })))

exclamation : ℕ → SaneCmd → Next
exclamation c s =
    if in_quote qt_single s
    then go_on (add_char c s)
    else if in_quote qt_extglob_paren s
    then go_on s
    else if s.last_char_backslash
    then escaped c s
    else go_on (add_char c (record s { last_char_exclamation = true }))

blank : ℕ → SaneCmd → Next
blank c s = go_on (
    add_char c (
      if s.last_char_exclamation
      then record s { last_char_exclamation = false }
      else if s.last_char_backslash
      then record s { last_char_backslash = false }
      else if s.skip_word
      then record s { skip_word = false }
      else s))

open_paren : ℕ → SaneCmd → Next
unfolding backspace last_char
open_paren c s =
    let t = record s { last_char_exclamation = false } in
    taken_or (in_quote qt_single s) c s (
      if s.last_char_exclamation
      then (if in_quote qt_double s
          then stop (record (backspace s) { last_char_exclamation = false })
          else go_on (add_char c (ql_push qt_extglob_paren t)))
      else if in_quote qt_double s
      then go_on (add_char c s)
      else if last_char b'?' s || last_char b'*' s || last_char b'+' s || last_char b'@' s
      then go_on (add_char c (ql_push qt_extglob_paren s))
      else stop s)

close_paren : ℕ → SaneCmd → Next
close_paren c s =
    taken_or (in_quote qt_single s || in_quote qt_double s) c s
      (if in_quote qt_extglob_paren s then go_on (add_char c (ql_pop s)) else go_on s)

backtick : ℕ → SaneCmd → Next
backtick c s = taken_or (in_quote qt_single s) c s (stop s)

unfoldable pub finisher : ℕ → SaneCmd → Next
finisher c s = taken_or (in_some_quote s) c s (stop s)

redirection : ℕ → SaneCmd → Next
unfolding delete_current_word
redirection c s = taken_or (in_some_quote s) c s (stop (delete_current_word s))

-- the `switch`
unfoldable pub switch : ℕ → SaneCmd → Next
unfolding single_quote double_quote backslash dollar exclamation blank open_paren close_paren
    backtick finisher redirection
switch c s =
    if c == 0o47
    then single_quote c s
    else if c == b'"'
    then double_quote c s
    else if c == b'\\'
    then backslash c s
    else if c == b'$'
    then dollar c s
    else if c == b'!'
    then exclamation c s
    else if c == b' ' || c == b'\t'
    then blank c s
    else if c == b'('
    then open_paren c s
    else if c == b')'
    then close_paren c s
    else if c == b'`'
    then backtick c s
    else if c == b';' || c == b'&' || c == b'|'
    then finisher c s
    else if c == b'\r' || c == b'\n'
    then go_on s
    else if c == b'>' || c == b'<'
    then redirection c s
    else go_on (add_char c (record s { last_char_backslash = false }))

-- `if (s.skip_word)`
skip_or_switch : ℕ → SaneCmd → Next
skip_or_switch c s =
    if s.skip_word
    then (if c == b' ' || c == b'\t' then switch c (record s { skip_word = false }) else go_on s)
    else switch c s

-- The body of the loop.
unfoldable pub sanitize_char : ℕ → SaneCmd → Next
unfolding skip_or_switch backspace
sanitize_char c s =
    if s.last_char_exclamation
    then (if not (c == b'(') && not (c == b' ') && not (c == b'\t') && not (c == b'\n')
        then go_on (backspace (record s { skip_word = true; last_char_exclamation = false }))
        else skip_or_switch c s)
    else if s.last_char_dollar
    then (if not (c == b' ') && not (c == b'\t') && not (c == b'\n')
        then stop (record (backspace s) { last_char_dollar = false })
        else skip_or_switch c (record s { last_char_dollar = false }))
    else skip_or_switch c s

unfoldable pub sanitize_loop : Bytes → SaneCmd → SaneCmd
sanitize_loop [] s = s
sanitize_loop (c ∷ cs) s = elim (sanitize_char c s) [ go_on t ↦ sanitize_loop cs t | stop t ↦ t ]

abbrev closing : QuoteType → ℕ
closing qt_single = 0o47
closing qt_double = b'"'
closing qt_extglob_paren = b')'

-- Close unclosed quotes, from the innermost out.
unfoldable pub close_quotes : List QuoteType → SaneCmd → SaneCmd
unfolding backspace
close_quotes [] s = record s { ql = [] }
close_quotes (qt ∷ qs) s =
    let t =
      if s.last_char_exclamation
      then record (backspace s) { last_char_exclamation = false }
      else s in
    close_quotes qs (add_char (closing qt) t)

abbrev no_trailing_backslash : SaneCmd → SaneCmd
no_trailing_backslash s =
    if s.last_char_backslash then record (backspace s) { last_char_backslash = false } else s

-- What the loop leaves, without a trailing backslash and with its quotes closed.
abbrev pub finished : SaneCmd → Bytes
unfolding close_quotes backspace
finished s = let t = no_trailing_backslash s in (close_quotes t.ql t).command

unfoldable pub sanitize : Bytes → Bytes
unfolding sanitize_loop sanitize_char switch close_quotes backspace
sanitize string = finished (sanitize_loop string empty_cmd)
