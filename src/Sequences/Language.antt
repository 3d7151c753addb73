-- ===== src/Sequences/Language.antt =====
-- vgseer/sequences.c: the strings that a sequence stands for, apart from how `check_seq` finds them.
pub mod Steps
pub mod Recognizes
use viewglob.Base.{
  ℕ, Bool, true, false, not, ◌&&◌, ◌||◌, List, [], ◌∷◌, ◌++◌, ◌≡◌, Bytes, codes, ◌==◌,
}
use viewglob.Libs.{is_digit}
use viewglob.Sequences.Pattern.{
  SeqName, ps1_separator, rprompt_separator_start, rprompt_separator_end, new_pwd, ctrl_g,
  viewglob_all, zsh_completion_done, cmd_wrapped, carriage_return, newline, backspace,
  cursor_forward, cursor_backward, cursor_up, erase_in_line, delete_chars, insert_blanks, bell,
  digit_c, printable_c, not_lf_cr_c, not_lf_c, any_c, esc, is_cntrl,
}

-- One part of a sequence. Digits and printable characters, any number of them, end at a delimiter.
pub data Token : Type 0 where
  any not_lf not_lf_cr : Token
  digits printables lit : ℕ → Token

abbrev pub encode : List Token → Bytes
encode [] = []
encode (any ∷ r) = any_c ∷ encode r
encode (not_lf ∷ r) = not_lf_c ∷ encode r
encode (not_lf_cr ∷ r) = not_lf_cr_c ∷ encode r
encode (digits d ∷ r) = digit_c ∷ d ∷ encode r
encode (printables d ∷ r) = printable_c ∷ d ∷ encode r
encode (lit c ∷ r) = c ∷ encode r

abbrev is_special : ℕ → Bool
is_special c = c == any_c || c == digit_c || c == printable_c || c == not_lf_c || c == not_lf_cr_c

-- What the comment above `check_seq` assumes of a sequence: a delimiter ends the run before it,
-- and an ordinary character is not a special one.
abbrev is_chosen : Token → Bool
is_chosen (digits d) = not (is_digit d)
is_chosen (printables d) = is_cntrl d
is_chosen (lit c) = not (is_special c)
is_chosen _ = true

abbrev pub all_chosen : List Token → Bool
all_chosen [] = true
all_chosen (t ∷ r) = is_chosen t && all_chosen r

abbrev pub AllOf : (ℕ → Bool) → Bytes → Type 0
AllOf p [] = Unit
AllOf p (c ∷ cs) = (p c ≡ true) × AllOf p cs

-- The strings of a list of parts.
pub data Matches : List Token → Bytes → Type 0 where
  done : Matches [] []
  any_one : {r : List Token} {s : Bytes} (c : ℕ) → Matches r s → Matches (any ∷ r) (c ∷ s)
  no_newline :
      {r : List Token} {s : Bytes} (c : ℕ)
      → (c == b'\n') ≡ false
      → Matches r s
      → Matches (not_lf ∷ r) (c ∷ s)
  no_newline_or_return :
      {r : List Token} {s : Bytes} (c : ℕ)
      → (c == b'\n' || c == b'\r') ≡ false
      → Matches r s
      → Matches (not_lf_cr ∷ r) (c ∷ s)
  one_more_digit :
      {r : List Token} {s : Bytes} (d c : ℕ)
      → is_digit c ≡ true
      → Matches (digits d ∷ r) s
      → Matches (digits d ∷ r) (c ∷ s)
  end_digits :
      {r : List Token} {s : Bytes} (d c : ℕ) → d ≡ c → Matches r s → Matches (digits d ∷ r) (c ∷ s)
  one_more_printable :
      {r : List Token} {s : Bytes} (d c : ℕ)
      → is_cntrl c ≡ false
      → Matches (printables d ∷ r) s
      → Matches (printables d ∷ r) (c ∷ s)
  end_printables :
      {r : List Token} {s : Bytes} (d c : ℕ)
      → d ≡ c
      → Matches r s
      → Matches (printables d ∷ r) (c ∷ s)
  literally :
      {r : List Token} {s : Bytes} (d c : ℕ) → d ≡ c → Matches r s → Matches (lit d ∷ r) (c ∷ s)

abbrev lits : Bytes → List Token → List Token
lits [] r = r
lits (c ∷ cs) r = lit c ∷ lits cs r

abbrev csi : Bytes → List Token → List Token
csi s r = lit esc ∷ lit b'[' ∷ lits s r

abbrev numbered : ℕ → List Token
numbered final = lit esc ∷ lit b'[' ∷ digits final ∷ []

abbrev rprompt : List Token → List Token
rprompt r = csi (codes "0;34m") (csi (codes "0m") (csi (codes "0;31m") (csi (codes "0m") r)))

-- The parts of each sequence.
unfoldable pub parts : SeqName → List Token
parts ps1_separator =
    csi (codes "0;30m") (csi (codes "0m") (csi (codes "1;37m") (csi (codes "0m") [])))
parts rprompt_separator_start = rprompt []
parts rprompt_separator_end = rprompt (numbered b'D')
parts new_pwd = lit esc ∷ lit b'P' ∷ printables esc ∷ lit b'\\' ∷ []
parts ctrl_g = lit 0o7 ∷ []
parts viewglob_all = any ∷ []
parts zsh_completion_done =
    csi (codes "0m") (csi (codes "27m") (csi (codes "24m") (lit b'\r' ∷ numbered b'C')))
parts cmd_wrapped = lit b' ' ∷ lit b'\r' ∷ not_lf_cr ∷ []
parts carriage_return = lit b'\r' ∷ not_lf ∷ []
parts newline = lit b'\r' ∷ lit b'\n' ∷ []
parts backspace = lit 0o10 ∷ []
parts cursor_forward = numbered b'C'
parts cursor_backward = numbered b'D'
parts cursor_up = numbered b'A'
parts erase_in_line = numbered b'K'
parts delete_chars = numbered b'P'
parts insert_blanks = numbered b'@'
parts bell = lit 0o7 ∷ []
