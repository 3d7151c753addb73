-- ===== src/Sequences/Pattern.antt =====
-- vgseer/sequences.c: the sequences that are looked for, and the check of one more character
-- against one of them.
use viewglob.Base.{
  ℕ, ◌+◌, Bool, true, false, ◌||◌, [], ◌∷◌, ◌++◌, Bytes, codes, ◌==◌, ltb, length, get_or,
  if◌then◌else◌,
}
use viewglob.Libs.{is_digit}
use viewglob.Connection.{MatchStatus, ms_no_match, ms_in_progress, ms_match}

-- The static sequences, by name.
pub data SeqName : Type 0 where
  ps1_separator rprompt_separator_start rprompt_separator_end new_pwd : SeqName
  ctrl_g viewglob_all zsh_completion_done : SeqName
  cmd_wrapped carriage_return newline backspace cursor_forward cursor_backward cursor_up : SeqName
  erase_in_line delete_chars insert_blanks bell : SeqName

-- The special characters.
abbrev pub digit_c : ℕ
digit_c = 0o26

abbrev pub printable_c : ℕ
printable_c = 0o22

abbrev pub not_lf_cr_c : ℕ
not_lf_cr_c = 0o23

abbrev pub not_lf_c : ℕ
not_lf_c = 0o24

abbrev pub any_c : ℕ
any_c = 0o30

abbrev pub esc : ℕ
esc = 0o33

-- ESC, `[`, and the rest
abbrev csi : Bytes → Bytes
csi rest = esc ∷ b'[' ∷ rest

-- ESC, `[`, a number, and the final character
abbrev numbered : ℕ → Bytes
numbered final = csi (digit_c ∷ final ∷ [])

abbrev rprompt : Bytes
rprompt = csi (codes "0;34m") ++ (csi (codes "0m") ++ (csi (codes "0;31m") ++ csi (codes "0m")))

-- the field `seq`
unfoldable pub seq : SeqName → Bytes
seq ps1_separator =
    csi (codes "0;30m") ++ (csi (codes "0m") ++ (csi (codes "1;37m") ++ csi (codes "0m")))
seq rprompt_separator_start = rprompt
seq rprompt_separator_end = rprompt ++ numbered b'D'
seq new_pwd = esc ∷ b'P' ∷ printable_c ∷ esc ∷ b'\\' ∷ []
seq ctrl_g = 0o7 ∷ []
seq viewglob_all = any_c ∷ []
seq zsh_completion_done =
    csi (codes "0m") ++ (csi (codes "27m") ++ (csi (codes "24m") ++ (b'\r' ∷ numbered b'C')))
seq cmd_wrapped = b' ' ∷ b'\r' ∷ not_lf_cr_c ∷ []
seq carriage_return = b'\r' ∷ not_lf_c ∷ []
seq newline = b'\r' ∷ b'\n' ∷ []
seq backspace = 0o10 ∷ []
seq cursor_forward = numbered b'C'
seq cursor_backward = numbered b'D'
seq cursor_up = numbered b'A'
seq erase_in_line = numbered b'K'
seq delete_chars = numbered b'P'
seq insert_blanks = numbered b'@'
seq bell = 0o7 ∷ []

-- What changes of a `Sequence`.
pub record SeqState : Type 0 where
  pub pos : ℕ
  pub enabled : Bool

-- `disable_seq`
abbrev pub disabled : SeqState
disabled = record { pos = 0; enabled = false }

-- iscntrl in the C locale
abbrev pub is_cntrl : ℕ → Bool
is_cntrl c = ltb c b' ' || c == 127

-- The end of `check_seq`, with the position that the sequence has then.
abbrev pub arrive : Bytes → ℕ → SeqState × MatchStatus
arrive s p =
    if p == length s
    then (record { pos = 0; enabled = true }, ms_match)
    else (record { pos = p; enabled = true }, ms_in_progress)

abbrev pub mismatch : SeqState × MatchStatus
mismatch = (disabled, ms_no_match)

-- The cases `DIGIT_C` and `PRINTABLE_C`: any number of characters, and then the next one.
abbrev pub run_of : Bool → Bytes → ℕ → ℕ → SeqState × MatchStatus
run_of more s p c =
    if more
    then (record { pos = p; enabled = true }, ms_in_progress)
    else if get_or s (p + 1) 0 == c
    then arrive s (p + 2)
    else mismatch

-- The `switch`, for an enabled sequence at the position `p`, whose character there is `x`.
abbrev pub check_at : ℕ → Bytes → ℕ → ℕ → SeqState × MatchStatus
check_at x s p c =
    if x == any_c
    then arrive s (p + 1)
    else if x == digit_c
    then run_of (is_digit c) s p c
    else if x == printable_c
    then run_of (if is_cntrl c then false else true) s p c
    else if x == not_lf_c
    then (if c == b'\n' then mismatch else arrive s (p + 1))
    else if x == not_lf_cr_c
    then (if c == b'\n' || c == b'\r' then mismatch else arrive s (p + 1))
    else if x == c
    then arrive s (p + 1)
    else mismatch

-- `check_seq`, for the sequence of characters `s`.
unfoldable pub check_seq : ℕ → Bytes → SeqState → SeqState × MatchStatus
check_seq c s st = if st.enabled then check_at (get_or s st.pos 0) s st.pos c else (st, ms_no_match)
