-- ===== src/Sequences/Handlers.antt =====
-- vgseer/sequences.c: what a sequence does once it has matched, but for the keys of Viewglob mode.
use viewglob.Base.{
  ℕ, zero, suc, ◌+◌, ◌-◌, Bool, true, false, [], ◌∷◌, Option, none, some, Bytes, c_string, ◌==◌,
  leb, length, drop, get_or, if◌then◌else◌,
}
use viewglob.Base.Int.{ℤ, pos, negsuc, is_zero}
use viewglob.Libs.{Libs, is_digit}
use viewglob.CmdLine.Edit.{
  CmdLine, Editor, with_pos, cmd_overwrite_char, cmd_del_chars, cmd_insert_chars,
}
use viewglob.CmdLine.Wipe.{strchr, cmd_wipe_in_line}
use viewglob.CmdLine.Move.{cmd_forward, cmd_backward}
use viewglob.Connection.{Connection, viewglob_mode}
use viewglob.Sequences.Pattern.{seq, new_pwd, printable_c}
use viewglob.Sequences.State.{
  ShellType, bash, zsh, MatchEffect, me_error, me_no_effect, me_cmd_executed, me_cmd_rebuild,
  me_pwd_changed, me_rprompt_started, Seer, set_pl, set_rebuilding, passing, eating,
}

-- The bytes from the first digit on, among the first `len`.
first_digit : ℕ → Bytes → Option Bytes
first_digit zero s = none
first_digit (suc len) [] = none
first_digit (suc len) (c ∷ cs) = if is_digit c then some (c ∷ cs) else first_digit len cs

-- What stands in front of a delimiter.
unfoldable pub up_to : ℕ → Bytes → Bytes
up_to d [] = []
up_to d (c ∷ cs) = if c == d then [] else c ∷ up_to d cs

unfoldable pub parse_printables : Bytes → Bytes → Option Bytes
unfolding up_to strchr
parse_printables string sequence = elim (strchr sequence printable_c) [
  | none ↦ none
  | some p ↦ some (c_string (up_to (get_or sequence (p + 1) 0) (drop p string)))
]

-- `b->seglen--; pass_segment(b);`: the last character stays to be looked at.
abbrev pub pass_but_last : Connection → Connection
pass_but_last b = record b { pos = b.pos + b.seglen; seglen = 0 }

abbrev passing_but_last : Seer → Editor → Seer
passing_but_last s e = record s { conn = pass_but_last s.conn; editor = e }

abbrev or_error : Bool → MatchEffect
or_error done = if done then me_no_effect else me_error

-- The rounds of a loop up to a signed number.
abbrev rounds : ℤ → ℕ
rounds (pos n) = n
rounds (negsuc n) = 0

abbrev rounds_and_one : ℤ → ℕ
rounds_and_one (pos n) = suc n
rounds_and_one (negsuc n) = 0

unfoldable pub seq_new_pwd : Seer → Seer × MatchEffect
unfolding parse_printables seq
seq_new_pwd s =
    let d = s.editor.cmd in
    let p = parse_printables (drop s.conn.pos s.conn.buf) (seq new_pwd) in
    (eating s (record s.editor { cmd = record d { pwd = p } }), me_pwd_changed)

unfoldable pub seq_zsh_completion_done : Seer → Seer × MatchEffect
seq_zsh_completion_done s = (passing s (set_rebuilding true s.editor), me_no_effect)

module _ (libs : Libs) where
  parse_digits : Bytes → ℕ → ℤ
  unfolding first_digit
  parse_digits string len = elim (first_digit len string) [
    | none ↦ pos 0
    | some digits ↦ libs.atoi digits
  ]

  -- The number in the sequence, as it stands in the buffer.
  unfoldable pub number : Seer → ℤ
  unfolding parse_digits
  number s = parse_digits (drop s.conn.pos s.conn.buf) (s.conn.seglen + 1)

  -- Default is 1.
  abbrev number_or_one : Seer → ℤ
  number_or_one s = let n = number s in if is_zero n then pos 1 else n

  unfoldable pub seq_cmd_wrapped : Seer → Seer × MatchEffect
  seq_cmd_wrapped s =
      if s.editor.cmd.expect_newline
      then (passing_but_last s s.editor, me_cmd_executed)
      else (passing_but_last s (cmd_overwrite_char libs b'\r' false s.editor), me_no_effect)

  unfoldable pub seq_backspace : Seer → Seer × MatchEffect
  seq_backspace s =
      let (e, done) = cmd_backward libs (pos 1) true s.editor in (passing s e, or_error done)

  -- `n - 1`
  abbrev less_one : ℤ → ℤ
  less_one (pos zero) = negsuc 0
  less_one (pos (suc n)) = pos n
  less_one (negsuc n) = negsuc (suc n)

  -- What happens where the cursor cannot go forward.
  abbrev beyond_end : ShellType → ℤ → Seer → Seer × MatchEffect
  beyond_end bash n s = (passing s s.editor, me_cmd_executed)
  beyond_end zsh n s =
      if (cmd_forward libs (less_one n) false s.editor).1
      then (passing s (cmd_overwrite_char libs b' ' false s.editor), me_no_effect)
      else (passing s (set_rebuilding true s.editor), me_rprompt_started)

  unfoldable pub seq_cursor_forward : ShellType → Seer → Seer × MatchEffect
  seq_cursor_forward shell s =
      let n = number_or_one s in
      let (e, done) = cmd_forward libs n true s.editor in
      if done then (passing s e, me_no_effect) else beyond_end shell n s

  unfoldable pub seq_cursor_backward : Seer → Seer × MatchEffect
  seq_cursor_backward s =
      let (e, done) = cmd_backward libs (number_or_one s) true s.editor in
      (passing s e, or_error done)

  unfoldable pub seq_delete_chars : Seer → Seer × MatchEffect
  seq_delete_chars s =
      let (e, done) = cmd_del_chars libs (number_or_one s) s.editor in (passing s e, or_error done)

  unfoldable pub seq_insert_blanks : Seer → Seer × MatchEffect
  seq_insert_blanks s =
      let (e, done) = cmd_insert_chars b' ' (number_or_one s) s.editor in
      (passing s e, or_error done)

  unfoldable pub seq_erase_in_line : Seer → Seer × MatchEffect
  seq_erase_in_line s =
      let (e, done) = cmd_wipe_in_line libs (number s) s.editor in (passing s e, or_error done)

  -- `for (...) pos = g_strrstr_len(...)`, to the ^M so many lines up.
  lines_up : ℕ → Bytes → ℕ → Option ℕ
  lines_up zero t p = some p
  lines_up (suc n) t p = elim (libs.strrstr_len t p (b'\r' ∷ [])) [
    | none ↦ none
    | some q ↦ lines_up n t q
  ]

  abbrev last_cr : CmdLine → Option ℕ
  last_cr d = libs.strrstr_len d.text d.pos (b'\r' ∷ [])

  abbrev next_cr : CmdLine → Option ℕ
  next_cr d = libs.strstr_len (drop d.pos d.text) (length d.text - d.pos) (b'\r' ∷ [])

  -- By the ^M at the beginning of the wanted line: the cursor keeps its distance from the beginning.
  from_beginning : ℤ → CmdLine → Option ℕ
  unfolding lines_up
  from_beginning n d = elim (last_cr d) [
    | none ↦ none
    | some l ↦ elim (lines_up (rounds_and_one n) d.text d.pos) [
      | none ↦ none
      | some p ↦ some (p + (d.pos - l))
    ]
  ]

  -- By the ^M at its end; a position before the text is `none`.
  from_end : ℤ → CmdLine → Option ℕ
  unfolding lines_up
  from_end n d = elim (next_cr d) [
    | none ↦ none
    | some r ↦ elim (lines_up (rounds n) d.text d.pos) [
      | none ↦ none
      | some p ↦ if leb r p then some (p - r) else none
    ]
  ]

  abbrev or_out : Option ℕ → Seer → Seer × MatchEffect
  or_out none s = (passing s (with_pos 0 s.editor), me_cmd_rebuild)
  or_out (some p) s = (passing s (with_pos p s.editor), me_no_effect)

  unfoldable pub seq_cursor_up : Seer → Seer × MatchEffect
  unfolding from_beginning from_end
  seq_cursor_up s =
      let d = s.editor.cmd in
      let n = number_or_one s in
      elim (from_beginning n d) [ none ↦ or_out (from_end n d) s | some p ↦ or_out (some p) s ]

  unfoldable pub seq_carriage_return : Seer → Seer × MatchEffect
  seq_carriage_return s =
      if s.editor.cmd.expect_newline
      then (passing s s.editor, me_cmd_executed)
      else (elim (last_cr s.editor.cmd) [
        | none ↦ (passing_but_last s (with_pos 0 s.editor), me_cmd_rebuild)
        | some p ↦ (passing_but_last s (with_pos (p + 1) s.editor), me_no_effect)
      ])

  unfoldable pub seq_newline : Seer → Seer × MatchEffect
  seq_newline s =
      let d = s.editor.cmd in
      elim (next_cr d) [
        | none ↦ if d.expect_newline then (passing s s.editor, me_cmd_executed) else (
          passing s (cmd_overwrite_char libs b'\r' false (with_pos (length d.text) s.editor)),
          me_no_effect,
        )
        | some k ↦ (passing s (with_pos (d.pos + k + 1) s.editor), me_no_effect)
      ]

-- The handlers that do nothing else.
unfoldable pub seq_pass : MatchEffect → Seer → Seer × MatchEffect
seq_pass effect s = (passing s s.editor, effect)

unfoldable pub seq_ctrl_g : Seer → Seer × MatchEffect
seq_ctrl_g s = (set_pl viewglob_mode (eating s s.editor), me_no_effect)
