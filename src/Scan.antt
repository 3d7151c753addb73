-- ===== src/Scan.antt =====
-- vgseer/vgseer.c: `scan_sequences` and `scan_for_newline`, which go through what was read.
pub mod Moves
pub mod Outcomes
pub mod Checks
pub mod Ends
pub mod Rounds
use viewglob.Base.{
  ℕ, zero, suc, ◌+◌, Bool, true, false, not, ◌&&◌, ◌||◌, [], ◌∷◌, Option, none, some, Bytes, ◌==◌,
  ltb, get_or, take, if◌then◌else◌,
}
use viewglob.Libs.{Libs}
use viewglob.Actions.{send_cmd}
use viewglob.CmdLine.Edit.{enqueue, cmd_overwrite_char}
use viewglob.CmdLine.Wipe.{cmd_del_trailing_CRs}
use viewglob.Connection.{
  Connection, ProcessLevel, at_prompt, ms_no_match, is_in_progress, create_holdover,
}
use viewglob.Sequences.State.{ShellType, Seer, enable_all_seqs, disable_all_seqs, clear_seqs}
use viewglob.Sequences.Check.{check_seqs}

abbrev pub is_at_prompt : ProcessLevel → Bool
is_at_prompt at_prompt = true
is_at_prompt _ = false

module _ (libs : Libs) (shell : ShellType) where
  -- The byte at the beginning of the segment goes to the command line.
  abbrev pub type_byte : Seer → Seer
  type_byte s =
      let c = get_or s.conn.buf s.conn.pos 0 in
      record s { editor = enqueue send_cmd (cmd_overwrite_char libs c false s.editor) }

  abbrev pub skip_byte : Seer → Seer
  skip_byte s = record s { conn = record s.conn { pos = s.conn.pos + 1; seglen = 0 } }

  -- What the status of the check asks for.
  unfoldable pub advance : Seer → Seer
  advance s =
      if s.conn.status.matched
      then clear_seqs shell s.conn.pl s
      else if s.conn.status.in_progress
      then record s { conn = record s.conn { seglen = s.conn.seglen + 1 } }
      else if s.conn.status.no_match
      then skip_byte (if is_at_prompt s.conn.pl then type_byte s else s)
      else s

  -- One round of the loop.
  unfoldable pub scan_byte : Seer → Seer
  unfolding advance
  scan_byte s =
      let t = record s { editor = cmd_del_trailing_CRs libs s.editor } in
      let u = if is_in_progress t.conn.status then t else enable_all_seqs shell t.conn.pl t in
      advance (check_seqs libs shell u)

  -- `while (b->pos + b->seglen < b->filled)`; `none` where the rounds do not suffice.
  unfoldable pub scan_loop : ℕ → Seer → Option Seer
  scan_loop zero s = none
  scan_loop (suc fuel) s =
      let rest = scan_loop fuel (scan_byte s) in
      if ltb (s.conn.pos + s.conn.seglen) s.conn.filled then rest else some s

  -- What is left to do at the end of the buffer.
  unfoldable pub end_scan : Seer → Seer
  end_scan s =
      let b = s.conn in
      if not (is_in_progress b.status)
      then s
      else if is_at_prompt b.pl && (b.seglen == 1 && get_or b.buf b.pos 0 == b' ')
      then (let t = disable_all_seqs shell at_prompt s in
          type_byte (record t { conn = record t.conn { status = ms_no_match } }))
      else record s { conn = create_holdover (not (is_at_prompt b.pl)) b }

  unfoldable pub scan_sequences : ℕ → Seer → Option Seer
  unfolding scan_loop end_scan
  scan_sequences fuel s = elim (scan_loop fuel s) [ none ↦ none | some t ↦ some (end_scan t) ]

-- The characters that can break a line.
abbrev pub breaks_line : ℕ → Bool
breaks_line c = c == b'\n' || c == b'\t' || c == 0o3 || c == 0o4 || c == b'\r' || c == 0o17

breaks_some : Bytes → Bool
breaks_some [] = false
breaks_some (c ∷ cs) = if breaks_line c then true else breaks_some cs

unfoldable pub scan_for_newline : Connection → Bool
unfolding breaks_some
scan_for_newline b = breaks_some (take b.filled b.buf)
