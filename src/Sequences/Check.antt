-- ===== src/Sequences/Check.antt =====
-- vgseer/sequences.c: `check_seqs`, which checks one more character against a group, and
-- `analyze_effect`.
use viewglob.Base.{ℕ, true, false, List, [], ◌∷◌, if◌then◌else◌}
use viewglob.Libs.{Libs}
use viewglob.Actions.{send_cmd, send_pwd}
use viewglob.CmdLine.Edit.{Editor, enqueue, cmd_clear}
use viewglob.Connection.{
  ProcessLevel, at_prompt, executing, at_rprompt, ShellStatus, ss_lost, ss_executing, ss_prompt,
  ms_no_match, join, next_byte,
}
use viewglob.Sequences.Pattern.{
  SeqName, ps1_separator, rprompt_separator_start, rprompt_separator_end, new_pwd, ctrl_g,
  viewglob_all, zsh_completion_done, cmd_wrapped, carriage_return, newline, backspace,
  cursor_forward, cursor_backward, cursor_up, erase_in_line, delete_chars, insert_blanks, bell, seq,
  check_seq,
}
use viewglob.Sequences.State.{
  ShellType, MatchEffect, me_error, me_no_effect, me_cmd_executed, me_cmd_started, me_cmd_rebuild,
  me_pwd_changed, me_rprompt_started, seq_group, write, Seer, set_rebuilding,
}
use viewglob.Sequences.Handlers.{
  seq_new_pwd, seq_zsh_completion_done, seq_cmd_wrapped, seq_backspace, seq_cursor_forward,
  seq_cursor_backward, seq_delete_chars, seq_insert_blanks, seq_erase_in_line, seq_cursor_up,
  seq_carriage_return, seq_newline, seq_pass, seq_ctrl_g,
}
use viewglob.Sequences.Navigation.{seq_viewglob_all}

abbrev level : ProcessLevel → ShellStatus → Seer → Seer
level l t s = record s { conn = record s.conn { pl = l; ss = t } }

abbrev edit : Editor → Seer → Seer
edit e s = record s { editor = e }

abbrev restart : Editor → Editor
restart e = if e.cmd.rebuilding then set_rebuilding false e else cmd_clear e

unfoldable pub analyze_effect : MatchEffect → Seer → Seer
analyze_effect me_error s = level executing ss_lost (edit (cmd_clear s.editor) s)
analyze_effect me_no_effect s = s
analyze_effect me_cmd_executed s = level executing ss_executing s
analyze_effect me_cmd_started s =
    level at_prompt ss_prompt (edit (enqueue send_cmd (restart s.editor)) s)
analyze_effect me_cmd_rebuild s =
    level executing ss_executing (edit (set_rebuilding true s.editor) s)
analyze_effect me_pwd_changed s = edit (enqueue send_pwd s.editor) s
analyze_effect me_rprompt_started s = record s {
  editor = set_rebuilding true s.editor;
  conn = record s.conn { pl = at_rprompt };
}

module _ (libs : Libs) (shell : ShellType) where
  -- the field `func`
  unfoldable pub func : SeqName → Seer → Seer × MatchEffect
  func ps1_separator s = seq_pass me_cmd_started s
  func rprompt_separator_start s = seq_pass me_rprompt_started s
  func rprompt_separator_end s = seq_pass me_cmd_started s
  func new_pwd s = seq_new_pwd s
  func ctrl_g s = seq_ctrl_g s
  func viewglob_all s = seq_viewglob_all s
  func zsh_completion_done s = seq_zsh_completion_done s
  func cmd_wrapped s = seq_cmd_wrapped libs s
  func carriage_return s = seq_carriage_return libs s
  func newline s = seq_newline libs s
  func backspace s = seq_backspace libs s
  func cursor_forward s = seq_cursor_forward libs shell s
  func cursor_backward s = seq_cursor_backward libs s
  func cursor_up s = seq_cursor_up libs s
  func erase_in_line s = seq_erase_in_line libs s
  func delete_chars s = seq_delete_chars libs s
  func insert_blanks s = seq_insert_blanks libs s
  func bell s = seq_pass me_no_effect s

  abbrev pub react : SeqName → Seer → Seer
  react q s = let (t, effect) = func q s in analyze_effect effect t

  -- The state after `check_seq` on the sequence `q`.
  abbrev pub checked : ℕ → SeqName → Seer → Seer
  checked c q s =
      let (st, r) = check_seq c (seq q) (s.store q) in
      record s {
        store = write q st s.store;
        conn = record s.conn { status = join s.conn.status r };
      }

  -- The loop over the group.
  unfoldable pub check_each : ℕ → List SeqName → Seer → Seer
  check_each c [] s = s
  check_each c (q ∷ qs) s =
      let t = checked c q s in if t.conn.status.matched then react q t else check_each c qs t

  unfoldable pub check_seqs : Seer → Seer
  unfolding check_each
  check_seqs s =
      let t = record s { conn = record s.conn { status = ms_no_match } } in
      check_each (next_byte s.conn) (seq_group shell s.conn.pl) t
