-- ===== src/Sequences/State.antt =====
-- vgseer/sequences.c: the groups of sequences that a process level checks for, and the state that
-- the functions of the file share.
use viewglob.Base.{ℕ, Bool, true, List, [], ◌∷◌, ◌==◌, if◌then◌else◌}
use viewglob.CmdLine.Edit.{CmdLine, Editor}
use viewglob.Connection.{
  ProcessLevel, terminal, at_prompt, executing, at_rprompt, viewglob_mode, Connection, pass_segment,
  eat_segment,
}
use viewglob.Sequences.Pattern.{
  SeqName, ps1_separator, rprompt_separator_start, rprompt_separator_end, new_pwd, ctrl_g,
  viewglob_all, zsh_completion_done, cmd_wrapped, carriage_return, newline, backspace,
  cursor_forward, cursor_backward, cursor_up, erase_in_line, delete_chars, insert_blanks, bell,
  SeqState, disabled,
}

-- `enum shell_type`, for the shells that are supported.
pub data ShellType : Type 0 where
  bash zsh : ShellType

-- `enum _MatchEffect`
pub data MatchEffect : Type 0 where
  me_error me_no_effect me_cmd_executed me_cmd_started me_cmd_rebuild : MatchEffect
  me_pwd_changed me_rprompt_started : MatchEffect

-- `seq_groups`, as `init_seqs` fills it. bash has no group for the level of the RPROMPT: that
-- entry is never initialised, and stands here as an empty group.
unfoldable pub seq_group : ShellType → ProcessLevel → List SeqName
seq_group _ terminal = ctrl_g ∷ []
seq_group _ viewglob_mode = viewglob_all ∷ []
seq_group bash at_prompt =
    ps1_separator ∷ new_pwd ∷ cmd_wrapped ∷ cursor_forward ∷ backspace ∷ erase_in_line
    ∷ delete_chars ∷ insert_blanks ∷ cursor_backward ∷ bell ∷ cursor_up ∷ carriage_return ∷ newline
    ∷ []
seq_group bash executing = ps1_separator ∷ new_pwd ∷ []
seq_group bash at_rprompt = []
seq_group zsh at_prompt =
    ps1_separator ∷ rprompt_separator_start ∷ cmd_wrapped ∷ cursor_forward ∷ backspace
    ∷ erase_in_line ∷ delete_chars ∷ insert_blanks ∷ cursor_backward ∷ bell ∷ cursor_up
    ∷ carriage_return ∷ newline ∷ new_pwd ∷ []
seq_group zsh executing = ps1_separator ∷ rprompt_separator_end ∷ new_pwd ∷ zsh_completion_done ∷ []
seq_group zsh at_rprompt = rprompt_separator_end ∷ []

-- The address of a static sequence.
unfoldable pub address : SeqName → ℕ
address ps1_separator = 0
address rprompt_separator_start = 1
address rprompt_separator_end = 2
address new_pwd = 3
address ctrl_g = 4
address viewglob_all = 5
address zsh_completion_done = 6
address cmd_wrapped = 7
address carriage_return = 8
address newline = 9
address backspace = 10
address cursor_forward = 11
address cursor_backward = 12
address cursor_up = 13
address erase_in_line = 14
address delete_chars = 15
address insert_blanks = 16
address bell = 17

-- The groups share the static sequences, so the states are kept by name.
abbrev pub SeqStore : Type 0
SeqStore = SeqName → SeqState

unfoldable pub write : SeqName → SeqState → SeqStore → SeqStore
write q st store r = if address q == address r then st else store r

-- A change of each sequence of a group.
unfoldable pub each : (SeqState → SeqState) → List SeqName → SeqStore → SeqStore
each f [] store = store
each f (q ∷ qs) store = each f qs (write q (f (store q)) store)

-- A connection, the command line and the actions, the sequences, and the statics of
-- `seq_viewglob_all`.
pub record Seer : Type 0 where
  pub conn : Connection
  pub editor : Editor
  pub store : SeqStore
  pub in_navigation : Bool
  pub in_mask : Bool

unfoldable pub disable_all_seqs : ShellType → ProcessLevel → Seer → Seer
disable_all_seqs sh pl s = record s { store = each (λ _. disabled) (seq_group sh pl) s.store }

unfoldable pub enable_all_seqs : ShellType → ProcessLevel → Seer → Seer
enable_all_seqs sh pl s = record s {
  store = each (λ st. record st { enabled = true }) (seq_group sh pl) s.store;
}

unfoldable pub clear_seqs : ShellType → ProcessLevel → Seer → Seer
clear_seqs sh pl s = record s {
  store = each (λ st. record st { pos = 0 }) (seq_group sh pl) s.store;
}

abbrev pub cmd_of : Seer → CmdLine
cmd_of s = s.editor.cmd

abbrev pub set_pl : ProcessLevel → Seer → Seer
set_pl l s = record s { conn = record s.conn { pl = l } }

abbrev pub set_rebuilding : Bool → Editor → Editor
set_rebuilding r e = record e { cmd = record e.cmd { rebuilding = r } }

-- The segment is passed or eaten, with the editor that a handler leaves.
abbrev pub passing : Seer → Editor → Seer
passing s e = record s { conn = pass_segment s.conn; editor = e }

abbrev pub eating : Seer → Editor → Seer
eating s e = record s { conn = eat_segment s.conn; editor = e }
