-- ===== src/Tests/Vgseer.antt =====
-- Runs of the models of vgseer.
use viewglob.Base.{ℕ, ◌∷◌, ◌≡◌, refl, Option, none, some, [], ◌++◌, Bytes, codes}
use viewglob.Actions.{action_queue}
use viewglob.CmdLine.Edit.{cmd_overwrite_char, cmd_clear}
use viewglob.CmdLine.Wipe.{cmd_del_trailing_CRs, has_trailing_cr}
use viewglob.Connection.{terminal, executing, connection_init, pass_segment, create_holdover}
use viewglob.Sequences.Pattern.{ps1_separator, seq, check_seq}
use viewglob.Sequences.State.{
  bash, Seer, seq_group, address, write, each, enable_all_seqs, clear_seqs, disable_all_seqs,
}
use viewglob.Sequences.Check.{check_seqs, func, analyze_effect}
use viewglob.Sequences.Handlers.{seq_pass}
use viewglob.Sanitize.{sanitize, sanitize_loop, sanitize_char, switch, finisher, close_quotes}
use viewglob.Sequences.Navigation.{arrow_key, find_key, navs, strneq}
use viewglob.Scan.{scan_sequences, scan_byte}
use viewglob.Tests.Sample.{libs, seer}

abbrev text_of : Option Seer → Bytes
text_of none = []
text_of (some s) = s.editor.cmd.text

-- The prompt, `ls x`, and a backspace.
typed :
    text_of (scan_sequences libs bash 3000 (seer (seq ps1_separator ++ codes "ls x") executing))
    ≡ codes "ls x"
unfolding scan_sequences scan_byte check_seqs func analyze_effect seq_pass seq check_seq seq_group
    address write each enable_all_seqs clear_seqs disable_all_seqs connection_init pass_segment
    create_holdover cmd_overwrite_char cmd_clear cmd_del_trailing_CRs has_trailing_cr action_queue
typed = refl

-- A double quote behind a backslash counts as the end of the quotes, so that a text that is outside
-- of all quotes for the shell is taken to be inside.
escaped_quote : sanitize (codes "\"\\\" \" ;rm x \\\"") ≡ codes "\"\\\" \" ;rm x \\\""
unfolding sanitize sanitize_loop sanitize_char switch finisher close_quotes
escaped_quote = refl

abbrev segment_length : Option Seer → Option ℕ
segment_length none = none
segment_length (some s) = some s.conn.seglen

-- Up is recognised alone, and is not with one more byte behind it.
up_key :
    (segment_length (arrow_key (seer (27 ∷ codes "[A") terminal)) ≡ some 2)
    × (segment_length (arrow_key (seer (27 ∷ codes "[Ax") terminal)) ≡ none)
unfolding arrow_key connection_init find_key navs strneq
up_key = (refl, refl)
