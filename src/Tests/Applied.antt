-- ===== src/Tests/Applied.antt =====
-- The theorems about vgseer, each applied to concrete data.
use viewglob.Base.{
  none, ◌≤◌, ◌≡◌, refl, true, false, ◌↔◌, inl, [], ◌∷◌, ◌++◌, codes, arith, length, take, drop,
}
use viewglob.Base.Int.{pos}
use viewglob.Actions.{ActionQueue, no_actions, send_cmd, send_up, toggle, dequeue, action_queue}
use viewglob.Actions.Priority.{
  waiting, Takes, dequeue-Takes, up, action_queue-IsQueued, IsConsistent, action_queue-IsConsistent,
}
use viewglob.CmdLine.Edit.{cmd_overwrite_char, cmd_insert_chars, cmd_del_chars}
use viewglob.CmdLine.Zipper.{
  Shows, cmd_overwrite_char-Shows, cmd_insert_chars-Shows, cmd_del_chars-Deletes, Deletes,
}
use viewglob.Connection.{Connection, connection_init, size, at_prompt, executing, eat_segment}
use viewglob.Connection.Segments.{
  content, eat_segment-content, ComesBack, create_holdover-ComesBack,
}
use viewglob.Sequences.Pattern.{cursor_forward, seq}
use viewglob.Sequences.State.{bash, Seer}
use viewglob.Sequences.Language.{Matches, parts}
use viewglob.Sequences.Language.Recognizes.{recognizes, fresh, check_seq-Matches}
use viewglob.Scan.{scan_byte}
use viewglob.Scan.Ends.{IsSteady, Advances}
use viewglob.Scan.Rounds.{scan_byte-Advances, Ended, scan_loop-Ended}
use viewglob.Sanitize.{sanitize}
use viewglob.Sanitize.Output.{all_inline, sanitize_inline}
use viewglob.Sanitize.Plain.{sanitize_plain, sanitize_cuts, sanitize_redirection}
use viewglob.Escape.{escape_filename}
use viewglob.Escape.Reader.{word, read_line}
use viewglob.Escape.Words.{held, read_line-escape_filename}
use viewglob.Tests.Sample.{libs, editor, seer, reading}

abbrev two_waiting : ActionQueue
two_waiting = record no_actions { send_cmd_flag = true; al = toggle ∷ [] }

dequeue-Takes_example :
    Takes
      (waiting two_waiting)
      (action_queue dequeue two_waiting).1
      (waiting (action_queue dequeue two_waiting).0)
    × ((action_queue dequeue two_waiting).0.exit_flag ≡ false)
dequeue-Takes_example = dequeue-Takes two_waiting refl

action_queue-IsQueued_example :
    waiting (action_queue send_up two_waiting).0 ≡ waiting two_waiting ++ send_up ∷ []
action_queue-IsQueued_example = action_queue-IsQueued up two_waiting

action_queue-IsConsistent_example : IsConsistent (action_queue send_cmd two_waiting).0
action_queue-IsConsistent_example = action_queue-IsConsistent send_cmd two_waiting refl

-- `cp x` with the cursor behind `cp`
abbrev shown : Shows (editor (codes "cp x") 2) (codes "cp") (codes " x")
shown = record { single_byte = refl; text_eq = refl; pos_eq = refl }

cmd_overwrite_char-Shows_example :
    Shows (cmd_overwrite_char libs b'-' false (editor (codes "cp x") 2)) (codes "cp-") (codes "x")
cmd_overwrite_char-Shows_example = cmd_overwrite_char-Shows libs b'-' shown

cmd_insert_chars-Shows_example :
    Shows (cmd_insert_chars b' ' (pos 3) (editor (codes "cp x") 2)).0 (codes "cp") (codes "    x")
    × ((cmd_insert_chars b' ' (pos 3) (editor (codes "cp x") 2)).1 ≡ true)
cmd_insert_chars-Shows_example = cmd_insert_chars-Shows libs b' ' 3 shown

cmd_del_chars-Deletes_example :
    Deletes 1 (codes "cp") (codes " x") (cmd_del_chars libs (pos 1) (editor (codes "cp x") 2))
cmd_del_chars-Deletes_example = cmd_del_chars-Deletes libs 1 shown

-- `ab`, a segment of one byte behind `a`, and `d`
abbrev four : Connection
four = record (reading (codes "abcd") at_prompt) { pos = 1; seglen = 1 }

eat_segment-content_example :
    (content (eat_segment four) ≡ take 1 (content four) ++ drop 3 (content four))
    × (size (eat_segment four) ≡ size four)
unfolding connection_init
eat_segment-content_example =
    eat_segment-content four (record { ahead = omega arith; fits = omega arith })

-- `ls` is passed, and ESC [ waits for its end.
abbrev cut : Connection
cut = record (reading (codes "ls" ++ 27 ∷ b'[' ∷ []) executing) { pos = 2; seglen = 2 }

create_holdover-ComesBack_example : ComesBack true cut (codes "other bytes")
unfolding connection_init
create_holdover-ComesBack_example =
    create_holdover-ComesBack true cut (codes "other bytes") refl refl (omega arith) refl refl

check_seq-Matches_example :
    (recognizes (seq cursor_forward) fresh (27 ∷ codes "[12C") ≡ true)
    ↔ Matches (parts cursor_forward) (27 ∷ codes "[12C")
check_seq-Matches_example = check_seq-Matches cursor_forward (27 ∷ codes "[12C")

abbrev typing : Seer
typing = seer (codes "ls\r ") at_prompt

steady : IsSteady typing
unfolding connection_init
steady = record { wrapped = refl; returned = refl }

scan_byte-Advances_example :
    IsSteady (scan_byte libs bash typing) × Advances typing.conn (scan_byte libs bash typing).conn
unfolding connection_init
scan_byte-Advances_example = scan_byte-Advances libs bash typing (omega arith) steady

scan_loop-Ended_example : Ended libs bash 100 typing
unfolding connection_init
scan_loop-Ended_example = scan_loop-Ended libs bash 100 typing (omega arith) steady

sanitize_inline_example :
    (all_inline (sanitize (codes "echo 'a\nb")) ≡ true)
    × (length (sanitize (codes "echo 'a\nb")) ≤ 18)
sanitize_inline_example = sanitize_inline (codes "echo 'a\nb")

sanitize_plain_example : sanitize (codes "ls *.c") ≡ codes "ls *.c"
sanitize_plain_example = sanitize_plain (codes "ls *.c") refl

sanitize_cuts_example : sanitize (codes "ls *.c; rm *") ≡ codes "ls *.c"
sanitize_cuts_example = sanitize_cuts (codes "ls *.c") b';' (codes " rm *") refl refl

sanitize_redirection_example : sanitize (codes "ls *.c > list") ≡ []
sanitize_redirection_example =
    sanitize_redirection (codes "ls *.c ") b'>' (codes " list") refl (inl refl)

-- A file of two words is typed between `ls` and an option.
read_line-escape_filename_example :
    read_line (
      codes "ls"
      ++ ((held none
            ++ escape_filename libs (codes "a b;c") (editor (codes "ls-l") 2) at_prompt none)
          ++ codes "-l"))
    ≡ read_line (codes "ls") ++ (word (codes "a b;c") ∷ read_line (codes "-l"))
read_line-escape_filename_example =
    read_line-escape_filename libs (editor (codes "ls-l") 2) (codes "ls") (codes "-l") b'a'
      (codes " b;c") none (record { single_byte = refl; text_eq = refl; pos_eq = refl }) (inl refl)
      refl refl refl
