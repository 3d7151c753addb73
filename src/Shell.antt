-- ===== src/Shell.antt =====
-- common/shell.c: the names of the shell statuses.
use viewglob.Base.{List, [], ◌∷◌, ◌≡◌, refl, Bytes, codes, if◌then◌else◌}
use viewglob.Connection.{ShellStatus, ss_executing, ss_prompt, ss_lost, ss_title_set, ss_error}
use viewglob.ParamIo.{streq}

unfoldable pub shell_status_to_string : ShellStatus → Bytes
shell_status_to_string ss_executing = codes "executing"
shell_status_to_string ss_prompt = codes "prompt"
shell_status_to_string ss_lost = codes "lost"
shell_status_to_string ss_title_set = codes "title-set"
shell_status_to_string ss_error = codes "error"

abbrev pub all_statuses : List ShellStatus
all_statuses = ss_executing ∷ ss_prompt ∷ ss_lost ∷ ss_title_set ∷ ss_error ∷ []

-- the loop of `string_to_shell_status`
unfoldable pub find_status : Bytes → List ShellStatus → ShellStatus
unfolding shell_status_to_string
find_status s [] = ss_error
find_status s (q ∷ qs) =
    let later = find_status s qs in if streq s (shell_status_to_string q) then q else later

unfoldable pub string_to_shell_status : Bytes → ShellStatus
unfolding find_status
string_to_shell_status s = find_status s all_statuses

-- Each status is read back from its name.
pub string_to_shell_status-shell_status_to_string :
    (st : ShellStatus) → string_to_shell_status (shell_status_to_string st) ≡ st
unfolding string_to_shell_status find_status shell_status_to_string
string_to_shell_status-shell_status_to_string ss_executing = refl
string_to_shell_status-shell_status_to_string _ = refl
