-- ===== src/Display/Glob.antt =====
-- vgdisplay/vgmini.c and vgdisplay/display-common.c: the reading of what vgexpand reports,
-- `process_glob_data`, up to the calls that it makes.
use viewglob.Base.{ℕ, ◌+◌, List, [], ◌∷◌, ◌++◌, Option, none, some, Bytes, ◌==◌, if◌then◌else◌}
use viewglob.Vgexpand.{
  FileSelection, fs_yes, fs_no, fs_maybe, FileType, ft_regular, ft_executable, ft_directory,
  ft_blockdev, ft_chardev, ft_fifo, ft_socket, ft_symlink,
}

-- `enum glob_read_state`, for the states that are used
pub data GlobState : Type 0 where
  grs_done grs_selected_count grs_file_count grs_hidden_count grs_dir_name grs_in_limbo : GlobState
  grs_file_state grs_file_type grs_file_name : GlobState

-- The calls that the reading makes, with their arguments. The file box is that of the directory that
-- was added last.
pub data GlobCall : Type 0 where
  unmark_all_dirconts : GlobCall
  add_dircont : Bytes → ℕ → Bytes → Bytes → Bytes → GlobCall
  file_box_add : Bytes → FileType → FileSelection → ℕ → GlobCall

-- The variables of `process_glob_data`, with the string that is being read. A rank, which begins at
-- -1, is kept with the rank that follows.
pub record GlobVars : Type 0 where
  pub string : Bytes
  pub selected : Bytes
  pub total : Bytes
  pub hidden : Bytes
  pub selection : FileSelection
  pub type : FileType
  pub dir_rank : ℕ
  pub next_dir : ℕ
  pub file_rank : ℕ
  pub next_file : ℕ

abbrev pub first_vars : GlobVars
first_vars = record {
  string = [];
  selected = [];
  total = [];
  hidden = [];
  selection = fs_no;
  type = ft_regular;
  dir_rank = 0;
  next_dir = 0;
  file_rank = 0;
  next_file = 0;
}

-- `*string`
abbrev pub first_char : Bytes → ℕ
first_char [] = 0
first_char (c ∷ cs) = c

abbrev pub map_selection_state : ℕ → FileSelection
map_selection_state c =
    if c == 45 then fs_no else if c == 126 then fs_maybe else if c == 42 then fs_yes else fs_no

abbrev pub map_file_type : ℕ → FileType
map_file_type c =
    if c == b'r'
    then ft_regular
    else if c == b'e'
    then ft_executable
    else if c == b'd'
    then ft_directory
    else if c == b'y'
    then ft_symlink
    else if c == b'b'
    then ft_blockdev
    else if c == b'c'
    then ft_chardev
    else if c == b'f'
    then ft_fifo
    else if c == b's'
    then ft_socket
    else ft_regular

-- What a byte leads to: calls, the next state and the variables.
abbrev pub Step : Type 0
Step = List GlobCall × GlobState × GlobVars

-- The delimiter of the string that a state reads.
abbrev pub delimiter : GlobState → ℕ
delimiter grs_dir_name = 10
delimiter grs_file_name = 10
delimiter _ = 32

-- Behind the delimiter.
abbrev pub after_delimiter : GlobState → GlobVars → Step
after_delimiter grs_selected_count v = (
  [],
  grs_file_count,
  record v { selected = v.string; string = []; dir_rank = v.next_dir; next_dir = v.next_dir + 1 },
)
after_delimiter grs_file_count v =
    ([], grs_hidden_count, record v { total = v.string; string = [] })
after_delimiter grs_hidden_count v = ([], grs_dir_name, record v { hidden = v.string; string = [] })
after_delimiter grs_dir_name v = (
  add_dircont v.string v.dir_rank v.selected v.total v.hidden ∷ [],
  grs_in_limbo,
  record v { string = []; next_file = 0 },
)
after_delimiter grs_file_state v = (
  [],
  grs_file_type,
  record v {
    selection = map_selection_state (first_char v.string);
    string = [];
    file_rank = v.next_file;
    next_file = v.next_file + 1;
  },
)
after_delimiter grs_file_type v =
    ([], grs_file_name, record v { type = map_file_type (first_char v.string); string = [] })
after_delimiter grs_file_name v = (
  file_box_add v.string v.type v.selection v.file_rank ∷ [],
  grs_in_limbo,
  record v { string = [] },
)
after_delimiter rs v = ([], rs, v)

-- A byte of `up_to_delimiter`.
abbrev pub up_to_delimiter : GlobState → GlobVars → ℕ → Step
up_to_delimiter rs v c =
    if c == delimiter rs
    then after_delimiter rs v
    else ([], rs, record v { string = v.string ++ (c ∷ []) })

-- A byte in any state. The states `grs_done` and, mostly, `grs_in_limbo` leave it to the next one.
unfoldable pub glob_step : GlobState → GlobVars → ℕ → Step
glob_step grs_done v c =
    let (calls, rs, u) = up_to_delimiter grs_selected_count (record v { next_dir = 0 }) c in
    (unmark_all_dirconts ∷ calls, rs, u)
glob_step grs_in_limbo v c =
    if c == 9
    then ([], grs_file_state, v)
    else if c == 10
    then ([], grs_done, v)
    else up_to_delimiter grs_selected_count v c
glob_step rs v c = up_to_delimiter rs v c

abbrev pub and_calls : List GlobCall → Option (List GlobCall) → Option (List GlobCall)
and_calls calls none = none
and_calls calls (some more) = some (calls ++ more)

abbrev pub end_calls : Bytes → Option (List GlobCall)
end_calls [] = some []
end_calls (c ∷ cs) = none

-- The loop; `none` where `up_to_delimiter` reads beyond the end.
unfoldable pub read_glob : GlobState → GlobVars → Bytes → Option (List GlobCall)
unfolding glob_step
read_glob rs v [] = end_calls v.string
read_glob rs v (c ∷ cs) =
    let (calls, rs', u) = glob_step rs v c in and_calls calls (read_glob rs' u cs)
