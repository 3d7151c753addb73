-- ===== src/Lib.antt =====
-- A model of viewglob, the program that shows what the shell's globs match while a command line is
-- typed, and theorems about it.
--
-- viewglob is several programs. `vgseer` runs the user's shell on a pseudo-terminal, copies what
-- passes between the terminal and the shell, rebuilds the command line from it, and has `vgexpand`
-- find its files in a second shell, the sandbox; `vgd` is the daemon between the vgseers and a
-- display; `vgmini` and `vgclassic` (vgdisplay/) show the files; `vgping` asks whether a daemon runs.
-- Modelled are the core of vgseer, the messages between the programs, the state of vgd, vgexpand, and
-- of the display what `vgmini` keeps of a report and how its files are laid out:
--
--   Actions        vgseer/actions.c: `action_queue` with its statics as the record `ActionQueue`. A
--                  call `action_queue(a)` is `action_queue a q`, which gives the new queue and the
--                  action that comes out.
--   Connection     vgseer/connection.c: the record `Connection`, whose `buf` is the whole array of
--                  `size` bytes; `prepend_holdover`, `create_holdover`, `eat_segment` and
--                  `pass_segment`; `connection_read` and `connection_write` in Transfer.
--   CmdLine        vgseer/cmdline.c: the record `CmdLine`, and `Editor`, which holds the queue of
--                  actions beside it, since most operations enqueue. Edit, Wipe, Move and Mask hold
--                  the operations.
--   Sequences      vgseer/sequences.c: the patterns and `check_seq` (Pattern); the groups of a
--                  process level and the state `Seer` that the functions share (State); a handler
--                  of each sequence (Handlers), with `seq_viewglob_all` in Navigation; `check_seqs`
--                  and `analyze_effect` (Check). The groups share the static sequences, so their
--                  states are one store.
--   Scan           vgseer/vgseer.c: `scan_sequences` and `scan_for_newline`.
--   Sanitize       vgseer/sanitize.c: `sanitize`, which the command line goes through before the
--                  sandbox shell expands it.
--   HardenedIo     common/hardened-io.c: `read_all`, `write_all` and `writev_all`, over the list of
--                  what the system calls return one after the other.
--   ParamIo        common/param-io.c: `get_param` and `put_param`, the messages between vgseer, vgd
--                  and the display. A length beyond the buffer is the result `beyond_buffer`.
--   Shell          common/shell.c: the names of the shell statuses.
--   Vgd            vgd/vgd.c: `struct state` as the record `Vgd`, `struct vgseer_client` as `Client`,
--                  at an address that is a number. Drop, Arrive, Serve and Poll hold the functions.
--                  A function that can end the daemon gives an `Outcome`: `running` with the new
--                  state, `exited`, or `fault`, where the code uses a client that is freed or not
--                  there. `World` says which calls of the system succeed, `Arrival` and `Ready` what
--                  comes in. The display is what it was sent.
--   Vgexpand       vgexpand/vgexpand.c: the directories with their files, looking names up, and the
--                  masks; Path holds the functions on paths, Split the splitting of the masks, Report
--                  what is printed. `System` is what the file system and the libraries give.
--   Orders         vgseer/vgseer.c: `action_loop` with what it calls: the messages to vgd, and the
--                  commands to the sandbox shell. `Wire` says which calls succeed.
--   Sandbox        vgseer/vgseer.c: `process_sandbox`, which takes the report of vgexpand from the
--                  readings of the sandbox shell. A reading is what `hardened_read` gives.
--   Escape         vgseer/vgseer.c: `escape_filename`, which the name of a file goes through that is
--                  clicked in the display. Its Reader is no part of the program: it reads command
--                  lines, for the theorem on what is typed.
--   Display        vgdisplay: Glob holds the state machine of `process_glob_data` (vgmini.c) up to the
--                  calls that it makes; Process runs these on the directories of Mini (vgmini.c,
--                  dircont.c), whose files are in FileBox (file_box.c); Events holds the messages
--                  of vgd, `receive_data`, and the events of the window; WrapBox and Columns hold the
--                  layout of wrap_box.c. A pointer to a directory or a file is its name.
--
-- Libs holds the functions of GLib and of the C library as parameters, Base the shared names. The
-- other modules below a part hold its theorems. Bytes are natural numbers below 256, and a
-- `GString` is the list of its bytes. Functions that work in place give the changed state.
--
-- Fuel: the loop of `scan_sequences` runs on fuel, `scan_loop`, and gives `none` where that does
-- not suffice. A round brings the loop nearer to the end of the buffer or makes the segment
-- longer, so that `rounds_left`, a square of the bytes ahead, is enough. `action_loop` runs on
-- fuel too: one round more than there are actions that wait; so do the ranks of `arrange` and of
-- `search_down`, one round more than there are directories, and the columns of `layout_cols`, one
-- more than there are children. The other loops follow a list or a number that the code counts
-- down.
--
-- Not modelled: the bounds of `int` and `gsize`, which the texts of a terminal do not reach;
-- memory and descriptors; the main loop of vgseer, its options, signals and children; the options
-- and sockets of vgd, and an error of its `select`; the options of vgexpand; the widgets of the
-- displays, `vgclassic`, and the colours of files.
-- `g_return_if_fail` is modelled where the caller's state does not exclude it. The
-- group of sequences at the level of the RPROMPT is never initialised for bash and stands as an
-- empty group.
pub mod Base
pub mod Libs
pub mod Actions
pub mod Connection
pub mod CmdLine
pub mod Sequences
pub mod Scan
pub mod Sanitize
pub mod Display
pub mod Escape
pub mod HardenedIo
pub mod Orders
pub mod ParamIo
pub mod Sandbox
pub mod Shell
pub mod Vgd
pub mod Vgexpand
pub mod Tests
