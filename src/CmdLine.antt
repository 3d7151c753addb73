-- ===== src/CmdLine.antt =====
-- vgseer/cmdline.c: the working copy of the shell's command line. A GString is the list of its
-- bytes; C code finds a NUL behind the last one. `Editor` is the command line with the queue that
-- its operations feed (the statics of vgseer/actions.c).
pub mod Edit
pub mod Wipe
pub mod Move
pub mod Mask
pub mod Zipper
