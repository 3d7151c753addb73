-- ===== src/Connection/Transfer.antt =====
-- vgseer/connection.c: `connection_read` and `connection_write`.
pub mod Whole
use viewglob.Base.{
  ℕ, ◌+◌, ◌-◌, Bool, true, false, List, [], ◌∷◌, Option, none, some, Bytes, ◌==◌, ltb, length, take,
  drop, if◌then◌else◌,
}
use viewglob.Actions.{ActionQueue, exit, action_queue}
use viewglob.Connection.{Connection, size, memcpy}
use viewglob.HardenedIo.{
  IoResult, ior_ok, ior_error, ior_eof, Reading, got, read_interrupted, read_failed, IoRead,
  hardened_read, Writing, IoWrite, write_all,
}

-- `errno`, behind a `hardened_read` that failed
unfoldable pub read_errno : List Reading → ℕ
read_errno (read_interrupted ∷ rs) = read_errno rs
read_errno (read_failed e ∷ rs) = e
read_errno _ = 0

abbrev pub eio : ℕ
eio = 5

-- The connection and the actions that `connection_read` leaves, and whether it went well.
pub record ReadIn : Type 0 where
  pub conn : Connection
  pub queue : ActionQueue
  pub ok : Bool

-- The bytes go behind those that are there.
abbrev pub filled_with : Bytes → Connection → Connection
filled_with s b = record b { buf = memcpy b.filled s b.buf; filled = b.filled + length s }

abbrev exiting : Connection → ActionQueue → ReadIn
exiting b q = record { conn = b; queue = (action_queue exit q).0; ok = true }

abbrev pub entered : ℕ → Connection → ActionQueue → Option IoRead → Option ReadIn
entered errno b q none = none
entered errno b q (some r) = some (elim r.result [
  | ior_ok ↦ record { conn = filled_with r.data_read b; queue = q; ok = true }
  | ior_error ↦ if errno == eio then exiting b q else record { conn = b; queue = q; ok = false }
  | ior_eof ↦ exiting b q
])

-- A full buffer is an error.
unfoldable pub connection_read : Connection → ActionQueue → List Reading → Option ReadIn
unfolding hardened_read read_errno
connection_read b q rs =
    if ltb b.filled (size b)
    then entered (read_errno rs) b q (hardened_read rs)
    else some (record { conn = b; queue = q; ok = false })

-- `connection_write`: what goes out, and the result of `write_all`. The skipped bytes are in the
-- filled part of the buffer.
unfoldable pub connection_write : Connection → List Writing → Option IoWrite
unfolding write_all
connection_write b ws =
    if b.filled == 0
    then some (record { result = ior_ok; data_written = []; later = ws })
    else write_all (take (b.filled - b.skip) (drop b.skip b.buf)) ws
