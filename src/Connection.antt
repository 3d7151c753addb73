-- ===== src/Connection.antt =====
-- vgseer/connection.c: the buffer between a terminal and a shell. The segment under examination is
-- the `seglen` bytes from `pos` on, and the byte behind it is the next to be looked at.
pub mod Segments
pub mod Transfer
use viewglob.Base.{
  ℕ, zero, suc, ◌+◌, ◌-◌, Bool, true, false, ◌&&◌, ◌||◌, not, List, [], ◌∷◌, ◌++◌, Option, none,
  some, Bytes, c_string, length, get_or, take, drop, if◌then◌else◌,
}

-- `enum process_level`
pub data ProcessLevel : Type 0 where
  terminal at_prompt executing at_rprompt viewglob_mode : ProcessLevel

-- `enum shell_status`
pub data ShellStatus : Type 0 where
  ss_executing ss_prompt ss_lost ss_title_set ss_error : ShellStatus

-- `MatchStatus` is a set of three bits.
pub record MatchStatus : Type 0 where
  pub no_match : Bool
  pub in_progress : Bool
  pub matched : Bool

abbrev pub ms_no_match : MatchStatus
ms_no_match = record { no_match = true; in_progress = false; matched = false }

abbrev pub ms_in_progress : MatchStatus
ms_in_progress = record { no_match = false; in_progress = true; matched = false }

abbrev pub ms_match : MatchStatus
ms_match = record { no_match = false; in_progress = false; matched = true }

-- `a | b`
abbrev pub join : MatchStatus → MatchStatus → MatchStatus
join a b = record {
  no_match = a.no_match || b.no_match;
  in_progress = a.in_progress || b.in_progress;
  matched = a.matched || b.matched;
}

-- the macro `IN_PROGRESS`
abbrev pub is_in_progress : MatchStatus → Bool
is_in_progress s = not s.matched && s.in_progress

pub record Connection : Type 0 where
  pub buf : Bytes  -- all `size` bytes of it
  pub filled : ℕ
  pub pos : ℕ
  pub seglen : ℕ
  pub pl : ProcessLevel
  pub status : MatchStatus
  pub holdover : Option Bytes
  pub ho_written : Bool
  pub skip : ℕ
  pub ss : ShellStatus

abbrev pub size : Connection → ℕ
size b = length b.buf

-- `connection_init`, less the name and the descriptors
unfoldable pub connection_init : Bytes → ProcessLevel → Connection
connection_init buf pl = record {
  buf = buf;
  filled = 0;
  pos = 0;
  seglen = 0;
  pl = pl;
  status = ms_no_match;
  holdover = none;
  ho_written = false;
  skip = 0;
  ss = ss_executing;
}

-- `memmove` inside an array: `n` bytes from `src` go to `dst`.
abbrev pub memmove : ℕ → ℕ → ℕ → Bytes → Bytes
memmove dst src n a = take dst a ++ (take n (drop src a) ++ drop (dst + n) a)

-- `memcpy` of other bytes into an array.
abbrev pub memcpy : ℕ → Bytes → Bytes → Bytes
memcpy dst s a = take dst a ++ (s ++ drop (dst + length s) a)

-- by the holdover of the last read
prepend : Option Bytes → Connection → Connection
prepend none b = record b { filled = 0; pos = 0; seglen = 0; skip = 0 }
prepend (some h) b = record b {
  buf = memcpy 0 h b.buf;
  filled = length h;
  pos = 0;
  holdover = none;
  skip = if b.ho_written then length h else 0;
}

unfoldable pub prepend_holdover : Connection → Connection
unfolding prepend
prepend_holdover b = prepend b.holdover b

-- `g_strndup` of the segment
abbrev pub segment : Connection → Bytes
segment b = c_string (take b.seglen (drop b.pos b.buf))

-- The assertion that no holdover is there already.
hold : Option Bytes → Bool → Connection → Connection
hold (some _) write_later b = b
hold none write_later b =
    if write_later
    then record b { holdover = some (segment b); filled = b.filled - b.seglen; ho_written = false }
    else record b { holdover = some (segment b); ho_written = true }

unfoldable pub create_holdover : Bool → Connection → Connection
unfolding hold
create_holdover write_later b = hold b.holdover write_later b

unfoldable pub eat_segment : Connection → Connection
eat_segment b =
    let n = b.seglen + 1 in
    record b {
      buf = memmove b.pos (b.pos + n) (b.filled - (b.pos + n)) b.buf;
      filled = b.filled - n;
      seglen = 0;
    }

unfoldable pub pass_segment : Connection → Connection
pass_segment b = record b { pos = b.pos + (b.seglen + 1); seglen = 0 }

-- `b->buf[b->pos + b->seglen]`
abbrev pub next_byte : Connection → ℕ
next_byte b = get_or b.buf (b.pos + b.seglen) 0
