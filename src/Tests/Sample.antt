-- ===== src/Tests/Sample.antt =====
-- Concrete functions in the place of GLib and the C library, for a locale of single bytes.
use viewglob.Base.{
  ℕ, suc, ◌-◌, Bool, true, false, ◌&&◌, ◌||◌, [], ◌∷◌, ◌++◌, Option, none, some, Bytes, leb, ◌==◌,
  length, replicate, if◌then◌else◌,
}
use viewglob.Base.Int.{pos}
use viewglob.Libs.{Libs, decimal}
use viewglob.Actions.{no_actions}
use viewglob.CmdLine.Edit.{Editor}
use viewglob.Connection.{Connection, ProcessLevel, connection_init}
use viewglob.Sequences.Pattern.{disabled}
use viewglob.Sequences.State.{Seer}

-- `n` begins `p`.
unfoldable pub begins : Bytes → Bytes → Bool
begins [] p = true
begins (x ∷ n) [] = false
begins (x ∷ n) (y ∷ p) = x == y && begins n p

-- The first occurrence that ends within `len` bytes, with no NUL before it.
unfoldable pub first_in : Bytes → ℕ → Bytes → Option ℕ
unfolding begins
first_in [] len n = if leb (length n) len && begins n [] then some 0 else none
first_in (y ∷ p) len n =
    let rest : Option ℕ = elim (first_in p (len - 1) n) [ none ↦ none | some i ↦ some (suc i) ] in
    if leb (length n) len && begins n (y ∷ p)
    then some 0
    else if y == 0 || len == 0
    then none
    else rest

-- The last one.
unfoldable pub last_in : Bytes → ℕ → Bytes → Option ℕ
unfolding begins
last_in [] len n = none
last_in (y ∷ p) len n = elim (last_in p (len - 1) n) [
  | some i ↦ if len == 0 then none else some (suc i)
  | none ↦ if leb (length n) len && begins n (y ∷ p) then some 0 else none
]

abbrev pub libs : Libs
libs = record {
  strstr_len = first_in;
  strrstr_len = last_in;
  atoi = λ p. pos (decimal 0 p);
  utf8_next_char = λ p. 1;
  utf8_find_prev_char = λ p n. if n == 0 then none else some (n - 1);
  utf8_validate = λ p. true;
  utf8_isspace = λ p. false;
  utf8_strchr = λ p len c. none;
  utf8_strrchr = λ p len c. none;
  utf8_pointer_to_offset = λ p n. n;
}

abbrev pub editor : Bytes → ℕ → Editor
editor t p = record {
  cmd = record {
    text = t;
    pos = p;
    rebuilding = false;
    expect_newline = false;
    pwd = none;
    mask = [];
    mask_final = [];
    is_utf8 = false;
    utf8_char = [];
  };
  queue = no_actions;
}

-- A connection that has read `s`, at a process level, with nothing else begun.
abbrev pub reading : Bytes → ProcessLevel → Connection
reading s l =
    let b = connection_init (s ++ replicate (64 - length s) 0) l in record b { filled = length s }

abbrev pub seer : Bytes → ProcessLevel → Seer
seer s l = record {
  conn = reading s l;
  editor = editor [] 0;
  store = λ q. disabled;
  in_navigation = false;
  in_mask = false;
}
