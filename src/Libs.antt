-- ===== src/Libs.antt =====
-- What the program calls and does not hold: functions of GLib and of the C library, as the record
-- `Libs`, and what the manuals say of them, as the record `LibsLaws`. A pointer into a text is the
-- list of the bytes from it to the end; a found pointer is the number of bytes before it.
use viewglob.Base.{
  ℕ, ◌+◌, ◌*◌, ◌-◌, ◌≤◌, ◌<◌, ◌≡◌, Bool, ◌&&◌, [], ◌∷◌, ◌++◌, Option, some, Bytes, c_string, leb,
  length, take, drop, if◌then◌else◌,
}
use viewglob.Base.Int.{ℤ}

pub record Libs : Type 0 where
  -- g_strstr_len(p, len, needle) and g_strrstr_len(p, len, needle)
  pub strstr_len : Bytes → ℕ → Bytes → Option ℕ
  pub strrstr_len : Bytes → ℕ → Bytes → Option ℕ
  -- atoi(p)
  pub atoi : Bytes → ℤ
  -- g_utf8_next_char(p) - p
  pub utf8_next_char : Bytes → ℕ
  -- g_utf8_find_prev_char(str, str + n) - str
  pub utf8_find_prev_char : Bytes → ℕ → Option ℕ
  -- g_utf8_validate(p, len, NULL), for the whole of p
  pub utf8_validate : Bytes → Bool
  -- g_unichar_isspace(g_utf8_get_char(p))
  pub utf8_isspace : Bytes → Bool
  -- g_utf8_strchr(p, len, c) and g_utf8_strrchr(p, len, c), for c below 128
  pub utf8_strchr : Bytes → ℕ → ℕ → Option ℕ
  pub utf8_strrchr : Bytes → ℕ → ℕ → Option ℕ
  -- g_utf8_pointer_to_offset(p, p + n)
  pub utf8_pointer_to_offset : Bytes → ℕ → ℕ

abbrev pub is_digit : ℕ → Bool
is_digit c = leb b'0' c && leb c b'9'

-- The number that a run of digits stands for, in front of anything.
abbrev pub decimal : ℕ → Bytes → ℕ
decimal acc [] = acc
decimal acc (c ∷ cs) =
    let more = decimal (10 * acc + (c - b'0')) cs in if is_digit c then more else acc

-- The bytes of `needle` stand in `p` from the place `i` on.
abbrev pub OccursAt : Bytes → Bytes → ℕ → Type 0
OccursAt p needle i = take (length needle) (drop i p) ≡ needle

pub record LibsLaws (libs : Libs) : Type 0 where
  -- the first occurrence is found: none stands before it, and no NUL
  pub strstr_len_first :
      (l needle r : Bytes) (len : ℕ)
      → c_string l ≡ l
      → length l + length needle ≤ len
      → ((i : ℕ) → i < length l → ¬ OccursAt (l ++ needle) needle i)
      → libs.strstr_len (l ++ (needle ++ r)) len needle ≡ some (length l)
