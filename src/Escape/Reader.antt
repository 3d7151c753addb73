-- ===== src/Escape/Reader.antt =====
-- What a name that vgseer/vgseer.c types is for: a reader of command lines, independent of the program.
-- A backslash quotes the next byte, or joins two lines; white space ends a word; a byte that means
-- something is a token of its own. The reader expands nothing, and leaves out what is between
-- quotation marks, which are such bytes: it reads on behind them as if nothing was open.
use mathlib.Core.List.{append_assoc, append-nil}
use viewglob.Base.{
  ℕ, ◌≡◌, refl, sym, ap, ◌∙◌, Bool, true, false, ◌||◌, List, [], ◌∷◌, ◌++◌, Option, none, some,
  Bytes, codes, ◌==◌, if◌then◌else◌, lacks, other_first, other_rest, length, arith,
}
use viewglob.CmdLine.Edit.{byte_at}
use viewglob.CmdLine.Move.{is_space}
use viewglob.Escape.{is_in}

pub data Token : Type 0 where
  word : Bytes → Token
  operator : ℕ → Token

-- The word that is begun, if any, and the tokens before it.
pub record Reader : Type 0 where
  pub quoted : Bool  -- the next byte is behind a backslash
  pub partial : Option Bytes
  pub done : List Token

-- Bytes that mean something wherever they stand, and at the beginning of a word.
abbrev pub metacharacters : Bytes
metacharacters = codes "|&;()<>$`\"'*?[#!{}"

abbrev pub leaders : Bytes
leaders = codes "~="

abbrev pub leads : ℕ → Option Bytes → Bool
leads c none = is_in c leaders
leads c (some w) = false

abbrev pub add : ℕ → Option Bytes → Bytes
add c none = c ∷ []
add c (some w) = w ++ c ∷ []

abbrev pub begun_word : Option Bytes → List Token
begun_word none = []
begun_word (some w) = word w ∷ []

abbrev pub tokens_of : Reader → List Token
tokens_of s = s.done ++ begun_word s.partial

-- Between words.
abbrev pub closed : Reader → Reader
closed s = record { quoted = false; partial = none; done = tokens_of s }

abbrev pub longer : ℕ → Reader → Reader
longer c s = record s { quoted = false; partial = some (add c s.partial) }

abbrev pub read_quoted : ℕ → Reader → Reader
read_quoted c s = if c == 10 then record s { quoted = false } else longer c s

abbrev pub read_plain : ℕ → Reader → Reader
read_plain c s =
    if c == 92
    then record s { quoted = true }
    else if is_space c
    then closed s
    else if is_in c metacharacters || leads c s.partial
    then record { quoted = false; partial = none; done = tokens_of s ++ operator c ∷ [] }
    else longer c s

abbrev pub read_byte : ℕ → Reader → Reader
read_byte c s = if s.quoted then read_quoted c s else read_plain c s

abbrev pub read_bytes : Bytes → Reader → Reader
read_bytes [] s = s
read_bytes (c ∷ cs) s = read_bytes cs (read_byte c s)

abbrev pub beginning : Reader
beginning = record { quoted = false; partial = none; done = [] }

-- The tokens of a command line.
abbrev pub read_line : Bytes → List Token
read_line t = tokens_of (read_bytes t beginning)

pub read_bytes-append :
    (s t : Bytes) (p : Reader) → read_bytes (s ++ t) p ≡ read_bytes t (read_bytes s p)
read_bytes-append [] t p = refl
read_bytes-append (c ∷ cs) t p = read_bytes-append cs t (read_byte c p)

-- The same reader behind some tokens.
abbrev behind : List Token → Reader → Reader
behind d s = record s { done = d ++ s.done }

tokens_of-behind : (d : List Token) (s : Reader) → tokens_of (behind d s) ≡ d ++ tokens_of s
tokens_of-behind d s = append_assoc d s.done (begun_word s.partial)

read_byte-behind :
    (d : List Token) (c : ℕ) (s : Reader) → read_byte c (behind d s) ≡ behind d (read_byte c s)
read_byte-behind d c s =
    ground (arith, tokens_of-behind d s, append_assoc d (tokens_of s) (operator c ∷ []))

read_bytes-behind :
    (d : List Token) (t : Bytes) (s : Reader)
    → read_bytes t (behind d s) ≡ behind d (read_bytes t s)
read_bytes-behind d [] s = refl
read_bytes-behind d (c ∷ cs) s =
    ap (read_bytes cs) (read_byte-behind d c s) ∙ read_bytes-behind d cs (read_byte c s)

-- What is read from between words is read as a line of its own.
pub tokens_of-closed :
    (t : Bytes) (s : Reader) → tokens_of (read_bytes t (closed s)) ≡ tokens_of s ++ read_line t
tokens_of-closed t s =
    ap (λ (d : List Token). tokens_of (read_bytes t (record beginning { done = d })))
      (sym (append-nil (tokens_of s)))
    ∙ ap tokens_of (read_bytes-behind (tokens_of s) t beginning)
    ∙ tokens_of-behind (tokens_of s) (read_bytes t beginning)

pub space-closed :
    (c : ℕ) (s : Reader) → s.quoted ≡ false → is_space c ≡ true → read_byte c s ≡ closed s
space-closed c s q h = ground arith

pub closed-closed : (s : Reader) → closed (closed s) ≡ closed s
closed-closed s = ap (λ (d : List Token). record beginning { done = d }) (append-nil (tokens_of s))

read_byte-unquoted :
    (c : ℕ) (s : Reader) → s.quoted ≡ false → (c == 92) ≡ false → (read_byte c s).quoted ≡ false
read_byte-unquoted c s q n = ground arith

-- Behind bytes without a backslash nothing is quoted.
pub read_bytes-unquoted :
    (t : Bytes) (s : Reader)
    → s.quoted ≡ false
    → lacks 92 t ≡ true
    → (read_bytes t s).quoted ≡ false
read_bytes-unquoted [] s q h = q
read_bytes-unquoted (c ∷ cs) s q h =
    read_bytes-unquoted cs (read_byte c s) (read_byte-unquoted c s q (other_first 92 c cs h))
      (other_rest 92 c cs h)

-- Behind a last byte that is white space no word is begun.
pub read_bytes-space :
    (c : ℕ) (cs r : Bytes) (s : Reader)
    → s.quoted ≡ false
    → lacks 92 (c ∷ cs) ≡ true
    → is_space (byte_at ((c ∷ cs) ++ r) (length cs)) ≡ true
    → closed (read_bytes (c ∷ cs) s) ≡ read_bytes (c ∷ cs) s
read_bytes-space c [] r s q l h = rw (space-closed c s q h) (closed-closed s)
read_bytes-space c (d ∷ ds) r s q l h =
    read_bytes-space d ds r (read_byte c s) (read_byte-unquoted c s q (other_first 92 c (d ∷ ds) l))
      (other_rest 92 c (d ∷ ds) l) h
