-- ===== src/Escape/Typed.antt =====
-- vgseer/vgseer.c: what the loop of `escape_filename` writes continues a word of the reader.
use mathlib.Core.List.{append_assoc, append-nil}
use viewglob.Base.{
  ℕ, ◌≡◌, refl, sym, ap, ◌∙◌, Bool, true, false, not, ◌&&◌, List, [], ◌∷◌, ◌++◌, some, Bytes, ◌==◌,
  leb, inl, inr, Bool-cases, arith,
}
use viewglob.Escape.{is_in, special, escape}
use viewglob.Escape.Reader.{Token, Reader, metacharacters, leads, longer, read_byte, read_bytes}

all_in : Bytes → Bytes → Bool
all_in [] ys = true
all_in (x ∷ xs) ys = is_in x ys && all_in xs ys

and_first : (a b : Bool) → (a && b) ≡ true → a ≡ true
and_first true b h = refl
and_first false b h = cc h

pub and_second : (a b : Bool) → (a && b) ≡ true → b ≡ true
and_second true b h = h
and_second false b h = cc h

in_all : (c : ℕ) (xs ys : Bytes) → all_in xs ys ≡ true → is_in c ys ≡ false → is_in c xs ≡ false
unfolding all_in
in_all c [] ys h k = refl
in_all c (x ∷ xs) ys h k = elim (Bool-cases (c == x)) [
  | inl y ↦
      let e : c ≡ x = ground arith in
      cc (sym k ∙ ap (λ b. is_in b ys) e ∙ and_first (is_in x ys) (all_in xs ys) h)
  | inr n ↦ rw n (in_all c xs ys (and_second (is_in x ys) (all_in xs ys) h) k)
]

plain : (c : ℕ) → is_in c special ≡ false → is_in c metacharacters ≡ false
unfolding all_in
plain c h = in_all c metacharacters special refl h

plain_backslash_or_blank : (c : ℕ) → is_in c special ≡ false → is_in c (92 ∷ 32 ∷ 9 ∷ []) ≡ false
unfolding all_in
plain_backslash_or_blank c h = in_all c (92 ∷ 32 ∷ 9 ∷ []) special refl h

-- A line feed, a vertical tab, a form feed or a carriage return.
abbrev pub parts_lines : ℕ → Bool
parts_lines c = leb 10 c && leb c 13

abbrev pub is_one_line : Bytes → Bool
is_one_line [] = true
is_one_line (c ∷ cs) = not (parts_lines c) && is_one_line cs

-- A byte as it is typed continues the word.
pub escaped_byte :
    (c : ℕ) (cs : Bytes) (s : Reader)
    → s.quoted ≡ false
    → parts_lines c ≡ false
    → leads c s.partial ≡ false
    → read_bytes (escape true (c ∷ cs)) s ≡ read_bytes (escape true cs) (longer c s)
escaped_byte c cs s q b l = elim (Bool-cases (is_in c special)) [
  | inl y ↦ rw y (ap (read_bytes (escape true cs)) quoted)
  | inr n ↦ rw n (ap (read_bytes (escape true cs)) (unquoted n))
]
  where
    quoted : read_byte c (read_byte 92 s) ≡ longer c s
    quoted = ground arith

    unquoted : is_in c special ≡ false → read_byte c s ≡ longer c s
    unquoted n = ground (arith, plain c n, plain_backslash_or_blank c n)

pub escaped_name :
    (cs w : Bytes) (d : List Token)
    → is_one_line cs ≡ true
    → read_bytes (escape true cs) (record { quoted = false; partial = some w; done = d })
      ≡ record { quoted = false; partial = some (w ++ cs); done = d }
escaped_name [] w d h =
    ap (λ (v : Bytes). record { quoted = false; partial = some v; done = d }) (sym (append-nil w))
escaped_name (c ∷ cs) w d h =
    escaped_byte c cs _ refl (ground arith) refl
    ∙ escaped_name cs (w ++ c ∷ []) d (and_second _ _ h)
    ∙ ap (λ (v : Bytes). record { quoted = false; partial = some v; done = d })
        (append_assoc w (c ∷ []) cs)
