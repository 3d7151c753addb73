-- ===== src/ParamIo/RoundTrip.antt =====
-- common/param-io.c: what `put_param` writes, `get_param` reads back.
use mathlib.Core.List.{append_assoc, append-nil}
use native.Mathlib.Nat.{suc-add}
use viewglob.Base.{
  ℕ, zero, suc, ◌+◌, ◌-◌, ◌<◌, ◌≤◌, ◌≡◌, refl, sym, ap, ◌∙◌, Bool, true, not, ◌&&◌, List, [], ◌∷◌,
  ◌++◌, Option, some, Bytes, c_string, arith, ltb, ◌==◌, length, length-append, take, drop,
  take-append_at, if-cases,
}
use viewglob.Libs.{Libs, LibsLaws, OccursAt}
use viewglob.HardenedIo.{Reading, got, read_all, Writing, wrote, write_all}
use viewglob.HardenedIo.Reads.{goes_on, bytes_of, read_all-Reading}
use viewglob.HardenedIo.Writes.{takes_on, taken, write_all-Writing, writev_all-write_all}
use viewglob.ParamIo.{
  Parameter, p_none, param_to_string, find_param, string_to_param, buffer_size, value_end,
  NetworkOrder, Received, received, with_name, with_value, with_length, with_data, parse_param,
  get_value, get_param, message, reported, put_param,
}

-- What the C library says of htonl and ntohl, for numbers of 32 bits.
pub record NetworkOrderLaws (net : NetworkOrder) : Type 0 where
  pub four_bytes : (n : ℕ) → length (net.to_network n) ≡ 4
  pub back : (n : ℕ) → n < 4294967296 → net.from_network (net.to_network n) ≡ n

-- Each parameter is read back from its name.
pub string_to_param-param_to_string : (p : Parameter) → string_to_param (param_to_string p) ≡ p
unfolding string_to_param find_param param_to_string
string_to_param-param_to_string p_none = refl
string_to_param-param_to_string _ = refl

c_string-param_to_string : (p : Parameter) → c_string (param_to_string p) ≡ param_to_string p
unfolding param_to_string
c_string-param_to_string p_none = refl
c_string-param_to_string _ = refl

abbrev lacks : ℕ → Bytes → Bool
lacks c [] = true
lacks c (x ∷ s) = not (x == c) && lacks c s

param_to_string-lacks : (p : Parameter) → lacks b':' (param_to_string p) ≡ true
unfolding param_to_string
param_to_string-lacks p_none = refl
param_to_string-lacks _ = refl

abbrev head_or : ℕ → Bytes → ℕ
head_or d [] = d
head_or d (x ∷ s) = x

none_before :
    (c : ℕ) (s : Bytes) (i : ℕ)
    → lacks c s ≡ true
    → i < length s
    → ¬ OccursAt (s ++ c ∷ []) (c ∷ []) i
none_before c [] i h k o = absurd (omega arith)
none_before c (x ∷ s) zero h k o = let e : x ≡ c = ap (head_or 0) o in absurd (ground arith)
none_before c (x ∷ s) (suc i) h k o = none_before c s i (ground arith) (omega arith) o

-- The end of a value does not begin in the value.
abbrev pub ends_late : Bytes → Bool
ends_late [] = true
ends_late (x ∷ []) = not (x == 0o27)
ends_late (x ∷ y ∷ s) = not (x == 0o27 && y == 0o27) && ends_late (y ∷ s)

abbrev second_or : ℕ → Bytes → ℕ
second_or d (x ∷ y ∷ s) = y
second_or d _ = d

end_not_before :
    (s : Bytes) (i : ℕ)
    → ends_late s ≡ true
    → i < length s
    → ¬ OccursAt (s ++ value_end) value_end i
end_not_before [] i h k o = absurd (omega arith)
end_not_before (x ∷ []) zero h k o = let e : x ≡ 0o27 = ap (head_or 0) o in absurd (ground arith)
end_not_before (x ∷ []) (suc i) h k o = absurd (omega arith)
end_not_before (x ∷ y ∷ s) zero h k o =
    let e : x ≡ 0o27 = ap (head_or 0) o in
    let e' : y ≡ 0o27 = ap (second_or 0) o in absurd (ground arith)
end_not_before (x ∷ y ∷ s) (suc i) h k o = end_not_before (y ∷ s) i (ground arith) (omega arith) o

drop_past : (s r : Bytes) (c : ℕ) → drop (length s + 1) (s ++ c ∷ r) ≡ r
drop_past [] r c = refl
drop_past (x ∷ s) r c = rw suc-add (drop_past s r c)

module _ (libs : Libs) (laws : LibsLaws libs) where
  parse_value :
      (n v tail : Bytes) (bytes : ℕ)
      → c_string v ≡ v
      → ends_late v ≡ true
      → length v + 2 ≤ bytes - (length n + 1)
      → libs.strstr_len
          (drop (length n + 1) (n ++ b':' ∷ (v ++ (value_end ++ tail))))
          (bytes - (length n + 1))
          value_end
        ≡ some (length v)
  parse_value n v tail bytes cv ev fits =
      ap (λ u. libs.strstr_len u (bytes - (length n + 1)) value_end)
        (drop_past n (v ++ (value_end ++ tail)) b':')
      ∙ laws.strstr_len_first v value_end tail (bytes - (length n + 1)) cv (omega (arith, fits))
          (λ i k. end_not_before v i ev k)

  parse_parts :
      (n v tail : Bytes) (bytes : ℕ)
      → c_string n ≡ n
      → c_string v ≡ v
      → lacks b':' n ≡ true
      → ends_late v ≡ true
      → bytes ≡ length n + 1 + (length v + 2)
      → parse_param libs (n ++ b':' ∷ (v ++ (value_end ++ tail))) bytes
        ≡ received (string_to_param n) v
  unfolding parse_param
  parse_parts n v tail bytes cn cv ln ev e =
      let r = v ++ (value_end ++ tail) in
      let b = n ++ b':' ∷ r in
      ap (with_name libs b bytes) (
        laws.strstr_len_first n (b':' ∷ []) r bytes cn (omega (arith, e))
          (λ i k. none_before b':' n i ln k))
      ∙ ap (with_value b (length n)) (parse_value n v tail bytes cv ev (omega (arith, e)))
      ∙ ap
          (λ u.
            received (string_to_param (c_string u))
              (c_string (take (length v) (drop (length n + 1) b))))
          (take-append_at (length n) n (b':' ∷ r) refl)
      ∙ ap (λ u. received (string_to_param u) (c_string (take (length v) (drop (length n + 1) b))))
          cn
      ∙ ap (λ u. received (string_to_param n) (c_string (take (length v) u))) (drop_past n r b':')
      ∙ ap (λ u. received (string_to_param n) (c_string u))
          (take-append_at (length v) v (value_end ++ tail) refl)
      ∙ ap (λ u. received (string_to_param n) u) cv

  parse_param-message :
      (param : Parameter) (value tail : Bytes)
      → c_string value ≡ value
      → ends_late value ≡ true
      → parse_param libs (message param value ++ tail) (length (message param value))
        ≡ received param value
  parse_param-message param value tail cv ev =
      ap (λ b. parse_param libs b (length (message param value))) arranged
      ∙ parse_parts (param_to_string param) value tail _ (c_string-param_to_string param) cv
          (param_to_string-lacks param) ev measured
      ∙ ap (λ q. received q value) (string_to_param-param_to_string param)
    where
      arranged :
          message param value ++ tail
          ≡ param_to_string param ++ b':' ∷ (value ++ (value_end ++ tail))
      arranged =
          append_assoc (param_to_string param) (b':' ∷ c_string value ++ value_end) tail
          ∙ ap (λ u. param_to_string param ++ b':' ∷ u)
              (append_assoc (c_string value) value_end tail)
          ∙ ap (λ u. param_to_string param ++ b':' ∷ (u ++ (value_end ++ tail))) cv

      measured :
          length (message param value) ≡ length (param_to_string param) + 1 + (length value + 2)
      measured = omega (
        arith,
        ap (λ (u : Bytes). length u) cv,
        length-append (param_to_string param) (b':' ∷ c_string value ++ value_end),
        length-append (c_string value) value_end,
      )

  get_value-message :
      (param : Parameter) (value buf : Bytes)
      → c_string value ≡ value
      → ends_late value ≡ true
      → length (message param value) ≤ buffer_size
      → (rs later : List Reading) (c : ℕ) (cs : Bytes) → goes_on rs ≡ true
      → bytes_of rs ++ c ∷ cs ≡ message param value
      → get_value libs buf (length (message param value)) (rs ++ got (c ∷ cs) ∷ later)
        ≡ some (received param value)
  get_value-message param value buf cv ev fits rs later c cs g e =
      if-cases (λ (o : Option Received). o ≡ some (received param value))
        (ltb buffer_size (length (message param value))) (λ y. absurd (ground arith))
        (λ _.
          ap (with_data libs buf (length (message param value))) (
            ap (λ u. read_all (length u) (rs ++ got (c ∷ cs) ∷ later)) (sym e)
            ∙ (read_all-Reading rs later c cs 0 g).0)
          ∙ ap
              (λ u.
                some
                  (parse_param libs (u ++ drop (0 + length u) buf) (length (message param value))))
              e
          ∙ ap (λ x. some x)
              (parse_param-message param value (drop (0 + length (message param value)) buf) cv ev))

-- `get_param` reads back the message of a parameter, whatever its static buffer holds and in
-- whatever pieces the message arrives: for a value without NUL in which its end does not begin, if
-- the message fits the buffer.
pub get_param-message :
    (libs : Libs)
    → LibsLaws libs
    → (net : NetworkOrder) → NetworkOrderLaws net
    → (param : Parameter) (value buf : Bytes) → c_string value ≡ value
    → ends_late value ≡ true
    → length (message param value) ≤ buffer_size
    → (rs rs' later : List Reading) (c c' : ℕ) (cs cs' : Bytes) → goes_on rs ≡ true
    → goes_on rs' ≡ true
    → bytes_of rs ++ c ∷ cs ≡ net.to_network (length (message param value))
    → bytes_of rs' ++ c' ∷ cs' ≡ message param value
    → get_param libs net buf (rs ++ got (c ∷ cs) ∷ (rs' ++ got (c' ∷ cs') ∷ later))
      ≡ some (received param value)
unfolding get_param
get_param-message libs laws net nl param value buf cv ev fits rs rs' later c c' cs cs' g g' e e' =
    ap (with_length libs net buf) (
      ap (λ n. read_all n (rs ++ got (c ∷ cs) ∷ more)) (sym (ap length e ∙ nl.four_bytes _))
      ∙ (read_all-Reading rs more c cs 0 g).0)
    ∙ ap (λ n. get_value libs buf n more) (ap net.from_network e ∙ nl.back _ (omega (arith, fits)))
    ∙ get_value-message libs laws param value buf cv ev fits rs' later c' cs' g' e'
  where
    more : List Reading
    more = rs' ++ got (c' ∷ cs') ∷ later

-- If the message fits the buffer of `get_param`, and the system takes all of it, in whatever pieces
-- and with whatever interruptions: `put_param` writes the length of the message in network order and
-- then the message, and succeeds.
pub put_param-message :
    (net : NetworkOrder)
    → NetworkOrderLaws net
    → (param : Parameter) (value : Bytes) (ws later : List Writing) (rest : ℕ)
    → length (message param value) ≤ buffer_size
    → takes_on ws ≡ true
    → 0 < rest
    → taken ws + rest ≡ 4 + length (message param value)
    → put_param net param value (ws ++ wrote rest ∷ later)
      ≡ some (net.to_network (length (message param value)) ++ message param value, true)
unfolding put_param
put_param-message net nl param value ws later rest fits t k e =
    if-cases (λ (o : Option (Bytes × Bool)). o ≡ some (string, true))
      (ltb buffer_size (length text)) (λ y. absurd (ground arith))
      (λ _. ap reported (
        writev_all-write_all (header ∷ text ∷ []) (ws ++ wrote rest ∷ later)
          (omega (arith, nl.four_bytes (length text), length-append header (text ++ [])))
        ∙ ap (λ u. write_all (header ++ u) (ws ++ wrote rest ∷ later)) (append-nil text)
        ∙ ap (λ r. write_all string (ws ++ wrote r ∷ later)) {y = length string - taken ws}
            (omega (arith, e, measured))
        ∙ (write_all-Writing ws later string 0 t (omega (arith, e, k, measured))).0))
  where
    text : Bytes
    text = message param value

    header : Bytes
    header = net.to_network (length text)

    string : Bytes
    string = header ++ text

    measured : length string ≡ 4 + length text
    measured = omega (arith, nl.four_bytes (length text), length-append header text)
