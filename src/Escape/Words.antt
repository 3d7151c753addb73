-- ===== src/Escape/Words.antt =====
-- vgseer/vgseer.c: what `escape_filename` types for a name stands in the command line as a word.
use mathlib.Core.List.{append_assoc}
use viewglob.Base.{
  ℕ, suc, ◌-◌, ◌≡◌, refl, sym, ap, ◌∙◌, Bool, true, false, ◌||◌, List, [], ◌∷◌, ◌++◌, ◌⊎◌, Option,
  none, some, Bytes, codes, ◌==◌, length, inl, inr, lacks, arith,
}
use viewglob.Connection.{at_prompt}
use viewglob.Libs.{Libs}
use viewglob.CmdLine.Edit.{Editor, byte_at}
use viewglob.CmdLine.Move.{is_space, cmd_whitespace_to_left, cmd_whitespace_to_right}
use viewglob.CmdLine.Zipper.{Shows}
use viewglob.Escape.{is_in, escape, space_unless, escape_filename}
use viewglob.Escape.Reader.{
  Token, word, Reader, leaders, tokens_of, closed, read_bytes, beginning, read_line,
  read_bytes-append, tokens_of-closed, space-closed, read_bytes-unquoted, read_bytes-space,
}
use viewglob.Escape.Typed.{and_second, is_one_line, escaped_byte, escaped_name}

-- The bytes of a holdover, which `process_vgd` has `prepend_holdover` put in front of what is typed.
abbrev pub held : Option Bytes → Bytes
held none = []
held (some h) = h

byte_at-append : (l r : Bytes) → byte_at (l ++ r) (length l) ≡ byte_at r 0
byte_at-append [] r = refl
byte_at-append (c ∷ cs) r = byte_at-append cs r

module _ (libs : Libs) (e : Editor) (l r : Bytes) (h : Shows e l r) where
  left_space :
      (cmd_whitespace_to_left libs none e
        ≡ (length l == 0 || is_space (byte_at (l ++ r) (length l - 1))))
      × (cmd_whitespace_to_left libs (some (32 ∷ [])) e ≡ true)
  unfolding cmd_whitespace_to_left
  left_space = (ground (arith, h.single_byte, h.text_eq, h.pos_eq), ground arith)

  right_space : cmd_whitespace_to_right libs e ≡ is_space (byte_at r 0)
  unfolding cmd_whitespace_to_right
  right_space = rw (h.single_byte, h.text_eq, h.pos_eq) (ap is_space (byte_at-append l r))

tail_space :
    (r : Bytes) (c : ℕ) (cs : Bytes)
    → true ≡ (length (c ∷ cs) == 0 || is_space (byte_at ((c ∷ cs) ++ r) (length (c ∷ cs) - 1)))
    → is_space (byte_at ((c ∷ cs) ++ r) (length cs)) ≡ true
tail_space r c cs y =
    at_index (length cs) (suc (length cs) - 1) (omega arith) (nonempty (length cs) y)
  where
    nonempty : {b : Bool} (n : ℕ) → true ≡ (suc n == 0 || b) → b ≡ true
    nonempty n k = ground arith

    at_index :
        (i j : ℕ)
        → i ≡ j
        → is_space (byte_at ((c ∷ cs) ++ r) j) ≡ true
        → is_space (byte_at ((c ∷ cs) ++ r) i) ≡ true
    at_index i j k x = ap (λ n. is_space (byte_at ((c ∷ cs) ++ r) n)) k ∙ x

-- What stands before the name leaves no word begun.
left_closed :
    (l r : Bytes) (holdover : Option Bytes) (white : Bool)
    → lacks 92 l ≡ true
    → (holdover ≡ none) × (white ≡ (length l == 0 || is_space (byte_at (l ++ r) (length l - 1))))
      ⊎ (holdover ≡ some (32 ∷ [])) × (white ≡ true)
    → read_bytes (held holdover ++ space_unless white) (read_bytes l beginning)
      ≡ closed (read_bytes l beginning)
left_closed l r holdover white a (inr (k, y)) =
    rw (k, y)
      (space-closed 32 (read_bytes l beginning) (read_bytes-unquoted l beginning refl a) refl)
left_closed l r holdover true a (inl (k, y)) = rw k (sym (begun l a y))
  where
    begun :
        (l : Bytes)
        → lacks 92 l ≡ true
        → true ≡ (length l == 0 || is_space (byte_at (l ++ r) (length l - 1)))
        → closed (read_bytes l beginning) ≡ read_bytes l beginning
    begun [] a y = refl
    begun (c ∷ cs) a y = read_bytes-space c cs r beginning refl a (tail_space r c cs y)
left_closed l r holdover false a (inl (k, y)) =
    rw k (space-closed 32 (read_bytes l beginning) (read_bytes-unquoted l beginning refl a) refl)

-- What stands behind the name ends its word.
right_closed :
    (r w : Bytes) (d : List Token) (white : Bool)
    → white ≡ is_space (byte_at r 0)
    → tokens_of (
        read_bytes
          (space_unless white ++ r)
          (record { quoted = false; partial = some w; done = d }))
      ≡ (d ++ word w ∷ []) ++ read_line r
right_closed r w d false y =
    tokens_of-closed r (record { quoted = false; partial = some w; done = d })
right_closed [] w d true y = cc y
right_closed (b ∷ bs) w d true y =
    ap (λ (s : Reader). tokens_of (read_bytes bs s))
      (space-closed b (record { quoted = false; partial = some w; done = d }) refl (sym y))
    ∙ tokens_of-closed bs (record { quoted = false; partial = some w; done = d })
    ∙ ap (λ (s : Reader). (d ++ word w ∷ []) ++ tokens_of (read_bytes bs s))
        (sym (space-closed b beginning refl (sym y)))

-- The name between what is on its two sides.
between :
    (before after : Bytes) (c : ℕ) (cs : Bytes) (s : Reader)
    → is_one_line (c ∷ cs) ≡ true
    → is_in c leaders ≡ false
    → read_bytes before s ≡ closed s
    → read_bytes (before ++ (escape true (c ∷ cs) ++ after)) s
      ≡ read_bytes after (record { quoted = false; partial = some (c ∷ cs); done = tokens_of s })
between before after c cs s o n k =
    read_bytes-append before (escape true (c ∷ cs) ++ after) s
    ∙ ap (read_bytes (escape true (c ∷ cs) ++ after)) k
    ∙ read_bytes-append (escape true (c ∷ cs)) after (closed s)
    ∙ ap (read_bytes after) (
        escaped_byte c cs (closed s) refl (ground arith) n
        ∙ escaped_name cs (c ∷ []) (tokens_of s) (and_second _ _ o))

-- With the cursor between `l` and `r` in a single-byte locale, and no holdover or a space, the line
-- in which the holdover and what `escape_filename` types at the prompt stand at the cursor is read
-- as the tokens of `l`, the name as one word, and the tokens of `r`. There is no backslash in `l`;
-- the name is not empty, begins with neither `~` nor `=`, and has no line feed, vertical tab, form
-- feed or carriage return. The reader knows backslashes, white space and bytes that are tokens of their
-- own, quotation marks among them; it expands nothing.
pub read_line-escape_filename :
    (libs : Libs) (e : Editor) (l r : Bytes) (c : ℕ) (cs : Bytes) (holdover : Option Bytes)
    → Shows e l r
    → (holdover ≡ none) ⊎ (holdover ≡ some (codes " "))
    → lacks 92 l ≡ true
    → is_one_line (c ∷ cs) ≡ true
    → is_in c leaders ≡ false
    → read_line (l ++ ((held holdover ++ escape_filename libs (c ∷ cs) e at_prompt holdover) ++ r))
      ≡ read_line l ++ (word (c ∷ cs) ∷ read_line r)
unfolding escape_filename
read_line-escape_filename libs e l r c cs holdover h k a o n =
    ap tokens_of (
      read_bytes-append l _ beginning
      ∙ ap (λ (t : Bytes). read_bytes t s) regrouped
      ∙ between before after c cs s o n (left_closed l r holdover white a (sides k)))
    ∙ right_closed r (c ∷ cs) (read_line l) (cmd_whitespace_to_right libs e)
        (right_space libs e l r h)
    ∙ append_assoc (read_line l) (word (c ∷ cs) ∷ []) (read_line r)
  where
    white : Bool
    white = cmd_whitespace_to_left libs holdover e

    before : Bytes
    before = held holdover ++ space_unless white

    after : Bytes
    after = space_unless (cmd_whitespace_to_right libs e) ++ r

    s : Reader
    s = read_bytes l beginning

    regrouped :
        (held holdover ++ escape_filename libs (c ∷ cs) e at_prompt holdover) ++ r
        ≡ before ++ (escape true (c ∷ cs) ++ after)
    regrouped = simp append_assoc refl

    sides :
        (holdover ≡ none) ⊎ (holdover ≡ some (codes " "))
        → (holdover ≡ none)
            × (white ≡ (length l == 0 || is_space (byte_at (l ++ r) (length l - 1))))
          ⊎ (holdover ≡ some (32 ∷ [])) × (white ≡ true)
    sides (inl y) =
        inl (y, ap (λ o. cmd_whitespace_to_left libs o e) y ∙ (left_space libs e l r h).0)
    sides (inr y) =
        inr (y, ap (λ o. cmd_whitespace_to_left libs o e) y ∙ (left_space libs e l r h).1)
