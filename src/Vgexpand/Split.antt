-- ===== src/Vgexpand/Split.antt =====
-- vgexpand/vgexpand.c: `split`, which makes masks of the words of the mask string.
use viewglob.Base.{
  ℕ, ◌-◌, Bool, true, false, List, [], ◌∷◌, ◌++◌, Option, none, some, Bytes, length, take, ◌==◌,
  if◌then◌else◌,
}
use viewglob.Vgexpand.Path.{has_trailing_slash}

-- `struct mask`
pub record Mask : Type 0 where
  pub pattern : Bytes
  pub dirs_only : Bool

abbrev pub space : ℕ
space = 32

-- What `switch` does with a byte.
pub data ByteCase : Type 0 where
  a_space : ByteCase
  a_backslash : ByteCase
  a_quote : ByteCase
  another : ByteCase

abbrev pub case_of : ℕ → ByteCase
case_of c =
    if c == space
    then a_space
    else if c == 92
    then a_backslash
    else if c == 34
    then a_quote
    else if c == 39
    then a_quote
    else another

-- Where the loop stands: at a byte of a word, at the spaces behind one, behind a backslash, or inside
-- a quote of a kind.
pub data SplitState : Type 0 where
  in_word : SplitState
  in_spaces : SplitState
  escaped : SplitState
  in_quotes : ℕ → SplitState

abbrev pub and_word : Bytes → Option (List Bytes) → Option (List Bytes)
and_word w none = none
and_word w (some ws) = some (w ∷ ws)

-- The word that ends with the string; an empty one, of a string that was gone through, is none.
abbrev pub last_word : Bytes → List Bytes
last_word [] = []
last_word (c ∷ cs) = (c ∷ cs) ∷ []

-- `start` is the word up to `end`, then comes the rest. The result is `none` where the code reads
-- beyond the end of the string.
unfoldable pub split_loop : SplitState → Bytes → Bytes → Option (List Bytes)
split_loop in_word start [] = some (last_word start)
split_loop in_spaces start [] = some []
split_loop escaped start [] = none
split_loop (in_quotes q) start [] = none
split_loop in_word start (c ∷ end) =
    let after_space = split_loop in_spaces [] end in
    let after_backslash = split_loop escaped (start ++ (c ∷ [])) end in
    let quoted = split_loop (in_quotes c) (start ++ (c ∷ [])) end in
    let rest = split_loop in_word (start ++ (c ∷ [])) end in
    elim (case_of c) [
      | a_space ↦ and_word start after_space
      | a_backslash ↦ after_backslash
      | a_quote ↦ quoted
      | another ↦ rest
    ]
split_loop in_spaces start (c ∷ end) =
    let after_space = split_loop in_spaces [] end in
    let after_backslash = split_loop escaped (c ∷ []) end in
    let quoted = split_loop (in_quotes c) (c ∷ []) end in
    let rest = split_loop in_word (c ∷ []) end in
    elim (case_of c) [
      | a_space ↦ after_space
      | a_backslash ↦ after_backslash
      | a_quote ↦ quoted
      | another ↦ rest
    ]
split_loop escaped start (c ∷ end) = split_loop in_word (start ++ (c ∷ [])) end
split_loop (in_quotes q) start (c ∷ end) =
    let closed = split_loop in_word (start ++ (c ∷ [])) end in
    let unclosed = split_loop (in_quotes q) (start ++ (c ∷ [])) end in
    if c == q then closed else unclosed

-- The trailing slash of a pattern.
abbrev pub mask_of : Bytes → Mask
mask_of pattern =
    if has_trailing_slash pattern
    then record { pattern = take (length pattern - 1) pattern; dirs_only = true }
    else record { pattern = pattern; dirs_only = false }

abbrev pub masks_of : List Bytes → List Mask
masks_of [] = []
masks_of (w ∷ ws) = mask_of w ∷ masks_of ws

-- `g_strchug`: the leading blanks of ASCII are left out.
abbrev pub is_blank : ℕ → Bool
is_blank c =
    if c == space
    then true
    else if c == 9
    then true
    else if c == 10
    then true
    else if c == 12
    then true
    else c == 13

abbrev pub g_strchug : Bytes → Bytes
g_strchug [] = []
g_strchug (c ∷ cs) = if is_blank c then g_strchug cs else c ∷ cs

unfoldable pub split : Bytes → Option (List Mask)
unfolding split_loop
split mask = elim (split_loop in_word [] (g_strchug mask)) [
  | none ↦ none
  | some ws ↦ some (masks_of ws)
]
