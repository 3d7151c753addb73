-- ===== src/CmdLine/Zipper.antt =====
-- vgseer/cmdline.c in a single-byte locale: the command line as the bytes before the cursor and
-- those from the cursor on, and what each operation does to the two.
use mathlib.Core.List.{append_assoc}
use viewglob.Base.{
  ℕ, zero, suc, ◌-◌, ◌≤◌, ◌<◌, ◌≡◌, refl, sym, ap, ◌∙◌, Bool, true, false, [], ◌∷◌, ◌++◌, ◌⊎◌,
  Bytes, arith, ◌==◌, length, set, take, drop, replicate, if◌then◌else◌, length-append, length-take,
  take-append-drop, take-append_at, drop-append_at, drop-drop,
}
use viewglob.Base.Int.{pos}
use viewglob.Libs.{Libs}
use viewglob.CmdLine.Edit.{
  Editor, string_erase, string_insert, insert_times, cmd_clear, cmd_overwrite_char, cmd_del_chars,
  cmd_insert_chars,
}
use viewglob.CmdLine.Move.{cmd_forward, cmd_backward}

-- The cursor of `e` stands between `l` and `r`, in a single-byte locale.
pub record Shows (e : Editor) (l r : Bytes) : Type 0 where
  pub single_byte : e.cmd.is_utf8 ≡ false
  pub text_eq : e.cmd.text ≡ l ++ r
  pub pos_eq : e.cmd.pos ≡ length l

-- A cursor in or at the end of the text splits it.
pub Shows_split :
    (e : Editor)
    → e.cmd.is_utf8 ≡ false
    → e.cmd.pos ≤ length e.cmd.text
    → Shows e (take e.cmd.pos e.cmd.text) (drop e.cmd.pos e.cmd.text)
Shows_split e u h = record {
  single_byte = u;
  text_eq = sym (take-append-drop e.cmd.pos e.cmd.text);
  pos_eq = omega (arith, length-take e.cmd.pos e.cmd.text);
}

overwritten :
    (l r : Bytes) (c : ℕ)
    → (if length l == length (l ++ r) then (l ++ r) ++ c ∷ [] else set (l ++ r) (length l) c)
      ≡ (l ++ c ∷ []) ++ drop 1 r
overwritten [] [] c = refl
overwritten [] (x ∷ r) c = ground arith
overwritten (x ∷ l) r c = ground (arith, overwritten l r c)

erased : (l r : Bytes) (n : ℕ) → string_erase (l ++ r) (length l) n ≡ l ++ drop n r
erased l r n = ground (
  arith,
  take-append_at (length l) l r refl,
  drop-append_at (length l) l r refl,
  drop-drop n (length l) (l ++ r),
)

inserted : (l r s : Bytes) → string_insert (l ++ r) (length l) s ≡ l ++ (s ++ r)
inserted l r s =
    ground (arith, take-append_at (length l) l r refl, drop-append_at (length l) l r refl)

insert_times-replicate :
    (n c : ℕ) (l r : Bytes) → insert_times n c (length l) (l ++ r) ≡ l ++ (replicate n c ++ r)
unfolding insert_times
insert_times-replicate zero c l r = refl
insert_times-replicate (suc n) c l r =
    ap (insert_times n c (length l)) (inserted l r (c ∷ []))
    ∙ insert_times-replicate n c l (c ∷ r)
    ∙ ap (λ s. l ++ s) (replicate_shift n c r)
  where
    replicate_shift : (n c : ℕ) (r : Bytes) → replicate n c ++ c ∷ r ≡ c ∷ (replicate n c ++ r)
    replicate_shift zero c r = refl
    replicate_shift (suc n) c r = ap (◌∷◌ c) (replicate_shift n c r)

length-drop_front : (n : ℕ) (l r : Bytes) → n ≤ length r → length (take n r) ≡ n
length-drop_front n l r h = omega (arith, length-take n r)

-- The command line is empty.
pub cmd_clear-Shows : (e : Editor) → e.cmd.is_utf8 ≡ false → Shows (cmd_clear e) [] []
unfolding cmd_clear
cmd_clear-Shows e h = record { single_byte = h; text_eq = refl; pos_eq = refl }

-- What erasing, moving on and moving back do to the two parts, or that they fail.
abbrev pub Deletes : ℕ → Bytes → Bytes → Editor × Bool → Type 0
Deletes n l r (e', done) =
    (done ≡ true) × (n ≤ length r) × Shows e' l (drop n r)
    ⊎ (done ≡ false) × (length r < n) × Shows e' l r

abbrev pub Forwards : ℕ → Bytes → Bytes → Editor × Bool → Type 0
Forwards n l r (e', done) =
    (done ≡ true) × (n ≤ length r) × Shows e' (l ++ take n r) (drop n r)
    ⊎ (done ≡ false) × (length r < n) × Shows e' l r

abbrev pub Backwards : ℕ → Bytes → Bytes → Editor × Bool → Type 0
Backwards n l r (e', done) =
    (done ≡ true) × (n ≤ length l) × Shows e' (take (length l - n) l) (drop (length l - n) l ++ r)
    ⊎ (done ≡ false) × (length l < n) × Shows e' l r

module _ (libs : Libs) {e : Editor} {l r : Bytes} where
  -- In a single-byte locale, with the cursor between `l` and `r`: the character replaces the
  -- first of `r`, or is added at the end; the cursor moves on over it.
  pub cmd_overwrite_char-Shows :
      (c : ℕ) → Shows e l r → Shows (cmd_overwrite_char libs c false e) (l ++ c ∷ []) (drop 1 r)
  unfolding cmd_overwrite_char
  cmd_overwrite_char-Shows c h = record {
    single_byte = ground arith;
    text_eq = ground (arith, overwritten l r c);
    pos_eq = ground (arith, length-append l (c ∷ []));
  }

  -- In a single-byte locale, with the cursor between `l` and `r`: `n` copies of the
  -- character are inserted at the cursor, which stays in front of them, and the call succeeds.
  pub cmd_insert_chars-Shows :
      (c n : ℕ)
      → Shows e l r
      → Shows (cmd_insert_chars c (pos n) e).0 l (replicate n c ++ r)
        × ((cmd_insert_chars c (pos n) e).1 ≡ true)
  unfolding cmd_insert_chars
  cmd_insert_chars-Shows c n h = (
    record {
      single_byte = ground arith;
      text_eq = ground (arith, insert_times-replicate n c l r);
      pos_eq = ground arith;
    },
    refl,
  )

  -- In a single-byte locale, with the cursor between `l` and `r`: the next `n` characters
  -- are erased, or, where fewer are left, the call fails and leaves the text and the cursor.
  pub cmd_del_chars-Deletes : (n : ℕ) → Shows e l r → Deletes n l r (cmd_del_chars libs (pos n) e)
  unfolding cmd_del_chars
  cmd_del_chars-Deletes n h = ground (arith, erased l r n, length-append l r)

  -- In a single-byte locale, with the cursor between `l` and `r`: the cursor moves `n`
  -- characters on and the text stays; where fewer are left, the call fails and the cursor stays.
  pub cmd_forward-Forwards :
      (n : ℕ) → Shows e l r → Forwards n l r (cmd_forward libs (pos n) true e)
  unfolding cmd_forward
  cmd_forward-Forwards n h = ground (
    arith,
    length-append l r,
    length-append l (take n r),
    length-take n r,
    append_assoc l (take n r) (drop n r),
    take-append-drop n r,
  )

  -- In a single-byte locale, with the cursor between `l` and `r`: the cursor moves `n`
  -- characters back and the text stays; where fewer stand before it, the call fails and the cursor
  -- stays.
  pub cmd_backward-Backwards :
      (n : ℕ) → Shows e l r → Backwards n l r (cmd_backward libs (pos n) true e)
  unfolding cmd_backward
  cmd_backward-Backwards n h = ground (
    arith,
    length-take (length l - n) l,
    append_assoc (take (length l - n) l) (drop (length l - n) l) r,
    take-append-drop (length l - n) l,
  )
