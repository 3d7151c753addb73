-- ===== src/Vgexpand/Parts.antt =====
-- vgexpand/vgexpand.c: the parts of a path, `vg_dirname` and `vg_basename`, put together again.
use viewglob.Base.{
  ℕ, ◌+◌, ◌≡◌, refl, sym, ap, ◌∙◌, Bool, true, false, ◌&&◌, [], ◌∷◌, ◌++◌, Option, none, some,
  Bytes, codes, arith, length, take, take-append-drop, drop, ltb, ◌==◌, if◌then◌else◌, if-cases,
  Bool-cases, inl, inr,
}
use viewglob.ParamIo.{streq}
use viewglob.ParamIo.Equal.{streq_equal}
use viewglob.Vgexpand.Path.{
  slash, find_prev, starts_at_root, below_pwd, above, vg_dirname, base_at, vg_basename,
}
use viewglob.Vgexpand.Normal.{has_double_slash}

-- A name in a directory.
abbrev pub join_path : Bytes → Bytes → Bytes
join_path dir base = (if streq dir (codes "/") then dir else dir ++ codes "/") ++ base

drop_next : (n : ℕ) (s : Bytes) (b : ℕ) (t : Bytes) → drop n s ≡ b ∷ t → drop (ℕ.suc n) s ≡ t
drop_next ℕ.zero [] b t h = cc h
drop_next ℕ.zero (c ∷ s) b t h = cc h
drop_next (ℕ.suc n) [] b t h = cc h
drop_next (ℕ.suc n) (c ∷ s) b t h = drop_next n s b t h

-- The position that is found splits the string.
find_prev_cuts :
    (s : Bytes) (n c k : ℕ) → find_prev s n c ≡ some k → take k s ++ (c ∷ drop (ℕ.suc k) s) ≡ s
find_prev_cuts s ℕ.zero c k h = cc h
find_prev_cuts s (ℕ.suc n) c k h = by_rest (drop n s) refl h (find_prev_cuts s n c k)
  where
    at_end :
        (b : ℕ) (t : Bytes)
        → drop n s ≡ b ∷ t
        → b ≡ c
        → n ≡ k
        → take k s ++ (c ∷ drop (ℕ.suc k) s) ≡ s
    at_end b t e p q =
        ap (λ j. take j s ++ (c ∷ drop (ℕ.suc j) s)) (sym q)
        ∙ ap (λ u. take n s ++ (c ∷ u)) (drop_next n s b t e)
        ∙ ap (λ x. take n s ++ (x ∷ t)) (sym p)
        ∙ ap (λ u. take n s ++ u) (sym e)
        ∙ take-append-drop n s

    by_rest :
        (r : Bytes)
        → drop n s ≡ r
        → elim r [ [] ↦ find_prev s n c | b ∷ _ ↦ if b == c then some n else find_prev s n c ]
          ≡ some k
        → (find_prev s n c ≡ some k → take k s ++ (c ∷ drop (ℕ.suc k) s) ≡ s)
        → take k s ++ (c ∷ drop (ℕ.suc k) s) ≡ s
    by_rest [] e f before = before f
    by_rest (b ∷ t) e f before =
        if-cases (λ (o : Option ℕ). o ≡ some k → take k s ++ (c ∷ drop (ℕ.suc k) s) ≡ s) (b == c)
          (λ y g. at_end b t e (ground arith) (cc g)) (λ _. before) f

-- A slash is found in a path that begins with one.
found_at_root :
    (s : Bytes) (n : ℕ) → starts_at_root s ≡ true → (k : ℕ) × (find_prev s (ℕ.suc n) slash ≡ some k)
found_at_root [] n h = cc h
found_at_root (c ∷ s) ℕ.zero h = (0, ap (λ (b : Bool). if b then some 0 else none) h)
found_at_root (c ∷ s) (ℕ.suc n) h = by_rest (drop (ℕ.suc n) (c ∷ s)) (found_at_root (c ∷ s) n h)
  where
    by_rest :
        (r : Bytes)
        → (k : ℕ) × (find_prev (c ∷ s) (ℕ.suc n) slash ≡ some k)
        → (k : ℕ) × (elim r [
          | [] ↦ find_prev (c ∷ s) (ℕ.suc n) slash
          | b ∷ _ ↦ if b == slash then some (ℕ.suc n) else find_prev (c ∷ s) (ℕ.suc n) slash
        ]
            ≡ some k)
    by_rest [] q = q
    by_rest (b ∷ t) q =
        if-cases (λ (o : Option ℕ). (k : ℕ) × (o ≡ some k)) (b == slash) (λ _. (ℕ.suc n, refl))
          (λ _. q)

append_assoc : (a b c : Bytes) → (a ++ b) ++ c ≡ a ++ (b ++ c)
append_assoc [] b c = refl
append_assoc (x ∷ a) b c = ap (λ u. x ∷ u) (append_assoc a b c)

join_path_lem :
    (dir base : Bytes) → streq dir (codes "/") ≡ false → join_path dir base ≡ dir ++ (slash ∷ base)
join_path_lem dir base h =
    ap (λ (b : Bool). (if b then dir else dir ++ codes "/") ++ base) h
    ∙ append_assoc dir (codes "/") base

-- The part before a later slash is not the root.
above_deep :
    (path : Bytes) (k : ℕ)
    → has_double_slash path ≡ false
    → take k path ++ (slash ∷ drop (ℕ.suc k) path) ≡ path
    → streq (take k path) (codes "/") ≡ false
above_deep path k h e = elim (Bool-cases (streq (take k path) (codes "/"))) [
  | inl y ↦
      let twice : slash ∷ slash ∷ drop (ℕ.suc k) path ≡ path =
        ap (λ u. u ++ (slash ∷ drop (ℕ.suc k) path)) (sym (streq_equal (take k path) (codes "/") y))
        ∙ e in
      cc (ap has_double_slash twice, h)
  | inr n ↦ n
]

-- The base name behind a slash.
base_inner :
    (path : Bytes) (k : ℕ)
    → ltb 1 (length path) ≡ true
    → base_at path (some k) ≡ drop (ℕ.suc k) path
base_inner path k l =
    if-cases (λ (b : Bytes). b ≡ drop (ℕ.suc k) path) (k == 0 && length path == 1)
      (λ y. absurd (ground arith))
      (λ _. let e : k + 1 ≡ ℕ.suc k = ground arith in ap (λ j. drop j path) e)

absolute_parts :
    (path : Bytes) (k : ℕ)
    → has_double_slash path ≡ false
    → ltb 1 (length path) ≡ true
    → take k path ++ (slash ∷ drop (ℕ.suc k) path) ≡ path
    → join_path (above path (some k)) (base_at path (some k)) ≡ path
absolute_parts path k h l e =
    ap (join_path (above path (some k))) (base_inner path k l)
    ∙ if-cases (λ (dir : Bytes). join_path dir (drop (ℕ.suc k) path) ≡ path) (k == 0)
        (λ y.
          let z : k ≡ 0 = ground arith in
          ap (λ j. take j path ++ (slash ∷ drop (ℕ.suc k) path)) (sym z) ∙ e)
        (λ _. join_path_lem (take k path) (drop (ℕ.suc k) path) (above_deep path k h e) ∙ e)

and_false : (b : Bool) → (b && false) ≡ false
and_false true = refl
and_false false = refl

is_long : Bytes → Bool
is_long [] = false
is_long (c ∷ s) = true

streq_longer :
    (p t : Bytes) → is_long p ≡ true → is_long t ≡ true → streq (p ++ t) (codes "/") ≡ false
unfolding is_long
streq_longer [] t h k = cc h
streq_longer (c ∷ []) [] h k = cc k
streq_longer (c ∷ []) (d ∷ t) h k = and_false (c == slash)
streq_longer (c ∷ d ∷ p) t h k = and_false (c == slash)

with_slash_long :
    (pwd : Bytes) → is_long (if streq pwd (codes "/") then pwd else pwd ++ codes "/") ≡ true
unfolding is_long
with_slash_long pwd =
    if-cases (λ p. is_long p ≡ true) (streq pwd (codes "/"))
      (λ y. ap is_long (streq_equal pwd (codes "/") y)) (λ _. appended pwd)
  where
    appended : (s : Bytes) → is_long (s ++ codes "/") ≡ true
    appended [] = refl
    appended (c ∷ s) = refl

take_long :
    (path : Bytes) (k : ℕ)
    → starts_at_root path ≡ false
    → take k path ++ (slash ∷ drop (ℕ.suc k) path) ≡ path
    → is_long (take k path) ≡ true
unfolding is_long
take_long path ℕ.zero r e = cc (ap starts_at_root e, r)
take_long [] (ℕ.suc k) r e = cc e
take_long (c ∷ path) (ℕ.suc k) r e = refl

relative_parts :
    (pwd path : Bytes) (k : ℕ)
    → starts_at_root path ≡ false
    → ltb 1 (length path) ≡ true
    → take k path ++ (slash ∷ drop (ℕ.suc k) path) ≡ path
    → join_path (below_pwd pwd path (some k)) (base_at path (some k)) ≡ join_path pwd path
relative_parts pwd path k r l e =
    let p : Bytes = if streq pwd (codes "/") then pwd else pwd ++ codes "/" in
    ap (join_path (below_pwd pwd path (some k))) (base_inner path k l)
    ∙ join_path_lem (p ++ take k path) (drop (ℕ.suc k) path)
        (streq_longer p (take k path) (with_slash_long pwd) (take_long path k r e))
    ∙ append_assoc p (take k path) (slash ∷ drop (ℕ.suc k) path)
    ∙ ap (λ u. p ++ u) e

-- The directory and the base name of a path put together are the path, or the path below the working
-- directory if it is relative. The path has no two slashes one behind the other, as `normalize_path`
-- leaves it, and more than one byte.
pub vg_dirname-vg_basename :
    (pwd path : Bytes)
    → has_double_slash path ≡ false
    → ltb 1 (length path) ≡ true
    → join_path (vg_dirname pwd path) (vg_basename path)
      ≡ (if starts_at_root path then path else join_path pwd path)
unfolding vg_dirname vg_basename
vg_dirname-vg_basename pwd path h l = elim (Bool-cases (starts_at_root path)) [
  | inl y ↦
      let (k, f) = at_root path l y in
      rw (y, f) (absolute_parts path k h l (find_prev_cuts path (length path) slash k f))
  | inr n ↦ rw n (
      below (find_prev path (length path) slash) (λ k. find_prev_cuts path (length path) slash k) n)
]
  where
    at_root :
        (s : Bytes)
        → ltb 1 (length s) ≡ true
        → starts_at_root s ≡ true
        → (k : ℕ) × (find_prev s (length s) slash ≡ some k)
    at_root [] m y = cc y
    at_root (c ∷ s) m y = found_at_root (c ∷ s) (length s) y

    below :
        (o : Option ℕ)
        → ((k : ℕ) → o ≡ some k → take k path ++ (slash ∷ drop (ℕ.suc k) path) ≡ path)
        → starts_at_root path ≡ false
        → join_path (below_pwd pwd path o) (base_at path o) ≡ join_path pwd path
    below none g n = refl
    below (some k) g n = relative_parts pwd path k n l (g k refl)
