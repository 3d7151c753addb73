-- ===== src/Vgexpand/Normal.antt =====
-- vgexpand/vgexpand.c: normal paths, and their parts.
use viewglob.Base.{
  ℕ, ◌-◌, ◌≤◌, ◌≡◌, refl, sym, ap, ◌∙◌, Bool, true, false, ◌&&◌, ◌||◌, [], ◌∷◌, Bytes, arith,
  length, length-take, take, ltb, ◌==◌, if◌then◌else◌, if-cases,
}
use viewglob.Vgexpand.Path.{slash, squeeze, has_trailing_slash, normalize_path, starts_at_root}

-- Two slashes one behind the other.
abbrev pub has_double_slash : Bytes → Bool
has_double_slash [] = false
has_double_slash (c ∷ cs) = (c == slash && starts_at_root cs) || has_double_slash cs

no_double :
    (c : ℕ) (cs : Bytes)
    → (c == slash && starts_at_root cs) ≡ false
    → has_double_slash cs ≡ false
    → has_double_slash (c ∷ cs) ≡ false
no_double c cs h k = ap (λ b. b || has_double_slash cs) h ∙ k

pub double_first :
    (c : ℕ) (cs : Bytes)
    → has_double_slash (c ∷ cs) ≡ false
    → (c == slash && starts_at_root cs) ≡ false
double_first c cs h = or_left (c == slash && starts_at_root cs) (has_double_slash cs) h
  where
    or_left : (a b : Bool) → (a || b) ≡ false → a ≡ false
    or_left true b k = k
    or_left false b k = refl

double_rest : (c : ℕ) (cs : Bytes) → has_double_slash (c ∷ cs) ≡ false → has_double_slash cs ≡ false
double_rest c cs h = or_right (c == slash && starts_at_root cs) (has_double_slash cs) h
  where
    or_right : (a b : Bool) → (a || b) ≡ false → b ≡ false
    or_right true b k = cc k
    or_right false b k = k

squeeze_no_double :
    (seen : Bool) (cs : Bytes)
    → (has_double_slash (squeeze seen cs) ≡ false) × (starts_at_root (squeeze true cs) ≡ false)
squeeze_no_double seen [] = (refl, refl)
squeeze_no_double seen (c ∷ cs) =
    let (d, r) = squeeze_no_double true cs in
    let (e, _) = squeeze_no_double false cs in
    (
      if-cases (λ (l : Bytes). has_double_slash l ≡ false) (c == slash)
          (λ _.
            if-cases (λ (l : Bytes). has_double_slash l ≡ false) seen (λ _. d)
              (λ _. no_double slash (squeeze true cs) r d))
          (λ n.
            no_double c (squeeze false cs) (ap (λ b. b && starts_at_root (squeeze false cs)) n) e),
      if-cases (λ (l : Bytes). starts_at_root l ≡ false) (c == slash) (λ _. r) (λ n. n),
    )

squeeze_normal :
    (seen : Bool) (cs : Bytes)
    → has_double_slash cs ≡ false
    → (seen && starts_at_root cs) ≡ false
    → squeeze seen cs ≡ cs
squeeze_normal seen [] h k = refl
squeeze_normal seen (c ∷ cs) h k =
    if-cases (λ (l : Bytes). l ≡ c ∷ cs) (c == slash)
      (λ y.
        if-cases (λ (l : Bytes). l ≡ c ∷ cs) seen
          (λ z. cc (sym (ap (λ b. seen && b) y) ∙ k, ap (λ b. b && true) z))
          (λ _.
            let e : c ≡ slash = ground arith in
            ap (λ x. x ∷ squeeze true cs) (sym e)
            ∙ ap (λ u. c ∷ u)
                (squeeze_normal true cs (double_rest c cs h)
                  (sym (ap (λ b. b && starts_at_root cs) y) ∙ double_first c cs h))))
      (λ _. ap (λ u. c ∷ u) (squeeze_normal false cs (double_rest c cs h) refl))

length-squeeze : (seen : Bool) (cs : Bytes) → length (squeeze seen cs) ≤ length cs
length-squeeze seen [] = ground arith
length-squeeze seen (c ∷ cs) =
    if-cases (λ (l : Bytes). length l ≤ length (c ∷ cs)) (c == slash)
      (λ _.
        if-cases (λ (l : Bytes). length l ≤ length (c ∷ cs)) seen
          (λ _. ground (arith, length-squeeze true cs))
          (λ _. ground (arith, length-squeeze true cs)))
      (λ _. ground (arith, length-squeeze false cs))

starts-take : (n : ℕ) (cs : Bytes) → starts_at_root cs ≡ false → starts_at_root (take n cs) ≡ false
starts-take ℕ.zero cs h = refl
starts-take (ℕ.suc n) [] h = refl
starts-take (ℕ.suc n) (c ∷ cs) h = h

double-take :
    (n : ℕ) (cs : Bytes) → has_double_slash cs ≡ false → has_double_slash (take n cs) ≡ false
double-take ℕ.zero cs h = refl
double-take (ℕ.suc n) [] h = refl
double-take (ℕ.suc n) (c ∷ cs) h =
    no_double c (take n cs) (by_first (c == slash) (starts_at_root cs) refl (double_first c cs h))
      (double-take n cs (double_rest c cs h))
  where
    by_first :
        (a b : Bool)
        → starts_at_root cs ≡ b
        → (a && b) ≡ false
        → (a && starts_at_root (take n cs)) ≡ false
    by_first false b e k = refl
    by_first true b e k = starts-take n cs (e ∙ k)

trailing-take :
    (c : ℕ) (cs : Bytes)
    → has_double_slash (c ∷ cs) ≡ false
    → has_trailing_slash (c ∷ cs) ≡ true
    → has_trailing_slash (take (length cs) (c ∷ cs)) ≡ false
trailing-take c [] h t = refl
trailing-take c (d ∷ []) h t = and_true (c == slash) (d == slash) t (double_first c (d ∷ []) h)
  where
    and_true : (a b : Bool) → b ≡ true → (a && b) ≡ false → a ≡ false
    and_true false b e k = refl
    and_true true b e k = sym e ∙ k
trailing-take c (d ∷ x ∷ cs) h t = trailing-take d (x ∷ cs) (double_rest c (d ∷ x ∷ cs) h) t

-- No two slashes are one behind the other, and the last byte is none, unless it is the only one.
abbrev pub IsNormal : Bytes → Type 0
IsNormal p = (has_double_slash p ≡ false) × ((ltb 1 (length p) && has_trailing_slash p) ≡ false)

cut-IsNormal :
    (p : Bytes)
    → has_double_slash p ≡ false
    → (ltb 1 (length p) && has_trailing_slash p) ≡ true
    → IsNormal (take (length p - 1) p)
cut-IsNormal [] h t = cc t
cut-IsNormal (c ∷ cs) h t = (
  double-take (length (c ∷ cs) - 1) (c ∷ cs) h,
  ap (λ b. ltb 1 (length (take (length (c ∷ cs) - 1) (c ∷ cs))) && b)
        (ap (λ k. has_trailing_slash (take k (c ∷ cs))) one_less
          ∙ trailing-take c cs h (and_right _ _ t))
      ∙ and_false (ltb 1 (length (take (length (c ∷ cs) - 1) (c ∷ cs)))),
)
  where
    one_less : length (c ∷ cs) - 1 ≡ length cs
    one_less = ground arith

    and_right : (a b : Bool) → (a && b) ≡ true → b ≡ true
    and_right true b k = k
    and_right false b k = cc k

    and_false : (a : Bool) → (a && false) ≡ false
    and_false true = refl
    and_false false = refl

normalize_path_fixed : (path : Bytes) → IsNormal path → normalize_path path true ≡ path
unfolding normalize_path
normalize_path_fixed path (h, k) =
    ap
      (λ norm.
        if ltb 1 (length norm) && has_trailing_slash norm
        then take (length norm - 1) norm
        else norm)
      (squeeze_normal false path h refl)
    ∙ if-cases (λ (l : Bytes). l ≡ path) (ltb 1 (length path) && has_trailing_slash path)
        (λ y. cc (k, y)) (λ _. refl)

-- With its trailing slash removed, a path comes out of `normalize_path` without two slashes one behind
-- the other and without a slash at the end, but for the root; and a path that is so stays as it is.
pub normalize_path-IsNormal :
    (path : Bytes)
    → IsNormal (normalize_path path true) × (IsNormal path → normalize_path path true ≡ path)
unfolding normalize_path
normalize_path-IsNormal path = (
  if-cases IsNormal (ltb 1 (length (squeeze false path)) && has_trailing_slash (squeeze false path))
      (λ y. cut-IsNormal (squeeze false path) (squeeze_no_double false path).0 y)
      (λ n. ((squeeze_no_double false path).0, n)),
  normalize_path_fixed path,
)

-- What `normalize_path` writes is never longer than the path, so that the memory of the path's length
-- and a NUL is enough.
pub length-normalize_path :
    (path : Bytes) (remove_trailing : Bool)
    → length (normalize_path path remove_trailing) ≤ length path
unfolding normalize_path
length-normalize_path path remove_trailing =
    let norm = squeeze false path in
    if-cases (λ (l : Bytes). length l ≤ length path)
      (remove_trailing && (ltb 1 (length norm) && has_trailing_slash norm))
      (λ _. ground (arith, length-take (length norm - 1) norm, length-squeeze false path))
      (λ _. length-squeeze false path)
