-- ===== src/Vgexpand/Path.antt =====
-- vgexpand/vgexpand.c: the functions on paths. A path is its bytes, without a NUL.
use viewglob.Base.{
  ℕ, ◌+◌, ◌-◌, Bool, true, false, not, ◌&&◌, [], ◌∷◌, ◌++◌, Option, none, some, Bytes, codes,
  length, take, drop, ltb, ◌==◌, if◌then◌else◌,
}
use viewglob.ParamIo.{streq}

abbrev pub slash : ℕ
slash = 47

-- The loop of `normalize_path`: repeated slashes are left out.
abbrev pub squeeze : Bool → Bytes → Bytes
squeeze slash_seen [] = []
squeeze slash_seen (c ∷ cs) =
    if c == slash
    then (if slash_seen then squeeze true cs else slash ∷ squeeze true cs)
    else c ∷ squeeze false cs

-- `has_trailing_slash`
abbrev pub has_trailing_slash : Bytes → Bool
has_trailing_slash [] = false
has_trailing_slash (c ∷ []) = c == slash
has_trailing_slash (c ∷ d ∷ cs) = has_trailing_slash (d ∷ cs)

-- `normalize_path` of a path that is not NULL
unfoldable pub normalize_path : Bytes → Bool → Bytes
normalize_path path remove_trailing =
    let norm = squeeze false path in
    if remove_trailing && (ltb 1 (length norm) && has_trailing_slash norm)
    then take (length norm - 1) norm
    else norm

-- `find_prev`, with one more than its position: the search begins at -1 if the string is empty.
abbrev pub find_prev : Bytes → ℕ → ℕ → Option ℕ
find_prev s ℕ.zero c = none
find_prev s (ℕ.suc n) c =
    let before = find_prev s n c in
    elim (drop n s) [ [] ↦ before | b ∷ _ ↦ if b == c then some n else before ]

abbrev pub starts_at_root : Bytes → Bool
starts_at_root [] = false
starts_at_root (c ∷ cs) = c == slash

-- The absolute path of the part before a slash, of a path that is relative.
abbrev pub below_pwd : Bytes → Bytes → Option ℕ → Bytes
below_pwd pwd path none = pwd
below_pwd pwd path (some n) =
    (if streq pwd (codes "/") then pwd else pwd ++ codes "/") ++ take n path

abbrev pub above : Bytes → Option ℕ → Bytes
above path none = []
above path (some n) = if n == 0 then codes "/" else take n path

unfoldable pub vg_dirname : Bytes → Bytes → Bytes
vg_dirname pwd path =
    let slash_pos = find_prev path (length path) slash in
    if not (starts_at_root path) then below_pwd pwd path slash_pos else above path slash_pos

abbrev pub base_at : Bytes → Option ℕ → Bytes
base_at path none = path
base_at path (some n) = if n == 0 && length path == 1 then codes "/" else drop (n + 1) path

unfoldable pub vg_basename : Bytes → Bytes
vg_basename path = base_at path (find_prev path (length path) slash)
