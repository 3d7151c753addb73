-- ===== src/Display/Columns.antt =====
-- vgdisplay/wrap_box.c: the children are taken into columns, `reverse_list_col_children` and the
-- loop over it in `layout_cols`.
use viewglob.Base.{
  ℕ, zero, suc, ◌+◌, ◌%◌, ◌^◌, List, [], ◌∷◌, Option, none, some, ltb, if◌then◌else◌,
}
use viewglob.Display.WrapBox.{WrapBox, Widget, add_uint, max_uint}

-- A column, the width of its widest child, and the children that are left.
pub record Column : Type 0 where
  pub taken : List Widget
  pub max_child_width : ℕ
  pub left : List Widget

abbrev pub taken_first : Widget → Column → Column
taken_first c k = record k { taken = c ∷ k.taken }

-- The loop: the column has `n` children of that height.
abbrev pub fill_column : WrapBox Widget → ℕ → ℕ → ℕ → ℕ → List Widget → Column
fill_column b col_height n height width [] = record {
  taken = [];
  max_child_width = width;
  left = [];
}
fill_column b col_height n height width (c ∷ cs) =
    let higher = add_uint (add_uint height b.vspacing) c.height in
    let more = fill_column b col_height (n + 1) higher (max_uint width c.width) cs in
    let same = fill_column b col_height n height width cs in
    let full : Column = record { taken = []; max_child_width = width; left = c ∷ cs } in
    if ltb n b.child_limit
    then (if c.visible then (if ltb col_height higher then full else taken_first c more) else same)
    else full

-- `reverse_list_col_children`
unfoldable pub reverse_list_col_children : WrapBox Widget → ℕ → List Widget → Column
reverse_list_col_children b col_height [] = record { taken = []; max_child_width = 0; left = [] }
reverse_list_col_children b col_height (c ∷ cs) =
    let later = reverse_list_col_children b col_height cs in
    if c.visible
    then taken_first c (fill_column b col_height 1 (add_uint 0 c.height) (max_uint 0 c.width) cs)
    else later

-- The columns of `layout_cols`, with their widths, which have 16 bits, while one has a child.
unfoldable pub layout_cols : WrapBox Widget → ℕ → ℕ → List Widget → Option (List (List Widget × ℕ))
layout_cols b col_height zero cs = none
layout_cols b col_height (suc n) cs =
    let k = reverse_list_col_children b col_height cs in
    let rest = layout_cols b col_height n k.left in
    elim k.taken [
      | [] ↦ some []
      | c ∷ ds ↦ elim rest [
        | none ↦ none
        | some ks ↦ some ((c ∷ ds, k.max_child_width % 2 ^ 16) ∷ ks)
      ]
    ]
