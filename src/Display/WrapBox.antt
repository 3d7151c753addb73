-- ===== src/Display/WrapBox.antt =====
-- vgdisplay/wrap_box.c: the children of the box, the sizes that it requests, and their columns.
-- What GTK says of a widget, whether it is visible and the size that it requests, is given with it;
-- a `guint` has 32 bits. Not here: `layout_col` and the shrinking of columns, which use floats.
use viewglob.Base.{
  ℕ, zero, suc, ◌+◌, ◌-◌, ◌*◌, ◌/◌, ◌%◌, ◌^◌, Bool, true, false, List, [], ◌∷◌, ◌++◌, leb, ltb,
  ◌==◌, if◌then◌else◌,
}
use viewglob.Base.Int.{ℤ, pos, negsuc}

-- `struct _WrapBox`, with the border of the container
pub record WrapBox (A : Type 0) : Type 0 where
  pub border_width : ℕ
  pub hspacing : ℕ
  pub vspacing : ℕ
  pub n_children : ℕ
  pub children : List A
  pub child_limit : ℕ

module _ {A : Type 0} where
  -- The child comes last; `n_children` has 16 bits.
  unfoldable pub wrap_box_pack : WrapBox A → A → WrapBox A
  wrap_box_pack b c = record b {
    children = b.children ++ (c ∷ []);
    n_children = (b.n_children + 1) % 2 ^ 16;
  }

  -- the walk of `wrap_box_pack_pos`
  abbrev pub insert_child : ℕ → A → List A → List A
  insert_child zero c cs = c ∷ cs
  insert_child (suc n) c [] = c ∷ []
  insert_child (suc n) c (d ∷ cs) = d ∷ insert_child n c cs

  unfoldable pub wrap_box_pack_pos : WrapBox A → A → ℕ → WrapBox A
  wrap_box_pack_pos b c n = record b {
    children = insert_child n c b.children;
    n_children = (b.n_children + 1) % 2 ^ 16;
  }

  -- the end of `wrap_box_reorder_child`, behind the removal; of no other children, it does nothing
  abbrev pub insert_before : ℕ → A → List A → List A
  insert_before n c [] = c ∷ []
  insert_before zero c (t ∷ ts) = c ∷ t ∷ ts
  insert_before (suc n) c (t ∷ []) = t ∷ c ∷ []
  insert_before (suc n) c (t ∷ u ∷ ts) = t ∷ insert_before n c (u ∷ ts)

  -- The same for a position, which does not become 0 when it is negative.
  abbrev pub insert_at : ℤ → A → List A → List A
  insert_at (pos n) c ts = insert_before n c ts
  insert_at (negsuc n) c ts = ts ++ (c ∷ [])

  -- Widgets are compared as pointers.
  module _ (same : A → A → Bool) where
    abbrev pub has_child : A → List A → Bool
    has_child c [] = false
    has_child c (d ∷ cs) = if same d c then true else has_child c cs

    abbrev pub remove_child : A → List A → List A
    remove_child c [] = []
    remove_child c (d ∷ cs) = if same d c then cs else d ∷ remove_child c cs

    unfoldable pub wrap_box_reorder_child : WrapBox A → A → ℤ → WrapBox A
    wrap_box_reorder_child b c position =
        if has_child c b.children
        then record b { children = insert_at position c (remove_child c b.children) }
        else b

    -- `n_children` is a `guint16` that is at least 1 when a child is removed.
    unfoldable pub wrap_box_remove : WrapBox A → A → WrapBox A
    wrap_box_remove b c =
        if has_child c b.children
        then record b {
          children = remove_child c b.children;
          n_children = (b.n_children + (2 ^ 16 - 1)) % 2 ^ 16;
        }
        else b

-- What GTK says of a child.
pub record Widget : Type 0 where
  pub visible : Bool
  pub width : ℕ
  pub height : ℕ

abbrev pub add_uint : ℕ → ℕ → ℕ
add_uint a b = (a + b) % 2 ^ 32

abbrev pub max_uint : ℕ → ℕ → ℕ
max_uint a b = if ltb b a then a else b

-- the loop of `get_upper_bound_cols`, with `cols` and `width`
abbrev pub upper_bound_cols : ℕ → ℕ → ℕ → ℕ → List Widget → ℕ
upper_bound_cols hspacing optimal_width cols width [] = cols
upper_bound_cols hspacing optimal_width cols width (c ∷ cs) =
    let wider = add_uint (if cols == 0 then width else add_uint width hspacing) c.width in
    let more = upper_bound_cols hspacing optimal_width (cols + 1) wider cs in
    let same = upper_bound_cols hspacing optimal_width cols width cs in
    if c.visible then (if leb wider optimal_width then more else cols) else same

unfoldable pub get_upper_bound_cols : WrapBox Widget → ℕ → ℕ
get_upper_bound_cols b optimal_width = upper_bound_cols b.hspacing optimal_width 0 0 b.children

abbrev pub visible_children : List Widget → ℕ
visible_children [] = 0
visible_children (c ∷ cs) = let rest = visible_children cs in if c.visible then rest + 1 else rest

unfoldable pub get_n_visible_children : WrapBox Widget → ℕ
get_n_visible_children b = visible_children b.children % 2 ^ 16

-- The variables of `wrap_box_size_request_optimal` in a pass over the children.
pub record Pass : Type 0 where
  pub row : ℕ
  pub col : ℕ
  pub total_width : ℕ
  pub col_width : ℕ
  pub col_height : ℕ
  pub max_col_height : ℕ

-- How a pass ends: with the last child, with one column fewer to try, or never, at a child that is
-- not visible, which the loop does not move past.
pub data PassEnd : Type 0 where
  completed : Pass → PassEnd
  too_many_columns : PassEnd
  endless : PassEnd

abbrev pub first_pass : Pass
first_pass = record {
  row = 0;
  col = 1;
  total_width = 0;
  col_width = 0;
  col_height = 0;
  max_col_height = 0;
}

-- A visible child, up to the comparison with the optimal width.
unfoldable pub with_child : WrapBox Widget → Widget → Pass → Pass
with_child b c p = record p {
  row = p.row + 1;
  col_height =
      add_uint (if ltb 1 (p.row + 1) then add_uint p.col_height b.vspacing else p.col_height)
        c.height;
  col_width = max_uint p.col_width (if ltb 1 p.col then add_uint c.width b.hspacing else c.width);
}

-- A column is added when it has all its rows.
unfoldable pub add_column : ℕ → Pass → Pass
add_column rows p =
    if p.row == rows
    then record {
      row = 0;
      col = p.col + 1;
      total_width = add_uint p.total_width p.col_width;
      col_width = 0;
      col_height = 0;
      max_col_height = max_uint p.max_col_height p.col_height;
    }
    else p

unfoldable pub pass_children : WrapBox Widget → ℕ → ℕ → Pass → List Widget → PassEnd
unfolding with_child add_column
pass_children b optimal_width rows p [] = completed p
pass_children b optimal_width rows p (c ∷ cs) =
    let q = with_child b c p in
    let rest = pass_children b optimal_width rows (add_column rows q) cs in
    if c.visible
    then (if ltb optimal_width (add_uint q.total_width q.col_width) then too_many_columns else rest)
    else endless

-- The requisition, or a loop that does not end.
pub data Request : Type 0 where
  requested : ℕ → ℕ → Request
  request_loops : Request

-- Behind the pass: a column that was not completed, and the border.
unfoldable pub sizes : WrapBox Widget → Pass → Request
sizes b p =
    if p.col_width == 0
    then requested (add_uint p.total_width (b.border_width * 2))
        (add_uint p.max_col_height (b.border_width * 2))
    else requested (add_uint (add_uint p.total_width p.col_width) (b.border_width * 2))
        (add_uint (max_uint p.max_col_height p.col_height) (b.border_width * 2))

-- The height of a single column, with `row`, which counts children that are not visible too.
abbrev pub column_height : ℕ → ℕ → ℕ → List Widget → ℕ
column_height vspacing row height [] = height
column_height vspacing row height (c ∷ cs) =
    column_height vspacing (row + 1)
      (if c.visible
        then add_uint (if ltb 1 row then add_uint height vspacing else height) c.height
        else height)
      cs

unfoldable pub single_column : WrapBox Widget → ℕ → Request
single_column b optimal_width =
    requested (add_uint optimal_width (b.border_width * 2))
      (add_uint (column_height b.vspacing 1 0 b.children) (b.border_width * 2))

-- From the label `start` on, with the number of columns.
unfoldable pub with_columns : WrapBox Widget → ℕ → ℕ → ℕ → Request
unfolding pass_children sizes single_column
with_columns b optimal_width n zero = single_column b optimal_width
with_columns b optimal_width n (suc cols) =
    let rows = n / suc cols + (if n % suc cols == 0 then 0 else 1) in
    let fewer = with_columns b optimal_width n cols in
    if n == 0
    then single_column b optimal_width
    else elim (pass_children b optimal_width rows first_pass b.children) [
      | completed p ↦ sizes b p
      | too_many_columns ↦ fewer
      | endless ↦ request_loops
    ]

unfoldable pub wrap_box_size_request_optimal : WrapBox Widget → ℕ → Request
unfolding with_columns get_upper_bound_cols get_n_visible_children
wrap_box_size_request_optimal b optimal_width =
    let width = (optimal_width + 2 ^ 32 - (b.border_width * 2) % 2 ^ 32) % 2 ^ 32 in
    with_columns b width (get_n_visible_children b) (get_upper_bound_cols b width)

-- `wrap_box_size_request`
abbrev pub widest : ℕ → List Widget → ℕ
widest width [] = width
widest width (c ∷ cs) = widest (if c.visible then max_uint width c.width else width) cs

unfoldable pub wrap_box_size_request : WrapBox Widget → Request
wrap_box_size_request b =
    requested (add_uint (widest 0 b.children) (b.border_width * 2))
      (add_uint (column_height b.vspacing 1 0 b.children) (b.border_width * 2))
