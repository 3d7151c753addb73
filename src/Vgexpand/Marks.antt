-- ===== src/Vgexpand/Marks.antt =====
-- vgexpand/vgexpand.c: what the looked-up names select in a directory, told at once.
use viewglob.Base.{
  ◌≡◌, refl, sym, ap, ◌∙◌, Bool, true, false, ◌&&◌, ◌||◌, List, [], ◌∷◌, map, Bytes, arith, length,
  ◌==◌, if◌then◌else◌, if-cases,
}
use viewglob.ParamIo.{streq}
use viewglob.Vgexpand.{
  FileSelection, fs_yes, fs_no, fs_maybe, File, Directory, is_yes, is_prefix, mark_traverse,
  traverse, foreach,
}

-- The names are looked up one after the other, each in all the files.
abbrev pub mark_names : List Bytes → Directory → Directory
mark_names [] d = d
mark_names (n ∷ ns) d = mark_names ns (foreach (mark_traverse n) d)

-- Whether a file is one of the names, or begins with one.
abbrev pub is_named : List Bytes → Bytes → Bool
is_named [] name = false
is_named (n ∷ ns) name = streq n name || is_named ns name

abbrev pub is_begun : List Bytes → Bytes → Bool
is_begun [] name = false
is_begun (n ∷ ns) name = is_prefix n name || is_begun ns name

-- What becomes of a file.
abbrev pub chosen : List Bytes → File → File
chosen ns f =
    if is_named ns f.name
    then record f { selected = fs_yes; shown = true }
    else if is_begun ns f.name
    then record f { selected = fs_maybe }
    else f

-- No file is selected yet.
abbrev pub AllFresh : List File → Type 0
AllFresh [] = Unit {0}
AllFresh (f ∷ fs) = (f.selected ≡ fs_no) × AllFresh fs

is_prefix-streq : (s t : Bytes) → (is_prefix s t && length s == length t) ≡ streq s t
is_prefix-streq [] [] = refl
is_prefix-streq [] (b ∷ t) = ground arith
is_prefix-streq (a ∷ s) [] = refl
is_prefix-streq (a ∷ s) (b ∷ t) =
    reorder (a == b) (is_prefix s t) (length (a ∷ s) == length (b ∷ t))
    ∙ ap (λ x. a == b && (is_prefix s t && x)) shorter
    ∙ ap (λ x. a == b && x) (is_prefix-streq s t)
  where
    reorder : (x y z : Bool) → ((x && y) && z) ≡ (x && (y && z))
    reorder true y z = refl
    reorder false y z = refl

    shorter : (length (a ∷ s) == length (b ∷ t)) ≡ (length s == length t)
    shorter = ground arith

mark_file : Bytes → File → File
mark_file n f =
    if is_yes f.selected
    then f
    else if is_prefix n f.name
    then (if length n == length f.name
        then record f { selected = fs_yes; shown = true }
        else record f { selected = fs_maybe })
    else f

mark_files : List Bytes → File → File
unfolding mark_file
mark_files [] f = f
mark_files (n ∷ ns) f = mark_files ns (mark_file n f)

mark_traverse-mark_file :
    (n : Bytes) (f : File) (d : Directory) → (mark_traverse n f d).0 ≡ mark_file n f
unfolding mark_traverse mark_file
mark_traverse-mark_file n f d =
    first_of (is_yes f.selected) (is_prefix n f.name) (length n == length f.name) _ _ _
  where
    first_of :
        (a b c : Bool) (x y : File) (e : Directory)
        → (if◌then◌else◌ {A = File × Directory} a
            (f, d)
            (if b then (if c then (x, e) else (y, d)) else (f, d))).0
          ≡ (if a then f else if b then (if c then x else y) else f)
    first_of true b c x y e = refl
    first_of false true true x y e = refl
    first_of false true false x y e = refl
    first_of false false c x y e = refl

traverse-map :
    (n : Bytes) (fs : List File) (d : Directory)
    → (traverse (mark_traverse n) fs d).0 ≡ map (mark_file n) fs
traverse-map n [] d = refl
traverse-map n (f ∷ fs) d =
    ap (λ x. x ∷ (traverse (mark_traverse n) fs (mark_traverse n f d).1).0)
      (mark_traverse-mark_file n f d)
    ∙ ap (λ xs. mark_file n f ∷ xs) (traverse-map n fs (mark_traverse n f d).1)

map-map : (g h : File → File) (fs : List File) → map g (map h fs) ≡ map (λ f. g (h f)) fs
map-map g h [] = refl
map-map g h (f ∷ fs) = ap (λ xs. g (h f) ∷ xs) (map-map g h fs)

map_id : (fs : List File) → map (λ f. f) fs ≡ fs
map_id [] = refl
map_id (f ∷ fs) = ap (λ xs. f ∷ xs) (map_id fs)

mark_names-map :
    (ns : List Bytes) (d : Directory) → (mark_names ns d).files ≡ map (mark_files ns) d.files
unfolding mark_files
mark_names-map [] d = sym (map_id d.files)
mark_names-map (n ∷ ns) d =
    mark_names-map ns (foreach (mark_traverse n) d)
    ∙ ap (map (mark_files ns)) (traverse-map n d.files d)
    ∙ map-map (mark_files ns) (mark_file n) d.files

abbrev named_file : FileSelection → File → File
named_file sel f = record f { selected = sel }

abbrev explicit : File → File
explicit f = record f { selected = fs_yes; shown = true }

after_yes : (ns : List Bytes) (f : File) → f.selected ≡ fs_yes → mark_files ns f ≡ f
unfolding mark_files mark_file
after_yes [] f h = refl
after_yes (n ∷ ns) f h = ap (mark_files ns) same ∙ after_yes ns f h
  where
    same : mark_file n f ≡ f
    same = if-cases (λ x. x ≡ f) (is_yes f.selected) (λ _. refl) (λ k. cc (k, ap is_yes h))

-- What one look-up does to a file that is not selected.
looked_up :
    (n : Bytes) (f : File)
    → is_yes f.selected ≡ false
    → mark_file n f ≡ (
        if streq n f.name
        then explicit f
        else if is_prefix n f.name
        then named_file fs_maybe f
        else f)
unfolding mark_file
looked_up n f h =
    if-cases (λ x. x ≡ goal (streq n f.name)) (is_yes f.selected) (λ k. cc (h, k))
      (λ _.
        by_case (is_prefix n f.name) (length n == length f.name)
        ∙ ap goal (is_prefix-streq n f.name))
  where
    goal : Bool → File
    goal x = if x then explicit f else if is_prefix n f.name then named_file fs_maybe f else f

    by_case :
        (b c : Bool)
        → (if b then (if c then explicit f else named_file fs_maybe f) else f)
          ≡ (if b && c then explicit f else if b then named_file fs_maybe f else f)
    by_case true true = refl
    by_case true false = refl
    by_case false c = refl

after_maybe :
    (ns : List Bytes) (f : File)
    → mark_files ns (named_file fs_maybe f)
      ≡ (if is_named ns f.name then explicit f else named_file fs_maybe f)
unfolding mark_files
after_maybe [] f = refl
after_maybe (n ∷ ns) f =
    ap (mark_files ns) (looked_up n (named_file fs_maybe f) refl)
    ∙ by_case (streq n f.name) (is_prefix n f.name) (after_maybe ns f)
  where
    by_case :
        (b c : Bool)
        → mark_files ns (named_file fs_maybe f)
          ≡ (if is_named ns f.name then explicit f else named_file fs_maybe f)
        → mark_files ns
            (if b then explicit f else if c then named_file fs_maybe f else named_file fs_maybe f)
          ≡ (if b || is_named ns f.name then explicit f else named_file fs_maybe f)
    by_case true c r = after_yes ns (explicit f) refl
    by_case false true r = r
    by_case false false r = r

after_no : (ns : List Bytes) (f : File) → f.selected ≡ fs_no → mark_files ns f ≡ chosen ns f
unfolding mark_files
after_no [] f h = refl
after_no (n ∷ ns) f h =
    ap (mark_files ns) (looked_up n f (ap is_yes h))
    ∙ by_case (streq n f.name) (is_prefix n f.name) (after_no ns f h)
  where
    by_case :
        (b c : Bool)
        → mark_files ns f ≡ chosen ns f
        → mark_files ns (if b then explicit f else if c then named_file fs_maybe f else f) ≡ (
            if b || is_named ns f.name
            then explicit f
            else if c || is_begun ns f.name
            then named_file fs_maybe f
            else f)
    by_case true c r = after_yes ns (explicit f) refl
    by_case false true r = after_maybe ns f
    by_case false false r = r

each_chosen :
    (ns : List Bytes) (fs : List File) → AllFresh fs → map (mark_files ns) fs ≡ map (chosen ns) fs
each_chosen ns [] h = refl
each_chosen ns (f ∷ fs) (h, hs) =
    ap (λ x. x ∷ map (mark_files ns) fs) (after_no ns f h)
    ∙ ap (λ xs. chosen ns f ∷ xs) (each_chosen ns fs hs)

-- In a directory in which nothing is selected yet, names that are looked up one after the other, in
-- whatever order, select and show each file that is one of the names, select in part each other file
-- that begins with one of them, and leave the rest alone.
pub mark_names-chosen :
    (ns : List Bytes) (d : Directory)
    → AllFresh d.files
    → (mark_names ns d).files ≡ map (chosen ns) d.files
mark_names-chosen ns d h = mark_names-map ns d ∙ each_chosen ns d.files h
