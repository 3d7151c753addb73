-- ===== src/Display/ReadBack.antt =====
-- vgdisplay/vgmini.c: `process_glob_data` reads back a line of vgexpand's report.
use mathlib.Core.List.{append_assoc, append-nil}
use viewglob.Base.{
  lacks, other_first, other_rest, equal_to_itself, ℕ, ◌+◌, ◌≡◌, refl, sym, ap, ◌∙◌, Bool, true,
  false, ◌&&◌, ◌||◌, List, [], ◌∷◌, ◌++◌, Option, none, some, Bytes, ◌==◌, if◌then◌else◌,
}
use viewglob.Libs.{is_digit}
use viewglob.Vgexpand.{File, FileSelection, fs_yes, FileType, ft_regular}
use viewglob.Vgexpand.Report.{selection_char, type_char}
use viewglob.Display.Glob.{
  GlobState, grs_in_limbo, grs_file_state, grs_file_type, grs_file_name, GlobCall, file_box_add,
  GlobVars, first_char, map_selection_state, map_file_type, Step, delimiter, after_delimiter,
  up_to_delimiter, glob_step, and_calls, read_glob,
}

-- What `%d` prints: digits and a sign, at least one.
abbrev pub are_digits : Bytes → Bool
are_digits [] = true
are_digits (c ∷ s) = (is_digit c || c == 45) && are_digits s

abbrev pub is_number : Bytes → Bool
is_number [] = false
is_number (c ∷ s) = are_digits (c ∷ s)

-- The calls for the files of a directory, and for the directories.
abbrev pub file_calls : ℕ → List File → List GlobCall
file_calls n [] = []
file_calls n (f ∷ fs) =
    if f.shown
    then file_box_add f.name f.type f.selected n ∷ file_calls (n + 1) fs
    else file_calls n fs

-- The calls of a step, and then of the rest.
abbrev pub then_read : Step → Bytes → Option (List GlobCall)
then_read (calls, rs, v) cs = and_calls calls (read_glob rs v cs)

pub and_calls-and_calls :
    (a b : List GlobCall) (o : Option (List GlobCall))
    → and_calls a (and_calls b o) ≡ and_calls (a ++ b) o
and_calls-and_calls a b none = refl
and_calls-and_calls a b (some c) = ap some (sym (append_assoc a b c))

pub and_calls-nil : (o : Option (List GlobCall)) → and_calls [] o ≡ o
and_calls-nil none = refl
and_calls-nil (some c) = refl

-- A string is read up to its delimiter.
read_string :
    (rs : GlobState) (v : GlobVars) (s cs : Bytes)
    → ((u : GlobVars) (c : ℕ) → glob_step rs u c ≡ up_to_delimiter rs u c)
    → lacks (delimiter rs) s ≡ true
    → read_glob rs v (s ++ (delimiter rs ∷ cs))
      ≡ then_read (after_delimiter rs (record v { string = v.string ++ s })) cs
unfolding read_glob
read_string rs v [] cs h k =
    ap (λ (st : Step). then_read st cs)
      (h v (delimiter rs)
        ∙ ap
            (λ (b : Bool).
              if b
              then after_delimiter rs v
              else ([], rs, record v { string = v.string ++ (delimiter rs ∷ []) }))
            (equal_to_itself (delimiter rs))
        ∙ ap (λ (u : Bytes). after_delimiter rs (record v { string = u }))
            (sym (append-nil v.string)))
read_string rs v (c ∷ s) cs h k =
    ap (λ (st : Step). then_read st (s ++ (delimiter rs ∷ cs)))
      (h v c
        ∙ ap
            (λ (b : Bool).
              if b
              then after_delimiter rs v
              else ([], rs, record v { string = v.string ++ (c ∷ []) }))
            (other_first (delimiter rs) c s k))
    ∙ and_calls-nil
        (read_glob rs (record v { string = v.string ++ (c ∷ []) }) (s ++ (delimiter rs ∷ cs)))
    ∙ read_string rs (record v { string = v.string ++ (c ∷ []) }) s cs h
        (other_rest (delimiter rs) c s k)
    ∙ ap (λ (u : Bytes). then_read (after_delimiter rs (record v { string = u })) cs)
        (append_assoc v.string (c ∷ []) s)

pub read_whole :
    (rs : GlobState) (v : GlobVars) (s cs : Bytes)
    → ((u : GlobVars) (c : ℕ) → glob_step rs u c ≡ up_to_delimiter rs u c)
    → v.string ≡ []
    → lacks (delimiter rs) s ≡ true
    → read_glob rs v (s ++ (delimiter rs ∷ cs))
      ≡ then_read (after_delimiter rs (record v { string = s })) cs
read_whole rs v s cs h e k =
    read_string rs v s cs h k
    ∙ ap (λ (u : Bytes). then_read (after_delimiter rs (record v { string = u ++ s })) cs) e

map_selection_state-selection_char :
    (x : FileSelection) → map_selection_state (first_char (selection_char x)) ≡ x
map_selection_state-selection_char fs_yes = refl
map_selection_state-selection_char _ = refl

map_file_type-type_char : (t : FileType) → map_file_type (first_char (type_char t)) ≡ t
map_file_type-type_char ft_regular = refl
map_file_type-type_char _ = refl

selection_char_lem : (x : FileSelection) → lacks 32 (selection_char x) ≡ true
selection_char_lem fs_yes = refl
selection_char_lem _ = refl

type_char_lem : (t : FileType) → lacks 32 (type_char t) ≡ true
type_char_lem ft_regular = refl
type_char_lem _ = refl

-- The variables behind a file.
unfoldable pub after_file : File → GlobVars → GlobVars
after_file f v = record v {
  string = [];
  selection = f.selected;
  type = f.type;
  file_rank = v.next_file;
  next_file = v.next_file + 1;
}

unfoldable pub file_line : File → Bytes → Bytes
file_line f rest =
    9 ∷ (selection_char f.selected ++ (32 ∷ (type_char f.type ++ (32 ∷ (f.name ++ (10 ∷ rest))))))

in_limbo_file :
    (v : GlobVars) (cs : Bytes) → read_glob grs_in_limbo v (9 ∷ cs) ≡ read_glob grs_file_state v cs
unfolding read_glob glob_step
in_limbo_file v cs = and_calls-nil (read_glob grs_file_state v cs)

pub read_file :
    (f : File) (v : GlobVars) (rest : Bytes)
    → v.string ≡ []
    → lacks 10 f.name ≡ true
    → read_glob grs_in_limbo v (file_line f rest)
      ≡ and_calls
          (file_box_add f.name f.type f.selected v.next_file ∷ [])
          (read_glob grs_in_limbo (after_file f v) rest)
unfolding file_line after_file glob_step
read_file f v rest e k =
    in_limbo_file v _
    ∙ read_whole grs_file_state v (selection_char f.selected) _ (λ u c. refl) e
        (selection_char_lem f.selected)
    ∙ and_calls-nil _
    ∙ read_whole grs_file_type w (type_char f.type) _ (λ u c. refl) refl (type_char_lem f.type)
    ∙ and_calls-nil _
    ∙ read_whole grs_file_name x f.name rest (λ u c. refl) refl k
    ∙ ap
        (λ (p : FileSelection × FileType).
          and_calls (file_box_add f.name p.1 p.0 v.next_file ∷ [])
            (read_glob grs_in_limbo (record x { string = []; selection = p.0; type = p.1 }) rest))
        (ap (λ (y : FileSelection). (y, map_file_type (first_char (type_char f.type))))
            (map_selection_state-selection_char f.selected)
          ∙ ap (λ (t : FileType). (f.selected, t)) (map_file_type-type_char f.type))
  where
    w : GlobVars
    w = record v {
      string = [];
      selection = map_selection_state (first_char (selection_char f.selected));
      file_rank = v.next_file;
      next_file = v.next_file + 1;
    }

    x : GlobVars
    x = record w { type = map_file_type (first_char (type_char f.type)) }
