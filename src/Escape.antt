-- ===== src/Escape.antt =====
-- vgseer/vgseer.c: `escape_filename`, which a file that is clicked in the display goes through before it
-- is typed.
pub mod Reader
pub mod Typed
pub mod Words
use viewglob.Base.{
  ℕ, Bool, true, false, ◌&&◌, ◌||◌, List, [], ◌∷◌, ◌++◌, Option, Bytes, codes, ◌==◌, if◌then◌else◌,
}
use viewglob.Connection.{ProcessLevel, at_prompt}
use viewglob.Libs.{Libs}
use viewglob.CmdLine.Edit.{Editor}
use viewglob.CmdLine.Move.{cmd_whitespace_to_left, cmd_whitespace_to_right}

abbrev pub is_in : ℕ → Bytes → Bool
is_in c [] = false
is_in c (d ∷ ds) = c == d || is_in c ds

-- "Shell special characters."
abbrev pub special : Bytes
special = codes "*?$|&;()<> \t\n[]#'\"`,:{}\\!"

-- the loop
abbrev pub escape : Bool → Bytes → Bytes
escape typed [] = []
escape typed (c ∷ cs) =
    let rest = escape typed cs in if is_in c special && typed then 92 ∷ c ∷ rest else c ∷ rest

abbrev pub is_prompt : ProcessLevel → Bool
is_prompt at_prompt = true
is_prompt _ = false

abbrev pub space_unless : Bool → Bytes
space_unless whitespace = if whitespace then [] else 32 ∷ []

module _ (libs : Libs) where
  unfoldable pub escape_filename : Bytes → Editor → ProcessLevel → Option Bytes → Bytes
  unfolding cmd_whitespace_to_left cmd_whitespace_to_right
  escape_filename name e pl holdover =
      if is_prompt pl
      then space_unless (cmd_whitespace_to_left libs holdover e)
        ++ (escape true name ++ space_unless (cmd_whitespace_to_right libs e))
      else escape false name
