-- ===== src/Tests/Telling.antt =====
-- The theorems about vgseer's loop of actions and the sandbox, applied to concrete data.
use viewglob.Base.{suc, refl, true, false, List, [], ◌∷◌, ◌++◌, ◌≡◌, none, some, Bytes, codes}
use viewglob.Actions.{no_actions, toggle}
use viewglob.Connection.{ss_prompt}
use viewglob.Orders.{Teller, Wire, put_param_wrapped, action_loop}
use viewglob.Orders.Emptied.{Empties, action_loop-waiting}
use viewglob.Tests.Sample.{editor, libs}
use viewglob.Tests.Laws.{libs-LibsLaws, libs-absent}
use viewglob.ParamIo.{p_vgexpand_data}
use viewglob.Sandbox.{Chunk, after_put, process_sandbox}
use viewglob.Sandbox.Pieces.{chunks}
use viewglob.Sandbox.Extracts.{process_sandbox-text}

abbrev sending : Wire
sending = record { put_ok = λ n. true; write_ok = λ n. false }

-- A command and an order wait.
abbrev telling : Teller
telling = record {
  cmd = (editor (codes "ls *.c") 6).cmd;
  queue = record no_actions { send_cmd_flag = true; al = toggle ∷ [] };
  ss = ss_prompt;
  ss_prev = none;
  vgexpand_opts = codes "-d";
  vgexpand_called = false;
  vgseer_enabled = true;
  sent = [];
  expansions = [];
  calls = 0;
}

action_loop-waiting_example : Empties sending (λ n. refl) (action_loop sending (suc 2) telling)
action_loop-waiting_example = action_loop-waiting sending (λ n. refl) 2 telling refl refl refl

-- An expansion is awaited; the report comes in two readings, cut within its text.
abbrev awaiting : Teller
awaiting = record telling { vgexpand_called = true }

abbrev first_reading : Bytes
first_reading = codes "$ " ++ (2 ∷ codes "1 2 0 ")

process_sandbox-text_example :
    (rest : List Chunk) × (process_sandbox libs sending
        (chunks (first_reading ∷ (codes "/src" ++ (10 ∷ 10 ∷ 3 ∷ 10 ∷ [])) ∷ []) [])
        awaiting
      ≡ after_put rest (
          put_param_wrapped sending
            (some (p_vgexpand_data, codes "1 2 0 /src" ++ (10 ∷ 10 ∷ [])))
            awaiting))
process_sandbox-text_example =
    process_sandbox-text libs libs-LibsLaws libs-absent sending first_reading
      ((codes "/src" ++ (10 ∷ 10 ∷ 3 ∷ 10 ∷ [])) ∷ []) [] (codes "$ ")
      (codes "1 2 0 /src" ++ (10 ∷ 10 ∷ [])) (10 ∷ []) awaiting refl refl refl refl refl refl
