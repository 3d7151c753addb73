-- ===== src/Tests/Daemon.antt =====
-- The theorems about vgd, each applied to concrete data.
use viewglob.Base.{ℕ, ◌≡◌, refl, Bool, true, false, List, [], ◌∷◌, Option, none, some, codes}
use viewglob.Connection.{ss_prompt}
use viewglob.Shell.{
  shell_status_to_string, string_to_shell_status, string_to_shell_status-shell_status_to_string,
}
use viewglob.ParamIo.{
  p_purpose, p_version, p_term_title, p_status, p_cmd, p_win_id, p_vgexpand_opts, p_order,
}
use viewglob.Vgd.{
  Message, Client, Vgd, World, current_client, update_display, put_display, put_client,
}
use viewglob.Vgd.Arrive.{
  Arrival, client_of, put_all_client, exchange_status, exchange_title, exchange_version,
  with_display, new_vgseer_client, new_client_for,
}
use viewglob.Vgd.Serve.{process_client, take_message}
use viewglob.Vgd.Poll.{Ready, poll_loop}
use viewglob.Vgd.Sends.{IsSafe}
use viewglob.Vgd.Screen.{screen_of, view}
use viewglob.Vgd.Faults.{is_fault, is_fault-process_client}
use viewglob.Vgd.Rounds.{poll_loop-IsSafe}
use viewglob.Vgd.Reach.{state_init, Reach, Reach-shows}

string_to_shell_status-shell_status_to_string_example :
    string_to_shell_status (shell_status_to_string ss_prompt) ≡ ss_prompt
string_to_shell_status-shell_status_to_string_example =
    string_to_shell_status-shell_status_to_string ss_prompt

-- A world in which every call succeeds.
abbrev calm : World
calm = record {
  put_display_ok = λ n. true;
  put_client_ok = λ n. true;
  fork_ok = λ n. true;
  win_to_str = λ n. n ∷ [];
  strtoul = λ s. 7;
  ulong_max = 4294967295;
  version = codes "2.0";
}

-- A vgseer connects.
abbrev caller : Arrival
caller = record {
  address = 1;
  fd = 5;
  purpose = some (p_purpose, codes "vgseer");
  version = some (p_version, codes "2.0");
  title = some (p_term_title, codes "vgseer5");
  title_set = some (p_status, codes "title-set");
  xid = 3;
}

-- The daemon with this client and its display.
abbrev attended : Bool → Vgd
attended persistent = record (state_init persistent []) {
  clients = client_of caller ∷ [];
  current = some 1;
  display = some ((p_win_id, 3 ∷ []) ∷ []);
  calls = 4;
}

abbrev command : Message
command = (p_cmd, codes "ls *.c")

abbrev typed : Client
typed = record (client_of caller) { cli = codes "ls *.c" }

is_fault-process_client_example :
    is_fault
      (process_client calm (client_of caller) (some (p_status, codes "bored")) (attended true))
    ≡ true
unfolding string_to_shell_status
is_fault-process_client_example =
    is_fault-process_client calm (client_of caller) (some (p_status, codes "bored")) (attended true)
      (record { current_there = refl; attended = refl }) refl refl

-- A round in which the client connects, and one in which its connection breaks.
abbrev quiet : Ready
quiet = record {
  port = none;
  unix = none;
  from_display = none;
  from_client = λ fd. none;
  active_window = 3;
}

abbrev rounds : List Ready
rounds = record quiet { unix = some caller } ∷ record quiet { from_client = λ fd. some none } ∷ []

poll_loop-IsSafe_example : IsSafe (poll_loop calm rounds (state_init false []))
poll_loop-IsSafe_example =
    poll_loop-IsSafe calm rounds (state_init false [])
      (record { statuses = λ fd. refl }, (record { statuses = λ fd. refl }, tt))
      (record { current_there = refl; attended = refl })

-- The client connects, and types.
abbrev joined : Vgd
joined = record (attended false) {
  sent =
      (5, (p_vgexpand_opts, []))
      ∷ (5, (p_order, codes "set-title"))
      ∷ (5, (p_status, codes "OK"))
      ∷ [];
  calls = 5;
}

abbrev told : Vgd
told = record joined {
  clients = typed ∷ [];
  display = some (command ∷ (p_win_id, 3 ∷ []) ∷ []);
  calls = 6;
}

abbrev ready_with : Option (Option Message) → ℕ → Option (Option Message)
ready_with m fd = m

told-Reach : Reach calm false [] told
unfolding new_client_for new_vgseer_client with_display exchange_version exchange_title
    exchange_status put_all_client put_client update_display put_display process_client take_message
told-Reach =
    Reach.speaks (ready_with (some (some command))) (client_of caller) (some command)
      (Reach.joins caller {s = state_init false []} {t = joined} Reach.start refl refl refl) refl
      refl refl

Reach-shows_example :
    (v : Client) × (current_client told ≡ some v)
    × (screen_of (command ∷ (p_win_id, 3 ∷ []) ∷ []) ≡ view calm v)
Reach-shows_example =
    Reach-shows calm (λ n. refl) false [] told-Reach (command ∷ (p_win_id, 3 ∷ []) ∷ []) refl
