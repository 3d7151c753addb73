-- ===== src/Actions.antt =====
-- vgseer/actions.c: the queue of things to tell the daemon. The function's static variables and
-- the list `al` are the record `ActionQueue`.
pub mod Priority
use viewglob.Base.{Bool, true, false, List, [], ◌∷◌, ◌++◌, if◌then◌else◌}

pub data Action : Type 0 where
  nop send_cmd send_pwd send_lost send_up send_down send_pgup send_pgdown : Action
  new_mask toggle refocus disable dequeue done exit : Action

pub record ActionQueue : Type 0 where
  pub send_lost_flag : Bool
  pub send_cmd_flag : Bool
  pub send_pwd_flag : Bool
  pub disable_flag : Bool
  pub exit_flag : Bool
  pub new_mask_flag : Bool
  pub al : List Action

-- What the statics hold at the start.
abbrev pub no_actions : ActionQueue
no_actions = record {
  send_lost_flag = false;
  send_cmd_flag = false;
  send_pwd_flag = false;
  disable_flag = false;
  exit_flag = false;
  new_mask_flag = false;
  al = [];
}

al_enqueue : Action → List Action → List Action
al_enqueue a [] = a ∷ []
al_enqueue a (b ∷ bs) = b ∷ al_enqueue a bs

al_dequeue : ActionQueue → List Action → ActionQueue × Action
al_dequeue q [] = (q, done)
al_dequeue q (a ∷ rest) = (record q { al = rest }, a)

-- the case `A_DEQUEUE`
take_action : ActionQueue → ActionQueue × Action
unfolding al_dequeue
take_action q =
    if q.exit_flag
    then (q, exit)
    else if q.disable_flag
    then (record q { disable_flag = false }, disable)
    else if q.send_lost_flag
    then (record q { send_lost_flag = false }, send_lost)
    else if q.send_pwd_flag
    then (record q { send_pwd_flag = false }, send_pwd)
    else if q.send_cmd_flag
    then (record q { send_cmd_flag = false }, send_cmd)
    else if q.new_mask_flag
    then (record q { new_mask_flag = false }, new_mask)
    else al_dequeue q q.al

append_action : ActionQueue → Action → ActionQueue
unfolding al_enqueue
append_action q a = record q { al = al_enqueue a q.al }

-- `action_queue(o)`, with the new statics and the result.
unfoldable pub action_queue : Action → ActionQueue → ActionQueue × Action
unfolding take_action append_action
action_queue send_cmd q =
    (record q { send_lost_flag = false; new_mask_flag = false; send_cmd_flag = true }, nop)
action_queue send_pwd q = (record q { send_cmd_flag = false; send_pwd_flag = true }, nop)
action_queue send_lost q = (record q { send_cmd_flag = false; send_lost_flag = true }, nop)
action_queue new_mask q = (record q { new_mask_flag = true }, nop)
action_queue send_up q = (append_action q send_up, nop)
action_queue send_down q = (append_action q send_down, nop)
action_queue send_pgup q = (append_action q send_pgup, nop)
action_queue send_pgdown q = (append_action q send_pgdown, nop)
action_queue toggle q = (append_action q toggle, nop)
action_queue refocus q = (append_action q refocus, nop)
action_queue disable q = (record q { disable_flag = true }, nop)
action_queue exit q = (record q { exit_flag = true }, nop)
action_queue dequeue q = take_action q
action_queue _ q = (q, nop)
