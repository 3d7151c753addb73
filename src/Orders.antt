-- ===== src/Orders.antt =====
-- vgseer/vgseer.c: what vgseer tells vgd and the sandbox shell: `action_loop`, `call_vgexpand`,
-- `put_param_wrapped`, `send_status` and `disable_vgseer`.
pub mod Emptied
use viewglob.Base.{
  ℕ, zero, suc, ◌+◌, Bool, true, false, ◌&&◌, List, [], ◌∷◌, ◌++◌, Option, none, some, Bytes, codes,
  if◌then◌else◌,
}
use viewglob.Actions.{
  Action, nop, send_cmd, send_pwd, send_lost, send_up, send_down, send_pgup, send_pgdown, new_mask,
  toggle, refocus, disable, dequeue, done, exit, ActionQueue, action_queue,
}
use viewglob.CmdLine.Edit.{CmdLine}
use viewglob.Connection.{ShellStatus, ss_executing, ss_prompt, ss_lost, ss_title_set, ss_error}
use viewglob.ParamIo.{Parameter, p_pwd, p_cmd, p_mask, p_developing_mask, p_order, p_status}
use viewglob.Sanitize.{sanitize}
use viewglob.Shell.{shell_status_to_string}

-- The command line, the queue of actions, the status of the shell's connection, the static of
-- `send_status` (`none` is -1), `vgseer_enabled`, and what was sent: to vgd, the newest first, and to
-- the sandbox shell. `calls` counts the calls of the system.
pub record Teller : Type 0 where
  pub cmd : CmdLine
  pub queue : ActionQueue
  pub ss : ShellStatus
  pub ss_prev : Option ShellStatus
  pub vgexpand_opts : Bytes
  pub vgexpand_called : Bool
  pub vgseer_enabled : Bool
  pub sent : List (Parameter × Bytes)
  pub expansions : List Bytes
  pub calls : ℕ

-- Whether the n-th call of the system succeeds.
pub record Wire : Type 0 where
  pub put_ok : ℕ → Bool
  pub write_ok : ℕ → Bool

-- The program goes on, or exits in `clean_fail`.
pub data Flow : Type 0 where
  told : Teller → Flow
  clean_fail : Flow

abbrev pub and_tell : Flow → (Teller → Flow) → Flow
and_tell (told t) f = f t
and_tell clean_fail f = clean_fail

abbrev pub disable_vgseer : Teller → Teller
disable_vgseer t = record t { vgseer_enabled = false }

-- A blank mask may as well be "*".
abbrev pub or_star : Bytes → Bytes
or_star [] = codes "*"
or_star (c ∷ cs) = c ∷ cs

-- `g_strconcat` ends at the first NULL.
abbrev pub expand_command : Option Bytes → Bytes → Bytes → Bytes → Bytes
expand_command none mask opts cmd = codes "cd '"
expand_command (some pwd) mask opts cmd =
    codes "cd '"
    ++ (pwd
        ++ (codes "' && vgexpand -m '"
            ++ (mask ++ (codes "' " ++ (opts ++ (codes " -- " ++ (cmd ++ codes " ; cd /\n")))))))

-- The message of an action that has one.
abbrev pub message_of : Action → Teller → Option (Parameter × Bytes)
message_of send_pwd t = elim t.cmd.pwd [ none ↦ none | some pwd ↦ some (p_pwd, pwd) ]
message_of toggle t = some (p_order, codes "toggle")
message_of refocus t = some (p_order, codes "refocus")
message_of send_up t = some (p_order, codes "up")
message_of send_down t = some (p_order, codes "down")
message_of send_pgup t = some (p_order, codes "pgup")
message_of send_pgdown t = some (p_order, codes "pgdown")
message_of new_mask t = some (p_developing_mask, t.cmd.mask)
message_of _ t = none

-- How the loop ends: with TRUE, with FALSE, or in `clean_fail`.
pub data LoopEnd : Type 0 where
  goes_on : Teller → LoopEnd
  ends : Teller → LoopEnd
  fails : LoopEnd

abbrev pub then_loop : Flow → (Teller → Option LoopEnd) → Option LoopEnd
then_loop (told t) f = f t
then_loop clean_fail f = some fails

abbrev pub is_status : ShellStatus → Option ShellStatus → Bool
is_status s none = false
is_status ss_executing (some ss_executing) = true
is_status ss_prompt (some ss_prompt) = true
is_status ss_lost (some ss_lost) = true
is_status ss_title_set (some ss_title_set) = true
is_status ss_error (some ss_error) = true
is_status _ _ = false

module _ (w : Wire) where
  -- `none` is P_NONE, or a value that is NULL.
  unfoldable pub put_param_wrapped : Option (Parameter × Bytes) → Teller → Flow
  put_param_wrapped none t = told t
  put_param_wrapped (some m) t =
      if t.vgseer_enabled
      then (if w.put_ok t.calls
          then told (record t { sent = m ∷ t.sent; calls = t.calls + 1 })
          else clean_fail)
      else told t

  -- The command goes to the sandbox shell.
  abbrev pub write_command : Bytes → Teller → Teller
  write_command command t =
      if w.write_ok t.calls
      then record t { expansions = command ∷ t.expansions; calls = t.calls + 1 }
      else disable_vgseer (record t { calls = t.calls + 1 })

  unfoldable pub call_vgexpand : Teller → Flow
  unfolding put_param_wrapped sanitize
  call_vgexpand t =
      let cmd_sane = sanitize t.cmd.text in
      let mask_sane = or_star (sanitize t.cmd.mask_final) in
      let u = write_command (expand_command t.cmd.pwd mask_sane t.vgexpand_opts cmd_sane) t in
      and_tell (put_param_wrapped (some (p_cmd, cmd_sane)) (record u { vgexpand_called = true }))
        (put_param_wrapped (some (p_mask, mask_sane)))

  unfoldable pub act : Action → Teller → Flow
  unfolding call_vgexpand put_param_wrapped
  act send_cmd t = call_vgexpand t
  act disable t = told (disable_vgseer t)
  act send_lost t = told (record t { ss = ss_lost })
  act a t = put_param_wrapped (message_of a t) t

  -- By the action that was dequeued.
  unfoldable pub dispatch : Action → Teller → (Teller → Option LoopEnd) → Option LoopEnd
  unfolding act
  dispatch done t f = some (goes_on t)
  dispatch exit t f = some (ends t)
  dispatch nop t f = some (ends t)
  dispatch dequeue t f = some (ends t)
  dispatch a t f = then_loop (act a t) f

  -- `action_loop`; `none` where the rounds do not suffice.
  unfoldable pub action_loop : ℕ → Teller → Option LoopEnd
  unfolding dispatch action_queue
  action_loop zero t = none
  action_loop (suc fuel) t =
      let (q, a) = action_queue dequeue t.queue in
      dispatch a (record t { queue = q }) (action_loop fuel)

  -- `send_status(shell_conn.ss, ...)`
  unfoldable pub send_status : Teller → Flow
  unfolding put_param_wrapped shell_status_to_string
  send_status t =
      if is_status t.ss t.ss_prev
      then told t
      else and_tell (put_param_wrapped (some (p_status, shell_status_to_string t.ss)) t)
          (λ u. told (record u { ss_prev = some t.ss }))
