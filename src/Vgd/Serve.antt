-- ===== src/Vgd/Serve.antt =====
-- vgd/vgd.c: `process_client` and `process_display`.
use viewglob.Base.{
  ℕ, ◌+◌, Bool, true, false, not, [], Option, none, some, Bytes, codes, ◌==◌, if◌then◌else◌,
}
use viewglob.Connection.{ShellStatus, ss_executing, ss_prompt, ss_lost, ss_title_set, ss_error}
use viewglob.Shell.{string_to_shell_status}
use viewglob.ParamIo.{
  p_status, p_pwd, p_cmd, p_mask, p_developing_mask, p_order, p_vgexpand_data, p_eof, p_file, p_key,
  p_win_id, streq,
}
use viewglob.Vgd.{
  Message, Client, Vgd, World, Outcome, running, fault, and_then, is_running, points_to,
  find_client, change_client, current_client, put_client, context_switch, update_display,
}
use viewglob.Vgd.Drop.{drop_client, die}

abbrev pub is_error : ShellStatus → Bool
is_error ss_error = true
is_error _ = false

abbrev pub same_status : ShellStatus → ShellStatus → Bool
same_status ss_executing ss_executing = true
same_status ss_prompt ss_prompt = true
same_status ss_lost ss_lost = true
same_status ss_title_set ss_title_set = true
same_status ss_error ss_error = true
same_status _ _ = false

abbrev pub set_client : ℕ → (Client → Client) → Vgd → Vgd
set_client a f s = record s { clients = change_client a f s.clients }

module _ (w : World) where
  -- `if (new_status != v->status)`, with the client that is read there
  unfoldable pub store_status : Option Client → ShellStatus → Bytes → Vgd → Outcome
  unfolding update_display
  store_status none st value s = fault
  store_status (some v) st value s =
      if same_status st v.status
      then running s
      else running (
          update_display w v.address (p_status, value)
            (set_client v.address (λ c. record c { status = st }) s))

  -- P_STATUS. Behind an invalid status, too, the client is looked for, where it is dropped already.
  unfoldable pub take_status : Client → Bytes → Vgd → Outcome
  unfolding drop_client store_status string_to_shell_status
  take_status v value s =
      let st = string_to_shell_status value in
      let store = (λ (t : Vgd). store_status (find_client v.address t.clients) st value t) in
      if is_error st then and_then (drop_client w v.address s) store else store s

  -- A new display is told of the current client.
  abbrev pub show_to : Option Client → Vgd → Outcome
  show_to none s = fault
  show_to (some v) s = running (context_switch w v s)

  -- P_ORDER "toggle"
  unfoldable pub toggle_display : Vgd → Outcome
  unfolding die context_switch
  toggle_display s =
      if is_running s
      then running (record s { display = none })
      else if not (w.fork_ok s.calls)
      then die w 1 (record s { calls = s.calls + 1 })
      else show_to (current_client s) (record s { display = some []; calls = s.calls + 1 })

  unfoldable pub take_order : Client → Bytes → Vgd → Outcome
  unfolding context_switch update_display toggle_display
  take_order v value s =
      if streq value (codes "refocus")
      then (if points_to s.current v.address
          then running (update_display w v.address (p_order, value) s)
          else running (context_switch w v (record s { current = some v.address })))
      else if streq value (codes "toggle")
      then toggle_display s
      else running (update_display w v.address (p_order, value) s)

  -- A field of the client is assigned, and the display is told.
  abbrev pub assign : Client → (Client → Client) → Message → Vgd → Outcome
  assign v f m s = running (update_display w v.address m (set_client v.address f s))

  -- P_MASK, which clears the developing mask
  abbrev pub take_mask : Client → Bytes → Vgd → Outcome
  take_mask v value s =
      let t = set_client v.address (λ c. record c { developing_mask = []; mask = value }) s in
      running (
        update_display w v.address (p_mask, value)
          (update_display w v.address (p_developing_mask, []) t))

  -- The `switch` of `process_client`
  unfoldable pub take_message : Client → Message → Vgd → Outcome
  unfolding take_status take_order drop_client update_display
  take_message v (p_status, value) s = take_status v value s
  take_message v (p_pwd, value) s = running (set_client v.address (λ c. record c { pwd = value }) s)
  take_message v (p_cmd, value) s = assign v (λ c. record c { cli = value }) (p_cmd, value) s
  take_message v (p_mask, value) s = take_mask v value s
  take_message v (p_developing_mask, value) s =
      assign v (λ c. record c { developing_mask = value }) (p_developing_mask, value) s
  take_message v (p_order, value) s = take_order v value s
  take_message v (p_vgexpand_data, value) s =
      assign v (λ c. record c { expanded = value }) (p_vgexpand_data, value) s
  take_message v (_, value) s = drop_client w v.address s

  -- `process_client`, with what `get_param` gives
  unfoldable pub process_client : Client → Option Message → Vgd → Outcome
  unfolding take_message drop_client
  process_client v none s = drop_client w v.address s
  process_client v (some m) s = take_message v m s

  -- A message of the display goes to the current client.
  unfoldable pub pass_to : Option Client → Message → Vgd → Outcome
  unfolding put_client drop_client
  pass_to none m s = fault
  pass_to (some v) m s =
      let (t, ok) = put_client w v.fd m s in if ok then running t else drop_client w v.address t

  abbrev pub pass_on : Message → Vgd → Outcome
  pass_on m s = pass_to (current_client s) m s

  abbrev pub window_of : Bytes → ℕ
  window_of value = let n = w.strtoul value in if n == w.ulong_max then 0 else n

  unfoldable pub restart_display : Vgd → Outcome
  unfolding die
  restart_display s =
      if w.fork_ok s.calls
      then running (record s { display = some []; display_win = 0; calls = s.calls + 1 })
      else die w 1 (record s { display = none; calls = s.calls + 1 })

  -- `process_display`, with what `get_param` gives
  unfoldable pub process_display : Option Message → Vgd → Outcome
  unfolding pass_to restart_display
  process_display none s = restart_display s
  process_display (some (p_file, value)) s = pass_on (p_file, value) s
  process_display (some (p_key, value)) s = pass_on (p_key, value) s
  process_display (some (p_win_id, value)) s = running (record s { display_win = window_of value })
  process_display (some (p_eof, value)) s = running (record s { display = none })
  process_display (some (_, value)) s = running s
