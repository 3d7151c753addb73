-- ===== src/Vgd/Safety.antt =====
-- vgd/vgd.c: what clients and the display send keeps the daemon's state consistent.
use viewglob.Base.{
  ℕ, ◌≡◌, refl, sym, ap, ◌∙◌, Bool, true, false, not, ◌&&◌, List, [], Option, none, some, Bytes,
  codes, ◌==◌, if◌then◌else◌, if-cases,
}
use viewglob.Connection.{ShellStatus}
use viewglob.Shell.{string_to_shell_status}
use viewglob.ParamIo.{
  p_status, p_pwd, p_cmd, p_mask, p_developing_mask, p_vgexpand_data, p_order, p_key, p_file,
  p_win_id, p_eof, streq,
}
use viewglob.Vgd.{
  Message, Client, Vgd, World, running, is_some, is_empty, is_running, points_to, find_client,
  change_client, current_client, put_client, context_switch, update_display,
}
use viewglob.Vgd.Serve.{
  is_error, same_status, set_client, store_status, take_status, show_to, toggle_display, take_order,
  assign, take_message, process_client, pass_to, restart_display, process_display,
}
use viewglob.Vgd.Poll.{}
use viewglob.Vgd.Sends.{
  is_there, IsConsistent, IsSafe, goes_on, Keeps-IsConsistent, put_client-Keeps,
  context_switch-Keeps, update_display-Keeps,
}
use viewglob.Vgd.Lists.{
  is_member, member_nonempty, find_client-change_client, change_client-nonempty,
}
use viewglob.Vgd.Consistent.{drop_client-IsSafe, die-IsSafe}

-- In a list that is not empty there is a current client.
pub current_there :
    (s : Vgd) → IsConsistent s → is_empty s.clients ≡ false → is_some (current_client s) ≡ true
current_there s c e = there s.current c.current_there
  where
    there :
        (o : Option ℕ)
        → is_there o s.clients ≡ true
        → is_some (elim o [ none ↦ none | some a ↦ find_client a s.clients ]) ≡ true
    there none h = sym e ∙ h
    there (some a) h = h

-- A running display has a client.
pub attended_nonempty :
    (s : Vgd) → IsConsistent s → is_running s ≡ true → is_empty s.clients ≡ false
attended_nonempty s c r = alone (is_running s) r c.attended
  where
    alone : (b : Bool) → b ≡ true → (b && is_empty s.clients) ≡ false → is_empty s.clients ≡ false
    alone true r h = h
    alone false r h = cc r

member_is_there :
    (b : ℕ) (cs ds : List Client)
    → is_empty ds ≡ is_empty cs
    → ((a : ℕ) → is_member a ds ≡ is_member a cs)
    → (o : Option ℕ) → is_there o cs ≡ true
    → is_there o ds ≡ true
member_is_there b cs ds e h none k = e ∙ k
member_is_there b cs ds e h (some a) k = h a ∙ k

-- A change of a client that leaves it at its address.
set_client-IsConsistent :
    (a : ℕ) (f : Client → Client)
    → ((c : Client) → (f c).address ≡ c.address)
    → (s : Vgd) → IsConsistent s
    → IsConsistent (set_client a f s)
set_client-IsConsistent a f k s c = record {
  current_there =
      member_is_there a s.clients (change_client a f s.clients)
        (change_client-nonempty a f s.clients)
        (λ b.
          ap is_some (find_client-change_client a f k b s.clients)
          ∙ same b (find_client b s.clients))
        s.current c.current_there;
  attended = ap (λ e. is_running s && e) (change_client-nonempty a f s.clients) ∙ c.attended;
}
  where
    same :
        (b : ℕ) (o : Option Client)
        → is_some (if b == a then elim o [ none ↦ none | some c ↦ some (f c) ] else o) ≡ is_some o
    same b none =
        if-cases (λ (o : Option Client). is_some o ≡ false) (b == a) (λ _. refl) (λ _. refl)
    same b (some c) =
        if-cases (λ (o : Option Client). is_some o ≡ true) (b == a) (λ _. refl) (λ _. refl)

-- What `get_param` gives is not an invalid status.
abbrev pub is_valid : Option Message → Bool
is_valid (some (p_status, value)) = not (is_error (string_to_shell_status value))
is_valid _ = true

module _ (w : World) where
  pub told-IsSafe :
      (a : ℕ) (m : Message) (s : Vgd) → IsConsistent s → IsSafe (running (update_display w a m s))
  told-IsSafe a m s c = goes_on (Keeps-IsConsistent (update_display-Keeps w a m s) c)

  switched-IsSafe :
      (v : Client) (s : Vgd) → IsConsistent s → IsSafe (running (context_switch w v s))
  switched-IsSafe v s c = goes_on (Keeps-IsConsistent (context_switch-Keeps w v s) c)

  store_status-IsSafe :
      (o : Option Client) (st : ShellStatus) (value : Bytes) (s : Vgd)
      → IsConsistent s
      → is_some o ≡ true
      → IsSafe (store_status w o st value s)
  unfolding store_status
  store_status-IsSafe none st value s c h = cc h
  store_status-IsSafe (some v) st value s c h =
      if-cases IsSafe (same_status st v.status) (λ _. goes_on c)
        (λ _.
          told-IsSafe v.address (p_status, value) _
            (set_client-IsConsistent v.address (λ x. record x { status = st }) (λ x. refl) s c))

  take_status-IsSafe :
      (v : Client) (value : Bytes) (s : Vgd)
      → IsConsistent s
      → is_member v.address s.clients ≡ true
      → not (is_error (string_to_shell_status value)) ≡ true
      → IsSafe (take_status w v value s)
  unfolding take_status
  take_status-IsSafe v value s c here h =
      let st = string_to_shell_status value in
      if-cases IsSafe (is_error st) (λ y. cc (h, ap not y))
        (λ _. store_status-IsSafe (find_client v.address s.clients) st value s c here)

  show_to-IsSafe :
      (o : Option Client) (s : Vgd) → is_some o ≡ true → IsConsistent s → IsSafe (show_to w o s)
  show_to-IsSafe none s h c = cc h
  show_to-IsSafe (some v) s h c = switched-IsSafe v s c

  toggle_display-IsSafe :
      (s : Vgd) → IsConsistent s → is_empty s.clients ≡ false → IsSafe (toggle_display w s)
  unfolding toggle_display
  toggle_display-IsSafe s c e =
      if-cases IsSafe (is_running s)
        (λ _. goes_on (record { current_there = c.current_there; attended = refl }))
        (λ _.
          if-cases IsSafe (not (w.fork_ok s.calls))
            (λ _.
              die-IsSafe w 1 _ (record { current_there = c.current_there; attended = c.attended }))
            (λ _.
              show_to-IsSafe (current_client s) _ (current_there s c e)
                (record { current_there = c.current_there; attended = e })))

  take_order-IsSafe :
      (v : Client) (value : Bytes) (s : Vgd)
      → IsConsistent s
      → is_member v.address s.clients ≡ true
      → IsSafe (take_order w v value s)
  unfolding take_order
  take_order-IsSafe v value s c here =
      if-cases IsSafe (streq value (codes "refocus"))
        (λ _.
          if-cases IsSafe (points_to s.current v.address)
            (λ _. told-IsSafe v.address (p_order, value) s c)
            (λ _.
              switched-IsSafe v (record s { current = some v.address })
                (record { current_there = here; attended = c.attended })))
        (λ _.
          if-cases IsSafe (streq value (codes "toggle"))
            (λ _. toggle_display-IsSafe s c (member_nonempty v.address s.clients here))
            (λ _. told-IsSafe v.address (p_order, value) s c))

  assign-IsSafe :
      (v : Client) (f : Client → Client)
      → ((x : Client) → (f x).address ≡ x.address)
      → (m : Message) (s : Vgd) → IsConsistent s
      → IsSafe (assign w v f m s)
  assign-IsSafe v f k m s c = told-IsSafe v.address m _ (set_client-IsConsistent v.address f k s c)

  -- A message of a client in the list, but for an invalid status.
  take_message-IsSafe :
      (v : Client) (m : Message) (s : Vgd)
      → IsConsistent s
      → is_member v.address s.clients ≡ true
      → is_valid (some m) ≡ true
      → IsSafe (take_message w v m s)
  unfolding take_message
  take_message-IsSafe v (p_status, value) s c here h = take_status-IsSafe v value s c here h
  take_message-IsSafe v (p_pwd, value) s c here h =
      goes_on (set_client-IsConsistent v.address (λ x. record x { pwd = value }) (λ x. refl) s c)
  take_message-IsSafe v (p_cmd, value) s c here h =
      assign-IsSafe v (λ x. record x { cli = value }) (λ x. refl) (p_cmd, value) s c
  take_message-IsSafe v (p_mask, value) s c here h =
      told-IsSafe v.address (p_mask, value) _
        (Keeps-IsConsistent (update_display-Keeps w v.address (p_developing_mask, []) _) (
          set_client-IsConsistent v.address (λ x. record x { developing_mask = []; mask = value })
            (λ x. refl) s c))
  take_message-IsSafe v (p_developing_mask, value) s c here h =
      assign-IsSafe v (λ x. record x { developing_mask = value }) (λ x. refl)
        (p_developing_mask, value) s c
  take_message-IsSafe v (p_order, value) s c here h = take_order-IsSafe v value s c here
  take_message-IsSafe v (p_vgexpand_data, value) s c here h =
      assign-IsSafe v (λ x. record x { expanded = value }) (λ x. refl) (p_vgexpand_data, value) s c
  take_message-IsSafe v (_, value) s c here h = drop_client-IsSafe w v.address s c

  -- While the state is consistent, serving a client of the list keeps it so and uses no client that
  -- is not there, whatever the client sends but an invalid status.
  pub process_client-IsSafe :
      (v : Client) (m : Option Message) (s : Vgd)
      → IsConsistent s
      → is_member v.address s.clients ≡ true
      → is_valid m ≡ true
      → IsSafe (process_client w v m s)
  unfolding process_client
  process_client-IsSafe v none s c here h = drop_client-IsSafe w v.address s c
  process_client-IsSafe v (some m) s c here h = take_message-IsSafe v m s c here h

  pass_to-IsSafe :
      (o : Option Client) (m : Message) (s : Vgd)
      → IsConsistent s
      → is_some o ≡ true
      → IsSafe (pass_to w o m s)
  unfolding pass_to
  pass_to-IsSafe none m s c h = cc h
  pass_to-IsSafe (some v) m s c h =
      let t = put_client w v.fd m s in
      let k = Keeps-IsConsistent (put_client-Keeps w v.fd m s) c in
      if-cases IsSafe t.1 (λ _. goes_on k) (λ _. drop_client-IsSafe w v.address t.0 k)

  restart_display-IsSafe :
      (s : Vgd) → IsConsistent s → is_empty s.clients ≡ false → IsSafe (restart_display w s)
  unfolding restart_display
  restart_display-IsSafe s c e =
      if-cases IsSafe (w.fork_ok s.calls)
        (λ _. goes_on (record { current_there = c.current_there; attended = e }))
        (λ _. die-IsSafe w 1 _ (record { current_there = c.current_there; attended = refl }))

  -- While the state is consistent and the display runs, whatever the display sends keeps it so.
  pub process_display-IsSafe :
      (m : Option Message) (s : Vgd)
      → IsConsistent s
      → is_running s ≡ true
      → IsSafe (process_display w m s)
  unfolding process_display
  process_display-IsSafe none s c r = restart_display-IsSafe s c (attended_nonempty s c r)
  process_display-IsSafe (some (p_file, value)) s c r =
      pass_to-IsSafe (current_client s) (p_file, value) s c
        (current_there s c (attended_nonempty s c r))
  process_display-IsSafe (some (p_key, value)) s c r =
      pass_to-IsSafe (current_client s) (p_key, value) s c
        (current_there s c (attended_nonempty s c r))
  process_display-IsSafe (some (p_win_id, value)) s c r =
      goes_on (record { current_there = c.current_there; attended = c.attended })
  process_display-IsSafe (some (p_eof, value)) s c r =
      goes_on (record { current_there = c.current_there; attended = refl })
  process_display-IsSafe (some (_, value)) s c r = goes_on c
