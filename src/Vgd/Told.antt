-- ===== src/Vgd/Told.antt =====
-- vgd/vgd.c: while every `put_param` to the display succeeds, what a client or the display sends keeps the
-- display showing the current client.
use mathlib.Core.Path.{subst}
use viewglob.Base.{
  ℕ, ◌≡◌, refl, sym, ap, Bool, true, false, not, ◌&&◌, List, Option, none, some, Bytes, codes, ◌==◌,
  if◌then◌else◌, if-cases,
}
use viewglob.ParamIo.{
  p_status, p_pwd, p_cmd, p_mask, p_developing_mask, p_vgexpand_data, p_order, p_key, p_file,
  p_win_id, p_eof, streq,
}
use viewglob.Vgd.{
  Message, Client, Vgd, World, Outcome, running, exited, fault, and_then, is_empty, is_running,
  points_to, find_client, current_client, put_client, update_display,
}
use viewglob.Vgd.Drop.{forget_client, drop_client, drop_all, die}
use viewglob.Vgd.Serve.{
  set_client, show_to, toggle_display, take_order, take_message, process_client, pass_to,
  process_display,
}
use viewglob.Vgd.Poll.{find_window, focus_other, check_against}
use viewglob.Vgd.Distinct.{are_distinct, distinct-change_client, find_client-In, find_window-In}
use viewglob.Vgd.Shown.{
  IsShown, Leaves, goes_on, ended, broken, switched, assigned, retold, take_mask-IsShown, forgotten,
}
use viewglob.Vgd.Screen.{Shows, view, changed, current_client-change_client}
use viewglob.Vgd.Stated.{take_status-IsShown}

module _ (w : World) (all_put : (n : ℕ) → w.put_display_ok n ≡ true) where
  dropped : (a : ℕ) (s : Vgd) → IsShown w s → Leaves w (drop_client w a s)
  unfolding drop_client
  dropped a s g =
      let t = forget_client w a s in
      if-cases (Leaves w) (not t.persistent && is_empty t.clients) (λ _. ended 0 _)
        (λ _. goes_on (forgotten w all_put a s g))

  pub die_leaves : (code : ℕ) (s : Vgd) → Leaves w (die w code s)
  unfolding die
  die_leaves code s = over (drop_all w s.clients s)
    where
      over : (o : Outcome) → Leaves w (and_then o (λ t. exited code (record t { display = none })))
      over (running t) = ended code _
      over (exited n t) = ended n t
      over fault = broken

  show_to-IsShown :
      (o : Option Client) (s : Vgd)
      → are_distinct s.clients ≡ true
      → current_client s ≡ o
      → Leaves w (show_to w o s)
  show_to-IsShown none s d e = broken
  show_to-IsShown (some v) s d e = goes_on (switched w all_put v s d e)

  toggle_display-IsShown : (s : Vgd) → IsShown w s → Leaves w (toggle_display w s)
  unfolding toggle_display
  toggle_display-IsShown s g =
      if-cases (Leaves w) (is_running s)
        (λ _. goes_on (record { distinct = g.distinct; in_sync = silent (current_client s) }))
        (λ _.
          if-cases (Leaves w) (not (w.fork_ok s.calls)) (λ _. die_leaves 1 _)
            (λ _. show_to-IsShown (current_client s) _ g.distinct refl))
    where
      silent : (o : Option Client) → Shows w none o
      silent o = tt

  take_order-IsShown :
      (v : Client) (value : Bytes) (s : Vgd)
      → find_client v.address s.clients ≡ some v
      → IsShown w s
      → Leaves w (take_order w v value s)
  unfolding take_order
  take_order-IsShown v value s here g =
      if-cases (Leaves w) (streq value (codes "refocus"))
        (λ _.
          if-cases (Leaves w) (points_to s.current v.address) (λ _. passed)
            (λ _.
              goes_on
                (switched w all_put v (record s { current = some v.address }) g.distinct here)))
        (λ _.
          if-cases (Leaves w) (streq value (codes "toggle")) (λ _. toggle_display-IsShown s g)
            (λ _. passed))
    where
      passed : Leaves w (running (update_display w v.address (p_order, value) s))
      passed = goes_on (retold w all_put v.address (p_order, value) s (λ c _. refl) g)

  -- The working directory is not shown.
  moved :
      (a : ℕ) (value : Bytes) (s : Vgd)
      → IsShown w s
      → IsShown w (set_client a (λ c. record c { pwd = value }) s)
  moved a value s g = record {
    distinct =
        distinct-change_client a (λ c. record c { pwd = value }) (λ c. refl) s.clients g.distinct;
    in_sync =
        subst (λ o. Shows w s.display o)
          (sym (current_client-change_client a (λ c. record c { pwd = value }) (λ c. refl) s))
          (unseen (points_to s.current a) s.display (current_client s) g.in_sync);
  }
    where
      unseen :
          (b : Bool) (d : Option (List Message)) (o : Option Client)
          → Shows w d o
          → Shows w d (if b then changed (λ c. record c { pwd = value }) o else o)
      unseen false d o h = h
      unseen true none o h = tt
      unseen true (some ms) none h = tt
      unseen true (some ms) (some c) h = h

  take_message-IsShown :
      (v : Client) (m : Message) (s : Vgd)
      → find_client v.address s.clients ≡ some v
      → IsShown w s
      → Leaves w (take_message w v m s)
  unfolding take_message
  take_message-IsShown v (p_status, value) s here g = take_status-IsShown w all_put v value s g
  take_message-IsShown v (p_pwd, value) s here g = goes_on (moved v.address value s g)
  take_message-IsShown v (p_cmd, value) s here g = goes_on (
      assigned w all_put v.address (λ c. record c { cli = value }) (p_cmd, value) s (λ c. refl)
        (λ c. refl) g)
  take_message-IsShown v (p_mask, value) s here g = take_mask-IsShown w all_put v value s g
  take_message-IsShown v (p_developing_mask, value) s here g = goes_on (
      assigned w all_put v.address (λ c. record c { developing_mask = value })
        (p_developing_mask, value) s (λ c. refl) (λ c. refl) g)
  take_message-IsShown v (p_order, value) s here g = take_order-IsShown v value s here g
  take_message-IsShown v (p_vgexpand_data, value) s here g = goes_on (
      assigned w all_put v.address (λ c. record c { expanded = value }) (p_vgexpand_data, value) s
        (λ c. refl) (λ c. refl) g)
  take_message-IsShown v (_, value) s here g = dropped v.address s g

  -- A client that is the one of the list at its address is served.
  pub process_client-IsShown :
      (v : Client) (m : Option Message) (s : Vgd)
      → find_client v.address s.clients ≡ some v
      → IsShown w s
      → Leaves w (process_client w v m s)
  unfolding process_client
  process_client-IsShown v none s here g = dropped v.address s g
  process_client-IsShown v (some m) s here g = take_message-IsShown v m s here g

  pub put_client-IsShown :
      (fd : ℕ) (m : Message) (s : Vgd) → IsShown w s → IsShown w (put_client w fd m s).0
  unfolding put_client
  put_client-IsShown fd m s g =
      if-cases (λ (r : Vgd × Bool). IsShown w r.0) (w.put_client_ok s.calls)
        (λ _. record { distinct = g.distinct; in_sync = g.in_sync })
        (λ _. record { distinct = g.distinct; in_sync = g.in_sync })

  pass_to-IsShown :
      (o : Option Client) (m : Message) (s : Vgd) → IsShown w s → Leaves w (pass_to w o m s)
  unfolding pass_to
  pass_to-IsShown none m s g = broken
  pass_to-IsShown (some v) m s g =
      let t = put_client w v.fd m s in
      let k = put_client-IsShown v.fd m s g in
      if-cases (Leaves w) t.1 (λ _. goes_on k) (λ _. dropped v.address t.0 k)

  -- What the display sends, if it is read.
  pub process_display-IsShown :
      (m : Message) (s : Vgd) → IsShown w s → Leaves w (process_display w (some m) s)
  unfolding process_display
  process_display-IsShown (p_file, value) s g =
      pass_to-IsShown (current_client s) (p_file, value) s g
  process_display-IsShown (p_key, value) s g = pass_to-IsShown (current_client s) (p_key, value) s g
  process_display-IsShown (p_win_id, value) s g =
      goes_on (record { distinct = g.distinct; in_sync = g.in_sync })
  process_display-IsShown (p_eof, value) s g =
      goes_on (record { distinct = g.distinct; in_sync = closed (current_client s) })
    where
      closed : (o : Option Client) → Shows w none o
      closed o = tt
  process_display-IsShown (_, value) s g = goes_on g

  focus_other-IsShown :
      (o : Option Client) (s : Vgd)
      → ((v : Client) → o ≡ some v → find_client v.address s.clients ≡ some v)
      → IsShown w s
      → IsShown w (focus_other w o s)
  unfolding focus_other
  focus_other-IsShown none s h g = record { distinct = g.distinct; in_sync = g.in_sync }
  focus_other-IsShown (some v) s h g =
      switched w all_put v (record s { current = some v.address; current_is_active = true })
        g.distinct (h v refl)

  -- A look at the active window.
  pub check_against-IsShown :
      (o : Option Client) (win : ℕ) (s : Vgd)
      → current_client s ≡ o
      → IsShown w s
      → Leaves w (check_against w o win s)
  unfolding check_against
  check_against-IsShown none win s e g = broken
  check_against-IsShown (some c) win s e g =
      if-cases (Leaves w) (win == c.win)
        (λ _.
          if-cases (Leaves w) s.current_is_active (λ _. goes_on g)
            (λ _. goes_on (
              retold w all_put c.address (p_win_id, w.win_to_str c.win)
                (record s { current_is_active = true })
                (λ v k.
                  let same : c ≡ v = cc (e, k) in
                  ap (λ (x : Client). record (view w v) { win = w.win_to_str x.win }) same)
                (record { distinct = g.distinct; in_sync = g.in_sync }))))
        (λ _. goes_on (
          focus_other-IsShown (find_window win s.clients) s
            (λ v k. find_client-In (find_window-In win s.clients v k) g.distinct) g))
