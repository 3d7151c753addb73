-- ===== src/Vgd/Joins.antt =====
-- vgd/vgd.c: while no message to the display is lost, a client that joins keeps the display showing the
-- current client.
use mathlib.Core.Path.{subst}
use viewglob.Base.{
  ℕ, ◌+◌, ◌≡◌, refl, sym, ap, ◌∙◌, Bool, true, false, not, ◌&&◌, ◌||◌, List, [], ◌∷◌, Option, none,
  some, Bytes, codes, arith, ◌==◌, if◌then◌else◌, if-cases, Bool-cases, inl, inr,
}
use viewglob.Shell.{shell_status_to_string}
use viewglob.ParamIo.{p_vgexpand_opts, p_status, p_order, p_win_id, streq}
use viewglob.Vgd.{
  Message, Client, Vgd, World, is_some, is_empty, is_running, points_to, find_client,
  current_client, put_client, update_display, receive,
}
use viewglob.Vgd.Arrive.{
  Arrival, as_version, exchange_version, exchange, client_of, with_client, with_display,
  new_vgseer_client, new_client_for,
}
use viewglob.Vgd.Serve.{}
use viewglob.Vgd.Sends.{update_display-Keeps}
use viewglob.Vgd.Lists.{is_member}
use viewglob.Vgd.Distinct.{are_distinct, In, find_client-In}
use viewglob.Vgd.Shown.{IsShown, Leaves, goes_on, by_Keeps}
use viewglob.Vgd.Screen.{Shows, put_display_lem}
use viewglob.Vgd.Told.{put_client-IsShown, die_leaves}
use viewglob.Vgd.Arrive.{
  put_all_client, greeting, exchange_status, exchange_title, as_title, as_status, says,
}
use viewglob.Vgd.Sends.{IsConsistent, is_there, Keeps-IsConsistent}
use viewglob.Vgd.Consistent.{exchange_version-Keeps}
use viewglob.Vgd.Safety.{attended_nonempty}

or_second : (a b : Bool) → a ≡ false → (a || b) ≡ true → b ≡ true
or_second a b n h = ground arith

itself : (a : ℕ) → (a == a) ≡ true
itself a = elim (Bool-cases (a == a)) [ inl y ↦ y | inr n ↦ absurd (ground arith) ]

module _ (w : World) (all_put : (n : ℕ) → w.put_display_ok n ≡ true) where
  put_all_client-IsShown :
      (fd : ℕ) (ms : List Message) (s : Vgd) → IsShown w s → IsShown w (put_all_client w fd ms s).0
  unfolding put_all_client
  put_all_client-IsShown fd [] s g = g
  put_all_client-IsShown fd (m ∷ ms) s g =
      if-cases (λ (r : Vgd × Bool). IsShown w r.0) (put_client w fd m s).1
        (λ _.
          put_all_client-IsShown fd ms (put_client w fd m s).0
            (put_client-IsShown w all_put fd m s g))
        (λ _. put_client-IsShown w all_put fd m s g)

  exchange_status-IsShown :
      (a : Arrival) (s : Vgd) → IsShown w s → IsShown w (exchange_status w a s).0
  unfolding exchange_status
  exchange_status-IsShown a s g =
      if-cases (λ (r : Vgd × Bool). IsShown w r.0)
        (says (codes "title-set") (as_status a.title_set))
        (λ _. put_all_client-IsShown a.fd ((p_vgexpand_opts, s.vgexpand_opts) ∷ []) s g) (λ _. g)

  exchange_title-IsShown :
      (o : Option Bytes) (a : Arrival) (s : Vgd)
      → IsShown w s
      → IsShown w (exchange_title w o a s).0
  unfolding exchange_title
  exchange_title-IsShown none a s g = g
  exchange_title-IsShown (some title) a s g =
      let sends = put_all_client w a.fd ((p_order, codes "set-title") ∷ []) s in
      let k = put_all_client-IsShown a.fd ((p_order, codes "set-title") ∷ []) s g in
      if-cases (λ (r : Vgd × Bool). IsShown w r.0) sends.1
        (λ _. exchange_status-IsShown a sends.0 k) (λ _. k)

  exchange_version-IsShown :
      (o : Option Bytes) (a : Arrival) (s : Vgd)
      → IsShown w s
      → IsShown w (exchange_version w o a s).0
  unfolding exchange_version
  exchange_version-IsShown none a s g = g
  exchange_version-IsShown (some v) a s g =
      let sends = put_all_client w a.fd (greeting w v) s in
      let k = put_all_client-IsShown a.fd (greeting w v) s g in
      if-cases (λ (r : Vgd × Bool). IsShown w r.0) sends.1
        (λ _. exchange_title-IsShown (as_title a.title) a sends.0 k) (λ _. k)

  -- A new client does not hide the current one.
  older :
      (a : Arrival) (cs : List Client) (cur : Option ℕ)
      → is_member a.address cs ≡ false
      → is_there cur cs ≡ true
      → elim cur [ none ↦ none | some b ↦ find_client b (client_of a ∷ cs) ]
        ≡ elim cur [ none ↦ none | some b ↦ find_client b cs ]
  older a cs none h k = refl
  older a cs (some b) h k =
      if-cases (λ (o : Option Client). o ≡ find_client b cs) (a.address == b)
        (λ y. let e : a.address ≡ b = ground arith in cc (h, k, e)) (λ _. refl)

  -- The display that is started for a first client.
  first-IsShown :
      (a : Arrival) (u : Vgd)
      → are_distinct u.clients ≡ true
      → u.current ≡ some a.address
      → u.display ≡ some []
      → current_client u ≡ some (client_of a)
      → IsShown w (update_display w a.address (p_win_id, w.win_to_str a.xid) u)
  unfolding update_display shell_status_to_string
  first-IsShown a u d c e v = by_Keeps w all_put (update_display-Keeps w a.address m u) d (
      if-cases (λ (t : Vgd). Shows w t.display (current_client u))
        (points_to u.current a.address && is_running u)
        (λ _.
          subst (λ (r : Vgd × Bool). Shows w r.0.display (current_client u))
            (sym (put_display_lem w all_put m u)) received)
        (λ n. cc (n, known)))
    where
      m : Message
      m = (p_win_id, w.win_to_str a.xid)

      known : (points_to u.current a.address && is_running u) ≡ true
      known =
          ap (λ o. points_to o a.address && is_running u) c
          ∙ ap (λ b. b && is_running u) (itself a.address)
          ∙ ap is_some e

      received : Shows w (receive m u.display) (current_client u)
      received =
          subst (λ d. Shows w (receive m d) (current_client u)) (sym e)
            (subst (λ o. Shows w (receive m (some [])) o) (sym v) refl)

  with_display-IsShown :
      (a : Arrival) (t : Vgd)
      → IsConsistent t
      → IsShown w t
      → is_member a.address t.clients ≡ false
      → (is_running t || is_empty t.clients) ≡ true
      → Leaves w (with_display w a (with_client a t))
  unfolding with_display
  with_display-IsShown a t c g h p =
      if-cases (Leaves w) (is_running t)
        (λ r. goes_on (record { distinct = distinct; in_sync = seen r }))
        (λ r.
          if-cases (Leaves w) (w.fork_ok t.calls)
            (λ _. goes_on (started (or_second (is_running t) (is_empty t.clients) r p)))
            (λ _. die_leaves w all_put 1 (record (with_client a t) { calls = t.calls + 1 })))
    where
      distinct : are_distinct (client_of a ∷ t.clients) ≡ true
      distinct = ap (λ b. not b && are_distinct t.clients) h ∙ g.distinct

      seen : is_running t ≡ true → Shows w t.display (current_client (with_client a t))
      seen r =
          subst (λ o. Shows w t.display o)
            (sym (
              ap
                (λ (b : Bool). elim (if b then some a.address else t.current) [
                  | none ↦ none
                  | some x ↦ find_client x (client_of a ∷ t.clients)
                ])
                n
              ∙ older a t.clients t.current h c.current_there))
            g.in_sync
        where
          n : is_empty t.clients ≡ false
          n = attended_nonempty t c r

      started :
          is_empty t.clients ≡ true
          → IsShown w (
              update_display w a.address
                (p_win_id, w.win_to_str a.xid)
                (record (with_client a t) { display = some []; calls = t.calls + 1 }))
      started e =
          first-IsShown a (record (with_client a t) { display = some []; calls = t.calls + 1 })
            distinct first refl
            (ap
                (λ (o : Option ℕ). elim o [
                  | none ↦ none
                  | some x ↦ find_client x (client_of a ∷ t.clients)
                ])
                first
              ∙ find_client-In In.first distinct)
        where
          first : (if is_empty t.clients then some a.address else t.current) ≡ some a.address
          first = ap (λ (b : Bool). if b then some a.address else t.current) e

  new_vgseer_client-IsShown :
      (a : Arrival) (s : Vgd)
      → IsConsistent s
      → IsShown w s
      → is_member a.address s.clients ≡ false
      → (is_running s || is_empty s.clients) ≡ true
      → Leaves w (new_vgseer_client w a s)
  unfolding new_vgseer_client
  new_vgseer_client-IsShown a s c g h p =
      let t = exchange w a s in
      let k = exchange_version-Keeps w (as_version a.version) a s in
      let g' = exchange_version-IsShown (as_version a.version) a s g in
      if-cases (Leaves w) t.1
        (λ _.
          with_display-IsShown a t.0 (Keeps-IsConsistent k c) g'
            (ap (is_member a.address) k.clients_eq ∙ h)
            (ap (λ b. b || is_empty t.0.clients) k.running_eq
              ∙ ap (λ cs. is_running s || is_empty cs) k.clients_eq
              ∙ p))
        (λ _. goes_on g')

  -- A connection at an address of its own, where the display runs or there is no client.
  pub new_client-IsShown :
      (o : Option Bytes) (a : Arrival) (s : Vgd)
      → IsConsistent s
      → IsShown w s
      → is_member a.address s.clients ≡ false
      → (is_running s || is_empty s.clients) ≡ true
      → Leaves w (new_client_for w o a s)
  unfolding new_client_for
  new_client-IsShown none a s c g h p = goes_on g
  new_client-IsShown (some v) a s c g h p =
      if-cases (Leaves w) (streq v (codes "vgping"))
        (λ _. goes_on (put_client-IsShown w all_put a.fd (p_status, codes "yo") s g))
        (λ _.
          if-cases (Leaves w) (streq v (codes "vgseer"))
            (λ _. new_vgseer_client-IsShown a s c g h p) (λ _. goes_on g))
