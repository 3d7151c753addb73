-- ===== src/Vgd/Consistent.antt =====
-- vgd/vgd.c: clients that come and go keep the daemon's state consistent.
use viewglob.Base.{
  ℕ, ◌+◌, ◌≡◌, refl, sym, ap, ◌∙◌, Bool, true, false, not, ◌&&◌, List, [], ◌∷◌, Option, none, some,
  Bytes, codes, if-cases,
}
use viewglob.ParamIo.{p_win_id, p_status, p_order, p_vgexpand_opts, streq}
use viewglob.Vgd.{Client, Vgd, World, is_some, is_empty, is_running, points_to}
use viewglob.Vgd.Drop.{
  remove, without_audience, switch_to_first, forget_client, drop_client, drop_all, die,
}
use viewglob.Vgd.Arrive.{
  Arrival, put_all_client, exchange_status, exchange_title, exchange_version, exchange, greeting,
  as_title, as_version, as_status, says, client_of, with_client, with_display, new_vgseer_client,
  new_client_for,
}
use viewglob.Vgd.Sends.{
  is_there, IsConsistent, IsSafe, goes_on, exits, and_then-IsSafe, Keeps, Keeps-self, Keeps-trans,
  Keeps-IsConsistent, put_client-Keeps, put_all_client-Keeps, context_switch-Keeps,
  update_display-Keeps,
}
use viewglob.Vgd.Lists.{is_member, member_cons, member_first, find_client-remove}

-- What is left of a state when its audience is looked at.
record Attends (s t : Vgd) : Type 0 where
  clients_eq : t.clients ≡ s.clients
  current_eq : t.current ≡ s.current
  persistent_eq : t.persistent ≡ s.persistent
  attended : (is_running t && is_empty t.clients) ≡ false

without_audience-Attends : (s : Vgd) → Attends s (without_audience s)
without_audience-Attends s =
    if-cases (Attends s) (is_running s && is_empty s.clients)
      (λ _. record { clients_eq = refl; current_eq = refl; persistent_eq = refl; attended = refl })
      (λ n. record { clients_eq = refl; current_eq = refl; persistent_eq = refl; attended = n })

-- The current client is another than the one that goes.
is_there-remove :
    (a : ℕ) (cur : Option ℕ) (cs : List Client)
    → points_to cur a ≡ false
    → is_there cur cs ≡ true
    → is_there cur (remove a cs) ≡ true
is_there-remove a none [] n h = refl
is_there-remove a none (c ∷ cs) n h = cc h
is_there-remove a (some b) cs n h = ap is_some (find_client-remove a b cs n) ∙ h

module _ (w : World) where
  switch_to_first-IsConsistent :
      (cs : List Client) (t : Vgd)
      → t.clients ≡ cs
      → (is_running t && is_empty t.clients) ≡ false
      → IsConsistent (switch_to_first w cs t)
  switch_to_first-IsConsistent [] t e h = record {
    current_there = ap (λ (l : List Client). is_empty l) e;
    attended = h;
  }
  switch_to_first-IsConsistent (v ∷ vs) t e h =
      Keeps-IsConsistent (context_switch-Keeps w v (record t { current = some v.address }))
        (record { current_there = ap (is_member v.address) e ∙ member_first v vs; attended = h })

  forget_client-IsConsistent :
      (a : ℕ) (s : Vgd) → IsConsistent s → IsConsistent (forget_client w a s)
  unfolding forget_client
  forget_client-IsConsistent a s c =
      let t = without_audience (record s { clients = remove a s.clients }) in
      let h = without_audience-Attends (record s { clients = remove a s.clients }) in
      if-cases IsConsistent (points_to t.current a)
        (λ _. switch_to_first-IsConsistent t.clients t refl h.attended)
        (λ n. record {
          current_there =
              rw (h.current_eq, h.clients_eq)
                (is_there-remove a s.current s.clients
                  (ap (λ cur. points_to cur a) (sym h.current_eq) ∙ n) c.current_there);
          attended = h.attended;
        })

  switch_to_first-persistent :
      (cs : List Client) (t : Vgd) → (switch_to_first w cs t).persistent ≡ t.persistent
  switch_to_first-persistent [] t = refl
  switch_to_first-persistent (v ∷ vs) t =
      let k = context_switch-Keeps w v (record t { current = some v.address }) in k.persistent_eq

  pub forget_client-persistent : (a : ℕ) (s : Vgd) → (forget_client w a s).persistent ≡ s.persistent
  unfolding forget_client
  forget_client-persistent a s =
      let t = without_audience (record s { clients = remove a s.clients }) in
      let h = without_audience-Attends (record s { clients = remove a s.clients }) in
      if-cases (λ (u : Vgd). u.persistent ≡ s.persistent) (points_to t.current a)
        (λ _. switch_to_first-persistent t.clients t ∙ h.persistent_eq) (λ _. h.persistent_eq)

  switch_to_first-clients :
      (cs : List Client) (t : Vgd) → (switch_to_first w cs t).clients ≡ t.clients
  switch_to_first-clients [] t = refl
  switch_to_first-clients (v ∷ vs) t =
      let k = context_switch-Keeps w v (record t { current = some v.address }) in k.clients_eq

  pub forget_client-clients : (a : ℕ) (s : Vgd) → (forget_client w a s).clients ≡ remove a s.clients
  unfolding forget_client
  forget_client-clients a s =
      let t = without_audience (record s { clients = remove a s.clients }) in
      let h = without_audience-Attends (record s { clients = remove a s.clients }) in
      if-cases (λ (u : Vgd). u.clients ≡ remove a s.clients) (points_to t.current a)
        (λ _. switch_to_first-clients t.clients t ∙ h.clients_eq) (λ _. h.clients_eq)

  pub drop_client-IsSafe : (a : ℕ) (s : Vgd) → IsConsistent s → IsSafe (drop_client w a s)
  unfolding drop_client
  drop_client-IsSafe a s c =
      let t = forget_client w a s in
      if-cases IsSafe (not t.persistent && is_empty t.clients)
        (λ _. exits 0 (record t { display = none }))
        (λ _. goes_on (forget_client-IsConsistent a s c))

  drop_all-IsSafe : (vs : List Client) (s : Vgd) → IsConsistent s → IsSafe (drop_all w vs s)
  unfolding drop_all
  drop_all-IsSafe [] s c = goes_on c
  drop_all-IsSafe (v ∷ vs) s c = and_then-IsSafe (drop_all w vs) (drop_all-IsSafe vs) (
      drop_client-IsSafe v.address _
        (Keeps-IsConsistent (put_client-Keeps w v.fd (p_status, codes "dead") s) c))

  pub die-IsSafe : (code : ℕ) (s : Vgd) → IsConsistent s → IsSafe (die w code s)
  unfolding die
  die-IsSafe code s c =
      and_then-IsSafe _ (λ t _. exits code (record t { display = none }))
        (drop_all-IsSafe s.clients s c)

  exchange_status-Keeps : (a : Arrival) (s : Vgd) → Keeps s (exchange_status w a s).0
  unfolding exchange_status
  exchange_status-Keeps a s =
      if-cases (λ (r : Vgd × Bool). Keeps s r.0) (says (codes "title-set") (as_status a.title_set))
        (λ _. put_all_client-Keeps w a.fd ((p_vgexpand_opts, s.vgexpand_opts) ∷ []) s)
        (λ _. Keeps-self s)

  exchange_title-Keeps :
      (o : Option Bytes) (a : Arrival) (s : Vgd) → Keeps s (exchange_title w o a s).0
  unfolding exchange_title
  exchange_title-Keeps none a s = Keeps-self s
  exchange_title-Keeps (some title) a s =
      let sends = put_all_client w a.fd ((p_order, codes "set-title") ∷ []) s in
      let k = put_all_client-Keeps w a.fd ((p_order, codes "set-title") ∷ []) s in
      if-cases (λ (r : Vgd × Bool). Keeps s r.0) sends.1
        (λ _. Keeps-trans k (exchange_status-Keeps a sends.0)) (λ _. k)

  pub exchange_version-Keeps :
      (o : Option Bytes) (a : Arrival) (s : Vgd) → Keeps s (exchange_version w o a s).0
  unfolding exchange_version
  exchange_version-Keeps none a s = Keeps-self s
  exchange_version-Keeps (some v) a s =
      let sends = put_all_client w a.fd (greeting w v) s in
      let k = put_all_client-Keeps w a.fd (greeting w v) s in
      if-cases (λ (r : Vgd × Bool). Keeps s r.0) sends.1
        (λ _. Keeps-trans k (exchange_title-Keeps (as_title a.title) a sends.0)) (λ _. k)

  with_client-IsConsistent :
      (a : Arrival) (s : Vgd) → IsConsistent s → IsConsistent (with_client a s)
  with_client-IsConsistent a s c = record {
    current_there =
        if-cases (λ (o : Option ℕ). is_there o (client_of a ∷ s.clients) ≡ true)
          (is_empty s.clients) (λ _. member_first (client_of a) s.clients)
          (λ n. still_there s.current s.clients n c.current_there);
    attended = nobody (is_running s);
  }
    where
      still_there :
          (o : Option ℕ) (cs : List Client)
          → is_empty cs ≡ false
          → is_there o cs ≡ true
          → is_there o (client_of a ∷ cs) ≡ true
      still_there none cs n h = sym n ∙ h
      still_there (some b) cs n h = member_cons b (client_of a) cs h

      nobody : (b : Bool) → (b && false) ≡ false
      nobody true = refl
      nobody false = refl

  started :
      (s : Vgd) (n : ℕ)
      → is_there s.current s.clients ≡ true
      → is_empty s.clients ≡ false
      → IsConsistent (record s { display = some []; calls = n })
  started s n h e = record { current_there = h; attended = e }

  with_display-IsSafe :
      (a : Arrival) (s : Vgd)
      → IsConsistent s
      → is_empty s.clients ≡ false
      → IsSafe (with_display w a s)
  unfolding with_display
  with_display-IsSafe a s c e =
      if-cases IsSafe (is_running s) (λ _. goes_on c)
        (λ _.
          if-cases IsSafe (w.fork_ok s.calls)
            (λ _. goes_on (
              Keeps-IsConsistent (update_display-Keeps w a.address (p_win_id, w.win_to_str a.xid) _)
                (started s (s.calls + 1) c.current_there e)))
            (λ _.
              die-IsSafe 1 (record s { calls = s.calls + 1 })
                (record { current_there = c.current_there; attended = c.attended })))

  new_vgseer_client-IsSafe :
      (a : Arrival) (s : Vgd) → IsConsistent s → IsSafe (new_vgseer_client w a s)
  unfolding new_vgseer_client
  new_vgseer_client-IsSafe a s c =
      let sends = exchange w a s in
      let t = Keeps-IsConsistent (exchange_version-Keeps (as_version a.version) a s) c in
      if-cases IsSafe sends.1
        (λ _.
          with_display-IsSafe a (with_client a sends.0) (with_client-IsConsistent a sends.0 t) refl)
        (λ _. goes_on t)

  pub new_client-IsSafe :
      (o : Option Bytes) (a : Arrival) (s : Vgd) → IsConsistent s → IsSafe (new_client_for w o a s)
  unfolding new_client_for
  new_client-IsSafe none a s c = goes_on c
  new_client-IsSafe (some v) a s c =
      if-cases IsSafe (streq v (codes "vgping"))
        (λ _. goes_on (Keeps-IsConsistent (put_client-Keeps w a.fd (p_status, codes "yo") s) c))
        (λ _.
          if-cases IsSafe (streq v (codes "vgseer")) (λ _. new_vgseer_client-IsSafe a s c)
            (λ _. goes_on c))
