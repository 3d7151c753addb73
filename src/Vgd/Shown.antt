-- ===== src/Vgd/Shown.antt =====
-- vgd/vgd.c: while no message to the display is lost, each of the daemon's operations keeps the
-- display showing the current client.
use mathlib.Core.Path.{subst}
use viewglob.Base.{
  ℕ, ◌≡◌, refl, sym, ap, ◌∙◌, Bool, true, false, ◌&&◌, List, [], ◌∷◌, Option, none, some, Bytes,
  if◌then◌else◌, if-cases,
}
use viewglob.ParamIo.{p_mask, p_developing_mask}
use viewglob.Vgd.{
  Message, Client, Vgd, World, Outcome, running, exited, fault, is_empty, is_running, points_to,
  find_client, current_client, context_switch, update_display,
}
use viewglob.Vgd.Drop.{remove, without_audience, switch_to_first, forget_client}
use viewglob.Vgd.Serve.{set_client, take_mask}
use viewglob.Vgd.Sends.{Keeps, context_switch-Keeps, update_display-Keeps}
use viewglob.Vgd.Lists.{find_client-remove}
use viewglob.Vgd.Distinct.{
  are_distinct, distinct-remove, distinct-change_client, In, find_client-In,
}
use viewglob.Vgd.Screen.{
  Shows, InSync, tell, view, changed, current_client-change_client, context_switch-Shows,
  update_display-Shows,
}

-- The clients are distinct, and the display, if it runs, shows the current one.
pub record IsShown (w : World) (s : Vgd) : Type 0 where
  pub distinct : are_distinct s.clients ≡ true
  pub in_sync : InSync w s

-- So it is where the daemon goes on.
pub data Leaves (w : World) : Outcome → Type 0 where
  goes_on : {s : Vgd} → IsShown w s → Leaves w (running s)
  ended : (n : ℕ) (s : Vgd) → Leaves w (exited n s)
  broken : Leaves w fault

pub Keeps-current : {s t : Vgd} → Keeps s t → current_client t ≡ current_client s
Keeps-current {s} {t} k =
    ap (λ (cur : Option ℕ). elim cur [ none ↦ none | some a ↦ find_client a t.clients ])
      k.current_eq
    ∙ ap (λ (cs : List Client). elim s.current [ none ↦ none | some a ↦ find_client a cs ])
        k.clients_eq

pub Shows_nobody : (w : World) (d : Option (List Message)) → Shows w d none
Shows_nobody w none = tt
Shows_nobody w (some ms) = tt

module _ (w : World) (all_put : (n : ℕ) → w.put_display_ok n ≡ true) where
  -- A call that keeps the clients, and a display that shows the current one behind it.
  pub by_Keeps :
      {s t : Vgd}
      → Keeps s t
      → are_distinct s.clients ≡ true
      → Shows w t.display (current_client s)
      → IsShown w t
  by_Keeps {s} {t} k d h = record {
    distinct = ap are_distinct k.clients_eq ∙ d;
    in_sync = subst (λ o. Shows w t.display o) (sym (Keeps-current k)) h;
  }

  pub switched :
      (v : Client) (s : Vgd)
      → are_distinct s.clients ≡ true
      → current_client s ≡ some v
      → IsShown w (context_switch w v s)
  switched v s d e = by_Keeps (context_switch-Keeps w v s) d (
      subst (λ o. Shows w (context_switch w v s).display o) (sym e)
        (context_switch-Shows w all_put v s))

  -- A change of a client that the display is told of.
  pub assigned :
      (a : ℕ) (f : Client → Client) (m : Message) (s : Vgd)
      → ((c : Client) → (f c).address ≡ c.address)
      → ((v : Client) → tell m (view w v) ≡ view w (f v))
      → IsShown w s
      → IsShown w (update_display w a m (set_client a f s))
  assigned a f m s k h g =
      by_Keeps (update_display-Keeps w a m (set_client a f s))
        (distinct-change_client a f k s.clients g.distinct)
        (subst (λ o. Shows w (update_display w a m (set_client a f s)).display o)
          (sym (current_client-change_client a f k s))
          (update_display-Shows w all_put a m f (set_client a f s) (current_client s) (λ v _. h v)
            g.in_sync))

  -- A message that tells the display what it shows.
  pub retold :
      (a : ℕ) (m : Message) (s : Vgd)
      → ((v : Client) → current_client s ≡ some v → tell m (view w v) ≡ view w v)
      → IsShown w s
      → IsShown w (update_display w a m s)
  retold a m s h g = by_Keeps (update_display-Keeps w a m s) g.distinct (
      subst (λ o. Shows w (update_display w a m s).display o)
        (same (points_to s.current a) (current_client s))
        (update_display-Shows w all_put a m (λ v. v) s (current_client s) h g.in_sync))
    where
      same : (b : Bool) (o : Option Client) → (if b then changed (λ v. v) o else o) ≡ o
      same false o = refl
      same true none = refl
      same true (some v) = refl

  pub take_mask-IsShown :
      (v : Client) (value : Bytes) (s : Vgd) → IsShown w s → Leaves w (take_mask w v value s)
  take_mask-IsShown v value s g = goes_on (
      by_Keeps (update_display-Keeps w v.address (p_mask, value) u)
        (ap are_distinct k.clients_eq
          ∙ distinct-change_client v.address f (λ c. refl) s.clients g.distinct)
        (subst (λ o. Shows w (update_display w v.address (p_mask, value) u).display o) same
          (update_display-Shows w all_put v.address (p_mask, value) (λ c. record c { mask = value })
            u between (λ c _. refl)
            (update_display-Shows w all_put v.address (p_developing_mask, [])
              (λ c. record c { developing_mask = [] }) t (current_client s) (λ c _. refl)
              g.in_sync))))
    where
      f : Client → Client
      f c = record c { developing_mask = []; mask = value }

      t : Vgd
      t = set_client v.address f s

      u : Vgd
      u = update_display w v.address (p_developing_mask, []) t

      k : Keeps t u
      k = update_display-Keeps w v.address (p_developing_mask, []) t

      between : Option Client
      between =
          if points_to s.current v.address
          then changed (λ c. record c { developing_mask = [] }) (current_client s)
          else current_client s

      twice :
          (b : Bool) (o : Option Client)
          → (if b
              then changed
                  (λ c. record c { mask = value })
                  (if b then changed (λ c. record c { developing_mask = [] }) o else o)
              else (if b then changed (λ c. record c { developing_mask = [] }) o else o))
            ≡ (if b then changed f o else o)
      twice false o = refl
      twice true none = refl
      twice true (some c) = refl

      same :
          (if points_to u.current v.address
            then changed (λ c. record c { mask = value }) between
            else between)
          ≡ current_client u
      same =
          ap
            (λ (cur : Option ℕ).
              if points_to cur v.address
              then changed (λ c. record c { mask = value }) between
              else between)
            k.current_eq
          ∙ twice (points_to s.current v.address) (current_client s)
          ∙ sym (current_client-change_client v.address f (λ c. refl) s)
          ∙ sym (Keeps-current k)

  pub forgotten : (a : ℕ) (s : Vgd) → IsShown w s → IsShown w (forget_client w a s)
  unfolding forget_client
  forgotten a s g =
      if-cases (IsShown w) (points_to t.current a) (λ _. first t.clients t refl less)
        (λ n. as_before (is_running r && is_empty r.clients) n)
    where
      r : Vgd
      r = record s { clients = remove a s.clients }

      t : Vgd
      t = without_audience r

      less : are_distinct t.clients ≡ true
      less =
          if-cases (λ (u : Vgd). are_distinct u.clients ≡ true) (is_running r && is_empty r.clients)
            (λ _. distinct-remove a s.clients g.distinct)
            (λ _. distinct-remove a s.clients g.distinct)

      first :
          (cs : List Client) (u : Vgd)
          → u.clients ≡ cs
          → are_distinct u.clients ≡ true
          → IsShown w (switch_to_first w cs u)
      first [] u e d = record { distinct = d; in_sync = Shows_nobody w u.display }
      first (v ∷ vs) u e d =
          switched v (record u { current = some v.address }) d
            (ap (find_client v.address) e ∙ find_client-In first_one (ap are_distinct (sym e) ∙ d))
        where
          first_one : In v (v ∷ vs)
          first_one = In.first

      by_current :
          (cur : Option ℕ)
          → points_to cur a ≡ false
          → elim cur [ none ↦ none | some b ↦ find_client b (remove a s.clients) ]
            ≡ elim cur [ none ↦ none | some b ↦ find_client b s.clients ]
      by_current none n = refl
      by_current (some b) n = find_client-remove a b s.clients n

      as_before :
          (b : Bool)
          → points_to (if b then record r { display = none } else r).current a ≡ false
          → IsShown w (if b then record r { display = none } else r)
      as_before true n = record { distinct = distinct-remove a s.clients g.distinct; in_sync = tt }
      as_before false n = record {
        distinct = distinct-remove a s.clients g.distinct;
        in_sync = subst (λ o. Shows w s.display o) (sym (by_current s.current n)) g.in_sync;
      }
