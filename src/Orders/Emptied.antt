-- ===== src/Orders/Emptied.antt =====
-- vgseer/vgseer.c: `action_loop` deals with all the actions that wait.
use mathlib.Core.Path.{subst}
use viewglob.Base.{
  ℕ, zero, suc, ◌≡◌, refl, sym, ap, ◌∙◌, Bool, true, false, ◌&&◌, List, [], ◌∷◌, Option, none, some,
  Bytes, arith, length, if-cases, inl, inr,
}
use viewglob.Actions.{
  Action, nop, send_cmd, send_lost, disable, dequeue, done, exit, ActionQueue, action_queue,
}
use viewglob.Actions.Priority.{waiting, Takes, dequeue-Takes}
use viewglob.ParamIo.{Parameter, p_cmd, p_mask}
use viewglob.Sanitize.{sanitize}
use viewglob.Orders.{
  Teller, Wire, Flow, or_star, expand_command, told, and_tell, put_param_wrapped, write_command,
  call_vgexpand, message_of, act, LoopEnd, goes_on, then_loop, dispatch, action_loop,
}

-- The actions that tell something.
abbrev pub is_order : Action → Bool
is_order nop = false
is_order dequeue = false
is_order done = false
is_order exit = false
is_order _ = true

abbrev pub are_orders : List Action → Bool
are_orders [] = true
are_orders (a ∷ as') = is_order a && are_orders as'

first_order :
    (a : Action) (l : List Action)
    → (is_order a && are_orders l) ≡ true
    → (is_order a ≡ true) × (are_orders l ≡ true)
first_order a l h = halves (is_order a) (are_orders l) h
  where
    halves : (b c : Bool) → (b && c) ≡ true → (b ≡ true) × (c ≡ true)
    halves true c k = (refl, k)
    halves false c k = cc k

-- Behind one dequeue.
abbrev last_of : Teller → Teller
last_of t = record t { queue = (action_queue dequeue t.queue).0 }

-- In a world in which every message to vgd is sent.
module _ (w : Wire) (all_put : (n : ℕ) → w.put_ok n ≡ true) where
  -- The program goes on with the same queue.
  abbrev Tells : Teller → Flow → Type 0
  Tells t o = (u : Teller) × (o ≡ told u) × (u.queue ≡ t.queue)

  put_param_wrapped-Tells :
      (m : Option (Parameter × Bytes)) (t : Teller) → Tells t (put_param_wrapped w m t)
  unfolding put_param_wrapped
  put_param_wrapped-Tells none t = (t, refl, refl)
  put_param_wrapped-Tells (some m) t =
      if-cases (Tells t) t.vgseer_enabled
        (λ _.
          if-cases (Tells t) (w.put_ok t.calls) (λ _. (_, refl, refl))
            (λ n. cc (n, all_put t.calls)))
        (λ _. (t, refl, refl))

  and_tell-Tells :
      (t : Teller) (o : Flow) (f : Teller → Flow)
      → Tells t o
      → ((u : Teller) → Tells u (f u))
      → Tells t (and_tell o f)
  and_tell-Tells t o f (u, e, q) h =
      let (v, e', q') = h u in (v, ap (λ x. and_tell x f) e ∙ e', q' ∙ q)

  after_write :
      (command : Bytes) (m n : Option (Parameter × Bytes)) (t : Teller)
      → Tells t (
          and_tell
            (put_param_wrapped w m (record (write_command w command t) { vgexpand_called = true }))
            (put_param_wrapped w n))
  after_write command m n t =
      let (u, e, q) =
        put_param_wrapped-Tells m (record (write_command w command t) { vgexpand_called = true }) in
      and_tell-Tells t _ (put_param_wrapped w n) (u, e, q ∙ kept) (put_param_wrapped-Tells n)
    where
      kept : (write_command w command t).queue ≡ t.queue
      kept =
          if-cases (λ (x : Teller). x.queue ≡ t.queue) (w.write_ok t.calls) (λ _. refl) (λ _. refl)

  call_vgexpand-Tells : (t : Teller) → Tells t (call_vgexpand w t)
  unfolding call_vgexpand
  call_vgexpand-Tells t =
      let cmd_sane = sanitize t.cmd.text in
      let mask_sane = or_star (sanitize t.cmd.mask_final) in
      after_write (expand_command t.cmd.pwd mask_sane t.vgexpand_opts cmd_sane)
        (some (p_cmd, cmd_sane)) (some (p_mask, mask_sane)) t

  act-Tells : (a : Action) (t : Teller) → Tells t (act w a t)
  unfolding act
  act-Tells send_cmd t = call_vgexpand-Tells t
  act-Tells disable t = (_, refl, refl)
  act-Tells send_lost t = (_, refl, refl)
  act-Tells a t = put_param_wrapped-Tells (message_of a t) t

  dispatch_order :
      (a : Action) (t : Teller) (f : Teller → Option LoopEnd)
      → is_order a ≡ true
      → dispatch w a t f ≡ then_loop (act w a t) f
  unfolding dispatch
  dispatch_order nop t f h = cc h
  dispatch_order dequeue t f h = cc h
  dispatch_order done t f h = cc h
  dispatch_order exit t f h = cc h
  dispatch_order _ t f h = refl

  -- The loop goes on with the program, and leaves no action waiting.
  abbrev pub Empties : Option LoopEnd → Type 0
  Empties o = (u : Teller) × (o ≡ some (goes_on u)) × (waiting u.queue ≡ [])

  round_on :
      (f : Teller → Option LoopEnd) (a : Action) (s : Teller)
      → is_order a ≡ true
      → ((v : Teller) → v.queue ≡ s.queue → Empties (f v))
      → Empties (dispatch w a s f)
  round_on f a s h on =
      let (v, d, q) = act-Tells a s in
      let (u, r, x) = on v q in (u, dispatch_order a s f h ∙ ap (λ o. then_loop o f) d ∙ r, x)

  dispatch_done :
      (f : Teller → Option LoopEnd) (a : Action) (s : Teller)
      → a ≡ done
      → waiting s.queue ≡ []
      → Empties (dispatch w a s f)
  unfolding dispatch
  dispatch_done f a s e x = (s, ap (λ b. dispatch w b s f) e, x)

  action_loop_step :
      (n : ℕ) (t : Teller)
      → action_loop w (suc n) t
        ≡ dispatch w (action_queue dequeue t.queue).1 (last_of t) (action_loop w n)
  unfolding action_loop
  action_loop_step n t = refl

  -- By what the dequeueing took.
  by_taken :
      (n : ℕ) (a : Action) (l : List Action) (s : Teller) (f : Teller → Option LoopEnd)
      → Takes l a (waiting s.queue)
      → are_orders l ≡ true
      → length l ≡ n
      → ((m : ℕ)
          → n ≡ suc m
          → (v : Teller) → v.queue ≡ s.queue
          → are_orders (waiting s.queue) ≡ true
          → length (waiting s.queue) ≡ m
          → Empties (f v))
      → Empties (dispatch w a s f)
  by_taken n a l s f (inl e) k h on =
      let (o, os) = first_order a (waiting s.queue) (sym (ap are_orders e) ∙ k) in
      round_on f a s o (λ v q. on (length (waiting s.queue)) (sym h ∙ ap length e) v q os refl)
  by_taken n a l s f (inr (e, d, x)) k h on = dispatch_done f a s d x

  -- If no exit is requested, only actions that tell something wait, and every message to vgd is sent,
  -- then `action_loop` ends within one round more than there are actions that wait, goes on with the
  -- program, and leaves none waiting.
  pub action_loop-waiting :
      (n : ℕ) (t : Teller)
      → t.queue.exit_flag ≡ false
      → are_orders (waiting t.queue) ≡ true
      → length (waiting t.queue) ≡ n
      → Empties (action_loop w (suc n) t)
  action_loop-waiting zero t h k l = subst Empties (sym (action_loop_step zero t)) (
      by_taken zero (action_queue dequeue t.queue).1 (waiting t.queue) (last_of t)
        (action_loop w zero) (dequeue-Takes t.queue h).0 k l (λ m e v q os x. cc e))
  action_loop-waiting (suc n) t h k l = subst Empties (sym (action_loop_step (suc n) t)) (
      by_taken (suc n) (action_queue dequeue t.queue).1 (waiting t.queue) (last_of t)
        (action_loop w (suc n)) (dequeue-Takes t.queue h).0 k l
        (λ m e v q os x.
          action_loop-waiting n v
            (ap (λ (y : ActionQueue). y.exit_flag) q ∙ (dequeue-Takes t.queue h).1)
            (ap (λ y. are_orders (waiting y)) q ∙ os)
            (ap (λ y. length (waiting y)) q ∙ x ∙ ground arith)))
