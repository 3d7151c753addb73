-- ===== src/Actions/Priority.antt =====
-- vgseer/actions.c: the order in which queued actions come out.
use viewglob.Base.{◌≡◌, refl, ap, Bool, false, ◌&&◌, List, [], ◌∷◌, ◌++◌, arith, if◌then◌else◌, ◌⊎◌}
use viewglob.Actions.{
  Action, send_cmd, send_pwd, send_lost, send_up, send_down, send_pgup, send_pgdown, new_mask,
  toggle, refocus, disable, dequeue, done, ActionQueue, al_enqueue, take_action, append_action,
  action_queue,
}

abbrev flagged : Bool → Action → List Action → List Action
flagged b a rest = if b then a ∷ rest else rest

-- The abstract queue, first to come out first: five actions of their own rank, once each, and then
-- the others in the order of their arrival. The exit is no part of it.
abbrev pub waiting : ActionQueue → List Action
waiting q = flagged q.disable_flag disable (
    flagged q.send_lost_flag send_lost (
      flagged q.send_pwd_flag send_pwd
        (flagged q.send_cmd_flag send_cmd (flagged q.new_mask_flag new_mask q.al))))

-- What one dequeue does to the abstract queue.
abbrev pub Takes : List Action → Action → List Action → Type 0
Takes before a after = (before ≡ a ∷ after) ⊎ (before ≡ []) × (a ≡ done) × (after ≡ [])

take_action-Takes :
    (q : ActionQueue) (l : List Action)
    → q.al ≡ l
    → q.exit_flag ≡ false
    → Takes (waiting q) (take_action q).1 (waiting (take_action q).0)
      × ((take_action q).0.exit_flag ≡ false)
unfolding take_action
take_action-Takes q [] e h = ground arith
take_action-Takes q (a ∷ l) e h = ground arith

-- Without a requested exit, dequeueing gives the first waiting action and removes it, or gives
-- `done` when none waits; and it requests no exit.
pub dequeue-Takes :
    (q : ActionQueue)
    → q.exit_flag ≡ false
    → Takes (waiting q) (action_queue dequeue q).1 (waiting (action_queue dequeue q).0)
      × ((action_queue dequeue q).0.exit_flag ≡ false)
unfolding action_queue
dequeue-Takes q h = take_action-Takes q q.al refl h

al_enqueue_lem : (a : Action) (l : List Action) → al_enqueue a l ≡ l ++ a ∷ []
unfolding al_enqueue
al_enqueue_lem a [] = refl
al_enqueue_lem a (b ∷ bs) = ap (◌∷◌ b) (al_enqueue_lem a bs)

-- The actions that queue up.
pub data IsQueued : Action → Type 0 where
  up : IsQueued send_up
  down : IsQueued send_down
  pgup : IsQueued send_pgup
  pgdown : IsQueued send_pgdown
  toggled : IsQueued toggle
  refocused : IsQueued refocus

waiting-append_action :
    (q : ActionQueue) (a : Action) → waiting (append_action q a) ≡ waiting q ++ a ∷ []
unfolding append_action
waiting-append_action q a = ground (arith, al_enqueue_lem a q.al)

-- Each of the scrolling orders, toggle and refocus waits behind all that waits already, even if the
-- same order waits.
pub action_queue-IsQueued :
    {a : Action}
    → IsQueued a
    → (q : ActionQueue) → waiting (action_queue a q).0 ≡ waiting q ++ a ∷ []
unfolding action_queue
action_queue-IsQueued up q = waiting-append_action q send_up
action_queue-IsQueued down q = waiting-append_action q send_down
action_queue-IsQueued pgup q = waiting-append_action q send_pgup
action_queue-IsQueued pgdown q = waiting-append_action q send_pgdown
action_queue-IsQueued toggled q = waiting-append_action q toggle
action_queue-IsQueued refocused q = waiting-append_action q refocus

-- A command line and the loss of it never wait together.
abbrev pub IsConsistent : ActionQueue → Type 0
IsConsistent q = (q.send_cmd_flag && q.send_lost_flag) ≡ false

take_action-IsConsistent :
    (q : ActionQueue) (l : List Action) → q.al ≡ l → IsConsistent q → IsConsistent (take_action q).0
unfolding take_action
take_action-IsConsistent q [] e h = ground arith
take_action-IsConsistent q (a ∷ l) e h = ground arith

-- If no command line waits together with the loss of one, then neither do they after any call of
-- the queue, enqueueing or dequeueing.
pub action_queue-IsConsistent :
    (a : Action) (q : ActionQueue) → IsConsistent q → IsConsistent (action_queue a q).0
unfolding action_queue
action_queue-IsConsistent dequeue q h = take_action-IsConsistent q q.al refl h
action_queue-IsConsistent _ q h = ground arith
