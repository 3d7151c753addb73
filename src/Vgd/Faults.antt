-- ===== src/Vgd/Faults.antt =====
-- vgd/vgd.c: when serving a client uses one that is freed.
use viewglob.Base.{
  ℕ, ◌≡◌, refl, sym, ap, ◌∙◌, Bool, true, false, not, ◌&&◌, ◌||◌, List, Option, none, some, Bytes,
  if-cases, Bool-cases, inl, inr, arith,
}
use viewglob.Shell.{string_to_shell_status}
use viewglob.ParamIo.{p_status}
use viewglob.Vgd.{
  Message, Client, Vgd, World, Outcome, running, exited, fault, and_then, is_empty, find_client,
}
use viewglob.Vgd.Drop.{remove, forget_client, drop_client}
use viewglob.Vgd.Serve.{is_error, store_status, take_status, take_message, process_client}
use viewglob.Vgd.Sends.{IsConsistent, IsSafe}
use viewglob.Vgd.Lists.{is_member}
use viewglob.Vgd.Distinct.{are_distinct}
use viewglob.Vgd.Dropped.{forget_client-gone}
use viewglob.Vgd.Consistent.{forget_client-persistent, forget_client-clients}
use viewglob.Vgd.Safety.{is_valid, process_client-IsSafe}

abbrev pub is_fault : Outcome → Bool
is_fault (running s) = false
is_fault (exited n s) = false
is_fault fault = true

IsSafe-is_fault : {o : Outcome} → IsSafe o → is_fault o ≡ false
IsSafe-is_fault (IsSafe.goes_on c) = refl
IsSafe-is_fault (IsSafe.exits n s) = refl

-- The daemon is there yet when the client at an address is dropped.
abbrev pub outlives : ℕ → Vgd → Bool
outlives a s = s.persistent || not (is_empty (remove a s.clients))

module _ (w : World) where
  drop_client-outlives :
      (a : ℕ) (f : Vgd → Outcome) (s : Vgd)
      → f (forget_client w a s) ≡ fault
      → is_fault (and_then (drop_client w a s) f) ≡ outlives a s
  unfolding drop_client
  drop_client-outlives a f s h =
      let t = forget_client w a s in
      let p = forget_client-persistent w a s in
      let e = ap (λ (l : List Client). is_empty l) (forget_client-clients w a s) in
      if-cases (λ (o : Outcome). is_fault (and_then o f) ≡ outlives a s)
        (not t.persistent && is_empty t.clients) (λ y. ground (arith, p, e))
        (λ n. ap is_fault h ∙ ground (arith, p, e))

  take_status-outlives :
      (v : Client) (value : Bytes) (s : Vgd)
      → are_distinct s.clients ≡ true
      → is_error (string_to_shell_status value) ≡ true
      → is_fault (take_status w v value s) ≡ outlives v.address s
  unfolding take_status store_status
  take_status-outlives v value s d h =
      let st = string_to_shell_status value in
      let store = (λ (t : Vgd). store_status w (find_client v.address t.clients) st value t) in
      if-cases (λ (o : Outcome). is_fault o ≡ outlives v.address s) (is_error st)
        (λ _. drop_client-outlives v.address store s (
          ap (λ o. store_status w o st value (forget_client w v.address s))
            (forget_client-gone w v.address s d)))
        (λ n. cc (n, h))

  -- In a consistent state with addresses of their own, serving a client of the list uses a client
  -- that is freed exactly where the client sends an invalid status and the daemon is there yet when
  -- it has dropped it: the daemon is persistent, or there are other clients.
  pub is_fault-process_client :
      (v : Client) (m : Option Message) (s : Vgd)
      → IsConsistent s
      → are_distinct s.clients ≡ true
      → is_member v.address s.clients ≡ true
      → is_fault (process_client w v m s) ≡ (not (is_valid m) && outlives v.address s)
  unfolding process_client take_message
  is_fault-process_client v m s c d here = elim (Bool-cases (is_valid m)) [
    | inl y ↦
        IsSafe-is_fault (process_client-IsSafe w v m s c here y)
        ∙ sym (ap (λ b. not b && outlives v.address s) y)
    | inr n ↦ invalid m n ∙ sym (ap (λ b. not b && outlives v.address s) n)
  ]
    where
      invalid :
          (m : Option Message)
          → is_valid m ≡ false
          → is_fault (process_client w v m s) ≡ outlives v.address s
      invalid (some (p_status, value)) h = take_status-outlives v value s d (ground arith)
      invalid none h = cc h
      invalid (some (_, value)) h = cc h
