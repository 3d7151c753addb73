-- ===== src/HardenedIo/Writes.antt =====
-- common/hardened-io.c: what `write_all` and `writev_all` write, however the system takes it.
use mathlib.Core.Bool.{false≢true}
use mathlib.Core.List.{append_assoc, append-nil}
use viewglob.Base.{
  ℕ, zero, suc, ◌+◌, ◌-◌, ◌<◌, ◌≤◌, ◌≡◌, refl, sym, ap, ◌∙◌, Bool, true, false, List, [], ◌∷◌, ◌++◌,
  Option, none, some, Bytes, arith, length, length-append, length-drop, drop-append_le, take-add,
  drop-drop, drop_end, take_all, take-append-drop, take, drop, leb, if-cases,
}
use viewglob.HardenedIo.{
  ior_ok, ior_error, Writing, wrote, write_interrupted, write_failed, IoWrite, sent, write_all,
  writev_all, gathered, less_written,
}

drop_nil : (n : ℕ) → drop {A = ℕ} n [] ≡ []
drop_nil zero = refl
drop_nil (suc n) = refl

drop_over : (n : ℕ) (v w : Bytes) → length v ≤ n → drop n (v ++ w) ≡ drop (n - length v) w
drop_over n [] w h = ap (λ k. drop k w) (omega arith)
drop_over zero (x ∷ v) w h = absurd (omega arith)
drop_over (suc n) (x ∷ v) w h =
    drop_over n v w (omega arith)
    ∙ ap (λ k. drop k w) {x = n - length v} {y = suc n - suc (length v)} (omega arith)

gathered-less_written :
    (n : ℕ) (vec : List Bytes) → gathered (less_written n vec) ≡ drop n (gathered vec)
gathered-less_written n [] = sym (drop_nil n)
gathered-less_written n (v ∷ vec) =
    if-cases (λ (u : List Bytes). gathered u ≡ drop n (gathered (v ∷ vec))) (leb (length v) n)
      (λ y.
        gathered-less_written (n - length v) vec
        ∙ sym (drop_over n v (gathered vec) (ground arith)))
      (λ no. sym (drop-append_le n v (gathered vec) (ground arith)))

-- The first buffer that is left is not empty.
abbrev FirstLeft : List Bytes → Type 0
FirstLeft [] = 0 ≤ 0
FirstLeft (v ∷ vec) = 0 < length v

less_written-FirstLeft : (n : ℕ) (vec : List Bytes) → FirstLeft (less_written n vec)
less_written-FirstLeft n [] = omega arith
less_written-FirstLeft n (v ∷ vec) =
    if-cases FirstLeft (leb (length v) n) (λ y. less_written-FirstLeft (n - length v) vec)
      (λ no. ground (arith, length-drop n v))

write_all_waiting : (s : Bytes) → 0 < length s → none ≡ write_all s []
unfolding write_all
write_all_waiting [] h = absurd (omega arith)
write_all_waiting (c ∷ cs) h = refl

write_all_interrupted :
    (s : Bytes) (ws : List Writing)
    → 0 < length s
    → write_all s ws ≡ write_all s (write_interrupted ∷ ws)
unfolding write_all
write_all_interrupted [] ws h = absurd (omega arith)
write_all_interrupted (c ∷ cs) ws h = refl

write_all_failed :
    (s : Bytes) (e : ℕ) (ws : List Writing)
    → 0 < length s
    → some (record { result = ior_error; data_written = []; later = ws })
      ≡ write_all s (write_failed e ∷ ws)
unfolding write_all
write_all_failed [] e ws h = absurd (omega arith)
write_all_failed (c ∷ cs) e ws h = refl

write_all_wrote :
    (s : Bytes) (n : ℕ) (ws : List Writing)
    → 0 < length s
    → sent (take n s) (write_all (drop n s) ws) ≡ write_all s (wrote n ∷ ws)
unfolding write_all
write_all_wrote [] n ws h = absurd (omega arith)
write_all_wrote (c ∷ cs) n ws h = refl

-- Where there is something to write, `writev_all` writes what `write_all` would write of the buffers
-- put together, and returns the same.
pub writev_all-write_all :
    (vec : List Bytes) (ws : List Writing)
    → 0 < length (gathered vec)
    → writev_all vec ws ≡ write_all (gathered vec) ws
unfolding writev_all write_all
writev_all-write_all vec [] h = write_all_waiting (gathered vec) h
writev_all-write_all vec (write_interrupted ∷ ws) h =
    writev_all-write_all vec ws h ∙ write_all_interrupted (gathered vec) ws h
writev_all-write_all vec (write_failed e ∷ ws) h = write_all_failed (gathered vec) e ws h
writev_all-write_all vec (wrote n ∷ ws) h =
    ap (sent (take n (gathered vec))) (
      continued (λ v k. writev_all-write_all v ws k) (less_written n vec)
        (less_written-FirstLeft n vec)
      ∙ ap (λ s. write_all s ws) (gathered-less_written n vec))
    ∙ write_all_wrote (gathered vec) n ws h
  where
    continued :
        ((u : List Bytes) → 0 < length (gathered u) → writev_all u ws ≡ write_all (gathered u) ws)
        → (left : List Bytes) → FirstLeft left
        → (elim left [
          | [] ↦ some (record { result = ior_ok; data_written = []; later = ws })
          | v ∷ rest ↦ elim rest [ [] ↦ write_all v ws | w ∷ more ↦ writev_all (v ∷ w ∷ more) ws ]
        ])
          ≡ write_all (gathered left) ws
    continued again [] f = refl
    continued again (v ∷ []) f = ap (λ s. write_all s ws) (sym (append-nil v))
    continued again (v ∷ w ∷ more) f =
        again (v ∷ w ∷ more) (omega (arith, f, length-append v (w ++ gathered more)))

-- No error.
abbrev pub takes_on : List Writing → Bool
takes_on [] = true
takes_on (write_failed e ∷ ws) = false
takes_on (_ ∷ ws) = takes_on ws

-- How many bytes were taken.
abbrev pub taken : List Writing → ℕ
taken [] = 0
taken (wrote n ∷ ws) = n + taken ws
taken (_ ∷ ws) = taken ws

sent-sent : (s t : Bytes) (r : Option IoWrite) → sent s (sent t r) ≡ sent (s ++ t) r
sent-sent s t none = refl
sent-sent s t (some r) =
    ap (λ u. some (record r { data_written = u })) (sym (append_assoc s t r.data_written))

sent_nothing : (r : Option IoWrite) → r ≡ sent [] r
sent_nothing none = refl
sent_nothing (some r) = refl

write_all-append :
    (ws later : List Writing) (s : Bytes)
    → takes_on ws ≡ true
    → taken ws < length s
    → write_all s (ws ++ later) ≡ sent (take (taken ws) s) (write_all (drop (taken ws) s) later)
write_all-append [] later s h k = sent_nothing _
write_all-append (wrote n ∷ ws) later s h k =
    sym (write_all_wrote s n (ws ++ later) (omega (arith, k)))
    ∙ ap (sent (take n s))
        (write_all-append ws later (drop n s) h (omega (arith, k, length-drop n s)))
    ∙ sent-sent (take n s) (take (taken ws) (drop n s)) _
    ∙ ap (λ u. sent u (write_all (drop (taken ws) (drop n s)) later))
        (sym (take-add n (taken ws) s))
    ∙ ap (λ u. sent (take (n + taken ws) s) (write_all u later)) (drop-drop (taken ws) n s)
write_all-append (write_interrupted ∷ ws) later s h k =
    sym (write_all_interrupted s (ws ++ later) (omega (arith, k))) ∙ write_all-append ws later s h k
write_all-append (write_failed e ∷ ws) later s h k = absurd (false≢true h)

take_end : (n : ℕ) (t : Bytes) → n ≡ length t → take n t ≡ t
take_end n t h = ap (λ k. take k t) h ∙ take_all t

-- While not all is written, in whatever pieces and with whatever interruptions: the piece that
-- completes it makes the call return, with all bytes written once and in order; behind an error the
-- bytes that were taken are written.
pub write_all-Writing :
    (ws later : List Writing) (s : Bytes) (e : ℕ)
    → takes_on ws ≡ true
    → taken ws < length s
    → (write_all s (ws ++ wrote (length s - taken ws) ∷ later)
        ≡ some (record { result = ior_ok; data_written = s; later = later }))
      × (write_all s (ws ++ write_failed e ∷ later)
          ≡ some (record { result = ior_error; data_written = take (taken ws) s; later = later }))
unfolding write_all
write_all-Writing ws later s e h k = (
  write_all-append ws (wrote (length s - taken ws) ∷ later) s h k
      ∙ ap (sent (take (taken ws) s))
          (sym (write_all_wrote (drop (taken ws) s) (length s - taken ws) later left))
      ∙ ap
          (λ u.
            sent (take (taken ws) s)
              (sent (take (length s - taken ws) (drop (taken ws) s)) (write_all u later)))
          done
      ∙ ap (λ u. some (record { result = ior_ok; data_written = u; later = later })) whole,
  write_all-append ws (write_failed e ∷ later) s h k
      ∙ ap (sent (take (taken ws) s)) (sym (write_all_failed (drop (taken ws) s) e later left))
      ∙ ap (λ u. some (record { result = ior_error; data_written = u; later = later }))
          (append-nil _),
)
  where
    left : 0 < length (drop (taken ws) s)
    left = omega (arith, k, length-drop (taken ws) s)

    done : drop (length s - taken ws) (drop (taken ws) s) ≡ []
    done = drop_end _ (drop (taken ws) s) (sym (length-drop (taken ws) s))

    whole : take (taken ws) s ++ (take (length s - taken ws) (drop (taken ws) s) ++ []) ≡ s
    whole =
        ap (λ u. take (taken ws) s ++ u)
          (append-nil _
            ∙ take_end (length s - taken ws) (drop (taken ws) s) (sym (length-drop (taken ws) s)))
        ∙ take-append-drop (taken ws) s
