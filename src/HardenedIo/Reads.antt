-- ===== src/HardenedIo/Reads.antt =====
-- common/hardened-io.c: what `read_all` returns, however the bytes arrive.
use mathlib.Core.Bool.{false≢true}
use mathlib.Core.List.{append_assoc, append-nil}
use viewglob.Base.{
  ℕ, zero, suc, ◌+◌, ◌-◌, ◌≡◌, refl, sym, ap, ◌∙◌, Bool, true, false, List, [], ◌∷◌, ◌++◌, Option,
  none, some, Bytes, arith, length, length-append,
}
use viewglob.HardenedIo.{
  IoResult, ior_ok, ior_error, ior_eof, Reading, got, read_interrupted, read_failed, IoRead, stored,
  read_all,
}

-- Neither an error nor the end of the file.
abbrev pub goes_on : List Reading → Bool
goes_on [] = true
goes_on (got [] ∷ rs) = false
goes_on (got (c ∷ cs) ∷ rs) = goes_on rs
goes_on (read_interrupted ∷ rs) = goes_on rs
goes_on (read_failed e ∷ rs) = false

abbrev pub bytes_of : List Reading → Bytes
bytes_of [] = []
bytes_of (got s ∷ rs) = s ++ bytes_of rs
bytes_of (_ ∷ rs) = bytes_of rs

stored-stored : (s t : Bytes) (r : Option IoRead) → stored s (stored t r) ≡ stored (s ++ t) r
stored-stored s t none = refl
stored-stored s t (some r) =
    ap (λ u. some (record r { data_read = u })) (sym (append_assoc s t r.data_read))

stored_nothing : (r : Option IoRead) → r ≡ stored [] r
stored_nothing none = refl
stored_nothing (some r) = refl

read_all-append :
    (rs later : List Reading) (m n : ℕ)
    → goes_on rs ≡ true
    → m ≡ length (bytes_of rs) + suc n
    → read_all m (rs ++ later) ≡ stored (bytes_of rs) (read_all (suc n) later)
unfolding read_all
read_all-append [] later m n h e =
    ap (λ k. read_all k later) {y = suc n} (omega (arith, e)) ∙ stored_nothing _
read_all-append (got [] ∷ rs) later m n h e = absurd (false≢true h)
read_all-append (got (c ∷ cs) ∷ rs) later zero n h e = absurd (omega arith)
read_all-append (got (c ∷ cs) ∷ rs) later (suc m) n h e =
    ap (stored (c ∷ cs)) (
      read_all-append rs later (m - length cs) n h
        (omega (arith, e, length-append cs (bytes_of rs))))
    ∙ stored-stored (c ∷ cs) (bytes_of rs) _
read_all-append (read_interrupted ∷ rs) later zero n h e = absurd (omega arith)
read_all-append (read_interrupted ∷ rs) later (suc m) n h e = read_all-append rs later (suc m) n h e
read_all-append (read_failed d ∷ rs) later m n h e = absurd (false≢true h)

-- While more is wanted than has arrived, in whatever pieces and with whatever interruptions: the
-- piece that completes it makes the call return the bytes in order; an error and the end of the file
-- are reported, with what had arrived stored.
pub read_all-Reading :
    (rs later : List Reading) (c : ℕ) (cs : Bytes) (e : ℕ)
    → goes_on rs ≡ true
    → (read_all (length (bytes_of rs ++ c ∷ cs)) (rs ++ got (c ∷ cs) ∷ later)
        ≡ some (record { result = ior_ok; data_read = bytes_of rs ++ c ∷ cs; later = later }))
      × (read_all (length (bytes_of rs ++ c ∷ cs)) (rs ++ read_failed e ∷ later)
          ≡ some (record { result = ior_error; data_read = bytes_of rs; later = later }))
      × (read_all (length (bytes_of rs ++ c ∷ cs)) (rs ++ got [] ∷ later)
          ≡ some (record { result = ior_eof; data_read = bytes_of rs; later = later }))
unfolding read_all
read_all-Reading rs later c cs e h = (
  read_all-append rs (got (c ∷ cs) ∷ later) _ (length cs) h measured
      ∙ ap (λ k. stored (bytes_of rs) (stored (c ∷ cs) (read_all k later))) (zero_left (length cs))
      ∙ completed,
  read_all-append rs (read_failed e ∷ later) _ (length cs) h measured ∙ stopped ior_error,
  read_all-append rs (got [] ∷ later) _ (length cs) h measured ∙ stopped ior_eof,
)
  where
    measured : length (bytes_of rs ++ c ∷ cs) ≡ length (bytes_of rs) + suc (length cs)
    measured = length-append (bytes_of rs) (c ∷ cs)

    zero_left : (k : ℕ) → k - k ≡ 0
    zero_left k = omega arith

    completed :
        stored (bytes_of rs) (stored (c ∷ cs) (read_all 0 later))
        ≡ some (record { result = ior_ok; data_read = bytes_of rs ++ c ∷ cs; later = later })
    completed =
        ap (λ u. some (record { result = ior_ok; data_read = bytes_of rs ++ u; later = later }))
          (append-nil (c ∷ cs))

    stopped :
        (r : IoResult)
        → stored (bytes_of rs) (some (record { result = r; data_read = []; later = later }))
          ≡ some (record { result = r; data_read = bytes_of rs; later = later })
    stopped r =
        ap (λ u. some (record { result = r; data_read = u; later = later }))
          (append-nil (bytes_of rs))
