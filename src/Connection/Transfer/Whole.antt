-- ===== src/Connection/Transfer/Whole.antt =====
-- vgseer/connection.c: nothing that is read or to be written gets lost.
use mathlib.Core.List.{append_assoc}
use mathlib.Core.Path.{subst}
use viewglob.Base.{
  ℕ, zero, suc, ◌+◌, ◌-◌, ◌<◌, ◌≤◌, ◌≡◌, refl, sym, ap, ◌∙◌, true, List, ◌∷◌, ◌++◌, Option, none,
  some, Bytes, ◌==◌, arith, ltb, length, take, replicate, if-cases, take-append_at, length-take,
  length-append, drop-take, length-drop,
}
use viewglob.Actions.{ActionQueue}
use viewglob.Connection.{Connection, size}
use viewglob.Connection.Segments.{content, outgoing}
use viewglob.HardenedIo.{
  ior_ok, Reading, got, read_interrupted, hardened_read, Writing, wrote, IoWrite, write_all,
}
use viewglob.HardenedIo.Writes.{takes_on, taken, write_all-Writing}
use viewglob.Connection.Transfer.{
  read_errno, ReadIn, filled_with, entered, connection_read, connection_write,
}

hardened_read_again :
    (n c : ℕ) (cs : Bytes) (later : List Reading)
    → hardened_read (replicate n read_interrupted ++ got (c ∷ cs) ∷ later)
      ≡ some (record { result = ior_ok; data_read = c ∷ cs; later = later })
unfolding hardened_read
hardened_read_again zero c cs later = refl
hardened_read_again (suc n) c cs later = hardened_read_again n c cs later

content-filled_with :
    (s : Bytes) (b : Connection) → b.filled ≤ size b → content (filled_with s b) ≡ content b ++ s
content-filled_with s b h =
    ap (take (b.filled + length s)) (sym (append_assoc (take b.filled b.buf) s _))
    ∙ take-append_at (b.filled + length s) (take b.filled b.buf ++ s) _
        (omega (arith, length-append (take b.filled b.buf) s, length-take b.filled b.buf))

-- What a read leaves of the content, of the actions, and whether it went well.
abbrev pub Gives : Option ReadIn → Bytes → ActionQueue → Type 0
Gives none s q = 0 < 0
Gives (some r) s q = (content r.conn ≡ s) × (r.queue ≡ q) × (r.ok ≡ true)

-- In a buffer that is not full, bytes that arrive behind any number of interruptions are added to
-- the content; no action is queued and the read succeeds.
pub connection_read-content :
    (b : Connection) (q : ActionQueue) (n c : ℕ) (cs : Bytes) (later : List Reading)
    → b.filled < size b
    → Gives
        (connection_read b q (replicate n read_interrupted ++ got (c ∷ cs) ∷ later))
        (content b ++ c ∷ cs)
        q
unfolding connection_read
connection_read-content b q n c cs later h =
    if-cases (λ (r : Option ReadIn). Gives r (content b ++ c ∷ cs) q) (ltb b.filled (size b))
      (λ _.
        subst
          (λ r.
            Gives
              (entered (read_errno (replicate n read_interrupted ++ got (c ∷ cs) ∷ later)) b q r)
              (content b ++ c ∷ cs) q)
          (sym (hardened_read_again n c cs later))
          (content-filled_with (c ∷ cs) b (omega (arith, h)), refl, refl))
      (λ no. absurd (ground arith))

-- What is to be written of a connection goes out whole, once and in order, in whatever pieces and
-- with whatever interruptions the system takes all of it.
pub connection_write-outgoing :
    (b : Connection) (ws later : List Writing)
    → takes_on ws ≡ true
    → taken ws < length (outgoing b)
    → connection_write b (ws ++ wrote (length (outgoing b) - taken ws) ∷ later)
      ≡ some (record { result = ior_ok; data_written = outgoing b; later = later })
unfolding connection_write
connection_write-outgoing b ws later t k =
    if-cases
      (λ (r : Option IoWrite).
        r ≡ some (record { result = ior_ok; data_written = outgoing b; later = later }))
      (b.filled == 0)
      (λ y. absurd (ground (arith, length-drop b.skip (content b), length-take b.filled b.buf)))
      (λ _.
        ap (λ s. write_all s (ws ++ wrote (length (outgoing b) - taken ws) ∷ later))
          (sym (drop-take b.skip b.filled b.buf))
        ∙ (write_all-Writing ws later (outgoing b) 0 t k).0)
