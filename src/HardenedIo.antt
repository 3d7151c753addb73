-- ===== src/HardenedIo.antt =====
-- common/hardened-io.c: reading and writing with retries. What the system calls return, one after
-- the other, is a list; a function gives `none` where it would still wait for the next. A call does
-- not return more than it was asked for.
pub mod Reads
pub mod Writes
use viewglob.Base.{
  ℕ, zero, suc, ◌-◌, List, [], ◌∷◌, ◌++◌, Option, none, some, Bytes, leb, length, take, drop,
  if◌then◌else◌,
}

-- `enum io_result`
pub data IoResult : Type 0 where
  ior_ok ior_error ior_eof : IoResult

-- What `read` returns: bytes (none of them at the end of the file), EINTR, or another `errno`.
pub data Reading : Type 0 where
  got : Bytes → Reading
  read_interrupted : Reading
  read_failed : ℕ → Reading

-- The result, the bytes that were stored, and what later calls will return.
pub record IoRead : Type 0 where
  pub result : IoResult
  pub data_read : Bytes
  pub later : List Reading

abbrev stored : Bytes → Option IoRead → Option IoRead
stored s none = none
stored s (some r) = some (record r { data_read = s ++ r.data_read })

unfoldable pub hardened_read : List Reading → Option IoRead
hardened_read [] = none
hardened_read (read_interrupted ∷ rs) = hardened_read rs
hardened_read (read_failed e ∷ rs) =
    some (record { result = ior_error; data_read = []; later = rs })
hardened_read (got [] ∷ rs) = some (record { result = ior_eof; data_read = []; later = rs })
hardened_read (got (c ∷ cs) ∷ rs) =
    some (record { result = ior_ok; data_read = c ∷ cs; later = rs })

unfoldable pub read_all : ℕ → List Reading → Option IoRead
read_all zero rs = some (record { result = ior_ok; data_read = []; later = rs })
read_all (suc n) [] = none
read_all (suc n) (read_interrupted ∷ rs) = read_all (suc n) rs
read_all (suc n) (read_failed e ∷ rs) =
    some (record { result = ior_error; data_read = []; later = rs })
read_all (suc n) (got [] ∷ rs) = some (record { result = ior_eof; data_read = []; later = rs })
read_all (suc n) (got (c ∷ cs) ∷ rs) = stored (c ∷ cs) (read_all (n - length cs) rs)

-- What `write` and `writev` return: how many bytes they took, EINTR, or another `errno`.
pub data Writing : Type 0 where
  wrote : ℕ → Writing
  write_interrupted : Writing
  write_failed : ℕ → Writing

-- The result, the bytes that went out, and what later calls will return.
pub record IoWrite : Type 0 where
  pub result : IoResult
  pub data_written : Bytes
  pub later : List Writing

abbrev pub sent : Bytes → Option IoWrite → Option IoWrite
sent s none = none
sent s (some r) = some (record r { data_written = s ++ r.data_written })

unfoldable pub write_all : Bytes → List Writing → Option IoWrite
write_all [] ws = some (record { result = ior_ok; data_written = []; later = ws })
write_all (c ∷ cs) [] = none
write_all (c ∷ cs) (write_interrupted ∷ ws) = write_all (c ∷ cs) ws
write_all (c ∷ cs) (write_failed e ∷ ws) =
    some (record { result = ior_error; data_written = []; later = ws })
write_all (c ∷ cs) (wrote k ∷ ws) = sent (take k (c ∷ cs)) (write_all (drop k (c ∷ cs)) ws)

-- The bytes of several buffers.
abbrev pub gathered : List Bytes → Bytes
gathered [] = []
gathered (v ∷ vec) = v ++ gathered vec

-- The loop over the buffers, behind a call that wrote `n` bytes of them.
abbrev pub less_written : ℕ → List Bytes → List Bytes
less_written n [] = []
less_written n (v ∷ vec) =
    if leb (length v) n then less_written (n - length v) vec else drop n v ∷ vec

unfoldable pub writev_all : List Bytes → List Writing → Option IoWrite
unfolding write_all
writev_all vec [] = none
writev_all vec (write_interrupted ∷ ws) = writev_all vec ws
writev_all vec (write_failed e ∷ ws) =
    some (record { result = ior_error; data_written = []; later = ws })
writev_all vec (wrote n ∷ ws) = sent (take n (gathered vec)) (elim (less_written n vec) [
  | [] ↦ some (record { result = ior_ok; data_written = []; later = ws })
  | v ∷ rest ↦ elim rest [ [] ↦ write_all v ws | w ∷ more ↦ writev_all (v ∷ w ∷ more) ws ]
])
