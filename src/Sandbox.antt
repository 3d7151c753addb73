-- ===== src/Sandbox.antt =====
-- vgseer/vgseer.c: what vgseer reads from the sandbox shell, `sandbox_read` and `process_sandbox`. What
-- `hardened_read` gives, one reading after the other, is a list.
pub mod Pieces
pub mod Extracts
use viewglob.Base.{
  ℕ, false, ◌+◌, List, [], ◌∷◌, ◌++◌, Option, none, some, Bytes, c_string, length, take, drop,
  if◌then◌else◌,
}
use viewglob.Libs.{Libs}
use viewglob.Actions.{exit, action_queue}
use viewglob.ParamIo.{Parameter, p_vgexpand_data}
use viewglob.Orders.{Teller, Wire, Flow, told, clean_fail, put_param_wrapped}

-- A reading: bytes, the end of the file, or an error.
pub data Chunk : Type 0 where
  chunk : Bytes → Chunk
  chunk_end chunk_failed : Chunk

-- How the function ends: with the readings that are left, in `clean_fail`, or not yet, waiting for a
-- reading.
pub data Processed : Type 0 where
  processed : Teller → List Chunk → Processed
  process_fails : Processed
  still_waits : Processed

-- At the end of the file, an action is queued.
abbrev pub queue_exit : Teller → Teller
queue_exit t = record t { queue = (action_queue exit t.queue).0 }

abbrev pub after_put : List Chunk → Flow → Processed
after_put rest (told t) = processed (record t { vgexpand_called = false }) rest
after_put rest clean_fail = process_fails

module _ (libs : Libs) (w : Wire) where
  -- The data is sent off.
  abbrev pub send_off : Bytes → List Chunk → Teller → Processed
  send_off expanded rest t =
      after_put rest (put_param_wrapped w (some (p_vgexpand_data, c_string expanded)) t)

  -- The second loop, up to the mark \003: what is gathered, and the bytes from `start` on.
  unfoldable pub find_end : Bytes → Bytes → List Chunk → Teller → Processed
  unfolding put_param_wrapped
  find_end expanded start [] t = elim (libs.strstr_len start (length start) (3 ∷ [])) [
    | some end ↦ send_off (expanded ++ take end start) [] t
    | none ↦ still_waits
  ]
  find_end expanded start (chunk buf ∷ rest) t =
      let further = find_end (expanded ++ start) buf rest t in
      elim (libs.strstr_len start (length start) (3 ∷ [])) [
        | some end ↦ send_off (expanded ++ take end start) (chunk buf ∷ rest) t
        | none ↦ further
      ]
  find_end expanded start (chunk_end ∷ rest) t =
      elim (libs.strstr_len start (length start) (3 ∷ [])) [
        | some end ↦ send_off (expanded ++ take end start) (chunk_end ∷ rest) t
        | none ↦ processed (queue_exit t) rest
      ]
  find_end expanded start (chunk_failed ∷ rest) t =
      elim (libs.strstr_len start (length start) (3 ∷ [])) [
        | some end ↦ send_off (expanded ++ take end start) (chunk_failed ∷ rest) t
        | none ↦ process_fails
      ]

  -- The first loop, up to the mark \002.
  unfoldable pub find_start : Bytes → List Chunk → Teller → Processed
  unfolding find_end
  find_start buf [] t = elim (libs.strstr_len buf (length buf) (2 ∷ [])) [
    | some start ↦ find_end [] (drop (start + 1) buf) [] t
    | none ↦ still_waits
  ]
  find_start buf (chunk next ∷ rest) t =
      let further = find_start next rest t in
      elim (libs.strstr_len buf (length buf) (2 ∷ [])) [
        | some start ↦ find_end [] (drop (start + 1) buf) (chunk next ∷ rest) t
        | none ↦ further
      ]
  find_start buf (chunk_end ∷ rest) t = elim (libs.strstr_len buf (length buf) (2 ∷ [])) [
    | some start ↦ find_end [] (drop (start + 1) buf) (chunk_end ∷ rest) t
    | none ↦ processed (queue_exit t) rest
  ]
  find_start buf (chunk_failed ∷ rest) t = elim (libs.strstr_len buf (length buf) (2 ∷ [])) [
    | some start ↦ find_end [] (drop (start + 1) buf) (chunk_failed ∷ rest) t
    | none ↦ process_fails
  ]

  unfoldable pub process_sandbox : List Chunk → Teller → Processed
  unfolding find_start
  process_sandbox [] t = still_waits
  process_sandbox (chunk buf ∷ rest) t =
      if t.vgexpand_called then find_start buf rest t else processed t rest
  process_sandbox (chunk_end ∷ rest) t = processed (queue_exit t) rest
  process_sandbox (chunk_failed ∷ rest) t = process_fails
