-- ===== src/Sandbox/Extracts.antt =====
-- vgseer/vgseer.c: `process_sandbox` takes the text between the marks.
use mathlib.Core.Path.{subst}
use mathlib.Core.List.{append_assoc}
use viewglob.Base.{
  ℕ, ◌+◌, ◌≡◌, sym, ap, ◌∙◌, inl, inr, Bool, true, List, [], ◌∷◌, ◌++◌, Option, none, some, Bytes,
  length, take, drop, arith, if◌then◌else◌, lacks, length-append, take-append_all,
}
use viewglob.HardenedIo.{gathered}
use viewglob.Libs.{Libs, LibsLaws}
use viewglob.ParamIo.{p_vgexpand_data}
use viewglob.Orders.{Teller, Wire, put_param_wrapped}
use viewglob.Sandbox.{
  Chunk, chunk, chunk_end, chunk_failed, Processed, still_waits, processed, process_fails,
  queue_exit, after_put, send_off, find_end, find_start, process_sandbox,
}
use viewglob.Sandbox.Pieces.{
  chunks, first_part, lacks-OccursAt, lacks_left, lacks_right, lacks-c_string, drop_mark,
}

module _ (libs : Libs) (laws : LibsLaws libs)
    (absent : (m : ℕ) (p : Bytes) → lacks m p ≡ true → libs.strstr_len p (length p) (m ∷ []) ≡ none)
    (w : Wire) where
  mark_found :
      (m : ℕ) (l p : Bytes)
      → lacks 0 l ≡ true
      → lacks m l ≡ true
      → libs.strstr_len (l ++ (m ∷ p)) (length (l ++ (m ∷ p))) (m ∷ []) ≡ some (length l)
  mark_found m l p z h =
      laws.strstr_len_first l (m ∷ []) p (length (l ++ (m ∷ p))) (lacks-c_string l z)
        (omega (arith, length-append l (m ∷ p))) (λ i k. lacks-OccursAt m l (m ∷ []) i h k)

  find_end-found :
      (expanded start : Bytes) (rest : List Chunk) (t : Teller) (n : ℕ)
      → libs.strstr_len start (length start) (3 ∷ []) ≡ some n
      → find_end libs w expanded start rest t ≡ send_off libs w (expanded ++ take n start) rest t
  unfolding find_end
  find_end-found expanded start [] t n e =
      ap
        (λ (o : Option ℕ). elim o as (λ p. Processed) [
          | some end ↦ send_off libs w (expanded ++ take end start) [] t
          | none ↦ still_waits
        ])
        e
  find_end-found expanded start (chunk buf ∷ rest) t n e =
      ap
        (λ (o : Option ℕ). elim o as (λ p. Processed) [
          | some end ↦ send_off libs w (expanded ++ take end start) (chunk buf ∷ rest) t
          | none ↦ find_end libs w (expanded ++ start) buf rest t
        ])
        e
  find_end-found expanded start (chunk_end ∷ rest) t n e =
      ap
        (λ (o : Option ℕ). elim o as (λ p. Processed) [
          | some end ↦ send_off libs w (expanded ++ take end start) (chunk_end ∷ rest) t
          | none ↦ processed (queue_exit t) rest
        ])
        e
  find_end-found expanded start (chunk_failed ∷ rest) t n e =
      ap
        (λ (o : Option ℕ). elim o as (λ p. Processed) [
          | some end ↦ send_off libs w (expanded ++ take end start) (chunk_failed ∷ rest) t
          | none ↦ process_fails
        ])
        e

  mark_here :
      (rest : List Chunk) (expanded start text p : Bytes) (t : Teller)
      → lacks 0 text ≡ true
      → lacks 3 text ≡ true
      → start ≡ text ++ (3 ∷ p)
      → find_end libs w expanded start rest t ≡ send_off libs w (expanded ++ text) rest t
  mark_here rest expanded start text p t z h e =
      find_end-found expanded start rest t (length text) (
        subst (λ s. libs.strstr_len s (length s) (3 ∷ []) ≡ some (length text)) (sym e)
          (mark_found 3 text p z h))
      ∙ ap (λ s. send_off libs w (expanded ++ s) rest t)
          (ap (take (length text)) e ∙ take-append_all text (3 ∷ p))

  -- What is between is sent off, with what was gathered before.
  find_end-text :
      (cs : List Bytes) (more : List Chunk) (expanded start text post : Bytes) (t : Teller)
      → lacks 0 text ≡ true
      → lacks 3 text ≡ true
      → start ++ gathered cs ≡ text ++ (3 ∷ post)
      → (rest : List Chunk) × (find_end libs w expanded start (chunks cs more) t
          ≡ send_off libs w (expanded ++ text) rest t)
  unfolding find_end
  find_end-text [] more expanded start text post t z h e =
      elim (first_part 3 start [] text post e) [
        | inl (p, f, g) ↦ (more, mark_here more expanded start text p t z h f)
        | inr (x, f, g) ↦
            absurd (omega (arith, ap (λ (s : Bytes). length s) g, length-append x (3 ∷ post)))
      ]
  find_end-text (c ∷ cs) more expanded start text post t z h e =
      elim (first_part 3 start (c ++ gathered cs) text post e) [
        | inl (p, f, g) ↦
            (chunks (c ∷ cs) more, mark_here (chunks (c ∷ cs) more) expanded start text p t z h f)
        | inr (x, f, g) ↦
            let z' : lacks 0 (start ++ x) ≡ true = ap (lacks 0) (sym f) ∙ z in
            let h' : lacks 3 (start ++ x) ≡ true = ap (lacks 3) (sym f) ∙ h in
            let (rest, r) =
              find_end-text cs more (expanded ++ start) c x post t (lacks_right 0 start x z')
                (lacks_right 3 start x h') g in
            (
              rest,
              ap
                    (λ (o : Option ℕ). elim o as (λ p. Processed) [
                      | some end ↦
                          send_off libs w (expanded ++ take end start) (chunk c ∷ chunks cs more) t
                      | none ↦ find_end libs w (expanded ++ start) c (chunks cs more) t
                    ])
                    (absent 3 start (lacks_left 3 start x h'))
                  ∙ r
                  ∙ ap (λ s. send_off libs w s rest t)
                      (append_assoc expanded start x ∙ ap (λ s. expanded ++ s) (sym f)),
            )
      ]

  find_start-found :
      (buf : Bytes) (rest : List Chunk) (t : Teller) (n : ℕ)
      → libs.strstr_len buf (length buf) (2 ∷ []) ≡ some n
      → find_start libs w buf rest t ≡ find_end libs w [] (drop (n + 1) buf) rest t
  unfolding find_start
  find_start-found buf [] t n e =
      ap
        (λ (o : Option ℕ). elim o as (λ p. Processed) [
          | some start ↦ find_end libs w [] (drop (start + 1) buf) [] t
          | none ↦ still_waits
        ])
        e
  find_start-found buf (chunk next ∷ rest) t n e =
      ap
        (λ (o : Option ℕ). elim o as (λ p. Processed) [
          | some start ↦ find_end libs w [] (drop (start + 1) buf) (chunk next ∷ rest) t
          | none ↦ find_start libs w next rest t
        ])
        e
  find_start-found buf (chunk_end ∷ rest) t n e =
      ap
        (λ (o : Option ℕ). elim o as (λ p. Processed) [
          | some start ↦ find_end libs w [] (drop (start + 1) buf) (chunk_end ∷ rest) t
          | none ↦ processed (queue_exit t) rest
        ])
        e
  find_start-found buf (chunk_failed ∷ rest) t n e =
      ap
        (λ (o : Option ℕ). elim o as (λ p. Processed) [
          | some start ↦ find_end libs w [] (drop (start + 1) buf) (chunk_failed ∷ rest) t
          | none ↦ process_fails
        ])
        e

  mark_there :
      (cs : List Bytes) (more : List Chunk) (buf before p text post : Bytes) (t : Teller)
      → lacks 0 before ≡ true
      → lacks 2 before ≡ true
      → lacks 0 text ≡ true
      → lacks 3 text ≡ true
      → buf ≡ before ++ (2 ∷ p)
      → p ++ gathered cs ≡ text ++ (3 ∷ post)
      → (rest : List Chunk) × (find_start libs w buf (chunks cs more) t
          ≡ send_off libs w text rest t)
  mark_there cs more buf before p text post t y k z h e g =
      let (rest, r) = find_end-text cs more [] p text post t z h g in
      (
        rest,
        find_start-found buf (chunks cs more) t (length before) (
              subst (λ s. libs.strstr_len s (length s) (2 ∷ []) ≡ some (length before)) (sym e)
                (mark_found 2 before p y k))
            ∙ ap (λ s. find_end libs w [] s (chunks cs more) t)
                (ap (drop (length before + 1)) e ∙ drop_mark before p 2)
            ∙ r,
      )

  find_start-text :
      (cs : List Bytes) (more : List Chunk) (buf before text post : Bytes) (t : Teller)
      → lacks 0 before ≡ true
      → lacks 2 before ≡ true
      → lacks 0 text ≡ true
      → lacks 3 text ≡ true
      → buf ++ gathered cs ≡ before ++ (2 ∷ (text ++ (3 ∷ post)))
      → (rest : List Chunk) × (find_start libs w buf (chunks cs more) t
          ≡ send_off libs w text rest t)
  unfolding find_start
  find_start-text [] more buf before text post t y k z h e =
      elim (first_part 2 buf [] before (text ++ (3 ∷ post)) e) [
        | inl (p, f, g) ↦ mark_there [] more buf before p text post t y k z h f g
        | inr (x, f, g) ↦ absurd (
            omega
              (arith, ap (λ (s : Bytes). length s) g, length-append x (2 ∷ (text ++ (3 ∷ post)))))
      ]
  find_start-text (c ∷ cs) more buf before text post t y k z h e =
      elim (first_part 2 buf (c ++ gathered cs) before (text ++ (3 ∷ post)) e) [
        | inl (p, f, g) ↦ mark_there (c ∷ cs) more buf before p text post t y k z h f g
        | inr (x, f, g) ↦
            let y' : lacks 0 (buf ++ x) ≡ true = ap (lacks 0) (sym f) ∙ y in
            let k' : lacks 2 (buf ++ x) ≡ true = ap (lacks 2) (sym f) ∙ k in
            let (rest, r) =
              find_start-text cs more c x text post t (lacks_right 0 buf x y')
                (lacks_right 2 buf x k') z h g in
            (
              rest,
              ap
                    (λ (o : Option ℕ). elim o as (λ p. Processed) [
                      | some start ↦
                          find_end libs w [] (drop (start + 1) buf) (chunk c ∷ chunks cs more) t
                      | none ↦ find_start libs w c (chunks cs more) t
                    ])
                    (absent 2 buf (lacks_left 2 buf x k'))
                  ∙ r,
            )
      ]

  -- However the bytes of the sandbox shell are cut into readings, while an expansion is awaited the text
  -- between the first \002 and the next \003 is sent to vgd as the data of vgexpand, whole and nothing
  -- else, and no expansion is awaited any longer; or, where the message cannot be sent, the program
  -- exits. The bytes up to the \003 hold no NUL. Of `g_strstr_len` it is used that it finds the first
  -- occurrence of a byte, and none in bytes without it.
  pub process_sandbox-text :
      (c : Bytes) (cs : List Bytes) (more : List Chunk) (before text post : Bytes) (t : Teller)
      → t.vgexpand_called ≡ true
      → lacks 0 before ≡ true
      → lacks 2 before ≡ true
      → lacks 0 text ≡ true
      → lacks 3 text ≡ true
      → c ++ gathered cs ≡ before ++ (2 ∷ (text ++ (3 ∷ post)))
      → (rest : List Chunk) × (process_sandbox libs w (chunks (c ∷ cs) more) t
          ≡ after_put rest (put_param_wrapped w (some (p_vgexpand_data, text)) t))
  unfolding process_sandbox
  process_sandbox-text c cs more before text post t called y k z h e =
      let (rest, r) = find_start-text cs more c before text post t y k z h e in
      (
        rest,
        ap
              (λ (b : Bool).
                if b then find_start libs w c (chunks cs more) t else processed t (chunks cs more))
              called
            ∙ r
            ∙ ap (λ s. after_put rest (put_param_wrapped w (some (p_vgexpand_data, s)) t))
                (lacks-c_string text z),
      )
