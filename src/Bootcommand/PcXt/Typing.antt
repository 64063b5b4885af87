-- ===== src/Bootcommand/PcXt/Typing.antt =====
-- A whole boot command on the PC-XT driver: what the machine receives.
use packer_plugin_sdk.Prelude.{
  ℕ, suc, ◌≡◌, refl, ap, ◌∙◌, Bool, true, false, Option, none, some, List, [], ◌∷◌, ◌++◌, String,
  append-nil, append_assoc, arith, concat, All, All-append, Option-cases, inl, inr, is_some, lookup,
  ℤ,
}
use packer_plugin_sdk.Bootcommand.Driver.{key_shift}
use packer_plugin_sdk.Bootcommand.PcXt.{
  PcXtDriver, special_map, special_codes, key_codes, scancode_of, chunk_scan_codes, send_all, store,
  flush, send_key, send_special, pc_xt_driver,
}
use packer_plugin_sdk.Bootcommand.PcXt.Chunks.{
  Fits, IsChunk, concat-append, chunk_scan_codes_lem, chunk_scan_codes_fails_iff,
}
use packer_plugin_sdk.Bootcommand.Sequence.{
  Expression, wait, special, literal, background, validate_all, do_expression, do_loop, do_sequence,
}

abbrev is_wait : Expression → Bool
is_wait (wait d) = true
is_wait _ = false

-- A machine that takes every group of codes and keeps them.
abbrev pub record_codes : List String → List (List String) → Option String × List (List String)
record_codes b s = (none, s ++ (b ∷ []))

send_all-record_codes : (bs s : List (List String)) → send_all record_codes bs s ≡ (none, s ++ bs)
unfolding send_all
send_all-record_codes [] s = rw append-nil
send_all-record_codes (b ∷ bs) s = send_all-record_codes bs (s ++ (b ∷ [])) ∙ rw append_assoc

module _ (size : ℕ) (is_upper : ℕ → Bool) where
  -- The codes that an expression stands for.
  abbrev pub typed : Expression → List String
  typed (wait d) = []
  typed (special name action) = elim (lookup name special_map) [
    | none ↦ []
    | some sc ↦ special_codes sc action
  ]
  typed (literal r action) = key_codes (key_shift is_upper r) (scancode_of r) action

  abbrev pub typed_all : List Expression → List String
  typed_all [] = []
  typed_all (exp ∷ exps) = typed exp ++ typed_all exps

  -- A special key is in the map, and the codes of the expression fit into a chunk.
  abbrev pub IsTypable : Expression → Type 0
  IsTypable (wait d) = Unit {0}
  IsTypable (special name action) =
      (is_some (lookup name special_map) ≡ true) × Fits size (typed (special name action))
  IsTypable (literal r action) = Fits size (typed (literal r action))

  flush-record_codes :
      (d : PcXtDriver (List (List String)))
      → All (Fits size) d.buffer
      → (r : List (List String)) × (flush record_codes size is_upper d
          ≡ (none, record { buffer = []; vm = d.vm ++ r }))
        × (concat r ≡ concat d.buffer)
        × All (IsChunk size) r
  unfolding flush
  flush-record_codes d h = elim (Option-cases (chunk_scan_codes d.buffer size)) [
    | inl failed ↦ absurd ((chunk_scan_codes_fails_iff d.buffer size).1 h failed)
    | inr (r, e) ↦
        let (same, chunks) = chunk_scan_codes_lem d.buffer size r e in
        (r, rw (e, flush) (rw (send_all-record_codes r d.vm)), same, chunks)
  ]

  -- What the loop makes of a driver whose machine has `sent` and whose buffer holds `held`.
  abbrev Typed : List String → Option String × PcXtDriver (List (List String)) → Type 0
  Typed cs result =
      (log : List (List String)) × (result ≡ (none, record { buffer = []; vm = log }))
      × (concat log ≡ cs)
      × All (IsChunk size) log

  -- Typing an expression that is no wait stores its codes.
  do_expression-store :
      (i : ℕ) (exp : Expression) (d : PcXtDriver (List (List String)))
      → IsTypable exp
      → is_wait exp ≡ false
      → do_expression (pc_xt_driver record_codes size is_upper) background i exp d
        ≡ (none, store record_codes size is_upper (typed exp) d)
  unfolding do_expression send_key send_special
  do_expression-store i (wait w) d h n = cc
  do_expression-store i (special name action) d h n = ground arith
  do_expression-store i (literal r action) d h n = refl

  do_expression-wait :
      (i : ℕ) (w : ℤ) (d d' : PcXtDriver (List (List String)))
      → flush record_codes size is_upper d ≡ (none, d')
      → do_expression (pc_xt_driver record_codes size is_upper) background i (wait w) d ≡ (none, d')
  unfolding do_expression
  do_expression-wait i w d d' e = rw e

  -- A stored group moves from what is still to be typed to the buffer.
  stored_concat :
      (cs rest : List String) (d : PcXtDriver (List (List String)))
      → concat d.vm ++ (concat (d.buffer ++ (cs ∷ [])) ++ rest)
        ≡ concat d.vm ++ (concat d.buffer ++ (cs ++ rest))
  stored_concat cs rest d = simp (concat-append, append_assoc, append-nil)

  flushed_concat :
      (rest : List String) (r : List (List String)) (d : PcXtDriver (List (List String)))
      → concat r ≡ concat d.buffer
      → concat (d.vm ++ r) ++ rest ≡ concat d.vm ++ (concat d.buffer ++ rest)
  flushed_concat rest r d same = rw (concat-append d.vm r, same) (append_assoc (concat d.vm) _ rest)

  Typed-eq :
      {cs ds : List String} {result : Option String × PcXtDriver (List (List String))}
      → cs ≡ ds
      → Typed cs result
      → Typed ds result
  Typed-eq e (log, ends, sent, fine) = (log, ends, sent ∙ e, fine)

  do_loop-next :
      (i : ℕ) (exp : Expression) (exps : List Expression) (d d' : PcXtDriver (List (List String)))
      → do_expression (pc_xt_driver record_codes size is_upper) background i exp d ≡ (none, d')
      → do_loop (pc_xt_driver record_codes size is_upper) background i (exp ∷ exps) d
        ≡ do_loop (pc_xt_driver record_codes size is_upper) background (suc i) exps d'
  unfolding do_loop
  do_loop-next i exp exps d d' e =
      ap
        (λ (p : Option String × PcXtDriver (List (List String))).
          elim p.0 as (λ o. Option String × PcXtDriver (List (List String))) [
            | some err ↦ (some err, p.1)
            | none ↦ do_loop (pc_xt_driver record_codes size is_upper) background (suc i) exps p.1
          ])
        e

  do_loop-Typed :
      (i : ℕ) (exps : List Expression) (d : PcXtDriver (List (List String)))
      → All IsTypable exps
      → All (Fits size) d.buffer
      → All (IsChunk size) d.vm
      → Typed
          (concat d.vm ++ (concat d.buffer ++ typed_all exps))
          (do_loop (pc_xt_driver record_codes size is_upper) background i exps d)
  do_loop-Typed i [] d h hb hv =
      let (r, e, same, chunks) = flush-record_codes d hb in
      (
        d.vm ++ r,
        unfold do_loop in e,
        concat-append d.vm r ∙ rw (same, append-nil),
        All-append (IsChunk size) d.vm r hv chunks,
      )
  do_loop-Typed i (wait w ∷ exps) d h hb hv =
      let (r, e, same, chunks) = flush-record_codes d hb in
      let d' : PcXtDriver (List (List String)) = record { buffer = []; vm = d.vm ++ r } in
      let rest =
        do_loop-Typed (suc i) exps d' h.1 tt (All-append (IsChunk size) d.vm r hv chunks) in
      rw (do_loop-next i (wait w) exps d d' (do_expression-wait i w d d' e))
        (Typed-eq (flushed_concat (typed_all exps) r d same) rest)
  do_loop-Typed i (special name action ∷ exps) d h hb hv =
      let cs = typed (special name action) in
      rw
        (do_loop-next i (special name action) exps d _
          (do_expression-store i (special name action) d h.0 refl))
        (Typed-eq (stored_concat cs (typed_all exps) d) (
          do_loop-Typed (suc i) exps (store record_codes size is_upper cs d) h.1
            (All-append (Fits size) d.buffer (cs ∷ []) hb (h.0.1, tt)) hv))
  do_loop-Typed i (literal r action ∷ exps) d h hb hv =
      let cs = typed (literal r action) in
      rw
        (do_loop-next i (literal r action) exps d _
          (do_expression-store i (literal r action) d h.0 refl))
        (Typed-eq (stored_concat cs (typed_all exps) d) (
          do_loop-Typed (suc i) exps (store record_codes size is_upper cs d) h.1
            (All-append (Fits size) d.buffer (cs ∷ []) hb (h.0, tt)) hv))

  -- A valid command of typable expressions, on a fresh driver, with nothing that interrupts it: there
  -- is no error, the machine receives the codes of the expressions in their order, in chunks that are
  -- not empty and not longer than a positive size, and nothing stays in the buffer.
  pub do_sequence-typed :
      (show : ℤ → String) (exps : List Expression)
      → validate_all show exps ≡ []
      → All IsTypable exps
      → (log : List (List String)) × (do_sequence
            (pc_xt_driver record_codes size is_upper)
            background
            show
            exps
            (record { buffer = []; vm = [] })
          ≡ (none, record { buffer = []; vm = log }))
        × (concat log ≡ typed_all exps)
        × All (IsChunk size) log
  unfolding do_sequence
  do_sequence-typed show exps valid h =
      rw valid (do_loop-Typed 0 exps (record { buffer = []; vm = [] }) h tt tt)
