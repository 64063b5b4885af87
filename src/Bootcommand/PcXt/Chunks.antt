-- ===== src/Bootcommand/PcXt/Chunks.antt =====
-- `chunkScanCodes`: nothing is lost or reordered, no chunk is empty or too long, and the error is raised
-- exactly for a group of codes that no chunk can hold.
use mathlib.Core.Option.{some-injective}
use mathlib.Core.Path.{subst}
use packer_plugin_sdk.Prelude.{
  ℕ, ◌+◌, ◌≤◌, ◌<◌, ◌≡◌, ◌≢◌, refl, sym, ap, ◌∙◌, true, false, none, some, List, [], ◌∷◌, ◌++◌,
  String, append-nil, append_assoc, arith, length, length-append, concat, All, All-append, ltb,
  ◌&&◌, Bool-cases, inl, inr, Option-cases, ◌↔◌,
}
use packer_plugin_sdk.Bootcommand.PcXt.{chunk_loop, chunk_scan_codes}

pub concat-append : (xs ys : List (List String)) → concat (xs ++ ys) ≡ concat xs ++ concat ys
concat-append [] ys = refl
concat-append (x ∷ xs) ys = rw (concat-append xs ys) (sym (append_assoc x (concat xs) (concat ys)))

-- A size that is not positive bounds nothing.
abbrev pub Fits : ℕ → List String → Type 0
Fits size cs = 0 < size → length cs ≤ size

-- A chunk that is sent: not empty, and within the size.
abbrev pub IsChunk : ℕ → List String → Type 0
IsChunk size cs = (0 < length cs) × Fits size cs

pub concat-chunk_loop :
    (size : ℕ) (sc out : List (List String)) (running : List String) (r : List (List String))
    → chunk_loop size sc out running ≡ some r
    → concat r ≡ concat out ++ (running ++ concat sc)
unfolding chunk_loop
concat-chunk_loop size [] out [] r h =
    ap concat (sym (some-injective _ _ h)) ∙ sym (append-nil (concat out))
concat-chunk_loop size [] out (c ∷ cs) r h =
    ap concat (sym (some-injective _ _ h)) ∙ concat-append out ((c ∷ cs) ∷ [])
concat-chunk_loop size (cs ∷ sc) out running r h =
    elim (Bool-cases (ltb 0 size && ltb size (length cs))) [
      | inl wide ↦ let e = rw wide at h in cc
      | inr fits ↦ elim (Bool-cases (ltb 0 size && ltb size (length running + length cs))) [
        | inl full ↦
            concat-chunk_loop size sc (out ++ (running ∷ [])) cs r (rw (fits, full) at h)
            ∙ simp (concat-append, append_assoc, append-nil)
        | inr room ↦
            concat-chunk_loop size sc out (running ++ cs) r (rw (fits, room) at h)
            ∙ simp append_assoc
      ]
    ]

Fits-of_test :
    (size : ℕ) (cs : List String) → (ltb 0 size && ltb size (length cs)) ≡ false → Fits size cs
Fits-of_test size cs h = ground arith

Fits-joined :
    (size : ℕ) (cs running : List String)
    → (ltb 0 size && ltb size (length running + length cs)) ≡ false
    → Fits size (running ++ cs)
Fits-joined size cs running h = ground (arith, length-append running cs)

pushed_pos :
    (size : ℕ) (cs running : List String)
    → (ltb 0 size && ltb size (length cs)) ≡ false
    → (ltb 0 size && ltb size (length running + length cs)) ≡ true
    → 0 < length running
pushed_pos size cs running fits full = ground arith

chunk_loop-IsChunk :
    (size : ℕ) (sc out : List (List String)) (running : List String) (r : List (List String))
    → All (IsChunk size) out
    → Fits size running
    → chunk_loop size sc out running ≡ some r
    → All (IsChunk size) r × All (Fits size) sc
unfolding chunk_loop
chunk_loop-IsChunk size [] out [] r ho hr h =
    (subst (All (IsChunk size)) (some-injective _ _ h) ho, tt)
chunk_loop-IsChunk size [] out (c ∷ cs) r ho hr h = (
  subst (All (IsChunk size)) (some-injective _ _ h)
      (All-append (IsChunk size) out ((c ∷ cs) ∷ []) ho ((omega arith, hr), tt)),
  tt,
)
chunk_loop-IsChunk size (cs ∷ sc) out running r ho hr h =
    elim (Bool-cases (ltb 0 size && ltb size (length cs))) [
      | inl wide ↦ let e = rw wide at h in cc
      | inr fits ↦ elim (Bool-cases (ltb 0 size && ltb size (length running + length cs))) [
        | inl full ↦
            let (chunks, rest) =
              chunk_loop-IsChunk size sc (out ++ (running ∷ [])) cs r
                (All-append (IsChunk size) out (running ∷ []) ho
                  ((pushed_pos size cs running fits full, hr), tt))
                (Fits-of_test size cs fits) (rw (fits, full) at h) in
            (chunks, (Fits-of_test size cs fits, rest))
        | inr room ↦
            let (chunks, rest) =
              chunk_loop-IsChunk size sc out (running ++ cs) r ho (Fits-joined size cs running room)
                (rw (fits, room) at h) in
            (chunks, (Fits-of_test size cs fits, rest))
      ]
    ]

chunk_loop-ne-none :
    (size : ℕ) (sc out : List (List String)) (running : List String)
    → All (Fits size) sc
    → chunk_loop size sc out running ≢ none
unfolding chunk_loop
chunk_loop-ne-none size [] out running h = ground arith
chunk_loop-ne-none size (cs ∷ sc) out running h = ground (
  arith,
  chunk_loop-ne-none size sc (out ++ (running ∷ [])) cs,
  chunk_loop-ne-none size sc out (running ++ cs),
)

-- Chunks that are sent hold all codes in their order, none is empty, and none is longer than a
-- positive size.
pub chunk_scan_codes_lem :
    (sc : List (List String)) (size : ℕ) (r : List (List String))
    → chunk_scan_codes sc size ≡ some r
    → (concat r ≡ concat sc) × All (IsChunk size) r
unfolding chunk_scan_codes
chunk_scan_codes_lem sc size r h = (
  concat-chunk_loop size sc [] [] r h,
  (chunk_loop-IsChunk size sc [] [] r tt (λ _. omega arith) h).0,
)

-- There is an error exactly if a group of codes is longer than a positive size.
pub chunk_scan_codes_fails_iff :
    (sc : List (List String)) (size : ℕ) → (chunk_scan_codes sc size ≢ none) ↔ All (Fits size) sc
unfolding chunk_scan_codes
chunk_scan_codes_fails_iff sc size = (
  λ h. elim (Option-cases (chunk_loop size sc [] [])) [
    | inl failed ↦ absurd (h failed)
    | inr (r, e) ↦ (chunk_loop-IsChunk size sc [] [] r tt (λ _. omega arith) e).1
  ],
  chunk_loop-ne-none size sc [] [],
)
