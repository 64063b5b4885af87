-- ===== src/Bootcommand/PcXt/Tables.antt =====
-- The special keys of the PC-XT driver: how a release follows from its press.
use mathlib.Core.Path.{subst}
use mathlib.Core.Option.{some-injective}
use packer_plugin_sdk.Prelude.{
  ℕ, ◌+◌, ◌<◌, ◌≡◌, refl, some, List, [], ◌∷◌, ◌++◌, String, arith, str_eq, Map, lookup, hex02, All,
  Bool-cases, inl, inr,
}
use packer_plugin_sdk.Bootcommand.PcXt.{Scancode, special_map}

-- The release has the codes of the press, with 0x80 added to the last byte.
abbrev pub IsReleased : Scancode → Type 0
IsReleased sc =
    (prefix : List String) × (n : ℕ) × (sc.make ≡ prefix ++ (hex02 n ∷ []))
    × (sc.break ≡ prefix ++ (hex02 (n + 0x80) ∷ []))
    × (n < 0x80)

abbrev AllValues : (Scancode → Type 0) → Map Scancode → Type 0
AllValues P = All (λ e. P e.1)

lookup-All :
    (P : Scancode → Type 0) (k : String) (sc : Scancode) (m : Map Scancode)
    → AllValues P m
    → lookup k m ≡ some sc
    → P sc
unfolding lookup
lookup-All P k sc [] h e = cc
lookup-All P k sc ((j, v) ∷ m) h e = elim (Bool-cases (str_eq j k)) [
  | inl same ↦ subst P (some-injective _ _ (rw same at e)) h.0
  | inr other ↦ lookup-All P k sc m h.1 (rw other at e)
]

special_map-IsReleased : AllValues IsReleased special_map
unfolding hex02
special_map-IsReleased = (
  ([], 0x0e, refl, refl, omega arith),
  (
    ("e0" ∷ [], 0x53, refl, refl, omega arith),
    (
      ("e0" ∷ [], 0x50, refl, refl, omega arith),
      (
        ("e0" ∷ [], 0x4f, refl, refl, omega arith),
        (
          ([], 0x1c, refl, refl, omega arith),
          (
            ([], 0x01, refl, refl, omega arith),
            (
              ([], 0x3b, refl, refl, omega arith),
              (
                ([], 0x3c, refl, refl, omega arith),
                (
                  ([], 0x3d, refl, refl, omega arith),
                  (
                    ([], 0x3e, refl, refl, omega arith),
                    (
                      ([], 0x3f, refl, refl, omega arith),
                      (
                        ([], 0x40, refl, refl, omega arith),
                        (
                          ([], 0x41, refl, refl, omega arith),
                          (
                            ([], 0x42, refl, refl, omega arith),
                            (
                              ([], 0x43, refl, refl, omega arith),
                              (
                                ([], 0x44, refl, refl, omega arith),
                                (
                                  ([], 0x57, refl, refl, omega arith),
                                  (
                                    ([], 0x58, refl, refl, omega arith),
                                    (
                                      ("e0" ∷ [], 0x47, refl, refl, omega arith),
                                      (
                                        ("e0" ∷ [], 0x52, refl, refl, omega arith),
                                        (
                                          ("e0" ∷ [], 0x4b, refl, refl, omega arith),
                                          (
                                            ([], 0x38, refl, refl, omega arith),
                                            (
                                              ([], 0x1d, refl, refl, omega arith),
                                              (
                                                ([], 0x2a, refl, refl, omega arith),
                                                (
                                                  ("e0" ∷ [], 0x5b, refl, refl, omega arith),
                                                  (
                                                    ("e0" ∷ [], 0x5d, refl, refl, omega arith),
                                                    (
                                                      ("e0" ∷ [], 0x51, refl, refl, omega arith),
                                                      (
                                                        ("e0" ∷ [], 0x49, refl, refl, omega arith),
                                                        (
                                                          ([], 0x1c, refl, refl, omega arith),
                                                          (
                                                            (
                                                            "e0" ∷ [],
                                                            0x4d,
                                                            refl,
                                                            refl,
                                                            omega arith,
                                                            ),
                                                            (
                                                            (
                                                            "e0" ∷ [],
                                                            0x38,
                                                            refl,
                                                            refl,
                                                            omega arith,
                                                            ),
                                                            (
                                                            (
                                                            "e0" ∷ [],
                                                            0x1d,
                                                            refl,
                                                            refl,
                                                            omega arith,
                                                            ),
                                                            (
                                                            ([], 0x36, refl, refl, omega arith),
                                                            (
                                                            (
                                                            "e0" ∷ [],
                                                            0x5c,
                                                            refl,
                                                            refl,
                                                            omega arith,
                                                            ),
                                                            (
                                                            ([], 0x39, refl, refl, omega arith),
                                                            (
                                                            ([], 0x0f, refl, refl, omega arith),
                                                            (
                                                            (
                                                            "e0" ∷ [],
                                                            0x48,
                                                            refl,
                                                            refl,
                                                            omega arith,
                                                            ),
                                                            tt,
                                                            ),
                                                            ),
                                                            ),
                                                            ),
                                                            ),
                                                            ),
                                                            ),
                                                          ),
                                                        ),
                                                      ),
                                                    ),
                                                  ),
                                                ),
                                              ),
                                            ),
                                          ),
                                        ),
                                      ),
                                    ),
                                  ),
                                ),
                              ),
                            ),
                          ),
                        ),
                      ),
                    ),
                  ),
                ),
              ),
            ),
          ),
        ),
      ),
    ),
  ),
)

-- Every special key of the PC-XT table has a release with the codes of its press and 0x80 added
-- to the last byte, which is below 0x80.
pub special-IsReleased :
    (name : String) (sc : Scancode) → lookup name special_map ≡ some sc → IsReleased sc
special-IsReleased name sc e = lookup-All IsReleased name sc special_map special_map-IsReleased e
