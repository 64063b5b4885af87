-- ===== src/Bootcommand/Grammar/Keys.antt =====
-- Every special key is read back, pressed, held and released.
use mathlib.Core.Path.{subst}
use packer_plugin_sdk.Prelude.{
  ℕ, ◌≡◌, refl, true, List, [], ◌∷◌, ◌++◌, String, codes, text, elem, All, str_eq, str_eq_iff,
  Bool-cases, inl, inr,
}
use packer_plugin_sdk.Bootcommand.Driver.{KeyAction, key_on, key_off, key_press}
use packer_plugin_sdk.Bootcommand.Sequence.{special}
use packer_plugin_sdk.Bootcommand.Specials.{special_keys}
use packer_plugin_sdk.Bootcommand.Peg.{
  matches, lit_matcher, any_matcher, choice, zero_or_one, seq, action,
}
use packer_plugin_sdk.Bootcommand.Grammar.{
  GoLib, expr_start, expr_end, literal_rule, on, off, special_key, wait_rule, char_toggle,
  special_rule, expr_choice, on_special,
}
use packer_plugin_sdk.Bootcommand.Grammar.Items.{key, suffix, written}

module _ (lib : GoLib) where
  abbrev ReadsWith : String → KeyAction → List ℕ → List String → Type 0
  ReadsWith name a rest errs =
      expr_choice lib (written (key name a) rest) errs
      ≡ matches (special name a) (b'<' ∷ (codes name ++ suffix a)) rest errs

  abbrev pub KeyReads : String → Type 0
  KeyReads name =
      (rest : List ℕ) (errs : List String)
      → ReadsWith name key_on rest errs
        × (ReadsWith name key_off rest errs × ReadsWith name key_press rest errs)

  keys-KeyReads : All KeyReads special_keys
  unfolding expr_choice wait_rule char_toggle special_rule special_key literal_rule any_matcher on
      off on_special text choice zero_or_one action seq expr_start expr_end lit_matcher
  keys-KeyReads = (
    λ rest errs. (refl, (refl, refl)),
    (
      λ rest errs. (refl, (refl, refl)),
      (
        λ rest errs. (refl, (refl, refl)),
        (
          λ rest errs. (refl, (refl, refl)),
          (
            λ rest errs. (refl, (refl, refl)),
            (
              λ rest errs. (refl, (refl, refl)),
              (
                λ rest errs. (refl, (refl, refl)),
                (
                  λ rest errs. (refl, (refl, refl)),
                  (
                    λ rest errs. (refl, (refl, refl)),
                    (
                      λ rest errs. (refl, (refl, refl)),
                      (
                        λ rest errs. (refl, (refl, refl)),
                        (
                          λ rest errs. (refl, (refl, refl)),
                          (
                            λ rest errs. (refl, (refl, refl)),
                            (
                              λ rest errs. (refl, (refl, refl)),
                              (
                                λ rest errs. (refl, (refl, refl)),
                                (
                                  λ rest errs. (refl, (refl, refl)),
                                  (
                                    λ rest errs. (refl, (refl, refl)),
                                    (
                                      λ rest errs. (refl, (refl, refl)),
                                      (
                                        λ rest errs. (refl, (refl, refl)),
                                        (
                                          λ rest errs. (refl, (refl, refl)),
                                          (
                                            λ rest errs. (refl, (refl, refl)),
                                            (
                                              λ rest errs. (refl, (refl, refl)),
                                              (
                                                λ rest errs. (refl, (refl, refl)),
                                                (
                                                  λ rest errs. (refl, (refl, refl)),
                                                  (
                                                    λ rest errs. (refl, (refl, refl)),
                                                    (
                                                      λ rest errs. (refl, (refl, refl)),
                                                      (
                                                        λ rest errs. (refl, (refl, refl)),
                                                        (
                                                          λ rest errs. (refl, (refl, refl)),
                                                          (
                                                            λ rest errs. (refl, (refl, refl)),
                                                            (
                                                            λ rest errs. (refl, (refl, refl)),
                                                            (
                                                            λ rest errs. (refl, (refl, refl)),
                                                            (
                                                            λ rest errs. (refl, (refl, refl)),
                                                            (
                                                            λ rest errs. (refl, (refl, refl)),
                                                            (
                                                            λ rest errs. (refl, (refl, refl)),
                                                            (
                                                            λ rest errs. (refl, (refl, refl)),
                                                            (λ rest errs. (refl, (refl, refl)), tt),
                                                            ),
                                                            ),
                                                            ),
                                                            ),
                                                            ),
                                                            ),
                                                          ),
                                                        ),
                                                      ),
                                                    ),
                                                  ),
                                                ),
                                              ),
                                            ),
                                          ),
                                        ),
                                      ),
                                    ),
                                  ),
                                ),
                              ),
                            ),
                          ),
                        ),
                      ),
                    ),
                  ),
                ),
              ),
            ),
          ),
        ),
      ),
    ),
  )

  of_elem :
      (P : String → Type 0) (k : String) (ss : List String) → All P ss → elem k ss ≡ true → P k
  of_elem P k [] h e = cc
  of_elem P k (s ∷ ss) h e = elim (Bool-cases (str_eq s k)) [
    | inl same ↦ subst P ((str_eq_iff s k).0 same) h.0
    | inr other ↦ of_elem P k ss h.1 (rw other at e)
  ]

  pub key-KeyReads : (name : String) → elem name special_keys ≡ true → KeyReads name
  key-KeyReads name h = of_elem KeyReads name special_keys keys-KeyReads h
