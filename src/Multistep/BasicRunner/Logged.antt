-- ===== src/Multistep/BasicRunner/Logged.antt =====
-- Steps that note their calls in a log beside the state, and what an orderly log is.
use packer_plugin_sdk.Prelude.{
  ◌≡◌, refl, ◌∙◌, true, Option, none, some, List, [], ◌∷◌, ◌++◌, map, reverse, String, arith,
}
use packer_plugin_sdk.Multistep.StateBag.{StateBag, beside}
use packer_plugin_sdk.Multistep.Step.{Step}
use packer_plugin_sdk.Multistep.BasicRunner.{
  Event, cancel, listen, World, Outcome, returned, panicked, notice, happen,
}

pub data Entry : Type 0 where
  ran cleaned : String → Entry

module _ {S : Type 0} where
  -- A step that notes its calls in a log beside the state.
  abbrev pub logged : Step S → Step (S × List Entry)
  logged step = record {
    step_name = step.step_name;
    inner_name = step.inner_name;
    run = λ done p.
        let (result, s) = step.run done p.0 in (result, (s, p.1 ++ ran step.step_name ∷ []));
    cleanup = λ p. (step.cleanup p.0, p.1 ++ cleaned step.step_name ∷ []);
  }

  abbrev pub logged? : Option (Step S) → Option (Step (S × List Entry))
  logged? none = none
  logged? (some step) = some (logged step)

  -- The names of the steps that are not nil.
  abbrev pub names : List (Option (Step S)) → List String
  names [] = []
  names (none ∷ steps) = names steps
  names (some step ∷ steps) = step.step_name ∷ names steps

  -- The bag of the state, beside a log.
  abbrev pub logged_bag : StateBag S → StateBag (S × List Entry)
  logged_bag bag = beside bag (List Entry)

  -- The log of a run that returns, and of one in which a step panicked: which steps ran, and that the
  -- clean-ups of those that did not panic followed in the reverse order.
  abbrev pub Orderly : {R : Type 0} → List String → Outcome R (S × List Entry) → Type 0
  Orderly names (returned b' p) =
      (more rest : List String) × (names ≡ more ++ rest)
      × (p.1 ≡ map ran more ++ map cleaned (reverse more))
  Orderly names (panicked b' p) =
      (more rest : List String) × (crash : String) × (names ≡ more ++ crash ∷ rest)
      × (p.1 ≡ map ran (more ++ crash ∷ []) ++ map cleaned (reverse more))
  Orderly names _ = Unit

module _ {S : Type 0} (bag : StateBag S) where
  pub happen-log :
      (es : List Event) (w : World (S × List Entry))
      → (happen (logged_bag bag) es w).state.1 ≡ w.state.1
  happen-log [] w = refl
  happen-log (cancel ∷ es) w = happen-log es (record w { ctx_done = true })
  happen-log (listen ∷ es) w = happen-log es (notice (logged_bag bag) w) ∙ ground arith
