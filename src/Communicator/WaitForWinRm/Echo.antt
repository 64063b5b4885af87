-- ===== src/Communicator/WaitForWinRm/Echo.antt =====
-- What a connection over WinRM has shown before it is used.
use packer_plugin_sdk.Prelude.{
  ℕ, ◌≡◌, refl, Bool, true, false, not, ◌&&◌, List, [], ◌∷◌, String, arith, ◌||◌, is_some,
}
use packer_plugin_sdk.Communicator.Config.{WinRm}
use packer_plugin_sdk.Communicator.WaitForWinRm.{
  Turn, Check, Waiting, Outcome, connected, ended, waiting, Next, continue, dialled, stop, Process,
  turn, with_host, with_user, with_proxy, dial, check, wait_loop, wait_for_winrm,
}

module _ (process : Process) where
  -- A check that is made, with no error, and whose output has the echo.
  abbrev pub echoes : Check → Bool
  echoes c = not (is_some c.error) && process.contains c.stdout "WinRM connected."

  -- The first checks are made, and one of them has the echo.
  abbrev pub echoed : List Check → Bool
  echoed [] = false
  echoed (c ∷ cs) = let rest = echoed cs in not c.done && (echoes c || rest)

  check_lem :
      (cs : List Check) (comm comm' : ℕ)
      → check process cs comm ≡ connected comm'
      → (comm ≡ comm') × (echoed cs ≡ true)
  unfolding check
  check_lem [] comm comm' h = cc
  check_lem (c ∷ cs) comm comm' h = ground (arith, check_lem cs comm comm')

  turn-shown :
      (first : Bool) (t : Turn) (s u : Waiting) (comm : ℕ)
      → turn process first t s ≡ dialled comm u
      → u.shown ≡ true
  unfolding turn with_host with_user with_proxy dial
  turn-shown first t s u comm h = ground arith

  -- What the first loop hands on, as the turn has ended.
  abbrev follow : List Turn → List Check → Next → Outcome × Waiting
  follow ts cs (continue u) = wait_loop process false ts cs u
  follow ts cs (dialled comm u) = (check process cs comm, u)
  follow ts cs (stop e u) = (ended e, u)

  wait_loop_step :
      (first : Bool) (t : Turn) (ts : List Turn) (cs : List Check) (s : Waiting)
      → wait_loop process first (t ∷ ts) cs s ≡ follow ts cs (turn process first t s)
  unfolding wait_loop
  wait_loop_step first t ts cs s = ground arith

  wait_loop-nil :
      (first : Bool) (cs : List Check) (s : Waiting)
      → wait_loop process first [] cs s ≡ (waiting, s)
  unfolding wait_loop
  wait_loop-nil first cs s = refl

  wait_loop-echoed :
      (first : Bool) (ts : List Turn) (cs : List Check) (s : Waiting) (comm : ℕ)
      → (wait_loop process first ts cs s).0 ≡ connected comm
      → (echoed cs ≡ true) × ((wait_loop process first ts cs s).1.shown ≡ true)
  wait_loop-echoed first [] cs s comm h = cc (wait_loop-nil first cs s)
  wait_loop-echoed first (t ∷ ts) cs s comm h = rw (wait_loop_step first t ts cs s) (
      go (turn process first t s) refl (λ u. wait_loop-echoed false ts cs u comm)
        (rw (wait_loop_step first t ts cs s) at h))
    where
      go :
          (x : Next)
          → turn process first t s ≡ x
          → ((u : Waiting)
              → (wait_loop process false ts cs u).0 ≡ connected comm
              → (echoed cs ≡ true) × ((wait_loop process false ts cs u).1.shown ≡ true))
          → (follow ts cs x).0 ≡ connected comm
          → (echoed cs ≡ true) × ((follow ts cs x).1.shown ≡ true)
      go (continue u) e ih h = ih u h
      go (dialled comm' u) e ih h = ((check_lem cs comm' comm h).1, turn-shown first t s u comm' e)
      go (stop e' u) e ih h = cc

  -- A wait that gives a communicator has seen the echo: the checks up to it are made in time, and it
  -- has no error and the expected output. The bag then has the settings.
  pub wait_for_winrm-echoed :
      (ts : List Turn) (cs : List Check) (c : WinRm) (no_proxy : String) (comm : ℕ)
      → (wait_for_winrm process ts cs c no_proxy).0 ≡ connected comm
      → (echoed cs ≡ true) × ((wait_for_winrm process ts cs c no_proxy).1.shown ≡ true)
  wait_for_winrm-echoed ts cs c no_proxy comm h = wait_loop-echoed true ts cs _ comm h
