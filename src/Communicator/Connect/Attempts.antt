-- ===== src/Communicator/Connect/Attempts.antt =====
-- How often `waitForSSH` tries to authenticate.
use mathlib.Core.Path.{subst}
use packer_plugin_sdk.Prelude.{
  Result, failed, got, ℕ, zero, suc, ◌+◌, ◌≤◌, ◌≡◌, ◌≢◌, refl, sym, ap, ◌∙◌, Bool, true, false, not,
  ◌&&◌, Option, none, some, List, [], ◌∷◌, String, ℤ, pos, negsuc, arith, leb, leb→le, is_some, All,
  Bool-cases, inl, inr,
}
use packer_plugin_sdk.Communicator.Tunnel.{NetLib, TunnelSpec}
use packer_plugin_sdk.Communicator.Connect.{
  Turn, Waiting, Outcome, connected, ended, waiting, Next, continue, stop, limit_reached,
  tunnels_of, is_authentication, after_error, handshake, with_address, with_host, set_host,
  set_port, show_config, turn, loop,
}

-- Whether a callback gave a value.
abbrev pub succeeds : {A : Type 0} → Result A → Bool
succeeds (failed e) = false
succeeds (got a) = true

-- The count with one more, if the test holds.
abbrev count : Bool → ℕ → ℕ
count true n = suc n
count false n = n

count-add : (b : Bool) (n m : ℕ) → count b n + m ≡ n + count b m
count-add true n m = omega arith
count-add false n m = refl

count-le : (b : Bool) (n m : ℕ) → count b n ≤ n + count b m
count-le true n m = omega arith
count-le false n m = omega arith

limit_reached_mono : (l : ℤ) (a b : ℕ) → a ≤ b → limit_reached l a ≡ true → limit_reached l b ≡ true
limit_reached_mono (pos zero) a b h r = r
limit_reached_mono (pos (suc m)) a b h r = ground arith
limit_reached_mono (negsuc m) a b h r = r

module _ (net : NetLib) (contains : String → String → Bool) (specs : List TunnelSpec) where
  abbrev pub denied : Result ℕ → Bool
  denied (failed e) = is_authentication net contains e
  denied (got comm) = false

  -- The turn gets to a connection, whose handshake fails for the authentication.
  unfoldable pub rejects : Turn → Bool
  rejects t =
      succeeds t.host
      && (elim t.ssh_port [ none ↦ true | some r ↦ succeeds r ])
      && not (is_some t.ssh_config)
      && not (is_some t.connection)
      && denied (t.new specs)

  unfoldable pub rejections : List Turn → ℕ
  rejections [] = 0
  rejections (t ∷ ts) = count (rejects t) (rejections ts)

  -- The count of attempts follows the rejections, and what ends the loop is the limit.
  Follows : Bool → ℕ → Waiting → Next → Type 0
  Follows b n s (continue m u) =
      (m ≡ count b n)
      × (u.config.ssh_handshake_attempts ≡ s.config.ssh_handshake_attempts)
      × (tunnels_of net u.config ≡ got specs)
      × (limit_reached s.config.ssh_handshake_attempts n ≡ false
          → limit_reached s.config.ssh_handshake_attempts m ≡ false)
  Follows b n s (stop (connected c) u) = Unit
  Follows b n s (stop (ended e) u) =
      limit_reached s.config.ssh_handshake_attempts (count b n) ≡ true
  Follows b n s (stop waiting u) = ⊥

  after_error-Follows :
      (n : ℕ) (e : String) (s : Waiting)
      → tunnels_of net s.config ≡ got specs
      → Follows (is_authentication net contains e) n s (after_error net contains n e s)
  unfolding after_error Follows
  after_error-Follows n e s h = elim (Bool-cases (is_authentication net contains e)) [
    | inl a ↦ elim (Bool-cases (limit_reached s.config.ssh_handshake_attempts (suc n))) [
      | inl l ↦ rw (a, l, Follows) (rw a l)
      | inr l ↦ rw (a, l, Follows) (rw a refl, refl, h, λ k. l)
    ]
    | inr a ↦ elim (Bool-cases (limit_reached s.config.ssh_handshake_attempts n)) [
      | inl l ↦ rw (a, l, Follows) (rw a l)
      | inr l ↦ rw (a, l, Follows) (rw a refl, refl, h, λ k. l)
    ]
  ]

  handshake-Follows :
      (t : Turn) (n : ℕ) (s : Waiting)
      → tunnels_of net s.config ≡ got specs
      → Follows (denied (t.new specs)) n s (handshake net contains t n s)
  unfolding handshake
  handshake-Follows t n s h = rw (h, handshake) (go (t.new specs))
    where
      go :
          (r : Result ℕ)
          → Follows
              (denied r)
              n
              s
              (elim r [ failed e ↦ after_error net contains n e s | got c ↦ stop (connected c) s ])
      go (failed e) = after_error-Follows n e s h
      go (got c) = unfold Follows in tt

  with_address-Follows :
      (t : Turn) (n : ℕ) (s : Waiting)
      → tunnels_of net s.config ≡ got specs
      → Follows
          (not (is_some t.ssh_config) && not (is_some t.connection) && denied (t.new specs))
          n
          s
          (with_address net contains t n s)
  unfolding with_address Follows
  with_address-Follows t n s h = go t.ssh_config t.connection
    where
      go :
          (p q : Option String)
          → Follows (not (is_some p) && not (is_some q) && denied (t.new specs)) n s (elim p [
            | some e ↦ continue n s
            | none ↦ elim q [ some e ↦ continue n s | none ↦ handshake net contains t n s ]
          ])
      go (some e) q = (refl, refl, h, λ k. k)
      go none (some e) = (refl, refl, h, λ k. k)
      go none none = handshake-Follows t n s h

  with_host-Follows :
      (t : Turn) (n : ℕ) (s : Waiting)
      → tunnels_of net s.config ≡ got specs
      → Follows
          ((elim t.ssh_port [ none ↦ true | some r ↦ succeeds r ])
            && not (is_some t.ssh_config)
            && not (is_some t.connection)
            && denied (t.new specs))
          n
          s
          (with_host net contains t n s)
  unfolding with_host Follows tunnels_of
  with_host-Follows t n s h = go t.ssh_port
    where
      go :
          (p : Option (Result ℤ))
          → Follows
              ((elim p [ none ↦ true | some r ↦ succeeds r ])
                && not (is_some t.ssh_config)
                && not (is_some t.connection)
                && denied (t.new specs))
              n
              s
              (elim p [
                | none ↦ with_address net contains t n (show_config s)
                | some r ↦ elim r [
                  | failed e ↦ continue n s
                  | got p ↦ with_address net contains t n (show_config (set_port p s))
                ]
              ])
      go none = with_address-Follows t n (show_config s) h
      go (some (failed e)) = (refl, refl, h, λ k. k)
      go (some (got p)) = with_address-Follows t n (show_config (set_port p s)) h

  turn-Follows :
      (first : Bool) (t : Turn) (n : ℕ) (s : Waiting)
      → tunnels_of net s.config ≡ got specs
      → not first && t.done ≡ false
      → Follows (rejects t) n s (turn net contains first t n s)
  unfolding turn rejects Follows tunnels_of
  turn-Follows first t n s h d = rw d (go t.host)
    where
      go :
          (r : Result String)
          → Follows
              (succeeds r
                && (elim t.ssh_port [ none ↦ true | some r ↦ succeeds r ])
                && not (is_some t.ssh_config)
                && not (is_some t.connection)
                && denied (t.new specs))
              n
              s
              (elim r [
                | failed e ↦ continue n s
                | got a ↦ with_host net contains t n (set_host a s)
              ])
      go (failed e) = (refl, refl, h, λ k. k)
      go (got a) = with_host-Follows t n (set_host a s) h

  -- The loop, for a limit that the settings hold.
  module _ (l : ℤ) where
    abbrev Holds : Waiting → Type 0
    Holds s = (tunnels_of net s.config ≡ got specs) × (s.config.ssh_handshake_attempts ≡ l)

    abbrev runs : List Turn → Next → Outcome × Waiting
    runs ts x = elim x [ continue m u ↦ loop net contains false ts m u | stop o u ↦ (o, u) ]

    -- What a turn that goes on leaves to the rest of the loop.
    kept :
        (b : Bool) (n m : ℕ) (s u : Waiting) (k : ℕ)
        → Holds s
        → Follows b n s (continue m u)
        → Holds u
          × (m + k ≡ n + count b k)
          × (limit_reached l n ≡ false → limit_reached l m ≡ false)
    unfolding Follows
    kept b n m s u k h f = (
      (f.2, f.1 ∙ h.1),
      ap (λ a. a + k) f.0 ∙ count-add b n k,
      subst (λ a. limit_reached a n ≡ false → limit_reached a m ≡ false) h.1 f.3,
    )

    loop-ends :
        (first : Bool) (ts : List Turn) (n : ℕ) (s : Waiting)
        → Holds s
        → limit_reached l n ≡ false
        → limit_reached l (n + rejections ts) ≡ true
        → (loop net contains first ts n s).0 ≢ waiting
    unfolding loop rejections
    loop-ends first [] n s h below r w = cc (sym below ∙ ap (limit_reached l) (omega arith) ∙ r)
    loop-ends first (t ∷ ts) n s h below r w = elim (Bool-cases (not first && t.done)) [
      | inl k ↦ cancelled (turn net contains first t n s) (unfold turn in rw k refl) w
      | inr k ↦
          go (turn net contains first t n s) (turn-Follows first t n s h.0 k) (loop-ends false ts) w
    ]
      where
        cancelled : (x : Next) → x ≡ stop (ended "SSH wait cancelled") s → (runs ts x).0 ≢ waiting
        cancelled (continue m u) e w = cc
        cancelled (stop o u) e w = ground (arith, e, w)

        go :
            (x : Next)
            → Follows (rejects t) n s x
            → ((m : ℕ) (u : Waiting)
                → Holds u
                → limit_reached l m ≡ false
                → limit_reached l (m + rejections ts) ≡ true
                → (loop net contains false ts m u).0 ≢ waiting)
            → (runs ts x).0 ≢ waiting
        go (continue m u) f ih w =
            let k = kept (rejects t) n m s u (rejections ts) h f in
            ih m u k.0 (k.2 below) (ap (limit_reached l) k.1 ∙ r) w
        go (stop (connected c) u) f ih w = cc
        go (stop (ended e) u) f ih w = cc
        go (stop waiting u) f ih w = unfold Follows in f

    loop-gives_up :
        (first : Bool) (ts : List Turn) (n : ℕ) (s : Waiting) (e : String)
        → Holds s
        → All (λ t. t.done ≡ false) ts
        → (loop net contains first ts n s).0 ≡ ended e
        → limit_reached l (n + rejections ts) ≡ true
    unfolding loop rejections
    loop-gives_up first [] n s e h d w = cc
    loop-gives_up first (t ∷ ts) n s e h d w =
        go (turn net contains first t n s) (turn-Follows first t n s h.0 (ground (arith, d.0)))
          (λ m u hu. loop-gives_up false ts m u e hu d.1) w
      where
        go :
            (x : Next)
            → Follows (rejects t) n s x
            → ((m : ℕ) (u : Waiting)
                → Holds u
                → (loop net contains false ts m u).0 ≡ ended e
                → limit_reached l (m + rejections ts) ≡ true)
            → (runs ts x).0 ≡ ended e
            → limit_reached l (n + count (rejects t) (rejections ts)) ≡ true
        go (continue m u) f ih w =
            let k = kept (rejects t) n m s u (rejections ts) h f in
            sym (ap (limit_reached l) k.1) ∙ ih m u k.0 w
        go (stop (connected c) u) f ih w = cc
        go (stop (ended e') u) f ih w =
            limit_reached_mono l (count (rejects t) n) _ (count-le (rejects t) n (rejections ts))
              (ap (λ a. limit_reached a (count (rejects t) n)) (sym h.1) ∙ unfold Follows in f)
        go (stop waiting u) f ih w = absurd (unfold Follows in f)

  -- How the loop can be left, or can go on, with a positive limit and a context that is never done.
  abbrev pub Classified : ℕ → List Turn → Outcome → Type 0
  Classified m ts (connected comm) = Unit
  Classified m ts (ended e) = suc m ≤ rejections ts
  Classified m ts waiting = rejections ts ≤ m

  pub loop_lem :
      (m : ℕ) (ts : List Turn) (s : Waiting)
      → tunnels_of net s.config ≡ got specs
      → s.config.ssh_handshake_attempts ≡ pos (suc m)
      → All (λ t. t.done ≡ false) ts
      → Classified m ts (loop net contains true ts 0 s).0
  loop_lem m ts s h limit d = go (loop net contains true ts 0 s).0 refl
    where
      go : (o : Outcome) → (loop net contains true ts 0 s).0 ≡ o → Classified m ts o
      go (connected comm) e = tt
      go (ended e) w = leb→le (suc m) (rejections ts) (
          ap (leb (suc m)) (omega arith) ∙ loop-gives_up (pos (suc m)) true ts 0 s e (h, limit) d w)
      go waiting w = elim (Bool-cases (leb (suc m) (0 + rejections ts))) [
        | inl r ↦ absurd (loop-ends (pos (suc m)) true ts 0 s (h, limit) (ground arith) r w)
        | inr r ↦ ground (arith, r)
      ]
