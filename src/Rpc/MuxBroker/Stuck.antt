-- ===== src/Rpc/MuxBroker/Stuck.antt =====
-- When the goroutine that waits for a timeout keeps the mutex for ever.
use mathlib.Core.Path.{subst}
use packer_plugin_sdk.Prelude.{
  ℕ, ◌≡◌, ◌≢◌, refl, ◌∙◌, true, false, none, some, List, [], ◌∷◌, arith, All, All-middle,
}
use packer_plugin_sdk.Rpc.MuxBroker.{
  Conn, Broker, new_mux_broker, get_stream, offer, take, close, close_done, forget, set_locked,
  Thread, running, brought, waiting, draining, over, Act, run_get, run_bad, run_end, run_put,
  accept_take, accept_done, accept_ack, accept_fail, accept_timeout, accept_delete, wait_done,
  wait_timeout, wake_done, wake_timeout, drain, System, system, Step, act, accept, Reach, here,
  next, started,
}

module _ (n : ℕ) where
  -- No thread brings a stream to the pending, and what drains waits for that pending.
  abbrev Quiet : Thread → Type 0
  Quiet (brought j k c) = k ≢ n
  Quiet (draining j k) = k ≡ n
  Quiet _ = Unit

  abbrev Stuck : System → Type 0
  Stuck s = (s.broker.locked ≡ true) × ((s.broker.pendings n).ch ≡ none) × All Quiet s.threads

  offer-none :
      (k : ℕ) (c : Conn) (b : Broker)
      → k ≢ n
      → (b.pendings n).ch ≡ none
      → ((offer k c b).pendings n).ch ≡ none
  unfolding offer
  offer-none k c b h e = ground (arith, h)

  offer-locked : (k : ℕ) (c : Conn) (b : Broker) → (offer k c b).locked ≡ b.locked
  unfolding offer
  offer-locked k c b = ground arith

  close_done-locked : (k : ℕ) (b : Broker) → (close_done k b).locked ≡ b.locked
  unfolding close_done
  close_done-locked k b = ground arith

  close_done-none :
      (k : ℕ) (b : Broker) → (b.pendings n).ch ≡ none → ((close_done k b).pendings n).ch ≡ none
  unfolding close_done
  close_done-none k b e = ground (arith, e)

  abbrev Kept : Broker → Thread → List Thread → Type 0
  Kept b t new = (b.locked ≡ true) × ((b.pendings n).ch ≡ none) × Quiet t × All Quiet new

  Act-Kept :
      {b b' : Broker} {t t' : Thread} {new : List Thread}
      → Act b t t' new b'
      → b.locked ≡ true
      → (b.pendings n).ch ≡ none
      → Quiet t
      → Kept b' t' new
  Act-Kept (run_get c f) l e q = cc
  Act-Kept (run_bad c) l e q = (l, e, tt, tt)
  Act-Kept run_end l e q = (l, e, tt, tt)
  Act-Kept {b} (run_put j k c) l e q = (offer-locked k c b ∙ l, offer-none k c b q e, tt, (tt, tt))
  Act-Kept {b} (accept_take j k c f) l e q = (l, ground arith, tt, tt)
  Act-Kept {b} (accept_done j k c) l e q =
      (close_done-locked k b ∙ l, close_done-none k b e, tt, tt)
  Act-Kept (accept_ack j c) l e q = (l, e, tt, tt)
  Act-Kept (accept_fail j c) l e q = (l, e, tt, tt)
  Act-Kept (accept_timeout j k) l e q = (l, e, tt, tt)
  Act-Kept (accept_delete j f) l e q = cc
  Act-Kept (wait_done j k f) l e q = (l, e, tt, tt)
  Act-Kept (wait_timeout j k) l e q = (l, e, tt, tt)
  Act-Kept (wake_done j k f) l e q = cc
  Act-Kept (wake_timeout j k f) l e q = cc
  Act-Kept {b} (drain j k c f) l e q = absurd (blocked q)
    where
      blocked : k ≡ n → ⊥
      blocked r = cc

  Step-Stuck : {s t : System} → Step s t → Stuck s → Stuck t
  Step-Stuck (act b b' xs ys new t t' alive a) h =
      let middle = All-middle Quiet xs ys new t t' h.2 in
      let kept = Act-Kept a h.0 h.1 middle.0 in (kept.0, kept.1, middle.1 kept.2 kept.3)
  Step-Stuck (accept b ts j alive l) h = cc (h.0)

  Reach-Stuck : {s t : System} → Stuck s → Reach s t → Stuck t
  Reach-Stuck h here = h
  Reach-Stuck h (next r st) = Step-Stuck st (Reach-Stuck h r)

-- An identifier that has a pending leads to it.
get_stream_again : (id n : ℕ) (b : Broker) → b.streams id ≡ some n → get_stream id b ≡ (b, n)
unfolding get_stream
get_stream_again id n b h = rw (h, get_stream)

-- Two streams of one identifier come in.
module _ (id x y : ℕ) where
  abbrev pub conn : ℕ → Conn
  conn stream = record { id = id; stream = stream }

  -- A broker that has the pending, with the first stream in it.
  record HasFirst (b : Broker) : Type 0 where
    alive : b.crashed ≡ false
    free : b.locked ≡ false
    known : b.streams id ≡ some 0
    full : (b.pendings 0).ch ≡ some (conn x)

  abbrev pub first : Broker
  first = offer 0 (conn x) (get_stream id new_mux_broker).0

  first-HasFirst : HasFirst first
  unfolding offer get_stream
  first-HasFirst = record {
    alive = ground arith;
    free = ground arith;
    known = ground arith;
    full = ground arith;
  }

  abbrev pub second : Broker
  second = offer 0 (conn y) first

  second-HasFirst : HasFirst second
  unfolding offer
  second-HasFirst =
      let f = first-HasFirst in
      record {
        alive = ground (arith, f.alive, f.full);
        free = ground (arith, f.free, f.full);
        known = ground (arith, f.known, f.full);
        full = ground (arith, f.full);
      }

  -- Both time out: the first time-out takes the stream, and the second one finds none.
  abbrev pub drained : Broker
  drained = set_locked false (close (conn x) (take 0 (set_locked true (forget id second))))

  abbrev pub last : System
  last = system (set_locked true (forget id drained)) (running ∷ over ∷ draining id 0 ∷ [])

  abbrev pub arrived : System
  arrived = system second (running ∷ waiting id 0 ∷ waiting id 0 ∷ [])

  two_come : Reach started arrived
  unfolding get_stream
  two_come =
      let f = first-HasFirst in
      let again =
        subst (λ p. Act first running (brought id p.1 (conn y)) [] p.0)
          (get_stream_again id 0 first f.known) (run_get (conn y) f.free) in
      next
        (next
          (next (next here (act _ _ [] [] [] _ _ refl (run_get (conn x) refl)))
            (act _ _ [] [] _ _ _ refl (run_put id 0 (conn x))))
          (act _ _ [] (waiting id 0 ∷ []) [] _ _ f.alive again))
        (act _ _ [] (waiting id 0 ∷ []) _ _ _ f.alive (run_put id 0 (conn y)))

  both_late : Reach arrived last
  both_late =
      let f = second-HasFirst in
      next
        (next
          (next
            (next
              (next here
                (act _ _ (running ∷ []) (waiting id 0 ∷ []) [] _ _ f.alive (wait_timeout id 0)))
              (act _ _ (running ∷ []) (waiting id 0 ∷ []) [] _ _ f.alive
                (wake_timeout id 0 f.free)))
            (act _ _ (running ∷ []) (waiting id 0 ∷ []) [] _ _ f.alive
              (drain id 0 (conn x) f.full)))
          (act _ _ (running ∷ over ∷ []) [] [] _ _ f.alive (wait_timeout id 0)))
        (act _ _ (running ∷ over ∷ []) [] [] _ _ f.alive (wake_timeout id 0 refl))

  -- Two streams of one identifier that nobody accepts can come in, and both their time-outs can run, so
  -- that the second one holds the mutex of the broker: whatever the goroutines do from then on, it is
  -- still held.
  pub second_stream_blocks :
      (t : System)
      → Reach last t
      → Reach started arrived × Reach arrived last × (t.broker.locked ≡ true)
  second_stream_blocks t r =
      (two_come, both_late, (Reach-Stuck 0 (refl, ground arith, (tt, (tt, (refl, tt)))) r).0)
