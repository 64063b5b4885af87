-- ===== src/Rpc/MuxBroker/Matches.antt =====
-- Whose stream an `Accept` returns.
use packer_plugin_sdk.Prelude.{
  ℕ, ◌≤◌, ◌<◌, ◌≡◌, refl, sym, ◌∙◌, true, false, some, List, [], ◌∷◌, ◌++◌, arith, All, All-middle,
  Bool-cases, Option-cases, inl, inr,
}
use packer_plugin_sdk.Rpc.MuxBroker.{
  Conn, Pending, Broker, at_id, get_stream, offer, forget, take, close, set_locked, set_pending,
  close_done, Thread, running, brought, accepting, taken, acking, accepted, waiting, late, waking,
  draining, over, Act, run_get, run_bad, run_end, run_put, accept_take, accept_done, accept_ack,
  accept_fail, accept_timeout, accept_delete, wait_done, wait_timeout, wake_done, wake_timeout,
  drain, System, Step, act, accept, Reach, here, next, started,
}

-- A stream in the hands of a thread is one of the identifier that it serves.
abbrev pub Matches : Thread → Type 0
Matches (brought id n c) = c.id ≡ id
Matches (taken id n c) = c.id ≡ id
Matches (acking id c) = c.id ≡ id
Matches (accepted id c) = c.id ≡ id
Matches _ = Unit

-- `o` says for which identifier a pending was made: an identifier leads to a pending of its own, and a
-- pending holds only streams of its identifier.
abbrev Sound : (ℕ → ℕ) → Broker → Type 0
Sound o b =
    ((id n : ℕ) → b.streams id ≡ some n → (n < b.fresh) × (o n ≡ id))
    × ((n : ℕ) (c : Conn) → (b.pendings n).ch ≡ some c → c.id ≡ o n)

-- A thread that works on a pending below `f` works on one of its identifier.
abbrev Owns : (ℕ → ℕ) → ℕ → Thread → Type 0
Owns o f (brought id n c) = (n < f) × (o n ≡ id) × (c.id ≡ id)
Owns o f (accepting id n) = (n < f) × (o n ≡ id)
Owns o f t = Matches t

-- New pendings are added behind the ones that there are.
abbrev Extends : (ℕ → ℕ) → ℕ → (ℕ → ℕ) → ℕ → Type 0
Extends o f o' f' = (f ≤ f') × ((n : ℕ) → n < f → o' n ≡ o n)

Owns-Extends :
    (o : ℕ → ℕ) (f : ℕ) (o' : ℕ → ℕ) (f' : ℕ) (t : Thread)
    → Extends o f o' f'
    → Owns o f t
    → Owns o' f' t
Owns-Extends o f o' f' (brought id n c) e h = (omega (arith, e.0, h.0), e.1 n h.0 ∙ h.1, h.2)
Owns-Extends o f o' f' (accepting id n) e h = (omega (arith, e.0, h.0), e.1 n h.0 ∙ h.1)
Owns-Extends o f o' f' running e h = h
Owns-Extends o f o' f' (taken id n c) e h = h
Owns-Extends o f o' f' (acking id c) e h = h
Owns-Extends o f o' f' (accepted id c) e h = h
Owns-Extends o f o' f' (late id) e h = h
Owns-Extends o f o' f' (waiting id n) e h = h
Owns-Extends o f o' f' (waking id n b) e h = h
Owns-Extends o f o' f' (draining id n) e h = h
Owns-Extends o f o' f' over e h = h

All-Owns-Extends :
    (o : ℕ → ℕ) (f : ℕ) (o' : ℕ → ℕ) (f' : ℕ) (ts : List Thread)
    → Extends o f o' f'
    → All (Owns o f) ts
    → All (Owns o' f') ts
All-Owns-Extends o f o' f' [] e h = tt
All-Owns-Extends o f o' f' (t ∷ ts) e h =
    (Owns-Extends o f o' f' t e h.0, All-Owns-Extends o f o' f' ts e h.1)

-- An identifier gets a pending of its own, an old one or a new one.
get_stream-Sound :
    (o : ℕ → ℕ) (id : ℕ) (b : Broker)
    → Sound o b
    → (o' : ℕ → ℕ) × Extends o b.fresh o' (get_stream id b).0.fresh
      × Sound o' (get_stream id b).0
      × ((get_stream id b).1 < (get_stream id b).0.fresh)
      × (o' (get_stream id b).1 ≡ id)
unfolding get_stream
get_stream-Sound o id b h = elim (Option-cases (b.streams id)) [
  | inr (n, e) ↦
      rw (e, get_stream) (o, (omega arith, λ m k. refl), h, (h.0 id n e).0, (h.0 id n e).1)
  | inl e ↦
      rw (e, get_stream)
        (
          at_id o b.fresh id,
          (omega arith, λ m k. ground (arith, k)),
          (λ j n k. ground (arith, k, h.0 j n), λ n c k. ground (arith, k, h.1 n c)),
          omega arith,
          ground arith,
        )
]

-- What an action leaves.
abbrev Kept : (ℕ → ℕ) → Broker → Broker → Thread → List Thread → Type 0
Kept o b b' t new =
    (o' : ℕ → ℕ) × Extends o b.fresh o' b'.fresh
    × Sound o' b'
    × Owns o' b'.fresh t
    × All (Owns o' b'.fresh) new

-- The pending that is replaced holds only streams of its identifier.
set_pending-Sound :
    (o : ℕ → ℕ) (n : ℕ) (p : Pending) (b : Broker)
    → Sound o b
    → ((c : Conn) → p.ch ≡ some c → c.id ≡ o n)
    → Sound o (set_pending n p b)
set_pending-Sound o n p b h hp = (h.0, λ m c e. ground (arith, h.1 m c, hp c))

forget-Sound : (o : ℕ → ℕ) (id : ℕ) (b : Broker) → Sound o b → Sound o (forget id b)
forget-Sound o id b h = (λ j n e. ground (arith, h.0 j n, e), h.1)

offer-Sound :
    (o : ℕ → ℕ) (n : ℕ) (c : Conn) (b : Broker)
    → Sound o b
    → c.id ≡ o n
    → Sound o (offer n c b) × ((offer n c b).fresh ≡ b.fresh)
unfolding offer
offer-Sound o n c b h e = elim (Option-cases (b.pendings n).ch) [
  | inr (d, k) ↦ rw (k, offer) (h, refl)
  | inl k ↦ rw (k, offer) (set_pending-Sound o n _ b h (λ d q. ground (arith, q, e)), refl)
]

close_done-Sound :
    (o : ℕ → ℕ) (n : ℕ) (b : Broker)
    → Sound o b
    → Sound o (close_done n b) × ((close_done n b).fresh ≡ b.fresh)
unfolding close_done
close_done-Sound o n b h = elim (Bool-cases (b.pendings n).done) [
  | inl k ↦ rw (k, close_done) (h, refl)
  | inr k ↦ rw (k, close_done) (set_pending-Sound o n _ b h (h.1 n), refl)
]

-- What an action leaves that makes no pending.
same :
    (o : ℕ → ℕ) (b b' : Broker) (t : Thread) (new : List Thread)
    → Sound o b'
    → b'.fresh ≡ b.fresh
    → Owns o b.fresh t
    → All (Owns o b.fresh) new
    → Kept o b b' t new
same o b b' t new h e m k = (o, (omega (arith, e), λ n l. refl), h, rw e m, rw e k)

Act-Kept :
    (o : ℕ → ℕ) {b b' : Broker} {t t' : Thread} {new : List Thread}
    → Act b t t' new b'
    → Sound o b
    → Owns o b.fresh t
    → Kept o b b' t' new
Act-Kept o {b} (run_get c l) h m =
    let g = get_stream-Sound o c.id b h in (g.0, g.1, g.2, (g.3, g.4, refl), tt)
Act-Kept o {b} (run_bad c) h m = same o b (close c b) running [] h refl tt tt
Act-Kept o {b} run_end h m = same o b b over [] h refl tt tt
Act-Kept o {b} (run_put id n c) h m =
    let p = offer-Sound o n c b h (m.2 ∙ sym m.1) in
    same o b (offer n c b) running (waiting id n ∷ []) p.0 p.1 tt (tt, tt)
Act-Kept o {b} (accept_take id n c e) h m =
    same o b (take n b) (taken id n c) [] (set_pending-Sound o n _ b h (λ d k. cc)) refl
      (h.1 n c e ∙ m.1) tt
Act-Kept o {b} (accept_done id n c) h m =
    let p = close_done-Sound o n b h in same o b (close_done n b) (acking id c) [] p.0 p.1 m tt
Act-Kept o {b} (accept_ack id c) h m = same o b b (accepted id c) [] h refl m tt
Act-Kept o {b} (accept_fail id c) h m = same o b (close c b) over [] h refl tt tt
Act-Kept o {b} (accept_timeout id n) h m = same o b b (late id) [] h refl tt tt
Act-Kept o {b} (accept_delete id l) h m =
    same o b (forget id b) over [] (forget-Sound o id b h) refl tt tt
Act-Kept o {b} (wait_done id n e) h m = same o b b (waking id n false) [] h refl tt tt
Act-Kept o {b} (wait_timeout id n) h m = same o b b (waking id n true) [] h refl tt tt
Act-Kept o {b} (wake_done id n l) h m =
    same o b (forget id b) over [] (forget-Sound o id b h) refl tt tt
Act-Kept o {b} (wake_timeout id n l) h m =
    same o b (set_locked true (forget id b)) (draining id n) [] (forget-Sound o id b h) refl tt tt
Act-Kept o {b} (drain id n c e) h m =
    same o b (set_locked false (close c (take n b))) over []
      (set_pending-Sound o n _ b h (λ d k. cc)) refl tt tt

abbrev Matched : System → Type 0
Matched s = (o : ℕ → ℕ) × Sound o s.broker × All (Owns o s.broker.fresh) s.threads

Step-Matched : {s t : System} → Step s t → Matched s → Matched t
Step-Matched (act b b' xs ys new t t' alive a) (o, h, ts) =
    let mine = (All-middle (Owns o b.fresh) xs ys new t t' ts).0 in
    let k = Act-Kept o a h mine in
    let moved = All-Owns-Extends o b.fresh k.0 b'.fresh (xs ++ (t ∷ ys)) k.1 ts in
    (k.0, k.2, (All-middle (Owns k.0 b'.fresh) xs ys new t t' moved).1 k.3 k.4)
Step-Matched (accept b ts id alive l) (o, h, owned) =
    let g = get_stream-Sound o id b h in
    (g.0, g.2, ((g.3, g.4), All-Owns-Extends o b.fresh g.0 _ ts g.1 owned))

Owns-Matches : (o : ℕ → ℕ) (f : ℕ) (ts : List Thread) → All (Owns o f) ts → All Matches ts
Owns-Matches o f [] h = tt
Owns-Matches o f (brought id n c ∷ ts) h = (h.0.2, Owns-Matches o f ts h.1)
Owns-Matches o f (accepting id n ∷ ts) h = (tt, Owns-Matches o f ts h.1)
Owns-Matches o f (running ∷ ts) h = (tt, Owns-Matches o f ts h.1)
Owns-Matches o f (taken id n c ∷ ts) h = (h.0, Owns-Matches o f ts h.1)
Owns-Matches o f (acking id c ∷ ts) h = (h.0, Owns-Matches o f ts h.1)
Owns-Matches o f (accepted id c ∷ ts) h = (h.0, Owns-Matches o f ts h.1)
Owns-Matches o f (late id ∷ ts) h = (tt, Owns-Matches o f ts h.1)
Owns-Matches o f (waiting id n ∷ ts) h = (tt, Owns-Matches o f ts h.1)
Owns-Matches o f (waking id n b ∷ ts) h = (tt, Owns-Matches o f ts h.1)
Owns-Matches o f (draining id n ∷ ts) h = (tt, Owns-Matches o f ts h.1)
Owns-Matches o f (over ∷ ts) h = (tt, Owns-Matches o f ts h.1)

Reach-Matched : {s : System} → Reach started s → Matched s
Reach-Matched here = (λ n. n, (λ id n h. cc, λ n c h. cc), (tt, tt))
Reach-Matched (next r s) = Step-Matched s (Reach-Matched r)

-- Whatever the goroutines do, an `Accept` of an identifier has and returns only streams that were
-- opened for that identifier.
pub Reach-Matches : {s : System} → Reach started s → All Matches s.threads
Reach-Matches {s} r = let m = Reach-Matched r in Owns-Matches m.0 s.broker.fresh s.threads m.2
