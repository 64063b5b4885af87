-- ===== src/Rpc/MuxBroker/Ids.antt =====
-- The identifiers that a broker hands out.
use packer_plugin_sdk.Prelude.{ℕ, zero, suc, ◌+◌, ◌%◌, ◌<◌, ◌≡◌, ◌≢◌, arith}
use packer_plugin_sdk.Rpc.MuxBroker.{Broker, next_id}

-- The identifier of a call of `NextId` that comes after that many others.
abbrev pub nth_id : ℕ → Broker → ℕ
nth_id zero b = (next_id b).1
nth_id (suc k) b = nth_id k (next_id b).0

nth_id_lem : (k : ℕ) (b : Broker) → nth_id k b ≡ (b.next_id + k + 1) % 0x100000000
unfolding next_id
nth_id_lem zero b = omega arith
nth_id_lem (suc k) b = omega (arith, nth_id_lem k (next_id b).0)

-- No identifier is handed out twice within 2^32 calls of `NextId`.
pub nth_id-distinct : (i j : ℕ) (b : Broker) → i < j → j < i + 0x100000000 → nth_id i b ≢ nth_id j b
nth_id-distinct i j b h k = omega (arith, nth_id_lem i b, nth_id_lem j b)
