-- ===== src/Rpc/Tests.antt =====
-- The broker at concrete inputs.
use packer_plugin_sdk.Prelude.{◌≡◌, ◌≢◌, arith, refl, true, none, [], ◌∷◌, All}
use packer_plugin_sdk.Rpc.MuxBroker.{
  taken, accept_take, take, Conn, Broker, new_mux_broker, get_stream, offer, system, running,
  accepting, waiting, run_get, run_put, act, accept, Reach, here, next, started, dialled, refused,
  dial,
}
use packer_plugin_sdk.Rpc.MuxBroker.Ids.{nth_id, nth_id-distinct}
use packer_plugin_sdk.Rpc.MuxBroker.Matches.{Matches, Reach-Matches}
use packer_plugin_sdk.Rpc.MuxBroker.Stuck.{second_stream_blocks, arrived, last}

second_stream_blocks_example :
    Reach started (arrived 3 1 2)
    × Reach (arrived 3 1 2) (last 3 1 2)
    × ((last 3 1 2).broker.locked ≡ true)
second_stream_blocks_example = second_stream_blocks 3 1 2 (last 3 1 2) here

-- An identifier is accepted, a stream of it comes in, and is taken.
abbrev stream : Conn
stream = record { id = 3; stream = 8 }

abbrev called : Broker
called = (get_stream 3 new_mux_broker).0

abbrev brought_in : Broker
brought_in = offer 0 stream called

come : Reach started (system brought_in (accepting 3 0 ∷ running ∷ waiting 3 0 ∷ []))
unfolding get_stream
come =
    next
      (next (next here (accept _ _ 3 refl refl))
        (act _ _ (accepting 3 0 ∷ []) [] [] _ _ refl (run_get stream refl)))
      (act _ _ (accepting 3 0 ∷ []) [] _ _ _ refl (run_put 3 0 stream))

took : Reach started (system (take 0 brought_in) (taken 3 0 stream ∷ running ∷ waiting 3 0 ∷ []))
unfolding offer get_stream
took = next come (act _ _ [] (running ∷ waiting 3 0 ∷ []) [] _ _ refl (accept_take 3 0 stream refl))

Reach-Matches_example : All Matches (taken 3 0 stream ∷ running ∷ waiting 3 0 ∷ [])
Reach-Matches_example = Reach-Matches took

bad_ack : dial 3 (dialled 8) none (dialled 4) (λ a id. "bad ack") ≡ refused "bad ack"
unfolding dial
bad_ack = refl

nth_id-distinct_example : nth_id 2 new_mux_broker ≢ nth_id 5 new_mux_broker
nth_id-distinct_example = nth_id-distinct 2 5 new_mux_broker (omega arith) (omega arith)
