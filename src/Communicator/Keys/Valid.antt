-- ===== src/Communicator/Keys/Valid.antt =====
-- When a certificate is accepted.
use packer_plugin_sdk.Prelude.{ℕ, ◌≤◌, ◌<◌, ◌≡◌, ◌↔◌, ◌⊎◌, none, arith}
use packer_plugin_sdk.Communicator.Keys.{check_valid_cert}

-- At a time below 2^63: a certificate is accepted exactly if its time has begun, and it either never
-- expires, or expires later and at a time below 2^63.
pub check_valid_cert_lem :
    (now after before : ℕ)
    → now < 0x8000000000000000
    → (check_valid_cert now after before ≡ none) ↔ (
        (after ≤ now)
        × ((before ≡ 0xffffffffffffffff) ⊎ ((now < before) × (before < 0x8000000000000000))))
unfolding check_valid_cert
check_valid_cert_lem now after before h = (λ k. ground arith, λ k. ground arith)
