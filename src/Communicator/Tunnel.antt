-- ===== src/Communicator/Tunnel.antt =====
-- communicator/ssh/tunnel.go: the arguments of SSH tunnels.
use packer_plugin_sdk.Prelude.{
  Result, failed, got, ℕ, Option, none, some, List, [], ◌∷◌, ◌++◌, String, if◌then◌else◌, ℤ, join,
  ◌==◌, text, codes,
}

pub data TunnelDirection : Type 0 where
  unset_tunnel remote_tunnel local_tunnel : TunnelDirection

-- Addresses are the code points of their texts.
pub record TunnelSpec : Type 0 where
  pub direction : TunnelDirection
  pub listen_type : String
  pub listen_addr : List ℕ
  pub forward_type : String
  pub forward_addr : List ℕ

-- `net.SplitHostPort` and `strconv.Atoi`
pub record NetLib : Type 0 where
  pub split_host_port : List ℕ → Result (List ℕ × List ℕ)
  pub atoi : List ℕ → Result ℤ

-- `strings.SplitN(s, ":", 2)`: none if there is no colon.
unfoldable pub split_colon : List ℕ → Option (List ℕ × List ℕ)
split_colon [] = none
split_colon (c ∷ cs) =
    let rest = split_colon cs in
    if c == b':' then some ([], cs) else elim rest [ none ↦ none | some p ↦ some (c ∷ p.0, p.1) ]

unfoldable pub parse_tunnel_argument : NetLib → List ℕ → TunnelDirection → Result TunnelSpec
parse_tunnel_argument lib forward direction = elim (split_colon forward) [
  | none ↦
      failed (
        join "Error parsing tunnel '" (join (text forward) (join "': [" (join (text forward) "]"))))
  | some parts ↦ elim (lib.split_host_port parts.1) [
    | failed e ↦ failed (join "Error parsing forwarding, must be a tcp address: " e)
    | got hp ↦ elim (lib.atoi hp.1) [
      | failed e ↦ failed (join "Error parsing forwarding port, must be a valid port: " e)
      | got n ↦ elim (lib.atoi parts.0) [
        | failed e ↦ failed (join "Error parsing listening port, must be a valid port: " e)
        | got m ↦ got (record {
          direction = direction;
          listen_type = "tcp";
          listen_addr = codes "localhost:" ++ parts.0;
          forward_type = "tcp";
          forward_addr = parts.1;
        })
      ]
    ]
  ]
]
