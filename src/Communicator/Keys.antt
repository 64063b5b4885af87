-- ===== src/Communicator/Keys.antt =====
-- communicator/ssh/ssh.go: private keys and certificates that are read from files.
pub mod Valid
use packer_plugin_sdk.Prelude.{
  Result, failed, got, ℕ, Bool, false, not, ◌&&◌, ◌||◌, Option, none, some, List, String,
  if◌then◌else◌, join, ltb, leb, ◌==◌, Map, lookup, str_eq,
}

-- The files, the clock in seconds since 1970, `pem.Decode` with the headers of the block, and what
-- golang.org/x/crypto/ssh does with keys; an authorized key may be no certificate.
pub record KeyLib (Signer Certificate : Type 0) : Type 0 where
  pub read_file : String → Result (List ℕ)
  pub now : ℕ
  pub pem_decode : List ℕ → Option (Map String)
  pub parse_private_key : List ℕ → Result Signer
  pub parse_authorized_key : List ℕ → Result (Option Certificate)
  pub valid_after : Certificate → ℕ
  pub valid_before : Certificate → ℕ
  pub new_cert_signer : Certificate → Signer → Result Signer

-- `int64(n) < 0` for a uint64
abbrev pub is_negative : ℕ → Bool
is_negative n = leb 0x8000000000000000 n

-- `checkValidCert` of the two times of a certificate: none if it is valid.
unfoldable pub check_valid_cert : ℕ → ℕ → ℕ → Option String
check_valid_cert now after before =
    if is_negative after || ltb now after
    then some "ssh: cert is not yet valid"
    else if not (before == 0xffffffffffffffff) && (leb before now || is_negative before)
    then some "ssh: cert has expired"
    else none

module _ {Signer Certificate : Type 0} (lib : KeyLib Signer Certificate) where
  abbrev pub is_encrypted : Map String → Bool
  is_encrypted headers = elim (lookup "Proc-Type" headers) [
    | none ↦ false
    | some v ↦ str_eq v "4,ENCRYPTED"
  ]

  unfoldable pub parse_key_file : String → Result (List ℕ)
  parse_key_file path = elim (lib.read_file path) [
    | failed e ↦ failed e
    | got bytes ↦ elim (lib.pem_decode bytes) [
      | none ↦ failed (join "Failed to read key '" (join path "': no key found"))
      | some headers ↦
          if is_encrypted headers
          then failed (
              join "Failed to read key '" (
                join path
                  "': password protected keys are\nnot supported. Please decrypt the key prior to use."))
          else got bytes
    ]
  ]

  unfoldable pub file_signer : String → Result Signer
  file_signer path = elim (parse_key_file path) [
    | failed e ↦ failed (join "Error setting up SSH config: " e)
    | got key ↦ elim (lib.parse_private_key key) [
      | failed e ↦ failed (join "Error setting up SSH config: " e)
      | got signer ↦ got signer
    ]
  ]

  -- `ReadCertificate` from the certificate on.
  unfoldable pub cert_signer : String → Certificate → Signer → Result Signer
  cert_signer path c signer =
      elim (check_valid_cert lib.now (lib.valid_after c) (lib.valid_before c)) [
        | some e ↦ failed (join path (join " not a valid cert: " e))
        | none ↦ elim (lib.new_cert_signer c signer) [
          | failed e ↦ failed (join "failed to create cert signer: " e)
          | got s ↦ got s
        ]
      ]

  unfoldable pub read_certificate : String → Signer → Result Signer
  read_certificate path signer =
      if str_eq path "" then failed "no certificate file provided" else elim (lib.read_file path) [
        | failed e ↦ failed (join "unable to read certificate file: " e)
        | got bytes ↦ elim (lib.parse_authorized_key bytes) [
          | failed e ↦ failed (join "unable to parse public key: " e)
          | got key ↦ elim key [
            | none ↦ failed "Error loading certificate"
            | some c ↦ cert_signer path c signer
          ]
        ]
      ]

  unfoldable pub file_signer_with_cert : String → String → Result Signer
  file_signer_with_cert path certificate_path = elim (file_signer path) [
    | failed e ↦ failed e
    | got signer ↦ read_certificate certificate_path signer
  ]
