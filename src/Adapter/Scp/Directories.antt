-- ===== src/Adapter/Scp/Directories.antt =====
-- The check of a download for directories.
use packer_plugin_sdk.Prelude.{
  ℕ, ◌≡◌, refl, ap, true, false, ◌||◌, [], ◌∷◌, ◌++◌, arith, Bool-cases, inl, inr,
}
use packer_plugin_sdk.Adapter.Connection.{Bytes, Lib, Outside, Channel, has_byte}
use packer_plugin_sdk.Adapter.Scp.{download_session}

has_byte-append : (b : ℕ) (xs ys : Bytes) → has_byte b (xs ++ ys) ≡ (has_byte b xs || has_byte b ys)
has_byte-append b [] ys = refl
has_byte-append b (x ∷ xs) ys = ground (arith, has_byte-append b xs ys)

module _ {S : Type 0} (lib : Lib) (out : Outside S)
    (contained : (b sub : Bytes)
      → lib.contains b sub ≡ true
      → (pre post : Bytes) × (b ≡ pre ++ (sub ++ post))) where
  not_contained : (opts : Bytes) → has_byte b'f' opts ≡ true → lib.contains (b'd' ∷ []) opts ≡ false
  not_contained opts h = elim (Bool-cases (lib.contains (b'd' ∷ []) opts)) [
    | inr no_match ↦ no_match
    | inl found ↦
        let (pre, post, e) = contained (b'd' ∷ []) opts found in
        absurd (clash pre post (ap (has_byte b'f') e))
  ]
    where
      clash : (pre post : Bytes) → false ≡ has_byte b'f' (pre ++ (opts ++ post)) → ⊥
      clash pre post e =
          ground (arith, e, has_byte-append b'f' pre (opts ++ post), has_byte-append b'f' opts post)

  -- If `contains` finds only what is a part of its text: a download that is chosen by the option f
  -- does the same with any other options, so that d, which asks for a directory, is never refused.
  pub download_session-options :
      (opts rest : Bytes) (c : Channel S)
      → has_byte b'f' opts ≡ true
      → download_session lib out opts rest c ≡ download_session lib out (b'f' ∷ []) rest c
  unfolding download_session
  download_session-options opts rest c h =
      ground (arith, not_contained opts h, not_contained (b'f' ∷ []) refl)
