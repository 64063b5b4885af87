-- ===== src/Chroot/MountExtra/Stack.antt =====
-- The stack of mounts: what a run puts on it, and what its removal takes off.
use packer_plugin_sdk.Prelude.{◌≡◌, refl, ap, Option, none, some, List, [], ◌∷◌, ◌++◌, String}
use packer_plugin_sdk.Multistep.StateBag.{StateBag}
use packer_plugin_sdk.CommonSteps.Ui.{Ui}
use packer_plugin_sdk.Chroot.MountExtra.{Shell, unmount_one, cleanup_func}

module _ {S : Type 0} {bag : StateBag S} (ui : Ui S bag) (shell : Shell S) where
  -- What is left of the mounts: nothing, or, behind an error, the ones after the mount that it is about.
  abbrev pub Left : List String → Option String → List String → Type 0
  Left mounts none left = left ≡ []
  Left mounts (some e) left =
      (before : List String) × (path : String) × (mounts ≡ before ++ (path ∷ left))

  more :
      (path : String) (paths : List String) (result : Option String) (left : List String)
      → Left paths result left
      → Left (path ∷ paths) result left
  more path paths none left h = h
  more path paths (some e) left h = (path ∷ h.0, h.1, ap (λ ps. path ∷ ps) h.2)

  next_mount :
      (path : String) (paths : List String) (s : S) (result : Option String)
      → (unmount_one ui shell path s).0 ≡ result
      → cleanup_func ui shell (path ∷ paths) s ≡ (elim result [
        | some e ↦ (some e, paths, (unmount_one ui shell path s).1)
        | none ↦ cleanup_func ui shell paths (unmount_one ui shell path s).1
      ])
  unfolding cleanup_func
  next_mount path paths s result r = rw (← r) refl

  after :
      (path : String) (paths : List String) (s : S) (result : Option String)
      → (unmount_one ui shell path s).0 ≡ result
      → Left paths
          (cleanup_func ui shell paths (unmount_one ui shell path s).1).0
          (cleanup_func ui shell paths (unmount_one ui shell path s).1).1
      → Left
          (path ∷ paths)
          (cleanup_func ui shell (path ∷ paths) s).0
          (cleanup_func ui shell (path ∷ paths) s).1
  after path paths s none r h = rw (next_mount path paths s none r) (more path paths _ _ h)
  after path paths s (some e) r h = rw (next_mount path paths s (some e) r) ([], path, refl)

  -- Removing the mounts leaves none of them, or ends with an error. Then the mount that could not be
  -- removed is taken off with those before it, and only the ones behind it are left for another try.
  pub cleanup_func-Left :
      (mounts : List String) (s : S)
      → Left mounts (cleanup_func ui shell mounts s).0 (cleanup_func ui shell mounts s).1
  unfolding cleanup_func
  cleanup_func-Left [] s = refl
  cleanup_func-Left (path ∷ paths) s =
      after path paths s (unmount_one ui shell path s).0 refl
        (cleanup_func-Left paths (unmount_one ui shell path s).1)
