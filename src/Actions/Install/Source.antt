-- ===== src/Actions/Install/Source.antt =====
-- pkg/elemental/elemental.go: the source in an ISO, and what is checked of the device.
use elemental_toolkit.Base.{
  String, ◌<>◌, Bool, true, Option, none, some, [], ◌∷◌, string_eq, if◌then◌else◌,
}
use elemental_toolkit.Base.Text.{join}
use elemental_toolkit.Base.Outcome.{Error, plain}
use elemental_toolkit.Base.Proc.{Proc, pure, or_fail, call, ◌>>=◌, ◌>>◌}
use elemental_toolkit.System.{
  Env, Log, Act, run, mkdir_all, remove_all, exists, temp_dir, mount, unmount,
}
use elemental_toolkit.Elemental.{error_of}
use elemental_toolkit.Specs.{ImageSource}
use elemental_toolkit.Actions.{is_recovery_mode, install_partitions}
use elemental_toolkit.Actions.Deployment.{Tools, install_system}

module _ (env : Env) (tools : Tools) where
  -- The download and the mount of an ISO.
  unfoldable pub fetch : String → String → Proc Log (Unit {0})
  fetch iso tmp_dir = do
    or_fail (tools.get_source iso (join tmp_dir "elemental.iso"))
    or_fail (mkdir_all env (join tmp_dir "iso"))
    or_fail (mount env (join tmp_dir "elemental.iso") (join tmp_dir "iso") "auto" ("loop" ∷ []))

  unfoldable pub clean_all : String → Act (Option Error)
  clean_all tmp_dir w =
      let (e, w₁) = unmount env (join tmp_dir "iso") w in
      let cleaned = remove_all env tmp_dir w₁ in
      elim e [ some failure ↦ (some failure, w₁) | none ↦ cleaned ]

  -- `SourceFormISO`: the source, what cleans up, and the error.
  abbrev pub FromIso : Type 0
  FromIso = Option ImageSource × Act (Option Error) × Option Error

  unfoldable pub mounted_source : String → Act FromIso
  mounted_source tmp_dir w =
      let image = join (join tmp_dir "iso") "rootfs.squashfs" in
      let (there, w₁) = exists env image w in
      (
        if there
            then (
              some (record { source = image; src_type = "file"; digest = "" }),
              clean_all tmp_dir,
              none,
            )
            else (
              none,
              clean_all tmp_dir,
              some (plain ("squashfs image not found in ISO: " <> image)),
            ),
        w₁,
      )

  unfoldable pub source_from_iso : String → Act FromIso
  source_from_iso iso w =
      let ((tmp_dir, e), w₁) = temp_dir env w in
      let (r, w₂) = fetch iso tmp_dir w₁ in
      let source = mounted_source tmp_dir w₂ in
      elim e [
        | some failure ↦ ((none, (λ w. (none, w)), some failure), w₁)
        | none ↦ elim (error_of r) [
          | some failure ↦ ((none, remove_all env tmp_dir, some failure), w₂)
          | none ↦ source
        ]
      ]

  -- `IsActiveMode` and `IsPassiveMode`, and `CheckActiveDeployment`.
  abbrev pub has_mode : String → Act Bool
  has_mode mode = exists env ("/run/elemental/" <> mode)

  unfoldable pub check_active_deployment : Proc Log Bool
  check_active_deployment = do
    active ← call (has_mode "active_mode")
    passive ← if active then pure true else call (has_mode "passive_mode")
    if passive then pure true else call (is_recovery_mode env)

  -- `DeactivateDevices`
  unfoldable pub deactivate_devices : Act (Option Error)
  deactivate_devices w =
      let ((out, e), w₁) =
        run env "blkdeactivate"
          ("--lvmoptions" ∷ "retry,wholevg" ∷ "--dmoptions" ∷ "force,retry" ∷ "--errors" ∷ []) w in
      if tools.command_exists w "blkdeactivate" then (e, w₁) else (none, w)
