-- ===== src/Specs/Upgrade.antt =====
-- `UpgradeSpec.Sanitize` and `SanitizeForRecoveryOnly`: every partition that the upgrade writes to is
-- mounted.
use mathlib.Core.Path.{subst}
use elemental_toolkit.Base.{◌≡◌, ◌↔◌, ◌⊎◌, false, none, arith}
use elemental_toolkit.Base.Outcome.{ok, panic, >>=-eq-ok, ok-injective, ◌>>=◌}
use elemental_toolkit.Specs.{
  Image, UpgradeSpec, source_is_empty, default_label, unmounted, recovery_checks, upgrade_sanitize,
  upgrade_sanitize_for_recovery_only,
}
use elemental_toolkit.Specs.Install.{default_label_lem}

-- The recovery image is the result of the label rule.
labelled :
    (u u' : UpgradeSpec)
    → upgrade_sanitize u ≡ ok u'
    → (recovery_checks u >>= (λ img. ok (default_label img))) ≡ ok u'.recovery_system
unfolding upgrade_sanitize
labelled u u' h = ground arith

labels_of :
    (u u' : UpgradeSpec)
    → upgrade_sanitize u ≡ ok u'
    → (u'.recovery_system.label ≡ "") ↔ (u'.recovery_system.fs ≡ "squashfs")
labels_of u u' h =
    let (given, from, to) = >>=-eq-ok (recovery_checks u) _ (labelled u u' h) in
    subst (λ (r : Image). (r.label ≡ "") ↔ (r.fs ≡ "squashfs")) (ok-injective to)
      (default_label_lem given).1

-- A successful check of an upgrade gives a mounted state partition, a system source, a mounted
-- recovery partition where the recovery is upgraded, a mounted boot partition where the bootloader
-- is, and a recovery label exactly if the recovery image is no squashfs.
upgrade_sanitize_completes :
    (u u' : UpgradeSpec)
    → upgrade_sanitize u ≡ ok u'
    → (unmounted u'.partitions.state ≡ false)
      × (source_is_empty u'.system ≡ ok false)
      × ((u'.recovery_upgrade ≡ false) ⊎ (unmounted u'.partitions.recovery ≡ false))
      × ((u'.bootloader_upgrade ≡ false) ⊎ (unmounted u'.partitions.boot ≡ false))
      × ((u'.recovery_system.label ≡ "") ↔ (u'.recovery_system.fs ≡ "squashfs"))
unfolding upgrade_sanitize recovery_checks
upgrade_sanitize_completes u u' h =
    (ground arith, ground arith, ground arith, ground arith, labels_of u u' h)

-- The check for an upgrade of the recovery system alone panics exactly where the two partitions are
-- mounted and the pointer to the recovery source is nil.
upgrade_recovery_only :
    (u : UpgradeSpec)
    → (upgrade_sanitize_for_recovery_only u ≡ panic) ↔ (
        (unmounted u.partitions.state ≡ false)
        × (unmounted u.partitions.recovery ≡ false)
        × (u.recovery_system.source ≡ none))
unfolding upgrade_sanitize_for_recovery_only source_is_empty
upgrade_recovery_only u = ((λ h. ground arith), (λ h. ground arith))
