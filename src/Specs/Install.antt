-- ===== src/Specs/Install.antt =====
-- `InstallSpec.Sanitize`: what a specification that passes promises to the partitioning that follows.
use mathlib.Core.List.{Perm}
use mathlib.Core.Path.{subst}
use text.Mathlib.TextEquality.{eq_iff}
use elemental_toolkit.Base.{
  ℕ, String, ◌≤◌, ◌≡◌, refl, ◌∙◌, sym, ◌≢◌, ◌↔◌, ◌⊎◌, false, Option, none, some, Option-cases, inl,
  inr, [], ◌∷◌, ◌++◌, length, arith, nat_eq, string_eq, if◌then◌else◌,
}
use elemental_toolkit.Base.Outcome.{ok, >>=-eq-ok, ok-injective, panic, ◌>>=◌}
use elemental_toolkit.Partitions.{
  PartitionRef, PartitionList, ElementalPartitions, included, set_firmware_partitions, in_excludes,
  partitions_by_install_order,
}
use elemental_toolkit.Partitions.Firmware.{firmware_keeps}
use elemental_toolkit.Partitions.InstallOrder.{
  unsized, fixed_partitions, growing_partitions, install_order-perm,
}
use elemental_toolkit.Specs.{
  Image, InstallSpec, ImageSource, source_is_empty, is_empty, default_label, default_source,
  unmounted, extra_parts_size_check, persistent_clash, install_sanitize,
}

extra_parts_size_check_lem : (l : PartitionList) → extra_parts_size_check l ≡ length (unsized l)
unfolding extra_parts_size_check
extra_parts_size_check_lem [] = refl
extra_parts_size_check_lem (p ∷ rest) = ground (arith, extra_parts_size_check_lem rest)

-- What the steps of a successful call have found.
record Passed (fresh : ℕ) (i i' : InstallSpec) : Type 0 where
  few : extra_parts_size_check i.extra_partitions ≤ 1
  clash :
      persistent_clash (extra_parts_size_check i.extra_partitions) i.partitions.persistent
      ≡ ok false
  state : unmounted i.partitions.state ≡ false
  source : (source_is_empty i.system ≡ ok false) ⊎ (i.iso ≢ "")
  recovery :
      default_source i.recovery_system i.system >>= (λ img. ok (default_label img))
      ≡ ok i'.recovery_system
  firmware : set_firmware_partitions fresh i.partitions i.firmware i.part_table ≡ ok i'.partitions
  extra : i'.extra_partitions ≡ i.extra_partitions
  system : i'.system ≡ i.system
  iso : i'.iso ≡ i.iso

passed : (fresh : ℕ) (i i' : InstallSpec) → install_sanitize fresh i ≡ ok i' → Passed fresh i i'
unfolding install_sanitize
passed fresh i i' h = record {
  few = ground arith;
  clash = ground arith;
  state = ground arith;
  source = ground arith;
  recovery = ground arith;
  firmware = ground arith;
  extra = ground arith;
  system = ground arith;
  iso = ground arith;
}

-- No more than one of the partitions that grow has no size.
few_unsized :
    (n : ℕ) (persistent : Option PartitionRef) (extra : PartitionList)
    → length (unsized extra) ≡ n
    → n ≤ 1
    → persistent_clash n persistent ≡ ok false
    → length (unsized (included persistent [] ++ extra)) ≤ 1
unfolding persistent_clash included in_excludes
few_unsized n none extra e few clash = omega arith
few_unsized n (some p) extra e few clash = ground arith

-- After a successful check, `PartitionsByInstallOrder` leaves none of the partitions out: it gives
-- those of the system that are set and all the extra ones, each once.
pub install_sanitize-perm :
    (fresh : ℕ) (i i' : InstallSpec)
    → install_sanitize fresh i ≡ ok i'
    → Perm (partitions_by_install_order i'.partitions i'.extra_partitions []) (
        fixed_partitions i'.partitions []
        ++ growing_partitions i'.partitions i'.extra_partitions [])
install_sanitize-perm fresh i i' h =
    let p = passed fresh i i' h in
    let kept = firmware_keeps fresh i.partitions i.firmware i.part_table i'.partitions p.firmware in
    install_order-perm i'.partitions i'.extra_partitions [] (
      rw (kept.3, p.extra)
        (few_unsized _ i.partitions.persistent i.extra_partitions
          (sym (extra_parts_size_check_lem i.extra_partitions)) p.few p.clash))

-- What the check asks for first: a system source, or an ISO in its place.
abbrev pub HasSystem : InstallSpec → Type 0
HasSystem i = (source_is_empty i.system ≡ ok false) ⊎ (i.iso ≢ "")

-- The check panics exactly where the pointer to the system source is nil, or where there is a system source
-- or an ISO, the state partition is mounted and one of two other pointers is nil: that to the recovery
-- source, or that to the persistent partition while exactly one extra partition has size 0.
pub install_sanitize-panic_iff :
    (fresh : ℕ) (i : InstallSpec)
    → (install_sanitize fresh i ≡ panic) ↔ (
        (i.system ≡ none)
        ⊎ (HasSystem i
            × (unmounted i.partitions.state ≡ false)
            × ((i.recovery_system.source ≡ none)
                ⊎ ((length (unsized i.extra_partitions) ≡ 1) × (i.partitions.persistent ≡ none)))))
unfolding install_sanitize set_firmware_partitions default_source source_is_empty persistent_clash
install_sanitize-panic_iff fresh i = elim (Option-cases i.system) [
  | inl none_given ↦ (λ h. inl none_given, λ why. rw (none_given, install_sanitize) refl)
  | inr (system, given) ↦ (
    (λ h. inr (
      ground arith,
      ground arith,
      elim (Option-cases i.recovery_system.source) [
        | inl missing ↦ inl missing
        | inr (source, there) ↦ inr (ground (arith, extra_parts_size_check_lem i.extra_partitions))
      ],
    )),
    (λ why. ground (arith, extra_parts_size_check_lem i.extra_partitions)),
  )
]

system_label-ne : ◌≢◌ {A = String} "COS_SYSTEM" ""
system_label-ne = ground (arith, eq_iff "COS_SYSTEM" "")

-- The default label is empty exactly for a squashfs image; the other fields stay.
pub default_label_lem :
    (img : Image)
    → ((default_label img).source ≡ img.source)
      × (((default_label img).label ≡ "") ↔ ((default_label img).fs ≡ "squashfs"))
unfolding default_label
default_label_lem img =
    (ground arith, ((λ e. ground (arith, system_label-ne)), (λ e. ground arith)))

default_source_lem :
    (img img' : Image) (system : Option ImageSource) (source : ImageSource)
    → img.source ≡ some source
    → default_source img system ≡ ok img'
    → img'.source ≡ (if is_empty source then system else some source)
unfolding default_source source_is_empty
default_source_lem img img' system source e h = ground arith

-- The recovery image after its defaults.
default_recovery :
    (img img' : Image) (system : Option ImageSource) (source : ImageSource)
    → img.source ≡ some source
    → (default_source img system >>= (λ img. ok (default_label img))) ≡ ok img'
    → (img'.source ≡ (if is_empty source then system else some source))
      × ((img'.label ≡ "") ↔ (img'.fs ≡ "squashfs"))
default_recovery img img' system source e h =
    let (given, from, to) = >>=-eq-ok (default_source img system) _ h in
    let (sources, labels) = default_label_lem given in
    subst
      (λ (r : Image).
        (r.source ≡ (if is_empty source then system else some source))
        × ((r.label ≡ "") ↔ (r.fs ≡ "squashfs")))
      (ok-injective to) (sources ∙ default_source_lem img given system source e from, labels)

unmounted_kept :
    (fresh : ℕ) (ep ep' : ElementalPartitions) (firmware part_table : String)
    → set_firmware_partitions fresh ep firmware part_table ≡ ok ep'
    → unmounted ep.state ≡ false
    → unmounted ep'.state ≡ false
unfolding set_firmware_partitions unmounted
unmounted_kept fresh ep ep' firmware part_table h m = ground arith

-- What a successful check gives: a state partition that is mounted, a system source or an ISO, as the
-- recovery source the given one or, if that is empty, the system source, and a recovery label
-- exactly if the recovery image is no squashfs.
pub install_sanitize_completes :
    (fresh : ℕ) (i i' : InstallSpec) (source : ImageSource)
    → i.recovery_system.source ≡ some source
    → install_sanitize fresh i ≡ ok i'
    → (unmounted i'.partitions.state ≡ false)
      × ((source_is_empty i'.system ≡ ok false) ⊎ (i'.iso ≢ ""))
      × (i'.recovery_system.source ≡ (if is_empty source then i.system else some source))
      × ((i'.recovery_system.label ≡ "") ↔ (i'.recovery_system.fs ≡ "squashfs"))
install_sanitize_completes fresh i i' source er h =
    let p = passed fresh i i' h in
    let recovery =
      default_recovery i.recovery_system i'.recovery_system i.system source er p.recovery in
    (
      unmounted_kept fresh i.partitions i'.partitions i.firmware i.part_table p.firmware p.state,
      rw (p.system, p.iso) p.source,
      recovery.0,
      recovery.1,
    )
