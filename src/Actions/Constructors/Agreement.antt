-- ===== src/Actions/Constructors/Agreement.antt =====
-- `NewResetAction`: the snapshotter and the file system of the state partition.
use elemental_toolkit.Base.{
  String, ◌≡◌, refl, Bool, true, false, Option, none, some, List, [], ◌∷◌, map, ◌==◌, string_eq,
  if◌then◌else◌, Bool-cases, inl, inr, ==_sound, ==_differ,
}
use elemental_toolkit.Base.Outcome.{Result, ok, err, panic, ◌>>=◌}
use elemental_toolkit.Partitions.{PartitionRef}
use elemental_toolkit.Specs.{ResetSpec}
use elemental_toolkit.Snapshotter.Factory.{
  AnyConfig, loop_device_config, btrfs_config, SnapshotterConfig, AnySnapshotter, loop_devices,
  volumes, loop_device_config_of, btrfs_config_of, new_loop_device, new_loop_device_snapshotter,
  new_btrfs, new_btrfs_snapshotter, loop_device_factory, btrfs_factory, new_snapshotter,
}
use elemental_toolkit.Actions.{reset_partitions}
use elemental_toolkit.Actions.Constructors.{
  Draft, grub_unless, with_bootloader, apply_options, started_with, snapshotter_made,
  with_snapshotter, or_err, forced, force_btrfs, new_reset_action,
}

-- A snapshotter is of the type that the configuration names.
abbrev IsOf : String → AnySnapshotter → Type 0
IsOf kind (loop_devices l) = kind ≡ "loopdevice"
IsOf kind (volumes b) = kind ≡ "btrfs"

abbrev Made : String → Result AnySnapshotter → Type 0
Made kind (ok s) = IsOf kind s
Made kind (err e) = Unit
Made kind panic = ⊥

abbrev Returns : {A : Type 0} → Result A → Type 0
Returns (ok a) = Unit
Returns (err e) = Unit
Returns panic = ⊥

Returns-map :
    {A B : Type 0} (r : Result A) (f : A → B) → Returns r → Returns (r >>= (λ a. ok (f a)))
Returns-map (ok a) f h = tt
Returns-map (err e) f h = tt
Returns-map panic f h = h

Returns-if :
    {A : Type 0} (b : Bool) (m n : Result A) → Returns m → Returns n → Returns (if b then m else n)
Returns-if true m n h k = h
Returns-if false m n h k = k

Made-map :
    {A : Type 0} (kind : String) (r : Result A) (f : A → AnySnapshotter)
    → Returns r
    → ((a : A) → IsOf kind (f a))
    → Made kind (r >>= (λ a. ok (f a)))
Made-map kind (ok a) f h k = k a
Made-map kind (err e) f h k = tt
Made-map kind panic f h k = h

Returns-loop_device_config_of : (c : Option AnyConfig) → Returns (loop_device_config_of c)
unfolding loop_device_config_of
Returns-loop_device_config_of none = tt
Returns-loop_device_config_of (some (loop_device_config k)) = tt
Returns-loop_device_config_of (some (btrfs_config k)) = tt

Returns-btrfs_config_of : (c : Option AnyConfig) → Returns (btrfs_config_of c)
unfolding btrfs_config_of
Returns-btrfs_config_of none = tt
Returns-btrfs_config_of (some (btrfs_config k)) = tt
Returns-btrfs_config_of (some (loop_device_config k)) = tt

Returns-new_loop_device_snapshotter :
    (c : SnapshotterConfig) → Returns (new_loop_device_snapshotter c)
unfolding new_loop_device_snapshotter new_loop_device
Returns-new_loop_device_snapshotter c =
    Returns-if (c.kind == "loopdevice") (new_loop_device c) _
      (Returns-map (loop_device_config_of c.config) _ (Returns-loop_device_config_of c.config)) tt

Returns-new_btrfs_snapshotter : (c : SnapshotterConfig) → Returns (new_btrfs_snapshotter c)
unfolding new_btrfs_snapshotter new_btrfs
Returns-new_btrfs_snapshotter c =
    Returns-if (c.kind == "btrfs") (new_btrfs c) _
      (Returns-map (btrfs_config_of c.config) _ (Returns-btrfs_config_of c.config)) tt

new_snapshotter-Made : (c : SnapshotterConfig) → Made c.kind (new_snapshotter c)
unfolding new_snapshotter loop_device_factory btrfs_factory
new_snapshotter-Made c = elim (Bool-cases (c.kind == "loopdevice")) [
  | inl e ↦
      rw (e, new_snapshotter)
        (Made-map c.kind (new_loop_device_snapshotter c) loop_devices
          (Returns-new_loop_device_snapshotter c) (λ l. ==_sound c.kind "loopdevice" e))
  | inr e ↦ elim (Bool-cases (c.kind == "btrfs")) [
    | inl f ↦
        rw (e, f, new_snapshotter)
          (Made-map c.kind (new_btrfs_snapshotter c) volumes (Returns-new_btrfs_snapshotter c)
            (λ b. ==_sound c.kind "btrfs" f))
    | inr f ↦ rw (e, f, new_snapshotter) tt
  ]
]

-- The btrfs snapshotter has a state partition with btrfs.
abbrev pub Agrees : Option AnySnapshotter → Option PartitionRef → Type 0
Agrees none p = ⊥
Agrees (some (loop_devices l)) p = Unit
Agrees (some (volumes b)) none = ⊥
Agrees (some (volumes b)) (some p) = p.value.fs ≡ "btrfs"

kept-Agrees :
    (kind : String) (s : AnySnapshotter) (p : Option PartitionRef)
    → IsOf kind s
    → (kind == "btrfs") ≡ false
    → Agrees (some s) p
kept-Agrees kind (loop_devices l) p h e = tt
kept-Agrees kind (volumes v) p h e = absurd (==_differ kind "btrfs" e h)

module _ {BL : Type 0} where
  applied :
      (bs : List BL) (d : Draft BL ResetSpec)
      → (b : Option BL) × (apply_options (map with_bootloader bs) d
          ≡ ok (record d { bootloader = b }))
  unfolding apply_options with_bootloader
  applied [] d = (d.bootloader, refl)
  applied (b ∷ bs) d = applied bs (record d { bootloader = some b })

  -- What the constructor returns, and why.
  abbrev pub Constructed : SnapshotterConfig → ResetSpec → Result (Draft BL ResetSpec) → Type 0
  Constructed c spec (ok d) = Agrees d.snapshotter d.spec.partitions.state
  Constructed c spec (err e) = new_snapshotter c ≡ err e
  Constructed c spec panic = (c.kind ≡ "btrfs") × (spec.partitions.state ≡ none)

  formatted-Constructed :
      (c : SnapshotterConfig) (s : AnySnapshotter) (b : Option BL) (spec : ResetSpec)
      (p : Option PartitionRef)
      → spec.partitions.state ≡ p
      → c.kind ≡ "btrfs"
      → Constructed c spec (
          forced p spec
          >>= (λ spec. ok (record { bootloader = b; snapshotter = some s; spec = spec })))
  formatted-Constructed c s b spec none e k = (k, e)
  formatted-Constructed c (loop_devices l) b spec (some p) e k = tt
  formatted-Constructed c (volumes v) b spec (some p) e k = refl

  forced-Constructed :
      (c : SnapshotterConfig) (s : AnySnapshotter) (b : Option BL) (spec : ResetSpec)
      → IsOf c.kind s
      → Constructed c spec
          (force_btrfs c (record { bootloader = b; snapshotter = some s; spec = spec }))
  unfolding force_btrfs
  forced-Constructed c s b spec h = elim (Bool-cases (c.kind == "btrfs")) [
    | inl e ↦
        rw (e, force_btrfs)
          (formatted-Constructed c s b spec spec.partitions.state refl (==_sound c.kind "btrfs" e))
    | inr e ↦ rw (e, force_btrfs) (kept-Agrees c.kind s spec.partitions.state h e)
  ]

  made-Constructed :
      (c : SnapshotterConfig) (b : Option BL) (spec : ResetSpec) (r : Result AnySnapshotter)
      → new_snapshotter c ≡ r
      → Made c.kind r
      → Constructed c spec (
          snapshotter_made r (record { bootloader = b; snapshotter = none; spec = spec })
          >>= (λ made. or_err made >>= force_btrfs c))
  made-Constructed c b spec (ok s) e h = forced-Constructed c s b spec h
  made-Constructed c b spec (err f) e h = e
  made-Constructed c b spec panic e h = absurd h

  -- `NewResetAction` with bootloaders as its only options, from a specification with any partitions: the
  -- action that it returns has a snapshotter, and where that is the btrfs one, there is a state partition
  -- and its file system is btrfs. Its only error is that of `NewSnapshotter`, and it panics only where the
  -- configuration names the btrfs snapshotter and there is no state partition.
  pub new_reset_action-Constructed :
      (grub : BL) (c : SnapshotterConfig) (bs : List BL) (spec : ResetSpec)
      → Constructed c spec (new_reset_action grub c (map with_bootloader bs) spec)
  unfolding new_reset_action started_with with_snapshotter
  new_reset_action-Constructed grub c bs spec =
      let (b, e) = applied bs (record { bootloader = none; snapshotter = none; spec = spec }) in
      rw (e, new_reset_action)
        (made-Constructed c (grub_unless grub b) spec (new_snapshotter c) refl
          (new_snapshotter-Made c))
