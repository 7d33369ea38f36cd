-- ===== src/Partitions/Firmware.antt =====
-- `SetFirmwarePartitions`: which partitions a firmware boots from.
use elemental_toolkit.Base.{ℕ, String, ◌≡◌, ◌⊎◌, none, arith, string_eq}
use elemental_toolkit.Base.Outcome.{ok}
use elemental_toolkit.Partitions.{ElementalPartitions, set_firmware_partitions}

-- After `SetFirmwarePartitions` succeeds, the BIOS or the bootloader partition is nil, the OEM,
-- recovery and persistent partitions are as before, and the state partition is as before unless both
-- of the first two are nil.
pub firmware_keeps :
    (fresh : ℕ) (ep : ElementalPartitions) (firmware part_table : String)
    (ep' : ElementalPartitions)
    → set_firmware_partitions fresh ep firmware part_table ≡ ok ep'
    → ((ep'.bios ≡ none) ⊎ (ep'.boot ≡ none))
      × (ep'.oem ≡ ep.oem)
      × (ep'.recovery ≡ ep.recovery)
      × (ep'.persistent ≡ ep.persistent)
      × ((ep'.state ≡ ep.state) ⊎ ((ep'.bios ≡ none) × (ep'.boot ≡ none)))
unfolding set_firmware_partitions
firmware_keeps fresh ep firmware part_table ep' h = ground arith
