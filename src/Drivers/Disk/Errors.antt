-- ===== src/Drivers/Disk/Errors.antt =====
-- What the two transfers answer when the device does not.
use munux.Common.{ℕ, zero, suc, ◌≡◌, ◌≢◌, refl, ◌⊎◌, inl, inr, bit_and, ◌==◌, arith, Bool-cases}
use munux.Common.Word.{u32_max}
use munux.Common.Memory.{Memory}
use munux.Drivers.Ports.{Bus}
use munux.Drivers.Disk.{
  ata_status, sr_bsy, wait_bsy, ata_timeout, ata_wait_bsy, ata_wait_drq, receive, disk_read_sector,
  disk_write_sector,
}

module _ {D : Type 0} (bus : Bus D) where
  -- The status that the device answers has the bit BSY, whenever it is asked.
  abbrev pub AlwaysBusy : Type 0
  AlwaysBusy = (d : D) → bit_and (bus.inb ata_status d).0 sr_bsy ≢ 0

  wait_bsy-AlwaysBusy : (n : ℕ) (d : D) → AlwaysBusy → (wait_bsy bus n d).0 ≡ u32_max
  unfolding wait_bsy
  wait_bsy-AlwaysBusy zero d busy = refl
  wait_bsy-AlwaysBusy (suc n) d busy =
      ground (arith, busy d, wait_bsy-AlwaysBusy n (bus.inb ata_status d).1)

  receive_memory :
      (buffer : ℕ) (m : Memory) (waited : ℕ × D)
      → let (code, m', d') = receive bus buffer m waited in
        (code ≡ 0) ⊎ ((code ≡ u32_max) × (m' ≡ m))
  unfolding receive
  receive_memory buffer m waited = elim (Bool-cases (waited.0 == 0)) [
    | inl free ↦ rw free (elim (Bool-cases ((ata_wait_drq bus waited.1).0 == 0)) [
      | inl found ↦ rw found (inl refl)
      | inr missing ↦ rw missing (inr (refl, refl))
    ])
    | inr busy ↦ rw busy (inr (refl, refl))
  ]

  -- For every device and sector, `disk_read_sector` returns 0, or -1 and the memory as it was; on a
  -- device that is busy whenever it is asked it returns -1, while `disk_write_sector` returns 0 all
  -- the same.
  pub disk_errors :
      (lba buffer : ℕ) (m : Memory) (d : D)
      → (let (code, m', d') = disk_read_sector bus lba buffer m d in
          (code ≡ 0) ⊎ ((code ≡ u32_max) × (m' ≡ m)))
        × (AlwaysBusy → (disk_read_sector bus lba buffer m d).0 ≡ u32_max)
        × (AlwaysBusy → (disk_write_sector bus lba buffer m d).0 ≡ 0)
  unfolding disk_read_sector disk_write_sector ata_wait_bsy
  disk_errors lba buffer m d = (
    elim (Bool-cases ((ata_wait_bsy bus d).0 == 0)) [
      | inl free ↦ rw free (receive_memory buffer m _)
      | inr busy ↦ rw busy (inr (refl, refl))
    ],
    λ busy.
        let late : (ata_wait_bsy bus d).0 ≡ u32_max = wait_bsy-AlwaysBusy ata_timeout d busy in
        rw late refl,
    λ busy. refl,
  )
