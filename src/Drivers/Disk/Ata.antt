-- ===== src/Drivers/Disk/Ata.antt =====
-- What the driver relies on in an ATA device: the registers of a transfer, the status that is
-- polled, and the words that are moved.
use munux.Common.{ℕ, ◌+◌, ◌-◌, ◌*◌, ◌%◌, ◌^◌, ◌<◌, ◌≡◌, ◌≢◌, bit_and, ◌&&◌, ◌==◌, if◌then◌else◌}
use munux.Drivers.Ports.{Bus}
use munux.Drivers.Disk.{
  ata_data, ata_status, sr_bsy, sr_drq, sr_err, cmd_read_sectors, cmd_write_sectors, ata_timeout,
  send_command,
}

-- No command, or a transfer of a sector at one of its words.
pub data Mode : Type 0 where
  idle : Mode
  reading : (lba word : ℕ) → Mode
  writing : (lba word : ℕ) → Mode

-- The address of a sector in the four registers.
abbrev pub address : (drive low mid high : ℕ) → ℕ
address drive low mid high = drive % 16 * 2 ^ 24 + high * 2 ^ 16 + mid * 2 ^ 8 + low

-- `sector d a i` is word `i` of sector `a`, and `delay d` the number of polls for which the device
-- still answers that it is busy. In each mode a poll only passes time; once it is not busy, a
-- command in mode `idle` starts a transfer, and each of the 256 words of a transfer moves on.
pub record Ata {D : Type 0} (bus : Bus D) : Type 1 where
  pub In : Mode → D → Type 0
  pub sector : D → (lba word : ℕ) → ℕ
  pub delay : D → ℕ
  pub delay_lt : (d : D) → delay d < ata_timeout
  pub poll_mode : (k : Mode) (d : D) → In k d → In k (bus.inb ata_status d).1
  pub poll_sector : (d : D) (a i : ℕ) → sector (bus.inb ata_status d).1 a i ≡ sector d a i
  pub poll_delay : (d : D) → delay (bus.inb ata_status d).1 ≡ delay d - 1
  pub poll_busy : (d : D) → (bit_and (bus.inb ata_status d).0 sr_bsy == 0) ≡ (delay d == 0)
  pub poll_no_error : (d : D) → bit_and (bus.inb ata_status d).0 sr_err ≡ 0
  pub poll_read :
      (a i : ℕ) (d : D)
      → In (reading a i) d
      → delay d ≡ 0
      → bit_and (bus.inb ata_status d).0 sr_drq ≢ 0
  pub poll_write :
      (a i : ℕ) (d : D)
      → In (writing a i) d
      → delay d ≡ 0
      → bit_and (bus.inb ata_status d).0 sr_drq ≢ 0
  pub start_read :
      (drive low mid high : ℕ) (d : D)
      → In idle d
      → delay d ≡ 0
      → In
          (reading (address drive low mid high) 0)
          (send_command bus drive 1 low mid high cmd_read_sectors d)
  pub start_write :
      (drive low mid high : ℕ) (d : D)
      → In idle d
      → delay d ≡ 0
      → In
          (writing (address drive low mid high) 0)
          (send_command bus drive 1 low mid high cmd_write_sectors d)
  pub start_sector :
      (drive low mid high command : ℕ) (d : D) (a i : ℕ)
      → sector (send_command bus drive 1 low mid high command d) a i ≡ sector d a i
  pub word_read :
      (a i : ℕ) (d : D) → In (reading a i) d → delay d ≡ 0 → (bus.inw ata_data d).0 ≡ sector d a i
  pub word_read_next :
      (a i : ℕ) (d : D)
      → In (reading a i) d
      → delay d ≡ 0
      → In (if i + 1 == 256 then idle else reading a (i + 1)) (bus.inw ata_data d).1
  pub word_read_sector : (d : D) (b j : ℕ) → sector (bus.inw ata_data d).1 b j ≡ sector d b j
  pub word_read_delay :
      (a i : ℕ) (d : D) → In (reading a i) d → delay d ≡ 0 → delay (bus.inw ata_data d).1 ≡ 0
  pub word_write_sector :
      (a i v : ℕ) (d : D)
      → In (writing a i) d
      → delay d ≡ 0
      → (b j : ℕ)
      → sector (bus.outw ata_data v d) b j ≡ (if b == a && j == i then v else sector d b j)
  pub word_write_next :
      (a i v : ℕ) (d : D)
      → In (writing a i) d
      → delay d ≡ 0
      → In (if i + 1 == 256 then idle else writing a (i + 1)) (bus.outw ata_data v d)
  pub word_write_delay :
      (a i v : ℕ) (d : D)
      → In (writing a i) d
      → delay d ≡ 0
      → i + 1 < 256
      → delay (bus.outw ata_data v d) ≡ 0
