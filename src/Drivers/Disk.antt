-- ===== src/Drivers/Disk.antt =====
-- munux-os/kernel/drivers/disk.c: sectors of 512 bytes by programmed transfer. A result of the code,
-- 0 or -1, is its 32-bit pattern.
pub mod Ata
pub mod Words
pub mod Transfer
pub mod Roundtrip
pub mod Errors
mod Tests
use munux.Common.{
  ℕ, zero, suc, ◌+◌, ◌*◌, ◌/◌, ◌%◌, ◌^◌, bit_and, bit_or, Bool, true, false, not, ◌&&◌, ◌||◌, ◌==◌,
  if◌then◌else◌,
}
use munux.Common.Word.{u32_max}
use munux.Common.Memory.{Memory, update}
use munux.Drivers.Ports.{Bus, io_wait}

abbrev pub ata_data : ℕ
ata_data = 0x1f0

abbrev pub ata_sector_count : ℕ
ata_sector_count = 0x1f2

abbrev pub ata_lba_low : ℕ
ata_lba_low = 0x1f3

abbrev pub ata_lba_mid : ℕ
ata_lba_mid = 0x1f4

abbrev pub ata_lba_high : ℕ
ata_lba_high = 0x1f5

abbrev pub ata_drive : ℕ
ata_drive = 0x1f6

-- ATA_PRIMARY_STATUS and ATA_PRIMARY_COMMAND.
abbrev pub ata_status : ℕ
ata_status = 0x1f7

abbrev pub sr_bsy : ℕ
sr_bsy = 0x80

abbrev pub sr_drq : ℕ
sr_drq = 0x08

abbrev pub sr_err : ℕ
sr_err = 0x01

abbrev pub cmd_read_sectors : ℕ
cmd_read_sectors = 0x20

abbrev pub cmd_write_sectors : ℕ
cmd_write_sectors = 0x30

abbrev pub cmd_identify : ℕ
cmd_identify = 0xec

abbrev pub ata_timeout : ℕ
ata_timeout = 1000000

-- The word `i` of a buffer, as `disk_write_sector` puts it together.
pub word_at : (buffer i : ℕ) → Memory → ℕ
word_at buffer i m = bit_or (m (buffer + i * 2)) (m (buffer + (i * 2 + 1)) * 2 ^ 8) % 2 ^ 16

-- The two bytes that `disk_read_sector` stores for a word.
pub store_word : (buffer i word : ℕ) → Memory → Memory
store_word buffer i word m =
    update (update m (buffer + i * 2) (word % 2 ^ 8)) (buffer + (i * 2 + 1)) (word / 2 ^ 8 % 2 ^ 8)

module _ {D : Type 0} (bus : Bus D) where
  -- The loop of `ata_wait_bsy`, with `n` rounds left: the result and the device.
  pub wait_bsy : (n : ℕ) → D → ℕ × D
  wait_bsy zero d = (u32_max, d)
  wait_bsy (suc n) d =
      let (status, d') = bus.inb ata_status d in
      let later = wait_bsy n d' in if bit_and status sr_bsy == 0 then (0, d') else later

  pub ata_wait_bsy : D → ℕ × D
  ata_wait_bsy = wait_bsy ata_timeout

  -- The loop of `ata_wait_drq`.
  pub wait_drq : (n : ℕ) → D → ℕ × D
  wait_drq zero d = (u32_max, d)
  wait_drq (suc n) d =
      let (status, d') = bus.inb ata_status d in
      let later = wait_drq n d' in
      if not (bit_and status sr_err == 0)
      then (u32_max, d')
      else if not (bit_and status sr_drq == 0)
      then (0, d')
      else later

  pub ata_wait_drq : D → ℕ × D
  ata_wait_drq = wait_drq ata_timeout

  -- The six registers of a transfer, the command last.
  pub send_command : (drive count low mid high command : ℕ) → D → D
  send_command drive count low mid high command d = bus.outb ata_status command (
      bus.outb ata_lba_high high (
        bus.outb ata_lba_mid mid (
          bus.outb ata_lba_low low (bus.outb ata_sector_count count (bus.outb ata_drive drive d)))))

  pub select_sector : (lba command : ℕ) → D → D
  select_sector lba command =
      send_command (bit_or 0xe0 (bit_and (lba / 2 ^ 24) 0x0f)) 1 (lba % 2 ^ 8) (lba / 2 ^ 8 % 2 ^ 8)
        (lba / 2 ^ 16 % 2 ^ 8) command

  -- `disk_init`
  pub disk_init : D → D
  disk_init d = bus.outb ata_lba_high 0 (
      bus.outb ata_lba_mid 0 (
        bus.outb ata_lba_low 0
          (bus.outb ata_sector_count 0 (io_wait bus (bus.outb ata_drive 0xa0 d)))))

  -- The loop that reads the words from `i` on, with `n` left.
  pub read_words : (n i buffer : ℕ) → Memory → D → Memory × D
  read_words zero i buffer m d = (m, d)
  read_words (suc n) i buffer m d =
      let (word, d') = bus.inw ata_data d in
      read_words n (i + 1) buffer (store_word buffer i word m) d'

  -- The end of `disk_read_sector`, after the second wait for BSY.
  pub receive : (buffer : ℕ) → Memory → ℕ × D → ℕ × Memory × D
  receive buffer m (busy, d) =
      let (failed, d') = ata_wait_drq d in
      let (m', d'') = read_words 256 0 buffer m d' in
      if not (busy == 0)
      then (u32_max, m, d)
      else if not (failed == 0)
      then (u32_max, m, d')
      else (0, m', d'')

  -- `disk_read_sector`: the result, the memory and the device.
  pub disk_read_sector : (lba buffer : ℕ) → Memory → D → ℕ × Memory × D
  disk_read_sector lba buffer m d =
      let (busy, d') = ata_wait_bsy d in
      if not (busy == 0)
      then (u32_max, m, d')
      else receive buffer m (ata_wait_bsy (select_sector lba cmd_read_sectors d'))

  -- The loop that writes the words from `i` on, with `n` left.
  pub write_words : (n i buffer : ℕ) → Memory → D → D
  write_words zero i buffer m d = d
  write_words (suc n) i buffer m d =
      write_words n (i + 1) buffer m (bus.outw ata_data (word_at buffer i m) d)

  -- `disk_write_sector`: the result and the device. The results of the waits are not looked at.
  pub disk_write_sector : (lba buffer : ℕ) → Memory → D → ℕ × D
  disk_write_sector lba buffer m d =
      let selected = select_sector lba cmd_write_sectors (ata_wait_bsy d).1 in
      let ready = (ata_wait_drq (ata_wait_bsy selected).1).1 in
      (0, (ata_wait_bsy (write_words 256 0 buffer m ready)).1)

  -- The loop of `disk_identify` that drops the words.
  pub drop_words : (n : ℕ) → D → D
  drop_words zero d = d
  drop_words (suc n) d = drop_words n (bus.inw ata_data d).1

  -- `disk_identify`
  pub disk_identify : D → D
  disk_identify d =
      let (status, d') = bus.inb ata_status (send_command 0xa0 0 0 0 0 cmd_identify d) in
      if status == 0 then d' else drop_words 256 (ata_wait_bsy d').1

  -- `disk_present`
  unfoldable pub disk_present : D → Bool × D
  disk_present d =
      let (status, d') = bus.inb ata_status (io_wait bus (bus.outb ata_drive 0xa0 d)) in
      (not (status == 0xff) && not (status == 0), d')
