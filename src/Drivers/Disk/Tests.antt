-- ===== src/Drivers/Disk/Tests.antt =====
-- A device that meets what the driver relies on, and the theorems on it.
use munux.Common.{
  ℕ, ◌+◌, ◌-◌, ◌%◌, ◌<◌, ◌≡◌, ◌≢◌, refl, ap, ◌⊎◌, inl, inr, false, ◌&&◌, bit_and, ◌==◌, ltb, leb,
  if◌then◌else◌, arith, Bool-cases,
}
use munux.Common.Word.{u32_max}
use munux.Drivers.Ports.{Bus}
use munux.Drivers.Disk.{send_command, disk_read_sector, disk_write_sector}
use munux.Drivers.Disk.Ata.{Mode, idle, reading, writing, address, Ata}
use munux.Drivers.Disk.Roundtrip.{disk_read_sector-write_sector}
use munux.Drivers.Disk.Errors.{AlwaysBusy, disk_errors}

-- The disk, the registers, and how long it will still be busy, up to two polls.
record Disk : Type 0 where
  cells : ℕ → ℕ → ℕ
  mode : Mode
  drive : ℕ
  low : ℕ
  mid : ℕ
  high : ℕ
  late : ℕ

abbrev status_of : Mode → (delay : ℕ) → ℕ
status_of idle delay = if delay == 0 then 0x40 else 0xc0
status_of (reading a i) delay = if delay == 0 then 0x48 else 0xc0
status_of (writing a i) delay = if delay == 0 then 0x48 else 0xc0

abbrev moved : Mode → Mode
moved idle = idle
moved (reading a i) = if i + 1 == 256 then idle else reading a (i + 1)
moved (writing a i) = if i + 1 == 256 then idle else writing a (i + 1)

abbrev word_of : Mode → (ℕ → ℕ → ℕ) → ℕ
word_of (reading a i) cells = cells a i
word_of _ cells = 0

abbrev stored : Mode → ℕ → (ℕ → ℕ → ℕ) → ℕ → ℕ → ℕ
stored (writing a i) v cells b j = if b == a && j == i then v else cells b j
stored (reading a i) v cells b j = cells b j
stored idle v cells b j = cells b j

abbrev disk_bus : Bus Disk
disk_bus = record {
  inb = λ port d. (status_of d.mode (d.late % 3), record d { late = d.late % 3 - 1 });
  inw = λ port d. (word_of d.mode d.cells, record d { mode = moved d.mode });
  outb = λ port v d. record {
    cells = d.cells;
    mode =
        if port == 0x1f7
        then (if v == 0x20
            then reading (address d.drive d.low d.mid d.high) 0
            else writing (address d.drive d.low d.mid d.high) 0)
        else d.mode;
    drive = if port == 0x1f6 then v else d.drive;
    low = if port == 0x1f3 then v else d.low;
    mid = if port == 0x1f4 then v else d.mid;
    high = if port == 0x1f5 then v else d.high;
    late = d.late;
  };
  outw = λ port v d. record d { cells = stored d.mode v d.cells; mode = moved d.mode };
}

busy_bit : (k : Mode) (n : ℕ) → (bit_and (status_of k n) 0x80 == 0) ≡ (n == 0)
busy_bit idle n = elim (Bool-cases (n == 0)) [ inl e ↦ rw e refl | inr e ↦ rw e refl ]
busy_bit (reading a i) n = elim (Bool-cases (n == 0)) [ inl e ↦ rw e refl | inr e ↦ rw e refl ]
busy_bit (writing a i) n = elim (Bool-cases (n == 0)) [ inl e ↦ rw e refl | inr e ↦ rw e refl ]

error_bit : (k : Mode) (n : ℕ) → bit_and (status_of k n) 0x01 ≡ 0
error_bit idle n = elim (Bool-cases (n == 0)) [ inl e ↦ rw e refl | inr e ↦ rw e refl ]
error_bit (reading a i) n = elim (Bool-cases (n == 0)) [ inl e ↦ rw e refl | inr e ↦ rw e refl ]
error_bit (writing a i) n = elim (Bool-cases (n == 0)) [ inl e ↦ rw e refl | inr e ↦ rw e refl ]

data_bit : (k : Mode) (n : ℕ) → k ≢ idle → n ≡ 0 → bit_and (status_of k n) 0x08 ≢ 0
data_bit idle n ne e = absurd (ne refl)
data_bit (reading a i) n ne e = rw e (ground arith)
data_bit (writing a i) n ne e = rw e (ground arith)

command_lem :
    (drive low mid high command : ℕ) (d : Disk)
    → ((send_command disk_bus drive 1 low mid high command d).mode ≡ (
        if command == 0x20
        then reading (address drive low mid high) 0
        else writing (address drive low mid high) 0))
      × ((send_command disk_bus drive 1 low mid high command d).cells ≡ d.cells)
unfolding send_command
command_lem drive low mid high command d = (refl, refl)

abbrev disk_ata : Ata disk_bus
disk_ata = record {
  In = λ k d. d.mode ≡ k;
  sector = λ d. d.cells;
  delay = λ d. d.late % 3;
  delay_lt = λ d. omega arith;
  poll_mode = λ k d h. h;
  poll_sector = λ d a i. refl;
  poll_delay = λ d. omega arith;
  poll_busy = λ d. busy_bit d.mode (d.late % 3);
  poll_no_error = λ d. error_bit d.mode (d.late % 3);
  poll_read = λ a i d h free. data_bit d.mode (d.late % 3) (ground arith) free;
  poll_write = λ a i d h free. data_bit d.mode (d.late % 3) (ground arith) free;
  start_read = λ drive low mid high d h free. (command_lem drive low mid high 0x20 d).0;
  start_write = λ drive low mid high d h free. (command_lem drive low mid high 0x30 d).0;
  start_sector = λ drive low mid high command d a i.
      ap (λ (c : ℕ → ℕ → ℕ). c a i) (command_lem drive low mid high command d).1;
  word_read = λ a i d h free. ap (λ k. word_of k d.cells) h;
  word_read_next = λ a i d h free. ap moved h;
  word_read_sector = λ d b j. refl;
  word_read_delay = λ a i d h free. free;
  word_write_sector = λ a i v d h free b j. ap (λ k. stored k v d.cells b j) h;
  word_write_next = λ a i v d h free. ap moved h;
  word_write_delay = λ a i v d h free more. free;
}

abbrev disk : Disk
disk = record { cells = λ a i. a; mode = idle; drive = 0; low = 0; mid = 0; high = 0; late = 2 }

disk_read_sector-write_sector_example :
    let d = (disk_write_sector disk_bus 0x1234567 16 (λ q. q % 256) disk).1 in
    ((disk_read_sector disk_bus 0x1234567 4096 (λ q. 7) d).0 ≡ 0)
    × ((k : ℕ)
        → k < 512
        → (disk_read_sector disk_bus 0x1234567 4096 (λ q. 7) d).1 (4096 + k) ≡ (16 + k) % 256)
    × ((q : ℕ)
        → (leb 4096 q && ltb q 4608) ≡ false
        → (disk_read_sector disk_bus 0x1234567 4096 (λ q. 7) d).1 q ≡ 7)
    × ((b j : ℕ)
        → b ≢ 0x1234567
        → (disk_read_sector disk_bus 0x1234567 4096 (λ q. 7) d).2.cells b j ≡ b)
disk_read_sector-write_sector_example =
    disk_read_sector-write_sector disk_bus disk_ata 0x1234567 16 4096 (λ q. q % 256) (λ q. 7) disk
      (omega arith) refl (λ q. omega arith)

-- Ports with nothing behind them.
abbrev floating : Bus ℕ
floating = record {
  inb = λ port d. (0xff, d);
  inw = λ port d. (0xffff, d);
  outb = λ port v d. d;
  outw = λ port v d. d;
}

disk_errors_example :
    (((disk_read_sector floating 5 0 (λ q. 7) 0).0 ≡ 0)
      ⊎ (((disk_read_sector floating 5 0 (λ q. 7) 0).0 ≡ u32_max)
          × ((disk_read_sector floating 5 0 (λ q. 7) 0).1 ≡ λ q. 7)))
    × (AlwaysBusy floating → (disk_read_sector floating 5 0 (λ q. 7) 0).0 ≡ u32_max)
    × (AlwaysBusy floating → (disk_write_sector floating 5 0 (λ q. 7) 0).0 ≡ 0)
disk_errors_example = disk_errors floating 5 0 (λ q. 7) 0
