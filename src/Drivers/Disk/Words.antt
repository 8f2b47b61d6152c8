-- ===== src/Drivers/Disk/Words.antt =====
-- The loops of the disk driver, the polls and the words of a sector, on an ATA device.
use munux.Common.{
  ℕ, zero, suc, ◌+◌, ◌-◌, ◌*◌, ◌/◌, ◌%◌, ◌^◌, ◌<◌, ◌≡◌, ◌≢◌, refl, ap, ◌∙◌, inl, inr, true, false,
  bit_and, ◌&&◌, ◌==◌, ltb, leb, if◌then◌else◌, arith, Bool-cases,
}
use munux.Common.Memory.{Memory}
use munux.Drivers.Ports.{Bus}
use munux.Drivers.Disk.{
  ata_timeout, ata_data, ata_status, sr_drq, word_at, store_word, wait_bsy, ata_wait_bsy, wait_drq,
  ata_wait_drq, read_words, write_words,
}
use munux.Drivers.Disk.Ata.{Mode, idle, reading, writing, Ata}

word_at_cong : (buffer i j : ℕ) (m : Memory) → i ≡ j → word_at buffer i m ≡ word_at buffer j m
word_at_cong buffer i j m e = rw e

module _ {D : Type 0} (bus : Bus D) (ata : Ata bus) where
  open ata use {
    In, sector, delay, delay_lt, poll_mode, poll_sector, poll_delay, poll_busy, poll_no_error,
    poll_read, poll_write, start_read, start_write, start_sector, word_read, word_read_next,
    word_read_sector, word_read_delay, word_write_sector, word_write_next, word_write_delay,
  }

  abbrev pub SameSectors : D → D → Type 0
  SameSectors d d' = (a i : ℕ) → sector d' a i ≡ sector d a i

  -- After the wait the device is not busy, and in the mode in which it was.
  wait_bsy_lem :
      (n : ℕ) (k : Mode) (d : D)
      → In k d
      → delay d < n
      → ((wait_bsy bus n d).0 ≡ 0)
        × In k (wait_bsy bus n d).1
        × (delay (wait_bsy bus n d).1 ≡ 0)
        × SameSectors d (wait_bsy bus n d).1
  unfolding wait_bsy
  wait_bsy_lem zero k d mode h = elim h [ ]
  wait_bsy_lem (suc n) k d mode h = elim (Bool-cases (delay d == 0)) [
    | inl free ↦
        rw (poll_busy d, free)
          (refl, poll_mode k d mode, ground (arith, poll_delay d), poll_sector d)
    | inr busy ↦
        rw (poll_busy d, busy)
          (let (code, mode', free, same) =
              wait_bsy_lem n k (bus.inb ata_status d).1 (poll_mode k d mode)
                (ground (arith, poll_delay d)) in
            (code, mode', free, λ a i. same a i ∙ poll_sector d a i))
  ]

  pub ata_wait_bsy_lem :
      (k : Mode) (d : D)
      → In k d
      → ((ata_wait_bsy bus d).0 ≡ 0)
        × In k (ata_wait_bsy bus d).1
        × (delay (ata_wait_bsy bus d).1 ≡ 0)
        × SameSectors d (ata_wait_bsy bus d).1
  unfolding ata_wait_bsy
  ata_wait_bsy_lem k d mode = wait_bsy_lem ata_timeout k d mode (delay_lt d)

  wait_drq_lem :
      (n : ℕ) (k : Mode) (d : D)
      → In k d
      → delay d ≡ 0
      → bit_and (bus.inb ata_status d).0 sr_drq ≢ 0
      → 0 < n
      → ((wait_drq bus n d).0 ≡ 0)
        × In k (wait_drq bus n d).1
        × (delay (wait_drq bus n d).1 ≡ 0)
        × SameSectors d (wait_drq bus n d).1
  unfolding wait_drq
  wait_drq_lem zero k d mode free drq h = elim h [ ]
  wait_drq_lem (suc n) k d mode free drq h =
      let ready : (bit_and (bus.inb ata_status d).0 sr_drq == 0) ≡ false = ground arith in
      rw (poll_no_error d, ready)
        (refl, poll_mode k d mode, ground (arith, poll_delay d), poll_sector d)

  pub ata_wait_drq_lem :
      (k : Mode) (d : D)
      → In k d
      → delay d ≡ 0
      → bit_and (bus.inb ata_status d).0 sr_drq ≢ 0
      → ((ata_wait_drq bus d).0 ≡ 0)
        × In k (ata_wait_drq bus d).1
        × (delay (ata_wait_drq bus d).1 ≡ 0)
        × SameSectors d (ata_wait_drq bus d).1
  unfolding ata_wait_drq
  ata_wait_drq_lem k d mode free drq = wait_drq_lem ata_timeout k d mode free drq (omega arith)

  -- The words from `i` on go to sector `a`.
  pub write_words_lem :
      (n i a buffer : ℕ) (m : Memory) (d : D)
      → n + i ≡ 256
      → 0 < n
      → In (writing a i) d
      → delay d ≡ 0
      → In idle (write_words bus n i buffer m d)
        × ((b j : ℕ)
            → sector (write_words bus n i buffer m d) b j
              ≡ (if b == a && (leb i j && ltb j 256) then word_at buffer j m else sector d b j))
  unfolding write_words
  write_words_lem zero i a buffer m d h pos mode free = elim pos [ ]
  write_words_lem (suc zero) i a buffer m d h pos mode free =
      let last : (i + 1 == 256) ≡ true = ground arith in
      let next = word_write_next a i (word_at buffer i m) d mode free in
      (
        rw last at next,
        λ b j. ground (
          arith,
          word_write_sector a i (word_at buffer i m) d mode free b j,
          word_at_cong buffer i j m,
        ),
      )
  write_words_lem (suc (suc n)) i a buffer m d h pos mode free =
      let more : (i + 1 == 256) ≡ false = ground arith in
      let d' = bus.outw ata_data (word_at buffer i m) d in
      let next : In (writing a (i + 1)) d' =
        rw more at (word_write_next a i (word_at buffer i m) d mode free) in
      let free' = word_write_delay a i (word_at buffer i m) d mode free (omega arith) in
      let (end, words) =
        write_words_lem (suc n) (i + 1) a buffer m d' (omega arith) (omega arith) next free' in
      (
        end,
        λ b j. ground (
          arith,
          words b j,
          word_write_sector a i (word_at buffer i m) d mode free b j,
          word_at_cong buffer i j m,
        ),
      )

  -- Byte `k` of the 512 of a sector.
  abbrev pub sector_byte : D → (a k : ℕ) → ℕ
  sector_byte d a k =
      if k % 2 == 0 then sector d a (k / 2) % 2 ^ 8 else sector d a (k / 2) / 2 ^ 8 % 2 ^ 8

  sector_cong : (d : D) (a i j : ℕ) → j ≡ i → sector d a j ≡ sector d a i
  sector_cong d a i j e = ap (λ k. sector d a k) e

  stored_byte :
      (buffer i a q : ℕ) (m : Memory) (d : D)
      → store_word buffer i (sector d a i) m q ≡ (
          if leb (buffer + i * 2) q && ltb q (buffer + i * 2 + 2)
          then sector_byte d a (q - buffer)
          else m q)
  unfolding store_word
  stored_byte buffer i a q m d = ground (arith, sector_cong d a i ((q - buffer) / 2))

  pub sector_byte_same :
      (d d' : D) (a k : ℕ) → SameSectors d d' → sector_byte d' a k ≡ sector_byte d a k
  sector_byte_same d d' a k same = rw (same a (k / 2)) refl

  -- The words from `i` on come from sector `a`.
  pub read_words_lem :
      (n i a buffer : ℕ) (m : Memory) (d : D)
      → n + i ≡ 256
      → In (if i == 256 then idle else reading a i) d
      → delay d ≡ 0
      → In idle (read_words bus n i buffer m d).1
        × SameSectors d (read_words bus n i buffer m d).1
        × ((q : ℕ)
            → (read_words bus n i buffer m d).0 q ≡ (
                if leb (buffer + i * 2) q && ltb q (buffer + 512)
                then sector_byte d a (q - buffer)
                else m q))
  unfolding read_words
  read_words_lem zero i a buffer m d h mode free =
      let all : (i == 256) ≡ true = ground arith in (rw all at mode, λ b j. refl, λ q. ground arith)
  read_words_lem (suc n) i a buffer m d h mode free =
      let more : (i == 256) ≡ false = ground arith in
      let mode' : In (reading a i) d = rw more at mode in
      let d' = (bus.inw ata_data d).1 in
      let same = word_read_sector d in
      let word = word_read a i d mode' free in
      let (end, rest, stored) =
        read_words_lem n (i + 1) a buffer (store_word buffer i (bus.inw ata_data d).0 m) d'
          (omega arith) (word_read_next a i d mode' free) (word_read_delay a i d mode' free) in
      (
        end,
        λ b j. rest b j ∙ same b j,
        λ q.
            stored q
            ∙ rw (word, sector_byte_same d d' a (q - buffer) same)
                (ground (arith, stored_byte buffer i a q m d)),
      )
