-- ===== src/Memory/Vmm/Words.antt =====
-- The words that a translation reads, and which of them a new page table changes.
use munux.Common.{
  ℕ, zero, suc, ◌+◌, ◌*◌, ◌/◌, ◌%◌, ◌^◌, ◌≤◌, ◌<◌, ◌≡◌, ◌≢◌, refl, ap, ◌∙◌, ◌⊎◌, inl, inr, bit_and,
  bit_or, ◌==◌, arith, Bool-cases, false,
}
use munux.Common.Memory.{Memory, update, update_ne, update_self}
use munux.Memory.Pmm.{alloc_frame}
use munux.Memory.Vmm.{
  Vmm, pd_index, pt_index, entry, clear_entries, table_of, has_table, new_table,
  get_physical_address,
}
use munux.Memory.Vmm.Translate.{clear_entries_lem}
use munux.Common.Masks.{and-index}

-- Tables at different page boundaries share no entry.
pub entry_ne :
    (a b i j : ℕ)
    → a % 4096 ≡ 0
    → b % 4096 ≡ 0
    → i < 1024
    → j < 1024
    → (a ≢ b) ⊎ (i ≢ j)
    → entry a i ≢ entry b j
entry_ne a b i j ha hb hi hj h = ground arith

pub pt_index_lt : (v : ℕ) → pt_index v < 1024
pt_index_lt v = omega (arith, and-index (v / 2 ^ 12))

pub pd_index_lt : (v : ℕ) → v < 2 ^ 32 → pd_index v < 1024
pd_index_lt v h = omega arith

-- The translation of `w` depends on two words.
pub same_words :
    (w : ℕ) (s t : Vmm)
    → t.current_directory ≡ s.current_directory
    → t.memory (entry s.current_directory (pd_index w))
      ≡ s.memory (entry s.current_directory (pd_index w))
    → (has_table w s ≢ 0
        → t.memory (entry (table_of w s) (pt_index w))
          ≡ s.memory (entry (table_of w s) (pt_index w)))
    → get_physical_address w t ≡ get_physical_address w s
unfolding get_physical_address table_of
same_words w s t dir top page = elim (Bool-cases (has_table w s == 0)) [
  | inl absent ↦ rw (dir, top, absent) refl
  | inr there ↦ rw (dir, top, there, page (ground arith)) refl
]

pub clear_entries_zero :
    (n i table k : ℕ) (m : Memory)
    → i ≤ k
    → k < i + n
    → clear_entries n i table m (entry table k) ≡ 0
unfolding clear_entries
clear_entries_zero zero i table k m lo hi = absurd (omega arith)
clear_entries_zero (suc n) i table k m lo hi = elim (Bool-cases (k == i)) [
  | inl first ↦
      let e : k ≡ i = ground arith in
      rw e (
        clear_entries_lem n (i + 1) table (update m (entry table i) 0) (entry table i)
          (inl (omega arith))
        ∙ update_self m (entry table i) 0)
  | inr later ↦
      clear_entries_zero n (i + 1) table k (update m (entry table i) 0) (ground arith) (omega arith)
]

-- A word of another page is as before, but for the entry of the directory.
pub new_table-word :
    (v flags table i : ℕ) (s : Vmm)
    → i < 1024
    → table % 4096 ≡ 0
    → (alloc_frame s.frames).0 % 4096 ≡ 0
    → (alloc_frame s.frames).0 ≢ table
    → entry table i ≢ entry s.current_directory (pd_index v)
    → (new_table v flags s).memory (entry table i) ≡ s.memory (entry table i)
unfolding new_table
new_table-word v flags table i s hi ht ha ne off =
    let a = (alloc_frame s.frames).0 in
    let e = entry s.current_directory (pd_index v) in
    let word = bit_or (bit_or (bit_or a 1) 2) flags in
    let out : (entry table i < a + 4 * 0) ⊎ (a + 4 * (0 + 1024) ≤ entry table i) = ground arith in
    clear_entries_lem 1024 0 a (update s.memory e word) (entry table i) out
    ∙ update_ne s.memory e word (entry table i) off

-- The table depends on the entry of the directory alone.
pub same_table :
    (v w : ℕ) (s : Vmm)
    → pd_index v ≡ pd_index w
    → (table_of v s ≡ table_of w s) × (has_table v s ≡ has_table w s)
unfolding table_of
same_table v w s same = (
  ap (λ i. bit_and (s.memory (entry s.current_directory i)) 0xffff_f000) same,
  ap (λ i. bit_and (s.memory (entry s.current_directory i)) 1) same,
)

pub no_table : (w : ℕ) (s : Vmm) → has_table w s ≡ 0 → get_physical_address w s ≡ 0
unfolding get_physical_address
no_table w s absent = rw absent refl

pub no_page :
    (w table : ℕ) (s : Vmm)
    → has_table w s ≢ 0
    → table_of w s ≡ table
    → s.memory (entry table (pt_index w)) ≡ 0
    → get_physical_address w s ≡ 0
unfolding get_physical_address
no_page w table s there here empty =
    let present : (has_table w s == 0) ≡ false = ground arith in rw (present, here, empty) refl
