-- ===== src/Linux/Cache.antt =====
-- Cleaning a range cleans the cache line of every address in it.
use rp1_bootloader_po_c.Base.{
  ℕ, zero, suc, ◌+◌, ◌-◌, ◌*◌, ◌/◌, ◌%◌, ◌≤◌, ◌<◌, ◌≡◌, bit_and, List, All, refl, true, arith, ltb,
  ◌==◌, inl, inr, Bool-cases,
}
use mathlib.Core.List.{Memᴰ}
use rp1_bootloader_po_c.Base.Bits.{bit_and-high_mask}
use rp1_bootloader_po_c.Base.Words.{usize_mod}
use rp1_bootloader_po_c.Linux.{clean_loop, clean_dcache_poc}

-- The list holds the start of the cache line that `a` lies in.
pub record IsCleaned (a : ℕ) (lines : List ℕ) : Type 0 where
  pub line : ℕ
  pub listed : Memᴰ line lines
  pub start : line ≤ a
  pub end : a < line + 64

-- Every list entry is the start of a cache line.
abbrev pub AllAligned : List ℕ → Type 0
AllAligned = All (λ p. p % 64 ≡ 0)

clean_loop-IsCleaned :
    (fuel p end a : ℕ) → end ≤ p + fuel * 64 → p ≤ a → a < end → IsCleaned a (clean_loop fuel p end)
unfolding clean_loop
clean_loop-IsCleaned zero p end a h k l = absurd (omega arith)
clean_loop-IsCleaned (suc fuel) p end a h k l =
    let more : ltb p end ≡ true = ground arith in
    rw more (elim (Bool-cases (ltb a (p + 64))) [
      | inl here ↦ record { line = p; listed = Memᴰ.head refl; start = k; end = ground arith }
      | inr later ↦
          let c = clean_loop-IsCleaned fuel (p + 64) end a (omega arith) (ground arith) l in
          record { line = c.line; listed = Memᴰ.tail c.listed; start = c.start; end = c.end }
    ])

clean_loop-AllAligned : (fuel p end : ℕ) → p % 64 ≡ 0 → AllAligned (clean_loop fuel p end)
unfolding clean_loop
clean_loop-AllAligned zero p end h = tt
clean_loop-AllAligned (suc fuel) p end h = elim (Bool-cases (ltb p end)) [
  | inl more ↦ rw more (h, clean_loop-AllAligned fuel (p + 64) end (omega arith))
  | inr done ↦ rw done tt
]

-- Cleaning a range that does not wrap around cleans the cache line of every address in it, and
-- only issues line starts.
pub clean_dcache_poc-IsCleaned :
    (addr len : ℕ)
    → addr + len < usize_mod - 64
    → ((a : ℕ) → addr ≤ a → a < addr + len → IsCleaned a (clean_dcache_poc addr len))
      × AllAligned (clean_dcache_poc addr len)
unfolding clean_dcache_poc
clean_dcache_poc-IsCleaned addr len h = elim (Bool-cases (len == 0)) [
  | inl none ↦ rw none (λ a k l. absurd (ground arith), tt)
  | inr some ↦
      let low : bit_and addr (usize_mod - 64) ≡ addr / 64 * 64 =
        bit_and-high_mask 6 58 addr (omega arith) in
      rw (some, low)
        (
          λ a k l.
              clean_loop-IsCleaned (len / 64 + 2) (addr / 64 * 64) _ a (omega arith) (omega arith)
                (omega arith),
          clean_loop-AllAligned (len / 64 + 2) (addr / 64 * 64) _ (omega arith),
        )
]
