-- ===== src/Config/Owned.antt =====
-- The owner lines of the configuration give no device to two sides.
use rp1_bootloader_po_c.Base.{refl, ==_iff}
use rp1_bootloader_po_c.Base.{
  ℕ, ◌+◌, ◌≤◌, ◌≡◌, ap, ◌==◌, arith, List, Bool-cases, inl, inr, ok, ok_injective, eq_bytes,
  bit_and, bit_or,
}
use rp1_bootloader_po_c.Base.Bits.{
  test_bit, test_bit-bit_and, test_bit-bit_or, test_bit-le, test_bit-zero,
}
use rp1_bootloader_po_c.Policy.Abi.{Rp1Abi}
use rp1_bootloader_po_c.Config.{Rp1Config, set_owner}
use rp1_bootloader_po_c.Config.Words.{word_rp1, word_linux, word_disabled}

-- How many sides the configuration gives bit `n` to.
abbrev pub sides : Rp1Config → ℕ → ℕ
sides c n = test_bit c.owner_rp1 n + test_bit c.owner_linux n + test_bit c.owner_disabled n

-- Adding a mask that no side has yet to one of the three words.
add_mask :
    (a b c mask n : ℕ)
    → bit_and (bit_or (bit_or a b) c) mask ≡ 0
    → test_bit a n + test_bit b n + test_bit c n ≤ 1
    → (test_bit (bit_or a mask) n + test_bit b n + test_bit c n ≤ 1)
      × (test_bit a n + test_bit (bit_or b mask) n + test_bit c n ≤ 1)
      × (test_bit a n + test_bit b n + test_bit (bit_or c mask) n ≤ 1)
add_mask a b c mask n e h =
    let z = ap (λ x. test_bit x n) e in
    let z0 = test_bit-zero n in
    let z1 = test_bit-bit_and n (bit_or (bit_or a b) c) mask in
    let z2 = test_bit-bit_or n (bit_or a b) c in
    let z3 = test_bit-bit_or n a b in
    let small = test_bit-le n mask in
    (
      omega (arith, test_bit-bit_or n a mask),
      omega (arith, test_bit-bit_or n b mask),
      omega (arith, test_bit-bit_or n c mask),
    )

-- A line that gives a device to a side leaves every bit that had one side at most with one side at
-- most, and leaves every field of the configuration but the three owner words alone.
pub set_owner-keeps :
    (abi : Rp1Abi) (config next : Rp1Config) (dev : ℕ) (side : List ℕ) (n : ℕ)
    → sides config n ≤ 1
    → set_owner abi config dev side ≡ ok next
    → (sides next n ≤ 1)
      × (next ≡ record config {
        owner_rp1 = next.owner_rp1;
        owner_linux = next.owner_linux;
        owner_disabled = next.owner_disabled;
      })
unfolding set_owner
set_owner-keeps abi config next dev side n once e =
    elim (Bool-cases (
      bit_and (bit_or (bit_or config.owner_rp1 config.owner_linux) config.owner_disabled)
        (abi.bit dev)
      == 0)) [
        | inr taken ↦ let no = rw taken at e in absurd cc
        | inl free ↦
            let zero =
              (==_iff
                  (bit_and
                    (bit_or (bit_or config.owner_rp1 config.owner_linux) config.owner_disabled)
                    (abi.bit dev))
                  0).0
                free in
            let (x, y, z) =
              add_mask config.owner_rp1 config.owner_linux config.owner_disabled (abi.bit dev) n
                zero once in
            elim (Bool-cases (eq_bytes side word_rp1)) [
              | inl t ↦ rw (← ok_injective (rw (free, t) at e)) (x, refl)
              | inr f ↦ elim (Bool-cases (eq_bytes side word_linux)) [
                | inl t ↦ rw (← ok_injective (rw (free, f, t) at e)) (y, refl)
                | inr g ↦ elim (Bool-cases (eq_bytes side word_disabled)) [
                  | inl t ↦ rw (← ok_injective (rw (free, f, g, t) at e)) (z, refl)
                  | inr k ↦ let no = rw (free, f, g, k) at e in absurd cc
                ]
              ]
            ]
      ]
