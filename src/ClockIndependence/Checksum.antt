-- ===== src/ClockIndependence/Checksum.antt =====
-- The checksum of rp1_chainboot_poc/src/rp1_clock_independence.rs tells records apart that differ in
-- one word: each step of its loop can be undone.
use rp1_bootloader_po_c.Base.{false}
use rp1_bootloader_po_c.Base.{==_iff}
use rp1_bootloader_po_c.Base.{inr}
use rp1_bootloader_po_c.Base.{inl}
use rp1_bootloader_po_c.Base.{Bool-cases}
use rp1_bootloader_po_c.Base.{◌∙◌}
use rp1_bootloader_po_c.Base.{
  ℕ, zero, suc, ◌+◌, ◌*◌, ◌%◌, ◌^◌, ◌≤◌, ◌<◌, ◌≡◌, ◌≢◌, sym, ap, bit_xor, if◌then◌else◌, arith,
}
use rp1_bootloader_po_c.Base.{◌==◌}
use rp1_bootloader_po_c.Base.Bits.{bit_xor-lt, bit_xor_cancel, bit_xor_comm}
use rp1_bootloader_po_c.ClockIndependence.{
  Words, checksum_seed, checksum_mul, rotate_left, mix, checksum_loop, checksum,
}

rotate_injective : (x y : ℕ) → x < 2 ^ 32 → y < 2 ^ 32 → rotate_left x 5 ≡ rotate_left y 5 → x ≡ y
unfolding rotate_left
rotate_injective x y p q e = omega arith

rotate_lt : (x : ℕ) → x < 2 ^ 32 → rotate_left x 5 < 2 ^ 32
unfolding rotate_left
rotate_lt x p = omega arith

-- The multiplier is odd, and so has an inverse.
mul_injective :
    (x y : ℕ)
    → x < 2 ^ 32
    → y < 2 ^ 32
    → x * checksum_mul % 2 ^ 32 ≡ y * checksum_mul % 2 ^ 32
    → x ≡ y
mul_injective x y p q e = omega arith

mix_lt : (v w : ℕ) → mix v w < 2 ^ 32
unfolding mix
mix_lt v w = omega arith

mix_injective :
    (v v2 w w2 : ℕ)
    → v < 2 ^ 32
    → v2 < 2 ^ 32
    → w < 2 ^ 32
    → w2 < 2 ^ 32
    → mix v w ≡ mix v2 w2
    → bit_xor v w ≡ bit_xor v2 w2
unfolding mix
mix_injective v v2 w w2 p p2 q q2 e =
    let x = bit_xor-lt 32 v w p q in
    let x2 = bit_xor-lt 32 v2 w2 p2 q2 in
    rotate_injective _ _ x x2 (mul_injective _ _ (rotate_lt _ x) (rotate_lt _ x2) e)

mix_value : (v v2 w : ℕ) → v < 2 ^ 32 → v2 < 2 ^ 32 → w < 2 ^ 32 → mix v w ≡ mix v2 w → v ≡ v2
mix_value v v2 w p p2 q e = bit_xor_cancel v v2 w (mix_injective v v2 w w p p2 q q e)

mix_word : (v w w2 : ℕ) → v < 2 ^ 32 → w < 2 ^ 32 → w2 < 2 ^ 32 → mix v w ≡ mix v w2 → w ≡ w2
mix_word v w w2 p q q2 e =
    bit_xor_cancel w w2 v (bit_xor_comm w v ∙ mix_injective v v w w2 p p q q2 e ∙ bit_xor_comm v w2)

step_lt : (index v w : ℕ) → v < 2 ^ 32 → (if index == 7 then v else mix v w) < 2 ^ 32
step_lt index v w p = ground (arith, mix_lt v w)

step_value :
    (index v v2 w : ℕ)
    → v < 2 ^ 32
    → v2 < 2 ^ 32
    → w < 2 ^ 32
    → (if index == 7 then v else mix v w) ≡ (if index == 7 then v2 else mix v2 w)
    → v ≡ v2
step_value index v v2 w p p2 q e = ground (arith, mix_value v v2 w p p2 q)

module _ (words words2 : Words) (u32 : (i : ℕ) → words i < 2 ^ 32)
    (u32_2 : (i : ℕ) → words2 i < 2 ^ 32) where
  -- Over equal words the loop keeps two values apart.
  loop_value :
      (k index v v2 : ℕ)
      → v < 2 ^ 32
      → v2 < 2 ^ 32
      → ((i : ℕ) → index ≤ i → words i ≡ words2 i)
      → checksum_loop words k index v ≡ checksum_loop words2 k index v2
      → v ≡ v2
  unfolding checksum_loop
  loop_value zero index v v2 p p2 same e = e
  loop_value (suc k) index v v2 p p2 same e =
      let now =
        loop_value k (index + 1) _ _ (step_lt index v (words index) p)
          (step_lt index v2 (words2 index) p2) (λ i l. same i (omega arith)) e in
      step_value index v v2 (words index) p p2 (u32 index)
        (now ∙ ap (λ (w : ℕ). if index == 7 then v2 else mix v2 w) (sym (same index (omega arith))))

  -- At the word that differs.
  loop_here :
      (at k v : ℕ)
      → v < 2 ^ 32
      → at ≢ 7
      → ((i : ℕ) → at < i → words i ≡ words2 i)
      → checksum_loop words (suc k) at v ≡ checksum_loop words2 (suc k) at v
      → words at ≡ words2 at
  unfolding checksum_loop
  loop_here at k v p seven same e =
      let counted : (at == 7) ≡ false = ground arith in
      let values =
        loop_value k (at + 1) _ _ (step_lt at v (words at) p) (step_lt at v (words2 at) p)
          (λ i l. same i (omega arith)) e in
      mix_word v _ _ p (u32 at) (u32_2 at) (rw counted at values)

  -- One word, at `at`, may differ.
  loop_word :
      (at k index v : ℕ)
      → v < 2 ^ 32
      → at ≢ 7
      → index ≤ at
      → at < index + k
      → ((i : ℕ) → i ≢ at → words i ≡ words2 i)
      → checksum_loop words k index v ≡ checksum_loop words2 k index v
      → words at ≡ words2 at
  unfolding checksum_loop
  loop_word at zero index v p seven low high same e = absurd (omega arith)
  loop_word at (suc k) index v p seven low high same e = elim (Bool-cases (index == at)) [
    | inl test ↦
        let here : index ≡ at = (==_iff _ _).0 test in
        loop_here at k v p seven (λ i l. same i (λ q. absurd (omega arith))) (rw here at e)
    | inr test ↦
        let apart : index ≢ at = ground arith in
        let now = sym (same index apart) in
        loop_word at k (index + 1) _ (step_lt index v (words index) p) seven (omega arith)
          (omega arith) same (rw now at e)
  ]

-- Two records of 32-bit words that differ in one word before the checksum, other than the
-- completion word, have different checksums.
pub checksum_detects :
    (words words2 : Words) (at : ℕ)
    → ((i : ℕ) → words i < 2 ^ 32)
    → ((i : ℕ) → words2 i < 2 ^ 32)
    → at < 159
    → at ≢ 7
    → ((i : ℕ) → i ≢ at → words i ≡ words2 i)
    → words at ≢ words2 at
    → checksum words ≢ checksum words2
unfolding checksum
checksum_detects words words2 at u32 u32_2 inside seven same differ e = differ (
    loop_word words words2 u32 u32_2 at 159 0 checksum_seed (omega arith) seven (omega arith)
      (omega arith) same e)
