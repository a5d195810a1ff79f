-- ===== src/Board/Protocol.antt =====
-- What the I2C controller of rp1_chainboot_poc/src/bcm2712_i2c.rs is told during a write: on a device
-- that answers as it likes and remembers what was written, the registers written are those of the
-- protocol, in its order.
use rp1_bootloader_po_c.Board.I2c.{s_txd}
use mathlib.Core.Path.{subst}
use rp1_bootloader_po_c.Board.I2c.{poll_limit}
use rp1_bootloader_po_c.Board.I2c.{wait_for}
use rp1_bootloader_po_c.Board.I2c.{wait_done}
use rp1_bootloader_po_c.Base.{◌≤◌}
use rp1_bootloader_po_c.Board.I2c.{send_loop}
use rp1_bootloader_po_c.Board.I2c.{send_start}
use rp1_bootloader_po_c.Board.I2c.{transfer_write}
use rp1_bootloader_po_c.Board.I2c.{s_ta}
use rp1_bootloader_po_c.Board.I2c.{s_done}
use rp1_bootloader_po_c.Board.I2c.{c_reg}
use rp1_bootloader_po_c.Board.I2c.{s_err}
use rp1_bootloader_po_c.Board.I2c.{dlen_reg}
use rp1_bootloader_po_c.Board.I2c.{u32_max}
use rp1_bootloader_po_c.Board.I2c.{s_clkt}
use rp1_bootloader_po_c.Board.I2c.{write32}
use rp1_bootloader_po_c.Board.I2c.{or_log}
use rp1_bootloader_po_c.Board.I2c.{i2c3_fallback_base}
use rp1_bootloader_po_c.Board.I2c.{fifo_reg}
use rp1_bootloader_po_c.Board.I2c.{a_reg}
use rp1_bootloader_po_c.Board.I2c.{s_reg}
use rp1_bootloader_po_c.Board.I2c.{for_loop}
use rp1_bootloader_po_c.Board.I2c.{check_error}
use rp1_bootloader_po_c.Board.I2c.{done_loop}
use rp1_bootloader_po_c.Board.I2c.{read32}
use rp1_bootloader_po_c.Base.{
  ℕ, zero, suc, ◌+◌, ◌≡◌, refl, sym, ap, ◌∙◌, false, ◌&&◌, not, Result, BootError, ok, err, is_ok,
  List, [], ◌∷◌, ◌++◌, append-nil, append_assoc, bit_and, bit_or, length, take, ltb, Bool-cases,
  inl, inr, ◌⊎◌, arith,
}
use rp1_bootloader_po_c.Base.{◌==◌}
use rp1_bootloader_po_c.Board.{Mmio}

-- The writes so far, and the number of reads.
pub record Traced : Type 0 where
  pub writes : List (ℕ × ℕ)
  pub reads : ℕ

-- What a read returns depends on all that was written and on how often was read.
unfoldable pub traced : (List (ℕ × ℕ) → ℕ → ℕ → ℕ) → Mmio Traced
traced answer = record {
  read = λ s a. (answer s.writes s.reads a, record s { reads = s.reads + 1 });
  write = λ s a v. record s { writes = s.writes ++ ((a, v) ∷ []) };
}

abbrev pub reg : ℕ → ℕ
reg off = i2c3_fallback_base + off

unfoldable pub fifo_writes : List ℕ → List (ℕ × ℕ)
fifo_writes [] = []
fifo_writes (b ∷ bs) = (reg fifo_reg, b) ∷ fifo_writes bs

unfoldable pub start_writes : ℕ → ℕ → List (ℕ × ℕ)
start_writes addr len =
    (reg a_reg, addr)
    ∷ (reg dlen_reg, len)
    ∷ (reg s_reg, u32_max)
    ∷ (reg c_reg, 0x8030)
    ∷ (reg c_reg, 0x8080)
    ∷ []

abbrev pub done_writes : List (ℕ × ℕ)
done_writes = (reg s_reg, u32_max) ∷ []

-- The outcome of sending `bytes` when `old` has been written: all of them and the acknowledgement of
-- the status, or an error after some of them.
abbrev pub IsSent : List ℕ → List (ℕ × ℕ) → Result BootError (Unit {0}) × Traced → Type 0
IsSent bytes old (r, s) =
    ((r ≡ ok tt) × (s.writes ≡ old ++ (fifo_writes bytes ++ done_writes)))
    ⊎ ((is_ok r ≡ false) × ((n : ℕ) × (s.writes ≡ old ++ fifo_writes (take n bytes))))

moved_IsSent :
    (bytes : List ℕ) {a b : List (ℕ × ℕ)} (r : Result BootError (Unit {0}) × Traced)
    → a ≡ b
    → IsSent bytes a r
    → IsSent bytes b r
moved_IsSent bytes r e = subst (λ old. IsSent bytes old r) e

module _ (answer : List (ℕ × ℕ) → ℕ → ℕ → ℕ) where
  for_loop-writes :
      (k mask : ℕ) (s : Traced) → (for_loop (traced answer) k mask s).1.writes ≡ s.writes
  unfolding for_loop read32 traced
  for_loop-writes zero mask s = refl
  for_loop-writes (suc k) mask s =
      elim (Bool-cases (bit_and (answer s.writes s.reads (reg s_reg)) mask == 0)) [
        | inl h ↦ rw h (for_loop-writes k mask (record s { reads = s.reads + 1 }))
        | inr h ↦ rw h refl
      ]

  check_error-writes : (s : Traced) → (check_error (traced answer) s).1.writes ≡ s.writes
  unfolding check_error read32 traced
  check_error-writes s =
      elim (Bool-cases (bit_and (answer s.writes s.reads (reg s_reg)) s_clkt == 0)) [
        | inl h ↦ elim (Bool-cases (bit_and (answer s.writes s.reads (reg s_reg)) s_err == 0)) [
          | inl k ↦ rw (h, k) refl
          | inr k ↦ rw (h, k) refl
        ]
        | inr h ↦ rw h refl
      ]

  done_loop-IsSent : (k : ℕ) (s : Traced) → IsSent [] s.writes (done_loop (traced answer) k s)
  unfolding done_loop read32 write32 traced fifo_writes
  done_loop-IsSent zero s = inr (refl, (0, sym (append-nil s.writes)))
  done_loop-IsSent (suc k) s =
      let status = answer s.writes s.reads (reg s_reg) in
      elim (Bool-cases (bit_and status (bit_or s_err s_clkt) == 0)) [
        | inl h ↦ elim (Bool-cases (not (bit_and status s_done == 0) && bit_and status s_ta == 0)) [
          | inl d ↦ rw (h, d) (inl (refl, refl))
          | inr d ↦ rw (h, d) (done_loop-IsSent k (record s { reads = s.reads + 1 }))
        ]
        | inr h ↦ rw h (inr (refl, (0, sym (append-nil s.writes))))
      ]

  -- A step that writes nothing, before one that does.
  or_log-IsSent :
      (bytes : List ℕ) (old : List (ℕ × ℕ)) (r : Result BootError (Unit {0}) × Traced)
      (next : Traced → Result BootError (Unit {0}) × Traced)
      → r.1.writes ≡ old
      → ((s : Traced) → s.writes ≡ old → IsSent bytes old (next s))
      → IsSent bytes old (or_log (traced answer) r next)
  unfolding read32 traced fifo_writes
  or_log-IsSent bytes old (ok t, s) next e h = h s e
  or_log-IsSent bytes old (err t, s) next e h = inr (refl, (0, e ∙ sym (append-nil old)))

  done_log-IsSent :
      (bytes : List ℕ) (old : List (ℕ × ℕ)) (r : Result BootError (Unit {0}) × Traced)
      → IsSent bytes old r
      → IsSent bytes old (or_log (traced answer) r (λ t. (ok tt, t)))
  unfolding read32 traced
  done_log-IsSent bytes old (ok tt, s) h = h
  done_log-IsSent bytes old (err t, s) h = h

  byte-IsSent :
      (b : ℕ) (bs : List ℕ) (old : List (ℕ × ℕ)) (r : Result BootError (Unit {0}) × Traced)
      → IsSent bs (old ++ ((reg fifo_reg, b) ∷ [])) r
      → IsSent (b ∷ bs) old r
  unfolding fifo_writes
  byte-IsSent b bs old (t, s) (inl (good, e)) =
      inl (good, e ∙ append_assoc old ((reg fifo_reg, b) ∷ []) (fifo_writes bs ++ done_writes))
  byte-IsSent b bs old (t, s) (inr (bad, (n, e))) =
      inr (bad, (suc n, e ∙ append_assoc old ((reg fifo_reg, b) ∷ []) (fifo_writes (take n bs))))

  send_loop-IsSent :
      (bytes : List ℕ) (s : Traced) → IsSent bytes s.writes (send_loop (traced answer) bytes s)
  unfolding send_loop wait_done wait_for write32 traced
  send_loop-IsSent [] s = done_log-IsSent [] s.writes _ (done_loop-IsSent poll_limit s)
  send_loop-IsSent (b ∷ bs) s =
      let send =
        λ (u : Traced). send_loop (traced answer) bs (write32 (traced answer) fifo_reg b u) in
      let mask = bit_or (bit_or s_txd s_err) s_clkt in
      or_log-IsSent (b ∷ bs) s.writes (for_loop (traced answer) poll_limit mask s)
        (λ t. or_log (traced answer) (check_error (traced answer) t) send)
        (for_loop-writes poll_limit mask s)
        (λ t e.
          or_log-IsSent (b ∷ bs) s.writes (check_error (traced answer) t) send
            (check_error-writes t ∙ e)
            (λ u f. byte-IsSent b bs s.writes (send u) (
              moved_IsSent bs (send u)
                (ap (λ (old : List (ℕ × ℕ)). old ++ ((reg fifo_reg, b) ∷ [])) f)
                (send_loop-IsSent bs (write32 (traced answer) fifo_reg b u)))))

  send_start-writes :
      (addr len : ℕ) (s : Traced)
      → (send_start (traced answer) addr len s).writes ≡ s.writes ++ start_writes addr len
  unfolding send_start write32 traced start_writes
  send_start-writes addr len s = simp append_assoc refl

  -- A write that is not too long sets up the transfer and puts the bytes into the FIFO in order: all
  -- of them, followed by the acknowledgement of the status, when it succeeds, and the first few when
  -- it fails. It writes nothing else.
  pub transfer_write-IsSent :
      (addr : ℕ) (bytes : List ℕ) (s : Traced)
      → length bytes ≤ 0xffff
      → IsSent bytes
          (s.writes ++ start_writes addr (length bytes))
          (transfer_write (traced answer) addr bytes s)
  unfolding transfer_write
  transfer_write-IsSent addr bytes s h =
      let fits : ltb 0xffff (length bytes) ≡ false = ground arith in
      let sent = send_loop-IsSent bytes (send_start (traced answer) addr (length bytes) s) in
      rw fits (
        moved_IsSent bytes
          (send_loop (traced answer) bytes (send_start (traced answer) addr (length bytes) s))
          (send_start-writes addr (length bytes) s) sent)
