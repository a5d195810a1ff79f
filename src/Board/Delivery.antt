-- ===== src/Board/Delivery.antt =====
-- When `transfer_read` of rp1_chainboot_poc/src/bcm2712_i2c.rs ends with all its bytes: on a controller
-- that delivers what was asked of it.
use rp1_bootloader_po_c.Base.{◌%◌}
use rp1_bootloader_po_c.Base.{
  ℕ, zero, suc, ◌+◌, ◌≤◌, ◌<◌, ◌≡◌, ◌≢◌, ◌∙◌, ◌⊎◌, refl, sym, ap, false, ◌==◌, Bool-cases, inl, inr,
  Result, BootError, ok, err, ok_injective, i2c_read, List, [], ◌∷◌, ◌++◌, length, length-append,
  Option, some, ltb, bit_and, bit_or, arith,
}
use rp1_bootloader_po_c.Base.Bits.{bit_and-bit_or}
use rp1_bootloader_po_c.Board.{Mmio}
use rp1_bootloader_po_c.Board.I2c.{
  s_reg, fifo_reg, s_rxd, s_done, s_err, s_clkt, poll_limit, Outcome, read32, for_loop, wait_for,
  check_error, wait_done, ready_to_read, drain_fifo, finish_read, receive_loop, receive_start,
  then_read, transfer_read, or_log,
}

-- The status bits that a read of the status does not clear.
pub data IsSticky : ℕ → Type 0 where
  data_ready : IsSticky s_rxd
  finished : IsSticky s_done
  refused : IsSticky s_err
  stretched : IsSticky s_clkt

abbrev status : {S : Type 0} → Mmio S → S → ℕ
status mmio s = (read32 mmio s_reg s).0

abbrev looked : {S : Type 0} → Mmio S → S → S
looked mmio s = (read32 mmio s_reg s).1

-- A controller on which `left` bytes are still to be read: looking at the status takes no byte and clears
-- no bit, a read of the FIFO that has data takes one byte, and the transfer is not done before all its
-- bytes are in the FIFO, unless it has failed.
pub record IsDelivering {S : Type 0} (mmio : Mmio S) (left : S → ℕ) : Type 0 where
  pub kept : (s : S) → left (read32 mmio s_reg s).1 ≡ left s
  pub sticky :
      (mask : ℕ) (s : S)
      → IsSticky mask
      → bit_and (read32 mmio s_reg s).0 mask ≢ 0
      → bit_and (read32 mmio s_reg (read32 mmio s_reg s).1).0 mask ≢ 0
  pub taken :
      (s : S)
      → bit_and (read32 mmio s_reg s).0 s_rxd ≢ 0
      → left s ≡ suc (left (read32 mmio fifo_reg (read32 mmio s_reg s).1).1)
  pub complete :
      (s : S)
      → 0 < left s
      → bit_and (read32 mmio s_reg s).0 s_done ≢ 0
      → bit_and (read32 mmio s_reg s).0 s_err ≡ 0
      → bit_and (read32 mmio s_reg s).0 s_clkt ≡ 0
      → bit_and (read32 mmio s_reg s).0 s_rxd ≢ 0

zero_cases : (x : ℕ) → (x ≡ 0) ⊎ (x ≢ 0)
zero_cases zero = inl refl
zero_cases (suc x) = inr (λ e. omega arith)

is_zero : (x : ℕ) → x ≢ 0 → (x == 0) ≡ false
is_zero x h = ground arith

-- The end of a transfer: an error, or as many bytes as were asked for.
abbrev pub IsWhole : {S : Type 0} → ℕ → Result BootError (List ℕ) × S → Type 0
IsWhole n outcome = (bytes : List ℕ) → outcome.0 ≡ ok bytes → length bytes ≡ n

module _ {S : Type 0} (mmio : Mmio S) (left : S → ℕ) (device : IsDelivering mmio left) where
  -- A wait that succeeds has looked at a state with a bit of the mask.
  for_loop-seen :
      (k mask : ℕ) (s t : S)
      → for_loop mmio k mask s ≡ (ok tt, t)
      → (u : S) × (t ≡ looked mmio u) × (bit_and (status mmio u) mask ≢ 0) × (left u ≡ left s)
  unfolding for_loop
  for_loop-seen zero mask s t e = absurd cc
  for_loop-seen (suc k) mask s t e = elim (zero_cases (bit_and (status mmio s) mask)) [
    | inr set ↦
        let found = is_zero _ set in
        (s, sym (ap (λ (o : Outcome mmio (Unit {0})). o.1) (rw found at e)), set, refl)
    | inl clear ↦
        let (u, is_t, set, same) = for_loop-seen k mask (looked mmio s) t (rw clear at e) in
        (u, is_t, set, same ∙ device.kept s)
  ]

  check_error-clear :
      (s t : S)
      → check_error mmio s ≡ (ok tt, t)
      → (t ≡ looked mmio s)
        × (bit_and (status mmio s) s_err ≡ 0)
        × (bit_and (status mmio s) s_clkt ≡ 0)
  unfolding check_error
  check_error-clear s t e = elim (zero_cases (bit_and (status mmio s) s_clkt)) [
    | inr set ↦ let no = rw (is_zero _ set) at e in absurd cc
    | inl clear ↦ elim (zero_cases (bit_and (status mmio s) s_err)) [
      | inr set ↦ let no = rw (clear, is_zero _ set) at e in absurd cc
      | inl fine ↦
          (sym (ap (λ (o : Outcome mmio (Unit {0})). o.1) (rw (clear, fine) at e)), fine, clear)
    ]
  ]

  -- Without an error, a state with data or with an end, and with bytes left, has data.
  has_data :
      (u : S)
      → 0 < left u
      → bit_and (status mmio u) (bit_or (bit_or (bit_or s_rxd s_done) s_err) s_clkt) ≢ 0
      → bit_and (status mmio (looked mmio u)) s_err ≡ 0
      → bit_and (status mmio (looked mmio u)) s_clkt ≡ 0
      → bit_and (status mmio (looked mmio u)) s_rxd ≢ 0
  has_data u some_left seen no_err no_clkt none_ready =
      let t = looked mmio u in
      elim (zero_cases (bit_and (status mmio u) s_rxd)) [
        | inr a ↦ device.sticky s_rxd u data_ready a none_ready
        | inl a ↦ elim (zero_cases (bit_and (status mmio u) s_done)) [
          | inr b ↦
              device.complete t (omega (arith, device.kept u)) (device.sticky s_done u finished b)
                no_err no_clkt none_ready
          | inl b ↦ elim (zero_cases (bit_and (status mmio u) s_err)) [
            | inr c ↦ device.sticky s_err u refused c no_err
            | inl c ↦ elim (zero_cases (bit_and (status mmio u) s_clkt)) [
              | inr d ↦ device.sticky s_clkt u stretched d no_clkt
              | inl d ↦ seen (
                  bit_and-bit_or (status mmio u) (bit_or (bit_or s_rxd s_done) s_err) s_clkt
                    (bit_and-bit_or (status mmio u) (bit_or s_rxd s_done) s_err
                      (bit_and-bit_or (status mmio u) s_rxd s_done a b) c)
                    d)
            ]
          ]
        ]
      ]

  or_log-ok :
      (r : Outcome mmio (Unit {0})) (next : S → Outcome mmio (Unit {0})) (t : S)
      → or_log mmio r next ≡ (ok tt, t)
      → (s : S) × (r ≡ (ok tt, s)) × (next s ≡ (ok tt, t))
  or_log-ok (ok tt, s) next t e = (s, refl, e)
  or_log-ok (err x, s) next t e = absurd cc

  -- The two checks in front of the FIFO pass only where it has data, and take none.
  ready_to_read-has_data :
      (s t : S)
      → 0 < left s
      → ready_to_read mmio s ≡ (ok tt, t)
      → (bit_and (status mmio t) s_rxd ≢ 0) × (left t ≡ left s)
  unfolding ready_to_read wait_for
  ready_to_read-has_data s t some_left e =
      let (t1, h1, e1) = or_log-ok _ _ t e in
      let (t2, h2, e2) = or_log-ok (check_error mmio t1) _ t e1 in
      let (u, is_t1, seen, same) = for_loop-seen poll_limit _ s t1 h1 in
      let (is_t2, no_err, no_clkt) = check_error-clear t1 t2 h2 in
      let is_t : t2 ≡ t = ap (λ (o : Outcome mmio (Unit {0})). o.1) e2 in
      let at : t ≡ looked mmio (looked mmio u) =
        sym is_t ∙ (is_t2 ∙ ap (λ (v : S). looked mmio v) is_t1) in
      let ready =
        has_data u (omega (arith, same)) seen (rw is_t1 at no_err) (rw is_t1 at no_clkt) in
      rw at (
        device.sticky s_rxd (looked mmio u) data_ready ready,
        device.kept (looked mmio u) ∙ (device.kept u ∙ same),
      )

  -- Emptying the FIFO counts the bytes that it takes.
  drain_fifo-counts :
      (k : ℕ) (got : List ℕ) (s : S)
      → left s ≡ k
      → (left (drain_fifo mmio k got s).1 ≡ (drain_fifo mmio k got s).0.0)
        × ((drain_fifo mmio k got s).0.0 + length (drain_fifo mmio k got s).0.1 ≡ k + length got)
        × ((drain_fifo mmio k got s).0.0 ≤ k)
  unfolding drain_fifo
  drain_fifo-counts zero got s h = (h, refl, omega arith)
  drain_fifo-counts (suc k) got s h = elim (zero_cases (bit_and (status mmio s) s_rxd)) [
    | inl empty ↦ rw empty (device.kept s ∙ h, refl, omega arith)
    | inr ready ↦
        let byte = (read32 mmio fifo_reg (looked mmio s)).0 % 256 in
        let one = device.taken s ready in
        let (a, b, c) =
          drain_fifo-counts k (got ++ (byte ∷ [])) (read32 mmio fifo_reg (looked mmio s)).1
            (omega (arith, one, h)) in
        rw (is_zero _ ready) (a, omega (arith, b, length-append got (byte ∷ [])), omega (arith, c))
  ]

  -- With data, it takes one byte at least.
  drain_fifo-moves :
      (k : ℕ) (got : List ℕ) (s : S)
      → left s ≡ suc k
      → bit_and (status mmio s) s_rxd ≢ 0
      → (drain_fifo mmio (suc k) got s).0.0 ≤ k
  unfolding drain_fifo
  drain_fifo-moves k got s h ready =
      let byte = (read32 mmio fifo_reg (looked mmio s)).0 % 256 in
      let one = device.taken s ready in
      let (a, b, c) =
        drain_fifo-counts k (got ++ (byte ∷ [])) (read32 mmio fifo_reg (looked mmio s)).1
          (omega (arith, one, h)) in
      rw (is_zero _ ready) c

  then_read-ends :
      (n : ℕ) (r : Outcome mmio (Unit {0})) (next : S → Option (Outcome mmio (List ℕ)))
      → ((t : S)
          → r ≡ (ok tt, t)
          → (outcome : Outcome mmio (List ℕ)) × (next t ≡ some outcome) × IsWhole n outcome)
      → (outcome : Outcome mmio (List ℕ)) × (then_read mmio r next ≡ some outcome)
        × IsWhole n outcome
  then_read-ends n (ok tt, t) next h = h t refl
  then_read-ends n (err e, t) next h = ((err e, t), refl, λ bytes k. absurd cc)

  finish_read-IsWhole :
      (got : List ℕ) (r : Outcome mmio (Unit {0})) → IsWhole (length got) (finish_read mmio got r)
  unfolding finish_read
  finish_read-IsWhole got (ok tt, s) bytes e =
      let same : got ≡ bytes = ok_injective e in rw same refl
  finish_read-IsWhole got (err x, s) bytes e = absurd cc

  receive_loop-ends :
      (fuel k : ℕ) (got : List ℕ) (s : S)
      → k < fuel
      → left s ≡ k
      → (outcome : Outcome mmio (List ℕ)) × (receive_loop mmio fuel k got s ≡ some outcome)
        × IsWhole (k + length got) outcome
  unfolding receive_loop
  receive_loop-ends zero k got s h c = absurd (omega arith)
  receive_loop-ends (suc fuel) zero got s h c = (
    finish_read mmio got (wait_done mmio s),
    refl,
    λ bytes e. finish_read-IsWhole got (wait_done mmio s) bytes e ∙ omega arith,
  )
  receive_loop-ends (suc fuel) (suc k) got s h c =
      then_read-ends (suc k + length got) (ready_to_read mmio s) _ (λ t ready.
        let (has, same) = ready_to_read-has_data s t (omega (arith, c)) ready in
        let here : left t ≡ suc k = same ∙ c in
        let (counted, total, below) = drain_fifo-counts (suc k) got t here in
        let moved = drain_fifo-moves k got t here has in
        let (outcome, e, whole) =
          receive_loop-ends fuel (drain_fifo mmio (suc k) got t).0.0
            (drain_fifo mmio (suc k) got t).0.1 (drain_fifo mmio (suc k) got t).1
            (omega (arith, moved)) counted in
        (outcome, e, λ bytes k2. whole bytes k2 ∙ total))

  -- On a controller that has `len` bytes to deliver once the transfer is started, a read of `len` bytes
  -- ends, with one round per byte and one more as fuel enough: with an error or with `len` bytes.
  pub transfer_read_ends :
      (addr len : ℕ) (s : S)
      → left (receive_start mmio addr len s) ≡ len
      → (outcome : Outcome mmio (List ℕ)) × (transfer_read mmio (len + 1) addr len s ≡ some outcome)
        × IsWhole len outcome
  unfolding transfer_read
  transfer_read_ends addr len s started = elim (Bool-cases (ltb 0xffff len)) [
    | inl long ↦ ((err i2c_read, s), rw long refl, λ bytes k. absurd cc)
    | inr fits ↦
        let (outcome, e, whole) =
          receive_loop-ends (len + 1) len [] (receive_start mmio addr len s) (omega arith)
            started in
        (outcome, rw fits e, λ bytes k. whole bytes k ∙ omega arith)
  ]
