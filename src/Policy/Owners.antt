-- ===== src/Policy/Owners.antt =====
-- A validated owner table gives every known device to exactly one side.
use rp1_bootloader_po_c.Base.Bits.{pow_pos}
use rp1_bootloader_po_c.Base.Bits.{pow_lt}
use rp1_bootloader_po_c.Base.Bits.{zero_or_one}
use rp1_bootloader_po_c.Base.Bits.{bit_or-lt}
use rp1_bootloader_po_c.Base.{
  ℕ, ◌+◌, ◌-◌, ◌*◌, ◌^◌, ◌≤◌, ◌<◌, ◌≡◌, ◌≢◌, ◌↔◌, refl, ap, sym, bit_and, bit_or, ◌==◌, arith, All,
  List, [], ◌∷◌, ok, inl, inr,
}
use Prim.Native.Nat.{max, min}
use rp1_bootloader_po_c.Base.Bits.{
  test_bit, test_bit-bit_and, test_bit-bit_or, test_bit-le, test_bit-zero, test_bit-complement,
  test_bit-pow_self, test_bit-pow_ne, bit_and-pow,
}
use rp1_bootloader_po_c.Base.Words.{usize_mod}
use rp1_bootloader_po_c.Policy.Abi.{Rp1Abi, devices, IsMask}
use rp1_bootloader_po_c.Policy.{
  Rp1DtbPolicy, rp1, linux, disabled, unspecified, known_device_mask, validate, owner_of,
}

-- How many sides own bit `n`.
abbrev pub owners : Rp1DtbPolicy → ℕ → ℕ
owners p n = test_bit p.owner_rp1 n + test_bit p.owner_linux n + test_bit p.owner_disabled n

module _ (abi : Rp1Abi) (laws : IsMask abi) where
  open abi use {
    bit, dev_gpio, dev_uart0, dev_uart1, dev_i2c0, dev_i2c1, dev_spi0, dev_pio0, dev_pio1, dev_dma,
    dev_timer,
  }

  -- Every known device has exactly one owner, no other bit of the tables is set, and Linux has
  -- neither PIO device.
  pub record IsPartition (p : Rp1DtbPolicy) : Type 0 where
    pub one_owner : All (λ dev. owners p dev ≡ 1) (devices abi)
    pub no_others : (n : ℕ) → n < 64 → All (λ dev. n ≢ dev) (devices abi) → owners p n ≡ 0
    pub pio0_kept : test_bit p.owner_linux dev_pio0 ≡ 0
    pub pio1_kept : test_bit p.owner_linux dev_pio1 ≡ 0

  bit_self : (dev : ℕ) → dev < 64 → test_bit (bit dev) dev ≡ 1
  bit_self dev h = rw (laws.bit_is dev h) (test_bit-pow_self dev)

  bit_ne : (dev n : ℕ) → dev < 64 → n ≢ dev → test_bit (bit dev) n ≡ 0
  bit_ne dev n h ne = rw (laws.bit_is dev h) (test_bit-pow_ne dev n (λ e. ne (sym e)))

  -- The masks of a list of devices, joined from the left as the constant joins them.
  unfoldable mask_of : ℕ → List ℕ → ℕ
  mask_of acc [] = acc
  mask_of acc (d ∷ ds) = mask_of (bit_or acc (bit d)) ds

  mask_of-keeps : (ds : List ℕ) (acc n : ℕ) → test_bit acc n ≡ 1 → test_bit (mask_of acc ds) n ≡ 1
  unfolding mask_of
  mask_of-keeps [] acc n h = h
  mask_of-keeps (d ∷ ds) acc n h =
      mask_of-keeps ds (bit_or acc (bit d)) n
        (omega (arith, test_bit-bit_or n acc (bit d), test_bit-le n (bit d)))

  mask_of-members :
      (ds : List ℕ) (acc : ℕ) → All (λ d. d < 64) ds → All (λ d. test_bit (mask_of acc ds) d ≡ 1) ds
  unfolding mask_of
  mask_of-members [] acc h = tt
  mask_of-members (d ∷ ds) acc h = (
    mask_of-keeps ds (bit_or acc (bit d)) d
        (omega (arith, test_bit-bit_or d acc (bit d), bit_self d h.0, test_bit-le d acc)),
    mask_of-members ds (bit_or acc (bit d)) h.1,
  )

  mask_of-others :
      (ds : List ℕ) (acc n : ℕ)
      → All (λ d. d < 64) ds
      → All (λ d. n ≢ d) ds
      → test_bit acc n ≡ 0
      → test_bit (mask_of acc ds) n ≡ 0
  unfolding mask_of
  mask_of-others [] acc n h ne z = z
  mask_of-others (d ∷ ds) acc n h ne z =
      mask_of-others ds (bit_or acc (bit d)) n h.1 ne.1
        (omega (arith, test_bit-bit_or n acc (bit d), bit_ne d n h.0 ne.0))

  later : List ℕ
  later =
      dev_uart0 ∷ dev_uart1 ∷ dev_i2c0 ∷ dev_i2c1 ∷ dev_spi0 ∷ dev_pio0 ∷ dev_pio1 ∷ dev_dma
      ∷ dev_timer ∷ []

  known-mask_of : known_device_mask abi ≡ mask_of (bit dev_gpio) later
  unfolding known_device_mask mask_of later
  known-mask_of = refl

  known_devices : All (λ dev. test_bit (known_device_mask abi) dev ≡ 1) (devices abi)
  unfolding later
  known_devices = rw known-mask_of (
    mask_of-keeps later (bit dev_gpio) dev_gpio (bit_self dev_gpio laws.in_word.0),
    mask_of-members later (bit dev_gpio) laws.in_word.1,
  )

  known_others :
      (n : ℕ) → All (λ dev. n ≢ dev) (devices abi) → test_bit (known_device_mask abi) n ≡ 0
  unfolding later
  known_others n h = rw known-mask_of (
      mask_of-others later (bit dev_gpio) n laws.in_word.1 h.1
        (bit_ne dev_gpio n laws.in_word.0 h.0))

  mask_of-lt :
      (ds : List ℕ) (acc : ℕ) → All (λ d. d < 64) ds → acc < 2 ^ 64 → mask_of acc ds < 2 ^ 64
  unfolding mask_of
  mask_of-lt [] acc h k = k
  mask_of-lt (d ∷ ds) acc h k =
      mask_of-lt ds (bit_or acc (bit d)) h.1
        (bit_or-lt 64 acc (bit d) k (rw (laws.bit_is d h.0) (pow_lt d 64 h.0)))

  known-lt : known_device_mask abi < 2 ^ 64
  unfolding later
  known-lt = rw known-mask_of (
      mask_of-lt later (bit dev_gpio) laws.in_word.1
        (rw (laws.bit_is dev_gpio laws.in_word.0) (pow_lt dev_gpio 64 laws.in_word.0)))

  -- What the four tests of a validated table say of one bit of a word.
  record IsOwned (p : Rp1DtbPolicy) (n : ℕ) : Type 0 where
    once : owners p n ≤ 1
    known : owners p n ≤ test_bit (known_device_mask abi) n
    complete : test_bit (known_device_mask abi) n ≤ owners p n
    pio0 : min (test_bit p.owner_linux n) (test_bit (bit dev_pio0) n) ≡ 0
    pio1 : min (test_bit p.owner_linux n) (test_bit (bit dev_pio1) n) ≡ 0

  -- A conjunction that is zero has no bit in common.
  apart_at : (a b n : ℕ) → bit_and a b ≡ 0 → min (test_bit a n) (test_bit b n) ≡ 0
  apart_at a b n e =
      omega (arith, test_bit-bit_and n a b, ap (λ x. test_bit x n) e, test_bit-zero n)

  module _ (p : Rp1DtbPolicy) where
    open p use {owner_rp1, owner_linux, owner_disabled}

    once_of :
        (n : ℕ)
        → bit_or
            (bit_or (bit_and owner_rp1 owner_linux) (bit_and owner_rp1 owner_disabled))
            (bit_and owner_linux owner_disabled)
          ≡ 0
        → owners p n ≤ 1
    once_of n e =
        let pair = bit_or (bit_and owner_rp1 owner_linux) (bit_and owner_rp1 owner_disabled) in
        omega (
          arith,
          ap (λ x. test_bit x n) e,
          test_bit-zero n,
          test_bit-bit_or n pair (bit_and owner_linux owner_disabled),
          test_bit-bit_or n (bit_and owner_rp1 owner_linux) (bit_and owner_rp1 owner_disabled),
          test_bit-bit_and n owner_rp1 owner_linux,
          test_bit-bit_and n owner_rp1 owner_disabled,
          test_bit-bit_and n owner_linux owner_disabled,
          test_bit-le n owner_rp1,
          test_bit-le n owner_linux,
          test_bit-le n owner_disabled,
        )

    one_each :
        (ds : List ℕ)
        → All (λ d. d < 64) ds
        → All (λ d. test_bit (known_device_mask abi) d ≡ 1) ds
        → ((n : ℕ) → n < 64 → IsOwned p n)
        → All (λ d. owners p d ≡ 1) ds
    one_each [] small known at = tt
    one_each (d ∷ ds) small known at = (
      omega (arith, known.0, (at d small.0).complete, (at d small.0).once),
      one_each ds small.1 known.1 at,
    )

    specified : ℕ
    specified = bit_or (bit_or owner_rp1 owner_linux) owner_disabled

    specified_at :
        (n : ℕ)
        → test_bit specified n
          ≡ max (max (test_bit owner_rp1 n) (test_bit owner_linux n)) (test_bit owner_disabled n)
    unfolding specified
    specified_at n = simp test_bit-bit_or

    known_of :
        (n : ℕ)
        → n < 64
        → known_device_mask abi < 2 ^ 64
        → bit_and specified (usize_mod - 1 - known_device_mask abi) ≡ 0
        → test_bit specified n ≤ test_bit (known_device_mask abi) n
    known_of n small word e = omega (
      arith,
      apart_at specified (usize_mod - 1 - known_device_mask abi) n e,
      test_bit-complement 64 n (known_device_mask abi) small word,
      test_bit-le n specified,
      test_bit-le n (known_device_mask abi),
    )

    complete_of :
        (n : ℕ)
        → bit_and specified (known_device_mask abi) ≡ known_device_mask abi
        → test_bit (known_device_mask abi) n ≤ test_bit specified n
    complete_of n e =
        omega
          (arith, ap (λ x. test_bit x n) e, test_bit-bit_and n specified (known_device_mask abi))

    validate_tests :
        validate abi p ≡ ok tt
        → (bit_or
              (bit_or (bit_and owner_rp1 owner_linux) (bit_and owner_rp1 owner_disabled))
              (bit_and owner_linux owner_disabled)
            ≡ 0)
          × (bit_and specified (usize_mod - 1 - known_device_mask abi) ≡ 0)
          × (bit_and specified (known_device_mask abi) ≡ known_device_mask abi)
          × (bit_and owner_linux (bit_or (bit dev_pio0) (bit dev_pio1)) ≡ 0)
    unfolding validate specified
    validate_tests h = (ground arith, ground arith, ground arith, ground arith)

    validate-IsOwned : (n : ℕ) → n < 64 → validate abi p ≡ ok tt → IsOwned p n
    validate-IsOwned n small h =
        let (e1, e2, e3, e4) = validate_tests h in
        let one = once_of n e1 in
        let joined = specified_at n in
        let pio = apart_at owner_linux (bit_or (bit dev_pio0) (bit dev_pio1)) n e4 in
        let pios = test_bit-bit_or n (bit dev_pio0) (bit dev_pio1) in
        record {
          once = one;
          known = omega (arith, known_of n small known-lt e2);
          complete = omega (arith, complete_of n e3);
          pio0 = omega arith;
          pio1 = omega arith;
        }

    -- A table that validates is a partition of the known devices.
    pub validate-IsPartition : validate abi p ≡ ok tt → IsPartition p
    validate-IsPartition h =
        let at : (n : ℕ) → n < 64 → IsOwned p n = λ n small. validate-IsOwned n small h in
        record {
          one_owner = one_each (devices abi) laws.in_word known_devices at;
          no_others = λ n small ne. omega (arith, (at n small).known, known_others n ne);
          pio0_kept = omega (
            arith,
            (at dev_pio0 laws.in_word.1.1.1.1.1.1.0).pio0,
            bit_self dev_pio0 laws.in_word.1.1.1.1.1.1.0,
            test_bit-le dev_pio0 owner_linux,
          );
          pio1_kept = omega (
            arith,
            (at dev_pio1 laws.in_word.1.1.1.1.1.1.1.0).pio1,
            bit_self dev_pio1 laws.in_word.1.1.1.1.1.1.1.0,
            test_bit-le dev_pio1 owner_linux,
          );
        }

    in_mask : (x dev : ℕ) → dev < 64 → (bit_and x (bit dev) == 0) ≡ (test_bit x dev == 0)
    in_mask x dev small =
        let e : bit_and x (bit dev) ≡ test_bit x dev * 2 ^ dev =
          rw (laws.bit_is dev small) (bit_and-pow dev x) in
        elim (zero_or_one x dev) [
          | inl z ↦
              let none : bit_and x (bit dev) ≡ 0 = omega (arith, rw z at e) in ground (arith, none)
          | inr o ↦
              let some : bit_and x (bit dev) ≡ 2 ^ dev = omega (arith, rw o at e) in
              ground (arith, some, pow_pos dev)
        ]

    -- In a table that validates, the side that is found for a device is the one whose word has the
    -- device's bit, and it is unspecified for a number that no side owns.
    pub owner_of-IsSide :
        (dev : ℕ)
        → dev < 64
        → validate abi p ≡ ok tt
        → ((owner_of abi p dev ≡ rp1) ↔ (test_bit owner_rp1 dev ≡ 1))
          × ((owner_of abi p dev ≡ linux) ↔ (test_bit owner_linux dev ≡ 1))
          × ((owner_of abi p dev ≡ disabled) ↔ (test_bit owner_disabled dev ≡ 1))
          × ((owner_of abi p dev ≡ unspecified) ↔ (owners p dev ≡ 0))
    unfolding owner_of
    owner_of-IsSide dev small h =
        let one = (validate-IsOwned dev small h).once in
        let r1 = test_bit-le dev owner_rp1 in
        let r2 = test_bit-le dev owner_linux in
        let r3 = test_bit-le dev owner_disabled in
        rw
          (
            in_mask owner_rp1 dev small,
            in_mask owner_linux dev small,
            in_mask owner_disabled dev small,
          )
          (ground arith, ground arith, ground arith, ground arith)
