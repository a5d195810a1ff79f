-- ===== src/Base/Outcome.antt =====
-- `BootError` and `Result` of rp1_chainboot_poc/src/main.rs, and `?` as the bind of a `do` block.
use mathlib.Core.Logic.{◌⊎◌, inl, inr}
use mathlib.Core.Path.{◌≡◌, refl}
use mathlib.Core.Bool.{Bool, true, false}
use mathlib.Core.Option.{Option, none, some}

pub data BootError : Type 0 where
  i2c_timeout i2c_nack i2c_write i2c_read gpio : BootError
  rp1_chunk_too_large rp1_image_invalid rp1_image_crc_mismatch rp1_image_too_large : BootError
  sd_file_not_found sd_mount sd_open sd_read gzip dtb_patch linux_image_invalid : BootError
  memory_overlap sdhc_quiesce_failure el2_handoff_preparation_failure address_overflow : BootError
  rp1_pcie rp1_gem tftp missing_rp1_note invalid_rp1_note rp1_config_invalid : BootError
  rp1_dtb_policy_invalid rp1_dtb_node_not_found dhcp dhcp_timeout dhcp_invalid_packet : BootError
  dhcp_no_tftp_server boot_mode_dtb_node_missing boot_mode_dtb_node_invalid : BootError
  firmware_booted_from_sd_or_emmc firmware_booted_from_usb_msd : BootError
  firmware_boot_mode_unsupported : BootError

-- `Result<A, E>`.
pub data Result {ℓ} (E A : Type ℓ) : Type ℓ where
  ok : A → Result E A
  err : E → Result E A

infixl 5 ◌>>=◌ ◌>>◌
abbrev pub ◌>>=◌ {ℓ} : {E A B : Type ℓ} → Result E A → (A → Result E B) → Result E B
ok a >>= f = f a
err e >>= f = err e

abbrev pub ◌>>◌ {ℓ} : {E A B : Type ℓ} → Result E A → Result E B → Result E B
m >> k = m >>= λ _. k

-- A check with an early return: `if !test { return Err(e); }`.
abbrev pub guard : {E : Type 0} → Bool → E → Result E (Unit {0})
guard true e = ok tt
guard false e = err e

-- `Option::ok_or`.
abbrev pub ok_or {ℓ} : {E A : Type ℓ} → Option A → E → Result E A
ok_or none e = err e
ok_or (some a) e = ok a

abbrev pub is_ok {ℓ} : {E A : Type ℓ} → Result E A → Bool
is_ok (ok a) = true
is_ok (err e) = false

-- Inversion of a successful bind.
pub bind-eq-ok {ℓ} :
    {E A B : Type ℓ} (m : Result E A) (f : A → Result E B) {b : B}
    → (m >>= f) ≡ ok b
    → (a : A) × (m ≡ ok a) × (f a ≡ ok b)
bind-eq-ok (ok a) f h = (a, refl, h)
bind-eq-ok (err e) f h = cc

pub guard-eq-ok :
    {E B : Type 0} (t : Bool) (e : E) (k : Result E B) {b : B}
    → (guard t e >> k) ≡ ok b
    → (t ≡ true) × (k ≡ ok b)
guard-eq-ok true e k h = (refl, h)
guard-eq-ok false e k h = cc

pub ok_or-eq-ok {ℓ} : {E A : Type ℓ} (o : Option A) (e : E) {a : A} → ok_or o e ≡ ok a → o ≡ some a
ok_or-eq-ok none e h = cc
ok_or-eq-ok (some a) e h = cc

pub Result-cases {ℓ} :
    {E A : Type ℓ} (r : Result E A) → ((a : A) × (r ≡ ok a)) ⊎ ((e : E) × (r ≡ err e))
Result-cases (ok a) = inl (a, refl)
Result-cases (err e) = inr (e, refl)

pub ok_injective : {E A : Type 0} {a b : A} → ◌≡◌ {A = Result E A} (ok a) (ok b) → a ≡ b
ok_injective h = cc
