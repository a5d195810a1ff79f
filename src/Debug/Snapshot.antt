-- ===== src/Debug/Snapshot.antt =====
-- The answers to the snapshot commands of rp1_chainboot_poc/src/rp1_debug_stub.rs: their checks, word by
-- word.
use rp1_bootloader_po_c.Base.{sym}
use rp1_bootloader_po_c.Base.{◌∙◌}
use rp1_bootloader_po_c.Base.{==_iff}
use rp1_bootloader_po_c.Base.{and_true}
use rp1_bootloader_po_c.Base.{leb_sound}
use rp1_bootloader_po_c.Base.{true}
use rp1_bootloader_po_c.Base.{arith}
use rp1_bootloader_po_c.Base.{ok_injective}
use rp1_bootloader_po_c.Base.{bind-eq-ok}
use rp1_bootloader_po_c.Base.{false}
use rp1_bootloader_po_c.Base.{guard-eq-ok}
use rp1_bootloader_po_c.Base.{
  ℕ, zero, suc, ◌+◌, ◌*◌, ◌%◌, ◌≤◌, ◌≡◌, refl, Bool, not, ◌&&◌, ◌||◌, ltb, leb, if◌then◌else◌, List,
  [], ◌∷◌, Option, none, some, Result, ok, err, ok_or, guard, ◌>>=◌, ◌>>◌, length, get_range,
}
use rp1_bootloader_po_c.Base.{◌==◌}
use rp1_bootloader_po_c.Base.Words.{from_le_bytes}
use rp1_bootloader_po_c.ClockIndependence.{mix}

pub data TransportError : Type 0 where
  transport_timeout bus bad_address unsupported : TransportError

-- The constants of the crate rp1-abi.
pub record DebugAbi : Type 0 where
  pub mailbox_addr : ℕ
  pub magic : ℕ
  pub version : ℕ
  pub state_running : ℕ
  pub stop_none : ℕ
  pub status_ok : ℕ
  pub wire_size : ℕ
  pub cmd_continue : ℕ
  pub cmd_read_mem : ℕ
  pub cmd_write_mem : ℕ
  pub cmd_ping : ℕ

abbrev pub snapshot_max_entries : ℕ
snapshot_max_entries = 8

abbrev pub snapshot_header_words : ℕ
snapshot_header_words = 6

abbrev pub snapshot_entry_words : ℕ
snapshot_entry_words = 3

abbrev pub snapshot_max_len : ℕ
snapshot_max_len = 124

abbrev pub snapshot_response_magic : ℕ
snapshot_response_magic = 0x50523153

abbrev pub snapshot_checksum_seed : ℕ
snapshot_checksum_seed = 0x811c9dc5

abbrev pub read_snapshot_allowlisted : ℕ
read_snapshot_allowlisted = 0x52504401

-- `snapshot_checksum_update` is the step of the clock test's checksum.
snapshot_checksum_update : ℕ → ℕ → ℕ
snapshot_checksum_update = mix

checksum_words : List ℕ → ℕ → ℕ
checksum_words [] checksum = checksum
checksum_words (w ∷ ws) checksum = checksum_words ws (snapshot_checksum_update checksum w)

pub snapshot_request_checksum : DebugAbi → ℕ → ℕ → ℕ
snapshot_request_checksum abi sequence snapshot_id =
    checksum_words
      (abi.magic ∷ abi.version ∷ read_snapshot_allowlisted ∷ snapshot_id ∷ sequence ∷ [])
      snapshot_checksum_seed

snapshot_word : List ℕ → ℕ → Result TransportError ℕ
snapshot_word bytes index = do
  word ← ok_or (get_range bytes (index * 4) (index * 4 + 4)) unsupported
  ok (from_le_bytes word)

is_word : Result TransportError ℕ → ℕ → Bool
is_word (ok w) x = w == x
is_word (err e) x = false

-- The loop over the words before the checksum, `index` the next of the `k` left.
checksum_from : List ℕ → ℕ → ℕ → ℕ → Result TransportError ℕ
checksum_from bytes zero index checksum = ok checksum
checksum_from bytes (suc k) index checksum = do
  w ← snapshot_word bytes index
  checksum_from bytes k (index + 1) (snapshot_checksum_update checksum w)

check_header : List ℕ → ℕ → ℕ → ℕ → ℕ → Bool
check_header bytes words snapshot_id sequence expected_status =
    length bytes == words * 4
    && is_word (snapshot_word bytes 0) snapshot_response_magic
    && is_word (snapshot_word bytes 1) 2
    && is_word (snapshot_word bytes 2) snapshot_id
    && is_word (snapshot_word bytes 3) sequence
    && is_word (snapshot_word bytes 4) expected_status

-- A word that cannot be read is an error either way.
pub validate_snapshot_response : List ℕ → ℕ → ℕ → ℕ → Result TransportError ℕ
validate_snapshot_response bytes snapshot_id sequence expected_status = do
  guard (not (ltb (length bytes) 28 || not (length bytes % 4 == 0))) unsupported
  count ← snapshot_word bytes 5
  guard (leb count snapshot_max_entries) unsupported
  guard
      (check_header bytes (snapshot_header_words + count * snapshot_entry_words + 1) snapshot_id
        sequence expected_status)
      unsupported
  checksum ←
      checksum_from bytes (snapshot_header_words + count * snapshot_entry_words) 0
        snapshot_checksum_seed
  guard
      (is_word (snapshot_word bytes (snapshot_header_words + count * snapshot_entry_words))
        checksum)
      unsupported
  ok count

core_status_addresses : DebugAbi → List ℕ
core_status_addresses abi =
    abi.mailbox_addr
    ∷ (abi.mailbox_addr + 0x04)
    ∷ (abi.mailbox_addr + 0x08)
    ∷ (abi.mailbox_addr + 0x14)
    ∷ (abi.mailbox_addr + 0x18)
    ∷ (abi.mailbox_addr + 0x1c)
    ∷ (abi.mailbox_addr + 0x20)
    ∷ (abi.mailbox_addr + 0x2c)
    ∷ []

peripheral_status_addresses : List ℕ
peripheral_status_addresses =
    0x40020000 ∷ 0x4001401c ∷ 0x400ac028 ∷ 0x40098000 ∷ 0x40098060 ∷ 0x40030018 ∷ 0x40074070
    ∷ 0x40050028 ∷ []

-- The words of entry `index`: the address, the value and the status.
snapshot_entry : List ℕ → ℕ → Result TransportError (ℕ × ℕ × ℕ)
snapshot_entry bytes index = do
  address ← snapshot_word bytes (snapshot_header_words + index * snapshot_entry_words)
  value ← snapshot_word bytes (snapshot_header_words + index * snapshot_entry_words + 1)
  status ← snapshot_word bytes (snapshot_header_words + index * snapshot_entry_words + 2)
  ok (address, value, status)

-- What the core entries have to hold, in order.
core_values : DebugAbi → ℕ → ℕ → List ℕ
core_values abi previous_ack mailbox_size =
    abi.magic ∷ abi.version ∷ mailbox_size ∷ previous_ack ∷ abi.state_running ∷ abi.stop_none
    ∷ read_snapshot_allowlisted ∷ 0 ∷ []

core_entries : List ℕ → List ℕ → List ℕ → ℕ → Result TransportError (Unit {0})
core_entries bytes (a ∷ addresses) (v ∷ values) index = do
  (address, value, status) ← snapshot_entry bytes index
  guard (address == a && status == 0 && value == v) unsupported
  core_entries bytes addresses values (index + 1)
core_entries bytes _ _ index = ok tt

pub validate_core_status_entries : DebugAbi → List ℕ → ℕ → ℕ → ℕ → Result TransportError (Unit {0})
validate_core_status_entries abi bytes count previous_ack mailbox_size = do
  guard (count == 8) unsupported
  core_entries bytes (core_status_addresses abi) (core_values abi previous_ack mailbox_size) 0

-- The loop over the peripheral entries keeps the value of entry 2, the timer.
peripheral_entries : List ℕ → List ℕ → ℕ → Option ℕ → Result TransportError (Option ℕ)
peripheral_entries bytes [] index timer = ok timer
peripheral_entries bytes (a ∷ addresses) index timer = do
  (address, value, status) ← snapshot_entry bytes index
  guard (address == a && status == 0 && (index == 1 || not (value == 0xffffffff))) unsupported
  peripheral_entries bytes addresses (index + 1) (if index == 2 then some value else timer)

pub validate_peripheral_status_entries : List ℕ → ℕ → Result TransportError ℕ
validate_peripheral_status_entries bytes count = do
  guard (count == 8) unsupported
  timer ← peripheral_entries bytes peripheral_status_addresses 0 none
  ok_or timer unsupported

is_word_sound : (r : Result TransportError ℕ) (x : ℕ) → is_word r x ≡ true → r ≡ ok x
unfolding is_word
is_word_sound (ok w) x h = let e : w ≡ x = (==_iff w x).0 h in rw e refl
is_word_sound (err e) x h = absurd cc

check_header_sound :
    (bytes : List ℕ) (words snapshot_id sequence status : ℕ)
    → check_header bytes words snapshot_id sequence status ≡ true
    → (length bytes ≡ words * 4)
      × (snapshot_word bytes 2 ≡ ok snapshot_id)
      × (snapshot_word bytes 3 ≡ ok sequence)
      × (snapshot_word bytes 4 ≡ ok status)
unfolding check_header
check_header_sound bytes words snapshot_id sequence status h =
    let (h, w4) = and_true _ _ h in
    let (h, w3) = and_true _ _ h in
    let (h, w2) = and_true _ _ h in
    let (h, w1) = and_true _ _ h in
    let (len, w0) = and_true _ _ h in
    ((==_iff _ _).0 len, is_word_sound _ _ w2, is_word_sound _ _ w3, is_word_sound _ _ w4)

-- An answer that is accepted has a count of at most eight entries and exactly their words, the header
-- of this request, and the checksum of all words before it.
validate_snapshot_response-ok :
    (bytes : List ℕ) (snapshot_id sequence status count : ℕ)
    → validate_snapshot_response bytes snapshot_id sequence status ≡ ok count
    → (count ≤ 8)
      × (length bytes ≡ (7 + count * 3) * 4)
      × (snapshot_word bytes 2 ≡ ok snapshot_id)
      × (snapshot_word bytes 3 ≡ ok sequence)
      × (snapshot_word bytes 4 ≡ ok status)
      × (snapshot_word bytes (6 + count * 3)
          ≡ checksum_from bytes (6 + count * 3) 0 snapshot_checksum_seed)
unfolding validate_snapshot_response
validate_snapshot_response-ok bytes snapshot_id sequence status count e =
    let (t1, e1) = guard-eq-ok (not (ltb (length bytes) 28 || not (length bytes % 4 == 0))) _ _ e in
    let (n, h2, e2) = bind-eq-ok (snapshot_word bytes 5) _ e1 in
    let (t3, e3) = guard-eq-ok (leb n 8) _ _ e2 in
    let (t4, e4) =
      guard-eq-ok (check_header bytes (6 + n * 3 + 1) snapshot_id sequence status) _ _ e3 in
    let (c, h5, e5) = bind-eq-ok (checksum_from bytes (6 + n * 3) 0 snapshot_checksum_seed) _ e4 in
    let (t6, e6) = guard-eq-ok (is_word (snapshot_word bytes (6 + n * 3)) c) _ _ e5 in
    let same : n ≡ count = ok_injective e6 in
    let (len, w2, w3, w4) =
      check_header_sound bytes (6 + n * 3 + 1) snapshot_id sequence status t4 in
    let whole : (6 + n * 3 + 1) * 4 ≡ (7 + n * 3) * 4 = omega arith in
    rw (← same) (leb_sound n 8 t3, len ∙ whole, w2, w3, w4, is_word_sound _ _ t6 ∙ sym h5)
