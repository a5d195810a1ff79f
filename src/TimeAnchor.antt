-- ===== src/TimeAnchor.antt =====
-- rp1_chainboot_poc/src/rp1_time_anchor.rs: the torn-free read of the RP1 timer and the checks of a
-- series of samples. The device is the state `S`, and `read` its read of an offset.
use rp1_bootloader_po_c.Base.{not}
mod Tests
use rp1_bootloader_po_c.Base.{
  ℕ, zero, suc, ◌+◌, ◌-◌, ◌*◌, ◌/◌, ◌%◌, ◌^◌, ◌≤◌, ◌<◌, ◌≡◌, ◌≢◌, refl, Bool, true, false, ◌&&◌,
  ltb, leb, if◌then◌else◌, bit_or, Option, none, some, ◌⊎◌, inl, inr, arith, Bool-cases, ==_iff,
}
use rp1_bootloader_po_c.Base.{◌==◌}
use rp1_bootloader_po_c.Base.Bits.{bit_or-add}

pub max_attempts : ℕ
max_attempts = 4

pub record RawRead : Type 0 where
  pub high_before : ℕ
  pub low : ℕ
  pub high_after : ℕ
  pub attempts : ℕ

raw64 : RawRead → ℕ
raw64 r = bit_or (r.high_before * 2 ^ 32) r.low

raw_default : RawRead
raw_default = record { high_before = 0; low = 0; high_after = 0; attempts = 0 }

module _ {S : Type 0} (read : S → ℕ → ℕ × S) where
  -- One pass of the loop: high, low, high.
  read_attempt : ℕ → S → RawRead × S
  read_attempt attempt s =
      let (high_before, s1) = read s 0 in
      let (low, s2) = read s1 4 in
      let (high_after, s3) = read s2 0 in
      (
        record {
          high_before = high_before;
          low = low;
          high_after = high_after;
          attempts = attempt;
        },
        s3,
      )

  -- The attempts left, the number of the next one, and the last reading.
  read_from : ℕ → ℕ → RawRead → S → RawRead × S
  read_from zero attempt raw s = (raw, s)
  read_from (suc k) attempt raw s =
      let (now, after) = read_attempt attempt s in
      let more = read_from k (attempt + 1) now after in
      if now.high_before == now.high_after then (now, after) else more

  read_raw : S → RawRead × S
  read_raw s = read_from max_attempts 1 raw_default s

pub data MapError : Type 0 where
  bar1_range bar1_alignment_overflow : MapError

-- The errors of a sample, by their log names.
pub data SampleError : Type 0 where
  valid rollover_exhausted all_ones host_order cntfrq_zero cntvoff_change : SampleError
  cntfrq_change raw_backwards : SampleError
  unmapped : MapError → SampleError

pub record Sample : Type 0 where
  pub host_before : ℕ
  pub host_after : ℕ
  pub cntfrq : ℕ
  pub cntvoff_before : ℕ
  pub cntvoff_after : ℕ
  pub raw : RawRead
  pub map_error : Option MapError

is_valid : SampleError → Bool
is_valid valid = true
is_valid _ = false

-- The checks of a sample on its own.
own_error : Sample → SampleError
own_error s = elim s.map_error [
  | some error ↦ unmapped error
  | none ↦
      if not (s.raw.high_before == s.raw.high_after)
      then rollover_exhausted
      else if raw64 s.raw == 0xffffffffffffffff
      then all_ones
      else if ltb s.host_after s.host_before
      then host_order
      else if s.cntfrq == 0
      then cntfrq_zero
      else if not (s.cntvoff_before == s.cntvoff_after)
      then cntvoff_change
      else valid
]

-- The checks against the sample before.
change_error : Sample → Sample → SampleError
change_error s p =
    if ltb s.host_before p.host_after
    then host_order
    else if not (s.cntfrq == p.cntfrq)
    then cntfrq_change
    else if not (s.cntvoff_before == p.cntvoff_after)
    then cntvoff_change
    else if is_valid (own_error p) && ltb (raw64 s.raw) (raw64 p.raw)
    then raw_backwards
    else valid

sample_error : Sample → Option Sample → SampleError
sample_error s none = own_error s
sample_error s (some p) = if is_valid (own_error s) then change_error s p else own_error s

-- A free-running counter that the device reads, one count after the other.
counter_read : (ℕ → ℕ) → ℕ → ℕ → ℕ × ℕ
counter_read clock t offset = (if offset == 0 then clock t / 2 ^ 32 else clock t % 2 ^ 32, t + 1)

stable_attempt :
    (clock : ℕ → ℕ) (t a : ℕ)
    → ((i : ℕ) → clock i ≤ clock (i + 1))
    → clock t / 2 ^ 32 ≡ clock (t + 1 + 1) / 2 ^ 32
    → raw64 (read_attempt (counter_read clock) a t).0 ≡ clock (t + 1)
unfolding raw64 read_attempt counter_read
stable_attempt clock t a mono e =
    let p = mono t in
    let q = mono (t + 1) in
    let high : clock (t + 1) / 2 ^ 32 ≡ clock t / 2 ^ 32 = omega arith in
    let join = bit_or-add 32 (clock t / 2 ^ 32) (clock (t + 1) % 2 ^ 32) (omega arith) in
    omega arith

-- A reading of a monotone counter, started at count `t` as attempt `a` with `k` more allowed: three
-- reads per attempt; when its high words agree it is the counter at one moment of the last attempt.
record IsReading (clock : ℕ → ℕ) (k a t : ℕ) (r : RawRead × ℕ) : Type 0 where
  reads : r.1 + 3 * a ≡ t + 3 * (r.0.attempts + 1)
  bounded : r.0.attempts ≤ a + k
  outcome :
      ((r.0.high_before ≢ r.0.high_after) × (r.0.attempts ≡ a + k))
      ⊎ ((r.0.high_before ≡ r.0.high_after) × (raw64 r.0 ≡ clock (r.1 - 2)))

attempt-IsReading :
    (clock : ℕ → ℕ) (k a t : ℕ)
    → ((i : ℕ) → clock i ≤ clock (i + 1))
    → clock t / 2 ^ 32 ≡ clock (t + 1 + 1) / 2 ^ 32
    → IsReading clock k a t (read_attempt (counter_read clock) a t)
unfolding read_attempt counter_read
attempt-IsReading clock k a t mono e =
    let now : t + 1 + 1 + 1 - 2 ≡ t + 1 = omega arith in
    record {
      reads = omega arith;
      bounded = omega arith;
      outcome = inr (e, rw now (stable_attempt clock t a mono e));
    }

later-IsReading :
    (clock : ℕ → ℕ) (k a t : ℕ) (r : RawRead × ℕ)
    → IsReading clock k (a + 1) (t + 1 + 1 + 1) r
    → IsReading clock (suc k) a t r
later-IsReading clock k a t r h = record {
  reads = omega (arith, h.reads);
  bounded = omega (arith, h.bounded);
  outcome = elim h.outcome [
    | inl (torn, all) ↦ inl (torn, omega (arith, all))
    | inr (stable, value) ↦ inr (stable, value)
  ];
}

last-IsReading :
    (clock : ℕ → ℕ) (a t : ℕ)
    → clock t / 2 ^ 32 ≢ clock (t + 1 + 1) / 2 ^ 32
    → IsReading clock 0 a t (read_attempt (counter_read clock) a t)
unfolding read_attempt counter_read
last-IsReading clock a t ne = record {
  reads = omega arith;
  bounded = omega arith;
  outcome = inl (ne, omega arith);
}

differ_of_test : (x y : ℕ) → (x == y) ≡ false → x ≢ y
differ_of_test x y h = ground arith

read_from-IsReading :
    (clock : ℕ → ℕ) (k a t : ℕ) (raw : RawRead)
    → ((i : ℕ) → clock i ≤ clock (i + 1))
    → IsReading clock k a t (read_from (counter_read clock) (suc k) a raw t)
unfolding read_from read_attempt counter_read
read_from-IsReading clock zero a t raw mono =
    elim (Bool-cases (clock t / 2 ^ 32 == clock (t + 1 + 1) / 2 ^ 32)) [
      | inl h ↦ rw h (attempt-IsReading clock 0 a t mono ((==_iff _ _).0 h))
      | inr h ↦ rw h (last-IsReading clock a t (differ_of_test _ _ h))
    ]
read_from-IsReading clock (suc k) a t raw mono =
    elim (Bool-cases (clock t / 2 ^ 32 == clock (t + 1 + 1) / 2 ^ 32)) [
      | inl h ↦ rw h (attempt-IsReading clock (suc k) a t mono ((==_iff _ _).0 h))
      | inr h ↦ rw h (
          later-IsReading clock k a t _ (
            read_from-IsReading clock k (a + 1) (t + 1 + 1 + 1)
              (read_attempt (counter_read clock) a t).0 mono))
    ]

-- Reading a counter that never runs backwards makes three reads per attempt and at most four
-- attempts; if the high words then agree, the 64-bit value is the counter at the last low read,
-- and otherwise all four attempts were used.
read_raw-IsReading :
    (clock : ℕ → ℕ) (t : ℕ)
    → ((i : ℕ) → clock i ≤ clock (i + 1))
    → IsReading clock 3 1 t (read_raw (counter_read clock) t)
unfolding read_raw max_attempts
read_raw-IsReading clock t mono = read_from-IsReading clock 3 1 t raw_default mono

-- The sample before sample `n`.
before : (ℕ → Sample) → ℕ → Option Sample
before s zero = none
before s (suc n) = some (s n)

own_valid :
    (s : Sample)
    → own_error s ≡ valid
    → (s.raw.high_before ≡ s.raw.high_after) × (s.host_before ≤ s.host_after)
unfolding own_error
own_valid s h = ground arith

change_valid :
    (s p : Sample)
    → own_error p ≡ valid
    → change_error s p ≡ valid
    → (p.host_after ≤ s.host_before) × (s.cntfrq ≡ p.cntfrq) × (raw64 p.raw ≤ raw64 s.raw)
unfolding change_error is_valid
change_valid s p own h =
    let no_error : is_valid (own_error p) ≡ true = rw own refl in
    let open_h = rw no_error at h in ground arith

valid_of_test : (e : SampleError) → is_valid e ≡ true → e ≡ valid
unfolding is_valid
valid_of_test valid h = refl
valid_of_test (unmapped e) h = absurd cc
valid_of_test rollover_exhausted h = absurd cc
valid_of_test all_ones h = absurd cc
valid_of_test host_order h = absurd cc
valid_of_test cntfrq_zero h = absurd cc
valid_of_test cntvoff_change h = absurd cc
valid_of_test cntfrq_change h = absurd cc
valid_of_test raw_backwards h = absurd cc

sample_error_split :
    (s p : Sample)
    → sample_error s (some p) ≡ valid
    → (own_error s ≡ valid) × (change_error s p ≡ valid)
unfolding sample_error is_valid
sample_error_split s p h = elim (Bool-cases (is_valid (own_error s))) [
  | inl good ↦ (valid_of_test _ good, rw good at h)
  | inr bad ↦
      let own : own_error s ≡ valid = rw bad at h in
      let yes : is_valid (own_error s) ≡ true = rw own refl in absurd cc
]

module _ (s : ℕ → Sample) (count : ℕ)
    (good : (n : ℕ) → n < count → sample_error (s n) (before s n) ≡ valid) where
  own_good : (n : ℕ) → n < count → own_error (s n) ≡ valid
  unfolding sample_error before
  own_good zero l = good 0 l
  own_good (suc n) l = (sample_error_split (s (suc n)) (s n) (good (suc n) l)).0

  step_good :
      (n : ℕ)
      → suc n < count
      → ((s n).host_after ≤ (s (suc n)).host_before)
        × ((s (suc n)).cntfrq ≡ (s n).cntfrq)
        × (raw64 (s n).raw ≤ raw64 (s (suc n)).raw)
  unfolding before
  step_good n l =
      change_valid (s (suc n)) (s n) (own_good n (omega arith))
        (sample_error_split (s (suc n)) (s n) (good (suc n) l)).1

  -- In a series of samples that all pass, a sample taken later has a later host interval, a raw
  -- counter that is not less, and the same counter frequency.
  samples_ordered :
      (n d : ℕ)
      → n + (d + 1) < count
      → ((s n).host_after ≤ (s (n + (d + 1))).host_before)
        × ((s n).host_before ≤ (s n).host_after)
        × (raw64 (s n).raw ≤ raw64 (s (n + (d + 1))).raw)
        × ((s n).cntfrq ≡ (s (n + (d + 1))).cntfrq)
  samples_ordered n zero l =
      let e : n + (0 + 1) ≡ suc n = omega arith in
      let (host, freq, raw) = step_good n (omega arith) in
      rw e (host, (own_valid (s n) (own_good n (omega arith))).1, raw, omega arith)
  samples_ordered n (suc d) l =
      let (host, self, raw, freq) = samples_ordered n d (omega arith) in
      let (host2, freq2, raw2) = step_good (n + (d + 1)) (omega arith) in
      let (torn, own) = own_valid (s (n + (d + 1))) (own_good (n + (d + 1)) (omega arith)) in
      let e : n + (suc d + 1) ≡ suc (n + (d + 1)) = omega arith in
      rw e (omega arith, self, omega arith, omega arith)
