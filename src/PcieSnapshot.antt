-- ===== src/PcieSnapshot.antt =====
-- rp1_chainboot_poc/src/rp1_pcie_snapshot.rs: the read-only observation of the RP1's configuration
-- header between two checks of readiness and selector. `read` is the closure, and its state `S`
-- what it does.
use rp1_bootloader_po_c.Base.{ok_injective}
use rp1_bootloader_po_c.Base.{sym}
use rp1_bootloader_po_c.Base.{inr}
use rp1_bootloader_po_c.Base.{==_iff}
use rp1_bootloader_po_c.Base.{inl}
use rp1_bootloader_po_c.Base.{get_or}
use rp1_bootloader_po_c.Base.{Bool-cases}
use rp1_bootloader_po_c.Base.{not}
mod Tests
use rp1_bootloader_po_c.Base.{
  ℕ, zero, suc, ◌+◌, ◌*◌, ◌≡◌, refl, Bool, true, false, ◌&&◌, if◌then◌else◌, Result, ok, err, ◌>>=◌,
  guard, List, [], ◌∷◌, ◌++◌, bit_and, length,
}
use rp1_bootloader_po_c.Base.{◌==◌}

abbrev selector : ℕ
selector = 0x00108000

abbrev monitor2 : ℕ
monitor2 = 0x001081a4

abbrev dbi : ℕ
dbi = 0x00109000

abbrev ready : ℕ
ready = 0x00030000

abbrev levels : ℕ
levels = 0x001f0000

pub data Error : Type 0 where
  not_ready bad_selector device_id : ℕ → Error
  levels_changed : ℕ → ℕ → Error

-- From the last read on.
check_after : ℕ → List ℕ → ℕ → Result Error (List ℕ)
check_after before header after =
    if not (bit_and after ready == ready)
    then err (not_ready after)
    else if not (bit_and before levels == bit_and after levels)
    then err (levels_changed before after)
    else if not (get_or header 0 0 == 0x00011de4)
    then err (device_id (get_or header 0 0))
    else ok header

module _ {S : Type 0} (read : S → ℕ → ℕ × S) where
  -- The loop over the header's words.
  read_header : ℕ → ℕ → S → List ℕ × S
  read_header zero i s = ([], s)
  read_header (suc k) i s =
      let (word, s1) = read s (dbi + i * 4) in
      let (rest, s2) = read_header k (i + 1) s1 in (word ∷ rest, s2)

  -- From the read of the header on.
  snapshot_header : ℕ → S → Result Error (List ℕ) × S
  snapshot_header before s =
      let (header, s1) = read_header 7 0 s in
      let (again, s2) = read s1 selector in
      let (after, s3) = read s2 monitor2 in
      if not (again == 0)
      then (err (bad_selector again), s2)
      else (check_after before header after, s3)

  snapshot : S → Result Error (List ℕ) × S
  snapshot s =
      let (before, s1) = read s monitor2 in
      let (select, s2) = read s1 selector in
      if not (bit_and before ready == ready)
      then (err (not_ready before), s1)
      else if not (select == 0)
      then (err (bad_selector select), s2)
      else snapshot_header before s2

-- A closure that records the offsets it is asked for; `answer n offset` is what read `n` returns.
logged : (ℕ → ℕ → ℕ) → List ℕ → ℕ → ℕ × List ℕ
logged answer calls offset = (answer (length calls) offset, calls ++ (offset ∷ []))

-- The reads of a whole observation, in order.
all_reads : List ℕ
all_reads =
    0x001081a4 ∷ 0x00108000 ∷ 0x00109000 ∷ 0x00109004 ∷ 0x00109008 ∷ 0x0010900c ∷ 0x00109010
    ∷ 0x00109014 ∷ 0x00109018 ∷ 0x00108000 ∷ 0x001081a4 ∷ []

header_answers : (ℕ → ℕ → ℕ) → List ℕ
header_answers answer =
    answer 2 dbi
    ∷ answer 3 (dbi + 4)
    ∷ answer 4 (dbi + 8)
    ∷ answer 5 (dbi + 12)
    ∷ answer 6 (dbi + 16)
    ∷ answer 7 (dbi + 20)
    ∷ answer 8 (dbi + 24)
    ∷ []

check_after-ok :
    (before after : ℕ) (header result : List ℕ)
    → check_after before header after ≡ ok result
    → (result ≡ header)
      × (bit_and after ready ≡ ready)
      × (bit_and before levels ≡ bit_and after levels)
      × (get_or header 0 0 ≡ 0x00011de4)
unfolding check_after
check_after-ok before after header result e = elim (Bool-cases (bit_and after ready == ready)) [
  | inl h0 ↦ elim (Bool-cases (bit_and before levels == bit_and after levels)) [
    | inl h1 ↦ elim (Bool-cases (get_or header 0 0 == 0x00011de4)) [
      | inl h2 ↦ (
        sym (ok_injective (rw (h0, h1, h2) at e)),
        (==_iff _ _).0 h0,
        (==_iff _ _).0 h1,
        (==_iff _ _).0 h2,
      )
      | inr h2 ↦ let no = rw (h0, h1, h2) at e in absurd cc
    ]
    | inr h1 ↦ let no = rw (h0, h1) at e in absurd cc
  ]
  | inr h0 ↦ let no = rw h0 at e in absurd cc
]

-- An observation that succeeds made eleven reads, readiness, selector, seven header words, selector
-- and readiness, in this order; both readiness reads were ready with the same levels, both
-- selectors zero, the device the RP1, and the header is what was read.
snapshot-ok :
    (answer : ℕ → ℕ → ℕ) (header : List ℕ)
    → (snapshot (logged answer) []).0 ≡ ok header
    → ((snapshot (logged answer) []).1 ≡ all_reads)
      × (header ≡ header_answers answer)
      × (bit_and (answer 0 monitor2) ready ≡ ready)
      × (answer 1 selector ≡ 0)
      × (answer 2 dbi ≡ 0x00011de4)
      × (answer 9 selector ≡ 0)
      × (bit_and (answer 10 monitor2) ready ≡ ready)
      × (bit_and (answer 0 monitor2) levels ≡ bit_and (answer 10 monitor2) levels)
unfolding snapshot snapshot_header read_header logged all_reads header_answers
snapshot-ok answer header e = elim (Bool-cases (bit_and (answer 0 monitor2) ready == ready)) [
  | inl h0 ↦ elim (Bool-cases (answer 1 selector == 0)) [
    | inl h1 ↦ elim (Bool-cases (answer 9 selector == 0)) [
      | inl h9 ↦
          let (same, r, l, d) = check_after-ok _ _ _ _ (rw (h0, h1, h9) at e) in
          rw (h0, h1, h9)
            (refl, same, (==_iff _ _).0 h0, (==_iff _ _).0 h1, d, (==_iff _ _).0 h9, r, l)
      | inr h9 ↦ let no = rw (h0, h1, h9) at e in absurd cc
    ]
    | inr h1 ↦ let no = rw (h0, h1) at e in absurd cc
  ]
  | inr h0 ↦ let no = rw h0 at e in absurd cc
]
