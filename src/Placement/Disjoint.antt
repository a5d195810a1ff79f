-- ===== src/Placement/Disjoint.antt =====
-- The overlap check decides that no address lies in two of the ranges.
use rp1_bootloader_po_c.Base.{
  ℕ, ◌≤◌, ◌<◌, ◌≡◌, ◌↔◌, refl, false, ◌&&◌, List, [], ◌∷◌, inl, inr, arith, ltb, leb, Bool-cases,
  All, ok, bind-eq-ok,
}
use rp1_bootloader_po_c.Placement.{Range, check_one, check_no_overlap}

-- Address `x` lies in the range.
abbrev pub Contains : Range → ℕ → Type 0
Contains r x = (r.start ≤ x) × (x < r.end)

-- No address lies in both.
abbrev pub Apart : Range → Range → Type 0
Apart a b = (x : ℕ) → Contains a x → Contains b x → ⊥

-- Every range holds an address, and no address lies in two of them.
abbrev pub IsPlaced : List Range → Type 0
IsPlaced [] = Unit
IsPlaced (a ∷ rest) = (a.start < a.end) × All (Apart a) rest × IsPlaced rest

check_one_sound : (a : Range) (rs : List Range) → check_one a rs ≡ ok tt → All (Apart a) rs
unfolding check_one
check_one_sound a [] h = tt
check_one_sound a (b ∷ rs) h = elim (Bool-cases (ltb a.start b.end && ltb b.start a.end)) [
  | inl meet ↦ absurd (ground arith)
  | inr apart ↦ (λ x p q. ground arith, check_one_sound a rs (rw apart at h))
]

-- The larger start lies in both, if they meet.
meet_somewhere :
    (a b : Range)
    → a.start < a.end
    → b.start < b.end
    → Apart a b
    → (ltb a.start b.end && ltb b.start a.end) ≡ false
meet_somewhere a b p q apart = elim (Bool-cases (leb a.start b.start)) [
  | inl le ↦ ground (arith, apart b.start)
  | inr gt ↦ ground (arith, apart a.start)
]

check_one_complete :
    (a : Range) (rs : List Range)
    → a.start < a.end
    → All (Apart a) rs
    → IsPlaced rs
    → check_one a rs ≡ ok tt
unfolding check_one
check_one_complete a [] p h q = refl
check_one_complete a (b ∷ rs) p h q =
    rw (meet_somewhere a b p q.0 h.0) (check_one_complete a rs p h.1 q.2)

check_sound : (rs : List Range) → check_no_overlap rs ≡ ok tt → IsPlaced rs
unfolding check_no_overlap
check_sound [] h = tt
check_sound (a ∷ rs) h = elim (Bool-cases (leb a.end a.start)) [
  | inl empty ↦ absurd (ground arith)
  | inr nonempty ↦
      let (_, one, rest) =
        bind-eq-ok (check_one a rs) (λ _. check_no_overlap rs) (rw nonempty at h) in
      (ground arith, check_one_sound a rs one, check_sound rs rest)
]

check_complete : (rs : List Range) → IsPlaced rs → check_no_overlap rs ≡ ok tt
unfolding check_no_overlap
check_complete [] h = refl
check_complete (a ∷ rs) h =
    ground (arith, check_one_complete a rs h.0 h.1 h.2, check_complete rs h.2)

-- The overlap check accepts a list of ranges exactly when every range holds an address and no
-- address lies in two of the ranges.
pub check_no_overlap-IsPlaced : (rs : List Range) → (check_no_overlap rs ≡ ok tt) ↔ IsPlaced rs
check_no_overlap-IsPlaced rs = (check_sound rs, check_complete rs)
