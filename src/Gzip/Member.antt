-- ===== src/Gzip/Member.antt =====
-- What the loader takes of a gzip member, and what a kernel is that it accepts.
use mathlib.Core.Path.{subst}
use rp1_bootloader_po_c.Base.{
  Bool, ◌⊎◌, ℕ, ◌-◌, ◌≤◌, ◌<◌, ◌≡◌, ◌∙◌, sym, ap, true, false, arith, List, [], ◌∷◌, Bool-cases,
  inl, inr, ok, length, slice, take, get_or, ltb, leb, ◌==◌, guard-eq-ok, bind-eq-ok, ok_injective,
  leb_sound, ◌&&◌, eq_bytes_iff, and_true, ltb_sound,
}
use rp1_bootloader_po_c.Gzip.{
  KernelImageInfo, Inflate, is_gzip, parse_gzip, skip_fields, le_word, is_member,
  looks_like_arm64_image, output_len, decompress_kernel_if_needed,
}

-- The compressed data lies between the header's fields and the trailer, and the size is the trailer's.
pub record IsMemberOf (input body : List ℕ) (isize : ℕ) : Type 0 where
  pub off : ℕ
  pub fields : skip_fields input (get_or input 3 0) ≡ ok off
  pub some_body : off < length input - 8
  pub body_is : body ≡ slice input off (length input - 8)
  pub size_is : le_word 4 input (length input - 4) ≡ ok isize
  pub is_long : 18 ≤ length input

and_first : (a b c d : Bool) → (a && b && c && d) ≡ true → a ≡ true
and_first a b c d h = ground arith

is_member_long : (input : List ℕ) → is_member input ≡ true → 18 ≤ length input
unfolding is_member
is_member_long input h = leb_sound 18 (length input) (
    and_first (leb 18 (length input)) (get_or input 0 0 == 0x1f) (get_or input 1 0 == 0x8b)
      (get_or input 2 0 == 8) h)

-- A member that parses is at least as long as its header and its trailer, and its data lies between
-- them.
pub parse_gzip-IsMemberOf :
    (input body : List ℕ) (isize : ℕ)
    → parse_gzip input ≡ ok (body, isize)
    → IsMemberOf input body isize
unfolding parse_gzip
parse_gzip-IsMemberOf input body isize e =
    let (t1, e1) = guard-eq-ok (is_member input) _ _ e in
    let (off, h, e2) = bind-eq-ok (skip_fields input (get_or input 3 0)) _ e1 in
    let (t2, e3) = guard-eq-ok (ltb off (length input - 8)) _ _ e2 in
    let (n, k, e4) = bind-eq-ok (le_word 4 input (length input - 4)) _ e3 in
    let done = ok_injective e4 in
    record {
      off = off;
      fields = h;
      some_body = ltb_sound off (length input - 8) t2;
      body_is = sym (ap (λ x. x.0) done);
      size_is = k ∙ ap ok (ap (λ x. x.1) done);
      is_long = is_member_long input t1;
    }

looks_like_lem :
    (input : List ℕ)
    → looks_like_arm64_image input ≡ true
    → (64 ≤ length input) × (slice input 56 60 ≡ 0x41 ∷ 0x52 ∷ 0x4d ∷ 0x64 ∷ [])
unfolding looks_like_arm64_image
looks_like_lem input h =
    let (a, b) = and_true (leb 64 (length input)) _ h in
    (
      leb_sound 64 (length input) a,
      (eq_bytes_iff (slice input 56 60) (0x41 ∷ 0x52 ∷ 0x4d ∷ 0x64 ∷ [])).0 b,
    )

-- What the loader hands on: the input itself, where it is not compressed and fits, or an output that
-- starts with an Image header of at least 64 bytes.
pub decompress_kernel_if_needed-accepts :
    (inflate : Inflate) (input : List ℕ) (base output_max : ℕ) (info : KernelImageInfo)
    (out : List ℕ)
    → decompress_kernel_if_needed inflate input base output_max ≡ ok (info, out)
    → (info.base ≡ base)
      × (info.was_gzip ≡ is_gzip input)
      × (((is_gzip input ≡ false)
            × (out ≡ input)
            × (info.len ≡ length input)
            × (info.len ≤ output_max))
          ⊎ ((is_gzip input ≡ true)
              × (64 ≤ length (take info.len out))
              × (slice (take info.len out) 56 60 ≡ 0x41 ∷ 0x52 ∷ 0x4d ∷ 0x64 ∷ [])))
unfolding decompress_kernel_if_needed
decompress_kernel_if_needed-accepts inflate input base output_max info out e =
    elim (Bool-cases (is_gzip input)) [
      | inr plain ↦
          let (t, e1) = guard-eq-ok (leb (length input) output_max) _ _ (rw plain at e) in
          let done = ok_injective e1 in
          (
            ap (λ x. x.0.base) (sym done),
            rw plain (ap (λ x. x.0.was_gzip) (sym done)),
            inl (
              plain,
              ap (λ x. x.1) (sym done),
              ap (λ x. x.0.len) (sym done),
              omega (arith, leb_sound (length input) output_max t, ap (λ x. x.0.len) done),
            ),
          )
      | inl packed ↦
          let (member, h, e1) = bind-eq-ok (parse_gzip input) _ (rw packed at e) in
          let run = inflate.run member.0 output_max in
          let (len, k, e2) = bind-eq-ok (output_len inflate run.0 run.1 member.1 output_max) _ e1 in
          let (t, e3) = guard-eq-ok (looks_like_arm64_image (take len run.0)) _ _ e2 in
          let done = ok_injective e3 in
          let looks = looks_like_lem (take len run.0) t in
          let same : take len run.0 ≡ take info.len out = ap (λ x. take x.0.len x.1) done in
          (
            ap (λ x. x.0.base) (sym done),
            rw packed (ap (λ x. x.0.was_gzip) (sym done)),
            inr (
              packed,
              subst (λ x. 64 ≤ length x) same looks.0,
              subst (λ x. slice x 56 60 ≡ 0x41 ∷ 0x52 ∷ 0x4d ∷ 0x64 ∷ []) same looks.1,
            ),
          )
    ]
