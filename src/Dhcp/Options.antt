-- ===== src/Dhcp/Options.antt =====
-- The reader of the DHCP options reads back what the writer wrote.
use mathlib.Core.Path.{subst}
use rp1_bootloader_po_c.Base.{◌>>=◌}
use rp1_bootloader_po_c.Base.{append-nil}
use rp1_bootloader_po_c.Base.{length-drop}
use rp1_bootloader_po_c.Dhcp.{encode}
use rp1_bootloader_po_c.Dhcp.{checked_add}
use rp1_bootloader_po_c.Base.{ok_or}
use rp1_bootloader_po_c.Base.{bind-eq-ok}
use rp1_bootloader_po_c.Base.{guard-eq-ok}
use rp1_bootloader_po_c.Base.{append_assoc}
use rp1_bootloader_po_c.Base.{true}
use rp1_bootloader_po_c.Base.{false}
use rp1_bootloader_po_c.Base.{
  ℕ, zero, suc, ◌+◌, ◌≤◌, ◌<◌, ◌≡◌, ◌≢◌, refl, ap, sym, ◌∙◌, arith, List, [], ◌∷◌, ◌++◌, length,
  drop, set, copy_at, All, Result, ok, length-append, take-length, drop-length, leb, ◌==◌, ltb,
}
use rp1_bootloader_po_c.Dhcp.{
  DhcpOptions, DhcpError, OptionsWriter, default_options, take_option, split_value, option_step,
  parse_options, parse_dhcp_options, option_bytes, end_options, go_on,
}

-- An option as it is meant: a code and a value.
abbrev pub DhcpOption : Type 0
DhcpOption = ℕ × List ℕ

-- The codes that are not options of their own, and the values that one length byte can count.
abbrev pub IsOption : DhcpOption → Type 0
IsOption (code, value) = (code ≢ 0) × (code ≢ 255) × (length value < 256)

abbrev pub layout : List DhcpOption → List ℕ
layout [] = []
layout (o ∷ os) = (o.0 ∷ length o.1 ∷ o.1) ++ layout os

abbrev pub take_all : DhcpOptions → List DhcpOption → DhcpOptions
take_all parsed [] = parsed
take_all parsed (o ∷ os) = take_all (take_option o.0 o.1 parsed) os

-- One option is read whole.
option_step-option :
    (o : DhcpOption) (rest : List ℕ) (parsed : DhcpOptions)
    → IsOption o
    → option_step o.0 (length o.1 ∷ o.1 ++ rest) parsed ≡ go_on rest (take_option o.0 o.1 parsed)
unfolding option_step split_value
option_step-option o rest parsed h =
    let a : (o.0 == 0) ≡ false = ground arith in
    let b : (o.0 == 255) ≡ false = ground arith in
    let c : leb (length o.1) (length (o.1 ++ rest)) ≡ true =
      ground (arith, length-append o.1 rest) in
    rw (a, b, c, take-length o.1 rest, drop-length o.1 rest) refl

parse_options-go_on :
    (fuel code : ℕ) (options rest : List ℕ) (parsed next : DhcpOptions)
    → option_step code options parsed ≡ go_on rest next
    → parse_options (suc fuel) (code ∷ options) parsed ≡ parse_options fuel rest next
unfolding parse_options
parse_options-go_on fuel code options rest parsed next e = rw (parse_options, e) refl

parse_options-end :
    (fuel : ℕ) (rest : List ℕ) (parsed : DhcpOptions)
    → parse_options (suc fuel) (255 ∷ rest) parsed ≡ ok parsed
unfolding parse_options option_step
parse_options-end fuel rest parsed = refl

parse_options-layout :
    (os : List DhcpOption) (fuel : ℕ) (rest : List ℕ) (parsed : DhcpOptions)
    → All IsOption os
    → length (layout os) < fuel
    → parse_options fuel (layout os ++ 255 ∷ rest) parsed ≡ ok (take_all parsed os)
parse_options-layout os zero rest parsed h k = absurd (omega arith)
parse_options-layout [] (suc fuel) rest parsed h k = parse_options-end fuel rest parsed
parse_options-layout (o ∷ os) (suc fuel) rest parsed h k =
    let area = layout os ++ 255 ∷ rest in
    let next = take_option o.0 o.1 parsed in
    let one = option_step-option o area parsed h.0 in
    let later =
      parse_options-layout os fuel rest next h.1 (omega (arith, length-append o.1 (layout os))) in
    rw (append_assoc o.1 (layout os) (255 ∷ rest))
      (parse_options-go_on fuel o.0 (length o.1 ∷ o.1 ++ area) area parsed next one ∙ later)

-- An option area is a well-formed list of options, an end mark and anything behind it: the reader
-- finds the options, each in its turn, and nothing of what follows the mark.
pub parse_dhcp_options-layout :
    (os : List DhcpOption) (rest : List ℕ)
    → All IsOption os
    → parse_dhcp_options (layout os ++ 255 ∷ rest) ≡ ok (take_all default_options os)
unfolding parse_dhcp_options
parse_dhcp_options-layout os rest h =
    parse_options-layout os (length (layout os ++ 255 ∷ rest)) rest default_options h
      (omega (arith, length-append (layout os) (255 ∷ rest)))

-- A writer that has written the options `os` and no more.
pub record IsWriter (w : OptionsWriter) (os : List DhcpOption) : Type 0 where
  pub tail : List ℕ
  pub buf_is : w.buf ≡ layout os ++ tail
  pub pos_is : w.pos ≡ length (layout os)

write_behind :
    (xs : List ℕ) (a b : ℕ) (t : List ℕ) (c n : ℕ) (v : List ℕ)
    → copy_at (set (set (xs ++ (a ∷ b ∷ t)) (length xs) c) (length xs + 1) n) (length xs + 2) v
      ≡ xs ++ ((c ∷ n ∷ v) ++ drop (length v) t)
write_behind [] a b t c n v = let e : 2 + length v ≡ suc (suc (length v)) = omega arith in rw e refl
write_behind (x ∷ xs) a b t c n v =
    let e1 : suc (length xs) + 1 ≡ suc (length xs + 1) = omega arith in
    let e2 : suc (length xs) + 2 ≡ suc (length xs + 2) = omega arith in
    let e3 : suc (length xs + 2) + length v ≡ suc (length xs + 2 + length v) = omega arith in
    rw (e1, e2, e3) (ap (◌∷◌ x) (write_behind xs a b t c n v))

set_behind :
    (xs : List ℕ) (a : ℕ) (t : List ℕ) (c : ℕ) → set (xs ++ (a ∷ t)) (length xs) c ≡ xs ++ (c ∷ t)
set_behind [] a t c = refl
set_behind (x ∷ xs) a t c = ap (◌∷◌ x) (set_behind xs a t c)

layout-append : (os ps : List DhcpOption) → layout (os ++ ps) ≡ layout os ++ layout ps
layout-append [] ps = refl
layout-append (o ∷ os) ps =
    ap (λ l. o.0 ∷ length o.1 ∷ l)
      (ap (λ l. o.1 ++ l) (layout-append os ps) ∙ sym (append_assoc o.1 (layout os) (layout ps)))

-- The fields that a successful `option_bytes` leaves.
option_bytes-fields :
    (w w2 : OptionsWriter) (code : ℕ) (value : List ℕ)
    → option_bytes w code value ≡ ok w2
    → (length value < 256)
      × (w.pos + 2 + length value ≤ length w.buf)
      × (w2.pos ≡ w.pos + 2 + length value)
      × (w2.buf ≡ copy_at (set (set w.buf w.pos code) (w.pos + 1) (length value)) (w.pos + 2) value)
unfolding option_bytes
option_bytes-fields w w2 code value e =
    let (t1, e1) = guard-eq-ok (leb (length value) 255) _ _ e in
    let (r, h, e2) = bind-eq-ok (ok_or (checked_add w.pos 2) encode) _ e1 in
    let (n, k, e3) = bind-eq-ok (ok_or (checked_add r (length value)) encode) _ e2 in
    let (t2, e4) = guard-eq-ok (leb n (length w.buf)) _ _ e3 in
    let r_is : r ≡ w.pos + 2 = ground arith in
    let n_is : n ≡ r + length value = ground arith in
    let done : record {
      buf = copy_at (set (set w.buf w.pos code) (w.pos + 1) (length value)) (w.pos + 2) value;
      pos = n;
    }
        ≡ w2 =
      cc in
    (ground arith, ground arith, omega (arith, ap (λ x. x.pos) done), sym (ap (λ x. x.buf) done))

append_option :
    (xs tail : List ℕ) (c : ℕ) (v : List ℕ)
    → 2 + length v ≤ length tail
    → copy_at (set (set (xs ++ tail) (length xs) c) (length xs + 1) (length v)) (length xs + 2) v
      ≡ xs ++ ((c ∷ length v ∷ v) ++ drop (length v) (drop 2 tail))
append_option xs [] c v h = absurd (omega arith)
append_option xs (a ∷ []) c v h = absurd (omega arith)
append_option xs (a ∷ b ∷ t) c v h = write_behind xs a b t c (length v) v

layout-snoc :
    (os : List DhcpOption) (code : ℕ) (value : List ℕ)
    → layout (os ++ (code, value) ∷ []) ≡ layout os ++ (code ∷ length value ∷ value)
layout-snoc os code value =
    layout-append os ((code, value) ∷ [])
    ∙ ap (λ l. layout os ++ (code ∷ length value ∷ l)) (append-nil value)

-- A write that succeeds appends the option to what was written, in the bounds of the buffer.
option_bytes-IsWriter :
    (w w2 : OptionsWriter) (os : List DhcpOption) (code : ℕ) (value : List ℕ)
    → IsWriter w os
    → option_bytes w code value ≡ ok w2
    → IsWriter w2 (os ++ (code, value) ∷ []) × (length w2.buf ≡ length w.buf)
option_bytes-IsWriter w w2 os code value i e =
    let (small, fits, pos, buf) = option_bytes-fields w w2 code value e in
    let room : 2 + length value ≤ length i.tail =
      omega (arith, ap length i.buf_is, length-append (layout os) i.tail, i.pos_is) in
    let written = append_option (layout os) i.tail code value room in
    let tail = drop (length value) (drop 2 i.tail) in
    let now : w2.buf ≡ layout (os ++ (code, value) ∷ []) ++ tail =
      rw (layout-snoc os code value, append_assoc (layout os) (code ∷ length value ∷ value) tail)
        (rw (i.buf_is, i.pos_is) at buf ∙ written) in
    let where_now : w2.pos ≡ length (layout (os ++ (code, value) ∷ [])) =
      rw (layout-snoc os code value)
        (omega (arith, i.pos_is, length-append (layout os) (code ∷ length value ∷ value))) in
    (
      record { tail = tail; buf_is = now; pos_is = where_now },
      omega (
        arith,
        ap length i.buf_is,
        ap length now,
        ap length (layout-snoc os code value),
        length-append (layout os) i.tail,
        length-append (layout os) (code ∷ length value ∷ value),
        length-append (layout (os ++ (code, value) ∷ [])) tail,
        length-drop (length value) (drop 2 i.tail),
        length-drop 2 i.tail,
      ),
    )

-- Writing a list of options, one call after the other.
unfoldable pub write_options : OptionsWriter → List DhcpOption → Result DhcpError OptionsWriter
write_options w [] = ok w
write_options w (o ∷ os) = option_bytes w o.0 o.1 >>= (λ next. write_options next os)

write_options-IsWriter :
    (w w2 : OptionsWriter) (done os : List DhcpOption)
    → IsWriter w done
    → write_options w os ≡ ok w2
    → IsWriter w2 (done ++ os)
unfolding write_options
write_options-IsWriter w w2 done [] i e =
    let same : w ≡ w2 = cc in rw (append-nil done) (subst (λ x. IsWriter x done) same i)
write_options-IsWriter w w2 done (o ∷ os) i e =
    let (next, h, e1) = bind-eq-ok (option_bytes w o.0 o.1) (λ n. write_options n os) e in
    let one = (option_bytes-IsWriter w next done o.0 o.1 i h).0 in
    rw (← append_assoc done (o ∷ []) os) (write_options-IsWriter next w2 (done ++ o ∷ []) os one e1)

ended :
    (w w2 : OptionsWriter) (os : List DhcpOption) (tail : List ℕ)
    → All IsOption os
    → w.buf ≡ layout os ++ tail
    → w.pos ≡ length (layout os)
    → end_options w ≡ ok w2
    → parse_dhcp_options w2.buf ≡ ok (take_all default_options os)
unfolding end_options
ended w w2 os [] h buf pos k = absurd (ground (arith, ap length buf, length-append (layout os) []))
ended w w2 os (a ∷ t) h buf pos k =
    let (t1, e1) = guard-eq-ok (ltb w.pos (length w.buf)) _ _ k in
    let done : record { buf = set w.buf w.pos 255; pos = w.pos } ≡ w2 = cc in
    let now : w2.buf ≡ layout os ++ 255 ∷ t =
      sym (ap (λ x. x.buf) done) ∙ rw (buf, pos) (set_behind (layout os) a t 255) in
    rw now (parse_dhcp_options-layout os t h)

-- Options that the writer has written and ended are read back, each in its turn, whatever the
-- buffer held before.
pub parse_dhcp_options-write_options :
    (buf : List ℕ) (os : List DhcpOption) (w w2 : OptionsWriter)
    → All IsOption os
    → write_options (record { buf = buf; pos = 0 }) os ≡ ok w
    → end_options w ≡ ok w2
    → parse_dhcp_options w2.buf ≡ ok (take_all default_options os)
parse_dhcp_options-write_options buf os w w2 h e k =
    let start : IsWriter (record { buf = buf; pos = 0 }) [] = record {
      tail = buf;
      buf_is = refl;
      pos_is = refl;
    } in
    let i = write_options-IsWriter (record { buf = buf; pos = 0 }) w [] os start e in
    ended w w2 os i.tail h i.buf_is i.pos_is k
