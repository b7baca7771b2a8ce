-- ===== src/Typec/Word.antt =====
-- The fields of a connect word: the `|` of the code is a sum, from which each field is read back.
use yoga_slim7x_usb.Base.{ℕ, ◌+◌, ◌*◌, ◌^◌, ◌<◌, bit_or, ◌≡◌, arith}
use yoga_slim7x_usb.Base.Bits.{bit_or_fields}
use yoga_slim7x_usb.Typec.{connect_bits}

-- Within their ranges the fields do not overlap.
pub connect_bits-eq-sum :
    (mode orientation board class speed : ℕ)
    → mode < 2
    → orientation < 2
    → board < 2
    → class < 4
    → connect_bits mode orientation board class speed
      ≡ 1 + mode * 256 + orientation * 512 + board * 1024 + class * 2048 + speed * 8192
unfolding connect_bits
connect_bits-eq-sum m o b c s hm ho hb hc =
    let e1 : bit_or 1 (m * 2 ^ 8) ≡ 1 + m * 256 = bit_or_fields 8 m 1 (omega arith) in
    let e2 : bit_or (1 + m * 256) (o * 2 ^ 9) ≡ 1 + m * 256 + o * 512 =
      bit_or_fields 9 o (1 + m * 256) (omega arith) in
    let e3 : bit_or (1 + m * 256 + o * 512) (b * 2 ^ 10) ≡ 1 + m * 256 + o * 512 + b * 1024 =
      bit_or_fields 10 b (1 + m * 256 + o * 512) (omega arith) in
    let e4 : bit_or (1 + m * 256 + o * 512 + b * 1024) (c * 2 ^ 11)
        ≡ 1 + m * 256 + o * 512 + b * 1024 + c * 2048 =
      bit_or_fields 11 c (1 + m * 256 + o * 512 + b * 1024) (omega arith) in
    rw (e1, e2, e3, e4)
      (bit_or_fields 13 s (1 + m * 256 + o * 512 + b * 1024 + c * 2048) (omega arith))
