-- ===== src/Firmware/Validate.antt =====
-- The validator accepts exactly the images that decode into loadable records.
use yoga_slim7x_usb.Base.{
  ℕ, zero, suc, ◌+◌, ◌-◌, ◌*◌, ◌%◌, ◌≤◌, ◌<◌, ◌≡◌, ◌≢◌, refl, List, [], ◌∷◌, ◌++◌, some, ok, length,
  drop, All, le32, u32_mod, arith, length-drop, put_le32, le32-drop, drop-drop,
}
use yoga_slim7x_usb.Firmware.{validate_loop, fw_validate}
use yoga_slim7x_usb.Firmware.Image.{
  FwRecord, words_wire, image_wire, IsByte, IsLoadable, drop-words_wire, header_offset,
  header_words, header_drop, length-image_wire, read_words, length-read_words, put_le32-le32,
  le32-IsU32, All-drop, words_wire-read_words,
}

validate_loop-image_wire :
    (fuel ram_size : ℕ) (rs : List FwRecord)
    → length (image_wire rs) ≤ fuel
    → All (IsLoadable ram_size) rs
    → validate_loop fuel (image_wire rs) (length (image_wire rs)) ram_size ≡ ok
unfolding validate_loop
validate_loop-image_wire zero ram [] f h = unfold image_wire in refl
validate_loop-image_wire (suc n) ram [] f h = unfold image_wire in refl
validate_loop-image_wire zero ram (r ∷ rs) f h = absurd (omega (arith, length-image_wire r rs))
validate_loop-image_wire (suc n) ram (r ∷ rs) f h =
    let lo : r.offset < u32_mod = omega arith in
    let lw : length r.words < u32_mod = omega arith in
    let len = length-image_wire r rs in
    let left' : length (image_wire (r ∷ rs)) - 8 - length r.words * 4 ≡ length (image_wire rs) =
      omega arith in
    let rest' : drop (length r.words * 4) (words_wire r.words ++ image_wire rs) ≡ image_wire rs =
      drop-words_wire r.words (image_wire rs) (length r.words * 4) refl in
    rw (header_offset r rs lo, header_words r rs lw, header_drop r rs, left', rest')
      (ground (arith, validate_loop-image_wire n ram rs (omega arith) h.1))

-- The first record of an image that the loop lets pass.
abbrev first_record : List ℕ → FwRecord
first_record p = record { offset = le32 p 0; words = read_words (le32 p 4) (drop 8 p) }

first_record-image :
    (p : List ℕ)
    → 8 + le32 p 4 * 4 ≤ length p
    → All IsByte p
    → (rs : List FwRecord) → image_wire rs ≡ drop (le32 p 4 * 4) (drop 8 p)
    → image_wire (first_record p ∷ rs) ≡ p
unfolding image_wire
first_record-image p h b rs e =
    let k : ℕ = le32 p 4 in
    let q : List ℕ = drop 8 p in
    let words =
      (words_wire-read_words k q (omega (arith, length-drop 8 p)) (All-drop IsByte 8 p b)).0 in
    let half : put_le32 (le32 p 4) ++ drop 8 p ≡ drop 4 p =
      rw (← le32-drop 4 p, ← drop-drop 4 4 p)
        (put_le32-le32 (drop 4 p) (omega (arith, length-drop 4 p)) (All-drop IsByte 4 p b)) in
    rw (length-read_words k q, e, words, half) (put_le32-le32 p (omega arith) b)

-- What a round of the loop has checked when the loop accepts.
validate_round :
    (n left ram_size : ℕ) (p : List ℕ)
    → left ≢ 0
    → validate_loop (suc n) p left ram_size ≡ ok
    → (8 ≤ left)
      × (le32 p 4 * 4 ≤ left - 8)
      × (le32 p 0 % 4 ≡ 0)
      × (le32 p 4 * 4 ≤ u32_mod - 1 - le32 p 0)
      × (le32 p 0 ≤ ram_size)
      × (le32 p 4 * 4 ≤ ram_size - le32 p 0)
      × (validate_loop n (drop (le32 p 4 * 4) (drop 8 p)) (left - 8 - le32 p 4 * 4) ram_size ≡ ok)
unfolding validate_loop
validate_round n left ram p ne h = ground arith

validate_loop_sound :
    (fuel ram_size left : ℕ) (p : List ℕ)
    → length p ≡ left
    → left ≤ fuel
    → All IsByte p
    → validate_loop fuel p left ram_size ≡ ok
    → (rs : List FwRecord) × (image_wire rs ≡ p) × All (IsLoadable ram_size) rs
validate_loop_sound fuel ram left [] l f b h = ([], unfold image_wire in refl, tt)
validate_loop_sound zero ram left (x ∷ p) l f b h = absurd (omega arith)
validate_loop_sound (suc n) ram left (x ∷ t) l f b h =
    let p : List ℕ = x ∷ t in
    let (long, fits, aligned, wide, low, inside, more) =
      validate_round n left ram p (omega arith) h in
    let k : ℕ = le32 p 4 in
    let rest : List ℕ = drop (k * 4) (drop 8 p) in
    let len : length rest ≡ left - 8 - k * 4 =
      omega (arith, length-drop (k * 4) (drop 8 p), length-drop 8 p) in
    let (rs, same, good) =
      validate_loop_sound n ram (left - 8 - k * 4) rest len (omega arith)
        (All-drop IsByte (k * 4) (drop 8 p) (All-drop IsByte 8 p b)) more in
    let words =
      words_wire-read_words k (drop 8 p) (omega (arith, length-drop 8 p)) (All-drop IsByte 8 p b) in
    let count = length-read_words k (drop 8 p) in
    let small = le32-IsU32 p (omega arith) b in
    (
      first_record p ∷ rs,
      first_record-image p (omega arith) b rs same,
      (
        record {
          aligned = aligned;
          in_ram = omega arith;
          no_wrap = omega arith;
          words_fit = words.1;
        },
        good,
      ),
    )

-- The validator accepts every image that consists of at least one record, all of them aligned,
-- inside the RAM and below the 32-bit limit.
pub fw_validate_accepts :
    (ram_size : ℕ) (r : FwRecord) (rs : List FwRecord)
    → All (IsLoadable ram_size) (r ∷ rs)
    → fw_validate (some (image_wire (r ∷ rs))) (length (image_wire (r ∷ rs))) ram_size ≡ ok
unfolding fw_validate
fw_validate_accepts ram r rs h =
    let go = validate_loop-image_wire (length (image_wire (r ∷ rs))) ram (r ∷ rs) (omega arith) h in
    ground (arith, go, length-image_wire r rs)

-- An image that the validator accepts is exactly the bytes of a list of loadable records: nothing
-- is left over, nothing overlaps the end of the RAM, and every destination is aligned.
pub fw_validate_sound :
    (ram_size : ℕ) (p : List ℕ)
    → All IsByte p
    → fw_validate (some p) (length p) ram_size ≡ ok
    → (rs : List FwRecord) × (image_wire rs ≡ p) × All (IsLoadable ram_size) rs
unfolding fw_validate
fw_validate_sound ram [] b h = cc
fw_validate_sound ram (x ∷ p) b h =
    validate_loop_sound (length (x ∷ p)) ram (length (x ∷ p)) (x ∷ p) refl (omega arith) b
      (ground arith)
