-- ===== src/Firmware/Upload.antt =====
-- The upload stores exactly the words of the image, in order, and nothing for a bad image.
use yoga_slim7x_usb.Base.{
  ℕ, zero, suc, ◌+◌, ◌-◌, ◌*◌, ◌%◌, ◌≤◌, ◌<◌, ◌≡◌, ◌≢◌, refl, sym, ap, ◌∙◌, List, [], ◌∷◌, ◌++◌,
  some, false, ◌==◌, Status, ok, proceed, length, drop, All, u32_mod, arith, put_le32,
  le32-put_le32, proceed_ext, proceed_assoc, All-append,
}
use yoga_slim7x_usb.Firmware.{write_words, upload_loop, fw_validate, fw_upload}
use yoga_slim7x_usb.Firmware.Image.{
  FwRecord, words_wire, image_wire, IsU32, IsByte, IsLoadable, drop-words_wire, header_offset,
  header_words, header_drop, length-image_wire,
}
use yoga_slim7x_usb.Firmware.Validate.{fw_validate_accepts, fw_validate_sound}

-- The writes that a record asks for: its words at consecutive addresses.
unfoldable pub record_writes : ℕ → List ℕ → List (ℕ × ℕ)
record_writes offset [] = []
record_writes offset (w ∷ ws) = (offset, w) ∷ record_writes (offset + 4) ws

-- The writes that an image asks for, record after record.
unfoldable pub image_writes : List FwRecord → List (ℕ × ℕ)
image_writes [] = []
image_writes (r ∷ rs) = record_writes r.offset r.words ++ image_writes rs

module _ {S : Type 0} (write_word : S → ℕ → ℕ → Status × S) where
  -- Writes made one after the other, up to the first that fails.
  unfoldable pub run_writes : List (ℕ × ℕ) → S → Status × S
  run_writes [] s = (ok, s)
  run_writes ((o, v) ∷ ws) s = proceed (write_word s o v) (run_writes ws)

  run_writes-append :
      (xs ys : List (ℕ × ℕ)) (s : S)
      → run_writes (xs ++ ys) s ≡ proceed (run_writes xs s) (run_writes ys)
  unfolding run_writes
  run_writes-append [] ys s = refl
  run_writes-append ((o, v) ∷ xs) ys s =
      proceed_ext (write_word s o v) (run_writes (xs ++ ys))
        (λ t. proceed (run_writes xs t) (run_writes ys)) (λ t. run_writes-append xs ys t)
      ∙ sym (proceed_assoc (write_word s o v) (run_writes xs) (run_writes ys))

  write_words-run :
      (ws rest : List ℕ) (offset : ℕ) (s : S)
      → offset + length ws * 4 < u32_mod
      → All IsU32 ws
      → write_words write_word (length ws) offset (words_wire ws ++ rest) s
        ≡ run_writes (record_writes offset ws) s
  unfolding write_words words_wire record_writes run_writes put_le32
  write_words-run [] rest offset s h u = refl
  write_words-run (w ∷ ws) rest offset s h u =
      let e : (offset + 4) % u32_mod ≡ offset + 4 = omega arith in
      rw (le32-put_le32 w (words_wire ws ++ rest) u.0, e)
        (proceed_ext (write_word s offset w)
          (write_words write_word (length ws) (offset + 4) (words_wire ws ++ rest))
          (run_writes (record_writes (offset + 4) ws))
          (λ t. write_words-run ws rest (offset + 4) t (omega arith) u.1))

  upload_loop-run :
      (fuel ram_size : ℕ) (rs : List FwRecord) (s : S)
      → length (image_wire rs) ≤ fuel
      → All (IsLoadable ram_size) rs
      → upload_loop write_word fuel (image_wire rs) (length (image_wire rs)) s
        ≡ run_writes (image_writes rs) s
  unfolding upload_loop image_writes run_writes
  upload_loop-run zero ram [] s f h = refl
  upload_loop-run (suc n) ram [] s f h = unfold image_wire in refl
  upload_loop-run zero ram (r ∷ rs) s f h = absurd (omega (arith, length-image_wire r rs))
  upload_loop-run (suc n) ram (r ∷ rs) s f h =
      let lo : r.offset < u32_mod = omega arith in
      let lw : length r.words < u32_mod = omega arith in
      let len = length-image_wire r rs in
      let left' : length (image_wire (r ∷ rs)) - 8 - length r.words * 4 ≡ length (image_wire rs) =
        omega arith in
      let rest' : drop (length r.words * 4) (words_wire r.words ++ image_wire rs) ≡ image_wire rs =
        drop-words_wire r.words (image_wire rs) (length r.words * 4) refl in
      let some_left : (length (image_wire (r ∷ rs)) == 0) ≡ false = ground arith in
      rw (header_offset r rs lo, header_words r rs lw, header_drop r rs, left', rest', some_left)
        (ap
            (λ (q : Status × S).
              proceed q (upload_loop write_word n (image_wire rs) (length (image_wire rs))))
            (write_words-run r.words (image_wire rs) r.offset s (omega arith) h.0.words_fit)
          ∙ proceed_ext (run_writes (record_writes r.offset r.words) s)
              (upload_loop write_word n (image_wire rs) (length (image_wire rs)))
              (run_writes (image_writes rs)) (λ t. upload_loop-run n ram rs t (omega arith) h.1)
          ∙ sym (run_writes-append (record_writes r.offset r.words) (image_writes rs) s))

-- Uploading an image of loadable records makes exactly the writes that the records ask for, each
-- word at its own address, in the order of the image, and ends as the last callback does or as
-- the first that fails.
pub fw_upload_writes :
    {S : Type 0} (write_word : S → ℕ → ℕ → Status × S) (ram_size : ℕ) (r : FwRecord)
    (rs : List FwRecord) (s : S)
    → All (IsLoadable ram_size) (r ∷ rs)
    → let p = image_wire (r ∷ rs) in
      fw_upload (some p) (length p) ram_size (some write_word) s
      ≡ run_writes write_word (image_writes (r ∷ rs)) s
unfolding fw_upload
fw_upload_writes write_word ram r rs s h =
    rw (fw_validate_accepts ram r rs h)
      (upload_loop-run write_word (length (image_wire (r ∷ rs))) ram (r ∷ rs) s (omega arith) h)

-- A bad image never reaches the callback: whatever is wrong with any of its records, the upload
-- returns the error of the validation and the state is as before.
pub fw_upload_refused :
    {S : Type 0} (write_word : S → ℕ → ℕ → Status × S) (p : List ℕ) (size ram_size : ℕ) (s : S)
    → fw_validate (some p) size ram_size ≢ ok
    → fw_upload (some p) size ram_size (some write_word) s ≡ (fw_validate (some p) size ram_size, s)
unfolding fw_upload
fw_upload_refused write_word p size ram s h = ground arith

-- The addresses of the writes of a record: aligned and inside the RAM.
abbrev pub InRam : ℕ → ℕ × ℕ → Type 0
InRam ram_size (o, v) = (o % 4 ≡ 0) × (o + 4 ≤ ram_size) × (v < u32_mod)

record_writes-InRam :
    (ram_size offset : ℕ) (ws : List ℕ)
    → offset % 4 ≡ 0
    → offset + length ws * 4 ≤ ram_size
    → All IsU32 ws
    → All (InRam ram_size) (record_writes offset ws)
unfolding record_writes
record_writes-InRam ram offset [] a h u = tt
record_writes-InRam ram offset (w ∷ ws) a h u =
    ((a, omega arith, u.0), record_writes-InRam ram (offset + 4) ws (omega arith) (omega arith) u.1)

-- A write of a loadable image is a 32-bit word at an aligned address with all four bytes inside
-- the RAM.
pub image_writes-InRam :
    (ram_size : ℕ) (rs : List FwRecord)
    → All (IsLoadable ram_size) rs
    → All (InRam ram_size) (image_writes rs)
unfolding image_writes
image_writes-InRam ram [] h = tt
image_writes-InRam ram (r ∷ rs) h =
    All-append (InRam ram) (record_writes r.offset r.words) (image_writes rs)
      (record_writes-InRam ram r.offset r.words (omega arith) (omega arith) h.0.words_fit)
      (image_writes-InRam ram rs h.1)

upload-InRam :
    {S : Type 0} (write_word : S → ℕ → ℕ → Status × S) (ram_size : ℕ) (p : List ℕ)
    (rs : List FwRecord) (s : S)
    → fw_validate (some p) (length p) ram_size ≡ ok
    → image_wire rs ≡ p
    → All (IsLoadable ram_size) rs
    → fw_upload (some p) (length p) ram_size (some write_word) s
      ≡ run_writes write_word (image_writes rs) s
upload-InRam write_word ram p [] s v e h = absurd (unfold image_wire fw_validate in cc (v, e))
upload-InRam write_word ram p (r ∷ rs) s v e h = rw (← e) (fw_upload_writes write_word ram r rs s h)

-- An image that the validator accepts is that of a list of records, whose words are uploaded.
pub fw_upload-image :
    {S : Type 0} (write_word : S → ℕ → ℕ → Status × S) (ram_size : ℕ) (p : List ℕ) (s : S)
    → All IsByte p
    → fw_validate (some p) (length p) ram_size ≡ ok
    → (rs : List FwRecord) × (image_wire rs ≡ p)
      × All (IsLoadable ram_size) rs
      × (fw_upload (some p) (length p) ram_size (some write_word) s
          ≡ run_writes write_word (image_writes rs) s)
      × All (InRam ram_size) (image_writes rs)
fw_upload-image write_word ram p s b v =
    let (rs, e, h) = fw_validate_sound ram p b v in
    (rs, e, h, upload-InRam write_word ram p rs s v e h, image_writes-InRam ram rs h)

-- Whatever bytes the validator accepts, the upload calls back only for 32-bit words at aligned
-- addresses with all four bytes inside the RAM, one after the other up to the first that fails.
pub fw_upload-InRam :
    {S : Type 0} (write_word : S → ℕ → ℕ → Status × S) (ram_size : ℕ) (p : List ℕ) (s : S)
    → All IsByte p
    → fw_validate (some p) (length p) ram_size ≡ ok
    → (ws : List (ℕ × ℕ)) × (fw_upload (some p) (length p) ram_size (some write_word) s
        ≡ run_writes write_word ws s)
      × All (InRam ram_size) ws
fw_upload-InRam write_word ram p s b v =
    let (rs, e, h, q, r) = fw_upload-image write_word ram p s b v in (image_writes rs, q, r)
