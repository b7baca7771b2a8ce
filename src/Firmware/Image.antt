-- ===== src/Firmware/Image.antt =====
-- What a firmware image means: a sequence of records, each a destination in the RAM of the
-- microcontroller and the words to store there; and its bytes.
use yoga_slim7x_usb.Base.{
  ℕ, zero, suc, ◌+◌, ◌*◌, ◌%◌, ◌≤◌, ◌<◌, ◌≡◌, refl, List, [], ◌∷◌, ◌++◌, length, drop, All,
  put_le32, le32, u32_mod, arith, length-append, append_assoc, ap, ◌∙◌, length-drop, drop-drop,
}

pub record FwRecord : Type 0 where
  pub offset : ℕ
  pub words : List ℕ

-- The bytes of a list of words.
unfoldable pub words_wire : List ℕ → List ℕ
words_wire [] = []
words_wire (w ∷ ws) = put_le32 w ++ words_wire ws

-- The bytes of an image: for each record the offset, the number of words, and the words.
unfoldable pub image_wire : List FwRecord → List ℕ
image_wire [] = []
image_wire (r ∷ rs) =
    put_le32 r.offset ++ (put_le32 (length r.words) ++ (words_wire r.words ++ image_wire rs))

abbrev pub IsU32 : ℕ → Type 0
IsU32 w = w < u32_mod

abbrev pub IsByte : ℕ → Type 0
IsByte b = b < 256

-- A record that may be uploaded: aligned, inside the RAM, and its last address fits 32 bits.
pub record IsLoadable (ram_size : ℕ) (r : FwRecord) : Type 0 where
  pub aligned : r.offset % 4 ≡ 0
  pub in_ram : r.offset + length r.words * 4 ≤ ram_size
  pub no_wrap : r.offset + length r.words * 4 < u32_mod
  pub words_fit : All IsU32 r.words

-- The four bytes of a 32-bit word are read back, and are behind it.
pub length-words_wire : (ws : List ℕ) → length (words_wire ws) ≡ length ws * 4
unfolding words_wire put_le32
length-words_wire [] = refl
length-words_wire (w ∷ ws) = omega (arith, length-words_wire ws)

pub drop-words_wire :
    (ws rest : List ℕ) (n : ℕ) → n ≡ length ws * 4 → drop n (words_wire ws ++ rest) ≡ rest
unfolding words_wire put_le32
drop-words_wire [] rest n e = rw e
drop-words_wire (w ∷ ws) rest n e =
    let q : n ≡ suc (suc (suc (suc (length ws * 4)))) = omega arith in
    rw q (drop-words_wire ws rest (length ws * 4) refl)

-- The header of the first record.
pub header_offset :
    (r : FwRecord) (rs : List FwRecord)
    → r.offset < u32_mod
    → le32 (image_wire (r ∷ rs)) 0 ≡ r.offset
unfolding image_wire put_le32 le32
header_offset r rs h = omega arith

pub header_words :
    (r : FwRecord) (rs : List FwRecord)
    → length r.words < u32_mod
    → le32 (image_wire (r ∷ rs)) 4 ≡ length r.words
unfolding image_wire put_le32 le32
header_words r rs h = omega arith

pub header_drop :
    (r : FwRecord) (rs : List FwRecord)
    → drop 8 (image_wire (r ∷ rs)) ≡ words_wire r.words ++ image_wire rs
unfolding image_wire put_le32
header_drop r rs = refl

pub length-image_wire :
    (r : FwRecord) (rs : List FwRecord)
    → length (image_wire (r ∷ rs)) ≡ 8 + length r.words * 4 + length (image_wire rs)
unfolding image_wire put_le32
length-image_wire r rs =
    omega (arith, length-append (words_wire r.words) (image_wire rs), length-words_wire r.words)

-- Reading back: the words that `n` groups of four bytes stand for.
unfoldable pub read_words : (n : ℕ) → List ℕ → List ℕ
read_words zero p = []
read_words (suc n) p = le32 p 0 ∷ read_words n (drop 4 p)

pub length-read_words : (n : ℕ) (p : List ℕ) → length (read_words n p) ≡ n
unfolding read_words
length-read_words zero p = refl
length-read_words (suc n) p = ap suc (length-read_words n (drop 4 p))

-- Four bytes are the bytes of the word that they stand for.
pub put_le32-le32 : (p : List ℕ) → 4 ≤ length p → All IsByte p → put_le32 (le32 p 0) ++ drop 4 p ≡ p
unfolding put_le32 le32
put_le32-le32 [] h b = absurd (omega arith)
put_le32-le32 (a ∷ []) h b = absurd (omega arith)
put_le32-le32 (a ∷ c ∷ []) h b = absurd (omega arith)
put_le32-le32 (a ∷ c ∷ d ∷ []) h b = absurd (omega arith)
put_le32-le32 (a ∷ c ∷ d ∷ e ∷ p) h b = ground arith

pub le32-IsU32 : (p : List ℕ) → 4 ≤ length p → All IsByte p → le32 p 0 < u32_mod
unfolding le32
le32-IsU32 [] h b = absurd (omega arith)
le32-IsU32 (a ∷ []) h b = absurd (omega arith)
le32-IsU32 (a ∷ c ∷ []) h b = absurd (omega arith)
le32-IsU32 (a ∷ c ∷ d ∷ []) h b = absurd (omega arith)
le32-IsU32 (a ∷ c ∷ d ∷ e ∷ p) h b = omega arith

pub All-drop {ℓ κ} :
    {A : Type ℓ} (P : A → Type κ) (n : ℕ) (xs : List A) → All P xs → All P (drop n xs)
All-drop P zero xs h = h
All-drop P (suc n) [] h = h
All-drop P (suc n) (x ∷ xs) h = All-drop P n xs h.1

pub words_wire-read_words :
    (n : ℕ) (p : List ℕ)
    → n * 4 ≤ length p
    → All IsByte p
    → (words_wire (read_words n p) ++ drop (n * 4) p ≡ p) × All IsU32 (read_words n p)
unfolding words_wire read_words
words_wire-read_words zero p h b = (refl, tt)
words_wire-read_words (suc n) p h b =
    let (same, fit) =
      words_wire-read_words n (drop 4 p) (omega (arith, length-drop 4 p)) (All-drop IsByte 4 p b) in
    let e : 4 + n * 4 ≡ suc n * 4 = omega arith in
    let d : drop (n * 4) (drop 4 p) ≡ drop (suc n * 4) p =
      drop-drop 4 (n * 4) p ∙ ap (λ (k : ℕ). drop k p) e in
    (
      append_assoc (put_le32 (le32 p 0)) (words_wire (read_words n (drop 4 p))) (drop (suc n * 4) p)
          ∙ ap (λ (q : List ℕ). put_le32 (le32 p 0) ++ q) (rw (← d) same)
          ∙ put_le32-le32 p (omega arith) b,
      (le32-IsU32 p (omega arith) b, fit),
    )
