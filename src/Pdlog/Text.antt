-- ===== src/Pdlog/Text.antt =====
-- The text that the log decoder hands out, and the request that it answers.
use yoga_slim7x_usb.Base.{
  ℕ, zero, suc, ◌+◌, ◌≤◌, ◌<◌, ◌≡◌, ◌≢◌, refl, ◌⊎◌, inl, inr, List, [], ◌∷◌, ◌++◌, ◌==◌, ok, arith,
  length, drop, take, All, Bool-cases, le32, put_le32, ◌||◌, ◌/=◌,
}
use yoga_slim7x_usb.Pdlog.{pdlog_size, pdlog_request, shown, copy_text, pdlog_decode}

-- Printable ASCII, a line feed or a tab.
abbrev pub IsPlain : ℕ → Type 0
IsPlain c = ((32 ≤ c) × (c ≤ 126)) ⊎ (c ≡ 10) ⊎ (c ≡ 9)

shown-IsPlain : (c : ℕ) → IsPlain (shown c)
unfolding shown
shown-IsPlain c = ground arith

shown_plain : (c : ℕ) → IsPlain c → shown c ≡ c
unfolding shown
shown_plain c h = ground arith

pub copy_text-IsPlain : (n : ℕ) (p : List ℕ) → All IsPlain (copy_text n p)
unfolding copy_text
copy_text-IsPlain zero p = tt
copy_text-IsPlain (suc n) [] = tt
copy_text-IsPlain (suc n) (c ∷ p) = elim (Bool-cases (c == 0)) [
  | inl z ↦ rw z tt
  | inr z ↦ rw z (shown-IsPlain c, copy_text-IsPlain n p)
]

pub length-copy_text : (n : ℕ) (p : List ℕ) → length (copy_text n p) ≤ n
unfolding copy_text
length-copy_text zero p = omega arith
length-copy_text (suc n) [] = omega arith
length-copy_text (suc n) (c ∷ p) = ground (arith, length-copy_text n p)

-- What the loop copies of a text of plain characters that ends in a zero byte.
copy_text_plain :
    (n : ℕ) (line rest : List ℕ)
    → All IsPlain line
    → length line < n
    → copy_text n (line ++ (0 ∷ rest)) ≡ line
unfolding copy_text
copy_text_plain zero line rest a h = absurd (omega arith)
copy_text_plain (suc n) [] rest a h = refl
copy_text_plain (suc n) (c ∷ line) rest a h =
    ground (arith, copy_text_plain n line rest, shown_plain c)

-- Whatever the firmware sends, a decoded log is plain text of at most 8192 characters followed by
-- a zero, so no terminal escape reaches a reader; the call writes nothing behind that zero, and
-- an error writes nothing at all.
pub pdlog_decode-IsPlain :
    (p : List ℕ) (len : ℕ) (text : List ℕ)
    → let (ret, text') = pdlog_decode p len text in
      ((ret ≢ ok) × (text' ≡ text))
      ⊎ ((ret ≡ ok)
          × (written : List ℕ) × (text' ≡ written ++ (0 ∷ drop (length written + 1) text))
          × All IsPlain written
          × (length written ≤ pdlog_size))
unfolding pdlog_decode
pdlog_decode-IsPlain p len text = elim (Bool-cases (len /= pdlog_size + 12)) [
  | inl e ↦ rw e (inl ((λ h. cc), refl))
  | inr e ↦ elim (Bool-cases (le32 p 0 /= 32778 || le32 p 4 /= 1 || le32 p 8 /= 0x18)) [
    | inl b ↦ rw (e, b) (inl ((λ h. cc), refl))
    | inr b ↦
        rw (e, b)
          (inr (
            refl,
            copy_text pdlog_size (drop 12 p),
            refl,
            copy_text-IsPlain pdlog_size (drop 12 p),
            length-copy_text pdlog_size (drop 12 p),
          ))
  ]
]

-- A reply of the right length that repeats the first 12 bytes of the request and carries a plain
-- line that ends in a zero is decoded to exactly that line.
pub pdlog_decode-request :
    (line rest text : List ℕ)
    → All IsPlain line
    → length line < pdlog_size
    → pdlog_decode (take 12 pdlog_request ++ (line ++ (0 ∷ rest))) (pdlog_size + 12) text
      ≡ (ok, line ++ (0 ∷ drop (length line + 1) text))
unfolding pdlog_decode pdlog_request le32 put_le32
pdlog_decode-request line rest text a h = rw (copy_text_plain pdlog_size line rest a h)
