-- ===== src/Base/Words.antt =====
-- Machine words as native numbers, bits by division, and the kernel's unaligned accessors.
use Prim.Native.Nat.{ℕ, zero, suc, ◌+◌, ◌-◌, ◌*◌, ◌/◌, ◌%◌, ◌^◌, ◌<◌}
use mathlib.Core.Path.{◌≡◌, refl, sym, ap, ◌∙◌}
use mathlib.Core.Bool.{Bool}
use mathlib.Core.List.{List, [], ◌∷◌, ◌++◌}
use native.Mathlib.Omega.{arith}
use native.Mathlib.Nat.{add-zero}
use yoga_slim7x_usb.Base.Tests.{◌==◌}
use yoga_slim7x_usb.Base.Lists.{get_or, drop, length, drop-length-append}

abbrev pub u8_mod : ℕ
u8_mod = 256

abbrev pub u32_mod : ℕ
u32_mod = 4294967296

-- `x << k` of an unsigned int, with the wrap written out.
abbrev pub shl32 : ℕ → ℕ → ℕ
shl32 x k = x * 2 ^ k % u32_mod

-- `(x >> k) & ((1 << n) - 1)`.
abbrev pub field : ℕ → ℕ → ℕ → ℕ
field x k n = x / 2 ^ k % 2 ^ n

-- `x & BIT(k)` as a condition.
abbrev pub bit : ℕ → ℕ → Bool
bit x k = x / 2 ^ k % 2 == 1

-- `x & ~(((1 << n) - 1) << k)`.
abbrev pub clear_field : ℕ → ℕ → ℕ → ℕ
clear_field x k n = x / 2 ^ (k + n) * 2 ^ (k + n) + x % 2 ^ k

-- `~x` of a 32-bit word.
abbrev pub not32 : ℕ → ℕ
not32 x = u32_mod - 1 - x

-- `p[i]`; the callers test the length first, so a read out of range is never used.
abbrev pub byte_at : List ℕ → ℕ → ℕ
byte_at p i = get_or p i 0

-- `get_unaligned_le16(p + i)`.
unfoldable pub le16 : List ℕ → ℕ → ℕ
le16 p i = byte_at p i + byte_at p (i + 1) * 256

-- `get_unaligned_le32(p + i)`.
unfoldable pub le32 : List ℕ → ℕ → ℕ
le32 p i =
    byte_at p i + byte_at p (i + 1) * 256 + byte_at p (i + 2) * 65536 + byte_at p (i + 3) * 16777216

-- `get_unaligned_be32(p + i)`.
unfoldable pub be32 : List ℕ → ℕ → ℕ
be32 p i =
    byte_at p i * 16777216 + byte_at p (i + 1) * 65536 + byte_at p (i + 2) * 256 + byte_at p (i + 3)

-- The four bytes that `put_unaligned_le32(v, p)` stores.
unfoldable pub put_le32 : ℕ → List ℕ
put_le32 v = v % 256 ∷ v / 256 % 256 ∷ v / 65536 % 256 ∷ v / 16777216 % 256 ∷ []

-- The four bytes that `put_unaligned_be32(v, p)` stores.
unfoldable pub put_be32 : ℕ → List ℕ
put_be32 v = v / 16777216 % 256 ∷ v / 65536 % 256 ∷ v / 256 % 256 ∷ v % 256 ∷ []

pub le32-put_le32 : (v : ℕ) (rest : List ℕ) → v < u32_mod → le32 (put_le32 v ++ rest) 0 ≡ v
unfolding le32 put_le32
le32-put_le32 v rest h = omega arith

pub be32-put_be32 : (v : ℕ) (rest : List ℕ) → v < u32_mod → be32 (put_be32 v ++ rest) 0 ≡ v
unfolding be32 put_be32
be32-put_be32 v rest h = omega arith

-- An access behind a prefix is an access to the rest.
pub get_or-drop : (n i : ℕ) (p : List ℕ) (d : ℕ) → get_or (drop n p) i d ≡ get_or p (n + i) d
get_or-drop zero i p d = let e : i ≡ 0 + i = omega arith in ap (λ (k : ℕ). get_or p k d) e
get_or-drop (suc n) i [] d = refl
get_or-drop (suc n) i (x ∷ p) d =
    let e : suc (n + i) ≡ suc n + i = omega arith in
    get_or-drop n i p d ∙ ap (λ (k : ℕ). get_or (x ∷ p) k d) e

-- A word behind a prefix is a word of the rest.
pub le32-drop : (n : ℕ) (p : List ℕ) → le32 (drop n p) 0 ≡ le32 p n
unfolding le32
le32-drop n p = simp (get_or-drop, add-zero)

-- The same for big-endian words, and behind a prefix that is appended to.
pub be32-drop : (n : ℕ) (p : List ℕ) → be32 (drop n p) 0 ≡ be32 p n
unfolding be32
be32-drop n p = simp (get_or-drop, add-zero)

pub be32-append : (p q : List ℕ) → be32 (p ++ q) (length p) ≡ be32 q 0
be32-append p q =
    sym (be32-drop (length p) (p ++ q)) ∙ ap (λ (r : List ℕ). be32 r 0) (drop-length-append p q)
