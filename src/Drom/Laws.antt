-- ===== src/Drom/Laws.antt =====
-- What a descriptor holds, and that its checksums agree with it.
use yoga_slim7x_usb.Base.{
  ℕ, ◌+◌, ◌*◌, ◌^◌, ◌≤◌, ◌<◌, ◌≡◌, refl, List, ◌∷◌, ◌++◌, some, ◌||◌, ltb, take, drop, set, ok, err,
  einval, put_le32, overwrite, le32, arith, byte_at, u32_mod, bit_or, ◌⊎◌, inl, inr, Bool-cases, ap,
  sym, ◌∙◌,
}
use yoga_slim7x_usb.Base.Bits.{bit_or_fields_high}
use yoga_slim7x_usb.Drom.{
  drom_size, drom_data, uid_crc, put_le64, uid_of, drom_crc, drom_bytes, drom_build, x1_patch,
  x1_drom_build,
}

-- The identity of a router, as a number: vendor, serial and index do not overlap.
pub uid_of-eq :
    (serial router : ℕ)
    → serial < u32_mod
    → router ≤ 2
    → uid_of serial router ≡ 0x5c6 * 2 ^ 48 + serial * 16 + router
unfolding uid_of
uid_of-eq serial router hs hr =
    let e : bit_or (0x5c6 * 2 ^ 48) (serial * 2 ^ 4) ≡ 0x5c6 * 2 ^ 48 + serial * 2 ^ 4 =
      bit_or_fields_high 48 0x5c6 (serial * 2 ^ 4) (omega arith) in
    let q : 0x5c6 * 2 ^ 48 + serial * 2 ^ 4 ≡ (0x5c6 * 2 ^ 44 + serial) * 2 ^ 4 = omega arith in
    rw (e, q)
      (let f = bit_or_fields_high 4 (0x5c6 * 2 ^ 44 + serial) router (omega arith) in omega arith)

-- `get_unaligned_le64(p + i)`, for reading an identity back.
unfoldable pub le64 : List ℕ → ℕ → ℕ
le64 p i = le32 p i + le32 p (i + 4) * 2 ^ 32

-- Reading a descriptor back, as its consumers do.
pub record IsDescriptor (crc32c : ℕ → List ℕ → ℕ) (d : List ℕ) (serial router : ℕ) : Type 0 where
  pub identity : le64 d 1 ≡ 0x5c6 * 2 ^ 48 + serial * 16 + router
  pub identity_crc : byte_at d 0 ≡ uid_crc (take 8 (drop 1 d))
  pub body_crc : le32 d 9 ≡ drom_crc crc32c (take 103 (drop 13 d))

le64-put_le64 : (v x : ℕ) (rest : List ℕ) → v < 2 ^ 64 → le64 (x ∷ (put_le64 v ++ rest)) 1 ≡ v
unfolding le64 le32 put_le64
le64-put_le64 v x rest h = omega arith

take_8-put_le64 : (v : ℕ) (rest : List ℕ) → take 8 (put_le64 v ++ rest) ≡ put_le64 v
unfolding put_le64
take_8-put_le64 v rest = refl

take-drom_data : (d : List ℕ) → take 103 (drom_data ++ d) ≡ drom_data
unfolding drom_data
take-drom_data d = refl

drop_12 : (v c : ℕ) (r : List ℕ) → drop 12 (put_le64 v ++ (put_le32 c ++ r)) ≡ r
unfolding put_le64 put_le32
drop_12 v c r = refl

le32_at_9 :
    (v c x : ℕ) (r : List ℕ) → c < u32_mod → le32 (x ∷ (put_le64 v ++ (put_le32 c ++ r))) 9 ≡ c
unfolding put_le64 put_le32 le32
le32_at_9 v c x r h = omega arith

drom_crc-lt : (crc32c : ℕ → List ℕ → ℕ) (body : List ℕ) → drom_crc crc32c body < u32_mod
unfolding drom_crc
drom_crc-lt crc32c body = omega arith

-- The layout of a descriptor: checksum of the identity, identity, checksum of the body, body.
abbrev pub layout : (uid crc : ℕ) → List ℕ → List ℕ → List ℕ
layout uid crc body rest =
    uid_crc (put_le64 uid) ∷ (put_le64 uid ++ (put_le32 crc ++ (body ++ rest)))

layout-IsDescriptor :
    (crc32c : ℕ → List ℕ → ℕ) (body rest : List ℕ) (serial router : ℕ)
    → serial < u32_mod
    → router ≤ 2
    → take 103 (body ++ rest) ≡ body
    → IsDescriptor crc32c
        (layout (uid_of serial router) (drom_crc crc32c body) body rest)
        serial
        router
layout-IsDescriptor crc32c body rest serial router hs hr e = record {
  identity =
      le64-put_le64 (uid_of serial router) _ _ (omega (arith, uid_of-eq serial router hs hr))
      ∙ uid_of-eq serial router hs hr;
  identity_crc = ap uid_crc (sym (take_8-put_le64 (uid_of serial router) _));
  body_crc =
      le32_at_9 (uid_of serial router) (drom_crc crc32c body) _ (body ++ rest)
        (drom_crc-lt crc32c body)
      ∙ ap (drom_crc crc32c) (sym (ap (take 103) (drop_12 (uid_of serial router) _ _) ∙ e));
}

-- Both builders refuse a null buffer, a buffer shorter than the descriptor and a router index
-- above 2, and then leave the buffer alone; in every other case they succeed.
pub drom_build_total :
    (crc32c : ℕ → List ℕ → ℕ) (d : List ℕ) (size serial router : ℕ)
    → (((size < drom_size) ⊎ (2 < router))
        × (drom_build crc32c (some d) size serial router ≡ (err einval, some d))
        × (x1_drom_build crc32c (some d) size serial router ≡ (err einval, some d)))
      ⊎ ((drom_size ≤ size)
          × (router ≤ 2)
          × ((drom_build crc32c (some d) size serial router).0 ≡ ok)
          × ((x1_drom_build crc32c (some d) size serial router).0 ≡ ok))
unfolding drom_build x1_drom_build
drom_build_total crc32c d size serial router =
    elim (Bool-cases (ltb size drom_size || ltb 2 router)) [
      | inl e ↦ inl (ground arith, rw e, rw e)
      | inr e ↦ inr (ground arith, ground arith, rw e, rw e)
    ]

drom_bytes-layout :
    (crc32c : ℕ → List ℕ → ℕ) (d : List ℕ) (serial router : ℕ)
    → overwrite (drom_bytes crc32c serial router) d
      ≡ layout (uid_of serial router) (drom_crc crc32c drom_data) drom_data (drop 116 d)
unfolding drom_bytes drom_data put_le64 put_le32
drom_bytes-layout crc32c d serial router = refl

drom_build-layout :
    (crc32c : ℕ → List ℕ → ℕ) (d d' : List ℕ) (size serial router : ℕ)
    → drom_build crc32c (some d) size serial router ≡ (ok, some d')
    → (router ≤ 2)
      × (d' ≡ layout (uid_of serial router) (drom_crc crc32c drom_data) drom_data (drop 116 d))
unfolding drom_build
drom_build-layout crc32c d d' size serial router h =
    ground (arith, drom_bytes-layout crc32c d serial router)

-- A descriptor that is built identifies the router by vendor, serial and index, and its two
-- checksums fit what they cover,
-- whatever function `crc32c` is.
pub drom_build-IsDescriptor :
    (crc32c : ℕ → List ℕ → ℕ) (d d' : List ℕ) (size serial router : ℕ)
    → serial < u32_mod
    → drom_build crc32c (some d) size serial router ≡ (ok, some d')
    → IsDescriptor crc32c d' serial router
drom_build-IsDescriptor crc32c d d' size serial router hs h =
    let (hr, e) = drom_build-layout crc32c d d' size serial router h in
    rw e (
      layout-IsDescriptor crc32c drom_data (drop 116 d) serial router hs hr
        (take-drom_data (drop 116 d)))

-- The body of the X1 descriptor: the base body with one character and one field replaced.
abbrev pub x1_body : List ℕ
x1_body = set (set (set drom_data 64 b'A') 76 0x33) 77 0x28

x1_patch-layout :
    (crc32c : ℕ → List ℕ → ℕ) (uid crc : ℕ) (rest : List ℕ)
    → x1_patch crc32c (layout uid crc drom_data rest)
      ≡ layout uid (drom_crc crc32c x1_body) x1_body rest
unfolding x1_patch drom_data put_le64 put_le32
x1_patch-layout crc32c uid crc rest = refl

take-x1_body : (d : List ℕ) → take 103 (x1_body ++ d) ≡ x1_body
unfolding drom_data
take-x1_body d = refl

x1_drom_build-layout :
    (crc32c : ℕ → List ℕ → ℕ) (d d' : List ℕ) (size serial router : ℕ)
    → x1_drom_build crc32c (some d) size serial router ≡ (ok, some d')
    → (router ≤ 2)
      × (d' ≡ layout (uid_of serial router) (drom_crc crc32c x1_body) x1_body (drop 116 d))
unfolding x1_drom_build drom_build
x1_drom_build-layout crc32c d d' size serial router h = ground (
  arith,
  drom_bytes-layout crc32c d serial router,
  x1_patch-layout crc32c (uid_of serial router) (drom_crc crc32c drom_data) (drop 116 d),
)

drop_13-layout :
    (uid crc : ℕ) (body rest : List ℕ) → drop 13 (layout uid crc body rest) ≡ body ++ rest
drop_13-layout uid crc body rest = drop_12 uid crc (body ++ rest)

-- The X1 descriptor keeps the identity of the base descriptor and the rest of the buffer, changes
-- the body in three bytes, and its checksum is the one of the changed body.
pub x1_drom_build-IsDescriptor :
    (crc32c : ℕ → List ℕ → ℕ) (d d' : List ℕ) (size serial router : ℕ)
    → serial < u32_mod
    → x1_drom_build crc32c (some d) size serial router ≡ (ok, some d')
    → IsDescriptor crc32c d' serial router × (drop 13 d' ≡ x1_body ++ drop 116 d)
x1_drom_build-IsDescriptor crc32c d d' size serial router hs h =
    let (hr, e) = x1_drom_build-layout crc32c d d' size serial router h in
    rw e (
      layout-IsDescriptor crc32c x1_body (drop 116 d) serial router hs hr
          (take-x1_body (drop 116 d)),
      drop_13-layout (uid_of serial router) (drom_crc crc32c x1_body) x1_body (drop 116 d),
    )
