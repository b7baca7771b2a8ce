-- ===== src/Pcie/CapList.antt =====
-- The capability list of a root port, described without the code, and its conditions against the
-- tests of the code.
use yoga_slim7x_usb.Base.{
  ℕ, ◌/◌, ◌%◌, ◌^◌, ◌≤◌, ◌<◌, ◌≡◌, ◌≢◌, List, [], ◌∷◌, true, false, ◌==◌, Bool-cases, ==→eq, Memᴰ,
  inl, inr, arith,
}
use yoga_slim7x_usb.Topology.{has_been}
use yoga_slim7x_usb.Pcie.Root.{cap_id_express, bad_pointer, bad_id, bad_express}

-- A place of the conventional capability space that has not been seen.
pub record IsPlace (ptr : ℕ) (seen : List ℕ) : Type 0 where
  pub low : 64 ≤ ptr
  pub high : ptr ≤ 252
  pub aligned : ptr % 4 ≡ 0
  pub fresh : Memᴰ ptr seen → ⊥

-- The express capability of a root port, in version 1 or 2, with room for its registers.
pub record IsRootExpress (ptr word : ℕ) : Type 0 where
  pub identity : word % 256 ≡ 16
  pub type : word / 2 ^ 20 % 16 ≡ 4
  pub versioned : 1 ≤ word / 2 ^ 16 % 16
  pub version : word / 2 ^ 16 % 16 ≤ 2
  pub room : ptr ≤ 0xc4

-- Another capability.
pub record IsPlain (word : ℕ) : Type 0 where
  pub present : word % 256 ≢ 0
  pub answered : word % 256 ≢ 255
  pub other : word % 256 ≢ 16

-- A capability list, as a description: it starts at `ptr`, has no pointer of `seen`, and its one
-- express capability is the one at `pcie`, which is 0 as long as it has not come.
pub data IsCapList (words : ℕ → ℕ) : (seen : List ℕ) → (ptr pcie : ℕ) → Type 0 where
  end_of_list : (seen : List ℕ) (pcie : ℕ) → 0 < pcie → IsCapList words seen 0 pcie
  plain :
      (seen : List ℕ) (ptr pcie : ℕ)
      → IsPlace ptr seen
      → IsPlain (words ptr)
      → IsCapList words (ptr ∷ seen) (words ptr / 256 % 256) pcie
      → IsCapList words seen ptr pcie
  express :
      (seen : List ℕ) (ptr : ℕ)
      → IsPlace ptr seen
      → IsRootExpress ptr (words ptr)
      → IsCapList words (ptr ∷ seen) (words ptr / 256 % 256) ptr
      → IsCapList words seen ptr 0

has_been-Memᴰ : (c : ℕ) (seen : List ℕ) → has_been c seen ≡ true → Memᴰ c seen
has_been-Memᴰ c [] h = ground arith
has_been-Memᴰ c (x ∷ seen) h = elim (Bool-cases (c == x)) [
  | inl e ↦ Memᴰ.head (==→eq c x e)
  | inr e ↦ Memᴰ.tail (has_been-Memᴰ c seen (ground arith))
]

Memᴰ-has_been : (c : ℕ) (seen : List ℕ) → Memᴰ c seen → has_been c seen ≡ true
Memᴰ-has_been c [] m = elim m [ ]
Memᴰ-has_been c (x ∷ seen) (Memᴰ.head e) = ground arith
Memᴰ-has_been c (x ∷ seen) (Memᴰ.tail m) = let h = Memᴰ-has_been c seen m in ground arith

-- The tests of the code are these conditions.
pub bad_pointer-IsPlace :
    (ptr : ℕ) (seen : List ℕ) → bad_pointer ptr seen ≡ false → IsPlace ptr seen
unfolding bad_pointer
bad_pointer-IsPlace ptr seen h = record {
  low = ground arith;
  high = ground arith;
  aligned = ground arith;
  fresh = λ m. let e = Memᴰ-has_been ptr seen m in ground arith;
}

pub IsPlace-bad_pointer :
    (ptr : ℕ) (seen : List ℕ) → IsPlace ptr seen → bad_pointer ptr seen ≡ false
unfolding bad_pointer
IsPlace-bad_pointer ptr seen h =
    let a = h.low in
    let b = h.high in
    let c = h.aligned in
    elim (Bool-cases (has_been ptr seen)) [
      | inl e ↦ absurd (h.fresh (has_been-Memᴰ ptr seen e))
      | inr e ↦ ground arith
    ]

pub bad_express-IsRootExpress :
    (ptr word : ℕ)
    → (word % 2 ^ 8 == cap_id_express) ≡ true
    → bad_express ptr word ≡ false
    → IsRootExpress ptr word
unfolding bad_express
bad_express-IsRootExpress ptr word e h = record {
  identity = ground arith;
  type = ground arith;
  versioned = ground arith;
  version = ground arith;
  room = ground arith;
}

pub IsRootExpress-bad_express :
    (ptr word : ℕ)
    → IsRootExpress ptr word
    → ((word % 2 ^ 8 == cap_id_express) ≡ true) × (bad_express ptr word ≡ false)
unfolding bad_express
IsRootExpress-bad_express ptr word h =
    let a = h.identity in
    let b = h.type in
    let c = h.versioned in let d = h.version in let e = h.room in (ground arith, ground arith)

pub bad_id-IsPlain :
    (word : ℕ) → bad_id word ≡ false → (word % 2 ^ 8 == cap_id_express) ≡ false → IsPlain word
bad_id-IsPlain word h e = record {
  present = λ q. ground arith;
  answered = λ q. ground arith;
  other = λ q. ground arith;
}

pub IsPlain-bad_id :
    (word : ℕ) → IsPlain word → (bad_id word ≡ false) × ((word % 2 ^ 8 == cap_id_express) ≡ false)
IsPlain-bad_id word h =
    let a = h.present in let b = h.answered in let c = h.other in (ground arith, ground arith)
