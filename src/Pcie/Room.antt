-- ===== src/Pcie/Room.antt =====
-- The room for further capabilities, which each pointer of a walk takes from.
use yoga_slim7x_usb.Base.{
  ℕ, zero, suc, ◌+◌, ◌*◌, ◌-◌, ◌/◌, ◌≤◌, ◌<◌, ◌≡◌, sym, subst, List, ◌∷◌, true, false,
  if◌then◌else◌, Bool-cases, dec_lt, inl, inr, arith,
}
use yoga_slim7x_usb.Topology.{has_been}
use yoga_slim7x_usb.Pcie.Root.{bad_pointer}

-- The places of the capability space that are not yet seen, of the first `n`.
unfoldable pub room : (n : ℕ) → (seen : List ℕ) → ℕ
room zero seen = 0
room (suc n) seen = (if has_been (64 + 4 * n) seen then 0 else 1) + room n seen

has_been-cons : (a p : ℕ) (seen : List ℕ) → has_been a seen ≡ true → has_been a (p ∷ seen) ≡ true
has_been-cons a p seen h = ground arith

room-le : (n p : ℕ) (seen : List ℕ) → room n (p ∷ seen) ≤ room n seen
unfolding room
room-le zero p seen = ground arith
room-le (suc n) p seen = let h = room-le n p seen in ground arith

-- Seeing a place leaves less room.
room-lt :
    (n i : ℕ) (seen : List ℕ)
    → i < n
    → has_been (64 + 4 * i) seen ≡ false
    → room n ((64 + 4 * i) ∷ seen) < room n seen
unfolding room
room-lt zero i seen h e = ground arith
room-lt (suc n) i seen h e = elim (dec_lt i n) [
  | yes l ↦
      let g = room-lt n i seen l e in
      let c = has_been-cons (64 + 4 * n) (64 + 4 * i) seen in
      elim (Bool-cases (has_been (64 + 4 * n) seen)) [
        | inl t ↦ let d = c t in ground arith
        | inr f ↦ ground arith
      ]
  | no m ↦
      let q : i ≡ n = omega (arith, m, h) in
      let g = room-le n (64 + 4 * i) seen in
      let f = subst (λ (x : ℕ). has_been (64 + 4 * x) seen ≡ false) q e in
      let t = seen_lem (64 + 4 * n) (64 + 4 * i) seen (omega (arith, q)) in ground arith
]
  where
    seen_lem : (a p : ℕ) (seen : List ℕ) → a ≡ p → has_been a (p ∷ seen) ≡ true
    seen_lem a p seen h = ground arith

pub room-pointer :
    (ptr : ℕ) (seen : List ℕ) → bad_pointer ptr seen ≡ false → room 48 (ptr ∷ seen) < room 48 seen
unfolding bad_pointer
room-pointer ptr seen h =
    let i = (ptr - 64) / 4 in
    let q : 64 + 4 * ((ptr - 64) / 4) ≡ ptr = ground arith in
    let l : (ptr - 64) / 4 < 48 = ground arith in
    let e : has_been ptr seen ≡ false = ground arith in
    subst (λ (x : ℕ). room 48 (x ∷ seen) < room 48 seen) q
      (room-lt 48 i seen l (subst (λ (x : ℕ). has_been x seen ≡ false) (sym q) e))
