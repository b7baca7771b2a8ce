-- ===== src/Packet/Write/Gate.antt =====
-- The write gate admits exactly what the plans compute.
use yoga_slim7x_usb.Base.{
  ℕ, ◌≤◌, ◌≡◌, ◌⊎◌, inl, inr, List, [], ◌∷◌, true, ◌==◌, ◌&&◌, done, byte_at, bit, clear_field,
  arith, Bool-cases,
}
use yoga_slim7x_usb.Packet.Address.{address_bits}
use yoga_slim7x_usb.Packet.Plans.{root_plan, external_plan, setup_plan}
use yoga_slim7x_usb.Packet.Write.{
  X1WriteSpec, external_write, root_write, write_gate, setup_agrees, at_place,
}

-- The four writes that the enumeration is meant to make. `b` and `a` are the words before and
-- after, and `byte_at w i` reads the word `w[i]`.
pub data Admitted (s : X1WriteSpec) (b a : List ℕ) : Type 0 where
  configure_root :
      s.route ≡ 0
      → (s.port ≡ 0) × (s.space ≡ 2) × (s.offset ≡ 1) × (s.words ≡ 4)
      → root_plan (0x093805c6 ∷ byte_at b 0 ∷ byte_at b 1 ∷ byte_at b 2 ∷ byte_at b 3 ∷ [])
        ≡ done (byte_at a 0 ∷ byte_at a 1 ∷ byte_at a 2 ∷ byte_at a 3 ∷ [])
      → Admitted s b a
  unlock_lane :
      s.route ≡ 0
      → (s.port ≡ 2) × (s.space ≡ 1) × (s.offset ≡ 4) × (s.words ≡ 1)
      → bit (byte_at b 0) 31 ≡ true
      → byte_at a 0 ≡ clear_field (byte_at b 0) 31 1
      → Admitted s b a
  configure_external :
      s.route ≡ 2
      → (s.port ≡ 0) × (s.space ≡ 2) × (s.offset ≡ 1) × (s.words ≡ 4)
      → external_plan (0x113b059f ∷ byte_at b 0 ∷ byte_at b 1 ∷ byte_at b 2 ∷ byte_at b 3 ∷ [])
        ≡ done (byte_at a 0 ∷ byte_at a 1 ∷ byte_at a 2 ∷ byte_at a 3 ∷ [])
      → Admitted s b a
  setup_external :
      s.route ≡ 2
      → (s.port ≡ 0) × (s.space ≡ 2) × (s.offset ≡ 5) × (s.words ≡ 1)
      → setup_plan (byte_at b 0) ≡ done (byte_at a 0)
      → Admitted s b a

root_write-Admitted :
    (s : X1WriteSpec) (b a : List ℕ) → s.route ≡ 0 → root_write s b a ≡ true → Admitted s b a
unfolding root_plan
root_write-Admitted s b a r h = elim (Bool-cases (at_place s 0 2 1 4)) [
  | inl p ↦ configure_root r (ground arith) (ground arith)
  | inr p ↦ unlock_lane r (ground arith) (ground arith) (ground arith)
]

external_write-Admitted :
    (s : X1WriteSpec) (b a : List ℕ) → s.route ≡ 2 → external_write s b a ≡ true → Admitted s b a
unfolding external_plan
external_write-Admitted s b a r h =
    elim (Bool-cases ((s.port == 0) && (s.space == 2) && (s.offset == 1) && (s.words == 4))) [
      | inl p ↦ configure_external r (ground arith) (ground arith)
      | inr p ↦ setup_external r (ground arith) (setup_agrees-done b a (ground arith))
    ]
  where
    setup_agrees-done :
        (b a : List ℕ)
        → setup_agrees (byte_at b 0) (byte_at a 0) ≡ true
        → setup_plan (byte_at b 0) ≡ done (byte_at a 0)
    setup_agrees-done b a h = ground arith

gate_cases :
    (s : X1WriteSpec) (b a : List ℕ) (address : ℕ)
    → write_gate s b a ≡ done address
    → (s.seq ≤ 3)
      × (address ≡ address_bits s.offset s.words s.port s.space s.seq)
      × (((s.route ≡ 2) × (external_write s b a ≡ true))
          ⊎ ((s.route ≡ 0) × (root_write s b a ≡ true)))
unfolding write_gate
gate_cases s b a address h = elim (Bool-cases (s.route == 2)) [
  | inl r ↦ elim (Bool-cases (external_write s b a)) [
    | inl w ↦ (ground arith, ground arith, inl (ground arith, w))
    | inr w ↦ absurd (ground arith)
  ]
  | inr r ↦ elim (Bool-cases (root_write s b a)) [
    | inl w ↦ (ground arith, ground arith, inr (ground arith, w))
    | inr w ↦ absurd (ground arith)
  ]
]

-- Every word that the gate lets into the configuration of a router is one of four planned writes:
-- the root's or the external router's configuration exactly as planned from the header words that
-- stood there before, the root lane's unlock bit, or the external router's setup word.
pub write_gate_sound :
    (s : X1WriteSpec) (b a : List ℕ) (address : ℕ)
    → write_gate s b a ≡ done address
    → Admitted s b a × (s.seq ≤ 3) × (address ≡ address_bits s.offset s.words s.port s.space s.seq)
write_gate_sound s b a address h =
    let (q, e, k) = gate_cases s b a address h in
    (
      elim k [
        | inl (r, w) ↦ external_write-Admitted s b a r w
        | inr (r, w) ↦ root_write-Admitted s b a r w
      ],
      q,
      e,
    )

-- Every planned write passes the gate, with any sequence number up to 3, and gets the address of
-- its place.
pub write_gate_complete :
    (s : X1WriteSpec) (b a : List ℕ)
    → s.seq ≤ 3
    → Admitted s b a
    → write_gate s b a ≡ done (address_bits s.offset s.words s.port s.space s.seq)
unfolding write_gate
write_gate_complete s b a q (configure_root r p e) = unfold root_plan in ground arith
write_gate_complete s b a q (unlock_lane r p c e) = ground arith
write_gate_complete s b a q (configure_external r p e) = unfold external_plan in ground arith
write_gate_complete s b a q (setup_external r p e) = ground arith
