-- ===== src/Pcie/Capabilities.antt =====
-- What the validation of the root port accepts, and that its 48 rounds are enough.
use yoga_slim7x_usb.Base.{
  ℕ, zero, suc, ◌/◌, ◌%◌, ◌^◌, ◌≤◌, ◌<◌, ◌≡◌, ◌↔◌, refl, sym, ◌∙◌, subst, List, [], ◌∷◌, Bool, true,
  false, not, ◌==◌, if◌then◌else◌, Bool-cases, ◌⊎◌, inl, inr, Status, ok, err, positive, enodev,
  checked, arith,
}
use yoga_slim7x_usb.Bridge.{X1Pci0Io}
use yoga_slim7x_usb.Pcie.{X1Bridge}
use yoga_slim7x_usb.Pcie.Root.{
  cap_id_express, root_header_admitted, bad_pointer, bad_id, bad_express, next_pointer, walk_end,
  walk_word, walk_round, root_walk, header_words, header_length, first_pointer, x1_root_validate,
  validated,
}
use yoga_slim7x_usb.Pcie.Room.{room, room-pointer}
use yoga_slim7x_usb.Pcie.CapList.{
  IsCapList, end_of_list, plain, express, bad_pointer-IsPlace, IsPlace-bad_pointer,
  bad_express-IsRootExpress, IsRootExpress-bad_express, bad_id-IsPlain, IsPlain-bad_id,
}

-- A root port whose registers do not change.
abbrev pub steady : (words : ℕ → ℕ) → X1Pci0Io (Unit {0})
steady words = record {
  read = λ s r off. (words off, tt);
  write = λ s r off v. tt;
  reset = λ s b. (ok, tt);
  delay = λ s ms. tt;
}

module _ (words : ℕ → ℕ) where
  abbrev walk : (left : ℕ) → (seen : List ℕ) → (ptr pcie : ℕ) → Status
  walk left seen ptr pcie = (root_walk (steady words) left seen ptr pcie tt).0

  walk_end-IsCapList :
      (seen : List ℕ) (ptr pcie : ℕ) → walk_end ptr pcie ≡ ok → IsCapList words seen ptr pcie
  walk_end-IsCapList seen ptr pcie h =
      let p : ptr ≡ 0 = ground arith in
      let q : 0 < pcie = ground arith in
      subst (λ (x : ℕ). IsCapList words seen x pcie) (sym p) (end_of_list seen pcie q)

  nonzero_lem : (ptr : ℕ) (seen : List ℕ) → bad_pointer ptr seen ≡ false → (ptr == 0) ≡ false
  unfolding bad_pointer
  nonzero_lem ptr seen h = ground arith

  walk-plain :
      (left : ℕ) (seen : List ℕ) (ptr pcie : ℕ)
      → bad_pointer ptr seen ≡ false
      → bad_id (words ptr) ≡ false
      → (words ptr % 2 ^ 8 == cap_id_express) ≡ false
      → walk (suc left) seen ptr pcie ≡ walk left (ptr ∷ seen) (next_pointer (words ptr)) pcie
  unfolding root_walk walk_round walk_word
  walk-plain left seen ptr pcie b i e = let z = nonzero_lem ptr seen b in ground arith

  walk-express :
      (left : ℕ) (seen : List ℕ) (ptr : ℕ)
      → bad_pointer ptr seen ≡ false
      → (words ptr % 2 ^ 8 == cap_id_express) ≡ true
      → bad_express ptr (words ptr) ≡ false
      → walk (suc left) seen ptr 0 ≡ walk left (ptr ∷ seen) (next_pointer (words ptr)) ptr
  unfolding root_walk walk_round walk_word
  walk-express left seen ptr b i e =
      let g : bad_id (words ptr) ≡ false = ground arith in
      let z = nonzero_lem ptr seen b in ground arith

  -- What a round that goes on has found.
  round_lem :
      (left : ℕ) (seen : List ℕ) (ptr pcie : ℕ)
      → (ptr == 0) ≡ false
      → walk (suc left) seen ptr pcie ≡ ok
      → (bad_pointer ptr seen ≡ false)
        × (bad_id (words ptr) ≡ false)
        × ((words ptr % 2 ^ 8 == cap_id_express) ≡ true
            → (pcie ≡ 0) × (bad_express ptr (words ptr) ≡ false))
  unfolding root_walk walk_round walk_word
  round_lem left seen ptr pcie z h = ground arith

  -- A walk that succeeds has seen a capability list.
  walk-IsCapList :
      (left : ℕ) (seen : List ℕ) (ptr pcie : ℕ)
      → walk left seen ptr pcie ≡ ok
      → IsCapList words seen ptr pcie
  unfolding root_walk
  walk-IsCapList zero seen ptr pcie h = walk_end-IsCapList seen ptr pcie h
  walk-IsCapList (suc left) seen ptr pcie h = elim (Bool-cases (ptr == 0)) [
    | inl z ↦ walk_end-IsCapList seen ptr pcie (ground arith)
    | inr z ↦
        let (b, i, f) = round_lem left seen ptr pcie z h in
        elim (Bool-cases (words ptr % 2 ^ 8 == cap_id_express)) [
          | inl e ↦
              let (p, g) = f e in
              let k = subst (λ (x : ℕ). walk (suc left) seen ptr x ≡ ok) p h in
              subst (λ (x : ℕ). IsCapList words seen ptr x) (sym p)
                (express seen ptr (bad_pointer-IsPlace ptr seen b)
                  (bad_express-IsRootExpress ptr (words ptr) e g)
                  (walk-IsCapList left (ptr ∷ seen) (next_pointer (words ptr)) ptr
                    (sym (walk-express left seen ptr b e g) ∙ k)))
          | inr e ↦
              plain seen ptr pcie (bad_pointer-IsPlace ptr seen b) (bad_id-IsPlain (words ptr) i e)
                (walk-IsCapList left (ptr ∷ seen) (next_pointer (words ptr)) pcie
                  (sym (walk-plain left seen ptr pcie b i e) ∙ h))
        ]
  ]

  -- A capability list is walked to its end, with as many rounds as there is room.
  IsCapList-walk :
      (left : ℕ) (seen : List ℕ) (ptr pcie : ℕ)
      → IsCapList words seen ptr pcie
      → room 48 seen ≤ left
      → walk left seen ptr pcie ≡ ok
  unfolding root_walk
  IsCapList-walk zero seen ptr pcie (end_of_list s p h) l = ground arith
  IsCapList-walk zero seen ptr pcie (plain s r p b i rest) l =
      let k = room-pointer ptr seen (IsPlace-bad_pointer ptr seen b) in ground arith
  IsCapList-walk zero seen ptr pcie (express s r b i rest) l =
      let k = room-pointer ptr seen (IsPlace-bad_pointer ptr seen b) in ground arith
  IsCapList-walk (suc left) seen ptr pcie (end_of_list s p h) l = ground arith
  IsCapList-walk (suc left) seen ptr pcie (plain s r p b i rest) l =
      let c = IsPlace-bad_pointer ptr seen b in
      let k = room-pointer ptr seen c in
      let (d, e) = IsPlain-bad_id (words ptr) i in
      walk-plain left seen ptr pcie c d e
      ∙ IsCapList-walk left (ptr ∷ seen) (next_pointer (words ptr)) pcie rest (omega (arith, k, l))
  IsCapList-walk (suc left) seen ptr pcie (express s r b i rest) l =
      let c = IsPlace-bad_pointer ptr seen b in
      let k = room-pointer ptr seen c in
      let (d, e) = IsRootExpress-bad_express ptr (words ptr) i in
      walk-express left seen ptr c d e
      ∙ IsCapList-walk left (ptr ∷ seen) (next_pointer (words ptr)) ptr rest (omega (arith, k, l))

-- What identifies the root port: its first words and its capability list.
pub record IsRootPort (words : ℕ → ℕ) : Type 0 where
  pub identity : words 0 ≡ 0x011117cb
  pub class : (words 8 / 2 ^ 8 ≡ 0x060400) ⊎ (words 8 ≡ 0xff000001)
  pub type : words 12 / 2 ^ 16 % 2 ^ 8 ≡ 1
  pub listed : words 4 / 2 ^ 20 % 2 ≡ 1
  pub capabilities : IsCapList words [] (words 0x34 % 2 ^ 8) 0

header_admitted_iff :
    (words : ℕ → ℕ)
    → (root_header_admitted (header_words (steady words) header_length 0 tt).0 ≡ true) ↔ (
        (words 0 ≡ 0x011117cb)
        × ((words 8 / 2 ^ 8 ≡ 0x060400) ⊎ (words 8 ≡ 0xff000001))
        × (words 12 / 2 ^ 16 % 2 ^ 8 ≡ 1)
        × (words 4 / 2 ^ 20 % 2 ≡ 1))
unfolding root_header_admitted header_words
header_admitted_iff words = (λ h. ground arith, λ h. ground arith)

-- The status of the validation is that of both parts.
ended_iff :
    {S B : Type 0} (c : Bool) (z : B) (x y : S → B) (r : Status × S)
    → ((if◌then◌else◌ {A = Status × B}
          (not c)
          (err enodev, z)
          (checked r (λ u. (ok, y u)) (λ ret u. (ret, x u)))).0
        ≡ ok)
      ↔ ((c ≡ true) × (r.0 ≡ ok))
ended_iff false z x y r = (λ h. ground arith, λ h. ground arith)
ended_iff true z x y (ok, u) = (λ h. (refl, refl), λ h. refl)
ended_iff true z x y (err e, u) = (λ h. ground arith, λ h. ground arith)
ended_iff true z x y (positive n, u) = (λ h. ground arith, λ h. ground arith)

-- On a root port whose registers do not change, the validation succeeds exactly when its words
-- identify it and its capabilities form a list without repetitions that ends and has exactly one
-- express capability, of a root port; its 48 rounds are enough for every such list.
pub x1_root_validate_iff :
    (words : ℕ → ℕ) (b : X1Bridge)
    → ((x1_root_validate (steady words) (b, tt)).0 ≡ ok) ↔ IsRootPort words
unfolding x1_root_validate header_words
x1_root_validate_iff words b =
    let head = (header_words (steady words) header_length 0 tt).0 in
    let admitted = root_header_admitted head in
    let end = root_walk (steady words) 48 [] (first_pointer head) 0 tt in
    (
      (λ h.
          let (e, w) =
            (ended_iff admitted (b, tt) (λ u. (b, u)) (λ u. (validated (steady words) b head, u))
                end).0
              h in
          let (i, c, t, l) = (header_admitted_iff words).0 e in
          record {
            identity = i;
            class = c;
            type = t;
            listed = l;
            capabilities = walk-IsCapList words 48 [] (words 0x34 % 2 ^ 8) 0 w;
          }),
      (λ r.
          let e = (header_admitted_iff words).1 (r.identity, r.class, r.type, r.listed) in
          let w =
            IsCapList-walk words 48 [] (words 0x34 % 2 ^ 8) 0 r.capabilities
              (unfold room in omega arith) in
          (ended_iff admitted (b, tt) (λ u. (b, u)) (λ u. (validated (steady words) b head, u))
              end).1
            (e, w)),
    )
