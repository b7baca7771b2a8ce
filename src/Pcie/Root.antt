-- ===== src/Pcie/Root.antt =====
-- `x1_root_validate`: the header and the capability list of the root port.
use yoga_slim7x_usb.Base.{
  ℕ, zero, suc, ◌+◌, ◌/◌, ◌%◌, ◌^◌, List, [], ◌∷◌, get_or, Bool, true, ◌&&◌, ◌||◌, not, ltb, ◌==◌,
  ◌/=◌, if◌then◌else◌, Status, ok, err, enodev, eproto, checked, Step,
}
use yoga_slim7x_usb.Bridge.{X1Pci0Io}
use yoga_slim7x_usb.Bridge.Tables.{x1_root}
use yoga_slim7x_usb.Topology.{has_been}
use yoga_slim7x_usb.Pcie.{X1Bridge, class_bridge_normal, type_root_port}

-- `PCI_CAP_ID_EXP` and `PCI_CAPABILITY_LIST`.
abbrev pub cap_id_express : ℕ
cap_id_express = 0x10

abbrev pub capability_list : ℕ
capability_list = 0x34

-- The checks of the header words: identity, class, header type, and the capability bit of the
-- status, which is the upper half of the second word.
unfoldable pub root_header_admitted : (h : List ℕ) → Bool
root_header_admitted h =
    (get_or h 0 0 == 0x011117cb)
    && ((get_or h 2 0 / 2 ^ 8 == class_bridge_normal) || (get_or h 2 0 == 0xff000001))
    && (get_or h 3 0 / 2 ^ 16 % 2 ^ 8 == 1)
    && (get_or h 1 0 / 2 ^ 20 % 2 == 1)

-- A pointer that is out of the capability space, not aligned or seen before.
unfoldable pub bad_pointer : (ptr : ℕ) → (seen : List ℕ) → Bool
bad_pointer ptr seen = ltb ptr 0x40 || ltb 0xfc ptr || (ptr % 4 /= 0) || has_been ptr seen

abbrev pub bad_id : (word : ℕ) → Bool
bad_id word = (word % 2 ^ 8 == 0) || (word % 2 ^ 8 == 0xff)

-- `flags`, the upper half of the word: its type and its version.
unfoldable pub bad_express : (ptr word : ℕ) → Bool
bad_express ptr word =
    (word / 2 ^ 20 % 2 ^ 4 /= type_root_port)
    || (word / 2 ^ 16 % 2 ^ 4 == 0)
    || ltb 2 (word / 2 ^ 16 % 2 ^ 4)
    || ltb 0xc4 ptr

-- The next pointer.
abbrev pub next_pointer : (word : ℕ) → ℕ
next_pointer word = word / 2 ^ 8 % 2 ^ 8

-- `if (ptr || !pcie) return -ENODEV;`
abbrev pub walk_end : (ptr pcie : ℕ) → Status
walk_end ptr pcie = if (ptr /= 0) || (pcie == 0) then err enodev else ok

-- The words of the header, and the word that it keeps of them.
abbrev pub header_length : ℕ
header_length = 16

abbrev pub first_pointer : (h : List ℕ) → ℕ
first_pointer h = get_or h (capability_list / 4) 0 % 2 ^ 8

-- `X1_ROOT` is the window of the root port.
module _ {S : Type 0} (io : X1Pci0Io S) where
  unfoldable pub header_words : (left offset : ℕ) → S → List ℕ × S
  header_words zero offset s = ([], s)
  header_words (suc left) offset s =
      let (v, t) = io.read s x1_root offset in
      let (rest, u) = header_words left (offset + 4) t in (v ∷ rest, u)

  -- A round of the walk on the word at `ptr`; `again` walks on from a pointer, with the offset of
  -- the express capability.
  unfoldable pub walk_word : (ptr pcie word : ℕ) → (again : ℕ → ℕ → Step S) → Step S
  walk_word ptr pcie word again s =
      if bad_id word
      then (err eproto, s)
      else (if word % 2 ^ 8 == cap_id_express
          then (if (pcie /= 0) || bad_express ptr word
              then (err enodev, s)
              else again (next_pointer word) ptr s)
          else again (next_pointer word) pcie s)

  unfoldable pub walk_round :
      (seen : List ℕ) → (ptr pcie : ℕ) → (again : List ℕ → ℕ → ℕ → Step S) → Step S
  walk_round seen ptr pcie again s =
      if bad_pointer ptr seen
      then (err eproto, s)
      else (let (word, t) = io.read s x1_root ptr in walk_word ptr pcie word (again (ptr ∷ seen)) t)

  -- The walk, with the rounds that are left.
  unfoldable pub root_walk : (left : ℕ) → (seen : List ℕ) → (ptr pcie : ℕ) → Step S
  root_walk zero seen ptr pcie s = (walk_end ptr pcie, s)
  root_walk (suc left) seen ptr pcie s =
      if ptr == 0 then (walk_end ptr pcie, s) else walk_round seen ptr pcie (root_walk left) s

  -- `x1_root_validate`.
  abbrev pub validated : X1Bridge → (h : List ℕ) → X1Bridge
  validated b h = record b { root_class = get_or h 2 0; root_validated = true }

  unfoldable pub x1_root_validate : Step (X1Bridge × S)
  x1_root_validate (b, s) =
      let (h, t) = header_words header_length 0 s in
      if not (root_header_admitted h)
      then (err enodev, (b, t))
      else checked (root_walk 48 [] (first_pointer h) 0 t) (λ u. (ok, (validated b h, u)))
          (λ ret u. (ret, (b, u)))
