-- ===== src/Packet/ReadLaws.antt =====
-- Read requests say what was asked, and a conforming reply is decoded to the words it carries.
use yoga_slim7x_usb.Base.{
  ℕ, ◌+◌, ◌-◌, ◌*◌, ◌^◌, ◌≤◌, ◌<◌, ◌≡◌, refl, sym, ap, ◌∙◌, ◌⊎◌, inl, inr, List, ◌++◌, some, true,
  false, ◌==◌, ◌&&◌, ◌||◌, ok, done, overwrite, length, take, drop, All, be32, put_be32, u32_mod,
  field, arith, Bool-cases, Result-cases,
}
use yoga_slim7x_usb.Packet.Address.{
  address_bits, address_bits-eq-sum, without_port, wire_crc, be32_words, put_be32_words,
  length-put_be32_words, be32_words-put, crc_checked,
}
use yoga_slim7x_usb.Packet.Read.{
  X1ReadSpec, router_read, read_refused, read_address, read_wire, x1_read_request, read_reply,
  receive_read, x1_read_reply,
}

-- The places that may be read: of a router, its header, the four words behind it, its identity or
-- the word before it on the external router, or a capability; of an adapter of the host router the
-- ports 1 to 7, of the external router 1 to 5.
pub data InWindow (s : X1ReadSpec) : Type 0 where
  header_window : s.space ≡ 2 → s.port ≡ 0 → s.offset ≡ 0 → s.words ≡ 5 → InWindow s
  router_window : s.space ≡ 2 → s.port ≡ 0 → s.offset ≡ 5 → s.words ≡ 4 → InWindow s
  external_window :
      s.space ≡ 2
      → s.port ≡ 0
      → s.route ≡ 2
      → (s.offset ≡ 5) ⊎ (s.offset ≡ 6)
      → s.words ≡ 1
      → InWindow s
  capability_window : s.space ≡ 2 → s.port ≡ 0 → 9 ≤ s.offset → s.words ≤ 2 → InWindow s
  host_adapter : s.space ≡ 1 → s.route ≡ 0 → 1 ≤ s.port → s.port ≤ 7 → InWindow s
  external_adapter : s.space ≡ 1 → s.route ≡ 2 → 1 ≤ s.port → s.port ≤ 5 → InWindow s

-- What the guard of a read request admits.
pub record IsReadable (s : X1ReadSpec) (a : ℕ) : Type 0 where
  pub route_known : (s.route ≡ 0) ⊎ (s.route ≡ 2)
  pub words_fit : s.words ≤ 8
  pub words_some : 0 < s.words
  pub window : s.offset + s.words ≤ 256
  pub admitted : InWindow s
  pub port_fits : s.port ≤ 7
  pub space_known : (s.space ≡ 1) ⊎ (s.space ≡ 2)
  pub seq_fits : s.seq ≤ 3
  pub address :
      a ≡ s.offset + s.words * 2 ^ 13 + s.port * 2 ^ 19 + s.space * 2 ^ 25 + s.seq * 2 ^ 27

refused_no :
    (s : X1ReadSpec)
    → read_refused s ≡ false
    → ((s.route ≡ 0) ⊎ (s.route ≡ 2))
      × (s.words ≤ 8)
      × (0 < s.words)
      × (s.offset + s.words ≤ 256)
      × (s.port ≤ 7)
      × ((s.space ≡ 1) ⊎ (s.space ≡ 2))
      × (s.seq ≤ 3)
refused_no s h = ground arith

router_read-InWindow :
    (s : X1ReadSpec) → s.space ≡ 2 → s.port ≡ 0 → router_read s ≡ true → InWindow s
router_read-InWindow s e p h = elim (Bool-cases ((s.offset == 0) && (s.words == 5))) [
  | inl a ↦ header_window e p (ground arith) (ground arith)
  | inr a ↦ elim (Bool-cases ((s.offset == 5) && (s.words == 4))) [
    | inl b ↦ router_window e p (ground arith) (ground arith)
    | inr b ↦
        elim (Bool-cases
          ((s.route == 2) && ((s.offset == 5) || (s.offset == 6)) && (s.words == 1))) [
            | inl c ↦ external_window e p (ground arith) (ground arith) (ground arith)
            | inr c ↦ capability_window e p (ground arith) (ground arith)
          ]
  ]
]

refused-InWindow : (s : X1ReadSpec) → read_refused s ≡ false → InWindow s
refused-InWindow s h = elim (Bool-cases (s.space == 2)) [
  | inl e ↦ router_read-InWindow s (ground arith) (ground arith) (ground arith)
  | inr e ↦ elim (Bool-cases (s.route == 0)) [
    | inl r ↦ host_adapter (ground arith) (ground arith) (ground arith) (ground arith)
    | inr r ↦ external_adapter (ground arith) (ground arith) (ground arith) (ground arith)
  ]
]

IsReadable-address : (s : X1ReadSpec) (a : ℕ) → read_address (some s) ≡ done a → IsReadable s a
unfolding read_address
IsReadable-address s a h = elim (Bool-cases (read_refused s)) [
  | inl r ↦ absurd (cc (rw r at h))
  | inr r ↦
      let (route, few, some_words, window, port, space, seq) = refused_no s r in
      let e =
        address_bits-eq-sum s.offset s.words s.port s.space s.seq (omega arith) (omega arith)
          (omega arith) (omega arith) in
      let q : done (address_bits s.offset s.words s.port s.space s.seq) ≡ done a = rw r at h in
      record {
        route_known = route;
        words_fit = few;
        words_some = some_words;
        window = window;
        admitted = refused-InWindow s r;
        port_fits = port;
        space_known = space;
        seq_fits = seq;
        address = ground (arith, q, e);
      }
]

address-lt : (s : X1ReadSpec) (a : ℕ) → IsReadable s a → a < u32_mod
address-lt s a h = omega arith

-- What a request says: a read of so many words at this place of this router, with a checksum.
pub record Requests (crc32c : ℕ → List ℕ → ℕ) (p : List ℕ) (s : X1ReadSpec) : Type 0 where
  pub outward : be32 p 0 ≡ 0
  pub to_route : be32 p 4 ≡ s.route
  pub at_offset : field (be32 p 8) 0 13 ≡ s.offset
  pub for_words : field (be32 p 8) 13 6 ≡ s.words
  pub of_port : field (be32 p 8) 19 6 ≡ s.port
  pub in_space : field (be32 p 8) 25 2 ≡ s.space
  pub numbered : field (be32 p 8) 27 2 ≡ s.seq
  pub checked : be32 p 12 ≡ wire_crc crc32c (take 12 p)

request_head :
    (a b c d : ℕ) (rest : List ℕ)
    → a < u32_mod
    → b < u32_mod
    → c < u32_mod
    → d < u32_mod
    → let head = put_be32 a ++ (put_be32 b ++ put_be32 c) in
      let p = (head ++ put_be32 d) ++ rest in
      (be32 p 0 ≡ a) × (be32 p 4 ≡ b) × (be32 p 8 ≡ c) × (be32 p 12 ≡ d) × (take 12 p ≡ head)
unfolding put_be32 be32
request_head a b c d rest ha hb hc hd = (omega arith, omega arith, omega arith, omega arith, refl)

read_request-done :
    (crc32c : ℕ → List ℕ → ℕ) (s : X1ReadSpec) (w w' : List ℕ)
    → x1_read_request crc32c (some w) s ≡ (ok, some w')
    → (a : ℕ) × (read_address (some s) ≡ done a) × (w' ≡ overwrite (read_wire crc32c s.route a) w)
unfolding x1_read_request
read_request-done crc32c s w w' h = elim (Result-cases (read_address (some s))) [
  | inl (a, e) ↦ (a, e, ground arith)
  | inr (x, e) ↦ absurd (ground arith)
]

read_wire-Requests :
    (crc32c : ℕ → List ℕ → ℕ) (s : X1ReadSpec) (a : ℕ) (w : List ℕ)
    → IsReadable s a
    → Requests crc32c (overwrite (read_wire crc32c s.route a) w) s
unfolding read_wire
read_wire-Requests crc32c s a w v =
    let (zero', route, address, crc, head) =
      request_head 0 s.route a (wire_crc crc32c (put_be32 0 ++ (put_be32 s.route ++ put_be32 a)))
        (drop (length (read_wire crc32c s.route a)) w) (omega arith) (omega arith) (omega arith)
        (omega arith) in
    record {
      outward = zero';
      to_route = route;
      at_offset = rw address (omega arith);
      for_words = rw address (omega arith);
      of_port = rw address (omega arith);
      in_space = rw address (omega arith);
      numbered = rw address (omega arith);
      checked = rw (crc, head);
    }

-- A read request that is stored says exactly what its specification asks for: every field of the
-- address word reads back as given, the checksum covers the first twelve bytes, the request is for
-- one of the two known routers, for at most eight words below 256, and for one of the places that
-- `InWindow` lists.
pub x1_read_request_lem :
    (crc32c : ℕ → List ℕ → ℕ) (s : X1ReadSpec) (w w' : List ℕ)
    → x1_read_request crc32c (some w) s ≡ (ok, some w')
    → Requests crc32c w' s
      × ((s.route ≡ 0) ⊎ (s.route ≡ 2))
      × (s.words ≤ 8)
      × (s.offset + s.words ≤ 256)
      × InWindow s
x1_read_request_lem crc32c s w w' h =
    let (a, e, q) = read_request-done crc32c s w w' h in
    let v = IsReadable-address s a e in
    (rw q (read_wire-Requests crc32c s a w v), v.route_known, v.words_fit, v.window, v.admitted)

-- A conforming reply: the reply bit, the route, the address with the upstream port of the router
-- that answers, the words, and the checksum.
unfoldable pub reply_head : X1ReadSpec → (port : ℕ) → List ℕ → List ℕ
reply_head s port ws =
    put_be32 0x80000000
    ++ (put_be32 s.route
        ++ (put_be32
              (s.offset + s.words * 2 ^ 13 + port * 2 ^ 19 + s.space * 2 ^ 25 + s.seq * 2 ^ 27)
            ++ put_be32_words ws))

abbrev pub reply_wire : (ℕ → List ℕ → ℕ) → X1ReadSpec → (port : ℕ) → List ℕ → List ℕ
reply_wire crc32c s port ws =
    reply_head s port ws ++ put_be32 (wire_crc crc32c (reply_head s port ws))

length-reply_head :
    (s : X1ReadSpec) (port : ℕ) (ws : List ℕ) → length (reply_head s port ws) ≡ 12 + 4 * length ws
unfolding reply_head put_be32
length-reply_head s port ws = omega (arith, length-put_be32_words ws)

reply_words :
    (s : X1ReadSpec) (port : ℕ) (ws crc : List ℕ)
    → s.route < u32_mod
    → s.offset + s.words * 2 ^ 13 + port * 2 ^ 19 + s.space * 2 ^ 25 + s.seq * 2 ^ 27 < u32_mod
    → let p = reply_head s port ws ++ crc in
      (be32 p 0 ≡ 0x80000000)
      × (be32 p 4 ≡ s.route)
      × (be32 p 8 ≡ s.offset + s.words * 2 ^ 13 + port * 2 ^ 19 + s.space * 2 ^ 25 + s.seq * 2 ^ 27)
      × (drop 12 p ≡ put_be32_words ws ++ crc)
unfolding reply_head put_be32 be32
reply_words s port ws crc hr ha = (refl, omega arith, omega arith, refl)

read_reply_accepts :
    (crc32c : ℕ → List ℕ → ℕ) (p ws : List ℕ) (size a : ℕ) (s : X1ReadSpec)
    → size ≡ 16 + 4 * s.words
    → s.words ≤ 8
    → be32 p (size - 4) ≡ wire_crc crc32c (take (size - 4) p)
    → be32 p 0 ≡ 0x80000000
    → be32 p 4 ≡ s.route
    → without_port (be32 p 8) ≡ without_port a
    → be32_words s.words (drop 12 p) ≡ ws
    → read_reply crc32c p size 0 1 s a ≡ done ws
unfolding read_reply
read_reply_accepts crc32c p ws size a s e h c k r g w = ground arith

-- Whatever port the router answers from, a conforming reply to an admitted request is decoded to
-- the words that it carries, which are stored at the start of the caller's array.
pub x1_read_reply-reply_wire :
    (crc32c : ℕ → List ℕ → ℕ) (s : X1ReadSpec) (port : ℕ) (ws old : List ℕ) (a : ℕ)
    → read_address (some s) ≡ done a
    → port < 64
    → length ws ≡ s.words
    → All (λ w. w < u32_mod) ws
    → x1_read_reply crc32c (some (reply_wire crc32c s port ws)) (16 + 4 * s.words) 0 1 s (some old)
      ≡ (ok, some (overwrite ws old))
unfolding x1_read_reply
x1_read_reply-reply_wire crc32c s port ws old a e hp hl hw =
    let v = IsReadable-address s a e in
    let p : List ℕ = reply_wire crc32c s port ws in
    let crc : List ℕ = put_be32 (wire_crc crc32c (reply_head s port ws)) in
    let (reply, route, address, rest) = reply_words s port ws crc (omega arith) (omega arith) in
    let words : be32_words s.words (drop 12 p) ≡ ws = rw rest (
      ap (λ (n : ℕ). be32_words n (put_be32_words ws ++ crc)) (sym hl)
      ∙ be32_words-put ws crc hw) in
    let checked =
      crc_checked crc32c (reply_head s port ws) (16 + 4 * s.words - 4)
        (omega (arith, length-reply_head s port ws)) in
    let same : without_port (be32 p 8) ≡ without_port a = rw address (omega arith) in
    let accepted =
      read_reply_accepts crc32c p ws (16 + 4 * s.words) a s refl v.words_fit checked reply route
        same words in
    rw (e, receive_read, accepted)
