-- ===== src/Ucsi/Query/Replies.antt =====
-- What a UCSI query has read when it succeeds.
use yoga_slim7x_usb.Base.{
  ℕ, zero, suc, ◌≤◌, ◌≡◌, ◌≢◌, refl, ◌⊎◌, inl, inr, Bool, true, false, some, Status, ok, err,
  positive, arith, ◌/=◌, Bool-cases, Option-cases, checked-cases, is_ok, ap, subst, ◌∙◌, bit, ◌&&◌,
}
use yoga_slim7x_usb.Ucsi.{UcsiSample}
use yoga_slim7x_usb.Ucsi.Query.{
  UqIo, uq_read, poll_loop, uq_poll, poll_verdict, acknowledge, submit, kind_result, is_negative,
  uq_command_kind, uq_pending, command_refused, left_over, event_of_cci, reply_length, as_status,
}
use yoga_slim7x_usb.Ucsi.Query.Writes.{last_write}

-- Callbacks that return 0 or a negative errno, as those of the driver do.
pub record ReturnsErrno {S : Type 0} (io : UqIo S) : Type 0 where
  pub write_errno : (s : S) (cmd n : ℕ) → (io.write s cmd).0 ≢ positive n
  pub read_errno : (s : S) (x : UcsiSample) (n : ℕ) → (io.read s x).0 ≢ positive n

-- A reply to a command that has been completed without an error.
pub record IsReply (event : ℕ) (x : UcsiSample) : Type 0 where
  pub version_12 : x.version ≡ 0x0120
  pub complete : bit x.cci 31 ≡ true
  pub idle : (bit x.cci 28 ≡ false) × (bit x.cci 29 ≡ false)
  pub no_error : (bit x.cci 30 ≡ false) × (bit x.cci 25 ≡ false)
  pub fits : reply_length x.cci ≤ 16
  pub for_event : (event ≡ 0) ⊎ ((9 ≤ reply_length x.cci) × (event_of_cci x.cci ≡ event))

verdict-cases :
    (ack : Bool) (cci : ℕ) (ret : Status)
    → poll_verdict ack cci ≡ some ret
    → (ret ≡ ok) ⊎ (is_negative ret ≡ true)
unfolding poll_verdict
verdict-cases ack cci ret h = ground arith

-- A reply whose verdict and result are good.
good-IsReply :
    (event : ℕ) (x : UcsiSample) (ret : Status)
    → x.version ≡ 0x0120
    → poll_verdict false x.cci ≡ some ok
    → kind_result event x.cci ≡ ret
    → is_negative ret ≡ false
    → IsReply event x × (ret ≡ as_status (reply_length x.cci))
unfolding poll_verdict kind_result
good-IsReply event x ret v p k n = ground arith

module _ {S : Type 0} (io : UqIo S) (w : ReturnsErrno io) where
  -- A sample that a poll accepts, or a negative result.
  Polled : Bool → Status × (UcsiSample × S) → Type 0
  Polled ack (ret, (x, t)) =
      (is_negative ret ≡ true)
      ⊎ ((ret ≡ ok) × (x.version ≡ 0x0120) × (poll_verdict ack x.cci ≡ some ok))

  uq_read_ok :
      (s : S) (x : UcsiSample) (p : UcsiSample × S)
      → uq_read io s x ≡ (ok, p)
      → p.0.version ≡ 0x0120
  unfolding uq_read
  uq_read_ok s x p h = ground arith

  uq_read_errno :
      (s : S) (x : UcsiSample) (ret : Status) (p : UcsiSample × S)
      → uq_read io s x ≡ (ret, p)
      → is_ok ret ≡ false
      → is_negative ret ≡ true
  unfolding uq_read
  uq_read_errno s x ok p h n = absurd cc
  uq_read_errno s x (err e) p h n = refl
  uq_read_errno s x (positive k) p h n = let r = w.read_errno s x k in ground arith

  poll_loop-Polled :
      (left : ℕ) (ack : Bool) (s : S) (x : UcsiSample) → Polled ack (poll_loop io left ack s x)
  unfolding poll_loop Polled
  poll_loop-Polled zero ack s x = inl refl
  poll_loop-Polled (suc left) ack s x =
      checked-cases (Polled ack) (uq_read io s x) _ _
        (λ p e. elim (Option-cases (poll_verdict ack p.0.cci)) [
          | inl z ↦ rw z (poll_loop-Polled left ack (io.pause p.1) p.0)
          | inr (r, z) ↦ rw z (elim (verdict-cases ack p.0.cci r z) [
            | inl q ↦ inr (q, uq_read_ok s x p e, z ∙ ap some q)
            | inr q ↦ inl q
          ])
        ])
        (λ ret p e n. inl (uq_read_errno s x ret p e n))

  -- What holds of the result of a command: it is negative, or the reply is good.
  Replied : ℕ → Status × (UcsiSample × S) → Type 0
  Replied event (ret, (x, t)) =
      (is_negative ret ≡ true) ⊎ (IsReply event x × (ret ≡ as_status (reply_length x.cci)))

  write_negative :
      (s t : S) (cmd : ℕ) (ret : Status)
      → io.write s cmd ≡ (ret, t)
      → is_ok ret ≡ false
      → is_negative ret ≡ true
  write_negative s t cmd ok h n = absurd cc
  write_negative s t cmd (err e) h n = refl
  write_negative s t cmd (positive k) h n = absurd (w.write_errno s cmd k (ap (λ q. q.0) h))

  polled_negative :
      (ack : Bool) (s : S) (x : UcsiSample) (ret : Status) (p : UcsiSample × S)
      → uq_poll io ack s x ≡ (ret, p)
      → is_ok ret ≡ false
      → is_negative ret ≡ true
  unfolding uq_poll Polled
  polled_negative ack s x ret p h n = elim (subst (Polled ack) h (poll_loop-Polled 50 ack s x)) [
    | inl q ↦ q
    | inr (q, v, g) ↦ absurd (cc (q, n))
  ]

  acknowledge-Replied :
      (event : ℕ) (x sample : UcsiSample) (s : S)
      → x.version ≡ 0x0120
      → poll_verdict false x.cci ≡ some ok
      → Replied event (acknowledge io event (kind_result event x.cci) x sample s)
  unfolding acknowledge Replied
  acknowledge-Replied event x sample s v g =
      checked-cases (Replied event)
        (io.write (io.deadline s) (last_write event (kind_result event x.cci))) _ _
        (λ t e.
          checked-cases (Replied event) (uq_poll io true t sample) _ _
            (λ p f. elim (Bool-cases (is_negative (kind_result event x.cci))) [
              | inl n ↦ inl n
              | inr n ↦ inr (good-IsReply event x (kind_result event x.cci) v g refl n)
            ])
            (λ ret p f n. inl (polled_negative true t sample ret p f n)))
        (λ ret t e n.
          inl
            (write_negative (io.deadline s) t (last_write event (kind_result event x.cci)) ret e n))

  submit-Replied :
      (cmd event : ℕ) (reply sample : UcsiSample) (s : S)
      → Replied event (submit io cmd event reply sample s)
  unfolding submit Replied Polled uq_poll
  submit-Replied cmd event reply sample s =
      checked-cases (Replied event) (io.write s cmd) _ _
        (λ t e.
          checked-cases (Replied event) (uq_poll io false t reply) _ _
            (λ p f. elim (subst (Polled false) f (poll_loop-Polled 50 false t reply)) [
              | inl q ↦ absurd cc
              | inr (q, v, g) ↦ acknowledge-Replied event p.0 sample p.1 v g
            ])
            (λ ret p f n. inl (polled_negative false t reply ret p f n)))
        (λ ret t e n. inl (write_negative s t cmd ret e n))

  command-Replied :
      (cmd event : ℕ) (reply sample : UcsiSample) (s : S)
      → Replied event (uq_command_kind io cmd event reply sample s)
  unfolding uq_command_kind Replied
  command-Replied cmd event reply sample s = elim (Bool-cases (command_refused cmd event)) [
    | inl e ↦ rw e (inl refl)
    | inr e ↦ rw e (
        checked-cases (Replied event) (uq_read io (io.deadline s) sample) _ _
          (λ p f. elim (Bool-cases (left_over p.0.cci)) [
            | inl z ↦ rw z (inl refl)
            | inr z ↦ elim (Bool-cases ((event /= 0) && (event_of_cci p.0.cci /= event))) [
              | inl y ↦ rw (z, y) (inl refl)
              | inr y ↦ rw (z, y) (submit-Replied cmd event reply p.0 p.1)
            ]
          ])
          (λ ret p f n. inl (uq_read_errno (io.deadline s) sample ret p f n)))
  ]

-- With callbacks that return 0 or a negative errno, a command whose result is not negative has a
-- completed UCSI 1.2 reply without an error, of at most 16 bytes, which the result counts; for a
-- pending connector it is a status of at least 9 bytes of that connector.
pub uq_command_kind_replies :
    {S : Type 0} (io : UqIo S) (cmd event : ℕ) (reply sample x : UcsiSample) (s t : S)
    (ret : Status)
    → ReturnsErrno io
    → uq_command_kind io cmd event reply sample s ≡ (ret, (x, t))
    → is_negative ret ≡ false
    → IsReply event x × (ret ≡ as_status (reply_length x.cci))
unfolding Replied
uq_command_kind_replies io cmd event reply sample x s t ret w h n =
    elim (subst (Replied io w event) h (command-Replied io w cmd event reply sample s)) [
      | inl q ↦ absurd (cc (q, n))
      | inr g ↦ g
    ]

-- The connector that is reported as pending is one of those that exist, at most three.
pub uq_pending_bounded :
    {S : Type 0} (io : UqIo S) (connectors connector : ℕ) (sample : UcsiSample) (s t : S)
    → ReturnsErrno io
    → uq_pending io connectors sample s ≡ (positive connector, t)
    → (1 ≤ connector) × (connector ≤ connectors) × (connectors ≤ 3)
unfolding uq_pending
uq_pending_bounded {S = S} io connectors connector sample s t w h =
    let q : Status × (UcsiSample × S) = uq_read io (io.deadline s) sample in
    let r = uq_read_errno io w (io.deadline s) sample q.0 q.1 refl in ground arith
