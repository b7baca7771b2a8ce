-- ===== src/Ucsi/Query/Writes.antt =====
-- What a UCSI query writes into the mailbox.
use yoga_slim7x_usb.Base.{
  ℕ, zero, suc, ◌≤◌, ◌≡◌, ◌≢◌, refl, ◌⊎◌, inl, inr, List, ◌∷◌, Bool, true, false, Status, arith,
  ◌/=◌, if◌then◌else◌, Bool-cases, Option-cases, bit, bit_or, ◌*◌, ◌^◌, checked-cases, not, ◌&&◌,
  sym, ap, ◌∙◌,
}
use yoga_slim7x_usb.Ucsi.{UcsiSample}
use yoga_slim7x_usb.Ucsi.Query.{
  UqIo, uq_allowed, uq_ack, uq_ack_event, uq_read, poll_loop, uq_poll, poll_verdict, acknowledge,
  submit, kind_result, is_negative, uq_command_kind, command_refused, left_over, event_of_cci,
  reply_length,
}

-- Callbacks that keep the commands that they write beside what they do, the last one first.
abbrev pub logged : {S : Type 0} → UqIo S → UqIo (S × List ℕ)
logged io = record {
  write = λ s cmd. let (ret, t) = io.write s.0 cmd in (ret, (t, cmd ∷ s.1));
  read = λ s x. let (ret, (y, t)) = io.read s.0 x in (ret, (y, (t, s.1)));
  pause = λ s. (io.pause s.0, s.1);
  deadline = λ s. (io.deadline s.0, s.1);
}

-- The last write of a command: the event is acknowledged with it only for a good status.
abbrev pub last_write : (event : ℕ) → Status → ℕ
last_write event result = if (event /= 0) && not (is_negative result) then uq_ack_event else uq_ack

-- The commands that a query may submit for the pending connector `event`, or 0 for none.
pub record IsPermitted (cmd event : ℕ) : Type 0 where
  pub allowed : uq_allowed cmd ≡ true
  pub no_ack : (cmd ≢ uq_ack) × (cmd ≢ uq_ack_event)
  pub for_event : (event ≡ 0) ⊎ ((event ≤ 3) × (cmd ≡ bit_or (event * 2 ^ 16) 0x12))

-- A reply that consumes the event of the connector: of a status length, for that connector, and
-- without the bits of an error or of an unsupported command.
pub record IsEventReply (event cci : ℕ) : Type 0 where
  pub pending : event ≢ 0
  pub status_length : (9 ≤ reply_length cci) × (reply_length cci ≤ 16)
  pub connector : event_of_cci cci ≡ event
  pub good : (bit cci 30 ≡ false) × (bit cci 25 ≡ false)

-- What a command may have written when it ends, with `cci` of its reply: nothing, itself, or itself
-- and one acknowledgement.
pub data Written (cmd event cci : ℕ) (before after : List ℕ) : Type 0 where
  nothing : after ≡ before → Written cmd event cci before after
  command : IsPermitted cmd event → after ≡ cmd ∷ before → Written cmd event cci before after
  command_acked :
      IsPermitted cmd event → after ≡ uq_ack ∷ cmd ∷ before → Written cmd event cci before after
  event_acked :
      IsPermitted cmd event
      → IsEventReply event cci
      → after ≡ uq_ack_event ∷ cmd ∷ before
      → Written cmd event cci before after

pub command_refused-IsPermitted :
    (cmd event : ℕ) → command_refused cmd event ≡ false → IsPermitted cmd event
command_refused-IsPermitted cmd event h = ground arith

last_write-cases :
    (event cci : ℕ)
    → (last_write event (kind_result event cci) ≡ uq_ack)
      ⊎ ((last_write event (kind_result event cci) ≡ uq_ack_event) × IsEventReply event cci)
unfolding kind_result
last_write-cases event cci = ground arith

module _ {S : Type 0} (io : UqIo S) where
  -- The commands written so far, when a call returns.
  log_of : Status × (UcsiSample × (S × List ℕ)) → List ℕ
  log_of (ret, (x, (s, log))) = log

  reply_of : Status × (UcsiSample × (S × List ℕ)) → UcsiSample
  reply_of (ret, (x, s)) = x

  uq_read-log : (s : S × List ℕ) (x : UcsiSample) → log_of (uq_read (logged io) s x) ≡ s.1
  unfolding uq_read log_of
  uq_read-log s x =
      checked-cases (λ q. log_of q ≡ s.1) ((logged io).read s x) _ _ (λ p e. sym (ap log_of e))
        (λ ret p e n. sym (ap log_of e))

  poll_loop-log :
      (left : ℕ) (ack : Bool) (s : S × List ℕ) (x : UcsiSample)
      → log_of (poll_loop (logged io) left ack s x) ≡ s.1
  unfolding poll_loop log_of
  poll_loop-log zero ack s x = refl
  poll_loop-log (suc left) ack s x =
      checked-cases (λ q. log_of q ≡ s.1) (uq_read (logged io) s x) _ _
        (λ p e. elim (Option-cases (poll_verdict ack p.0.cci)) [
          | inl z ↦ rw z (
              poll_loop-log left ack ((logged io).pause p.1) p.0
              ∙ sym (ap log_of e)
              ∙ uq_read-log s x)
          | inr (r, z) ↦ rw z (sym (ap log_of e) ∙ uq_read-log s x)
        ])
        (λ ret p e n. sym (ap log_of e) ∙ uq_read-log s x)

  acknowledge-log :
      (event : ℕ) (result : Status) (reply sample : UcsiSample) (s : S × List ℕ)
      → let out = acknowledge (logged io) event result reply sample s in
        (log_of out ≡ last_write event result ∷ s.1) × (reply_of out ≡ reply)
  unfolding acknowledge log_of reply_of uq_poll
  acknowledge-log event result reply sample s =
      checked-cases (λ q. (log_of q ≡ last_write event result ∷ s.1) × (reply_of q ≡ reply))
        ((logged io).write ((logged io).deadline s) (last_write event result)) _ _
        (λ t e.
          checked-cases (λ q. (log_of q ≡ last_write event result ∷ s.1) × (reply_of q ≡ reply))
            (uq_poll (logged io) true t sample) _ _
            (λ p f.
              (sym (ap log_of f) ∙ poll_loop-log 50 true t sample ∙ sym (ap (λ q. q.1.1) e), refl))
            (λ ret p f n.
              (sym (ap log_of f) ∙ poll_loop-log 50 true t sample ∙ sym (ap (λ q. q.1.1) e), refl)))
        (λ ret t e n. (sym (ap (λ q. q.1.1) e), refl))

  submit-log :
      (cmd event : ℕ) (reply sample : UcsiSample) (s : S × List ℕ)
      → let out = submit (logged io) cmd event reply sample s in
        (log_of out ≡ cmd ∷ s.1)
        ⊎ (log_of out ≡ last_write event (kind_result event (reply_of out).cci) ∷ cmd ∷ s.1)
  unfolding submit uq_poll log_of
  submit-log cmd event reply sample s =
      let Good : Status × (UcsiSample × (S × List ℕ)) → Type 0 = λ q.
        (log_of q ≡ cmd ∷ s.1)
        ⊎ (log_of q ≡ last_write event (kind_result event (reply_of q).cci) ∷ cmd ∷ s.1) in
      checked-cases Good ((logged io).write s cmd) _ _
        (λ t e.
          checked-cases Good (uq_poll (logged io) false t reply) _ _
            (λ p f.
              let result = kind_result event p.0.cci in
              let (written, kept) = acknowledge-log event result p.0 sample p.1 in
              let before : p.1.1 ≡ cmd ∷ s.1 =
                sym (ap log_of f) ∙ poll_loop-log 50 false t reply ∙ sym (ap (λ q. q.1.1) e) in
              inr (rw kept (written ∙ ap (λ (l : List ℕ). last_write event result ∷ l) before)))
            (λ ret p f n.
              inl (sym (ap log_of f) ∙ poll_loop-log 50 false t reply ∙ sym (ap (λ q. q.1.1) e))))
        (λ ret t e n. inl (sym (ap (λ q. q.1.1) e)))

  Written-submit :
      (cmd event : ℕ) (reply sample : UcsiSample) (s : S × List ℕ)
      → IsPermitted cmd event
      → let out = submit (logged io) cmd event reply sample s in
        Written cmd event (reply_of out).cci s.1 (log_of out)
  Written-submit cmd event reply sample s a = elim (submit-log cmd event reply sample s) [
    | inl e ↦ command a e
    | inr e ↦
        elim (last_write-cases event (reply_of (submit (logged io) cmd event reply sample s)).cci) [
          | inl q ↦ command_acked a (rw q at e)
          | inr (q, g) ↦ event_acked a g (rw q at e)
        ]
  ]

  Written-command :
      (cmd event : ℕ) (reply sample : UcsiSample) (s : S × List ℕ)
      → let out = uq_command_kind (logged io) cmd event reply sample s in
        Written cmd event (reply_of out).cci s.1 (log_of out)
  unfolding uq_command_kind log_of
  Written-command cmd event reply sample s = elim (Bool-cases (command_refused cmd event)) [
    | inl e ↦ rw e (nothing refl)
    | inr e ↦ rw e (
        checked-cases (λ q. Written cmd event (reply_of q).cci s.1 (log_of q))
          (uq_read (logged io) ((logged io).deadline s) sample) _ _
          (λ p f.
            let same = sym (ap log_of f) ∙ uq_read-log ((logged io).deadline s) sample in
            let a = command_refused-IsPermitted cmd event e in
            elim (Bool-cases (left_over p.0.cci)) [
              | inl z ↦ rw z (nothing same)
              | inr z ↦ elim (Bool-cases ((event /= 0) && (event_of_cci p.0.cci /= event))) [
                | inl y ↦ rw (z, y) (nothing same)
                | inr y ↦ rw (z, y, ← same) (Written-submit cmd event reply p.0 p.1 a)
              ]
            ])
          (λ ret p f n. nothing (sym (ap log_of f) ∙ uq_read-log ((logged io).deadline s) sample)))
  ]

-- Whatever the mailbox answers, a query writes at most two words: a permitted command, and after it
-- one acknowledgement, which consumes the connector's event only if the reply has a good status of
-- that connector; the acknowledgements themselves cannot be submitted as commands.
pub uq_command_kind_writes :
    {S : Type 0} (io : UqIo S) (cmd event : ℕ) (reply sample : UcsiSample) (s : S) (log : List ℕ)
    → let (ret, (reply', (t, log'))) =
        uq_command_kind (logged io) cmd event reply sample (s, log) in
      Written cmd event reply'.cci log log'
unfolding log_of reply_of
uq_command_kind_writes io cmd event reply sample s log =
    Written-command io cmd event reply sample (s, log)
