-- ===== src/Pdlog/States.antt =====
-- The log reader under any sequence of calls.
use yoga_slim7x_usb.Base.{
  ℕ, ◌+◌, ◌≤◌, ◌≡◌, ◌≢◌, refl, List, [], ◌∷◌, Bool, true, false, if◌then◌else◌, Status, ok, err,
  eperm, arith, sym, ◌∙◌, zero, suc,
}
use yoga_slim7x_usb.Pdlog.{
  PdlogState, pdlog_start, pdlog_stop, pdlog_next, pdlog_reply, pdlog_max_requests,
}

-- The calls that the driver makes, in any order.
pub data Call : Type 0 where
  start : Bool → Call
  next : Bool → Call
  reply : Status → Call
  stop : Status → Call

unfoldable pub call : PdlogState → Call → PdlogState
call s (start allowed) = (pdlog_start s allowed).1
call s (next expired) = (pdlog_next s expired).1
call s (reply error) = (pdlog_reply s error).1
call s (stop error) = pdlog_stop s error

unfoldable pub calls : PdlogState → List Call → PdlogState
calls s [] = s
calls s (c ∷ cs) = calls (call s c) cs

-- Whether the driver is told to send a request, which it then does.
abbrev pub sends : PdlogState → Call → ℕ
sends s (next expired) = if (pdlog_next s expired).0 then 1 else 0
sends s c = 0

-- The requests that are sent during the calls.
unfoldable pub sent : PdlogState → List Call → ℕ
sent s [] = 0
sent s (c ∷ cs) = sends s c + sent (call s c) cs

-- A zeroed `struct pdlog_state`.
abbrev pub zeroed : PdlogState
zeroed = record {
  attempted = false;
  active = false;
  awaiting = false;
  limited = false;
  requests = 0;
  replies = 0;
  error = ok;
}

pub record IsSound (s : PdlogState) : Type 0 where
  pub few_requests : s.requests ≤ pdlog_max_requests
  pub answered : s.replies + (if s.awaiting then 1 else 0) ≤ s.requests
  pub active_attempted : s.active ≡ true → s.attempted ≡ true
  pub awaiting_active : s.awaiting ≡ true → s.active ≡ true
  pub limited_stopped : s.limited ≡ true → s.active ≡ false
  pub fresh : s.attempted ≡ false → (s.requests ≡ 0) × (s.limited ≡ false)

call-IsSound : (s : PdlogState) (c : Call) → IsSound s → IsSound (call s c)
unfolding call pdlog_start pdlog_next pdlog_reply pdlog_stop
call-IsSound s (start allowed) h = ground arith
call-IsSound s (next expired) h = ground arith
call-IsSound s (reply error) h = ground arith
call-IsSound s (stop error) h = ground arith

calls-IsSound : (s : PdlogState) (cs : List Call) → IsSound s → IsSound (calls s cs)
unfolding calls
calls-IsSound s [] h = h
calls-IsSound s (c ∷ cs) h = calls-IsSound (call s c) cs (call-IsSound s c h)

sends-requests : (s : PdlogState) (c : Call) → s.requests + sends s c ≡ (call s c).requests
unfolding call pdlog_start pdlog_next pdlog_reply pdlog_stop
sends-requests s (start allowed) = ground arith
sends-requests s (next expired) = ground arith
sends-requests s (reply error) = ground arith
sends-requests s (stop error) = ground arith

sent-requests : (s : PdlogState) (cs : List Call) → s.requests + sent s cs ≡ (calls s cs).requests
unfolding calls sent
sent-requests s [] = omega arith
sent-requests s (c ∷ cs) =
    let e = sends-requests s c in let h = sent-requests (call s c) cs in omega (arith, e, h)

-- Whatever calls are made on a zeroed state, in any order and with any results: the driver is told
-- to send a request at most 128 times, and as often as requests are counted; there are never more replies than requests (counting the awaited one), a reply is awaited only
-- while active, and reaching the limit ends the activity.
pub any_calls-IsSound :
    (cs : List Call)
    → IsSound (calls zeroed cs)
      × (sent zeroed cs ≡ (calls zeroed cs).requests)
      × (sent zeroed cs ≤ 128)
any_calls-IsSound cs =
    let h = calls-IsSound zeroed cs (ground arith) in
    let e = sent-requests zeroed cs in
    let b = h.few_requests in (h, omega (arith, e), omega (arith, e, b))

-- What no further call changes.
pub record SameLog (s t : PdlogState) : Type 0 where
  pub same_requests : t.requests ≡ s.requests
  pub same_replies : t.replies ≡ s.replies

call_ended :
    (s : PdlogState) (c : Call)
    → s.attempted ≡ true
    → s.active ≡ false
    → SameLog s (call s c) × ((call s c).attempted ≡ true) × ((call s c).active ≡ false)
unfolding call pdlog_start pdlog_next pdlog_reply pdlog_stop
call_ended s (start allowed) a h = ground arith
call_ended s (next expired) a h = ground arith
call_ended s (reply error) a h = ground arith
call_ended s (stop error) a h = ground arith

-- There is one attempt per state: once the reader has been started and has stopped, no sequence of
-- calls starts it again, sends another request or counts another reply, and a start is refused.
pub calls_ended :
    (s : PdlogState) (cs : List Call) (allowed : Bool)
    → s.attempted ≡ true
    → s.active ≡ false
    → SameLog s (calls s cs)
      × ((calls s cs).active ≡ false)
      × (pdlog_start (calls s cs) allowed ≡ (err eperm, calls s cs))
unfolding calls
calls_ended s [] allowed a h = (ground arith, h, unfold pdlog_start in ground arith)
calls_ended s (c ∷ cs) allowed a h =
    let (same, a', h') = call_ended s c a h in
    let (same', h'', refused) = calls_ended (call s c) cs allowed a' h' in
    (ground arith, h'', refused)

call_failed :
    (s : PdlogState) (c : Call) → s.error ≢ ok → SameLog s (call s c) × ((call s c).error ≡ s.error)
unfolding call pdlog_start pdlog_next pdlog_reply pdlog_stop
call_failed s (start allowed) e = ground arith
call_failed s (next expired) e = ground arith
call_failed s (reply error) e = ground arith
call_failed s (stop error) e = ground arith

-- The first error stays: later calls neither replace it nor send a request or accept a reply.
pub calls_failed :
    (s : PdlogState) (cs : List Call)
    → s.error ≢ ok
    → SameLog s (calls s cs) × ((calls s cs).error ≡ s.error)
unfolding calls
calls_failed s [] e = (ground arith, refl)
calls_failed s (c ∷ cs) e =
    let (same, kept) = call_failed s c e in
    let (same', kept') = calls_failed (call s c) cs (λ q. e (sym kept ∙ q)) in
    (ground arith, kept' ∙ kept)

-- Fetching `n` further chunks of the log: each round asks and is answered.
abbrev pub rounds : ℕ → List Call
rounds zero = []
rounds (suc n) = next false ∷ reply ok ∷ rounds n

-- While the limit is not reached, a reader that is active, idle and without error makes progress:
-- `n` more rounds give `n` more requests and `n` more replies, and it is still active.
pub rounds_progress :
    (n : ℕ) (s : PdlogState)
    → s.active ≡ true
    → s.awaiting ≡ false
    → s.error ≡ ok
    → s.requests + n ≤ pdlog_max_requests
    → let t = calls s (rounds n) in
      (t.requests ≡ s.requests + n) × (t.replies ≡ s.replies + n) × (t.active ≡ true)
unfolding calls
rounds_progress zero s a w e h = ground arith
rounds_progress (suc n) s a w e h =
    let t : PdlogState = record s { requests = s.requests + 1; replies = s.replies + 1 } in
    let q : call (call s (next false)) (reply ok) ≡ t =
      unfold call pdlog_next pdlog_reply in ground arith in
    ground (arith, q, rounds_progress n t a w e (omega arith))
