-- ===== src/Routed/Repeat.antt =====
-- The repetition of a request on a state that has moved on, but still holds the latch.
use cc3501e_bridge_firmware.Base.{
  ℕ, ◌≤◌, ◌≡◌, ◌≢◌, inl, inr, refl, ap, ap₂, sym, ◌∙◌, true, none, List, [], length, ltb, ◌==◌,
  Bool-cases,
}
use cc3501e_bridge_firmware.Wire.{Cmd, Resp, ok, err_busy}
use cc3501e_bridge_firmware.Worker.{
  WorkerState, idle, queued, running, done, err, reset, Polled, poll, same_cmd,
}
use cc3501e_bridge_firmware.Bridge.{Bridge, RetryLatch}
use cc3501e_bridge_firmware.Latch
use cc3501e_bridge_firmware.Latch.{hit, drop_latch, latch_bytes}
use cc3501e_bridge_firmware.Latch.Serve.{serve_cases}
use cc3501e_bridge_firmware.Routed.{err_resp, with_job, collect, route}
use cc3501e_bridge_firmware.Routed.Collect.{route-hit, route_miss}
use cc3501e_bridge_firmware.Routed.Replay.{Latched, Latched-reply, route-HoldsReply}

store_req_seq :
    (b : Bridge) (cmd : Cmd) (status : Resp) (bytes : List ℕ)
    → (Latch.store b cmd status bytes).req_seq ≡ b.req_seq
unfolding Latch.store
store_req_seq b cmd status bytes = elim (Bool-cases (Latch.applies cmd)) [
  | inr n ↦ rw n
  | inl y ↦ elim (Bool-cases (b.req_seq == 0)) [
    | inl z ↦ rw (y, z)
    | inr z ↦ elim (Bool-cases (ltb Latch.latch_bytes (length bytes))) [
      | inl s ↦ rw (y, z, s)
      | inr s ↦ rw (y, z, s)
    ]
  ]
]

collect_req_seq :
    (st : WorkerState) (b : Bridge) (cmd : Cmd) (p : Polled) (submitted : Bridge)
    → submitted.req_seq ≡ b.req_seq
    → (collect st b cmd p submitted).2.req_seq ≡ b.req_seq
unfolding collect
collect_req_seq done b cmd p submitted h = store_req_seq (with_job b (reset b.job)) cmd ok p.out
collect_req_seq err b cmd p submitted h =
    store_req_seq (with_job b (reset b.job)) cmd (err_resp p.rv) []
collect_req_seq idle b cmd p submitted h = h
collect_req_seq queued b cmd p submitted h = refl
collect_req_seq running b cmd p submitted h = refl

-- What a helper hands to `route` to submit its job keeps the number of the request.
abbrev pub KeepsSeq : (Bridge → Bridge) → Type 0
KeepsSeq k = (b : Bridge) → (k b).req_seq ≡ b.req_seq

missed_req_seq :
    (b b1 : Bridge) (cmd : Cmd) (room : ℕ) (k : Bridge → Bridge)
    → KeepsSeq k
    → Latch.serve b cmd room ≡ (none, b1)
    → (route b cmd room k).2.req_seq ≡ b1.req_seq
missed_req_seq b b1 cmd room k s e =
    let after = with_job b1 (poll b1.job cmd room).1 in
    rw (route_miss b b1 cmd room k e) (
      collect_req_seq (poll b1.job cmd room).0.status after cmd (poll b1.job cmd room).0 (k after)
        (s after))

pub route_req_seq :
    (b : Bridge) (cmd : Cmd) (room : ℕ) (k : Bridge → Bridge)
    → KeepsSeq k
    → (route b cmd room k).2.req_seq ≡ b.req_seq
route_req_seq b cmd room k s = elim (serve_cases b cmd room) [
  | inl a ↦ rw (route-hit b cmd room k a)
  | inr (inl e) ↦ missed_req_seq b b cmd room k s e
  | inr (inr e) ↦ missed_req_seq b (drop_latch b) cmd room k s e
]

Latched-same :
    (b c : Bridge) (cmd : Cmd) (room : ℕ) (status : Resp) (bytes : List ℕ)
    → c.latch ≡ b.latch
    → c.req_seq ≡ b.req_seq
    → Latched b cmd room status bytes
    → Latched c cmd room status bytes
Latched-same b c cmd room status bytes l n (a, s, d) = (
  record {
    generic = a.generic;
    identified = ap (λ x. x == 0) n ∙ a.identified;
    held = ap (λ (x : RetryLatch). x.valid) l ∙ a.held;
    same_opcode = ap (λ (x : RetryLatch). same_cmd x.cmd cmd) l ∙ a.same_opcode;
    same_seq = ap₂ (λ (x : RetryLatch) (y : ℕ). x.seq == y) l n ∙ a.same_seq;
    fits = ap (λ (x : RetryLatch). ltb room (length x.bytes)) l ∙ a.fits;
  },
  ap (λ (x : RetryLatch). x.status) l ∙ s,
  ap (λ (x : RetryLatch). x.bytes) l ∙ d,
)

-- A final answer of at most 32 bytes is given again on any later state with the latch and the number
-- of the request as they were.
pub route_repeats :
    (b c : Bridge) (cmd : Cmd) (room : ℕ) (k k' : Bridge → Bridge)
    → KeepsSeq k
    → Latch.applies cmd ≡ true
    → b.req_seq ≢ 0
    → (route b cmd room k).0 ≢ err_busy
    → length (route b cmd room k).1 ≤ latch_bytes
    → c.latch ≡ (route b cmd room k).2.latch
    → c.req_seq ≡ b.req_seq
    → route c cmd room k' ≡ ((route b cmd room k).0, (route b cmd room k).1, hit c)
route_repeats b c cmd room k k' s y nz ne small l n =
    let r = route b cmd room k in
    Latched-reply c cmd room r.0 r.1 k' (
      Latched-same r.2 c cmd room r.0 r.1 l (n ∙ sym (route_req_seq b cmd room k s))
        (route-HoldsReply b cmd room k y nz ne small))
