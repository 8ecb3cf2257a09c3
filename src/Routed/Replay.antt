-- ===== src/Routed/Replay.antt =====
-- A command whose reply was lost: the host's retry gets the same reply and runs nothing.
use cc3501e_bridge_firmware.Base.{
  ℕ, ◌≤◌, ◌≡◌, ◌≢◌, ◌⊎◌, inl, inr, refl, subst, ap, ap₂, ◌∙◌, sym, true, none, List, [], length,
  length-take, arith,
}
use cc3501e_bridge_firmware.Wire.{Cmd, Resp, ok, err_busy}
use cc3501e_bridge_firmware.Worker.{
  WorkerState, idle, queued, running, done, err, reset, Polled, poll, same_cmd→eq,
}
use cc3501e_bridge_firmware.Worker.Slot.{poll_exact}
use cc3501e_bridge_firmware.Bridge.{Bridge, Reply}
use cc3501e_bridge_firmware.Latch
use cc3501e_bridge_firmware.Latch.{hit, drop_latch, latch_bytes}
use cc3501e_bridge_firmware.Latch.Serve.{Answers, serve_cases, store-Answers}
use cc3501e_bridge_firmware.Routed.{err_resp, with_job, collect, switch, route}
use cc3501e_bridge_firmware.Routed.Collect.{route-hit}

-- The state holds `status` and `bytes` for a retry of this request.
abbrev pub Latched : Bridge → Cmd → ℕ → Resp → List ℕ → Type 0
Latched b cmd room status bytes =
    Answers b cmd room × (b.latch.status ≡ status) × (b.latch.bytes ≡ bytes)

pub Latched-reply :
    (b : Bridge) (cmd : Cmd) (room : ℕ) (status : Resp) (bytes : List ℕ) (k : Bridge → Bridge)
    → Latched b cmd room status bytes
    → route b cmd room k ≡ (status, bytes, hit b)
Latched-reply b cmd room status bytes k (a, s, d) =
    route-hit b cmd room k a ∙ ap₂ (λ (x : Resp) (y : List ℕ). (x, y, hit b)) s d

collect-Latched :
    (st : WorkerState) (b : Bridge) (cmd : Cmd) (room : ℕ) (p : Polled) (submitted : Bridge)
    → Latch.applies cmd ≡ true
    → b.req_seq ≢ 0
    → (st ≡ done → length p.out ≤ room)
    → let (status, bytes, b') = collect st b cmd p submitted in
      status ≢ err_busy → length bytes ≤ latch_bytes → Latched b' cmd room status bytes
unfolding collect
collect-Latched done b cmd room p submitted y nz fits ne small =
    store-Answers (with_job b (reset b.job)) cmd ok p.out room y nz small (fits refl)
collect-Latched err b cmd room p submitted y nz fits ne small =
    store-Answers (with_job b (reset b.job)) cmd (err_resp p.rv) [] room y nz (omega arith)
      (omega arith)
collect-Latched idle b cmd room p submitted y nz fits ne small = absurd (ne refl)
collect-Latched queued b cmd room p submitted y nz fits ne small = absurd (ne refl)
collect-Latched running b cmd room p submitted y nz fits ne small = absurd (ne refl)

-- The answer of a collect is latched, whatever the latch held before.
miss-Latched :
    (b1 : Bridge) (cmd : Cmd) (room : ℕ) (k : Bridge → Bridge)
    → Latch.applies cmd ≡ true
    → b1.req_seq ≢ 0
    → let (status, bytes, b') = switch (poll b1.job cmd room) b1 cmd k in
      status ≢ err_busy → length bytes ≤ latch_bytes → Latched b' cmd room status bytes
unfolding switch
miss-Latched b1 cmd room k y nz ne small =
    let p = (poll b1.job cmd room).0 in
    let after = with_job b1 (poll b1.job cmd room).1 in
    collect-Latched p.status after cmd room p (k after) y nz
      (λ e.
        let x = poll_exact b1.job cmd room e in
        rw x.2 (omega (arith, length-take b1.job.result_len b1.job.result, x.3)))
      ne small

route-switch :
    (b b1 : Bridge) (cmd : Cmd) (room : ℕ) (k : Bridge → Bridge)
    → Latch.serve b cmd room ≡ (none, b1)
    → route b cmd room k ≡ switch (poll b1.job cmd room) b1 cmd k
unfolding route
route-switch b b1 cmd room k e = rw (e, route)

-- The state that a final answer leaves holds it for a retry.
abbrev pub HoldsReply : Reply → Cmd → ℕ → Type 0
HoldsReply r cmd room = Latched r.2 cmd room r.0 r.1

missed-HoldsReply :
    (b b1 : Bridge) (cmd : Cmd) (room : ℕ) (k : Bridge → Bridge)
    → Latch.serve b cmd room ≡ (none, b1)
    → Latch.applies cmd ≡ true
    → b1.req_seq ≢ 0
    → (route b cmd room k).0 ≢ err_busy
    → length (route b cmd room k).1 ≤ latch_bytes
    → HoldsReply (route b cmd room k) cmd room
missed-HoldsReply b b1 cmd room k e y nz ne small =
    let s = route-switch b b1 cmd room k e in
    subst (λ r. HoldsReply r cmd room) (sym s)
      (miss-Latched b1 cmd room k y nz (subst (λ (r : Reply). r.0 ≢ err_busy) s ne)
        (subst (λ (r : Reply). length r.1 ≤ latch_bytes) s small))

pub route-HoldsReply :
    (b : Bridge) (cmd : Cmd) (room : ℕ) (k : Bridge → Bridge)
    → Latch.applies cmd ≡ true
    → b.req_seq ≢ 0
    → (route b cmd room k).0 ≢ err_busy
    → length (route b cmd room k).1 ≤ latch_bytes
    → HoldsReply (route b cmd room k) cmd room
route-HoldsReply b cmd room k y nz ne small = elim (serve_cases b cmd room) [
  | inl a ↦
      subst (λ r. HoldsReply r cmd room) (sym (route-hit b cmd room k a))
        (
          record {
            generic = a.generic;
            identified = a.identified;
            held = a.held;
            same_opcode = a.same_opcode;
            same_seq = a.same_seq;
            fits = a.fits;
          },
          refl,
          refl,
        )
  | inr (inl e) ↦ missed-HoldsReply b b cmd room k e y nz ne small
  | inr (inr e) ↦ missed-HoldsReply b (drop_latch b) cmd room k e y nz ne small
]

-- A new number is never answered with an old reply: a request that the latch answers carries the
-- number and the opcode that the latch was filled under.
pub fresh_seq_missed :
    (b : Bridge) (cmd : Cmd) (room : ℕ)
    → (b.latch.seq ≢ b.req_seq) ⊎ (b.latch.cmd ≢ cmd)
    → (Latch.serve b cmd room).0 ≡ none
fresh_seq_missed b cmd room differs = elim (serve_cases b cmd room) [
  | inl a ↦ elim differs [
    | inl s ↦ absurd (s (ground (arith, a.same_seq)))
    | inr c ↦ absurd (c (same_cmd→eq b.latch.cmd cmd a.same_opcode))
  ]
  | inr (inl e) ↦ ap (λ t. t.0) e
  | inr (inr e) ↦ ap (λ t. t.0) e
]
