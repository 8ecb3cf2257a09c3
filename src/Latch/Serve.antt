-- ===== src/Latch/Serve.antt =====
-- When the retry latch answers, and that what it stores it serves.
use cc3501e_bridge_firmware.Base.{
  ℕ, ◌≤◌, ◌≡◌, ◌≢◌, ◌⊎◌, inl, inr, refl, ap, ap₂, sym, ◌∙◌, true, false, none, some, List, length,
  ltb, ◌==◌, Bool-cases, arith,
}
use cc3501e_bridge_firmware.Wire.{Cmd, Resp}
use cc3501e_bridge_firmware.Worker.{same_cmd, same_cmd_refl}
use cc3501e_bridge_firmware.Bridge.{Bridge}
use cc3501e_bridge_firmware.Latch.{latch_bytes, applies, drop_latch, hit, serve, store}

-- The conditions under which the latch answers.
pub record Answers (b : Bridge) (cmd : Cmd) (room : ℕ) : Type 0 where
  pub generic : applies cmd ≡ true
  pub identified : (b.req_seq == 0) ≡ false
  pub held : b.latch.valid ≡ true
  pub same_opcode : same_cmd b.latch.cmd cmd ≡ true
  pub same_seq : (b.latch.seq == b.req_seq) ≡ true
  pub fits : ltb room (length b.latch.bytes) ≡ false

pub serve-Answers :
    (b : Bridge) (cmd : Cmd) (room : ℕ)
    → Answers b cmd room
    → serve b cmd room ≡ (some (b.latch.status, b.latch.bytes), hit b)
unfolding serve
serve-Answers b cmd room a = rw (a.generic, a.identified, a.held, a.same_opcode, a.same_seq, a.fits)

-- The ways that a call of retry_latch_serve() goes.
pub serve_cases :
    (b : Bridge) (cmd : Cmd) (room : ℕ)
    → Answers b cmd room
      ⊎ (serve b cmd room ≡ (none, b))
      ⊎ (serve b cmd room ≡ (none, drop_latch b))
unfolding serve
serve_cases b cmd room = elim (Bool-cases (applies cmd)) [
  | inr n ↦ inr (inl (rw n))
  | inl y1 ↦ elim (Bool-cases (b.req_seq == 0)) [
    | inl n ↦ inr (inl (rw (y1, n)))
    | inr y2 ↦ elim (Bool-cases b.latch.valid) [
      | inr n ↦ inr (inl (rw (y1, y2, n)))
      | inl y3 ↦ elim (Bool-cases (same_cmd b.latch.cmd cmd)) [
        | inr n ↦ inr (inl (rw (y1, y2, y3, n)))
        | inl y4 ↦ elim (Bool-cases (b.latch.seq == b.req_seq)) [
          | inr n ↦ inr (inr (rw (y1, y2, y3, y4, n)))
          | inl y5 ↦ elim (Bool-cases (ltb room (length b.latch.bytes))) [
            | inl n ↦ inr (inl (rw (y1, y2, y3, y4, y5, n)))
            | inr y6 ↦ inl (record {
              generic = y1;
              identified = y2;
              held = y3;
              same_opcode = y4;
              same_seq = y5;
              fits = y6;
            })
          ]
        ]
      ]
    ]
  ]
]

-- Whatever the latch decides, the worker's slot and the request's number stay.
pub serve_keeps :
    (b : Bridge) (cmd : Cmd) (room : ℕ)
    → ((serve b cmd room).1.job ≡ b.job) × ((serve b cmd room).1.req_seq ≡ b.req_seq)
serve_keeps b cmd room = elim (serve_cases b cmd room) [
  | inl a ↦ rw (serve-Answers b cmd room a) (refl, refl)
  | inr (inl e) ↦ rw e (refl, refl)
  | inr (inr e) ↦ rw e (refl, refl)
]

-- A request that was missed is missed again, on the latch that the miss left.
pub serve_missed :
    (b b' : Bridge) (cmd : Cmd) (room : ℕ)
    → (serve b cmd room).0 ≡ none
    → b'.latch ≡ (serve b cmd room).1.latch
    → b'.req_seq ≡ b.req_seq
    → (serve b' cmd room).0 ≡ none
serve_missed b b' cmd room miss l s = elim (serve_cases b' cmd room) [
  | inr (inl e) ↦ rw e refl
  | inr (inr e) ↦ rw e refl
  | inl a ↦ elim (serve_cases b cmd room) [
    | inl a0 ↦ let x = rw (serve-Answers b cmd room a0) at miss in cc x
    | inr (inr e) ↦ let l' = rw e at l in let x = sym (ap (λ t. t.valid) l') ∙ a.held in cc x
    | inr (inl e) ↦
        let l' : b'.latch ≡ b.latch = rw e at l in
        let kept : Answers b cmd room = record {
          generic = a.generic;
          identified = ap (λ n. n == 0) (sym s) ∙ a.identified;
          held = ap (λ t. t.valid) (sym l') ∙ a.held;
          same_opcode = ap (λ t. same_cmd t.cmd cmd) (sym l') ∙ a.same_opcode;
          same_seq = ap₂ (λ t n. t.seq == n) (sym l') (sym s) ∙ a.same_seq;
          fits = ap (λ t. ltb room (length t.bytes)) (sym l') ∙ a.fits;
        } in
        let x = rw (serve-Answers b cmd room kept) at miss in cc x
  ]
]

pub store-Answers :
    (b : Bridge) (cmd : Cmd) (status : Resp) (bytes : List ℕ) (room : ℕ)
    → applies cmd ≡ true
    → b.req_seq ≢ 0
    → length bytes ≤ latch_bytes
    → length bytes ≤ room
    → Answers (store b cmd status bytes) cmd room
      × ((store b cmd status bytes).latch.status ≡ status)
      × ((store b cmd status bytes).latch.bytes ≡ bytes)
unfolding store
store-Answers b cmd status bytes room y nz small fits =
    let z : (b.req_seq == 0) ≡ false = ground arith in
    let s : ltb latch_bytes (length bytes) ≡ false = ground arith in
    rw (y, z, s)
      (
        record {
          generic = y;
          identified = z;
          held = refl;
          same_opcode = same_cmd_refl cmd;
          same_seq = ground arith;
          fits = ground arith;
        },
        refl,
        refl,
      )
