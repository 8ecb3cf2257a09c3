-- ===== src/Staging/Transfer.antt =====
-- A transfer: the request clocked in, the reply taken out in pieces.
use cc3501e_bridge_firmware.Base.{
  ℕ, suc, ◌+◌, ◌-◌, ◌≤◌, ◌<◌, ◌≡◌, refl, ap, sym, ◌∙◌, List, [], ◌∷◌, ◌++◌, append-nil,
  append_assoc, ltb, if◌then◌else◌, length, take, slice, take_all, length-append, length-take,
  ltb-false, eq-false, slice-append, Bool-cases, inl, inr, min, arith,
}
use cc3501e_bridge_firmware.Frame.{frame_max_bytes}
use cc3501e_bridge_firmware.Staging.{Staging, cs_low, rx_byte, cs_high, tx_take}

-- The bytes that the host clocks in, one interrupt each.
pub clock_in : Staging → List ℕ → Staging
clock_in s [] = s
clock_in s (b ∷ bs) = clock_in (rx_byte s b) bs

clock_in_full : (s : Staging) (bs : List ℕ) → frame_max_bytes ≤ length s.rx → clock_in s bs ≡ s
unfolding clock_in rx_byte
clock_in_full s [] h = refl
clock_in_full s (b ∷ bs) h = rw (ltb-false (length s.rx) frame_max_bytes h) (clock_in_full s bs h)

clock_in_from :
    (s : Staging) (bs : List ℕ)
    → length s.rx ≤ frame_max_bytes
    → clock_in s bs ≡ record s { rx = s.rx ++ take (frame_max_bytes - length s.rx) bs }
unfolding clock_in rx_byte
clock_in_from s [] h =
    let e = take_all (frame_max_bytes - length s.rx) [] (omega arith) in
    ap (λ x. record s { rx = x }) (sym (ap (λ t. s.rx ++ t) e ∙ append-nil s.rx))
clock_in_from s (b ∷ bs) h = elim (Bool-cases (ltb (length s.rx) frame_max_bytes)) [
  | inl t ↦
      let e = length-append s.rx (b ∷ []) in
      let k = frame_max_bytes - length (s.rx ++ (b ∷ [])) in
      let lt : length s.rx < frame_max_bytes = ground arith in
      let e2 : suc k ≡ frame_max_bytes - length s.rx = omega arith in
      ap (λ c. clock_in (if c then record s { rx = s.rx ++ (b ∷ []) } else s) bs) t
      ∙ clock_in_from (record s { rx = s.rx ++ (b ∷ []) }) bs (omega arith)
      ∙ ap (λ x. record s { rx = x }) (append_assoc s.rx (b ∷ []) (take k bs))
      ∙ ap (λ n. record s { rx = s.rx ++ take n (b ∷ bs) }) e2
  | inr f ↦
      let ge : frame_max_bytes ≤ length s.rx = ground arith in
      let e2 : 0 ≡ frame_max_bytes - length s.rx = omega arith in
      clock_in_full s (b ∷ bs) ge
      ∙ ap (λ x. record s { rx = x }) (sym (append-nil s.rx))
      ∙ ap (λ n. record s { rx = s.rx ++ take n (b ∷ bs) }) e2
]

-- What is read out in pieces of the sizes `rooms`, one after the other.
pub take_out : Staging → List ℕ → List ℕ
take_out s [] = []
take_out s (room ∷ rooms) = (tx_take s room).0 ++ take_out (tx_take s room).1 rooms

abbrev pub total : List ℕ → ℕ
total [] = 0
total (n ∷ ns) = n + total ns

take_out_from :
    (s : Staging) (rooms : List ℕ)
    → s.cursor ≤ length s.tx
    → take_out s rooms ≡ slice s.tx s.cursor (min (total rooms) (length s.tx - s.cursor))
unfolding take_out tx_take
take_out_from s [] h =
    let e : 0 ≡ min 0 (length s.tx - s.cursor) = omega arith in ap (λ n. slice s.tx s.cursor n) e
take_out_from s (room ∷ rooms) h =
    let left = length s.tx - s.cursor in
    let n = if ltb room left then room else left in
    let m = min (total rooms) (length s.tx - (s.cursor + n)) in
    let fits : s.cursor + n ≤ length s.tx = ground arith in
    let e : n + m ≡ min (room + total rooms) left = ground arith in
    ap (λ x. slice s.tx s.cursor n ++ x)
      (take_out_from (record s { cursor = s.cursor + n }) rooms fits)
    ∙ sym (slice-append s.cursor n m s.tx)
    ∙ ap (λ k. slice s.tx s.cursor k) e

clocked :
    (s : Staging) (bytes : List ℕ)
    → clock_in (cs_low s) bytes ≡ record s { rx = take frame_max_bytes bytes }
unfolding cs_low
clocked s bytes =
    let e : frame_max_bytes - 0 ≡ frame_max_bytes = omega arith in
    clock_in_from (record s { rx = [] }) bytes (omega arith)
    ∙ ap (λ n. record s { rx = take n bytes }) e

module _ {St : Type 0} (build : St → List ℕ → ℕ → List ℕ × St) where
  replied :
      (s : Staging) (st : St) (frame rooms : List ℕ)
      → 0 < length frame
      → length (build st frame frame_max_bytes).0 ≤ total rooms
      → (take_out (cs_high build (record s { rx = frame }) st).0 rooms
          ≡ (build st frame frame_max_bytes).0)
        × ((cs_high build (record s { rx = frame }) st).1 ≡ (build st frame frame_max_bytes).1)
  unfolding cs_high
  replied s st frame rooms h0 h =
      let reply = (build st frame frame_max_bytes).0 in
      let e : min (total rooms) (length reply - 0) ≡ length reply = omega arith in
      rw (eq-false (length frame) 0 (λ z. omega arith)) (
        take_out_from (record { rx = frame; tx = reply; cursor = 0 }) rooms (omega arith)
            ∙ ap (λ n. take n reply) e
            ∙ take_all (length reply) reply (omega arith),
        refl,
      )

  -- One transfer: a request of one byte or more, cut at CC3501E_FRAME_MAX_BYTES, is handed to the
  -- protocol once; and whatever the pieces that the reply is taken out in, and whatever the transfer
  -- before it left behind, together they are the reply, where they have room for it.
  pub take_out-cs_high :
      (s : Staging) (st : St) (bytes rooms : List ℕ)
      → 0 < length bytes
      → length (build st (take frame_max_bytes bytes) frame_max_bytes).0 ≤ total rooms
      → (take_out (cs_high build (clock_in (cs_low s) bytes) st).0 rooms
          ≡ (build st (take frame_max_bytes bytes) frame_max_bytes).0)
        × ((cs_high build (clock_in (cs_low s) bytes) st).1
            ≡ (build st (take frame_max_bytes bytes) frame_max_bytes).1)
  take_out-cs_high s st bytes rooms h0 h =
      let e = length-take frame_max_bytes bytes in
      rw (clocked s bytes) (replied s st (take frame_max_bytes bytes) rooms (omega arith) h)
