-- ===== src/Crc.antt =====
-- The CRC-16 of src/protocol.c: a table of 256 entries, filled from the canonical routine, and the
-- update by table. The canonical alp_crc16_ccitt_false_update() of <alp/protocol/crc16.h> is not in
-- this repository: it is the parameter `update`.
use cc3501e_bridge_firmware.Base.{ℕ, ◌*◌, ◌/◌, ◌%◌, ◌^◌, ◌<◌, ◌≡◌, refl, List, [], ◌∷◌, ◌++◌, arith}
use Prim.Native.Nat.{bit_xor}

-- ALP_CRC16_CCITT_FALSE_INIT (init 0xFFFF, tests/gen_protocol_vectors.py).
abbrev pub crc_init : ℕ
crc_init = 0xffff

module _ (update : ℕ → List ℕ → ℕ) where
  -- crc16_table_init(): the entry of byte `i`.
  pub crc16_table : ℕ → ℕ
  crc16_table i = update 0 (i ∷ [])

  -- One round of the loop, for the byte `b`.
  pub crc16_table_round : ℕ → ℕ → ℕ
  crc16_table_round crc b = bit_xor (crc * 256) (crc16_table (bit_xor (crc / 256) b % 256)) % 2 ^ 16

  -- crc16_table_update(), which fills the table first if need be.
  pub crc16_table_update : ℕ → List ℕ → ℕ
  crc16_table_update crc [] = crc
  crc16_table_update crc (b ∷ bs) = crc16_table_update (crc16_table_round crc b) bs

  -- Two buffers one after the other are checked as one.
  pub crc16_table_update-append :
      (crc : ℕ) (xs ys : List ℕ)
      → crc16_table_update crc (xs ++ ys) ≡ crc16_table_update (crc16_table_update crc xs) ys
  unfolding crc16_table_update
  crc16_table_update-append crc [] ys = refl
  crc16_table_update-append crc (x ∷ xs) ys =
      crc16_table_update-append (crc16_table_round crc x) xs ys

  pub crc16_table_update-lt :
      (crc : ℕ) (xs : List ℕ) → crc < 2 ^ 16 → crc16_table_update crc xs < 2 ^ 16
  unfolding crc16_table_update crc16_table_round
  crc16_table_update-lt crc [] h = h
  crc16_table_update-lt crc (x ∷ xs) h =
      crc16_table_update-lt (crc16_table_round crc x) xs (omega arith)
