-- ===== src/Ble/Table.antt =====
-- BLE_GATT_REGISTER: which tables of characteristics pass the validation.
use cc3501e_bridge_firmware.Base.{
  ℕ, zero, suc, ◌+◌, ◌*◌, ◌^◌, ◌≤◌, ◌<◌, ◌≡◌, refl, ap, sym, ◌∙◌, true, Option, none, some, List,
  [], ◌∷◌, ◌++◌, append-nil, append_assoc, length, get_or, length-append, get_or-append_right,
  ltb-false, eq-true, eq-false, Bool-cases, inl, inr, arith,
}
use cc3501e_bridge_firmware.Wire.{Layout, put_le16, get_le16}
use cc3501e_bridge_firmware.Ble.{
  char_hdr, ble_gatt_reg_hdr, walk_chars, ends_at, ble_gatt_register_validate,
}

-- A characteristic as a host describes it: its uuid and properties, 17 bytes, and its first value.
pub record Char : Type 0 where
  pub uuid_props : List ℕ
  pub value : List ℕ

abbrev pub Fits : Char → Type 0
Fits c = (length c.uuid_props ≡ 17) × (length c.value < 2 ^ 16)

abbrev pub AllFit : List Char → Type 0
AllFit [] = Unit {0}
AllFit (c ∷ cs) = Fits c × AllFit cs

abbrev pub encode_char : Char → List ℕ
encode_char c = c.uuid_props ++ (put_le16 (length c.value) ++ c.value)

abbrev pub encode_chars : List Char → List ℕ
encode_chars [] = []
encode_chars (c ∷ cs) = encode_char c ++ encode_chars cs

-- The request: version, the service's uuid of 16 bytes, the count and the table.
abbrev pub encode_table : ℕ → List ℕ → List Char → List ℕ
encode_table version uuid cs = (version ∷ uuid ++ (length cs ∷ [])) ++ encode_chars cs

length-encode_char : (c : Char) → Fits c → length (encode_char c) ≡ char_hdr + length c.value
length-encode_char c f =
    omega (arith, f.0, length-append c.uuid_props (put_le16 (length c.value) ++ c.value))

initial_len :
    (pre rest : List ℕ) (c : Char)
    → Fits c
    → get_le16 (pre ++ (encode_char c ++ rest)) (length pre + 17) ≡ length c.value
initial_len pre rest c f =
    let tail = put_le16 (length c.value) ++ c.value in
    let l = f.1 in
    let e17 = f.0 in
    let at : (k : ℕ)
        → get_or (pre ++ (encode_char c ++ rest)) (length pre + (17 + k)) 0
          ≡ get_or (tail ++ rest) k 0 =
      λ k.
        get_or-append_right pre (encode_char c ++ rest) (17 + k) 0
        ∙ ap (λ x. get_or x (17 + k) 0) (append_assoc c.uuid_props tail rest)
        ∙ ap (λ n. get_or (c.uuid_props ++ (tail ++ rest)) n 0) (omega arith)
        ∙ get_or-append_right c.uuid_props (tail ++ rest) k 0 in
    let lo = at 0 in
    let hi = at 1 in
    let e0 : length pre + (17 + 0) ≡ length pre + 17 = omega arith in
    let e1 : length pre + (17 + 1) ≡ length pre + 17 + 1 = omega arith in
    let lo' = sym (ap (λ k. get_or (pre ++ (encode_char c ++ rest)) k 0) e0) ∙ lo in
    let hi' = sym (ap (λ k. get_or (pre ++ (encode_char c ++ rest)) k 0) e1) ∙ hi in
    omega (arith, lo', hi')

walk_chars-encode :
    (cs : List Char) (pre : List ℕ)
    → AllFit cs
    → walk_chars (length cs) (pre ++ encode_chars cs) (length pre)
      ≡ some (length (pre ++ encode_chars cs))
unfolding walk_chars
walk_chars-encode [] pre f = ap (λ x. some (length x)) (sym (append-nil pre))
walk_chars-encode (c ∷ cs) pre f =
    let req = pre ++ (encode_char c ++ encode_chars cs) in
    let e-len = length-append pre (encode_char c ++ encode_chars cs) in
    let e-len2 = length-append (encode_char c) (encode_chars cs) in
    let e-char = length-encode_char c f.0 in
    let e-pre = length-append pre (encode_char c) in
    let e-init = initial_len pre (encode_chars cs) c f.0 in
    let e-assoc = append_assoc pre (encode_char c) (encode_chars cs) in
    let e-next : length pre + char_hdr + length c.value ≡ length (pre ++ encode_char c) =
      omega arith in
    let rec = walk_chars-encode cs (pre ++ encode_char c) f.1 in
    rw
      (
        e-init,
        ltb-false (length req) (length pre + char_hdr) (omega arith),
        ltb-false (length req) (length pre + char_hdr + length c.value) (omega arith),
      )
      (ap (λ k. walk_chars (length cs) req k) e-next
        ∙ ap (λ x. walk_chars (length cs) x (length (pre ++ encode_char c))) (sym e-assoc)
        ∙ rec
        ∙ ap (λ x. some (length x)) e-assoc)

-- A table that a host encodes right is accepted, with its number of characteristics: one at least
-- and no more than the limit, each with a uuid and properties of 17 bytes and a first value of less
-- than 65536 bytes, behind a service's uuid of 16 bytes.
pub ble_gatt_register_validate-encode_table :
    (w : Layout) (uuid : List ℕ) (cs : List Char)
    → length uuid ≡ 16
    → 0 < length cs
    → length cs ≤ w.gatt_max_chars
    → AllFit cs
    → ble_gatt_register_validate w (encode_table w.gatt_register_version uuid cs) ≡ some (length cs)
unfolding ble_gatt_register_validate ends_at
ble_gatt_register_validate-encode_table w uuid cs u some_char few f =
    let pre = w.gatt_register_version ∷ uuid ++ (length cs ∷ []) in
    let req = encode_table w.gatt_register_version uuid cs in
    let e-pre : length pre ≡ ble_gatt_reg_hdr =
      omega (arith, length-append uuid (length cs ∷ [])) in
    let e-len = length-append pre (encode_chars cs) in
    let e-at : 17 ≡ length (w.gatt_register_version ∷ uuid) + 0 = omega arith in
    let e-num : get_or req 17 0 ≡ length cs =
      ap (λ x. get_or x 17 0)
        (append_assoc (w.gatt_register_version ∷ uuid) (length cs ∷ []) (encode_chars cs))
      ∙ ap
          (λ k.
            get_or ((w.gatt_register_version ∷ uuid) ++ ((length cs ∷ []) ++ encode_chars cs)) k 0)
          e-at
      ∙ get_or-append_right (w.gatt_register_version ∷ uuid) ((length cs ∷ []) ++ encode_chars cs) 0
          0 in
    let e-walk : walk_chars (length cs) req ble_gatt_reg_hdr ≡ some (length req) =
      ap (λ k. walk_chars (length cs) req k) (sym e-pre) ∙ walk_chars-encode cs pre f in
    let ends : ends_at (walk_chars (length cs) req ble_gatt_reg_hdr) (length req) ≡ true =
      ap (λ o. ends_at o (length req)) e-walk ∙ eq-true (length req) (length req) refl in
    rw (
      e-num,
      ltb-false (length req) ble_gatt_reg_hdr (omega arith),
      eq-true w.gatt_register_version w.gatt_register_version refl,
      eq-false (length cs) 0 (λ z. omega arith),
      ltb-false w.gatt_max_chars (length cs) few,
      ends,
    )

walk_chars_bounds :
    (n : ℕ) (req : List ℕ) (pos end : ℕ)
    → walk_chars n req pos ≡ some end
    → pos + n * char_hdr ≤ end
unfolding walk_chars
walk_chars_bounds zero req pos end e = ground arith
walk_chars_bounds (suc n) req pos end e =
    let next = pos + char_hdr + get_le16 req (pos + 17) in
    let rec = walk_chars_bounds n req next end in ground arith

ends_at-true : (o : Option ℕ) (len : ℕ) → ends_at o len ≡ true → o ≡ some len
unfolding ends_at
ends_at-true none len e = cc
ends_at-true (some pos) len e = ground arith

-- An accepted table has one characteristic or more and no more than the limit, and the request holds
-- the fixed parts of all of them.
ble_gatt_register_validate_bounds :
    (w : Layout) (req : List ℕ) (n : ℕ)
    → ble_gatt_register_validate w req ≡ some n
    → (0 < n) × (n ≤ w.gatt_max_chars) × (ble_gatt_reg_hdr + n * char_hdr ≤ length req)
unfolding ble_gatt_register_validate
ble_gatt_register_validate_bounds w req n e =
    let num = get_or req 17 0 in
    elim (Bool-cases (ends_at (walk_chars num req ble_gatt_reg_hdr) (length req))) [
      | inl t ↦
          let k =
            walk_chars_bounds num req ble_gatt_reg_hdr (length req)
              (ends_at-true (walk_chars num req ble_gatt_reg_hdr) (length req) t) in
          ground arith
      | inr f ↦ ground arith
    ]
