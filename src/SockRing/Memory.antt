-- ===== src/SockRing/Memory.antt =====
-- Stores into the ring's array, and loads from it, against the stream of bytes that it carries.
use cc3501e_bridge_firmware.Base.{
  ℕ, zero, suc, ◌+◌, ◌-◌, ◌%◌, ◌≤◌, ◌<◌, ◌≡◌, refl, ap, ap₂, ◌∙◌, sym, List, [], ◌∷◌, ◌++◌,
  append-nil, length, get_or, slice, slice-append, slice-suc, get_or-append_left,
  get_or-append_right, length-append, Bool-cases, ltb, leb, inl, inr, arith,
}
use cc3501e_bridge_firmware.SockRing.{ring_bytes, store, load, copy_out}

-- The array holds the bytes of `stream` from position `from` on, each at its position modulo the
-- size.
abbrev pub Holds : (ℕ → ℕ) → List ℕ → ℕ → Type 0
Holds buf stream from =
    (i : ℕ) → from ≤ i → i < length stream → buf (i % ring_bytes) ≡ get_or stream i 0

store_in :
    (buf : ℕ → ℕ) (idx : ℕ) (bs : List ℕ) (i : ℕ)
    → idx ≤ i
    → i < idx + length bs
    → store buf idx bs i ≡ get_or bs (i - idx) 0
unfolding store
store_in buf idx bs i h k = ground arith

store_out :
    (buf : ℕ → ℕ) (idx : ℕ) (bs : List ℕ) (i : ℕ)
    → (idx ≤ i → i < idx + length bs → ⊥)
    → store buf idx bs i ≡ buf i
unfolding store
store_out buf idx bs i h = elim (Bool-cases (leb idx i)) [
  | inl a ↦ elim (Bool-cases (ltb i (idx + length bs))) [
    | inl b ↦ absurd (h (ground arith) (ground arith))
    | inr b ↦ rw (a, b)
  ]
  | inr a ↦ rw a
]

-- Bytes that are stored at the head, in one piece and in free room, extend the stream.
pub store-Holds :
    (buf : ℕ → ℕ) (stream bs : List ℕ) (from : ℕ)
    → from ≤ length stream
    → length stream % ring_bytes + length bs ≤ ring_bytes
    → length stream + length bs ≤ from + ring_bytes
    → Holds buf stream from
    → Holds (store buf (length stream % ring_bytes) bs) (stream ++ bs) from
store-Holds buf stream bs from le piece free holds i ge lt =
    elim (Bool-cases (ltb i (length stream))) [
      | inl old ↦
          rw
            (
              store_out buf (length stream % ring_bytes) bs (i % ring_bytes)
                  (λ a b. let h : i < length stream = ground arith in omega arith),
              get_or-append_left stream bs i 0 (ground arith),
            )
            (holds i ge (ground arith))
      | inr new ↦
          let h : length stream ≤ i = ground arith in
          let k : i ≡ length stream + (i - length stream) = omega arith in
          let l : i < length stream + length bs = omega (arith, length-append stream bs) in
          store_in buf (length stream % ring_bytes) bs (i % ring_bytes) (omega arith) (omega arith)
          ∙ ap (λ t. get_or bs t 0) (omega arith)
          ∙ sym (get_or-append_right stream bs (i - length stream) 0)
          ∙ ap (λ t. get_or (stream ++ bs) t 0) (sym k)
    ]

-- A load in one piece.
load-slice :
    (buf : ℕ → ℕ) (stream : List ℕ) (from at idx n : ℕ)
    → Holds buf stream from
    → from ≤ at
    → at + n ≤ length stream
    → (0 < n → idx ≡ at % ring_bytes)
    → idx + n ≤ ring_bytes
    → load buf idx n ≡ slice stream at n
unfolding load
load-slice buf stream from at idx zero holds ge le e fits = refl
load-slice buf stream from at idx (suc n) holds ge le e fits =
    rw (slice-suc stream at n 0 (omega arith)) (
      ap₂ ◌∷◌ (rw (e (omega arith)) (holds at ge (omega arith))) (
        load-slice buf stream from (at + 1) (idx + 1) n holds (omega arith) (omega arith)
          (λ some_left. let k : idx ≡ at % ring_bytes = e (omega arith) in omega arith)
          (omega arith)))

load-none : (buf : ℕ → ℕ) (n : ℕ) → n ≡ 0 → load buf 0 n ≡ []
unfolding load
load-none buf zero e = refl
load-none buf (suc n) e = absurd (omega arith)

-- The copy out of the ring gives the bytes of the stream, also round the end of the array.
pub copy_out-slice :
    (buf : ℕ → ℕ) (stream : List ℕ) (from at tail n : ℕ)
    → Holds buf stream from
    → from ≤ at
    → at + n ≤ length stream
    → tail % ring_bytes ≡ at % ring_bytes
    → n ≤ ring_bytes
    → copy_out buf tail n ≡ slice stream at n
unfolding copy_out
copy_out-slice buf stream from at tail n holds ge le e small =
    elim (Bool-cases (ltb n (ring_bytes - idx))) [
      | inl one ↦
          let whole : load buf idx n ≡ slice stream at n =
            load-slice buf stream from at idx n holds ge le (λ _. e) (ground arith) in
          ground (arith, append-nil (load buf idx n))
      | inr two ↦
          let front : load buf idx first ≡ slice stream at first =
            load-slice buf stream from at idx first holds ge (ground arith) (λ _. e)
              (omega arith) in
          let back : load buf 0 (n - first) ≡ slice stream (at + first) (n - first) =
            load-slice buf stream from (at + first) 0 (n - first) holds (omega arith) (ground arith)
              (λ _. omega arith) (omega arith) in
          let both : slice stream at n
              ≡ slice stream at first ++ slice stream (at + first) (n - first) =
            let k : n ≡ first + (n - first) = ground arith in
            ap (λ t. slice stream at t) k ∙ slice-append at first (n - first) stream in
          ground (arith, load-none buf (n - first), append-nil (load buf idx first))
    ]
  where
    idx : ℕ
    idx = tail % ring_bytes

    first : ℕ
    first = ring_bytes - idx
