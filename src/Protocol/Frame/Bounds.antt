-- ===== src/Protocol/Frame/Bounds.antt =====
-- crates/neo4r-protocol/src/lib.rs: what a reader takes from the stream for a frame.
use neo4r.Protocol.Frame.{
  IoError, unexpected_eof, invalid_data, other, Stream, take_exact, header_len, max_payload_len,
  magic, version, slice, byte_at, from_u8, NativeMessageType, NativeFrame, read_payload, read_body,
  after_header, read_frame,
}
use neo4r.Prelude.Split.{bytes_eq}
use neo4r.Prelude.BigEndian.{from_be_bytes}
use neo4r.Prelude.{
  Bool-cases, List, Result, [], and_then, ap, arith, drop, err, inl, inr, length, ltb, ltb_false→le,
  ok, refl, some, suc, sym, take, zero, ℕ, ◌++◌, ◌==◌, ◌∙◌, ◌∷◌, ◌≡◌, ◌≤◌, ◌⊎◌,
}
use mathlib.Core.Path.{ap₂}

take-drop : (n : ℕ) (xs : List ℕ) → xs ≡ take n xs ++ drop n xs
take-drop zero xs = refl
take-drop (suc n) [] = refl
take-drop (suc n) (x ∷ xs) = ap (◌∷◌ x) (take-drop n xs)

length-take : (n : ℕ) (xs : List ℕ) → n ≤ length xs → length (take n xs) ≡ n
length-take zero xs h = refl
length-take (suc n) [] h = absurd (omega arith)
length-take (suc n) (x ∷ xs) h = ap suc (length-take n xs (omega arith))

-- A read takes the bytes in front, or fails.
take_exact-cases :
    (n : ℕ) (s : Stream)
    → (take_exact n s ≡ (err s.ending, record s { bytes = [] }))
      ⊎ ((xs : List ℕ) × (t : Stream) × (take_exact n s ≡ (ok xs, t))
          × (length xs ≡ n)
          × (s.bytes ≡ xs ++ t.bytes))
unfolding take_exact
take_exact-cases n s = elim (Bool-cases (ltb (length s.bytes) n)) [
  | inl short ↦ inl (rw short refl)
  | inr long ↦ inr (
    take n s.bytes,
    record s { bytes = drop n s.bytes },
    rw long refl,
    length-take n s.bytes (ltb_false→le (length s.bytes) n long),
    take-drop n s.bytes,
  )
]

module _ (f : NativeFrame) (t : Stream) where
  payload_inv :
      (header : List ℕ) (m : NativeMessageType) (s : Stream)
      → read_payload header m s ≡ (ok (some f), t)
      → (length f.payload ≤ max_payload_len) × (s.bytes ≡ f.payload ++ t.bytes)
  unfolding read_payload
  payload_inv header m s h =
      let len = from_be_bytes (slice 8 12 header) in
      elim (Bool-cases (ltb max_payload_len len)) [
        | inl large ↦ cc (ap (λ r. r.0) (rw large at h))
        | inr small ↦ elim (take_exact-cases len s) [
          | inl failed ↦ cc (ap (λ r. r.0) (rw (small, failed) at h))
          | inr (xs, rest, taken, long, whole) ↦
              let e = rw (small, taken) at h in
              let same : f.payload ≡ xs = cc (ap (λ r. r.0) e) in
              let left : rest ≡ t = ap (λ r. r.1) e in
              (
                omega (arith, ltb_false→le max_payload_len len small, ap length same),
                whole ∙ ap₂ (◌++◌) (sym same) (ap (λ u. u.bytes) left),
              )
        ]
      ]

  typed_inv :
      (header : List ℕ) (s : Stream) (o : Result IoError NativeMessageType)
      → and_then (o, s) (read_payload header) ≡ (ok (some f), t)
      → (length f.payload ≤ max_payload_len) × (s.bytes ≡ f.payload ++ t.bytes)
  typed_inv header s (ok m) h = payload_inv header m s h
  typed_inv header s (err e) h = cc (ap (λ r. r.0) h)

  body_inv :
      (header : List ℕ) (s : Stream)
      → read_body header s ≡ (ok (some f), t)
      → (length f.payload ≤ max_payload_len) × (s.bytes ≡ f.payload ++ t.bytes)
  unfolding read_body
  body_inv header s h = elim (Bool-cases (bytes_eq (slice 0 4 header) magic)) [
    | inr strange ↦ cc (ap (λ r. r.0) (rw strange at h))
    | inl marked ↦ elim (Bool-cases (byte_at 4 header == version)) [
      | inr newer ↦ cc (ap (λ r. r.0) (rw (marked, newer) at h))
      | inl current ↦ typed_inv header s (from_u8 (byte_at 5 header)) (rw (marked, current) at h)
    ]
  ]

  ended_inv :
      {A : Type 0} (e : IoError) (s : Stream) → after_header (err e, s) ≡ (ok (some f), t) → A
  unfolding after_header
  ended_inv unexpected_eof s h = cc (ap (λ r. r.0) h)
  ended_inv invalid_data s h = cc (ap (λ r. r.0) h)
  ended_inv other s h = cc (ap (λ r. r.0) h)

-- A frame that is read has a payload of at most 16 MiB, and it took from the stream a header of 20
-- bytes and its payload, and no more.
pub read_frame_takes :
    (s t : Stream) (f : NativeFrame)
    → read_frame s ≡ (ok (some f), t)
    → (length f.payload ≤ max_payload_len)
      × ((header : List ℕ) × (length header ≡ header_len)
          × (s.bytes ≡ header ++ (f.payload ++ t.bytes)))
unfolding read_frame after_header
read_frame_takes s t f h = elim (take_exact-cases header_len s) [
  | inl failed ↦ ended_inv f t s.ending (record s { bytes = [] }) (sym (ap after_header failed) ∙ h)
  | inr (header, rest, taken, long, whole) ↦
      let (small, payload) = body_inv f t header rest (sym (ap after_header taken) ∙ h) in
      (small, (header, long, whole ∙ ap (λ xs. header ++ xs) payload))
]
