-- ===== src/Protocol/Frame/Trips.antt =====
-- crates/neo4r-protocol/src/lib.rs: frames come back as they were written, whole or not at all.
use neo4r.Protocol.Frame.{
  IoError, unexpected_eof, Stream, take_exact, write_all, flush, header_len, max_payload_len,
  NativeMessageType, ping, quit, query, command, fetch, close_cursor, cancel, response, error,
  as_u8, from_u8, NativeFrame, slice, byte_at, read_payload, read_body, after_header, read_frame,
  header_of, write_frame,
}
use neo4r.Prelude.BigEndian.{to_be_bytes, from_be_bytes, from-to_be_bytes}
use mathlib.Core.List.{append_assoc, append-nil}
use neo4r.Prelude.{
  Bool-cases, List, [], and_then, ap, arith, drop-length-append, err, false, inl, inr, length,
  length-append, ltb, ltb→lt, lt→ltb, none, ok, refl, some, suc, sym, take, take-length-append,
  zero, ℕ, ◌++◌, ◌+◌, ◌<◌, ◌^◌, ◌∙◌, ◌∷◌, ◌≡◌, ◌≤◌,
}

abbrev pub stream : List ℕ → IoError → Stream
stream bytes ending = record { bytes = bytes; ending = ending }

from_u8-as_u8 : (t : NativeMessageType) → from_u8 (as_u8 t) ≡ ok t
unfolding from_u8 as_u8
from_u8-as_u8 ping = refl
from_u8-as_u8 quit = refl
from_u8-as_u8 query = refl
from_u8-as_u8 command = refl
from_u8-as_u8 fetch = refl
from_u8-as_u8 close_cursor = refl
from_u8-as_u8 cancel = refl
from_u8-as_u8 response = refl
from_u8-as_u8 error = refl

as_u8-lt : (t : NativeMessageType) → as_u8 t < 256
unfolding as_u8
as_u8-lt ping = omega arith
as_u8-lt quit = omega arith
as_u8-lt query = omega arith
as_u8-lt command = omega arith
as_u8-lt fetch = omega arith
as_u8-lt close_cursor = omega arith
as_u8-lt cancel = omega arith
as_u8-lt response = omega arith
as_u8-lt error = omega arith

take_exact-append :
    (xs rest : List ℕ) (e : IoError)
    → take_exact (length xs) (stream (xs ++ rest) e) ≡ (ok xs, stream rest e)
unfolding take_exact
take_exact-append xs rest e = elim (Bool-cases (ltb (length (xs ++ rest)) (length xs))) [
  | inl short ↦ absurd (omega (arith, ltb→lt _ _ short, length-append xs rest))
  | inr long ↦ rw (long, take-length-append xs rest, drop-length-append xs rest) refl
]

take_exact-short :
    (n : ℕ) (xs : List ℕ) (e : IoError)
    → length xs < n
    → take_exact n (stream xs e) ≡ (err e, stream [] e)
unfolding take_exact
take_exact-short n xs e h = rw (lt→ltb _ _ h) refl

abbrev pub bytes_of : NativeFrame → List ℕ
bytes_of f = header_of f ++ f.payload

-- The parts of a frame have the sizes of their Rust types, and its payload is one that is sent.
pub record IsFrame (f : NativeFrame) : Type 0 where
  pub flags : f.flags < 2 ^ 16
  pub request_id : f.request_id < 2 ^ 64
  pub payload : length f.payload ≤ max_payload_len

length-header_of : (f : NativeFrame) → length (header_of f) ≡ header_len
unfolding header_of to_be_bytes
length-header_of f = refl

module _ (f : NativeFrame) (h : IsFrame f) where
  payload_len : from_be_bytes (slice 8 12 (header_of f)) ≡ length f.payload
  unfolding header_of to_be_bytes
  payload_len = from-to_be_bytes 4 (length f.payload) (omega (arith, h.payload))

  flags_back : from_be_bytes (slice 6 8 (header_of f)) ≡ f.flags
  unfolding header_of to_be_bytes
  flags_back = from-to_be_bytes 2 f.flags h.flags

  request_id_back : from_be_bytes (slice 12 20 (header_of f)) ≡ f.request_id
  unfolding header_of to_be_bytes
  request_id_back = from-to_be_bytes 8 f.request_id h.request_id

  type_back : byte_at 5 (header_of f) ≡ as_u8 f.message_type
  unfolding header_of to_be_bytes from_be_bytes
  type_back = omega arith

  fits : ltb max_payload_len (length f.payload) ≡ false
  fits = elim (Bool-cases (ltb max_payload_len (length f.payload))) [
    | inl large ↦ absurd (omega (arith, ltb→lt _ _ large, h.payload))
    | inr small ↦ small
  ]

  payload_read :
      (rest : List ℕ) (e : IoError)
      → read_payload (header_of f) f.message_type (stream (f.payload ++ rest) e)
        ≡ (ok (some f), stream rest e)
  unfolding read_payload
  payload_read rest e =
      rw (payload_len, flags_back, request_id_back, fits, take_exact-append f.payload rest e) refl

  checked :
      (s : Stream)
      → read_body (header_of f) s
        ≡ and_then (from_u8 (byte_at 5 (header_of f)), s) (read_payload (header_of f))
  unfolding read_body header_of to_be_bytes from_be_bytes
  checked s = refl

  -- Behind a header, the payload is read.
  framed :
      (xs : List ℕ) (e : IoError)
      → read_frame (stream (header_of f ++ xs) e)
        ≡ read_payload (header_of f) f.message_type (stream xs e)
  unfolding read_frame after_header
  framed xs e =
      ap (λ n. after_header (take_exact n (stream (header_of f ++ xs) e)))
        (sym (length-header_of f))
      ∙ ap after_header (take_exact-append (header_of f) xs e)
      ∙ checked (stream xs e)
      ∙ rw (type_back, from_u8-as_u8 f.message_type) refl

  pub whole_read :
      (rest : List ℕ) (e : IoError)
      → read_frame (stream (bytes_of f ++ rest) e) ≡ (ok (some f), stream rest e)
  whole_read rest e =
      ap (λ xs. read_frame (stream xs e)) (append_assoc (header_of f) f.payload rest)
      ∙ framed (f.payload ++ rest) e
      ∙ payload_read rest e

  payload_cut :
      (xs : List ℕ) (e : IoError)
      → length xs < length f.payload
      → read_payload (header_of f) f.message_type (stream xs e) ≡ (err e, stream [] e)
  unfolding read_payload
  payload_cut xs e short =
      rw (payload_len, fits, take_exact-short (length f.payload) xs e short) refl

  pub frame_written :
      (out : List ℕ)
      → write_frame f (record { written = out; faults = [] })
        ≡ (ok tt, record { written = out ++ bytes_of f; faults = [] })
  unfolding write_frame write_all flush
  frame_written out = rw fits (
      ap (λ w. (ok tt, record { written = w; faults = [] }))
        (append-nil ((out ++ header_of f) ++ f.payload) ∙ append_assoc out (header_of f) f.payload))

-- A frame of sizes that its Rust type holds, whose payload is at most 16 MiB, is written whole, and
-- is read back from in front of any bytes, which stay unread.
pub read-write_frame :
    (f : NativeFrame) (out rest : List ℕ) (e : IoError)
    → IsFrame f
    → (write_frame f (record { written = out; faults = [] })
        ≡ (ok tt, record { written = out ++ bytes_of f; faults = [] }))
      × (read_frame (stream (bytes_of f ++ rest) e) ≡ (ok (some f), stream rest e))
read-write_frame f out rest e h = (frame_written f h out, whole_read f h rest e)

take-append_short : (n : ℕ) (xs ys : List ℕ) → n ≤ length xs → take n (xs ++ ys) ≡ take n xs
take-append_short zero xs ys h = refl
take-append_short (suc n) [] ys h = absurd (omega arith)
take-append_short (suc n) (x ∷ xs) ys h = ap (◌∷◌ x) (take-append_short n xs ys (omega arith))

take-append_long :
    (xs ys : List ℕ) (k n : ℕ) → k ≡ length xs + n → take k (xs ++ ys) ≡ xs ++ take n ys
take-append_long [] ys k n h = ap (λ m. take m ys) (h ∙ omega arith)
take-append_long (x ∷ xs) ys zero n h = absurd (omega arith)
take-append_long (x ∷ xs) ys (suc k) n h = ap (◌∷◌ x) (take-append_long xs ys k n (omega arith))

length-take : (n : ℕ) (xs : List ℕ) → n ≤ length xs → length (take n xs) ≡ n
length-take zero xs h = refl
length-take (suc n) [] h = absurd (omega arith)
length-take (suc n) (x ∷ xs) h = ap suc (length-take n xs (omega arith))

module _ (f : NativeFrame) (n : ℕ) where
  header_cut :
      n < header_len → (read_frame (stream (take n (bytes_of f)) unexpected_eof)).0 ≡ ok none
  unfolding read_frame after_header
  header_cut short =
      let long = length-append (header_of f) f.payload in
      let exact = length-take n (bytes_of f) (omega (arith, length-header_of f)) in
      rw (take_exact-short header_len (take n (bytes_of f)) unexpected_eof (omega arith)) refl

  body_cut :
      IsFrame f
      → n < length f.payload
      → (read_frame (stream (take (header_len + n) (bytes_of f)) unexpected_eof)).0
        ≡ err unexpected_eof
  body_cut h short =
      ap (λ xs. (read_frame (stream xs unexpected_eof)).0)
        (take-append_long (header_of f) f.payload (header_len + n) n
          (omega (arith, length-header_of f)))
      ∙ ap (λ r. r.0) (framed f h (take n f.payload) unexpected_eof)
      ∙ ap (λ r. r.0)
          (payload_cut f h (take n f.payload) unexpected_eof
            (omega (arith, length-take n f.payload (omega arith))))

-- A stream that ends within the header of a frame reads as one that is closed, and one that ends
-- within the payload gives the error of the end.
pub read_cut_frame :
    (f : NativeFrame) (n : ℕ)
    → IsFrame f
    → ((n < header_len) → (read_frame (stream (take n (bytes_of f)) unexpected_eof)).0 ≡ ok none)
      × ((n < length f.payload)
          → (read_frame (stream (take (header_len + n) (bytes_of f)) unexpected_eof)).0
            ≡ err unexpected_eof)
read_cut_frame f n h = (header_cut f n, body_cut f n h)
