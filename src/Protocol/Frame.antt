-- ===== src/Protocol/Frame.antt =====
-- crates/neo4r-protocol/src/lib.rs: frames on a stream of bytes.
pub mod Trips
pub mod Bounds
pub mod Tests
use neo4r.Prelude.Split.{bytes_eq}
use neo4r.Prelude.BigEndian.{to_be_bytes, from_be_bytes}
use neo4r.Prelude.{
  List, Method, Option, Result, [], and_then, drop, err, fail, if◌then◌else◌, length, ltb, none,
  not, ok, pure, some, take, ℕ, ◌++◌, ◌+◌, ◌-◌, ◌==◌, ◌>>=◌, ◌∷◌,
}

pub data IoError : Type 0 where
  invalid_data : IoError
  unexpected_eof : IoError
  other : IoError

-- What the other side sends, and the error of a read past it: `unexpected_eof` where the stream ends.
pub record Stream : Type 0 where
  pub bytes : List ℕ
  pub ending : IoError

-- What was written so far. Each fault is for one call that writes: none where the call does its work, or
-- the number of bytes that it writes and the error that it fails with.
pub record Sink : Type 0 where
  pub written : List ℕ
  pub faults : List (Option (ℕ × IoError))

abbrev pub Reading : Type 0 → Type 0
Reading A = Method IoError Stream A

-- A read that fails may have taken any part of the bytes; here it takes them all.
unfoldable pub take_exact : ℕ → Reading (List ℕ)
take_exact n s =
    if ltb (length s.bytes) n
    then (err s.ending, record s { bytes = [] })
    else (ok (take n s.bytes), record s { bytes = drop n s.bytes })

next_fault : List (Option (ℕ × IoError)) → Option (ℕ × IoError)
next_fault [] = none
next_fault (f ∷ fs) = f

later_faults : List (Option (ℕ × IoError)) → List (Option (ℕ × IoError))
later_faults [] = []
later_faults (f ∷ fs) = fs

unfoldable pub write_all : List ℕ → Method IoError Sink (Unit {0})
unfolding next_fault later_faults
write_all bytes w = elim (next_fault w.faults) [
  | none ↦ (ok tt, record w { written = w.written ++ bytes; faults = later_faults w.faults })
  | some (n, e) ↦
      (err e, record w { written = w.written ++ take n bytes; faults = later_faults w.faults })
]

unfoldable pub flush : Method IoError Sink (Unit {0})
unfolding write_all
flush = write_all []

abbrev pub magic : List ℕ
magic = 78 ∷ 52 ∷ 82 ∷ 49 ∷ []

abbrev pub version : ℕ
version = 1

abbrev pub header_len : ℕ
header_len = 20

abbrev pub max_payload_len : ℕ
max_payload_len = 16_777_216

pub data NativeMessageType : Type 0 where
  ping : NativeMessageType
  quit : NativeMessageType
  query : NativeMessageType
  command : NativeMessageType
  fetch : NativeMessageType
  close_cursor : NativeMessageType
  cancel : NativeMessageType
  response : NativeMessageType
  error : NativeMessageType

unfoldable pub as_u8 : NativeMessageType → ℕ
as_u8 ping = 1
as_u8 quit = 2
as_u8 query = 3
as_u8 command = 4
as_u8 fetch = 5
as_u8 close_cursor = 6
as_u8 cancel = 7
as_u8 response = 128
as_u8 error = 129

unfoldable pub from_u8 : ℕ → Result IoError NativeMessageType
from_u8 value =
    if value == 1
    then ok ping
    else if value == 2
    then ok quit
    else if value == 3
    then ok query
    else if value == 4
    then ok command
    else if value == 5
    then ok fetch
    else if value == 6
    then ok close_cursor
    else if value == 7
    then ok cancel
    else if value == 128
    then ok response
    else if value == 129
    then ok error
    else err invalid_data

pub record NativeFrame : Type 0 where
  pub message_type : NativeMessageType
  pub flags : ℕ
  pub request_id : ℕ
  pub payload : List ℕ

-- `&bytes[from..to]`
abbrev pub slice : ℕ → ℕ → List ℕ → List ℕ
slice from to bytes = take (to - from) (drop from bytes)

-- `bytes[i]`
abbrev pub byte_at : ℕ → List ℕ → ℕ
byte_at i bytes = from_be_bytes (slice i (i + 1) bytes)

-- the rest of `read_frame`, behind the type of the message
unfoldable pub read_payload : List ℕ → NativeMessageType → Reading (Option NativeFrame)
unfolding take_exact
read_payload header message_type =
    let payload_len = from_be_bytes (slice 8 12 header) in
    if ltb max_payload_len payload_len
    then fail invalid_data
    else take_exact payload_len >>= λ payload. pure (
        some (record {
          message_type = message_type;
          flags = from_be_bytes (slice 6 8 header);
          request_id = from_be_bytes (slice 12 20 header);
          payload = payload;
        }))

unfoldable pub read_body : List ℕ → Reading (Option NativeFrame)
unfolding from_u8 read_payload
read_body header s =
    if not (bytes_eq (slice 0 4 header) magic)
    then (err invalid_data, s)
    else if not (byte_at 4 header == version)
    then (err invalid_data, s)
    else and_then (from_u8 (byte_at 5 header), s) (read_payload header)

unfoldable pub after_header :
    Result IoError (List ℕ) × Stream → Result IoError (Option NativeFrame) × Stream
unfolding read_body
after_header (ok header, s) = read_body header s
after_header (err unexpected_eof, s) = (ok none, s)
after_header (err invalid_data, s) = (err invalid_data, s)
after_header (err other, s) = (err other, s)

unfoldable pub read_frame : Reading (Option NativeFrame)
unfolding after_header take_exact
read_frame s = after_header (take_exact header_len s)

-- The length of the payload fits the 32 bits, as it is at most `max_payload_len`.
unfoldable pub header_of : NativeFrame → List ℕ
unfolding as_u8
header_of frame =
    magic
    ++ version ∷ as_u8 frame.message_type ∷ to_be_bytes 2 frame.flags
    ++ to_be_bytes 4 (length frame.payload)
    ++ to_be_bytes 8 frame.request_id

unfoldable pub write_frame : NativeFrame → Method IoError Sink (Unit {0})
unfolding header_of write_all flush
write_frame frame =
    if ltb max_payload_len (length frame.payload)
    then fail invalid_data
    else write_all (header_of frame) >>= λ _. write_all frame.payload >>= λ _. flush
