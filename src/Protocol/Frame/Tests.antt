-- ===== src/Protocol/Frame/Tests.antt =====
-- Runs of the frame codec, and its theorems at inputs that meet their hypotheses.
use neo4r.Protocol.Frame.{
  unexpected_eof, invalid_data, take_exact, write_all, flush, max_payload_len, header_len, command,
  as_u8, from_u8, NativeFrame, read_payload, read_body, after_header, read_frame, header_of,
  write_frame,
}
use neo4r.Protocol.Frame.Trips.{stream, bytes_of, IsFrame, read-write_frame, read_cut_frame}
use neo4r.Protocol.Frame.Bounds.{read_frame_takes}
use neo4r.Prelude.BigEndian.{to_be_bytes, from_be_bytes}
use neo4r.Prelude.{
  List, [], arith, drop, err, length, none, ok, refl, some, take, ℕ, ◌++◌, ◌+◌, ◌<◌, ◌∷◌, ◌≡◌, ◌≤◌,
}

-- A test that unfolds this unfolds the codec.
program : Unit {0}
unfolding take_exact write_all flush as_u8 from_u8 read_payload read_body after_header read_frame
    header_of write_frame to_be_bytes from_be_bytes
program = tt

abbrev golden : NativeFrame
golden = record {
  message_type = command;
  flags = 0x0102;
  request_id = 0x0102030405060708;
  payload = b'P' ∷ b'I' ∷ b'N' ∷ b'G' ∷ [];
}

abbrev golden_bytes : List ℕ
golden_bytes =
    b'N' ∷ b'4' ∷ b'R' ∷ b'1' ∷ 1 ∷ 4 ∷ 1 ∷ 2 ∷ 0 ∷ 0 ∷ 0 ∷ 4 ∷ 1 ∷ 2 ∷ 3 ∷ 4 ∷ 5 ∷ 6 ∷ 7 ∷ 8 ∷ b'P'
    ∷ b'I' ∷ b'N' ∷ b'G' ∷ []

golden_header : bytes_of golden ≡ golden_bytes
unfolding program
golden_header = refl

golden-IsFrame : IsFrame golden
golden-IsFrame = record { flags = omega arith; request_id = omega arith; payload = omega arith }

read-write_frame_example :
    (write_frame golden (record { written = []; faults = [] })
      ≡ (ok tt, record { written = [] ++ bytes_of golden; faults = [] }))
    × (read_frame (stream (bytes_of golden ++ (7 ∷ [])) unexpected_eof)
        ≡ (ok (some golden), stream (7 ∷ []) unexpected_eof))
read-write_frame_example = read-write_frame golden [] (7 ∷ []) unexpected_eof golden-IsFrame

read_cut_frame_example :
    ((3 < header_len) → (read_frame (stream (take 3 (bytes_of golden)) unexpected_eof)).0 ≡ ok none)
    × ((3 < length golden.payload)
        → (read_frame (stream (take (header_len + 3) (bytes_of golden)) unexpected_eof)).0
          ≡ err unexpected_eof)
read_cut_frame_example = read_cut_frame golden 3 golden-IsFrame

read_frame_takes_example :
    (length golden.payload ≤ max_payload_len)
    × ((header : List ℕ) × (length header ≡ header_len)
        × (golden_bytes ≡ header ++ (golden.payload ++ [])))
unfolding program
read_frame_takes_example =
    read_frame_takes (stream golden_bytes unexpected_eof) (stream [] unexpected_eof) golden refl

unknown_magic :
    (read_frame (stream (b'N' ∷ b'4' ∷ b'R' ∷ b'0' ∷ drop 4 golden_bytes) unexpected_eof)).0
    ≡ err invalid_data
unfolding program
unknown_magic = refl
