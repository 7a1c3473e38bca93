-- ===== src/Rtsp/Interleaved/Tests.antt =====
-- The theorems on interleaved frames at packets for the channel of stream 1.
use gaminganywhere.Base.{◌≡◌, ◌++◌, refl, arith, List, [], ◌∷◌, some, true, false, length}
use gaminganywhere.Rtsp.Interleaved.{Bytes, rtsp_write_bindata, bindata_loop, write_packet}
use gaminganywhere.Rtsp.Interleaved.Frames.{
  encode, expected_blocks, rtsp_header, all_written, write-encode, write-locked,
}

abbrev packet : Bytes
packet = 4 ∷ []

abbrev packets : List Bytes
packets = (1 ∷ 2 ∷ 3 ∷ []) ∷ (4 ∷ []) ∷ []

-- The bytes on the wire of a packet of three bytes.
on_wire :
    rtsp_write_bindata 1 (0 ∷ 0 ∷ 0 ∷ 3 ∷ 7 ∷ 8 ∷ 9 ∷ []) (true ∷ true ∷ [])
    ≡ some (record {
      count = 7;
      blocks = (36 ∷ 2 ∷ 0 ∷ 3 ∷ []) ∷ (7 ∷ 8 ∷ 9 ∷ []) ∷ [];
      locked = false;
    })
unfolding rtsp_write_bindata bindata_loop write_packet
on_wire = refl

write-encode_example :
    rtsp_write_bindata 1 (encode packets) (all_written packets)
    ≡ some (record {
      count = length (encode packets);
      blocks = expected_blocks 1 packets;
      locked = false;
    })
write-encode_example = write-encode packets 1 (omega arith) (ground arith)

write-locked_example :
    (rtsp_write_bindata 1
        (encode (packets ++ (packet ∷ packets)))
        (all_written packets ++ (false ∷ []))
      ≡ some (record {
        count = length (encode packets);
        blocks = expected_blocks 1 packets;
        locked = false;
      }))
    × (rtsp_write_bindata 1
          (encode (packets ++ (packet ∷ packets)))
          (all_written packets ++ (true ∷ false ∷ []))
        ≡ some (record {
          count = length (encode packets);
          blocks = expected_blocks 1 packets ++ (rtsp_header 1 (length packet) ∷ []);
          locked = true;
        }))
write-locked_example =
    write-locked packets packet packets 1 [] (omega arith) (ground arith) (ground arith)
