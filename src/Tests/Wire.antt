-- ===== src/Tests/Wire.antt =====
-- Instances of the theorems on headers, letters and their reception.
use smurf.Prelude.{◌≡◌, ◌⊎◌, refl, true, false, none, some, [], ◌∷◌, ◌++◌, Bytes, arith}
use smurf.Future.{ready}
use smurf.Rpc.Header.{Header, InRange, encode_header, decode_header}
use smurf.Rpc.Letter.{Letter, send, rpc_checksum_payload}
use smurf.Rpc.Connection.{Connection}
use smurf.Rpc.Recv.{parse_header, parse_payload, enable_compression}
use smurf.Rpc.Recv.Accepts.{IsAcceptable, IsPayloadOf, parse_header_exactly, parse_payload_exactly}
use smurf.Rpc.Recv.RoundTrip.{IsSendable, send_content, receive}
use smurf.Tests.Instances.{bytes_in, bytes_out, bytes_in-ReadsFrom, bytes_out-WritesTo, toy_hash}

abbrev header : Header
header = record {
  compression = 1;
  bitflags = 0;
  session = 513;
  size = 3;
  checksum = 10;
  meta = 70000;
}

header-InRange : InRange header
header-InRange = record {
  compression = omega arith;
  bitflags = omega arith;
  session = omega arith;
  size = omega arith;
  checksum = omega arith;
  meta = omega arith;
}

abbrev letter : Letter
letter = record { header = header; dynamic_headers = []; body = 1 ∷ 2 ∷ 3 ∷ [] }

letter-IsSendable : IsSendable toy_hash letter
unfolding rpc_checksum_payload
letter-IsSendable = record {
  fits = header-InRange;
  known = omega arith;
  plain = refl;
  labelled = omega arith;
  filled = omega arith;
  bounded = omega arith;
  sized = refl;
  summed = refl;
  checksum = omega arith;
}

send_content_example :
    ((send bytes_out true letter (5 ∷ [])).0 ≡ ready tt)
    × ((send bytes_out true letter (5 ∷ [])).1
        ≡ (5 ∷ []) ++ (encode_header header ++ (1 ∷ 2 ∷ 3 ∷ [])))
send_content_example =
    send_content bytes_out (λ s. s) bytes_out-WritesTo toy_hash true letter (5 ∷ [])
      letter-IsSendable

abbrev incoming : Connection Bytes Bytes
incoming = record {
  istream = encode_header header ++ ((1 ∷ 2 ∷ 3 ∷ []) ++ (8 ∷ 9 ∷ []));
  ostream = [];
  istream_active_parser = 0;
  error = none;
  enabled = true;
}

receive_example :
    ((parse_header bytes_in true incoming).0 ≡ ready (some (enable_compression header)))
    × ((parse_payload bytes_in toy_hash
          (enable_compression header)
          (parse_header bytes_in true incoming).1).0
        ≡ ready (some (record { header = enable_compression header; payload = 1 ∷ 2 ∷ 3 ∷ [] })))
    × ((parse_payload bytes_in toy_hash
          (enable_compression header)
          (parse_header bytes_in true incoming).1).1.istream
        ≡ 8 ∷ 9 ∷ [])
receive_example =
    receive bytes_in (λ s. s) toy_hash true letter (8 ∷ 9 ∷ []) incoming bytes_in-ReadsFrom
      letter-IsSendable refl refl

-- A header of too few bytes
abbrev short : Connection Bytes Bytes
short = record incoming { istream = 0 ∷ 0 ∷ 1 ∷ [] }

parse_header_exactly_example :
    ((IsAcceptable (0 ∷ 0 ∷ 1 ∷ [])
        × ((parse_header bytes_in false short).0
            ≡ ready (some (enable_compression (decode_header (0 ∷ 0 ∷ 1 ∷ []))))))
      ⊎ ((¬ IsAcceptable (0 ∷ 0 ∷ 1 ∷ [])) × ((parse_header bytes_in false short).0 ≡ ready none)))
    × ((parse_header bytes_in false short).1 ≡ record short { istream = [] })
parse_header_exactly_example = parse_header_exactly bytes_in false short (0 ∷ 0 ∷ 1 ∷ []) refl refl

abbrev body_next : Connection Bytes Bytes
body_next = record incoming { istream = 1 ∷ 2 ∷ 3 ∷ 4 ∷ [] }

parse_payload_exactly_example :
    ((IsPayloadOf toy_hash header (1 ∷ 2 ∷ 3 ∷ [])
        × ((parse_payload bytes_in toy_hash header body_next).0
            ≡ ready (some (record { header = header; payload = 1 ∷ 2 ∷ 3 ∷ [] }))))
      ⊎ ((¬ IsPayloadOf toy_hash header (1 ∷ 2 ∷ 3 ∷ []))
          × ((parse_payload bytes_in toy_hash header body_next).0 ≡ ready none)))
    × ((parse_payload bytes_in toy_hash header body_next).1 ≡ record body_next { istream = 4 ∷ [] })
parse_payload_exactly_example =
    parse_payload_exactly bytes_in toy_hash header body_next (1 ∷ 2 ∷ 3 ∷ []) refl
