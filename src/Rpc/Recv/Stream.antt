-- ===== src/Rpc/Recv/Stream.antt =====
-- The connection on which parse_header and parse_payload have received a letter.
use smurf.Prelude.{ℕ, ◌≡◌, ◌≤◌, Bool, false, some, ◌++◌, Bytes, length, arith, length-append}
use smurf.Future.{ready}
use smurf.Rpc.Header.{header_size, encode_header}
use smurf.Rpc.Header.Layout.{decode-encode_whole, length-encode_header}
use smurf.Rpc.Io.{InputStream, ReadsFrom}
use smurf.Rpc.Letter.{Letter}
use smurf.Rpc.Connection.{Connection}
use smurf.Rpc.Recv.{RecvContext, parse_header, parse_payload, enable_compression}
use smurf.Rpc.Recv.Accepts.{parse_header_cases, parse_payload_cases}
use smurf.Rpc.Recv.RoundTrip.{
  IsSendable, first_read, after_first, second_read, encode-IsAcceptable, body-IsPayloadOf,
  size-enable_compression,
}

-- A stream that has so many bytes is not at its end once they are read.
pub record StaysOpen {I : Type 0} (io : InputStream I) (content : I → Bytes) : Type 0 where
  pub stays :
      (n : ℕ) (s : I)
      → n ≤ length (content s)
      → io.eof s ≡ false
      → io.eof (io.read_exactly n s).1 ≡ false

-- The context that a letter arrives as.
abbrev pub context_of : Letter → RecvContext
context_of l = record { header = enable_compression l.header; payload = l.body }

-- A letter was received on the connection, and `rest` is left in its stream.
pub record Received {I O : Type 0} (io : InputStream I) (content : I → Bytes) (xxh64 : Bytes → ℕ)
    (debug : Bool) (l : Letter) (rest : Bytes) (c : Connection I O) : Type 0 where
  pub first : I
  pub second : I
  pub header : (parse_header io debug c).0 ≡ ready (some (enable_compression l.header))
  pub after_header : (parse_header io debug c).1 ≡ record c { istream = first }
  pub payload :
      (parse_payload io xxh64 (enable_compression l.header) (record c { istream = first })).0
      ≡ ready (some (context_of l))
  pub after_payload :
      (parse_payload io xxh64 (enable_compression l.header) (record c { istream = first })).1
      ≡ record c { istream = second }
  pub left : content second ≡ rest
  pub stays : io.eof c.istream ≡ false → io.eof second ≡ false

module _ {I O : Type 0} (io : InputStream I) (content : I → Bytes) where
  module _ (xxh64 : Bytes → ℕ) (debug : Bool) (l : Letter) (rest : Bytes) (c : Connection I O) where
    pub received :
        ReadsFrom io content
        → StaysOpen io content
        → IsSendable xxh64 l
        → c.istream_active_parser ≡ 0
        → content c.istream ≡ encode_header l.header ++ (l.body ++ rest)
        → Received io content xxh64 debug l rest c
    received laws opens ok idle e =
        let h = enable_compression l.header in
        let first = (io.read_exactly header_size c.istream).1 in
        let next = record c { istream = first } in
        let (accepts, _, conn) =
          parse_header_cases io debug c (encode_header l.header) idle
            (first_read io content xxh64 debug l rest c laws e) in
        let after = after_first io content xxh64 debug l rest c laws e in
        let size = size-enable_compression io content xxh64 debug l rest c ok in
        let (bytes, left) = second_read io content xxh64 debug l rest next laws h.size size after in
        let (payload, _, conn') = parse_payload_cases io xxh64 h next l.body bytes in
        record {
          first = first;
          second = (io.read_exactly h.size first).1;
          header = rw (
            accepts (encode-IsAcceptable io content xxh64 debug l rest c ok),
            decode-encode_whole l.header ok.fits,
          );
          after_header = conn;
          payload = payload (body-IsPayloadOf io content xxh64 debug l rest c ok);
          after_payload = conn';
          left = left;
          stays = λ open_.
              opens.stays h.size first (rw (after, length-append l.body rest) (omega (arith, size)))
                (opens.stays header_size c.istream
                  (rw (e, length-append (encode_header l.header) (l.body ++ rest))
                    (omega (arith, length-encode_header l.header)))
                  open_);
        }
