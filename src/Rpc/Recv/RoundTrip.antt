-- ===== src/Rpc/Recv/RoundTrip.antt =====
-- What rpc_envelope::send writes, parse_header and parse_payload read back.
use smurf.Prelude.{
  ℕ, ◌%◌, ◌^◌, ◌≡◌, ◌≢◌, ◌≤◌, ◌<◌, inl, sym, ap, Bool, some, ◌++◌, Bytes, length, arith,
  take_append_length, drop_append_length,
}
use mathlib.Core.List.{append_assoc}
use smurf.Future.{ready}
use smurf.Rpc.Header.{InRange, header_size, encode_header}
use smurf.Rpc.Header.Layout.{decode-encode_whole, length-encode_header}
use smurf.Rpc.Io.{InputStream, OutputStream, ReadsFrom, WritesTo}
use smurf.Rpc.Letter.{Letter, send, rpc_checksum_payload}
use smurf.Rpc.Connection.{Connection}
use smurf.Rpc.Recv.{max_flatbuffers_size, parse_header, parse_payload, enable_compression}
use smurf.Rpc.Recv.Accepts.{IsAcceptable, IsPayloadOf, parse_header_cases, parse_payload_cases}

-- A letter that a peer will take: its header went through checksum_rpc, has a known compression, no
-- payload headers, a request id or status, and its body is not empty and not too long.
pub record IsSendable (xxh64 : Bytes → ℕ) (l : Letter) : Type 0 where
  pub fits : InRange l.header
  pub known : l.header.compression ≤ 3
  pub plain : l.header.bitflags % 2 ≡ 0
  pub labelled : l.header.meta ≢ 0
  pub filled : 0 < length l.body
  pub bounded : length l.body ≤ max_flatbuffers_size
  pub sized : l.header.size ≡ length l.body
  pub summed : l.header.checksum ≡ rpc_checksum_payload xxh64 l.body (length l.body)
  pub checksum : l.header.checksum ≢ 0

module _ {O : Type 0} (out : OutputStream O) (content : O → Bytes) where
  -- A sendable letter is written in any build, its header's bytes first and then its body.
  pub send_content :
      WritesTo out content
      → (xxh64 : Bytes → ℕ) (debug : Bool) (l : Letter) (s : O) → IsSendable xxh64 l
      → ((send out debug l s).0 ≡ ready tt)
        × (content (send out debug l s).1 ≡ content s ++ (encode_header l.header ++ l.body))
  unfolding send
  send_content laws xxh64 debug l s ok =
      let s1 = (out.write (encode_header l.header) s).1 in
      let s2 = (out.write l.body s1).1 in
      ground (
        arith,
        laws.write_ready (encode_header l.header) s,
        laws.write_ready l.body s1,
        laws.flush_ready s2,
        laws.wrote (encode_header l.header) s,
        laws.wrote l.body s1,
        laws.flushed s2,
        append_assoc (content s) (encode_header l.header) l.body,
      )

module _ {I O : Type 0} (io : InputStream I) (content : I → Bytes) where
  module _ (xxh64 : Bytes → ℕ) (debug : Bool) (l : Letter) (rest : Bytes) (c : Connection I O) where
    pub first_read :
        ReadsFrom io content
        → content c.istream ≡ encode_header l.header ++ (l.body ++ rest)
        → (io.read_exactly header_size c.istream).0 ≡ ready (encode_header l.header)
    first_read laws e =
        rw (laws.bytes header_size c.istream, e)
          (ap ready (
            take_append_length header_size (encode_header l.header) (l.body ++ rest)
              (length-encode_header l.header)))

    pub after_first :
        ReadsFrom io content
        → content c.istream ≡ encode_header l.header ++ (l.body ++ rest)
        → content (io.read_exactly header_size c.istream).1 ≡ l.body ++ rest
    after_first laws e =
        rw (laws.rest header_size c.istream, e)
          (drop_append_length header_size (encode_header l.header) (l.body ++ rest)
            (length-encode_header l.header))

    pub encode-IsAcceptable : IsSendable xxh64 l → IsAcceptable (encode_header l.header)
    encode-IsAcceptable ok =
        let d = decode-encode_whole l.header ok.fits in
        record {
          whole = length-encode_header l.header;
          sized = rw d (omega arith);
          known = rw d (inl ok.known);
          summed = rw d ok.checksum;
          labelled = rw d ok.labelled;
        }

    pub body-IsPayloadOf :
        IsSendable xxh64 l → IsPayloadOf xxh64 (enable_compression l.header) l.body
    unfolding enable_compression
    body-IsPayloadOf ok =
        let small : length l.body % 2 ^ 32 ≡ length l.body = omega arith in
        record {
          sized = ground arith;
          bounded = ground arith;
          plain = ground arith;
          summed = rw small (ground arith);
        }

    pub size-enable_compression :
        IsSendable xxh64 l → (enable_compression l.header).size ≡ length l.body
    unfolding enable_compression
    size-enable_compression ok = ground arith

    pub second_read :
        ReadsFrom io content
        → (n : ℕ) → n ≡ length l.body
        → content c.istream ≡ l.body ++ rest
        → ((io.read_exactly n c.istream).0 ≡ ready l.body)
          × (content (io.read_exactly n c.istream).1 ≡ rest)
    second_read laws n size e = (
      rw (laws.bytes n c.istream, e) (ap ready (take_append_length n l.body rest (sym size))),
      rw (laws.rest n c.istream, e) (drop_append_length n l.body rest (sym size)),
    )

    receive_payload :
        ReadsFrom io content
        → IsSendable xxh64 l
        → content c.istream ≡ l.body ++ rest
        → ((parse_payload io xxh64 (enable_compression l.header) c).0
            ≡ ready (some (record { header = enable_compression l.header; payload = l.body })))
          × (content (parse_payload io xxh64 (enable_compression l.header) c).1.istream ≡ rest)
    receive_payload laws ok e =
        let h = enable_compression l.header in
        let (bytes, left) = second_read laws h.size (size-enable_compression ok) e in
        let (payload, _, conn) = parse_payload_cases io xxh64 h c l.body bytes in
        (payload (body-IsPayloadOf ok), rw conn left)

module _ {I O : Type 0} (io : InputStream I) (content : I → Bytes) where
  module _ (xxh64 : Bytes → ℕ) (debug : Bool) (l : Letter) (rest : Bytes) (c : Connection I O) where
    -- A sendable letter that stands next in the stream of an idle connection is received as it was
    -- sent, the compression `disabled` turned into `none`, and what follows it is left in the stream.
    pub receive :
        ReadsFrom io content
        → IsSendable xxh64 l
        → c.istream_active_parser ≡ 0
        → content c.istream ≡ encode_header l.header ++ (l.body ++ rest)
        → ((parse_header io debug c).0 ≡ ready (some (enable_compression l.header)))
          × ((parse_payload io xxh64 (enable_compression l.header) (parse_header io debug c).1).0
              ≡ ready (some (record { header = enable_compression l.header; payload = l.body })))
          × (content
                (parse_payload io xxh64
                  (enable_compression l.header)
                  (parse_header io debug c).1).1.istream
              ≡ rest)
    receive laws ok idle e =
        let (header, _, conn) =
          parse_header_cases io debug c (encode_header l.header) idle
            (first_read io content xxh64 debug l rest c laws e) in
        let next = record c { istream = (io.read_exactly header_size c.istream).1 } in
        let (payload, left) =
          receive_payload io content xxh64 debug l rest next laws ok
            (after_first io content xxh64 debug l rest c laws e) in
        let read : (parse_header io debug c).0 ≡ ready (some (enable_compression l.header)) = rw (
          header (encode-IsAcceptable io content xxh64 debug l rest c ok),
          decode-encode_whole l.header ok.fits,
        ) in
        (read, rw conn payload, rw conn left)
