-- ===== src/Rpc/Recv.antt =====
-- src/core/rpc_recv_context.cc: reading a header, and then its payload, from a connection.
pub mod Accepts
pub mod RoundTrip
pub mod Stream
use smurf.Prelude.{
  ℕ, ◌+◌, ◌-◌, ◌%◌, ◌^◌, ◌≡◌, Bool, true, false, not, ◌&&◌, ◌||◌, Option, none, some, Bytes, ltb,
  length, ◌==◌, if◌then◌else◌,
}
use smurf.Future.{Error, Future, ready, failed, runtime_error}
use smurf.Rpc.Header.{
  Header, header_size, decode_header, compression_flags_max, compression_flags_disabled,
  compression_flags_none, header_bit_flags_has_payload_headers,
}
use smurf.Rpc.Io.{InputStream, Io, ◌>>=◌, pure, throw}
use smurf.Rpc.Letter.{rpc_checksum_payload}
use smurf.Rpc.Connection.{Connection}

-- rpc_recv_context; the limits and the address come from the connection.
pub record RecvContext : Type 0 where
  pub header : Header
  pub payload : Bytes

-- request_id() and status()
abbrev pub request_id : RecvContext → ℕ
request_id ctx = ctx.header.meta

abbrev pub status : RecvContext → ℕ
status ctx = ctx.header.meta

abbrev pub session : RecvContext → ℕ
session ctx = ctx.header.session

-- max_flatbuffers_size: FLATBUFFERS_MAX_BUFFER_SIZE, "2GB - 1" by the comment there
abbrev pub max_flatbuffers_size : ℕ
max_flatbuffers_size = 2 ^ 31 - 1

-- hdr.compression() > compression_flags_MAX, a comparison of values of int8_t: the bytes from 128
-- on are negative.
compression_out_of_range : ℕ → Bool
compression_out_of_range c = ltb compression_flags_max c && ltb c 128

-- mutate_compression(none) where compression is disabled
unfoldable pub enable_compression : Header → Header
enable_compression hdr =
    if hdr.compression == compression_flags_disabled
    then record hdr { compression = compression_flags_none }
    else hdr

-- What the continuation of `parse_header` makes of the bytes that were read.
unfoldable pub check_header : Bytes → Option Header
unfolding compression_out_of_range enable_compression
check_header bytes =
    let hdr = decode_header bytes in
    if not (length bytes == header_size)
    then none
    else if hdr.size == 0
    then none
    else if compression_out_of_range hdr.compression
    then none
    else if hdr.checksum == 0
    then none
    else if hdr.meta == 0
    then none
    else some (enable_compression hdr)

-- What the continuation of `parse_payload` makes of the bytes that were read; the size that it
-- passes to the checksum is a uint32_t.
unfoldable pub check_payload : (Bytes → ℕ) → Header → Bytes → Option RecvContext
check_payload xxh64 hdr body =
    if not (hdr.size == length body)
    then none
    else if ltb max_flatbuffers_size hdr.size
    then none
    else if hdr.bitflags % 2 == header_bit_flags_has_payload_headers
    then none
    else if not (rpc_checksum_payload xxh64 body (length body % 2 ^ 32) == hdr.checksum)
    then none
    else some (record { header = hdr; payload = body })

module _ {I O : Type 0} (io : InputStream I) where
  -- istream.read_exactly on a connection
  abbrev pub read_exactly : ℕ → Io (Connection I O) Bytes
  read_exactly n c = let (r, i) = io.read_exactly n c.istream in (r, record c { istream = i })

  start_parser : Connection I O → Connection I O
  start_parser c = record c { istream_active_parser = c.istream_active_parser + 1 }

  stop_parser : Connection I O → Connection I O
  stop_parser c = record c { istream_active_parser = c.istream_active_parser - 1 }

  -- .then(… check …).finally([conn] { conn->istream_active_parser--; })
  header_read : Future Bytes → Connection I O → Future (Option Header) × Connection I O
  unfolding stop_parser
  header_read (ready bytes) c = (ready (check_header bytes), stop_parser c)
  header_read (failed e) c = (failed e, stop_parser c)

  unfoldable pub parse_header : Bool → Io (Connection I O) (Option Header)
  unfolding start_parser header_read
  parse_header debug c =
      let (r, c') = read_exactly header_size (start_parser c) in
      if debug && not (c.istream_active_parser == 0)
      then (failed runtime_error, c)
      else header_read r c'

  unfoldable pub parse_payload : (Bytes → ℕ) → Header → Io (Connection I O) (Option RecvContext)
  unfolding check_payload
  parse_payload xxh64 hdr = do body ← read_exactly hdr.size; pure (check_payload xxh64 hdr body)
