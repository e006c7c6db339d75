-- ===== src/Rpc/Letter.antt =====
-- src/core/rpc_letter.cc, src/core/rpc_envelope.cc, src/include/smf/rpc_envelope.h,
-- src/include/smf/rpc_header_utils.h and src/include/smf/rpc_typed_envelope.h.
-- `debug` says whether the DLOG_… macros of src/include/smf/log.h are compiled in.
use smurf.Prelude.{
  ℕ, ◌+◌, ◌%◌, ◌^◌, Bool, true, false, ◌&&◌, Option, none, some, List, [], ◌∷◌, Bytes, same, length,
  take, ◌==◌, if◌then◌else◌,
}
use smurf.Future.{Future, ready, failed, runtime_error, undefined}
use smurf.Rpc.Header.{Header, empty_header, header_size, encode_header}
use smurf.Rpc.Io.{OutputStream, Io, ◌>>◌, throw}

pub record Letter : Type 0 where
  pub header : Header
  pub dynamic_headers : List (Bytes × Bytes)
  pub body : Bytes

-- rpc_letter(), and so rpc_envelope()
abbrev pub empty_letter : Letter
empty_letter = record { header = empty_header; dynamic_headers = []; body = [] }

-- rpc_letter::size, which rpc_envelope::size forwards to
unfoldable pub size : Letter → ℕ
size l = header_size + length l.body

-- rpc_letter::empty
unfoldable pub empty : Letter → Bool
empty l = length l.body == 0

-- rpc_letter::share: the header and the map are copied, the body is shared.
unfoldable pub share : Letter → Letter
share l = record { header = l.header; dynamic_headers = l.dynamic_headers; body = l.body }

-- rpc_envelope::set_request_id and rpc_envelope::set_status
unfoldable pub set_request_id : ℕ → Letter → Letter
set_request_id id l = record l { header = record l.header { meta = id } }

unfoldable pub set_status : ℕ → Letter → Letter
set_status status l = record l { header = record l.header { meta = status } }

-- header.mutate_session
unfoldable pub mutate_session : ℕ → Letter → Letter
mutate_session id l = record l { header = record l.header { session = id } }

-- std::unordered_map::emplace keeps an entry that is there.
has_key : Bytes → List (Bytes × Bytes) → Bool
has_key k [] = false
has_key k ((j, v) ∷ m) = if same j k then true else has_key k m

emplace : Bytes → Bytes → List (Bytes × Bytes) → List (Bytes × Bytes)
unfolding has_key
emplace k v m = if has_key k m then m else (k, v) ∷ m

is_set : Option Bytes → Bool
is_set none = false
is_set (some b) = true

-- A string built from a null pointer is undefined behaviour.
emplace_header : Option Bytes → Option Bytes → Letter → Future Letter
unfolding emplace
emplace_header none value l = failed undefined
emplace_header (some k) none l = failed undefined
emplace_header (some k) (some v) l =
    ready (record l { dynamic_headers = emplace k v l.dynamic_headers })

-- rpc_envelope::add_dynamic_header. The arguments are pointers, `none` being null.
pub add_dynamic_header : Bool → Option Bytes → Option Bytes → Letter → Future Letter
unfolding is_set emplace_header
add_dynamic_header debug header value l =
    if debug && is_set header
    then failed runtime_error
    else if debug && is_set value
    then failed runtime_error
    else emplace_header header value l

-- The conditions of DLOG_THROW_IF in rpc_envelope::send.
unfoldable pub bad_letter : Letter → Bool
bad_letter l = if l.header.size == 0 then true else l.header.checksum == 0

-- rpc_envelope::send: the header's bytes, then the body, then a flush.
unfoldable pub send : {O : Type 0} → OutputStream O → Bool → Letter → Io O (Unit {0})
unfolding bad_letter
send out debug e =
    if debug && bad_letter e
    then throw runtime_error
    else do out.write (encode_header e.header); out.write e.body; out.flush

module _ (xxh64 : Bytes → ℕ) where
  -- rpc_checksum_payload: the low 32 bits of XXH64 with seed 0, over the first `size` bytes
  unfoldable pub rpc_checksum_payload : Bytes → ℕ → ℕ
  rpc_checksum_payload payload size = xxh64 (take size payload) % 2 ^ 32

  -- checksum_rpc; its parameter `size` is a uint32_t
  unfoldable pub checksum_rpc : Header → Bytes → ℕ → Header
  unfolding rpc_checksum_payload
  checksum_rpc hdr payload size =
      let size32 = size % 2 ^ 32 in
      record hdr { checksum = rpc_checksum_payload payload size32; size = size32 }

  -- rpc_typed_envelope::serialize_data, over the buffer that the flatbuffers builder makes of the
  -- native table.
  unfoldable pub serialize_data : {N : Type 0} → (N → Bytes) → N → Letter → Letter
  unfolding checksum_rpc
  serialize_data native_table_as_buffer t envelope =
      let buffer = native_table_as_buffer t in
      record envelope {
        body = buffer;
        header = checksum_rpc envelope.header buffer (length buffer);
      }
