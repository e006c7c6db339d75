-- ===== src/Rpc/Header.antt =====
-- The rpc header of src/core/rpc.fbs, a struct of 16 bytes, and its copy to and from memory:
-- the memcpy of src/core/rpc_envelope.cc and of src/core/rpc_recv_context.cc.
pub mod Layout
use smurf.Prelude.{ℕ, zero, suc, ◌+◌, ◌*◌, ◌/◌, ◌%◌, ◌^◌, ◌<◌, List, [], ◌∷◌, ◌++◌, Bytes, drop}

-- `compression` is the byte as it is stored; the enum has the underlying type int8_t.
pub record Header : Type 0 where
  pub compression : ℕ
  pub bitflags : ℕ
  pub session : ℕ
  pub size : ℕ
  pub checksum : ℕ
  pub meta : ℕ

-- enum compression_flags : byte
abbrev pub compression_flags_none : ℕ
compression_flags_none = 0

abbrev pub compression_flags_disabled : ℕ
compression_flags_disabled = 1

abbrev pub compression_flags_zstd : ℕ
compression_flags_zstd = 2

abbrev pub compression_flags_lz4 : ℕ
compression_flags_lz4 = 3

-- The largest enumerator, which the generated header calls `compression_flags_MAX`.
abbrev pub compression_flags_max : ℕ
compression_flags_max = 3

-- enum header_bit_flags : ubyte (bit_flags); the first flag is bit 0.
abbrev pub header_bit_flags_has_payload_headers : ℕ
header_bit_flags_has_payload_headers = 1

-- sizeof(rpc::header)
abbrev pub header_size : ℕ
header_size = 16

abbrev pub empty_header : Header
empty_header = record {
  compression = 0;
  bitflags = 0;
  session = 0;
  size = 0;
  checksum = 0;
  meta = 0;
}

-- The fields fit their types.
pub record InRange (h : Header) : Type 0 where
  pub compression : h.compression < 2 ^ 8
  pub bitflags : h.bitflags < 2 ^ 8
  pub session : h.session < 2 ^ 16
  pub size : h.size < 2 ^ 32
  pub checksum : h.checksum < 2 ^ 32
  pub meta : h.meta < 2 ^ 32

-- A little-endian number of so many bytes.
unfoldable pub write_le : ℕ → ℕ → Bytes
write_le zero n = []
write_le (suc w) n = (n % 256) ∷ write_le w (n / 256)

unfoldable pub read_le : ℕ → Bytes → ℕ
read_le zero bs = 0
read_le (suc w) [] = 0
read_le (suc w) (b ∷ bs) = b + 256 * read_le w bs

-- The bytes of the struct: 8 bits of compression, 8 of flags, 16 of session, then size, checksum
-- and meta of 32 bits each.
unfoldable pub encode_header : Header → Bytes
encode_header h =
    write_le 1 h.compression
    ++ (write_le 1 h.bitflags
        ++ (write_le 2 h.session
            ++ (write_le 4 h.size ++ (write_le 4 h.checksum ++ write_le 4 h.meta))))

unfoldable pub decode_header : Bytes → Header
decode_header bs = record {
  compression = read_le 1 bs;
  bitflags = read_le 1 (drop 1 bs);
  session = read_le 2 (drop 2 bs);
  size = read_le 4 (drop 4 bs);
  checksum = read_le 4 (drop 8 bs);
  meta = read_le 4 (drop 12 bs);
}
