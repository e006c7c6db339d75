-- ===== src/Codec.antt =====
-- src/core/compression.cc and src/include/smf/compression.h: the codecs over the lz4 and zstd
-- libraries, which are parameters with their documented behaviour as laws.
pub mod Inverse
use smurf.Prelude.{
  ℕ, ◌-◌, ◌%◌, ◌^◌, ◌≤◌, ◌<◌, ◌≡◌, ◌≢◌, Bool, Option, none, some, List, [], ◌∷◌, ◌++◌, Bytes, ltb,
  length, drop, ◌==◌, if◌then◌else◌,
}
use smurf.Future.{Error, Future, ready, failed, runtime_error, undefined}

pub data CodecType : Type 0 where
  lz4 zstd : CodecType

-- What a library call returns: an error code, or the bytes that it put into the output buffer.
pub data Outcome : Type 0 where
  negative : Outcome
  wrote : Bytes → Outcome

-- ZSTD_findDecompressedSize
pub data ContentSize : Type 0 where
  content_error content_unknown : ContentSize
  content_size : ℕ → ContentSize

-- The calls of lz4.h, and seastar's byte order functions at uint32_t.
pub record Lz4 : Type 0 where
  pub compress_bound : ℕ → ℕ
  pub compress_default : Bytes → ℕ → Outcome
  pub decompress_safe : Bytes → ℕ → Outcome
  pub write_le : ℕ → Bytes
  pub read_le : Bytes → ℕ

-- The calls of zstd.h.
pub record Zstd : Type 0 where
  pub compress_bound : ℕ → ℕ
  pub compress : Bytes → ℕ → ℕ → Outcome
  pub find_decompressed_size : Bytes → ContentSize
  pub decompress : Bytes → ℕ → Outcome

-- The abstract class `codec`.
pub record Codec : Type 0 where
  pub compress : Bytes → Future Bytes
  pub uncompress : Bytes → Future Bytes

module _ (lib : Lz4) where
  -- the two LOG_THROW_IF after LZ4_compress_default, and the result behind the original size
  lz4_packed : ℕ → Outcome → Future Bytes
  lz4_packed size negative = failed runtime_error
  lz4_packed size (wrote []) = failed runtime_error
  lz4_packed size (wrote (b ∷ bs)) = ready (lib.write_le (size % 2 ^ 32) ++ (b ∷ bs))

  lz4_fast_compress : Bytes → Future Bytes
  unfolding lz4_packed
  lz4_fast_compress bytes =
      lz4_packed (length bytes) (lib.compress_default bytes (lib.compress_bound (length bytes)))

  lz4_unpacked : Outcome → Future Bytes
  lz4_unpacked negative = failed runtime_error
  lz4_unpacked (wrote []) = failed runtime_error
  lz4_unpacked (wrote (b ∷ bs)) = ready (b ∷ bs)

  -- There is no test that the four bytes of the size are there.
  lz4_fast_uncompress : Bytes → Future Bytes
  unfolding lz4_unpacked
  lz4_fast_uncompress bytes =
      if ltb (length bytes) 4
      then failed undefined
      else lz4_unpacked (lib.decompress_safe (drop 4 bytes) (lib.read_le bytes))

  unfoldable pub lz4_fast_codec : Codec
  unfolding lz4_fast_compress lz4_fast_uncompress
  lz4_fast_codec = record { compress = lz4_fast_compress; uncompress = lz4_fast_uncompress }

module _ (lib : Zstd) where
  zstd_packed : Outcome → Future Bytes
  zstd_packed negative = failed runtime_error
  zstd_packed (wrote bs) = ready bs

  -- at the level 3, whatever level the codec was made for
  zstd_compress : Bytes → Future Bytes
  unfolding zstd_packed
  zstd_compress bytes = zstd_packed (lib.compress bytes (lib.compress_bound (length bytes)) 3)

  -- an error code of ZSTD_decompress is no size
  zstd_unpacked : ℕ → Outcome → Future Bytes
  zstd_unpacked size negative = failed runtime_error
  zstd_unpacked size (wrote bs) = if size == length bs then ready bs else failed runtime_error

  zstd_sized : Bytes → ContentSize → Future Bytes
  unfolding zstd_unpacked
  zstd_sized bytes content_error = failed runtime_error
  zstd_sized bytes content_unknown = failed runtime_error
  zstd_sized bytes (content_size n) = zstd_unpacked n (lib.decompress bytes n)

  zstd_uncompress : Bytes → Future Bytes
  unfolding zstd_sized
  zstd_uncompress bytes = zstd_sized bytes (lib.find_decompressed_size bytes)

  unfoldable pub zstd_codec : Codec
  unfolding zstd_compress zstd_uncompress
  zstd_codec = record { compress = zstd_compress; uncompress = zstd_uncompress }

-- codec::make_unique; the level is kept in the codec, and neither codec reads it.
unfoldable pub make_unique : Lz4 → Zstd → CodecType → Codec
unfolding lz4_fast_codec zstd_codec
make_unique lz4_lib zstd_lib lz4 = lz4_fast_codec lz4_lib
make_unique lz4_lib zstd_lib zstd = zstd_codec zstd_lib
