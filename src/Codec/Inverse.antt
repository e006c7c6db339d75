-- ===== src/Codec/Inverse.antt =====
-- Both codecs of src/core/compression.cc give back what they compressed.
use smurf.Prelude.{
  ℕ, ◌%◌, ◌^◌, ◌≤◌, ◌<◌, ◌≡◌, ◌∷◌, ◌++◌, Bytes, length, length-append, drop_append_length, arith,
}
use smurf.Future.{ready}
use smurf.Codec.{
  Lz4, Zstd, Codec, CodecType, lz4, zstd, wrote, content_size, lz4_fast_codec, zstd_codec,
  make_unique, lz4_fast_compress, zstd_compress,
}

-- LZ4_MAX_INPUT_SIZE
abbrev pub lz4_max_input_size : ℕ
lz4_max_input_size = 0x7e00_0000

-- What lz4.h and byteorder.hh promise: a buffer of LZ4_compressBound bytes is enough for an input
-- of at most LZ4_MAX_INPUT_SIZE bytes, the output is not empty, and decompression into a buffer of
-- the original size gives the input; a number written in 4 bytes is read back.
pub record Lz4Laws (lib : Lz4) : Type 0 where
  pub compresses :
      (bs : Bytes)
      → length bs ≤ lz4_max_input_size
      → (b : ℕ) × (z : Bytes) × (lib.compress_default bs (lib.compress_bound (length bs))
          ≡ wrote (b ∷ z))
        × (lib.decompress_safe (b ∷ z) (length bs) ≡ wrote bs)
  pub width : (n : ℕ) → length (lib.write_le n) ≡ 4
  pub reads : (n : ℕ) (rest : Bytes) → n < 2 ^ 32 → lib.read_le (lib.write_le n ++ rest) ≡ n

-- What zstd.h promises: a buffer of ZSTD_compressBound bytes is enough, the frame records the size
-- of its content, and decompression gives the input.
pub record ZstdLaws (lib : Zstd) : Type 0 where
  pub compresses :
      (bs : Bytes) (level : ℕ)
      → (z : Bytes) × (lib.compress bs (lib.compress_bound (length bs)) level ≡ wrote z)
        × (lib.find_decompressed_size z ≡ content_size (length bs))
        × (lib.decompress z (length bs) ≡ wrote bs)

-- What the filters need of a codec.
pub record Inverts (codec : Codec) : Type 0 where
  pub inverse :
      (bs : Bytes)
      → 0 < length bs
      → length bs ≤ lz4_max_input_size
      → (z : Bytes) × (codec.compress bs ≡ ready z) × (codec.uncompress z ≡ ready bs)

lz4-Inverts : (lib : Lz4) → Lz4Laws lib → Inverts (lz4_fast_codec lib)
unfolding lz4_fast_codec
lz4-Inverts lib laws = record {
  inverse = λ bs some_bytes bounded.
      let (b, z, packed, unpacked) = laws.compresses bs bounded in
      let prefix = lib.write_le (length bs % 2 ^ 32) in
      (
        prefix ++ (b ∷ z),
        rw (packed, lz4_fast_compress),
        ground (
          arith,
          laws.reads (length bs % 2 ^ 32) (b ∷ z),
          laws.width (length bs % 2 ^ 32),
          drop_append_length 4 prefix (b ∷ z) (laws.width (length bs % 2 ^ 32)),
          length-append prefix (b ∷ z),
        ),
      );
}

zstd-Inverts : (lib : Zstd) → ZstdLaws lib → Inverts (zstd_codec lib)
unfolding zstd_codec
zstd-Inverts lib laws = record {
  inverse = λ bs some_bytes bounded.
      let (z, packed, sized, unpacked) = laws.compresses bs 3 in
      (z, rw (packed, zstd_compress), ground arith);
}

pub make_unique-Inverts :
    (lz4_lib : Lz4) (zstd_lib : Zstd)
    → Lz4Laws lz4_lib
    → ZstdLaws zstd_lib
    → (t : CodecType) → Inverts (make_unique lz4_lib zstd_lib t)
unfolding make_unique
make_unique-Inverts lz4_lib zstd_lib l z lz4 = lz4-Inverts lz4_lib l
make_unique-Inverts lz4_lib zstd_lib l z zstd = zstd-Inverts zstd_lib z

-- Whatever the type, the codec that `make_unique` makes compresses every input from 1 byte up to
-- LZ4_MAX_INPUT_SIZE bytes without an exception, and restores it, if the libraries keep their laws.
pub make_unique_inverse :
    (lz4_lib : Lz4) (zstd_lib : Zstd)
    → Lz4Laws lz4_lib
    → ZstdLaws zstd_lib
    → (t : CodecType) (bs : Bytes) → 0 < length bs
    → length bs ≤ lz4_max_input_size
    → (z : Bytes) × ((make_unique lz4_lib zstd_lib t).compress bs ≡ ready z)
      × ((make_unique lz4_lib zstd_lib t).uncompress z ≡ ready bs)
make_unique_inverse lz4_lib zstd_lib l z t = (make_unique-Inverts lz4_lib zstd_lib l z t).inverse
