-- ===== src/Tests/Codecs.antt =====
-- Instances of the theorems on codecs and filters.
use smurf.Prelude.{◌≡◌, refl, [], ◌∷◌, Bytes, arith}
use smurf.Future.{ready}
use smurf.Codec.{Codec, zstd, lz4, make_unique}
use smurf.Codec.Inverse.{make_unique-Inverts, make_unique_inverse}
use smurf.Rpc.Letter.{Letter, empty_letter}
use smurf.Rpc.Recv.{RecvContext}
use smurf.Filter.{rpc_filter_apply, lz4_compression_filter, zstd_compression_filter}
use smurf.Filter.Compression.{
  Carries, received, decompressors, lz4_filters_inverse, zstd_filters_inverse,
}
use smurf.Tests.Instances.{toy_hash, toy_lz4, toy_zstd, toy_lz4-laws, toy_zstd-laws}

abbrev text : Bytes
text = 3 ∷ 1 ∷ 2 ∷ []

abbrev lz4_one : Codec
lz4_one = make_unique toy_lz4 toy_zstd lz4

abbrev zstd_one : Codec
zstd_one = make_unique toy_lz4 toy_zstd zstd

make_unique_inverse_example :
    (z : Bytes) × (lz4_one.compress text ≡ ready z) × (lz4_one.uncompress z ≡ ready text)
make_unique_inverse_example =
    make_unique_inverse toy_lz4 toy_zstd toy_lz4-laws toy_zstd-laws lz4 text (omega arith)
      (omega arith)

abbrev letter : Letter
letter = record empty_letter { body = text }

lz4_filters_inverse_example :
    (sent : Letter) × (ctx : RecvContext) × (lz4_compression_filter toy_hash lz4_one 2 letter
      ≡ ready sent)
    × (rpc_filter_apply (decompressors toy_hash lz4_one zstd_one) (received sent) ≡ ready ctx)
    × Carries letter ctx
lz4_filters_inverse_example =
    lz4_filters_inverse toy_hash lz4_one zstd_one letter 2
      (make_unique-Inverts toy_lz4 toy_zstd toy_lz4-laws toy_zstd-laws lz4) refl (omega arith)

zstd_filters_inverse_example :
    (sent : Letter) × (ctx : RecvContext) × (zstd_compression_filter toy_hash zstd_one 2 letter
      ≡ ready sent)
    × (rpc_filter_apply (decompressors toy_hash lz4_one zstd_one) (received sent) ≡ ready ctx)
    × Carries letter ctx
zstd_filters_inverse_example =
    zstd_filters_inverse toy_hash lz4_one zstd_one letter 2
      (make_unique-Inverts toy_lz4 toy_zstd toy_lz4-laws toy_zstd-laws zstd) refl (omega arith)
