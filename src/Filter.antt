-- ===== src/Filter.antt =====
-- src/include/smf/rpc_filter.h, src/core/lz4_filter.cc and src/core/zstd_filter.cc.
pub mod Chain
pub mod Compression
use smurf.Prelude.{ℕ, ◌≡◌, Bool, not, ◌||◌, List, [], ◌∷◌, Bytes, leb, length, ◌==◌, if◌then◌else◌}
use smurf.Future.{Future, ready, failed, ◌>>=◌}
use smurf.Rpc.Header.{Header, compression_flags_none, compression_flags_lz4, compression_flags_zstd}
use smurf.Rpc.Letter.{Letter, checksum_rpc}
use smurf.Rpc.Recv.{RecvContext}
use smurf.Codec.{Codec}

-- rpc_filter_apply: the filters in the order of the container, each on the result of the one before.
unfoldable pub rpc_filter_apply {ℓ} : {A : Type ℓ} → List (A → Future A) → A → Future A
rpc_filter_apply [] arg = ready arg
rpc_filter_apply (filter ∷ filters) arg = filter arg >>= λ a. rpc_filter_apply filters a

module _ (xxh64 : Bytes → ℕ) (compressor : Codec) where
  -- The letter with its compressed body; `flag` is the filter's compression.
  compressed : ℕ → Letter → Bytes → Letter
  compressed flag e buf = record e {
    body = buf;
    header = checksum_rpc xxh64 (record e.header { compression = flag }) buf (length buf);
  }

  compression_filter : ℕ → ℕ → Letter → Future Letter
  unfolding compressed
  compression_filter flag min_compression_size e =
      if not (e.header.compression == compression_flags_none)
      then ready e
      else if leb (length e.body) min_compression_size
      then ready e
      else (do buf ← compressor.compress e.body; ready (compressed flag e buf))

  restored : RecvContext → Bytes → RecvContext
  restored ctx buf = record {
    payload = buf;
    header =
        checksum_rpc xxh64 (record ctx.header { compression = compression_flags_none }) buf
          (length buf);
  }

  decompression_filter : ℕ → RecvContext → Future RecvContext
  unfolding restored
  decompression_filter flag ctx =
      if ctx.header.compression == flag
      then (do buf ← compressor.uncompress ctx.payload; ready (restored ctx buf))
      else ready ctx

  unfoldable pub lz4_compression_filter : ℕ → Letter → Future Letter
  unfolding compression_filter
  lz4_compression_filter min_compression_size =
      compression_filter compression_flags_lz4 min_compression_size

  unfoldable pub lz4_decompression_filter : RecvContext → Future RecvContext
  unfolding decompression_filter
  lz4_decompression_filter = decompression_filter compression_flags_lz4

  unfoldable pub zstd_compression_filter : ℕ → Letter → Future Letter
  unfolding compression_filter
  zstd_compression_filter min_compression_size =
      compression_filter compression_flags_zstd min_compression_size

  unfoldable pub zstd_decompression_filter : RecvContext → Future RecvContext
  unfolding decompression_filter
  zstd_decompression_filter = decompression_filter compression_flags_zstd
