-- ===== src/Filter/Compression.antt =====
-- A compression filter on one side and the decompression filters on the other.
use smurf.Prelude.{
  ℕ, ◌≡◌, ◌≢◌, ◌≤◌, ◌⊎◌, inl, inr, refl, true, false, List, [], ◌∷◌, Bytes, leb, length, arith,
  Bool-cases,
}
use smurf.Future.{Future, ready}
use smurf.Rpc.Letter.{Letter, checksum_rpc}
use smurf.Rpc.Recv.{RecvContext}
use smurf.Codec.{Codec}
use smurf.Codec.Inverse.{Inverts, lz4_max_input_size}
use smurf.Filter.{
  rpc_filter_apply, lz4_compression_filter, lz4_decompression_filter, zstd_compression_filter,
  zstd_decompression_filter, compression_filter, decompression_filter, compressed, restored,
}

-- The context that a peer makes of a letter.
abbrev pub received : Letter → RecvContext
received e = record { header = e.header; payload = e.body }

-- The context carries the body of the letter, uncompressed, and the letter's session, meta and flags.
pub record Carries (e : Letter) (ctx : RecvContext) : Type 0 where
  pub payload : ctx.payload ≡ e.body
  pub compression : ctx.header.compression ≡ 0
  pub session : ctx.header.session ≡ e.header.session
  pub meta : ctx.header.meta ≡ e.header.meta
  pub bitflags : ctx.header.bitflags ≡ e.header.bitflags

abbrev pub decompressors : (Bytes → ℕ) → Codec → Codec → List (RecvContext → Future RecvContext)
decompressors xxh64 lz4_codec zstd_codec =
    lz4_decompression_filter xxh64 lz4_codec ∷ (zstd_decompression_filter xxh64 zstd_codec ∷ [])

module _ (xxh64 : Bytes → ℕ) (codec : Codec) (flag : ℕ) where
  pass :
      (ctx : RecvContext)
      → ctx.header.compression ≢ flag
      → decompression_filter xxh64 codec flag ctx ≡ ready ctx
  unfolding decompression_filter
  pass ctx h = ground arith

  module _ (e : Letter) (min : ℕ) where
    -- A pair of filters for one flag, on both sides.
    abbrev Inverse : Type 0
    Inverse =
        (sent : Letter) × (ctx : RecvContext) × (compression_filter xxh64 codec flag min e
          ≡ ready sent)
        × (decompression_filter xxh64 codec flag (received sent) ≡ ready ctx)
        × Carries e ctx
        × ((sent.header.compression ≡ flag) ⊎ (sent.header.compression ≡ 0))

    inverse_short : flag ≢ 0 → e.header.compression ≡ 0 → leb (length e.body) min ≡ true → Inverse
    unfolding compression_filter
    inverse_short known plain short = (
      e,
      received e,
      ground arith,
      pass (received e) (λ h. known (ground arith)),
      record { payload = refl; compression = plain; session = refl; meta = refl; bitflags = refl },
      inr plain,
    )

    inverse_long :
        Inverts codec
        → e.header.compression ≡ 0
        → length e.body ≤ lz4_max_input_size
        → leb (length e.body) min ≡ false
        → Inverse
    unfolding compression_filter decompression_filter checksum_rpc
    inverse_long inv plain bounded long =
        let (z, packed, unpacked) = inv.inverse e.body (ground arith) bounded in
        let sent = compressed xxh64 codec flag e z in
        (
          sent,
          restored xxh64 codec (received sent) e.body,
          ground arith,
          ground arith,
          record {
            payload = refl;
            compression = refl;
            session = refl;
            meta = refl;
            bitflags = refl;
          },
          inl refl,
        )

    filters_inverse :
        flag ≢ 0
        → Inverts codec
        → e.header.compression ≡ 0
        → length e.body ≤ lz4_max_input_size
        → Inverse
    filters_inverse known inv plain bounded = elim (Bool-cases (leb (length e.body) min)) [
      | inl short ↦ inverse_short known plain short
      | inr long ↦ inverse_long inv plain bounded long
    ]

module _ (xxh64 : Bytes → ℕ) (lz4_codec zstd_codec : Codec) (e : Letter) (min : ℕ) where
  -- An uncompressed letter of at most LZ4_MAX_INPUT_SIZE bytes goes through the lz4 compression
  -- filter, and the chain of both decompression filters gives a context that carries it, if the lz4
  -- codec inverts what it compressed.
  pub lz4_filters_inverse :
      Inverts lz4_codec
      → e.header.compression ≡ 0
      → length e.body ≤ lz4_max_input_size
      → (sent : Letter) × (ctx : RecvContext) × (lz4_compression_filter xxh64 lz4_codec min e
          ≡ ready sent)
        × (rpc_filter_apply (decompressors xxh64 lz4_codec zstd_codec) (received sent) ≡ ready ctx)
        × Carries e ctx
  unfolding lz4_compression_filter lz4_decompression_filter zstd_decompression_filter
      rpc_filter_apply
  lz4_filters_inverse inv plain bounded =
      let (sent, ctx, packed, unpacked, carries, _) =
        filters_inverse xxh64 lz4_codec 3 e min (λ h. omega arith) inv plain bounded in
      (
        sent,
        ctx,
        packed,
        rw unpacked (rw (pass xxh64 zstd_codec 2 ctx (λ h. omega (arith, carries.compression)))),
        carries,
      )

  -- An uncompressed letter of at most LZ4_MAX_INPUT_SIZE bytes goes through the zstd compression
  -- filter, and the chain of both decompression filters gives a context that carries it, if the zstd
  -- codec inverts what it compressed.
  pub zstd_filters_inverse :
      Inverts zstd_codec
      → e.header.compression ≡ 0
      → length e.body ≤ lz4_max_input_size
      → (sent : Letter) × (ctx : RecvContext) × (zstd_compression_filter xxh64 zstd_codec min e
          ≡ ready sent)
        × (rpc_filter_apply (decompressors xxh64 lz4_codec zstd_codec) (received sent) ≡ ready ctx)
        × Carries e ctx
  unfolding zstd_compression_filter lz4_decompression_filter zstd_decompression_filter
      rpc_filter_apply
  zstd_filters_inverse inv plain bounded =
      let (sent, ctx, packed, unpacked, carries, flag) =
        filters_inverse xxh64 zstd_codec 2 e min (λ h. omega arith) inv plain bounded in
      (
        sent,
        ctx,
        packed,
        rw (pass xxh64 lz4_codec 3 (received sent) (λ h. grind (arith, flag))) (rw unpacked),
        carries,
      )
