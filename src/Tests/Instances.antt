-- ===== src/Tests/Instances.antt =====
-- Streams, a hash and compression libraries that keep the laws that the model asks of them.
use smurf.Prelude.{ℕ, ◌+◌, refl, Bool, true, false, [], ◌∷◌, ◌++◌, Bytes, take, drop, length}
use smurf.Future.{ready}
use smurf.Rpc.Io.{InputStream, OutputStream, ReadsFrom, WritesTo}
use smurf.Rpc.Recv.Stream.{StaysOpen}
use smurf.Rpc.Header.{write_le, read_le}
use smurf.Rpc.Header.Layout.{read_le-write_le, length-write_le}
use smurf.Codec.{Lz4, Zstd, wrote, content_size}
use smurf.Codec.Inverse.{Lz4Laws, ZstdLaws}

abbrev is_empty : Bytes → Bool
is_empty [] = true
is_empty (b ∷ bs) = false

abbrev pub bytes_in : InputStream Bytes
bytes_in = record { read_exactly = λ n s. (ready (take n s), drop n s); eof = is_empty }

abbrev pub bytes_out : OutputStream Bytes
bytes_out = record { write = λ bs s. (ready tt, s ++ bs); flush = λ s. (ready tt, s) }

pub bytes_in-ReadsFrom : ReadsFrom bytes_in (λ s. s)
bytes_in-ReadsFrom = record { bytes = λ n s. refl; rest = λ n s. refl }

pub bytes_out-WritesTo : WritesTo bytes_out (λ s. s)
bytes_out-WritesTo = record {
  wrote = λ bs s. refl;
  write_ready = λ bs s. refl;
  flushed = λ s. refl;
  flush_ready = λ s. refl;
}

-- A hash: the number of bytes and 7
abbrev pub toy_hash : Bytes → ℕ
toy_hash bs = length bs + 7

-- A library that stores the input behind one byte.
abbrev tail : Bytes → Bytes
tail [] = []
tail (b ∷ bs) = bs

abbrev pub toy_lz4 : Lz4
toy_lz4 = record {
  compress_bound = λ n. n + 1;
  compress_default = λ bs bound. wrote (1 ∷ bs);
  decompress_safe = λ z n. wrote (tail z);
  write_le = write_le 4;
  read_le = read_le 4;
}

pub toy_lz4-laws : Lz4Laws toy_lz4
toy_lz4-laws = record {
  compresses = λ bs h. (1, bs, refl, refl);
  width = λ n. length-write_le 4 n;
  reads = λ n rest h. read_le-write_le 4 n rest h;
}

abbrev pub toy_zstd : Zstd
toy_zstd = record {
  compress_bound = λ n. n + 1;
  compress = λ bs bound level. wrote (1 ∷ bs);
  find_decompressed_size = λ z. content_size (length (tail z));
  decompress = λ z n. wrote (tail z);
}

pub toy_zstd-laws : ZstdLaws toy_zstd
toy_zstd-laws = record { compresses = λ bs level. (1 ∷ bs, refl, refl, refl) }

-- The same bytes, on a socket that stays open
abbrev pub open_in : InputStream Bytes
open_in = record { read_exactly = λ n s. (ready (take n s), drop n s); eof = λ s. false }

pub open_in-ReadsFrom : ReadsFrom open_in (λ s. s)
open_in-ReadsFrom = record { bytes = λ n s. refl; rest = λ n s. refl }

pub open_in-StaysOpen : StaysOpen open_in (λ s. s)
open_in-StaysOpen = record { stays = λ n s h e. refl }
