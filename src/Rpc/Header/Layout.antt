-- ===== src/Rpc/Header/Layout.antt =====
-- The header's bytes: their number, and that reading them gives the header back.
use smurf.Prelude.{
  ℕ, zero, suc, ◌/◌, ◌^◌, ◌<◌, ◌≡◌, refl, ap, ◌++◌, Bytes, drop, length, drop_append_length, arith,
}
use smurf.Rpc.Header.{Header, InRange, write_le, read_le, encode_header, decode_header, header_size}
use native.Mathlib.Nat.{pow-suc}

pub length-write_le : (w n : ℕ) → length (write_le w n) ≡ w
unfolding write_le
length-write_le zero n = refl
length-write_le (suc w) n = ap suc (length-write_le w (n / 256))

pub read_le-write_le : (w n : ℕ) (rest : Bytes) → n < 256 ^ w → read_le w (write_le w n ++ rest) ≡ n
unfolding write_le read_le
read_le-write_le zero n rest h = omega arith
read_le-write_le (suc w) n rest h =
    omega (arith, read_le-write_le w (n / 256) rest (omega (arith, pow-suc 256 w)))

pub drop-write_le : (w n : ℕ) (rest : Bytes) → drop w (write_le w n ++ rest) ≡ rest
drop-write_le w n rest = drop_append_length w (write_le w n) rest (length-write_le w n)

pub length-encode_header : (h : Header) → length (encode_header h) ≡ header_size
unfolding encode_header write_le
length-encode_header h = refl

-- Decoding the bytes of a header whose fields fit their types gives the header, whatever follows.
pub decode-encode :
    (h : Header) (rest : Bytes) → InRange h → decode_header (encode_header h ++ rest) ≡ h
unfolding decode_header encode_header write_le read_le
decode-encode h rest r = ground arith

-- So also where nothing follows.
pub decode-encode_whole : (h : Header) → InRange h → decode_header (encode_header h) ≡ h
unfolding decode_header encode_header write_le read_le
decode-encode_whole h r = ground arith
