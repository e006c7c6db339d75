-- ===== src/Rpc/Recv/Accepts.antt =====
-- Which bytes parse_header and parse_payload of src/core/rpc_recv_context.cc accept.
use smurf.Prelude.{
  ℕ, ◌%◌, ◌^◌, ◌≡◌, ◌≢◌, ◌≤◌, ◌⊎◌, inl, inr, Bool, none, some, Bytes, length, arith, Option-cases,
}
use smurf.Future.{ready}
use smurf.Rpc.Header.{Header, header_size, decode_header}
use smurf.Rpc.Io.{InputStream}
use smurf.Rpc.Letter.{rpc_checksum_payload}
use smurf.Rpc.Connection.{Connection}
use smurf.Rpc.Recv.{
  RecvContext, max_flatbuffers_size, check_header, check_payload, parse_header, parse_payload,
  enable_compression,
}

-- The headers that go on to the payload. The byte of the compression is one of an enumerator, or
-- one that is negative as an int8_t.
pub record IsAcceptable (bytes : Bytes) : Type 0 where
  pub whole : length bytes ≡ header_size
  pub sized : (decode_header bytes).size ≢ 0
  pub known : ((decode_header bytes).compression ≤ 3) ⊎ (128 ≤ (decode_header bytes).compression)
  pub summed : (decode_header bytes).checksum ≢ 0
  pub labelled : (decode_header bytes).meta ≢ 0

check_header-IsAcceptable :
    (bytes : Bytes)
    → IsAcceptable bytes
    → check_header bytes ≡ some (enable_compression (decode_header bytes))
unfolding check_header
check_header-IsAcceptable bytes a = ground arith

IsAcceptable-check_header :
    (bytes : Bytes) (h : Header) → check_header bytes ≡ some h → IsAcceptable bytes
unfolding check_header
IsAcceptable-check_header bytes h e = ground arith

pub check_header-not_acceptable : (bytes : Bytes) → ¬ IsAcceptable bytes → check_header bytes ≡ none
check_header-not_acceptable bytes a = elim (Option-cases (check_header bytes)) [
  | inl e ↦ e
  | inr (h, e) ↦ absurd (a (IsAcceptable-check_header bytes h e))
]

acceptable? : (bytes : Bytes) → IsAcceptable bytes ⊎ (¬ IsAcceptable bytes)
acceptable? bytes = elim (Option-cases (check_header bytes)) [
  | inl e ↦ inr (λ a. absurd (ground (arith, e, check_header-IsAcceptable bytes a)))
  | inr (h, e) ↦ inl (IsAcceptable-check_header bytes h e)
]

module _ {I O : Type 0} (io : InputStream I) where
  pub parse_header-eq :
      (debug : Bool) (c : Connection I O) (bytes : Bytes)
      → c.istream_active_parser ≡ 0
      → (io.read_exactly header_size c.istream).0 ≡ ready bytes
      → parse_header io debug c ≡ (
        ready (check_header bytes),
        record c { istream = (io.read_exactly header_size c.istream).1 },
      )
  unfolding parse_header
  parse_header-eq debug c bytes idle e = rw (e, idle) (ground arith)

  pub parse_header_cases :
      (debug : Bool) (c : Connection I O) (bytes : Bytes)
      → c.istream_active_parser ≡ 0
      → (io.read_exactly header_size c.istream).0 ≡ ready bytes
      → (IsAcceptable bytes
          → (parse_header io debug c).0 ≡ ready (some (enable_compression (decode_header bytes))))
        × (¬ IsAcceptable bytes → (parse_header io debug c).0 ≡ ready none)
        × ((parse_header io debug c).1
            ≡ record c { istream = (io.read_exactly header_size c.istream).1 })
  parse_header_cases debug c bytes idle e =
      let eq = parse_header-eq debug c bytes idle e in
      (
        λ a. rw eq (rw (check_header-IsAcceptable bytes a)),
        λ a. rw eq (rw (check_header-not_acceptable bytes a)),
        rw eq,
      )

  -- With no other parser active and so many bytes read, `parse_header` resolves to a header exactly
  -- if the bytes are acceptable, to that header with `disabled` turned into `none`, and otherwise
  -- to nothing; it changes the stream and nothing else of the connection.
  pub parse_header_exactly :
      (debug : Bool) (c : Connection I O) (bytes : Bytes)
      → c.istream_active_parser ≡ 0
      → (io.read_exactly header_size c.istream).0 ≡ ready bytes
      → ((IsAcceptable bytes
            × ((parse_header io debug c).0
                ≡ ready (some (enable_compression (decode_header bytes)))))
          ⊎ ((¬ IsAcceptable bytes) × ((parse_header io debug c).0 ≡ ready none)))
        × ((parse_header io debug c).1
            ≡ record c { istream = (io.read_exactly header_size c.istream).1 })
  parse_header_exactly debug c bytes idle e =
      let (accepts, refuses, conn) = parse_header_cases debug c bytes idle e in
      (elim (acceptable? bytes) [ inl a ↦ inl (a, accepts a) | inr a ↦ inr (a, refuses a) ], conn)

-- The payloads that are accepted for a header.
pub record IsPayloadOf (xxh64 : Bytes → ℕ) (hdr : Header) (body : Bytes) : Type 0 where
  pub sized : length body ≡ hdr.size
  pub bounded : hdr.size ≤ max_flatbuffers_size
  pub plain : hdr.bitflags % 2 ≡ 0
  pub summed : rpc_checksum_payload xxh64 body (length body % 2 ^ 32) ≡ hdr.checksum

module _ (xxh64 : Bytes → ℕ) (hdr : Header) (body : Bytes) where
  pub check_payload-IsPayloadOf :
      IsPayloadOf xxh64 hdr body
      → check_payload xxh64 hdr body ≡ some (record { header = hdr; payload = body })
  unfolding check_payload
  check_payload-IsPayloadOf a = ground arith

  IsPayloadOf-check_payload :
      (ctx : RecvContext) → check_payload xxh64 hdr body ≡ some ctx → IsPayloadOf xxh64 hdr body
  unfolding check_payload
  IsPayloadOf-check_payload ctx e = ground arith

  check_payload-not_payload : ¬ IsPayloadOf xxh64 hdr body → check_payload xxh64 hdr body ≡ none
  check_payload-not_payload a = elim (Option-cases (check_payload xxh64 hdr body)) [
    | inl e ↦ e
    | inr (ctx, e) ↦ absurd (a (IsPayloadOf-check_payload ctx e))
  ]

  payload? : IsPayloadOf xxh64 hdr body ⊎ (¬ IsPayloadOf xxh64 hdr body)
  payload? = elim (Option-cases (check_payload xxh64 hdr body)) [
    | inl e ↦ inr (λ a. absurd (ground (arith, e, check_payload-IsPayloadOf a)))
    | inr (ctx, e) ↦ inl (IsPayloadOf-check_payload ctx e)
  ]

module _ {I O : Type 0} (io : InputStream I) (xxh64 : Bytes → ℕ) where
  pub parse_payload_cases :
      (hdr : Header) (c : Connection I O) (body : Bytes)
      → (io.read_exactly hdr.size c.istream).0 ≡ ready body
      → (IsPayloadOf xxh64 hdr body
          → (parse_payload io xxh64 hdr c).0
            ≡ ready (some (record { header = hdr; payload = body })))
        × (¬ IsPayloadOf xxh64 hdr body → (parse_payload io xxh64 hdr c).0 ≡ ready none)
        × ((parse_payload io xxh64 hdr c).1
            ≡ record c { istream = (io.read_exactly hdr.size c.istream).1 })
  unfolding parse_payload
  parse_payload_cases hdr c body e = (
    λ a. rw (e, parse_payload) (rw (check_payload-IsPayloadOf xxh64 hdr body a)),
    λ a. rw (e, parse_payload) (rw (check_payload-not_payload xxh64 hdr body a)),
    rw (e, parse_payload),
  )

  -- When so many bytes are read, `parse_payload` resolves to the context of that header and those
  -- bytes exactly if they are as many as the header says and at most 2 GB - 1, the flag of payload
  -- headers is off and the checksum is that of the header; otherwise it resolves to nothing. It
  -- changes the stream and nothing else of the connection.
  pub parse_payload_exactly :
      (hdr : Header) (c : Connection I O) (body : Bytes)
      → (io.read_exactly hdr.size c.istream).0 ≡ ready body
      → ((IsPayloadOf xxh64 hdr body
            × ((parse_payload io xxh64 hdr c).0
                ≡ ready (some (record { header = hdr; payload = body }))))
          ⊎ ((¬ IsPayloadOf xxh64 hdr body) × ((parse_payload io xxh64 hdr c).0 ≡ ready none)))
        × ((parse_payload io xxh64 hdr c).1
            ≡ record c { istream = (io.read_exactly hdr.size c.istream).1 })
  parse_payload_exactly hdr c body e =
      let (accepts, refuses, conn) = parse_payload_cases hdr c body e in
      (
        elim (payload? xxh64 hdr body) [ inl a ↦ inl (a, accepts a) | inr a ↦ inr (a, refuses a) ],
        conn,
      )
