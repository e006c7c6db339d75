-- ===== src/Rpc/Io.antt =====
-- What the code uses of seastar's streams: parameters of the model, with their documented
-- behaviour as laws over the bytes that a stream holds. A call is asynchronous in the source; here
-- it is the state after it is resolved beside its result.
use smurf.Prelude.{ℕ, ◌≡◌, Bool, ◌++◌, Bytes, take, drop}
use smurf.Future.{Error, Future, ready, failed}

-- seastar::input_stream<char>
pub record InputStream (I : Type 0) : Type 0 where
  pub read_exactly : ℕ → I → Future Bytes × I
  pub eof : I → Bool

-- seastar::output_stream<char>
pub record OutputStream (O : Type 0) : Type 0 where
  pub write : Bytes → O → Future (Unit {0}) × O
  pub flush : O → Future (Unit {0}) × O

-- `content` is what is still to be read: `read_exactly` gives so many bytes of it, or all there are.
pub record ReadsFrom {I : Type 0} (io : InputStream I) (content : I → Bytes) : Type 0 where
  pub bytes : (n : ℕ) (s : I) → (io.read_exactly n s).0 ≡ ready (take n (content s))
  pub rest : (n : ℕ) (s : I) → content (io.read_exactly n s).1 ≡ drop n (content s)

-- `content` is what has been written: a write puts its bytes at the end, and a flush changes none.
pub record WritesTo {O : Type 0} (io : OutputStream O) (content : O → Bytes) : Type 0 where
  pub wrote : (bs : Bytes) (s : O) → content (io.write bs s).1 ≡ content s ++ bs
  pub write_ready : (bs : Bytes) (s : O) → (io.write bs s).0 ≡ ready tt
  pub flushed : (s : O) → content (io.flush s).1 ≡ content s
  pub flush_ready : (s : O) → (io.flush s).0 ≡ ready tt

-- A computation over a stream or a connection that may fail part way.
abbrev pub Io : Type 0 → Type 0 → Type 0
Io S A = S → Future A × S

abbrev continue : {S A B : Type 0} → Future A → (A → Io S B) → Io S B
continue (ready a) f s = f a s
continue (failed e) f s = (failed e, s)

infixl 5 ◌>>=◌ ◌>>◌
abbrev pub ◌>>=◌ : {S A B : Type 0} → Io S A → (A → Io S B) → Io S B
◌>>=◌ m f s = let (r, s') = m s in continue r f s'

abbrev pub ◌>>◌ : {S B : Type 0} → Io S (Unit {0}) → Io S B → Io S B
m >> k = m >>= λ _. k

abbrev pub pure : {S A : Type 0} → A → Io S A
pure a s = (ready a, s)

abbrev pub throw : {S A : Type 0} → Error → Io S A
throw e s = (failed e, s)
