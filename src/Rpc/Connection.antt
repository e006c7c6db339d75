-- ===== src/Rpc/Connection.antt =====
-- src/include/smf/rpc_connection.h
use smurf.Prelude.{ℕ, Bool, true, false, not, ◌&&◌, Option, none, some, [], ◌++◌, Bytes, codes}
use smurf.Rpc.Io.{InputStream}

pub record Connection (I O : Type 0) : Type 0 where
  pub istream : I
  pub ostream : O
  pub istream_active_parser : ℕ
  pub error : Option Bytes
  pub enabled : Bool

-- keep history of errors
add_error : Option Bytes → Bytes → Option Bytes
add_error none e = some e
add_error (some old) e = some ((old ++ codes " :: ") ++ e)

module _ {I O : Type 0} where
  -- rpc_connection(fd, address, limits)
  unfoldable pub open_connection : I → O → Connection I O
  open_connection i o = record {
    istream = i;
    ostream = o;
    istream_active_parser = 0;
    error = none;
    enabled = true;
  }

  unfoldable pub disable : Connection I O → Connection I O
  disable c = record c { enabled = false }

  unfoldable pub has_error : Connection I O → Bool
  has_error c = elim c.error [ none ↦ false | some e ↦ true ]

  unfoldable pub set_error : Bytes → Connection I O → Connection I O
  unfolding add_error
  set_error e c = record c { error = add_error c.error e }

  unfoldable pub get_error : Connection I O → Bytes
  get_error c = elim c.error [ none ↦ [] | some e ↦ e ]

  unfoldable pub is_valid : InputStream I → Connection I O → Bool
  unfolding has_error
  is_valid io c = c.enabled && (not (has_error c) && not (io.eof c.istream))
