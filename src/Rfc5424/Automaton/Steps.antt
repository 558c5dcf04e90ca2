-- ===== src/Rfc5424/Automaton/Steps.antt =====
-- What a part of the automaton of rfc5424/machine.go does: it reads on, or ends the run.
use go_syslog.Base.{ℕ, suc, [], ◌∷◌, Bytes, Bool, if◌then◌else◌}
use go_syslog.Common.Utf8.{within}
use go_syslog.Rfc5424.Builder.Store.{Elements}
use go_syslog.Rfc5424.Message.{Draft}

-- The errors of the parser; `bad_timestamp` is one of time.Parse.
pub data ErrorKind : Type 0 where
  err_prival err_pri err_version err_timestamp bad_timestamp err_hostname err_appname err_proc_id
        err_msg_id err_structured_data err_sd_id err_sd_id_duplicated err_sd_param err_msg
        err_msg_not_compliant err_escape err_parse :
      ErrorKind

-- Where a run is: the position, the bytes from there on, and what was read.
pub record Cursor (Time : Type 0) : Type 0 where
  pub at : ℕ
  pub rest : Bytes
  pub output : Draft Time Elements

-- What a part of the automaton comes to: it goes on, notes an error at a position, or accepts the
-- end of the input, or panics.
pub data Step (Time : Type 0) : Type 0 where
  go : Cursor Time → Step Time
  stop : ErrorKind → ℕ → Draft Time Elements → Step Time
  accept : Draft Time Elements → Step Time
  panic : Step Time

infixl 5 ◌>>=◌
abbrev pub ◌>>=◌ : {Time : Type 0} → Step Time → (Cursor Time → Step Time) → Step Time
go c >>= f = f c
stop k p out >>= f = stop k p out
accept out >>= f = accept out
panic >>= f = panic

abbrev pub is_digit : ℕ → Bool
is_digit c = within 48 57 c

module _ {Time : Type 0} where
  abbrev pub cursor : ℕ → Bytes → Draft Time Elements → Cursor Time
  cursor p rest out = record { at = p; rest = rest; output = out }

  -- One byte that is fixed; the error is the same for another byte and for the end.
  abbrev pub byte_at : (ℕ → Bool) → ErrorKind → ℕ → Bytes → Draft Time Elements → Step Time
  byte_at ok k p [] out = stop k p out
  byte_at ok k p (c ∷ cs) out = if ok c then go (cursor (suc p) cs out) else stop k p out

  unfoldable pub byte : (ℕ → Bool) → ErrorKind → Cursor Time → Step Time
  byte ok k c = byte_at ok k c.at c.rest c.output
