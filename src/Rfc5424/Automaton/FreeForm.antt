-- ===== src/Rfc5424/Automaton/FreeForm.antt =====
-- The automaton of rfc5424/machine.go on the free-form message.
use go_syslog.Base.{
  ℕ, suc, ◌+◌, Option, none, some, [], ◌∷◌, ◌++◌, Bytes, Bool, true, false, ◌==◌, take, drop, ◌&&◌,
  if◌then◌else◌,
}
use go_syslog.Rfc5424.Automaton.Steps.{err_msg_not_compliant, Cursor, Step, stop, accept}
use go_syslog.Rfc5424.Builder.Store.{Elements}
use go_syslog.Rfc5424.Grammar.{ValueState, ready, utf8_step}
use go_syslog.Rfc5424.Message.{Draft}

-- The states 609, 611 and 612.
abbrev pub starts_with_bom : Bytes → Bool
starts_with_bom (a ∷ b ∷ c ∷ cs) = a == 239 && (b == 187 && c == 191)
starts_with_bom other = false

module _ {Time : Type 0} where
  abbrev pub set_msg : Bytes → Draft Time Elements → Draft Time Elements
  set_msg text out = record out { message = text }

  abbrev pub utf8_end : ValueState → ℕ → Bytes → Draft Time Elements → Step Time
  utf8_end ready p text out = accept (set_msg text out)
  utf8_end other p text out = stop err_msg_not_compliant p (set_msg text out)

  abbrev pub next_utf8 :
      (ValueState → Step Time) → ℕ → Bytes → Draft Time Elements → Option ValueState → Step Time
  next_utf8 next p text out none = stop err_msg_not_compliant p (set_msg text out)
  next_utf8 next p text out (some st) = next st

  -- The states 613 and 596 to 602, behind the BOM.
  unfoldable pub utf8 : ValueState → ℕ → Bytes → Bytes → Draft Time Elements → Step Time
  unfolding utf8_step
  utf8 st p text [] out = utf8_end st p text out
  utf8 st p text (c ∷ cs) out =
      next_utf8 (λ st'. utf8 st' (suc p) (text ++ (c ∷ [])) cs out) p text out (utf8_step st c)

  -- `msg_compliant`: UTF-8 if it starts with a BOM, and else anything.
  unfoldable pub msg_compliant : ℕ → Bytes → Draft Time Elements → Step Time
  unfolding utf8
  msg_compliant p text out =
      if starts_with_bom text
      then utf8 ready (3 + p) (take 3 text) (drop 3 text) out
      else accept (set_msg text out)

  abbrev pub msg_at : Bool → ℕ → Bytes → Draft Time Elements → Step Time
  msg_at compliant p [] out = accept out
  msg_at true p (c ∷ cs) out = msg_compliant p (c ∷ cs) out
  msg_at false p (c ∷ cs) out = accept (set_msg (c ∷ cs) out)

  -- `msg`: what is behind the space, if anything is.
  unfoldable pub msg : Bool → Cursor Time → Step Time
  unfolding msg_compliant
  msg compliant c = msg_at compliant c.at c.rest c.output
