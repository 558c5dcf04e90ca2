-- ===== src/Rfc5424/Automaton/Fine.antt =====
-- What the parts of the automaton of rfc5424/machine.go in front of the structured data, and behind
-- it, do to the version and the priority.
use go_syslog.Base.{
  take, drop, ℕ, zero, suc, ◌+◌, ◌≡◌, refl, Option, none, some, [], ◌∷◌, ◌++◌, Bytes, Bool, true,
  false, if◌then◌else◌, ◌==◌,
}
use go_syslog.Common.{valid_priority, valid_version}
use go_syslog.Rfc5424.Automaton.Steps.{
  Cursor, Step, go, stop, accept, panic, ◌>>=◌, byte, byte_at, ErrorKind,
}
use go_syslog.Rfc5424.Automaton.Header.{chain, field_at, hostname, appname, proc_id, msg_id}
use go_syslog.Rfc5424.Automaton.FreeForm.{
  msg, utf8, next_utf8, msg_at, msg_compliant, starts_with_bom,
}
use go_syslog.Rfc5424.Builder.Store.{Elements}
use go_syslog.Rfc5424.Grammar.{graph, ValueState, ready, utf8_step}
use go_syslog.Rfc5424.Message.{Draft}

module _ {Time : Type 0} where
  -- The priority, if it was read, is in range.
  abbrev pub PriGood : Draft Time Elements → Type 0
  PriGood out = out.priority_set ≡ true → valid_priority out.priority ≡ true

  -- So is the version.
  abbrev pub Good : Draft Time Elements → Type 0
  Good out = (valid_version out.version ≡ true) × PriGood out

  -- A part goes on with a property, or accepts what is good, or notes an error; it does not panic.
  abbrev pub Fine : (Draft Time Elements → Type 0) → Step Time → Type 0
  Fine P (go c) = P c.output
  Fine P (stop k p out) = Unit
  Fine P (accept out) = Good out
  Fine P panic = ⊥

  pub Fine-bind :
      (P Q : Draft Time Elements → Type 0) (s : Step Time) (f : Cursor Time → Step Time)
      → Fine P s
      → ((c : Cursor Time) → P c.output → Fine Q (f c))
      → Fine Q (s >>= f)
  Fine-bind P Q (go c) f h k = k c h
  Fine-bind P Q (stop e p out) f h k = tt
  Fine-bind P Q (accept out) f h k = h
  Fine-bind P Q panic f h k = absurd h

  pub Fine-if :
      (P : Draft Time Elements → Type 0) (b : Bool) (x y : Step Time)
      → Fine P x
      → Fine P y
      → Fine P (if b then x else y)
  Fine-if P true x y h k = h
  Fine-if P false x y h k = k

  -- A branch that may know why it is taken.
  pub Fine-on :
      (P : Draft Time Elements → Type 0) (b : Bool) (x y : Step Time)
      → (b ≡ true → Fine P x)
      → Fine P y
      → Fine P (if b then x else y)
  Fine-on P true x y h k = h refl
  Fine-on P false x y h k = k

  byte_at-Fine :
      (P : Draft Time Elements → Type 0) (ok : ℕ → Bool) (k : ErrorKind) (p : ℕ) (cs : Bytes)
      (out : Draft Time Elements)
      → P out
      → Fine P (byte_at ok k p cs out)
  byte_at-Fine P ok k p [] out h = tt
  byte_at-Fine P ok k p (c ∷ cs) out h = Fine-if P (ok c) _ _ h tt

  pub byte-Fine :
      (P : Draft Time Elements → Type 0) (ok : ℕ → Bool) (k : ErrorKind) (c : Cursor Time)
      → P c.output
      → Fine P (byte ok k c)
  unfolding byte
  byte-Fine P ok k c h = byte_at-Fine P ok k c.at c.rest c.output h

  chain-Fine :
      (k : ErrorKind) (set : Bytes → Draft Time Elements → Draft Time Elements) (n : ℕ)
      (text : Bytes) (p : ℕ) (cs : Bytes) (out : Draft Time Elements)
      → ((t : Bytes) → Good (set t out))
      → Fine Good (chain k set n text p cs out)
  unfolding chain
  chain-Fine k set n text p [] out h = tt
  chain-Fine k set zero text p (c ∷ cs) out h = Fine-if Good (c == 32) _ _ (h text) tt
  chain-Fine k set (suc n) text p (c ∷ cs) out h =
      let ih = chain-Fine k set n (text ++ (c ∷ [])) (suc p) cs out h in
      Fine-if Good (c == 32) _ _ (h text) (Fine-if Good (graph c) _ _ ih tt)

  field_at-Fine :
      (k : ErrorKind) (set : Bytes → Draft Time Elements → Draft Time Elements) (n p : ℕ)
      (cs : Bytes) (out : Draft Time Elements)
      → ((t : Bytes) → Good (set t out))
      → Fine Good (field_at k set n p cs out)
  field_at-Fine k set n p [] out h = tt
  field_at-Fine k set n p (c ∷ cs) out h =
      Fine-if Good (graph c) _ _ (chain-Fine k set n (c ∷ []) (suc p) cs out h) tt

  pub hostname-Fine : (c : Cursor Time) → Good c.output → Fine Good (hostname c)
  unfolding hostname
  hostname-Fine c h = field_at-Fine _ _ 254 c.at c.rest c.output (λ t. h)

  pub appname-Fine : (c : Cursor Time) → Good c.output → Fine Good (appname c)
  unfolding appname
  appname-Fine c h = field_at-Fine _ _ 47 c.at c.rest c.output (λ t. h)

  pub proc_id-Fine : (c : Cursor Time) → Good c.output → Fine Good (proc_id c)
  unfolding proc_id
  proc_id-Fine c h = field_at-Fine _ _ 127 c.at c.rest c.output (λ t. h)

  pub msg_id-Fine : (c : Cursor Time) → Good c.output → Fine Good (msg_id c)
  unfolding msg_id
  msg_id-Fine c h = field_at-Fine _ _ 31 c.at c.rest c.output (λ t. h)

  next_utf8-Fine :
      (next : ValueState → Step Time) (p : ℕ) (text : Bytes) (out : Draft Time Elements)
      (o : Option ValueState)
      → ((st : ValueState) → Fine Good (next st))
      → Fine Good (next_utf8 next p text out o)
  next_utf8-Fine next p text out none h = tt
  next_utf8-Fine next p text out (some st) h = h st

  utf8-Fine :
      (st : ValueState) (p : ℕ) (text cs : Bytes) (out : Draft Time Elements)
      → Good out
      → Fine Good (utf8 st p text cs out)
  unfolding utf8
  utf8-Fine ready p text [] out h = h
  utf8-Fine st p text [] out h = tt
  utf8-Fine st p text (c ∷ cs) out h =
      next_utf8-Fine (λ st'. utf8 st' (suc p) (text ++ (c ∷ [])) cs out) p text out (utf8_step st c)
        (λ st'. utf8-Fine st' (suc p) (text ++ (c ∷ [])) cs out h)

  msg_at-Fine :
      (compliant : Bool) (p : ℕ) (cs : Bytes) (out : Draft Time Elements)
      → Good out
      → Fine Good (msg_at compliant p cs out)
  unfolding msg_compliant
  msg_at-Fine compliant p [] out h = h
  msg_at-Fine true p (c ∷ cs) out h =
      Fine-if Good (starts_with_bom (c ∷ cs)) _ _
        (utf8-Fine ready (3 + p) (take 3 (c ∷ cs)) (drop 3 (c ∷ cs)) out h) h
  msg_at-Fine false p (c ∷ cs) out h = h

  pub msg-Fine : (compliant : Bool) (c : Cursor Time) → Good c.output → Fine Good (msg compliant c)
  unfolding msg
  msg-Fine compliant c h = msg_at-Fine compliant c.at c.rest c.output h
