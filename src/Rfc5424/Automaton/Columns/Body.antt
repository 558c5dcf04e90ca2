-- ===== src/Rfc5424/Automaton/Columns/Body.antt =====
-- The errors in the timestamp, in the structured data and in the message.
use go_syslog.Base.{
  ℕ, zero, suc, ◌+◌, ◌-◌, ◌≤◌, ◌≡◌, Option, none, some, [], ◌∷◌, ◌++◌, Bytes, Bool, true, false,
  ◌||◌, length, take, arith, ◌==◌,
}
use go_syslog.Rfc5424.Automaton.Columns.{Within, Within-bind, Within-if, Stays, byte-Stays}
use go_syslog.Rfc5424.Automaton.Steps.{
  Cursor, cursor, Step, err_timestamp, err_parse, ◌>>=◌, is_digit,
}
use go_syslog.Rfc5424.Automaton.Timestamp.{
  one, pair, pair_at, digits, fraction_at, offset_at, full_time, set_timestamp, timestamp_at,
}
use go_syslog.Rfc5424.Automaton.FreeForm.{
  msg_at, msg_compliant, utf8, utf8_end, next_utf8, starts_with_bom,
}
use go_syslog.Rfc5424.Automaton.StructuredData.{
  State, id_start, Current, Move, next, leave, failed, broken, step, finish, elements, end_of,
  on_move, after_nil, structured_data_at,
}
use go_syslog.Rfc5424.Builder.Store.{Elements}
use go_syslog.Rfc5424.Grammar.{ValueState, ready, utf8_step}
use go_syslog.Rfc5424.Message.{Draft}

module _ {Time : Type 0} (total : ℕ) where
  one-Stays : (ok : ℕ → Bool) → Stays {Time = Time} total (one ok)
  one-Stays ok c h = byte-Stays total ok err_timestamp c h

  pub then-Within :
      (s : Step Time) (f : Cursor Time → Step Time)
      → Within total s
      → Stays total f
      → Within total (s >>= f)
  then-Within s f h k = Within-bind total s f h k

  pair_at-Within :
      (first : ℕ → Bool) (second : ℕ → ℕ → Bool) (p : ℕ) (cs : Bytes) (out : Draft Time Elements)
      → p + length cs ≡ total
      → Within total (pair_at first second p cs out)
  pair_at-Within first second p [] out h = omega arith
  pair_at-Within first second p (c ∷ cs) out h =
      Within-if total (first c) _ _ (one-Stays (second c) (cursor (suc p) cs out) (omega arith))
        (omega arith)

  pair-Stays :
      (first : ℕ → Bool) (second : ℕ → ℕ → Bool) → Stays {Time = Time} total (pair first second)
  pair-Stays first second c h = pair_at-Within first second c.at c.rest c.output h

  digits-Within :
      (n p : ℕ) (cs : Bytes) (out : Draft Time Elements)
      → p + length cs ≡ total
      → Within total (digits n p cs out)
  unfolding digits
  digits-Within n p [] out h = h
  digits-Within zero p (c ∷ cs) out h = h
  digits-Within (suc n) p (c ∷ cs) out h =
      Within-if total (is_digit c) _ _ (digits-Within n (suc p) cs out (omega arith)) h

  fraction_at-Within :
      (p : ℕ) (cs : Bytes) (out : Draft Time Elements)
      → p + length cs ≡ total
      → Within total (fraction_at p cs out)
  fraction_at-Within p [] out h = omega arith
  fraction_at-Within p (c ∷ cs) out h =
      Within-if total (c == 46) _ _
        (then-Within _ _ (one-Stays is_digit (cursor (suc p) cs out) (omega arith))
          (λ d k. digits-Within 5 d.at d.rest d.output k))
        h

  offset_at-Within :
      (p : ℕ) (cs : Bytes) (out : Draft Time Elements)
      → p + length cs ≡ total
      → Within total (offset_at p cs out)
  offset_at-Within p [] out h = omega arith
  offset_at-Within p (c ∷ cs) out h = Within-if total (c == 90) _ _ (omega arith) (
      Within-if total (c == 43 || c == 45) _ _
        (then-Within _ _
          (then-Within _ _ (pair-Stays _ _ (cursor (suc p) cs out) (omega arith)) (one-Stays _))
          (pair-Stays _ _))
        (omega arith))

  full_time-Stays : Stays {Time = Time} total full_time
  unfolding full_time
  full_time-Stays c h =
      let d = one-Stays is_digit in
      let year = then-Within _ _ (then-Within _ _ (then-Within _ _ (d c h) d) d) d in
      let date =
        then-Within _ _
          (then-Within _ _ (then-Within _ _ (then-Within _ _ year (one-Stays _)) (pair-Stays _ _))
            (one-Stays _))
          (pair-Stays _ _) in
      let hours = then-Within _ _ (then-Within _ _ date (one-Stays _)) (pair-Stays _ _) in
      let minutes = then-Within _ _ (then-Within _ _ hours (one-Stays _)) (pair-Stays _ _) in
      let seconds = then-Within _ _ (then-Within _ _ minutes (one-Stays _)) (pair-Stays _ _) in
      let parts = then-Within _ _ seconds (λ d k. fraction_at-Within d.at d.rest d.output k) in
      then-Within _ _ parts (λ d k. offset_at-Within d.at d.rest d.output k)

  set_timestamp-Stays : (o : Option Time) → Stays total (set_timestamp o)
  set_timestamp-Stays none c h = omega arith
  set_timestamp-Stays (some t) c h = byte-Stays total _ err_parse _ h

  pub timestamp_at-Within :
      (parse_time : Bytes → Option Time) (p : ℕ) (cs : Bytes) (out : Draft Time Elements)
      → p + length cs ≡ total
      → Within total (timestamp_at parse_time p cs out)
  timestamp_at-Within parse_time p [] out h = omega arith
  timestamp_at-Within parse_time p (c ∷ cs) out h =
      Within-if total (c == 45) _ _
        (byte-Stays total _ err_parse (cursor (suc p) cs out) (omega arith))
        (then-Within _ _ (full_time-Stays (cursor p (c ∷ cs) out) h)
          (λ d k. set_timestamp-Stays (parse_time (take (d.at - p) (c ∷ cs))) d k))

  end_of-Within : (p : ℕ) (m : Move Time) → p ≤ total → Within total (end_of p m)
  end_of-Within p (next st cur out) h = tt
  end_of-Within p (leave out) h = tt
  end_of-Within p (failed k out) h = h
  end_of-Within p broken h = tt

  on_move-Within :
      (f : State → Current → Draft Time Elements → Step Time) (p : ℕ) (cs : Bytes) (m : Move Time)
      → suc p + length cs ≡ total
      → ((st : State) (cur : Current) (out : Draft Time Elements) → Within total (f st cur out))
      → Within total (on_move f p cs m)
  on_move-Within f p cs (next st cur out) h k = k st cur out
  on_move-Within f p cs (leave out) h k = h
  on_move-Within f p cs (failed e out) h k = omega arith
  on_move-Within f p cs broken h k = tt

  elements-Within :
      (st : State) (p : ℕ) (cs : Bytes) (cur : Current) (out : Draft Time Elements)
      → p + length cs ≡ total
      → Within total (elements st p cs cur out)
  unfolding elements
  elements-Within st p [] cur out h = end_of-Within p (finish st cur out) (omega arith)
  elements-Within st p (c ∷ cs) cur out h =
      on_move-Within (λ st' cur' out'. elements st' (suc p) cs cur' out') p cs (step st c p cur out)
        (omega arith) (λ st' cur' out'. elements-Within st' (suc p) cs cur' out' (omega arith))

  after_nil-Within :
      (p : ℕ) (cs : Bytes) (out : Draft Time Elements)
      → p + length cs ≡ total
      → Within total (after_nil p cs out)
  after_nil-Within p [] out h = tt
  after_nil-Within p (c ∷ cs) out h = Within-if total (c == 32) _ _ (omega arith) (omega arith)

  pub structured_data_at-Within :
      (cur : Current) (p : ℕ) (cs : Bytes) (out : Draft Time Elements)
      → p + length cs ≡ total
      → Within total (structured_data_at cur p cs out)
  structured_data_at-Within cur p [] out h = omega arith
  structured_data_at-Within cur p (c ∷ cs) out h =
      Within-if total (c == 45) _ _ (after_nil-Within (suc p) cs out (omega arith)) (
        Within-if total (c == 91) _ _ (elements-Within id_start (suc p) cs cur _ (omega arith))
          (omega arith))

  next_utf8-Within :
      (f : ValueState → Step Time) (p : ℕ) (text : Bytes) (out : Draft Time Elements)
      (o : Option ValueState)
      → p ≤ total
      → ((st : ValueState) → Within total (f st))
      → Within total (next_utf8 f p text out o)
  next_utf8-Within f p text out none h k = h
  next_utf8-Within f p text out (some st) h k = k st

  utf8_end-Within :
      (st : ValueState) (p : ℕ) (text : Bytes) (out : Draft Time Elements)
      → p ≤ total
      → Within total (utf8_end st p text out)
  utf8_end-Within ready p text out h = tt
  utf8_end-Within other p text out h = h

  utf8-Within :
      (st : ValueState) (p : ℕ) (text cs : Bytes) (out : Draft Time Elements)
      → p + length cs ≡ total
      → Within total (utf8 st p text cs out)
  unfolding utf8
  utf8-Within st p text [] out h = utf8_end-Within st p text out (omega arith)
  utf8-Within st p text (c ∷ cs) out h =
      next_utf8-Within (λ st'. utf8 st' (suc p) (text ++ (c ∷ [])) cs out) p text out
        (utf8_step st c) (omega arith)
        (λ st'. utf8-Within st' (suc p) (text ++ (c ∷ [])) cs out (omega arith))

  msg_compliant-Within :
      (p : ℕ) (text : Bytes) (out : Draft Time Elements)
      → p + length text ≡ total
      → Within total (msg_compliant p text out)
  unfolding msg_compliant
  msg_compliant-Within p [] out h = tt
  msg_compliant-Within p (a ∷ []) out h = tt
  msg_compliant-Within p (a ∷ b ∷ []) out h = tt
  msg_compliant-Within p (a ∷ b ∷ c ∷ cs) out h =
      Within-if total (starts_with_bom (a ∷ b ∷ c ∷ cs)) _ _
        (utf8-Within ready (3 + p) (a ∷ b ∷ c ∷ []) cs out (omega arith)) tt

  pub msg_at-Within :
      (compliant : Bool) (p : ℕ) (cs : Bytes) (out : Draft Time Elements)
      → p + length cs ≡ total
      → Within total (msg_at compliant p cs out)
  msg_at-Within compliant p [] out h = tt
  msg_at-Within true p (c ∷ cs) out h = msg_compliant-Within p (c ∷ cs) out h
  msg_at-Within false p (c ∷ cs) out h = tt
