-- ===== src/Rfc5424/Automaton/Timestamp.antt =====
-- The automaton of rfc5424/machine.go on the timestamp. `time.Parse` is a parameter.
use go_syslog.Base.{
  ℕ, suc, zero, ◌-◌, Option, none, some, [], ◌∷◌, Bytes, Bool, true, ◌||◌, ◌==◌, take,
  if◌then◌else◌,
}
use go_syslog.Common.Utf8.{within}
use go_syslog.Rfc5424.Automaton.Steps.{
  err_timestamp, bad_timestamp, err_parse, Cursor, cursor, Step, go, stop, ◌>>=◌, byte, is_digit,
}
use go_syslog.Rfc5424.Builder.Store.{Elements}
use go_syslog.Rfc5424.Message.{Draft}

module _ {Time : Type 0} where
  -- A byte of the timestamp.
  abbrev pub one : (ℕ → Bool) → Cursor Time → Step Time
  one ok c = byte ok err_timestamp c

  -- Two bytes of which the first decides what the second may be.
  abbrev pub pair_at : (ℕ → Bool) → (ℕ → ℕ → Bool) → ℕ → Bytes → Draft Time Elements → Step Time
  pair_at first second p [] out = stop err_timestamp p out
  pair_at first second p (c ∷ cs) out =
      if first c then one (second c) (cursor (suc p) cs out) else stop err_timestamp p out

  abbrev pub pair : (ℕ → Bool) → (ℕ → ℕ → Bool) → Cursor Time → Step Time
  pair first second c = pair_at first second c.at c.rest c.output

  abbrev pub month : Cursor Time → Step Time
  month c = pair (within 48 49) (λ a b. if a == 48 then within 49 57 b else within 48 50 b) c

  abbrev pub month_day : Cursor Time → Step Time
  month_day c =
      pair (within 48 51)
        (λ a b. if a == 48 then within 49 57 b else if a == 51 then within 48 49 b else is_digit b)
        c

  abbrev pub hour : Cursor Time → Step Time
  hour c = pair (within 48 50) (λ a b. if a == 50 then within 48 51 b else is_digit b) c

  abbrev pub sexagesimal : Cursor Time → Step Time
  sexagesimal c = pair (within 48 53) (λ a b. is_digit b) c

  -- At most `n` more digits.
  unfoldable pub digits : ℕ → ℕ → Bytes → Draft Time Elements → Step Time
  digits n p [] out = go (cursor p [] out)
  digits zero p (c ∷ cs) out = go (cursor p (c ∷ cs) out)
  digits (suc n) p (c ∷ cs) out =
      let later = digits n (suc p) cs out in
      if is_digit c then later else go (cursor p (c ∷ cs) out)

  abbrev pub fraction_at : ℕ → Bytes → Draft Time Elements → Step Time
  fraction_at p [] out = stop err_timestamp p out
  fraction_at p (c ∷ cs) out =
      if c == 46
      then (one is_digit (cursor (suc p) cs out) >>= λ d. digits 5 d.at d.rest d.output)
      else go (cursor p (c ∷ cs) out)

  abbrev pub offset_at : ℕ → Bytes → Draft Time Elements → Step Time
  offset_at p [] out = stop err_timestamp p out
  offset_at p (c ∷ cs) out =
      if c == 90
      then go (cursor (suc p) cs out)
      else if c == 43 || c == 45
      then (hour (cursor (suc p) cs out) >>= one (λ b. b == 58) >>= sexagesimal)
      else stop err_timestamp p out

  -- `fulldate 'T' fulltime`, the states 554 to 590.
  unfoldable pub full_time : Cursor Time → Step Time
  unfolding byte digits
  full_time c =
      one is_digit c
      >>= one is_digit
      >>= one is_digit
      >>= one is_digit
      >>= one (λ b. b == 45)
      >>= month
      >>= one (λ b. b == 45)
      >>= month_day
      >>= one (λ b. b == 84)
      >>= hour
      >>= one (λ b. b == 58)
      >>= sexagesimal
      >>= one (λ b. b == 58)
      >>= sexagesimal
      >>= (λ d. fraction_at d.at d.rest d.output)
      >>= (λ d. offset_at d.at d.rest d.output)

  -- `set_timestamp`, and the space behind the timestamp.
  abbrev pub set_timestamp : Option Time → Cursor Time → Step Time
  set_timestamp none c = stop bad_timestamp c.at c.output
  set_timestamp (some t) c =
      byte (λ b. b == 32) err_parse
        (cursor c.at c.rest (record c.output { timestamp = t; timestamp_set = true }))

  module _ (parse_time : Bytes → Option Time) where
    abbrev pub timestamp_at : ℕ → Bytes → Draft Time Elements → Step Time
    timestamp_at p [] out = stop err_timestamp p out
    timestamp_at p (c ∷ cs) out =
        if c == 45
        then byte (λ b. b == 32) err_parse (cursor (suc p) cs out)
        else (full_time (cursor p (c ∷ cs) out) >>= λ d.
            set_timestamp (parse_time (take (d.at - p) (c ∷ cs))) d)

    -- `timestamp`, with the space behind it.
    unfoldable pub timestamp : Cursor Time → Step Time
    unfolding byte full_time
    timestamp c = timestamp_at c.at c.rest c.output
