-- ===== src/Rfc5424/Automaton/Times.antt =====
-- The timestamp that the automaton of rfc5424/machine.go reads changes no number.
use go_syslog.Base.{ℕ, zero, suc, ◌-◌, Option, none, some, [], ◌∷◌, Bytes, Bool, ◌||◌, take, ◌==◌}
use go_syslog.Rfc5424.Automaton.Fine.{Good, Fine, Fine-bind, Fine-if, byte-Fine}
use go_syslog.Rfc5424.Automaton.Steps.{
  Cursor, cursor, Step, is_digit, err_timestamp, err_parse, ◌>>=◌,
}
use go_syslog.Rfc5424.Automaton.Timestamp.{
  one, pair, pair_at, digits, fraction_at, offset_at, full_time, set_timestamp, timestamp,
  timestamp_at,
}
use go_syslog.Rfc5424.Builder.Store.{Elements}
use go_syslog.Rfc5424.Message.{Draft}

module _ {Time : Type 0} where
  -- A part that keeps what is good.
  abbrev Keeps : (Cursor Time → Step Time) → Type 0
  Keeps f = (c : Cursor Time) → Good c.output → Fine Good (f c)

  one-Keeps : (ok : ℕ → Bool) → Keeps (one ok)
  one-Keeps ok c h = byte-Fine Good ok err_timestamp c h

  -- A part behind another.
  then-Fine :
      (s : Step Time) (f : Cursor Time → Step Time) → Fine Good s → Keeps f → Fine Good (s >>= f)
  then-Fine s f h k = Fine-bind Good Good s f h k

  pair_at-Fine :
      (first : ℕ → Bool) (second : ℕ → ℕ → Bool) (p : ℕ) (cs : Bytes) (out : Draft Time Elements)
      → Good out
      → Fine Good (pair_at first second p cs out)
  pair_at-Fine first second p [] out h = tt
  pair_at-Fine first second p (c ∷ cs) out h =
      Fine-if Good (first c) _ _ (one-Keeps (second c) (cursor (suc p) cs out) h) tt

  pair-Keeps : (first : ℕ → Bool) (second : ℕ → ℕ → Bool) → Keeps (pair first second)
  pair-Keeps first second c h = pair_at-Fine first second c.at c.rest c.output h

  digits-Fine :
      (n p : ℕ) (cs : Bytes) (out : Draft Time Elements) → Good out → Fine Good (digits n p cs out)
  unfolding digits
  digits-Fine n p [] out h = h
  digits-Fine zero p (c ∷ cs) out h = h
  digits-Fine (suc n) p (c ∷ cs) out h =
      Fine-if Good (is_digit c) _ _ (digits-Fine n (suc p) cs out h) h

  fraction_at-Fine :
      (p : ℕ) (cs : Bytes) (out : Draft Time Elements) → Good out → Fine Good (fraction_at p cs out)
  fraction_at-Fine p [] out h = tt
  fraction_at-Fine p (c ∷ cs) out h =
      Fine-if Good (c == 46) _ _
        (then-Fine _ _ (one-Keeps is_digit (cursor (suc p) cs out) h)
          (λ d k. digits-Fine 5 d.at d.rest d.output k))
        h

  offset_at-Fine :
      (p : ℕ) (cs : Bytes) (out : Draft Time Elements) → Good out → Fine Good (offset_at p cs out)
  offset_at-Fine p [] out h = tt
  offset_at-Fine p (c ∷ cs) out h = Fine-if Good (c == 90) _ _ h (
      Fine-if Good (c == 43 || c == 45) _ _
        (then-Fine _ _ (then-Fine _ _ (pair-Keeps _ _ (cursor (suc p) cs out) h) (one-Keeps _))
          (pair-Keeps _ _))
        tt)

  full_time-Keeps : Keeps full_time
  unfolding full_time
  full_time-Keeps c h =
      let d = one-Keeps is_digit in
      let year = then-Fine _ _ (then-Fine _ _ (then-Fine _ _ (d c h) d) d) d in
      let date =
        then-Fine _ _
          (then-Fine _ _ (then-Fine _ _ (then-Fine _ _ year (one-Keeps _)) (pair-Keeps _ _))
            (one-Keeps _))
          (pair-Keeps _ _) in
      let hours = then-Fine _ _ (then-Fine _ _ date (one-Keeps _)) (pair-Keeps _ _) in
      let minutes = then-Fine _ _ (then-Fine _ _ hours (one-Keeps _)) (pair-Keeps _ _) in
      let seconds = then-Fine _ _ (then-Fine _ _ minutes (one-Keeps _)) (pair-Keeps _ _) in
      let parts = then-Fine _ _ seconds (λ d k. fraction_at-Fine d.at d.rest d.output k) in
      then-Fine _ _ parts (λ d k. offset_at-Fine d.at d.rest d.output k)

  set_timestamp-Keeps : (o : Option Time) → Keeps (set_timestamp o)
  set_timestamp-Keeps none c h = tt
  set_timestamp-Keeps (some t) c h = byte-Fine Good _ err_parse _ h

  module _ (parse_time : Bytes → Option Time) where
    timestamp_at-Fine :
        (p : ℕ) (cs : Bytes) (out : Draft Time Elements)
        → Good out
        → Fine Good (timestamp_at parse_time p cs out)
    timestamp_at-Fine p [] out h = tt
    timestamp_at-Fine p (c ∷ cs) out h =
        Fine-if Good (c == 45) _ _ (byte-Fine Good _ err_parse (cursor (suc p) cs out) h) (
          then-Fine _ _ (full_time-Keeps (cursor p (c ∷ cs) out) h)
            (λ d k. set_timestamp-Keeps (parse_time (take (d.at - p) (c ∷ cs))) d k))

    pub timestamp-Fine : (c : Cursor Time) → Good c.output → Fine Good (timestamp parse_time c)
    unfolding timestamp
    timestamp-Fine c h = timestamp_at-Fine c.at c.rest c.output h
