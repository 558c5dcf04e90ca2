-- ===== src/Nontransparent/Framer/Lines.antt =====
-- The automaton of nontransparent/parser.go on chunks that end in the trailer and hold no other.
use mathlib.Core.Option.{none}
use Prim.Native.Nat.{zero}
use go_syslog.Base.{
  suc, ℕ, ◌≡◌, ◌≢◌, refl, ap, ◌∙◌, Option, some, [], ◌∷◌, ◌++◌, Bytes, Bool, true, false, ◌==◌, All,
  arith, ends_in, drop_last,
}
use go_syslog.Base.Int.{pos, negsuc}
use go_syslog.Syslog.{Machine, Result}
use go_syslog.Nontransparent.Trailer.{TrailerType, value}
use go_syslog.Base.{==_iff, zero, suc}
use go_syslog.Nontransparent.Framer.{
  inner, after_byte, process_candidate, stripped, go_on, State, body, trailer, FramerError, Framer,
  at_trailer, wrap, process, on_trailer, transition, exec,
}

pub at_trailer-value : (t : TrailerType) (b c : ℕ) → value t ≡ some b → at_trailer t c ≡ (c == b)
unfolding at_trailer
at_trailer-value (pos zero) b c h = ground arith
at_trailer-value (pos (suc zero)) b c h = ground arith
at_trailer-value (pos (suc (suc n))) b c h = cc
at_trailer-value (negsuc n) b c h = cc

ends_in-snoc : (b : ℕ) (s : Bytes) → ends_in b (s ++ (b ∷ [])) ≡ true
unfolding ends_in
ends_in-snoc b [] = ground arith
ends_in-snoc b (c ∷ []) = ground arith
ends_in-snoc b (c ∷ d ∷ s) = ends_in-snoc b (d ∷ s)

drop_last-snoc : (b : ℕ) (s : Bytes) → drop_last (s ++ (b ∷ [])) ≡ s
unfolding drop_last
drop_last-snoc b [] = refl
drop_last-snoc b (c ∷ []) = refl
drop_last-snoc b (c ∷ d ∷ s) = ap (λ x. c ∷ x) (drop_last-snoc b (d ∷ s))

pub ne-false : {c b : ℕ} → c ≢ b → (c == b) ≡ false
ne-false h = ground arith

-- What the listener is handed for an answer of the message machine.
abbrev pub handed : {M E R : Type 0} → Option M × Option E → Result M (FramerError E R)
handed (m, none) = record { message = m; error = none }
handed (m, some e) = record { message = m; error = some (inner e) }

wrap-handed : {M E R : Type 0} (a : Option M × Option E) → wrap {R = R} a ≡ handed a
wrap-handed (m, none) = refl
wrap-handed (m, some e) = refl

-- No byte of a line is the trailer.
abbrev pub IsLine : ℕ → Bytes → Type 0
IsLine b = All (λ c. c ≢ b)

module _ {M E R : Type 0} (typ : TrailerType) (b : ℕ) (internal : Machine M E) where
  -- The machine with a candidate, and with what `OnErr` left.
  abbrev pub framer : Bytes → Option R → Bytes → Framer M E R
  framer candidate failed last = record {
    trailertyp = typ;
    trailer_byte = b;
    candidate = candidate;
    internal = internal;
    failed = failed;
    last_chunk = last;
  }

  abbrev pub outcome : Bytes → Result M (FramerError E R)
  outcome m = handed (internal.parse m)

  stripped-snoc :
      (m : Bytes) (failed : Option R) (last : Bytes)
      → stripped (framer (m ++ (b ∷ [])) failed last) ≡ framer m failed last
  stripped-snoc m failed last = rw (ends_in-snoc b m, drop_last-snoc b m)

  process-snoc :
      (m : Bytes) (failed : Option R) (last : Bytes)
      → process (framer (m ++ (b ∷ [])) failed last) ≡ (outcome m, framer m failed last)
  unfolding process
  process-snoc m failed last =
      ap (λ x. (wrap (x.internal.parse x.candidate), x)) (stripped-snoc m failed last)
      ∙ ap (λ r. (r, framer m failed last)) (wrap-handed (internal.parse m))

  -- What is emitted for a candidate that ends in its trailer.
  pub process_candidate-snoc :
      (m : Bytes) (failed : Option R) (last : Bytes)
      → process_candidate (m ++ (b ∷ [])) (framer (m ++ (b ∷ [])) failed last)
        ≡ (outcome m ∷ [], framer m failed last)
  process_candidate-snoc [] failed last = ap (λ x. (x.0 ∷ [], x.1)) (process-snoc [] failed last)
  process_candidate-snoc (c ∷ m) failed last =
      ap (λ x. (x.0 ∷ [], x.1)) (process-snoc (c ∷ m) failed last)

  -- One byte inside a message.
  pub inside_byte :
      (st : State) (c : ℕ) (chunk cs cand : Bytes) (failed : Option R) (last : Bytes) (t : Bool)
      → transition st (c == 60) (at_trailer typ c) chunk (framer cand failed last) ≡ (
        [],
        some (after_byte (at_trailer typ c)),
        on_trailer (at_trailer typ c) chunk (framer cand failed last),
      )
      → at_trailer typ c ≡ t
      → exec chunk st (c ∷ cs) (framer cand failed last)
        ≡ exec chunk (after_byte t) cs (on_trailer t chunk (framer cand failed last))
  unfolding exec
  inside_byte st c chunk cs cand failed last t h e =
      ap (go_on (λ st' m'. exec chunk st' cs m') (c ∷ cs)) h
      ∙ ap (λ t. exec chunk (after_byte t) cs (on_trailer t chunk (framer cand failed last))) e

  -- Inside a message a line runs to its trailer, and the whole chunk is stored.
  pub exec-body :
      (chunk line cand : Bytes) (failed : Option R) (last : Bytes)
      → value typ ≡ some b
      → IsLine b line
      → exec chunk body (line ++ (b ∷ [])) (framer cand failed last) ≡ record {
        emitted = [];
        state = trailer;
        rest = [];
        after = framer (cand ++ chunk) failed last;
      }
  unfolding exec
  exec-body chunk [] cand failed last v h =
      inside_byte body b chunk [] cand failed last true refl
        (at_trailer-value typ b b v ∙ (==_iff b b).1 refl)
  exec-body chunk (c ∷ line) cand failed last v (h, hs) =
      inside_byte body c chunk (line ++ (b ∷ [])) cand failed last false refl
        (at_trailer-value typ b c v ∙ ne-false h)
      ∙ exec-body chunk line cand failed last v hs
