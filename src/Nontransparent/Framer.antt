-- ===== src/Nontransparent/Framer.antt =====
-- The automaton of nontransparent/parser.go, and the calls that its driver makes: `Exec` on a chunk,
-- `OnErr`, `OnEOF` and `OnCompletion`. The driver is the package leodido/ragel-machinery; what it
-- does with a stream is a sequence of calls. Every chunk is handed over from its first byte.
mod Tests
pub mod Lines
pub mod Messages
use go_syslog.Base.{
  zero, suc, ℕ, Option, none, some, List, [], ◌∷◌, ◌++◌, Bytes, Bool, true, false, not, ◌&&◌, ◌||◌,
  ◌==◌, ends_in, drop_last, if◌then◌else◌,
}
use go_syslog.Base.Int.{pos}
use go_syslog.Syslog.{Machine, Result}
use go_syslog.Nontransparent.Trailer.{TrailerType}

-- The states 1, 0, 2 and 3.
pub data State : Type 0 where
  start error body trailer : State

-- An error of the machine, or that of the reader.
pub data FramerError (E R : Type 0) : Type 0 where
  inner : E → FramerError E R
  read_error : R → FramerError E R

-- The fields of `machine` that its callbacks read or write.
pub record Framer (M E R : Type 0) : Type 0 where
  pub trailertyp : TrailerType
  pub trailer_byte : ℕ
  pub candidate : Bytes
  pub internal : Machine M E
  pub failed : Option R
  pub last_chunk : Bytes

-- What `Exec` leaves: what was emitted, the state, the bytes from `p` on, and the machine.
pub record Executed (M E R : Type 0) : Type 0 where
  pub emitted : List (Result M (FramerError E R))
  pub state : State
  pub rest : Bytes
  pub after : Framer M E R

-- `10 when { m.trailertyp == LF } | 00 when { m.trailertyp == NUL }`.
abbrev is_lf : TrailerType → Bool
is_lf (pos zero) = true
is_lf other = false

abbrev is_nul : TrailerType → Bool
is_nul (pos (suc zero)) = true
is_nul other = false

unfoldable pub at_trailer : TrailerType → ℕ → Bool
at_trailer t c = (c == 10 && is_lf t) || (c == 0 && is_nul t)

abbrev after_byte : Bool → State
after_byte true = trailer
after_byte false = body

-- One byte: what is emitted, the next state, none if there is no transition, and the machine.
abbrev Move : Type 0 → Type 0 → Type 0 → Type 0
Move M E R = List (Result M (FramerError E R)) × Option State × Framer M E R

module _ {M E R : Type 0} where
  abbrev wrap : Option M × Option E → Result M (FramerError E R)
  wrap (m, none) = record { message = m; error = none }
  wrap (m, some e) = record { message = m; error = some (inner e) }

  -- The candidate without its trailer.
  abbrev stripped : Framer M E R → Framer M E R
  stripped m = record m {
    candidate = if ends_in m.trailer_byte m.candidate then drop_last m.candidate else m.candidate;
  }

  -- `process`: the result emitted, and the machine.
  unfoldable pub process : Framer M E R → Result M (FramerError E R) × Framer M E R
  process m = let m' : Framer M E R = stripped m in (wrap (m'.internal.parse m'.candidate), m')

  -- `if len(m.candidate) > 0 { m.process() }`.
  abbrev process_candidate : Bytes → Framer M E R → List (Result M (FramerError E R)) × Framer M E R
  process_candidate [] m = ([], m)
  process_candidate (c ∷ cs) m = let (r, m') = process m in (r ∷ [], m')

  -- `on_init`.
  abbrev on_init : Framer M E R → List (Result M (FramerError E R)) × Framer M E R
  on_init m = let (out, m') = process_candidate m.candidate m in (out, record m' { candidate = [] })

  -- `on_trailer`, if the byte is the trailer.
  abbrev on_trailer : Bool → Bytes → Framer M E R → Framer M E R
  on_trailer true chunk m = record m { candidate = m.candidate ++ chunk }
  on_trailer false chunk m = m

  abbrev begin : List (Result M (FramerError E R)) × Framer M E R → Move M E R
  begin (out, m) = (out, some body, m)

  abbrev inside : Bool → Bytes → Framer M E R → Move M E R
  inside t chunk m = ([], some (after_byte t), on_trailer t chunk m)

  -- The transitions.
  abbrev transition : State → Bool → Bool → Bytes → Framer M E R → Move M E R
  transition start true t chunk m = begin (on_init m)
  transition start false t chunk m = ([], none, m)
  transition error lt t chunk m = ([], none, m)
  transition body lt t chunk m = inside t chunk m
  transition trailer true t chunk m = begin (on_init m)
  transition trailer false t chunk m = inside t chunk m

  abbrev prepend : List (Result M (FramerError E R)) → Executed M E R → Executed M E R
  prepend out x = record x { emitted = out ++ x.emitted }

  abbrev halt : State → Bytes → Framer M E R → Executed M E R
  halt st rest m = record { emitted = []; state = st; rest = rest; after = m }

  abbrev go_on : (State → Framer M E R → Executed M E R) → Bytes → Move M E R → Executed M E R
  go_on next rest (out, none, m) = prepend out (halt error rest m)
  go_on next rest (out, some st, m) = prepend out (next st m)

  -- `Exec` from a byte of a chunk on.
  unfoldable pub exec : Bytes → State → Bytes → Framer M E R → Executed M E R
  unfolding at_trailer process
  exec chunk st [] m = halt st [] m
  exec chunk st (c ∷ cs) m =
      go_on (λ st' m'. exec chunk st' cs m') (c ∷ cs)
        (transition st (c == 60) (at_trailer m.trailertyp c) chunk m)

-- The callbacks of the driver.
pub data Call (R : Type 0) : Type 0 where
  exec_call on_eof_call : Bytes → Call R
  on_err_call : Bytes → R → Call R
  on_completion_call : Call R

-- The state that the driver keeps for `Exec`, and the machine.
pub record Session (M E R : Type 0) : Type 0 where
  pub state : State
  pub machine : Framer M E R

module _ {M E R : Type 0} where
  -- `OnErr`.
  abbrev pub on_err : Bytes → R → Framer M E R → Framer M E R
  on_err chunk e m = record m { last_chunk = chunk; failed = some e }

  -- The result of the last chunk: without best effort a message that is complete but for its
  -- trailer is withheld, and the error is the reader's.
  abbrev pub unfinished : Bool → R → Option M × Option E → Result M (FramerError E R)
  unfinished true e (msg, none) = record { message = msg; error = none }
  unfinished false e (msg, none) = record { message = none; error = some (read_error e) }
  unfinished best e (msg, some x) = record { message = msg; error = some (inner x) }

  abbrev last_result : Option R → Bytes → Framer M E R → List (Result M (FramerError E R))
  last_result none chunk m = []
  last_result (some e) [] m = []
  last_result (some e) (c ∷ cs) m =
      unfinished m.internal.has_best_effort e (m.internal.parse (c ∷ cs)) ∷ []

  -- `OnCompletion`.
  unfoldable pub on_completion : Framer M E R → List (Result M (FramerError E R)) × Framer M E R
  on_completion m =
      let (out, m') = process_candidate m.candidate m in
      (out ++ last_result m'.failed m'.last_chunk m', m')

  abbrev on_exec :
      Session M E R → Executed M E R → List (Result M (FramerError E R)) × Session M E R
  on_exec s x = (x.emitted, record { state = x.state; machine = x.after })

  -- A callback.
  abbrev pub call : Call R → Session M E R → List (Result M (FramerError E R)) × Session M E R
  call (exec_call chunk) s = on_exec s (exec chunk s.state chunk s.machine)
  call (on_eof_call chunk) s = ([], s)
  call (on_err_call chunk e) s = ([], record s { machine = on_err chunk e s.machine })
  call on_completion_call s =
      let (out, m) = on_completion s.machine in (out, record s { machine = m })

  -- A sequence of callbacks: all that is emitted, and the session.
  unfoldable pub serve :
      List (Call R) → Session M E R → List (Result M (FramerError E R)) × Session M E R
  serve [] s = ([], s)
  serve (c ∷ cs) s =
      let (out, s') = call c s in let (later, s'') = serve cs s' in (out ++ later, s'')
