-- ===== src/Nontransparent/Framer/Tests.antt =====
-- Two messages, the first of two lines, on the wire of the nontransparent package.
use go_syslog.Base.{
  ℕ, ◌≡◌, refl, none, some, [], ◌∷◌, ◌++◌, map, Bytes, codes, false, equal, if◌then◌else◌, arith,
}
use go_syslog.Syslog.{Machine}
use go_syslog.Nontransparent.Trailer.{lf}
use go_syslog.Nontransparent.Framer.{start, exec_call, FramerError, read_error, serve}
use go_syslog.Nontransparent.Framer.Lines.{outcome}
use go_syslog.Nontransparent.Framer.Messages.{
  lines, Message, text, IsMessage, stream_calls, Ending, cut_off, ending_calls, ending_results,
  session, serve-messages, serve-lost,
}

-- A machine that takes every text but "<bad" as it stands.
abbrev accepting : Machine Bytes ℕ
accepting = record {
  parse = λ b. if equal b (codes "<bad") then (none, some 7) else (some b, none);
  has_best_effort = false;
}

abbrev first : Message
first = record { head = codes "1>a"; more = codes "b" ∷ [] ∷ [] }

abbrev second : Message
second = record { head = codes "bad"; more = [] }

abbrev cut : Ending ℕ
cut = cut_off (codes "<2>c") 9

first-IsMessage : IsMessage 10 first
first-IsMessage = ground arith

second-IsMessage : IsMessage 10 second
second-IsMessage = ground arith

serve-messages_example :
    (serve
      (stream_calls 10 (first ∷ second ∷ []) ++ ending_calls cut)
      (session lf 10 accepting start [] none [])).0
    ≡ map (outcome lf 10 accepting) (map (text 10) (first ∷ second ∷ []))
      ++ ending_results lf 10 accepting cut
serve-messages_example =
    serve-messages lf 10 accepting first (second ∷ []) cut refl
      (first-IsMessage, (second-IsMessage, tt))

-- What the machine is given, and what is emitted for the rest.
shown :
    map (outcome lf 10 accepting) (map (text 10) (first ∷ second ∷ []))
      ++ ending_results lf 10 accepting cut
    ≡ record { message = some (codes "<1>a" ++ (10 ∷ (codes "b" ++ (10 ∷ [])))); error = none }
      ∷ record { message = none; error = some (FramerError.inner 7) }
      ∷ record { message = none; error = some (read_error 9) }
      ∷ []
unfolding equal lines
shown = refl

serve-lost_example :
    (serve
      (map (λ d. exec_call d) (codes "x" ∷ codes "<1>a" ∷ []) ++ ending_calls cut)
      (session lf 10 accepting start [] none [])).0
    ≡ ending_results lf 10 accepting cut
serve-lost_example = serve-lost lf 10 accepting 120 [] (codes "<1>a" ∷ []) cut (omega arith)
