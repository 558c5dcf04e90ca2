-- ===== src/Rfc3195/Raw/Laws.antt =====
-- What the RAW profile of rfc3195/raw.go emits for the messages it is sent.
use mathlib.Core.Option.{none}
use go_syslog.Base.{
  Option, ◌≡◌, ◌≢◌, refl, ap, ◌∙◌, some, List, [], ◌∷◌, ◌++◌, map, Bytes, Bool, true, false, All,
}
use go_syslog.Base.Int.{ℤ}
use go_syslog.Syslog.{Machine}
use go_syslog.Reader.{trim_crlf}
use go_syslog.Rfc3195.Frame.{Frame, ans}
use go_syslog.Rfc3195.Frame.Sound.{IsSound}
use go_syslog.Rfc3195.Loop.{limit_of}
use go_syslog.Rfc3195.Loop.Laws.{encode_all, emitted, parse-encode_all}
use go_syslog.Rfc3195.Raw.{inner, RawError, Result, result_of, process_ans, handle, report, parse}

trim_crlf-append : (m : Bytes) → trim_crlf (m ++ (13 ∷ 10 ∷ [])) ≡ m
unfolding trim_crlf
trim_crlf-append [] = refl
trim_crlf-append (a ∷ []) = refl
trim_crlf-append (a ∷ b ∷ []) = refl
trim_crlf-append (a ∷ b ∷ c ∷ cs) = ap (λ x. a ∷ x) (trim_crlf-append (b ∷ c ∷ cs))

-- The frames are answers, one for each message, that carry the message with a CRLF behind it.
unfoldable pub Carries : List Frame → List Bytes → Type 0
Carries [] [] = Unit
Carries [] (m ∷ ms) = ⊥
Carries (f ∷ fs) [] = ⊥
Carries (f ∷ fs) (m ∷ ms) =
    (f.typ ≡ ans) × (f.payload ≡ m ++ (13 ∷ 10 ∷ [])) × (m ≢ []) × Carries fs ms

-- The result that is due for an answer of the machine.
abbrev pub due : {M E : Type 0} → Bool → Option M × Option E → Result M (RawError E)
due best_effort (m, none) = record { message = m; error = none }
due true (m, some e) = record { message = m; error = some (inner e) }
due false (m, some e) = record { message = none; error = some (inner e) }

result_of-due :
    {M E : Type 0} (best_effort : Bool) (internal : Machine M E) (a : Option M × Option E)
    → result_of best_effort internal a ≡ due best_effort a
result_of-due best_effort internal (m, none) = refl
result_of-due true internal (m, some e) = refl
result_of-due false internal (m, some e) = refl

module _ {M E : Type 0} (best_effort : Bool) (internal : Machine M E) where
  process_ans-carried :
      (f : Frame) (m : Bytes)
      → f.payload ≡ m ++ (13 ∷ 10 ∷ [])
      → m ≢ []
      → process_ans best_effort internal f ≡ due best_effort (internal.parse m) ∷ []
  unfolding process_ans
  process_ans-carried f [] e n = absurd (n refl)
  process_ans-carried f (b ∷ bs) e n =
      rw (e, trim_crlf-append (b ∷ bs))
        (ap (λ r. r ∷ []) (result_of-due best_effort internal (internal.parse (b ∷ bs))))

  handle-carried :
      (f : Frame) (m : Bytes)
      → f.typ ≡ ans
      → f.payload ≡ m ++ (13 ∷ 10 ∷ [])
      → m ≢ []
      → handle best_effort internal f ≡ (due best_effort (internal.parse m) ∷ [], true)
  unfolding process_ans
  handle-carried f m t e n = rw t (ap (λ x. (x, true)) (process_ans-carried f m e n))

  emitted-carried :
      (fs : List Frame) (ms : List Bytes)
      → Carries fs ms
      → emitted (handle best_effort internal) (report best_effort internal) fs
        ≡ map (λ m. due best_effort (internal.parse m)) ms
  unfolding emitted Carries
  emitted-carried [] [] h = refl
  emitted-carried [] (m ∷ ms) h = absurd h
  emitted-carried (f ∷ fs) [] h = absurd h
  emitted-carried (f ∷ fs) (m ∷ ms) (t, e, n, h) =
      rw (handle-carried f m t e n)
        (ap (λ x. due best_effort (internal.parse m) ∷ x) (emitted-carried fs ms h))

  -- On sound ANS frames alone, each with a message that is not empty and a CRLF for its payload,
  -- the machine is given the messages one by one and in order, without the CRLF. One result is
  -- emitted for each, which has the message and the error of the machine's answer, but no message
  -- if there is an error and best effort is off.
  pub parse-carried :
      (max : ℤ) (fs : List Frame) (ms : List Bytes)
      → All (IsSound (limit_of max)) fs
      → Carries fs ms
      → parse best_effort internal max (encode_all fs)
        ≡ some (map (λ m. due best_effort (internal.parse m)) ms)
  unfolding parse
  parse-carried max fs ms sound h =
      parse-encode_all (handle best_effort internal) (report best_effort internal) max fs sound
      ∙ ap some (emitted-carried fs ms h)
