-- ===== src/Nontransparent/Framer/Messages.antt =====
-- What nontransparent/parser.go emits for a stream of messages.
use go_syslog.Base.{
  ℕ, ◌≡◌, ◌≢◌, refl, sym, ap, ◌∙◌, Option, none, some, List, [], ◌∷◌, ◌++◌, map, Bytes, Bool, true,
  false, ◌==◌, All, arith, append-nil, append_assoc,
}
use go_syslog.Base.Int.{pos, negsuc}
use go_syslog.Syslog.{Machine, Result}
use go_syslog.Nontransparent.Trailer.{TrailerType, value}
use go_syslog.Nontransparent.Framer.{
  read_error, State, start, error, body, trailer, FramerError, at_trailer, transition, exec, go_on,
  prepend, Call, exec_call, on_err_call, on_completion_call, Session, unfinished, last_result,
  on_completion, call, serve,
}
use go_syslog.Base.{==_iff, zero, suc}
use go_syslog.Nontransparent.Framer.Lines.{
  handed, ne-false, IsLine, framer, outcome, process_candidate-snoc, inside_byte, exec-body,
  at_trailer-value,
}

-- A message: the bytes behind its `<` up to the first trailer, and the lines that follow.
pub record Message : Type 0 where
  pub head : Bytes
  pub more : List Bytes

-- The lines behind the first, each with the trailer in front of it.
unfoldable pub lines : ℕ → List Bytes → Bytes
lines b [] = []
lines b (l ∷ ls) = b ∷ (l ++ lines b ls)

-- The message as the machine is to see it.
abbrev pub text : ℕ → Message → Bytes
text b m = 60 ∷ (m.head ++ lines b m.more)

abbrev pub starts : Bytes → Bool
starts [] = false
starts (c ∷ cs) = c == 60

-- A line that goes on with a message.
abbrev pub IsMore : ℕ → Bytes → Type 0
IsMore b l = IsLine b l × (starts l ≡ false)

abbrev pub IsMessage : ℕ → Message → Type 0
IsMessage b m = IsLine b m.head × All (IsMore b) m.more

-- The calls of `Exec` for a message, one for each of its lines.
abbrev line_calls : {R : Type 0} → ℕ → List Bytes → List (Call R)
line_calls b [] = []
line_calls b (l ∷ ls) = exec_call (l ++ (b ∷ [])) ∷ line_calls b ls

abbrev pub message_calls : {R : Type 0} → ℕ → Message → List (Call R)
message_calls b m = exec_call ((60 ∷ m.head) ++ (b ∷ [])) ∷ line_calls b m.more

abbrev pub stream_calls : {R : Type 0} → ℕ → List Message → List (Call R)
stream_calls b [] = []
stream_calls b (m ∷ ms) = message_calls b m ++ stream_calls b ms

-- How a stream ends: with its last message, or with a chunk that lacks its trailer and an error
-- of the reader.
pub data Ending (R : Type 0) : Type 0 where
  complete : Ending R
  cut_off : Bytes → R → Ending R

abbrev pub ending_calls : {R : Type 0} → Ending R → List (Call R)
ending_calls complete = on_completion_call ∷ []
ending_calls (cut_off chunk e) = on_err_call chunk e ∷ on_completion_call ∷ []

-- What the listener is handed for a chunk that is cut off: the answer of the machine, or just the
-- error of the reader if the machine reports none and best effort is off.
abbrev pub handed_cut_off :
    {M E R : Type 0} → Bool → R → Option M × Option E → Result M (FramerError E R)
handed_cut_off true e answer = handed answer
handed_cut_off false e (m, some x) = handed (m, some x)
handed_cut_off false e (m, none) = record { message = none; error = some (read_error e) }

unfinished-handed_cut_off :
    {M E R : Type 0} (best : Bool) (e : R) (a : Option M × Option E)
    → unfinished best e a ≡ handed_cut_off best e a
unfinished-handed_cut_off true e (m, none) = refl
unfinished-handed_cut_off true e (m, some x) = refl
unfinished-handed_cut_off false e (m, none) = refl
unfinished-handed_cut_off false e (m, some x) = refl

value-ne-lt : (t : TrailerType) (b : ℕ) → value t ≡ some b → (b == 60) ≡ false
value-ne-lt (pos zero) b h = ground arith
value-ne-lt (pos (suc zero)) b h = ground arith
value-ne-lt (pos (suc (suc n))) b h = cc
value-ne-lt (negsuc n) b h = cc

serve-append :
    {M E R : Type 0} (cs ds : List (Call R)) (s : Session M E R)
    → serve (cs ++ ds) s
      ≡ ((serve cs s).0 ++ (serve ds (serve cs s).1).0, (serve ds (serve cs s).1).1)
unfolding serve
serve-append [] ds s = refl
serve-append (c ∷ cs) ds s =
    ap (λ x. ((call c s).0 ++ x.0, x.1)) (serve-append cs ds (call c s).1)
    ∙ ap (λ o. (o, (serve ds (serve cs (call c s).1).1).1))
        (sym (
          append_assoc (call c s).0 (serve cs (call c s).1).0
            (serve ds (serve cs (call c s).1).1).0))

module _ {M E R : Type 0} (typ : TrailerType) (b : ℕ) (internal : Machine M E) where
  abbrev pub session : State → Bytes → Option R → Bytes → Session M E R
  session st cand failed last = record {
    state = st;
    machine = framer typ b internal cand failed last;
  }

  -- A line that does not start a message is added to the candidate.
  exec-more :
      (chunk l cand : Bytes) (failed : Option R) (last : Bytes)
      → value typ ≡ some b
      → IsMore b l
      → exec chunk trailer (l ++ (b ∷ [])) (framer typ b internal cand failed last) ≡ record {
        emitted = [];
        state = trailer;
        rest = [];
        after = framer typ b internal (cand ++ chunk) failed last;
      }
  unfolding exec
  exec-more chunk [] cand failed last v (h, s) =
      inside_byte typ b internal trailer b chunk [] cand failed last true
        (ap
          (λ x.
            transition trailer x (at_trailer typ b) chunk (framer typ b internal cand failed last))
          (value-ne-lt typ b v))
        (at_trailer-value typ b b v ∙ (==_iff b b).1 refl)
  exec-more chunk (c ∷ l) cand failed last v ((n, h), s) =
      inside_byte typ b internal trailer c chunk (l ++ (b ∷ [])) cand failed last false
        (ap
          (λ x.
            transition trailer x (at_trailer typ c) chunk (framer typ b internal cand failed last))
          s)
        (at_trailer-value typ b c v ∙ ne-false n)
      ∙ exec-body typ b internal chunk l cand failed last v h

  -- A line that starts a message closes the one before.
  exec-next :
      (chunk l m : Bytes) (failed : Option R) (last : Bytes)
      → value typ ≡ some b
      → IsLine b l
      → exec chunk trailer
          (60 ∷ (l ++ (b ∷ [])))
          (framer typ b internal (m ++ (b ∷ [])) failed last)
        ≡ record {
          emitted = outcome typ b internal m ∷ [];
          state = trailer;
          rest = [];
          after = framer typ b internal chunk failed last;
        }
  unfolding exec
  exec-next chunk l m failed last v h =
      ap (λ x. prepend x.0 (exec chunk body (l ++ (b ∷ [])) (record x.1 { candidate = [] })))
        (process_candidate-snoc typ b internal m failed last)
      ∙ ap (prepend (outcome typ b internal m ∷ []))
          (exec-body typ b internal chunk l [] failed last v h)

  exec-first :
      (chunk l : Bytes) (failed : Option R) (last : Bytes)
      → value typ ≡ some b
      → IsLine b l
      → exec chunk start (60 ∷ (l ++ (b ∷ []))) (framer typ b internal [] failed last) ≡ record {
        emitted = [];
        state = trailer;
        rest = [];
        after = framer typ b internal chunk failed last;
      }
  unfolding exec
  exec-first chunk l failed last v h = exec-body typ b internal chunk l [] failed last v h

  serve-lines :
      (ls : List Bytes) (t : Bytes)
      → value typ ≡ some b
      → All (IsMore b) ls
      → serve (line_calls b ls) (session trailer (t ++ (b ∷ [])) none [])
        ≡ ([], session trailer ((t ++ lines b ls) ++ (b ∷ [])) none [])
  unfolding serve lines
  serve-lines [] t v h =
      ap (λ x. ([], session trailer (x ++ (b ∷ [])) none [])) (sym (append-nil t))
  serve-lines (l ∷ ls) t v (h, hs) =
      ap
        (λ x.
          let s : Session M E R = record { state = x.state; machine = x.after } in
          (x.emitted ++ (serve (line_calls b ls) s).0, (serve (line_calls b ls) s).1))
        (exec-more (l ++ (b ∷ [])) l (t ++ (b ∷ [])) none [] v h)
      ∙ ap (λ c. serve (line_calls b ls) (session trailer c none [])) (regroup t l)
      ∙ serve-lines ls (t ++ (b ∷ l)) v hs
      ∙ ap (λ x. ([], session trailer (x ++ (b ∷ [])) none []))
          (append_assoc t (b ∷ l) (lines b ls))
    where
      regroup : (t l : Bytes) → (t ++ (b ∷ [])) ++ (l ++ (b ∷ [])) ≡ (t ++ (b ∷ l)) ++ (b ∷ [])
      regroup t l = append_assoc t (b ∷ []) (l ++ (b ∷ [])) ∙ sym (append_assoc t (b ∷ l) (b ∷ []))

  -- A message behind another one.
  serve-message :
      (m : Message) (t : Bytes)
      → value typ ≡ some b
      → IsMessage b m
      → serve (message_calls b m) (session trailer (t ++ (b ∷ [])) none [])
        ≡ (outcome typ b internal t ∷ [], session trailer (text b m ++ (b ∷ [])) none [])
  unfolding serve
  serve-message m t v (h, hs) =
      ap
        (λ x.
          let s : Session M E R = record { state = x.state; machine = x.after } in
          (x.emitted ++ (serve (line_calls b m.more) s).0, (serve (line_calls b m.more) s).1))
        (exec-next ((60 ∷ m.head) ++ (b ∷ [])) m.head t none [] v h)
      ∙ ap (λ x. (outcome typ b internal t ∷ x.0, x.1)) (serve-lines m.more (60 ∷ m.head) v hs)

  serve-first :
      (m : Message)
      → value typ ≡ some b
      → IsMessage b m
      → serve (message_calls b m) (session start [] none [])
        ≡ ([], session trailer (text b m ++ (b ∷ [])) none [])
  unfolding serve
  serve-first m v (h, hs) =
      ap
        (λ x.
          let s : Session M E R = record { state = x.state; machine = x.after } in
          (x.emitted ++ (serve (line_calls b m.more) s).0, (serve (line_calls b m.more) s).1))
        (exec-first ((60 ∷ m.head) ++ (b ∷ [])) m.head none [] v h)
      ∙ serve-lines m.more (60 ∷ m.head) v hs

  -- Messages behind a message, whose text is `t`, and what ends the stream.
  serve-stream :
      (ms : List Message) (t : Bytes) (ds : List (Call R))
      (later : List (Result M (FramerError E R)))
      → value typ ≡ some b
      → All (IsMessage b) ms
      → ((u : Bytes)
          → (serve ds (session trailer (u ++ (b ∷ [])) none [])).0
            ≡ outcome typ b internal u ∷ later)
      → (serve (stream_calls b ms ++ ds) (session trailer (t ++ (b ∷ [])) none [])).0
        ≡ map (outcome typ b internal) (t ∷ map (text b) ms) ++ later
  serve-stream [] t ds later v h ends = ends t
  serve-stream (m ∷ ms) t ds later v (h, hs) ends =
      ap (λ cs. (serve cs (session trailer (t ++ (b ∷ [])) none [])).0)
        (append_assoc (message_calls b m) (stream_calls b ms) ds)
      ∙ ap (λ x. x.0)
          (serve-append (message_calls b m) (stream_calls b ms ++ ds)
            (session trailer (t ++ (b ∷ [])) none []))
      ∙ ap (λ x. x.0 ++ (serve (stream_calls b ms ++ ds) x.1).0) (serve-message m t v h)
      ∙ ap (λ o. outcome typ b internal t ∷ o) (serve-stream ms (text b m) ds later v hs ends)

  abbrev pub ending_results : Ending R → List (Result M (FramerError E R))
  ending_results complete = []
  ending_results (cut_off [] e) = []
  ending_results (cut_off (c ∷ cs) e) =
      handed_cut_off internal.has_best_effort e (internal.parse (c ∷ cs)) ∷ []

  last_result-cut_off :
      (c : ℕ) (cs : Bytes) (e : R) (cand : Bytes) (failed : Option R) (last : Bytes)
      → last_result (some e) (c ∷ cs) (framer typ b internal cand failed last)
        ≡ ending_results (cut_off (c ∷ cs) e)
  last_result-cut_off c cs e cand failed last =
      ap (λ r. r ∷ [])
        (unfinished-handed_cut_off internal.has_best_effort e (internal.parse (c ∷ cs)))

  on_completion-snoc :
      (u : Bytes) (failed : Option R) (last : Bytes)
      → (on_completion (framer typ b internal (u ++ (b ∷ [])) failed last)).0
        ≡ outcome typ b internal u ∷ last_result failed last (framer typ b internal u failed last)
  unfolding on_completion
  on_completion-snoc u failed last =
      ap (λ x. x.0 ++ last_result x.1.failed x.1.last_chunk x.1)
        (process_candidate-snoc typ b internal u failed last)

  serve-ending :
      (end : Ending R) (u : Bytes)
      → (serve (ending_calls end) (session trailer (u ++ (b ∷ [])) none [])).0
        ≡ outcome typ b internal u ∷ ending_results end
  unfolding serve
  serve-ending complete u =
      append-nil (on_completion (framer typ b internal (u ++ (b ∷ [])) none [])).0
      ∙ on_completion-snoc u none []
  serve-ending (cut_off [] e) u =
      append-nil (on_completion (framer typ b internal (u ++ (b ∷ [])) (some e) [])).0
      ∙ on_completion-snoc u (some e) []
  serve-ending (cut_off (c ∷ cs) e) u =
      append-nil (on_completion (framer typ b internal (u ++ (b ∷ [])) (some e) (c ∷ cs))).0
      ∙ on_completion-snoc u (some e) (c ∷ cs)
      ∙ ap (λ l. outcome typ b internal u ∷ l) (last_result-cut_off c cs e u (some e) (c ∷ cs))

  -- On messages whose first line starts with `<` and whose other lines do not, handed over line by
  -- line with the trailer behind each line, the listener gets the machine's answer to each message,
  -- in order, with the trailers inside it and without the last one. If the stream is cut off in
  -- another chunk that is not empty, the answer to that follows, or the reader's error alone in
  -- its place if the answer has no error and best effort is off.
  pub serve-messages :
      (m : Message) (ms : List Message) (end : Ending R)
      → value typ ≡ some b
      → All (IsMessage b) (m ∷ ms)
      → (serve (stream_calls b (m ∷ ms) ++ ending_calls end) (session start [] none [])).0
        ≡ map (outcome typ b internal) (map (text b) (m ∷ ms)) ++ ending_results end
  serve-messages m ms end v (h, hs) =
      let ds = ending_calls end in
      ap (λ cs. (serve cs (session start [] none [])).0)
        (append_assoc (message_calls b m) (stream_calls b ms) ds)
      ∙ ap (λ x. x.0)
          (serve-append (message_calls b m) (stream_calls b ms ++ ds) (session start [] none []))
      ∙ ap (λ x. x.0 ++ (serve (stream_calls b ms ++ ds) x.1).0) (serve-first m v h)
      ∙ serve-stream ms (text b m) ds (ending_results end) v hs (serve-ending end)

  serve-error :
      (chunks : List Bytes) (end : Ending R)
      → (serve (map (λ d. exec_call d) chunks ++ ending_calls end) (session error [] none [])).0
        ≡ ending_results end
  unfolding serve exec on_completion
  serve-error [] complete = refl
  serve-error [] (cut_off [] e) = refl
  serve-error [] (cut_off (c ∷ cs) e) = last_result-cut_off c cs e [] (some e) (c ∷ cs)
  serve-error ([] ∷ chunks) end = serve-error chunks end
  serve-error ((c ∷ cs) ∷ chunks) end = serve-error chunks end

  -- If the first chunk does not start with `<`, no chunk is emitted, whatever the others are: all
  -- that can be is one that is cut off.
  pub serve-lost :
      (c : ℕ) (cs : Bytes) (chunks : List Bytes) (end : Ending R)
      → c ≢ 60
      → (serve
          (map (λ d. exec_call d) ((c ∷ cs) ∷ chunks) ++ ending_calls end)
          (session start [] none [])).0
        ≡ ending_results end
  unfolding serve exec
  serve-lost c cs chunks end h =
      ap
        (λ lt.
          let x =
            go_on (λ st' m'. exec (c ∷ cs) st' cs m') (c ∷ cs)
              (transition start lt (at_trailer typ c) (c ∷ cs)
                (framer typ b internal [] none [])) in
          x.emitted
          ++ (serve (map (λ d. exec_call d) chunks ++ ending_calls end)
              (record { state = x.state; machine = x.after })).0)
        (ne-false h)
      ∙ serve-error chunks end
