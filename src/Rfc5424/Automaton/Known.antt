-- ===== src/Rfc5424/Automaton/Known.antt =====
-- What the automaton of rfc5424/machine.go knows in the structured data: the element that it stores a
-- parameter in is there, so it does not panic.
pub mod Whole
use go_syslog.Base.{
  ℕ, zero, suc, ◌≡◌, refl, ◌∙◌, Option, none, some, List, [], ◌∷◌, Bytes, Bool, true, false,
  equal_iff, if◌then◌else◌, ◌==◌,
}
use go_syslog.Base.Maps.{find, assign, find-assign}
use go_syslog.Rfc5424.Automaton.Cleaned.{Cleaned, Cleaned-start, Cleaned-byte, Cleaned-mark}
use go_syslog.Rfc5424.Automaton.Fine.{Good, Fine, Fine-if}
use go_syslog.Rfc5424.Automaton.Steps.{Cursor, Step}
use go_syslog.Rfc5424.Automaton.StructuredData.{
  State, id_start, id, name, equals, value, param_start, value_end, element_end, Current, Move,
  next, leave, failed, broken, fail_id, fail_param, fail_param_in, set_id, set_id_in, stripped,
  set_param_value, fail_value, in_value, at_quote, id_byte, name_byte, step, finish, end_of,
  on_move, elements, after_nil, structured_data_at, structured_data,
}
use go_syslog.Common.Escape.{remove_bytes}
use go_syslog.Rfc5424.Builder.Laws.{put-find_parameter}
use go_syslog.Rfc5424.Builder.Store.{Elements}
use go_syslog.Rfc5424.Grammar.{sd_name_char, ValueState, ready, backslash, value_step}
use go_syslog.Rfc5424.Message.{Draft}

stripped-Cleaned :
    (pb p : ℕ) (text : Bytes) (marks : List ℕ)
    → Cleaned pb p text marks
    → (kept : Bytes) × (stripped pb text marks ≡ some kept)
stripped-Cleaned pb p text [] w = (text, refl)
stripped-Cleaned pb p text (m ∷ ms) w = (w.kept, unfold remove_bytes in w.removed)

module _ {Time : Type 0} where
  -- The current element is there.
  abbrev pub Found : Current → Draft Time Elements → Type 0
  Found cur out =
      (params : List (Bytes × Bytes)) × (find cur.elem out.structured_data ≡ some params)

  -- What holds in a state at a position.
  abbrev pub Holds : State → ℕ → Current → Draft Time Elements → Type 0
  Holds id_start p cur out = Unit
  Holds (id n text) p cur out = Unit
  Holds element_end p cur out = Unit
  Holds (value st pb text marks) p cur out = Found cur out × Cleaned pb p text marks
  Holds other p cur out = Found cur out

  -- A move that does not panic, and keeps what holds.
  abbrev pub MoveFine : ℕ → Move Time → Type 0
  MoveFine p (next st cur out) = Good out × Holds st (suc p) cur out
  MoveFine p (leave out) = Good out
  MoveFine p (failed k out) = Unit
  MoveFine p broken = ⊥

  MoveFine-if :
      (p : ℕ) (b : Bool) (x y : Move Time)
      → MoveFine p x
      → MoveFine p y
      → MoveFine p (if b then x else y)
  MoveFine-if p true x y h k = h
  MoveFine-if p false x y h k = k

  fail_param_in-Fine :
      (p : ℕ) (cur : Current) (out : Draft Time Elements) (o : Option (List (Bytes × Bytes)))
      → MoveFine p (fail_param_in cur out o)
  fail_param_in-Fine p cur out none = tt
  fail_param_in-Fine p cur out (some params) = tt

  fail_param-Fine :
      (p : ℕ) (cur : Current) (out : Draft Time Elements) → MoveFine p (fail_param cur out)
  fail_param-Fine p cur out = fail_param_in-Fine p cur out (find cur.elem out.structured_data)

  -- The element that is set is found.
  set_id_in-Fine :
      (p : ℕ) (text : Bytes) (cur : Current) (out : Draft Time Elements)
      (f : Current → Draft Time Elements → Move Time) (o : Option (List (Bytes × Bytes)))
      → Good out
      → ((cur : Current) (out : Draft Time Elements)
          → Good out
          → Found cur out
          → MoveFine p (f cur out))
      → MoveFine p (set_id_in text cur out f o)
  set_id_in-Fine p text cur out f (some params) g h = tt
  set_id_in-Fine p text cur out f none g h =
      h _ _ g
        ([], find-assign text text [] out.structured_data ∙ rw ((equal_iff text text).1 refl) refl)

  set_id-Fine :
      (p : ℕ) (text : Bytes) (cur : Current) (out : Draft Time Elements)
      (f : Current → Draft Time Elements → Move Time)
      → Good out
      → ((cur : Current) (out : Draft Time Elements)
          → Good out
          → Found cur out
          → MoveFine p (f cur out))
      → MoveFine p (set_id text cur out f)
  set_id-Fine p text cur out f g h =
      set_id_in-Fine p text cur out f (find text out.structured_data) g h

  set_param_value-Fine :
      (p pb : ℕ) (text : Bytes) (marks : List ℕ) (cur : Current) (out : Draft Time Elements)
      → Good out
      → Found cur out
      → Cleaned pb p text marks
      → MoveFine p (set_param_value pb text marks cur out)
  set_param_value-Fine p pb text marks cur out g (params, e) w =
      let (kept, d) = stripped-Cleaned pb p text marks w in
      let (after, a, b, rest) =
        put-find_parameter cur.elem cur.param kept out.structured_data params e in
      MoveFine-if p out.has_elements _ _ (rw (d, a) (g, (assign cur.param kept params, b)))
        (g, (params, e))

  fail_value-Fine :
      (p : ℕ) (st : ValueState) (cur : Current) (out : Draft Time Elements)
      → MoveFine p (fail_value st cur out)
  fail_value-Fine p ready cur out = tt
  fail_value-Fine p backslash cur out = tt
  fail_value-Fine p other cur out = fail_param-Fine p cur out

  in_value-Fine :
      (st : ValueState) (pb : ℕ) (text : Bytes) (marks : List ℕ) (c p : ℕ) (cur : Current)
      (out : Draft Time Elements) (o : Option (ValueState × Bool))
      → Good out
      → Found cur out
      → Cleaned pb p text marks
      → MoveFine p (in_value st pb text marks c p cur out o)
  in_value-Fine st pb text marks c p cur out none g f w = fail_value-Fine p st cur out
  in_value-Fine st pb text marks c p cur out (some (st', true)) g f w =
      (g, (f, Cleaned-mark pb p c text marks w))
  in_value-Fine st pb text marks c p cur out (some (st', false)) g f w =
      (g, (f, Cleaned-byte pb p c text marks w))

  at_quote-Fine :
      (st : ValueState) (pb : ℕ) (text : Bytes) (marks : List ℕ) (c p : ℕ) (cur : Current)
      (out : Draft Time Elements)
      → Good out
      → Found cur out
      → Cleaned pb p text marks
      → MoveFine p (at_quote st pb text marks c p cur out)
  at_quote-Fine ready pb text marks c p cur out g f w =
      MoveFine-if p (c == 34) _ _ (set_param_value-Fine p pb text marks cur out g f w)
        (in_value-Fine ready pb text marks c p cur out (value_step ready c) g f w)
  at_quote-Fine st pb text marks c p cur out g f w =
      in_value-Fine st pb text marks c p cur out (value_step st c) g f w

  id_byte-Fine :
      (n : ℕ) (text : Bytes) (c p : ℕ) (cur : Current) (out : Draft Time Elements)
      → Good out
      → MoveFine p (id_byte n text c cur out)
  id_byte-Fine zero text c p cur out g = set_id-Fine p text cur out fail_id g (λ cur out g f. tt)
  id_byte-Fine (suc n) text c p cur out g =
      MoveFine-if p (sd_name_char c) _ _ (g, tt)
        (set_id-Fine p text cur out fail_id g (λ cur out g f. tt))

  name_byte-Fine :
      (n : ℕ) (text : Bytes) (c p : ℕ) (cur : Current) (out : Draft Time Elements)
      → Good out
      → Found cur out
      → MoveFine p (name_byte n text c cur out)
  name_byte-Fine zero text c p cur out g f = fail_param-Fine p cur out
  name_byte-Fine (suc n) text c p cur out g f =
      MoveFine-if p (sd_name_char c) _ _ (g, f) (fail_param-Fine p cur out)

  pub step-Fine :
      (st : State) (c p : ℕ) (cur : Current) (out : Draft Time Elements)
      → Good out
      → Holds st p cur out
      → MoveFine p (step st c p cur out)
  unfolding step
  step-Fine id_start c p cur out g h = MoveFine-if p (sd_name_char c) _ _ (g, tt) tt
  step-Fine (id n text) c p cur out g h =
      MoveFine-if p (c == 32) _ _
        (set_id-Fine p text cur out (λ cur out. next param_start cur out) g (λ cur out g f. (g, f)))
        (MoveFine-if p (c == 93) _ _
          (set_id-Fine p text cur out (λ cur out. next element_end cur out) g
            (λ cur out g f. (g, tt)))
          (id_byte-Fine n text c p cur out g))
  step-Fine param_start c p cur out g h =
      MoveFine-if p (sd_name_char c) _ _ (g, h) (fail_param-Fine p cur out)
  step-Fine (name n text) c p cur out g h =
      MoveFine-if p (c == 61) _ _ (g, h) (name_byte-Fine n text c p cur out g h)
  step-Fine equals c p cur out g h =
      MoveFine-if p (c == 34) _ _ (g, (h, Cleaned-start (suc p))) (fail_param-Fine p cur out)
  step-Fine (value st pb text marks) c p cur out g (f, w) =
      at_quote-Fine st pb text marks c p cur out g f w
  step-Fine value_end c p cur out g h =
      MoveFine-if p (c == 32) _ _ (g, h)
        (MoveFine-if p (c == 93) _ _ (g, tt) (fail_param-Fine p cur out))
  step-Fine element_end c p cur out g h =
      MoveFine-if p (c == 32) _ _ g (MoveFine-if p (c == 91) _ _ (g, tt) tt)
