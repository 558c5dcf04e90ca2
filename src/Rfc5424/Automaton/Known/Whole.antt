-- ===== src/Rfc5424/Automaton/Known/Whole.antt =====
-- That the run over the structured data of rfc5424/machine.go does not panic.
use go_syslog.Base.{ℕ, suc, Option, none, some, List, [], ◌∷◌, Bytes, ◌==◌}
use go_syslog.Base.Maps.{find}
use go_syslog.Rfc5424.Automaton.Fine.{Good, Fine, Fine-if}
use go_syslog.Rfc5424.Automaton.Steps.{Cursor, Step}
use go_syslog.Rfc5424.Automaton.StructuredData.{
  State, id_start, id, name, equals, value, param_start, value_end, element_end, Current, Move,
  next, leave, failed, broken, fail_id, fail_param_in, set_id_in, fail_value, step, finish, end_of,
  on_move, elements, after_nil, structured_data_at, structured_data,
}
use go_syslog.Rfc5424.Builder.Store.{Elements}
use go_syslog.Rfc5424.Grammar.{ValueState, ready, backslash}
use go_syslog.Rfc5424.Message.{Draft}
use go_syslog.Rfc5424.Automaton.Known.{Holds, MoveFine, step-Fine}

module _ {Time : Type 0} where
  end_param-Fine :
      (p : ℕ) (cur : Current) (out : Draft Time Elements) (o : Option (List (Bytes × Bytes)))
      → Fine Good (end_of p (fail_param_in cur out o))
  end_param-Fine p cur out none = tt
  end_param-Fine p cur out (some params) = tt

  end_id-Fine :
      (p : ℕ) (text : Bytes) (cur : Current) (out : Draft Time Elements)
      (o : Option (List (Bytes × Bytes)))
      → Fine Good (end_of p (set_id_in text cur out fail_id o))
  end_id-Fine p text cur out none = tt
  end_id-Fine p text cur out (some params) = tt

  end_value-Fine :
      (p : ℕ) (st : ValueState) (cur : Current) (out : Draft Time Elements)
      → Fine Good (end_of p (fail_value st cur out))
  end_value-Fine p ready cur out = tt
  end_value-Fine p backslash cur out = tt
  end_value-Fine p other cur out = end_param-Fine p cur out (find cur.elem out.structured_data)

  -- What holds at the end of the input.
  end_of-Fine :
      (st : State) (p : ℕ) (cur : Current) (out : Draft Time Elements)
      → Good out
      → Fine Good (end_of p (finish st cur out))
  unfolding finish
  end_of-Fine id_start p cur out g = tt
  end_of-Fine (id n text) p cur out g = end_id-Fine p text cur out (find text out.structured_data)
  end_of-Fine (value st pb text marks) p cur out g = end_value-Fine p st cur out
  end_of-Fine element_end p cur out g = g
  end_of-Fine param_start p cur out g = end_param-Fine p cur out (find cur.elem out.structured_data)
  end_of-Fine (name n text) p cur out g =
      end_param-Fine p cur out (find cur.elem out.structured_data)
  end_of-Fine equals p cur out g = end_param-Fine p cur out (find cur.elem out.structured_data)
  end_of-Fine value_end p cur out g = end_param-Fine p cur out (find cur.elem out.structured_data)

  on_move-Fine :
      (f : State → Current → Draft Time Elements → Step Time) (p : ℕ) (cs : Bytes) (m : Move Time)
      → MoveFine p m
      → ((st : State) (cur : Current) (out : Draft Time Elements)
          → Good out
          → Holds st (suc p) cur out
          → Fine Good (f st cur out))
      → Fine Good (on_move f p cs m)
  on_move-Fine f p cs (next st cur out) (g, h) k = k st cur out g h
  on_move-Fine f p cs (leave out) h k = h
  on_move-Fine f p cs (failed e out) h k = tt
  on_move-Fine f p cs broken h k = absurd h

  elements-Fine :
      (st : State) (p : ℕ) (cs : Bytes) (cur : Current) (out : Draft Time Elements)
      → Good out
      → Holds st p cur out
      → Fine Good (elements st p cs cur out)
  unfolding elements
  elements-Fine st p [] cur out g h = end_of-Fine st p cur out g
  elements-Fine st p (c ∷ cs) cur out g h =
      on_move-Fine (λ st' cur' out'. elements st' (suc p) cs cur' out') p cs (step st c p cur out)
        (step-Fine st c p cur out g h)
        (λ st' cur' out' g' h'. elements-Fine st' (suc p) cs cur' out' g' h')

  after_nil-Fine :
      (p : ℕ) (cs : Bytes) (out : Draft Time Elements) → Good out → Fine Good (after_nil p cs out)
  after_nil-Fine p [] out g = g
  after_nil-Fine p (c ∷ cs) out g = Fine-if Good (c == 32) _ _ g tt

  structured_data_at-Fine :
      (cur : Current) (p : ℕ) (cs : Bytes) (out : Draft Time Elements)
      → Good out
      → Fine Good (structured_data_at cur p cs out)
  structured_data_at-Fine cur p [] out g = tt
  structured_data_at-Fine cur p (c ∷ cs) out g =
      Fine-if Good (c == 45) _ _ (after_nil-Fine (suc p) cs out g)
        (Fine-if Good (c == 91) _ _ (elements-Fine id_start (suc p) cs cur _ g tt) tt)

  pub structured_data-Fine :
      (cur : Current) (c : Cursor Time) → Good c.output → Fine Good (structured_data cur c)
  unfolding structured_data
  structured_data-Fine cur c g = structured_data_at-Fine cur c.at c.rest c.output g
