-- ===== src/Rfc5424/Builder/Kept.antt =====
-- That the operations of rfc5424/builder.go keep what it promises of a message.
use go_syslog.Base.{
  ℕ, ◌≡◌, ◌≢◌, refl, ap, ◌∙◌, inl, inr, Option, none, some, List, [], ◌∷◌, Bytes, Bool, true, false,
  Bool-cases, if◌then◌else◌, arith,
}
use mathlib.Core.Path.{subst}
use go_syslog.Base.Maps.{find}
use go_syslog.Rfc5424.Builder.{
  op_priority, op_version, op_timestamp, op_hostname, op_appname, op_proc_id, op_msg_id,
  op_element_id, op_message, op_parameter, set_priority, set_version, Operation, set, perform,
  build, set_with_ctx, set_value, set_name, store_value, store_time, set_parameter, Entrypoint,
  timestamp, hostname, appname, procid, msgid, sdid, sdpn, sdpv, msg, with_base, if_found,
  with_elements, ◌>>=◌,
}
use go_syslog.Rfc5424.Builder.Laws.{replaced, set_parameter-total}
use go_syslog.Rfc5424.Builder.Store.{Elements, elements_of, strip_backslashes, add_element, put}
use go_syslog.Rfc5424.Grammar.{
  timestamp_field, hostname_field, appname_field, proc_id_field, msg_id_field, sd_id_field,
  sd_param_name_field, ready, scan_value, graph, sd_name_char,
}
use go_syslog.Rfc5424.Message.{SyslogMessage}
use go_syslog.Syslog.Message.{Base, compute_from_priority}
use go_syslog.Common.{valid_priority, valid_version, in_between}
use go_syslog.Rfc5424.Builder.Bounds.{
  find_parameter-IsName, accepts-IsField, IsName, AreElements, Every, IsBuilt, InRange, AreFields,
  elements_of-AreElements, add_element-AreElements, put-AreElements, Every-unless_nil,
  Every-set_text,
}

module _ {Time : Type 0} where
  -- A result that is no panic is built.
  abbrev Keeps : Option (SyslogMessage Time Elements) → Type 0
  Keeps o = (after : SyslogMessage Time Elements) → o ≡ some after → IsBuilt after

  Keeps-some : (sm : SyslogMessage Time Elements) → IsBuilt sm → Keeps (some sm)
  Keeps-some sm w after e = subst IsBuilt (ground (arith, e)) w

  Keeps-if :
      (b : Bool) (x y : Option (SyslogMessage Time Elements))
      → (b ≡ true → Keeps x)
      → Keeps y
      → Keeps (if b then x else y)
  Keeps-if true x y f g = f refl
  Keeps-if false x y f g = g

  IsBuilt-if :
      (b : Bool) (x y : SyslogMessage Time Elements)
      → (b ≡ true → IsBuilt x)
      → IsBuilt y
      → IsBuilt (if b then x else y)
  IsBuilt-if true x y f g = f refl
  IsBuilt-if false x y f g = g

  Keeps-bind :
      (o : Option (SyslogMessage Time Elements))
      (f : SyslogMessage Time Elements → Option (SyslogMessage Time Elements))
      → Keeps o
      → ((sm : SyslogMessage Time Elements) → IsBuilt sm → Keeps (f sm))
      → Keeps (o >>= f)
  Keeps-bind none f h k = λ after e. absurd (ground arith)
  Keeps-bind (some sm) f h k = k sm (h sm refl)

  Keeps-found :
      {V : Type 0} (o : Option V)
      (f : SyslogMessage Time Elements → Option (SyslogMessage Time Elements))
      (sm : SyslogMessage Time Elements)
      → IsBuilt sm
      → ((v : V) → o ≡ some v → Keeps (f sm))
      → Keeps (if_found o f sm)
  Keeps-found none f sm w k = Keeps-some sm w
  Keeps-found (some v) f sm w k = k v refl

  IsBuilt-replaced :
      (sm : SyslogMessage Time Elements) (els : Elements)
      → IsBuilt sm
      → AreElements els
      → IsBuilt (replaced sm els)
  IsBuilt-replaced sm els w h = record {
    numbers = w.numbers;
    version = w.version;
    fields = w.fields;
    elements = h;
  }

  Keeps-with :
      (sm : SyslogMessage Time Elements) (o : Option Elements)
      → IsBuilt sm
      → ((els : Elements) → o ≡ some els → AreElements els)
      → Keeps (with_elements sm o)
  Keeps-with sm none w h = λ after e. absurd (ground arith)
  Keeps-with sm (some els) w h =
      Keeps-some (replaced sm els) (IsBuilt-replaced sm els w (h els refl))

  -- An assignment to a parameter with a valid name.
  Keeps-put :
      (id name value : Bytes) (sm : SyslogMessage Time Elements) (o : Option Elements)
      → IsBuilt sm
      → IsName name
      → sm.structured_data ≡ o
      → Keeps (with_elements sm (put id name value o))
  Keeps-put id name value sm none w n e = λ after d. absurd (unfold put in ground arith)
  Keeps-put id name value sm (some els) w n e =
      Keeps-with sm (put id name value (some els)) w (λ after d.
        put-AreElements id name value els after n (subst (Every AreElements) e w.elements) d)

  IsBuilt-fields :
      (sm : SyslogMessage Time Elements) (b : Base Time)
      → IsBuilt sm
      → InRange b
      → AreFields b
      → IsBuilt (with_base sm b)
  IsBuilt-fields sm b w n f = record {
    numbers = n;
    version = w.version;
    fields = f;
    elements = w.elements;
  }

  Keeps-store :
      (id name : Bytes) (sm : SyslogMessage Time Elements) (o : Option Bytes)
      → IsBuilt sm
      → IsName name
      → Keeps (store_value id name sm o)
  Keeps-store id name sm none w n = λ after e. absurd (ground arith)
  Keeps-store id name sm (some text) w n = Keeps-put id name text sm sm.structured_data w n refl

  IsBuilt-store_time :
      (sm : SyslogMessage Time Elements) (o : Option Time) → IsBuilt sm → IsBuilt (store_time sm o)
  IsBuilt-store_time sm none w = w
  IsBuilt-store_time sm (some t) w = IsBuilt-fields sm _ w w.numbers w.fields

  module _ (parse_time : Bytes → Option Time) where
    -- A value for a parameter with a valid name.
    Keeps-value :
        (id name value : Bytes) (sm : SyslogMessage Time Elements) (r : Option (List ℕ))
        → IsBuilt sm
        → IsName name
        → Keeps (set_value id name value sm r)
    Keeps-value id name value sm none w n = Keeps-some sm w
    Keeps-value id name value sm (some ps) w n =
        Keeps-store id name sm (strip_backslashes ps value) w n

    Keeps-set_with_ctx :
        (from : Entrypoint) (value id name : Bytes) (sm : SyslogMessage Time Elements)
        → IsBuilt sm
        → (from ≡ sdpv → IsName name)
        → Keeps (set_with_ctx parse_time from value id name sm)
    unfolding set_with_ctx
    Keeps-set_with_ctx timestamp value id name sm w n = Keeps-some _ (
        IsBuilt-if (timestamp_field value) _ sm (λ y. IsBuilt-store_time sm (parse_time value) w) w)
    Keeps-set_with_ctx hostname value id name sm w n =
        let (h, a, p, i, m) = w.fields in
        Keeps-some _ (
          IsBuilt-if (hostname_field value) _ sm
            (λ y.
              IsBuilt-fields sm _ w w.numbers (Every-unless_nil graph 255 value _ y h, a, p, i, m))
            w)
    Keeps-set_with_ctx appname value id name sm w n =
        let (h, a, p, i, m) = w.fields in
        Keeps-some _ (
          IsBuilt-if (appname_field value) _ sm
            (λ y.
              IsBuilt-fields sm _ w w.numbers (h, Every-unless_nil graph 48 value _ y a, p, i, m))
            w)
    Keeps-set_with_ctx procid value id name sm w n =
        let (h, a, p, i, m) = w.fields in
        Keeps-some _ (
          IsBuilt-if (proc_id_field value) _ sm
            (λ y.
              IsBuilt-fields sm _ w w.numbers (h, a, Every-unless_nil graph 128 value _ y p, i, m))
            w)
    Keeps-set_with_ctx msgid value id name sm w n =
        let (h, a, p, i, m) = w.fields in
        Keeps-some _ (
          IsBuilt-if (msg_id_field value) _ sm
            (λ y.
              IsBuilt-fields sm _ w w.numbers (h, a, p, Every-unless_nil graph 32 value _ y i, m))
            w)
    Keeps-set_with_ctx sdid value id name sm w n =
        Keeps-if (sd_id_field value) _ (some sm)
          (λ y. Keeps-some _ (
            IsBuilt-replaced sm (add_element value (elements_of sm.structured_data)) w (
              add_element-AreElements value (elements_of sm.structured_data)
                (accepts-IsField sd_name_char 32 value y)
                (elements_of-AreElements sm.structured_data w.elements))))
          (Keeps-some sm w)
    Keeps-set_with_ctx sdpn value id name sm w n =
        Keeps-if (sd_param_name_field value) _ (some sm)
          (λ y.
            Keeps-put id value [] sm sm.structured_data w (accepts-IsField sd_name_char 32 value y)
              refl)
          (Keeps-some sm w)
    Keeps-set_with_ctx sdpv value id name sm w n =
        Keeps-value id name value sm (scan_value ready 0 value) w (n refl)
    Keeps-set_with_ctx msg value id name sm w n =
        let (h, a, p, i, m) = w.fields in
        Keeps-some _ (IsBuilt-fields sm _ w w.numbers (h, a, p, i, Every-set_text value _ m))

    Keeps-set :
        (from : Entrypoint) (value : Bytes) (sm : SyslogMessage Time Elements)
        → IsBuilt sm
        → from ≢ sdpv
        → Keeps (set parse_time from value sm)
    Keeps-set from value sm w n = Keeps-set_with_ctx from value [] [] sm w (λ e. absurd (n e))

    Keeps-set_name :
        (id name value : Bytes) (sm : SyslogMessage Time Elements)
        → IsBuilt sm
        → Keeps (set_name parse_time id name value sm)
    Keeps-set_name id name value sm w =
        Keeps-bind _ _ (Keeps-set_with_ctx sdpn name id [] sm w cc) (λ sm w.
          Keeps-found _ _ sm w (λ v e. Keeps-set_with_ctx sdpv value id name sm w (λ _.
            find_parameter-IsName id name v (elements_of sm.structured_data)
              (elements_of-AreElements sm.structured_data w.elements) e)))

    Keeps-set_parameter :
        (id name value : Bytes) (sm : SyslogMessage Time Elements)
        → IsBuilt sm
        → Keeps (set_parameter parse_time id name value sm)
    unfolding set_parameter
    Keeps-set_parameter id name value sm w = Keeps-bind _ _ (Keeps-set sdid id sm w cc) (λ sm w.
        Keeps-found (find id (elements_of sm.structured_data)) (set_name parse_time id name value)
          sm w (λ v e. Keeps-set_name id name value sm w))

    IsBuilt-set_priority :
        (p : ℕ) (sm : SyslogMessage Time Elements) → IsBuilt sm → IsBuilt (set_priority p sm)
    unfolding set_priority compute_from_priority valid_priority in_between
    IsBuilt-set_priority p sm w =
        IsBuilt-if (valid_priority p) _ sm (λ y. IsBuilt-fields sm _ w (ground arith) w.fields) w

    IsBuilt-set_version :
        (v : ℕ) (sm : SyslogMessage Time Elements) → IsBuilt sm → IsBuilt (set_version v sm)
    unfolding set_version valid_version in_between
    IsBuilt-set_version v sm w =
        IsBuilt-if (valid_version v) _ sm
          (λ y. record {
            numbers = w.numbers;
            version = ground arith;
            fields = w.fields;
            elements = w.elements;
          })
          w

    Keeps-perform :
        (op : Operation) (sm : SyslogMessage Time Elements)
        → IsBuilt sm
        → Keeps (perform parse_time op sm)
    unfolding perform
    Keeps-perform (op_priority p) sm w = Keeps-some _ (IsBuilt-set_priority p sm w)
    Keeps-perform (op_version v) sm w = Keeps-some _ (IsBuilt-set_version v sm w)
    Keeps-perform (op_timestamp value) sm w = Keeps-set timestamp value sm w cc
    Keeps-perform (op_hostname value) sm w = Keeps-set hostname value sm w cc
    Keeps-perform (op_appname value) sm w = Keeps-set appname value sm w cc
    Keeps-perform (op_proc_id value) sm w = Keeps-set procid value sm w cc
    Keeps-perform (op_msg_id value) sm w = Keeps-set msgid value sm w cc
    Keeps-perform (op_element_id value) sm w = Keeps-set sdid value sm w cc
    Keeps-perform (op_message value) sm w = Keeps-set msg value sm w cc
    Keeps-perform (op_parameter id name value) sm w = Keeps-set_parameter id name value sm w

    perform-total :
        (op : Operation) (sm : SyslogMessage Time Elements)
        → (after : SyslogMessage Time Elements) × (perform parse_time op sm ≡ some after)
    unfolding perform set_with_ctx
    perform-total (op_element_id value) sm = elim (Bool-cases (sd_id_field value)) [
      | inl y ↦ (replaced sm (add_element value (elements_of sm.structured_data)), rw y refl)
      | inr n ↦ (sm, rw n refl)
    ]
    perform-total (op_parameter id name value) sm = set_parameter-total parse_time id name value sm
    perform-total other sm = (_, refl)

    -- A chain of calls never panics, and what it leaves of a message is in bounds if the message was.
    pub build-IsBuilt :
        (ops : List Operation) (sm : SyslogMessage Time Elements)
        → IsBuilt sm
        → (after : SyslogMessage Time Elements) × (build parse_time ops sm ≡ some after)
          × IsBuilt after
    unfolding build
    build-IsBuilt [] sm w = (sm, refl, w)
    build-IsBuilt (op ∷ ops) sm w =
        let (mid, e) = perform-total op sm in
        let (after, d, v) = build-IsBuilt ops mid (Keeps-perform op sm w mid e) in
        (after, ap (λ o. o >>= build parse_time ops) e ∙ d, v)
