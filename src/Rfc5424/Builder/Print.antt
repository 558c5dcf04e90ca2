-- ===== src/Rfc5424/Builder/Print.antt =====
-- `String` of rfc5424/builder.go; an error is `none`.
-- `time.Time.Format` is a parameter.
use go_syslog.Base.{
  ℕ, Option, none, some, List, [], ◌∷◌, ◌++◌, Bytes, codes, Bool, true, false, ◌==◌, ltb,
  if◌then◌else◌,
}
use go_syslog.Base.Maps.{find, keys}
use go_syslog.Common.Escape.{escape_bytes}
use go_syslog.Rfc5424.Builder.Store.{Elements, params_of}
use go_syslog.Rfc5424.Message.{SyslogMessage, valid}
use go_syslog.Strconv.Decimal.{decimal}

-- Go's `<=` on strings.
unfoldable pub at_most : Bytes → Bytes → Bool
at_most [] cs = true
at_most (b ∷ bs) [] = false
at_most (b ∷ bs) (c ∷ cs) = if b == c then at_most bs cs else ltb b c

-- `sort.Strings`.
unfoldable pub insert : Bytes → List Bytes → List Bytes
unfolding at_most
insert k [] = k ∷ []
insert k (j ∷ js) = if at_most k j then k ∷ j ∷ js else j ∷ insert k js

unfoldable pub sort : List Bytes → List Bytes
unfolding insert
sort [] = []
sort (k ∷ ks) = insert k (sort ks)

abbrev pub text_of : Option Bytes → Bytes
text_of none = []
text_of (some value) = value

-- ` name="value"` for each name.
unfoldable pub print_params : List (Bytes × Bytes) → List Bytes → Bytes
unfolding escape_bytes find
print_params params [] = []
print_params params (name ∷ names) =
    32
    ∷ (name
        ++ (61
            ∷ 34
            ∷ (escape_bytes (text_of (find name params)) ++ (34 ∷ print_params params names))))

abbrev pub print_element : Bytes → List (Bytes × Bytes) → Bytes
print_element id params = 91 ∷ (id ++ (print_params params (sort (keys params)) ++ (93 ∷ [])))

-- `[id name="value" ...]` for each id.
unfoldable pub print_elements : Elements → List Bytes → Bytes
unfolding print_params find sort
print_elements elements [] = []
print_elements elements (id ∷ ids) =
    print_element id (params_of (find id elements)) ++ print_elements elements ids

abbrev pub print_structured_data : Option Elements → Bytes
print_structured_data none = codes "-"
print_structured_data (some elements) = print_elements elements (sort (keys elements))

abbrev pub or_nil : Option Bytes → Bytes
or_nil none = codes "-"
or_nil (some s) = s

abbrev pub print_message : Option Bytes → Bytes
print_message none = []
print_message (some m) = 32 ∷ m

module _ {Time : Type 0} (format_time : Time → Bytes) where
  abbrev pub print_time : Option Time → Bytes
  print_time none = codes "-"
  print_time (some t) = format_time t

  -- What stands behind the version.
  abbrev pub print_rest : SyslogMessage Time Elements → Bytes
  print_rest sm =
      print_time sm.base.timestamp
      ++ (32
          ∷ (or_nil sm.base.hostname
              ++ (32
                  ∷ (or_nil sm.base.appname
                      ++ (32
                          ∷ (or_nil sm.base.proc_id
                              ++ (32
                                  ∷ (or_nil sm.base.msg_id
                                      ++ (32
                                          ∷ (print_structured_data sm.structured_data
                                              ++ print_message sm.base.message))))))))))

  abbrev pub print_valid : SyslogMessage Time Elements → Option ℕ → Option Bytes
  print_valid sm none = none
  print_valid sm (some priority) =
      if valid sm
      then some (60 ∷ (decimal priority ++ (62 ∷ (decimal sm.version ++ (32 ∷ print_rest sm)))))
      else none

  -- `String`.
  unfoldable pub string : SyslogMessage Time Elements → Option Bytes
  unfolding valid decimal print_elements sort
  string sm = print_valid sm sm.base.priority
