-- ===== src/Rfc5424/Builder/Tests.antt =====
-- Messages that are built and printed.
use go_syslog.Base.{
  ◌≡◌, refl, Option, none, some, List, [], ◌∷◌, ◌++◌, Bytes, codes, Bool, true, false, arith, equal,
  equal_iff,
}
use go_syslog.Auto.Detect.{detect}
use go_syslog.Auto.Format.{rfc5424}
use go_syslog.Base.Maps.{find}
use go_syslog.Common.{valid_priority, valid_version}
use go_syslog.Common.Escape.{escape_loop, remove_loop, escape_bytes}
use go_syslog.Common.Utf8.{IsUtf8, nil, one, two}
use go_syslog.Rfc5424.Grammar.{accepts, scan_value, ready, sd_id_field, sd_param_name_field}
use go_syslog.Rfc5424.Builder.{
  build, set_parameter, Operation, op_priority, op_version, op_hostname, op_parameter, op_message,
}
use go_syslog.Rfc5424.Builder.Bounds.{IsBuilt}
use go_syslog.Rfc5424.Builder.Detected.{string-detect}
use go_syslog.Rfc5424.Builder.Kept.{build-IsBuilt}
use go_syslog.Rfc5424.Builder.Laws.{
  replaced, updated, stored, set_parameter_lem, set_parameter-escape_bytes,
}
use go_syslog.Rfc5424.Builder.Order.{SameElements, SameParams, string-SameElements}
use go_syslog.Rfc5424.Builder.Print.{string}
use go_syslog.Rfc5424.Builder.Store.{
  add_element, put, strip_backslashes, Elements, elements_of, params_of, find_parameter,
}
use go_syslog.Rfc5424.Message.{SyslogMessage, valid}
use go_syslog.Syslog.Message.{empty}
use mathlib.Core.List.Perm

-- No text is a timestamp, and one is printed as the nil value.
abbrev no_time : Bytes → Option (Unit {0})
no_time text = none

abbrev print_nil : Unit {0} → Bytes
print_nil t = codes "-"

abbrev blank : SyslogMessage (Unit {0}) Elements
blank = record { base = empty; version = 0; structured_data = none }

blank-IsBuilt : IsBuilt blank
blank-IsBuilt = record {
  numbers = (tt, tt, tt);
  version = omega arith;
  fields = (tt, tt, tt, tt, tt);
  elements = tt;
}

-- `a"b]`, with an `é` behind it.
abbrev odd_value : Bytes
odd_value = codes "a\"b]" ++ (195 ∷ 169 ∷ [])

odd_value-IsUtf8 : IsUtf8 odd_value
odd_value-IsUtf8 = one 97 _ (omega arith) (
    one 34 _ (omega arith)
      (one 98 _ (omega arith) (one 93 _ (omega arith) (two 195 169 [] refl refl nil))))

abbrev chain : List Operation
chain =
    op_priority 34
    ∷ op_version 1
    ∷ op_hostname (codes "host")
    ∷ op_parameter (codes "id") (codes "b") (codes "x\\]")
    ∷ op_parameter (codes "id") (codes "a") (codes "y")
    ∷ op_message (codes "m")
    ∷ []

abbrev with_a_b : Elements
with_a_b = (codes "id", (codes "a", codes "y") ∷ (codes "b", codes "x]") ∷ []) ∷ []

abbrev with_b_a : Elements
with_b_a = (codes "id", (codes "b", codes "x]") ∷ (codes "a", codes "y") ∷ []) ∷ []

abbrev built : SyslogMessage (Unit {0}) Elements
built = record {
  base = record empty {
    priority = some 34;
    facility = some 4;
    severity = some 2;
    hostname = some (codes "host");
    message = some (codes "m");
  };
  version = 1;
  structured_data = some with_b_a;
}

build-chain : build no_time chain blank ≡ some built
unfolding build accepts add_element put strip_backslashes remove_loop
build-chain = refl

string-built : string print_nil built ≡ some (codes "<34>1 - host - - - [id a=\"y\" b=\"x\\]\"] m")
unfolding string valid_version valid_priority equal escape_loop
string-built = refl

build-IsBuilt_example :
    (after : SyslogMessage (Unit {0}) Elements) × (build no_time chain blank ≡ some after)
    × IsBuilt after
build-IsBuilt_example = build-IsBuilt no_time chain blank blank-IsBuilt

id_field : sd_id_field (codes "id") ≡ true
unfolding accepts
id_field = refl

name_field : sd_param_name_field (codes "a") ≡ true
unfolding accepts
name_field = refl

set_parameter_lem_example :
    (after : Elements) × (set_parameter no_time (codes "id") (codes "a") (codes "x\\]") built
      ≡ some (replaced built after))
    × ((i n : Bytes)
        → find_parameter i n after
          ≡ updated
              (codes "id")
              (codes "a")
              (stored (codes "x\\]") (scan_value ready 0 (codes "x\\]")))
              (elements_of built.structured_data)
              i
              n)
set_parameter_lem_example =
    set_parameter_lem no_time (codes "id") (codes "a") (codes "x\\]") built id_field name_field

set_parameter-escape_bytes_example :
    (after : Elements) × (set_parameter no_time
        (codes "id")
        (codes "a")
        (escape_bytes odd_value)
        blank
      ≡ some (replaced blank after))
    × (find_parameter (codes "id") (codes "a") after ≡ some odd_value)
set_parameter-escape_bytes_example =
    set_parameter-escape_bytes no_time (codes "id") (codes "a") odd_value blank id_field name_field
      odd_value-IsUtf8

built-valid : valid built ≡ true
unfolding valid valid_version valid_priority
built-valid = refl

string-detect_example : (out : Bytes) × (string print_nil built ≡ some out) × (detect out ≡ rfc5424)
string-detect_example = string-detect print_nil built 34 refl built-valid

same_params :
    SameParams
      ((codes "b", codes "x]") ∷ (codes "a", codes "y") ∷ [])
      ((codes "a", codes "y") ∷ (codes "b", codes "x]") ∷ [])
same_params = (
  Perm.swap (codes "a") (codes "b") [],
  λ k. unfold find in ground (arith, equal_iff (codes "b") k, equal_iff (codes "a") k),
)

same_element :
    (k : Bytes) (b : Bool)
    → b ≡ equal (codes "id") k
    → SameParams (params_of (find k with_b_a)) (params_of (find k with_a_b))
unfolding find
same_element k true e = rw⁻¹ e same_params
same_element k false e = rw⁻¹ e (Perm.nil, λ n. refl)

same_elements : SameElements with_b_a with_a_b
same_elements = (Perm.refl (codes "id" ∷ []), λ k. same_element k (equal (codes "id") k) refl)

string-SameElements_example :
    string print_nil (replaced built with_b_a) ≡ string print_nil (replaced built with_a_b)
string-SameElements_example = string-SameElements print_nil built with_b_a with_a_b same_elements
