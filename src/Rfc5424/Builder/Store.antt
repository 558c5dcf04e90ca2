-- ===== src/Rfc5424/Builder/Store.antt =====
-- The structured data of rfc5424/builder.go, a map of maps, and the actions that change it.
use go_syslog.Base.{ℕ, Option, none, some, List, [], ◌∷◌, Bytes}
use go_syslog.Base.Maps.{find, assign}
use go_syslog.Common.Escape.{remove_bytes}

-- `map[string]map[string]string`.
abbrev pub Elements : Type 0
Elements = List (Bytes × List (Bytes × Bytes))

-- The map, where the pointer to it is set.
abbrev pub elements_of : Option Elements → Elements
elements_of none = []
elements_of (some elements) = elements

-- The parameters of an element: a missing one is a nil map, which has none.
abbrev pub params_of : Option (List (Bytes × Bytes)) → List (Bytes × Bytes)
params_of none = []
params_of (some params) = params

-- `elements[id][name]`.
abbrev pub find_parameter : Bytes → Bytes → Elements → Option Bytes
find_parameter id name elements = find name (params_of (find id elements))

-- `if _, ok := elements[id]; !ok { elements[id] = map[string]string{} }`.
abbrev pub add_if : Bytes → Elements → Option (List (Bytes × Bytes)) → Elements
add_if id elements none = assign id [] elements
add_if id elements (some params) = elements

unfoldable pub add_element : Bytes → Elements → Elements
unfolding find assign
add_element id elements = add_if id elements (find id elements)

-- `elements[id][name] = value`, on the pointer to the map: a panic if it or the element is nil.
abbrev pub put_in :
    Bytes → Bytes → Bytes → Elements → Option (List (Bytes × Bytes)) → Option Elements
put_in id name value elements none = none
put_in id name value elements (some params) = some (assign id (assign name value params) elements)

unfoldable pub put : Bytes → Bytes → Bytes → Option Elements → Option Elements
unfolding find assign
put id name value none = none
put id name value (some elements) = put_in id name value elements (find id elements)

-- `if len(backslashes) > 0 { text = common.RemoveBytes(text, backslashes, pb) }`, with `pb` 0.
unfoldable pub strip_backslashes : List ℕ → Bytes → Option Bytes
unfolding remove_bytes
strip_backslashes [] text = some text
strip_backslashes (p ∷ ps) text = remove_bytes text (p ∷ ps) 0
