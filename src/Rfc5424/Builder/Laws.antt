-- ===== src/Rfc5424/Builder/Laws.antt =====
-- `SetParameter` of rfc5424/builder.go.
use go_syslog.Base.{
  ℕ, ◌≡◌, refl, sym, ap, ◌∙◌, inl, inr, Option, none, some, List, [], Bytes, true, Bool-cases,
  equal, equal_iff, ◌&&◌, if◌then◌else◌, arith,
}
use go_syslog.Base.Maps.{find, assign, find-assign}
use go_syslog.Rfc5424.Builder.{set_parameter, set_value, set_name, if_found, set_with_ctx, sdpv}
use go_syslog.Rfc5424.Builder.Store.{
  Elements, elements_of, find_parameter, params_of, add_if, add_element, put,
}
use go_syslog.Rfc5424.Builder.Values.{
  unescaped, strip_backslashes-unescaped, scan_value-escape_bytes, unescaped-escape_bytes,
}
use go_syslog.Common.Utf8.{IsUtf8}
use go_syslog.Common.Escape.{escape_bytes}
use go_syslog.Rfc5424.Grammar.{sd_id_field, sd_param_name_field, ready, scan_value}
use go_syslog.Rfc5424.Message.{SyslogMessage}

-- What is stored for a value: nothing of one that is rejected, which leaves the empty text that the
-- name was given.
abbrev pub stored : Bytes → Option (List ℕ) → Bytes
stored value none = []
stored value (some ps) = unescaped ready value

-- What an assignment to a parameter does to all of them.
abbrev pub updated : Bytes → Bytes → Bytes → Elements → Bytes → Bytes → Option Bytes
updated id name value els i n =
    if equal id i && equal name n then some value else find_parameter i n els

-- An element that has been added is there, with the parameters it had, and no other changes.
find-add_if :
    (id i : Bytes) (els : Elements) (o : Option (List (Bytes × Bytes)))
    → find id els ≡ o
    → find i (add_if id els o) ≡ (if equal id i then some (params_of o) else find i els)
find-add_if id i els none h = find-assign id i [] els
find-add_if id i els (some params) h = ground (arith, h, equal_iff id i)

find-add_element :
    (id : Bytes) (els : Elements) → find id (add_element id els) ≡ some (params_of (find id els))
unfolding add_element
find-add_element id els =
    find-add_if id id els (find id els) refl ∙ rw ((equal_iff id id).1 refl) refl

find_parameter-add_element :
    (id i n : Bytes) (els : Elements)
    → find_parameter i n (add_element id els) ≡ find_parameter i n els
unfolding add_element
find_parameter-add_element id i n els =
    ap (λ o. find n (params_of o)) (find-add_if id i els (find id els) refl)
    ∙ elim (Bool-cases (equal id i)) [
      | inl y ↦ rw y (ap (λ k. find n (params_of (find k els))) ((equal_iff id i).0 y))
      | inr m ↦ rw m refl
    ]

-- A parameter that is put where its element is.
pub put-find_parameter :
    (id name value : Bytes) (els : Elements) (params : List (Bytes × Bytes))
    → find id els ≡ some params
    → (after : Elements) × (put id name value (some els) ≡ some after)
      × (find id after ≡ some (assign name value params))
      × ((i n : Bytes) → find_parameter i n after ≡ updated id name value els i n)
unfolding put
put-find_parameter id name value els params h =
    let at = λ (i : Bytes). find-assign id i (assign name value params) els in
    let in_params = λ (n : Bytes). find-assign name n value params in
    (
      assign id (assign name value params) els,
      rw h refl,
      at id ∙ rw ((equal_iff id id).1 refl) refl,
      λ i n. ap (λ o. find n (params_of o)) (at i) ∙ elim (Bool-cases (equal id i)) [
        | inl y ↦
            let e : find i els ≡ some params =
              ap (λ k. find k els) (sym ((equal_iff id i).0 y)) ∙ h in
            rw (y, e) (in_params n)
        | inr m ↦ rw m refl
      ],
    )

-- What the elements become when a value is given to a parameter that is there.
abbrev with_value :
    Bytes → Bytes → Bytes → Elements → Option (List ℕ) → Bytes → Bytes → Option Bytes
with_value id name value els none i n = find_parameter i n els
with_value id name value els (some ps) i n = updated id name (unescaped ready value) els i n

-- The assignment of the empty text before makes no difference.
with_value-updated :
    (id name value : Bytes) (els mid : Elements) (r : Option (List ℕ)) (i n : Bytes)
    → find_parameter i n mid ≡ updated id name [] els i n
    → with_value id name value mid r i n ≡ updated id name (stored value r) els i n
with_value-updated id name value els mid none i n h = h
with_value-updated id name value els mid (some ps) i n h =
    elim (Bool-cases (equal id i && equal name n)) [
      | inl y ↦ rw y refl
      | inr m ↦ rw m (h ∙ rw m refl)
    ]

module _ {Time : Type 0} where
  -- A message with other elements.
  abbrev pub replaced : SyslogMessage Time Elements → Elements → SyslogMessage Time Elements
  replaced sm els = record sm { structured_data = some els }

  -- No panic.
  abbrev Runs : Option (SyslogMessage Time Elements) → Type 0
  Runs o = (after : SyslogMessage Time Elements) × (o ≡ some after)

  set_value_lem :
      (id name value : Bytes) (els : Elements) (params : List (Bytes × Bytes))
      (sm : SyslogMessage Time Elements) (r : Option (List ℕ))
      → find id els ≡ some params
      → scan_value ready 0 value ≡ r
      → (after : Elements) × (set_value id name value (replaced sm els) r
          ≡ some (replaced sm after))
        × ((i n : Bytes) → find_parameter i n after ≡ with_value id name value els r i n)
  set_value_lem id name value els params sm none h k = (els, refl, λ i n. refl)
  set_value_lem id name value els params sm (some ps) h k =
      let (after, e, f, g) = put-find_parameter id name (unescaped ready value) els params h in
      (after, rw (strip_backslashes-unescaped value ps k, e) refl, g)

  module _ (parse_time : Bytes → Option Time) where
    set_name_lem :
        (id name value : Bytes) (els : Elements) (params : List (Bytes × Bytes))
        (sm : SyslogMessage Time Elements)
        → find id els ≡ some params
        → sd_param_name_field name ≡ true
        → (after : Elements) × (set_name parse_time id name value (replaced sm els)
            ≡ some (replaced sm after))
          × ((i n : Bytes)
              → find_parameter i n after
                ≡ updated id name (stored value (scan_value ready 0 value)) els i n)
    unfolding set_with_ctx
    set_name_lem id name value els params sm h k =
        let (mid, e, f, g) = put-find_parameter id name [] els params h in
        let there : find_parameter id name mid ≡ some [] =
          g id name ∙ rw ((equal_iff id id).1 refl, (equal_iff name name).1 refl) refl in
        let (after, d, u) =
          set_value_lem id name value mid (assign name [] params) sm (scan_value ready 0 value) f
            refl in
        (
          after,
          rw (k, e)
              (ap (λ o. if_found o (set_with_ctx parse_time sdpv value id name) (replaced sm mid))
                  there
                ∙ d),
          λ i n.
              u i n
              ∙ with_value-updated id name value els mid (scan_value ready 0 value) i n (g i n),
        )

    -- With a valid id and a valid name `SetParameter` does not panic. It changes nothing but the
    -- structured data, and there no parameter but this one, which was there before or not: it gets
    -- the value without the backslashes of its escapes, or, where the value is rejected, the empty
    -- text.
    pub set_parameter_lem :
        (id name value : Bytes) (sm : SyslogMessage Time Elements)
        → sd_id_field id ≡ true
        → sd_param_name_field name ≡ true
        → (after : Elements) × (set_parameter parse_time id name value sm
            ≡ some (replaced sm after))
          × ((i n : Bytes)
              → find_parameter i n after
                ≡ updated id name
                    (stored value (scan_value ready 0 value))
                    (elements_of sm.structured_data)
                    i
                    n)
    unfolding set_parameter set_with_ctx
    set_parameter_lem id name value sm h k =
        let els = elements_of sm.structured_data in
        let e = find-add_element id els in
        let (after, d, u) =
          set_name_lem id name value (add_element id els) (params_of (find id els)) sm e k in
        (
          after,
          rw (h, e) d,
          λ i n.
              u i n
              ∙ ap
                  (λ o.
                    if equal id i && equal name n
                    then some (stored value (scan_value ready 0 value))
                    else o)
                  (find_parameter-add_element id i n els),
        )

    -- A name that is rejected leaves the message, and the value goes to the parameter if it is there.
    rejected_name :
        (id name value : Bytes) (els : Elements) (params : List (Bytes × Bytes))
        (sm : SyslogMessage Time Elements) (o : Option Bytes)
        → find id els ≡ some params
        → Runs (if_found o (set_with_ctx parse_time sdpv value id name) (replaced sm els))
    unfolding set_with_ctx
    rejected_name id name value els params sm none h = (replaced sm els, refl)
    rejected_name id name value els params sm (some v) h =
        let (after, e, f) =
          set_value_lem id name value els params sm (scan_value ready 0 value) h refl in
        (replaced sm after, e)

    set_name-total :
        (id name value : Bytes) (els : Elements) (o : Option (List (Bytes × Bytes)))
        (sm : SyslogMessage Time Elements)
        → find id els ≡ o
        → Runs (if_found o (set_name parse_time id name value) (replaced sm els))
    unfolding set_with_ctx
    set_name-total id name value els none sm h = (replaced sm els, refl)
    set_name-total id name value els (some params) sm h =
        elim (Bool-cases (sd_param_name_field name)) [
          | inl y ↦
              let (after, e, f) = set_name_lem id name value els params sm h y in
              (replaced sm after, e)
          | inr n ↦
              let (after, e) =
                rejected_name id name value els params sm (find_parameter id name els) h in
              (after, rw n e)
        ]

    -- An id that is rejected leaves the message.
    unchanged :
        (id name value : Bytes) (sm : SyslogMessage Time Elements) (o : Option Elements)
        → Runs (
            if_found
              (find id (elements_of o))
              (set_name parse_time id name value)
              (record sm { structured_data = o }))
    unfolding find
    unchanged id name value sm none = (record sm { structured_data = none }, refl)
    unchanged id name value sm (some els) = set_name-total id name value els (find id els) sm refl

    total_at :
        (id name value : Bytes) (sm : SyslogMessage Time Elements) (o : Option Elements)
        → Runs (set_parameter parse_time id name value (record sm { structured_data = o }))
    unfolding set_parameter set_with_ctx
    total_at id name value sm o = elim (Bool-cases (sd_id_field id)) [
      | inl y ↦
          let els = add_element id (elements_of o) in
          let (after, e) = set_name-total id name value els (find id els) sm refl in (after, rw y e)
      | inr n ↦ let (after, e) = unchanged id name value sm o in (after, rw n e)
    ]

    -- `SetParameter` does not panic, whatever it is given.
    pub set_parameter-total :
        (id name value : Bytes) (sm : SyslogMessage Time Elements)
        → (after : SyslogMessage Time Elements) × (set_parameter parse_time id name value sm
            ≡ some after)
    set_parameter-total id name value sm = total_at id name value sm sm.structured_data

    -- What is escaped as `String` does it, and set, is stored as it was before the escaping.
    pub set_parameter-escape_bytes :
        (id name v : Bytes) (sm : SyslogMessage Time Elements)
        → sd_id_field id ≡ true
        → sd_param_name_field name ≡ true
        → IsUtf8 v
        → (after : Elements) × (set_parameter parse_time id name (escape_bytes v) sm
            ≡ some (replaced sm after))
          × (find_parameter id name after ≡ some v)
    set_parameter-escape_bytes id name v sm h k u =
        let (after, e, f) = set_parameter_lem id name (escape_bytes v) sm h k in
        (
          after,
          e,
          f id name
              ∙ rw
                  (
                    (equal_iff id id).1 refl,
                    (equal_iff name name).1 refl,
                    scan_value-escape_bytes v u,
                  )
                  (ap some (unescaped-escape_bytes v u)),
        )
