-- ===== src/Rfc5424/Builder/Bounds.antt =====
-- What can stand in a message that the operations of rfc5424/builder.go built.
use go_syslog.Base.{
  ℕ, zero, suc, ◌≤◌, ◌≡◌, ◌≢◌, refl, sym, inl, inr, Option, none, some, List, [], ◌∷◌, Bytes, codes,
  Bool, true, Bool-cases, All, length, equal, equal_iff, arith,
}
use mathlib.Core.Path.{subst}
use go_syslog.Base.Maps.{find, assign}
use go_syslog.Rfc5424.Builder.{unless_nil, set_text}
use go_syslog.Rfc5424.Builder.Store.{
  Elements, elements_of, params_of, find_parameter, add_element, add_if, put, put_in,
}
use go_syslog.Rfc5424.Grammar.{run_field, accepts, graph, sd_name_char}
use go_syslog.Rfc5424.Message.{SyslogMessage}
use go_syslog.Syslog.Message.{Base}

-- A text of one to `n` bytes, each of them allowed.
abbrev pub IsField : (ℕ → Bool) → ℕ → Bytes → Type 0
IsField ok n s = (s ≢ []) × (length s ≤ n) × All (λ c. ok c ≡ true) s

run_field-All :
    (ok : ℕ → Bool) (n : ℕ) (s : Bytes)
    → run_field ok n s ≡ true
    → (length s ≤ n) × All (λ c. ok c ≡ true) s
unfolding run_field
run_field-All ok n [] h = ground arith
run_field-All ok zero (c ∷ s) h = absurd (ground arith)
run_field-All ok (suc n) (c ∷ s) h = ground (arith, run_field-All ok n s)

pub accepts-IsField : (ok : ℕ → Bool) (n : ℕ) (s : Bytes) → accepts ok n s ≡ true → IsField ok n s
unfolding accepts
accepts-IsField ok n [] h = absurd (ground arith)
accepts-IsField ok n (c ∷ s) h = let (l, a) = run_field-All ok n (c ∷ s) h in (cc, l, a)

module _ {V : Type 0} (P : Bytes × V → Type 0) where
  assign-All :
      (k : Bytes) (v : V) (m : List (Bytes × V)) → P (k, v) → All P m → All P (assign k v m)
  unfolding assign
  assign-All k v [] p h = (p, tt)
  assign-All k v ((j, w) ∷ m) p (h, hs) = elim (Bool-cases (equal j k)) [
    | inl y ↦ rw y (subst (λ x. P (x, v)) (sym ((equal_iff j k).0 y)) p, hs)
    | inr n ↦ rw n (h, assign-All k v m p hs)
  ]

  find-All : (k : Bytes) (v : V) (m : List (Bytes × V)) → find k m ≡ some v → All P m → P (k, v)
  unfolding find
  find-All k v [] e h = absurd (ground arith)
  find-All k v ((j, w) ∷ m) e (h, hs) = elim (Bool-cases (equal j k)) [
    | inl y ↦
        let same : w ≡ v = ground (arith, y, e) in
        subst (λ x. P (x, v)) ((equal_iff j k).0 y) (subst (λ x. P (j, x)) same h)
    | inr n ↦ find-All k v m (ground (arith, n, e)) hs
  ]

-- The name of an element or of a parameter.
abbrev pub IsName : Bytes → Type 0
IsName s = IsField sd_name_char 32 s

abbrev pub AreParams : List (Bytes × Bytes) → Type 0
AreParams = All (λ x. IsName x.0)

abbrev pub AreElements : Elements → Type 0
AreElements = All (λ x. IsName x.0 × AreParams x.1)

abbrev pub Every {ℓ} : {A : Type ℓ} → (A → Type 0) → Option A → Type 0
Every P none = Unit
Every P (some a) = P a

-- The numbers that a priority gives.
abbrev pub InRange : {Time : Type 0} → Base Time → Type 0
InRange b =
    Every (λ p. p ≤ 191) b.priority × Every (λ f. f ≤ 23) b.facility × Every (λ s. s ≤ 7) b.severity

-- The lengths and the characters of the fields.
abbrev pub AreFields : {Time : Type 0} → Base Time → Type 0
AreFields b =
    Every (IsField graph 255) b.hostname
    × Every (IsField graph 48) b.appname
    × Every (IsField graph 128) b.proc_id
    × Every (IsField graph 32) b.msg_id
    × Every (λ m. m ≢ []) b.message

-- What `Builder` promises of a message.
pub record IsBuilt {Time : Type 0} (sm : SyslogMessage Time Elements) : Type 0 where
  pub numbers : InRange sm.base
  pub version : sm.version ≤ 999
  pub fields : AreFields sm.base
  pub elements : Every AreElements sm.structured_data

pub elements_of-AreElements :
    (o : Option Elements) → Every AreElements o → AreElements (elements_of o)
elements_of-AreElements none h = tt
elements_of-AreElements (some els) h = h

add_if-AreElements :
    (id : Bytes) (els : Elements) (o : Option (List (Bytes × Bytes)))
    → IsName id
    → AreElements els
    → AreElements (add_if id els o)
add_if-AreElements id els none n h =
    assign-All (λ x. IsName x.0 × AreParams x.1) id [] els (n, tt) h
add_if-AreElements id els (some params) n h = h

put_in-AreElements :
    (id name value : Bytes) (els after : Elements) (o : Option (List (Bytes × Bytes)))
    → IsName name
    → AreElements els
    → find id els ≡ o
    → put_in id name value els o ≡ some after
    → AreElements after
put_in-AreElements id name value els after none n h f e = absurd (ground arith)
put_in-AreElements id name value els after (some params) n h f e =
    let (i, ps) = find-All (λ x. IsName x.0 × AreParams x.1) id params els f h in
    let is_after : assign id (assign name value params) els ≡ after = ground (arith, e) in
    subst AreElements is_after (
      assign-All (λ x. IsName x.0 × AreParams x.1) id (assign name value params) els
        (i, assign-All (λ x. IsName x.0) name value params n ps) h)

pub add_element-AreElements :
    (id : Bytes) (els : Elements) → IsName id → AreElements els → AreElements (add_element id els)
unfolding add_element
add_element-AreElements id els n h = add_if-AreElements id els (find id els) n h

pub put-AreElements :
    (id name value : Bytes) (els after : Elements)
    → IsName name
    → AreElements els
    → put id name value (some els) ≡ some after
    → AreElements after
unfolding put
put-AreElements id name value els after n h e =
    put_in-AreElements id name value els after (find id els) n h refl e

pub Every-unless_nil :
    (ok : ℕ → Bool) (n : ℕ) (s : Bytes) (old : Option Bytes)
    → accepts ok n s ≡ true
    → Every (IsField ok n) old
    → Every (IsField ok n) (unless_nil s old)
Every-unless_nil ok n s old h k = elim (Bool-cases (equal s (codes "-"))) [
  | inl y ↦ rw y k
  | inr m ↦ rw m (accepts-IsField ok n s h)
]

pub Every-set_text :
    (s : Bytes) (old : Option Bytes)
    → Every (λ m. m ≢ []) old
    → Every (λ m. m ≢ []) (set_text s old)
Every-set_text [] old h = h
Every-set_text (c ∷ s) old h = cc

-- The parameters of an element, found or not.
AreParams-params_of :
    (id : Bytes) (els : Elements) (o : Option (List (Bytes × Bytes)))
    → find id els ≡ o
    → AreElements els
    → AreParams (params_of o)
AreParams-params_of id els none e h = tt
AreParams-params_of id els (some params) e h =
    (find-All (λ x. IsName x.0 × AreParams x.1) id params els e h).1

-- A parameter is found only under a valid name.
pub find_parameter-IsName :
    (id name v : Bytes) (els : Elements)
    → AreElements els
    → find_parameter id name els ≡ some v
    → IsName name
find_parameter-IsName id name v els h e =
    find-All (λ x. IsName x.0) name v (params_of (find id els)) e
      (AreParams-params_of id els (find id els) refl h)
