-- ===== src/Rfc5424/Builder/Order.antt =====
-- That `String` of rfc5424/builder.go does not depend on the order in which a map lists its keys.
use go_syslog.Base.{
  ℕ, ◌≡◌, refl, ap, ◌∙◌, Option, none, some, List, [], ◌∷◌, ◌++◌, Bytes, true, false, if◌then◌else◌,
  arith,
}
use go_syslog.Base.Maps.{find, keys}
use mathlib.Core.Logic.{∥∥₁_elim}
use native.Mathlib.Nat.{ℕ_set}
use mathlib.Core.List.{Perm, Permᴰ}
use go_syslog.Rfc5424.Message.{SyslogMessage, valid}
use go_syslog.Strconv.Decimal.{decimal}
use go_syslog.Rfc5424.Builder.Laws.{replaced}
use go_syslog.Rfc5424.Builder.Print.{
  string, print_valid, print_rest, at_most, insert, sort, print_params, print_element,
  print_elements, print_structured_data,
}
use go_syslog.Rfc5424.Builder.Store.{Elements, params_of}

at_most-total : (a b : Bytes) → at_most a b ≡ false → at_most b a ≡ true
unfolding at_most
at_most-total [] b h = absurd (ground arith)
at_most-total (x ∷ a) [] h = refl
at_most-total (x ∷ a) (y ∷ b) h = ground (arith, h, at_most-total a b)

at_most-antisym : (a b : Bytes) → at_most a b ≡ true → at_most b a ≡ true → a ≡ b
unfolding at_most
at_most-antisym [] [] h k = refl
at_most-antisym [] (y ∷ b) h k = absurd (ground arith)
at_most-antisym (x ∷ a) [] h k = absurd (ground arith)
at_most-antisym (x ∷ a) (y ∷ b) h k = ground (arith, h, k, at_most-antisym a b)

at_most_trans : (a b c : Bytes) → at_most a b ≡ true → at_most b c ≡ true → at_most a c ≡ true
unfolding at_most
at_most_trans [] b c h k = refl
at_most_trans (x ∷ a) [] c h k = absurd (ground arith)
at_most_trans (x ∷ a) (y ∷ b) [] h k = absurd (ground arith)
at_most_trans (x ∷ a) (y ∷ b) (z ∷ c) h k = ground (arith, h, k, at_most_trans a b c)

insert_comm : (x y : Bytes) (l : List Bytes) → insert x (insert y l) ≡ insert y (insert x l)
unfolding insert
insert_comm x y [] = ground (arith, at_most-total x y, at_most-antisym x y)
insert_comm x y (j ∷ l) = ground (
  arith,
  at_most-total x y,
  at_most-antisym x y,
  at_most-total x j,
  at_most-total y j,
  at_most_trans x y j,
  at_most_trans y x j,
  at_most_trans x j y,
  at_most_trans y j x,
  insert_comm x y l,
)

sort-Permᴰ : {k l : List Bytes} → Permᴰ k l → sort k ≡ sort l
unfolding sort
sort-Permᴰ Permᴰ.nil = refl
sort-Permᴰ (Permᴰ.cons {b = b} {l₁ = k} e d) =
    ap (λ x. insert x (sort k)) e ∙ ap (insert b) (sort-Permᴰ d)
sort-Permᴰ (Permᴰ.swap {a = a} {b = b} {a' = a'} {l = l} e f) =
    insert_comm a b (sort l)
    ∙ ap (λ x. insert x (insert a (sort l))) f
    ∙ ap (λ x. insert a' (insert x (sort l))) e
sort-Permᴰ (Permᴰ.trans d e) = sort-Permᴰ d ∙ sort-Permᴰ e

is_set_of_texts : IsSet (List Bytes)
is_set_of_texts = hlevel ℕ_set

-- Sorting forgets the order.
pub sort-Perm : {k l : List Bytes} → Perm k l → sort k ≡ sort l
sort-Perm {k} {l} p =
    let is_prop : IsProp (sort k ≡ sort l) = is_set_of_texts (sort k) (sort l) in
    ∥∥₁_elim p is_prop sort-Permᴰ

-- The same parameters in another order: the keys are the same, and what is found under each.
abbrev pub SameParams : List (Bytes × Bytes) → List (Bytes × Bytes) → Type 0
SameParams m n = Perm (keys m) (keys n) × ((k : Bytes) → find k m ≡ find k n)

abbrev pub SameElements : Elements → Elements → Type 0
SameElements m n =
    Perm (keys m) (keys n)
    × ((k : Bytes) → SameParams (params_of (find k m)) (params_of (find k n)))

print_params-same :
    (m n : List (Bytes × Bytes)) (names : List Bytes)
    → ((k : Bytes) → find k m ≡ find k n)
    → print_params m names ≡ print_params n names
unfolding print_params
print_params-same m n [] h = refl
print_params-same m n (name ∷ names) h = rw (h name, print_params-same m n names h) refl

print_element-same :
    (id : Bytes) (m n : List (Bytes × Bytes))
    → SameParams m n
    → print_element id m ≡ print_element id n
print_element-same id m n (p, h) = rw (sort-Perm p, print_params-same m n (sort (keys n)) h) refl

print_elements-same :
    (m n : Elements) (ids : List Bytes)
    → ((k : Bytes) → SameParams (params_of (find k m)) (params_of (find k n)))
    → print_elements m ids ≡ print_elements n ids
unfolding print_elements
print_elements-same m n [] h = refl
print_elements-same m n (id ∷ ids) h =
    ap (λ t. t ++ print_elements m ids)
      (print_element-same id (params_of (find id m)) (params_of (find id n)) (h id))
    ∙ ap (λ t. print_element id (params_of (find id n)) ++ t) (print_elements-same m n ids h)

print_rest-same :
    {Time : Type 0} (format_time : Time → Bytes) (sm : SyslogMessage Time Elements) (m n : Elements)
    → print_structured_data (some m) ≡ print_structured_data (some n)
    → print_rest format_time (replaced sm m) ≡ print_rest format_time (replaced sm n)
print_rest-same format_time sm m n e = rw e refl

print_valid-same :
    {Time : Type 0} (format_time : Time → Bytes) (sm : SyslogMessage Time Elements) (m n : Elements)
    (o : Option ℕ)
    → print_rest format_time (replaced sm m) ≡ print_rest format_time (replaced sm n)
    → print_valid format_time (replaced sm m) o ≡ print_valid format_time (replaced sm n) o
unfolding valid
print_valid-same format_time sm m n none e = refl
print_valid-same format_time sm m n (some p) e =
    ap
      (λ r.
        if valid (replaced sm n)
        then some (60 ∷ (decimal p ++ (62 ∷ (decimal sm.version ++ (32 ∷ r)))))
        else none)
      e

-- A message whose maps list their keys in another order is printed as the same text.
pub string-SameElements :
    {Time : Type 0} (format_time : Time → Bytes) (sm : SyslogMessage Time Elements) (m n : Elements)
    → SameElements m n
    → string format_time (replaced sm m) ≡ string format_time (replaced sm n)
unfolding string
string-SameElements format_time sm m n (p, h) =
    let printed : print_structured_data (some m) ≡ print_structured_data (some n) =
      print_elements-same m n (sort (keys m)) h ∙ ap (print_elements n) (sort-Perm p) in
    print_valid-same format_time sm m n sm.base.priority
      (print_rest-same format_time sm m n printed)
