-- ===== src/Auto/Machine/Made.antt =====
-- The machine that `NewMachine` of auto/machine.go makes of its options.
use go_syslog.Base.{
  ◌≡◌, refl, ap, sym, ◌∙◌, inl, inr, some, List, [], ◌∷◌, ◌++◌, Bool, true, false, ◌||◌, not, All,
  Bool-cases, if◌then◌else◌, append-nil, append_assoc,
}
use go_syslog.Rfc3164.Machine as Machine3164
use go_syslog.Rfc5424.Machine as Machine5424
use go_syslog.Machines.{MachineOption, new_rfc3164, new_rfc5424}
use go_syslog.Auto.Machine.{
  Auto, AutoOption, rfc3164_options, rfc5424_options, no_fallback_option, empty, apply_options,
  filter_best_effort, promote, build, new_machine,
}
use go_syslog.Auto.Machine.Safe.{
  Safe3164, Safe5424, SafeOption, All-append, new_rfc3164-some, new_rfc5424-some,
  filter_best_effort-All,
}

-- A machine made of the options for each format, and of whether fallback is off. Best effort is on
-- if the options turn it on in the machine of one format. Then the lenient machines are those of
-- all the options, with best effort on, and the strict ones those of the options that are not
-- filtered out; else the strict machines are those of all the options.
pub record IsMade {Location : Type 0} (opts3164 opts5424 : List (MachineOption Location))
    (no_fallback : Bool) (a : Auto Location) : Type 0 where
  pub all3164 : Machine3164.Config Location
  pub all5424 : Machine5424.Config
  pub makes3164 : new_rfc3164 opts3164 ≡ some all3164
  pub makes5424 : new_rfc5424 opts5424 ≡ some all5424
  pub fallback : a.no_fallback ≡ no_fallback
  pub best : a.best_effort ≡ (all3164.best_effort || all5424.best_effort)
  pub plain : a.best_effort ≡ false → (a.m3164 ≡ all3164) × (a.m5424 ≡ all5424)
  pub strict :
      a.best_effort ≡ true
      → (new_rfc3164 (filter_best_effort opts3164) ≡ some a.m3164)
        × (new_rfc5424 (filter_best_effort opts5424) ≡ some a.m5424)
  pub lenient :
      a.best_effort ≡ true
      → (a.m3164_be ≡ some (record all3164 { best_effort = true }))
        × (a.m5424_be ≡ some (record all5424 { best_effort = true }))

or-false : (b : Bool) → (b || false) ≡ b
or-false true = refl
or-false false = refl

or-true : (b : Bool) → (b || true) ≡ true
or-true true = refl
or-true false = refl

lenient5424 :
    (c : Machine5424.Config)
    → (if not (Machine5424.has_best_effort c) then Machine5424.with_best_effort c else c)
      ≡ record c { best_effort = true }
lenient5424 c = elim (Bool-cases c.best_effort) [ inl e ↦ rw e refl | inr e ↦ rw e refl ]

module _ {Location : Type 0} where
  -- What the options of `NewMachine` ask for.
  pub asked3164 : List (AutoOption Location) → List (MachineOption Location)
  asked3164 [] = []
  asked3164 (rfc3164_options opts ∷ rest) = opts ++ asked3164 rest
  asked3164 (rfc5424_options opts ∷ rest) = asked3164 rest
  asked3164 (no_fallback_option ∷ rest) = asked3164 rest

  pub asked5424 : List (AutoOption Location) → List (MachineOption Location)
  asked5424 [] = []
  asked5424 (rfc3164_options opts ∷ rest) = asked5424 rest
  asked5424 (rfc5424_options opts ∷ rest) = opts ++ asked5424 rest
  asked5424 (no_fallback_option ∷ rest) = asked5424 rest

  pub asked_no_fallback : List (AutoOption Location) → Bool
  asked_no_fallback [] = false
  asked_no_fallback (rfc3164_options opts ∷ rest) = asked_no_fallback rest
  asked_no_fallback (rfc5424_options opts ∷ rest) = asked_no_fallback rest
  asked_no_fallback (no_fallback_option ∷ rest) = true

  asked3164-Safe :
      (opts : List (AutoOption Location)) → All SafeOption opts → All Safe3164 (asked3164 opts)
  unfolding asked3164
  asked3164-Safe [] h = tt
  asked3164-Safe (rfc3164_options opts ∷ rest) (h, hs) =
      All-append Safe3164 opts (asked3164 rest) h (asked3164-Safe rest hs)
  asked3164-Safe (rfc5424_options opts ∷ rest) (h, hs) = asked3164-Safe rest hs
  asked3164-Safe (no_fallback_option ∷ rest) (h, hs) = asked3164-Safe rest hs

  asked5424-Safe :
      (opts : List (AutoOption Location)) → All SafeOption opts → All Safe5424 (asked5424 opts)
  unfolding asked5424
  asked5424-Safe [] h = tt
  asked5424-Safe (rfc3164_options opts ∷ rest) (h, hs) = asked5424-Safe rest hs
  asked5424-Safe (rfc5424_options opts ∷ rest) (h, hs) =
      All-append Safe5424 opts (asked5424 rest) h (asked5424-Safe rest hs)
  asked5424-Safe (no_fallback_option ∷ rest) (h, hs) = asked5424-Safe rest hs

  abbrev asking :
      Auto Location
      → List (MachineOption Location)
      → List (MachineOption Location)
      → Bool
      → Auto Location
  asking m xs ys b = record m { rfc3164_opts = xs; rfc5424_opts = ys; no_fallback = b }

  apply_options-asked :
      (opts : List (AutoOption Location)) (m : Auto Location)
      → apply_options opts m
        ≡ asking m
            (m.rfc3164_opts ++ asked3164 opts)
            (m.rfc5424_opts ++ asked5424 opts)
            (m.no_fallback || asked_no_fallback opts)
  unfolding apply_options asked3164 asked5424 asked_no_fallback
  apply_options-asked [] m =
      rw (append-nil m.rfc3164_opts, append-nil m.rfc5424_opts, or-false m.no_fallback) refl
  apply_options-asked (rfc3164_options opts ∷ rest) m =
      apply_options-asked rest (record m { rfc3164_opts = m.rfc3164_opts ++ opts })
      ∙ ap
          (λ xs.
            asking m xs (m.rfc5424_opts ++ asked5424 rest)
              (m.no_fallback || asked_no_fallback rest))
          (append_assoc m.rfc3164_opts opts (asked3164 rest))
  apply_options-asked (rfc5424_options opts ∷ rest) m =
      apply_options-asked rest (record m { rfc5424_opts = m.rfc5424_opts ++ opts })
      ∙ ap
          (λ ys.
            asking m (m.rfc3164_opts ++ asked3164 rest) ys
              (m.no_fallback || asked_no_fallback rest))
          (append_assoc m.rfc5424_opts opts (asked5424 rest))
  apply_options-asked (no_fallback_option ∷ rest) m =
      apply_options-asked rest (record m { no_fallback = true })
      ∙ ap (asking m (m.rfc3164_opts ++ asked3164 rest) (m.rfc5424_opts ++ asked5424 rest))
          (sym (or-true m.no_fallback))

  lenient3164 :
      (c : Machine3164.Config Location)
      → (if not (Machine3164.has_best_effort c) then Machine3164.with_best_effort c else c)
        ≡ record c { best_effort = true }
  lenient3164 c = elim (Bool-cases c.best_effort) [ inl e ↦ rw e refl | inr e ↦ rw e refl ]

  build-IsMade :
      (xs ys : List (MachineOption Location)) (b : Bool)
      → All Safe3164 xs
      → All Safe5424 ys
      → (a : Auto Location) × (build (asking empty xs ys b) ≡ some a) × IsMade xs ys b a
  unfolding build promote
  build-IsMade xs ys b h k =
      let (c, e) = new_rfc3164-some xs h in
      let (d, f) = new_rfc5424-some ys k in
      let (s, e') =
        new_rfc3164-some (filter_best_effort xs) (filter_best_effort-All Safe3164 xs h) in
      let (t, f') =
        new_rfc5424-some (filter_best_effort ys) (filter_best_effort-All Safe5424 ys k) in
      elim (Bool-cases (Machine3164.has_best_effort c || Machine5424.has_best_effort d)) [
        | inl y ↦ (
          record (asking empty xs ys b) {
            best_effort = true;
            m3164 = s;
            m5424 = t;
            m3164_be =
                some (
                  if not (Machine3164.has_best_effort c)
                  then Machine3164.with_best_effort c
                  else c);
            m5424_be =
                some (
                  if not (Machine5424.has_best_effort d)
                  then Machine5424.with_best_effort d
                  else d);
          },
          rw (e, f, y, e', f') refl,
          record {
            all3164 = c;
            all5424 = d;
            makes3164 = e;
            makes5424 = f;
            fallback = refl;
            best = sym y;
            plain = cc;
            strict = λ _. (e', f');
            lenient = λ _. (ap some (lenient3164 c), ap some (lenient5424 d));
          },
        )
        | inr n ↦ (
          record (asking empty xs ys b) { m3164 = c; m5424 = d },
          rw (e, f, n) refl,
          record {
            all3164 = c;
            all5424 = d;
            makes3164 = e;
            makes5424 = f;
            fallback = refl;
            best = sym n;
            plain = λ _. (refl, refl);
            strict = cc;
            lenient = cc;
          },
        )
      ]

  -- With options that do not panic on the machine they are for, `NewMachine` returns, and makes
  -- what its options ask for.
  pub new_machine-IsMade :
      (opts : List (AutoOption Location))
      → All SafeOption opts
      → (a : Auto Location) × (new_machine opts ≡ some a)
        × IsMade (asked3164 opts) (asked5424 opts) (asked_no_fallback opts) a
  unfolding new_machine
  new_machine-IsMade opts h =
      let (a, e, w) =
        build-IsMade (asked3164 opts) (asked5424 opts) (asked_no_fallback opts)
          (asked3164-Safe opts h) (asked5424-Safe opts h) in
      (a, ap build (apply_options-asked opts empty) ∙ e, w)
