-- ===== src/OctetCounting/Settings/Laws.antt =====
-- The machines inside the parsers that octetcounting/parser.go constructs.
use go_syslog.Base.{
  ◌≡◌, refl, ◌⊎◌, inl, inr, some, [], ◌∷◌, ◌++◌, true, false, All, arith, Bool-cases,
}
use go_syslog.Machines.{on_rfc3164, on_rfc5424, new_rfc3164, new_rfc5424}
use go_syslog.Machines.Laws.{apply_all-append}
use go_syslog.Machines.Library as Library
use go_syslog.Rfc3164.Machine as Machine3164
use go_syslog.Rfc5424.Machine as Machine5424
use go_syslog.Auto.Machine.{Auto}
use go_syslog.Auto.Machine.Safe.{Safe3164, Safe5424, Built}
use go_syslog.Auto.Transport.Laws.{transport_machine-Built, safe_opts-Safe3164, safe_opts-Safe5424}
use go_syslog.OctetCounting.Settings.{
  Settings, new_parser, new_parser_rfc3164, opts3164, opts5424, new_parser_auto,
}

module _ {Location : Type 0} where
  -- `NewParser` in best effort mode: if it returns, its machine has best effort on, whatever the
  -- machine options do.
  pub new_parser-best_effort :
      (p : Settings Location) (c : Machine5424.Config)
      → p.best_effort ≡ true
      → new_parser p ≡ some c
      → c.best_effort ≡ true
  unfolding new_parser new_rfc5424
  new_parser-best_effort p c b e =
      let e' : new_rfc5424 (p.internal_opts ++ (Library.with_best_effort ∷ [])) ≡ some c =
        rw b at e in
      let (m, _, r) =
        apply_all-append on_rfc5424 p.internal_opts Library.with_best_effort Machine5424.initial c
          e' in
      ground arith

  -- If `NewParserRFC3164` returns, its machine keeps embedded newlines, and in best effort mode it
  -- has best effort on, whatever the machine options do.
  pub new_parser_rfc3164-newline :
      (p : Settings Location) (c : Machine3164.Config Location)
      → new_parser_rfc3164 p ≡ some c
      → (c.newline ≡ true) × ((p.best_effort ≡ false) ⊎ (c.best_effort ≡ true))
  unfolding new_parser_rfc3164 new_rfc3164
  new_parser_rfc3164-newline p c e = elim (Bool-cases p.best_effort) [
    | inl b ↦
        let opts = p.internal_opts ++ (Library.with_best_effort ∷ []) in
        let e' : new_rfc3164 (opts ++ (Library.with_embedded_newlines ∷ [])) ≡ some c = rw b at e in
        let (m, q, r) =
          apply_all-append on_rfc3164 opts Library.with_embedded_newlines Machine3164.initial c
            e' in
        let (m', _, r') =
          apply_all-append on_rfc3164 p.internal_opts Library.with_best_effort Machine3164.initial m
            q in
        ground arith
    | inr b ↦
        let e' : new_rfc3164 (p.internal_opts ++ (Library.with_embedded_newlines ∷ [])) ≡ some c =
          rw b at e in
        let (m, _, r) =
          apply_all-append on_rfc3164 p.internal_opts Library.with_embedded_newlines
            Machine3164.initial c e' in
        ground arith
  ]

  -- With options of their own formats that do not panic there, and whatever the generic machine
  -- options do, `NewParserAuto` returns with a machine that has both lenient machines if best effort
  -- is on, and best effort is on if it was asked for.
  pub new_parser_auto-Built :
      (p : Settings Location)
      → All Safe3164 p.rfc3164_opts
      → All Safe5424 p.rfc5424_opts
      → (a : Auto Location) × (new_parser_auto p ≡ some a)
        × Built a
        × ((p.best_effort ≡ false) ⊎ (a.best_effort ≡ true))
  unfolding new_parser_auto
  new_parser_auto-Built p h k =
      transport_machine-Built p.no_fallback p.best_effort (opts3164 p) (opts5424 p)
        (
          (λ m. (Machine3164.with_embedded_newlines m, refl)),
          safe_opts-Safe3164 p.internal_opts p.rfc3164_opts h,
        )
        (safe_opts-Safe5424 p.internal_opts p.rfc5424_opts k)
