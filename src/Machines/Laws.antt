-- ===== src/Machines/Laws.antt =====
-- The last of the options that a constructor of a machine applies.
use go_syslog.Base.{◌≢◌, inr, inl, none, ◌⊎◌, ◌≡◌, refl, some, List, [], ◌∷◌, ◌++◌}
use go_syslog.Machines.{Effect, returned, panicked, proceed, apply_all}

Effect-cases {ℓ} :
    {A : Type ℓ} (e : Effect A) → ((m : A) × (e ≡ returned m)) ⊎ ((m : A) × (e ≡ panicked m))
Effect-cases (returned m) = inl (m, refl)
Effect-cases (panicked m) = inr (m, refl)

none_ne_some {ℓ} : {A : Type ℓ} {a : A} → none ≢ some a
none_ne_some h = cc

module _ {ℓ κ} {O : Type ℓ} {A : Type κ} (on : O → A → Effect A) where
  last_effect :
      (e : Effect A) (c : A) → proceed (λ m. apply_all on [] m) e ≡ some c → e ≡ returned c
  unfolding apply_all
  last_effect (returned m) c h = cc
  last_effect (panicked m) c h = cc

  -- The last option is applied to what the options before it leave, and gives the result.
  pub apply_all-append :
      (opts : List O) (opt : O) (m c : A)
      → apply_all on (opts ++ (opt ∷ [])) m ≡ some c
      → (m' : A) × (apply_all on opts m ≡ some m') × (on opt m' ≡ returned c)
  unfolding apply_all
  apply_all-append [] opt m c h = (m, refl, last_effect (on opt m) c h)
  apply_all-append (o ∷ opts) opt m c h = elim (Effect-cases (on o m)) [
    | inl (x, e) ↦
        let h' : apply_all on (opts ++ (opt ∷ [])) x ≡ some c = rw e at h in
        rw e (apply_all-append opts opt x c h')
    | inr (x, e) ↦ absurd (none_ne_some (rw e at h))
  ]
