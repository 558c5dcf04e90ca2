-- ===== src/Rfc3195/Fields/Laws.antt =====
-- `bytes.Fields` on words of printable ASCII with single spaces between them.
use go_syslog.Base.{
  ℕ, ◌<◌, ◌≡◌, ◌≢◌, refl, ap, ◌∙◌, List, [], ◌∷◌, ◌++◌, Bytes, All, arith, append_assoc, append-nil,
}
use go_syslog.Rfc3195.Fields.{space_width, fields_loop, keep, fields}

abbrev pub IsPlain : ℕ → Type 0
IsPlain c = (32 < c) × (c < 127)

space_width-plain : (c : ℕ) (cs : Bytes) → IsPlain c → space_width (c ∷ cs) ≡ 0
unfolding space_width
space_width-plain c [] h = ground arith
space_width-plain c (b ∷ []) h = ground arith
space_width-plain c (b ∷ d ∷ cs) h = ground arith

space_width_space : (cs : Bytes) → space_width (32 ∷ cs) ≡ 1
unfolding space_width
space_width_space [] = refl
space_width_space (b ∷ []) = refl
space_width_space (b ∷ d ∷ cs) = refl

fields_loop_word :
    (w : Bytes) (field rest : Bytes)
    → All IsPlain w
    → fields_loop 0 field (w ++ (32 ∷ rest)) ≡ keep (field ++ w) (fields_loop 0 [] rest)
unfolding fields_loop
fields_loop_word [] field rest h = rw (space_width_space rest, fields_loop) (rw append-nil)
fields_loop_word (c ∷ w) field rest (h, hs) =
    rw (space_width-plain c (w ++ (32 ∷ rest)) h, fields_loop)
      (fields_loop_word w (field ++ (c ∷ [])) rest hs ∙ rw append_assoc)

fields_loop_last :
    (w : Bytes) (field : Bytes) → All IsPlain w → fields_loop 0 field w ≡ keep (field ++ w) []
unfolding fields_loop
fields_loop_last [] field h = rw append-nil
fields_loop_last (c ∷ w) field (h, hs) =
    rw (space_width-plain c w h, fields_loop)
      (fields_loop_last w (field ++ (c ∷ [])) hs ∙ rw append_assoc)

-- Words with single spaces between them.
unfoldable pub join : List Bytes → Bytes
join [] = []
join (w ∷ []) = w
join (w ∷ v ∷ ws) = w ++ (32 ∷ join (v ∷ ws))

abbrev pub IsWord : Bytes → Type 0
IsWord w = (w ≢ []) × All IsPlain w

keep-cons : (w : Bytes) (ws : List Bytes) → w ≢ [] → keep w ws ≡ w ∷ ws
keep-cons [] ws h = absurd (h refl)
keep-cons (c ∷ w) ws h = refl

fields_loop-join : (ws : List Bytes) → All IsWord ws → fields_loop 0 [] (join ws) ≡ ws
unfolding join
fields_loop-join [] h = unfold fields_loop in refl
fields_loop-join (w ∷ []) ((ne, p), h) = fields_loop_last w [] p ∙ keep-cons w [] ne
fields_loop-join (w ∷ v ∷ ws) ((ne, p), h) =
    fields_loop_word w [] (join (v ∷ ws)) p
    ∙ keep-cons w (fields_loop 0 [] (join (v ∷ ws))) ne
    ∙ ap (◌∷◌ w) (fields_loop-join (v ∷ ws) h)

-- Words of printable ASCII with single spaces between them are split into these words.
pub fields-join : (ws : List Bytes) → All IsWord ws → fields (join ws) ≡ ws
fields-join ws h = unfold fields in fields_loop-join ws h
