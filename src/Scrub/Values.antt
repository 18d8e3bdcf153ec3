-- ===== src/Scrub/Values.antt =====
-- scrub.rs: the values that follow a key, as they are written, and what is read past them.
use swanlake.Prelude.{
  ℕ, ◌⊎◌, ◌≡◌, refl, ap, sym, ◌∙◌, Bool, true, false, [], ◌∷◌, ◌++◌, append_assoc, append-nil, some,
  ◌==◌, if◌then◌else◌, arith, All, inl, inr,
}
use swanlake.Text.{Bytes}
use swanlake.Scrub.{
  is_ascii_whitespace, skip_whitespace, quoted_rest, stops_bare, bare_rest, value_rest, after_key,
}

-- A value of a connection string: quoted, quoted up to the end of the text, or bare.
pub data Value : Type 0 where
  quoted : Bytes → Value
  cut : Bytes → Value
  bare : Bytes → Value

abbrev pub quotes_doubled : Bytes → Bytes
quotes_doubled [] = []
quotes_doubled (c ∷ s) =
    if c == b'\'' then b'\'' ∷ b'\'' ∷ quotes_doubled s else c ∷ quotes_doubled s

abbrev pub written : Value → Bytes
written (quoted v) = b'\'' ∷ (quotes_doubled v ++ (b'\'' ∷ []))
written (cut v) = b'\'' ∷ quotes_doubled v
written (bare v) = v

abbrev pub begins_with : (ℕ → Bool) → Bytes → Bool
begins_with p [] = false
begins_with p (c ∷ s) = p c

-- The text behind the value does not go on with it.
abbrev pub Fits : Value → Bytes → Type 0
Fits (quoted v) post = begins_with (λ c. c == b'\'') post ≡ false
Fits (cut v) post = post ≡ []
Fits (bare []) post = ⊥
Fits (bare (c ∷ v)) post =
    All (λ b. stops_bare b ≡ false) (c ∷ v) × ((post ≡ []) ⊎ (begins_with stops_bare post ≡ true))

quoted_rest_other : (c : ℕ) (s : Bytes) → (c == b'\'') ≡ false → quoted_rest (c ∷ s) ≡ quoted_rest s
unfolding quoted_rest
quoted_rest_other c [] h = refl
quoted_rest_other c (d ∷ s) h = rw h refl

quoted_rest-quotes_doubled :
    (v post : Bytes)
    → begins_with (λ c. c == b'\'') post ≡ false
    → quoted_rest (quotes_doubled v ++ (b'\'' ∷ post)) ≡ post
unfolding quoted_rest
quoted_rest-quotes_doubled [] [] h = refl
quoted_rest-quotes_doubled [] (d ∷ post) h = rw h refl
quoted_rest-quotes_doubled (c ∷ v) post h =
    either (c == b'\'') refl (quoted_rest-quotes_doubled v post h)
  where
    either :
        (quote : Bool)
        → quote ≡ (c == b'\'')
        → quoted_rest (quotes_doubled v ++ (b'\'' ∷ post)) ≡ post
        → quoted_rest (
            (if quote then b'\'' ∷ b'\'' ∷ quotes_doubled v else c ∷ quotes_doubled v)
            ++ (b'\'' ∷ post))
          ≡ post
    either true e ih = ih
    either false e ih = quoted_rest_other c (quotes_doubled v ++ (b'\'' ∷ post)) (sym e) ∙ ih

quoted_rest_cut : (v : Bytes) → quoted_rest (quotes_doubled v) ≡ []
unfolding quoted_rest
quoted_rest_cut [] = refl
quoted_rest_cut (c ∷ v) = either (c == b'\'') refl (quoted_rest_cut v)
  where
    either :
        (quote : Bool)
        → quote ≡ (c == b'\'')
        → quoted_rest (quotes_doubled v) ≡ []
        → quoted_rest (if quote then b'\'' ∷ b'\'' ∷ quotes_doubled v else c ∷ quotes_doubled v)
          ≡ []
    either true e ih = ih
    either false e ih = quoted_rest_other c (quotes_doubled v) (sym e) ∙ ih

bare_rest-append :
    (v post : Bytes)
    → All (λ b. stops_bare b ≡ false) v
    → (post ≡ []) ⊎ (begins_with stops_bare post ≡ true)
    → bare_rest (v ++ post) ≡ post
unfolding bare_rest
bare_rest-append [] [] h k = refl
bare_rest-append [] (c ∷ post) h (inl e) = absurd (cc e)
bare_rest-append [] (c ∷ post) h (inr e) = rw e refl
bare_rest-append (c ∷ v) post h k = rw h.0 (bare_rest-append v post h.1 k)

not_quote : (c : ℕ) → stops_bare c ≡ false → (c == b'\'') ≡ false
unfolding stops_bare is_ascii_whitespace
not_quote c h = ground arith

pub value_rest-written :
    (v : Value) (post : Bytes) → Fits v post → value_rest (written v ++ post) ≡ post
unfolding value_rest
value_rest-written (quoted v) post h =
    ap quoted_rest (append_assoc (quotes_doubled v) (b'\'' ∷ []) post)
    ∙ quoted_rest-quotes_doubled v post h
value_rest-written (cut v) post h =
    rw h (ap quoted_rest (append-nil (quotes_doubled v)) ∙ quoted_rest_cut v)
value_rest-written (bare []) post h = absurd h
value_rest-written (bare (c ∷ v)) post h =
    either (c == b'\'') (not_quote c h.0.0) (bare_rest-append (c ∷ v) post h.0 h.1)
  where
    either :
        (quote : Bool)
        → quote ≡ false
        → bare_rest (c ∷ (v ++ post)) ≡ post
        → (if quote then quoted_rest (v ++ post) else bare_rest (c ∷ (v ++ post))) ≡ post
    either true e h = absurd (cc e)
    either false e h = h

abbrev pub IsBlank : Bytes → Type 0
IsBlank = All (λ c. is_ascii_whitespace c ≡ true)

skip_whitespace-append :
    (ws s : Bytes)
    → IsBlank ws
    → begins_with is_ascii_whitespace s ≡ false
    → skip_whitespace (ws ++ s) ≡ s
unfolding skip_whitespace
skip_whitespace-append [] [] h k = refl
skip_whitespace-append [] (c ∷ s) h k = rw k refl
skip_whitespace-append (c ∷ ws) s h k = rw h.0 (skip_whitespace-append ws s h.1 k)

written_not_blank :
    (v : Value) (post : Bytes)
    → Fits v post
    → begins_with is_ascii_whitespace (written v ++ post) ≡ false
unfolding is_ascii_whitespace stops_bare
written_not_blank (quoted v) post h = refl
written_not_blank (cut v) post h = refl
written_not_blank (bare []) post h = absurd h
written_not_blank (bare (c ∷ v)) post h = ground (arith, h.0.0)

pub after_key-written :
    (before after : Bytes) (v : Value) (post : Bytes)
    → IsBlank before
    → IsBlank after
    → Fits v post
    → after_key (before ++ (b'=' ∷ (after ++ (written v ++ post)))) ≡ some post
unfolding after_key
after_key-written before after v post hb ha f =
    rw (skip_whitespace-append before (b'=' ∷ (after ++ (written v ++ post))) hb refl) (
      ap some (
        ap value_rest
          (skip_whitespace-append after (written v ++ post) ha (written_not_blank v post f))
        ∙ value_rest-written v post f))
