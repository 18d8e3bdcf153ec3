-- ===== src/Scrub/Redacts.antt =====
-- scrub.rs: a value is replaced whatever it is, and a text without a key is kept.
use swanlake.Prelude.{
  ℕ, zero, suc, ◌≤◌, ◌<◌, ◌≡◌, refl, ap, sym, ◌∙◌, subst, true, false, [], ◌∷◌, ◌++◌, append_assoc,
  Option, none, some, length, length-append, arith, done, ◌>>=◌,
}
use swanlake.Text.{Bytes, to_ascii_lowercase, starts_with}
use swanlake.Scrub.{
  password_key, redacted, split_at, Found, find_key, after_key, at_key, searched, scrub_from,
  scrub_error_text,
}
use swanlake.Scrub.Parts.{IsStr, length-spelled, find_key-IsFound, after-Behind, after_key-Behind}
use swanlake.Scrub.Ends.{slice_done, starts_inside_head}
use swanlake.Scrub.Values.{Value, written, Fits, IsBlank, after_key-written}

-- The key does not begin before `spelled`.
abbrev pub Clear : Bytes → Bytes → Type 0
Clear [] spelled = Unit
Clear (c ∷ pre) spelled =
    (starts_with (to_ascii_lowercase (c ∷ (pre ++ spelled))) password_key ≡ false)
    × Clear pre spelled

starts_with-append :
    (s t p : Bytes)
    → length p ≤ length s
    → starts_with (to_ascii_lowercase (s ++ t)) p ≡ starts_with (to_ascii_lowercase s) p
unfolding starts_with to_ascii_lowercase
starts_with-append s t [] h = refl
starts_with-append [] t (c ∷ p) h = absurd (omega arith)
starts_with-append (b ∷ s) t (c ∷ p) h = rw (starts_with-append s t p (omega arith)) refl

starts_with_whole :
    (s p : Bytes) → to_ascii_lowercase s ≡ p → starts_with (to_ascii_lowercase s) p ≡ true
unfolding starts_with to_ascii_lowercase
starts_with_whole s [] h = refl
starts_with_whole [] (c ∷ p) h = absurd (cc h)
starts_with_whole (b ∷ s) (c ∷ p) h = let ih = starts_with_whole s p (cc h) in ground arith

split_at-append : (n : ℕ) (s t : Bytes) → length s ≡ n → split_at n (s ++ t) ≡ (s, t)
split_at-append zero [] t h = refl
split_at-append zero (c ∷ s) t h = absurd (omega arith)
split_at-append (suc n) [] t h = absurd (omega arith)
split_at-append (suc n) (c ∷ s) t h =
    ap (λ (q : Bytes × Bytes). (c ∷ q.0, q.1)) (split_at-append n s t (omega arith))

abbrev found : Bytes → Bytes → Bytes → Found
found pre spelled after = record { before = pre; spelled = spelled; after = after }

find_key_here :
    (k s : Bytes)
    → to_ascii_lowercase k ≡ password_key
    → length k ≡ 8
    → find_key (k ++ s) ≡ some (found [] k s)
unfolding find_key
find_key_here [] s e n = absurd (omega arith)
find_key_here (c ∷ k) s e n =
    let there : starts_with (to_ascii_lowercase (c ∷ (k ++ s))) password_key ≡ true =
      starts_with-append (c ∷ k) s password_key (omega arith)
      ∙ starts_with_whole (c ∷ k) password_key e in
    rw there (ap (λ (q : Bytes × Bytes). some (found [] q.0 q.1)) (split_at-append 8 (c ∷ k) s n))

module _ (spelled : Bytes) (is_key : to_ascii_lowercase spelled ≡ password_key) where
  eight : length spelled ≡ 8
  eight = length-spelled spelled password_key is_key

  find_key-append :
      (pre s : Bytes)
      → Clear pre spelled
      → find_key (pre ++ (spelled ++ s)) ≡ some (found pre spelled s)
  unfolding find_key
  find_key-append [] s h = find_key_here spelled s is_key eight
  find_key-append (c ∷ pre) s h =
      let short : starts_with (to_ascii_lowercase (c ∷ (pre ++ (spelled ++ s)))) password_key
          ≡ false =
        subst (λ t. starts_with (to_ascii_lowercase (c ∷ t)) password_key ≡ false)
          (append_assoc pre spelled s)
          (starts_with-append (c ∷ (pre ++ spelled)) s password_key
              (omega (arith, length-append pre spelled, eight))
            ∙ h.0) in
      rw (short, find_key-append pre s h.1) refl

-- The number of rounds does not show in the result, once it is enough.
abbrev Enough : ℕ → Type 0
Enough rounds =
    (more : ℕ) (pending rest : Bytes)
    → IsStr rest
    → length rest < rounds
    → length rest < more
    → scrub_from rounds pending rest ≡ scrub_from more pending rest

at_key-Enough :
    (rounds more : ℕ) (pending : Bytes) (f : Found) (o : Option Bytes)
    → Enough rounds
    → IsStr f.after
    → length f.after < rounds
    → length f.after < more
    → o ≡ after_key f.after
    → at_key (scrub_from rounds) pending f o ≡ at_key (scrub_from more) pending f o
at_key-Enough rounds more pending f none ih a l m e = ih more _ f.after a l m
at_key-Enough rounds more pending f (some v) ih a l m e =
    let (str, short) = after_key-Behind f.after v a (sym e) in
    rw (ih more [] v str (omega arith) (omega arith)) refl

searched-Enough :
    (rounds more : ℕ) (pending rest : Bytes) (o : Option Found)
    → Enough rounds
    → IsStr rest
    → length rest < suc rounds
    → length rest < suc more
    → o ≡ find_key rest
    → searched (scrub_from rounds) pending rest o ≡ searched (scrub_from more) pending rest o
searched-Enough rounds more pending rest none ih r l m e = refl
searched-Enough rounds more pending rest (some f) ih r l m e =
    let (str, short) = after-Behind rest f (find_key-IsFound rest f (sym e)) r.1 in
    at_key-Enough rounds more pending f (after_key f.after) ih str (omega arith) (omega arith) refl

scrub_from-Enough : (rounds : ℕ) → Enough rounds
unfolding scrub_from
scrub_from-Enough zero more pending rest r l m = absurd (omega arith)
scrub_from-Enough (suc rounds) zero pending rest r l m = absurd (omega arith)
scrub_from-Enough (suc rounds) (suc more) pending rest r l m =
    rw (slice_done rest [] r.0 refl) (
      searched-Enough rounds more pending rest (find_key rest) (scrub_from-Enough rounds) r l m
        refl)

abbrev pub with_value : Bytes → Bytes → Bytes → Bytes → Value → Bytes → Bytes
with_value pre spelled before after v post =
    pre ++ (spelled ++ (before ++ (b'=' ∷ (after ++ (written v ++ post)))))

module _ (pre spelled before after : Bytes) (v : Value) (post : Bytes)
    (is_key : to_ascii_lowercase spelled ≡ password_key) (clear : Clear pre spelled)
    (blank_before : IsBlank before) (blank_after : IsBlank after) (fits : Fits v post) where
  abbrev whole : Bytes
  whole = with_value pre spelled before after v post

  abbrev behind : Bytes
  behind = before ++ (b'=' ∷ (after ++ (written v ++ post)))

  finds : find_key whole ≡ some (found pre spelled behind)
  finds = find_key-append spelled is_key pre behind clear

  reads : after_key behind ≡ some post
  reads = after_key-written before after v post blank_before blank_after fits

  -- A text that holds a value of a password: a first key, in any case, with white space or none
  -- round its `=`, and behind it a quoted value with its quotes doubled, one that is never closed, or
  -- a bare one. Its redaction is the text up to the key, `=[redacted]`, and the redaction of what
  -- stands behind the value. So the value does not show in the result, nor whether it was quoted.
  pub scrub_error_text_redacts :
      IsStr whole
      → scrub_error_text whole
        ≡ (scrub_error_text post >>= λ tail. done ((pre ++ spelled) ++ (redacted ++ tail)))
  unfolding scrub_error_text scrub_from
  scrub_error_text_redacts str =
      let (str', short) =
        after-Behind whole (found pre spelled behind)
          (find_key-IsFound whole (found pre spelled behind) finds) str.1 in
      let (str'', short') = after_key-Behind behind post str' reads in
      let kept = starts_inside_head pre spelled behind str.0 in
      rw
        (
          slice_done whole [] str.0 refl,
          finds,
          reads,
          slice_done (pre ++ spelled) behind kept str'.0,
          scrub_from-Enough (length whole) (suc (length post)) [] post str'' (omega arith)
              (omega arith),
        )
        refl

-- A text in which the key does not occur is kept.
scrub_error_text_plain :
    (text : Bytes) → IsStr text → find_key text ≡ none → scrub_error_text text ≡ done text
unfolding scrub_error_text scrub_from
scrub_error_text_plain text str h =
    rw (slice_done text [] str.0 refl, h) (slice_done text [] str.0 refl)
