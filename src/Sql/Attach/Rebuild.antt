-- ===== src/Sql/Attach/Rebuild.antt =====
-- `tokenize` undoes `rebuild_options` on the tokens that it makes itself.
use swanlake.Prelude.{
  ℕ, ◌<◌, ◌≡◌, refl, sym, ap, subst, ◌∙◌, Bool, true, false, ◌||◌, List, [], ◌∷◌, ◌++◌,
  append_assoc, append-nil, arith, ◌==◌, ==_refl, head?, All, Checked, done, panicked, ◌>>=◌,
  Bool-cases, inl, inr,
}
use swanlake.Text.{Bytes, codes, IsAscii, latin1_ascii, bytes_eq, bytes_eq_iff, is_whitespace}
use swanlake.Sql.Lexer.{is_quote, next_is}
use swanlake.Sql.Quoting.{doubled}
use swanlake.Sql.Ascii.{slice_ascii}
use swanlake.Sql.Tokens.{
  idle, in_quote, bare, is_punctuation, begins, ends_bare, token_step, token_end, tokenize_from,
  tokenize,
}
use swanlake.Sql.Attach.{sticks_left, rebuild_from, rebuild_options}

-- A punctuation mark, a quoted text, or a word.
pub data IsToken : Bytes → Type 0 where
  mark : (c : ℕ) → is_punctuation c ≡ true → IsToken (c ∷ [])
  quoted_token :
      (q : ℕ) (s : Bytes) → is_quote q ≡ true → IsAscii s → IsToken (q ∷ doubled q s ++ q ∷ [])
  word :
      (c : ℕ) (w : Bytes)
      → All (λ b. ends_bare b ≡ false) (c ∷ w)
      → IsAscii (c ∷ w)
      → IsToken (c ∷ w)

-- What may stand behind a token that is no mark: nothing, white space, or a mark.
abbrev is_gap : Bytes → Bool
is_gap [] = true
is_gap (c ∷ rest) = c == 32 || c == 41 || c == 44

abbrev with_token : Bytes → Checked (List Bytes) → Checked (List Bytes)
with_token t r = r >>= λ ts. done (t ∷ ts)

bind_done : (r : Checked (List Bytes)) → (r >>= λ ts. done ts) ≡ r
bind_done (done ts) = refl
bind_done panicked = refl

space_read : (rest : Bytes) → tokenize_from idle (32 ∷ rest) ≡ tokenize_from idle rest
unfolding tokenize_from token_step begins
space_read rest = bind_done (tokenize_from idle rest)

mark_read :
    (c : ℕ) (rest : Bytes)
    → is_punctuation c ≡ true
    → tokenize_from idle (c ∷ rest) ≡ with_token (c ∷ []) (tokenize_from idle rest)
unfolding tokenize_from token_step begins
mark_read c rest h = ground arith

bare_more :
    (t w rest : Bytes)
    → All (λ b. ends_bare b ≡ false) w
    → tokenize_from (bare t) (w ++ rest) ≡ tokenize_from (bare (t ++ w)) rest
unfolding tokenize_from token_step
bare_more t [] rest h = ap (λ x. tokenize_from (bare x) rest) (sym (append-nil t))
bare_more t (c ∷ w) rest (e, h) = rw e (
    bind_done (tokenize_from (bare (t ++ c ∷ [])) (w ++ rest))
    ∙ (bare_more (t ++ c ∷ []) w rest h
        ∙ ap (λ x. tokenize_from (bare x) rest) (append_assoc t (c ∷ []) w)))

gap_ends : (d : ℕ) → (d == 32 || d == 41 || d == 44) ≡ true → ends_bare d ≡ true
unfolding ends_bare is_whitespace
gap_ends d h = ground arith

gap_small : (d : ℕ) → (d == 32 || d == 41 || d == 44) ≡ true → d < 128
gap_small d h = ground arith

quote_small : (q : ℕ) → is_quote q ≡ true → q < 128
quote_small q h = ground arith

quote_no_space : (q : ℕ) → is_quote q ≡ true → is_whitespace q ≡ false
unfolding is_whitespace
quote_no_space q h = ground arith

no_quote :
    (q : ℕ) (rest : Bytes) → is_quote q ≡ true → is_gap rest ≡ true → next_is q (head? rest) ≡ false
no_quote q [] quote gap = refl
no_quote q (d ∷ rest) quote gap = ground arith

bind_cons :
    (t : Bytes) (xs : List Bytes) (r : Checked (List Bytes))
    → (r >>= λ ts. done (t ∷ xs ++ ts)) ≡ with_token t (r >>= λ ts. done (xs ++ ts))
bind_cons t xs (done ts) = refl
bind_cons t xs panicked = refl

bare_end :
    (t rest : Bytes)
    → IsAscii t
    → is_gap rest ≡ true
    → tokenize_from (bare t) rest ≡ with_token t (tokenize_from idle rest)
unfolding tokenize_from token_step token_end ends_bare
bare_end t [] a gap = rw (slice_ascii t [] a tt) refl
bare_end t (d ∷ rest) a gap =
    rw (gap_ends d gap, slice_ascii t (d ∷ []) a (gap_small d gap, tt))
      (bind_cons t (begins d).0 (tokenize_from (begins d).1 rest))

escape_read :
    (q : ℕ) (t x : Bytes)
    → is_quote q ≡ true
    → tokenize_from (in_quote q t) (q ∷ q ∷ x) ≡ tokenize_from (in_quote q (t ++ q ∷ q ∷ [])) x
unfolding tokenize_from token_step
escape_read q t x quote =
    rw (==_refl q, latin1_ascii q (quote_small q quote))
      (bind_done _
        ∙ (bind_done _
            ∙ ap (λ y. tokenize_from (in_quote q y) x) (append_assoc t (q ∷ []) (q ∷ []))))

inside_read :
    (q : ℕ) (t : Bytes) (c : ℕ) (x : Bytes)
    → (c == q) ≡ false
    → c < 128
    → tokenize_from (in_quote q t) (c ∷ x) ≡ tokenize_from (in_quote q (t ++ c ∷ [])) x
unfolding tokenize_from token_step
inside_read q t c x other small =
    rw (other, latin1_ascii c small) (bind_done (tokenize_from (in_quote q (t ++ c ∷ [])) x))

quote_read :
    (q : ℕ) (t s rest : Bytes)
    → is_quote q ≡ true
    → IsAscii s
    → is_gap rest ≡ true
    → tokenize_from (in_quote q t) (doubled q s ++ q ∷ rest)
      ≡ with_token (t ++ (doubled q s ++ q ∷ [])) (tokenize_from idle rest)
unfolding tokenize_from token_step doubled
quote_read q t [] rest quote a gap =
    rw (==_refl q, no_quote q rest quote gap, latin1_ascii q (quote_small q quote))
      (bind_cons (t ++ q ∷ []) [] (tokenize_from idle rest)
        ∙ ap (with_token (t ++ q ∷ [])) (bind_done (tokenize_from idle rest)))
quote_read q t (c ∷ s) rest quote (small, a) gap = elim (Bool-cases (c == q)) [
  | inl same ↦ rw same (
      escape_read q t (doubled q s ++ q ∷ rest) quote
      ∙ (quote_read q (t ++ q ∷ q ∷ []) s rest quote a gap
          ∙ ap (λ x. with_token x (tokenize_from idle rest))
              (append_assoc t (q ∷ q ∷ []) (doubled q s ++ q ∷ []))))
  | inr other ↦ rw other (
      inside_read q t c (doubled q s ++ q ∷ rest) other small
      ∙ (quote_read q (t ++ c ∷ []) s rest quote a gap
          ∙ ap (λ x. with_token x (tokenize_from idle rest))
              (append_assoc t (c ∷ []) (doubled q s ++ q ∷ []))))
]

quote_begins :
    (q : ℕ) (x : Bytes)
    → is_quote q ≡ true
    → tokenize_from idle (q ∷ x) ≡ tokenize_from (in_quote q (q ∷ [])) x
unfolding tokenize_from token_step begins is_whitespace
quote_begins q x quote =
    rw (quote_no_space q quote, quote, latin1_ascii q (quote_small q quote))
      (bind_done (tokenize_from (in_quote q (q ∷ [])) x))

word_begins :
    (c : ℕ) (x : Bytes)
    → ends_bare c ≡ false
    → tokenize_from idle (c ∷ x) ≡ tokenize_from (bare (c ∷ [])) x
unfolding tokenize_from token_step begins ends_bare
word_begins c x e = ground (arith, bind_done (tokenize_from (bare (c ∷ [])) x))

token_read :
    (t rest : Bytes)
    → IsToken t
    → is_gap rest ≡ true
    → tokenize_from idle (t ++ rest) ≡ with_token t (tokenize_from idle rest)
unfolding tokenize_from token_step begins
token_read _ rest (mark c h) gap = mark_read c rest h
token_read _ rest (quoted_token q s quote a) gap =
    quote_begins q (doubled q s ++ q ∷ [] ++ rest) quote
    ∙ (ap (tokenize_from (in_quote q (q ∷ []))) (append_assoc (doubled q s) (q ∷ []) rest)
        ∙ quote_read q (q ∷ []) s rest quote a gap)
token_read _ rest (word c w (e, es) a) gap =
    word_begins c (w ++ rest) e ∙ (bare_more (c ∷ []) w rest es ∙ bare_end (c ∷ w) rest a gap)

closes : (u x : Bytes) → sticks_left u ≡ true → is_gap (u ++ x) ≡ true
unfolding bytes_eq
closes [] x h = absurd (ground arith)
closes (c ∷ []) x h = ground arith
closes (c ∷ d ∷ u) x h = absurd (ground arith)

rebuild-is_gap :
    (t : Bytes) (ts : List Bytes)
    → bytes_eq t (codes "(") ≡ false
    → is_gap (rebuild_from t ts) ≡ true
unfolding rebuild_from
rebuild-is_gap t [] h = refl
rebuild-is_gap t (u ∷ ts) h = elim (Bool-cases (sticks_left u)) [
  | inl close ↦ rw close (closes u (rebuild_from u ts) close)
  | inr other ↦ rw (other, h) refl
]

opens :
    (u : Bytes)
    → bytes_eq u (codes "(") ≡ true
    → (x : Bytes) → tokenize_from idle (u ++ x) ≡ with_token u (tokenize_from idle x)
opens u h x =
    let e = (bytes_eq_iff u (codes "(")).0 h in
    subst (λ v. tokenize_from idle (v ++ x) ≡ with_token v (tokenize_from idle x)) (sym e)
      (mark_read 40 x refl)

token_then :
    (u : Bytes) (us : List Bytes)
    → IsToken u
    → tokenize_from idle (u ++ rebuild_from u us)
      ≡ with_token u (tokenize_from idle (rebuild_from u us))
token_then u us tok = elim (Bool-cases (bytes_eq u (codes "("))) [
  | inl paren ↦ opens u paren (rebuild_from u us)
  | inr other ↦ token_read u (rebuild_from u us) tok (rebuild-is_gap u us other)
]

rebuild_read :
    (t : Bytes) (ts : List Bytes)
    → All IsToken ts
    → tokenize_from idle (rebuild_from t ts) ≡ done ts
unfolding rebuild_from tokenize_from token_end
rebuild_read t [] all = refl
rebuild_read t (u ∷ us) (one, all) =
    let rest = token_then u us one ∙ ap (with_token u) (rebuild_read u us all) in
    elim (Bool-cases (sticks_left u || bytes_eq t (codes "("))) [
      | inl joined ↦ rw joined rest
      | inr apart ↦ rw apart (space_read (u ++ rebuild_from u us) ∙ rest)
    ]

-- The tokens of a rebuilt text are the tokens that it was made of: the joins and the spaces of
-- `rebuild_options` neither split a token nor merge two. A token is a mark, a quoted ASCII text or
-- an ASCII word.
pub tokenize-rebuild_options :
    (ts : List Bytes) → All IsToken ts → tokenize (rebuild_options ts) ≡ done ts
unfolding tokenize rebuild_options tokenize_from token_end
tokenize-rebuild_options [] all = refl
tokenize-rebuild_options (t ∷ ts) (one, all) =
    token_then t ts one ∙ ap (with_token t) (rebuild_read t ts all)
