-- ===== src/Sql/Quoting/Laws.antt =====
-- Quoted text is read back as it was, and its end is where the quoting put it.
use swanlake.Prelude.{
  ℕ, ◌<◌, ◌≡◌, refl, ap, ap₂, ◌∙◌, append-nil, inl, inr, true, false, ◌&&◌, [], ◌∷◌, ◌++◌, Option,
  some, arith, ◌==◌, ==_iff, ==_refl, Bool-cases,
}
use swanlake.Text.{Bytes, IsAscii}
use swanlake.Sql.Lexer.{Mode, plain, quoted, next_is, is_quote, next_mode}
use swanlake.Sql.Lexer.Ascii.{end_mode, head_or, no_separator, end_mode-append, no_separator-append}
use swanlake.Sql.Tokens.{collapse, drop_last, unquote}
use swanlake.Sql.Quoting.{doubled, escape_sql_literal}

collapse-cons_ne : (q c : ℕ) (s : Bytes) → (c == q) ≡ false → collapse q (c ∷ s) ≡ c ∷ collapse q s
unfolding collapse
collapse-cons_ne q c [] h = refl
collapse-cons_ne q c (d ∷ s) h = rw h

collapse-doubled : (q : ℕ) (s : Bytes) → collapse q (doubled q s) ≡ s
unfolding collapse doubled
collapse-doubled q [] = refl
collapse-doubled q (c ∷ s) = elim (Bool-cases (c == q)) [
  | inl e ↦ rw (e, ==_refl q) (cc ((==_iff c q).0 e, collapse-doubled q s))
  | inr e ↦ rw e (collapse-cons_ne q c (doubled q s) e ∙ ap (◌∷◌ c) (collapse-doubled q s))
]

drop_last-append : (q : ℕ) (s : Bytes) → drop_last q (s ++ q ∷ []) ≡ some s
unfolding drop_last
drop_last-append q [] = rw (==_refl q)
drop_last-append q (c ∷ []) = rw (==_refl q, drop_last)
drop_last-append q (c ∷ d ∷ s) = rw (drop_last-append q (d ∷ s), drop_last)

-- Unquoting undoes quoting, whatever bytes the text has: a literal and an identifier come back.
pub unquote-doubled :
    (q : ℕ) (s : Bytes) → is_quote q ≡ true → unquote (q ∷ doubled q s ++ q ∷ []) ≡ s
unfolding unquote
unquote-doubled q s h = rw (h, drop_last-append q (doubled q s)) (collapse-doubled q s)

pub doubled-IsAscii : (q : ℕ) (s : Bytes) → q < 128 → IsAscii s → IsAscii (doubled q s)
unfolding doubled
doubled-IsAscii q [] h a = tt
doubled-IsAscii q (c ∷ s) h (b, a) = ground (arith, doubled-IsAscii q s h a)

pub escape_sql_literal-IsAscii : (s : Bytes) → IsAscii s → IsAscii (escape_sql_literal s)
unfolding escape_sql_literal
escape_sql_literal-IsAscii s a = doubled-IsAscii 39 s (omega arith) a

-- A text passes from one mode to another, with `next` behind it, and separates nothing.
pub record Passes (m : Mode) (s : Bytes) (next : Option ℕ) (n : Mode) : Type 0 where
  pub whole : no_separator m s ≡ true
  pub ends : end_mode m s next ≡ n

-- From inside a literal, over its escaped text and the closing quote.
inside-Passes :
    (s t : Bytes) (next : Option ℕ) (n : Mode)
    → next_is 39 (head_or next t) ≡ false
    → Passes plain t next n
    → Passes (quoted 39) (doubled 39 s ++ 39 ∷ t) next n
unfolding doubled no_separator end_mode next_mode
inside-Passes [] [] next n h p = record { whole = refl; ends = ground arith }
inside-Passes [] (d ∷ t) next n h p = record { whole = ground arith; ends = ground arith }
inside-Passes (c ∷ s) t next n h p = elim (Bool-cases (c == 39)) [
  | inl e ↦
      let ih = inside-Passes s t next n h p in rw e (record { whole = ih.whole; ends = ih.ends })
  | inr e ↦
      let ih = inside-Passes s t next n h p in
      rw e (record { whole = rw e ih.whole; ends = rw (e, end_mode) ih.ends })
]

pub Passes-append :
    (m k n : Mode) (s t : Bytes) (next : Option ℕ)
    → Passes m s (head_or next t) k
    → Passes k t next n
    → Passes m (s ++ t) next n
unfolding no_separator head_or end_mode
Passes-append m k n s [] next p r =
    rw append-nil (record { whole = p.whole; ends = p.ends ∙ r.ends })
Passes-append m k n s (d ∷ t) next p r = record {
  whole =
      no_separator-append m s (d ∷ t)
      ∙ ap₂ ◌&&◌ p.whole (ap (λ x. no_separator x (d ∷ t)) p.ends ∙ r.whole);
  ends = end_mode-append m s (d ∷ t) next ∙ ap (λ x. end_mode x (d ∷ t) next) p.ends ∙ r.ends;
}

-- Over a whole literal with its quotes.
pub literal-Passes :
    (s t : Bytes) (next : Option ℕ) (n : Mode)
    → next_is 39 (head_or next t) ≡ false
    → Passes plain t next n
    → Passes plain (39 ∷ escape_sql_literal s ++ 39 ∷ t) next n
unfolding no_separator end_mode next_mode escape_sql_literal
literal-Passes s t next n h p =
    let r = inside-Passes s t next n h p in record { whole = r.whole; ends = r.ends }
