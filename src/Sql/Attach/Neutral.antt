-- ===== src/Sql/Attach/Neutral.antt =====
-- Texts that a statement may hold without ending or beginning anything: safe bytes, quoted options
-- and their lists.
use swanlake.Prelude.{
  ℕ, ◌<◌, ◌≡◌, refl, sym, ap, subst, ◌∙◌, Bool, true, false, ◌&&◌, not, List, [], ◌∷◌, ◌++◌,
  append_assoc, Option, none, some, arith, ltb, head?, ◌==◌, all, All, All-append,
}
use swanlake.Text.{Bytes, codes, IsAscii}
use swanlake.Sql.Lexer.{plain, next_is, next_mode, is_separator, is_quote}
use swanlake.Sql.Lexer.Ascii.{end_mode, head_or, no_separator}
use swanlake.Sql.Quoting.{doubled, escape_sql_literal, join}
use swanlake.Sql.Quoting.Laws.{Passes, Passes-append, literal-Passes, escape_sql_literal-IsAscii}

pub and_both : (a b : Bool) → (a && b) ≡ true → (a ≡ true) × (b ≡ true)
and_both a b h = ground arith

pub and_intro : {a b : Bool} → a ≡ true → b ≡ true → (a && b) ≡ true
and_intro p q = cc (p, q)

-- A byte that opens no quote and no comment and separates nothing.
unfoldable pub is_safe : ℕ → Bool
is_safe c = ltb c 128 && not (is_quote c) && not (c == 59) && not (c == 45) && not (c == 47)

stays_plain : (c : ℕ) (n : Option ℕ) → is_safe c ≡ true → next_mode plain c n ≡ plain
unfolding next_mode is_safe
stays_plain c none h = ground arith
stays_plain c (some d) h = ground arith

safe_separates : (c : ℕ) → is_safe c ≡ true → is_separator plain c ≡ false
unfolding is_safe
safe_separates c h = ground arith

safe_small : (c : ℕ) → is_safe c ≡ true → c < 128
unfolding is_safe
safe_small c h = ground arith

all_both :
    (c : ℕ) (s : Bytes) → all is_safe (c ∷ s) ≡ true → (is_safe c ≡ true) × (all is_safe s ≡ true)
all_both c s h = ground arith

pub safe-Passes : (s : Bytes) (next : Option ℕ) → all is_safe s ≡ true → Passes plain s next plain
unfolding no_separator end_mode
safe-Passes [] next h = record { whole = refl; ends = refl }
safe-Passes (c ∷ s) next h =
    let both = all_both c s h in
    let rest = safe-Passes s next both.1 in
    record {
      whole = rw (safe_separates c both.0, stays_plain c (head? s) both.0) rest.whole;
      ends = rw (stays_plain c (head_or next s) both.0) rest.ends;
    }

pub safe-IsAscii : (s : Bytes) → all is_safe s ≡ true → IsAscii s
safe-IsAscii [] h = tt
safe-IsAscii (c ∷ s) h = let both = all_both c s h in (safe_small c both.0, safe-IsAscii s both.1)

-- A text before which, and behind which, a statement goes on.
pub record Neutral (o : Bytes) : Type 0 where
  pub ascii : IsAscii o
  pub over :
      (t : Bytes) (next : Option ℕ)
      → next_is 39 (head_or next t) ≡ false
      → Passes plain t next plain
      → Passes plain (o ++ t) next plain

pub safe_then :
    (s t : Bytes) (next : Option ℕ)
    → all is_safe s ≡ true
    → Passes plain t next plain
    → Passes plain (s ++ t) next plain
safe_then s t next h p = Passes-append plain plain plain s t next (safe-Passes s _ h) p

pub safe-Neutral : (s : Bytes) → all is_safe s ≡ true → Neutral s
safe-Neutral s h = record { ascii = safe-IsAscii s h; over = λ t next f p. safe_then s t next h p }

pub option-Neutral :
    (key value : Bytes)
    → all is_safe key ≡ true
    → IsAscii value
    → Neutral (key ++ (codes " '" ++ (doubled 39 value ++ codes "'")))
unfolding escape_sql_literal head_or is_safe
option-Neutral key value h a = record {
  ascii =
      All-append (λ c. c < 128) key _ (safe-IsAscii key h)
        (
          omega arith,
          (
            omega arith,
            All-append (λ c. c < 128) (doubled 39 value) (39 ∷ [])
                (escape_sql_literal-IsAscii value a) (omega arith, tt),
          ),
        );
  over = λ t next f p.
      subst (λ x. Passes plain x next plain)
        (sym (
          append_assoc key (32 ∷ 39 ∷ (doubled 39 value ++ 39 ∷ [])) t
          ∙ ap (λ x. key ++ 32 ∷ 39 ∷ x) (append_assoc (doubled 39 value) (39 ∷ []) t)))
        (safe_then key _ next h
          (safe_then (32 ∷ []) _ next refl (literal-Passes value t next plain f p)));
}

pub join-Neutral : (os : List Bytes) → All Neutral os → Neutral (join (codes ", ") os)
unfolding join head_or is_safe
join-Neutral [] h = record { ascii = tt; over = λ t next f p. p }
join-Neutral (o ∷ []) (n, h) = n
join-Neutral (o ∷ u ∷ os) (n, h) =
    let rest = join-Neutral (u ∷ os) h in
    record {
      ascii = All-append (λ c. c < 128) o _ n.ascii (omega arith, (omega arith, rest.ascii));
      over = λ t next f p.
          subst (λ x. Passes plain x next plain)
            (sym (append_assoc o (44 ∷ 32 ∷ join (codes ", ") (u ∷ os)) t))
            (n.over _ next refl (safe_then (44 ∷ 32 ∷ []) _ next refl (rest.over t next f p)));
    }
