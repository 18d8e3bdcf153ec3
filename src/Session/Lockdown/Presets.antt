-- ===== src/Session/Lockdown/Presets.antt =====
-- The statements of the lockdown that have no parameter.
use swanlake.Prelude.{
  ◌≡◌, refl, Bool, true, false, List, [], ◌∷◌, some, arith, All, all, ltb, ◌&&◌, not, is_empty,
}
use swanlake.Text.{Bytes, IsAscii}
use swanlake.Sql.Lexer.{Mode, plain, quoted, next_mode}
use swanlake.Sql.Lexer.Ascii.{end_mode, no_separator}
use swanlake.Session.Lockdown.{preset_statements}
use swanlake.Session.Lockdown.Closed.{IsClosed}

-- A statement without a parameter is closed by evaluation.
unfoldable pub is_plain : Mode → Bool
is_plain plain = true
is_plain _ = false

unfoldable pub is_closed : Bytes → Bool
unfolding is_plain no_separator end_mode next_mode
is_closed s =
    all (λ b. ltb b 128) s
    && no_separator plain s
    && is_plain (end_mode plain s (some b';'))
    && not (is_empty s)

pub all-IsAscii : (s : Bytes) → all (λ b. ltb b 128) s ≡ true → IsAscii s
all-IsAscii [] h = tt
all-IsAscii (b ∷ s) h = (ground arith, all-IsAscii s (ground arith))

plain_of_is_plain : (m : Mode) → is_plain m ≡ true → m ≡ plain
unfolding is_plain
plain_of_is_plain plain h = refl
plain_of_is_plain (quoted q) h = cc
plain_of_is_plain _ h = cc

three_tests : (a b c d : Bool) → (a && b && c && d) ≡ true → (a ≡ true) × (b ≡ true) × (c ≡ true)
three_tests a b c d h = ground arith

pub is_closed_sound : (s : Bytes) → is_closed s ≡ true → IsClosed s
unfolding is_closed
is_closed_sound [] h = ground arith
is_closed_sound (c ∷ s) h =
    let (a, w, e) = three_tests _ _ _ _ h in
    record {
      ascii = all-IsAscii (c ∷ s) a;
      passes = record { whole = w; ends = plain_of_is_plain _ e };
      some_text = (c, s, refl);
    }

all-IsClosed : (ss : List Bytes) → all is_closed ss ≡ true → All IsClosed ss
all-IsClosed [] h = tt
all-IsClosed (s ∷ ss) h = (is_closed_sound s (ground arith), all-IsClosed ss (ground arith))

pub preset-IsClosed : All IsClosed preset_statements
unfolding is_closed
preset-IsClosed = all-IsClosed preset_statements refl
