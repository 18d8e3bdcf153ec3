-- ===== src/Session/Lockdown/Statements.antt =====
-- The lockdown block is the statements that it is meant to be, whatever text its directories hold.
use swanlake.Sql.Quoting.{join}
use swanlake.Prelude.{
  ℕ, ◌<◌, ◌≡◌, refl, Bool, true, false, List, [], ◌∷◌, ◌++◌, map, append_assoc, Option, some, arith,
  All, All-append, if◌then◌else◌,
}
use swanlake.Text.{Bytes, codes, IsAscii}
use swanlake.Sql.Lexer.{plain, next_is, next_mode, split_top_level_statements}
use swanlake.Sql.Lexer.Ascii.{end_mode, head_or, no_separator}
use swanlake.Sql.Quoting.{escape_sql_literal}
use swanlake.Sql.Quoting.Laws.{Passes, Passes-append, literal-Passes, escape_sql_literal-IsAscii}
use swanlake.Session.Lockdown.{
  LockdownTemplate, literal_then, directory_list, preset_statements, confining_statements,
  lockdown_block, lockdown_sql,
}
use swanlake.Session.Lockdown.Closed.{IsClosed, on_lines, split_from-join_each}
use swanlake.Session.Lockdown.Presets.{is_closed, all-IsAscii, is_closed_sound, preset-IsClosed}

literal-IsAscii : (v : Bytes) → IsAscii v → IsAscii (literal_then v [])
unfolding literal_then
literal-IsAscii v a = (
  omega arith,
  All-append (λ c. c < 128) (escape_sql_literal v) _ (escape_sql_literal-IsAscii v a) (omega arith),
)

literal_then-append : (v t : Bytes) → literal_then v [] ++ t ≡ 39 ∷ escape_sql_literal v ++ 39 ∷ t
unfolding literal_then
literal_then-append v t = append_assoc (39 ∷ escape_sql_literal v) (39 ∷ []) t

literal_then-Passes :
    (v t : Bytes) (next : Option ℕ)
    → next_is 39 (head_or next t) ≡ false
    → Passes plain t next plain
    → Passes plain (literal_then v [] ++ t) next plain
literal_then-Passes v t next h p = rw (literal_then-append v t) (literal-Passes v t next plain h p)

abbrev literals : List Bytes → Bytes
literals dirs = join (codes ", ") (map (λ dir. literal_then dir []) dirs)

comma-Passes :
    (t : Bytes) (next : Option ℕ)
    → Passes plain t next plain
    → Passes plain (44 ∷ 32 ∷ t) next plain
unfolding no_separator end_mode next_mode
comma-Passes t next p = record { whole = p.whole; ends = p.ends }

literals-Passes :
    (dirs : List Bytes) (t : Bytes) (next : Option ℕ)
    → next_is 39 (head_or next t) ≡ false
    → Passes plain t next plain
    → Passes plain (literals dirs ++ t) next plain
unfolding join head_or
literals-Passes [] t next h p = p
literals-Passes (d ∷ []) t next h p = literal_then-Passes d t next h p
literals-Passes (d ∷ e ∷ ds) t next h p =
    rw (append_assoc (literal_then d [])) (
      literal_then-Passes d _ next refl (comma-Passes _ next (literals-Passes (e ∷ ds) t next h p)))

literals-IsAscii : (dirs : List Bytes) → All IsAscii dirs → IsAscii (literals dirs)
unfolding join
literals-IsAscii [] a = tt
literals-IsAscii (d ∷ []) (a, as') = literal-IsAscii d a
literals-IsAscii (d ∷ e ∷ ds) (a, as') =
    All-append (λ c. c < 128) (literal_then d []) _ (literal-IsAscii d a)
      (omega arith, (omega arith, literals-IsAscii (e ∷ ds) as'))

-- A statement `SET name = ` before a text that passes.
abbrev IsPrefix : Bytes → Option ℕ → Type 0
IsPrefix s next = IsAscii s × Passes plain s next plain

prefix_then :
    (c : ℕ) (s t : Bytes)
    → IsPrefix (c ∷ s) (head_or (some b';') t)
    → IsAscii t
    → Passes plain t (some b';') plain
    → IsClosed ((c ∷ s) ++ t)
prefix_then c s t (a, p) b q = record {
  ascii = All-append (λ d. d < 128) (c ∷ s) t a b;
  passes = Passes-append plain plain plain (c ∷ s) t (some b';') p q;
  some_text = (c, s ++ t, refl);
}

nothing-Passes : (next : Option ℕ) → Passes plain [] next plain
unfolding no_separator end_mode
nothing-Passes next = record { whole = refl; ends = refl }

pub record IsAsciiTemplate (template : LockdownTemplate) : Type 0 where
  pub directory : IsAscii template.scratch_directory
  pub size : IsAscii template.scratch_max_size

setting_directory : IsPrefix (codes "SET temp_directory = ") (some 39)
unfolding no_separator end_mode next_mode
setting_directory =
    (all-IsAscii (codes "SET temp_directory = ") refl, record { whole = refl; ends = refl })

setting_size : IsPrefix (codes "SET max_temp_directory_size = ") (some 39)
unfolding no_separator end_mode next_mode
setting_size = (
  all-IsAscii (codes "SET max_temp_directory_size = ") refl,
  record { whole = refl; ends = refl },
)

setting_directories : (next : Option ℕ) → IsPrefix (codes "SET allowed_directories = [") next
unfolding no_separator end_mode next_mode
setting_directories next =
    (all-IsAscii (codes "SET allowed_directories = [") refl, record { whole = refl; ends = refl })

bracket-Passes : Passes plain (codes "]") (some b';') plain
unfolding no_separator end_mode next_mode
bracket-Passes = record { whole = refl; ends = refl }

-- One literal behind `SET name = `.
set_literal-IsClosed :
    (c : ℕ) (s v : Bytes)
    → IsPrefix (c ∷ s) (some 39)
    → IsAscii v
    → IsClosed ((c ∷ s) ++ literal_then v [])
unfolding literal_then head_or
set_literal-IsClosed c s v p a =
    prefix_then c s (literal_then v []) p (literal-IsAscii v a)
      (literal-Passes v [] (some b';') plain refl (nothing-Passes (some b';')))

module _ (template : LockdownTemplate) (a : IsAsciiTemplate template) where
  directories-IsClosed :
      (roots : List Bytes)
      → All IsAscii roots
      → IsClosed (
          codes "SET allowed_directories = ["
          ++ (directory_list template.scratch_directory roots ++ codes "]"))
  unfolding directory_list head_or
  directories-IsClosed roots rs =
      let dirs = roots ++ template.scratch_directory ∷ [] in
      let as' = All-append IsAscii roots (template.scratch_directory ∷ []) rs (a.directory, tt) in
      prefix_then 83 _ (literals dirs ++ codes "]") (setting_directories _)
        (All-append (λ d. d < 128) (literals dirs) (codes "]") (literals-IsAscii dirs as')
          (omega arith))
        (literals-Passes dirs (codes "]") (some b';') refl bracket-Passes)

  confining-IsClosed :
      (roots : List Bytes) → All IsAscii roots → All IsClosed (confining_statements template roots)
  unfolding confining_statements is_closed
  confining-IsClosed roots rs = (
    set_literal-IsClosed 83 _ template.scratch_directory setting_directory a.directory,
    (
      set_literal-IsClosed 83 _ template.scratch_max_size setting_size a.size,
      (directories-IsClosed roots rs, (is_closed_sound _ refl, tt)),
    ),
  )

  middle-IsClosed :
      (writer : Bool) (roots : List Bytes)
      → All IsAscii roots
      → All IsClosed (if writer then [] else confining_statements template roots)
  middle-IsClosed true roots rs = tt
  middle-IsClosed false roots rs = confining-IsClosed roots rs

  locking : All IsClosed (codes "SET lock_configuration = true" ∷ [])
  unfolding is_closed
  locking = (is_closed_sound _ refl, tt)

  block-IsClosed :
      (writer : Bool) (roots : List Bytes)
      → All IsAscii roots
      → All IsClosed (lockdown_block template writer roots)
  unfolding lockdown_block
  block-IsClosed writer roots rs = All-append IsClosed preset_statements _ preset-IsClosed (
      All-append IsClosed (if writer then [] else confining_statements template roots) _
        (middle-IsClosed writer roots rs) locking)

-- Whatever an ASCII scratch directory, size and roots hold, quotes and semicolons included, the
-- lockdown text splits into exactly the statements of the block, for a writer and a non-writer.
pub split-lockdown_sql :
    (template : LockdownTemplate) (writer : Bool) (roots : List Bytes)
    → IsAsciiTemplate template
    → All IsAscii roots
    → split_top_level_statements (lockdown_sql template writer roots)
      ≡ on_lines (lockdown_block template writer roots)
unfolding lockdown_sql
split-lockdown_sql template writer roots a rs =
    split_from-join_each (lockdown_block template writer roots)
      (block-IsClosed template a writer roots rs)
