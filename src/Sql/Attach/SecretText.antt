-- ===== src/Sql/Attach/SecretText.antt =====
-- The statement of a secret is one statement, whatever the values of its fields hold.
use swanlake.Prelude.{
  ℕ, ◌<◌, ◌≡◌, refl, sym, ap₂, subst, Bool, true, false, ◌&&◌, ◌||◌, not, List, [], ◌∷◌, ◌++◌,
  Option, none, some, arith, leb, ◌==◌, ==_iff, all, All, All-append, length, Bool-cases,
  Option-cases, inl, inr,
}
use swanlake.Text.{
  strip_prefix, Bytes, codes, IsAscii, bytes_eq, bytes_eq_iff, to_ascii_lowercase, is_ascii_letter,
  is_ascii_alphanumeric,
}
use swanlake.Sql.Lexer.{plain, split_top_level_statements}
use swanlake.Sql.Lexer.Ascii.{head_or}
use swanlake.Sql.Lexer.Pieces.{split_from_single}
use swanlake.Sql.Constructs.{reserved_secret_prefix}
use swanlake.Sql.Quoting.{doubled, join}
use swanlake.Sql.Quoting.Laws.{Passes}
use swanlake.Sql.Attach.{is_word}
use swanlake.Sql.Attach.Secrets.{
  is_lower_hex, is_bare_name, field_options, is_secret_name, secret_text, secret_statement,
}
use swanlake.Sql.Attach.Neutral.{
  and_both, and_intro, is_safe, safe-Passes, safe-IsAscii, Neutral, safe_then, safe-Neutral,
  option-Neutral, join-Neutral,
}

word_safe : (d : ℕ) → (is_ascii_alphanumeric d || d == 95) ≡ true → is_safe d ≡ true
unfolding is_ascii_alphanumeric is_safe
word_safe d h = ground arith

letter_safe : (c : ℕ) → (is_ascii_letter c || c == 95) ≡ true → is_safe c ≡ true
unfolding is_ascii_letter is_safe
letter_safe c h = ground arith

hex_safe : (b : ℕ) → ((leb 48 b && leb b 57) || (leb 97 b && leb b 102)) ≡ true → is_safe b ≡ true
unfolding is_safe
hex_safe b h = ground arith

all_safe :
    (p : ℕ → Bool) (f : (c : ℕ) → p c ≡ true → is_safe c ≡ true) (s : Bytes)
    → all p s ≡ true
    → all is_safe s ≡ true
all_safe p f [] h = refl
all_safe p f (c ∷ s) h =
    let both = (and_both (p c) (all p s) h) in and_intro (f c both.0) (all_safe p f s both.1)

bare_safe : (key : Bytes) → is_bare_name key ≡ true → all is_safe key ≡ true
unfolding is_bare_name
bare_safe [] h = absurd (cc h)
bare_safe (c ∷ s) h =
    let both = and_both (is_ascii_letter c || c == 95) _ h in
    and_intro (letter_safe c both.0) (all_safe _ word_safe s both.1)

strip_prefix_lem : (p name hex : Bytes) → strip_prefix p name ≡ some hex → name ≡ p ++ hex
unfolding strip_prefix
strip_prefix_lem [] name hex h = cc h
strip_prefix_lem (c ∷ p) [] hex h = absurd (cc h)
strip_prefix_lem (c ∷ p) (d ∷ name) hex h = elim (Bool-cases (d == c)) [
  | inr other ↦ absurd (cc (rw other at h))
  | inl same ↦ ap₂ ◌∷◌ ((==_iff d c).0 same) (strip_prefix_lem p name hex (rw same at h))
]

bare_fits : (a b : Bool) → (not a || b) ≡ false → a ≡ true
bare_fits a b h = ground arith

some_injective : {A : Type 0} {x y : A} → some x ≡ some y → x ≡ y
some_injective e = cc e

abbrev with_option : Bytes → Bytes → Option (List Bytes) → Option (List Bytes)
with_option key value none = none
with_option key value (some options) =
    some ((key ++ (codes " '" ++ (doubled 39 value ++ codes "'"))) ∷ options)

options-Neutral :
    (key value : Bytes) (r : Option (List Bytes)) (options : List Bytes)
    → all is_safe key ≡ true
    → IsAscii value
    → ((os : List Bytes) → r ≡ some os → All Neutral os)
    → with_option key value r ≡ some options
    → All Neutral options
options-Neutral key value none options safe v rest h = absurd (cc h)
options-Neutral key value (some os) options safe v rest h =
    subst (All Neutral) (some_injective h) (option-Neutral key value safe v, rest os refl)

fields-Neutral :
    (fields : List (Bytes × Bytes)) (options : List Bytes)
    → All (λ f. IsAscii f.1) fields
    → field_options fields ≡ some options
    → All Neutral options
unfolding field_options
fields-Neutral [] options a h = subst (All Neutral) (some_injective h) tt
fields-Neutral ((key, value) ∷ fields) options (v, a) h =
    elim (Bool-cases (not (is_bare_name key) || is_word (codes "TYPE") key)) [
      | inl refused ↦ absurd (cc (rw refused at h))
      | inr fits ↦
          options-Neutral key value (field_options fields) options
            (bare_safe key (bare_fits (is_bare_name key) _ fits)) v
            (λ os. fields-Neutral fields os a) (rw fits at h)
    ]

both_fit : (a b : Bool) → (not a || not b) ≡ false → (a ≡ true) × (b ≡ true)
both_fit a b h = ground arith

name_safe :
    (name : Bytes) (r : Option Bytes)
    → strip_prefix reserved_secret_prefix name ≡ r
    → is_secret_name r ≡ true
    → all is_safe name ≡ true
unfolding is_lower_hex is_safe
name_safe name none e h = absurd (cc h)
name_safe name (some hex) e h =
    subst (λ n. all is_safe n ≡ true) (sym (strip_prefix_lem reserved_secret_prefix name hex e))
      (all_safe _ hex_safe hex (and_both (length hex == 32) _ h).1)

kind_safe : (kind : Bytes) → bytes_eq kind (codes "postgres") ≡ true → all is_safe kind ≡ true
unfolding is_safe
kind_safe kind h =
    subst (λ k. all is_safe k ≡ true) (sym ((bytes_eq_iff kind (codes "postgres")).0 h)) refl

secret_text_single :
    (name kind : Bytes) (options : List Bytes)
    → all is_safe name ≡ true
    → all is_safe (to_ascii_lowercase kind) ≡ true
    → All Neutral options
    → split_top_level_statements (secret_text name kind options)
      ≡ secret_text name kind options ∷ []
unfolding split_top_level_statements is_safe head_or
secret_text_single name kind options safe_name safe_kind neutral =
    split_from_single plain [] (secret_text name kind options) ascii passes.whole
  where
    inner : Neutral (join (codes ", ") ((codes "TYPE " ++ to_ascii_lowercase kind) ∷ options))
    inner =
        join-Neutral _ (safe-Neutral (codes "TYPE " ++ to_ascii_lowercase kind) safe_kind, neutral)

    behind : Neutral (codes ")")
    behind = safe-Neutral (codes ")") refl

    end_passes : Passes plain (codes ")") none plain
    end_passes = safe-Passes (codes ")") none refl

    passes : Passes plain (secret_text name kind options) none plain
    passes = safe_then (codes "CREATE OR REPLACE TEMPORARY SECRET ") _ none refl (
        safe_then name _ none safe_name
          (safe_then (codes " (") _ none refl (inner.over (codes ")") none refl end_passes)))

    ascii : IsAscii (secret_text name kind options)
    ascii =
        All-append (λ c. c < 128) (codes "CREATE OR REPLACE TEMPORARY SECRET ") _
          (safe-IsAscii (codes "CREATE OR REPLACE TEMPORARY SECRET ") refl)
          (All-append (λ c. c < 128) name _ (safe-IsAscii name safe_name)
            (
              omega arith,
              (omega arith, All-append (λ c. c < 128) _ (codes ")") inner.ascii behind.ascii),
            ))

-- If the values are ASCII text, the statement that creates a secret splits into itself alone: no
-- value can end its literal and begin a statement of its own.
pub secret_statement-IsOneStatement :
    (name kind : Bytes) (fields : List (Bytes × Bytes)) (text : Bytes)
    → All (λ f. IsAscii f.1) fields
    → secret_statement name kind fields ≡ some text
    → split_top_level_statements text ≡ text ∷ []
unfolding secret_statement split_top_level_statements
secret_statement-IsOneStatement name kind fields text a made =
    elim (Bool-cases (
      not (is_secret_name (strip_prefix reserved_secret_prefix name))
      || not (bytes_eq (to_ascii_lowercase kind) (codes "postgres")))) [
        | inl refused ↦ absurd (cc (rw refused at made))
        | inr fits ↦
            let both =
              both_fit (is_secret_name (strip_prefix reserved_secret_prefix name)) _ fits in
            elim (Option-cases (field_options fields)) [
              | inl absent ↦ absurd (cc (rw (fits, absent) at made))
              | inr (options, there) ↦
                  subst (λ t. split_top_level_statements t ≡ t ∷ [])
                    (some_injective (rw (fits, there) at made))
                    (secret_text_single name kind options
                      (name_safe name (strip_prefix reserved_secret_prefix name) refl both.0)
                      (kind_safe (to_ascii_lowercase kind) both.1)
                      (fields-Neutral fields options a there))
            ]
      ]
