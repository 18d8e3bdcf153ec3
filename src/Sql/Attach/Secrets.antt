-- ===== src/Sql/Attach/Secrets.antt =====
-- duckvis/attach.rs: `secret_statement` and `catalog_search_path_sql`.
use swanlake.Prelude.{
  Bool, false, ◌&&◌, ◌||◌, not, List, [], ◌∷◌, ◌++◌, Option, none, some, ◌==◌, leb, if◌then◌else◌,
  all, length,
}
use swanlake.Text.{
  strip_prefix, Bytes, codes, bytes_eq, eq_ignore_ascii_case, to_ascii_lowercase, is_ascii_letter,
  is_ascii_alphanumeric,
}
use swanlake.Sql.Constructs.{reserved_secret_prefix}
use swanlake.Sql.Quoting.{doubled, join}
use swanlake.Sql.Attach.{is_word}

-- `hex.bytes().all(…)`: digits and the letters from a to f, in lower case.
unfoldable pub is_lower_hex : Bytes → Bool
is_lower_hex hex = all (λ b. (leb 48 b && leb b 57) || (leb 97 b && leb b 102)) hex

-- A name that begins with an ASCII letter or `_` and goes on with those and digits. A byte above
-- 127 belongs to a character that is refused.
unfoldable pub is_bare_name : Bytes → Bool
unfolding is_ascii_letter is_ascii_alphanumeric
is_bare_name [] = false
is_bare_name (c ∷ s) =
    (is_ascii_letter c || c == b'_') && all (λ d. is_ascii_alphanumeric d || d == b'_') s

unfoldable pub catalog_search_path_sql : Bytes → Option Bytes
unfolding is_bare_name
catalog_search_path_sql name =
    if is_bare_name name
    then some (codes "SET search_path = 'main," ++ (name ++ codes ".main'"))
    else none

-- The options of a secret, `none` where a key is refused. `fields` is in the order of its map.
unfoldable pub field_options : List (Bytes × Bytes) → Option (List Bytes)
unfolding is_bare_name eq_ignore_ascii_case doubled
field_options [] = some []
field_options ((key, value) ∷ fields) =
    if not (is_bare_name key) || is_word (codes "TYPE") key
    then none
    else elim (field_options fields) [
      | none ↦ none
      | some options ↦ some ((key ++ (codes " '" ++ (doubled 39 value ++ codes "'"))) ∷ options)
    ]

abbrev pub is_secret_name : Option Bytes → Bool
is_secret_name none = false
is_secret_name (some hex) = length hex == 32 && is_lower_hex hex

abbrev pub secret_text : Bytes → Bytes → List Bytes → Bytes
secret_text name kind options =
    codes "CREATE OR REPLACE TEMPORARY SECRET "
    ++ (name
        ++ (codes " ("
            ++ (join (codes ", ") ((codes "TYPE " ++ to_ascii_lowercase kind) ∷ options)
                ++ codes ")")))

unfoldable pub secret_statement : Bytes → Bytes → List (Bytes × Bytes) → Option Bytes
unfolding field_options is_lower_hex strip_prefix to_ascii_lowercase bytes_eq join
secret_statement name kind fields =
    if not (is_secret_name (strip_prefix reserved_secret_prefix name))
      || not (bytes_eq (to_ascii_lowercase kind) (codes "postgres"))
    then none
    else elim (field_options fields) [
      | none ↦ none
      | some options ↦ some (secret_text name kind options)
    ]
