-- ===== src/Session/SchemaCache.antt =====
-- session/mod.rs: `SchemaCache`, the schemas of a session's last 128 queries. The schema type is
-- that of the Arrow library.
pub mod Bounds
pub mod Recency
mod Tests
use swanlake.Prelude.{ℕ, Bool, List, [], ◌∷◌, ◌++◌, Option, none, some, ltb, true, false, length}
use swanlake.Text.{Bytes}
use swanlake.Dict.{bytes_key, lookup, insert, remove, discard}

pub record SchemaCache (S : Type 0) : Type 0 where
  pub entries : List (Bytes × S)
  pub order : List Bytes

abbrev pub schema_cache_capacity : ℕ
schema_cache_capacity = 128

module _ {S : Type 0} where
  abbrev pub new : SchemaCache S
  new = record { entries = []; order = [] }

  -- The oldest key stands at the front of `order`.
  unfoldable pub touch_key : Bytes → SchemaCache S → SchemaCache S
  unfolding discard
  touch_key key c = record c { order = discard key c.order ++ key ∷ [] }

  unfoldable pub get : Bytes → SchemaCache S → Option S × SchemaCache S
  unfolding touch_key lookup
  get key c = elim (lookup key c.entries) [
    | none ↦ (none, c)
    | some schema ↦ (some schema, touch_key key c)
  ]

  -- The loop of `evict_if_needed`, over what is left of `order`.
  unfoldable pub evict : List (Bytes × S) → List Bytes → SchemaCache S
  unfolding remove
  evict entries [] = record { entries = entries; order = [] }
  evict entries (oldest ∷ order) = elim (ltb schema_cache_capacity (length entries)) [
    | true ↦ evict (remove oldest entries) order
    | false ↦ record { entries = entries; order = oldest ∷ order }
  ]

  unfoldable pub evict_if_needed : SchemaCache S → SchemaCache S
  unfolding evict
  evict_if_needed c = evict c.entries c.order

  unfoldable pub insert_schema : Bytes → S → SchemaCache S → SchemaCache S
  unfolding touch_key evict_if_needed insert
  insert_schema key schema c =
      evict_if_needed (touch_key key (record c { entries = insert key schema c.entries }))

  unfoldable pub clear : SchemaCache S → SchemaCache S
  clear c = record { entries = []; order = [] }
