-- ===== src/Session/Engine.antt =====
-- What a session uses of its DuckDB connection and of the file system. Neither is code of this
-- repository: each call is a function of the world that also returns the world behind it.
use swanlake.Prelude.{ℕ, Bool, List, Option}
use swanlake.Text.{Bytes}
use swanlake.Error.{Result}

pub record Engine : Type 1 where
  pub World : Type 0
  -- `connection.execute_batch` and `connection.execute_statement`
  pub execute_batch : Bytes → World → Result (Unit {0}) × World
  pub execute_statement : Bytes → World → Result ℕ × World
  -- `fs::create_dir_all`: the text of the error, if it fails.
  pub create_dir_all : Bytes → World → Option Bytes × World
  -- the query of `attach_catalog` for an attached database
  pub is_attached : Bytes → World → Result Bool × World
  -- `ducklake_data_roots`
  pub data_roots : Bytes → World → Result (List Bytes) × World
