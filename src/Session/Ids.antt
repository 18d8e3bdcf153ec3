-- ===== src/Session/Ids.antt =====
-- session/id.rs: the identifiers of statements and transactions as bytes, and
-- service/handlers/ticket.rs: the tickets that carry them.
pub mod BigEndian
mod Tests
use swanlake.Prelude.{
  ℕ, zero, suc, ◌+◌, ◌*◌, ◌/◌, ◌%◌, Bool, true, false, List, [], ◌∷◌, ◌++◌, Option, none, some,
  ◌==◌, length, is_empty, if◌then◌else◌,
}
use swanlake.Text.{Bytes}

-- `to_be_bytes` of a number with `k` bytes.
unfoldable pub be_bytes : ℕ → ℕ → Bytes
be_bytes zero n = []
be_bytes (suc k) n = be_bytes k (n / 256) ++ n % 256 ∷ []

-- `from_be_bytes` behind the bytes of `n`.
unfoldable pub from_be : ℕ → Bytes → ℕ
from_be n [] = n
from_be n (b ∷ bs) = from_be (n * 256 + b) bs

unfoldable pub to_bytes : ℕ → Bytes
unfolding be_bytes
to_bytes id = be_bytes 8 id

unfoldable pub from_bytes : Bytes → Option ℕ
unfolding from_be
from_bytes bytes = if length bytes == 8 then some (from_be 0 bytes) else none

pub data StatementTicketKind : Type 0 where
  prepared_ticket : StatementTicketKind
  ephemeral_ticket : StatementTicketKind

-- `kind` is the number that stands in the message.
pub record TicketStatementPayload : Type 0 where
  pub version : ℕ
  pub kind : ℕ
  pub statement_handle : Bytes
  pub fallback_sql : Option Bytes
  pub returns_rows : Option Bool

abbrev pub kind_code : StatementTicketKind → ℕ
kind_code prepared_ticket = 1
kind_code ephemeral_ticket = 2

unfoldable pub new_ticket : StatementTicketKind → TicketStatementPayload
new_ticket kind = record {
  version = 2;
  kind = kind_code kind;
  statement_handle = [];
  fallback_sql = none;
  returns_rows = none;
}

unfoldable pub with_handle : ℕ → TicketStatementPayload → TicketStatementPayload
unfolding to_bytes
with_handle handle t = record t { statement_handle = to_bytes handle }

unfoldable pub with_fallback_sql : Bytes → TicketStatementPayload → TicketStatementPayload
with_fallback_sql sql t = record t { fallback_sql = some sql }

unfoldable pub with_returns_rows : Bool → TicketStatementPayload → TicketStatementPayload
with_returns_rows returns_rows t = record t { returns_rows = some returns_rows }

unfoldable pub ticket_handle : TicketStatementPayload → Option ℕ
unfolding from_bytes
ticket_handle t = if is_empty t.statement_handle then none else from_bytes t.statement_handle

-- `StatementTicketKind::try_from(self.kind).ok()`
unfoldable pub ticket_kind : TicketStatementPayload → Option StatementTicketKind
ticket_kind t =
    if t.kind == 1
    then some prepared_ticket
    else if t.kind == 2
    then some ephemeral_ticket
    else none

unfoldable pub returns_rows_flag : TicketStatementPayload → Bool
returns_rows_flag t = elim t.returns_rows [ none ↦ true | some b ↦ b ]
