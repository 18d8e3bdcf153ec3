-- ===== src/Service/Requests/Statuses.antt =====
-- service/mod.rs: the statuses of the errors that a request ends with.
use swanlake.Prelude.{◌≡◌, refl, ◌++◌, Option, none, some, Checked, done, ◌>>=◌}
use swanlake.Text.{Bytes, codes}
use swanlake.Error.{
  ServerError, cancelled, duck_db, arrow, transaction_aborted, transaction_not_found,
  prepared_statement_not_found, max_sessions_reached, unsupported_parameter, internal,
  attach_not_permitted, attachment_requires_session_recreation, write_not_permitted,
  persistent_secret_not_permitted, reserved_name_not_permitted,
}
use swanlake.Duckvis.{Status, Code, into_status}
use swanlake.Scrub.{scrub_error_text}
use swanlake.Service.Requests.{Rejection, duckvis, server, recreated, missing_binding}

-- The texts of the engine and of the source are redacted.
unfoldable pub status_from_error : ServerError → Checked Status
unfolding scrub_error_text
status_from_error cancelled = done (Code.cancelled, codes "query cancelled")
status_from_error (duck_db e) = do
  msg ← scrub_error_text e
  done (Code.internal, codes "duckdb error: " ++ msg)
status_from_error (arrow e) = done (Code.internal, codes "arrow error: " ++ e)
status_from_error transaction_aborted =
    done (
      Code.failed_precondition,
      codes "transaction aborted and rolled back; start a new transaction",
    )
status_from_error transaction_not_found = done (Code.invalid_argument, codes "unknown transaction")
status_from_error prepared_statement_not_found =
    done (Code.invalid_argument, codes "unknown prepared statement")
status_from_error max_sessions_reached =
    done (Code.resource_exhausted, codes "maximum number of sessions reached")
status_from_error (unsupported_parameter param) =
    done (Code.invalid_argument, codes "unsupported parameter type: " ++ param)
status_from_error (internal e) = do
  msg ← scrub_error_text e
  done (Code.internal, codes "internal error: " ++ msg)
status_from_error attach_not_permitted =
    done
      (Code.permission_denied, codes "ATTACH is managed by duckvis; use the duckvis_attach action")
status_from_error attachment_requires_session_recreation =
    done
      (Code.failed_precondition, codes "session recreation required: new attachment after lockdown")
status_from_error (write_not_permitted what) =
    done (Code.permission_denied, what ++ codes " requires the project's write permission")
status_from_error persistent_secret_not_permitted =
    done (Code.permission_denied, codes "persistent secrets are not available in this session")
status_from_error reserved_name_not_permitted = done (
  Code.permission_denied,
  codes "names starting with __duckvis_ are reserved for attachment secrets",
)

abbrev pub nonce_text : Option Bytes → Bytes
nonce_text none = codes "none"
nonce_text (some nonce) = nonce

unfoldable pub status_of : Rejection → Checked Status
unfolding into_status status_from_error
status_of (duckvis e) = done (into_status e)
status_of (server e) = status_from_error e
status_of (recreated expected there) = done (
  Code.failed_precondition,
  codes "session was recreated: expected nonce "
      ++ (expected ++ (codes ", got " ++ nonce_text there)),
)
status_of missing_binding = done (Code.internal, codes "session missing duckvis auth binding")

unknown_password :
    status_of (server (internal (codes "cannot open host=h password=pw1")))
    ≡ done (Code.internal, codes "internal error: cannot open host=h password=[redacted]")
unfolding status_of status_from_error scrub_error_text
unknown_password = refl
