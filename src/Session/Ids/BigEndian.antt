-- ===== src/Session/Ids/BigEndian.antt =====
-- The big-endian form is a bijection between the numbers of 64 bits and the lists of eight bytes.
use swanlake.Prelude.{
  ℕ, zero, suc, ◌+◌, ◌*◌, ◌/◌, ◌%◌, ◌^◌, ◌<◌, ◌≡◌, refl, sym, ap, ap₂, ◌∙◌, Bool, true, [], ◌∷◌,
  ◌++◌, Option, none, some, ◌==◌, ==_iff, append_assoc, append-nil, arith, length, length-append,
  All, if◌then◌else◌, Bool-cases, inl, inr,
}
use swanlake.Text.{Bytes}
use swanlake.Session.Ids.{
  be_bytes, from_be, to_bytes, from_bytes, StatementTicketKind, prepared_ticket, ephemeral_ticket,
  new_ticket, with_handle, with_fallback_sql, with_returns_rows, ticket_handle, ticket_kind,
  returns_rows_flag,
}

abbrev map_option : (ℕ → Bytes) → Option ℕ → Option Bytes
map_option f none = none
map_option f (some n) = some (f n)

from_be-append : (n b : ℕ) (bs : Bytes) → from_be n (bs ++ b ∷ []) ≡ from_be n bs * 256 + b
unfolding from_be
from_be-append n b [] = refl
from_be-append n b (c ∷ bs) = from_be-append (n * 256 + c) b bs

length-be_bytes : (k n : ℕ) → length (be_bytes k n) ≡ k
unfolding be_bytes
length-be_bytes zero n = refl
length-be_bytes (suc k) n =
    omega (arith, length-be_bytes k (n / 256), length-append (be_bytes k (n / 256)) (n % 256 ∷ []))

-- A byte more is worth a factor of 256.
from_be-be_bytes : (k n : ℕ) → n < 256 ^ k → from_be 0 (be_bytes k n) ≡ n
unfolding be_bytes from_be
from_be-be_bytes zero n h = omega arith
from_be-be_bytes (suc k) n h = omega (
  arith,
  from_be-append 0 (n % 256) (be_bytes k (n / 256)),
  from_be-be_bytes k (n / 256) (omega arith),
)

be_bytes-from_be :
    (bs : Bytes) (k j n : ℕ)
    → k ≡ length bs + j
    → All (λ b. b < 256) bs
    → be_bytes k (from_be n bs) ≡ be_bytes j n ++ bs
unfolding be_bytes from_be
be_bytes-from_be [] k j n e h =
    ap (λ i. be_bytes i n) {x = k} {y = j} (omega arith) ∙ sym (append-nil (be_bytes j n))
be_bytes-from_be (b ∷ bs) k j n e (small, h) =
    be_bytes-from_be bs k (suc j) (n * 256 + b) (omega arith) h
    ∙ (append_assoc (be_bytes j ((n * 256 + b) / 256)) ((n * 256 + b) % 256 ∷ []) bs
        ∙ ap₂ (λ m c. be_bytes j m ++ c ∷ bs) (omega arith) (omega arith))

-- The eight bytes of an identifier of 64 bits give it back, and a list of bytes is read exactly if
-- there are eight of them; the identifier that is read has these bytes.
pub from_bytes-to_bytes :
    (id : ℕ) (bytes : Bytes)
    → id < 2 ^ 64
    → All (λ b. b < 256) bytes
    → (from_bytes (to_bytes id) ≡ some id)
      × (length (to_bytes id) ≡ 8)
      × (map_option to_bytes (from_bytes bytes) ≡ (if length bytes == 8 then some bytes else none))
unfolding from_bytes to_bytes
from_bytes-to_bytes id bytes bound small = (
  ap (λ n. some n) (from_be-be_bytes 8 id bound),
  length-be_bytes 8 id,
  elim (Bool-cases (length bytes == 8)) [
    | inl eight ↦ rw eight (
        ap (λ b. some b)
          (be_bytes-from_be bytes 8 0 0 (ground (arith, (==_iff (length bytes) 8).0 eight)) small))
    | inr other ↦ rw other refl
  ],
)

-- A ticket gives back the kind, the handle of 64 bits and the flag that it was made with; without a
-- handle it has none, and without a flag it is a query's.
pub ticket_reads :
    (kind : StatementTicketKind) (handle : ℕ) (sql : Bytes) (returns_rows : Bool)
    → handle < 2 ^ 64
    → let t =
        with_returns_rows returns_rows
          (with_fallback_sql sql (with_handle handle (new_ticket kind))) in
      (ticket_handle t ≡ some handle)
      × (ticket_kind t ≡ some kind)
      × (returns_rows_flag t ≡ returns_rows)
      × (t.fallback_sql ≡ some sql)
      × (ticket_handle (new_ticket kind) ≡ none)
      × (returns_rows_flag (new_ticket kind) ≡ true)
unfolding with_returns_rows with_fallback_sql with_handle new_ticket ticket_handle ticket_kind
    from_bytes returns_rows_flag
ticket_reads kind handle sql returns_rows bound =
    (ap (λ n. some n) (from_be-be_bytes 8 handle bound), kind_read kind, refl, refl, refl, refl)
  where
    kind_read :
        (k : StatementTicketKind)
        → ticket_kind (
            with_returns_rows returns_rows
              (with_fallback_sql sql (with_handle handle (new_ticket k))))
          ≡ some k
    kind_read prepared_ticket = refl
    kind_read ephemeral_ticket = refl
