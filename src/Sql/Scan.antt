-- ===== src/Sql/Scan.antt =====
-- duckvis/attach.rs: `scan`, over characters. Its one caller passes what `strip_comments` returned,
-- whose characters lie below 256: the classes of `Text` are the Unicode ones there.
use swanlake.Prelude.{
  ℕ, zero, suc, ◌+◌, ◌*◌, ◌%◌, Bool, true, false, ◌&&◌, ◌||◌, List, [], ◌∷◌, ◌++◌, Option, none,
  some, ltb, leb, ◌==◌, if◌then◌else◌, head?,
}
use swanlake.Text.{Bytes, is_whitespace, is_alphanumeric}
use swanlake.Sql.Lexer.{next_is, is_quote}

-- `str::chars`: a character is completed by its last byte. `value` holds the bits read of it, and
-- `pending` the number of its bytes that are to come.
record Decode : Type 0 where
  char : Option ℕ
  value : ℕ
  pending : ℕ

decode : ℕ → ℕ → ℕ → Decode
decode value pending b =
    if leb 128 b && ltb b 192
    then (if pending == 1
        then record { char = some (value * 64 + b % 64); value = 0; pending = 0 }
        else record { char = none; value = value * 64 + b % 64; pending = pred pending })
    else if ltb b 128
    then record { char = some b; value = 0; pending = 0 }
    else if ltb b 224
    then record { char = none; value = b % 32; pending = 1 }
    else if ltb b 240
    then record { char = none; value = b % 16; pending = 2 }
    else record { char = none; value = b % 8; pending = 3 }
  where
    pred : ℕ → ℕ
    pred zero = zero
    pred (suc n) = n

abbrev completed : Option ℕ → List ℕ → List ℕ
completed none cs = cs
completed (some c) cs = c ∷ cs

unfoldable pub chars_from : ℕ → ℕ → Bytes → List ℕ
unfolding decode
chars_from value pending [] = []
chars_from value pending (b ∷ rest) =
    let d = decode value pending b in completed d.char (chars_from d.value d.pending rest)

-- The text of a token is a list of characters.
pub data Scanned : Type 0 where
  word : List ℕ → Bool → Scanned
  literal : List ℕ → Scanned
  punct : ℕ → Scanned

-- Between tokens, or inside one, with what was read of it.
pub data ScanState : Type 0 where
  idle : ScanState
  in_quote : ℕ → List ℕ → ScanState
  in_escape : ℕ → List ℕ → ScanState
  in_word : List ℕ → ScanState

abbrev pub closed : ℕ → List ℕ → Scanned
closed q text = if q == 34 then word text true else literal text

unfoldable pub opens_token : ℕ → List Scanned × ScanState
unfolding is_whitespace is_alphanumeric
opens_token c =
    if is_whitespace c
    then ([], idle)
    else if is_quote c
    then ([], in_quote c [])
    else if is_alphanumeric c || c == b'_'
    then ([], in_word (c ∷ []))
    else (punct c ∷ [], idle)

-- A round: the tokens that end at `c`, and the state behind it.
unfoldable pub scan_step : ScanState → ℕ → Option ℕ → List Scanned × ScanState
unfolding opens_token is_alphanumeric
scan_step idle c next = opens_token c
scan_step (in_quote q text) c next =
    if c == q
    then (if next_is q next then ([], in_escape q (text ++ q ∷ [])) else (closed q text ∷ [], idle))
    else ([], in_quote q (text ++ c ∷ []))
scan_step (in_escape q text) c next = ([], in_quote q text)
scan_step (in_word text) c next =
    if is_alphanumeric c || c == b'_' || c == b'$'
    then ([], in_word (text ++ c ∷ []))
    else (let (out, state) = opens_token c in (word text false ∷ out, state))

unfoldable pub scan_end : ScanState → List Scanned
scan_end idle = []
scan_end (in_quote q text) = closed q text ∷ []
scan_end (in_escape q text) = closed q text ∷ []
scan_end (in_word text) = word text false ∷ []

unfoldable pub scan_from : ScanState → List ℕ → List Scanned
unfolding scan_step scan_end
scan_from state [] = scan_end state
scan_from state (c ∷ rest) = let r = scan_step state c (head? rest) in r.0 ++ scan_from r.1 rest

unfoldable pub scan : Bytes → List Scanned
unfolding scan_from chars_from
scan sql = scan_from idle (chars_from 0 0 sql)
