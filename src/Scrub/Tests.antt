-- ===== src/Scrub/Tests.antt =====
-- The texts of the unit tests in scrub.rs, and a value with a doubled quote.
use swanlake.Prelude.{◌≡◌, refl, [], ◌++◌, arith, done, IsDone, ◌>>=◌}
use swanlake.Text.{Bytes, codes, to_ascii_lowercase, starts_with}
use swanlake.Scrub.{redacted, is_ascii_whitespace, scrub_error_text}
use swanlake.Scrub.Parts.{IsStr}
use swanlake.Scrub.Ends.{scrub_error_text-IsDone}
use swanlake.Scrub.Values.{quoted}
use swanlake.Scrub.Redacts.{with_value, scrub_error_text_redacts}

abbrev dsn : Bytes
dsn =
    with_value (codes "x ") (codes "PassWord") (codes " ") [] (quoted (codes "ab'cd"))
      (codes " host=h")

abbrev scrubbed : Bytes
scrubbed = codes "x PassWord=[redacted] host=h"

doubled_quotes : scrub_error_text dsn ≡ done scrubbed
unfolding scrub_error_text
doubled_quotes = refl

unterminated : scrub_error_text (codes "password='abc") ≡ done (codes "password=[redacted]")
unfolding scrub_error_text
unterminated = refl

several :
    scrub_error_text (codes "a password=x b password='y' c")
    ≡ done (codes "a password=[redacted] b password=[redacted] c")
unfolding scrub_error_text
several = refl

bare_word :
    scrub_error_text (codes "not exist; password prompt")
    ≡ done (codes "not exist; password prompt")
unfolding scrub_error_text
bare_word = refl

dsn-IsStr : IsStr dsn
dsn-IsStr = ground arith

scrub_error_text-IsDone_example : IsDone (scrub_error_text dsn)
scrub_error_text-IsDone_example = scrub_error_text-IsDone dsn dsn-IsStr

scrub_error_text_redacts_example : scrub_error_text dsn ≡ (
    scrub_error_text (codes " host=h") >>= λ tail.
    done ((codes "x " ++ codes "PassWord") ++ (redacted ++ tail)))
unfolding to_ascii_lowercase starts_with is_ascii_whitespace
scrub_error_text_redacts_example =
    scrub_error_text_redacts (codes "x ") (codes "PassWord") (codes " ") [] (quoted (codes "ab'cd"))
      (codes " host=h") refl (refl, (refl, tt)) (refl, tt) tt refl dsn-IsStr
