-- ===== src/Scrub/Ends.antt =====
-- scrub.rs: the loop ends, and no slice of it falls inside a character.
use swanlake.Prelude.{
  ℕ, zero, suc, ◌<◌, ◌≡◌, refl, sym, subst, false, [], ◌∷◌, ◌++◌, Option, none, some, length, arith,
  done, IsDone,
}
use swanlake.Text.{Bytes, starts_inside, slice}
use swanlake.Scrub.{Found, find_key, after_key, at_key, searched, scrub_from, scrub_error_text}
use swanlake.Scrub.Parts.{IsStr, find_key-IsFound, after-Behind, after_key-Behind}

pub slice_done :
    (s t : Bytes) → starts_inside s ≡ false → starts_inside t ≡ false → slice s t ≡ done s
unfolding slice
slice_done s t h k = rw (h, k) refl

starts_inside-append :
    (p s : Bytes)
    → starts_inside p ≡ false
    → starts_inside s ≡ false
    → starts_inside (p ++ s) ≡ false
starts_inside-append [] s h k = k
starts_inside-append (c ∷ p) s h k = h

starts_inside-append_left : (p s : Bytes) → starts_inside (p ++ s) ≡ false → starts_inside p ≡ false
starts_inside-append_left [] s h = refl
starts_inside-append_left (c ∷ p) s h = h

pub starts_inside_head :
    (b k a : Bytes) → starts_inside (b ++ (k ++ a)) ≡ false → starts_inside (b ++ k) ≡ false
starts_inside_head [] k a h = starts_inside-append_left k a h
starts_inside_head (c ∷ b) k a h = h

abbrev Loop : ℕ → Type 0
Loop rounds =
    (pending rest : Bytes)
    → starts_inside pending ≡ false
    → IsStr rest
    → length rest < rounds
    → IsDone (scrub_from rounds pending rest)

at_key-IsDone :
    (rounds : ℕ) (pending : Bytes) (f : Found) (o : Option Bytes)
    → Loop rounds
    → starts_inside (pending ++ (f.before ++ f.spelled)) ≡ false
    → IsStr f.after
    → length f.after < rounds
    → o ≡ after_key f.after
    → IsDone (at_key (scrub_from rounds) pending f o)
at_key-IsDone rounds pending f none ih p a l e = ih _ f.after p a l
at_key-IsDone rounds pending f (some v) ih p a l e =
    let (str, short) = after_key-Behind f.after v a (sym e) in
    let (tail, t) = ih [] v refl str (omega arith) in rw (slice_done _ f.after p a.0, t) (_, refl)

searched-IsDone :
    (rounds : ℕ) (pending rest : Bytes) (o : Option Found)
    → Loop rounds
    → starts_inside pending ≡ false
    → IsStr rest
    → length rest < suc rounds
    → o ≡ find_key rest
    → IsDone (searched (scrub_from rounds) pending rest o)
searched-IsDone rounds pending rest none ih p r l e =
    rw (slice_done (pending ++ rest) [] (starts_inside-append pending rest p r.0) refl) (_, refl)
searched-IsDone rounds pending rest (some f) ih p r l e =
    let found = find_key-IsFound rest f (sym e) in
    let (str, short) = after-Behind rest f found r.1 in
    let head =
      starts_inside_head f.before f.spelled f.after
        (subst (λ s. starts_inside s ≡ false) found.whole r.0) in
    at_key-IsDone rounds pending f (after_key f.after) ih
      (starts_inside-append pending (f.before ++ f.spelled) p head) str (omega arith) refl

scrub_from-IsDone : (rounds : ℕ) → Loop rounds
unfolding scrub_from
scrub_from-IsDone zero pending rest p r l = absurd (omega arith)
scrub_from-IsDone (suc rounds) pending rest p r l =
    rw (slice_done rest [] r.0 refl)
      (searched-IsDone rounds pending rest (find_key rest) (scrub_from-IsDone rounds) p r l refl)

-- Redaction ends with a text on every error text, if that is UTF-8 as far as it is asked here: it
-- begins_with with a character, and no byte inside a character follows an ASCII byte. A round for each
-- byte and one more are enough for the loop, and none of its slices panics.
pub scrub_error_text-IsDone : (text : Bytes) → IsStr text → IsDone (scrub_error_text text)
unfolding scrub_error_text
scrub_error_text-IsDone text h = scrub_from-IsDone (suc (length text)) [] text refl h (omega arith)
