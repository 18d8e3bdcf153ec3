-- ===== src/Text.antt =====
-- Rust's `String` as the list of its UTF-8 bytes, with what the SQL code uses of the standard
-- library: `u8 as char`, the character classes of Latin-1, slices, ASCII and Latin-1 case.
use Prim.Native.Char.{code}
use Prim.Native.String.{String}
use swanlake.Prelude.{
  ℕ, ◌+◌, ◌-◌, ◌/◌, ◌%◌, ◌<◌, ◌≡◌, refl, Bool, true, false, ◌&&◌, ◌||◌, not, List, [], ◌∷◌, map,
  arith, ltb, leb, ◌==◌, if◌then◌else◌, is_empty, Checked, done, panicked, All, ◌↔◌, Option, none,
  some,
}

abbrev pub Bytes : Type 0
Bytes = List ℕ

-- The code points of a literal, which are its bytes where it is ASCII.
abbrev pub codes : String → Bytes
codes String.[] = []
codes (String.◌∷◌ c s) = code c ∷ codes s

-- `string.push(byte as char)`: the byte is read as a Latin-1 character and encoded again.
abbrev pub latin1 : ℕ → Bytes
latin1 b = if ltb b 128 then b ∷ [] else (192 + b / 64) ∷ (128 + b % 64) ∷ []

abbrev pub IsAscii : Bytes → Type 0
IsAscii = All (λ b. b < 128)

pub latin1_ascii : (b : ℕ) → b < 128 → latin1 b ≡ b ∷ []
latin1_ascii b h = ground arith

-- `char::is_whitespace` below 256.
unfoldable pub is_whitespace : ℕ → Bool
is_whitespace c = (leb 9 c && leb c 13) || c == 32 || c == 133 || c == 160

between : ℕ → ℕ → ℕ → Bool
between lo hi c = leb lo c && leb c hi

-- `char::is_alphanumeric` below 256: the letters, the digits, and the numeric signs.
unfoldable pub is_alphanumeric : ℕ → Bool
unfolding between
is_alphanumeric c =
    between 48 57 c
    || between 65 90 c
    || between 97 122 c
    || c == 170
    || c == 178
    || c == 179
    || c == 181
    || c == 185
    || c == 186
    || between 188 190 c
    || between 192 214 c
    || between 216 246 c
    || between 248 255 c

-- `char::is_ascii_alphanumeric`
unfoldable pub is_ascii_alphanumeric : ℕ → Bool
unfolding between
is_ascii_alphanumeric c = between 48 57 c || between 65 90 c || between 97 122 c

unfoldable pub is_ascii_letter : ℕ → Bool
unfolding between
is_ascii_letter c = between 65 90 c || between 97 122 c

unfoldable pub to_ascii_lower : ℕ → ℕ
to_ascii_lower c = if leb 65 c && leb c 90 then c + 32 else c

unfoldable pub to_ascii_lowercase : Bytes → Bytes
unfolding to_ascii_lower
to_ascii_lowercase = map to_ascii_lower

unfoldable pub bytes_eq : Bytes → Bytes → Bool
bytes_eq [] [] = true
bytes_eq (a ∷ as') (b ∷ bs) = a == b && bytes_eq as' bs
bytes_eq _ _ = false

unfoldable pub eq_ignore_ascii_case : Bytes → Bytes → Bool
unfolding bytes_eq to_ascii_lowercase
eq_ignore_ascii_case a b = bytes_eq (to_ascii_lowercase a) (to_ascii_lowercase b)

unfoldable pub starts_with : Bytes → Bytes → Bool
starts_with s [] = true
starts_with [] (p ∷ ps) = false
starts_with (c ∷ s) (p ∷ ps) = c == p && starts_with s ps

-- `s.strip_prefix(prefix)`
unfoldable pub strip_prefix : Bytes → Bytes → Option Bytes
strip_prefix [] s = some s
strip_prefix (p ∷ ps) [] = none
strip_prefix (p ∷ ps) (c ∷ s) = let rest = strip_prefix ps s in if c == p then rest else none

unfoldable pub contains : Bytes → Bytes → Bool
unfolding starts_with
contains [] p = starts_with [] p
contains (c ∷ s) p = starts_with (c ∷ s) p || contains s p

-- `str::to_uppercase` for the characters below 256, and for the two above them whose upper case is
-- an ASCII letter, U+017F and U+0131. The rest are left as they are: the callers compare the front
-- of the result with ASCII keywords.
unfoldable pub to_uppercase : Bytes → Bytes
to_uppercase [] = []
to_uppercase (c ∷ []) = (if leb 97 c && leb c 122 then c - 32 else c) ∷ []
to_uppercase (c ∷ d ∷ rest) =
    let one = to_uppercase (d ∷ rest) in
    let two = to_uppercase rest in
    if c == 195 && d == 159
    then 83 ∷ 83 ∷ two
    else if c == 195 && d == 191
    then 197 ∷ 184 ∷ two
    else if c == 195 && leb 160 d && leb d 190 && not (d == 183)
    then 195 ∷ (d - 32) ∷ two
    else if c == 194 && d == 181
    then 206 ∷ 156 ∷ two
    else if c == 197 && d == 191
    then 83 ∷ two
    else if c == 196 && d == 177
    then 73 ∷ two
    else (if leb 97 c && leb c 122 then c - 32 else c) ∷ one

-- A slice may not begin or end inside a character: at a byte that continues one.
abbrev pub starts_inside : Bytes → Bool
starts_inside [] = false
starts_inside (b ∷ bs) = leb 128 b && ltb b 192

-- `&s[i..j]`, where `taken` stands between the bounds and `rest` behind them.
unfoldable pub slice : Bytes → Bytes → Checked Bytes
slice taken rest = if starts_inside taken || starts_inside rest then panicked else done taken

pub bytes_eq_iff : (a b : Bytes) → (bytes_eq a b ≡ true) ↔ (a ≡ b)
unfolding bytes_eq
bytes_eq_iff [] [] = (λ _. refl, λ _. refl)
bytes_eq_iff [] (b ∷ bs) = ground arith
bytes_eq_iff (a ∷ as') [] = ground arith
bytes_eq_iff (a ∷ as') (b ∷ bs) = ground (arith, bytes_eq_iff as' bs)

-- `str::trim_start`: the white space of Unicode, by its UTF-8 bytes.
unfoldable pub trim_start : Bytes → Bytes
trim_start [] = []
trim_start (a ∷ []) = if (leb 9 a && leb a 13) || a == 32 then [] else a ∷ []
trim_start (a ∷ b ∷ []) =
    let after = trim_start (b ∷ []) in
    if (leb 9 a && leb a 13) || a == 32
    then after
    else if a == 194 && (b == 133 || b == 160)
    then []
    else a ∷ b ∷ []
trim_start (a ∷ b ∷ c ∷ rest) =
    let one = trim_start (b ∷ c ∷ rest) in
    let two = trim_start (c ∷ rest) in
    let three = trim_start rest in
    if (leb 9 a && leb a 13) || a == 32
    then one
    else if a == 194 && (b == 133 || b == 160)
    then two
    else if (a == 225 && b == 154 && c == 128)
        || (a == 226 && b == 128 && (leb c 138 || c == 168 || c == 169 || c == 175))
        || (a == 226 && b == 129 && c == 159)
        || (a == 227 && b == 128 && c == 128)
    then three
    else a ∷ b ∷ c ∷ rest

-- `str::trim_end` and `str::trim`. No character but white space ends in the bytes of white space.
unfoldable pub trim_end : Bytes → Bytes
unfolding trim_start
trim_end [] = []
trim_end (c ∷ s) = let rest = trim_end s in if is_empty (trim_start (c ∷ s)) then [] else c ∷ rest

unfoldable pub trim : Bytes → Bytes
unfolding trim_start trim_end
trim s = trim_end (trim_start s)

-- The order of `String`: by its bytes.
unfoldable pub bytes_less : Bytes → Bytes → Bool
bytes_less s [] = false
bytes_less [] (b ∷ t) = true
bytes_less (a ∷ s) (b ∷ t) = let rest = bytes_less s t in ltb a b || (a == b && rest)
