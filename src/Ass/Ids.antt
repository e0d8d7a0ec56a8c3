-- ===== src/Ass/Ids.antt =====
-- internal/ass/shell_sessions.go `normalizeShellSessionID`: the identifiers of sessions and jobs.
use Prim.Native.Char.{code}
use aiyolo.Base.{
  ℕ, ◌+◌, ◌≤◌, ◌<◌, ◌≡◌, ◌≢◌, String, Bool, false, ◌||◌, ◌==◌, ltb, leb, if◌then◌else◌, if_intro,
  arith,
}
use aiyolo.Text.{trim_space}

-- The bytes of a code point in UTF-8.
abbrev pub rune_length : ℕ → ℕ
rune_length n = if ltb n 128 then 1 else if ltb n 2048 then 2 else if ltb n 65536 then 3 else 4

unfoldable pub byte_length : String → ℕ
byte_length String.[] = 0
byte_length (String.◌∷◌ c s) = rune_length (code c) + byte_length s

-- `r <= 32 || strings.ContainsRune("/?#&=\\", r)`
abbrev pub is_dropped : ℕ → Bool
is_dropped n = leb n 32 || n == 47 || n == 63 || n == 35 || n == 38 || n == 61 || n == 92

-- The loop, with the length of the builder.
unfoldable pub kept_runes : ℕ → String → String
kept_runes built String.[] = ""
kept_runes built (String.◌∷◌ c s) =
    let grown = built + rune_length (code c) in
    let skipped = kept_runes built s in
    let rest = kept_runes grown s in
    if is_dropped (code c)
    then skipped
    else if leb 80 grown
    then String.◌∷◌ c ""
    else String.◌∷◌ c rest

-- `normalizeShellSessionID`; of a blank text it leaves the empty one.
unfoldable pub normalize_shell_session_id : String → String
normalize_shell_session_id value = kept_runes 0 (trim_space value)

-- A character of an identifier: no control character or blank of ASCII below the code of `!`, and none that
-- separates the parts of a path or of a query.
abbrev pub IsPlain : ℕ → Type 0
IsPlain n = (33 ≤ n) × (n ≢ 47) × (n ≢ 92) × (n ≢ 63) × (n ≢ 35) × (n ≢ 38) × (n ≢ 61)

abbrev pub IsSafe : String → Type 0
IsSafe String.[] = Unit
IsSafe (String.◌∷◌ c s) = IsPlain (code c) × IsSafe s

kept-IsPlain : (n : ℕ) → is_dropped n ≡ false → IsPlain n
kept-IsPlain n h = ground (arith, h)

record Fits (built : ℕ) (s : String) : Type 0 where
  safe : IsSafe s
  short : built + byte_length s ≤ 83

kept_runes-Fits : (built : ℕ) (s : String) → built < 80 → Fits built (kept_runes built s)
unfolding kept_runes byte_length
kept_runes-Fits built String.[] h = record { safe = tt; short = omega (arith, h) }
kept_runes-Fits built (String.◌∷◌ c s) h =
    let grown = built + rune_length (code c) in
    if_intro (Fits built) (is_dropped (code c)) (λ _. kept_runes-Fits built s h)
      λ kept.
        if_intro (Fits built) (leb 80 grown)
          (λ _. record { safe = (kept-IsPlain (code c) kept, tt); short = ground (arith, h) })
          λ more.
            let rest = kept_runes-Fits grown s (ground (arith, more)) in
            record {
              safe = (kept-IsPlain (code c) kept, rest.safe);
              short = ground (arith, rest.short);
            }

-- An identifier has no slash, backslash, question mark, number sign, ampersand or equals sign, no character
-- up to the code 32, and at most 83 bytes.
pub normalize_shell_session_id-IsSafe :
    (value : String)
    → IsSafe (normalize_shell_session_id value)
      × (byte_length (normalize_shell_session_id value) ≤ 83)
unfolding normalize_shell_session_id
normalize_shell_session_id-IsSafe value =
    let fits = kept_runes-Fits 0 (trim_space value) (omega arith) in
    (fits.safe, omega (arith, fits.short))
