-- ===== src/Ass/Output.antt =====
-- internal/ass/server.go: the output of a command that is kept up to a limit (`limitedOutput`).
use aiyolo.Base.{
  ℕ, zero, suc, ◌+◌, ◌-◌, ◌≤◌, ◌≡◌, refl, sym, ap, ◌∙◌, subst, Bool, true, false, List, [], ◌∷◌,
  ◌++◌, length, take, ltb, ◌==◌, if◌then◌else◌, if_intro, arith,
}
use mathlib.Core.List.{append_assoc, append-nil}
use mathlib.Core.Path.{ap₂}
use aiyolo.Base.Int.{ℤ, pos, leb_ℤ, pos_part}
use aiyolo.Ass.Feed.{Bytes, length-append}

-- `remaining` is never below 0, for a write takes no more than it.
pub record LimitedOutput : Type 0 where
  pub remaining : ℕ
  pub stdout : Bytes
  pub stderr : Bytes
  pub truncated : Bool

abbrev pub default_shell_output_bytes : ℕ
default_shell_output_bytes = 262144

unfoldable pub shell_output_limit : ℤ → ℕ
shell_output_limit max_bytes =
    if leb_ℤ max_bytes (pos 0) then default_shell_output_bytes else pos_part max_bytes

-- `newLimitedOutput`.
unfoldable pub new_limited_output : ℤ → LimitedOutput
new_limited_output max_bytes = record {
  remaining = shell_output_limit max_bytes;
  stdout = [];
  stderr = [];
  truncated = false;
}

abbrev written_to : Bool → Bytes → LimitedOutput → LimitedOutput
written_to true bytes output = record output { stderr = output.stderr ++ bytes }
written_to false bytes output = record output { stdout = output.stdout ++ bytes }

-- `Write` of a writer for the standard error, or for the standard output.
unfoldable pub write_limited : Bool → Bytes → LimitedOutput → LimitedOutput
write_limited to_stderr payload output =
    let cut = take output.remaining payload in
    if output.remaining == 0
    then record output { truncated = true }
    else if ltb output.remaining (length payload)
    then written_to to_stderr cut
        (record output { remaining = output.remaining - length cut; truncated = true })
    else written_to to_stderr payload
        (record output { remaining = output.remaining - length payload })

unfoldable pub write_each : List (Bool × Bytes) → LimitedOutput → LimitedOutput
write_each [] output = output
write_each ((to_stderr, payload) ∷ writes) output =
    write_each writes (write_limited to_stderr payload output)

-- What is written to one of the two.
abbrev part : Bool → Bool → Bytes → Bytes
part true true payload = payload
part false false payload = payload
part true false payload = []
part false true payload = []

unfoldable pub all_written : Bool → List (Bool × Bytes) → Bytes
all_written which [] = []
all_written which ((to_stderr, payload) ∷ writes) =
    part which to_stderr payload ++ all_written which writes

-- An output under a limit, after all the bytes that were written to the two.
record Holds (limit : ℕ) (outs errs : Bytes) (output : LimitedOutput) : Type 0 where
  room : output.remaining + length output.stdout + length output.stderr ≡ limit
  whole : output.truncated ≡ false → (output.stdout ≡ outs) × (output.stderr ≡ errs)
  full : output.truncated ≡ true → output.remaining ≡ 0

length-take : (n : ℕ) (xs : Bytes) → n ≤ length xs → length (take n xs) ≡ n
length-take zero xs h = refl
length-take (suc n) [] h = absurd (omega (arith, h))
length-take (suc n) (x ∷ xs) h = omega (arith, length-take n xs (omega (arith, h)))

written-Holds :
    (limit : ℕ) (outs errs payload taken : Bytes) (to_stderr cut : Bool) (output : LimitedOutput)
    → length taken ≤ output.remaining
    → (cut ≡ false → (taken ≡ payload) × (output.truncated ≡ false))
    → (cut ≡ true → length taken ≡ output.remaining)
    → Holds limit outs errs output
    → Holds limit (outs ++ part false to_stderr payload) (errs ++ part true to_stderr payload) (
        written_to to_stderr taken
          (record output { remaining = output.remaining - length taken; truncated = cut }))
written-Holds limit outs errs payload taken true cut output small same all h = record {
  room = omega (arith, small, h.room, length-append output.stderr taken);
  whole = λ e. (
    (h.whole (same e).1).0 ∙ sym (append-nil outs),
    ap (λ b. b ++ taken) (h.whole (same e).1).1 ∙ ap (λ b. errs ++ b) (same e).0,
  );
  full = λ e. omega (arith, all e);
}
written-Holds limit outs errs payload taken false cut output small same all h = record {
  room = omega (arith, small, h.room, length-append output.stdout taken);
  whole = λ e. (
    ap (λ b. b ++ taken) (h.whole (same e).1).0 ∙ ap (λ b. outs ++ b) (same e).0,
    (h.whole (same e).1).1 ∙ sym (append-nil errs),
  );
  full = λ e. omega (arith, all e);
}

write-Holds :
    (limit : ℕ) (outs errs payload : Bytes) (to_stderr : Bool) (output : LimitedOutput)
    → Holds limit outs errs output
    → Holds limit
        (outs ++ part false to_stderr payload)
        (errs ++ part true to_stderr payload)
        (write_limited to_stderr payload output)
unfolding write_limited
write-Holds limit outs errs payload to_stderr output h =
    let P = λ (o : LimitedOutput).
      Holds limit (outs ++ part false to_stderr payload) (errs ++ part true to_stderr payload) o in
    let cut = take output.remaining payload in
    if_intro P (output.remaining == 0)
      (λ none_left. record {
        room = h.room;
        whole = λ e. cc e;
        full = λ _. ground (arith, none_left);
      })
      λ some_left.
        if_intro P (ltb output.remaining (length payload))
          (λ more.
            let size = length-take output.remaining payload (ground (arith, more)) in
            written-Holds limit outs errs payload cut to_stderr true output (omega (arith, size))
              (λ e. cc e) (λ _. size) h)
          λ fits.
            written-Holds limit outs errs payload payload to_stderr output.truncated output
              (ground (arith, fits)) (λ e. (refl, e))
              (λ e. absurd (ground (arith, some_left, h.full e))) h

each-Holds :
    (limit : ℕ) (outs errs : Bytes) (writes : List (Bool × Bytes)) (output : LimitedOutput)
    → Holds limit outs errs output
    → Holds limit
        (outs ++ all_written false writes)
        (errs ++ all_written true writes)
        (write_each writes output)
unfolding write_each all_written
each-Holds limit outs errs [] output h = rw (append-nil outs, append-nil errs) h
each-Holds limit outs errs ((to_stderr, payload) ∷ writes) output h =
    subst
      (λ (p : Bytes × Bytes).
        Holds limit p.0 p.1 (write_each writes (write_limited to_stderr payload output)))
      {x = (
        (outs ++ part false to_stderr payload) ++ all_written false writes,
        (errs ++ part true to_stderr payload) ++ all_written true writes,
      )}
      (ap₂ (λ (a b : Bytes). (a, b))
        (append_assoc outs (part false to_stderr payload) (all_written false writes))
        (append_assoc errs (part true to_stderr payload) (all_written true writes)))
      (each-Holds limit (outs ++ part false to_stderr payload) (errs ++ part true to_stderr payload)
        writes (write_limited to_stderr payload output)
        (write-Holds limit outs errs payload to_stderr output h))

-- What a command's output is, whatever order the two streams write in.
pub record IsLimited (max_bytes : ℤ) (writes : List (Bool × Bytes)) (output : LimitedOutput)
    : Type 0 where
  pub bounded : length output.stdout + length output.stderr ≤ shell_output_limit max_bytes
  pub whole :
      output.truncated ≡ false
      → (output.stdout ≡ all_written false writes) × (output.stderr ≡ all_written true writes)
  pub filled :
      output.truncated ≡ true
      → length output.stdout + length output.stderr ≡ shell_output_limit max_bytes

-- The output that is kept of a command has at most the limit's bytes; where it is not marked as
-- truncated it is all that was written to each stream, and where it is, the limit is reached.
pub write_each-IsLimited :
    (max_bytes : ℤ) (writes : List (Bool × Bytes))
    → IsLimited max_bytes writes (write_each writes (new_limited_output max_bytes))
unfolding new_limited_output
write_each-IsLimited max_bytes writes =
    let limit = shell_output_limit max_bytes in
    let h =
      each-Holds limit [] [] writes (new_limited_output max_bytes)
        (record { room = omega arith; whole = λ _. (refl, refl); full = λ e. cc e }) in
    record {
      bounded = omega (arith, h.room);
      whole = h.whole;
      filled = λ e. omega (arith, h.room, h.full e);
    }
