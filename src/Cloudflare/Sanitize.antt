-- ===== src/Cloudflare/Sanitize.antt =====
-- src/cloudflare.rs: cleaning, redacting and shortening what Cloudflare sends, for messages.
pub mod Laws
use cirrusync.Prelude.{
  ℕ, zero, suc, ◌+◌, ◌-◌, Bool, true, false, ◌&&◌, ◌||◌, not, Option, none, some, List, [], ◌∷◌,
  ◌++◌, min, ltb, ◌==◌, if◌then◌else◌, is_empty, length, take,
}
use mathlib.Core.List.{reverse}
use cirrusync.Prelude.Int.{ℤ, signed}
use cirrusync.Prelude.Strings.{
  Text, text, len, len_utf8, trim, trim_end_by, is_control, is_whitespace, starts_with,
}
use cirrusync.Cloudflare.{
  ApiErrorDetail, max_error_details, max_error_message_bytes, max_error_summary_bytes,
}

abbrev is_space : ℕ → Bool
is_space c = c == 0x20

plain_char : ℕ → ℕ
plain_char c = if is_control c || is_whitespace c then 0x20 else c

-- The loop over the characters; the flags are `previous_space` and, in the result, `truncated`.
push_chars : ℕ → Text → Bool → Text → Text × Bool
unfolding plain_char
push_chars max_bytes out previous_space [] = (out, false)
push_chars max_bytes out previous_space (c ∷ rest) =
    let ch = plain_char c in
    let skipped = push_chars max_bytes out previous_space rest in
    let pushed = push_chars max_bytes (out ++ (ch ∷ [])) (is_space ch) rest in
    if is_space ch && (previous_space || is_empty out)
    then skipped
    else if ltb max_bytes (len out + len_utf8 ch)
    then (out, true)
    else pushed

-- `while s.len() > limit { s.pop(); }`, over the reversed text.
pop_to : ℕ → Text → Text
pop_to limit [] = []
pop_to limit (c ∷ r) = let rest = pop_to limit r in if ltb limit (len (c ∷ r)) then rest else c ∷ r

ellipsis : Text
unfolding text
ellipsis = text "..."

shorten : ℕ → Text → Text
unfolding pop_to ellipsis
shorten max_bytes s =
    let suffix_length = min 3 max_bytes in
    trim_end_by is_space (reverse (pop_to (max_bytes - suffix_length) (reverse s)))
    ++ take suffix_length ellipsis

finish : ℕ → Text × Bool → Text
unfolding shorten
finish max_bytes (s, truncated) =
    let kept = trim_end_by is_space s in if truncated then shorten max_bytes kept else kept

unfoldable pub sanitize_and_truncate : Text → ℕ → Text
unfolding push_chars finish
sanitize_and_truncate value max_bytes =
    finish max_bytes (push_chars max_bytes [] false (trim value))

-- `str::contains` and `str::replace` for a pattern that is not empty.
contains : Text → Text → Bool
contains [] p = starts_with [] p
contains (c ∷ s) p = starts_with (c ∷ s) p || contains s p

-- `skip` counts the characters of a match that are still to be passed over.
replace_from : ℕ → Text → Text → Text → Text
replace_from skip [] p r = []
replace_from (suc skip) (c ∷ s) p r = replace_from skip s p r
replace_from zero (c ∷ s) p r =
    let hit = r ++ replace_from (length p - 1) s p r in
    let miss = c ∷ replace_from zero s p r in if starts_with (c ∷ s) p then hit else miss

unfoldable pub sanitize_remote_value : Text → Text → ℕ → Text
unfolding sanitize_and_truncate contains replace_from
sanitize_remote_value value sensitive_value max_bytes =
    if is_empty sensitive_value || not (contains value sensitive_value)
    then sanitize_and_truncate value max_bytes
    else sanitize_and_truncate (replace_from 0 value sensitive_value (text "[redacted]")) max_bytes

with_code : Option ℤ → Text → Text
with_code none message = message
with_code (some code) message = message ++ text " (" ++ signed code ++ text ")"

-- The summaries gathered so far, and whether a further one was left out.
summaries : Text → List ApiErrorDetail → List Text → List Text × Bool
unfolding with_code
summaries sensitive_value [] out = (out, false)
summaries sensitive_value (e ∷ rest) out =
    let message = sanitize_remote_value e.message sensitive_value max_error_message_bytes in
    let skipped = summaries sensitive_value rest out in
    let pushed = summaries sensitive_value rest (out ++ (with_code e.code message ∷ [])) in
    if is_empty message
    then skipped
    else if length out == max_error_details
    then (out, true)
    else pushed

join : Text → List Text → Text
join separator [] = []
join separator (s ∷ []) = s
join separator (s ∷ t ∷ rest) = s ++ separator ++ join separator (t ∷ rest)

summary_text : List Text × Bool → Text
unfolding join
summary_text (parts, omitted) =
    let joined = join (text "; ") parts in
    sanitize_and_truncate (if omitted then joined ++ text "; ..." else joined)
      max_error_summary_bytes

or_reason : Option Text → Text → Text
or_reason reason [] = elim reason [
  | none ↦ text "unspecified Cloudflare error"
  | some phrase ↦ phrase
]
or_reason reason (c ∷ s) = c ∷ s

-- The details that are kept: those with a code or a message that is not blank, four at most.
keep_detail : Option ℤ → Text → List ApiErrorDetail → List ApiErrorDetail
keep_detail none [] rest = rest
keep_detail none (c ∷ s) rest = record { code = none; message = c ∷ s } ∷ rest
keep_detail (some code) message rest = record { code = some code; message = message } ∷ rest

kept_details : Text → List ApiErrorDetail → List ApiErrorDetail
unfolding keep_detail
kept_details sensitive_value [] = []
kept_details sensitive_value (e ∷ rest) =
    keep_detail e.code (sanitize_remote_value e.message sensitive_value max_error_message_bytes)
      (kept_details sensitive_value rest)

module _ (canonical_reason : ℕ → Option Text) where
  error_summary : List ApiErrorDetail → ℕ → Text → Text
  unfolding summaries summary_text or_reason
  error_summary errors status sensitive_value =
      or_reason (canonical_reason status) (summary_text (summaries sensitive_value errors []))

  unfoldable pub prepare_error_details : List ApiErrorDetail → ℕ → Text → Text × List ApiErrorDetail
  unfolding error_summary kept_details
  prepare_error_details errors status sensitive_value = (
    error_summary errors status sensitive_value,
    take max_error_details (kept_details sensitive_value errors),
  )
