-- ===== src/Cloudflare/Sanitize/Laws.antt =====
-- Cleaned texts are short and hold no control characters.
use mathlib.Core.List.{reverse, reverse-cons}
use cirrusync.Prelude.{
  ℕ, zero, suc, ◌-◌, ◌≤◌, ◌≡◌, refl, ◌∙◌, Bool, true, false, not, [], ◌∷◌, ◌++◌, arith, min, take,
  all, all-append, &&-both,
}
use cirrusync.Prelude.Strings.{
  Text, len, len_utf8, trim, trim_end_by, keep_end, is_control, len-append,
}
use cirrusync.Cloudflare.Sanitize.{
  plain_char, push_chars, pop_to, ellipsis, shorten, finish, sanitize_and_truncate, is_space,
}

len-keep_end : (b : Bool) (c : ℕ) (s : Text) → len (keep_end b c s) ≤ len (c ∷ s)
unfolding len
len-keep_end true c [] = omega arith
len-keep_end false c [] = omega arith
len-keep_end true c (d ∷ s) = omega arith
len-keep_end false c (d ∷ s) = omega arith

len-trim_end_by : (p : ℕ → Bool) (s : Text) → len (trim_end_by p s) ≤ len s
unfolding len trim_end_by
len-trim_end_by p [] = omega arith
len-trim_end_by p (c ∷ s) =
    omega (arith, len-keep_end (p c) c (trim_end_by p s), len-trim_end_by p s)

len-reverse : (s : Text) → len (reverse s) ≡ len s
unfolding len
len-reverse [] = refl
len-reverse (c ∷ s) =
    rw (reverse-cons c s) (omega (arith, len-append (reverse s) (c ∷ []), len-reverse s))

len-pop_to : (limit : ℕ) (r : Text) → len (pop_to limit r) ≤ limit
unfolding len pop_to
len-pop_to limit [] = omega arith
len-pop_to limit (c ∷ r) = ground (arith, len-pop_to limit r)

len-push_chars :
    (max_bytes : ℕ) (out : Text) (previous_space : Bool) (s : Text)
    → len out ≤ max_bytes
    → len (push_chars max_bytes out previous_space s).0 ≤ max_bytes
unfolding push_chars
len-push_chars max_bytes out ps [] h = h
len-push_chars max_bytes out ps (c ∷ s) h = ground (
  arith,
  len-append out (plain_char c ∷ []),
  len-push_chars max_bytes out ps s h,
  len-push_chars max_bytes (out ++ (plain_char c ∷ [])) (is_space (plain_char c)) s,
  len-single (plain_char c),
)
  where
    len-single : (d : ℕ) → len (d ∷ []) ≡ len_utf8 d
    len-single d = unfold len in omega arith

len-take-ellipsis : (k : ℕ) → len (take k ellipsis) ≤ k
unfolding len len_utf8 ellipsis
len-take-ellipsis zero = omega arith
len-take-ellipsis (suc zero) = omega arith
len-take-ellipsis (suc (suc zero)) = omega arith
len-take-ellipsis (suc (suc (suc zero))) = omega arith
len-take-ellipsis (suc (suc (suc (suc k)))) = omega arith

len-shorten : (max_bytes : ℕ) (s : Text) → len (shorten max_bytes s) ≤ max_bytes
unfolding shorten
len-shorten n s = omega (
  arith,
  len-append (trim_end_by is_space (reverse (pop_to (n - min 3 n) (reverse s))))
      (take (min 3 n) ellipsis),
  len-trim_end_by is_space (reverse (pop_to (n - min 3 n) (reverse s))),
  len-reverse (pop_to (n - min 3 n) (reverse s)),
  len-pop_to (n - min 3 n) (reverse s),
  len-take-ellipsis (min 3 n),
)

len-finish :
    (max_bytes : ℕ) (s : Text) (truncated : Bool)
    → len s ≤ max_bytes
    → len (finish max_bytes (s, truncated)) ≤ max_bytes
unfolding finish
len-finish n s truncated h =
    ground (arith, len-shorten n (trim_end_by is_space s), len-trim_end_by is_space s)

-- A cleaned text has at most the bytes asked for, the dots of a shortened one included.
pub len-sanitize_and_truncate :
    (value : Text) (max_bytes : ℕ) → len (sanitize_and_truncate value max_bytes) ≤ max_bytes
unfolding sanitize_and_truncate
len-sanitize_and_truncate value n =
    len-finish n (push_chars n [] false (trim value)).0 (push_chars n [] false (trim value)).1
      (len-push_chars n [] false (trim value) (unfold len in omega arith))

abbrev clean : Text → Bool
clean = all (λ c. not (is_control c))

module _ (p : ℕ → Bool) where
  all-keep_end :
      (b : Bool) (c : ℕ) (s : Text) → all p (c ∷ s) ≡ true → all p (keep_end b c s) ≡ true
  all-keep_end true c [] h = refl
  all-keep_end false c [] h = h
  all-keep_end true c (d ∷ s) h = h
  all-keep_end false c (d ∷ s) h = h

  all-trim_end_by : (q : ℕ → Bool) (s : Text) → all p s ≡ true → all p (trim_end_by q s) ≡ true
  unfolding trim_end_by
  all-trim_end_by q [] h = refl
  all-trim_end_by q (c ∷ s) h =
      all-keep_end (q c) c (trim_end_by q s) (ground (arith, all-trim_end_by q s))

  all-reverse : (s : Text) → all p s ≡ true → all p (reverse s) ≡ true
  all-reverse [] h = refl
  all-reverse (c ∷ s) h =
      rw (reverse-cons c s) (ground (arith, all-append p (reverse s) (c ∷ []), all-reverse s))

  all-pop_to : (limit : ℕ) (r : Text) → all p r ≡ true → all p (pop_to limit r) ≡ true
  unfolding pop_to
  all-pop_to limit [] h = refl
  all-pop_to limit (c ∷ r) h = ground (arith, all-pop_to limit r)

  all-take : (n : ℕ) (s : Text) → all p s ≡ true → all p (take n s) ≡ true
  all-take zero s h = refl
  all-take (suc n) [] h = refl
  all-take (suc n) (c ∷ s) h = ground (arith, all-take n s)

plain_char-clean : (c : ℕ) → not (is_control (plain_char c)) ≡ true
unfolding plain_char is_control
plain_char-clean c = ground arith

push_chars-clean :
    (max_bytes : ℕ) (out : Text) (previous_space : Bool) (s : Text)
    → clean out ≡ true
    → clean (push_chars max_bytes out previous_space s).0 ≡ true
unfolding push_chars
push_chars-clean n out ps [] h = h
push_chars-clean n out ps (c ∷ s) h = ground (
  arith,
  all-append (λ d. not (is_control d)) out (plain_char c ∷ []),
  plain_char-clean c,
  push_chars-clean n out ps s h,
  push_chars-clean n (out ++ (plain_char c ∷ [])) (is_space (plain_char c)) s,
)

ellipsis-clean : clean ellipsis ≡ true
unfolding ellipsis is_control
ellipsis-clean = refl

shorten-clean : (n : ℕ) (s : Text) → clean s ≡ true → clean (shorten n s) ≡ true
unfolding shorten
shorten-clean n s h =
    all-append p (trim_end_by is_space (reverse popped)) (take (min 3 n) ellipsis)
    ∙ &&-both (all p (trim_end_by is_space (reverse popped))) (all p (take (min 3 n) ellipsis))
        (all-trim_end_by p is_space (reverse popped)
          (all-reverse p popped (all-pop_to p (n - min 3 n) (reverse s) (all-reverse p s h))))
        (all-take p (min 3 n) ellipsis ellipsis-clean)
  where
    p : ℕ → Bool
    p c = not (is_control c)

    popped : Text
    popped = pop_to (n - min 3 n) (reverse s)

finish-clean :
    (n : ℕ) (s : Text) (truncated : Bool) → clean s ≡ true → clean (finish n (s, truncated)) ≡ true
unfolding finish
finish-clean n s true h =
    shorten-clean n (trim_end_by is_space s)
      (all-trim_end_by (λ c. not (is_control c)) is_space s h)
finish-clean n s false h = all-trim_end_by (λ c. not (is_control c)) is_space s h

-- A cleaned text holds no control character: no line break and no terminal escape.
pub sanitize_and_truncate-clean :
    (value : Text) (max_bytes : ℕ)
    → all (λ c. not (is_control c)) (sanitize_and_truncate value max_bytes) ≡ true
unfolding sanitize_and_truncate
sanitize_and_truncate-clean value n =
    finish-clean n (push_chars n [] false (trim value)).0 (push_chars n [] false (trim value)).1
      (push_chars-clean n [] false (trim value) refl)
