-- ===== src/Config/Names.antt =====
-- src/config.rs: canonical DNS names and their validation.
use cirrusync.Prelude.{
  ℕ, ◌≤◌, ◌≡◌, refl, ◌↔◌, ◌⊎◌, Bool, true, false, ◌&&◌, ◌||◌, not, List, [], ◌∷◌, arith, ltb, ◌==◌,
  if◌then◌else◌, is_empty, all, All, Result, ok, err,
}
use cirrusync.Prelude.Strings.{
  Text, text, text_eq, len, trim, trim_end_by, to_ascii_lowercase, split, starts_with, ends_with,
  is_ascii_alphanumeric,
}

unfoldable pub canonical_dns_name : Text → Text
canonical_dns_name name = to_ascii_lowercase (trim_end_by (λ c. c == b'.') (trim name))

is_label_byte : ℕ → Bool
is_label_byte c = is_ascii_alphanumeric c || c == b'-'

-- The loop over the labels; the flag is set at index 0.
validate_labels : Bool → Bool → List Text → Result (Unit {0}) Text
unfolding is_label_byte
validate_labels allow_wildcard first [] = ok tt
validate_labels allow_wildcard first (label ∷ rest) =
    let more = validate_labels allow_wildcard false rest in
    if is_empty label
    then err (text "must not contain empty labels")
    else if allow_wildcard && first && text_eq label (text "*")
    then more
    else if ltb 63 (len label)
    then err (text "each label must not exceed 63 bytes")
    else if starts_with label (text "-") || ends_with label (text "-")
    then err (text "labels must not start or end with a hyphen")
    else if not (all is_label_byte label)
    then err (text "must contain only ASCII letters, digits, hyphens, and dots")
    else more

unfoldable pub validate_dns_name : Text → Bool → Result (Unit {0}) Text
unfolding validate_labels
validate_dns_name name allow_wildcard =
    if is_empty name
    then err (text "must not be empty")
    else if ltb 253 (len name)
    then err (text "must not exceed 253 bytes")
    else validate_labels allow_wildcard true (split b'.' name)

-- A label of letters, digits and inner hyphens, of 1 to 63 bytes.
pub record IsLabel (label : Text) : Type 0 where
  pub filled : is_empty label ≡ false
  pub short : len label ≤ 63
  pub no_hyphen_first : starts_with label (text "-") ≡ false
  pub no_hyphen_last : ends_with label (text "-") ≡ false
  pub letters : all (λ c. is_ascii_alphanumeric c || c == b'-') label ≡ true

abbrev pub AreLabels : Bool → List Text → Type 0
AreLabels wildcard [] = Unit
AreLabels false (label ∷ rest) = All IsLabel (label ∷ rest)
AreLabels true (label ∷ rest) =
    ((text_eq label (text "*") ≡ true) × All IsLabel rest) ⊎ All IsLabel (label ∷ rest)

-- A name of at most 253 bytes whose labels are proper; the first may be a lone star if allowed.
pub record IsDnsName (name : Text) (allow_wildcard : Bool) : Type 0 where
  pub filled : is_empty name ≡ false
  pub short : len name ≤ 253
  pub labels : AreLabels allow_wildcard (split b'.' name)

later_labels :
    (allow : Bool) (labels : List Text)
    → (validate_labels allow false labels ≡ ok tt) ↔ All IsLabel labels
unfolding validate_labels
later_labels allow [] = (λ _. tt, λ _. refl)
later_labels allow (label ∷ rest) = ground (arith, later_labels allow rest)

star_filled : (label : Text) → text_eq label (text "*") ≡ true → is_empty label ≡ false
unfolding text_eq text
star_filled [] h = cc
star_filled (c ∷ s) h = refl

first_label :
    (allow : Bool) (labels : List Text)
    → (validate_labels allow true labels ≡ ok tt) ↔ AreLabels allow labels
unfolding validate_labels
first_label allow [] = (λ _. tt, λ _. refl)
first_label false (label ∷ rest) = ground (arith, later_labels false rest)
first_label true (label ∷ rest) = ground (arith, later_labels true rest, star_filled label)

-- `validate_dns_name` accepts exactly the names of 1 to 253 bytes whose labels have 1 to 63
-- letters, digits and inner hyphens, or a star as the first label where wildcards are allowed.
pub validate_dns_name-ok_iff :
    (name : Text) (allow_wildcard : Bool)
    → (validate_dns_name name allow_wildcard ≡ ok tt) ↔ IsDnsName name allow_wildcard
unfolding validate_dns_name
validate_dns_name-ok_iff name allow = ground (arith, first_label allow (split b'.' name))
