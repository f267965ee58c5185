-- ===== src/PublicIp/Response.antt =====
-- src/public_ip.rs: parsing a provider's reply, and what an accepted reply is.
use cirrusync.Prelude.{
  ℕ, ◌*◌, ◌≤◌, ◌≡◌, refl, ◌↔◌, inl, inr, true, false, not, Option, none, some, List, [], ◌∷◌, arith,
  ltb, if◌then◌else◌, is_empty, Result, ok, err, Option-cases,
}
use cirrusync.Prelude.Strings.{Text, text, len, trim, lines, strip_prefix}
use cirrusync.PublicIp.{
  IpAddr, AddressFamily, matches, ProviderError, response_too_large, empty_response,
  malformed_response, wrong_address_family, non_public_address, IpText,
}
use cirrusync.PublicIp.Address.{is_public_address}

abbrev pub max_response_bytes : ℕ
max_response_bytes = 16 * 1024

-- The value of a trimmed `ip=` line, if the line is one and the value is not blank.
trace_value : Text → Option Text
trace_value line = elim (strip_prefix (trim line) (text "ip=")) [
  | none ↦ none
  | some value ↦ if is_empty (trim value) then none else some (trim value)
]

add_value : Option Text → List Text → List Text
add_value none values = values
add_value (some value) values = value ∷ values

pub trace_values : List Text → List Text
unfolding add_value trace_value
trace_values [] = []
trace_values (line ∷ rest) = add_value (trace_value line) (trace_values rest)

module _ (t : IpText) where
  -- The one `ip=` line of Cloudflare's trace format.
  trace_address : List Text → Result IpAddr ProviderError
  trace_address [] = err malformed_response
  trace_address (value ∷ []) = elim (t.parse_ip value) [
    | none ↦ err malformed_response
    | some address ↦ ok address
  ]
  trace_address (value ∷ next ∷ rest) = err malformed_response

  candidate : Text → Result IpAddr ProviderError
  unfolding trace_address trace_values
  candidate response = elim (t.parse_ip (trim response)) [
    | some address ↦ ok address
    | none ↦ trace_address (trace_values (lines response))
  ]

  accept : AddressFamily → IpAddr → Result IpAddr ProviderError
  accept family address =
      if not (matches family address)
      then err (wrong_address_family family address)
      else if not (is_public_address address)
      then err (non_public_address address)
      else ok address

  accept_candidate : AddressFamily → Result IpAddr ProviderError → Result IpAddr ProviderError
  unfolding accept
  accept_candidate family (ok address) = accept family address
  accept_candidate family (err e) = err e

  unfoldable pub parse_provider_response : Text → AddressFamily → Result IpAddr ProviderError
  unfolding candidate accept_candidate
  parse_provider_response response family =
      if ltb max_response_bytes (len response)
      then err (response_too_large max_response_bytes)
      else if is_empty (trim response)
      then err empty_response
      else accept_candidate family (candidate response)

  -- A text names an address plainly, or by exactly one `ip=` line.
  pub data Names (response : Text) (address : IpAddr) : Type 0 where
    plain : t.parse_ip (trim response) ≡ some address → Names response address
    trace :
        (value : Text)
        → t.parse_ip (trim response) ≡ none
        → trace_values (lines response) ≡ value ∷ []
        → t.parse_ip value ≡ some address
        → Names response address

  pub record Accepted (response : Text) (family : AddressFamily) (address : IpAddr) : Type 0 where
    pub small : len response ≤ max_response_bytes
    pub filled : is_empty (trim response) ≡ false
    pub named : Names response address
    pub right_family : matches family address ≡ true
    pub public : is_public_address address ≡ true

  candidate-Names :
      (response : Text) (address : IpAddr)
      → candidate response ≡ ok address
      → Names response address
  unfolding candidate
  candidate-Names response address h = elim (Option-cases (t.parse_ip (trim response))) [
    | inr (x, e) ↦ plain (ground arith)
    | inl e ↦ from_values (trace_values (lines response)) refl e (ground arith)
  ]
    where
      from_values :
          (values : List Text)
          → trace_values (lines response) ≡ values
          → t.parse_ip (trim response) ≡ none
          → trace_address values ≡ ok address
          → Names response address
      from_values [] e n k = cc
      from_values (value ∷ []) e n k = trace value n e (ground arith)
      from_values (value ∷ next ∷ rest) e n k = cc

  Names-candidate :
      (response : Text) (address : IpAddr)
      → Names response address
      → candidate response ≡ ok address
  unfolding candidate
  Names-candidate response address (plain e) = ground arith
  Names-candidate response address (trace value n e p) = rw (n, candidate, e) (ground arith)

  accept-ok :
      (family : AddressFamily) (r : Result IpAddr ProviderError) (address : IpAddr)
      → accept_candidate family r ≡ ok address
      → (r ≡ ok address) × (matches family address ≡ true) × (is_public_address address ≡ true)
  unfolding accept_candidate
  accept-ok family (ok x) address h = ground arith
  accept-ok family (err e) address h = cc

  -- A reply yields an address exactly when the reply is within the limit and not blank, names that
  -- address plainly or by its only `ip=` line, and the address is public and of the asked family.
  pub parse_provider_response-ok_iff :
      (response : Text) (family : AddressFamily) (address : IpAddr)
      → (parse_provider_response response family ≡ ok address) ↔ Accepted response family address
  unfolding parse_provider_response
  parse_provider_response-ok_iff response family address = (forward, backward)
    where
      forward :
          parse_provider_response response family ≡ ok address → Accepted response family address
      forward h =
          let r = accept-ok family (candidate response) address (ground arith) in
          record {
            small = ground arith;
            filled = ground arith;
            named = candidate-Names response address r.0;
            right_family = r.1;
            public = r.2;
          }

      backward :
          Accepted response family address → parse_provider_response response family ≡ ok address
      backward a = ground (arith, Names-candidate response address a.named)
