-- ===== src/Examples/Configuring.antt =====
-- The theorems on configurations and tokens at concrete inputs.
use cirrusync.Prelude.{◌≡◌, ◌↔◌, refl, true, false, none, some, [], arith, min, take, ok}
use cirrusync.Config.{family}
use cirrusync.Config.Load.{
  safe_parse_position, parse, is_eloop, canonicalize, open_config_file, Metadata, FileCalls, absent,
  load, line_column,
}
use cirrusync.Config.Load.Laws.{Opened, load-trusted, IsPosition, line_column-IsPosition}
use cirrusync.Config.Names.{
  canonical_dns_name, validate_dns_name, IsDnsName, validate_dns_name-ok_iff,
}
use cirrusync.Config.Token.{load_token_file}
use cirrusync.Config.Token.Laws.{IsToken, IsProtected, load_token_file-IsProtected}
use cirrusync.Config.Validate.{
  validate_record, validate_discovery, validate_identifier, validate_range, ParseUrl, validate,
}
use cirrusync.Config.Validate.Whole.{IsConfig, validate-ok_iff}
use cirrusync.Examples.Instances.{sample_config}
use cirrusync.Prelude.Strings.{
  utf8_char, trim_start_by, trim_end_by, octal4, lower, len_utf8, is_whitespace, is_ascii_uppercase,
  is_ascii_lowercase, is_ascii_digit, is_ascii_alphanumeric, ends_with, decimal, split, text_eq,
  starts_with, is_control, Text, text, len, utf8, trim, to_ascii_lowercase, is_ascii_hexdigit,
}

abbrev pub sample_url : ParseUrl
sample_url url = ok (record {
  scheme = text "https";
  host = some (text "ip.example");
  username = [];
  password = none;
  fragment = none;
  serialized = url;
})

abbrev pub root_file : Metadata
root_file = record {
  is_file = true;
  is_dir = false;
  is_symlink = false;
  dev = 1;
  ino = 2;
  nlink = 1;
  mode = 0o100640;
  uid = 0;
  gid = 7;
  size = 100;
}

abbrev pub root_calls : Text → FileCalls
root_calls contents = record {
  opened = ok tt;
  metadata = ok root_file;
  named = ok root_file;
  effective_user = 1000;
  effective_group = 7;
  acl = absent;
  contents = ok contents;
}

validate-ok_iff_example :
    (validate sample_url sample_config ≡ ok tt) ↔ IsConfig sample_url sample_config
validate-ok_iff_example = validate-ok_iff sample_url sample_config

pub sample_loads :
    load
      (λ contents. ok sample_config)
      sample_url
      (text "/etc/cirrusync/config.toml")
      (root_calls [])
    ≡ ok sample_config
unfolding load open_config_file len validate validate_range canonicalize starts_with text
    validate_identifier validate_discovery trim text_eq validate_record canonical_dns_name
    to_ascii_lowercase validate_dns_name split is_eloop line_column parse safe_parse_position
    decimal ends_with is_ascii_alphanumeric is_ascii_digit is_ascii_hexdigit is_ascii_lowercase
    is_ascii_uppercase is_whitespace len_utf8 lower octal4 trim_end_by trim_start_by utf8 utf8_char
    family
sample_loads = refl

load-trusted_example : IsConfig sample_url sample_config × Opened (root_calls [])
load-trusted_example =
    load-trusted (λ contents. ok sample_config) sample_url (text "/etc/cirrusync/config.toml")
      (root_calls []) sample_config sample_loads

line_column-IsPosition_example :
    let (line, column) = line_column (text "a") 1 in
    IsPosition (take (min 1 (len (text "a"))) (utf8 (text "a"))) line column
line_column-IsPosition_example = line_column-IsPosition (text "a") 1

validate_dns_name-ok_iff_example :
    (validate_dns_name (text "*.example.com") true ≡ ok tt) ↔ IsDnsName (text "*.example.com") true
validate_dns_name-ok_iff_example = validate_dns_name-ok_iff (text "*.example.com") true

pub token_loads :
    load_token_file (text "/etc/cirrusync/token") (root_calls (text "token")) ≡ ok (text "token")
unfolding load_token_file len text trim is_control
token_loads = refl

load_token_file-IsProtected_example :
    IsToken (text "token") × IsProtected root_file root_file 7 absent
load_token_file-IsProtected_example =
    load_token_file-IsProtected (text "/etc/cirrusync/token") (root_calls (text "token")) root_file
      root_file (text "token") refl refl (omega arith) token_loads
