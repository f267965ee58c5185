-- ===== src/Examples/Instances.antt =====
-- A configuration, and answers of the outside world, on which the code is run.
use cirrusync.Prelude.{
  ℕ, ◌+◌, ◌≡◌, refl, true, false, Option, none, some, List, [], ◌∷◌, Result, ok,
}
use cirrusync.Prelude.Strings.{Text, text}
use cirrusync.Http.{bytes, Exchange, replied}
use cirrusync.PublicIp.{IpAddr, v4, v6, IpText}
use cirrusync.PublicIp.Discover.{completed}
use cirrusync.Config.{Config, RecordConfig, RecordType}
use cirrusync.Cloudflare.{DnsRecord, user}
use cirrusync.Cloudflare.Client.{Api, ApiEnvelope, Zone, Client, Session}
use cirrusync.Updater.Host.{Host, IsFaithful}
use cirrusync.Updater.Addresses.{Updater}

-- Addresses as lists of their parts stand in for std's texts.
abbrev pub parts_of : IpAddr → Text
parts_of (v4 x) = x.a ∷ x.b ∷ x.c ∷ x.d ∷ []
parts_of (v6 x) = x.s0 ∷ x.s1 ∷ x.s2 ∷ x.s3 ∷ x.s4 ∷ x.s5 ∷ x.s6 ∷ x.s7 ∷ []

abbrev pub of_parts : Text → Option IpAddr
of_parts (a ∷ b ∷ c ∷ d ∷ []) = some (v4 (record { a = a; b = b; c = c; d = d }))
of_parts (a ∷ b ∷ c ∷ d ∷ e ∷ f ∷ g ∷ h ∷ []) =
    some (v6 (record { s0 = a; s1 = b; s2 = c; s3 = d; s4 = e; s5 = f; s6 = g; s7 = h }))
of_parts other = none

abbrev pub sample_text : IpText
sample_text = record { parse_ip = of_parts; show_ip = parts_of; from_utf8 = some }

pub sample_text-IsFaithful : IsFaithful sample_text
sample_text-IsFaithful = record { parse_show = λ x. faithful x }
  where
    faithful : (x : IpAddr) → of_parts (parts_of x) ≡ some x
    faithful (v4 x) = refl
    faithful (v6 x) = refl

abbrev pub one : IpAddr
one = v4 (record { a = 1; b = 1; c = 1; d = 1 })

abbrev pub good_reply : List ℕ → Exchange
good_reply body =
    replied
      (record { status = 200; content_length = none; retry_after = none; chunks = bytes body ∷ [] })

abbrev envelope : {T : Type 0} → T → List ℕ → Result (ApiEnvelope T) Text
envelope result body =
    ok (record { success = true; errors = []; result = some result; result_info = none })

abbrev pub old_record : DnsRecord
old_record = record {
  id = text "r1";
  record_type = text "A";
  name = text "home.example.com";
  content = 9 ∷ 9 ∷ 9 ∷ 9 ∷ [];
  ttl = 300;
  proxied = false;
}

abbrev pub sample_zone : Zone
sample_zone = record { id = text "z1"; name = text "example.com"; status = text "active" }

abbrev pub sample_api : Api
sample_api = record {
  World = ℕ;
  exchange = λ request w. (good_reply [], w + 1);
  expiry = λ deadline request w. none;
  now = λ w. (w, w);
  decode_token = envelope (record { status = text "active" });
  decode_zone = envelope sample_zone;
  decode_zones = envelope (sample_zone ∷ []);
  decode_record = envelope old_record;
  decode_records = envelope (old_record ∷ []);
  canonical_reason = λ status. none;
}

abbrev pub sample_host : Host
sample_host = record {
  api = sample_api;
  ip = sample_text;
  get = λ provider share w. (completed (good_reply (1 ∷ 1 ∷ 1 ∷ 1 ∷ [])), w + 1);
  origin = λ url. none;
  overrun = λ deadline w. none;
  stopped = λ w. false;
  show_discovery_error = λ e. text "no address";
}

abbrev pub sample_record : RecordConfig
sample_record = record {
  zone = text "example.com";
  zone_id = none;
  name = text "home.example.com";
  record_type = RecordType.a;
  ttl = 300;
  proxied = false;
  create_if_missing = false;
}

abbrev pub provider : Text
provider = text "https://ip.example"

abbrev pub sample_config : Config
sample_config = record {
  interval_seconds = 300;
  request_timeout_seconds = 10;
  cloudflare = record { api_token_file = text "/etc/cirrusync/token"; account_id = none };
  discovery4 = record { enabled = true; providers = provider ∷ [] };
  discovery6 = record { enabled = false; providers = [] };
  records = sample_record ∷ [];
}

abbrev pub sample_client : Client
sample_client = record {
  api_token = text "token";
  verification_target = user;
  request_timeout = 10;
}

abbrev pub sample_updater : Updater
sample_updater = record {
  config = sample_config;
  cloudflare = sample_client;
  public_ip = record { timeout = 1000 };
}

abbrev pub sample_session : Session ℕ
sample_session = record { world = 0; zone_cache = []; mutation_in_flight = false; sent = [] }
