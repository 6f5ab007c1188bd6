-- ===== src/Authorization/Url.antt =====
-- What the program calls of the crate `url`, and the IPv6 parser of the standard library, as a
-- record of functions that the models take as a parameter.
use rust_forge.Base.{ℕ, Option, List}
use rust_forge.Text.{Text}

-- `url::Host`; an address stands as its `to_string()`, which is all that is used of it.
pub data Host : Type 0 where
  domain : Text → Host
  ipv4 : Text → Host
  ipv6 : Text → Host

pub record UrlLib (Url : Type 0) : Type 0 where
  -- `Url::parse(raw).ok()`
  pub parse : Text → Option Url
  pub scheme : Url → Text
  pub username : Url → Text
  pub password : Url → Option Text
  pub host : Url → Option Host
  pub host_str : Url → Option Text
  pub port_or_known_default : Url → Option ℕ
  pub path : Url → Text
  pub path_segments : Url → Option (List Text)
  pub query_pairs : Url → List (Text × Text)
  -- `url.set_fragment(None)` and `url.to_string()`
  pub without_fragment : Url → Url
  pub to_text : Url → Text
  -- `Host::parse(raw).ok()`
  pub parse_host : Text → Option Host
  -- `raw.parse::<Ipv6Addr>().ok()`, printed again
  pub parse_ipv6 : Text → Option Text
