-- ===== src/OpenP2P.antt =====
-- The tunnel configuration that the core keeps for the embedded engine (internal/openp2p/config.go):
-- user tunnels and the core's own, which carry a reserved prefix. The file is a parameter: what
-- loading it returns, with the error of a missing file told apart, and whether writing it succeeds.
-- `ℤ` is a Go `int`; `negsuc n` is -(n + 1).
pub mod Kept
mod Tests
use opl_core.Prelude.{
  ℕ, zero, suc, ◌+◌, ◌≡◌, Bool, true, false, not, ◌&&◌, ◌||◌, List, [], ◌∷◌, ◌++◌, if◌then◌else◌,
  ◌==◌, nat_eq, bytes_eq, Bytes, length, take, Option, some, none, Result, ok, err, any, all, leb,
  ltb, text, map,
}

pub data ℤ : Type 0 where
  pos : ℕ → ℤ
  negsuc : ℕ → ℤ

pub data Error : Type 0 where
  bad_config not_exist failed : Error

pub record Network : Type 0 where
  pub token : ℕ
  pub node : Bytes
  pub user : Bytes
  pub share_bandwidth : ℤ
  pub server_host : Bytes
  pub server_port : ℤ
  pub public_ip_port : ℤ

pub record App : Type 0 where
  pub app_name : Bytes
  pub protocol : Bytes
  pub underlay_protocol : Bytes
  pub punch_priority : ℤ
  pub whitelist : Bytes
  pub src_port : ℤ
  pub peer_node : Bytes
  pub dst_port : ℤ
  pub dst_host : Bytes
  pub peer_user : Bytes
  pub relay_node : Bytes
  pub force_relay : ℤ
  pub enabled : ℤ

pub record Config : Type 0 where
  pub network : Network
  pub apps : List App
  pub log_level : ℤ

abbrev pub internal_prefix : Bytes
internal_prefix = text "_opl2_"

abbrev pub has_prefix : Bytes → Bytes → Bool
has_prefix value [] = true
has_prefix [] (p ∷ ps) = false
has_prefix (c ∷ cs) (p ∷ ps) = c == p && has_prefix cs ps

unfoldable pub is_internal : App → Bool
is_internal app = has_prefix app.app_name internal_prefix

-- strings.ToLower of ASCII letters, which is all that a comparison with "tcp" and "udp" sees
-- except for the Kelvin sign, which no letter of them is
abbrev pub lower : ℕ → ℕ
lower c = if leb 65 c && leb c 90 then c + 32 else c

-- `low <= n && n <= high`
abbrev pub within : ℕ → ℕ → ℤ → Bool
within low high (pos n) = leb low n && leb n high
within low high (negsuc n) = false

abbrev pub is_negative : ℤ → Bool
is_negative (pos n) = false
is_negative (negsuc n) = true

unfoldable pub validate_app : App → Bool
validate_app app =
    let protocol = map lower app.protocol in
    not (
      app.app_name == []
      || not (protocol == text "tcp" || protocol == text "udp")
      || not (within 1 65535 app.src_port)
      || not (within 1 65535 app.dst_port)
      || app.dst_host == []
      || not (within 0 1 app.enabled))

unfoldable pub validate_network : Network → Bool
validate_network network =
    not (
      network.node == []
      || network.server_host == []
      || not (within 1 65535 network.server_port)
      || is_negative network.share_bandwidth
      || not (within 0 65535 network.public_ip_port))
    && not (network.token == 0)

-- `fmt.Sprintf("%s/%d", app.Protocol, app.SrcPort)`, as the pair it is made of: the port is a
-- number, so the text has one way to be split
abbrev pub port_number : ℤ → ℕ
port_number (pos n) = n
port_number (negsuc n) = 0

abbrev pub same_key : App → App → Bool
same_key app other =
    app.protocol == other.protocol && port_number app.src_port == port_number other.src_port

abbrev pub is_enabled : App → Bool
is_enabled app = within 1 1 app.enabled

-- the loop, with the enabled apps seen so far
unfoldable pub validate_apps : List App → List App → Bool
unfolding validate_app
validate_apps seen [] = true
validate_apps seen (app ∷ apps) =
    let rest_seen = validate_apps (app ∷ seen) apps in
    let rest = validate_apps seen apps in
    if not (validate_app app)
    then false
    else if is_enabled app && any (same_key app) seen
    then false
    else if is_enabled app
    then rest_seen
    else rest

unfoldable pub validate_config : Config → Bool
unfolding validate_network validate_apps
validate_config config = validate_network config.network && validate_apps [] config.apps

unfoldable pub user_apps : List App → List App
unfolding is_internal
user_apps [] = []
user_apps (app ∷ apps) =
    let rest = user_apps apps in if not (is_internal app) then app ∷ rest else rest

unfoldable pub internal_apps : List App → List App
unfolding is_internal
internal_apps [] = []
internal_apps (app ∷ apps) =
    let rest = internal_apps apps in if is_internal app then app ∷ rest else rest

-- `save`: the new content of the file
unfoldable pub save : Bool → Config → Result Error Config
unfolding validate_config
save written config =
    if not (validate_config config)
    then err bad_config
    else if not written
    then err failed
    else ok config

-- `load`, of what the file decodes to
unfoldable pub load : Result Error Config → Result Error Config
unfolding validate_config
load (err e) = err e
load (ok config) = if not (validate_config config) then err bad_config else ok config

unfoldable pub replace_user_in : Bool → List App → Result Error Config → Result Error Config
unfolding save internal_apps
replace_user_in written apps (err e) = err e
replace_user_in written apps (ok config) =
    save written (record config { apps = apps ++ internal_apps config.apps })

unfoldable pub replace_user_apps : Bool → List App → Result Error Config → Result Error Config
unfolding replace_user_in load is_internal validate_app
replace_user_apps written apps file =
    if any (λ app. is_internal app || not (validate_app app)) apps
    then err bad_config
    else replace_user_in written apps (load file)

unfoldable pub replace_in : Bool → Config → Result Error Config → Result Error Config
unfolding save internal_apps
replace_in written config (err not_exist) =
    save written (record config { apps = config.apps ++ [] })
replace_in written config (err e) = err e
replace_in written config (ok current) =
    save written (record config { apps = config.apps ++ internal_apps current.apps })

unfoldable pub replace : Bool → Config → Result Error Config → Result Error Config
unfolding replace_in load validate_config is_internal
replace written config file =
    if any is_internal config.apps
    then err bad_config
    else if not (validate_config config)
    then err bad_config
    else replace_in written config (load file)

unfoldable pub set_internal_in : Bool → List App → Result Error Config → Result Error Config
unfolding save user_apps
set_internal_in written apps (err e) = err e
set_internal_in written apps (ok config) =
    save written (record config { apps = user_apps config.apps ++ apps })

unfoldable pub set_internal : Bool → List App → Result Error Config → Result Error Config
unfolding set_internal_in load is_internal validate_app
set_internal written apps file =
    if any (λ app. not (is_internal app) || not (validate_app app)) apps
    then err bad_config
    else set_internal_in written apps (load file)

unfoldable pub pairing_app : Bytes → ℕ → ℕ → App
pairing_app host_uid destination_port source_port = record {
  app_name = internal_prefix ++ (text "pair_" ++ host_uid);
  protocol = text "tcp";
  underlay_protocol = [];
  punch_priority = pos 0;
  whitelist = [];
  src_port = pos source_port;
  peer_node = host_uid;
  dst_port = pos destination_port;
  dst_host = text "127.0.0.1";
  peer_user = [];
  relay_node = [];
  force_relay = pos 0;
  enabled = pos 1;
}

unfoldable pub wire_guard_app : Bytes → ℕ → ℕ → App
wire_guard_app host_uid destination_port source_port = record {
  app_name = internal_prefix ++ (text "wg_" ++ host_uid);
  protocol = text "udp";
  underlay_protocol = [];
  punch_priority = pos 0;
  whitelist = [];
  src_port = pos source_port;
  peer_node = host_uid;
  dst_port = pos destination_port;
  dst_host = text "127.0.0.1";
  peer_user = [];
  relay_node = [];
  force_relay = pos 0;
  enabled = pos 1;
}
