-- ===== src/OpenP2P/Tests.antt =====
-- The tunnel configuration on concrete files (internal/openp2p/config_test.go).
use opl_core.Prelude.{◌≡◌, refl, true, [], ◌∷◌, ok, err, text}
use opl_core.OpenP2P.{
  App, Config, Network, pos, bad_config, pairing_app, wire_guard_app, user_apps, internal_apps,
  replace_user_apps, set_internal, validate_config,
}
use opl_core.OpenP2P.Kept.{replace_user_apps-keeps, set_internal-keeps}

abbrev network : Network
network = record {
  token = 7;
  node = text "node";
  user = [];
  share_bandwidth = pos 10;
  server_host = text "host";
  server_port = pos 27183;
  public_ip_port = pos 0;
}

abbrev host : App
host = pairing_app (text "0123456789abcdef") 25673 30001

abbrev tunnel : App
tunnel = wire_guard_app (text "0123456789abcdef") 25674 30002

abbrev game : App
game = record tunnel { app_name = text "game"; src_port = pos 4000 }

abbrev before : Config
before = record { network = network; apps = host ∷ []; log_level = pos 2 }

abbrev after : Config
after = record before { apps = game ∷ host ∷ [] }

replaced : replace_user_apps true (game ∷ []) (ok before) ≡ ok after
unfolding replace_user_apps pairing_app wire_guard_app
replaced = refl

internal_refused : replace_user_apps true (tunnel ∷ []) (ok before) ≡ err bad_config
unfolding replace_user_apps wire_guard_app
internal_refused = refl

was_set :
    set_internal true (tunnel ∷ []) (ok after) ≡ ok (record before { apps = game ∷ tunnel ∷ [] })
unfolding set_internal pairing_app wire_guard_app
was_set = refl

replace_user_apps-keeps_example :
    (user_apps (game ∷ host ∷ []) ≡ game ∷ [])
    × (internal_apps (game ∷ host ∷ []) ≡ internal_apps (host ∷ []))
    × (network ≡ network)
    × (before.log_level ≡ before.log_level)
    × (validate_config after ≡ true)
replace_user_apps-keeps_example = replace_user_apps-keeps true (game ∷ []) before replaced

set_internal-keeps_example :
    (internal_apps (game ∷ tunnel ∷ []) ≡ tunnel ∷ [])
    × (user_apps (game ∷ tunnel ∷ []) ≡ user_apps (game ∷ host ∷ []))
    × (network ≡ network)
    × (before.log_level ≡ before.log_level)
    × (validate_config (record before { apps = game ∷ tunnel ∷ [] }) ≡ true)
set_internal-keeps_example = set_internal-keeps true (tunnel ∷ []) after was_set
