-- ===== src/Tests/Consoles.antt =====
-- The theorems about the web interface and the command line.
use Prim.Native.Char.{Char, char}
use wireguard_natter_helper.Prelude.{ok, ◌≡◌, refl}
use wireguard_natter_helper.Rpc.{normalize_addr}
use wireguard_natter_helper.Web.Load.{Dashboard, load}
use wireguard_natter_helper.Web.Load.Shown.{served_by, Shows, load-answers}
use wireguard_natter_helper.Tests.Network.{noon, daemon}

abbrev double_quote : Char
double_quote = char 34 tt

address : normalize_addr "tcp://host:7000" ≡ ok "host:7000"
unfolding normalize_addr
address = refl

load-answers_example :
    (d : Dashboard) × (load (served_by noon daemon) "now" "tcp://host:7000" "secret" ≡ ok d)
    × Shows noon daemon d
load-answers_example =
    load-answers noon daemon "now" "tcp://host:7000" "host:7000" "secret" address refl
