-- ===== src/Web/Load.antt =====
-- `load` of internal/webui/webui.go: what the dashboard shows, from six requests to the daemon.
pub mod Shown
use Prim.Native.String as Text
use text.Mathlib.Text.{is_lt}
use wireguard_natter_helper.Prelude.{
  if◌then◌else◌, length, ◌<>◌, non_empty, pos, is_positive, Result, ok, err, ℕ, suc, String, Bool,
  ◌&&◌, ◌||◌, not, List, [], ◌∷◌, ◌==◌,
}
use wireguard_natter_helper.Rpc.{Request, zero_request, Response, call}
use wireguard_natter_helper.Store.Config.{Node, Domain, DomainMember, Binding}
use wireguard_natter_helper.Store.Runtime.{WgInterface, Event}

pub record Stats : Type 0 where
  pub nodes : ℕ
  pub online : ℕ
  pub pending : ℕ
  pub domains : ℕ
  pub bindings : ℕ
  pub interfaces : ℕ
  pub with_endpoint : ℕ
  pub errors : ℕ

-- `dashboardData`
pub record Dashboard : Type 0 where
  pub daemon_addr : String
  pub generated_at : String
  pub domains : List Domain
  pub nodes : List Node
  pub domain_members : List DomainMember
  pub wg_interfaces : List WgInterface
  pub bindings : List Binding
  pub events : List Event
  pub stats : Stats

-- `s < t`
abbrev pub text_lt : String → String → Bool
text_lt s t = is_lt (Text.compare s t)

-- The order of two keys, of which the first decides
abbrev pub pair_lt : String × String → String × String → Bool
pair_lt (a, b) (c, d) = if a == c then text_lt b d else text_lt a c

module _ {ℓ} {A : Type ℓ} (lt : A → A → Bool) where
  unfoldable pub insert_sorted : A → List A → List A
  insert_sorted x [] = x ∷ []
  insert_sorted x (y ∷ ys) =
      let rest = insert_sorted x ys in if lt x y then x ∷ y ∷ ys else y ∷ rest

  -- `sort.Slice`, with equal elements in some order
  unfoldable pub sort : List A → List A
  unfolding insert_sorted
  sort [] = []
  sort (x ∷ xs) = insert_sorted x (sort xs)

-- The orders of the lists
abbrev pub domain_lt : Domain → Domain → Bool
domain_lt a b = text_lt a.id b.id

abbrev pub node_lt : Node → Node → Bool
node_lt a b = text_lt a.id b.id

abbrev pub member_lt : DomainMember → DomainMember → Bool
member_lt a b = pair_lt (a.domain_id, a.node_id) (b.domain_id, b.node_id)

abbrev pub binding_lt : Binding → Binding → Bool
binding_lt a b = text_lt a.id b.id

abbrev pub interface_lt : WgInterface → WgInterface → Bool
interface_lt a b = pair_lt (a.node_id, a.name) (b.node_id, b.name)

-- `if p(x) { n++ }` over a list
unfoldable pub count_if {ℓ} : {A : Type ℓ} → (A → Bool) → List A → ℕ
count_if p [] = 0
count_if p (x ∷ xs) = let rest = count_if p xs in if p x then suc rest else rest

abbrev pub list_request : String → String → Request
list_request kind admin_token = record zero_request { kind = kind; admin_token = admin_token }

-- `load`, from the six responses
unfoldable pub dashboard_of :
    String → String → Response → Response → Response → Response → Response → Response → Dashboard
unfolding sort count_if
dashboard_of now daemon_addr from_domains from_nodes from_members from_bindings from_wg
      from_events =
    let domains = sort domain_lt from_domains.domains in
    let nodes = sort node_lt from_nodes.nodes in
    let bindings = sort binding_lt from_bindings.bindings in
    let interfaces = sort interface_lt from_wg.wg_interfaces in
    record {
      daemon_addr = daemon_addr;
      generated_at = now;
      domains = domains;
      nodes = nodes;
      domain_members = sort member_lt from_members.domain_members;
      wg_interfaces = interfaces;
      bindings = bindings;
      events = from_events.events;
      stats = record {
        nodes = length nodes;
        online = count_if (λ (n : Node). n.status == "online") nodes;
        pending = count_if (λ (n : Node). not n.approved || n.status == "pending") nodes;
        domains = length domains;
        bindings = length bindings;
        interfaces = length interfaces;
        with_endpoint =
            count_if (λ (b : Binding). non_empty b.endpoint_host && is_positive b.endpoint_port)
              bindings;
        errors = count_if (λ (e : Event). e.severity == "error") from_events.events;
      };
    }

-- A call whose error says what was loaded
abbrev loaded : String → Result Response → Result Response
loaded what (ok resp) = ok resp
loaded what (err e) = err ("load " <> what <> ": " <> e)

infixl 5 ◌>>=◌
abbrev ◌>>=◌ {ℓ κ} : {A : Type ℓ} {B : Type κ} → Result A → (A → Result B) → Result B
ok a >>= f = f a
err e >>= f = err e

-- `load`
unfoldable pub load :
    (String → Request → Result Response) → String → String → String → Result Dashboard
unfolding dashboard_of
load exchange now daemon_addr admin_token =
    let ask = λ (req : Request). call exchange daemon_addr req in
    do
      from_domains ← loaded "domains" (ask (list_request "admin.domains" admin_token))
      from_nodes ← loaded "nodes" (ask (list_request "admin.nodes" admin_token))
      from_members ← loaded "domain members" (ask (list_request "admin.domain_members" admin_token))
      from_bindings ← loaded "bindings" (ask (list_request "admin.bindings" admin_token))
      from_wg ← loaded "wireguard inventory" (ask (list_request "admin.wireguard" admin_token))
      from_events ←
          loaded "events"
            (ask (record (list_request "admin.events" admin_token) { limit = pos 80 }))
      ok (
          dashboard_of now daemon_addr from_domains from_nodes from_members from_bindings from_wg
            from_events)
