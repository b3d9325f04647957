-- ===== src/Web/Load/Shown.antt =====
-- The dashboard of internal/webui/webui.go beside what the daemon of internal/daemon/daemon.go holds.
use mathlib.Core.List.{Perm}
use mathlib.Core.List.Perm
use wireguard_natter_helper.Store.Domains
use wireguard_natter_helper.Store.Events
use wireguard_natter_helper.Prelude.{
  if◌then◌else◌, pos, Result, ok, err, split_if, split_option, split_result, ok_inj, clash,
  err-ne-ok, String, ◌≡◌, refl, sym, ap, ◌∙◌, subst, Bool, true, false, ◌||◌, none, List, [], ◌∷◌,
  arith, ◌==◌,
}
use wireguard_natter_helper.Rpc.{Request, Response, success, normalize_addr, call, call-response}
use wireguard_natter_helper.Store.State.{Env}
use wireguard_natter_helper.Daemon.Server.{Server, authenticate_admin}
use wireguard_natter_helper.Daemon.Admin.{as_admin}
use wireguard_natter_helper.Daemon.Handle.{dispatch, handle}
use wireguard_natter_helper.Web.Load.{
  ◌>>=◌, loaded, Dashboard, insert_sorted, sort, domain_lt, node_lt, member_lt, binding_lt,
  interface_lt, list_request, dashboard_of, load,
}

module _ {A : Type 0} (lt : A → A → Bool) where
  insert_sorted-Perm : (x : A) (xs : List A) → Perm (insert_sorted lt x xs) (x ∷ xs)
  unfolding insert_sorted
  insert_sorted-Perm x [] = Perm.refl (x ∷ [])
  insert_sorted-Perm x (y ∷ ys) =
      split_if (λ l. Perm l (x ∷ y ∷ ys)) (lt x y) (λ _. Perm.refl (x ∷ y ∷ ys))
        (λ _. Perm.trans (Perm.cons y (insert_sorted-Perm x ys)) (Perm.swap x y ys))

  sort-Perm : (xs : List A) → Perm (sort lt xs) xs
  unfolding sort
  sort-Perm [] = Perm.refl []
  sort-Perm (x ∷ xs) = Perm.trans (insert_sorted-Perm x (sort lt xs)) (Perm.cons x (sort-Perm xs))

-- The connection of a daemon
abbrev pub served_by : Env → Server → String → Request → Result Response
served_by env srv addr req = ok (handle env req srv).1

-- What the daemon holds, in some order, with the newest events
pub record Shows (env : Env) (srv : Server) (d : Dashboard) : Type 0 where
  pub domains : Perm d.domains (Domains.domains false srv.store)
  pub nodes : Perm d.nodes (Domains.nodes env srv.store)
  pub members : Perm d.domain_members (Domains.domain_members srv.store)
  pub bindings : Perm d.bindings (Domains.bindings srv.store)
  pub interfaces : Perm d.wg_interfaces (Domains.wg_interfaces srv.store)
  pub events : d.events ≡ Events.events env.decode_event (pos 80) srv.store

bind-ok :
    (what : String) (r : Result Response) (f : Response → Result Dashboard) (d : Dashboard)
    → (loaded what r >>= f) ≡ ok d
    → (got : Response) × (r ≡ ok got) × (f got ≡ ok d)
bind-ok what (ok got) f d e = (got, refl, e)
bind-ok what (err x) f d e = err-ne-ok e

module _ (env : Env) (srv : Server) where
  as_admin-ok :
      (req : Request) (r : Response)
      → (as_admin srv req (srv, r)).1.is_ok ≡ true
      → (as_admin srv req (srv, r)).1 ≡ r
  as_admin-ok req r =
      let Q = λ (o : Server × Response). o.1.is_ok ≡ true → o.1 ≡ r in
      split_option Q (authenticate_admin srv req) (λ _ _. refl) (λ x _ e. clash (sym e))

  call-is_ok :
      (addr : String) (req : Request) (got : Response)
      → call (served_by env srv) addr req ≡ ok got
      → got.is_ok ≡ true
  unfolding call
  call-is_ok addr req got =
      let P = λ (o : Result Response). o ≡ ok got → got.is_ok ≡ true in
      let resp = (handle env req srv).1 in
      split_result P (normalize_addr addr) (λ _ _ k. err-ne-ok k)
        (λ host _.
          split_if P resp.is_ok (λ e k. subst (λ (r : Response). r.is_ok ≡ true) (ok_inj k) e)
            (λ _ k. err-ne-ok k))

  -- The daemon's lists
  abbrev domains_response : Response
  domains_response = record success { domains = Domains.domains false srv.store }

  abbrev nodes_response : Response
  nodes_response = record success { nodes = Domains.nodes env srv.store }

  abbrev members_response : Response
  members_response = record success { domain_members = Domains.domain_members srv.store }

  abbrev bindings_response : Response
  bindings_response = record success { bindings = Domains.bindings srv.store }

  abbrev interfaces_response : Response
  interfaces_response = record success { wg_interfaces = Domains.wg_interfaces srv.store }

  abbrev events_response : Response
  events_response = record success { events = Events.events env.decode_event (pos 80) srv.store }

  -- An administrator's list that is answered with success is the list.
  listed :
      (addr : String) (req : Request) (r got : Response)
      → (handle env req srv).1 ≡ (as_admin srv req (srv, r)).1
      → call (served_by env srv) addr req ≡ ok got
      → got ≡ r
  listed addr req r got h e =
      let same =
        call-response (served_by env srv) addr req (handle env req srv).1 got (λ _. refl) e ∙ h in
      same
      ∙ as_admin-ok req r (sym (ap (λ (x : Response). x.is_ok) same) ∙ call-is_ok addr req got e)

  dashboard_of-Shows :
      (now addr : String) (r1 r2 r3 r4 r5 r6 : Response)
      → r1 ≡ domains_response
      → r2 ≡ nodes_response
      → r3 ≡ members_response
      → r4 ≡ bindings_response
      → r5 ≡ interfaces_response
      → r6 ≡ events_response
      → Shows env srv (dashboard_of now addr r1 r2 r3 r4 r5 r6)
  unfolding dashboard_of
  dashboard_of-Shows now addr r1 r2 r3 r4 r5 r6 s1 s2 s3 s4 s5 s6 = record {
    domains =
        subst (λ (r : Response). Perm (sort domain_lt r1.domains) r.domains) s1
          (sort-Perm domain_lt r1.domains);
    nodes =
        subst (λ (r : Response). Perm (sort node_lt r2.nodes) r.nodes) s2
          (sort-Perm node_lt r2.nodes);
    members =
        subst (λ (r : Response). Perm (sort member_lt r3.domain_members) r.domain_members) s3
          (sort-Perm member_lt r3.domain_members);
    bindings =
        subst (λ (r : Response). Perm (sort binding_lt r4.bindings) r.bindings) s4
          (sort-Perm binding_lt r4.bindings);
    interfaces =
        subst (λ (r : Response). Perm (sort interface_lt r5.wg_interfaces) r.wg_interfaces) s5
          (sort-Perm interface_lt r5.wg_interfaces);
    events = ap (λ (r : Response). r.events) s6;
  }

  pub load-Shows :
      (now addr token : String) (d : Dashboard)
      → load (served_by env srv) now addr token ≡ ok d
      → Shows env srv d
  unfolding load dashboard_of handle dispatch
  load-Shows now addr token d e =
      let (r1, c1, e1) = bind-ok "domains" _ _ d e in
      let (r2, c2, e2) = bind-ok "nodes" _ _ d e1 in
      let (r3, c3, e3) = bind-ok "domain members" _ _ d e2 in
      let (r4, c4, e4) = bind-ok "bindings" _ _ d e3 in
      let (r5, c5, e5) = bind-ok "wireguard inventory" _ _ d e4 in
      let (r6, c6, e6) = bind-ok "events" _ _ d e5 in
      let ask = λ (kind : String). list_request kind token in
      let s1 = listed addr (ask "admin.domains") domains_response r1 refl c1 in
      let s2 = listed addr (ask "admin.nodes") nodes_response r2 refl c2 in
      let s3 = listed addr (ask "admin.domain_members") members_response r3 refl c3 in
      let s4 = listed addr (ask "admin.bindings") bindings_response r4 refl c4 in
      let s5 = listed addr (ask "admin.wireguard") interfaces_response r5 refl c5 in
      let s6 =
        listed addr (record (ask "admin.events") { limit = pos 80 }) events_response r6 refl c6 in
      subst (Shows env srv) (ok_inj e6)
        (dashboard_of-Shows now addr r1 r2 r3 r4 r5 r6 s1 s2 s3 s4 s5 s6)

  authenticates :
      (req : Request)
      → (srv.admin_token == "" || req.admin_token == srv.admin_token) ≡ true
      → authenticate_admin srv req ≡ none
  unfolding authenticate_admin
  authenticates req h = ground (arith, h)

  call-listed :
      (addr host : String) (req : Request) (r : Response)
      → normalize_addr addr ≡ ok host
      → (srv.admin_token == "" || req.admin_token == srv.admin_token) ≡ true
      → (handle env req srv).1 ≡ (as_admin srv req (srv, r)).1
      → r.is_ok ≡ true
      → call (served_by env srv) addr req ≡ ok r
  unfolding call
  call-listed addr host req r n h same listed_ok =
      let resp : (handle env req srv).1 ≡ r = same ∙ rw (as_admin, authenticates req h) refl in
      let Q = λ (x : Response).
        (if x.is_ok then ok x else err (if x.error == "" then "daemon returned error" else x.error))
        ≡ ok r in
      rw (call, n) (subst Q (sym resp) (rw listed_ok refl))

  -- Asked with a usable address and a token that the daemon takes, the web interface loads a
  -- dashboard, which has the daemon's domains, nodes, memberships, bindings and interfaces, each
  -- once and in some order, and its newest eighty events.
  pub load-answers :
      (now addr host token : String)
      → normalize_addr addr ≡ ok host
      → (srv.admin_token == "" || token == srv.admin_token) ≡ true
      → (d : Dashboard) × (load (served_by env srv) now addr token ≡ ok d) × Shows env srv d
  unfolding load handle dispatch
  load-answers now addr host token n h =
      let d =
        dashboard_of now addr domains_response nodes_response members_response bindings_response
          interfaces_response events_response in
      let ask = λ (req : Request). call (served_by env srv) addr req in
      let loads : load (served_by env srv) now addr token ≡ ok d =
        rw
          (
            load,
            call-listed addr host (list_request "admin.domains" token) domains_response n h refl
                refl,
            call-listed addr host (list_request "admin.nodes" token) nodes_response n h refl refl,
            call-listed addr host (list_request "admin.domain_members" token) members_response n h
                refl refl,
            call-listed addr host (list_request "admin.bindings" token) bindings_response n h refl
                refl,
            call-listed addr host (list_request "admin.wireguard" token) interfaces_response n h
                refl refl,
            call-listed addr host (record (list_request "admin.events" token) { limit = pos 80 })
                events_response n h refl refl,
          )
          refl in
      (d, loads, load-Shows now addr token d loads)
