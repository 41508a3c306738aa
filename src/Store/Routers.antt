-- ===== src/Store/Routers.antt =====
-- backend/internal/store/infra.go: the profiles of hotspots, and routers.
use go_react_fihos.Common.{
  ℕ, ◌+◌, ◌==◌, ◌&&◌, ◌||◌, Bool, true, false, not, some, none, List, [], ◌∷◌, ◌++◌, if◌then◌else◌,
  leb, ltb, any,
}
use go_react_fihos.Common.Text.{Text, text_eq}
use go_react_fihos.Store.Db.{
  not_found, driver, unique_violation, Call, or_raise, query, exec, exec_returning, constrained,
  ◌>>=◌,
}
use go_react_fihos.Store.Sql.{select_row, update_where, count_where, select_rows, delete_where}
use go_react_fihos.Store.Schema.{Database, Customer}
use go_react_fihos.Store.Network.{
  Profile, Router, RouterStatus, unverified, online, offline, Hotspot,
}

abbrev pub profile_key : ℕ → ℕ → Profile → Bool
profile_key tenant_id id p = p.tenant_id == tenant_id && p.id == id

-- UNIQUE (tenant_id, name)
abbrev pub profile_named : ℕ → Text → Profile → Bool
profile_named tenant_id name p = p.tenant_id == tenant_id && text_eq p.name name

abbrev pub profile_row : ℕ → Profile → Database → Profile
profile_row tenant_id p db = record p {
  id = db.next_id;
  tenant_id = tenant_id;
  created_at = db.now;
}

unfoldable pub create_profile : ℕ → Profile → Call Database Profile
create_profile tenant_id p =
    constrained (λ db. any (profile_named tenant_id p.name) db.hotspot_profiles) unique_violation
      (λ db. (
        profile_row tenant_id p db,
        record db {
          hotspot_profiles = db.hotspot_profiles ++ profile_row tenant_id p db ∷ [];
          next_id = db.next_id + 1;
        },
      ))

unfoldable pub list_profiles : ℕ → Call Database (List Profile)
list_profiles tenant_id =
    query (λ db. select_rows (λ p. p.tenant_id == tenant_id) db.hotspot_profiles)

unfoldable pub profile_by_id : ℕ → ℕ → Call Database Profile
profile_by_id tenant_id id = do
  p ← query (λ db. select_row (profile_key tenant_id id) db.hotspot_profiles)
  or_raise p not_found

abbrev pub set_profile : Profile → Profile → Profile
set_profile p old = record old {
  name = p.name;
  rx_rate = p.rx_rate;
  tx_rate = p.tx_rate;
  session_uptime_limit = p.session_uptime_limit;
  keepalive_timeout = p.keepalive_timeout;
}

abbrev pub taken_by_other : ℕ → ℕ → Text → List Profile → Bool
taken_by_other tenant_id id name ps =
    any (profile_key tenant_id id) ps
    && any (λ q. profile_named tenant_id name q && not (q.id == id)) ps

-- No profile of that id is no error.
unfoldable pub update_profile : ℕ → ℕ → Profile → Call Database Unit
update_profile tenant_id id p =
    constrained (λ db. taken_by_other tenant_id id p.name db.hotspot_profiles) unique_violation
      (λ db. (
        tt,
        record db {
          hotspot_profiles =
              update_where (profile_key tenant_id id) (set_profile p) db.hotspot_profiles;
        },
      ))

abbrev pub router_key : ℕ → ℕ → Router → Bool
router_key tenant_id id r = r.tenant_id == tenant_id && r.id == id

abbrev pub router_row : ℕ → Router → Database → Router
router_row tenant_id r db = record r {
  id = db.next_id;
  tenant_id = tenant_id;
  status = unverified;
  last_seen_at = none;
  last_sync_at = none;
  created_at = db.now;
}

unfoldable pub create_router : ℕ → Router → Call Database Router
create_router tenant_id r = exec_returning (λ db. (
  router_row tenant_id r db,
  record db { routers = db.routers ++ router_row tenant_id r db ∷ []; next_id = db.next_id + 1 },
))

-- `status` is the test ($2='' OR status=$2).
unfoldable pub list_routers : ℕ → (RouterStatus → Bool) → Call Database (List Router)
list_routers tenant_id status =
    query (λ db. select_rows (λ r. r.tenant_id == tenant_id && status r.status) db.routers)

unfoldable pub router_by_id : ℕ → ℕ → Call Database Router
router_by_id tenant_id id = do
  r ← query (λ db. select_row (router_key tenant_id id) db.routers)
  or_raise r not_found

abbrev pub set_router : Router → Router → Router
set_router r old = record old {
  name = r.name;
  ip_address = r.ip_address;
  api_port = r.api_port;
  username = r.username;
  password = r.password;
  status = unverified;
}

unfoldable pub update_router : ℕ → ℕ → Router → Call Database Router
update_router tenant_id id r = do
  updated ← exec_returning (λ db. (
    select_row (router_key tenant_id id)
        (update_where (router_key tenant_id id) (set_router r) db.routers),
    record db { routers = update_where (router_key tenant_id id) (set_router r) db.routers },
  ))
  or_raise updated not_found

-- The hotspots that ON DELETE CASCADE of fk_hotspot_router deletes with a router.
abbrev pub hotspot_of : ℕ → ℕ → Hotspot → Bool
hotspot_of tenant_id router_id h = h.tenant_id == tenant_id && h.router_id == router_id

abbrev pub serves : ℕ → ℕ → List Hotspot → ℕ → Bool
serves tenant_id router_id hs hotspot_id =
    any (λ h. hotspot_of tenant_id router_id h && h.id == hotspot_id) hs

abbrev pub assigned : (ℕ → Bool) → Customer → Bool
assigned gone c = elim c.hotspot_id [ none ↦ false | some h ↦ gone h ]

-- The references that refuse it: ON DELETE RESTRICT of sessions, and ON DELETE SET NULL of
-- customers, which would set the column tenant_id, NOT NULL, of the same key.
abbrev pub in_use_router : ℕ → ℕ → Database → Bool
in_use_router tenant_id id db =
    let gone = serves tenant_id id db.hotspots in
    any (λ s. s.tenant_id == tenant_id && (s.router_id == id || gone s.hotspot_id)) db.sessions
    || any (λ c. c.tenant_id == tenant_id && assigned gone c) db.customers

abbrev pub without_router : ℕ → ℕ → Database → Database
without_router tenant_id id db =
    let gone = serves tenant_id id db.hotspots in
    record db {
      routers = delete_where (router_key tenant_id id) db.routers;
      hotspots = delete_where (hotspot_of tenant_id id) db.hotspots;
      rate_windows =
          delete_where (λ w. w.tenant_id == tenant_id && gone w.hotspot_id) db.rate_windows;
      config_jobs = delete_where (λ j. gone j.hotspot_id) db.config_jobs;
    }

unfoldable pub delete_router : ℕ → ℕ → Call Database Bool
delete_router tenant_id id =
    constrained (λ db. any (router_key tenant_id id) db.routers && in_use_router tenant_id id db)
      driver
      (λ db. (
        ltb 0 (count_where (router_key tenant_id id) db.routers),
        if any (router_key tenant_id id) db.routers then without_router tenant_id id db else db,
      ))

abbrev pub is_router_status : RouterStatus → RouterStatus → Bool
is_router_status unverified unverified = true
is_router_status online online = true
is_router_status offline offline = true
is_router_status _ _ = false

abbrev pub change_router : (Router → Bool) → (ℕ → Router → Router) → Call Database Unit
change_router p f = exec (λ db. record db { routers = update_where p (f db.now) db.routers })

unfoldable pub set_router_status : ℕ → RouterStatus → Call Database Unit
set_router_status id status =
    change_router (λ r. r.id == id && not (is_router_status r.status status))
      (λ now r. record r { status = status; last_seen_at = some now })

unfoldable pub set_router_online : ℕ → Call Database Unit
set_router_online id =
    change_router (λ r. r.id == id) (λ now r. record r { status = online; last_seen_at = some now })

unfoldable pub set_router_offline : ℕ → Call Database Unit
set_router_offline id =
    change_router (λ r. r.id == id && not (is_router_status r.status offline))
      (λ now r. record r { status = offline })

unfoldable pub set_router_last_sync : ℕ → ℕ → Call Database Unit
set_router_last_sync id at =
    change_router (λ r. r.id == id) (λ now r. record r { last_sync_at = some at })

-- ORDER BY tenant_id, id
abbrev pub put_by_tenant : Router → List Router → List Router
put_by_tenant r [] = r ∷ []
put_by_tenant r (x ∷ xs) =
    if leb r.tenant_id x.tenant_id then r ∷ x ∷ xs else x ∷ put_by_tenant r xs

abbrev pub by_tenant : List Router → List Router
by_tenant [] = []
by_tenant (r ∷ rs) = put_by_tenant r (by_tenant rs)

unfoldable pub routers_all : Call Database (List Router)
routers_all = query (λ db. by_tenant db.routers)
