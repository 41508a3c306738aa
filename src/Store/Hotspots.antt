-- ===== src/Store/Hotspots.antt =====
-- backend/internal/store/infra.go: hotspots, and the jobs that configure them.
use go_react_fihos.Common.{
  ℕ, ◌+◌, ◌==◌, ◌&&◌, ◌||◌, Bool, true, false, not, Option, some, none, List, [], ◌∷◌, ◌++◌, any,
  take,
}
use go_react_fihos.Common.Text.{Text}
use go_react_fihos.Store.Db.{not_found, driver, Call, or_raise, query, exec, constrained, ◌>>=◌}
use go_react_fihos.Store.Sql.{select_row, update_where, count_where, select_rows}
use go_react_fihos.Store.Schema.{Database}
use go_react_fihos.Store.Network.{
  Hotspot, HotspotStatus, configuring, active, ConfigJob, JobStatus, pending, done, failed,
}
use go_react_fihos.Store.Routers.{profile_key, router_key}
use go_react_fihos.Store.Sessions.{hotspot_key, is_active}

abbrev pub nil_if_empty : Option Text → Option Text
nil_if_empty none = none
nil_if_empty (some []) = none
nil_if_empty (some (c ∷ s)) = some (c ∷ s)

-- fk_hotspot_router and fk_hotspot_profile: both are of the hotspot's tenant.
abbrev pub unlinked : ℕ → ℕ → ℕ → Database → Bool
unlinked tenant_id router_id profile_id db = not (
    any (router_key tenant_id router_id) db.routers
    && any (profile_key tenant_id profile_id) db.hotspot_profiles)

abbrev pub hotspot_row : ℕ → Hotspot → Database → Hotspot
hotspot_row tenant_id h db = record h {
  id = db.next_id;
  tenant_id = tenant_id;
  mikrotik_id = none;
  ip_range = nil_if_empty h.ip_range;
  status = configuring;
  last_config_at = none;
  applied_multiplier = 100;
  created_at = db.now;
}

unfoldable pub create_hotspot : ℕ → Hotspot → Call Database Hotspot
create_hotspot tenant_id h = constrained (unlinked tenant_id h.router_id h.profile_id) driver (λ db.
    (
      hotspot_row tenant_id h db,
      record db {
        hotspots = db.hotspots ++ hotspot_row tenant_id h db ∷ [];
        next_id = db.next_id + 1;
      },
    ))

-- `status` is the test ($3='' OR status=$3).
abbrev pub listed_hotspot : ℕ → ℕ → (HotspotStatus → Bool) → Hotspot → Bool
listed_hotspot tenant_id router_id status h =
    h.tenant_id == tenant_id && (router_id == 0 || h.router_id == router_id) && status h.status

unfoldable pub list_hotspots : ℕ → ℕ → (HotspotStatus → Bool) → Call Database (List Hotspot)
list_hotspots tenant_id router_id status =
    query (λ db. select_rows (listed_hotspot tenant_id router_id status) db.hotspots)

unfoldable pub hotspot_by_id : ℕ → ℕ → Call Database Hotspot
hotspot_by_id tenant_id id = do
  h ← query (λ db. select_row (hotspot_key tenant_id id) db.hotspots)
  or_raise h not_found

abbrev pub set_hotspot : Hotspot → Hotspot → Hotspot
set_hotspot h old = record old {
  name = h.name;
  router_id = h.router_id;
  profile_id = h.profile_id;
  ip_range = nil_if_empty h.ip_range;
  status = configuring;
}

unfoldable pub update_hotspot : ℕ → ℕ → Hotspot → Call Database Hotspot
update_hotspot tenant_id id h = do
  updated ←
      constrained
        (λ db.
          any (hotspot_key tenant_id id) db.hotspots
          && unlinked tenant_id h.router_id h.profile_id db)
        driver
        (λ db. (
          select_row (hotspot_key tenant_id id)
              (update_where (hotspot_key tenant_id id) (set_hotspot h) db.hotspots),
          record db {
            hotspots = update_where (hotspot_key tenant_id id) (set_hotspot h) db.hotspots;
          },
        ))
  or_raise updated not_found

unfoldable pub set_hotspot_status : ℕ → ℕ → HotspotStatus → Call Database Unit
set_hotspot_status tenant_id id status = exec (λ db. record db {
  hotspots =
      update_where (hotspot_key tenant_id id) (λ h. record h { status = status }) db.hotspots;
})

-- COALESCE(NULLIF($2,''), mikrotik_id)
abbrev pub text_or : Text → Option Text → Option Text
text_or [] old = old
text_or (c ∷ s) old = some (c ∷ s)

abbrev pub set_configured : Text → ℕ → ℕ → Hotspot → Hotspot
set_configured mikrotik_id multiplier now h = record h {
  status = active;
  mikrotik_id = text_or mikrotik_id h.mikrotik_id;
  applied_multiplier = multiplier;
  last_config_at = some now;
}

unfoldable pub set_hotspot_configured : ℕ → Text → ℕ → Call Database Unit
set_hotspot_configured id mikrotik_id multiplier = exec (λ db. record db {
  hotspots =
      update_where (λ h. h.id == id) (set_configured mikrotik_id multiplier db.now) db.hotspots;
})

unfoldable pub hotspot_active_sessions_count : ℕ → ℕ → Call Database ℕ
hotspot_active_sessions_count tenant_id id = query (λ db.
    count_where (λ s. s.tenant_id == tenant_id && s.hotspot_id == id && is_active s) db.sessions)

abbrev pub new_job : ℕ → ℕ → Text → Text → Database → ConfigJob
new_job tenant_id hotspot_id action payload db = record {
  id = db.next_id;
  tenant_id = tenant_id;
  hotspot_id = hotspot_id;
  action = action;
  payload = payload;
  status = pending;
  attempts = 0;
  last_error = none;
  created_at = db.now;
  updated_at = db.now;
}

-- The table has no key but its id, so ON CONFLICT never applies. The hotspot has to be there.
unfoldable pub enqueue_job : ℕ → ℕ → Text → Text → Call Database Unit
enqueue_job tenant_id hotspot_id action payload =
    constrained (λ db. not (any (λ h. h.id == hotspot_id) db.hotspots)) driver
      (λ db. (
        tt,
        record db {
          config_jobs = db.config_jobs ++ new_job tenant_id hotspot_id action payload db ∷ [];
          next_id = db.next_id + 1;
        },
      ))

abbrev pub is_pending_job : ConfigJob → Bool
is_pending_job j = elim j.status [ JobStatus.pending ↦ true | _ ↦ false ]

unfoldable pub pending_jobs : ℕ → Call Database (List ConfigJob)
pending_jobs limit = query (λ db. take limit (select_rows is_pending_job db.config_jobs))

abbrev pub finish_job : ℕ → ConfigJob → ConfigJob
finish_job now j = record j { status = done; updated_at = now }

unfoldable pub done_job : ℕ → Call Database Unit
done_job id = exec (λ db. record db {
  config_jobs = update_where (λ j. j.id == id) (finish_job db.now) db.config_jobs;
})

abbrev pub abandon_job : Text → ℕ → ConfigJob → ConfigJob
abandon_job message now j = record j {
  status = failed;
  last_error = some message;
  attempts = j.attempts + 1;
  updated_at = now;
}

unfoldable pub fail_job : ℕ → Text → Call Database Unit
fail_job id message = exec (λ db. record db {
  config_jobs =
      update_where (λ j. j.id == id && is_pending_job j) (abandon_job message db.now)
        db.config_jobs;
})
