-- ===== src/Store/RateWindows.antt =====
-- backend/internal/store/insights.go: rate windows, and the hotspots whose rate has to change.
use go_react_fihos.Common.{
  ℕ, ◌+◌, ◌==◌, ◌&&◌, Bool, true, false, not, Option, some, none, List, [], ◌∷◌, ◌++◌,
  if◌then◌else◌, leb, ltb, any,
}
use go_react_fihos.Common.Text.{Text, codes}
use go_react_fihos.Store.Db.{
  not_found, driver, Call, or_raise, raise_if, query, exec_returning, constrained, ◌>>=◌,
}
use go_react_fihos.Store.Sql.{count_where, select_rows, delete_where}
use go_react_fihos.Store.Schema.{Database}
use go_react_fihos.Store.Network.{Hotspot, HotspotStatus, RateWindow}
use go_react_fihos.Store.Sessions.{hotspot_key, in_force, latest}

-- COALESCE($6, '{}'): a `repeat` that is not given is the empty text here.
abbrev pub json_or_empty : Text → Text
json_or_empty [] = codes "{}"
json_or_empty (c ∷ s) = c ∷ s

abbrev pub rate_window_row : RateWindow → Database → RateWindow
rate_window_row rw db = record rw {
  id = db.next_id;
  repeat = json_or_empty rw.repeat;
  created_at = db.now;
}

-- fk_ratewindow_hotspot and CHECK (boost_multiplier > 1)
abbrev pub refused_window : RateWindow → Database → Bool
refused_window rw db =
    not (any (hotspot_key rw.tenant_id rw.hotspot_id) db.hotspots && ltb 100 rw.boost_multiplier)

unfoldable pub create_rate_window : RateWindow → Call Database RateWindow
create_rate_window rw = constrained (refused_window rw) driver (λ db. (
  rate_window_row rw db,
  record db {
    rate_windows = db.rate_windows ++ rate_window_row rw db ∷ [];
    next_id = db.next_id + 1;
  },
))

abbrev pub rate_window_key : ℕ → ℕ → RateWindow → Bool
rate_window_key tenant_id id rw = rw.tenant_id == tenant_id && rw.id == id

unfoldable pub delete_rate_window : ℕ → ℕ → Call Database Unit
delete_rate_window tenant_id id = do
  affected ← exec_returning (λ db. (
    count_where (rate_window_key tenant_id id) db.rate_windows,
    record db { rate_windows = delete_where (rate_window_key tenant_id id) db.rate_windows },
  ))
  raise_if (affected == 0) not_found

unfoldable pub active_rate_window : ℕ → ℕ → Call Database RateWindow
active_rate_window tenant_id hotspot_id = do
  rw ← query (λ db. latest (select_rows (in_force tenant_id hotspot_id db.now) db.rate_windows))
  or_raise rw not_found

-- The fields that the worker uses; the id of a window is none where a rate is reverted.
pub record RateWindowJob : Type 0 where
  pub window_id : Option ℕ
  pub tenant_id : ℕ
  pub hotspot_id : ℕ
  pub hotspot_name : Text
  pub router_id : ℕ
  pub multiplier : ℕ

abbrev pub job_of : Option ℕ → ℕ → Hotspot → RateWindowJob
job_of window_id multiplier h = record {
  window_id = window_id;
  tenant_id = h.tenant_id;
  hotspot_id = h.id;
  hotspot_name = h.name;
  router_id = h.router_id;
  multiplier = multiplier;
}

abbrev pub is_active_hotspot : Hotspot → Bool
is_active_hotspot h = elim h.status [ HotspotStatus.active ↦ true | _ ↦ false ]

-- The rows of the join for one window. Two multipliers of two decimals differ by more than 0.001
-- where they differ.
abbrev pub to_start : ℕ → RateWindow → Hotspot → Bool
to_start now rw h =
    in_force h.tenant_id h.id now rw
    && is_active_hotspot h
    && not (h.applied_multiplier == rw.boost_multiplier)

abbrev pub started_by : ℕ → RateWindow → List Hotspot → List RateWindowJob
started_by now rw [] = []
started_by now rw (h ∷ hs) =
    if to_start now rw h
    then job_of (some rw.id) rw.boost_multiplier h ∷ started_by now rw hs
    else started_by now rw hs

abbrev pub all_started : ℕ → List Hotspot → List RateWindow → List RateWindowJob
all_started now hs [] = []
all_started now hs (rw ∷ rws) = started_by now rw hs ++ all_started now hs rws

unfoldable pub windows_to_start : Call Database (List RateWindowJob)
windows_to_start = query (λ db. all_started db.now db.hotspots db.rate_windows)

-- rw.hotspot_id = h.id AND rw.effective_from <= $1 AND rw.effective_until > $1
abbrev pub covers : ℕ → ℕ → RateWindow → Bool
covers hotspot_id at rw =
    rw.hotspot_id == hotspot_id && leb rw.effective_from at && ltb at rw.effective_until

abbrev pub to_revert : ℕ → List RateWindow → Hotspot → Bool
to_revert at rws h = not (h.applied_multiplier == 100) && not (any (covers h.id at) rws)

abbrev pub all_reverted : ℕ → List RateWindow → List Hotspot → List RateWindowJob
all_reverted at rws [] = []
all_reverted at rws (h ∷ hs) =
    if to_revert at rws h
    then job_of none h.applied_multiplier h ∷ all_reverted at rws hs
    else all_reverted at rws hs

unfoldable pub list_expired_applied_windows : ℕ → Call Database (List RateWindowJob)
list_expired_applied_windows up_to = query (λ db. all_reverted up_to db.rate_windows db.hotspots)
