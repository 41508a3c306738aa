-- ===== src/Worker/Jobs.antt =====
-- The configuration jobs in a pass of backend/cmd/worker/main.go.
use go_react_fihos.Common.{
  ℕ, ◌==◌, ◌&&◌, ◌≡◌, ◌≢◌, ◌≤◌, refl, Bool, Option, none, some, List, [], ◌∷◌, arith,
}
use go_react_fihos.Common.Text.{Text}
use go_react_fihos.Store.Db.{
  Result, ok, err, Error, not_found, or_raise, Faults, fails, later, ignore,
}
use go_react_fihos.Store.Db.Keeps.{Keeps, bind-Keeps}
use go_react_fihos.Store.Sql.{select_row, update_where, count_where, count-update}
use go_react_fihos.Store.Schema.{Database}
use go_react_fihos.Store.Network.{Router, Profile, Hotspot, ConfigJob}
use go_react_fihos.Store.Sessions.{hotspot_key}
use go_react_fihos.Store.Routers.{profile_by_id, profile_key}
use go_react_fihos.Store.Hotspots.{
  is_pending_job, finish_job, abandon_job, hotspot_by_id, fail_job, done_job,
  set_hotspot_configured, set_configured,
}
use go_react_fihos.Mikrotik.Transport.{Device, HotspotConfig, Transport}
use go_react_fihos.Worker.{
  run_job, apply_profile, find_device, config_of, finish, fail_with, configure_job,
}
use go_react_fihos.Store.World.{World, on_db, on_outside, cases, skip}
use go_react_fihos.Store.World.Keeps.{cases-Keeps, on_db-Keeps, ignored-Keeps, on_outside-Keeps}

abbrev pub is_open : ℕ → ConfigJob → Bool
is_open id j = j.id == id && is_pending_job j

-- The jobs of an id that are pending: one at most, as the id is the key.
unfoldable pub open_jobs : ℕ → List ConfigJob → ℕ
open_jobs id js = count_where (is_open id) js

module _ (id i now : ℕ) where
  finish-le :
      (js : List ConfigJob)
      → open_jobs id (update_where (λ j. j.id == i) (finish_job now) js) ≤ open_jobs id js
  unfolding open_jobs
  finish-le [] = omega arith
  finish-le (j ∷ js) = ground (arith, finish-le js)

  abandon-le :
      (message : Text) (js : List ConfigJob)
      → open_jobs id (update_where (is_open i) (abandon_job message now) js) ≤ open_jobs id js
  unfolding open_jobs
  abandon-le message [] = omega arith
  abandon-le message (j ∷ js) = ground (arith, abandon-le message js)

module _ (id now : ℕ) where
  finish-none :
      (js : List ConfigJob) → open_jobs id (update_where (λ j. j.id == id) (finish_job now) js) ≡ 0
  unfolding open_jobs
  finish-none [] = omega arith
  finish-none (j ∷ js) = ground (arith, finish-none js)

  abandon-none :
      (message : Text) (js : List ConfigJob)
      → open_jobs id (update_where (is_open id) (abandon_job message now) js) ≡ 0
  unfolding open_jobs
  abandon-none message [] = omega arith
  abandon-none message (j ∷ js) = ground (arith, abandon-none message js)

-- The hotspot of a job is there, in the tenant of the job.
unfoldable pub hotspots_of : ConfigJob → List Hotspot → ℕ
hotspots_of j hs = count_where (hotspot_key j.tenant_id j.hotspot_id) hs

module _ (j : ConfigJob) where
  found_or_no_hotspot :
      (hs : List Hotspot)
      → select_row (hotspot_key j.tenant_id j.hotspot_id) hs ≡ none
      → hotspots_of j hs ≡ 0
  unfolding hotspots_of
  found_or_no_hotspot [] e = refl
  found_or_no_hotspot (h ∷ hs) e = ground (arith, found_or_no_hotspot hs)

  configured-same :
      (id : ℕ) (m : Text) (x now : ℕ) (hs : List Hotspot)
      → hotspots_of j (update_where (λ h. h.id == id) (set_configured m x now) hs)
        ≡ hotspots_of j hs
  unfolding hotspots_of
  configured-same id m x now hs =
      count-update (hotspot_key j.tenant_id j.hotspot_id) (λ h. h.id == id) (set_configured m x now)
        hs (λ h. ground arith)

-- Of a job id `id` at most `n` rows are pending, and of the hotspots of a job `j` there are `k`.
abbrev pub Known : ℕ → ℕ → ConfigJob → ℕ → Database → Type 0
Known id n j k db = (open_jobs id db.config_jobs ≤ n) × (hotspots_of j db.hotspots ≡ k)

module _ (id n : ℕ) (j : ConfigJob) (k : ℕ) where
  done_job-Keeps : (i : ℕ) → Keeps (Known id n j k) (done_job i)
  unfolding done_job
  done_job-Keeps i fs db p = ground (arith, finish-le id i db.now db.config_jobs, p)

  fail_job-Keeps : (i : ℕ) (message : Text) → Keeps (Known id n j k) (fail_job i message)
  unfolding fail_job
  fail_job-Keeps i message fs db p =
      ground (arith, abandon-le id i db.now message db.config_jobs, p)

  set_hotspot_configured-Keeps :
      (i : ℕ) (m : Text) (x : ℕ) → Keeps (Known id n j k) (set_hotspot_configured i m x)
  unfolding set_hotspot_configured
  set_hotspot_configured-Keeps i m x fs db p =
      ground (arith, configured-same j i m x db.now db.hotspots, p)

  hotspot_by_id-Keeps : (t i : ℕ) → Keeps (Known id n j k) (hotspot_by_id t i)
  unfolding hotspot_by_id
  hotspot_by_id-Keeps t i fs db p = ground (arith, p)

  profile_by_id-Keeps : (t i : ℕ) → Keeps (Known id n j k) (profile_by_id t i)
  unfolding profile_by_id
  profile_by_id-Keeps t i fs db p = ground (arith, p)

module _ {S : Type 0} (mt : Transport S) (message : Error → Text) (routers : List Router) (id n : ℕ)
    (j : ConfigJob) (k : ℕ) where
  abbrev Same : World S → Type 0
  Same w = Known id n j k w.db

  fail_with-Keeps : (i : ConfigJob) (e : Error) → Keeps Same (fail_with message i e)
  fail_with-Keeps i e =
      ignored-Keeps (Known id n j k) (fail_job i.id (message e))
        (fail_job-Keeps id n j k i.id (message e))

  finish-Keeps : (i : ConfigJob) (hs : Hotspot) → Keeps Same (finish i hs)
  finish-Keeps i hs =
      let m = set_hotspot_configured hs.id [] hs.applied_multiplier in
      bind-Keeps Same (ignore (on_db (done_job i.id))) (λ _. ignore (on_db m))
        (ignored-Keeps (Known id n j k) (done_job i.id) (done_job-Keeps id n j k i.id))
        (λ _.
          ignored-Keeps (Known id n j k) m
            (set_hotspot_configured-Keeps id n j k hs.id [] hs.applied_multiplier))

  apply_profile-Keeps :
      (i : ConfigJob) (hs : Hotspot) (profile : Profile)
      → Keeps Same (apply_profile mt message routers i hs profile)
  unfolding apply_profile
  apply_profile-Keeps i hs profile =
      let m = mt.apply_config (find_device routers hs.router_id) (config_of hs profile) in
      cases-Keeps Same (on_outside m) (fail_with message i) (λ _. finish i hs)
        (on_outside-Keeps (Known id n j k) m) (fail_with-Keeps i) (λ _. finish-Keeps i hs)

  configure_job-Keeps :
      (i : ConfigJob) (hs : Hotspot) → Keeps Same (configure_job mt message routers i hs)
  configure_job-Keeps i hs =
      let read = profile_by_id i.tenant_id hs.profile_id in
      cases-Keeps Same (on_db read) (fail_with message i) (apply_profile mt message routers i hs)
        (on_db-Keeps (Known id n j k) read (profile_by_id-Keeps id n j k i.tenant_id hs.profile_id))
        (fail_with-Keeps i) (apply_profile-Keeps i hs)

  pub run_job-Keeps : (i : ConfigJob) → Keeps Same (run_job mt message routers i)
  unfolding run_job
  run_job-Keeps i =
      let find = hotspot_by_id i.tenant_id i.hotspot_id in
      cases-Keeps Same (on_db find) skip (configure_job mt message routers i)
        (on_db-Keeps (Known id n j k) find (hotspot_by_id-Keeps id n j k i.tenant_id i.hotspot_id))
        (λ e fs w p. p) (configure_job-Keeps i)

-- A device that is configured fails no statement that follows.
abbrev pub LeavesNoFault : {S : Type 0} → Transport S → Type 0
LeavesNoFault {S} mt = (d : Device) (c : HotspotConfig) (s : S) → (mt.apply_config d c [] s).1 ≡ []

-- A pass that has seen no failing statement yet, and has closed the jobs of an id.
abbrev Settles : {S : Type 0} → ConfigJob → Result Unit × Faults × World S → Type 0
Settles j (r, fs, w) = (open_jobs j.id w.db.config_jobs ≡ 0) × (fs ≡ [])

module _ {S : Type 0} (mt : Transport S) (quiet : LeavesNoFault mt) (message : Error → Text)
    (routers : List Router) (j : ConfigJob) where
  fail_with-Settles : (e : Error) (w : World S) → Settles j (fail_with message j e [] w)
  unfolding fail_job fails later
  fail_with-Settles e w = (abandon-none j.id w.db.now (message e) w.db.config_jobs, refl)

  finish-Settles : (hs : Hotspot) (w : World S) → Settles j (finish j hs [] w)
  unfolding done_job set_hotspot_configured fails later
  finish-Settles hs w = (finish-none j.id w.db.now w.db.config_jobs, refl)

  applied-Settles :
      (hs : Hotspot) (r : Result Unit) (fs : Faults) (w : World S)
      → fs ≡ []
      → Settles j (elim r as (λ x. Result Unit × Faults × World S) [
        | ok a ↦ finish j hs fs w
        | err e ↦ fail_with message j e fs w
      ])
  applied-Settles hs (ok a) fs w e = rw e (finish-Settles hs w)
  applied-Settles hs (err x) fs w e = rw e (fail_with-Settles x w)

  apply_profile-Settles :
      (hs : Hotspot) (profile : Profile) (w : World S)
      → Settles j (apply_profile mt message routers j hs profile [] w)
  unfolding apply_profile
  apply_profile-Settles hs profile w =
      applied-Settles hs _ _ _
        (quiet (find_device routers hs.router_id) (config_of hs profile) w.outside)

  profile-Settles :
      (hs : Hotspot) (found : Option Profile) (w : World S)
      → Settles j (
          cases
            (on_db (or_raise found not_found))
            (fail_with message j)
            (apply_profile mt message routers j hs)
            []
            w)
  profile-Settles hs none w = fail_with-Settles not_found w
  profile-Settles hs (some profile) w = apply_profile-Settles hs profile w

  configure_job-Settles :
      (hs : Hotspot) (w : World S) → Settles j (configure_job mt message routers j hs [] w)
  unfolding profile_by_id fails later
  configure_job-Settles hs w =
      profile-Settles hs (select_row (profile_key j.tenant_id hs.profile_id) w.db.hotspot_profiles)
        w

  hotspot-Settles :
      (found : Option Hotspot) (w : World S)
      → found ≢ none
      → Settles j
          (cases (on_db (or_raise found not_found)) skip (configure_job mt message routers j) [] w)
  hotspot-Settles none w h = absurd (h refl)
  hotspot-Settles (some hs) w h = configure_job-Settles hs w

  pub run_job-Settles :
      (w : World S)
      → 1 ≤ hotspots_of j w.db.hotspots
      → Settles j (run_job mt message routers j [] w)
  unfolding run_job hotspot_by_id fails later
  run_job-Settles w h =
      hotspot-Settles (select_row (hotspot_key j.tenant_id j.hotspot_id) w.db.hotspots) w
        (λ e. omega (arith, h, found_or_no_hotspot j w.db.hotspots e))
