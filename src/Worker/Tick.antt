-- ===== src/Worker/Tick.antt =====
-- A whole pass of `schedulerTick` in backend/cmd/worker/main.go, and the jobs that it finds.
use mathlib.Core.Path.{subst, sym}
use go_react_fihos.Common.{
  ℕ, ◌≡◌, ◌≤◌, refl, ap, ◌∙◌, false, List, [], ◌∷◌, arith, Option, some, none, All, All-imp,
  All-take, take, map,
}
use go_react_fihos.Common.Text.{Text}
use go_react_fihos.Store.Db.{Error, Faults, Call, fails, later, ◌>>◌, ◌>>=◌}
use go_react_fihos.Store.Db.Keeps.{Keeps, bind-Keeps}
use go_react_fihos.Store.Sql.{select_rows, All-select_rows}
use go_react_fihos.Store.Schema.{Database}
use go_react_fihos.Store.Access.{Session}
use go_react_fihos.Store.Network.{Router, ConfigJob}
use go_react_fihos.Store.Routers.{routers_all, by_tenant}
use go_react_fihos.Store.Hotspots.{is_pending_job, pending_jobs, set_hotspot_configured}
use go_react_fihos.Store.RateWindows.{RateWindowJob, windows_to_start, list_expired_applied_windows}
use go_react_fihos.Store.Sessions.{snapshot_session_usage, close_session, upsert_log}
use go_react_fihos.Mikrotik.Router.{Draw, SimSession}
use go_react_fihos.Mikrotik.Transport.{Transport, Device}
use go_react_fihos.Common.Text.{text_eq}
use go_react_fihos.Common.Dict.{lookup}
use go_react_fihos.Store.Sessions.Active.{list_active_sessions}
use go_react_fihos.Worker.{
  run_job, set_rate, RouterSessions, routers_with_active_sessions, reconcile_router, scheduler_tick,
  mirror, seed_of, by_user, reconcile, set_rates, find_device,
}
use go_react_fihos.Store.World.{World, on_db, for_each, cases, skip, on_outside}
use go_react_fihos.Store.World.Keeps.{
  cases-Keeps, for_each-Keeps, on_db-Keeps, ignored-Keeps, on_outside-Keeps,
}
use go_react_fihos.Worker.Jobs.{
  open_jobs, hotspots_of, LeavesNoFault, Known, run_job-Keeps, run_job-Settles,
}

abbrev pub HaveHotspots : Database → List ConfigJob → Type 0
HaveHotspots db js = All (λ j. 1 ≤ hotspots_of j db.hotspots) js

abbrev pub AreClosed : Database → List ConfigJob → Type 0
AreClosed db js = All (λ j. open_jobs j.id db.config_jobs ≡ 0) js

module _ {S : Type 0} (mt : Transport S) (quiet : LeavesNoFault mt) (message : Error → Text)
    (routers : List Router) where
  abbrev run_jobs : List ConfigJob → Call (World S) Unit
  run_jobs js = for_each (run_job mt message routers) js

  still-HaveHotspots :
      (j : ConfigJob) (js : List ConfigJob) (w : World S)
      → HaveHotspots w.db js
      → HaveHotspots (run_job mt message routers j [] w).2.db js
  still-HaveHotspots j js w h =
      All-imp _ _ js
        (λ i k. omega (
          arith,
          k,
          (run_job-Keeps mt message routers i.id (open_jobs i.id w.db.config_jobs) i
              (hotspots_of i w.db.hotspots) j [] w (omega arith, refl)).1,
        ))
        h

  stays_closed :
      (j : ConfigJob) (js : List ConfigJob) (fs : Faults) (w : World S)
      → open_jobs j.id w.db.config_jobs ≡ 0
      → open_jobs j.id (run_jobs js fs w).2.db.config_jobs ≡ 0
  stays_closed j js fs w e = omega (
    arith,
    (for_each-Keeps (λ w'. Known j.id 0 j (hotspots_of j w.db.hotspots) w'.db)
        (run_job mt message routers) js
        (run_job-Keeps mt message routers j.id 0 j (hotspots_of j w.db.hotspots)) fs w
        (omega (arith, e), refl)).0,
  )

  jobs_close :
      (js : List ConfigJob) (w : World S)
      → HaveHotspots w.db js
      → AreClosed (run_jobs js [] w).2.db js
  jobs_close [] w h = tt
  jobs_close (j ∷ js) w h =
      let (closed, none_fails) = run_job-Settles mt quiet message routers j w h.0 in
      let (r, fs', w') = run_job mt message routers j [] w in
      (
        stays_closed j js fs' w' closed,
        subst (λ fs. AreClosed (run_jobs js fs w').2.db js) (sym none_fails)
            (jobs_close js w' (still-HaveHotspots j js w h.1)),
      )

-- What follows the jobs in a pass does not touch them.
module _ {S : Type 0} (mt : Transport S) (js : List ConfigJob) where
  abbrev Unchanged : Database → Type 0
  Unchanged db = db.config_jobs ≡ js

  snapshot-Unchanged : (i at rx tx : ℕ) → Keeps Unchanged (snapshot_session_usage i at rx tx)
  unfolding snapshot_session_usage upsert_log
  snapshot-Unchanged i at rx tx fs db e = ground (arith, e)

  close-Unchanged : (i at rx tx : ℕ) → Keeps Unchanged (close_session i at rx tx)
  unfolding close_session upsert_log
  close-Unchanged i at rx tx fs db e = ground (arith, e)

  mirror-Unchanged :
      (now : ℕ) (s : Session) (live : Option SimSession)
      → Keeps (λ w. Unchanged w.db) (mirror {S = S} now s live)
  unfolding mirror
  mirror-Unchanged now s (some live) =
      ignored-Keeps Unchanged (snapshot_session_usage s.id now live.bytes_rx live.bytes_tx)
        (snapshot-Unchanged s.id now live.bytes_rx live.bytes_tx)
  mirror-Unchanged now s none =
      ignored-Keeps Unchanged (close_session s.id now s.bytes_rx s.bytes_tx)
        (close-Unchanged s.id now s.bytes_rx s.bytes_tx)

  set_rate-Unchanged :
      (routers : List Router) (w : RateWindowJob) (m : ℕ)
      → Keeps (λ w. Unchanged w.db) (set_rate mt routers w m)
  unfolding set_rate set_hotspot_configured
  set_rate-Unchanged routers w m fs world e = ground (arith, e)

  reconcile-Unchanged :
      (now interval : ℕ) (draws : List (Text × Draw)) (d : Device) (sessions : List Session)
      → Keeps (λ w. Unchanged w.db) (reconcile_router mt now interval draws d sessions)
  unfolding reconcile_router
  reconcile-Unchanged now interval draws d sessions =
      let P : World S → Type 0 = λ w. Unchanged w.db in
      let seed = mt.seed_sessions d (map seed_of sessions) in
      let drop = mt.drop_sessions_except d (map (λ s. s.username) sessions) in
      let list = mt.list_sessions d interval draws in
      let each : List SimSession → Call (World S) Unit = λ live.
        for_each (λ s. mirror now s (lookup text_eq s.username (by_user live []))) sessions in
      bind-Keeps P (on_outside seed) (λ _. on_outside drop >> cases (on_outside list) skip each)
        (on_outside-Keeps Unchanged seed)
        (λ _.
          bind-Keeps P (on_outside drop) (λ _. cases (on_outside list) skip each)
            (on_outside-Keeps Unchanged drop)
            (λ _.
              cases-Keeps P (on_outside list) skip each (on_outside-Keeps Unchanged list)
                (λ e fs w k. k)
                (λ live.
                  for_each-Keeps P (λ s. mirror now s (lookup text_eq s.username (by_user live [])))
                    sessions
                    (λ s. mirror-Unchanged now s (lookup text_eq s.username (by_user live []))))))

  grouped-Unchanged :
      (order : List RouterSessions → List RouterSessions)
      → Keeps (λ w. Unchanged w.db) (routers_with_active_sessions {S = S} order)
  unfolding routers_with_active_sessions list_active_sessions
  grouped-Unchanged order fs w e = ground (arith, e)

  started-Unchanged : Keeps Unchanged windows_to_start
  unfolding windows_to_start
  started-Unchanged fs db e = e

  expired-Unchanged : (now : ℕ) → Keeps Unchanged (list_expired_applied_windows now)
  unfolding list_expired_applied_windows
  expired-Unchanged now fs db e = e

  reconcile_all-Unchanged :
      (order : List RouterSessions → List RouterSessions) (draws : ℕ → List (Text × Draw))
      (now interval : ℕ) (routers : List Router)
      → Keeps (λ w. Unchanged w.db) (reconcile mt order draws now interval routers)
  reconcile_all-Unchanged order draws now interval routers =
      let P : World S → Type 0 = λ w. Unchanged w.db in
      let each : RouterSessions → Call (World S) Unit =
        λ g. reconcile_router mt now interval (draws g.0) (find_device routers g.0) g.1 in
      bind-Keeps P (routers_with_active_sessions order) (λ groups. for_each each groups)
        (grouped-Unchanged order)
        (λ groups.
          for_each-Keeps P each groups
            (λ g. reconcile-Unchanged now interval (draws g.0) (find_device routers g.0) g.1))

  set_rates-Unchanged :
      (now : ℕ) (routers : List Router) → Keeps (λ w. Unchanged w.db) (set_rates mt now routers)
  set_rates-Unchanged now routers =
      let P : World S → Type 0 = λ w. Unchanged w.db in
      let start : RateWindowJob → Call (World S) Unit = λ w. set_rate mt routers w w.multiplier in
      let revert : RateWindowJob → Call (World S) Unit = λ e. set_rate mt routers e 100 in
      let expired = on_db {S = S} (list_expired_applied_windows now) in
      let ending : Call (World S) Unit = (do ends ← expired; for_each revert ends) in
      bind-Keeps P (on_db windows_to_start) (λ ws. for_each start ws >> ending)
        (on_db-Keeps Unchanged windows_to_start started-Unchanged)
        (λ ws.
          bind-Keeps P (for_each start ws) (λ _. ending)
            (for_each-Keeps P start ws (λ w. set_rate-Unchanged routers w w.multiplier))
            (λ _.
              bind-Keeps P expired (λ ends. for_each revert ends)
                (on_db-Keeps Unchanged (list_expired_applied_windows now) (expired-Unchanged now))
                (λ ends. for_each-Keeps P revert ends (λ e. set_rate-Unchanged routers e 100))))

-- The jobs that a pass reads: the first twenty that are pending.
abbrev pub due_jobs : Database → List ConfigJob
due_jobs db = take 20 (select_rows is_pending_job db.config_jobs)

-- If every job's hotspot is there, in the job's tenant, then after a pass in which no statement
-- fails before the jobs are through, none of the first twenty pending jobs is pending, whatever the
-- devices answer.
pub scheduler_tick-AreClosed :
    {S : Type 0} (mt : Transport S) (message : Error → Text)
    (order : List RouterSessions → List RouterSessions) (draws : ℕ → List (Text × Draw))
    (now interval : ℕ) (w : World S)
    → LeavesNoFault mt
    → HaveHotspots w.db w.db.config_jobs
    → AreClosed (scheduler_tick mt message order draws false now interval [] w).2.db (due_jobs w.db)
unfolding scheduler_tick routers_all pending_jobs fails later
scheduler_tick-AreClosed {S} mt message order draws now interval w quiet h =
    let routers = by_tenant w.db.routers in
    let jobs = for_each (run_job mt message routers) (due_jobs w.db) in
    let (r, fs, w') = jobs [] w in
    let done : Call (World S) Unit = λ _ _. (r, fs, w') in
    let rest : Call (World S) Unit =
      set_rates mt now routers >> reconcile mt order draws now interval routers in
    let P : World S → Type 0 = λ v. v.db.config_jobs ≡ w'.db.config_jobs in
    let same : ((done >> rest) [] w).2.db.config_jobs ≡ w'.db.config_jobs =
      bind-Keeps P done (λ _. rest) (λ _ _ _. refl)
        (λ _.
          bind-Keeps P (set_rates mt now routers)
            (λ _. reconcile mt order draws now interval routers)
            (set_rates-Unchanged mt w'.db.config_jobs now routers)
            (λ _. reconcile_all-Unchanged mt w'.db.config_jobs order draws now interval routers))
        fs w' refl in
    All-imp _ _ (due_jobs w.db) (λ j e. ap (open_jobs j.id) same ∙ e)
      (jobs_close mt quiet message routers (due_jobs w.db) w
        (All-take _ 20 _ (All-select_rows _ is_pending_job w.db.config_jobs h)))
