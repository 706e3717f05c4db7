-- ===== src/Supervisor/Start/Laws.antt =====
-- What `start_service` leaves: a fresh handle, or an error and the handles as they were.
use dev.Prelude.{
  Text, txt, same, ite, ℕ, zero, suc, Option, none, some, [], ◌∷◌, ◌++◌, ◌≡◌, ◌∙◌, ap, refl, arith,
  Option-cases, Bool-cases, inl, inr, ◌==◌, Bool, true, false,
}
use dev.Error.{Result, ok, err, panic}
use dev.Map.{get, insert}
use dev.Map.Laws.{get-insert, get-modify}
use dev.Config.{ServiceDef, HealthConfig, WatchConfig}
use dev.Config.Placeholders.{resolve_service_ports}
use dev.State.{running}
use dev.Supervisor.{
  Supervisor, ServiceHandle, process, Os, after, ◌>>=◌, ◌>>◌, note, ask, world, emit, set_handles,
  slept, probed, armed_recovery, state_changed, asked_port,
}
use dev.Supervisor.Spawn.{spawn_process}
use dev.Supervisor.Keeps.{held, spawn_process-held}
use dev.Supervisor.Start.{
  choose_port, set_route, runtime_ports, fresh_handle, launch, wait_healthy, watch_health,
  watch_files, set_watcher, start_known, start_service,
}

-- The wait for health always comes to an answer, and changes nothing that the supervisor holds.
wait_healthy-held :
    (os : Os) (name : Text) (port : ℕ) (health : HealthConfig) (n : ℕ) (w : Supervisor)
    → ((healthy : Bool) × ((wait_healthy os name port health n w).0 ≡ ok healthy))
      × (held (wait_healthy os name port health n w).1 ≡ held w)
unfolding wait_healthy
wait_healthy-held os name port health zero w = ((false, refl), refl)
wait_healthy-held os name port health (suc n) w =
    elim (Bool-cases
      (os.probe ((w.trace ++ slept health.interval ∷ []) ++ probed name port ∷ []))) [
        | inl e ↦ rw e ((true, refl), refl)
        | inr e ↦ rw e (wait_healthy-held os name port health n _)
      ]

watch_health-held :
    (os : Os) (name : Text) (port : ℕ) (health : Option HealthConfig) (w : Supervisor)
    → ((watch_health os name port health w).0 ≡ ok tt)
      × (held (watch_health os name port health w).1 ≡ held w)
unfolding watch_health
watch_health-held os name port none w = (refl, refl)
watch_health-held os name port (some health) w =
    let ((healthy, e), h) = wait_healthy-held os name port health health.retries w in rw e (refl, h)

-- The handle of `name` is a fresh one of a running process, and every other handle is as it was.
pub record IsStarted (name : Text) (w w' : Supervisor) : Type 0 where
  pub handle : ServiceHandle
  pub pid : ℕ
  pub since : ℕ
  pub is_running : handle.state ≡ running pid since
  pub owns : handle.child ≡ process pid
  pub restarts : handle.restart_count ≡ 0
  pub handles : (j : Text) → get j w'.handles ≡ ite (same name j) (some handle) (get j w.handles)
  pub config : w'.config ≡ w.config

-- The handles and the configuration are as they were.
abbrev pub Untouched : Supervisor → Supervisor → Type 0
Untouched w w' = (w'.handles ≡ w.handles) × (w'.config ≡ w.config)

-- What a start has done: all of it, or nothing to the handles.
abbrev pub StartOutcome : Text → Supervisor → Result (Unit {0}) × Supervisor → Type 0
StartOutcome name w (ok u, w') = IsStarted name w w'
StartOutcome name w (err e, w') = Untouched w w'
StartOutcome name w (panic p, w') = Untouched w w'

watch_files-outcome :
    (os : Os) (name : Text) (watch : Option WatchConfig) (w v : Supervisor)
    → IsStarted name w v
    → StartOutcome name w (watch_files os name watch v)
unfolding watch_files
watch_files-outcome os name none w v s = s
watch_files-outcome os name (some watch) w v s = elim (Bool-cases watch.restart) [
  | inr e ↦ rw e s
  | inl e ↦ rw e (record {
    handle = set_watcher (os.new_watcher v.trace) s.handle;
    pid = s.pid;
    since = s.since;
    is_running = s.is_running;
    owns = s.owns;
    restarts = s.restarts;
    handles = λ j. ground (
      arith,
      get-modify name j (set_watcher (os.new_watcher v.trace)) v.handles,
      s.handles j,
      s.handles name,
    );
    config = s.config;
  })
]

IsStarted-held :
    (name : Text) (w v v' : Supervisor)
    → held v' ≡ held v
    → IsStarted name w v
    → IsStarted name w v'
IsStarted-held name w v v' e s = record {
  handle = s.handle;
  pid = s.pid;
  since = s.since;
  is_running = s.is_running;
  owns = s.owns;
  restarts = s.restarts;
  handles = λ j. ap (λ (u : Supervisor). get j u.handles) e ∙ s.handles j;
  config = ap (λ (u : Supervisor). u.config) e ∙ s.config;
}

-- What `start_known` does once the process runs.
tail-outcome :
    (os : Os) (name : Text) (svc : ServiceDef) (port : ℕ) (w v : Supervisor)
    → IsStarted name w v
    → StartOutcome name w (
        (note (armed_recovery name)
            >> (watch_health os name port svc.health >> watch_files os name svc.watch))
          v)
tail-outcome os name svc port w v s =
    let u = (note (armed_recovery name) v).1 in
    let (e, h) = watch_health-held os name port svc.health u in
    rw e (
      watch_files-outcome os name svc.watch w _
        (IsStarted-held name w v (watch_health os name port svc.health u).1 h s))

-- The handles that a spawn leaves are the ones it met.
launch-outcome :
    (os : Os) (name : Text) (svc svc' : ServiceDef) (port color_idx : ℕ) (w v : Supervisor)
    → Untouched w v
    → StartOutcome name w (
        (launch os name svc' port color_idx
            >> (note (armed_recovery name)
                >> (watch_health os name port svc.health >> watch_files os name svc.watch)))
          v)
unfolding launch
launch-outcome os name svc svc' port color_idx w v (h, c) =
    go (spawn_process os name svc' port color_idx v)
      (spawn_process-held os name svc' port color_idx v)
  where
    go :
        (r : Result ℕ × Supervisor)
        → held r.1 ≡ held v
        → StartOutcome name w (
            after
              (after r (λ pid. ask os.now >>= λ since. world >>= λ u.
                set_handles (insert name (fresh_handle pid since color_idx port) u.handles)
                >> emit (state_changed name (txt "running"))))
              (λ _.
                note (armed_recovery name)
                >> (watch_health os name port svc.health >> watch_files os name svc.watch)))
    go (err e, u) k =
        (ap (λ (x : Supervisor). x.handles) k ∙ h, ap (λ (x : Supervisor). x.config) k ∙ c)
    go (panic p, u) k =
        (ap (λ (x : Supervisor). x.handles) k ∙ h, ap (λ (x : Supervisor). x.config) k ∙ c)
    go (ok pid, u) k = tail-outcome os name svc port w _ (record {
      handle = fresh_handle pid (os.now u.trace) color_idx port;
      pid = pid;
      since = os.now u.trace;
      is_running = refl;
      owns = refl;
      restarts = refl;
      handles = λ j.
          get-insert name j (fresh_handle pid (os.now u.trace) color_idx port) u.handles
          ∙ ap
              (λ m.
                ite (same name j) (some (fresh_handle pid (os.now u.trace) color_idx port))
                  (get j m))
              (ap (λ (x : Supervisor). x.handles) k ∙ h);
      config = ap (λ (x : Supervisor). x.config) k ∙ c;
    })

-- What `start_known` does once the port is known.
routed-outcome :
    (os : Os) (name : Text) (svc : ServiceDef) (port color_idx : ℕ) (w v : Supervisor)
    → Untouched w v
    → StartOutcome name w (
        (set_route svc.subdomain port
            >> (world >>= λ u.
                launch os name
                  (resolve_service_ports svc (insert name port (runtime_ports u)))
                  port
                  color_idx
                >> (note (armed_recovery name)
                    >> (watch_health os name port svc.health >> watch_files os name svc.watch))))
          v)
routed-outcome os name svc port color_idx w v k = elim (Option-cases svc.subdomain) [
  | inl e ↦ rw e (launch-outcome os name svc _ port color_idx w v k)
  | inr (subdomain, e) ↦ rw e (launch-outcome os name svc _ port color_idx w _ k)
]

start_known-outcome :
    (os : Os) (name : Text) (color_idx : ℕ) (svc : ServiceDef) (w : Supervisor)
    → StartOutcome name w (start_known os name color_idx svc w)
unfolding start_known choose_port
start_known-outcome os name color_idx svc w =
    let u = (emit (state_changed name (txt "starting")) w).1 in
    elim (Bool-cases (svc.port == 0)) [
      | inr e ↦ rw (e, choose_port) (routed-outcome os name svc svc.port color_idx w u (refl, refl))
      | inl e ↦ elim (Option-cases (os.free_port (note asked_port u).1.trace)) [
        | inl f ↦ rw (e, choose_port, f) (refl, refl)
        | inr (port, f) ↦
            rw (e, choose_port, f)
              (routed-outcome os name svc port color_idx w (note asked_port u).1 (refl, refl))
      ]
    ]

-- `start_service` either leaves a fresh handle of a running process under the name, and every other
-- handle as it was, or it fails and leaves the handles as they were. In both cases the
-- configuration stays.
pub start_service-outcome :
    (os : Os) (name : Text) (color_idx : ℕ) (w : Supervisor)
    → StartOutcome name w (start_service os name color_idx w)
unfolding start_service
start_service-outcome os name color_idx w = elim (Option-cases (get name w.config.service)) [
  | inl e ↦ rw e (refl, refl)
  | inr (svc, e) ↦ rw e (start_known-outcome os name color_idx svc w)
]
