-- ===== src/Graph/Life.antt =====
-- Starting and stopping a graph, and what it reports of its proxels.
use superflow.Base.{
  ℕ, ◌≡◌, ◌≢◌, refl, ap, sym, subst, ◌∙◌, inl, inr, false, [], ◌∷◌, arith, Option, none, some,
  Option-cases, returns, throws, runtime_error, ◌⊎◌, is_empty,
}
use superflow.Map.{Key, Map, IsMap, lookup, insert}
use superflow.Map.Laws.{lookup-insert_self, lookup-insert_ne, IsAbove-lookup}
use superflow.Registry.{put}
use superflow.Registry.Laws.{lookup-put_self, lookup-put_ne}
use superflow.Consumer.MultiReads.{first_of}
use superflow.Graph.{
  Graph, Proxel, PortStatus, ProxelStatus, Thread, runs, crashed, crash, start, stop, is_running,
  spawn, all_joined, statuses_of, get_proxel_statuses, report,
}

used {ℓ} :
    {K : Type ℓ} ⦃key : Key K⦄ (k : K) (v : Thread) (m : Map K Thread)
    → lookup k m ≡ some v
    → is_empty m ≡ false
unfolding lookup
used k v [] h = cc
used k v (x ∷ m) h = refl

module _ {ℓ κ} {K : Type ℓ} {W : Type κ} ⦃key : Key K⦄ where
  -- The entry of a name: what is reported for its proxel, or none
  abbrev pub reported :
      (ℕ → PortStatus) → Option W → Option (Proxel K W) → Option (ProxelStatus K W)
  reported status_of crash none = none
  reported status_of crash (some proxel) = some (report status_of crash proxel)

  lookup-statuses_of :
      (status_of : ℕ → PortStatus) (crashes : Map K W) (k : K) (proxels : Map K (Proxel K W))
      (statuses : Map K (ProxelStatus K W))
      → IsMap proxels
      → lookup k (statuses_of status_of crashes proxels statuses)
        ≡ first_of (reported status_of (lookup k crashes) (lookup k proxels)) (lookup k statuses)
  unfolding statuses_of lookup
  lookup-statuses_of status_of crashes k [] statuses s = refl
  lookup-statuses_of status_of crashes k ((j, proxel) ∷ proxels) statuses s = ground (
    arith,
    lookup-statuses_of status_of crashes k proxels
        (insert j (report status_of (lookup j crashes) proxel) statuses) s.1,
    lookup-insert_self k (report status_of (lookup k crashes) proxel) statuses,
    lookup-insert_ne k j (report status_of (lookup j crashes) proxel) statuses,
    key.cmp_eq k j,
    IsAbove-lookup j proxels s.0,
  )

  stop_keeps :
      (g r : Graph K W) → stop g ≡ returns r → (r.proxels ≡ g.proxels) × (r.crashes ≡ g.crashes)
  unfolding stop
  stop_keeps g r h = ground arith

  start_keeps :
      (g r : Graph K W) → start g ≡ returns r → (r.proxels ≡ g.proxels) × (r.crashes ≡ g.crashes)
  unfolding start
  start_keeps g r h = ground arith

  -- `getProxelStatuses` of a graph whose proxels are sorted reports exactly these: for a proxel
  -- that crashed, the state Crashed with the text, and else its own status.
  pub lookup-get_proxel_statuses :
      (status_of : ℕ → PortStatus) (k : K) (g : Graph K W)
      → IsMap g.proxels
      → lookup k (get_proxel_statuses status_of g)
        ≡ reported status_of (lookup k g.crashes) (lookup k g.proxels)
  unfolding get_proxel_statuses lookup
  lookup-get_proxel_statuses status_of k g s =
      lookup-statuses_of status_of g.crashes k g.proxels [] s ∙ ground arith

  -- A graph that was stopped and started again still reports a crash of its first run: if a proxel
  -- of a graph with sorted proxels crashes, and `stop` and then `start` return, its state is
  -- Crashed with the text of that crash.
  pub crash_survives_restart :
      (status_of : ℕ → PortStatus) (k : K) (what : W) (proxel : Proxel K W)
      (g stopped started : Graph K W)
      → IsMap g.proxels
      → lookup k g.proxels ≡ some proxel
      → stop (crash k what g) ≡ returns stopped
      → start stopped ≡ returns started
      → lookup k (get_proxel_statuses status_of started)
        ≡ some (record { state = crashed; info = what; ports = [] })
  unfolding crash report
  crash_survives_restart status_of k what proxel g stopped started s l e f =
      let u = stop_keeps (crash k what g) stopped e in
      let v = start_keeps stopped started f in
      let same : started.proxels ≡ g.proxels = v.0 ∙ u.0 in
      lookup-get_proxel_statuses status_of k started (subst IsMap (sym same) s)
      ∙ ap (λ c. reported status_of (lookup k c) (lookup k started.proxels)) (v.1 ∙ u.1)
      ∙ ap (λ o. reported status_of o (lookup k started.proxels))
          (lookup-insert_self k what g.crashes)
      ∙ ap (λ m. reported status_of (some what) (lookup k m)) same
      ∙ ap (reported status_of (some what)) l

  abbrev pub thread_for : Option (Proxel K W) → Option Thread
  thread_for none = none
  thread_for (some proxel) = some runs

  lookup-spawn :
      (k : K) (proxels : Map K (Proxel K W)) (threads : Map K Thread)
      → IsMap proxels
      → lookup k (spawn proxels threads)
        ≡ first_of (lookup k threads) (thread_for (lookup k proxels))
  unfolding spawn lookup
  lookup-spawn k [] threads s = ground arith
  lookup-spawn k ((j, proxel) ∷ proxels) threads s = ground (
    arith,
    lookup-spawn k proxels (put j runs threads) s.1,
    lookup-put_self k runs threads,
    lookup-put_ne k j runs threads,
    key.cmp_eq k j,
    IsAbove-lookup j proxels s.0,
  )

  no_threads :
      (k : K) (o : Option (Proxel K W)) (m : Map K Thread)
      → m ≡ []
      → first_of (lookup k m) (thread_for o) ≡ thread_for o
  unfolding lookup
  no_threads k o [] h = refl
  no_threads k o (x ∷ m) h = cc

  -- `start` of a graph with sorted proxels and no threads returns a graph with a running thread for
  -- each proxel and no others; a second `start` throws if there is any proxel.
  pub start_spawns :
      (k : K) (g : Graph K W)
      → IsMap g.proxels
      → g.proxel_threads ≡ []
      → (r : Graph K W) × (start g ≡ returns r)
        × (lookup k r.proxel_threads ≡ thread_for (lookup k g.proxels))
        × ((lookup k g.proxels ≡ none) ⊎ (start r ≡ throws runtime_error))
  unfolding start is_running
  start_spawns k g s e =
      let threads : Map K Thread = spawn g.proxels g.proxel_threads in
      let found : lookup k threads ≡ thread_for (lookup k g.proxels) =
        lookup-spawn k g.proxels g.proxel_threads s
        ∙ no_threads k (lookup k g.proxels) g.proxel_threads e in
      (
        record g { proxel_threads = threads },
        ground arith,
        found,
        elim (Option-cases (lookup k g.proxels)) [
          | inl absent ↦ inl absent
          | inr (proxel, present) ↦
              inr (ground (arith, used k runs threads (found ∙ ap thread_for present)))
        ],
      )

  all_joined-runs :
      (k : K) (proxel : Proxel K W) (proxels : Map K (Proxel K W)) (threads : Map K Thread)
      → lookup k proxels ≡ some proxel
      → lookup k threads ≡ some runs
      → all_joined proxels threads ≡ false
  unfolding all_joined lookup
  all_joined-runs k proxel [] threads h r = cc
  all_joined-runs k proxel ((j, p) ∷ proxels) threads h r =
      ground (arith, key.cmp_eq k j, all_joined-runs k proxel proxels threads)

  -- If `stop` returns, no thread of a proxel of the graph runs any more, and the graph is not
  -- running, so that it can be started again.
  pub stop_joins :
      (k : K) (proxel : Proxel K W) (g r : Graph K W)
      → lookup k g.proxels ≡ some proxel
      → stop g ≡ returns r
      → (is_running r ≡ false) × (lookup k g.proxel_threads ≢ some runs)
  unfolding stop is_running
  stop_joins k proxel g r h e = (
    ground arith,
    λ run. ground (
      arith,
      all_joined-runs k proxel g.proxels g.proxel_threads h run,
      used k runs g.proxel_threads run,
    ),
  )
