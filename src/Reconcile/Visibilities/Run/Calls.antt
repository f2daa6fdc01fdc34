-- ===== src/Reconcile/Visibilities/Run/Calls.antt =====
-- The calls of reconcileServiceVisibilities, and its result.
use service_broker_proxy.Prelude.{
  ℕ, ◌^◌, ◌<◌, ◌≡◌, refl, ◌⊎◌, inl, inr, List, map, length, arith, ltb, Bool-cases,
}
use service_broker_proxy.Types.{failed, Visibility}
use service_broker_proxy.Exec.{Log, err, ◌>>=◌}
use service_broker_proxy.Exec.Calls.{Call}
use service_broker_proxy.Clients.{Env, enable_access_for_plan, disable_access_for_plan}
use service_broker_proxy.Reconcile.Job.{ResyncJob}
use service_broker_proxy.Reconcile.Scheduler.{await}
use service_broker_proxy.Reconcile.Scheduler.Calls.{after, failures, schedule_all-calls}
use service_broker_proxy.Reconcile.Visibilities.Compare.{to_create, to_delete}
use service_broker_proxy.Reconcile.Visibilities.Run.{
  access_request, create_visibility, delete_visibility, create_visibilities, delete_visibilities,
  visibility_key, reconcile_service_visibilities,
}

abbrev pub enable_call : Visibility → Call
enable_call v = Call.enable_access_for_plan (access_request v)

abbrev pub disable_call : Visibility → Call
disable_call v = Call.disable_access_for_plan (access_request v)

module _ (env : Env) where
  -- How many of the visibilities cannot be deleted, or created, one after the other.
  abbrev pub failed_deletions : List Visibility → Log → ℕ
  failed_deletions = failures disable_call (λ s v. env.disable_access_for_plan s (access_request v))

  abbrev pub failed_creations : List Visibility → Log → ℕ
  failed_creations = failures enable_call (λ s v. env.enable_access_for_plan s (access_request v))

  delete_visibilities-calls :
      (vs : List Visibility) (s : Log)
      → length vs < 2 ^ 32
      → delete_visibilities env vs s
        ≡ (await (failed_deletions vs s), after (map disable_call vs) s)
  unfolding delete_visibilities delete_visibility disable_access_for_plan
  delete_visibilities-calls vs s h = schedule_all-calls disable_call _ vs s h

  create_visibilities-calls :
      (vs : List Visibility) (s : Log)
      → length vs < 2 ^ 32
      → create_visibilities env vs s ≡ (await (failed_creations vs s), after (map enable_call vs) s)
  unfolding create_visibilities create_visibility enable_access_for_plan
  create_visibilities-calls vs s h = schedule_all-calls enable_call _ vs s h

module _ (env : Env) (r : ResyncJob) (platform_vis sm_vis : List Visibility) where
  abbrev pub deletes : List Visibility
  deletes = to_delete (visibility_key env r) platform_vis sm_vis

  abbrev pub creates : List Visibility
  creates = to_create (visibility_key env r) platform_vis sm_vis

  -- With fewer than 2^32 deletions and creations, the tasks of each scheduler run one after the
  -- other, and the map of what is deleted gone through in the order of insertion: each deletion of
  -- the comparison is called once and in that order whatever the answers are; if one fails nothing
  -- is created and the result is an error, and otherwise each creation is called once, in the order
  -- of the Service Manager's visibilities, after the deletions, with the result of Await for the
  -- number of creations that fail.
  pub reconcile_service_visibilities-calls :
      (s : Log)
      → length deletes < 2 ^ 32
      → length creates < 2 ^ 32
      → let deleted = after (map disable_call deletes) s in
        ((0 < failed_deletions env deletes s)
          × (reconcile_service_visibilities env r platform_vis sm_vis s
              ≡ (err (failed "errors occurred"), deleted)))
        ⊎ ((failed_deletions env deletes s ≡ 0)
            × (reconcile_service_visibilities env r platform_vis sm_vis s ≡ (
              await (failed_creations env creates deleted),
              after (map enable_call creates) deleted,
            )))
  unfolding reconcile_service_visibilities ◌>>=◌ await
  reconcile_service_visibilities-calls s d c =
      elim (Bool-cases (ltb 0 (failed_deletions env deletes s))) [
        | inl e ↦ inl (ground arith, rw (delete_visibilities-calls env deletes s d) (rw e refl))
        | inr e ↦ inr (
          ground arith,
          rw (delete_visibilities-calls env deletes s d)
              (rw e (rw (create_visibilities-calls env creates _ c) refl)),
        )
      ]
