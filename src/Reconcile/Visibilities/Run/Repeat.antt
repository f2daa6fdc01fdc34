-- ===== src/Reconcile/Visibilities/Run/Repeat.antt =====
-- reconcileServiceVisibilities, run once more.
use service_broker_proxy.Prelude.{
  String, ◌≡◌, refl, ◌∙◌, true, false, Option, none, some, List, [], ◌∷◌, arith, eq_iff, eq_refl,
}
use service_broker_proxy.Prelude.Dict.{Dict, lookup, erase, lookup-erase}
use service_broker_proxy.Types.{Visibility}
use service_broker_proxy.Exec.{Log, ok, ◌>>=◌}
use service_broker_proxy.Clients.{Env}
use service_broker_proxy.Reconcile.Job.{ResyncJob}
use service_broker_proxy.Reconcile.Scheduler.{schedule_all, await, run_tasks}
use service_broker_proxy.Reconcile.Visibilities.Compare.{
  vis_map, create_if_missing, compare_loop, to_create, to_delete,
}
use service_broker_proxy.Reconcile.Visibilities.Compare.Laws.{
  is_some, has, is_some-vis_map, has-deleted,
}
use service_broker_proxy.Reconcile.Visibilities.Compare.Reconciled.{
  AreDistinct, IsLeft, has-reconciled,
}
use service_broker_proxy.Reconcile.Visibilities.Run.{
  create_visibilities, delete_visibilities, visibility_key, reconcile_service_visibilities,
}

module _ (key : Visibility → String) where
  empty_of_keys : (vs : List Visibility) → ((k : String) → has key k vs ≡ false) → vs ≡ []
  unfolding has
  empty_of_keys [] h = refl
  empty_of_keys (v ∷ vs) h = ground (arith, h (key v), eq_refl (key v))

  create_if_missing_of_some :
      (v : Visibility) (o : Option Visibility) (rest : List Visibility)
      → is_some o ≡ true
      → create_if_missing key v o rest ≡ rest
  unfolding create_if_missing
  create_if_missing_of_some v none rest h = cc
  create_if_missing_of_some v (some x) rest h = refl

  nothing_missing :
      (vs : List Visibility) (m : Dict Visibility)
      → AreDistinct key vs
      → ((k : String) → has key k vs ≡ true → is_some (lookup k m) ≡ true)
      → (compare_loop key vs m).0 ≡ []
  unfolding compare_loop has
  nothing_missing [] m u h = refl
  nothing_missing (v ∷ vs) m (u, us) h =
      create_if_missing_of_some v _ _ (h (key v) (ground (arith, eq_refl (key v))))
      ∙ nothing_missing vs (erase (key v) m) us
          (λ k p. ground (arith, u, h k, lookup-erase (key v) k m, eq_iff (key v) k))

  same_keys_settled :
      (platform_vis sm_vis : List Visibility)
      → AreDistinct key sm_vis
      → ((k : String) → has key k platform_vis ≡ has key k sm_vis)
      → (to_delete key platform_vis sm_vis ≡ []) × (to_create key platform_vis sm_vis ≡ [])
  unfolding to_create lookup
  same_keys_settled platform_vis sm_vis u h = (
    empty_of_keys _ (λ k. ground (arith, has-deleted key platform_vis sm_vis k, h k)),
    nothing_missing sm_vis (vis_map key platform_vis []) u
        (λ k p. ground (arith, is_some-vis_map key k platform_vis [], h k)),
  )

-- If no two visibilities of the Service Manager and no two of the platform have the same key, and
-- after a first comparison the platform has exactly those that it had and that the comparison does
-- not delete, and those that it creates: a second reconcileServiceVisibilities, on these, makes no
-- call and succeeds.
pub reconcile_service_visibilities_again :
    (env : Env) (r : ResyncJob) (before left sm_vis : List Visibility) (s : Log)
    → AreDistinct (visibility_key env r) before
    → AreDistinct (visibility_key env r) sm_vis
    → IsLeft before
        (to_delete (visibility_key env r) before sm_vis)
        (to_create (visibility_key env r) before sm_vis)
        left
    → reconcile_service_visibilities env r left sm_vis s ≡ (ok tt, s)
unfolding reconcile_service_visibilities delete_visibilities create_visibilities schedule_all ◌>>=◌
    run_tasks await
reconcile_service_visibilities_again env r before left sm_vis s p u l =
    let key = visibility_key env r in
    let (d, c) = same_keys_settled key left sm_vis u (has-reconciled key before sm_vis left p l) in
    rw (d, c) refl
