-- ===== src/Kube/Finalizers.antt =====
-- internal/controller/finalizers.go and internal/controller/obj_lookup.go
pub mod Laws
pub mod Safety
use coredns_manager_operator.Common.{
  ◌≡◌, ◌≢◌, refl, ap, sym, ◌∙◌, Bool, true, false, not, List, [], ◌∷◌, ◌++◌, arith, ◌==◌,
  Bool-cases, inl, inr, if◌then◌else◌,
}
use coredns_manager_operator.Common.Text.{Text, text}
use coredns_manager_operator.Errors.{Error, Result, ok, err, wrap}
use coredns_manager_operator.Api.Meta.{NamespacedName, ObjectMeta}
use coredns_manager_operator.Api.DnsConnector.{
  Workload, WorkloadKind, deployment, stateful_set, daemon_set,
}
use coredns_manager_operator.Kube.{
  Kind, Object, meta_of, with_meta, Client, Library, Exec, pure, lift, continue, ◌>>=◌, ◌>>◌,
  wrapped, IsStored, IsLibrary,
}

module _ (c : Client) where
  -- `getObjFromK8s`
  unfoldable pub get_obj_from_k8s : (k : Kind) → NamespacedName → Exec c.State (Object k)
  get_obj_from_k8s k obj s = (
    wrap
        (text "failed to get resource " ++ (obj.name ++ (text "/" ++ (obj.namespace ++ text ": "))))
        (c.get k obj s),
    s,
  )

  -- `if err := cl.Update(ctx, resource); err != nil`
  unfoldable pub update_finalizers :
      (k : Kind) → NamespacedName → Text → Object k → List Text → Exec c.State Unit
  update_finalizers k obj finalizer_name resource finalizers = do
    _ ←
        wrapped
          (text "failed to get resource "
            ++ (obj.name
                ++ (text "/"
                    ++ (obj.namespace
                        ++ (text " with finalizer '" ++ (finalizer_name ++ text "': "))))))
          (c.update k
            (with_meta k (record (meta_of k resource) { finalizers = finalizers }) resource))
    pure tt

  module _ (l : Library) where
    -- `addFinalizer`
    unfoldable pub add_finalizer : (k : Kind) → NamespacedName → Text → Exec c.State Unit
    add_finalizer k obj finalizer_name = do
      resource ←
          wrapped
            (text "failed to get resource "
              ++ (obj.name ++ (text "/" ++ (obj.namespace ++ text ": "))))
            (get_obj_from_k8s k obj)
      let held = (meta_of k resource).finalizers
      if not (l.contains_finalizer held finalizer_name)
          then update_finalizers k obj finalizer_name resource (l.add_finalizer held finalizer_name)
          else pure tt

    -- `removeFinalizer`
    unfoldable pub remove_finalizer : (k : Kind) → NamespacedName → Text → Exec c.State Unit
    remove_finalizer k obj finalizer_name = do
      resource ←
          wrapped
            (text "failed to get resource "
              ++ (obj.name ++ (text "/" ++ (obj.namespace ++ text ": "))))
            (get_obj_from_k8s k obj)
      let held = (meta_of k resource).finalizers
      if l.contains_finalizer held finalizer_name
          then update_finalizers k obj finalizer_name resource
              (l.remove_finalizer held finalizer_name)
          else pure tt

-- `isDeploymentReady`, `isStatefulSetReady` and `isDaemonSetReady`
unfoldable pub is_ready : Workload → Bool
is_ready w = w.ready == w.wanted
