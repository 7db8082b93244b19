-- ===== src/Kube/Finalizers/Safety.antt =====
-- internal/controller/finalizers.go and internal/controller/obj_lookup.go under an invariant of the
-- API server's state.
use coredns_manager_operator.Common.{List}
use coredns_manager_operator.Common.Text.{Text}
use coredns_manager_operator.Api.Meta.{NamespacedName}
use coredns_manager_operator.Kube.{Kind, Object, Client, Library}
use coredns_manager_operator.Kube.Preserve.{
  Preserves, pure-Preserves, wrapped-Preserves, bind-Preserves, if-Preserves,
}
use coredns_manager_operator.Kube.Finalizers.{
  get_obj_from_k8s, update_finalizers, add_finalizer, remove_finalizer,
}

module _ (c : Client) {P : c.State → Type 0} (k : Kind) (key : NamespacedName) where
  pub get_obj_from_k8s-Preserves : Preserves P (get_obj_from_k8s c k key)
  get_obj_from_k8s-Preserves = record { run = λ s h. unfold get_obj_from_k8s in h }

  module _ (l : Library) (f : Text) (writes : (o : Object k) → Preserves P (c.update k o)) where
    update_finalizers-Preserves :
        (o : Object k) (fs : List Text) → Preserves P (update_finalizers c k key f o fs)
    update_finalizers-Preserves o fs =
        unfold update_finalizers in
        bind-Preserves (wrapped-Preserves _ (writes _)) (λ _. pure-Preserves _)

    pub add_finalizer-Preserves : Preserves P (add_finalizer c l k key f)
    add_finalizer-Preserves =
        unfold add_finalizer in
        bind-Preserves (wrapped-Preserves _ get_obj_from_k8s-Preserves)
          (λ o. if-Preserves _ (update_finalizers-Preserves o _) (pure-Preserves _))

    pub remove_finalizer-Preserves : Preserves P (remove_finalizer c l k key f)
    remove_finalizer-Preserves =
        unfold remove_finalizer in
        bind-Preserves (wrapped-Preserves _ get_obj_from_k8s-Preserves)
          (λ o. if-Preserves _ (update_finalizers-Preserves o _) (pure-Preserves _))
