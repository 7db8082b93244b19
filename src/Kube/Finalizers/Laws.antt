-- ===== src/Kube/Finalizers/Laws.antt =====
-- What `addFinalizer` and `removeFinalizer` of internal/controller/finalizers.go leave on the API
-- server.
use coredns_manager_operator.Common.{
  ◌≡◌, ◌≢◌, refl, ap, subst, sym, ◌∙◌, true, false, List, [], arith,
}
use coredns_manager_operator.Common.Text.{Text}
use coredns_manager_operator.Errors.{ok}
use coredns_manager_operator.Api.Meta.{NamespacedName, ObjectMeta, key_of}
use coredns_manager_operator.Kube.{
  Kind, Object, meta_of, with_meta, Client, Library, IsStored, IsLibrary, dns_records, dns_zones,
  dns_connectors, config_maps, workloads, pure, lift, raise, gets, ◌>>=◌, ◌>>◌, wrapped,
}
use coredns_manager_operator.Kube.Finalizers.{
  get_obj_from_k8s, update_finalizers, add_finalizer, remove_finalizer,
}

-- An object with other finalizers.
abbrev pub with_finalizers : (k : Kind) → List Text → Object k → Object k
with_finalizers k fs o = with_meta k (record (meta_of k o) { finalizers = fs }) o

meta-with_meta : (k : Kind) (m : ObjectMeta) (o : Object k) → meta_of k (with_meta k m o) ≡ m
meta-with_meta dns_records m o = refl
meta-with_meta dns_zones m o = refl
meta-with_meta dns_connectors m o = refl
meta-with_meta config_maps m o = refl
meta-with_meta (workloads j) m o = refl

key-with_finalizers :
    (k : Kind) (fs : List Text) (o : Object k)
    → key_of (meta_of k (with_finalizers k fs o)) ≡ key_of (meta_of k o)
key-with_finalizers k fs o = ap key_of (meta-with_meta k _ o)

finalizers-with_finalizers :
    (k : Kind) (fs : List Text) (o : Object k)
    → (meta_of k (with_finalizers k fs o)).finalizers ≡ fs
finalizers-with_finalizers k fs o = ap (λ m. m.finalizers) (meta-with_meta k _ o)

module _ (c : Client) (l : Library) (k : Kind) (stored : IsStored c k) (lib : IsLibrary l)
    (key : NamespacedName) (f : Text) where
  contains-ne-nil : (fs : List Text) → l.contains_finalizer fs f ≡ true → fs ≢ []
  contains-ne-nil fs has empty =
      let lacks = ap (λ xs. l.contains_finalizer xs f) empty ∙ lib.contains-nil f in
      let both = sym has ∙ lacks in absurd (ground arith)

  -- Adding a finalizer that the stored object has not, where the API server takes the write: the
  -- object is then stored with the finalizer.
  pub add_finalizer-stores :
      (o : Object k) (s : c.State) {o' : Object k} {s' : c.State}
      → c.get k key s ≡ ok o
      → l.contains_finalizer (meta_of k o).finalizers f ≡ false
      → c.update k (with_finalizers k (l.add_finalizer (meta_of k o).finalizers f) o) s
        ≡ (ok o', s')
      → (add_finalizer c l k key f s ≡ (ok tt, s'))
        × (c.get k key s' ≡ ok o')
        × (l.contains_finalizer (meta_of k o').finalizers f ≡ true)
  unfolding add_finalizer get_obj_from_k8s update_finalizers pure lift raise gets ◌>>=◌ ◌>>◌ wrapped
  add_finalizer-stores o s {o'} {s'} held lacks taken = (
    rw (held, lacks, taken),
    subst (λ x. c.get k x s' ≡ ok o') (key-with_finalizers k _ o ∙ stored.key-get key s held)
        (stored.get-update _ s taken (
          subst (λ fs. fs ≢ []) (sym (finalizers-with_finalizers k _ o))
            (contains-ne-nil _ (lib.contains-add _ f)))),
    ap (λ fs. l.contains_finalizer fs f)
          (stored.finalizers-update _ s taken ∙ finalizers-with_finalizers k _ o)
        ∙ lib.contains-add _ f,
  )

  -- Removing a finalizer that the stored object has, where the API server takes the write: the
  -- object that was written has the finalizer no more.
  pub remove_finalizer-writes :
      (o : Object k) (s : c.State) {o' : Object k} {s' : c.State}
      → c.get k key s ≡ ok o
      → l.contains_finalizer (meta_of k o).finalizers f ≡ true
      → c.update k (with_finalizers k (l.remove_finalizer (meta_of k o).finalizers f) o) s
        ≡ (ok o', s')
      → (remove_finalizer c l k key f s ≡ (ok tt, s'))
        × (l.contains_finalizer (meta_of k o').finalizers f ≡ false)
  unfolding remove_finalizer get_obj_from_k8s update_finalizers pure lift raise gets ◌>>=◌ ◌>>◌
      wrapped
  remove_finalizer-writes o s {o'} {s'} held has taken = (
    rw (held, has, taken),
    ap (λ fs. l.contains_finalizer fs f)
          (stored.finalizers-update _ s taken ∙ finalizers-with_finalizers k _ o)
        ∙ lib.contains-remove _ f,
  )
