-- ===== src/Kube/Store/Laws.antt =====
-- The API server in memory satisfies what the development supposes of the API server, and a poll that
-- does not wait what it supposes of the poll.
use coredns_manager_operator.Common.{
  ◌≡◌, inl, inr, refl, ap, sym, ◌∙◌, subst, Bool, true, false, List, [], ◌∷◌, arith, All,
  Bool-cases,
}
use coredns_manager_operator.Common.Text.{text}
use coredns_manager_operator.Errors.{Result, ok, err, new_error, ok-injective}
use coredns_manager_operator.Api.Meta.{NamespacedName, ObjectMeta, ConfigMap, key_of}
use coredns_manager_operator.Api.DnsRecord.{DnsRecord}
use coredns_manager_operator.Kube.{
  StoresConfigMaps, dns_records, config_maps, meta_of, Client, Exec,
}
use coredns_manager_operator.Kube.Memory.{same_key, same_key-eq}
use coredns_manager_operator.Kube.Outcome.{err-ne-ok}
use coredns_manager_operator.Kube.Store.{
  Store, store, newest_of, rewritten, created, listed, keeping_status, newest_of_self,
  newest_of-key,
}
use coredns_manager_operator.Connector.Failures.{KeepsOthers}
use coredns_manager_operator.Connector.Deleted.{KeepsConfigMaps}
use coredns_manager_operator.Connector.Health.{Waiting, Polled, ready, failed, timed_out, IsWaiting}
use coredns_manager_operator.System.Served.{ListsStored}

abbrev map_meta : ConfigMap → ObjectMeta
map_meta = meta_of config_maps

create-keeps :
    (o held : ConfigMap) (key : NamespacedName) (os : List ConfigMap) (f : Result ConfigMap)
    → f ≡ newest_of map_meta (key_of o.meta) os
    → newest_of map_meta key os ≡ ok held
    → newest_of map_meta key (created map_meta o f os).1 ≡ ok held
unfolding created newest_of
create-keeps o held key os (ok old) is h = h
create-keeps o held key os (err e) is h = elim (Bool-cases (same_key (key_of o.meta) key)) [
  | inl same ↦ absurd (
      ground (
        arith,
        is ∙ (ap (λ k. newest_of map_meta k os) (same_key-eq (key_of o.meta) key same) ∙ h),
      ))
  | inr other ↦ rw other h
]

pub store-KeepsOthers : KeepsOthers store
store-KeepsOthers = record {
  config_maps-update_status = λ o key s. refl;
  workloads-update_status = λ k o key s. refl;
  connectors-update = λ o key s. refl;
  workloads-create = λ k o key s. refl;
  config_maps-create = λ o key s held h. create-keeps o held key s.maps _ refl h;
}

create-stores :
    (o o' : ConfigMap) (s t : Store) (f : Result ConfigMap)
    → (let (r, os) = created map_meta o f s.maps in
        let x : Result ConfigMap × Store = (r, record s { maps = os }) in x ≡ (ok o', t))
    → (newest_of map_meta (key_of o.meta) t.maps ≡ ok o') × (o'.contents ≡ o.contents)
unfolding created
create-stores o o' s t (ok old) h = err-ne-ok h
create-stores o o' s t (err e) h =
    let same : o ≡ o' = ok-injective (ap (λ x. x.0) h) in
    (
      subst (λ (u : Store). newest_of map_meta (key_of o.meta) u.maps ≡ ok o') (ap (λ x. x.1) h)
          (newest_of_self map_meta o s.maps ∙ ap (λ x. ok x) same),
      ap (λ (x : ConfigMap). x.contents) (sym same),
    )

update-stores :
    (o o' : ConfigMap) (s t : Store) (f : Result ConfigMap)
    → (let (r, os) = rewritten map_meta (keeping_status config_maps) o f s.maps in
        let x : Result ConfigMap × Store = (r, record s { maps = os }) in x ≡ (ok o', t))
    → (newest_of map_meta (key_of o.meta) t.maps ≡ ok o') × (o'.contents ≡ o.contents)
unfolding rewritten
update-stores o o' s t (err e) h = err-ne-ok h
update-stores o o' s t (ok old) h =
    let same : o ≡ o' = ok-injective (ap (λ x. x.0) h) in
    (
      subst (λ (u : Store). newest_of map_meta (key_of o.meta) u.maps ≡ ok o') (ap (λ x. x.1) h)
          (newest_of_self map_meta o s.maps ∙ ap (λ x. ok x) same),
      ap (λ (x : ConfigMap). x.contents) (sym same),
    )

pub store-StoresConfigMaps : StoresConfigMaps store
store-StoresConfigMaps = record {
  contents-create = λ o o' s t h. create-stores o o' s t _ h;
  contents-update = λ o o' s t h. update-stores o o' s t _ h;
  key-get = λ key o s h. newest_of-key map_meta key s.maps o h;
}

listed-stored :
    (rs : List DnsRecord)
    → All (λ (r : DnsRecord). newest_of (meta_of dns_records) (key_of r.meta) rs ≡ ok r) (listed rs)
unfolding listed
listed-stored [] = tt
listed-stored (r ∷ rs) = (newest_of_self (meta_of dns_records) r rs, tt)

pub store-ListsStored : ListsStored store
store-ListsStored = record {
  get-list = λ zone namespace s items h. subst (All _) (ok-injective h) (listed-stored s.records);
}

abbrev once : {S : Type 0} → Result Bool × S → Result (Unit {0}) × S
once (ok true, t) = (ok tt, t)
once (ok false, t) = (err (new_error (text "timed out")), t)
once (err e, t) = (err e, t)

-- It does not sleep and calls the condition once.
abbrev pub impatient : (c : Client) → Waiting c
impatient c = record {
  sleep = λ n s. s;
  poll_until = λ interval timeout condition s. once (condition s);
}

once-Polled :
    {S : Type 0} (passes : S → S → Type 0) (stays : (s : S) → passes s s) (condition : Exec S Bool)
    (s : S) (x : Result Bool × S)
    → condition s ≡ x
    → Polled passes condition (once x).0 (once x).1 s
once-Polled passes stays condition s (ok true, t) h = ready s h refl
once-Polled passes stays condition s (ok false, t) h = timed_out s t _ h (stays t) refl
once-Polled passes stays condition s (err e, t) h = failed s e h refl

pub impatient-IsWaiting :
    (c : Client) (passes : c.State → c.State → Type 0)
    → ((s : c.State) → passes s s)
    → IsWaiting c (impatient c) passes
impatient-IsWaiting c passes stays = record {
  slept = λ n s. stays s;
  polled = λ interval timeout condition s. once-Polled passes stays condition s _ refl;
}

pub store-KeepsConfigMaps : KeepsConfigMaps store
store-KeepsConfigMaps = record { get-update = λ o key s. refl; get-update_status = λ o key s. refl }
