-- ===== src/Volumes.antt =====
-- internal/service/features.go: volumes, claims, and the loop that binds them.
pub mod Binding
use distributed_container_or.Base.{
  ℕ, String, Bool, true, false, not, ◌&&◌, ◌||◌, List, [], ◌∷◌, ◌++◌, ℤ, pos, ltb_ℤ, leb_ℤ, str_eq,
  if◌then◌else◌, is_blank, find, slice_stable, Option, none, some, Result, ok, err, message,
}
use distributed_container_or.Model.Floats.{Time}
use distributed_container_or.Model.Storage.{
  Namespace, PersistentVolume, PersistentVolumePhase, PersistentVolumeClaim,
  PersistentVolumeClaimPhase, is_available, is_bound,
}
use distributed_container_or.Store.State.{Orchestrator, M, ◌>>=◌, ◌>>◌, pure, fail, done, for_each}
use distributed_container_or.Store.{
  upsert_persistent_volume, get_persistent_volume, list_persistent_volumes,
  upsert_persistent_volume_claim, get_persistent_volume_claim, list_persistent_volume_claims,
  list_namespaces,
}
use distributed_container_or.Quota.{ensure_namespace_exists, or_default}

abbrev pub smaller : PersistentVolume → PersistentVolume → Bool
smaller a b = ltb_ℤ a.capacity_mb b.capacity_mb

-- Two classes differ where both are given and are not the same.
abbrev pub differ : String → String → Bool
differ a b = not (is_blank a) && not (is_blank b) && not (str_eq a b)

-- The tests of the inner loop, each of which goes on to the next volume.
unfoldable pub suits : PersistentVolumeClaim → PersistentVolume → Bool
suits c pv =
    if not (is_available pv.phase)
    then false
    else if ltb_ℤ pv.capacity_mb c.requested_capacity
    then false
    else if differ c.storage_class pv.storage_class
    then false
    else not (differ c.access_mode pv.access_mode)

abbrev pub is_satisfied : PersistentVolumeClaim → Bool
is_satisfied c = is_bound c.phase && not (is_blank c.volume_name)

abbrev pub taken_by : PersistentVolume → PersistentVolumeClaim → PersistentVolume
taken_by pv c = record pv {
  phase = PersistentVolumePhase.bound;
  claim_namespace = c.namespace;
  claim_name = c.name;
}

abbrev pub bound_to : PersistentVolumeClaim → PersistentVolume → PersistentVolumeClaim
bound_to c pv = record c { volume_name = pv.name; phase = PersistentVolumeClaimPhase.bound }

module _ {F : Type 0} where
  unfoldable pub bind_pair : Time → PersistentVolumeClaim → PersistentVolume → M F Unit
  unfolding upsert_persistent_volume upsert_persistent_volume_claim
  bind_pair now c pv =
      upsert_persistent_volume now (taken_by pv c)
      >> upsert_persistent_volume_claim now (bound_to c pv)

  -- The body of the outer loop. `pvs` are the volumes as they were listed: a binding that an earlier
  -- turn made is written to the store, and not to them.
  unfoldable pub bind_claim : Time → List PersistentVolume → PersistentVolumeClaim → M F Unit
  unfolding bind_pair
  bind_claim now pvs c =
      if is_satisfied c
      then done
      else elim (find (suits c) pvs) [ none ↦ done | some pv ↦ bind_pair now c pv ]

  unfoldable pub claims_of : List Namespace → M F (List PersistentVolumeClaim)
  claims_of [] = pure []
  claims_of (ns ∷ nss) = do
    items ← list_persistent_volume_claims ns.name
    rest ← claims_of nss
    pure (items ++ rest)

  unfoldable pub reconcile_pvc_bindings : Time → M F Unit
  unfolding claims_of list_persistent_volumes list_persistent_volume_claims list_namespaces
      bind_claim for_each
  reconcile_pvc_bindings now = do
    pvs ← list_persistent_volumes
    first_claims ← list_persistent_volume_claims "default"
    namespaces ← list_namespaces
    more_claims ← claims_of namespaces
    for_each (first_claims ++ more_claims) (bind_claim now (slice_stable smaller pvs))

  unfoldable pub upsert_volume : Time → PersistentVolume → M F PersistentVolume
  unfolding upsert_persistent_volume get_persistent_volume
  upsert_volume now pv =
      if is_blank pv.name
      then fail (message "persistent volume name is required")
      else if leb_ℤ pv.capacity_mb (pos 0)
      then fail (message "persistent volume capacityMb must be > 0")
      else (upsert_persistent_volume now pv >> get_persistent_volume pv.name)

  unfoldable pub upsert_claim : Time → PersistentVolumeClaim → M F PersistentVolumeClaim
  unfolding ensure_namespace_exists upsert_persistent_volume_claim reconcile_pvc_bindings
      get_persistent_volume_claim
  upsert_claim now c =
      let namespace = or_default c.namespace in
      if is_blank c.name
      then fail (message "persistent volume claim name is required")
      else if leb_ℤ c.requested_capacity (pos 0)
      then fail (message "persistent volume claim requestedCapacityMb must be > 0")
      else (do
        ensure_namespace_exists now namespace
        upsert_persistent_volume_claim now (record c { namespace = namespace })
        reconcile_pvc_bindings now
        get_persistent_volume_claim namespace c.name)
