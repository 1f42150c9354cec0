-- ===== src/Volumes/Binding.antt =====
-- What one turn of the binding loop does, and what two turns for one volume do.
use distributed_container_or.Base.{
  find-Elem, ◌≡◌, refl, inl, inr, String, Bool, true, false, List, [], ◌∷◌, ◌≤ℤ◌, some, arith, find,
  Elem, All-Elem, slice_stable, Ordered, Ordered-slice_stable, Elem-slice_stable, slice_stable-Elem,
  IsWeakOrder, str_eq, eq_iff, if◌then◌else◌, Bool-cases, Bool-false, ◌∙◌, ◌≢◌, sym,
}
use distributed_container_or.Model.Floats.{Time}
use distributed_container_or.Model.Storage.{
  PersistentVolume, PersistentVolumeClaim, PersistentVolumePhase, PersistentVolumeClaimPhase,
}
use distributed_container_or.Store.Table.{lookup, lookup-insert}
use distributed_container_or.Store.State.{Orchestrator}
use distributed_container_or.Store.{join_key, stamped}
use distributed_container_or.Volumes.{smaller, suits, is_satisfied, taken_by, bound_to, bind_claim}

smaller-IsWeakOrder : IsWeakOrder smaller
smaller-IsWeakOrder = record {
  asymm = λ x y e. ground arith;
  trans_not = λ x y z e f. ground arith;
}

-- The first that passes, in an ordered list, is no larger than any other that passes.
find-smallest :
    (p : PersistentVolume → Bool) (xs : List PersistentVolume) (x y : PersistentVolume)
    → Ordered smaller xs
    → find p xs ≡ some x
    → Elem y xs
    → p y ≡ true
    → x.capacity_mb ≤ℤ y.capacity_mb
find-smallest p [] x y s e m h = elim m [ ]
find-smallest p (z ∷ zs) x y s e m h = elim (Bool-cases (p z)) [
  | inl hit ↦ elim m [
    | inl same ↦ ground arith
    | inr later ↦ let above = All-Elem (λ w. smaller w z ≡ false) y zs s.0 later in ground arith
  ]
  | inr miss ↦ elim m [
    | inl same ↦ ground arith
    | inr later ↦ find-smallest p zs x y s.1 (rw miss at e) later h
  ]
]

-- A claim as it is once it is bound to the volume.
abbrev pub IsBoundTo : PersistentVolume → PersistentVolumeClaim → PersistentVolumeClaim → Type 0
IsBoundTo pv c bound =
    (bound.namespace ≡ c.namespace)
    × (bound.name ≡ c.name)
    × (bound.volume_name ≡ pv.name)
    × (bound.phase ≡ PersistentVolumeClaimPhase.bound)
    × (bound.requested_capacity ≡ c.requested_capacity)

-- A volume as it is once the claim has it.
abbrev pub IsTakenBy : PersistentVolumeClaim → PersistentVolume → PersistentVolume → Type 0
IsTakenBy c pv taken =
    (taken.name ≡ pv.name)
    × (taken.claim_namespace ≡ c.namespace)
    × (taken.claim_name ≡ c.name)
    × (taken.phase ≡ PersistentVolumePhase.bound)
    × (taken.capacity_mb ≡ pv.capacity_mb)

module _ {F : Type 0} (now : Time) where
  -- The claim that the store holds under the key of `c` is bound to the volume.
  abbrev pub HoldsClaim : PersistentVolumeClaim → PersistentVolume → Orchestrator F → Type 0
  HoldsClaim c pv o =
      (bound : PersistentVolumeClaim) × (lookup (join_key c.namespace c.name) o.claims ≡ some bound)
      × IsBoundTo pv c bound

  -- The volume that the store holds under its name is the claim's.
  abbrev pub HoldsVolume : PersistentVolumeClaim → PersistentVolume → Orchestrator F → Type 0
  HoldsVolume c pv o =
      (taken : PersistentVolume) × (lookup pv.name o.volumes ≡ some taken) × IsTakenBy c pv taken

  bind_claim-volumes :
      (o : Orchestrator F) (pvs : List PersistentVolume) (c : PersistentVolumeClaim)
      (pv : PersistentVolume) (name : String)
      → is_satisfied c ≡ false
      → find (suits c) pvs ≡ some pv
      → lookup name (bind_claim now pvs c o).1.volumes ≡ (
          if str_eq pv.name name
          then some
              (record (taken_by pv c) { created_at = stamped pv.created_at now; updated_at = now })
          else lookup name o.volumes)
  unfolding bind_claim
  bind_claim-volumes o pvs c pv name open_claim found = ground (
    arith,
    lookup-insert pv.name name
        (record (taken_by pv c) { created_at = stamped pv.created_at now; updated_at = now })
        o.volumes,
  )

  bind_claim-claims :
      (o : Orchestrator F) (pvs : List PersistentVolume) (c : PersistentVolumeClaim)
      (pv : PersistentVolume) (key : String)
      → is_satisfied c ≡ false
      → find (suits c) pvs ≡ some pv
      → lookup key (bind_claim now pvs c o).1.claims ≡ (
          if str_eq (join_key c.namespace c.name) key
          then some
              (record (bound_to c pv) { created_at = stamped c.created_at now; updated_at = now })
          else lookup key o.claims)
  unfolding bind_claim
  bind_claim-claims o pvs c pv key open_claim found = ground (
    arith,
    lookup-insert (join_key c.namespace c.name) key
        (record (bound_to c pv) { created_at = stamped c.created_at now; updated_at = now })
        o.claims,
  )

  bind_claim-HoldsVolume :
      (o : Orchestrator F) (pvs : List PersistentVolume) (c : PersistentVolumeClaim)
      (pv : PersistentVolume)
      → is_satisfied c ≡ false
      → find (suits c) pvs ≡ some pv
      → HoldsVolume c pv (bind_claim now pvs c o).1
  bind_claim-HoldsVolume o pvs c pv open_claim found = (
    record (taken_by pv c) { created_at = stamped pv.created_at now; updated_at = now },
    bind_claim-volumes o pvs c pv pv.name open_claim found ∙ rw ((eq_iff pv.name pv.name).1 refl),
    (refl, refl, refl, refl, refl),
  )

  bind_claim-HoldsClaim :
      (o : Orchestrator F) (pvs : List PersistentVolume) (c : PersistentVolumeClaim)
      (pv : PersistentVolume)
      → is_satisfied c ≡ false
      → find (suits c) pvs ≡ some pv
      → HoldsClaim c pv (bind_claim now pvs c o).1
  bind_claim-HoldsClaim o pvs c pv open_claim found =
      let key = join_key c.namespace c.name in
      (
        record (bound_to c pv) { created_at = stamped c.created_at now; updated_at = now },
        bind_claim-claims o pvs c pv key open_claim found ∙ rw ((eq_iff key key).1 refl),
        (refl, refl, refl, refl, refl),
      )

  -- A claim that is not bound yet is bound, where a volume suits it, to a smallest of the listed volumes
  -- that are available, large enough and of its classes; the store then holds the volume, bound, with
  -- the claim's namespace and name, and the claim, bound, with the volume's name.
  pub bind_claim_lem :
      (o : Orchestrator F) (pvs : List PersistentVolume) (c : PersistentVolumeClaim)
      (pv : PersistentVolume)
      → is_satisfied c ≡ false
      → find (suits c) (slice_stable smaller pvs) ≡ some pv
      → Elem pv pvs
        × (suits c pv ≡ true)
        × ((other : PersistentVolume)
            → Elem other pvs
            → suits c other ≡ true
            → pv.capacity_mb ≤ℤ other.capacity_mb)
        × HoldsVolume c pv (bind_claim now (slice_stable smaller pvs) c o).1
        × HoldsClaim c pv (bind_claim now (slice_stable smaller pvs) c o).1
  bind_claim_lem o pvs c pv open_claim found =
      let hit = find-Elem (suits c) (slice_stable smaller pvs) pv found in
      (
        Elem-slice_stable smaller pv pvs hit.0,
        hit.1,
        λ other m h.
            find-smallest (suits c) (slice_stable smaller pvs) pv other
              (Ordered-slice_stable smaller smaller-IsWeakOrder pvs) found
              (slice_stable-Elem smaller other pvs m) h,
        bind_claim-HoldsVolume o (slice_stable smaller pvs) c pv open_claim found,
        bind_claim-HoldsClaim o (slice_stable smaller pvs) c pv open_claim found,
      )

  -- Two turns of the binding loop over one listing bind two unbound claims with different keys to one
  -- volume, where it is the first that suits either: both claims then name the volume, bound, while
  -- the volume names the second claim alone.
  pub bind_claim_twice :
      (o : Orchestrator F) (pvs : List PersistentVolume) (a b : PersistentVolumeClaim)
      (pv : PersistentVolume)
      → is_satisfied a ≡ false
      → is_satisfied b ≡ false
      → join_key a.namespace a.name ≢ join_key b.namespace b.name
      → find (suits a) pvs ≡ some pv
      → find (suits b) pvs ≡ some pv
      → HoldsClaim a pv (bind_claim now pvs b (bind_claim now pvs a o).1).1
        × HoldsClaim b pv (bind_claim now pvs b (bind_claim now pvs a o).1).1
        × HoldsVolume b pv (bind_claim now pvs b (bind_claim now pvs a o).1).1
  bind_claim_twice o pvs a b pv open_a open_b apart found_a found_b =
      let o' = (bind_claim now pvs a o).1 in
      let key_a = join_key a.namespace a.name in
      let key_b = join_key b.namespace b.name in
      let kept = bind_claim-HoldsClaim o pvs a pv open_a found_a in
      (
        (
          kept.0,
          bind_claim-claims o' pvs b pv key_a open_b found_b
              ∙ rw (Bool-false (str_eq key_b key_a) (λ e. apart (sym ((eq_iff key_b key_a).0 e))))
                  kept.1,
          kept.2,
        ),
        bind_claim-HoldsClaim o' pvs b pv open_b found_b,
        bind_claim-HoldsVolume o' pvs b pv open_b found_b,
      )
