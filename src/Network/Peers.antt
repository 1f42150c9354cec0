-- ===== src/Network/Peers.antt =====
-- When a peer of a rule is the source, and when a selector matches labels.
use distributed_container_or.Base.{
  String, false, not, ◌&&◌, str_eq, eq_iff, is_blank, equal_fold, all, all-Elem, Elem-all, ◌≡◌,
  refl, ◌⊎◌, ◌↔◌, true, [], ◌∷◌, arith, Elem,
}
use distributed_container_or.Model.Storage.{NetworkPolicyPeer}
use distributed_container_or.Model.Cluster.{Labels}
use distributed_container_or.Scheduler.{label}
use distributed_container_or.Network.{Source, is_nil, peer_admits, labels_match_selector}

-- The labels have each key of the selector with its value.
abbrev pub HasAll : Labels → Labels → Type 0
HasAll labels selector = (k v : String) → Elem (k, v) selector → label labels k ≡ v

-- The peer is the source: its namespace, if any, its labels, if any, and the policy's group, if any,
-- are the source's.
pub record Fits (source : Source) (group : String) (peer : NetworkPolicyPeer) : Type 0 where
  pub namespace :
      (is_blank peer.namespace ≡ true) ⊎ (equal_fold peer.namespace source.namespace ≡ true)
  pub labels : HasAll source.labels peer.labels
  pub group_label : (is_blank group ≡ true) ⊎ (label source.labels "group" ≡ group)

all-HasAll :
    (labels selector : Labels)
    → all (λ (k, v). str_eq (label labels k) v) selector ≡ true
    → HasAll labels selector
all-HasAll labels selector e k v m =
    (eq_iff (label labels k) v).0
      (all-Elem (λ (k, v). str_eq (label labels k) v) (k, v) selector e m)

HasAll-all :
    (labels selector : Labels)
    → HasAll labels selector
    → all (λ (k, v). str_eq (label labels k) v) selector ≡ true
HasAll-all labels selector h =
    Elem-all (λ (k, v). str_eq (label labels k) v) selector
      (λ (k, v) m. (eq_iff (label labels k) v).1 (h k v m))

pub labels_match_selector_iff :
    (labels selector : Labels)
    → (labels_match_selector labels selector ≡ true)
      ↔ ((is_nil selector ≡ false) × HasAll labels selector)
unfolding labels_match_selector
labels_match_selector_iff labels [] = (λ e. cc e, λ (e, h). cc e)
labels_match_selector_iff labels ((k, v) ∷ m) =
    (λ e. (refl, all-HasAll labels ((k, v) ∷ m) e), λ (e, h). HasAll-all labels ((k, v) ∷ m) h)

-- A peer without labels asks for none.
peer_labels :
    (labels wanted : Labels)
    → (not (is_nil wanted) && not (labels_match_selector labels wanted) ≡ false)
      ↔ HasAll labels wanted
peer_labels labels [] = (λ e k v m. elim m [ ], λ h. refl)
peer_labels labels ((k, v) ∷ m) =
    let whole = labels_match_selector_iff labels ((k, v) ∷ m) in
    (λ e. (whole.0 (ground (arith, e))).1, λ h. rw (whole.1 (refl, h)) refl)

pub peer_admits-Fits :
    (source : Source) (group : String) (peer : NetworkPolicyPeer)
    → (peer_admits source group peer ≡ true) ↔ Fits source group peer
unfolding peer_admits
peer_admits-Fits source group peer =
    let wanted = peer_labels source.labels peer.labels in
    (
      λ e. record {
        namespace = ground (arith, e);
        labels = wanted.0 (ground (arith, e));
        group_label = ground (arith, e, eq_iff (label source.labels "group") group);
      },
      λ f. ground (
        arith,
        f.namespace,
        wanted.1 f.labels,
        f.group_label,
        eq_iff (label source.labels "group") group,
      ),
    )
