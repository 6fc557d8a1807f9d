-- ===== src/Policy/Peers.antt =====
-- `peerResolver` of internal/policy/helpers.go: from the selectors of a peer to identities. What
-- Kubernetes makes of a selector is an argument, and so is the function that resolves namespaces.
use novanet.Base.{ℕ, Bool, ◌&&◌, Option, none, some, List, [], ◌∷◌, ◌++◌, if◌then◌else◌}
use novanet.Base.Members.{concat_map, is_nil}
use novanet.Base.Text.{Text, text_dec, codes}
use novanet.Base.Assoc.{lookup, insert}
use novanet.Identity.Labels.{Labels, hash_labels}
use novanet.Identity.Allocator
use novanet.Identity.Allocator.{find_matching_identities}
use novanet.Policy.{LabelSelector, empty_selector, wildcard_identity}

pub record PeerResolver : Type 0 where
  pub identity_allocator : Allocator.Allocator
  pub as_selector : LabelSelector → Option (Labels → Bool)
  pub namespace_resolver : Option (LabelSelector → List Text)

abbrev pub namespace_key : Text
namespace_key = codes "novanet.io/namespace"

abbrev pub metadata_name : Text
metadata_name = codes "kubernetes.io/metadata.name"

-- `scoped.MatchLabels["novanet.io/namespace"] = namespace`.
unfoldable pub scoped_to : LabelSelector → Text → LabelSelector
scoped_to selector namespace = record selector {
  match_labels = insert text_dec namespace_key namespace selector.match_labels;
}

-- The identities that were found, or else the hash of labels.
unfoldable pub or_hash : List ℕ → Labels → List ℕ
or_hash [] fallback = hash_labels fallback ∷ []
or_hash (id ∷ matches) fallback = id ∷ matches

unfoldable pub selector_to_identities : PeerResolver → LabelSelector → Text → List ℕ
unfolding scoped_to or_hash
selector_to_identities r selector namespace =
    let scoped = scoped_to selector namespace in
    elim (r.as_selector scoped) [
      | none ↦ wildcard_identity ∷ []
      | some sel ↦ or_hash (find_matching_identities r.identity_allocator sel) scoped.match_labels
    ]

unfoldable pub find_or_fallback : PeerResolver → LabelSelector → List ℕ
unfolding or_hash
find_or_fallback r selector = elim (r.as_selector selector) [
  | none ↦ []
  | some sel ↦ or_hash (find_matching_identities r.identity_allocator sel) selector.match_labels
]

unfoldable pub resolve_namespace_names : PeerResolver → LabelSelector → List Text
resolve_namespace_names r ns_sel = elim (lookup text_dec metadata_name ns_sel.match_labels) [
  | some name ↦ name ∷ []
  | none ↦ elim r.namespace_resolver [ none ↦ [] | some resolve ↦ resolve ns_sel ]
]

-- `len(MatchLabels) == 0 && len(MatchExpressions) == 0`.
unfoldable pub selects_all : LabelSelector → Bool
selects_all selector = is_nil selector.match_labels && is_nil selector.match_expressions

-- The loop that copies the labels of a namespace selector under the prefix `ns.`.
unfoldable pub prefixed : Labels → Labels → Labels
prefixed [] fallback = fallback
prefixed ((k, v) ∷ ls) fallback = prefixed ls (insert text_dec (codes "ns." ++ k) v fallback)

-- The namespaces of a peer that names some.
unfoldable pub resolve_in_namespaces :
    PeerResolver → LabelSelector → LabelSelector → List Text → List ℕ
unfolding find_or_fallback scoped_to prefixed
resolve_in_namespaces r pod_selector ns_sel [] =
    hash_labels (prefixed ns_sel.match_labels pod_selector.match_labels) ∷ []
resolve_in_namespaces r pod_selector ns_sel (name ∷ names) =
    concat_map (λ n. find_or_fallback r (scoped_to pod_selector n)) (name ∷ names)

-- A peer with a namespace selector.
unfoldable pub resolve_with_namespaces : PeerResolver → LabelSelector → LabelSelector → List ℕ
unfolding selects_all find_or_fallback resolve_namespace_names resolve_in_namespaces
resolve_with_namespaces r pod_selector ns_sel =
    if selects_all ns_sel
    then if selects_all pod_selector
      then wildcard_identity ∷ []
      else find_or_fallback r pod_selector
    else resolve_in_namespaces r pod_selector ns_sel (resolve_namespace_names r ns_sel)

abbrev pub or_empty : Option LabelSelector → LabelSelector
or_empty none = empty_selector
or_empty (some selector) = selector

unfoldable pub resolve_pod_and_ns_peers :
    PeerResolver → Option LabelSelector → Option LabelSelector → Text → List ℕ
unfolding find_or_fallback scoped_to resolve_with_namespaces
resolve_pod_and_ns_peers r none none namespace = wildcard_identity ∷ []
resolve_pod_and_ns_peers r (some pod_sel) none namespace =
    find_or_fallback r (scoped_to pod_sel namespace)
resolve_pod_and_ns_peers r pod_sel (some ns_sel) namespace =
    resolve_with_namespaces r (or_empty pod_sel) ns_sel
