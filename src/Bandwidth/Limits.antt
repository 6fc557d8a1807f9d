-- ===== src/Bandwidth/Limits.antt =====
-- `ApplyLimit` and `RemoveLimit` of internal/bandwidth/manager.go.
use novanet.Base.{
  ◌≡◌, ◌≢◌, ◌⊎◌, inl, inr, refl, Bool, true, false, Option, none, some, List, [], ◌∷◌, Result, ok,
  err, ltb, if◌then◌else◌, Bool-cases, Option-cases,
}
use novanet.Base.Assoc.{
  lookup, insert, delete, lookup-insert_self, lookup-insert_ne, lookup-delete_self,
  lookup-delete_ne,
}
use novanet.Bandwidth.{
  Text, text_dec, Limit, Manager, Call, apply_qdisc, remove_qdisc, Error, nil_limit, empty_pod_key,
  empty_host_veth, apply_failed, apply_limit, remove_limit, get_limit, is_empty,
}

-- The limits of all pods but one stay, and that one has the limit that is given, or none.
abbrev pub Sets : Manager → Manager → Text → Option Limit → Type 0
Sets m m' pod_key limit =
    (get_limit m' pod_key ≡ limit)
    × ((other : Text) → pod_key ≢ other → get_limit m' other ≡ get_limit m other)

stores :
    (m : Manager) (limit : Limit)
    → Sets m
        (record { limits = insert text_dec limit.pod_key limit m.limits })
        limit.pod_key
        (some limit)
unfolding get_limit
stores m limit = (
  lookup-insert_self text_dec limit.pod_key limit m.limits,
  λ other h. lookup-insert_ne text_dec limit.pod_key other limit m.limits h,
)

forgets :
    (m : Manager) (key : Text) → Sets m (record { limits = delete text_dec key m.limits }) key none
unfolding get_limit
forgets m key = (
  lookup-delete_self text_dec key m.limits,
  λ other h. lookup-delete_ne text_dec key other m.limits h,
)

-- The calls of traffic control for a limit: one if there is a rate of egress.
abbrev pub calls_for : Limit → List Call
calls_for limit =
    if ltb 0 limit.egress_bps then apply_qdisc limit.host_veth limit.egress_bps ∷ [] else []

-- What `ApplyLimit` may do: on success the limit is stored, and traffic control has been called if
-- the rate of egress is not 0. An error stores nothing, and is that of a nil limit, of a name that is
-- missing, or of a call of traffic control that was made and failed.
abbrev pub Applies :
    Bool → Manager → Option Limit → Manager → List Call → Result Error (Unit {0}) → Type 0
Applies tc_ok m none m' calls r = (r ≡ err nil_limit) × (calls ≡ []) × (m' ≡ m)
Applies tc_ok m (some limit) m' calls (ok r) =
    (is_empty limit.pod_key ≡ false)
    × (is_empty limit.host_veth ≡ false)
    × ((tc_ok ≡ true) ⊎ (ltb 0 limit.egress_bps ≡ false))
    × Sets m m' limit.pod_key (some limit)
    × (calls ≡ calls_for limit)
Applies tc_ok m (some limit) m' calls (err e) =
    (((e ≡ empty_pod_key) × (is_empty limit.pod_key ≡ true) × (calls ≡ []))
      ⊎ ((e ≡ empty_host_veth)
          × (is_empty limit.pod_key ≡ false)
          × (is_empty limit.host_veth ≡ true)
          × (calls ≡ []))
      ⊎ ((e ≡ apply_failed)
          × (is_empty limit.pod_key ≡ false)
          × (is_empty limit.host_veth ≡ false)
          × (ltb 0 limit.egress_bps ≡ true)
          × (tc_ok ≡ false)
          × (calls ≡ calls_for limit)))
    × (m' ≡ m)

-- What `RemoveLimit` may do: the limit is gone, also when traffic control fails; that is called
-- exactly if there was a limit.
abbrev pub Removes : Manager → Text → Manager → List Call → Result Error (Unit {0}) → Type 0
Removes m key m' calls r =
    Sets m m' key none
    × (((get_limit m key ≡ none) × (calls ≡ []) × (r ≡ ok tt))
        ⊎ ((limit : Limit) × (get_limit m key ≡ some limit)
            × (calls ≡ remove_qdisc limit.host_veth ∷ [])))

-- `ApplyLimit` fails exactly if the limit is nil, if the pod or its interface has no name, or if there
-- is a rate of egress and traffic control fails, with the error of the first of these that holds.
-- Then it changes nothing, and otherwise it stores the limit of that pod and leaves all others.
-- It calls traffic control once if there is a rate of egress and the limit is complete, and else not.
pub apply_limit-Applies :
    (tc_ok : Bool) (m : Manager) (limit : Option Limit)
    → let (m', calls, r) = apply_limit tc_ok m limit in Applies tc_ok m limit m' calls r
unfolding apply_limit
apply_limit-Applies tc_ok m none = (refl, refl, refl)
apply_limit-Applies tc_ok m (some limit) = elim (Bool-cases (is_empty limit.pod_key)) [
  | inl k ↦ rw k (inl (refl, k, refl), refl)
  | inr k ↦ elim (Bool-cases (is_empty limit.host_veth)) [
    | inl h ↦ rw (k, h) (inr (inl (refl, k, h, refl)), refl)
    | inr h ↦ elim (Bool-cases (ltb 0 limit.egress_bps)) [
      | inr z ↦ rw (k, h, z) (k, h, inr z, stores m limit, rw z refl)
      | inl z ↦ elim (Bool-cases tc_ok) [
        | inl t ↦ rw (k, h, z, t) (k, h, inl refl, stores m limit, rw z refl)
        | inr t ↦ rw (k, h, z, t) (inr (inr (refl, k, h, z, refl, rw z refl)), refl)
      ]
    ]
  ]
]

-- `RemoveLimit` removes the limit of one pod and no other, also when traffic control fails.
pub remove_limit-Removes :
    (tc_ok : Bool) (m : Manager) (key : Text)
    → let (m', calls, r) = remove_limit tc_ok m key in Removes m key m' calls r
unfolding remove_limit get_limit
remove_limit-Removes tc_ok m key = elim (Option-cases (lookup text_dec key m.limits)) [
  | inl e ↦ rw (e, remove_limit) ((e, λ other h. refl), inl (refl, refl, refl))
  | inr (limit, e) ↦ rw (e, remove_limit) (forgets m key, inr (limit, refl, refl))
]
