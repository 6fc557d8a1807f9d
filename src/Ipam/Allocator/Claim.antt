-- ===== src/Ipam/Allocator/Claim.antt =====
-- The shared end of `Allocate` and `AllocateSpecific` of internal/ipam/allocator.go.
use novanet.Base.{
  ℕ, ◌+◌, ◌≡◌, refl, ◌<◌, inl, inr, true, false, not, ◌&&◌, some, Result, ok, err, if◌then◌else◌,
  arith, Bool-cases,
}
use novanet.Base.Assoc.{insert}
use novanet.Ipam.Address.{Ip, Naming, text_dec}
use novanet.Ipam.Allocator.{
  Allocator, Disk, Error, Write, wrote, after_failure, persisting_ip, drop_index, claim,
}
use novanet.Ipam.Allocator.Invariant.{
  IsValid, Changes, SameState, is_taken, take_index_lem, drop_index_lem, Changes-Changes,
  IsFreeable-of_free, IsFreeable-over,
}

module _ (names : Naming) (write : Write) (a : Allocator) (disk : Disk) (idx : ℕ) (ip : Ip) where
  -- The index is taken and its file is written, or the allocator is as before and the write has failed, which may have left the file.
  abbrev pub Claims : {A : Type 0} → A → Allocator → Disk → Result Error A → Type 0
  Claims result a' disk' (ok r) =
      (r ≡ result)
      × ((a.persistent && not (wrote write)) ≡ false)
      × Changes true idx a a'
      × (a'.used ≡ a.used + 1)
      × (disk' ≡ (if a.persistent then insert text_dec (names.text ip) false disk else disk))
  Claims result a' disk' (err e) =
      (e ≡ persisting_ip)
      × ((a.persistent && not (wrote write)) ≡ true)
      × SameState a a'
      × (disk' ≡ after_failure write (names.text ip) disk)

  pub claim-Claims :
      {A : Type 0} (result : A)
      → IsValid a
      → idx < a.size
      → is_taken a idx ≡ false
      → (a' : Allocator) × (disk' : Disk) × (r : Result Error A) × (claim names write a disk idx ip
            result
          ≡ some (a', disk', r))
        × IsValid a'
        × Claims result a' disk' r
  unfolding claim
  claim-Claims result v h off =
      let (a1, e1, v1, c1, n1) = take_index_lem a idx v h off in
      let (a2, e2, v2, c2, n2) = rollback a1 v1 c1 in
      elim (Bool-cases a.persistent) [
        | inr p ↦ (a1, disk, ok result, rw (e1, p), v1, (refl, ground arith, c1, n1, ground arith))
        | inl p ↦ elim (Bool-cases (wrote write)) [
          | inl q ↦ (
            a1,
            insert text_dec (names.text ip) false disk,
            ok result,
            rw (e1, p, q),
            v1,
            (refl, ground arith, c1, n1, ground arith),
          )
          | inr q ↦ (
            a2,
            after_failure write (names.text ip) disk,
            err persisting_ip,
            rw (e1, p, q, e2),
            v2,
            (refl, ground arith, Changes-Changes idx off c1 c2 (omega arith), refl),
          )
        ]
      ]
    where
      rollback :
          (a1 : Allocator)
          → IsValid a1
          → Changes true idx a a1
          → (a2 : Allocator) × (drop_index a1 idx ≡ some a2)
            × IsValid a2
            × Changes false idx a1 a2
            × (a2.used + 1 ≡ a1.used)
      rollback a1 v1 c1 =
          drop_index_lem a1 idx v1 (omega (arith, c1.same_size)) (ground (arith, c1.taken idx))
            (IsFreeable-over c1 (IsFreeable-of_free a idx v off))
