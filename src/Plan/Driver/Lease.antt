-- ===== src/Plan/Driver/Lease.antt =====
-- plan-service.js: the lease of `#ensureDriver` and `#renewDriver`.
use agentdock_mcp_harness.Base.{
  ℕ, ◌+◌, ◌<◌, String, true, false, not, ◌&&◌, ◌||◌, ltb, some, same, same_option, truthy, arith,
  ◌≡◌, ◌≢◌, refl, sym, subst, Bool-cases, inl, inr,
}
use agentdock_mcp_harness.Plan.{Plan}
use agentdock_mcp_harness.Plan.Mutators.{is_running_plan}
use agentdock_mcp_harness.Plan.Driver.{
  ensure_driver, renew_driver, lease_to, lease_ms, is_free, is_leased,
}

-- A claim that succeeds sets the lease of a RUNNING Plan.
ensure_driver-claims :
    (now : ℕ) (me : String) (plan claimed : Plan)
    → ensure_driver now me plan ≡ (claimed, true)
    → (claimed ≡ lease_to now me plan) × (is_running_plan plan.status ≡ true)
unfolding ensure_driver
ensure_driver-claims now me plan claimed h = elim (Bool-cases (is_running_plan plan.status)) [
  | inr off ↦ cc (rw (off, ensure_driver) at h)
  | inl on ↦
      elim (Bool-cases (
        not (is_free plan.driver_id)
        && not (same_option plan.driver_id (some me))
        && is_leased now plan.driver_lease_until)) [
          | inl leased ↦ cc (rw (on, leased, ensure_driver) at h)
          | inr unleased ↦
              elim (Bool-cases (
                is_free plan.driver_id
                || same_option plan.driver_id (some me)
                || not (is_leased now plan.driver_lease_until))) [
                  | inl claims ↦ (sym (cc (rw (on, unleased, claims, ensure_driver) at h)), on)
                  | inr refused ↦ cc (rw (on, unleased, refused, ensure_driver) at h)
                ]
        ]
]

-- While the lease of a driver lasts, no other driver claims the Plan, and the attempt leaves the Plan as it is.
pub ensure_driver-excludes :
    (now later : ℕ) (me other : String) (plan claimed : Plan)
    → ensure_driver now me plan ≡ (claimed, true)
    → truthy me ≡ true
    → me ≢ other
    → later < now + lease_ms
    → ensure_driver later other claimed ≡ (claimed, false)
unfolding ensure_driver
ensure_driver-excludes now later me other plan claimed h named differ early =
    let parts = ensure_driver-claims now me plan claimed h in
    let not_same : same me other ≡ false = ground (arith, differ) in
    let leased : ltb later (now + lease_ms) ≡ true = ground (arith, early) in
    subst (λ (q : Plan). ensure_driver later other q ≡ (q, false)) (sym parts.0)
      (rw (parts.1, named, not_same, leased) refl)

-- A driver that another one has replaced does not renew its lease: it returns and leaves the Plan as it is.
pub renew_driver-replaced :
    (now later : ℕ) (me other : String) (plan claimed : Plan)
    → ensure_driver now other plan ≡ (claimed, true)
    → other ≢ me
    → renew_driver later me claimed ≡ (claimed, false)
unfolding renew_driver
renew_driver-replaced now later me other plan claimed h differ =
    let parts = ensure_driver-claims now other plan claimed h in
    let not_same : same other me ≡ false = ground (arith, differ) in
    subst (λ (q : Plan). renew_driver later me q ≡ (q, false)) (sym parts.0) (rw not_same refl)
