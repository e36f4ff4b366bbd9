-- ===== src/Hooks/Passing.antt =====
-- The hooks of src/rdma_hooks_tenant.c with interception off, or without the driver's function.
use rdma_intercept_ldperload.Base.{ℕ, ◌≡◌, refl, true, false, Option, none, some, minus_one}
use rdma_intercept_ldperload.Hooks.{
  Process, Env, QpType, Outcome, enosys, rdma_intercept_is_enabled,
}
use rdma_intercept_ldperload.Hooks.Qp.{ibv_create_qp, ibv_destroy_qp}
use rdma_intercept_ldperload.Hooks.Mr.{ibv_reg_mr, ibv_dereg_mr}
use rdma_intercept_ldperload.Hooks.Cq.{ibv_create_cq, ibv_destroy_cq, ibv_alloc_pd, ibv_dealloc_pd}

-- The driver's answer, handed on.
abbrev pub handed_on : {A : Type 0} → A → Outcome A
handed_on a = record { value = a; errno = none; called = true }

abbrev pub not_found {ℓ} : {A : Type ℓ} → A → Outcome A
not_found a = record { value = a; errno = some enosys; called = false }

module _ (e : Env) (p : Process) (qp_type : QpType) (length : ℕ) (mr : Option ℕ) where
  -- With interception off, each of the eight hooks returns what the driver returns and changes
  -- nothing in the process.
  pub hooks_transparent :
      (made : Option ℕ) (result : ℕ)
      → rdma_intercept_is_enabled p ≡ false
      → (ibv_create_qp e (some made) qp_type p ≡ (handed_on made, p))
        × (ibv_destroy_qp e (some result) p ≡ (handed_on result, p))
        × (ibv_reg_mr e (some made) length p ≡ (handed_on made, p))
        × (ibv_dereg_mr e (some result) mr p ≡ (handed_on result, p))
        × (ibv_create_cq e (some made) p ≡ (handed_on made, p))
        × (ibv_destroy_cq e (some result) p ≡ (handed_on result, p))
        × (ibv_alloc_pd e (some made) p ≡ (handed_on made, p))
        × (ibv_dealloc_pd e (some result) p ≡ (handed_on result, p))
  unfolding ibv_create_qp ibv_destroy_qp ibv_reg_mr ibv_dereg_mr ibv_create_cq ibv_destroy_cq
      ibv_alloc_pd ibv_dealloc_pd
  hooks_transparent made result off = (
    rw (off, ibv_create_qp),
    rw (off, ibv_destroy_qp),
    rw (off, ibv_reg_mr),
    rw (off, ibv_dereg_mr),
    rw (off, ibv_create_cq),
    rw (off, ibv_destroy_cq),
    rw (off, ibv_alloc_pd),
    rw (off, ibv_dealloc_pd),
  )

  -- Without the driver's function each hook fails with ENOSYS and changes nothing in the process,
  -- whether interception is on or off.
  pub hooks_not_found :
      (ibv_create_qp e none qp_type p ≡ (not_found none, p))
      × (ibv_destroy_qp e none p ≡ (not_found minus_one, p))
      × (ibv_reg_mr e none length p ≡ (not_found none, p))
      × (ibv_dereg_mr e none mr p ≡ (not_found minus_one, p))
      × (ibv_create_cq e none p ≡ (not_found none, p))
      × (ibv_destroy_cq e none p ≡ (not_found minus_one, p))
      × (ibv_alloc_pd e none p ≡ (not_found none, p))
      × (ibv_dealloc_pd e none p ≡ (not_found minus_one, p))
  unfolding ibv_create_qp ibv_destroy_qp ibv_reg_mr ibv_dereg_mr ibv_create_cq ibv_destroy_cq
      ibv_alloc_pd ibv_dealloc_pd
  hooks_not_found = (refl, refl, refl, refl, refl, refl, refl, refl)
