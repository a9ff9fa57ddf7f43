-- ===== src/Pagination/Bounds.antt =====
-- The page sizes that internal/pagination/token.go and internal/schema/service.go allow.
use chargeflow_registry.Prelude.{
  ℕ, zero, suc, ◌≤◌, ◌<◌, ◌^◌, ◌≡◌, ℤ, pos, negsuc, arith, IsInt32, ◌%◌,
}
use chargeflow_registry.Pagination.Token.{clamp_page_size}
use chargeflow_registry.Schema.Service
use chargeflow_registry.Schema.Ports.{default_page_size, max_page_size}

-- Whatever int32 a request asks for, negative ones included, the clamped page size lies between 1
-- and the maximum, if the default does.
pub clamp_page_size_bounds :
    (size : ℤ) (default max : ℕ)
    → IsInt32 size
    → 0 < default
    → default ≤ max
    → (0 < clamp_page_size size default max) × (clamp_page_size size default max ≤ max)
unfolding clamp_page_size
clamp_page_size_bounds (pos zero) default max r p q = ground arith
clamp_page_size_bounds (pos (suc n)) default max r p q =
    let whole : suc n % 2 ^ 32 ≡ suc n = omega arith in rw whole (ground arith)
clamp_page_size_bounds (negsuc n) default max r p q = ground arith

-- A page size that a handler has clamped for any int32 is left alone by the service's own clamp.
pub service_clamp-handler_clamp :
    (size : ℤ)
    → IsInt32 size
    → Service.clamp_page_size (clamp_page_size size default_page_size max_page_size)
      ≡ clamp_page_size size default_page_size max_page_size
unfolding Service.clamp_page_size
service_clamp-handler_clamp size r =
    let (low, high) =
      clamp_page_size_bounds size default_page_size max_page_size r (omega arith) (omega arith) in
    ground arith
