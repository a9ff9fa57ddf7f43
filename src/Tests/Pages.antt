-- ===== src/Tests/Pages.antt =====
-- The pagination theorems at concrete numbers.
use chargeflow_registry.Prelude.{
  ℕ, ◌+◌, ◌≤◌, ◌<◌, ◌⊎◌, ◌↔◌, ◌≡◌, true, List, [], ◌∷◌, pos, negsuc, arith, ok, ◌==◌,
}
use chargeflow_registry.Schema.Ports.{default_page_size, max_page_size}
use chargeflow_registry.Schema.Service
use chargeflow_registry.Pagination.Token.{decode_offset, next_token, clamp_page_size}
use chargeflow_registry.Pagination.RoundTrip.{decode_offset-next_token, next_token-eq-empty_iff}
use chargeflow_registry.Pagination.Walk.{walk, walk-eq-all}
use chargeflow_registry.Pagination.Bounds.{clamp_page_size_bounds, service_clamp-handler_clamp}
use chargeflow_registry.Tests.Tokens.{letters, letters-IsCodec}

abbrev five : List ℕ
five = 10 ∷ 11 ∷ 12 ∷ 13 ∷ 14 ∷ []

walk-eq-all_example : walk letters 2 five 6 "" ≡ five
walk-eq-all_example =
    walk-eq-all letters 2 five letters-IsCodec (omega arith) (omega arith) 6 (omega arith)

decode_offset-next_token_example :
    decode_offset letters (next_token letters 2 (pos 2) (pos 5)) ≡ ok 4
decode_offset-next_token_example =
    decode_offset-next_token letters letters-IsCodec 2 2 5 (omega arith) (omega arith) (omega arith)

next_token-eq-empty_iff_example :
    ((next_token letters 4 (pos 1) (pos 5) == "") ≡ true) ↔ ((◌≡◌ {A = ℕ} 1 0) ⊎ (5 ≤ 4 + 1))
next_token-eq-empty_iff_example =
    next_token-eq-empty_iff letters letters-IsCodec 4 1 5 (omega arith) (omega arith) (omega arith)

clamp_page_size_bounds_example :
    (0 < clamp_page_size (negsuc 3) default_page_size max_page_size)
    × (clamp_page_size (negsuc 3) default_page_size max_page_size ≤ max_page_size)
clamp_page_size_bounds_example =
    clamp_page_size_bounds (negsuc 3) default_page_size max_page_size (omega arith) (omega arith)
      (omega arith)

service_clamp-handler_clamp_example :
    Service.clamp_page_size (clamp_page_size (pos 1000) default_page_size max_page_size)
    ≡ clamp_page_size (pos 1000) default_page_size max_page_size
service_clamp-handler_clamp_example = service_clamp-handler_clamp (pos 1000) (omega arith)
