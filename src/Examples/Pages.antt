-- ===== src/Examples/Pages.antt =====
-- Pages of a list of ten elements.
use openrport.Prelude.{◌-◌, ◌^◌, ◌≡◌, refl, true, [], ◌∷◌, arith}
use openrport.Prelude.Int.{pos}
use openrport.Pagination.{Pagination, PaginationConfig, get_start_end, less}
use openrport.Pagination.Bounds.{get_start_end_overflow}

-- limit 4, offset 8
abbrev last_page : Pagination
last_page = record {
  limit = b'4' ∷ [];
  offset = b'8' ∷ [];
  validated_limit = pos 4;
  validated_offset = pos 8;
}

abbrev far_page : Pagination
far_page = record last_page { validated_offset = pos (2 ^ 63 - 1) }

abbrev small_pages : PaginationConfig
small_pages = record { max_limit = pos 100; default_limit = pos 20 }

get_start_end_overflow_example :
    ((get_start_end far_page 10).0 ≡ pos 10) × (less ((get_start_end far_page 10).1) (pos 0) ≡ true)
get_start_end_overflow_example =
    get_start_end_overflow far_page 10 4 (2 ^ 63 - 1) refl refl (omega arith) (omega arith)
      (omega arith)
