-- ===== src/Pagination/Pages.antt =====
-- The lists that are given page by page: `findMany` with `skip`, `take` and `orderBy`, beside
-- `count`. The order in which this one query gives the rows is a parameter: of rows that are equal
-- in the column of `orderBy`, the query of another page may have another.
use multi_tenant_project_man.Base.{ℕ, Option, List, length}
use multi_tenant_project_man.Base.Lists.{take, drop}
use multi_tenant_project_man.Pagination.{get_pagination_offset, build_pagination, PaginationMeta}

pub record PaginatedResponse (A : Type 0) : Type 0 where
  pub items : List A
  pub pagination : PaginationMeta

module _ {A : Type 0} (order : List A → List A) (rows : List A) where
  -- One page of the rows, and what is said of it.
  unfoldable pub paginate : (page limit : Option ℕ) → PaginatedResponse A
  paginate page limit =
      let o = get_pagination_offset page limit in
      record {
        items = take o.take (drop o.skip (order rows));
        pagination = build_pagination (length rows) o.page o.limit;
      }
