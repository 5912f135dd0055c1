-- ===== src/Pagination.antt =====
-- utils/pagination.ts. A page and a limit are natural numbers; one that is left out is none.
pub mod Pages
use native.Mathlib.Nat.{le-div_iff_mul-le, suc-mul}
use multi_tenant_project_man.Base.{
  zero, ℕ, suc, Bool, true, Option, ◌≡◌, ◌≤◌, ◌<◌, ◌+◌, ◌-◌, ◌*◌, ◌/◌, refl, arith, ltb, leb,
  nat_eq, or_default, if◌then◌else◌, ◌↔◌,
}

abbrev pub max : ℕ → ℕ → ℕ
max a b = if leb a b then b else a

abbrev pub min : ℕ → ℕ → ℕ
min a b = if leb a b then a else b

-- `n || other`
abbrev pub or_number : ℕ → ℕ → ℕ
or_number n other = if nat_eq n 0 then other else n

pub record Offset : Type 0 where
  pub page : ℕ
  pub limit : ℕ
  pub skip : ℕ
  pub take : ℕ

unfoldable pub get_pagination_offset : Option ℕ → Option ℕ → Offset
get_pagination_offset page limit =
    let safe_page = max 1 (or_number (or_default page 1) 1) in
    let safe_limit = min 100 (max 1 (or_number (or_default limit 10) 10)) in
    record {
      page = safe_page;
      limit = safe_limit;
      skip = (safe_page - 1) * safe_limit;
      take = safe_limit;
    }

pub record PaginationMeta : Type 0 where
  pub page : ℕ
  pub limit : ℕ
  pub total : ℕ
  pub total_pages : ℕ
  pub has_next_page : Bool
  pub has_prev_page : Bool

-- `buildPaginatedResponse`, beside the items: `Math.ceil(total / limit) || 1`
unfoldable pub build_pagination : (total page limit : ℕ) → PaginationMeta
build_pagination total page limit =
    let total_pages = or_number ((total + (limit - 1)) / limit) 1 in
    record {
      page = page;
      limit = limit;
      total = total;
      total_pages = total_pages;
      has_next_page = ltb page total_pages;
      has_prev_page = ltb 1 page;
    }

pred_mul : (page limit : ℕ) → 1 ≤ page → (page - 1) * limit + limit ≡ page * limit
pred_mul zero limit h = absurd (omega (arith, h))
pred_mul (suc n) limit h =
    let before : suc n - 1 ≡ n = omega arith in rw before (omega (arith, suc-mul n limit))

-- For every page and limit that may be asked for, the page is at least 1, the limit is from 1
-- to 100, as many rows are taken, and those of the pages before are skipped.
pub offset_bounds :
    (page limit : Option ℕ)
    → let o = get_pagination_offset page limit in
      (1 ≤ o.page)
      × (1 ≤ o.limit)
      × (o.limit ≤ 100)
      × (o.take ≡ o.limit)
      × (o.skip + o.limit ≡ o.page * o.limit)
unfolding get_pagination_offset
offset_bounds page limit =
    let o = get_pagination_offset page limit in
    let positive : 1 ≤ o.page = ground arith in
    (positive, ground arith, ground arith, refl, pred_mul o.page o.limit positive)

round_up :
    (n total limit : ℕ) → 1 ≤ limit → (n < (total + (limit - 1)) / limit) ↔ (n * limit < total)
round_up n total limit h =
    let exact =
      le-div_iff_mul-le {k = limit} {x = suc n} {y = total + (limit - 1)} (omega (arith, h)) in
    (
      λ below. omega (arith, exact.0 (omega (arith, below)), h),
      λ below. omega (arith, exact.1 (omega (arith, below, h)), h),
    )

-- A page that is asked for has a next one exactly where rows are left after it; the pages hold
-- all rows, and there is always a page.
pub pages_exact :
    (total : ℕ) (page limit : Option ℕ)
    → let o = get_pagination_offset page limit in
      let m = build_pagination total o.page o.limit in
      ((m.has_next_page ≡ true) ↔ (o.skip + o.take < total))
      × (1 ≤ m.total_pages)
      × (total ≤ m.total_pages * o.limit)
unfolding build_pagination
pages_exact total page limit =
    let o = get_pagination_offset page limit in
    let (positive, full, most, same, edge) = offset_bounds page limit in
    exact o.page o.limit o.skip o.take positive full same edge
  where
    exact :
        (p l s t : ℕ)
        → 1 ≤ p
        → 1 ≤ l
        → t ≡ l
        → s + l ≡ p * l
        → (((build_pagination total p l).has_next_page ≡ true) ↔ (s + t < total))
          × (1 ≤ (build_pagination total p l).total_pages)
          × (total ≤ (build_pagination total p l).total_pages * l)
    exact p l s t hp hl ht he =
        let q = (total + (l - 1)) / l in
        let next = round_up p total l hl in
        let first_page = round_up 0 total l hl in
        let last_page = round_up q total l hl in
        (
          (λ h. ground (arith, next.0, h), λ h. ground (arith, next.1, h)),
          ground arith,
          ground (arith, first_page.1, last_page.1),
        )
