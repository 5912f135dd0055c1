-- ===== src/Prisma/Rows/Lists.antt =====
-- Lists of rows that are distinct in key and unique columns: queries.
use multi_tenant_project_man.Base.{
  String, Bool, true, false, not, ◌&&◌, Option, none, some, List, [], ◌∷◌, ◌≡◌, ◌≢◌, refl, ◌==◌,
  eq_iff, arith, if◌then◌else◌, map,
}
use multi_tenant_project_man.Base.Lists.{contains, is_distinct}
use multi_tenant_project_man.Prisma.{Model}

module _ {Row : Type 0} (m : Model Row) where
  -- The row differs from every other in its key and its unique columns.
  unfoldable pub apart : Row → Row → Bool
  apart r s = not (m.id r == m.id s) && (not (m.clash r s) && not (m.clash s r))

  unfoldable pub fits : Row → List Row → Bool
  fits r [] = true
  fits r (s ∷ rs) = apart r s && fits r rs

  unfoldable pub check : List Row → Bool
  unfolding fits apart
  check [] = true
  check (r ∷ rs) = fits r rs && check rs

  unfoldable pub find : String → List Row → Option Row
  find k [] = none
  find k (r ∷ rs) = if m.id r == k then some r else find k rs

  unfoldable pub first : (Row → Bool) → List Row → Option Row
  first p [] = none
  first p (r ∷ rs) = if p r then some r else first p rs

  unfoldable pub select : (Row → Bool) → List Row → List Row
  select p [] = []
  select p (r ∷ rs) = if p r then r ∷ select p rs else select p rs

  unfoldable pub change : String → (Row → Row) → List Row → List Row
  change k f [] = []
  change k f (r ∷ rs) = (if m.id r == k then f r else r) ∷ change k f rs

  unfoldable pub change_many : (Row → Bool) → (Row → Row) → List Row → List Row
  change_many p f [] = []
  change_many p f (r ∷ rs) = (if p r then f r else r) ∷ change_many p f rs

  pub id_find : (k : String) (rs : List Row) (r : Row) → find k rs ≡ some r → m.id r ≡ k
  unfolding find
  id_find k [] r h = cc
  id_find k (s ∷ rs) r h = ground (arith, eq_iff (m.id s) k, id_find k rs r)

  pub find-fits :
      (r s : Row) (k : String) (rs : List Row)
      → fits r rs ≡ true
      → find k rs ≡ some s
      → apart r s ≡ true
  unfolding find fits
  find-fits r s k [] h e = cc
  find-fits r s k (x ∷ rs) h e = ground (arith, find-fits r s k rs)

  pub apart_ids : (r s : Row) → apart r s ≡ true → m.id r ≢ m.id s
  unfolding apart
  apart_ids r s h e = ground (arith, eq_iff (m.id r) (m.id s))

  pub find-fits_self : (r : Row) (rs : List Row) → fits r rs ≡ true → find (m.id r) rs ≡ none
  unfolding find fits apart
  find-fits_self r [] h = refl
  find-fits_self r (s ∷ rs) h =
      ground (arith, eq_iff (m.id r) (m.id s), eq_iff (m.id s) (m.id r), find-fits_self r rs)

  pub find-first :
      (p : Row → Bool) (rs : List Row) (r : Row)
      → check rs ≡ true
      → first p rs ≡ some r
      → (p r ≡ true) × (find (m.id r) rs ≡ some r)
  unfolding find first check
  find-first p [] r h e = cc
  find-first p (s ∷ rs) r h e = ground (
    arith,
    eq_iff (m.id s) (m.id r),
    eq_iff (m.id s) (m.id s),
    find-first p rs r,
    find-fits s r (m.id r) rs,
    apart_ids s r,
  )

  pub first-none :
      (p : Row → Bool) (rs : List Row) (k : String) (r : Row)
      → first p rs ≡ none
      → find k rs ≡ some r
      → p r ≡ false
  unfolding find first
  first-none p [] k r h e = cc
  first-none p (s ∷ rs) k r h e = ground (arith, first-none p rs k r)

  pub contains-select :
      (p : Row → Bool) (rs : List Row) (k : String) (r : Row)
      → find k rs ≡ some r
      → p r ≡ true
      → contains (map m.id (select p rs)) k ≡ true
  unfolding find select
  contains-select p [] k r h e = cc
  contains-select p (s ∷ rs) k r h e = ground (arith, contains-select p rs k r, eq_iff (m.id s) k)

  fits-absent :
      (p : Row → Bool) (r : Row) (rs : List Row)
      → fits r rs ≡ true
      → contains (map m.id (select p rs)) (m.id r) ≡ false
  unfolding fits apart select
  fits-absent p r [] h = refl
  fits-absent p r (s ∷ rs) h =
      ground (arith, fits-absent p r rs, eq_iff (m.id s) (m.id r), eq_iff (m.id r) (m.id s))

  pub is_distinct-select :
      (p : Row → Bool) (rs : List Row)
      → check rs ≡ true
      → is_distinct (map m.id (select p rs)) ≡ true
  unfolding check select
  is_distinct-select p [] h = refl
  is_distinct-select p (r ∷ rs) h = ground (arith, is_distinct-select p rs, fits-absent p r rs)
