-- ===== src/Prisma/Rows/Writes.antt =====
-- Lists of rows: what the writes keep and what is found after them.
use multi_tenant_project_man.Base.{
  String, Bool, true, false, none, some, List, [], ◌∷◌, ◌≡◌, ◌≢◌, refl, ◌==◌, eq_iff, arith,
  if◌then◌else◌, map_option, All, Bool-cases, inl, inr,
}
use mathlib.Core.Bool.{and-eq-true_iff}
use multi_tenant_project_man.Prisma.{Model, keep_if, IsPlain}
use multi_tenant_project_man.Prisma.Rows.Lists.{
  apart, fits, check, find, select, change, change_many, find-fits, find-fits_self,
}

module _ {Row : Type 0} (m : Model Row) where
  apart_symm : (r s : Row) → apart m r s ≡ true → m.clash s r ≡ false
  unfolding apart
  apart_symm r s h = ground arith

  apart_clash : (r s : Row) → apart m r s ≡ true → m.clash r s ≡ false
  unfolding apart
  apart_clash r s h = ground arith

  pub distinct_lem :
      (rs : List Row) (j k : String) (r s : Row)
      → check m rs ≡ true
      → find m j rs ≡ some r
      → find m k rs ≡ some s
      → j ≢ k
      → m.clash r s ≡ false
  unfolding find check
  distinct_lem [] j k r s h e e' n = cc
  distinct_lem (x ∷ rs) j k r s h e e' n = ground (
    arith,
    eq_iff (m.id x) j,
    eq_iff (m.id x) k,
    distinct_lem rs j k r s,
    find-fits m x r j rs,
    find-fits m x s k rs,
    apart_clash x s,
    apart_symm x r,
  )

  pub find-change :
      (k j : String) (f : Row → Row) (rs : List Row)
      → ((r : Row) → m.id (f r) ≡ m.id r)
      → find m j (change m k f rs) ≡ (if k == j then map_option f (find m j rs) else find m j rs)
  unfolding find change
  find-change k j f [] h = ground arith
  find-change k j f (x ∷ rs) h =
      ground (arith, h x, find-change k j f rs h, eq_iff k j, eq_iff (m.id x) k, eq_iff (m.id x) j)

  module _ (f : Row → Row) (h : IsPlain m f) where
    apart-plain_left : (r s : Row) → apart m (f r) s ≡ apart m r s
    unfolding apart
    apart-plain_left r s = rw (h.id r, h.clash_left r s, h.clash_right s r)

    apart-plain_right : (r s : Row) → apart m r (f s) ≡ apart m r s
    unfolding apart
    apart-plain_right r s = rw (h.id s, h.clash_right r s, h.clash_left s r)

    fits-change : (k : String) (r : Row) (rs : List Row) → fits m r (change m k f rs) ≡ fits m r rs
    unfolding fits change
    fits-change k r [] = refl
    fits-change k r (x ∷ rs) = ground (arith, fits-change k r rs, apart-plain_right r x)

    fits-plain : (r : Row) (rs : List Row) → fits m (f r) rs ≡ fits m r rs
    unfolding fits
    fits-plain r [] = refl
    fits-plain r (x ∷ rs) = rw (apart-plain_left r x, fits-plain r rs)

    pub check-change : (k : String) (rs : List Row) → check m (change m k f rs) ≡ check m rs
    unfolding check change
    check-change k [] = refl
    check-change k (x ∷ rs) =
        ground
          (arith, check-change k rs, fits-change k x rs, fits-change k (f x) rs, fits-plain x rs)

    fits-change_many :
        (p : Row → Bool) (r : Row) (rs : List Row) → fits m r (change_many m p f rs) ≡ fits m r rs
    unfolding fits change_many
    fits-change_many p r [] = refl
    fits-change_many p r (x ∷ rs) = ground (arith, fits-change_many p r rs, apart-plain_right r x)

    pub check-change_many :
        (p : Row → Bool) (rs : List Row) → check m (change_many m p f rs) ≡ check m rs
    unfolding check change_many
    check-change_many p [] = refl
    check-change_many p (x ∷ rs) = ground (
      arith,
      check-change_many p rs,
      fits-change_many p x rs,
      fits-change_many p (f x) rs,
      fits-plain x rs,
    )

    pub find-change_many :
        (p : Row → Bool) (k : String) (rs : List Row)
        → find m k (change_many m p f rs) ≡ map_option (λ r. if p r then f r else r) (find m k rs)
    unfolding find change_many
    find-change_many p k [] = refl
    find-change_many p k (x ∷ rs) = ground (arith, h.id x, find-change_many p k rs)

  fits-select :
      (p : Row → Bool) (r : Row) (rs : List Row)
      → fits m r rs ≡ true
      → fits m r (select m p rs) ≡ true
  unfolding fits select
  fits-select p r [] h = refl
  fits-select p r (x ∷ rs) h = ground (arith, fits-select p r rs)

  pub check-select :
      (p : Row → Bool) (rs : List Row) → check m rs ≡ true → check m (select m p rs) ≡ true
  unfolding check select
  check-select p [] h = refl
  check-select p (x ∷ rs) h = ground (arith, check-select p rs, fits-select p x rs)

  pub find-select :
      (p : Row → Bool) (k : String) (rs : List Row)
      → check m rs ≡ true
      → find m k (select m p rs) ≡ keep_if p (find m k rs)
  unfolding find check select
  find-select p k [] h = refl
  find-select p k (x ∷ rs) h =
      ground (arith, find-select p k rs, find-fits_self m x rs, eq_iff (m.id x) k)

  find_head : (x : Row) (rs : List Row) → find m (m.id x) (x ∷ rs) ≡ some x
  unfolding find
  find_head x rs = ground (arith, eq_iff (m.id x) (m.id x))

  find_tail :
      (x : Row) (rs : List Row) (k : String) (s : Row)
      → fits m x rs ≡ true
      → find m k rs ≡ some s
      → find m k (x ∷ rs) ≡ some s
  unfolding find
  find_tail x rs k s h e = ground (arith, eq_iff (m.id x) k, find-fits_self m x rs)

  pub All-select :
      (p : Row → Bool) (Q : Row → Type 0) (rs : List Row)
      → check m rs ≡ true
      → ((r : Row) → p r ≡ true → find m (m.id r) rs ≡ some r → Q r)
      → All Q (select m p rs)
  unfolding check select
  All-select p Q [] h q = tt
  All-select p Q (x ∷ rs) h q =
      let (first_fits, rest_ok) = (and-eq-true_iff _ _).0 h in
      let rest =
        All-select p Q rs rest_ok
          (λ r pr found. q r pr (find_tail x rs (m.id r) r first_fits found)) in
      elim (Bool-cases (p x)) [
        | inl holds ↦ rw holds (q x holds (find_head x rs), rest)
        | inr fails ↦ rw fails rest
      ]

  pub fits_of_none :
      (r : Row) (rs : List Row)
      → check m rs ≡ true
      → find m (m.id r) rs ≡ none
      → ((k : String) (s : Row)
          → find m k rs ≡ some s
          → (m.clash r s ≡ false) × (m.clash s r ≡ false))
      → fits m r rs ≡ true
  unfolding check find fits apart
  fits_of_none r [] h e q = refl
  fits_of_none r (x ∷ rs) h e q =
      let (first_fits, rest_ok) = (and-eq-true_iff _ _).0 h in
      let apart_first = q (m.id x) x (find_head x rs) in
      let rest =
        fits_of_none r rs rest_ok (ground arith)
          (λ k s found. q k s (find_tail x rs k s first_fits found)) in
      ground (arith, apart_first, rest, eq_iff (m.id x) (m.id r), eq_iff (m.id r) (m.id x))
