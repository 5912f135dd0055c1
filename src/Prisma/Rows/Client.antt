-- ===== src/Prisma/Rows/Client.antt =====
-- The client over lists of rows, with all that Prisma.antt asks for.
use mathlib.Core.Bool.{and-eq-true_iff}
use multi_tenant_project_man.Base.{
  String, Bool, true, false, Option, none, some, List, ◌∷◌, ◌≡◌, ◌≢◌, ◌⊎◌, inl, inr, refl, ◌==◌,
  if◌then◌else◌, map_option, All, Bool-cases, sym, ap, subst, ◌∙◌,
}
use multi_tenant_project_man.Prisma.{
  Model, Write, done, missing, duplicate, keep_if, IsPlain, Prisma,
}
use multi_tenant_project_man.Prisma.Rows.Lists.{
  fits, check, find, first, select, change, change_many, id_find, find-first, first-none,
  find-fits_self, contains-select, is_distinct-select,
}
use multi_tenant_project_man.Prisma.Rows.Writes.{
  distinct_lem, find-change, check-change, check-change_many, find-change_many, check-select,
  find-select, All-select, fits_of_none,
}

module _ {Row : Type 0} (m : Model Row) where
  abbrev pub Table : Type 0
  Table = (rs : List Row) × (check m rs ≡ true)

  -- The rows are stored if they fit together.
  unfoldable pub store_if :
      Write Table → (rs : List Row) → (check m rs ≡ true) ⊎ (check m rs ≡ false) → Write Table
  store_if failed rs (inl fit) = done (rs, fit)
  store_if failed rs (inr clash) = failed

  unfoldable pub store_or : Write Table → List Row → Write Table
  unfolding store_if
  store_or failed rs = store_if failed rs (Bool-cases (check m rs))

  unfoldable pub create : Row → Table → Write Table
  unfolding store_or
  create r t = store_or duplicate (r ∷ t.0)

  unfoldable pub update_if : String → (Row → Row) → Table → Option Row → Write Table
  unfolding store_or
  update_if k f t none = missing
  update_if k f t (some r) = store_or duplicate (change m k f t.0)

  unfoldable pub update : String → (Row → Row) → Table → Write Table
  unfolding update_if
  update k f t = update_if k f t (find m k t.0)

  unfoldable pub or_same : Table → Write Table → Table
  or_same t (done t') = t'
  or_same t missing = t
  or_same t duplicate = t

  unfoldable pub update_many : (Row → Bool) → (Row → Row) → Table → Table
  unfolding store_or or_same
  update_many p f t = or_same t (store_or duplicate (change_many m p f t.0))

  unfoldable pub delete_many : (Row → Bool) → Table → Table
  delete_many p t = (select m (λ r. if p r then false else true) t.0, check-select m _ t.0 t.1)

  rows_of : List Row → Write Table → List Row
  rows_of rs (done t) = t.0
  rows_of rs missing = rs
  rows_of rs duplicate = rs

  store_if_rows :
      (failed : Write Table) (rs : List Row) (c : (check m rs ≡ true) ⊎ (check m rs ≡ false))
      (t : Table)
      → failed ≢ done t
      → store_if failed rs c ≡ done t
      → t.0 ≡ rs
  unfolding store_if rows_of
  store_if_rows failed rs (inl fit) t n e = sym (ap (rows_of rs) e)
  store_if_rows failed rs (inr clash) t n e = absurd (n e)

  store_if_total :
      (failed : Write Table) (rs : List Row) (c : (check m rs ≡ true) ⊎ (check m rs ≡ false))
      → check m rs ≡ true
      → (t : Table) × (store_if failed rs c ≡ done t) × (t.0 ≡ rs)
  unfolding store_if
  store_if_total failed rs (inl fit) h = ((rs, fit), refl, refl)
  store_if_total failed rs (inr clash) h = cc

  create_rows : (r : Row) (t t' : Table) → create r t ≡ done t' → t'.0 ≡ r ∷ t.0
  unfolding create
  create_rows r t t' e = store_if_rows duplicate (r ∷ t.0) _ t' (λ d. cc) e

  create_check : (r : Row) (t t' : Table) → create r t ≡ done t' → fits m r t.0 ≡ true
  unfolding check
  create_check r t t' e =
      ((and-eq-true_iff _ _).0 (subst (λ rs. check m rs ≡ true) (create_rows r t t' e) t'.1)).0

  pub find-create :
      (r : Row) (t t' : Table) (k : String)
      → create r t ≡ done t'
      → find m k t'.0 ≡ (if m.id r == k then some r else find m k t.0)
  find-create r t t' k e = rw (create_rows r t t' e) (unfold find in refl)

  pub create_fresh_lem :
      (r : Row) (t t' : Table) → create r t ≡ done t' → find m (m.id r) t.0 ≡ none
  create_fresh_lem r t t' e = find-fits_self m r t.0 (create_check r t t' e)

  store_if-ne-missing :
      (failed : Write Table) (rs : List Row) (c : (check m rs ≡ true) ⊎ (check m rs ≡ false))
      → failed ≢ missing
      → store_if failed rs c ≢ missing
  unfolding store_if
  store_if-ne-missing failed rs (inl fit) n e = cc
  store_if-ne-missing failed rs (inr clash) n e = n e

  pub create-ne-missing_lem : (r : Row) (t : Table) → create r t ≢ missing
  unfolding create
  create-ne-missing_lem r t e = store_if-ne-missing duplicate (r ∷ t.0) _ (λ d. cc) e

  pub create_total_lem :
      (r : Row) (t : Table)
      → find m (m.id r) t.0 ≡ none
      → ((k : String) (s : Row)
          → find m k t.0 ≡ some s
          → (m.clash r s ≡ false) × (m.clash s r ≡ false))
      → (t' : Table) × (create r t ≡ done t')
  unfolding create
  create_total_lem r t fresh free =
      let fit = fits_of_none m r t.0 t.1 fresh free in
      let (t', e, _) =
        store_if_total duplicate (r ∷ t.0) (Bool-cases _)
          (unfold check in (and-eq-true_iff _ _).1 (fit, t.1)) in
      (t', e)

  update_if_rows :
      (k : String) (f : Row → Row) (t t' : Table) (o : Option Row)
      → update_if k f t o ≡ done t'
      → t'.0 ≡ change m k f t.0
  unfolding update_if store_or
  update_if_rows k f t t' none e = cc
  update_if_rows k f t t' (some r) e = store_if_rows duplicate _ _ t' (λ d. cc) e

  pub find-update :
      (k : String) (f : Row → Row) (t t' : Table) (j : String)
      → ((r : Row) → m.id (f r) ≡ m.id r)
      → update k f t ≡ done t'
      → find m j t'.0 ≡ (if k == j then map_option f (find m j t.0) else find m j t.0)
  unfolding update
  find-update k f t t' j h e =
      rw (update_if_rows k f t t' (find m k t.0) e) (find-change m k j f t.0 h)

  pub update_missing_lem :
      (k : String) (f : Row → Row) (t : Table) → find m k t.0 ≡ none → update k f t ≡ missing
  unfolding update update_if
  update_missing_lem k f t e = rw e

  pub update_total_lem :
      (k : String) (f : Row → Row) (t : Table) (r : Row)
      → IsPlain m f
      → find m k t.0 ≡ some r
      → (t' : Table) × (update k f t ≡ done t')
  unfolding update update_if store_or
  update_total_lem k f t r h e =
      let (t', same, _) =
        store_if_total duplicate (change m k f t.0) (Bool-cases _)
          (check-change m f h k t.0 ∙ t.1) in
      (t', rw e same)

  or_same_rows : (t : Table) (w : Write Table) (t' : Table) → w ≡ done t' → (or_same t w).0 ≡ t'.0
  unfolding or_same
  or_same_rows t w t' e = rw e

  pub find-update_many :
      (p : Row → Bool) (f : Row → Row) (t : Table) (k : String)
      → IsPlain m f
      → find m k (update_many p f t).0 ≡ map_option (λ r. if p r then f r else r) (find m k t.0)
  unfolding update_many
  find-update_many p f t k h =
      let (t', same, rows) =
        store_if_total duplicate (change_many m p f t.0) (Bool-cases _)
          (check-change_many m f h p t.0 ∙ t.1) in
      rw (or_same_rows t _ t' same, rows) (find-change_many m f h p k t.0)

  pub find-delete_many :
      (p : Row → Bool) (t : Table) (k : String)
      → find m k (delete_many p t).0 ≡ keep_if (λ r. if p r then false else true) (find m k t.0)
  unfolding delete_many
  find-delete_many p t k = find-select m _ k t.0 t.1

  pub find_many_All :
      (p : Row → Bool) (t : Table)
      → All (λ r. (p r ≡ true) × (find m (m.id r) t.0 ≡ some r)) (select m p t.0)
  find_many_All p t = All-select m p _ t.0 t.1 (λ r holds found. (holds, found))

abbrev pub rows : Prisma
rows = record {
  Table = λ m. Table m;
  find_id = λ m k t. find m k t.0;
  find_first = λ m p t. first m p t.0;
  find_many = λ m p t. select m p t.0;
  create = λ m. create m;
  update = λ m. update m;
  update_many = λ m. update_many m;
  delete_many = λ m. delete_many m;
  id-find_id = λ m k t. id_find m k t.0;
  find_first_sound = λ m p t r. find-first m p t.0 r t.1;
  find_first_complete = λ m p t. first-none m p t.0;
  find_many_sound = λ m. find_many_All m;
  find_many_complete = λ m p t. contains-select m p t.0;
  find_many_distinct = λ m p t. is_distinct-select m p t.0 t.1;
  distinct = λ m t j k r s. distinct_lem m t.0 j k r s t.1;
  find_id-create = λ m. find-create m;
  create_fresh = λ m. create_fresh_lem m;
  create-ne-missing = λ m. create-ne-missing_lem m;
  create_total = λ m. create_total_lem m;
  find_id-update = λ m. find-update m;
  update_missing = λ m. update_missing_lem m;
  update_total = λ m. update_total_lem m;
  find_id-update_many = λ m. find-update_many m;
  find_id-delete_many = λ m. find-delete_many m;
}
