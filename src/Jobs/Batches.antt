-- ===== src/Jobs/Batches.antt =====
-- cleanup.service.ts: what one batch deletes and leaves.
use multi_tenant_project_man.Base.{
  ℕ, zero, suc, String, Bool, true, false, some, List, [], ◌∷◌, ◌≡◌, ◌≢◌, ◌<◌, eq_iff, arith, refl,
  map, length, Bool-cases, inl, inr, ap,
}
use multi_tenant_project_man.Base.Lists.{
  contains, take, remove, contains-remove, length-remove_lt, length_le_of_is_distinct, length-map,
}
use multi_tenant_project_man.Prisma.{Model, Prisma}
use multi_tenant_project_man.Prisma.Many.{source_of}
use multi_tenant_project_man.Jobs.Cleanup.{fetched, in_batch, remaining}

module _ {Row : Type 0} where
  contains-take :
      (f : Row → String) (n : ℕ) (rs : List Row) (z : String)
      → contains (map f (take n rs)) z ≡ true
      → contains (map f rs) z ≡ true
  contains-take f zero rs z h = absurd (ground arith)
  contains-take f (suc n) [] z h = absurd (ground arith)
  contains-take f (suc n) (r ∷ rs) z h = ground (arith, contains-take f n rs z)

  -- A batch that is not full has all rows.
  pub take_short : (n : ℕ) (rs : List Row) → length (take n rs) ≢ n → take n rs ≡ rs
  take_short zero rs h = absurd (h refl)
  take_short (suc n) [] h = refl
  take_short (suc n) (r ∷ rs) h = ap (λ qs. r ∷ qs) (take_short n rs (λ e. h (ap suc e)))

module _ {Row : Type 0} (db : Prisma) (m : Model Row) (p : Row → Bool) (batch_size : ℕ)
    (t : db.Table m) where
  abbrev t' : db.Table m
  t' = remaining db m p batch_size t

  -- What is left of a table that was cleaned: the rows that do not meet the condition.
  pub kept_row :
      (k : String) (r : Row) → db.find_id m k t ≡ some r → p r ≡ false → db.find_id m k t' ≡ some r
  kept_row k r stored other = elim (Bool-cases (in_batch db m p batch_size t r)) [
    | inr outside ↦ ground (arith, db.find_id-delete_many m (in_batch db m p batch_size t) t k)
    | inl within ↦
        let (s, same, meets, at_id) =
          source_of db m t m.id p (db.find_many m p t) (m.id r) (db.find_many_sound m p t)
            (contains-take m.id batch_size (db.find_many m p t) (m.id r) within) in
        absurd (ground (arith, db.id-find_id m k t r stored, same))
  ]

  pub left_row :
      (k : String) (r : Row)
      → db.find_id m k t' ≡ some r
      → (db.find_id m k t ≡ some r) × (in_batch db m p batch_size t r ≡ false)
  left_row k r stored = (
    ground (arith, db.find_id-delete_many m (in_batch db m p batch_size t) t k),
    ground (arith, db.find_id-delete_many m (in_batch db m p batch_size t) t k),
  )

  -- A row of a later query was found by the first, and is none of the batch.
  later_row :
      (z : String)
      → contains (map m.id (db.find_many m p t')) z ≡ true
      → (contains (map m.id (db.find_many m p t)) z ≡ true)
        × (contains (map m.id (fetched db m p batch_size t)) z ≡ false)
  later_row z within =
      let (r, same, meets, stored) =
        source_of db m t' m.id p (db.find_many m p t') z (db.find_many_sound m p t') within in
      let (before, outside) = left_row (m.id r) r stored in
      (
        ground (arith, db.find_many_complete m p t (m.id r) r before meets, same),
        ground (arith, outside, same),
      )

  pub fewer_rows :
      (r : Row) (rs : List Row)
      → fetched db m p batch_size t ≡ r ∷ rs
      → length (db.find_many m p t') < length (db.find_many m p t)
  fewer_rows r rs batch =
      let here : contains (map m.id (db.find_many m p t)) (m.id r) ≡ true =
        contains-take m.id batch_size (db.find_many m p t) (m.id r)
          (ground (arith, batch, eq_iff (m.id r) (m.id r))) in
      let few =
        length_le_of_is_distinct (map m.id (db.find_many m p t'))
          (remove (m.id r) (map m.id (db.find_many m p t))) (db.find_many_distinct m p t')
          (λ z within. ground (
            arith,
            contains-remove (m.id r) z (map m.id (db.find_many m p t)),
            later_row z within,
            batch,
            eq_iff (m.id r) z,
            eq_iff z (m.id r),
          )) in
      omega (
        arith,
        few,
        length-remove_lt (m.id r) (map m.id (db.find_many m p t)) here,
        length-map m.id (db.find_many m p t),
        length-map m.id (db.find_many m p t'),
      )

  -- After a batch that is not full, no row that is left meets the condition.
  pub last_batch :
      (k : String) (r : Row)
      → length (fetched db m p batch_size t) ≢ batch_size
      → db.find_id m k t' ≡ some r
      → p r ≡ false
  last_batch k r short stored =
      let (before, outside) = left_row k r stored in
      elim (Bool-cases (p r)) [
        | inr other ↦ other
        | inl meets ↦ absurd (
            ground (
              arith,
              db.find_many_complete m p t k r before meets,
              take_short batch_size (db.find_many m p t) short,
              db.id-find_id m k t r before,
              outside,
            ))
      ]
