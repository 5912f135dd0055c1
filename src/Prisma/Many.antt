-- ===== src/Prisma/Many.antt =====
-- What stands in the list that `findMany` gives, column by column.
use multi_tenant_project_man.Base.{
  String, Bool, true, false, some, List, [], ◌∷◌, ◌≡◌, ◌≢◌, refl, ◌==◌, eq_iff, arith, map, All,
  Bool-cases, inl, inr, eq_of_==,
}
use multi_tenant_project_man.Base.Lists.{contains, is_distinct}
use multi_tenant_project_man.Prisma.{Model, Prisma}

module _ {Row : Type 0} (db : Prisma) (m : Model Row) (t : db.Table m) (column : Row → String) where
  abbrev IsStored : Row → Type 0
  IsStored r = db.find_id m (m.id r) t ≡ some r

  -- A row in the list of ids is in the list of any other column.
  contains-map :
      (rs : List Row) (k : String) (r : Row)
      → All IsStored rs
      → contains (map m.id rs) k ≡ true
      → db.find_id m k t ≡ some r
      → contains (map column rs) (column r) ≡ true
  contains-map [] k r all h e = absurd (ground arith)
  contains-map (s ∷ rs) k r all h e =
      ground
        (arith, contains-map rs k r all.1, all.0, eq_iff (m.id s) k, eq_iff (column s) (column r))

  -- What a value of a column comes from.
  pub source_of :
      (p : Row → Bool) (rs : List Row) (z : String)
      → All (λ r. (p r ≡ true) × IsStored r) rs
      → contains (map column rs) z ≡ true
      → (r : Row) × (column r ≡ z) × (p r ≡ true) × IsStored r
  source_of p [] z all h = absurd (ground arith)
  source_of p (s ∷ rs) z all h = elim (Bool-cases (column s == z)) [
    | inl same ↦ (s, eq_of_== (column s) z same, all.0.0, all.0.1)
    | inr other ↦ source_of p rs z all.1 (ground arith)
  ]

  -- Where rows with different ids differ in the column, the list has no value twice.
  module _
      (unique : (r s : Row) → IsStored r → IsStored s → m.id r ≢ m.id s → column r ≢ column s) where
    absent_column :
        (rs : List Row) (r : Row)
        → All IsStored rs
        → IsStored r
        → contains (map m.id rs) (m.id r) ≡ false
        → contains (map column rs) (column r) ≡ false
    absent_column [] r all e h = refl
    absent_column (s ∷ rs) r all e h = ground (
      arith,
      absent_column rs r all.1 e,
      unique s r all.0 e,
      eq_iff (m.id s) (m.id r),
      eq_iff (column s) (column r),
    )

    pub is_distinct-column :
        (rs : List Row)
        → All IsStored rs
        → is_distinct (map m.id rs) ≡ true
        → is_distinct (map column rs) ≡ true
    is_distinct-column [] all h = refl
    is_distinct-column (s ∷ rs) all h =
        ground (arith, is_distinct-column rs all.1, absent_column rs s all.1 all.0)

  IsStored-of :
      (p : Row → Bool) (rs : List Row) → All (λ r. (p r ≡ true) × IsStored r) rs → All IsStored rs
  IsStored-of p [] all = tt
  IsStored-of p (r ∷ rs) all = (all.0.1, IsStored-of p rs all.1)

  pub IsStored-many : (p : Row → Bool) → All IsStored (db.find_many m p t)
  IsStored-many p = IsStored-of p _ (db.find_many_sound m p t)

  -- A stored row that meets the condition has its value in the list.
  pub contains-find_many :
      (p : Row → Bool) (k : String) (r : Row)
      → db.find_id m k t ≡ some r
      → p r ≡ true
      → contains (map column (db.find_many m p t)) (column r) ≡ true
  contains-find_many p k r e h =
      contains-map (db.find_many m p t) k r (IsStored-many p) (db.find_many_complete m p t k r e h)
        e
