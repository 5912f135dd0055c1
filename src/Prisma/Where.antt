-- ===== src/Prisma/Where.antt =====
-- Writes that find their row by the primary key and test other columns of it: Prisma's extended
-- `where` of a unique record.
use multi_tenant_project_man.Base.{
  String, Bool, false, none, some, List, [], ◌∷◌, ◌≡◌, refl, ◌==◌, ◌&&◌, eq_iff, arith,
  if◌then◌else◌, map_option, Option-cases, inl, inr, ◌⊎◌,
}
use multi_tenant_project_man.Prisma.{
  Model, Write, done, missing, duplicate, keep_if, Prisma, written,
}

-- What follows a write: the next write, unless this one throws.
abbrev pub and_then : {A B : Type 0} → Write A → (A → Write B) → Write B
and_then (done a) f = f a
and_then missing f = missing
and_then duplicate f = duplicate

pub Write-cases :
    {A : Type 0} (w : Write A) → ((a : A) × (w ≡ done a)) ⊎ ((w ≡ missing) ⊎ (w ≡ duplicate))
Write-cases (done a) = inl (a, refl)
Write-cases missing = inr (inl refl)
Write-cases duplicate = inr (inr refl)

module _ {Row : Type 0} (db : Prisma) (m : Model Row) where
  -- `update({ where: { id, ...other }, data })`
  unfoldable pub update_where :
      String → (Row → Bool) → (Row → Row) → db.Table m → Write (db.Table m)
  update_where k p f t = elim (keep_if p (db.find_id m k t)) [
    | none ↦ missing
    | some r ↦ db.update m k f t
  ]

  -- `delete({ where: { id, ...other } })`
  unfoldable pub delete_where : String → (Row → Bool) → db.Table m → Write (db.Table m)
  delete_where k p t = elim (keep_if p (db.find_id m k t)) [
    | none ↦ missing
    | some r ↦ done (db.delete_many m (λ s. m.id s == k) t)
  ]

  -- `createMany({ data })`, all or none
  unfoldable pub create_many : List Row → db.Table m → Write (db.Table m)
  create_many [] t = done t
  create_many (r ∷ rs) t = and_then (db.create m r t) (create_many rs)

  pub find_id-delete_where :
      (k : String) (p : Row → Bool) (t t' : db.Table m) (j : String)
      → delete_where k p t ≡ done t'
      → db.find_id m j t' ≡ (if j == k then none else db.find_id m j t)
  unfolding delete_where
  find_id-delete_where k p t t' j e = elim (Option-cases (db.find_id m j t)) [
    | inl absent ↦ ground (arith, db.find_id-delete_many m (λ s. m.id s == k) t j)
    | inr (r, found) ↦
        ground (arith, db.find_id-delete_many m (λ s. m.id s == k) t j, db.id-find_id m j t r found)
  ]

  -- A row that a write passes by stays as it is.
  pub update_where_keeps :
      (k : String) (p : Row → Bool) (f : Row → Row) (t : db.Table m) (j : String) (r : Row)
      → ((s : Row) → m.id (f s) ≡ m.id s)
      → db.find_id m j t ≡ some r
      → (j == k && p r) ≡ false
      → db.find_id m j (written t (update_where k p f t)) ≡ some r
  unfolding update_where
  update_where_keeps k p f t j r h stored passed = elim (Write-cases (db.update m k f t)) [
    | inl (t', e) ↦ ground (arith, db.find_id-update m k f t t' j h e, eq_iff k j)
    | inr (inl none_there) ↦ ground arith
    | inr (inr taken) ↦ ground arith
  ]

  pub delete_where_keeps :
      (k : String) (p : Row → Bool) (t : db.Table m) (j : String) (r : Row)
      → db.find_id m j t ≡ some r
      → (j == k && p r) ≡ false
      → db.find_id m j (written t (delete_where k p t)) ≡ some r
  unfolding delete_where
  delete_where_keeps k p t j r stored passed = ground (
    arith,
    db.find_id-delete_many m (λ s. m.id s == k) t j,
    db.id-find_id m j t r stored,
    eq_iff (m.id r) k,
    eq_iff j k,
  )

  -- What a write that is done wrote.
  pub find_id-update_where :
      (k : String) (p : Row → Bool) (f : Row → Row) (t t' : db.Table m) (j : String)
      → ((s : Row) → m.id (f s) ≡ m.id s)
      → update_where k p f t ≡ done t'
      → db.find_id m j t' ≡ (if k == j then map_option f (db.find_id m j t) else db.find_id m j t)
  unfolding update_where
  find_id-update_where k p f t t' j h e = elim (Option-cases (keep_if p (db.find_id m k t))) [
    | inl absent ↦ absurd (ground arith)
    | inr (r, found) ↦ db.find_id-update m k f t t' j h (ground arith)
  ]
