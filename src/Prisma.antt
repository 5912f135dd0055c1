-- ===== src/Prisma.antt =====
-- The database client (@prisma/client, which is not part of the repository) as a parameter: the
-- calls that the repositories make, and what Prisma and PostgreSQL document of them. A table is
-- known by what its primary keys find. prisma/schema.prisma gives each model's key and its unique
-- constraints. Foreign keys are taken to hold, and the connection to work.
pub mod Rows
pub mod Where
pub mod Many
use multi_tenant_project_man.Base.{
  String, Bool, true, false, Option, none, some, List, ◌≡◌, ◌≢◌, ◌⊎◌, ◌==◌, if◌then◌else◌,
  map_option, All, map,
}
use multi_tenant_project_man.Base.Lists.{contains, is_distinct}

-- What schema.prisma declares of a model: `@id`, and whether two rows share a `@unique` value.
pub record Model (Row : Type 0) : Type 0 where
  pub id : Row → String
  pub clash : Row → Row → Bool

-- A write of one row: it is done, or it throws P2025 or P2002.
pub data Write (A : Type 0) : Type 0 where
  done : A → Write A
  missing : Write A
  duplicate : Write A

-- The table after a write.
abbrev pub written : {T : Type 0} → T → Write T → T
written t (done t') = t'
written t missing = t
written t duplicate = t

abbrev pub keep_if {ℓ} : {A : Type ℓ} → (A → Bool) → Option A → Option A
keep_if p none = none
keep_if p (some a) = if p a then some a else none

-- A change of data that leaves the key and the unique columns alone.
pub record IsPlain {Row : Type 0} (m : Model Row) (f : Row → Row) : Type 0 where
  pub id : (r : Row) → m.id (f r) ≡ m.id r
  pub clash_left : (r s : Row) → m.clash (f r) s ≡ m.clash r s
  pub clash_right : (r s : Row) → m.clash r (f s) ≡ m.clash r s

pub record Prisma : Type 1 where
  -- Tables of a model, in which its unique constraints hold.
  pub Table : {Row : Type 0} → Model Row → Type 0
  -- `findUnique({ where: { id } })`
  pub find_id : {Row : Type 0} (m : Model Row) → String → Table m → Option Row
  -- `findFirst({ where })`, and `findUnique` by another unique column
  pub find_first : {Row : Type 0} (m : Model Row) → (Row → Bool) → Table m → Option Row
  -- `findMany({ where })`
  pub find_many : {Row : Type 0} (m : Model Row) → (Row → Bool) → Table m → List Row
  -- `create({ data })`
  pub create : {Row : Type 0} (m : Model Row) → Row → Table m → Write (Table m)
  -- `update({ where: { id }, data })`
  pub update : {Row : Type 0} (m : Model Row) → String → (Row → Row) → Table m → Write (Table m)
  -- `updateMany({ where, data })`, for data that touches no unique column
  pub update_many : {Row : Type 0} (m : Model Row) → (Row → Bool) → (Row → Row) → Table m → Table m
  -- `deleteMany({ where })`
  pub delete_many : {Row : Type 0} (m : Model Row) → (Row → Bool) → Table m → Table m
  pub id-find_id :
      {Row : Type 0} (m : Model Row) (k : String) (t : Table m) (r : Row)
      → find_id m k t ≡ some r
      → m.id r ≡ k
  pub find_first_sound :
      {Row : Type 0} (m : Model Row) (p : Row → Bool) (t : Table m) (r : Row)
      → find_first m p t ≡ some r
      → (p r ≡ true) × (find_id m (m.id r) t ≡ some r)
  pub find_first_complete :
      {Row : Type 0} (m : Model Row) (p : Row → Bool) (t : Table m) (k : String) (r : Row)
      → find_first m p t ≡ none
      → find_id m k t ≡ some r
      → p r ≡ false
  pub find_many_sound :
      {Row : Type 0} (m : Model Row) (p : Row → Bool) (t : Table m)
      → All (λ r. (p r ≡ true) × (find_id m (m.id r) t ≡ some r)) (find_many m p t)
  pub find_many_complete :
      {Row : Type 0} (m : Model Row) (p : Row → Bool) (t : Table m) (k : String) (r : Row)
      → find_id m k t ≡ some r
      → p r ≡ true
      → contains (map m.id (find_many m p t)) k ≡ true
  -- No row is given twice.
  pub find_many_distinct :
      {Row : Type 0} (m : Model Row) (p : Row → Bool) (t : Table m)
      → is_distinct (map m.id (find_many m p t)) ≡ true
  -- The unique constraints hold in every table.
  pub distinct :
      {Row : Type 0} (m : Model Row) (t : Table m) (j k : String) (r s : Row)
      → find_id m j t ≡ some r
      → find_id m k t ≡ some s
      → j ≢ k
      → m.clash r s ≡ false
  pub find_id-create :
      {Row : Type 0} (m : Model Row) (r : Row) (t t' : Table m) (k : String)
      → create m r t ≡ done t'
      → find_id m k t' ≡ (if m.id r == k then some r else find_id m k t)
  pub create_fresh :
      {Row : Type 0} (m : Model Row) (r : Row) (t t' : Table m)
      → create m r t ≡ done t'
      → find_id m (m.id r) t ≡ none
  pub create-ne-missing :
      {Row : Type 0} (m : Model Row) (r : Row) (t : Table m) → create m r t ≢ missing
  -- A row with a new key that clashes with none is stored.
  pub create_total :
      {Row : Type 0} (m : Model Row) (r : Row) (t : Table m)
      → find_id m (m.id r) t ≡ none
      → ((k : String) (s : Row)
          → find_id m k t ≡ some s
          → (m.clash r s ≡ false) × (m.clash s r ≡ false))
      → (t' : Table m) × (create m r t ≡ done t')
  pub find_id-update :
      {Row : Type 0} (m : Model Row) (k : String) (f : Row → Row) (t t' : Table m) (j : String)
      → ((r : Row) → m.id (f r) ≡ m.id r)
      → update m k f t ≡ done t'
      → find_id m j t' ≡ (if k == j then map_option f (find_id m j t) else find_id m j t)
  pub update_missing :
      {Row : Type 0} (m : Model Row) (k : String) (f : Row → Row) (t : Table m)
      → find_id m k t ≡ none
      → update m k f t ≡ missing
  -- A change of the other columns of a row that exists is done.
  pub update_total :
      {Row : Type 0} (m : Model Row) (k : String) (f : Row → Row) (t : Table m) (r : Row)
      → IsPlain m f
      → find_id m k t ≡ some r
      → (t' : Table m) × (update m k f t ≡ done t')
  pub find_id-update_many :
      {Row : Type 0} (m : Model Row) (p : Row → Bool) (f : Row → Row) (t : Table m) (k : String)
      → IsPlain m f
      → find_id m k (update_many m p f t) ≡ map_option (λ r. if p r then f r else r) (find_id m k t)
  pub find_id-delete_many :
      {Row : Type 0} (m : Model Row) (p : Row → Bool) (t : Table m) (k : String)
      → find_id m k (delete_many m p t) ≡ keep_if (λ r. if p r then false else true) (find_id m k t)
