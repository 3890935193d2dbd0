-- ===== src/Store/Session.antt =====
-- The computation that a handler runs: it reads the clock, draws ids, works on a transaction's
-- view of the database, and returns or raises. What is committed is kept beside the view, so a
-- rollback is visible. The session's tenant is PostgreSQL's `app.tenant_id` setting, which the
-- row-level-security policies of migrations/versions compare with a row's tenant.
pub mod Atomic
pub mod Keeps
pub mod Runs
pub mod Never
use loan_credit.Prelude.{
  ℕ, ◌+◌, Bool, true, false, Option, none, some, List, [], ◌∷◌, ◌++◌, String, any, str_eq,
  if◌then◌else◌,
}
use loan_credit.Prelude.Int.{ℤ}
use loan_credit.Domain.Error.{Error, Result, ok, err, integrity_error, row_level_security}
use loan_credit.Domain.Files.{Scanner}
use loan_credit.Domain.Double.{Double}
use loan_credit.Domain.Facts.Extractor.{Reader}
use loan_credit.Domain.Verification.External.{ExternalSystems}
use loan_credit.Store.Rows.{Db, Payload}

-- What `compute_audit_hash` puts under the hash.
pub record AuditMaterial : Type 0 where
  pub prev_hash : String
  pub event_id : String
  pub event_type : String
  pub aggregate_id : String
  pub occurred_at : ℕ
  pub payload : Payload

-- What the object store says of a stored object.
pub record ObjectMetadata : Type 0 where
  pub checksum_sha256 : String
  pub size_bytes : ℕ

-- What the program takes from outside: the n-th reading of the clock, the n-th id of the id
-- generator, `json.dumps` with sorted keys, `hashlib.sha256(...).hexdigest()`, and `str` of an int
-- and of a `Decimal` given in cents, the settings of the file scanner with the PDF library, the
-- object store's answers to `put_object`, `get_object_metadata` (the content type is what is read)
-- and `get_object`, the reader of documents, the external systems, `float(text)`, `repr` of a text, and
-- a double with two decimals.
pub record Env : Type 0 where
  pub now_at : ℕ → ℕ
  pub id_at : ℕ → String
  pub canonical_json : AuditMaterial → String
  pub sha256_hex : String → String
  pub int_text : ℤ → String
  pub decimal_text : ℤ → String
  pub scanner : Scanner
  pub put_object : (tenant key : String) → List ℕ → (content_type : String) → Result ObjectMetadata
  pub content_type_of : (tenant key : String) → Result String
  pub get_object : (tenant key : String) → Result (List ℕ)
  pub reader : Reader
  pub external : ExternalSystems
  pub read_float : String → Result Double
  pub repr : String → String
  pub two_decimals : Double → String

-- A call of `start_application_workflow`.
pub record WorkflowStart : Type 0 where
  pub workflow_id : String
  pub tenant_id : String
  pub application_id : String
  pub version : ℕ
  pub starting_status : String

pub record World : Type 0 where
  pub durable : Db
  pub view : Db
  pub tenant : String
  pub ticks : ℕ
  pub issued : ℕ
  pub started : List WorkflowStart

abbrev pub Action : Type 0 → Type 0
Action A = World → Result A × World

abbrev pub continue : {A B : Type 0} → Result A → (A → Action B) → Action B
continue (ok a) f w = f a w
continue (err e) f w = (err e, w)

module _ {A : Type 0} where
  unfoldable pub pure : A → Action A
  pure a w = (ok a, w)

  unfoldable pub raise : Error → Action A
  raise e w = (err e, w)

  unfoldable pub lift : Result A → Action A
  lift r w = (r, w)

  -- A value that is read from the session and the world, which stay as they are.
  unfoldable pub read : (World → Result A) → Action A
  read f w = (f w, w)

  -- `if value is None: raise error`
  unfoldable pub or_raise : Option A → Error → Action A
  or_raise none e w = (err e, w)
  or_raise (some a) e w = (ok a, w)

unfoldable pub raise_if : Bool → Error → Action (Unit {0})
raise_if true e w = (err e, w)
raise_if false e w = (ok tt, w)

unfoldable pub modify : (Db → Db) → Action (Unit {0})
modify f w = (ok tt, record w { view = f w.view })

-- Opening this opens the steps above too.
infixl 5 ◌>>=◌ ◌>>◌
unfoldable pub ◌>>=◌ : {A B : Type 0} → Action A → (A → Action B) → Action B
unfolding pure raise lift read or_raise raise_if modify
◌>>=◌ m f w = let (r, w') = m w in continue r f w'

abbrev pub ◌>>◌ : {A B : Type 0} → Action A → Action B → Action B
m >> k = m >>= λ _. k

-- `try: ... except E: ...` around an action whose errors are turned into other results.
unfoldable pub caught : {A B : Type 0} → (Result A → Result B) → Action A → Action B
caught handler m w = let (r, w') = m w in (handler r, w')

-- `clock.now()`
unfoldable pub now : Env → Action ℕ
now env w = (ok (env.now_at w.ticks), record w { ticks = w.ticks + 1 })

-- `id_generator.new_id()`
unfoldable pub new_id : Env → Action String
new_id env w = (ok (env.id_at w.issued), record w { issued = w.issued + 1 })

-- An INSERT of a row of `row_tenant`: the policy's check, then the unique constraints. `clash`
-- says whether a present row has a key of the new one, `insert` adds it.
unfoldable pub insert_row :
    String → (row_tenant : String) → (Db → Bool) → (Db → Db) → Action (Unit {0})
insert_row table row_tenant clash insert w =
    if str_eq row_tenant w.tenant
    then (if clash w.view
        then (err (integrity_error table), w)
        else (ok tt, record w { view = insert w.view }))
    else (err (row_level_security table), w)

-- A row is visible to the session if it is of the session's tenant.
abbrev pub visible : World → String → Bool
visible w row_tenant = str_eq row_tenant w.tenant

-- `session.commit()`
unfoldable pub commit : Action (Unit {0})
commit w = (ok tt, record w { durable = w.view })

-- `async with uow_factory.begin(tenant_id=tenant)`: a new transaction sees what is committed; on
-- the way out whatever was not committed is rolled back.
unfoldable pub transaction : {A : Type 0} → String → Action A → Action A
transaction tenant body w =
    let (r, w') = body (record w { view = w.durable; tenant = tenant }) in
    (r, record w' { view = w'.durable })
