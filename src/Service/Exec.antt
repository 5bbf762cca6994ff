-- ===== src/Service/Exec.antt =====
-- Handlers as actions: what was written before an error stays written.
pub mod Inversion
pub mod Tables
pub mod Preserves
use openbao_authorizer.Prelude.{ℕ, Bool, true, false, List, [], ◌∷◌, ◌++◌, ◌≡◌, refl}
use openbao_authorizer.Prelude.Result
use openbao_authorizer.Prelude.Result.{Result, ok, err}
use openbao_authorizer.Text.Bytes.{Str}
use openbao_authorizer.Store.Model.{StoreError, database_failed}
use openbao_authorizer.Store.Rows.{Db}
use openbao_authorizer.Service.Model.{
  OpenBao, World, BaoError, ServiceError, store_failed, bao_failed, ids_exhausted, Event,
}

abbrev pub Exec : Type 0 → Type 0 → Type 0
Exec W A = W → Result ServiceError A × W

module _ {W : Type 0} where
  abbrev pub pure : {A : Type 0} → A → Exec W A
  pure a w = (ok a, w)

  abbrev pub raise : {A : Type 0} → ServiceError → Exec W A
  raise e w = (err e, w)

  abbrev pub from : {A : Type 0} → Result ServiceError A → Exec W A
  from r w = (r, w)

  abbrev pub continue : {A B : Type 0} → Result ServiceError A → (A → Exec W B) → Exec W B
  continue (ok a) f w = f a w
  continue (err e) f w = (err e, w)

  infixl 5 ◌>>=◌ ◌>>◌
  abbrev pub ◌>>=◌ : {A B : Type 0} → Exec W A → (A → Exec W B) → Exec W B
  ◌>>=◌ m f w = let (r, w') = m w in continue r f w'

  abbrev pub ◌>>◌ : {B : Type 0} → Exec W (Unit {0}) → Exec W B → Exec W B
  m >> k = m >>= λ _. k

  -- `if err := m(); err != nil { … }`, with what is done then.
  abbrev pub handle : {A : Type 0} → Result ServiceError A → (ServiceError → Exec W A) → Exec W A
  handle (ok a) f w = (ok a, w)
  handle (err e) f w = f e w

  abbrev pub on_error : {A : Type 0} → Exec W A → (ServiceError → Exec W A) → Exec W A
  on_error m f w = let (r, w') = m w in handle r f w'

abbrev store_error : {A : Type 0} → Result StoreError A → Result ServiceError A
store_error (ok a) = ok a
store_error (err e) = err (store_failed e)

abbrev bao_error : {A : Type 0} → Result BaoError A → Result ServiceError A
bao_error (ok a) = ok a
bao_error (err e) = err (bao_failed e)

module _ {bao : OpenBao} where
  abbrev pub with_faults : World bao → List Bool → World bao
  with_faults w faults = record w { faults = faults }

  -- A database call that only reads. A call that is to fail does nothing but fail.
  abbrev read_unless : {A : Type 0} → List Bool → (Db → Result StoreError A) → Exec (World bao) A
  read_unless [] m w = (store_error (m w.db), w)
  read_unless (false ∷ faults) m w = (store_error (m w.db), with_faults w faults)
  read_unless (true ∷ faults) m w = (err (store_failed database_failed), with_faults w faults)

  abbrev pub reads : {A : Type 0} → (Db → Result StoreError A) → Exec (World bao) A
  reads m w = read_unless w.faults m w

  abbrev commit : Result StoreError Db → Exec (World bao) (Unit {0})
  commit (ok db) w = (ok tt, record w { db = db })
  commit (err e) w = (err (store_failed e), w)

  -- A database call that writes: one transaction.
  abbrev write_unless : List Bool → (Db → Result StoreError Db) → Exec (World bao) (Unit {0})
  write_unless [] m w = commit (m w.db) w
  write_unless (false ∷ faults) m w = commit (m w.db) (with_faults w faults)
  write_unless (true ∷ faults) m w = (err (store_failed database_failed), with_faults w faults)

  abbrev pub writes : (Db → Result StoreError Db) → Exec (World bao) (Unit {0})
  writes m w = write_unless w.faults m w

  -- A call of OpenBao.
  abbrev pub calls : {A : Type 0} → (bao.State → Result BaoError A × bao.State) → Exec (World bao) A
  calls m w = let (r, server) = m w.server in (bao_error r, record w { server = server })

  abbrev draw : List Str → Exec (World bao) Str
  draw [] w = (err ids_exhausted, w)
  draw (id ∷ ids) w = (ok id, record w { ids = ids })

  -- store.NewID
  abbrev pub new_id : Exec (World bao) Str
  new_id w = draw w.ids w

  abbrev pub send : List Event → Exec (World bao) (Unit {0})
  send events w = (ok tt, record w { events = w.events ++ events })
