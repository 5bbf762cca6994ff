-- ===== src/Service/Exec/Inversion.antt =====
-- What a finished action says of its parts.
use openbao_authorizer.Prelude.{◌≡◌, refl, sym, ap, ◌⊎◌, inl, inr, arith}
use openbao_authorizer.Prelude.Result.{Result, ok, err, ok-injective}
use openbao_authorizer.Service.Model.{OpenBao, World, BaoError, ServiceError}
use openbao_authorizer.Store.Model.{StoreError}
use openbao_authorizer.Store.Rows.{Db}
use openbao_authorizer.Service.Exec.{
  Exec, continue, ◌>>=◌, pure, handle, on_error, reads, writes, calls,
}

module _ {W A B : Type 0} where
  continue-ok :
      (r : Result ServiceError A) (v : W) (f : A → Exec W B) {b : B} {w' : W}
      → continue r f v ≡ (ok b, w')
      → (a : A) × (r ≡ ok a) × (f a v ≡ (ok b, w'))
  continue-ok (ok a) v f h = (a, refl, h)
  continue-ok (err e) v f h = cc

  pub bind-ok :
      (m : Exec W A) (f : A → Exec W B) (w : W) {b : B} {w' : W}
      → (m >>= f) w ≡ (ok b, w')
      → (a : A) × (m w ≡ (ok a, (m w).1)) × (f a (m w).1 ≡ (ok b, w'))
  bind-ok m f w h = let (a, r, k) = continue-ok (m w).0 (m w).1 f h in (a, (λ i. (r i, (m w).1)), k)

  continue-err :
      (r : Result ServiceError A) (v : W) (f : A → Exec W B) {e : ServiceError} {w' : W}
      → continue r f v ≡ (err e, w')
      → (◌≡◌ {A = Result ServiceError A × W} (r, v) (err e, w'))
        ⊎ ((a : A) × (r ≡ ok a) × (f a v ≡ (err e, w')))
  continue-err (ok a) v f h = inr (a, refl, h)
  continue-err (err e) v f h = inl (ground arith)

  pub bind-err :
      (m : Exec W A) (f : A → Exec W B) (w : W) {e : ServiceError} {w' : W}
      → (m >>= f) w ≡ (err e, w')
      → (m w ≡ (err e, w')) ⊎ ((a : A) × (m w ≡ (ok a, (m w).1)) × (f a (m w).1 ≡ (err e, w')))
  bind-err m f w h = elim (continue-err (m w).0 (m w).1 f h) [
    | inl q ↦ inl q
    | inr (a, r, k) ↦ inr (a, (λ i. (r i, (m w).1)), k)
  ]

module _ {W A : Type 0} where
  handle-ok :
      (r : Result ServiceError A) (v : W) (f : ServiceError → Exec W A) {a : A} {w' : W}
      → handle r f v ≡ (ok a, w')
      → (◌≡◌ {A = Result ServiceError A × W} (r, v) (ok a, w'))
        ⊎ ((e : ServiceError) × (r ≡ err e) × (f e v ≡ (ok a, w')))
  handle-ok (ok a) v f h = inl h
  handle-ok (err e) v f h = inr (e, refl, h)

  handle-err :
      (r : Result ServiceError A) (v : W) (f : ServiceError → Exec W A) {e : ServiceError} {w' : W}
      → handle r f v ≡ (err e, w')
      → (d : ServiceError) × (r ≡ err d) × (f d v ≡ (err e, w'))
  handle-err (ok a) v f h = cc
  handle-err (err d) v f h = (d, refl, h)

  pub on_error-ok :
      (m : Exec W A) (f : ServiceError → Exec W A) (w : W) {a : A} {w' : W}
      → on_error m f w ≡ (ok a, w')
      → (m w ≡ (ok a, w'))
        ⊎ ((e : ServiceError) × (m w ≡ (err e, (m w).1)) × (f e (m w).1 ≡ (ok a, w')))
  on_error-ok m f w h = elim (handle-ok (m w).0 (m w).1 f h) [
    | inl q ↦ inl q
    | inr (e, r, k) ↦ inr (e, (λ i. (r i, (m w).1)), k)
  ]

  pub on_error-err :
      (m : Exec W A) (f : ServiceError → Exec W A) (w : W) {e : ServiceError} {w' : W}
      → on_error m f w ≡ (err e, w')
      → (d : ServiceError) × (m w ≡ (err d, (m w).1)) × (f d (m w).1 ≡ (err e, w'))
  on_error-err m f w h =
      let (d, r, k) = handle-err (m w).0 (m w).1 f h in (d, (λ i. (r i, (m w).1)), k)

  -- A handler of errors that never succeeds.
  abbrev pub Raises : Exec W A → Type 0
  Raises f = (w : W) (a : A) (w' : W) → f w ≡ (ok a, w') → ⊥

  pub on_error-raised :
      (m : Exec W A) (f : ServiceError → Exec W A) (w : W) {a : A} {w' : W}
      → ((e : ServiceError) → Raises (f e))
      → on_error m f w ≡ (ok a, w')
      → m w ≡ (ok a, w')
  on_error-raised m f w raises h = elim (on_error-ok m f w h) [
    | inl q ↦ q
    | inr (e, q, k) ↦ absurd (raises e (m w).1 _ _ k)
  ]

  pub pure-ok : (a : A) (v : W) {b : A} {w' : W} → pure a v ≡ (ok b, w') → (b ≡ a) × (w' ≡ v)
  pure-ok a v h = (
    ok-injective (ap (λ (x : Result ServiceError A × W). x.0) (sym h)),
    ap (λ (x : Result ServiceError A × W). x.1) (sym h),
  )

module _ {bao : OpenBao} where
  -- Which parts of the world a read, a write and a call of OpenBao leave alone.
  pub reads-ok :
      {A : Type 0} (m : Db → Result StoreError A) (w : World bao) {a : A} {w' : World bao}
      → reads m w ≡ (ok a, w')
      → (m w.db ≡ ok a) × (w'.db ≡ w.db) × (w'.server ≡ w.server)
  reads-ok m w h = ground arith

  pub reads-same :
      {A : Type 0} (m : Db → Result StoreError A) (w : World bao)
      → ((reads m w).1.db ≡ w.db) × ((reads m w).1.server ≡ w.server)
  reads-same m w = ground arith

  pub writes-ok :
      (m : Db → Result StoreError Db) (w : World bao) {w' : World bao}
      → writes m w ≡ (ok tt, w')
      → (m w.db ≡ ok w'.db) × (w'.server ≡ w.server)
  writes-ok m w h = ground arith

  pub writes-err :
      (m : Db → Result StoreError Db) (w : World bao) {e : ServiceError} {w' : World bao}
      → writes m w ≡ (err e, w')
      → (w'.db ≡ w.db) × (w'.server ≡ w.server)
  writes-err m w h = ground arith

  pub calls-ok :
      {A : Type 0} (m : bao.State → Result BaoError A × bao.State) (w : World bao) {a : A}
      {w' : World bao}
      → calls m w ≡ (ok a, w')
      → ((m w.server).0 ≡ ok a) × (w'.server ≡ (m w.server).1) × (w'.db ≡ w.db)
  calls-ok m w h = ground arith
