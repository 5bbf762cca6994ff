-- ===== src/Service/Exec/Preserves.antt =====
-- Actions that keep a property of the tables, whether they succeed or fail.
use openbao_authorizer.Prelude.{
  ◌≡◌, refl, sym, subst, Bool, true, false, List, if◌then◌else◌, arith,
}
use openbao_authorizer.Prelude.Result.{Result, ok, err}
use openbao_authorizer.Store.Model.{StoreError}
use openbao_authorizer.Store.Rows.{Db}
use openbao_authorizer.Service.Model.{OpenBao, World, ServiceError, Event}
use openbao_authorizer.Service.Exec.{Exec, continue, handle, ◌>>=◌, on_error, writes, new_id, send}
use openbao_authorizer.Service.Exec.Inversion.{writes-ok, writes-err}
use openbao_authorizer.Service.Exec.Tables.{KeepsTables}

module _ (P : Db → Type 0) {bao : OpenBao} where
  abbrev pub Preserves : {A : Type 0} → Exec (World bao) A → Type 0
  Preserves m = (w : World bao) → P w.db → P (m w).1.db

  module _ {A B : Type 0} where
    continue-Preserves :
        (r : Result ServiceError A) (f : A → Exec (World bao) B) (w : World bao)
        → ((a : A) → Preserves (f a))
        → P w.db
        → P (continue r f w).1.db
    continue-Preserves (ok a) f w keeps p = keeps a w p
    continue-Preserves (err e) f w keeps p = p

    pub bind-Preserves :
        (m : Exec (World bao) A) (f : A → Exec (World bao) B)
        → Preserves m
        → ((a : A) → Preserves (f a))
        → Preserves (m >>= f)
    bind-Preserves m f h k w p = continue-Preserves (m w).0 f (m w).1 k (h w p)

  module _ {A : Type 0} where
    handle-Preserves :
        (r : Result ServiceError A) (f : ServiceError → Exec (World bao) A) (w : World bao)
        → ((e : ServiceError) → Preserves (f e))
        → P w.db
        → P (handle r f w).1.db
    handle-Preserves (ok a) f w keeps p = p
    handle-Preserves (err e) f w keeps p = keeps e w p

    pub on_error-Preserves :
        (m : Exec (World bao) A) (f : ServiceError → Exec (World bao) A)
        → Preserves m
        → ((e : ServiceError) → Preserves (f e))
        → Preserves (on_error m f)
    on_error-Preserves m f h k w p = handle-Preserves (m w).0 f (m w).1 k (h w p)

    pub if-Preserves :
        (b : Bool) (m n : Exec (World bao) A)
        → Preserves m
        → Preserves n
        → Preserves (if b then m else n)
    if-Preserves true m n h k = h
    if-Preserves false m n h k = k

    pub KeepsTables-Preserves : (m : Exec (World bao) A) → KeepsTables m → Preserves m
    KeepsTables-Preserves m keeps w p = subst P (sym (keeps w)) p

  pub writes-Preserves :
      (m : Db → Result StoreError Db)
      → ((db db' : Db) → P db → m db ≡ ok db' → P db')
      → Preserves (writes m)
  writes-Preserves m keeps w p = settled (writes m w) refl
    where
      settled : (x : Result ServiceError (Unit {0}) × World bao) → writes m w ≡ x → P x.1.db
      settled (ok tt, w') h = keeps w.db w'.db p (writes-ok m w h).0
      settled (err e, w') h = subst P (sym (writes-err m w h).0) p

  pub send-Preserves : (events : List Event) → Preserves (send events)
  send-Preserves events w p = p

pub new_id-KeepsTables : {bao : OpenBao} → KeepsTables {bao = bao} new_id
new_id-KeepsTables w = ground arith
