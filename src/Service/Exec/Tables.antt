-- ===== src/Service/Exec/Tables.antt =====
-- Actions that leave the tables of the database alone, whether they succeed or fail.
use openbao_authorizer.Prelude.{◌≡◌, refl, sym, ap, ◌∙◌, if◌then◌else◌, arith, Bool, true, false}
use openbao_authorizer.Prelude.Result.{Result, ok, err}
use openbao_authorizer.Store.Model.{StoreError}
use openbao_authorizer.Store.Rows.{Db}
use openbao_authorizer.Service.Model.{OpenBao, World, BaoError, ServiceError}
use openbao_authorizer.Service.Exec.{Exec, continue, handle, pure, ◌>>=◌, on_error, reads, calls}

module _ {bao : OpenBao} where
  abbrev pub KeepsTables : {A : Type 0} → Exec (World bao) A → Type 0
  KeepsTables m = (w : World bao) → (m w).1.db ≡ w.db

  module _ {A B : Type 0} where
    continue-KeepsTables :
        (r : Result ServiceError A) (f : A → Exec (World bao) B) (w : World bao)
        → ((a : A) → KeepsTables (f a))
        → (continue r f w).1.db ≡ w.db
    continue-KeepsTables (ok a) f w h = h a w
    continue-KeepsTables (err e) f w h = refl

    pub bind-KeepsTables :
        (m : Exec (World bao) A) (f : A → Exec (World bao) B)
        → KeepsTables m
        → ((a : A) → KeepsTables (f a))
        → KeepsTables (m >>= f)
    bind-KeepsTables m f h k w = continue-KeepsTables (m w).0 f (m w).1 k ∙ h w

  module _ {A : Type 0} where
    handle-KeepsTables :
        (r : Result ServiceError A) (f : ServiceError → Exec (World bao) A) (w : World bao)
        → ((e : ServiceError) → KeepsTables (f e))
        → (handle r f w).1.db ≡ w.db
    handle-KeepsTables (ok a) f w h = refl
    handle-KeepsTables (err e) f w h = h e w

    pub on_error-KeepsTables :
        (m : Exec (World bao) A) (f : ServiceError → Exec (World bao) A)
        → KeepsTables m
        → ((e : ServiceError) → KeepsTables (f e))
        → KeepsTables (on_error m f)
    on_error-KeepsTables m f h k w = handle-KeepsTables (m w).0 f (m w).1 k ∙ h w

    pub if-KeepsTables :
        (b : Bool) (m n : Exec (World bao) A)
        → KeepsTables m
        → KeepsTables n
        → KeepsTables (if b then m else n)
    if-KeepsTables true m n h k = h
    if-KeepsTables false m n h k = k

    pub pure-KeepsTables : (a : A) → KeepsTables (pure {W = World bao} a)
    pure-KeepsTables a w = refl

    pub reads-KeepsTables : (m : Db → Result StoreError A) → KeepsTables (reads m)
    reads-KeepsTables m w = ground arith

    pub calls-KeepsTables : (m : bao.State → Result BaoError A × bao.State) → KeepsTables (calls m)
    calls-KeepsTables m w = refl

    pub KeepsTables-outcome :
        (m : Exec (World bao) A) (w : World bao) {r : Result ServiceError A} {w' : World bao}
        → KeepsTables m
        → m w ≡ (r, w')
        → w'.db ≡ w.db
    KeepsTables-outcome m w keeps h =
        ap (λ (x : Result ServiceError A × World bao). x.1.db) (sym h) ∙ keeps w
