-- ===== src/Push/Deliver/Requests.antt =====
-- A whole call of `NewRequest`.
use openbao_authorizer.Prelude.Result.{Result}
