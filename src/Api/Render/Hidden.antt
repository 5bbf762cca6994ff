-- ===== src/Api/Render/Hidden.antt =====
-- What a Requester is not told.
use openbao_authorizer.Prelude.{ℕ, ◌≡◌, refl, ap, false, none, List, [], ◌∷◌, map}
use openbao_authorizer.Store.Model.{RequesterDisplay, Item, GrantRequest, Grant}
use openbao_authorizer.Api.Render.{item_proto, request_proto, grant_proto, grants_proto}

-- An item without who decided it, when, and the Grant that it led to.
abbrev pub undecided : Item → Item
undecided item = record item {
  decided_at = 0;
  decided_by = record { entity_id = []; name = [] };
  grant_id = [];
}

abbrev pub no_display : RequesterDisplay
no_display = record { id = []; title = []; directory = []; rule = [] }

-- A request without what only Approvers are shown.
abbrev pub stripped : GrantRequest → GrantRequest
stripped r = record r { entity_id = []; requester = no_display; items = map undecided r.items }

abbrev pub stripped_grant : Grant → Grant
stripped_grant g = record g {
  request_id = [];
  entity_id = [];
  requester = no_display;
  approved_by = [];
  revoked_at = 0;
  revoked_by = [];
}

items-undecided :
    (pending_until : ℕ) (items : List Item)
    → map (item_proto pending_until false) items
      ≡ map (item_proto pending_until false) (map undecided items)
unfolding item_proto
items-undecided pending_until [] = refl
items-undecided pending_until (item ∷ items) =
    ap (λ l. item_proto pending_until false item ∷ l) (items-undecided pending_until items)

grants-stripped :
    (grants : List Grant)
    → grants_proto grants false ≡ grants_proto (map stripped_grant grants) false
unfolding grants_proto grant_proto
grants-stripped [] = refl
grants-stripped (g ∷ grants) = ap (λ l. grant_proto false g ∷ l) (grants-stripped grants)

-- What a Requester is sent of a request, and of Grants, is the same whoever the Requester is,
-- whatever is displayed of them, and whoever decided the items and when, and revoked the Grants
-- and when.
pub request_proto-stripped :
    (r : GrantRequest) (grants : List Grant)
    → (request_proto r false ≡ request_proto (stripped r) false)
      × (grants_proto grants false ≡ grants_proto (map stripped_grant grants) false)
unfolding request_proto
request_proto-stripped r grants = (
  ap
      (λ l. record {
        id = r.id;
        reason = r.reason;
        created_at = r.created_at;
        requester = none;
        items = l;
      })
      (items-undecided r.pending_until r.items),
  grants-stripped grants,
)
