-- ===== src/Share/Request/Levels.antt =====
-- The coarse levels against the permissions, and what a share at the level `view` lets through.
use proxora.Common.{
  List, Bool, true, false, not, none, some, ◌≡◌, refl, sym, ap, ◌∙◌, arith, Codes, ◌&&◌, codes_eq,
}
use proxora.Kind.{kind_name}
use proxora.Rbac.Catalog.{Permission}
use proxora.Rbac.Grants.{has_any_permission}
use proxora.Share.Levels.{tables}
use proxora.Share.{
  ShareLevel, view, control, create, share_allows, share_has_permission,
  effective_share_permissions,
}
use proxora.Share.Request.{
  Extra, call_of, federation_permission, federation_action_level, level_of, level_or_deny,
}
use proxora.Share.Request.Laws.{Outcomes, call_permission-outcomes}

same_answer : Bool → Bool → Bool
same_answer true b = b
same_answer false b = not b

same_answer-eq : (a b : Bool) → same_answer a b ≡ true → a ≡ b
unfolding same_answer
same_answer-eq a b h = ground arith

agrees_at : List Permission → ShareLevel → Bool
agrees_at needed granted =
    same_answer (share_has_permission granted none needed) (share_allows granted (level_of needed))

agrees : List Permission → Bool
agrees needed = agrees_at needed view && agrees_at needed control && agrees_at needed create

agrees_outcomes : Outcomes agrees
unfolding agrees agrees_at same_answer tables kind_name share_has_permission
    effective_share_permissions has_any_permission level_of
agrees_outcomes = (refl, refl, refl, refl, refl)

agrees_at-eq :
    (needed : List Permission) (granted : ShareLevel)
    → agrees needed ≡ true
    → agrees_at needed granted ≡ true
unfolding agrees
agrees_at-eq needed view h = ground arith
agrees_at-eq needed control h = ground arith
agrees_at-eq needed create h = ground arith

-- For every call that the proxy does not refuse at once, a share of each level without permissions of its
-- own passes the test on the needed permissions exactly if its level reaches the level of the call.
pub federation_action_level-agrees :
    (method path : Codes) (extra : Extra) (granted : ShareLevel) (needed : List Permission)
    → federation_permission method path extra ≡ some needed
    → share_has_permission granted none needed
      ≡ share_allows granted (federation_action_level method path extra)
unfolding federation_permission federation_action_level level_or_deny agrees_at
federation_action_level-agrees method path extra granted needed h =
    let law = call_permission-outcomes agrees (call_of method path extra) agrees_outcomes in
    let agreed : agrees needed ≡ true = rw h at law in
    let coarse : federation_action_level method path extra ≡ level_of needed = rw h refl in
    same_answer-eq _ _ (agrees_at-eq needed granted agreed) ∙ ap (share_allows granted) (sym coarse)
