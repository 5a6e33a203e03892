-- ===== src/Policy/Risk.antt =====
-- apps/control-plane/src/core/policy.ts: the fixed table of action risk, the barred actions, and the
-- class of an action under the declarations of its adapter.
use sih26_proto.Common.{
  ℕ, String, string_eq, Bool, ◌||◌, Option, none, some, List, [], ◌∷◌, if◌then◌else◌, ◌==◌, any,
  ltb, codes, to_lower_case, has_text, dashes_to_spaces,
}
use sih26_proto.Policy.{ActionRiskClass, ActionCategory, TypedAction, safe, guarded, barred}
use Prim.Native.String.{◌++◌ as ◌^◌}

-- `RISK_TABLE.get(category)?.defaultClass`
unfoldable pub risk_table : ActionCategory → ActionRiskClass
risk_table ActionCategory.feature_flags = guarded
risk_table ActionCategory.infrastructure = guarded
risk_table ActionCategory.database_data = guarded
risk_table ActionCategory.credentials = guarded
risk_table ActionCategory.messages_payments = barred
risk_table ActionCategory.destructive = barred
risk_table _ = safe

abbrev pub barred_actions : List String
barred_actions =
    "delete-data" ∷ "destroy-unbacked-resource" ∷ "send-external-message" ∷ "refund-payment"
    ∷ "widen-access" ∷ "purge-queue" ∷ "drop-table" ∷ "force-delete" ∷ "delete-rows"
    ∷ "mutating-backfill" ∷ []

abbrev pub names_barred : TypedAction → String → Bool
names_barred action name =
    action.action_class == name
    || has_text (to_lower_case (codes action.command)) (dashes_to_spaces (codes name))

unfoldable pub is_barred_action : TypedAction → Bool
is_barred_action action = any (names_barred action) barred_actions

-- The place of a class in the order that the source writes out.
unfoldable pub risk_rank : ActionRiskClass → ℕ
risk_rank safe = 0
risk_rank guarded = 1
risk_rank barred = 2

-- `overrides.get(key)`, on the pairs of the map.
abbrev pub declared_class : List (String × ActionRiskClass) → String → Option ActionRiskClass
declared_class [] key = none
declared_class ((name, risk) ∷ rest) key =
    let found = declared_class rest key in if name == key then some risk else found

abbrev pub override_key : TypedAction → String
override_key action = action.adapter ^ (":" ^ action.action_class)

abbrev pub resolve_declared :
    TypedAction → ActionRiskClass → Option ActionRiskClass → ActionRiskClass
resolve_declared action table_class (some tightened) =
    if ltb (risk_rank table_class) (risk_rank tightened) then tightened else table_class
resolve_declared action table_class none = if is_barred_action action then barred else table_class

unfoldable pub resolve_action_risk_class :
    TypedAction → List (String × ActionRiskClass) → ActionRiskClass
unfolding risk_table
resolve_action_risk_class action overrides =
    resolve_declared action (risk_table action.category)
      (declared_class overrides (override_key action))
