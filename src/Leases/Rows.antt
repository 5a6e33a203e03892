-- ===== src/Leases/Rows.antt =====
-- apps/control-plane/src/store/store.ts: the statements on the tables of leases and permits. An
-- `update … where` changes each row that passes; `insert` of a key that is there is refused.
use sih26_proto.Common.{
  ℕ, String, string_eq, option_eq, Bool, true, false, not, ◌&&◌, Option, none, some, List, [], ◌∷◌,
  ◌++◌, if◌then◌else◌, is_some, ◌==◌, any, find, filter, ltb, leb, length, nat_eq,
}
use sih26_proto.Leases.{LeaseRow, LeaseKind, PermitRow, Store, has_lease_id, has_permit_id}

abbrev pub update_where {ℓ} : {A : Type ℓ} → (A → Bool) → (A → A) → List A → List A
update_where p f [] = []
update_where p f (x ∷ xs) = let rest = update_where p f xs in if p x then f x ∷ rest else x ∷ rest

unfoldable pub insert_lease : Store → LeaseRow → Option Store
insert_lease store lease =
    if any (has_lease_id lease.lease_id) store.leases
    then none
    else some (record store { leases = store.leases ++ lease ∷ [] })

unfoldable pub get_lease : Store → String → Option LeaseRow
get_lease store id = find (has_lease_id id) store.leases

abbrev pub is_renewable : String → ℕ → LeaseRow → Bool
is_renewable id db_now lease =
    has_lease_id id lease && not (is_some lease.revoked_at) && ltb db_now lease.expires_at

abbrev pub with_expiry : ℕ → LeaseRow → LeaseRow
with_expiry expires_at lease = record lease { expires_at = expires_at }

unfoldable pub renew_lease : Store → String → (expires_at db_now : ℕ) → Store × Bool
renew_lease store id expires_at db_now = (
  record store {
    leases = update_where (is_renewable id db_now) (with_expiry expires_at) store.leases;
  },
  length (filter (is_renewable id db_now) store.leases) == 1,
)

abbrev pub is_revocable : (LeaseRow → Bool) → LeaseRow → Bool
is_revocable p lease = p lease && not (is_some lease.revoked_at)

abbrev pub revoke_lease_row : ℕ → LeaseRow → LeaseRow
revoke_lease_row at_ lease = record lease { revoked_at = some at_ }

abbrev pub revoke_leases_where : Store → (LeaseRow → Bool) → ℕ → Store
revoke_leases_where store p at_ = record store {
  leases = update_where (is_revocable p) (revoke_lease_row at_) store.leases;
}

abbrev pub is_release : LeaseKind → Bool
is_release LeaseKind.release = true
is_release LeaseKind.run = false

abbrev pub is_of_run : (incident_id run_id : String) → LeaseRow → Bool
is_of_run incident_id run_id lease = lease.incident_id == incident_id && lease.run_id == some run_id

unfoldable pub revoke_lease : Store → String → (db_now : ℕ) → Store
revoke_lease store id db_now = revoke_leases_where store (has_lease_id id) db_now

unfoldable pub revoke_run_leases : Store → (incident_id run_id : String) → (db_now : ℕ) → Store
revoke_run_leases store incident_id run_id db_now =
    revoke_leases_where store (is_of_run incident_id run_id) db_now

unfoldable pub revoke_release_leases : Store → (incident_id : String) → (db_now : ℕ) → Store
revoke_release_leases store incident_id db_now =
    revoke_leases_where store (λ lease. lease.incident_id == incident_id && is_release lease.kind)
      db_now

unfoldable pub mark_expired_leases : Store → (now : ℕ) → Store
mark_expired_leases store now = revoke_leases_where store (λ lease. leb lease.expires_at now) now

unfoldable pub insert_permit : Store → PermitRow → Option Store
insert_permit store permit =
    if any (has_permit_id permit.permit_id) store.permits
    then none
    else some (record store { permits = store.permits ++ permit ∷ [] })

unfoldable pub get_permit : Store → String → Option PermitRow
get_permit store id = find (has_permit_id id) store.permits

abbrev pub is_consumable : ℕ → PermitRow → Bool
is_consumable now permit =
    not (is_some permit.consumed_at) && not (is_some permit.revoked_at) && ltb now permit.expires_at

abbrev pub consume_row : ℕ → PermitRow → PermitRow
consume_row now permit = record permit { consumed_at = some now }

-- The row with the key, where it may be consumed.
abbrev pub consumed_row : ℕ → Option PermitRow → Option PermitRow
consumed_row now none = none
consumed_row now (some permit) =
    if is_consumable now permit then some (consume_row now permit) else none

unfoldable pub consume_permit_row : Store → String → (now : ℕ) → Store × Option PermitRow
consume_permit_row store id now = (
  record store {
    permits =
        update_where (λ permit. has_permit_id id permit && is_consumable now permit)
          (consume_row now) store.permits;
  },
  consumed_row now (find (has_permit_id id) store.permits),
)

abbrev pub is_revocable_permit : (incident_id run_id : String) → PermitRow → Bool
is_revocable_permit incident_id run_id permit =
    permit.incident_id == incident_id
    && permit.run_id == run_id
    && not (is_some permit.consumed_at)
    && not (is_some permit.revoked_at)

unfoldable pub revoke_permits : Store → (incident_id run_id : String) → (db_now : ℕ) → Store
revoke_permits store incident_id run_id db_now = record store {
  permits =
      update_where (is_revocable_permit incident_id run_id)
        (λ permit. record permit { revoked_at = some db_now }) store.permits;
}
