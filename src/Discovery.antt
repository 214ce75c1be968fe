-- ===== src/Discovery.antt =====
-- src/services/database.ts, `rememberKnownDatabaseAddressesFromRecords`: the walk through records
-- for addresses of other databases.
mod Tests
pub mod Laws
use orbitdb_relay.Prelude.{
  ℕ, suc, Text, codes, Option, none, some, List, [], ◌∷◌, if◌then◌else◌, ltb,
}
use orbitdb_relay.Prelude.TextSet.{TextSet}
use orbitdb_relay.Addresses.{remember_known_database_address}
use orbitdb_relay.Values.{
  Value, undefined, null, bool, num, str, arr, obj, Items, nil, cons, Fields, end, field, member,
  coalesce,
}

unfoldable mutual
  pub visit : ℕ → Value → TextSet → TextSet
  visit depth (str s) known =
      if ltb 4 depth then known else remember_known_database_address (some s) known
  visit depth (arr xs) known = if ltb 4 depth then known else visit_items (suc depth) xs known
  visit depth (obj fs) known = if ltb 4 depth then known else visit_fields (suc depth) fs known
  visit depth _ known = known

  pub visit_items : ℕ → Items → TextSet → TextSet
  visit_items depth nil known = known
  visit_items depth (cons v vs) known = visit_items depth vs (visit depth v known)

  pub visit_fields : ℕ → Fields → TextSet → TextSet
  visit_fields depth end known = known
  visit_fields depth (field k v fs) known = visit_fields depth fs (visit depth v known)

unfoldable pub remember_known_database_addresses_from_records : List Value → TextSet → TextSet
remember_known_database_addresses_from_records [] known = known
remember_known_database_addresses_from_records (r ∷ rs) known =
    remember_known_database_addresses_from_records rs
      (visit 0 (coalesce (member (codes "value") r) r) known)
