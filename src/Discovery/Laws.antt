-- ===== src/Discovery/Laws.antt =====
-- Theorems about the walk through records of src/services/database.ts,
-- `rememberKnownDatabaseAddressesFromRecords`.
use orbitdb_relay.Prelude.{
  ℕ, zero, suc, ◌+◌, ◌<◌, Text, codes, text_eq, text_eq_iff, text_eq_refl, true, some, List, [],
  ◌∷◌, ◌≡◌, ◌↔◌, ◌⊎◌, inl, inr, refl, arith, starts_with, Bool-cases,
}
use orbitdb_relay.Prelude.TextSet
use orbitdb_relay.Prelude.TextSet.{TextSet}
use orbitdb_relay.Addresses.{remember_known_database_address, orbitdb_prefix}
use orbitdb_relay.Addresses.Laws.{IsDatabaseAddress}
use orbitdb_relay.Values.{
  Value, str, arr, obj, Items, nil, cons, Fields, end, field, member, coalesce,
}
use orbitdb_relay.Discovery.{
  visit, visit_items, visit_fields, remember_known_database_addresses_from_records,
}

mutual
  -- The text occurs in the value, at most so many levels down.
  pub data Holds (a : Text) : ℕ → Value → Type 0 where
    here : {n : ℕ} → Holds a n (str a)
    in_array : {n : ℕ} {xs : Items} → HoldsItem a n xs → Holds a (suc n) (arr xs)
    in_object : {n : ℕ} {fs : Fields} → HoldsField a n fs → Holds a (suc n) (obj fs)

  pub data HoldsItem (a : Text) : ℕ → Items → Type 0 where
    first : {n : ℕ} {v : Value} {vs : Items} → Holds a n v → HoldsItem a n (cons v vs)
    later : {n : ℕ} {v : Value} {vs : Items} → HoldsItem a n vs → HoldsItem a n (cons v vs)

  pub data HoldsField (a : Text) : ℕ → Fields → Type 0 where
    first_field :
        {n : ℕ} {k : Text} {v : Value} {fs : Fields} → Holds a n v → HoldsField a n (field k v fs)
    later_field :
        {n : ℕ} {k : Text} {v : Value} {fs : Fields}
        → HoldsField a n fs
        → HoldsField a n (field k v fs)

mutual
  unfolding visit

  visit_deep : (v : Value) (depth : ℕ) (known : TextSet) → 4 < depth → visit depth v known ≡ known
  visit_deep (str s) depth known h = ground arith
  visit_deep (arr xs) depth known h = ground arith
  visit_deep (obj fs) depth known h = ground arith
  visit_deep _ depth known h = refl

  visit_items_deep :
      (vs : Items) (depth : ℕ) (known : TextSet) → 4 < depth → visit_items depth vs known ≡ known
  visit_items_deep nil depth known h = refl
  visit_items_deep (cons v vs) depth known h =
      rw (visit_deep v depth known h) (visit_items_deep vs depth known h)

  visit_fields_deep :
      (fs : Fields) (depth : ℕ) (known : TextSet) → 4 < depth → visit_fields depth fs known ≡ known
  visit_fields_deep end depth known h = refl
  visit_fields_deep (field k v fs) depth known h =
      rw (visit_deep v depth known h) (visit_fields_deep fs depth known h)

module _ (a : Text) where
  abbrev pub Added : Type 0 → TextSet → Type 0
  Added P known = (TextSet.has a known ≡ true) ⊎ (IsDatabaseAddress a × P)

  remember_sound :
      (s : Text) (known : TextSet)
      → TextSet.has a (remember_known_database_address (some s) known) ≡ true
      → (TextSet.has a known ≡ true) ⊎ ((s ≡ a) × IsDatabaseAddress s)
  unfolding remember_known_database_address
  remember_sound s known h = elim (Bool-cases (starts_with s orbitdb_prefix)) [
    | inl hit ↦ elim (Bool-cases (text_eq s a)) [
      | inl same ↦ inr ((text_eq_iff s a).0 same, hit)
      | inr other ↦ inl (ground (arith, TextSet.has-add a s known))
    ]
    | inr miss ↦ inl (ground arith)
  ]

  remember_kept :
      (s : Text) (known : TextSet)
      → TextSet.has a known ≡ true
      → TextSet.has a (remember_known_database_address (some s) known) ≡ true
  unfolding remember_known_database_address
  remember_kept s known h = ground (arith, TextSet.has-add a s known)

  mutual
    unfolding visit

    visit_sound :
        (v : Value) (n depth : ℕ) (known : TextSet)
        → n + depth ≡ 4
        → TextSet.has a (visit depth v known) ≡ true
        → Added (Holds a n v) known
    visit_sound (str s) n depth known e h = elim (remember_sound s known (ground arith)) [
      | inl old ↦ inl old
      | inr (same, db) ↦ inr (rw same at db, rw same here)
    ]
    visit_sound (arr xs) zero depth known e h =
        inl (ground (arith, visit_items_deep xs (suc depth) known))
    visit_sound (arr xs) (suc n) depth known e h =
        elim (visit_items_sound xs n (suc depth) known (omega arith) (ground arith)) [
          | inl old ↦ inl old
          | inr (db, p) ↦ inr (db, in_array p)
        ]
    visit_sound (obj fs) zero depth known e h =
        inl (ground (arith, visit_fields_deep fs (suc depth) known))
    visit_sound (obj fs) (suc n) depth known e h =
        elim (visit_fields_sound fs n (suc depth) known (omega arith) (ground arith)) [
          | inl old ↦ inl old
          | inr (db, p) ↦ inr (db, in_object p)
        ]
    visit_sound _ n depth known e h = inl h

    visit_items_sound :
        (vs : Items) (n depth : ℕ) (known : TextSet)
        → n + depth ≡ 4
        → TextSet.has a (visit_items depth vs known) ≡ true
        → Added (HoldsItem a n vs) known
    visit_items_sound nil n depth known e h = inl h
    visit_items_sound (cons v vs) n depth known e h =
        elim (visit_items_sound vs n depth (visit depth v known) e h) [
          | inl before ↦ elim (visit_sound v n depth known e before) [
            | inl old ↦ inl old
            | inr (db, p) ↦ inr (db, first p)
          ]
          | inr (db, p) ↦ inr (db, later p)
        ]

    visit_fields_sound :
        (fs : Fields) (n depth : ℕ) (known : TextSet)
        → n + depth ≡ 4
        → TextSet.has a (visit_fields depth fs known) ≡ true
        → Added (HoldsField a n fs) known
    visit_fields_sound end n depth known e h = inl h
    visit_fields_sound (field k v fs) n depth known e h =
        elim (visit_fields_sound fs n depth (visit depth v known) e h) [
          | inl before ↦ elim (visit_sound v n depth known e before) [
            | inl old ↦ inl old
            | inr (db, p) ↦ inr (db, first_field p)
          ]
          | inr (db, p) ↦ inr (db, later_field p)
        ]

  mutual
    unfolding visit

    visit_kept :
        (v : Value) (depth : ℕ) (known : TextSet)
        → TextSet.has a known ≡ true
        → TextSet.has a (visit depth v known) ≡ true
    visit_kept (str s) depth known h = ground (arith, remember_kept s known h)
    visit_kept (arr xs) depth known h = ground (arith, visit_items_kept xs (suc depth) known h)
    visit_kept (obj fs) depth known h = ground (arith, visit_fields_kept fs (suc depth) known h)
    visit_kept _ depth known h = h

    visit_items_kept :
        (vs : Items) (depth : ℕ) (known : TextSet)
        → TextSet.has a known ≡ true
        → TextSet.has a (visit_items depth vs known) ≡ true
    visit_items_kept nil depth known h = h
    visit_items_kept (cons v vs) depth known h =
        visit_items_kept vs depth (visit depth v known) (visit_kept v depth known h)

    visit_fields_kept :
        (fs : Fields) (depth : ℕ) (known : TextSet)
        → TextSet.has a known ≡ true
        → TextSet.has a (visit_fields depth fs known) ≡ true
    visit_fields_kept end depth known h = h
    visit_fields_kept (field k v fs) depth known h =
        visit_fields_kept fs depth (visit depth v known) (visit_kept v depth known h)

  module _ (db : IsDatabaseAddress a) where
    remember_complete :
        (known : TextSet) → TextSet.has a (remember_known_database_address (some a) known) ≡ true
    unfolding remember_known_database_address
    remember_complete known = ground (arith, TextSet.has-add a a known, text_eq_refl a)

    mutual
      unfolding visit

      visit_complete :
          {n : ℕ} {v : Value}
          → Holds a n v
          → (depth : ℕ) (known : TextSet) → n + depth ≡ 4
          → TextSet.has a (visit depth v known) ≡ true
      visit_complete here depth known e = ground (arith, remember_complete known)
      visit_complete (in_array p) depth known e =
          ground (arith, visit_items_complete p (suc depth) known)
      visit_complete (in_object p) depth known e =
          ground (arith, visit_fields_complete p (suc depth) known)

      visit_items_complete :
          {n : ℕ} {vs : Items}
          → HoldsItem a n vs
          → (depth : ℕ) (known : TextSet) → n + depth ≡ 4
          → TextSet.has a (visit_items depth vs known) ≡ true
      visit_items_complete (first {vs} p) depth known e =
          visit_items_kept vs depth _ (visit_complete p depth known e)
      visit_items_complete (later p) depth known e = visit_items_complete p depth _ e

      visit_fields_complete :
          {n : ℕ} {fs : Fields}
          → HoldsField a n fs
          → (depth : ℕ) (known : TextSet) → n + depth ≡ 4
          → TextSet.has a (visit_fields depth fs known) ≡ true
      visit_fields_complete (first_field {fs} p) depth known e =
          visit_fields_kept fs depth _ (visit_complete p depth known e)
      visit_fields_complete (later_field p) depth known e = visit_fields_complete p depth _ e

  -- Some record holds the text at most four levels down.
  abbrev pub Held : List Value → Type 0
  Held [] = ⊥
  Held (r ∷ rs) = Holds a 4 (coalesce (member (codes "value") r) r) ⊎ Held rs

  records_sound :
      (rs : List Value) (known : TextSet)
      → TextSet.has a (remember_known_database_addresses_from_records rs known) ≡ true
      → Added (Held rs) known
  unfolding remember_known_database_addresses_from_records
  records_sound [] known h = inl h
  records_sound (r ∷ rs) known h = elim (records_sound rs _ h) [
    | inl before ↦
        elim (visit_sound (coalesce (member (codes "value") r) r) 4 0 known (omega arith) before) [
          | inl old ↦ inl old
          | inr (db, p) ↦ inr (db, inl p)
        ]
    | inr (db, p) ↦ inr (db, inr p)
  ]

  records_kept :
      (rs : List Value) (known : TextSet)
      → TextSet.has a known ≡ true
      → TextSet.has a (remember_known_database_addresses_from_records rs known) ≡ true
  unfolding remember_known_database_addresses_from_records
  records_kept [] known h = h
  records_kept (r ∷ rs) known h =
      records_kept rs _ (visit_kept (coalesce (member (codes "value") r) r) 0 known h)

  records_complete :
      (rs : List Value) (known : TextSet)
      → IsDatabaseAddress a
      → Held rs
      → TextSet.has a (remember_known_database_addresses_from_records rs known) ≡ true
  unfolding remember_known_database_addresses_from_records
  records_complete [] known db p = absurd p
  records_complete (r ∷ rs) known db (inl p) =
      records_kept rs _ (visit_complete db p 0 known (omega arith))
  records_complete (r ∷ rs) known db (inr p) = records_complete rs _ db p

  -- After the walk through a batch of records the relay knows exactly the addresses that it knew
  -- before and the /orbitdb/ addresses that stand in some record of the batch, in arrays and
  -- objects at most four levels deep.
  pub remember_records_iff :
      (records : List Value) (known : TextSet)
      → (TextSet.has a (remember_known_database_addresses_from_records records known) ≡ true)
        ↔ Added (Held records) known
  remember_records_iff records known = (
    records_sound records known,
    λ s. elim s [
      | inl old ↦ records_kept records known old
      | inr (db, p) ↦ records_complete records known db p
    ],
  )
