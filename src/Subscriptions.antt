-- ===== src/Subscriptions.antt =====
-- `C5StoreSubscriptions` of c5store_rust/src/internal.rs. A listener is known by what stands for it in
-- the type `L`; that it is called is recorded as a value, since its body is the client's.
use c5store.Base.{none, some, List, [], ◌∷◌}
use c5store.Text.{Str}
use c5store.Value.{C5DataValue}
use c5store.Crates.ListMultiMap.{ListMultiMap}

-- `change_listener(notify_key_path, key_path, value)`
pub record Call (L : Type 0) : Type 0 where
  pub listener : L
  pub notify_key_path : Str
  pub key_path : Str
  pub value : C5DataValue

module _ {L : Type 0} where
  unfoldable pub call_all : Str → Str → C5DataValue → List L → List (Call L)
  call_all notify_key_path key_path value [] = []
  call_all notify_key_path key_path value (l ∷ ls) =
      record { listener = l; notify_key_path = notify_key_path; key_path = key_path; value = value }
      ∷ call_all notify_key_path key_path value ls

module _ {L : Type 0} (m : ListMultiMap L) where
  unfoldable pub add : m.Map → Str → L → m.Map
  add change_listeners key_path listener = m.insert key_path listener change_listeners

  unfoldable pub notify_value_change : m.Map → Str → Str → C5DataValue → List (Call L)
  unfolding call_all
  notify_value_change change_listeners notify_key_path key_path value =
      elim (m.get_vec notify_key_path change_listeners) [
        | none ↦ []
        | some listeners ↦ call_all notify_key_path key_path value listeners
      ]
