-- ===== src/Messages/Holder.antt =====
-- `src/messages/holder.py`: the log of each key, bounded in keys and in messages. Messages `M` and
-- listeners are values; a listener's call is an entry of the list that `add` returns, in the order
-- of the calls. Keys are only compared.
pub mod Bounded
pub mod Bounds
pub mod Invariant
pub mod History
pub mod Eviction
pub mod Tests
pub use Bounded.{append_max}
unfoldable pub use Bounded.{set_item, get_item, adjust, update}
use agentica_server.Base.{
  ℕ, Bool, true, false, Option, none, some, List, [], ◌∷◌, ◌++◌, map, if◌then◌else◌, Dict, get,
  erase, keys, values,
}

abbrev pub max_keys : ℕ
max_keys = 256

abbrev pub max_messages : ℕ
max_messages = 1024

abbrev pub max_listeners : ℕ
max_listeners = 128

-- `L` is the type of the callbacks.
pub record Holder (M L : Type 0) : Type 0 where
  pub messages : Dict (List M)
  pub listeners : Dict (List L)
  pub global_listeners : List L

module _ {M : Type 0} where
  -- (m for m in messages if filter_fn(m))
  unfoldable pub select : Option (M → Bool) → List M → List M
  select none ms = ms
  select (some p) [] = []
  select (some p) (m ∷ ms) = let rest = select (some p) ms in if p m then m ∷ rest else rest

  unfoldable pub flatten : List (List M) → List M
  flatten [] = []
  flatten (ms ∷ rest) = ms ++ flatten rest

module _ {M L : Type 0} where
  abbrev pub init : Holder M L
  init = record { messages = []; listeners = []; global_listeners = [] }

  -- self._listeners[key].append(listener)
  unfoldable pub add_listener : ℕ → L → Holder M L → Holder M L
  add_listener key listener h =
      let (_, d) = get_item max_keys [] key h.listeners in
      record h { listeners = adjust key (append_max max_listeners listener) d }

  unfoldable pub add_global_listener : L → Holder M L → Holder M L
  add_global_listener listener h = record h {
    global_listeners = append_max max_listeners listener h.global_listeners;
  }

  -- The calls of the key's listeners, then of the global ones, then the write.
  unfoldable pub add : ℕ → M → Holder M L → List (L × M) × Holder M L
  add key message h =
      let (own, listeners) = get_item max_keys [] key h.listeners in
      let (_, messages) = get_item max_keys [] key h.messages in
      (
        map (λ l. (l, message)) own ++ map (λ l. (l, message)) h.global_listeners,
        record h {
          listeners = listeners;
          messages = adjust key (append_max max_messages message) messages;
        },
      )

  -- Reading a missing key writes it.
  unfoldable pub get_by_key : ℕ → Option (M → Bool) → Holder M L → List M × Holder M L
  get_by_key key filter_fn h =
      let (ms, messages) = get_item max_keys [] key h.messages in
      (select filter_fn ms, record h { messages = messages })

  unfoldable pub get_all : Option (M → Bool) → Holder M L → List M
  unfolding flatten
  get_all filter_fn h = select filter_fn (flatten (values h.messages))

  unfoldable pub get_all_keys : Holder M L → List ℕ
  get_all_keys h = keys h.messages

  -- `J` is the type of the JSON forms, `to_json` the holder's encoder.
  unfoldable pub get_json_by_key :
      {J : Type 0} → (M → J) → ℕ → Option (M → Bool) → Holder M L → List J × Holder M L
  get_json_by_key to_json key filter_fn h =
      let (ms, h') = get_by_key key filter_fn h in (map to_json ms, h')

  unfoldable pub get_json_all : {J : Type 0} → (M → J) → Option (M → Bool) → Holder M L → List J
  get_json_all to_json filter_fn h = map to_json (get_all filter_fn h)

  unfoldable pub remove_key : ℕ → Holder M L → Holder M L
  remove_key key h = record h { messages = erase key h.messages; listeners = erase key h.listeners }
