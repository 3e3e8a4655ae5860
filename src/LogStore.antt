-- ===== src/LogStore.antt =====
-- `class LogStore` of `src/development/fancy_logger/src/fancy_logger/store.py`. A message has the fields
-- that the store reads, `none` for one that is missing or no text; texts are numbers, in their
-- order, and 0 is the empty text. The lock makes each method one step.
pub mod Order
mod Tests
use agentica_server.Base.{
  ℕ, zero, suc, ◌+◌, ◌-◌, Bool, true, false, ◌&&◌, ◌||◌, not, Option, none, some, List, [], ◌∷◌,
  ◌++◌, ◌==◌, leb, if◌then◌else◌, length, drop, Dict, get, has, put, keys,
}

-- `inner_type` is what `get_inner_type` finds in the body.
pub record Message : Type 0 where
  pub type : Option ℕ
  pub inner_type : Option ℕ
  pub uid : Option ℕ
  pub iid : Option ℕ
  pub timestamp : Option ℕ

pub record LogStore : Type 0 where
  pub messages : List Message
  pub types : List ℕ
  pub uid_first_index : Dict ℕ
  pub uid_to_iid_first_index : Dict (Dict ℕ)
  pub version : ℕ

unfoldable pub init : LogStore
init = record {
  messages = [];
  types = [];
  uid_first_index = [];
  uid_to_iid_first_index = [];
  version = 0;
}

abbrev pub is_in : ℕ → List ℕ → Bool
is_in x [] = false
is_in x (y ∷ ys) = let rest = is_in x ys in if y == x then true else rest

-- self._types.add(msg_type)
unfoldable pub add_type : Option ℕ → List ℕ → List ℕ
add_type none ts = ts
add_type (some t) ts = if is_in t ts then ts else ts ++ t ∷ []

-- if key not in index: index[key] = idx
unfoldable pub first_index : ℕ → ℕ → Dict ℕ → Dict ℕ
first_index key idx d = if has key d then d else put key idx d

abbrev pub or_empty : Option (Dict ℕ) → Dict ℕ
or_empty none = []
or_empty (some d) = d

unfoldable pub index_iid : ℕ → Option ℕ → ℕ → Dict (Dict ℕ) → Dict (Dict ℕ)
unfolding first_index
index_iid uid none idx d = d
index_iid uid (some iid) idx d = put uid (first_index iid idx (or_empty (get uid d))) d

unfoldable pub index_uid : Option ℕ → Option ℕ → ℕ → LogStore → LogStore
unfolding first_index index_iid
index_uid none iid idx s = s
index_uid (some uid) iid idx s = record s {
  uid_first_index = first_index uid idx s.uid_first_index;
  uid_to_iid_first_index = index_iid uid iid idx s.uid_to_iid_first_index;
}

unfoldable pub add : Message → LogStore → LogStore
unfolding index_uid add_type
add m s = index_uid m.uid m.iid (length s.messages) (record s {
  messages = s.messages ++ m ∷ [];
  types = add_type m.type s.types;
  version = suc s.version;
})

-- sorted(..., key=...), which keeps the order of equal keys.
module _ {A : Type 0} (key : A → ℕ) where
  unfoldable pub insert : A → List A → List A
  insert x [] = x ∷ []
  insert x (y ∷ ys) = let rest = insert x ys in if leb (key x) (key y) then x ∷ y ∷ ys else y ∷ rest

  unfoldable pub sorted : List A → List A
  unfolding insert
  sorted [] = []
  sorted (x ∷ xs) = insert x (sorted xs)

unfoldable pub by_index : Dict ℕ → List ℕ
unfolding sorted
by_index d = keys (sorted (λ (e : ℕ × ℕ). e.1) d)

unfoldable pub all_types : LogStore → List ℕ
unfolding sorted
all_types s = sorted (λ (t : ℕ). t) s.types

unfoldable pub uids : LogStore → List ℕ
unfolding by_index
uids s = by_index s.uid_first_index

unfoldable pub iids : ℕ → LogStore → List ℕ
unfolding by_index
iids uid s = by_index (or_empty (get uid s.uid_to_iid_first_index))

unfoldable pub clear : LogStore → LogStore
clear s = record s {
  messages = [];
  types = [];
  uid_first_index = [];
  uid_to_iid_first_index = [];
  version = suc s.version;
}

unfoldable pub keep : (Message → Bool) → List Message → List Message
keep p [] = []
keep p (m ∷ ms) = let rest = keep p ms in if p m then m ∷ rest else rest

unfoldable pub is_among : Option ℕ → List ℕ → Bool
is_among none ts = false
is_among (some t) ts = is_in t ts

-- Whether a field is the text that is asked for; no text asks for nothing.
unfoldable pub is_asked : Option ℕ → Option ℕ → Bool
is_asked none field = true
is_asked (some zero) field = true
is_asked (some (suc n)) none = false
is_asked (some (suc n)) (some t) = t == suc n

unfoldable pub is_included : List ℕ → Message → Bool
unfolding is_among
is_included [] m = true
is_included (t ∷ ts) m = is_among m.type (t ∷ ts) || is_among m.inner_type (t ∷ ts)

unfoldable pub is_kept : List ℕ → Message → Bool
unfolding is_among
is_kept [] m = true
is_kept (t ∷ ts) m = not (is_among m.type (t ∷ ts)) && not (is_among m.inner_type (t ∷ ts))

-- out[-limit:], where no limit stands for a negative one too.
unfoldable pub last_results : Option ℕ → List Message → List Message
last_results none out = out
last_results (some zero) out = out
last_results (some (suc n)) out = drop (length out - suc n) out

abbrev pub timestamp_or_empty : Message → ℕ
timestamp_or_empty m = elim m.timestamp [ none ↦ 0 | some t ↦ t ]

unfoldable pub query :
    Option ℕ → Option ℕ → Option ℕ → List ℕ → List ℕ → Option ℕ → LogStore → List Message
unfolding keep is_asked is_included is_kept sorted last_results
query msg_type uid iid include exclude limit s =
    let results =
      keep (λ m. is_asked iid m.iid)
        (keep (λ m. is_asked uid m.uid)
          (keep (is_kept exclude)
            (keep (is_included include) (keep (λ m. is_asked msg_type m.type) s.messages)))) in
    last_results limit (sorted timestamp_or_empty results)
