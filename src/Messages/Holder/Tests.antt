-- ===== src/Messages/Holder/Tests.antt =====
-- The holder of `src/messages/holder.py` on small inputs: tests, and the theorems at work.
use agentica_server.Base.{
  ℕ, zero, suc, ◌≤◌, false, Dict, has, IsUnique, ◌≡◌, refl, none, some, List, [], ◌∷◌, ◌++◌, arith,
  leb, length, get,
}
use agentica_server.Messages.Holder.{
  Holder, init, max_keys, add, add_listener, add_global_listener, get_by_key, select,
}
use agentica_server.Messages.Holder.Bounded.{append_max, set_item, last_n}
use agentica_server.Messages.Holder.Invariant.{
  IsBounded, IsBounded-init, Op, listen, record_message, read, forget, run_ops, run_ops-IsBounded,
}
use agentica_server.Messages.Holder.History.{or_empty, remember_all, add_all, get_by_key-add_all}
use agentica_server.Messages.Holder.Eviction.{get_by_key-evicts}

append_test : append_max {A = ℕ} 2 7 (5 ∷ 6 ∷ []) ≡ 6 ∷ 7 ∷ []
unfolding append_max last_n
append_test = refl

set_item_test : set_item {V = ℕ} 2 9 30 ((7, 10) ∷ (8, 20) ∷ []) ≡ (8, 20) ∷ (9, 30) ∷ []
unfolding set_item agentica_server.Base.put agentica_server.Base.keys agentica_server.Base.erase
set_item_test = refl

abbrev empty : Holder ℕ ℕ
empty = init

abbrev listened : Holder ℕ ℕ
listened = add_global_listener 70 (add_listener 4 60 empty)

-- The key's own listener is called before the global one.
add_test : (add 4 11 listened).0 ≡ (60, 11) ∷ (70, 11) ∷ []
unfolding add add_listener add_global_listener agentica_server.Messages.Holder.get_item get
    agentica_server.Messages.Holder.adjust agentica_server.Base.put append_max
add_test = refl

filter_test : (get_by_key 4 (some (leb 2)) (add 4 3 (add 4 1 empty).1).1).0 ≡ 3 ∷ []
unfolding get_by_key add select agentica_server.Messages.Holder.get_item get
    agentica_server.Messages.Holder.adjust agentica_server.Base.put append_max
filter_test = refl

abbrev some_ops : List (Op ℕ ℕ)
some_ops = listen 4 60 ∷ record_message 4 1 ∷ read 5 none ∷ record_message 4 2 ∷ forget 5 ∷ []

run_ops-IsBounded_example : IsBounded (run_ops some_ops empty)
run_ops-IsBounded_example = run_ops-IsBounded some_ops empty IsBounded-init

abbrev some_messages : List (ℕ × ℕ)
some_messages = (4, 1) ∷ (5, 2) ∷ (4, 3) ∷ []

few_keys : length (remember_all some_messages []) ≤ max_keys
unfolding remember_all agentica_server.Messages.Holder.History.remember agentica_server.Base.put
few_keys = omega arith

get_by_key-add_all_example :
    (get_by_key 4 none (add_all some_messages (init {L = ℕ}))).0
    ≡ last_n 1024 (or_empty (get 4 (remember_all some_messages [])))
get_by_key-add_all_example = get_by_key-add_all ℕ some_messages 4 few_keys

-- n keys, the newest first.
abbrev fill : ℕ → Dict (List ℕ)
fill zero = []
fill (suc n) = (n, n ∷ []) ∷ fill n

length-fill : (n : ℕ) → length (fill n) ≡ n
length-fill zero = refl
length-fill (suc n) = omega (arith, length-fill n)

has-fill : (n k : ℕ) → n ≤ k → has k (fill n) ≡ false
unfolding has
has-fill zero k h = refl
has-fill (suc n) k h = ground (arith, has-fill n k)

fill-IsUnique : (n : ℕ) → IsUnique (fill n)
fill-IsUnique zero = tt
fill-IsUnique (suc n) = (has-fill n n (omega arith), fill-IsUnique n)

abbrev full : Holder ℕ ℕ
full = record { messages = fill 256; listeners = []; global_listeners = [] }

get_by_key-evicts_example :
    get_by_key 300 none full ≡ ([], record full { messages = fill 255 ++ (300, []) ∷ [] })
get_by_key-evicts_example =
    get_by_key-evicts 300 none full (255, 255 ∷ []) (fill 255) refl (length-fill 256)
      (fill-IsUnique 256) (has-fill 256 300 (omega arith))
