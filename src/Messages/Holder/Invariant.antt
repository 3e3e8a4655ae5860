-- ===== src/Messages/Holder/Invariant.antt =====
-- The memory bound of `class Holder` of `src/messages/holder.py`, over every sequence of its
-- mutating operations, reads included.
use agentica_server.Base.{ℕ, ◌≤◌, Bool, Option, List, [], ◌∷◌, ◌++◌, arith, length}
use agentica_server.Messages.Holder.Bounded.{append_max}
use agentica_server.Messages.Holder.Bounds.{
  Fits, length-last_n, get_item-Fits, adjust-Fits, erase-Fits,
}
use agentica_server.Messages.Holder.{
  Holder, init, max_keys, max_messages, max_listeners, add_listener, add_global_listener, add,
  get_by_key, remove_key,
}

module _ {A : Type 0} where
  abbrev pub AtMost : ℕ → List A → Type 0
  AtMost n xs = length xs ≤ n

  append_max-AtMost : (n : ℕ) (x : A) (xs : List A) → AtMost n (append_max n x xs)
  unfolding append_max
  append_max-AtMost n x xs = length-last_n n (xs ++ x ∷ [])

module _ {M L : Type 0} where
  -- At most 256 keys, none twice, of 1024 messages and 128 listeners each; 128 global listeners.
  pub record IsBounded (h : Holder M L) : Type 0 where
    pub messages : Fits (AtMost max_messages) max_keys h.messages
    pub listeners : Fits (AtMost max_listeners) max_keys h.listeners
    pub global_listeners : AtMost max_listeners h.global_listeners

  pub IsBounded-init : IsBounded init
  IsBounded-init = record {
    messages = record { unique = tt; few = omega arith; all = tt };
    listeners = record { unique = tt; few = omega arith; all = tt };
    global_listeners = omega arith;
  }

-- The operations that change a holder.
pub data Op (M L : Type 0) : Type 0 where
  listen : ℕ → L → Op M L
  listen_global : L → Op M L
  record_message : ℕ → M → Op M L
  read : ℕ → Option (M → Bool) → Op M L
  forget : ℕ → Op M L

module _ {M L : Type 0} where
  abbrev pub run_op : Op M L → Holder M L → Holder M L
  run_op (listen k l) h = add_listener k l h
  run_op (listen_global l) h = add_global_listener l h
  run_op (record_message k m) h = (add k m h).1
  run_op (read k p) h = (get_by_key k p h).1
  run_op (forget k) h = remove_key k h

  abbrev pub run_ops : List (Op M L) → Holder M L → Holder M L
  run_ops [] h = h
  run_ops (op ∷ ops) h = run_ops ops (run_op op h)

  run_op-IsBounded : (op : Op M L) (h : Holder M L) → IsBounded h → IsBounded (run_op op h)
  unfolding add_listener add_global_listener add get_by_key remove_key
  run_op-IsBounded (listen k l) h b = record {
    messages = b.messages;
    listeners =
        adjust-Fits (AtMost max_listeners) max_keys (omega arith) k (append_max max_listeners l) _
          (append_max-AtMost max_listeners l)
          (get_item-Fits (AtMost max_listeners) max_keys (omega arith) [] k h.listeners
            (omega arith) b.listeners);
    global_listeners = b.global_listeners;
  }
  run_op-IsBounded (listen_global l) h b = record {
    messages = b.messages;
    listeners = b.listeners;
    global_listeners = append_max-AtMost max_listeners l h.global_listeners;
  }
  run_op-IsBounded (record_message k m) h b = record {
    messages =
        adjust-Fits (AtMost max_messages) max_keys (omega arith) k (append_max max_messages m) _
          (append_max-AtMost max_messages m)
          (get_item-Fits (AtMost max_messages) max_keys (omega arith) [] k h.messages (omega arith)
            b.messages);
    listeners =
        get_item-Fits (AtMost max_listeners) max_keys (omega arith) [] k h.listeners (omega arith)
          b.listeners;
    global_listeners = b.global_listeners;
  }
  run_op-IsBounded (read k p) h b = record {
    messages =
        get_item-Fits (AtMost max_messages) max_keys (omega arith) [] k h.messages (omega arith)
          b.messages;
    listeners = b.listeners;
    global_listeners = b.global_listeners;
  }
  run_op-IsBounded (forget k) h b = record {
    messages = erase-Fits (AtMost max_messages) max_keys (omega arith) k h.messages b.messages;
    listeners = erase-Fits (AtMost max_listeners) max_keys (omega arith) k h.listeners b.listeners;
    global_listeners = b.global_listeners;
  }

  -- From a bounded holder, any sequence of operations, reads of missing keys among them, ends in a
  -- bounded holder: at most 256 keys, none twice, of 1024 messages and 128 listeners each, and 128
  -- global listeners.
  pub run_ops-IsBounded :
      (ops : List (Op M L)) (h : Holder M L) → IsBounded h → IsBounded (run_ops ops h)
  run_ops-IsBounded [] h b = b
  run_ops-IsBounded (op ∷ ops) h b = run_ops-IsBounded ops (run_op op h) (run_op-IsBounded op h b)
