-- ===== src/LogStore/Tests.antt =====
-- Tests of `src/development/fancy_logger/src/fancy_logger/store.py`.
use agentica_server.Base.{ℕ, ◌+◌, zero, suc, ◌≡◌, refl, Option, none, some, List, [], ◌∷◌, length}
use agentica_server.LogStore.{Message, init, add, uids, iids, query, clear}
use agentica_server.LogStore.Order.{add_all, uids-add_all}

abbrev of_uid : ℕ → ℕ → Message
of_uid u time = record {
  type = some 3;
  inner_type = none;
  uid = some u;
  iid = some (u + 1);
  timestamp = some time;
}

abbrev nameless : Message
nameless = record { type = none; inner_type = some 4; uid = none; iid = some 9; timestamp = none }

abbrev some_messages : List Message
some_messages = of_uid 8 5 ∷ nameless ∷ of_uid 2 1 ∷ of_uid 8 2 ∷ []

uids-add_all_example : uids (add_all some_messages (clear init)) ≡ 8 ∷ 2 ∷ []
uids-add_all_example = uids-add_all some_messages init

stored_iids_test : iids 8 (add_all some_messages init) ≡ 9 ∷ []
unfolding iids agentica_server.Base.keys agentica_server.Base.get add agentica_server.Base.put init
    agentica_server.Base.has
stored_iids_test = refl

newest_test : query none (some 8) none [] [] (some 1) (add_all some_messages init) ≡ of_uid 8 5 ∷ []
unfolding query add init
newest_test = refl

-- A limit of no message at all returns them all.
no_limit_test : length (query none none none [] [] (some 0) (add_all some_messages init)) ≡ 4
unfolding query add init
no_limit_test = refl
