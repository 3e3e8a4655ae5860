-- ===== src/Transport/Tests.antt =====
-- Tests of `src/server_session_manager/transport.py`, with numbers for messages.
use agentica_server.Base.{ℕ, ◌≡◌, refl, List, [], ◌∷◌, ◌++◌}
use agentica_server.Transport.{
  sent, cut_off, Event, enqueued, started, resumed, delivered, raised, init, happen_all,
}
use agentica_server.Transport.Order.{messages_of, unsent, unsent-happen_all}
use agentica_server.Transport.Failures.{broken, happen_all-broken}

abbrev busy : List (Event ℕ)
busy =
    enqueued 1
    ∷ started
    ∷ resumed
    ∷ enqueued 2
    ∷ delivered
    ∷ resumed
    ∷ raised
    ∷ started
    ∷ enqueued 3
    ∷ resumed
    ∷ []

unsent-happen_all_example :
    messages_of (happen_all busy init).0 ++ unsent (happen_all busy init).1 ≡ 1 ∷ 2 ∷ 3 ∷ []
unfolding init
unsent-happen_all_example = unsent-happen_all busy init

busy_test : (happen_all busy init).0 ≡ sent 1 ∷ cut_off 2 ∷ []
unfolding happen_all init
busy_test = refl

abbrev later : List (Event ℕ)
later = started ∷ enqueued 4 ∷ resumed ∷ delivered ∷ []

stays_broken_test : happen_all later (broken (3 ∷ [])) ≡ ([], broken (3 ∷ 4 ∷ []))
stays_broken_test = happen_all-broken later (3 ∷ []) tt
