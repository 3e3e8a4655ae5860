-- ===== src/Transport/Failures.antt =====
-- What the sender of `src/server_session_manager/transport.py` does after a send that has raised.
use agentica_server.Base.{◌≡◌, sym, ap, ◌∙◌, some, List, [], ◌∷◌, ◌++◌, append-nil, append_assoc}
use agentica_server.Transport.{
  over, WebSocketSender, Event, enqueued, started, stopped, resumed, delivered, raised, enqueue,
  start, get_message, send_ends, happen, happen_all,
}
use agentica_server.Transport.Order.{put_in}

module _ {M : Type 0} where
  abbrev pub IsUnstopped : List (Event M) → Type 0
  IsUnstopped [] = Unit
  IsUnstopped (stopped ∷ es) = ⊥
  IsUnstopped (enqueued m ∷ es) = IsUnstopped es
  IsUnstopped (started ∷ es) = IsUnstopped es
  IsUnstopped (resumed ∷ es) = IsUnstopped es
  IsUnstopped (delivered ∷ es) = IsUnstopped es
  IsUnstopped (raised ∷ es) = IsUnstopped es

  abbrev pub broken : List M → WebSocketSender M
  broken q = record { queue = q; writer_task = some over }

  -- Once the writer is over without a stop, nothing is sent any more, whether the sender is started
  -- again or not, until it is stopped; all that is enqueued waits.
  pub happen_all-broken :
      (es : List (Event M)) (q : List M)
      → IsUnstopped es
      → happen_all es (broken q) ≡ ([], broken (q ++ put_in es))
  unfolding happen_all happen enqueue start get_message send_ends
  happen_all-broken [] q h = ap (λ r. ([], broken r)) (sym (append-nil q))
  happen_all-broken (enqueued m ∷ es) q h =
      happen_all-broken es (q ++ m ∷ []) h
      ∙ ap (λ r. ([], broken r)) (append_assoc q (m ∷ []) (put_in es))
  happen_all-broken (stopped ∷ es) q h = absurd h
  happen_all-broken (started ∷ es) q h = happen_all-broken es q h
  happen_all-broken (resumed ∷ es) q h = happen_all-broken es q h
  happen_all-broken (delivered ∷ es) q h = happen_all-broken es q h
  happen_all-broken (raised ∷ es) q h = happen_all-broken es q h
