-- ===== src/Relay/Streams.antt =====
-- relay.py: the streams of `run_once` hold the claimed messages, each in that of its key.
use andruha_identity_service.Prelude.{
  String, ◌≡◌, ◌↔◌, ◌⊎◌, inl, inr, List, [], ◌∷◌, ◌++◌, str_eq, if_ind, if_cases,
}
use andruha_identity_service.Table.{In}
use andruha_identity_service.Outbox.Message.{OutboxMessage}
use andruha_identity_service.Relay.{append_to, by_key}

-- The message is in one of the streams.
abbrev pub Listed : OutboxMessage → List (String × List OutboxMessage) → Type 0
Listed m [] = ⊥
Listed m ((key, ms) ∷ streams) = In m ms ⊎ Listed m streams

In-append :
    (x m : OutboxMessage) (ms : List OutboxMessage) → In x (ms ++ m ∷ []) → (x ≡ m) ⊎ In x ms
In-append x m [] (inl e) = inl e
In-append x m [] (inr i) = absurd i
In-append x m (y ∷ ms) (inl e) = inr (inl e)
In-append x m (y ∷ ms) (inr i) = elim (In-append x m ms i) [ inl e ↦ inl e | inr j ↦ inr (inr j) ]

append-In :
    (x m : OutboxMessage) (ms : List OutboxMessage) → (x ≡ m) ⊎ In x ms → In x (ms ++ m ∷ [])
append-In x m [] (inl e) = inl e
append-In x m [] (inr i) = absurd i
append-In x m (y ∷ ms) (inl e) = inr (append-In x m ms (inl e))
append-In x m (y ∷ ms) (inr (inl e)) = inl e
append-In x m (y ∷ ms) (inr (inr i)) = inr (append-In x m ms (inr i))

append_to-Listed :
    (x m : OutboxMessage) (streams : List (String × List OutboxMessage))
    → Listed x (append_to m streams)
    → (x ≡ m) ⊎ Listed x streams
unfolding append_to
append_to-Listed x m [] (inl (inl e)) = inl e
append_to-Listed x m [] (inl (inr i)) = absurd i
append_to-Listed x m [] (inr i) = absurd i
append_to-Listed x m ((key, ms) ∷ streams) h = elim (if_cases (Listed x) (str_eq key m.key) h) [
  | inl (_, inl i) ↦ elim (In-append x m ms i) [ inl e ↦ inl e | inr j ↦ inr (inl j) ]
  | inl (_, inr l) ↦ inr (inr l)
  | inr (_, inl i) ↦ inr (inl i)
  | inr (_, inr l) ↦ elim (append_to-Listed x m streams l) [ inl e ↦ inl e | inr k ↦ inr (inr k) ]
]

Listed-append_to :
    (x m : OutboxMessage) (streams : List (String × List OutboxMessage))
    → (x ≡ m) ⊎ Listed x streams
    → Listed x (append_to m streams)
unfolding append_to
Listed-append_to x m [] (inl e) = inl (inl e)
Listed-append_to x m [] (inr l) = absurd l
Listed-append_to x m ((key, ms) ∷ streams) (inl e) =
    if_ind (Listed x) (str_eq key m.key) (λ _. inl (append-In x m ms (inl e)))
      (λ _. inr (Listed-append_to x m streams (inl e)))
Listed-append_to x m ((key, ms) ∷ streams) (inr (inl i)) =
    if_ind (Listed x) (str_eq key m.key) (λ _. inl (append-In x m ms (inr i))) (λ _. inl i)
Listed-append_to x m ((key, ms) ∷ streams) (inr (inr l)) =
    if_ind (Listed x) (str_eq key m.key) (λ _. inr l)
      (λ _. inr (Listed-append_to x m streams (inr l)))

by_key-Listed :
    (x : OutboxMessage) (streams : List (String × List OutboxMessage)) (ms : List OutboxMessage)
    → Listed x (by_key streams ms)
    → Listed x streams ⊎ In x ms
unfolding by_key
by_key-Listed x streams [] l = inl l
by_key-Listed x streams (m ∷ ms) l = elim (by_key-Listed x (append_to m streams) ms l) [
  | inr i ↦ inr (inr i)
  | inl k ↦ elim (append_to-Listed x m streams k) [ inl e ↦ inr (inl e) | inr j ↦ inl j ]
]

Listed-by_key :
    (x : OutboxMessage) (streams : List (String × List OutboxMessage)) (ms : List OutboxMessage)
    → Listed x streams ⊎ In x ms
    → Listed x (by_key streams ms)
unfolding by_key
Listed-by_key x streams [] (inl l) = l
Listed-by_key x streams [] (inr i) = absurd i
Listed-by_key x streams (m ∷ ms) (inl l) =
    Listed-by_key x (append_to m streams) ms (inl (Listed-append_to x m streams (inr l)))
Listed-by_key x streams (m ∷ ms) (inr (inl e)) =
    Listed-by_key x (append_to m streams) ms (inl (Listed-append_to x m streams (inl e)))
Listed-by_key x streams (m ∷ ms) (inr (inr i)) = Listed-by_key x (append_to m streams) ms (inr i)

-- The streams hold exactly the messages that were claimed.
pub Listed-iff : (x : OutboxMessage) (ms : List OutboxMessage) → Listed x (by_key [] ms) ↔ In x ms
Listed-iff x ms = (
  λ l. elim (by_key-Listed x [] ms l) [ inl none_yet ↦ absurd none_yet | inr i ↦ i ],
  λ i. Listed-by_key x [] ms (inr i),
)
